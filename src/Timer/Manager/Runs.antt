-- ===== src/Timer/Manager/Runs.antt =====
-- Sequences of calls of a Manager, of its users and of its goroutines.
use Prim.Native.String.{String}
use go_kitbox.Prelude.{
  ◌<◌, ℕ, ◌≡◌, ◌≢◌, refl, ap, ◌∙◌, Bool, true, false, List, [], ◌∷◌, map, none, some, if◌then◌else◌,
  arith,
}
use go_kitbox.Prelude.Keys.{string_eq, beq_self, beq_false}
use go_kitbox.Prelude.Maps.{lookup, lookup-delete}
use go_kitbox.Prelude.Run.{Run, ok, err, panic, ◌>>=◌, Returns, returns, Returns-bind}
use go_kitbox.Timer.Manager.{
  Timer, TimerError, Manager, create_timer, create_once_timer, remove_timer, reset_timer, stop_all,
  put, new_manager,
}
use go_kitbox.Timer.Manager.Inv.{
  ticks-false, IsValid, Safe, fails, works, create-Safe, remove_timer-Safe, reset_timer-Safe,
  stop_loop-IsValid, stop_lem, started-IsValid, IsValid-Others,
}

pub data Op (Callback : Type 0) : Type 0 where
  op_create op_create_once : String → ℕ → Callback → Op Callback
  op_remove : String → Op Callback
  op_reset : String → ℕ → Op Callback
  op_stop_all : Op Callback

module _ {Callback : Type 0} where
  -- The interval that a ticker is made with is positive.
  abbrev pub IsTimed : Op Callback → Type 0
  IsTimed (op_create id interval callback) = 0 < interval
  IsTimed (op_create_once id delay callback) = Unit
  IsTimed (op_remove id) = Unit
  IsTimed (op_reset id interval) = 0 < interval
  IsTimed op_stop_all = Unit

  pub data AllTimed : List (Op Callback) → Type 0 where
    all_ended : AllTimed []
    timed :
        {op : Op Callback} {ops : List (Op Callback)}
        → IsTimed op
        → AllTimed ops
        → AllTimed (op ∷ ops)

  unfoldable pub step : Op Callback → Manager Callback → Run TimerError (Manager Callback)
  step (op_create id interval callback) m = create_timer id interval callback m
  step (op_create_once id delay callback) m = create_once_timer id delay callback m
  step (op_remove id) m = remove_timer id m
  step (op_reset id interval) m = reset_timer id interval m
  step op_stop_all m = stop_all m

  -- An error changes nothing, and the next call follows.
  abbrev pub settle :
      Manager Callback → Run TimerError (Manager Callback) → Run ⊥ (Manager Callback)
  settle m (ok m') = ok m'
  settle m (err e) = ok m
  settle m panic = panic

  unfoldable pub run : List (Op Callback) → Manager Callback → Run ⊥ (Manager Callback)
  run [] m = ok m
  run (op ∷ ops) m = settle m (step op m) >>= λ m'. run ops m'

  Safe-settle :
      (m : Manager Callback) {r : Run TimerError (Manager Callback)}
      → IsValid m
      → Safe r
      → Returns IsValid (settle m r)
  Safe-settle m v fails = returns v
  Safe-settle m v (works w) = returns w

  -- the last line of StopAll
  Safe-stop_all :
      {r : Run TimerError (Manager Callback)}
      → Returns IsValid r
      → Safe (r >>= λ m'. ok (record m' { cancelled = true }))
  Safe-stop_all (returns v) = works (record {
    open_chan = λ id t h.
        (let o = v.open_chan id t h in
          record { not_done = o.not_done; not_closed = o.not_closed; made = o.made });
    own_chan = v.own_chan;
    only_made = v.only_made;
  })

  step-Safe : (op : Op Callback) (m : Manager Callback) → IsValid m → IsTimed op → Safe (step op m)
  unfolding step create_timer create_once_timer stop_all
  step-Safe (op_create id interval callback) m v h =
      create-Safe id interval callback false m v (ticks-false false interval h)
  step-Safe (op_create_once id delay callback) m v h = create-Safe id delay callback true m v refl
  step-Safe (op_remove id) m v h = remove_timer-Safe id m v
  step-Safe (op_reset id interval) m v h = reset_timer-Safe id interval m v h
  step-Safe op_stop_all m v h = Safe-stop_all (stop_loop-IsValid (map (λ p. p.0) m.timers) m v)

  -- No sequence of calls with positive intervals on a valid manager panics: no stop channel is closed
  -- twice, and no ticker refuses its interval. At the end every timer still has an open stop channel of
  -- its own.
  pub manager_run-IsValid :
      (ops : List (Op Callback)) (m : Manager Callback)
      → IsValid m
      → AllTimed ops
      → Returns IsValid (run ops m)
  unfolding run
  manager_run-IsValid [] m v all_ended = returns v
  manager_run-IsValid (op ∷ ops) m v (timed h more) =
      Returns-bind (Safe-settle m v (step-Safe op m v h))
        λ m' v'. manager_run-IsValid ops m' v' more

  pub new_manager-IsValid : IsValid (new_manager {Callback = Callback})
  unfolding new_manager lookup
  new_manager-IsValid = record {
    open_chan = λ id t h. ground (arith, h);
    own_chan = λ id id' t t' h h' e. ground (arith, h);
    only_made = λ c h. ground (arith, h);
  }

  pub put-IsValid :
      (id : String) (interval : ℕ) (callback : Callback) (is_once : Bool) (m : Manager Callback)
      → IsValid m
      → IsValid (put id interval callback is_once m)
  put-IsValid id interval callback is_once m v =
      started-IsValid id _ m refl refl (IsValid-Others id m v)

  -- What RemoveTimer does to a valid manager that has the timer.
  pub record Removed (id : String) (t : Timer Callback) (m m' : Manager Callback) : Type 0 where
    pub signalled : m'.closed ≡ t.stop_chan ∷ m.closed
    pub gone : lookup id m'.timers ≡ none
    pub rest : (j : String) → id ≢ j → lookup j m'.timers ≡ lookup j m.timers

  -- RemoveTimer of a timer that a valid manager has closes the timer's stop channel and no other, and
  -- takes the timer out of the map and no other.
  pub remove_timer-Removed :
      (id : String) (t : Timer Callback) (m : Manager Callback)
      → IsValid m
      → lookup id m.timers ≡ some t
      → Returns (Removed id t m) (remove_timer id m)
  unfolding remove_timer
  remove_timer-Removed id t m v h =
      rw (h, stop_lem id t m v h, remove_timer)
        (returns (record {
          signalled = refl;
          gone =
              lookup-delete id id m.timers
              ∙ ap (λ b. if b then none else lookup id m.timers) (beq_self id);
          rest = λ j ne.
              lookup-delete id j m.timers
              ∙ ap (λ b. if b then none else lookup j m.timers) (beq_false id j ne);
        }))
