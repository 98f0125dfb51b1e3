-- ===== src/Timer/Manager/Late.antt =====
-- The end of the goroutine of a once timer, after its timer was replaced.
use Prim.Native.String.{String}
use go_kitbox.Prelude.{
  Option, not, ◌<◌, ℕ, ◌≡◌, ◌≢◌, refl, ap, ◌∙◌, Bool, true, false, List, ◌∷◌, none, some,
  if◌then◌else◌, arith,
}
use mathlib.Core.Path.{subst}
use go_kitbox.Prelude.Keys.{string_eq, beq_self}
use go_kitbox.Prelude.Maps.{lookup, delete, lookup-insert_self, lookup-delete}
use go_kitbox.Prelude.Run.{ok, ◌>>=◌, Returns, returns}
use go_kitbox.Timer.Manager.{
  Timer, Manager, elem, create, create_timer, create_once_timer, remove_timer, put, OnceRoutine,
  once_finish,
}
use go_kitbox.Timer.Manager.Inv.{ticks-false, IsValid, Safe, works, remove_timer-Safe, stop_lem}
use go_kitbox.Timer.Manager.Runs.{put-IsValid}

elem_first : (c : ℕ) (cs : List ℕ) → elem c (c ∷ cs) ≡ true
elem_first c cs = ground arith

module _ {Callback : Type 0} where
  -- The stop channel of the timer with a name.
  abbrev pub chan_in : Option (Timer Callback) → Option ℕ
  chan_in none = none
  chan_in (some t) = some t.stop_chan

  abbrev pub chan_of : String → Manager Callback → Option ℕ
  chan_of id m = chan_in (lookup id m.timers)

  -- The timer that `put` makes.
  abbrev made : String → ℕ → Callback → Bool → ℕ → Timer Callback
  made id interval callback is_once chan = record {
    id = id;
    interval = interval;
    callback = callback;
    ticks = not is_once;
    stop_chan = chan;
    once_done = false;
    is_once = is_once;
  }

  -- A manager without a timer that it had.
  abbrev without : String → Timer Callback → Manager Callback → Manager Callback
  without id t m = record m { closed = t.stop_chan ∷ m.closed; timers = delete id m.timers }

  remove_timer-without :
      (id : String) (t : Timer Callback) (m : Manager Callback)
      → IsValid m
      → lookup id m.timers ≡ some t
      → remove_timer id m ≡ ok (without id t m)
  unfolding remove_timer
  remove_timer-without id t m v h = rw (h, stop_lem id t m v h, remove_timer) refl

  works-IsValid : (m : Manager Callback) → Safe (ok m) → IsValid m
  works-IsValid m (works v) = v

  without-IsValid :
      (id : String) (t : Timer Callback) (m : Manager Callback)
      → IsValid m
      → lookup id m.timers ≡ some t
      → IsValid (without id t m)
  without-IsValid id t m v h =
      works-IsValid (without id t m)
        (subst Safe (remove_timer-without id t m v h) (remove_timer-Safe id m v))

  gone_lem :
      (id : String) (t : Timer Callback) (m : Manager Callback)
      → lookup id (without id t m).timers ≡ none
  gone_lem id t m =
      lookup-delete id id m.timers ∙ ap (λ b. if b then none else lookup id m.timers) (beq_self id)

  -- While the goroutine of a once timer is in its callback, that timer may be removed and another one
  -- created under its name, on a valid manager and with a positive interval. The goroutine, at its end,
  -- then stops the new timer: its channel, which is not the goroutine's, is closed, and the name is free.
  pub once_finish_late :
      (id : String) (delay interval : ℕ) (callback other : Callback) (m : Manager Callback)
      → IsValid m
      → lookup id m.timers ≡ none
      → 0 < interval
      → let routine : OnceRoutine = record { id = id; stop_chan = m.next_chan } in
        Returns
          (λ (before, m').
            (chan : ℕ) × (chan_of id before ≡ some chan)
            × (chan ≢ routine.stop_chan)
            × (elem chan before.closed ≡ false)
            × (elem chan m'.closed ≡ true)
            × (lookup id m'.timers ≡ none))
          (create_once_timer id delay callback m >>= λ m1. remove_timer id m1 >>= λ m2.
            create_timer id interval other m2 >>= λ m3.
            once_finish routine m3 >>= λ m4. ok (m3, m4))
  unfolding create_once_timer create_timer create once_finish
  once_finish_late id delay interval callback other m v h positive =
      let t1 = made id delay callback true m.next_chan in
      let m1 = put id delay callback true m in
      let v1 = put-IsValid id delay callback true m v in
      let here1 = lookup-insert_self id t1 m.timers in
      let m2 = without id t1 m1 in
      let t3 = made id interval other false m2.next_chan in
      let m3 = put id interval other false m2 in
      let v3 = put-IsValid id interval other false m2 (without-IsValid id t1 m1 v1 here1) in
      let here3 : lookup id m3.timers ≡ some t3 = lookup-insert_self id t3 m2.timers in
      rw (h, remove_timer-without id t1 m1 v1 here1, create)
        (rw (gone_lem id t1 m1, ticks-false false interval positive, create)
          (rw (remove_timer-without id t3 m3 v3 here3, once_finish)
            (returns (
              m2.next_chan,
              ap chan_in here3,
              (λ e. absurd (omega (arith, e))),
              (v3.open_chan id t3 here3).not_closed,
              elem_first m2.next_chan m3.closed,
              gone_lem id t3 m3,
            ))))
