-- ===== src/Timer/Manager.antt =====
-- Manager of pkg/timer/timer.go: named timers, each with a goroutine that waits for its tick, for the
-- closing of its stop channel, or for the manager's end. A channel is a number. Only the closing of
-- channels is kept of the goroutines: what they do between two calls is a call of the callback, and
-- for a once timer a RemoveTimer. time.NewTicker panics on an interval that is not positive; here
-- intervals are not negative.
pub mod Inv
pub mod Runs
pub mod Late
use Prim.Native.String.{String}
use go_kitbox.Prelude.{
  ℕ, suc, Bool, true, false, not, ◌&&◌, ◌||◌, List, [], ◌∷◌, map, Option, none, some, length, ◌==◌,
  if◌then◌else◌,
}
use go_kitbox.Prelude.Keys.{string_eq}
use go_kitbox.Prelude.Maps.{lookup, insert, delete}
use go_kitbox.Prelude.Run.{Run, ok, err, panic, ◌>>=◌}

-- `once_done` says that the sync.Once has run.
pub record Timer (Callback : Type 0) : Type 0 where
  pub id : String
  pub interval : ℕ
  pub callback : Callback
  pub ticks : Bool  -- the ticker is not nil, and not stopped
  pub stop_chan : ℕ
  pub once_done : Bool
  pub is_once : Bool

pub data TimerError : Type 0 where
  already_exists not_found : String → TimerError
  invalid_duration : TimerError

-- `closed` lists the channels that were closed, `next_chan` is the next one that `make` gives.
pub record Manager (Callback : Type 0) : Type 0 where
  pub timers : List (String × Timer Callback)
  pub cancelled : Bool
  pub closed : List ℕ
  pub next_chan : ℕ

-- What the goroutine of a once timer has of it: its name and its stop channel.
pub record OnceRoutine : Type 0 where
  pub id : String
  pub stop_chan : ℕ

abbrev pub elem : ℕ → List ℕ → Bool
elem c [] = false
elem c (d ∷ ds) = (d == c) || elem c ds

module _ {Callback : Type 0} where
  unfoldable pub new_manager : Manager Callback
  new_manager = record { timers = []; cancelled = false; closed = []; next_chan = 0 }

  abbrev pub put : String → ℕ → Callback → Bool → Manager Callback → Manager Callback
  put id interval callback is_once m = record m {
    timers =
        insert id
          (record {
            id = id;
            interval = interval;
            callback = callback;
            ticks = not is_once;
            stop_chan = m.next_chan;
            once_done = false;
            is_once = is_once;
          })
          m.timers;
    next_chan = suc m.next_chan;
  }

  unfoldable pub create :
      String → ℕ → Callback → Bool → Manager Callback → Run TimerError (Manager Callback)
  create id interval callback is_once m = elim (lookup id m.timers) [
    | some t ↦ err (already_exists id)
    | none ↦ if not is_once && interval == 0 then panic else ok (put id interval callback is_once m)
  ]

  unfoldable pub create_timer :
      String → ℕ → Callback → Manager Callback → Run TimerError (Manager Callback)
  unfolding create
  create_timer id interval callback m = create id interval callback false m

  unfoldable pub create_once_timer :
      String → ℕ → Callback → Manager Callback → Run TimerError (Manager Callback)
  unfolding create
  create_once_timer id delay callback m = create id delay callback true m

  -- The body of `once.Do`, run once. To close a closed channel is a panic.
  abbrev pub stop : Timer Callback → Manager Callback → Run TimerError (Manager Callback)
  stop t m =
      if t.once_done
      then ok m
      else (if elem t.stop_chan m.closed
          then panic
          else ok (record m { closed = t.stop_chan ∷ m.closed }))

  unfoldable pub remove_timer : String → Manager Callback → Run TimerError (Manager Callback)
  remove_timer id m = elim (lookup id m.timers) [
    | none ↦ err (not_found id)
    | some t ↦ stop t m >>= λ m'. ok (record m' { timers = delete id m'.timers })
  ]

  -- The goroutine of a once timer, once its callback has returned: it removes by name, and drops the error.
  unfoldable pub once_finish : OnceRoutine → Manager Callback → Run TimerError (Manager Callback)
  unfolding remove_timer
  once_finish routine m = elim (remove_timer routine.id m) [
    | ok m' ↦ ok m'
    | err e ↦ ok m
    | panic ↦ panic
  ]

  -- The loop of StopAll over the names.
  unfoldable pub stop_loop : List String → Manager Callback → Run TimerError (Manager Callback)
  stop_loop [] m = ok m
  stop_loop (id ∷ ids) m = elim (lookup id m.timers) [
    | none ↦ stop_loop ids m
    | some t ↦ stop t m >>= λ m'. stop_loop ids (record m' { timers = delete id m'.timers })
  ]

  unfoldable pub stop_all : Manager Callback → Run TimerError (Manager Callback)
  unfolding stop_loop
  stop_all m = stop_loop (map (λ p. p.0) m.timers) m >>= λ m'. ok (record m' { cancelled = true })

  -- A new channel and a new sync.Once.
  abbrev pub restart : String → Timer Callback → ℕ → Manager Callback → Manager Callback
  restart id t new_interval m = record m {
    timers =
        insert id
          (record t {
            interval = new_interval;
            stop_chan = m.next_chan;
            once_done = false;
            ticks = not t.is_once;
          })
          m.timers;
    next_chan = suc m.next_chan;
  }

  -- The timer is stopped and started again with a new channel and a new sync.Once.
  unfoldable pub reset_timer : String → ℕ → Manager Callback → Run TimerError (Manager Callback)
  reset_timer id new_interval m = elim (lookup id m.timers) [
    | none ↦ err (not_found id)
    | some t ↦ stop t m >>= λ m'.
        if not t.is_once && new_interval == 0 then panic else ok (restart id t new_interval m')
  ]

  -- TimerInfo: the name, the interval, and whether it is a once timer
  unfoldable pub get_timer : String → Manager Callback → Option (String × ℕ × Bool)
  get_timer id m = elim (lookup id m.timers) [
    | none ↦ none
    | some t ↦ some (t.id, t.interval, t.is_once)
  ]

  unfoldable pub list_timers : Manager Callback → List String
  list_timers m = map (λ p. p.0) m.timers

  unfoldable pub get_timer_count : Manager Callback → ℕ
  get_timer_count m = length m.timers

  -- `parse` stands for time.ParseDuration.
  unfoldable pub schedule_func :
      (String → Option ℕ)
      → String
      → String
      → Callback
      → Manager Callback
      → Run TimerError (Manager Callback)
  unfolding create_timer
  schedule_func parse id spec callback m = elim (parse spec) [
    | none ↦ err invalid_duration
    | some duration ↦ create_timer id duration callback m
  ]
