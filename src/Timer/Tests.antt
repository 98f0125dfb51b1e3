-- ===== src/Timer/Tests.antt =====
-- The timers on concrete inputs.
use Prim.{tt}
use Prim.Native.String.{String}
use go_kitbox.Prelude.{
  ◌≢◌, false, ℕ, zero, suc, ◌≡◌, refl, true, false, [], ◌∷◌, Option, none, some, List, arith,
}
use go_kitbox.Prelude.Keys.{string_eq}
use go_kitbox.Prelude.Maps.{lookup}
use go_kitbox.Prelude.Run.{ok, ◌>>=◌, Returns}
use go_kitbox.Timer.Manager.{
  Timer, Manager, elem, create_once_timer, once_finish, create_timer, remove_timer, put,
  new_manager,
}
use go_kitbox.Timer.Manager.Inv.{IsValid}
use go_kitbox.Timer.Manager.Runs.{
  Op, AllTimed, timed, all_ended, op_create, op_create_once, op_remove, op_reset, op_stop_all, run,
  manager_run-IsValid, new_manager-IsValid,
}
use go_kitbox.Timer.Manager.Late.{chan_of, once_finish_late}
use go_kitbox.Timer.Retry.{retry}
use go_kitbox.Timer.Retry.Attempts.{Outcome, retry-Outcome}
use go_kitbox.Timer.Throttle.{throttle_run, Spaced, throttle_run-Spaced}

abbrev idle : Manager String
idle = new_manager

abbrev script : List (Op String)
script =
    op_create "tick" 5 "a"
    ∷ op_create_once "late" 9 "b"
    ∷ op_reset "tick" 7
    ∷ op_remove "tick"
    ∷ op_remove "tick"
    ∷ op_stop_all
    ∷ []

script-AllTimed : AllTimed script
script-AllTimed =
    timed (omega arith) (timed tt (timed (omega arith) (timed tt (timed tt (timed tt all_ended)))))

manager_run-IsValid_example : Returns IsValid (run script idle)
manager_run-IsValid_example = manager_run-IsValid script idle new_manager-IsValid script-AllTimed

abbrev ticking : Manager String
ticking = put "tick" 5 "a" false idle

abbrev tick : Timer String
tick = record {
  id = "tick";
  interval = 5;
  callback = "a";
  ticks = true;
  stop_chan = 0;
  once_done = false;
  is_once = false;
}

once_finish_late_example :
    Returns
      (λ (before, m').
        (chan : ℕ) × (chan_of "late" before ≡ some chan)
        × (chan ≢ 0)
        × (elem chan before.closed ≡ false)
        × (elem chan m'.closed ≡ true)
        × (lookup "late" m'.timers ≡ none))
      (create_once_timer "late" 9 "b" idle >>= λ m1. remove_timer "late" m1 >>= λ m2.
        create_timer "late" 5 "a" m2 >>= λ m3.
        once_finish (record { id = "late"; stop_chan = 0 }) m3 >>= λ m4. ok (m3, m4))
unfolding new_manager lookup
once_finish_late_example =
    once_finish_late "late" 9 5 "b" "a" idle new_manager-IsValid refl (omega arith)

-- It fails while the world is above 0.
abbrev flaky : ℕ → Option String × ℕ
flaky zero = (none, 0)
flaky (suc n) = (some "busy", n)

retry-Outcome_example : Outcome (λ d. d) 3 100 flaky none 2 (retry 3 100 flaky 2)
retry-Outcome_example = retry-Outcome 3 100 flaky 2

throttle_run-Spaced_example : Spaced 10 none (throttle_run 10 (3 ∷ 5 ∷ 14 ∷ 15 ∷ 30 ∷ []) none)
throttle_run-Spaced_example = throttle_run-Spaced 10 (3 ∷ 5 ∷ 14 ∷ 15 ∷ 30 ∷ []) none
