-- ===== src/Lifecycle/Tests.antt =====
-- The manager of workers on concrete inputs: the world is the list of the names that were called.
use Prim.Native.String.{String}
use go_kitbox.Prelude.{◌≡◌, ℕ, refl, false, [], ◌∷◌, List, none, some, Bool}
use go_kitbox.Prelude.Maps.{lookup, insert}
use go_kitbox.Prelude.Run.{ok, Returns}
use go_kitbox.Lifecycle.Hooks.{Hooks, HookFunc, new_hooks, call_hooks, call_worker_hooks}
use go_kitbox.Lifecycle.Manager.{
  Manager, new_manager, start_worker, add_worker, begin_run, open_run, startup, start_loop,
  start_workers, begin_routine, by_signal, wake,
}
use go_kitbox.Lifecycle.Manager.Inv.{IsValid}
use go_kitbox.Lifecycle.Manager.Runs.{
  Op, op_add, op_begin, op_open, op_startup, op_start, op_routine_begin, op_wake, step, run,
  new_manager-IsValid,
}
use go_kitbox.Lifecycle.Manager.Roster.{roster}
use go_kitbox.Lifecycle.Manager.Shutdown.{StopsAll, run-StopsAll}
use go_kitbox.Lifecycle.Manager.Cancels.{Calm, calm_end, calm_step, CancelsAll, run-CancelsAll}
use go_kitbox.Lifecycle.Manager.Twice.{IsTwice, added_while_starting}

abbrev hooks : Hooks (List String) String
hooks = record new_hooks { on_worker_start = (λ name e w. name ∷ w) ∷ [] }

abbrev canceled : String → Bool
canceled s = false

abbrev stopped : HookFunc (List String) String
stopped w = (none, "stopped" ∷ w)

abbrev script : List (Op (List String) String)
script =
    op_add "reader" (some stopped)
    ∷ op_begin
    ∷ op_open
    ∷ op_startup
    ∷ op_start
    ∷ op_routine_begin 2
    ∷ op_add "writer" none
    ∷ op_wake by_signal
    ∷ []

run-StopsAll_example :
    Returns
      (StopsAll (roster canceled script (ok (new_manager hooks, [])) []))
      (run canceled script (new_manager hooks, []))
run-StopsAll_example = run-StopsAll canceled hooks script []

roster1 :
    roster canceled script (ok (new_manager hooks, [])) []
    ≡ ("writer", none) ∷ ("reader", some stopped) ∷ []
unfolding new_manager step add_worker begin_run open_run startup call_hooks start_workers start_loop
    start_worker begin_routine call_worker_hooks wake lookup insert
roster1 = refl

script-Calm : Calm canceled script (ok (new_manager hooks, []))
unfolding new_manager step add_worker begin_run open_run startup call_hooks start_workers start_loop
    start_worker begin_routine call_worker_hooks wake lookup insert
script-Calm = calm_step refl (
    calm_step refl (
      calm_step refl (
        calm_step refl
          (calm_step refl (calm_step refl (calm_step refl (calm_step refl calm_end)))))))

run-CancelsAll_example : Returns (CancelsAll canceled) (run canceled script (new_manager hooks, []))
run-CancelsAll_example = run-CancelsAll canceled hooks script [] script-Calm

abbrev opened_manager : Manager (List String) String
unfolding new_manager begin_run
opened_manager = (begin_run (new_manager hooks)).1

opened_manager-IsValid : IsValid opened_manager
unfolding new_manager begin_run
opened_manager-IsValid =
    (let v = new_manager-IsValid canceled hooks in
      record { order = v.order; counted = v.counted; made = v.made })

added_while_starting_example :
    Returns
      (λ m'. (d : ℕ) × IsTwice "reader" 1 d m')
      (start_workers (add_worker "reader" (some stopped) opened_manager).1)
unfolding new_manager begin_run lookup
added_while_starting_example =
    added_while_starting "reader" (some stopped) opened_manager opened_manager-IsValid refl refl
