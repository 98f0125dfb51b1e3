-- ===== src/Lifecycle/Manager.antt =====
-- Manager of pkg/lifecycle/manager.go. What a call does while it holds the mutex is one step, and what it
-- does between two locks is one; so the calls and the goroutines may be interleaved in any way. A context
-- is a number, the root is 0, and `cancelled` lists those whose own cancel
-- function was called (a context also ends with its parent). `routines` are
-- the goroutines of workers by their contexts, kept to the end, and `stage` says where the call of Run is
-- that found the manager not running. Signals, the time of the shutdown and the select statements are
-- choices of the steps.
pub mod Names
pub mod Inv
pub mod Runs
pub mod Owned
pub mod NameLists
pub mod Roster
pub mod Shutdown
pub mod Tracked
pub mod Cancels
pub mod Twice
use Prim.Native.String.{String}
use go_kitbox.Prelude.{
  ℕ, suc, ◌+◌, ◌-◌, ◌==◌, Bool, true, false, not, ◌||◌, List, [], ◌∷◌, ◌++◌, map, Option, none,
  some, if◌then◌else◌,
}
use mathlib.Core.List.{reverse}
use go_kitbox.Prelude.Keys.{Eq, nat_eq, string_eq}
use go_kitbox.Prelude.Maps.{lookup, insert, delete}
use go_kitbox.Prelude.Run.{Run, ok, panic, ◌>>=◌}
use go_kitbox.Lifecycle.Hooks.{
  Hooks, HookFunc, Worker, new_hooks, call_hooks, call_worker_hooks, stop,
}

pub data Failure (E : Type 0) : Type 0 where
  worker_exists worker_not_found shutdown_timeout already_running : Failure E
  of_user : E → Failure E

-- A goroutine before its start hooks, in the function of its worker, before `wg.Done()`, before it takes
-- itself out of the maps, and at its end.
pub data Phase : Type 0 where
  spawned working leaving finished gone : Phase

pub record Routine : Type 0 where
  pub name : String
  pub phase : Phase

-- The call of Run before its context, before the startup hooks, before the start of the workers, in the
-- select statement, in shutdown, and at its end.
pub data Stage : Type 0 where
  idle begun opened ready started stopping returned : Stage

-- What ends the select statement of Run: a signal or the end of the context, or an error of a worker.
pub data Wake : Type 0 where
  by_signal by_error : Wake

pub record Manager (W E : Type 0) : Type 0 where
  pub workers : List (String × Worker W E)
  pub worker_contexts : List (String × ℕ)
  pub worker_order : List String
  pub hooks : Hooks W E
  pub cancel : Option ℕ
  pub running : Bool
  pub wg : ℕ
  pub err_chan : Option E
  pub routines : List (ℕ × Routine)
  pub cancelled : List ℕ
  pub next_ctx : ℕ
  pub stage : Stage

-- `append(order[:i], order[i+1:]...)` at the first place of a name
abbrev pub remove_first : String → List String → List String
remove_first name [] = []
remove_first name (n ∷ names) = if string_eq.beq n name then names else n ∷ remove_first name names

-- A full channel refuses, and the default case follows.
abbrev pub offer : {E : Type 0} → E → Option E → Option E
offer e none = some e
offer e (some old) = some old

abbrev pub user_error : {E : Type 0} → Option E → Option (Failure E)
user_error none = none
user_error (some e) = some (of_user e)

-- An error of a worker, if it is not context.Canceled, is sent.
abbrev pub report : {E : Type 0} → (E → Bool) → Option E → Option E → Option E
report is_canceled none chan = chan
report is_canceled (some e) chan = if is_canceled e then chan else offer e chan

module _ {W E : Type 0} where
  unfoldable pub new_manager : Hooks W E → Manager W E
  new_manager hooks = record {
    workers = [];
    worker_contexts = [];
    worker_order = [];
    hooks = hooks;
    cancel = none;
    running = false;
    wg = 0;
    err_chan = none;
    routines = [];
    cancelled = [];
    next_ctx = 1;
    stage = idle;
  }

  -- A worker gets a context and a goroutine.
  unfoldable pub start_worker : String → Manager W E → Manager W E
  start_worker name m = record m {
    worker_contexts = insert name m.next_ctx m.worker_contexts;
    wg = m.wg + 1;
    routines = insert m.next_ctx (record { name = name; phase = spawned }) m.routines;
    next_ctx = suc m.next_ctx;
  }

  unfoldable pub add_worker :
      String → Option (HookFunc W E) → Manager W E → Option (Failure E) × Manager W E
  unfolding start_worker
  add_worker name stop_func m = elim (lookup name m.workers) [
    | some _ ↦ (some worker_exists, m)
    | none ↦
        let added = record m {
          workers = insert name (record { name = name; stop_func = stop_func }) m.workers;
          worker_order = m.worker_order ++ name ∷ [];
        } in
        (none, if m.running then start_worker name added else added)
  ]

  abbrev pub cancel_ctx : Option ℕ → Manager W E → Manager W E
  cancel_ctx none m = m
  cancel_ctx (some c) m = record m { cancelled = c ∷ m.cancelled }

  unfoldable pub stop_worker : String → Manager W E → W → Option (Failure E) × Manager W E × W
  stop_worker name m w = elim (lookup name m.workers) [
    | none ↦ (some worker_not_found, m, w)
    | some worker ↦
        let (e, w') = stop worker w in
        (user_error e, cancel_ctx (lookup name m.worker_contexts) m, w')
  ]

  -- Run up to its first unlock
  unfoldable pub begin_run : Manager W E → Option (Failure E) × Manager W E
  begin_run m =
      if m.running
      then (some already_running, m)
      else (none, record m { running = true; stage = begun })

  unfoldable pub open_run : Manager W E → Manager W E
  open_run m = record m { cancel = some m.next_ctx; next_ctx = suc m.next_ctx; stage = opened }

  unfoldable pub startup : Manager W E → W → Option (Failure E) × Manager W E × W
  startup m w =
      let (e, w') = call_hooks m.hooks.on_startup w in
      (user_error e, record m { stage = elim e [ none ↦ ready | some _ ↦ returned ] }, w')

  -- The loop of startWorkers. The goroutine of a nil worker panics at once.
  unfoldable pub start_loop : List String → Manager W E → Run ⊥ (Manager W E)
  unfolding start_worker
  start_loop [] m = ok m
  start_loop (name ∷ names) m = elim (lookup name m.workers) [
    | none ↦ panic
    | some _ ↦ start_loop names (start_worker name m)
  ]

  unfoldable pub start_workers : Manager W E → Run ⊥ (Manager W E)
  unfolding start_loop
  start_workers m = start_loop m.worker_order m >>= λ m'. ok (record m' { stage = started })

  -- The end of the select statement of Run; after an error Run returns it without a shutdown.
  unfoldable pub wake : Wake → Manager W E → Option (Failure E) × Manager W E
  wake by_signal m = (none, record m { stage = stopping })
  wake by_error m = elim m.err_chan [
    | none ↦ (none, m)
    | some e ↦
        (some (of_user e), record (cancel_ctx m.cancel m) { err_chan = none; stage = returned })
  ]

  -- The steps of a goroutine
  abbrev pub at_phase : ℕ → Phase → String → Manager W E → Manager W E
  at_phase c phase name m = record m {
    routines = insert c (record { name = name; phase = phase }) m.routines;
  }

  unfoldable pub begin_routine : ℕ → String → Manager W E → W → Manager W E × W
  begin_routine c name m w =
      (at_phase c working name m, call_worker_hooks m.hooks.on_worker_start name none w)

  -- The worker's function has returned.
  unfoldable pub end_routine :
      (E → Bool) → ℕ → String → Option E → Manager W E → W → Manager W E × W
  end_routine is_canceled c name result m w =
      let after = at_phase c leaving name m in
      let chan = report is_canceled result m.err_chan in
      (record after { err_chan = chan }, call_worker_hooks m.hooks.on_worker_exit name result w)

  -- `wg.Done()`: a negative counter panics.
  unfoldable pub leave_routine : ℕ → String → Manager W E → Run ⊥ (Manager W E)
  leave_routine c name m =
      if m.wg == 0 then panic else ok (record (at_phase c finished name m) { wg = m.wg - 1 })

  unfoldable pub forget_routine : ℕ → String → Manager W E → Manager W E
  forget_routine c name m = record (at_phase c gone name m) {
    worker_contexts = delete name m.worker_contexts;
    workers = delete name m.workers;
    worker_order = remove_first name m.worker_order;
  }

  -- shutdown up to its first unlock
  unfoldable pub cancel_all : Manager W E → Manager W E
  cancel_all m = record m { cancelled = map (λ p. p.1) m.worker_contexts ++ m.cancelled }

  -- The stop functions are called from the last worker to the first, and their errors are dropped.
  unfoldable pub stop_loop : List String → Manager W E → W → Run ⊥ W
  stop_loop [] m w = ok w
  stop_loop (name ∷ names) m w = elim (lookup name m.workers) [
    | none ↦ panic
    | some worker ↦ stop_loop names m (stop worker w).1
  ]

  unfoldable pub stop_all : Manager W E → W → Run ⊥ W
  unfolding stop_loop
  stop_all m w = stop_loop (reverse m.worker_order) m w

  -- The end of shutdown: the goroutines have ended, or the time is over. Before that it waits.
  unfoldable pub finish_shutdown : Bool → Manager W E → W → Option (Option (Failure E) × W)
  finish_shutdown timed_out m w =
      if timed_out
      then some (some shutdown_timeout, (call_hooks m.hooks.on_timeout w).1)
      else (if m.wg == 0
          then (let (e, w') = call_hooks m.hooks.on_shutdown w in some (user_error e, w'))
          else none)
