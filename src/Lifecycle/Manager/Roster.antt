-- ===== src/Lifecycle/Manager/Roster.antt =====
-- The workers of a manager by the history of its calls, without its maps: those that were added, the last
-- one first, less those of which a goroutine has taken itself out.
pub mod Steps
use Prim.Native.String.{String}
use go_kitbox.Prelude.{
  ℕ, ◌≡◌, refl, sym, ap, ◌∙◌, Bool, true, false, List, [], ◌∷◌, ◌++◌, Option, none, some,
  Option-cases, Bool-cases, either_branch, inl, inr, if◌then◌else◌, append-nil, arith,
}
use mathlib.Core.List.{reverse, reverse-cons, reverse-reverse}
use go_kitbox.Prelude.Keys.{nat_eq, string_eq, beq_self}
use go_kitbox.Prelude.Maps.{lookup, insert, delete, lookup-insert, lookup-delete}
use go_kitbox.Prelude.Run.{Run, ok, err, panic, ◌>>=◌, Returns, returns, Returns-bind}
use go_kitbox.Lifecycle.Hooks.{Hooks, HookFunc, Worker, stop}
use go_kitbox.Lifecycle.Manager.{
  spawned, working, leaving, finished, begun, opened, ready, started, Wake, by_signal, by_error,
  Failure, Manager, new_manager, remove_first, add_worker, start_worker, start_loop, start_workers,
  stop_worker, begin_run, open_run, startup, wake, cancel_ctx, cancel_all, begin_routine,
  end_routine, leave_routine, forget_routine, stop_loop, stop_all,
}
use go_kitbox.Lifecycle.Manager.Names.{
  counts, listed, has, is_some, distinct, distinct-snoc, listed-reverse,
}
use go_kitbox.Lifecycle.Manager.Inv.{IsValid, listed_first, wg_positive}
use go_kitbox.Lifecycle.Manager.Runs.{
  same_phase, Op, op_add, op_stop_worker, op_begin, op_open, op_startup, op_start, op_cancel,
  op_cancel_all, op_stop_all, op_wake, op_routine_begin, op_routine_leave, op_routine_forget,
  op_routine_end, State, step, run, in_phase, in_phase-Kept, in_stage-Kept, step-IsValid,
}
use go_kitbox.Lifecycle.Manager.NameLists.{
  names, leave_out, remove_first-leave_out, leave_out-reverse, names-delete, distinct-delete,
  distinct-reverse, absent_listed, found_behind,
}

abbrev pub Roster : Type 0 → Type 0 → Type 0
Roster W E = List (String × Option (HookFunc W E))

module _ {W E : Type 0} where
  -- What a step does to the roster.
  abbrev pub roster_step : Op W E → Manager W E → Roster W E → Roster W E
  roster_step (op_add name stop_func) m ros = elim (lookup name ros) [
    | none ↦ (name, stop_func) ∷ ros
    | some _ ↦ ros
  ]
  roster_step (op_routine_forget c) m ros = elim (lookup c m.routines) [
    | none ↦ ros
    | some r ↦ if same_phase r.phase finished then delete r.name ros else ros
  ]
  roster_step (op_stop_worker name) m ros = ros
  roster_step op_begin m ros = ros
  roster_step op_open m ros = ros
  roster_step op_startup m ros = ros
  roster_step op_start m ros = ros
  roster_step op_cancel m ros = ros
  roster_step op_cancel_all m ros = ros
  roster_step op_stop_all m ros = ros
  roster_step (op_wake k) m ros = ros
  roster_step (op_routine_begin c) m ros = ros
  roster_step (op_routine_leave c) m ros = ros
  roster_step (op_routine_end c result) m ros = ros

  -- The roster after a run.
  abbrev pub roster : (E → Bool) → List (Op W E) → Run ⊥ (State W E) → Roster W E → Roster W E
  roster is_canceled [] r ros = ros
  roster is_canceled (op ∷ ops) (ok s) ros =
      roster is_canceled ops (step is_canceled op s) (roster_step op s.0 ros)
  roster is_canceled (op ∷ ops) (err e) ros = ros
  roster is_canceled (op ∷ ops) panic ros = ros

  -- A worker without a stop function is passed over, and an error is dropped.
  abbrev pub call_stop : Option (HookFunc W E) → W → W
  call_stop none w = w
  call_stop (some fn) w = (fn w).1

  -- The stop functions of a roster, called one after the other.
  abbrev pub stop_in_turn : Roster W E → W → W
  stop_in_turn [] w = w
  stop_in_turn ((name, stop_func) ∷ ros) w = stop_in_turn ros (call_stop stop_func w)

  abbrev pub entry : String → Option (Option (HookFunc W E)) → Option (Worker W E)
  entry name none = none
  entry name (some stop_func) = some (record { name = name; stop_func = stop_func })

  -- The maps of a manager have the workers of a roster.
  pub record HasRoster (ros : Roster W E) (m : Manager W E) : Type 0 where
    pub in_order : m.worker_order ≡ reverse (names ros)
    pub once : distinct (names ros) ≡ true
    pub found : (n : String) → lookup n m.workers ≡ entry n (lookup n ros)

  pub same-HasRoster :
      (ros : Roster W E) (m m' : Manager W E)
      → HasRoster ros m
      → m'.worker_order ≡ m.worker_order
      → m'.workers ≡ m.workers
      → HasRoster ros m'
  same-HasRoster ros m m' v o w = record {
    in_order = o ∙ v.in_order;
    once = v.once;
    found = λ n. ap (lookup n) w ∙ v.found n;
  }

  stop_lem :
      (n : String) (stop_func : Option (HookFunc W E)) (w : W)
      → (stop (record { name = n; stop_func = stop_func }) w).1 ≡ call_stop stop_func w
  stop_lem n none w = refl
  stop_lem n (some fn) w = refl

  stop_loop_lem :
      (ros : Roster W E) (m : Manager W E) (w : W)
      → distinct (names ros) ≡ true
      → ((n : String) (f : Option (HookFunc W E))
          → lookup n ros ≡ some f
          → lookup n m.workers ≡ entry n (some f))
      → stop_loop (names ros) m w ≡ ok (stop_in_turn ros w)
  unfolding stop_loop lookup
  stop_loop_lem [] m w d found = refl
  stop_loop_lem ((n, f) ∷ ros) m w d found =
      let here = found n f (rw (beq_self n) refl) in
      rw (here, stop_loop)
        (ap (stop_loop (names ros) m) (stop_lem n f w)
          ∙ stop_loop_lem ros m (call_stop f w) (ground (arith, d))
              (λ k g h. found k g (found_behind n k f g ros (ground (arith, d)) h)))

  -- shutdown calls the stop functions of the roster.
  pub stop_all-HasRoster :
      (ros : Roster W E) (m : Manager W E) (w : W)
      → HasRoster ros m
      → stop_all m w ≡ ok (stop_in_turn ros w)
  unfolding stop_all
  stop_all-HasRoster ros m w v =
      ap (λ ns. stop_loop (reverse ns) m w) v.in_order
      ∙ ap (λ ns. stop_loop ns m w) (reverse-reverse (names ros))
      ∙ stop_loop_lem ros m w v.once (λ n f h. v.found n ∙ ap (entry n) h)
