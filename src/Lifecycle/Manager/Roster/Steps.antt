-- ===== src/Lifecycle/Manager/Roster/Steps.antt =====
-- Every step of a manager keeps its maps in step with the roster.
use Prim.Native.String.{String}
use go_kitbox.Prelude.{
  ℕ, ◌≡◌, refl, sym, ap, ◌∙◌, Bool, true, List, [], ◌∷◌, ◌++◌, Option, none, some, Option-cases,
  Bool-cases, either_branch, inl, inr, arith,
}
use mathlib.Core.List.{reverse, reverse-cons}
use go_kitbox.Prelude.Keys.{nat_eq, string_eq}
use go_kitbox.Prelude.Maps.{lookup, insert, delete, lookup-insert, lookup-delete}
use go_kitbox.Prelude.Run.{Run, ◌>>=◌, Returns, returns, Returns-bind}
use go_kitbox.Lifecycle.Hooks.{Hooks, HookFunc, Worker}
use go_kitbox.Lifecycle.Manager.{
  spawned, working, leaving, finished, begun, opened, ready, started, Wake, by_signal, by_error,
  Failure, Manager, new_manager, remove_first, add_worker, start_worker, start_loop, start_workers,
  stop_worker, begin_run, open_run, startup, wake, cancel_ctx, cancel_all, begin_routine,
  end_routine, leave_routine, forget_routine,
}
use go_kitbox.Lifecycle.Manager.Names.{counts, listed, has, is_some}
use go_kitbox.Lifecycle.Manager.Inv.{IsValid, listed_first, wg_positive}
use go_kitbox.Lifecycle.Manager.Runs.{
  same_phase, Op, op_add, op_stop_worker, op_begin, op_open, op_startup, op_start, op_cancel,
  op_cancel_all, op_stop_all, op_wake, op_routine_begin, op_routine_leave, op_routine_forget,
  op_routine_end, State, step, run, in_phase, in_phase-Kept, in_stage-Kept, step-IsValid,
}
use go_kitbox.Lifecycle.Manager.NameLists.{
  names, remove_first-leave_out, leave_out-reverse, names-delete, distinct-delete, distinct-reverse,
  absent_listed,
}
use go_kitbox.Lifecycle.Manager.Roster.{
  Roster, roster_step, roster, entry, HasRoster, same-HasRoster, stop_all-HasRoster,
}

module _ {W E : Type 0} where
  start_loop-HasRoster :
      (ros : Roster W E) (ns : List String) (m : Manager W E)
      → HasRoster ros m
      → ((n : String) → listed n ns ≡ true → has n m.workers ≡ true)
      → Returns (HasRoster ros) (start_loop ns m)
  unfolding start_loop start_worker
  start_loop-HasRoster ros [] m v known = returns v
  start_loop-HasRoster ros (n ∷ ns) m v known = elim (Option-cases (lookup n m.workers)) [
    | inl missing ↦ absurd (ground (arith, known n (listed_first n ns), ap is_some missing))
    | inr (worker, there) ↦
        rw (there, start_loop)
          (start_loop-HasRoster ros ns (start_worker n m) (same-HasRoster ros m _ v refl refl)
            (λ k h. known k (ground (arith, h))))
  ]

  start_workers-HasRoster :
      (ros : Roster W E) (m : Manager W E)
      → IsValid m
      → HasRoster ros m
      → Returns (HasRoster ros) (start_workers m)
  unfolding start_workers
  start_workers-HasRoster ros m i v =
      Returns-bind (start_loop-HasRoster ros m.worker_order m v i.order.known)
        (λ m' v'. returns (same-HasRoster ros m' _ v' refl refl))

  add_worker-HasRoster :
      (name : String) (stop_func : Option (HookFunc W E)) (ros : Roster W E) (m : Manager W E)
      → HasRoster ros m
      → HasRoster (roster_step (op_add name stop_func) m ros) (add_worker name stop_func m).1
  unfolding add_worker start_worker lookup
  add_worker-HasRoster name stop_func ros m v = elim (Option-cases (lookup name ros)) [
    | inr (f, there) ↦
        let known = v.found name ∙ ap (entry name) there in
        rw (there, known, add_worker, roster_step) v
    | inl new ↦
        let unknown = v.found name ∙ ap (entry name) new in
        let worker : Worker W E = record { name = name; stop_func = stop_func } in
        let added : Manager W E = record m {
          workers = insert name worker m.workers;
          worker_order = m.worker_order ++ name ∷ [];
        } in
        let has : HasRoster ((name, stop_func) ∷ ros) added = record {
          in_order = ap (λ ns. ns ++ name ∷ []) v.in_order ∙ sym (reverse-cons name (names ros));
          once = ground (arith, v.once, absent_listed name ros new);
          found = λ n.
              lookup-insert name n worker m.workers ∙ elim (Bool-cases (string_eq.beq name n)) [
                | inl same ↦ rw same (
                    ap (λ k. some (record { name = k; stop_func = stop_func }))
                      ((string_eq.beq_iff name n).0 same))
                | inr other ↦ rw other (v.found n)
              ];
        } in
        rw (new, unknown, add_worker, roster_step)
          (either_branch (HasRoster ((name, stop_func) ∷ ros)) m.running
            (same-HasRoster ((name, stop_func) ∷ ros) added (start_worker name added) has refl refl)
            has)
  ]

  forget_routine-HasRoster :
      (c : ℕ) (name : String) (ros : Roster W E) (m : Manager W E)
      → HasRoster ros m
      → HasRoster (delete name ros) (forget_routine c name m)
  unfolding forget_routine
  forget_routine-HasRoster c name ros m v = record {
    in_order =
        ap (remove_first name) v.in_order
        ∙ remove_first-leave_out name (reverse (names ros)) (distinct-reverse (names ros) v.once)
        ∙ leave_out-reverse name (names ros)
        ∙ ap reverse (sym (names-delete name ros));
    once = distinct-delete name ros v.once;
    found = λ n. lookup-delete name n m.workers ∙ elim (Bool-cases (string_eq.beq name n)) [
      | inl same ↦
          let gone : lookup n (delete name ros) ≡ none = lookup-delete name n ros ∙ rw same refl in
          rw same (ap (entry n) (sym gone))
      | inr other ↦
          let kept : lookup n (delete name ros) ≡ lookup n ros =
            lookup-delete name n ros ∙ rw other refl in
          rw other (v.found n ∙ ap (entry n) (sym kept))
    ];
  }

  abbrev Kept : Roster W E → State W E → Type 0
  Kept ros s = HasRoster ros s.0

  cancel_ctx-HasRoster :
      (c : Option ℕ) (ros : Roster W E) (m : Manager W E)
      → HasRoster ros m
      → HasRoster ros (cancel_ctx c m)
  cancel_ctx-HasRoster none ros m v = v
  cancel_ctx-HasRoster (some c) ros m v = same-HasRoster ros m _ v refl refl

  stop_worker-HasRoster :
      (name : String) (ros : Roster W E) (m : Manager W E) (w : W)
      → HasRoster ros m
      → HasRoster ros (stop_worker name m w).1
  unfolding stop_worker
  stop_worker-HasRoster name ros m w v = elim (Option-cases (lookup name m.workers)) [
    | inl missing ↦ rw (missing, stop_worker) v
    | inr (worker, there) ↦
        rw (there, stop_worker) (cancel_ctx-HasRoster (lookup name m.worker_contexts) ros m v)
  ]

  wake-HasRoster :
      (k : Wake) (ros : Roster W E) (m : Manager W E) → HasRoster ros m → HasRoster ros (wake k m).1
  unfolding wake
  wake-HasRoster by_signal ros m v = same-HasRoster ros m _ v refl refl
  wake-HasRoster by_error ros m v = elim (Option-cases m.err_chan) [
    | inl empty ↦ rw (empty, wake) v
    | inr (e, full) ↦
        let cancelled = cancel_ctx m.cancel m in
        let v' = cancel_ctx-HasRoster m.cancel ros m v in
        rw (full, wake) (same-HasRoster ros cancelled _ v' refl refl)
  ]

  module _ (is_canceled : E → Bool) where
    step-HasRoster :
        (op : Op W E) (ros : Roster W E) (m : Manager W E) (w : W)
        → IsValid m
        → HasRoster ros m
        → Returns (Kept (roster_step op m ros)) (step is_canceled op (m, w))
    unfolding step open_run begin_run startup cancel_all begin_routine end_routine leave_routine
    step-HasRoster (op_add name stop_func) ros m w i v =
        returns (add_worker-HasRoster name stop_func ros m v)
    step-HasRoster (op_stop_worker name) ros m w i v =
        returns (stop_worker-HasRoster name ros m w v)
    step-HasRoster op_begin ros m w i v = returns (
        either_branch (λ (p : Option (Failure E) × Manager W E). HasRoster ros p.1) m.running v
          (same-HasRoster ros m _ v refl refl))
    step-HasRoster op_open ros m w i v =
        in_stage-Kept (Kept ros) m w v begun _ (λ at. returns (same-HasRoster ros m _ v refl refl))
    step-HasRoster op_startup ros m w i v =
        in_stage-Kept (Kept ros) m w v opened _ (λ at. returns (same-HasRoster ros m _ v refl refl))
    step-HasRoster op_start ros m w i v =
        in_stage-Kept (Kept ros) m w v ready _
          (λ at. Returns-bind (start_workers-HasRoster ros m i v) (λ m' v'. returns v'))
    step-HasRoster (op_wake k) ros m w i v =
        in_stage-Kept (Kept ros) m w v started _ (λ at. returns (wake-HasRoster k ros m v))
    step-HasRoster op_cancel ros m w i v = returns (cancel_ctx-HasRoster m.cancel ros m v)
    step-HasRoster op_cancel_all ros m w i v = returns (same-HasRoster ros m _ v refl refl)
    step-HasRoster op_stop_all ros m w i v = rw (stop_all-HasRoster ros m w v) (returns v)
    step-HasRoster (op_routine_begin c) ros m w i v =
        in_phase-Kept (Kept ros) m w v c spawned _
          (λ r h e. returns (same-HasRoster ros m _ v refl refl))
    step-HasRoster (op_routine_end c result) ros m w i v =
        in_phase-Kept (Kept ros) m w v c working _
          (λ r h e. returns (same-HasRoster ros m _ v refl refl))
    step-HasRoster (op_routine_leave c) ros m w i v =
        in_phase-Kept (Kept ros) m w v c leaving _ (λ r h e.
          rw (wg_positive c r m i h (ap counts e), leave_routine)
            (returns (same-HasRoster ros m _ v refl refl)))
    step-HasRoster (op_routine_forget c) ros m w i v = elim (Option-cases (lookup c m.routines)) [
      | inl absent ↦ rw (absent, in_phase, roster_step) (returns v)
      | inr (r, there) ↦ elim (Bool-cases (same_phase r.phase finished)) [
        | inl at ↦
            rw (there, in_phase, roster_step)
              (rw at (returns (forget_routine-HasRoster c r.name ros m v)))
        | inr other ↦ rw (there, in_phase, roster_step) (rw other (returns v))
      ]
    ]

    pub run-HasRoster :
        (ops : List (Op W E)) (ros : Roster W E) {r : Run ⊥ (State W E)}
        → Returns (λ s. IsValid s.0) r
        → Returns (Kept ros) r
        → Returns (Kept (roster is_canceled ops r ros)) (r >>= λ s. run is_canceled ops s)
    unfolding run
    run-HasRoster [] ros (returns i) (returns v) = returns v
    run-HasRoster (op ∷ ops) ros (returns i) (returns v) =
        run-HasRoster ops (roster_step op _ ros) (step-IsValid is_canceled op _ _ i)
          (step-HasRoster op ros _ _ i v)

  pub new_manager-HasRoster : (hooks : Hooks W E) → HasRoster [] (new_manager hooks)
  unfolding new_manager lookup
  new_manager-HasRoster hooks = record { in_order = refl; once = refl; found = λ n. refl }
