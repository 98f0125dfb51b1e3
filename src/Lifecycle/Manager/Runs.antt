-- ===== src/Lifecycle/Manager/Runs.antt =====
-- Interleavings of the calls of a Manager and of the steps of its goroutines.
use Prim.Native.String.{String}
use go_kitbox.Prelude.{
  ℕ, ◌+◌, ◌≡◌, refl, ap, Bool, true, false, List, [], ◌∷◌, Option, none, some, Option-cases,
  either_branch, inl, inr, if◌then◌else◌, arith,
}
use go_kitbox.Prelude.Keys.{nat_eq, string_eq}
use go_kitbox.Prelude.Maps.{lookup}
use go_kitbox.Prelude.Run.{Run, ok, ◌>>=◌, Returns, returns, Returns-bind, Returns-if}
use go_kitbox.Lifecycle.Hooks.{Hooks, HookFunc}
use go_kitbox.Lifecycle.Manager.{
  Phase, spawned, working, leaving, finished, gone, Stage, idle, begun, opened, ready, started,
  stopping, returned, Wake, by_signal, by_error, Routine, Failure, Manager, new_manager, add_worker,
  stop_worker, begin_run, open_run, startup, start_workers, wake, begin_routine, end_routine,
  leave_routine, forget_routine, cancel_ctx, cancel_all, stop_all,
}
use go_kitbox.Lifecycle.Manager.Names.{counts}
use go_kitbox.Lifecycle.Manager.Inv.{
  IsValid, add_worker-IsValid, start_workers-IsValid, moved-IsValid, leave_routine-IsValid,
  forget_routine-IsValid, stop_all_lem,
}

abbrev pub same_phase : Phase → Phase → Bool
same_phase spawned spawned = true
same_phase working working = true
same_phase leaving leaving = true
same_phase finished finished = true
same_phase gone gone = true
same_phase _ _ = false

abbrev pub same_stage : Stage → Stage → Bool
same_stage idle idle = true
same_stage begun begun = true
same_stage opened opened = true
same_stage ready ready = true
same_stage started started = true
same_stage stopping stopping = true
same_stage returned returned = true
same_stage _ _ = false

same_phase_eq : (a b : Phase) → same_phase a b ≡ true → a ≡ b
same_phase_eq spawned spawned h = refl
same_phase_eq working working h = refl
same_phase_eq leaving leaving h = refl
same_phase_eq finished finished h = refl
same_phase_eq gone gone h = refl
same_phase_eq _ _ h = cc

same_stage_eq : (a b : Stage) → same_stage a b ≡ true → a ≡ b
same_stage_eq idle idle h = refl
same_stage_eq begun begun h = refl
same_stage_eq opened opened h = refl
same_stage_eq ready ready h = refl
same_stage_eq started started h = refl
same_stage_eq stopping stopping h = refl
same_stage_eq returned returned h = refl
same_stage_eq _ _ h = cc

-- A call, or a step of the goroutine of a context. Shutdown is `op_cancel`, `op_cancel_all`, `op_stop_all`
-- and the end of the wait; Run ends with the last three.
pub data Op (W E : Type 0) : Type 0 where
  op_add : String → Option (HookFunc W E) → Op W E
  op_stop_worker : String → Op W E
  op_begin op_open op_startup op_start op_cancel op_cancel_all op_stop_all : Op W E
  op_wake : Wake → Op W E
  op_routine_begin op_routine_leave op_routine_forget : ℕ → Op W E
  op_routine_end : ℕ → Option E → Op W E

abbrev pub State : Type 0 → Type 0 → Type 0
State W E = Manager W E × W

module _ {W E : Type 0} where
  -- A step of the goroutine of a context, if it is in the phase before it.
  abbrev pub in_phase : ℕ → Phase → (String → Run ⊥ (State W E)) → State W E → Run ⊥ (State W E)
  in_phase c phase f s = elim (lookup c s.0.routines) [
    | none ↦ ok s
    | some r ↦ if same_phase r.phase phase then f r.name else ok s
  ]

  abbrev pub in_stage : Stage → Run ⊥ (State W E) → State W E → Run ⊥ (State W E)
  in_stage stage r s = if same_stage s.0.stage stage then r else ok s

  -- What holds before a step that may not be taken, and after it if it is, is kept.
  module _ (Kept : State W E → Type 0) (m : Manager W E) (w : W) (before : Kept (m, w)) where
    pub in_phase-Kept :
        (c : ℕ) (phase : Phase) (f : String → Run ⊥ (State W E))
        → ((r : Routine) → lookup c m.routines ≡ some r → r.phase ≡ phase → Returns Kept (f r.name))
        → Returns Kept (in_phase c phase f (m, w))
    in_phase-Kept c phase f does = elim (Option-cases (lookup c m.routines)) [
      | inl none_there ↦ rw (none_there, in_phase) (returns before)
      | inr (r, there) ↦
          rw (there, in_phase)
            (Returns-if (same_phase r.phase phase)
              (λ same. does r there (same_phase_eq r.phase phase same)) (λ other. returns before))
    ]

    pub in_stage-Kept :
        (stage : Stage) (r : Run ⊥ (State W E))
        → (m.stage ≡ stage → Returns Kept r)
        → Returns Kept (in_stage stage r (m, w))
    in_stage-Kept stage r after =
        Returns-if (same_stage m.stage stage) (λ same. after (same_stage_eq m.stage stage same))
          (λ other. returns before)

  module _ (is_canceled : E → Bool) where
    unfoldable pub step : Op W E → State W E → Run ⊥ (State W E)
    step (op_add name stop_func) (m, w) = ok ((add_worker name stop_func m).1, w)
    step (op_stop_worker name) (m, w) = ok ((stop_worker name m w).1, (stop_worker name m w).2)
    step op_begin (m, w) = ok ((begin_run m).1, w)
    step op_open (m, w) = in_stage begun (ok (open_run m, w)) (m, w)
    step op_startup (m, w) = in_stage opened (ok ((startup m w).1, (startup m w).2)) (m, w)
    step op_start (m, w) = in_stage ready (start_workers m >>= λ m'. ok (m', w)) (m, w)
    step (op_wake k) (m, w) = in_stage started (ok ((wake k m).1, w)) (m, w)
    step op_cancel (m, w) = ok (cancel_ctx m.cancel m, w)
    step op_cancel_all (m, w) = ok (cancel_all m, w)
    step op_stop_all (m, w) = stop_all m w >>= λ w'. ok (m, w')
    step (op_routine_begin c) (m, w) =
        in_phase c spawned (λ name. ok (begin_routine c name m w)) (m, w)
    step (op_routine_end c result) (m, w) =
        in_phase c working (λ name. ok (end_routine is_canceled c name result m w)) (m, w)
    step (op_routine_leave c) (m, w) =
        in_phase c leaving (λ name. leave_routine c name m >>= λ m'. ok (m', w)) (m, w)
    step (op_routine_forget c) (m, w) =
        in_phase c finished (λ name. ok (forget_routine c name m, w)) (m, w)

    unfoldable pub run : List (Op W E) → State W E → Run ⊥ (State W E)
    run [] s = ok s
    run (op ∷ ops) s = step op s >>= λ s'. run ops s'

    cancel_ctx-IsValid : (c : Option ℕ) (m : Manager W E) → IsValid m → IsValid (cancel_ctx c m)
    cancel_ctx-IsValid none m v = v
    cancel_ctx-IsValid (some c) m v = record { order = v.order; counted = v.counted; made = v.made }

    begin_run-IsValid : (m : Manager W E) → IsValid m → IsValid (begin_run m).1
    unfolding begin_run
    begin_run-IsValid m v =
        either_branch (λ (p : Option (Failure E) × Manager W E). IsValid p.1) m.running v
          (record { order = v.order; counted = v.counted; made = v.made })

    wake-IsValid : (k : Wake) (m : Manager W E) → IsValid m → IsValid (wake k m).1
    unfolding wake
    wake-IsValid by_signal m v = record { order = v.order; counted = v.counted; made = v.made }
    wake-IsValid by_error m v = elim (Option-cases m.err_chan) [
      | inl empty ↦ rw (empty, wake) v
      | inr (e, full) ↦
          let v' = cancel_ctx-IsValid m.cancel m v in
          rw (full, wake) (record { order = v'.order; counted = v'.counted; made = v'.made })
    ]

    stop_worker-IsValid :
        (name : String) (m : Manager W E) (w : W) → IsValid m → IsValid (stop_worker name m w).1
    unfolding stop_worker
    stop_worker-IsValid name m w v = elim (Option-cases (lookup name m.workers)) [
      | inl missing ↦ rw (missing, stop_worker) v
      | inr (worker, there) ↦
          rw (there, stop_worker) (cancel_ctx-IsValid (lookup name m.worker_contexts) m v)
    ]

    abbrev Valid : State W E → Type 0
    Valid s = IsValid s.0

    pub step-IsValid :
        (op : Op W E) (m : Manager W E) (w : W)
        → IsValid m
        → Returns (λ s. IsValid s.0) (step op (m, w))
    unfolding step open_run startup cancel_all begin_routine end_routine
    step-IsValid (op_add name stop_func) m w v = returns (add_worker-IsValid name stop_func m v)
    step-IsValid (op_stop_worker name) m w v = returns (stop_worker-IsValid name m w v)
    step-IsValid op_begin m w v = returns (begin_run-IsValid m v)
    step-IsValid op_open m w v = in_stage-Kept Valid m w v begun _ (λ at. returns (record {
      order = v.order;
      counted = v.counted;
      made = λ c r h. omega (arith, v.made c r h);
    }))
    step-IsValid op_startup m w v =
        in_stage-Kept Valid m w v opened _
          (λ at. returns (record { order = v.order; counted = v.counted; made = v.made }))
    step-IsValid op_start m w v =
        in_stage-Kept Valid m w v ready _
          (λ at. Returns-bind (start_workers-IsValid m v) (λ m' v'. returns v'))
    step-IsValid (op_wake k) m w v =
        in_stage-Kept Valid m w v started _ (λ at. returns (wake-IsValid k m v))
    step-IsValid op_cancel m w v = returns (cancel_ctx-IsValid m.cancel m v)
    step-IsValid op_cancel_all m w v =
        returns (record { order = v.order; counted = v.counted; made = v.made })
    step-IsValid op_stop_all m w v = rw (stop_all_lem m w v) (returns v)
    step-IsValid (op_routine_begin c) m w v =
        in_phase-Kept Valid m w v c spawned _
          (λ r h e. returns (moved-IsValid c r working m m.wg v h (ap (λ p. m.wg + counts p) e)))
    step-IsValid (op_routine_end c result) m w v = in_phase-Kept Valid m w v c working _ (λ r h e.
        (let v' = moved-IsValid c r leaving m m.wg v h (ap (λ p. m.wg + counts p) e) in
          returns (record { order = v'.order; counted = v'.counted; made = v'.made })))
    step-IsValid (op_routine_leave c) m w v = in_phase-Kept Valid m w v c leaving _ (λ r h e.
        Returns-bind (leave_routine-IsValid c r m v h (ap counts e)) (λ m' v'. returns v'))
    step-IsValid (op_routine_forget c) m w v =
        in_phase-Kept Valid m w v c finished _
          (λ r h e. returns (forget_routine-IsValid c r m v h (ap counts e)))

    pub new_manager-IsValid : (hooks : Hooks W E) → IsValid (new_manager hooks)
    unfolding new_manager lookup
    new_manager-IsValid hooks = record {
      order = record { unique = refl; known = λ n h. cc };
      counted = refl;
      made = λ c r h. cc;
    }

    pub run-IsValid :
        (ops : List (Op W E)) (s : State W E)
        → IsValid s.0
        → Returns (λ s'. IsValid s'.0) (run ops s)
    unfolding run
    run-IsValid [] s v = returns v
    run-IsValid (op ∷ ops) (m, w) v =
        Returns-bind (step-IsValid op m w v) (λ s' v'. run-IsValid ops s' v')
