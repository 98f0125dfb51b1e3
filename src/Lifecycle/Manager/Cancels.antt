-- ===== src/Lifecycle/Manager/Cancels.antt =====
-- Which goroutines a shutdown cancels.
use Prim.Native.String.{String}
use go_kitbox.Prelude.{
  ℕ, ◌==◌, ==_iff, ◌≡◌, refl, ap, ◌∙◌, Bool, true, false, not, ◌||◌, List, [], ◌∷◌, ◌++◌, map, some,
  Bool-cases, inl, inr, arith,
}
use go_kitbox.Prelude.Keys.{nat_eq, string_eq}
use go_kitbox.Prelude.Maps.{lookup, insert}
use go_kitbox.Prelude.Run.{Run, ok, ◌>>=◌, Returns, returns, Returns-map, Returns-bind}
use go_kitbox.Lifecycle.Hooks.{Hooks, call_hooks}
use go_kitbox.Lifecycle.Manager.{
  Phase, spawned, working, leaving, finished, begun, opened, ready, started, Routine, Manager,
  new_manager, open_run, startup, begin_routine, end_routine, leave_routine, forget_routine,
  cancel_all,
}
use go_kitbox.Lifecycle.Manager.Names.{counts}
use go_kitbox.Lifecycle.Manager.Inv.{IsValid, wg_positive, stop_all_lem}
use go_kitbox.Lifecycle.Manager.Owned.{is_gone, Owned-moved, Owned-gone}
use go_kitbox.Lifecycle.Manager.Runs.{
  Op, op_add, op_stop_worker, op_begin, op_open, op_startup, op_start, op_cancel, op_cancel_all,
  op_stop_all, op_wake, op_routine_begin, op_routine_leave, op_routine_forget, op_routine_end,
  State, in_phase-Kept, in_stage-Kept, step, run, step-IsValid, new_manager-IsValid,
}
use go_kitbox.Lifecycle.Manager.Tracked.{
  starting, is_idle, nothing_there, awake, IsTracked, cancel_ctx-IsTracked, add_worker-IsTracked,
  begin_run-IsTracked, start_workers-IsTracked, wake-IsTracked, stop_worker-IsTracked,
}

abbrev pub in_list : ℕ → List ℕ → Bool
in_list c [] = false
in_list c (d ∷ ds) = d == c || in_list c ds

context_listed :
    (name : String) (c : ℕ) (contexts : List (String × ℕ)) (more : List ℕ)
    → lookup name contexts ≡ some c
    → in_list c (map (λ p. p.1) contexts ++ more) ≡ true
unfolding lookup
context_listed name c [] more h = cc
context_listed name c ((at, d) ∷ rest) more h = elim (Bool-cases (string_eq.beq at name)) [
  | inl same ↦ let e : some d ≡ some c = ground (arith, h, same) in ground (arith, e, ==_iff d c)
  | inr other ↦ ground (arith, context_listed name c rest more (ground (arith, h, other)))
]

module _ {W E : Type 0} where
  -- The call adds a worker only when the manager is not starting.
  abbrev pub allowed : Op W E → Manager W E → Bool
  allowed (op_add name stop_func) m = not (starting m.stage)
  allowed (op_stop_worker name) m = true
  allowed op_begin m = true
  allowed op_open m = true
  allowed op_startup m = true
  allowed op_start m = true
  allowed op_cancel m = true
  allowed op_cancel_all m = true
  allowed op_stop_all m = true
  allowed (op_wake k) m = true
  allowed (op_routine_begin c) m = true
  allowed (op_routine_leave c) m = true
  allowed (op_routine_forget c) m = true
  allowed (op_routine_end c result) m = true

  module _ (is_canceled : E → Bool) where
    -- Only such calls are made in a run.
    pub data Calm : List (Op W E) → Run ⊥ (State W E) → Type 0 where
      calm_end : {r : Run ⊥ (State W E)} → Calm [] r
      calm_step :
          {op : Op W E} {ops : List (Op W E)} {s : State W E}
          → allowed op s.0 ≡ true
          → Calm ops (step is_canceled op s)
          → Calm (op ∷ ops) (ok s)

    abbrev Kept : State W E → Type 0
    Kept s = IsTracked s.0

    moved-IsTracked :
        (c : ℕ) (r : Routine) (phase : Phase) (m : Manager W E)
        → IsTracked m
        → lookup c m.routines ≡ some r
        → is_gone r.phase ≡ false
        → IsTracked
            (record m { routines = insert c (record { name = r.name; phase = phase }) m.routines })
    moved-IsTracked c r phase m t h live = record {
      owned = Owned-moved c r phase m.worker_contexts m.workers m.routines t.owned h live;
      empty = λ e. absurd (nothing_there c r m.routines (t.empty e) h);
      runs = t.runs;
    }

    forget_routine-IsTracked :
        (c : ℕ) (r : Routine) (m : Manager W E)
        → IsTracked m
        → lookup c m.routines ≡ some r
        → is_gone r.phase ≡ false
        → IsTracked (forget_routine c r.name m)
    unfolding forget_routine
    forget_routine-IsTracked c r m t h live = record {
      owned = Owned-gone c r m.worker_contexts m.workers m.routines t.owned h live;
      empty = λ e. absurd (nothing_there c r m.routines (t.empty e) h);
      runs = t.runs;
    }

    step-IsTracked :
        (op : Op W E) (m : Manager W E) (w : W)
        → IsValid m
        → IsTracked m
        → allowed op m ≡ true
        → Returns Kept (step is_canceled op (m, w))
    unfolding step open_run startup cancel_all begin_routine end_routine leave_routine
    step-IsTracked (op_add name stop_func) m w v t fits =
        returns (add_worker-IsTracked name stop_func m t (ground (arith, fits)))
    step-IsTracked (op_stop_worker name) m w v t fits = returns (stop_worker-IsTracked name m w t)
    step-IsTracked op_begin m w v t fits = returns (begin_run-IsTracked m t)
    step-IsTracked op_open m w v t fits = in_stage-Kept Kept m w t begun _ (λ at. returns (record {
      owned = t.owned;
      empty = λ _. t.empty (rw at refl);
      runs = t.runs ∙ ap (λ s. not (is_idle s)) at;
    }))
    step-IsTracked op_startup m w v t fits = in_stage-Kept Kept m w t opened _ (λ at.
        returns (record {
          owned = t.owned;
          empty = λ _. t.empty (rw at refl);
          runs = t.runs ∙ ap (λ s. not (is_idle s)) at ∙ awake (call_hooks m.hooks.on_startup w).0;
        }))
    step-IsTracked op_start m w v t fits =
        in_stage-Kept Kept m w t ready _
          (λ at. Returns-bind (start_workers-IsTracked m v t at) (λ m' t'. returns t'))
    step-IsTracked (op_wake k) m w v t fits =
        in_stage-Kept Kept m w t started _ (λ at. returns (wake-IsTracked k m t at))
    step-IsTracked op_cancel m w v t fits = returns (cancel_ctx-IsTracked m.cancel m t)
    step-IsTracked op_cancel_all m w v t fits =
        returns (record { owned = t.owned; empty = t.empty; runs = t.runs })
    step-IsTracked op_stop_all m w v t fits = rw (stop_all_lem m w v) (returns t)
    step-IsTracked (op_routine_begin c) m w v t fits =
        in_phase-Kept Kept m w t c spawned _
          (λ r h e. returns (moved-IsTracked c r working m t h (ap is_gone e)))
    step-IsTracked (op_routine_end c result) m w v t fits =
        in_phase-Kept Kept m w t c working _ (λ r h e.
          (let t' = moved-IsTracked c r leaving m t h (ap is_gone e) in
            returns (record { owned = t'.owned; empty = t'.empty; runs = t'.runs })))
    step-IsTracked (op_routine_leave c) m w v t fits =
        in_phase-Kept Kept m w t c leaving _ (λ r h e.
          (let positive = wg_positive c r m v h (ap counts e) in
            let t' = moved-IsTracked c r finished m t h (ap is_gone e) in
            rw (positive, leave_routine)
              (returns (record { owned = t'.owned; empty = t'.empty; runs = t'.runs }))))
    step-IsTracked (op_routine_forget c) m w v t fits =
        in_phase-Kept Kept m w t c finished _
          (λ r h e. returns (forget_routine-IsTracked c r m t h (ap is_gone e)))

    run-IsTracked :
        (ops : List (Op W E)) {r : Run ⊥ (State W E)}
        → Returns (λ s. IsValid s.0) r
        → Returns Kept r
        → Calm ops r
        → Returns Kept (r >>= λ s. run is_canceled ops s)
    unfolding run
    run-IsTracked [] (returns v) (returns t) calm = returns t
    run-IsTracked (op ∷ ops) (returns v) (returns t) (calm_step fits more) =
        run-IsTracked ops (step-IsValid is_canceled op _ _ v) (step-IsTracked op _ _ v t fits) more

    -- The cancel function of each goroutine that is not at its end is called.
    abbrev pub CancelsAll : State W E → Type 0
    CancelsAll (m, w) =
        (c : ℕ) (r : Routine)
        → lookup c m.routines ≡ some r
        → is_gone r.phase ≡ false
        → in_list c (cancel_all m).cancelled ≡ true

    new_manager-IsTracked : (hooks : Hooks W E) → IsTracked (new_manager hooks)
    unfolding new_manager lookup
    new_manager-IsTracked hooks = record {
      owned = λ c r h live. absurd cc;
      empty = λ h. refl;
      runs = refl;
    }

    -- If no worker is added between the begin of Run and the start of the workers, then in every
    -- interleaving of calls and goroutines a shutdown calls the cancel function of each goroutine that has
    -- not taken itself out of the maps: none is left without the request to stop.
    pub run-CancelsAll :
        (hooks : Hooks W E) (ops : List (Op W E)) (w : W)
        → Calm ops (ok (new_manager hooks, w))
        → Returns CancelsAll (run is_canceled ops (new_manager hooks, w))
    unfolding cancel_all
    run-CancelsAll hooks ops w calm =
        Returns-map
          (λ s t c r h live.
            context_listed r.name c s.0.worker_contexts s.0.cancelled (t.owned c r h live).0)
          (run-IsTracked ops (returns (new_manager-IsValid is_canceled hooks))
            (returns (new_manager-IsTracked hooks)) calm)
