-- ===== src/Lifecycle/Manager/Tracked.antt =====
-- What the calls of a manager keep of its goroutines, while no worker is added during the start.
use Prim.Native.String.{String}
use go_kitbox.Prelude.{
  ℕ, ◌≡◌, refl, sym, ap, ◌∙◌, Bool, true, false, not, ◌||◌, List, [], Option, none, some,
  Option-cases, Bool-cases, either_branch, inl, inr, arith,
}
use go_kitbox.Prelude.Keys.{nat_eq, string_eq}
use go_kitbox.Prelude.Maps.{lookup, insert, lookup-insert, lookup-insert_self}
use go_kitbox.Prelude.Run.{Returns, returns, Returns-bind}
use go_kitbox.Lifecycle.Hooks.{HookFunc, Worker}
use go_kitbox.Lifecycle.Manager.{
  Stage, idle, begun, opened, ready, started, stopping, returned, Wake, by_signal, by_error,
  Routine, Manager, add_worker, stop_worker, begin_run, start_worker, start_workers, wake,
  cancel_ctx,
}
use go_kitbox.Lifecycle.Manager.Names.{has, is_some}
use go_kitbox.Lifecycle.Manager.Inv.{IsValid}
use go_kitbox.Lifecycle.Manager.Owned.{Owned, IsOwned, Unused, Owned-new, start_loop-IsOwned}

-- The manager is running, and the workers are not started yet.
abbrev pub starting : Stage → Bool
starting idle = false
starting begun = true
starting opened = true
starting ready = true
starting started = false
starting stopping = false
starting returned = false

abbrev pub is_idle : Stage → Bool
is_idle idle = true
is_idle begun = false
is_idle opened = false
is_idle ready = false
is_idle started = false
is_idle stopping = false
is_idle returned = false

other_name :
    {V : Type 0} (name there : String) (m : List (String × V))
    → lookup name m ≡ none
    → has there m ≡ true
    → string_eq.beq name there ≡ false
other_name name there m new h = elim (Bool-cases (string_eq.beq name there)) [
  | inl same ↦
      absurd (
        ground
          (arith, h, ap is_some new, ap (λ n. has n m) ((string_eq.beq_iff name there).0 same)))
  | inr other ↦ other
]

pub nothing_there :
    (c : ℕ) (r : Routine) (rs : List (ℕ × Routine)) → rs ≡ [] → lookup c rs ≡ some r → ⊥
unfolding lookup
nothing_there c r rs e h = cc

pub awake :
    {E : Type 0} (e : Option E) → true ≡ not (is_idle (elim e [ none ↦ ready | some _ ↦ returned ]))
awake none = refl
awake (some e) = refl

module _ {W E : Type 0} where
  pub record IsTracked (m : Manager W E) : Type 0 where
    pub owned : IsOwned m
    pub empty : (is_idle m.stage || starting m.stage) ≡ true → m.routines ≡ []
    pub runs : m.running ≡ not (is_idle m.stage)

  pub cancel_ctx-IsTracked :
      (c : Option ℕ) (m : Manager W E) → IsTracked m → IsTracked (cancel_ctx c m)
  cancel_ctx-IsTracked none m t = t
  cancel_ctx-IsTracked (some c) m t = record { owned = t.owned; empty = t.empty; runs = t.runs }

  no_routine : (m : Manager W E) (names : List String) → m.routines ≡ [] → Unused names m.routines
  unfolding lookup
  no_routine m names e c r h live = absurd cc

  -- A worker is added to a manager that is not starting.
  pub add_worker-IsTracked :
      (name : String) (stop_func : Option (HookFunc W E)) (m : Manager W E)
      → IsTracked m
      → starting m.stage ≡ false
      → IsTracked (add_worker name stop_func m).1
  unfolding add_worker start_worker
  add_worker-IsTracked name stop_func m t calm = elim (Option-cases (lookup name m.workers)) [
    | inr (worker, there) ↦ rw (there, add_worker) t
    | inl new ↦
        let worker : Worker W E = record { name = name; stop_func = stop_func } in
        let workers = insert name worker m.workers in
        let kept : Owned m.worker_contexts workers m.routines = λ c r h live. (
          (t.owned c r h live).0,
          ap is_some (lookup-insert name r.name worker m.workers)
              ∙ either_branch (λ (o : Option (Worker W E)). is_some o ≡ true)
                  (string_eq.beq name r.name) refl (t.owned c r h live).1,
        ) in
        rw (new, add_worker)
          (elim (Bool-cases m.running) [
            | inr stopped ↦
                rw (stopped, add_worker)
                  (record { owned = kept; empty = t.empty; runs = sym stopped ∙ t.runs })
            | inl running ↦
                rw (running, add_worker)
                  (record {
                    owned =
                        Owned-new name m.next_ctx m.worker_contexts workers m.routines kept
                          (λ c r h live.
                            other_name name r.name m.workers new (t.owned c r h live).1)
                          (ap is_some (lookup-insert_self name worker m.workers));
                    empty = λ h. absurd (ground (arith, h, calm, running, t.runs));
                    runs = sym running ∙ t.runs;
                  })
          ])
  ]

  pub begin_run-IsTracked : (m : Manager W E) → IsTracked m → IsTracked (begin_run m).1
  unfolding begin_run
  begin_run-IsTracked m t = elim (Bool-cases m.running) [
    | inl running ↦
        rw (running, begin_run)
          (record { owned = t.owned; empty = t.empty; runs = sym running ∙ t.runs })
    | inr stopped ↦
        rw (stopped, begin_run)
          (record {
            owned = t.owned;
            empty = λ h. t.empty (ground (arith, stopped, t.runs));
            runs = refl;
          })
  ]

  pub start_workers-IsTracked :
      (m : Manager W E)
      → IsValid m
      → IsTracked m
      → m.stage ≡ ready
      → Returns IsTracked (start_workers m)
  unfolding start_workers
  start_workers-IsTracked m v t at =
      let none_yet = t.empty (rw at refl) in
      Returns-bind
        (start_loop-IsOwned m.worker_order m t.owned v.order.unique
          (no_routine m m.worker_order none_yet) v.order.known)
        (λ m' (o, running). returns (record {
          owned = o;
          empty = λ h. cc;
          runs = running ∙ t.runs ∙ ap (λ s. not (is_idle s)) at;
        }))

  cancel_ctx_running : (c : Option ℕ) (m : Manager W E) → (cancel_ctx c m).running ≡ m.running
  cancel_ctx_running none m = refl
  cancel_ctx_running (some c) m = refl

  pub wake-IsTracked :
      (k : Wake) (m : Manager W E) → IsTracked m → m.stage ≡ started → IsTracked (wake k m).1
  unfolding wake
  wake-IsTracked by_signal m t at = record {
    owned = t.owned;
    empty = λ h. cc;
    runs = t.runs ∙ ap (λ s. not (is_idle s)) at;
  }
  wake-IsTracked by_error m t at = elim (Option-cases m.err_chan) [
    | inl nothing ↦ rw (nothing, wake) t
    | inr (e, full) ↦
        let t' = cancel_ctx-IsTracked m.cancel m t in
        rw (full, wake)
          (record {
            owned = t'.owned;
            empty = λ h. cc;
            runs = cancel_ctx_running m.cancel m ∙ t.runs ∙ ap (λ s. not (is_idle s)) at;
          })
  ]

  pub stop_worker-IsTracked :
      (name : String) (m : Manager W E) (w : W) → IsTracked m → IsTracked (stop_worker name m w).1
  unfolding stop_worker
  stop_worker-IsTracked name m w t = elim (Option-cases (lookup name m.workers)) [
    | inl missing ↦ rw (missing, stop_worker) t
    | inr (worker, there) ↦
        rw (there, stop_worker) (cancel_ctx-IsTracked (lookup name m.worker_contexts) m t)
  ]
