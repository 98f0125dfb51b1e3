-- ===== src/Lifecycle/Manager/Inv.antt =====
-- The invariant of the Manager: every name in the order is that of a worker, and the wait group counts the
-- goroutines that have not ended.
use Prim.Native.String.{String}
use go_kitbox.Prelude.{
  ℕ, ◌+◌, ◌-◌, ◌<◌, ◌==◌, ◌≡◌, refl, sym, ap, ◌∙◌, true, false, List, [], ◌∷◌, ◌++◌, Option, none,
  some, Option-cases, either_branch, inl, inr, arith,
}
use mathlib.Core.List.{reverse}
use go_kitbox.Prelude.Keys.{nat_eq, string_eq, beq_self}
use go_kitbox.Prelude.Maps.{lookup, insert, insert_cases}
use go_kitbox.Prelude.Run.{ok, Returns, returns, Returns-bind}
use go_kitbox.Lifecycle.Hooks.{HookFunc, Worker, stop}
use go_kitbox.Lifecycle.Manager.{
  Phase, spawned, finished, gone, Routine, Manager, start_worker, add_worker, start_loop,
  start_workers, at_phase, leave_routine, forget_routine, stop_loop, stop_all,
}
use go_kitbox.Lifecycle.Manager.Names.{
  listed, listed-reverse, has, is_some, IsOrder, added-IsOrder, forgotten-IsOrder, counts, pending,
  pending_new, pending_old,
}

pub listed_first : (name : String) (names : List String) → listed name (name ∷ names) ≡ true
listed_first name names = ground (arith, beq_self name)

module _ {W E : Type 0} where
  pub record IsValid (m : Manager W E) : Type 0 where
    pub order : IsOrder m.worker_order m.workers
    pub counted : m.wg ≡ pending m.routines
    pub made : (c : ℕ) (r : Routine) → lookup c m.routines ≡ some r → c < m.next_ctx

  next_new : (m : Manager W E) → IsValid m → lookup m.next_ctx m.routines ≡ none
  next_new m v = elim (Option-cases (lookup m.next_ctx m.routines)) [
    | inl new ↦ new
    | inr (r, old) ↦ absurd (omega (arith, v.made m.next_ctx r old))
  ]

  pub start_worker-IsValid :
      (name : String) (m : Manager W E) → IsValid m → IsValid (start_worker name m)
  unfolding start_worker
  start_worker-IsValid name m v =
      let r : Routine = record { name = name; phase = spawned } in
      record {
        order = record { unique = v.order.unique; known = v.order.known };
        counted =
            ap (λ n. n + 1) v.counted ∙ sym (pending_new m.next_ctx r m.routines (next_new m v));
        made = λ c r' h. elim (insert_cases m.next_ctx c r r' m.routines h) [
          | inl (same, _) ↦ omega (arith, same)
          | inr (_, old) ↦ omega (arith, v.made c r' old)
        ];
      }

  pub add_worker-IsValid :
      (name : String) (stop_func : Option (HookFunc W E)) (m : Manager W E)
      → IsValid m
      → IsValid (add_worker name stop_func m).1
  unfolding add_worker
  add_worker-IsValid name stop_func m v = elim (Option-cases (lookup name m.workers)) [
    | inr (worker, there) ↦ rw (there, add_worker) v
    | inl new ↦
        let added = record m {
          workers = insert name (record { name = name; stop_func = stop_func }) m.workers;
          worker_order = m.worker_order ++ name ∷ [];
        } in
        let valid : IsValid added = record {
          order = added-IsOrder name m.worker_order m.workers v.order _ new;
          counted = v.counted;
          made = v.made;
        } in
        rw (new, add_worker)
          (either_branch IsValid m.running (start_worker-IsValid name added valid) valid)
  ]

  -- A goroutine that goes on to a phase in which it counts as `counts phase`.
  pub moved-IsValid :
      (c : ℕ) (r : Routine) (phase : Phase) (m : Manager W E) (wg : ℕ)
      → IsValid m
      → lookup c m.routines ≡ some r
      → wg + counts r.phase ≡ m.wg + counts phase
      → IsValid (record (at_phase c phase r.name m) { wg = wg })
  moved-IsValid c r phase m wg v h e =
      let r' : Routine = record { name = r.name; phase = phase } in
      record {
        order = record { unique = v.order.unique; known = v.order.known };
        counted = omega (arith, e, v.counted, pending_old c r r' m.routines h);
        made = λ d s k. elim (insert_cases c d r' s m.routines k) [
          | inl (same, _) ↦ omega (arith, same, v.made c r h)
          | inr (_, old) ↦ v.made d s old
        ];
      }

  -- The wait group counts a goroutine that has not ended.
  pub wg_positive :
      (c : ℕ) (r : Routine) (m : Manager W E)
      → IsValid m
      → lookup c m.routines ≡ some r
      → counts r.phase ≡ 1
      → (m.wg == 0) ≡ false
  wg_positive c r m v h one =
      let r' : Routine = record { name = r.name; phase = finished } in
      ground (arith, one, v.counted, pending_old c r r' m.routines h)

  pub leave_routine-IsValid :
      (c : ℕ) (r : Routine) (m : Manager W E)
      → IsValid m
      → lookup c m.routines ≡ some r
      → counts r.phase ≡ 1
      → Returns IsValid (leave_routine c r.name m)
  unfolding leave_routine
  leave_routine-IsValid c r m v h one =
      let positive = wg_positive c r m v h one in
      let count : (m.wg - 1) + counts r.phase ≡ m.wg + 0 = ground (arith, one, positive) in
      rw (positive, leave_routine) (returns (moved-IsValid c r finished m (m.wg - 1) v h count))

  pub forget_routine-IsValid :
      (c : ℕ) (r : Routine) (m : Manager W E)
      → IsValid m
      → lookup c m.routines ≡ some r
      → counts r.phase ≡ 0
      → IsValid (forget_routine c r.name m)
  unfolding forget_routine
  forget_routine-IsValid c r m v h zero =
      let there : IsValid (record (at_phase c gone r.name m) { wg = m.wg }) =
        moved-IsValid c r gone m m.wg v h (omega (arith, zero)) in
      record {
        order = forgotten-IsOrder r.name m.worker_order m.workers v.order;
        counted = there.counted;
        made = there.made;
      }

  pub start_loop-IsValid :
      (names : List String) (m : Manager W E)
      → IsValid m
      → ((n : String) → listed n names ≡ true → has n m.workers ≡ true)
      → Returns IsValid (start_loop names m)
  unfolding start_loop start_worker
  start_loop-IsValid [] m v known = returns v
  start_loop-IsValid (name ∷ names) m v known = elim (Option-cases (lookup name m.workers)) [
    | inl missing ↦
        absurd (ground (arith, known name (listed_first name names), ap is_some missing))
    | inr (worker, there) ↦
        rw (there, start_loop)
          (start_loop-IsValid names (start_worker name m) (start_worker-IsValid name m v)
            (λ n h. known n (ground (arith, h))))
  ]

  pub start_workers-IsValid : (m : Manager W E) → IsValid m → Returns IsValid (start_workers m)
  unfolding start_workers
  start_workers-IsValid m v =
      Returns-bind (start_loop-IsValid m.worker_order m v v.order.known)
        (λ m' v'. returns (record { order = v'.order; counted = v'.counted; made = v'.made }))

  -- The stop functions of workers, called in an order.
  abbrev pub stop_each : List String → List (String × Worker W E) → W → W
  stop_each [] workers w = w
  stop_each (name ∷ names) workers w =
      stop_each names workers
        (elim (lookup name workers) [ none ↦ w | some worker ↦ (stop worker w).1 ])

  stop_loop_lem :
      (names : List String) (m : Manager W E) (w : W)
      → ((n : String) → listed n names ≡ true → has n m.workers ≡ true)
      → stop_loop names m w ≡ ok (stop_each names m.workers w)
  unfolding stop_loop
  stop_loop_lem [] m w known = refl
  stop_loop_lem (name ∷ names) m w known = elim (Option-cases (lookup name m.workers)) [
    | inl missing ↦
        absurd (ground (arith, known name (listed_first name names), ap is_some missing))
    | inr (worker, there) ↦
        rw (there, stop_loop)
          (stop_loop_lem names m (stop worker w).1 (λ n h. known n (ground (arith, h))))
  ]

  -- shutdown calls the stop functions of all workers, the last one first.
  pub stop_all_lem :
      (m : Manager W E) (w : W)
      → IsValid m
      → stop_all m w ≡ ok (stop_each (reverse m.worker_order) m.workers w)
  unfolding stop_all
  stop_all_lem m w v =
      stop_loop_lem (reverse m.worker_order) m w
        (λ n h. v.order.known n (sym (listed-reverse n m.worker_order) ∙ h))
