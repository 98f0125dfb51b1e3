-- ===== src/Lifecycle/Manager/Twice.antt =====
-- A worker that is added between the begin of Run and the start of the workers.
use Prim.Native.String.{String}
use go_kitbox.Prelude.{
  ℕ, ◌<◌, ◌≡◌, sym, ap, ◌∙◌, true, false, List, [], ◌∷◌, Option, none, some, Option-cases,
  Bool-cases, inl, inr, arith,
}
use mathlib.Core.Path.{subst}
use go_kitbox.Prelude.Keys.{nat_eq, string_eq, beq_self}
use go_kitbox.Prelude.Maps.{lookup, lookup-insert, lookup-insert_self}
use go_kitbox.Prelude.Run.{Returns, returns, Returns-map, Returns-bind}
use go_kitbox.Lifecycle.Hooks.{HookFunc}
use go_kitbox.Lifecycle.Manager.{
  spawned, Routine, Manager, start_worker, add_worker, start_loop, start_workers,
}
use go_kitbox.Lifecycle.Manager.Names.{listed, listed-snoc, distinct, is_some, has}
use go_kitbox.Lifecycle.Manager.Inv.{IsValid, add_worker-IsValid, listed_first}

-- A goroutine of a worker that has just been started.
abbrev pub new_routine : String → Routine
new_routine name = record { name = name; phase = spawned }

module _ {W E : Type 0} where
  -- Two goroutines of one worker, of which the map has only the context of the second.
  pub record IsTwice (name : String) (c d : ℕ) (m : Manager W E) : Type 0 where
    pub apart : c < d
    pub below : d < m.next_ctx
    pub early : lookup c m.routines ≡ some (new_routine name)
    pub late : lookup d m.routines ≡ some (new_routine name)
    pub kept : lookup name m.worker_contexts ≡ some d

  untouched :
      (c : ℕ) (r : Routine) (other : String) (m : Manager W E)
      → c < m.next_ctx
      → lookup c m.routines ≡ some r
      → lookup c (start_worker other m).routines ≡ some r
  unfolding start_worker
  untouched c r other m below h =
      let apart : nat_eq.beq m.next_ctx c ≡ false = ground (arith, below) in
      lookup-insert m.next_ctx c (new_routine other) m.routines ∙ rw apart h

  first_time :
      (name : String) (c : ℕ) (m : Manager W E)
      → c < m.next_ctx
      → lookup c m.routines ≡ some (new_routine name)
      → IsTwice name c m.next_ctx (start_worker name m)
  unfolding start_worker
  first_time name c m below early = record {
    apart = below;
    below = omega arith;
    early = untouched c (new_routine name) name m below early;
    late = lookup-insert_self m.next_ctx (new_routine name) m.routines;
    kept = lookup-insert_self name m.next_ctx m.worker_contexts;
  }

  other_time :
      (name other : String) (c d : ℕ) (m : Manager W E)
      → string_eq.beq other name ≡ false
      → IsTwice name c d m
      → IsTwice name c d (start_worker other m)
  unfolding start_worker
  other_time name other c d m ne t = record {
    apart = t.apart;
    below = omega (arith, t.below);
    early = untouched c (new_routine name) other m (omega (arith, t.apart, t.below)) t.early;
    late = untouched d (new_routine name) other m t.below t.late;
    kept = lookup-insert other name m.next_ctx m.worker_contexts ∙ rw ne t.kept;
  }

  Known : List String → Manager W E → Type 0
  Known names m = (n : String) → listed n names ≡ true → has n m.workers ≡ true

  still-IsTwice :
      (names : List String) (name : String) (c d : ℕ) (m : Manager W E)
      → listed name names ≡ false
      → Known names m
      → IsTwice name c d m
      → Returns (IsTwice name c d) (start_loop names m)
  unfolding Known start_loop start_worker
  still-IsTwice [] name c d m absent known t = returns t
  still-IsTwice (n ∷ names) name c d m absent known t = elim (Option-cases (lookup n m.workers)) [
    | inl missing ↦ absurd (ground (arith, known n (listed_first n names), ap is_some missing))
    | inr (worker, there) ↦
        rw (there, start_loop)
          (still-IsTwice names name c d (start_worker n m) (ground (arith, absent))
            (λ k h. known k (ground (arith, h)))
            (other_time name n c d m (ground (arith, absent)) t))
  ]

  starts_again :
      (names : List String) (name : String) (c : ℕ) (m : Manager W E)
      → listed name names ≡ true
      → distinct names ≡ true
      → Known names m
      → c < m.next_ctx
      → lookup c m.routines ≡ some (new_routine name)
      → Returns (λ m'. (d : ℕ) × IsTwice name c d m') (start_loop names m)
  unfolding Known start_loop start_worker
  starts_again [] name c m there d known below early = cc
  starts_again (n ∷ names) name c m there d known below early =
      elim (Option-cases (lookup n m.workers)) [
        | inl missing ↦ absurd (ground (arith, known n (listed_first n names), ap is_some missing))
        | inr (worker, found) ↦
            rw (found, start_loop)
              (elim (Bool-cases (string_eq.beq n name)) [
                | inl same ↦
                    let e : n ≡ name = (string_eq.beq_iff n name).0 same in
                    Returns-map (λ m' t. (m.next_ctx, t))
                      (still-IsTwice names name c m.next_ctx (start_worker n m)
                        (ground (arith, d, ap (λ k. listed k names) e))
                        (λ k h. known k (ground (arith, h)))
                        (subst (λ k. IsTwice name c m.next_ctx (start_worker k m)) (sym e)
                          (first_time name c m below early)))
                | inr other ↦
                    starts_again names name c (start_worker n m) (ground (arith, there, other))
                      (ground (arith, d)) (λ k h. known k (ground (arith, h)))
                      (omega (arith, below)) (untouched c (new_routine name) n m below early)
              ])
      ]

  from_started :
      (name : String) (c : ℕ) (m : Manager W E)
      → IsValid m
      → listed name m.worker_order ≡ true
      → c < m.next_ctx
      → lookup c m.routines ≡ some (new_routine name)
      → Returns (λ m'. (d : ℕ) × IsTwice name c d m') (start_workers m)
  unfolding Known start_workers
  from_started name c m v there below early =
      Returns-bind
        (starts_again m.worker_order name c m there v.order.unique v.order.known below early)
        (λ m' (d, t). returns (
          d,
          record {
            apart = t.apart;
            below = t.below;
            early = t.early;
            late = t.late;
            kept = t.kept;
          },
        ))

  -- A worker that is added to a valid manager after the begin of Run, and before the start of the
  -- workers, is started twice: there are two goroutines of it, and the map of cancel functions has only
  -- that of the second one.
  pub added_while_starting :
      (name : String) (stop_func : Option (HookFunc W E)) (m : Manager W E)
      → IsValid m
      → m.running ≡ true
      → lookup name m.workers ≡ none
      → Returns
          (λ m'. (d : ℕ) × IsTwice name m.next_ctx d m')
          (start_workers (add_worker name stop_func m).1)
  unfolding add_worker start_worker
  added_while_starting name stop_func m v running new =
      from_started name m.next_ctx (add_worker name stop_func m).1
        (add_worker-IsValid name stop_func m v)
        (rw (new, running, add_worker)
          (listed-snoc name name m.worker_order ∙ ground (arith, beq_self name)))
        (rw (new, running, add_worker) (omega arith))
        (rw (new, running, add_worker)
          (lookup-insert_self m.next_ctx (new_routine name) m.routines))
