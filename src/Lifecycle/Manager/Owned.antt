-- ===== src/Lifecycle/Manager/Owned.antt =====
-- The goroutines that are not at their end have their contexts in the map of cancel functions, under the
-- names of their workers.
use Prim.Native.String.{String}
use go_kitbox.Prelude.{
  ℕ, ◌≡◌, refl, sym, ap, ◌∙◌, Bool, true, false, List, [], ◌∷◌, Option, none, some, Option-cases,
  Bool-cases, inl, inr, arith,
}
use go_kitbox.Prelude.Keys.{nat_eq, string_eq, beq_self}
use go_kitbox.Prelude.Maps.{
  lookup, insert, delete, insert_cases, lookup-insert, lookup-delete, lookup-insert_self,
}
use go_kitbox.Prelude.Run.{Returns, returns}
use go_kitbox.Lifecycle.Manager.{
  Phase, spawned, working, leaving, finished, gone, Routine, Manager, start_worker, start_loop,
}
use go_kitbox.Lifecycle.Manager.Names.{listed, distinct, is_some, has}

abbrev pub is_gone : Phase → Bool
is_gone spawned = false
is_gone working = false
is_gone leaving = false
is_gone finished = false
is_gone gone = true

abbrev name_in : String → Option Routine → String
name_in d none = d
name_in d (some r) = r.name

module _ {V : Type 0} where
  -- A goroutine that is not gone is under its name in both maps.
  abbrev pub Owned : List (String × ℕ) → List (String × V) → List (ℕ × Routine) → Type 0
  Owned contexts workers routines =
      (c : ℕ) (r : Routine)
      → lookup c routines ≡ some r
      → is_gone r.phase ≡ false
      → (lookup r.name contexts ≡ some c) × (has r.name workers ≡ true)

  pub Owned-new :
      (name : String) (next : ℕ) (contexts : List (String × ℕ)) (workers : List (String × V))
      (routines : List (ℕ × Routine))
      → Owned contexts workers routines
      → ((c : ℕ) (r : Routine)
          → lookup c routines ≡ some r
          → is_gone r.phase ≡ false
          → string_eq.beq name r.name ≡ false)
      → has name workers ≡ true
      → Owned
          (insert name next contexts)
          workers
          (insert next (record { name = name; phase = spawned }) routines)
  Owned-new name next contexts workers routines o others there c r h live =
      let r0 : Routine = record { name = name; phase = spawned } in
      elim (insert_cases next c r0 r routines h) [
        | inl (same, new) ↦
            let named : name ≡ r.name = ap (λ x. x.name) new in
            (
              ap (λ n. lookup n (insert name next contexts)) (sym named)
                  ∙ lookup-insert_self name next contexts
                  ∙ ap some same,
              ap (λ n. has n workers) (sym named) ∙ there,
            )
        | inr (other, old) ↦
            let (context, worker) = o c r old live in
            (lookup-insert name r.name next contexts ∙ rw (others c r old live) context, worker)
      ]

  pub Owned-moved :
      (c : ℕ) (r : Routine) (phase : Phase) (contexts : List (String × ℕ))
      (workers : List (String × V)) (routines : List (ℕ × Routine))
      → Owned contexts workers routines
      → lookup c routines ≡ some r
      → is_gone r.phase ≡ false
      → Owned contexts workers (insert c (record { name = r.name; phase = phase }) routines)
  Owned-moved c r phase contexts workers routines o h live d s k still =
      let r' : Routine = record { name = r.name; phase = phase } in
      elim (insert_cases c d r' s routines k) [
        | inl (same, new) ↦
            let named : r.name ≡ s.name = ap (λ x. x.name) new in
            let (context, worker) = o c r h live in
            (
              ap (λ n. lookup n contexts) (sym named) ∙ context ∙ ap some same,
              ap (λ n. has n workers) (sym named) ∙ worker,
            )
        | inr (other, old) ↦ o d s old still
      ]

  pub Owned-gone :
      (c : ℕ) (r : Routine) (contexts : List (String × ℕ)) (workers : List (String × V))
      (routines : List (ℕ × Routine))
      → Owned contexts workers routines
      → lookup c routines ≡ some r
      → is_gone r.phase ≡ false
      → Owned
          (delete r.name contexts)
          (delete r.name workers)
          (insert c (record { name = r.name; phase = gone }) routines)
  Owned-gone c r contexts workers routines o h live d s k still =
      let r' : Routine = record { name = r.name; phase = gone } in
      elim (insert_cases c d r' s routines k) [
        | inl (same, new) ↦ absurd (ground (arith, still, ap (λ x. is_gone x.phase) new))
        | inr (other, old) ↦
            let (context, worker) = o d s old still in
            let (own, _) = o c r h live in
            let apart : string_eq.beq r.name s.name ≡ false =
              elim (Bool-cases (string_eq.beq r.name s.name)) [
                | inl same ↦
                    let e : some c ≡ some d =
                      sym own
                      ∙ ap (λ n. lookup n contexts) ((string_eq.beq_iff r.name s.name).0 same)
                      ∙ context in
                    absurd (other cc)
                | inr ne ↦ ne
              ] in
            (
              lookup-delete r.name s.name contexts ∙ rw apart context,
              ap is_some (lookup-delete r.name s.name workers) ∙ rw apart worker,
            )
      ]

-- None of the names is that of a goroutine that is not gone.
abbrev pub Unused : List String → List (ℕ × Routine) → Type 0
Unused names routines =
    (c : ℕ) (r : Routine)
    → lookup c routines ≡ some r
    → is_gone r.phase ≡ false
    → listed r.name names ≡ false

module _ {W E : Type 0} where
  abbrev pub IsOwned : Manager W E → Type 0
  IsOwned m = Owned m.worker_contexts m.workers m.routines

  pub start_loop-IsOwned :
      (names : List String) (m : Manager W E)
      → IsOwned m
      → distinct names ≡ true
      → Unused names m.routines
      → ((n : String) → listed n names ≡ true → has n m.workers ≡ true)
      → Returns (λ m'. IsOwned m' × (m'.running ≡ m.running)) (start_loop names m)
  unfolding start_loop start_worker
  start_loop-IsOwned [] m o d unused known = returns (o, refl)
  start_loop-IsOwned (name ∷ names) m o d unused known =
      elim (Option-cases (lookup name m.workers)) [
        | inl missing ↦
            absurd (ground (arith, known name (ground (arith, beq_self name)), ap is_some missing))
        | inr (worker, there) ↦
            let next : Routine = record { name = name; phase = spawned } in
            let o' =
              Owned-new name m.next_ctx m.worker_contexts m.workers m.routines o
                (λ c r h live. ground (arith, unused c r h live)) (ap is_some there) in
            rw (there, start_loop)
              (start_loop-IsOwned names (start_worker name m) o' (ground (arith, d))
                (λ c r h live. elim (insert_cases m.next_ctx c next r m.routines h) [
                  | inl (same, new) ↦
                      ap (λ x. listed x names) (sym (ap (λ x. x.name) new)) ∙ ground (arith, d)
                  | inr (other, old) ↦ ground (arith, unused c r old live)
                ])
                (λ n h. known n (ground (arith, h))))
      ]
