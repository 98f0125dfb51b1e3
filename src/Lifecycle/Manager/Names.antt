-- ===== src/Lifecycle/Manager/Names.antt =====
-- The order of the workers' names, and the goroutines that still count.
use Prim.Native.String.{String}
use go_kitbox.Prelude.{
  ℕ, ◌+◌, ◌≡◌, refl, ap, ◌∙◌, Bool, true, false, not, ◌&&◌, ◌||◌, List, [], ◌∷◌, ◌++◌, Option, none,
  some, Bool-cases, inl, inr, arith,
}
use mathlib.Core.List.{reverse, reverse-cons}
use go_kitbox.Prelude.Keys.{nat_eq, string_eq}
use go_kitbox.Prelude.Maps.{lookup, insert, delete, lookup-insert, lookup-delete}
use go_kitbox.Lifecycle.Manager.{
  Phase, spawned, working, leaving, finished, gone, Routine, remove_first,
}

abbrev pub listed : String → List String → Bool
listed name [] = false
listed name (n ∷ names) = string_eq.beq n name || listed name names

abbrev pub distinct : List String → Bool
distinct [] = true
distinct (n ∷ names) = not (listed n names) && distinct names

pub listed-snoc :
    (asked name : String) (names : List String)
    → listed asked (names ++ name ∷ []) ≡ (listed asked names || string_eq.beq name asked)
listed-snoc asked name [] = ground arith
listed-snoc asked name (n ∷ names) = ground (arith, listed-snoc asked name names)

pub listed-reverse :
    (asked : String) (names : List String) → listed asked (reverse names) ≡ listed asked names
listed-reverse asked [] = refl
listed-reverse asked (n ∷ names) =
    ap (listed asked) (reverse-cons n names)
    ∙ listed-snoc asked n (reverse names)
    ∙ ground (arith, listed-reverse asked names)

pub distinct-snoc :
    (name : String) (names : List String)
    → listed name names ≡ false
    → distinct names ≡ true
    → distinct (names ++ name ∷ []) ≡ true
distinct-snoc name [] h d = refl
distinct-snoc name (n ∷ names) h d = ground (
  arith,
  h,
  d,
  listed-snoc n name names,
  string_eq.beq_iff n name,
  string_eq.beq_iff name n,
  distinct-snoc name names (ground (arith, h)) (ground (arith, d)),
)

listed_same :
    (name asked : String) (names : List String)
    → listed name names ≡ false
    → listed asked names ≡ true
    → string_eq.beq name asked ≡ false
listed_same name asked names h k = elim (Bool-cases (string_eq.beq name asked)) [
  | inl same ↦
      absurd
        (ground (arith, h, k, ap (λ n. listed n names) ((string_eq.beq_iff name asked).0 same)))
  | inr other ↦ other
]

listed-remove_first :
    (name asked : String) (names : List String)
    → distinct names ≡ true
    → listed asked (remove_first name names) ≡ true
    → (listed asked names ≡ true) × (string_eq.beq name asked ≡ false)
listed-remove_first name asked [] d h = cc
listed-remove_first name asked (n ∷ names) d h = elim (Bool-cases (string_eq.beq n name)) [
  | inl same ↦
      let there : listed asked names ≡ true = ground (arith, h, same) in
      let once : listed name names ≡ false =
        ground (arith, d, ap (λ x. listed x names) ((string_eq.beq_iff n name).0 same)) in
      (ground (arith, there), listed_same name asked names once there)
  | inr other ↦ elim (Bool-cases (string_eq.beq n asked)) [
    | inl here ↦ (
      ground (arith, here),
      ground (
        arith,
        other,
        here,
        string_eq.beq_iff n asked,
        string_eq.beq_iff name asked,
        string_eq.beq_iff n name,
      ),
    )
    | inr later ↦
        let (there, ne) =
          listed-remove_first name asked names (ground (arith, d))
            (ground (arith, h, other, later)) in
        (ground (arith, there), ne)
  ]
]

distinct-remove_first :
    (name : String) (names : List String)
    → distinct names ≡ true
    → distinct (remove_first name names) ≡ true
distinct-remove_first name [] d = refl
distinct-remove_first name (n ∷ names) d = elim (Bool-cases (string_eq.beq n name)) [
  | inl same ↦ ground (arith, d, same)
  | inr other ↦
      let rest : distinct (remove_first name names) ≡ true =
        distinct-remove_first name names (ground (arith, d)) in
      elim (Bool-cases (listed n (remove_first name names))) [
        | inl there ↦
            absurd (ground (arith, d, listed-remove_first name n names (ground (arith, d)) there))
        | inr absent ↦ ground (arith, other, rest, absent)
      ]
]

abbrev pub is_some : {A : Type 0} → Option A → Bool
is_some none = false
is_some (some a) = true

abbrev pub has : {V : Type 0} → String → List (String × V) → Bool
has name m = is_some (lookup name m)

-- The order has each name once, and only names of workers.
pub record IsOrder {V : Type 0} (order : List String) (workers : List (String × V)) : Type 0 where
  pub unique : distinct order ≡ true
  pub known : (n : String) → listed n order ≡ true → has n workers ≡ true

module _ {V : Type 0} (name : String) (order : List String) (workers : List (String × V))
    (v : IsOrder order workers) where
  pub added-IsOrder :
      (worker : V)
      → lookup name workers ≡ none
      → IsOrder (order ++ name ∷ []) (insert name worker workers)
  added-IsOrder worker new = record {
    unique = elim (Bool-cases (listed name order)) [
      | inl there ↦ absurd (ground (arith, v.known name there, ap is_some new))
      | inr absent ↦ distinct-snoc name order absent v.unique
    ];
    known = λ n h.
        ap is_some (lookup-insert name n worker workers)
        ∙ elim (Bool-cases (string_eq.beq name n)) [
          | inl same ↦ rw same refl
          | inr other ↦ rw other (v.known n (ground (arith, h, other, listed-snoc n name order)))
        ];
  }

  pub forgotten-IsOrder : IsOrder (remove_first name order) (delete name workers)
  forgotten-IsOrder = record {
    unique = distinct-remove_first name order v.unique;
    known = λ n h.
        (let (there, other) = listed-remove_first name n order v.unique h in
          ap is_some (lookup-delete name n workers) ∙ rw other (v.known n there));
  }

-- A goroutine before its `wg.Done()`
abbrev pub counts : Phase → ℕ
counts spawned = 1
counts working = 1
counts leaving = 1
counts finished = 0
counts gone = 0

abbrev pub pending : List (ℕ × Routine) → ℕ
pending [] = 0
pending ((c, r) ∷ rest) = counts r.phase + pending rest

abbrev pub counts_of : Option Routine → ℕ
counts_of none = 0
counts_of (some r) = counts r.phase

pub pending_new :
    (c : ℕ) (r : Routine) (routines : List (ℕ × Routine))
    → lookup c routines ≡ none
    → pending (insert c r routines) ≡ pending routines + counts r.phase
unfolding lookup insert
pending_new c r [] h = omega arith
pending_new c r ((at, old) ∷ rest) h = elim (Bool-cases (nat_eq.beq at c)) [
  | inl same ↦ absurd (ground (arith, h, same))
  | inr other ↦ ground (arith, h, other, pending_new c r rest)
]

pub pending_old :
    (c : ℕ) (old r : Routine) (routines : List (ℕ × Routine))
    → lookup c routines ≡ some old
    → pending (insert c r routines) + counts old.phase ≡ pending routines + counts r.phase
unfolding lookup insert
pending_old c old r [] h = cc
pending_old c old r ((at, here) ∷ rest) h = elim (Bool-cases (nat_eq.beq at c)) [
  | inl same ↦
      let e : some here ≡ some old = ground (arith, h, same) in
      let as_many : counts here.phase ≡ counts old.phase = ap counts_of e in
      rw same (omega (arith, as_many))
  | inr other ↦ ground (arith, h, other, pending_old c old r rest)
]
