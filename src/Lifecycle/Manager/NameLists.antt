-- ===== src/Lifecycle/Manager/NameLists.antt =====
-- The names of a map, and what leaving a name out of a list of names does.
use Prim.Native.String.{String}
use go_kitbox.Prelude.{
  ◌≡◌, refl, sym, ap, ◌∙◌, true, false, List, [], ◌∷◌, ◌++◌, none, some, Bool-cases, inl, inr,
  if◌then◌else◌, append-nil, arith,
}
use mathlib.Core.List.{reverse, reverse-cons}
use go_kitbox.Prelude.Keys.{nat_eq, string_eq}
use go_kitbox.Prelude.Maps.{lookup, delete}
use go_kitbox.Lifecycle.Manager.{remove_first}
use go_kitbox.Lifecycle.Manager.Names.{listed, distinct, distinct-snoc, listed-reverse}

abbrev pub names : {V : Type 0} → List (String × V) → List String
names [] = []
names ((n, v) ∷ rest) = n ∷ names rest

abbrev pub leave_out : String → List String → List String
leave_out name [] = []
leave_out name (n ∷ ns) = if string_eq.beq n name then leave_out name ns else n ∷ leave_out name ns

absent_leave_out :
    (name : String) (ns : List String) → listed name ns ≡ false → leave_out name ns ≡ ns
absent_leave_out name [] h = refl
absent_leave_out name (n ∷ ns) h = ground (arith, h, absent_leave_out name ns (ground (arith, h)))

pub remove_first-leave_out :
    (name : String) (ns : List String)
    → distinct ns ≡ true
    → remove_first name ns ≡ leave_out name ns
remove_first-leave_out name [] d = refl
remove_first-leave_out name (n ∷ ns) d = elim (Bool-cases (string_eq.beq n name)) [
  | inl same ↦
      let once : listed name ns ≡ false =
        ground (arith, d, ap (λ x. listed x ns) ((string_eq.beq_iff n name).0 same)) in
      rw same (sym (absent_leave_out name ns once))
  | inr other ↦ rw other (ap (λ xs. n ∷ xs) (remove_first-leave_out name ns (ground (arith, d))))
]

leave_out-append :
    (name : String) (xs ys : List String)
    → leave_out name (xs ++ ys) ≡ leave_out name xs ++ leave_out name ys
leave_out-append name [] ys = refl
leave_out-append name (x ∷ xs) ys = ground (arith, leave_out-append name xs ys)

pub leave_out-reverse :
    (name : String) (ns : List String) → leave_out name (reverse ns) ≡ reverse (leave_out name ns)
leave_out-reverse name [] = refl
leave_out-reverse name (n ∷ ns) =
    ap (leave_out name) (reverse-cons n ns)
    ∙ leave_out-append name (reverse ns) (n ∷ [])
    ∙ ap (λ xs. xs ++ leave_out name (n ∷ [])) (leave_out-reverse name ns)
    ∙ elim (Bool-cases (string_eq.beq n name)) [
      | inl same ↦ rw same (append-nil (reverse (leave_out name ns)))
      | inr other ↦ rw other (sym (reverse-cons n (leave_out name ns)))
    ]

pub names-delete :
    {V : Type 0} (name : String) (m : List (String × V))
    → names (delete name m) ≡ leave_out name (names m)
unfolding delete
names-delete name [] = refl
names-delete name ((n, v) ∷ rest) = ground (arith, names-delete name rest)

listed-delete :
    {V : Type 0} (name n : String) (m : List (String × V))
    → listed n (names m) ≡ false
    → listed n (names (delete name m)) ≡ false
unfolding delete
listed-delete name n [] h = refl
listed-delete name n ((k, v) ∷ rest) h =
    ground (arith, h, listed-delete name n rest (ground (arith, h)))

pub distinct-delete :
    {V : Type 0} (name : String) (m : List (String × V))
    → distinct (names m) ≡ true
    → distinct (names (delete name m)) ≡ true
unfolding delete
distinct-delete name [] d = refl
distinct-delete name ((k, v) ∷ rest) d = ground (
  arith,
  d,
  distinct-delete name rest (ground (arith, d)),
  listed-delete name k rest (ground (arith, d)),
)

pub distinct-reverse : (ns : List String) → distinct ns ≡ true → distinct (reverse ns) ≡ true
distinct-reverse [] d = refl
distinct-reverse (n ∷ ns) d =
    ap distinct (reverse-cons n ns)
    ∙ distinct-snoc n (reverse ns) (listed-reverse n ns ∙ ground (arith, d))
        (distinct-reverse ns (ground (arith, d)))

pub absent_listed :
    {V : Type 0} (name : String) (m : List (String × V))
    → lookup name m ≡ none
    → listed name (names m) ≡ false
unfolding lookup
absent_listed name [] h = refl
absent_listed name ((n, v) ∷ rest) h = elim (Bool-cases (string_eq.beq n name)) [
  | inl same ↦ absurd (ground (arith, h, same))
  | inr other ↦ ground (arith, other, absent_listed name rest (ground (arith, h, other)))
]

present_listed :
    {V : Type 0} (name : String) (v : V) (m : List (String × V))
    → lookup name m ≡ some v
    → listed name (names m) ≡ true
unfolding lookup
present_listed name v [] h = cc
present_listed name v ((n, u) ∷ rest) h = elim (Bool-cases (string_eq.beq n name)) [
  | inl same ↦ ground (arith, same)
  | inr other ↦ ground (arith, present_listed name v rest (ground (arith, h, other)))
]

-- What is found behind an entry with another name is found with it too.
pub found_behind :
    {V : Type 0} (n k : String) (u v : V) (rest : List (String × V))
    → listed n (names rest) ≡ false
    → lookup k rest ≡ some v
    → lookup k ((n, u) ∷ rest) ≡ some v
unfolding lookup
found_behind n k u v rest absent h = elim (Bool-cases (string_eq.beq n k)) [
  | inl same ↦ absurd (
      ground (
        arith,
        absent,
        present_listed k v rest h,
        ap (λ x. listed x (names rest)) ((string_eq.beq_iff n k).0 same),
      ))
  | inr other ↦ rw other h
]
