-- ===== src/Zallocrout/Paths/Segments.antt =====
-- What paths mean: the parts between the bars, the names that are left when `.` and `..` are resolved,
-- and the path that these names spell. The resolved names are kept with the last one first.
use go_kitbox.Prelude.{
  ℕ, ◌≡◌, refl, ap, ◌∙◌, true, false, List, [], ◌∷◌, ◌++◌, ◌==◌, if◌then◌else◌, Bool-cases, inl,
  inr, arith,
}
use go_kitbox.Prelude.Keys.{nat_eq, list_eq}
use go_kitbox.Zallocrout.Paths.{Bytes, slash, dot}

-- The bytes before the first bar, and those from it on.
abbrev pub first : Bytes → Bytes
first [] = []
first (b ∷ bs) = if b == slash then [] else b ∷ first bs

abbrev pub after : Bytes → Bytes
after [] = []
after (b ∷ bs) = if b == slash then b ∷ bs else after bs

-- `strings.Split(path, "/")`
abbrev pub onto : ℕ → List Bytes → List Bytes
onto b [] = (b ∷ []) ∷ []
onto b (p ∷ ps) = (b ∷ p) ∷ ps

unfoldable pub parts : Bytes → List Bytes
parts [] = [] ∷ []
parts (b ∷ bs) = if b == slash then [] ∷ parts bs else onto b (parts bs)

unfoldable pub drop_empty : List Bytes → List Bytes
drop_empty [] = []
drop_empty ([] ∷ ps) = drop_empty ps
drop_empty ((b ∷ p) ∷ ps) = (b ∷ p) ∷ drop_empty ps

unfoldable pub segments : Bytes → List Bytes
unfolding parts drop_empty
segments path = drop_empty (parts path)

-- What one segment does to the names before it.
unfoldable pub resolve_one : Bytes → List Bytes → List Bytes
resolve_one seg names =
    if list_eq.beq seg (dot ∷ [])
    then names
    else (if list_eq.beq seg (dot ∷ dot ∷ [])
        then elim names [ [] ↦ [] | _ ∷ up ↦ up ]
        else seg ∷ names)

unfoldable pub resolve : List Bytes → List Bytes → List Bytes
resolve names [] = names
resolve names (seg ∷ segs) = resolve (resolve_one seg names) segs

-- "/a/b" for b and a
abbrev pub spell : List Bytes → Bytes
spell [] = []
spell (name ∷ names) = spell names ++ slash ∷ name

abbrev pub spell_root : List Bytes → Bytes
spell_root [] = slash ∷ []
spell_root (name ∷ names) = spell (name ∷ names)

-- The canonical form of a path.
abbrev pub canonical : Bytes → Bytes
canonical path = spell_root (resolve [] (segments path))

pub first-append-after : (bs : Bytes) → first bs ++ after bs ≡ bs
first-append-after [] = refl
first-append-after (b ∷ bs) = ground (arith, first-append-after bs)

unfoldable pub rest_parts : Bytes → List Bytes
rest_parts [] = []
rest_parts (b ∷ bs) = parts bs

pub parts_first : (bs : Bytes) → parts bs ≡ first bs ∷ rest_parts (after bs)
unfolding parts rest_parts
parts_first [] = refl
parts_first (b ∷ bs) = elim (Bool-cases (b == slash)) [
  | inl bar ↦ rw (bar, parts) refl
  | inr name ↦ rw (name, parts) (ap (onto b) (parts_first bs))
]

rest_parts_lem : (bs : Bytes) → drop_empty (rest_parts (after bs)) ≡ segments (after bs)
unfolding segments rest_parts
rest_parts_lem [] = refl
rest_parts_lem (b ∷ bs) = elim (Bool-cases (b == slash)) [
  | inl bar ↦ rw (bar, bar) refl
  | inr name ↦ rw name (rest_parts_lem bs)
]

pub segments_nil : segments [] ≡ []
unfolding segments
segments_nil = refl

pub segments_bar : (b : ℕ) (bs : Bytes) → (b == slash) ≡ true → segments (b ∷ bs) ≡ segments bs
unfolding segments
segments_bar b bs bar = rw (bar, parts) refl

pub segments_name :
    (b : ℕ) (bs : Bytes)
    → (b == slash) ≡ false
    → segments (b ∷ bs) ≡ first (b ∷ bs) ∷ segments (after (b ∷ bs))
unfolding segments
segments_name b bs name =
    ap drop_empty (parts_first (b ∷ bs))
    ∙ rw name (ap (λ t. (b ∷ first bs) ∷ t) (rest_parts_lem bs))
