-- ===== src/Zallocrout/Paths/Names.antt =====
-- The names of a path are not empty and have no bar, and the canonical form has them as its segments.
use Prim.{Unit, tt}
use go_kitbox.Prelude.{
  ℕ, ◌≡◌, ◌≢◌, refl, sym, ap₂, ◌∙◌, false, List, [], ◌∷◌, ◌++◌, ◌==◌, Bool-cases, inl, inr,
}
use mathlib.Core.List.{reverse, reverse-cons}
use go_kitbox.Prelude.Keys.{nat_eq, list_beq}
use go_kitbox.Zallocrout.Paths.{Bytes, slash, dot}
use go_kitbox.Zallocrout.Paths.Segments.{
  onto, parts, drop_empty, segments, resolve_one, resolve, spell, spell_root, canonical,
  segments_nil, segments_bar,
}
use go_kitbox.Zallocrout.Paths.Split.{Plain, segments-Plain, segments-append}

abbrev pub AllPlain : List Bytes → Type 0
AllPlain [] = Unit
AllPlain (p ∷ ps) = Plain p × AllPlain ps

-- What the segments are: not empty, and without a bar.
abbrev pub IsName : Bytes → Type 0
IsName p = Plain p × (p ≢ [])

abbrev pub AllNames : List Bytes → Type 0
AllNames [] = Unit
AllNames (p ∷ ps) = IsName p × AllNames ps

onto-AllPlain :
    (b : ℕ) (ps : List Bytes) → (b == slash) ≡ false → AllPlain ps → AllPlain (onto b ps)
onto-AllPlain b [] e h = ((e, tt), tt)
onto-AllPlain b (p ∷ ps) e h = ((e, h.0), h.1)

parts-AllPlain : (w : Bytes) → AllPlain (parts w)
unfolding parts
parts-AllPlain [] = (tt, tt)
parts-AllPlain (b ∷ w) = elim (Bool-cases (b == slash)) [
  | inl bar ↦ rw (bar, parts) (tt, parts-AllPlain w)
  | inr inside ↦ rw (inside, parts) (onto-AllPlain b (parts w) inside (parts-AllPlain w))
]

drop_empty-AllNames : (ps : List Bytes) → AllPlain ps → AllNames (drop_empty ps)
unfolding drop_empty
drop_empty-AllNames [] h = tt
drop_empty-AllNames ([] ∷ ps) h = drop_empty-AllNames ps h.1
drop_empty-AllNames ((b ∷ p) ∷ ps) h = ((h.0, λ e. cc), drop_empty-AllNames ps h.1)

pub segments-AllNames : (w : Bytes) → AllNames (segments w)
unfolding segments
segments-AllNames w = drop_empty-AllNames (parts w) (parts-AllPlain w)

up-AllNames :
    (names : List Bytes) → AllNames names → AllNames (elim names [ [] ↦ [] | _ ∷ up ↦ up ])
up-AllNames [] h = tt
up-AllNames (n ∷ ns) h = h.1

resolve_one-AllNames :
    (seg : Bytes) (names : List Bytes)
    → IsName seg
    → AllNames names
    → AllNames (resolve_one seg names)
unfolding resolve_one
resolve_one-AllNames seg names k h = elim (Bool-cases (list_beq seg (dot ∷ []))) [
  | inl one ↦ rw (one, resolve_one) h
  | inr more ↦ elim (Bool-cases (list_beq seg (dot ∷ dot ∷ []))) [
    | inl two ↦ rw (more, two, resolve_one) (up-AllNames names h)
    | inr name ↦ rw (more, name, resolve_one) (k, h)
  ]
]

resolve-AllNames :
    (names segs : List Bytes) → AllNames names → AllNames segs → AllNames (resolve names segs)
unfolding resolve
resolve-AllNames names [] h k = h
resolve-AllNames names (seg ∷ segs) h k =
    resolve-AllNames (resolve_one seg names) segs (resolve_one-AllNames seg names k.0 h) k.1

segments-IsName : (p : Bytes) → IsName p → segments p ≡ p ∷ []
segments-IsName [] h = absurd (h.1 refl)
segments-IsName (b ∷ p) h = segments-Plain (b ∷ p) h.0

segments-spell : (names : List Bytes) → AllNames names → segments (spell names) ≡ reverse names
segments-spell [] h = segments_nil
segments-spell (n ∷ ns) h =
    segments-append (spell ns) n
    ∙ ap₂ ◌++◌ (segments-spell ns h.1) (segments-IsName n h.0)
    ∙ sym (reverse-cons n ns)

root_or_names : (names : List Bytes) → AllNames names → segments (spell_root names) ≡ reverse names
root_or_names [] h = segments_bar slash [] refl ∙ segments_nil
root_or_names (n ∷ ns) h = segments-spell (n ∷ ns) h

-- The segments of the canonical form are the names that are left.
pub segments-canonical : (w : Bytes) → segments (canonical w) ≡ reverse (resolve [] (segments w))
segments-canonical w =
    root_or_names (resolve [] (segments w))
      (resolve-AllNames [] (segments w) tt (segments-AllNames w))
