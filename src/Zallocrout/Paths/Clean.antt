-- ===== src/Zallocrout/Paths/Clean.antt =====
-- A path for which needsNormalization answers no is its own canonical form, so that Match walks the
-- same segments whether it normalises or not.
use Prim.{tt}
use go_kitbox.Prelude.{
  ℕ, suc, ◌-◌, ◌≡◌, refl, sym, ap, ◌∙◌, Bool, true, false, ◌&&◌, ◌||◌, List, [], ◌∷◌, ◌++◌, length,
  get_or, drop, ◌==◌, Bool-cases, inl, inr, ==_iff, get_or-drop, drop-suc, append-nil, append_assoc,
  arith,
}
use go_kitbox.Prelude.Keys.{list_beq, nat_eq}
use go_kitbox.Prelude.Run.{ok}
use go_kitbox.Zallocrout.Paths.{
  Bytes, slash, dot, at, needs_loop, needs_normalization, normalize_path_bytes,
}
use go_kitbox.Zallocrout.Paths.Segments.{
  segments, resolve_one, resolve, spell, spell_root, canonical, segments_nil, segments_bar,
}
use go_kitbox.Zallocrout.Paths.Normal.{normalize_path_bytes-canonical}
use go_kitbox.Zallocrout.Paths.Split.{Plain, segments-Plain, segments-append, Plain-snoc}

-- The loop as a walk over the bytes with the one before.
doubled : ℕ → Bytes → Bool
doubled prev [] = false
doubled prev (b ∷ bs) = (b == slash && prev == slash) || (b == dot && prev == slash) || doubled b bs

needs_loop-doubled :
    (rest path : Bytes) (i prev : ℕ)
    → drop (suc i) path ≡ rest
    → at path i ≡ prev
    → needs_loop (length rest) path (suc i) ≡ doubled prev rest
unfolding needs_loop doubled
needs_loop-doubled [] path i prev e p = refl
needs_loop-doubled (b ∷ bs) path i prev e p =
    let here : at path (suc i) ≡ b = get_or-drop (suc i) path 0 ∙ ap (λ r. get_or r 0 0) e in
    let back : suc i - 1 ≡ i = omega arith in
    let rest = needs_loop-doubled bs path (suc i) b (drop-suc (suc i) path ∙ ap (drop 1) e) here in
    rw (back, here, p, rest) refl

last : ℕ → Bytes → ℕ
last b [] = b
last b (c ∷ cs) = last c cs

at-last : (b : ℕ) (bs : Bytes) → at (b ∷ bs) (length bs) ≡ last b bs
unfolding last
at-last b [] = refl
at-last b (c ∷ cs) = at-last c cs

-- A name that starts with another byte than a dot is no `.` and no `..`.
resolve_one_name :
    (c : ℕ) (name : Bytes) (names : List Bytes)
    → (c == dot) ≡ false
    → resolve_one (c ∷ name) names ≡ (c ∷ name) ∷ names
unfolding resolve_one list_beq
resolve_one_name c name names h = rw h refl

resolve-append :
    (names segs more : List Bytes)
    → resolve names (segs ++ more) ≡ resolve (resolve names segs) more
unfolding resolve
resolve-append names [] more = refl
resolve-append names (seg ∷ segs) more = resolve-append (resolve_one seg names) segs more

rest_clean : (prev b : ℕ) (bs : Bytes) → doubled prev (b ∷ bs) ≡ false → doubled b bs ≡ false
unfolding doubled
rest_clean prev b bs h = ground (arith, h)

module _ (prev d : ℕ) (ds : Bytes) (bar : (prev == slash) ≡ true)
    (clean : doubled prev (d ∷ ds) ≡ false) where
  no_bar : (d == slash) ≡ false
  unfolding doubled
  no_bar = ground (arith, bar, clean)

  no_dot : (d == dot) ≡ false
  unfolding doubled
  no_dot = ground (arith, bar, clean)

-- The walk is in the name that starts with `c`; `prev` is the byte before the rest.
spell-resolve :
    (names : List Bytes) (c : ℕ) (name : Bytes) (prev : ℕ) (rest : Bytes)
    → (c == dot) ≡ false
    → Plain (c ∷ name)
    → doubled prev rest ≡ false
    → (last prev rest == slash) ≡ false
    → spell (resolve names (segments ((c ∷ name) ++ rest)))
      ≡ spell names ++ slash ∷ ((c ∷ name) ++ rest)
unfolding last resolve
spell-resolve names c name prev [] dotless plain clean ends =
    let one : segments ((c ∷ name) ++ []) ≡ (c ∷ name) ∷ [] =
      ap segments (append-nil (c ∷ name)) ∙ segments-Plain (c ∷ name) plain in
    rw (one, resolve_one_name c name names dotless)
      (ap (λ w. spell names ++ slash ∷ w) (sym (append-nil (c ∷ name))))
spell-resolve names c name prev (b ∷ []) dotless plain clean ends =
    let joined = append-nil ((c ∷ name) ++ b ∷ []) in
    let all =
      spell-resolve names c (name ++ b ∷ []) b [] dotless (Plain-snoc (c ∷ name) b plain ends)
        (rest_clean prev b [] clean) ends in
    sym (ap (λ w. spell (resolve names (segments w))) joined)
    ∙ all
    ∙ ap (λ w. spell names ++ slash ∷ w) joined
spell-resolve names c name prev (b ∷ d ∷ ds) dotless plain clean ends =
    elim (Bool-cases (b == slash)) [
      | inl bar ↦
          let at_bar : b ≡ slash = (==_iff b slash).0 bar in
          let clean' = rest_clean prev b (d ∷ ds) clean in
          let split : segments ((c ∷ name) ++ b ∷ d ∷ ds) ≡ (c ∷ name) ∷ segments (d ∷ ds) =
            ap (λ k. segments ((c ∷ name) ++ k ∷ d ∷ ds)) at_bar
            ∙ segments-append (c ∷ name) (d ∷ ds)
            ∙ ap (λ ps. ps ++ segments (d ∷ ds)) (segments-Plain (c ∷ name) plain) in
          rw (split, resolve, resolve_one_name c name names dotless)
            (spell-resolve ((c ∷ name) ∷ names) d [] d ds (no_dot b d ds bar clean')
                (no_bar b d ds bar clean', tt) (rest_clean b d ds clean') ends
              ∙ append_assoc (spell names) (slash ∷ c ∷ name) (slash ∷ d ∷ ds)
              ∙ ap (λ k. spell names ++ slash ∷ ((c ∷ name) ++ k ∷ d ∷ ds)) (sym at_bar))
      | inr inside ↦
          let joined = append_assoc (c ∷ name) (b ∷ []) (d ∷ ds) in
          sym (ap (λ w. spell (resolve names (segments w))) joined)
          ∙ spell-resolve names c (name ++ b ∷ []) b (d ∷ ds) dotless
              (Plain-snoc (c ∷ name) b plain inside) (rest_clean prev b (d ∷ ds) clean) ends
          ∙ ap (λ w. spell names ++ slash ∷ w) joined
    ]

-- What the four tests of needsNormalization leave.
data IsClean : Bytes → Type 0 where
  root : IsClean (slash ∷ [])
  named :
      (c : ℕ) (rest : Bytes)
      → (c == dot) ≡ false
      → (c == slash) ≡ false
      → doubled c rest ≡ false
      → (last c rest == slash) ≡ false
      → IsClean (slash ∷ c ∷ rest)

needs_normalization-IsClean : (path : Bytes) → needs_normalization path ≡ false → IsClean path
unfolding needs_normalization
needs_normalization-IsClean [] h = cc
needs_normalization-IsClean (b ∷ []) h = let bar : b ≡ slash = ground (arith, h) in rw bar root
needs_normalization-IsClean (b ∷ c ∷ rest) h =
    let path : Bytes = b ∷ c ∷ rest in
    let bar : (b == slash) ≡ true = ground (arith, h) in
    let size : length path - 1 ≡ length (c ∷ rest) = omega arith in
    let scan : needs_loop (length path - 1) path 1 ≡ false = ground (arith, h) in
    let walk : doubled b (c ∷ rest) ≡ false =
      sym (needs_loop-doubled (c ∷ rest) path 0 b refl refl)
      ∙ ap (λ n. needs_loop n path 1) (sym size)
      ∙ scan in
    let final : (at path (length path - 1) == slash) ≡ false = ground (arith, h) in
    let ends : (last c rest == slash) ≡ false =
      ap (λ k. k == slash) (sym (at-last c rest))
      ∙ ap (λ n. at path n == slash) (sym size)
      ∙ final in
    rw ((==_iff b slash).0 bar) (
      named c rest (no_dot b c rest bar walk) (no_bar b c rest bar walk) (rest_clean b c rest walk)
        ends)

spell_root_lem :
    (names : List Bytes) (w : Bytes) → spell names ≡ slash ∷ w → spell_root names ≡ slash ∷ w
spell_root_lem [] w e = cc
spell_root_lem (name ∷ names) w e = e

clean_canonical : (path : Bytes) → IsClean path → canonical path ≡ path
unfolding resolve
clean_canonical path root = rw (segments_bar slash [] refl, segments_nil) refl
clean_canonical path (named c rest dotless barless walk ends) =
    ap (λ segs. spell_root (resolve [] segs)) (segments_bar slash (c ∷ rest) refl)
    ∙ spell_root_lem (resolve [] (segments (c ∷ rest))) (c ∷ rest)
        (spell-resolve [] c [] c rest dotless (barless, tt) walk ends)

some_path :
    (path : Bytes)
    → IsClean path
    → elim path [ [] ↦ [] | b ∷ bs ↦ canonical (b ∷ bs) ] ≡ canonical path
some_path path root = refl
some_path path (named c rest _ _ _ _) = refl

-- A path for which needsNormalization answers no is what normalizePathBytes would make of it.
pub needs_normalization-normalize_path_bytes :
    (path : Bytes) → needs_normalization path ≡ false → normalize_path_bytes path ≡ ok path
needs_normalization-normalize_path_bytes path h =
    let clean = needs_normalization-IsClean path h in
    normalize_path_bytes-canonical path ∙ ap ok (some_path path clean ∙ clean_canonical path clean)
