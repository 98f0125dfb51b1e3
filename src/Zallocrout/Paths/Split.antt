-- ===== src/Zallocrout/Paths/Split.antt =====
-- splitPathToCompressedSegs gives the parts between the bars that are not empty, and the canonical form
-- of a path has the names as its parts.
use Prim.{Unit, tt}
use go_kitbox.Prelude.{
  ℕ, suc, ◌+◌, ◌-◌, ◌≡◌, refl, sym, ap, ap₂, ◌∙◌, true, false, List, [], ◌∷◌, ◌++◌, length, get_or,
  take, drop, ltb, ◌==◌, suc-eq_zero, if◌then◌else◌, Bool-cases, inl, inr, ==_iff, length-append,
  take-append, drop-append, get_or-drop, drop-suc, length-drop, drop-drop, append-nil, append_assoc,
  arith,
}
use go_kitbox.Zallocrout.Paths.{Bytes, slash, at, split_loop, split_path_to_compressed_segs}
use go_kitbox.Zallocrout.Paths.Segments.{
  onto, parts, parts_first, drop_empty, segments, segments_nil, segments_bar,
}

-- No bar among the bytes.
abbrev pub Plain : Bytes → Type 0
Plain [] = Unit
Plain (b ∷ bs) = ((b == slash) ≡ false) × Plain bs

onto-append :
    (b : ℕ) (w : Bytes) (ps : List Bytes) → onto b (parts w ++ ps) ≡ onto b (parts w) ++ ps
onto-append b w ps = rw (parts_first w) refl

parts-append : (w r : Bytes) → parts (w ++ slash ∷ r) ≡ parts w ++ parts r
unfolding parts
parts-append [] r = refl
parts-append (b ∷ w) r = elim (Bool-cases (b == slash)) [
  | inl bar ↦ rw (bar, parts) (ap (λ ps. [] ∷ ps) (parts-append w r))
  | inr name ↦ rw (name, parts) (ap (onto b) (parts-append w r) ∙ onto-append b w (parts r))
]

drop_empty-append : (ps qs : List Bytes) → drop_empty (ps ++ qs) ≡ drop_empty ps ++ drop_empty qs
unfolding drop_empty
drop_empty-append [] qs = refl
drop_empty-append ([] ∷ ps) qs = drop_empty-append ps qs
drop_empty-append ((b ∷ p) ∷ ps) qs = ap (λ rs. (b ∷ p) ∷ rs) (drop_empty-append ps qs)

pub segments-append : (w r : Bytes) → segments (w ++ slash ∷ r) ≡ segments w ++ segments r
unfolding segments
segments-append w r = ap drop_empty (parts-append w r) ∙ drop_empty-append (parts w) (parts r)

parts-Plain : (w : Bytes) → Plain w → parts w ≡ w ∷ []
unfolding parts
parts-Plain [] h = refl
parts-Plain (b ∷ w) h = rw (h.0, parts) (ap (onto b) (parts-Plain w h.1))

-- The parts of bytes without a bar.
abbrev pub alone : Bytes → List Bytes
alone [] = []
alone (b ∷ w) = (b ∷ w) ∷ []

pub segments-Plain : (w : Bytes) → Plain w → segments w ≡ alone w
unfolding segments drop_empty
segments-Plain [] h = refl
segments-Plain (b ∷ w) h = ap drop_empty (parts-Plain (b ∷ w) h)

pub Plain-snoc : (w : Bytes) (b : ℕ) → Plain w → (b == slash) ≡ false → Plain (w ++ b ∷ [])
Plain-snoc [] b h e = (e, tt)
Plain-snoc (c ∷ w) b h e = (h.0, Plain-snoc w b h.1 e)

-- The part that the loop is in has no bar before the index.
module _ (pending rest path : Bytes) (start i : ℕ) (result : List Bytes)
    (e : drop start path ≡ pending ++ rest) (at_end : i ≡ start + length pending) where
  pub drop_pending : drop i path ≡ rest
  drop_pending =
      ap (λ k. drop k path) at_end
      ∙ drop-drop start (length pending) path
      ∙ ap (drop (length pending)) e
      ∙ drop-append pending rest

grown_lem :
    (pending rest path : Bytes) (start i : ℕ) (result : List Bytes)
    → drop start path ≡ pending ++ rest
    → i ≡ start + length pending
    → (if ltb start i then result ++ take (i - start) (drop start path) ∷ [] else result)
      ≡ result ++ alone pending
grown_lem [] rest path start i result e at_end =
    let empty : ltb start i ≡ false = ground (arith, at_end) in rw empty (sym (append-nil result))
grown_lem (b ∷ p) rest path start i result e at_end =
    let some_byte : ltb start i ≡ true = ground (arith, at_end) in
    let size : i - start ≡ length (b ∷ p) = omega (arith, at_end) in
    rw some_byte (ap (λ w. result ++ w ∷ []) (ap₂ take size e ∙ take-append (b ∷ p) rest))

last_lem :
    (pending path : Bytes) (start : ℕ) (result : List Bytes)
    → drop start path ≡ pending
    → (if ltb start (length path) then result ++ drop start path ∷ [] else result)
      ≡ result ++ alone pending
last_lem [] path start result e =
    let over : ltb start (length path) ≡ false =
      ground (arith, ap length e, length-drop start path) in
    rw over (sym (append-nil result))
last_lem (b ∷ p) path start result e =
    let inside : ltb start (length path) ≡ true =
      ground (arith, ap length e, length-drop start path) in
    rw inside (ap (λ w. result ++ w ∷ []) e)

split_loop_lem :
    (pending rest path : Bytes) (start i : ℕ) (result : List Bytes)
    → Plain pending
    → drop start path ≡ pending ++ rest
    → i ≡ start + length pending
    → split_loop (length rest) path start i result ≡ result ++ segments (pending ++ rest)
unfolding split_loop
split_loop_lem pending [] path start i result plain e at_end =
    let e' : drop start path ≡ pending = e ∙ append-nil pending in
    last_lem pending path start result e'
    ∙ ap (λ ps. result ++ ps)
        (sym (segments-Plain pending plain) ∙ ap segments (sym (append-nil pending)))
split_loop_lem pending (b ∷ bs) path start i result plain e at_end =
    let unread = drop_pending pending (b ∷ bs) path start i result e at_end in
    let here : at path i ≡ b = get_or-drop i path 0 ∙ ap (λ r. get_or r 0 0) unread in
    elim (Bool-cases (b == slash)) [
      | inl bar ↦
          let at_bar : b ≡ slash = (==_iff b slash).0 bar in
          rw (here, bar, split_loop)
            (split_loop_lem [] bs path (suc i) (suc i) _ tt (drop-suc i path ∙ ap (drop 1) unread)
                (omega arith)
              ∙ ap (λ ps. ps ++ segments bs)
                  (grown_lem pending (b ∷ bs) path start i result e at_end
                    ∙ ap (λ ps. result ++ ps) (sym (segments-Plain pending plain)))
              ∙ append_assoc result (segments pending) (segments bs)
              ∙ ap (λ ps. result ++ ps)
                  (sym (segments-append pending bs)
                    ∙ ap (λ c. segments (pending ++ c ∷ bs)) (sym at_bar)))
      | inr name ↦
          rw (here, name, split_loop)
            (split_loop_lem (pending ++ b ∷ []) bs path start (suc i) result
                (Plain-snoc pending b plain name) (e ∙ sym (append_assoc pending (b ∷ []) bs))
                (omega (arith, at_end, length-append pending (b ∷ [])))
              ∙ ap (λ w. result ++ segments w) (append_assoc pending (b ∷ []) bs))
    ]

-- Whatever the path, the segments are its parts that are not empty, in their order.
pub split_path_to_compressed_segs-segments :
    (path : Bytes) → split_path_to_compressed_segs path ≡ segments path
unfolding split_path_to_compressed_segs
split_path_to_compressed_segs-segments [] = sym segments_nil
split_path_to_compressed_segs-segments (b ∷ []) = elim (Bool-cases (b == slash)) [
  | inl bar ↦ rw (bar, split_path_to_compressed_segs, segments_bar b [] bar) (sym segments_nil)
  | inr name ↦
      rw (name, split_path_to_compressed_segs)
        (split_loop_lem [] (b ∷ []) (b ∷ []) 0 0 [] tt refl refl)
]
split_path_to_compressed_segs-segments (b ∷ c ∷ cs) =
    let not_one : (suc (suc (length cs)) == 1) ≡ false = ground arith in
    elim (Bool-cases (b == slash)) [
      | inl bar ↦
          let size : suc (suc (length cs)) - 1 ≡ length (c ∷ cs) = omega arith in
          rw
            (
              suc-eq_zero (suc (length cs)),
              not_one,
              bar,
              size,
              split_path_to_compressed_segs,
              segments_bar b (c ∷ cs) bar,
            )
            (split_loop_lem [] (c ∷ cs) (b ∷ c ∷ cs) 1 1 [] tt refl refl)
      | inr name ↦
          let size : suc (suc (length cs)) - 0 ≡ length (b ∷ c ∷ cs) = omega arith in
          rw (suc-eq_zero (suc (length cs)), not_one, name, size, split_path_to_compressed_segs)
            (split_loop_lem [] (b ∷ c ∷ cs) (b ∷ c ∷ cs) 0 0 [] tt refl refl)
    ]
