-- ===== src/Zallocrout/Paths/Normal.antt =====
-- The loop of normalizePathBytes over the bytes that are still to be read, and its result.
use go_kitbox.Prelude.{
  ℕ, zero, suc, ◌+◌, ◌-◌, ◌≤◌, ◌<◌, ◌≡◌, ◌≢◌, refl, sym, ap, ◌∙◌, true, false, List, [], ◌∷◌, ◌++◌,
  length, get_or, take, drop, ltb, leb, ◌==◌, ==_iff, if◌then◌else◌, Bool-cases, inl, inr,
  length-append, take-append, drop-append, get_or-drop, drop-suc, length-drop, ap₂, append-nil,
  append_assoc, arith,
}
use go_kitbox.Prelude.Keys.{list_eq, nat_eq}
use go_kitbox.Prelude.Run.{ok, ◌>>=◌, Returns, returns, Returns-bind, Returns-bind_eq}
use go_kitbox.Zallocrout.Paths.{
  Bytes, slash, at, Scan, seg_end, normalize_loop, slice_to, normalize_path_bytes,
}
use go_kitbox.Zallocrout.Paths.Segments.{
  first, after, segments, resolve, spell, spell_root, canonical, first-append-after, segments_nil,
  segments_bar, segments_name,
}
use go_kitbox.Zallocrout.Paths.Writes.{Written, behind, touching, Fits, Next, taken_Next}

seg_end_lem :
    (r path : Bytes) (i : ℕ) → drop i path ≡ r → seg_end (length r) path i ≡ i + length (first r)
unfolding seg_end
seg_end_lem [] path i e = omega arith
seg_end_lem (b ∷ bs) path i e =
    let here : at path i ≡ b = get_or-drop i path 0 ∙ ap (λ r. get_or r 0 0) e in
    rw here (elim (Bool-cases (b == slash)) [
      | inl bar ↦ rw bar (omega arith)
      | inr name ↦
          let rest = seg_end_lem bs path (suc i) (drop-suc i path ∙ ap (drop 1) e) in
          rw name (rest ∙ omega arith)
    ])

-- The loop ends with the names of all segments written.
abbrev Ended : List Bytes → Scan → Type 0
Ended names s = Next names [] s

after_bar : (bs : Bytes) → at (after bs ++ slash ∷ []) 0 ≡ slash
after_bar [] = refl
after_bar (b ∷ bs) = elim (Bool-cases (b == slash)) [
  | inl bar ↦ rw bar ((==_iff b slash).0 bar)
  | inr name ↦ rw name (after_bar bs)
]

length-after : (bs : Bytes) → length (after bs) ≤ length bs
length-after [] = omega arith
length-after (b ∷ bs) = ground (arith, length-after bs)

read_bar :
    (names : List Bytes) (front : Bytes) (b : ℕ) (bs : Bytes) (s : Scan)
    → Fits names front (b ∷ bs) s
    → b ≡ slash
    → Fits names (front ++ b ∷ []) bs (record s { i = suc s.i })
read_bar names front b bs s fits bar = record {
  whole = fits.whole ∙ sym (append_assoc front (b ∷ []) bs);
  places = fits.places;
  next_place = fits.next_place;
  index = omega (arith, fits.index, length-append front (b ∷ []));
  written = elim fits.written [
    | behind gap e ↦
        behind (gap ++ b ∷ [])
          (ap (λ w. w ++ b ∷ []) e ∙ append_assoc (spell names) (slash ∷ gap) (b ∷ []))
    | touching e _ _ ↦ behind [] (ap₂ (λ w c. w ++ c ∷ []) e bar)
  ];
}

-- At a byte that is no bar, the bytes written end in a bar and a gap.
gap_of :
    (names : List Bytes) (front : Bytes) (b : ℕ) (bs : Bytes)
    → Written names front (b ∷ bs)
    → b ≢ slash
    → (gap : Bytes) × (front ≡ spell names ++ slash ∷ gap)
gap_of names front b bs (behind gap e) name = (gap, e)
gap_of names front b bs (touching _ bar _) name = absurd (name bar)

module _ (names : List Bytes) (front : Bytes) (b : ℕ) (bs : Bytes) (s : Scan)
    (fits : Fits names front (b ∷ bs) s) where
  still_inside : ltb s.i (length s.path) ≡ true
  still_inside = ground (arith, fits.index, ap length fits.whole, length-append front (b ∷ bs))

  unread : drop s.i s.path ≡ b ∷ bs
  unread = ap₂ drop fits.index fits.whole ∙ drop-append front (b ∷ bs)

  byte_here : at s.path s.i ≡ b
  byte_here = get_or-drop s.i s.path 0 ∙ ap (λ r. get_or r 0 0) unread

  stop_lem : seg_end (length s.path - s.i) s.path s.i ≡ s.i + length (first (b ∷ bs))
  stop_lem =
      let left : length s.path - s.i ≡ length (b ∷ bs) =
        sym (length-drop s.i s.path) ∙ ap length unread in
      ap (λ k. seg_end k s.path s.i) left ∙ seg_end_lem (b ∷ bs) s.path s.i unread

  seg_lem : take (s.i + length (first (b ∷ bs)) - s.i) (drop s.i s.path) ≡ first (b ∷ bs)
  seg_lem =
      let size : s.i + length (first (b ∷ bs)) - s.i ≡ length (first (b ∷ bs)) = omega arith in
      ap₂ take size (unread ∙ sym (first-append-after (b ∷ bs)))
      ∙ take-append (first (b ∷ bs)) (after (b ∷ bs))

  read_whole :
      (gap : Bytes)
      → front ≡ spell names ++ slash ∷ gap
      → s.path ≡ (spell names ++ slash ∷ gap) ++ (first (b ∷ bs) ++ after (b ∷ bs))
  read_whole gap e = fits.whole ∙ ap₂ ◌++◌ e (sym (first-append-after (b ∷ bs)))

  read_index :
      (gap : Bytes)
      → front ≡ spell names ++ slash ∷ gap
      → s.i + length (first (b ∷ bs))
        ≡ length (spell names ++ slash ∷ gap) + length (first (b ∷ bs))
  read_index gap e = ap (λ k. k + length (first (b ∷ bs))) (fits.index ∙ ap length e)

normalize_loop-Ended :
    (n : ℕ) (names : List Bytes) (front rest : Bytes) (s : Scan)
    → Fits names front rest s
    → length rest < n
    → Returns (Ended (resolve names (segments rest))) (normalize_loop n s)
unfolding normalize_loop resolve
normalize_loop-Ended zero names front rest s fits h = absurd (omega arith)
normalize_loop-Ended (suc n) names front [] s fits h =
    let ended : ltb s.i (length s.path) ≡ false =
      ground (arith, fits.index, ap length fits.whole, length-append front []) in
    rw (ended, segments_nil, normalize_loop) (returns (front, fits))
normalize_loop-Ended (suc n) names front (b ∷ bs) s fits h = elim (Bool-cases (b == slash)) [
  | inl bar ↦
      rw
        (
          still_inside names front b bs s fits,
          byte_here names front b bs s fits,
          bar,
          segments_bar b bs bar,
          normalize_loop,
        )
        (normalize_loop-Ended n names (front ++ b ∷ []) bs (record s { i = suc s.i })
          (read_bar names front b bs s fits ((==_iff b slash).0 bar)) (omega arith))
  | inr name ↦
      let not_bar : b ≢ slash = λ e. cc (name, (==_iff b slash).1 e) in
      let (gap, e) = gap_of names front b bs fits.written not_bar in
      rw
        (
          still_inside names front b bs s fits,
          byte_here names front b bs s fits,
          name,
          stop_lem names front b bs s fits,
          seg_lem names front b bs s fits,
          segments_name b bs name,
          normalize_loop,
        )
        (Returns-bind
          (taken_Next names gap (first (b ∷ bs)) (after (b ∷ bs))
            (record s { i = s.i + length (first (b ∷ bs)) })
            (read_whole names front b bs s fits gap e) fits.places fits.next_place
            (read_index names front b bs s fits gap e) (after_bar (b ∷ bs)))
          (λ s' next.
            normalize_loop-Ended n _ next.0 (after (b ∷ bs)) s' next.1
              (ground (arith, name, length-after bs))))
]

slice_to-append : (w g : Bytes) → slice_to (w ++ g) (length w) ≡ ok w
slice_to-append w g =
    let fits : leb (length w) (length (w ++ g)) ≡ true = ground (arith, length-append w g) in
    rw (fits, take-append w g) refl

begins :
    (names : List Bytes) (front : Bytes)
    → Written names front []
    → (g : Bytes) × (front ≡ spell names ++ g)
begins names front (behind gap e) = (slash ∷ gap, e)
begins names front (touching e _ _) = ([], e ∙ sym (append-nil (spell names)))

root_first : (front : Bytes) → Written [] front [] → (g : Bytes) × (front ≡ slash ∷ g)
root_first front (behind gap e) = (gap, e)
root_first front (touching _ _ some_name) = absurd (some_name refl)

-- At the end the path is cut before the last bar.
cut-Ended :
    (names : List Bytes) (s : Scan)
    → Ended names s
    → slice_to s.path (if ltb 1 s.write_pos then s.write_pos - 1 else s.write_pos)
      ≡ ok (spell_root names)
cut-Ended [] s (front, fits) =
    let (g, e) = root_first front fits.written in
    let whole : s.path ≡ slash ∷ (g ++ []) = fits.whole ∙ ap (λ w. w ++ []) e in
    rw (fits.next_place, whole) (slice_to-append (slash ∷ []) (g ++ []))
cut-Ended (name ∷ names) s (front, fits) =
    let (g, e) = begins (name ∷ names) front fits.written in
    let whole : s.path ≡ spell (name ∷ names) ++ g = fits.whole ∙ append-nil front ∙ e in
    let long : (if ltb 1 s.write_pos then s.write_pos - 1 else s.write_pos)
        ≡ length (spell (name ∷ names)) =
      ground (arith, fits.next_place, length-append (spell names) (slash ∷ name)) in
    ap₂ slice_to whole long ∙ slice_to-append (spell (name ∷ names)) g

from_bar :
    (path rest : Bytes)
    → path ≡ slash ∷ rest
    → (normalize_loop (suc (length path)) (record { path = path; stack = []; write_pos = 1; i = 1 })
        >>= λ s. slice_to s.path (if ltb 1 s.write_pos then s.write_pos - 1 else s.write_pos))
      ≡ ok (spell_root (resolve [] (segments rest)))
from_bar path rest e =
    let start : Fits [] (slash ∷ []) rest
        (record { path = path; stack = []; write_pos = 1; i = 1 }) =
      record {
        whole = e;
        places = refl;
        next_place = refl;
        index = refl;
        written = behind [] refl;
      } in
    Returns-bind_eq
      (normalize_loop-Ended (suc (length path)) [] (slash ∷ []) rest _ start
        (omega (arith, ap length e)))
      (λ s ended. cut-Ended _ s ended)

-- normalizePathBytes does not panic, and ends: an empty path stays as it is, and any other becomes the
-- path that the names left by `.` and `..` spell, with a bar in front if it has none.
pub normalize_path_bytes-canonical :
    (path : Bytes)
    → normalize_path_bytes path ≡ ok (elim path [ [] ↦ [] | b ∷ bs ↦ canonical (b ∷ bs) ])
unfolding normalize_path_bytes
normalize_path_bytes-canonical [] = refl
normalize_path_bytes-canonical (b ∷ bs) = elim (Bool-cases (b == slash)) [
  | inl bar ↦
      rw (bar, segments_bar b bs bar, normalize_path_bytes)
        (from_bar (b ∷ bs) bs (ap (λ c. c ∷ bs) ((==_iff b slash).0 bar)))
  | inr name ↦ rw (name, normalize_path_bytes) (from_bar (slash ∷ b ∷ bs) (b ∷ bs) refl)
]
