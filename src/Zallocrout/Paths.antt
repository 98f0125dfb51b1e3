-- ===== src/Zallocrout/Paths.antt =====
-- The paths of pkg/zallocrout/preprocess.go: needsNormalization, normalizePathBytes,
-- splitPathToCompressedSegs and the kinds of segments. A string or a slice of bytes is the list of
-- its bytes; the loops keep their indices. Buffers that are only there to save allocations are left
-- out. `path[:n]` is allowed up to the length here, where Go allows it up to the capacity.
pub mod Segments
pub mod Writes
pub mod Normal
pub mod Split
pub mod Clean
pub mod Names
use go_kitbox.Prelude.{
  ℕ, zero, suc, ◌+◌, ◌-◌, Bool, true, false, not, ◌&&◌, ◌||◌, List, [], ◌∷◌, ◌++◌, length, get_or,
  take, drop, set, ltb, leb, ◌==◌, if◌then◌else◌,
}
use go_kitbox.Prelude.Run.{Run, ok, err, panic, ◌>>=◌}

abbrev pub Bytes : Type 0
Bytes = List ℕ

abbrev pub slash : ℕ
slash = b'/'

abbrev pub dot : ℕ
dot = b'.'

abbrev pub colon : ℕ
colon = b':'

abbrev pub star : ℕ
star = b'*'

abbrev pub at : Bytes → ℕ → ℕ
at path i = get_or path i 0

-- The loop of needsNormalization, with `n` rounds left.
unfoldable pub needs_loop : ℕ → Bytes → ℕ → Bool
needs_loop zero path i = false
needs_loop (suc n) path i =
    (at path i == slash && at path (i - 1) == slash)
    || (at path i == dot && at path (i - 1) == slash)
    || needs_loop n path (suc i)

unfoldable pub needs_normalization : Bytes → Bool
unfolding needs_loop
needs_normalization path =
    length path == 0
    || not (at path 0 == slash)
    || (ltb 1 (length path) && at path (length path - 1) == slash)
    || needs_loop (length path - 1) path 1

-- The variables of the loop of normalizePathBytes. The stack has its top first.
pub record Scan : Type 0 where
  pub path : Bytes
  pub stack : List ℕ
  pub write_pos : ℕ
  pub i : ℕ

pub data Stop : Type 0 where
  no_fuel : Stop

-- The end of the segment that starts at `i`, with `n` bytes left.
unfoldable pub seg_end : ℕ → Bytes → ℕ → ℕ
seg_end zero path i = i
seg_end (suc n) path i = if at path i == slash then i else seg_end n path (suc i)

-- `copy(path[pos:], src)`
abbrev pub copy_to : Bytes → ℕ → Bytes → Bytes
copy_to path pos src =
    take pos path ++ (take (length path - pos) src ++ drop (pos + length src) path)

-- A segment is copied to the place for writing and closed by a '/'.
unfoldable pub push_segment : Bytes → Scan → Run Stop Scan
push_segment seg s =
    if leb s.write_pos (length s.path)
    then ok (record s {
      stack = s.write_pos ∷ s.stack;
      path = set (copy_to s.path s.write_pos seg) (s.write_pos + length seg) slash;
      write_pos = suc (s.write_pos + length seg);
    })
    else panic

unfoldable pub pop_segment : Scan → Scan
pop_segment s = elim s.stack [ [] ↦ s | pos ∷ rest ↦ record s { write_pos = pos; stack = rest } ]

-- What a segment does: `.` nothing, `..` drops the last one, any other is written.
unfoldable pub take_segment : Bytes → Scan → Run Stop Scan
unfolding push_segment pop_segment
take_segment seg s =
    if length seg == 1 && at seg 0 == dot
    then ok s
    else (if length seg == 2 && (at seg 0 == dot && at seg 1 == dot)
        then ok (pop_segment s)
        else push_segment seg s)

unfoldable pub normalize_loop : ℕ → Scan → Run Stop Scan
unfolding seg_end
normalize_loop zero s = err no_fuel
normalize_loop (suc n) s =
    let skipped = normalize_loop n (record s { i = suc s.i }) in
    let stop = seg_end (length s.path - s.i) s.path s.i in
    let seg = take (stop - s.i) (drop s.i s.path) in
    let rest = take_segment seg (record s { i = stop }) >>= λ s'. normalize_loop n s' in
    if ltb s.i (length s.path) then (if at s.path s.i == slash then skipped else rest) else ok s

-- `path[:n]`
abbrev pub slice_to : Bytes → ℕ → Run Stop Bytes
slice_to path n = if leb n (length path) then ok (take n path) else panic

unfoldable pub normalize_path_bytes : Bytes → Run Stop Bytes
normalize_path_bytes [] = ok []
normalize_path_bytes (b ∷ rest) =
    let path = if b == slash then b ∷ rest else slash ∷ b ∷ rest in
    normalize_loop (suc (length path)) (record { path = path; stack = []; write_pos = 1; i = 1 })
    >>= λ s. slice_to s.path (if ltb 1 s.write_pos then s.write_pos - 1 else s.write_pos)

-- The loop of splitPathToCompressedSegs, with `n` bytes left.
unfoldable pub split_loop : ℕ → Bytes → ℕ → ℕ → List Bytes → List Bytes
split_loop zero path start i result =
    if ltb start (length path) then result ++ drop start path ∷ [] else result
split_loop (suc n) path start i result =
    let ends = at path i == slash in
    let grown =
      if ends && ltb start i then result ++ take (i - start) (drop start path) ∷ [] else result in
    split_loop n path (if ends then suc i else start) (suc i) grown

unfoldable pub split_path_to_compressed_segs : Bytes → List Bytes
unfolding split_loop
split_path_to_compressed_segs path =
    let start = if at path 0 == slash then 1 else 0 in
    if length path == 0 || (length path == 1 && at path 0 == slash)
    then []
    else split_loop (length path - start) path start start []

unfoldable pub is_param_seg : Bytes → Bool
is_param_seg seg = ltb 1 (length seg) && at seg 0 == colon

unfoldable pub is_wildcard_seg : Bytes → Bool
is_wildcard_seg seg = ltb 1 (length seg) && at seg 0 == star

unfoldable pub is_static_seg : Bytes → Bool
is_static_seg seg = ltb 0 (length seg) && (not (at seg 0 == colon) && not (at seg 0 == star))
