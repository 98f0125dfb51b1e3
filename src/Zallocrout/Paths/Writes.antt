-- ===== src/Zallocrout/Paths/Writes.antt =====
-- The effect of one segment on the bytes that normalizePathBytes writes in place, and on its stack of
-- positions.
use go_kitbox.Prelude.{
  ℕ, suc, ◌+◌, ◌-◌, ◌≤◌, ◌≡◌, ◌≢◌, refl, sym, ap, ◌∙◌, true, List, [], ◌∷◌, ◌++◌, length, set, drop,
  leb, ◌==◌, Bool-cases, inl, inr, length-append, take-append, drop-append, set-append, length-drop,
  drop-drop, drop-append_le, take_more, ap₂, append_assoc, ◌&&◌, arith,
}
use go_kitbox.Prelude.Keys.{list_eq, list_beq, nat_eq}
use go_kitbox.Prelude.Run.{Returns, returns}
use go_kitbox.Zallocrout.Paths.{
  Bytes, slash, dot, at, Scan, copy_to, push_segment, pop_segment, take_segment,
}
use go_kitbox.Zallocrout.Paths.Segments.{resolve_one, spell}

-- The positions where the names start in the path that they spell.
abbrev pub positions : List Bytes → List ℕ
positions [] = []
positions (name ∷ names) = suc (length (spell names)) ∷ positions names

-- The bytes before the index: what is written, and bytes that no one reads again.
pub data Written (names : List Bytes) (front rest : Bytes) : Type 0 where
  behind : (gap : Bytes) → front ≡ spell names ++ slash ∷ gap → Written names front rest
  touching :
      front ≡ spell names
      → at (rest ++ slash ∷ []) 0 ≡ slash
      → names ≢ []
      → Written names front rest

pub record Fits (names : List Bytes) (front rest : Bytes) (s : Scan) : Type 0 where
  pub whole : s.path ≡ front ++ rest
  pub places : s.stack ≡ positions names
  pub next_place : s.write_pos ≡ suc (length (spell names))
  pub index : s.i ≡ length front
  pub written : Written names front rest

set_bar : (rest : Bytes) → at (rest ++ slash ∷ []) 0 ≡ slash → set rest 0 slash ≡ rest
set_bar [] h = refl
set_bar (b ∷ bs) h = ap (λ c. c ∷ bs) (sym h)

-- A copy onto bytes that are there, between the written ones and the unread ones.
copy_to_lem :
    (w x rest seg : Bytes)
    → length seg ≤ length x
    → copy_to (w ++ (x ++ rest)) (length w) seg ≡ (w ++ seg) ++ (drop (length seg) x ++ rest)
copy_to_lem w x rest seg h =
    let fits : length seg ≤ length (w ++ (x ++ rest)) - length w =
      omega (arith, length-append w (x ++ rest), length-append x rest) in
    let tail : drop (length w + length seg) (w ++ (x ++ rest)) ≡ drop (length seg) x ++ rest =
      drop-drop (length w) (length seg) (w ++ (x ++ rest))
      ∙ ap (drop (length seg)) (drop-append w (x ++ rest))
      ∙ drop-append_le (length seg) x rest h in
    rw (take-append w (x ++ rest), take_more _ seg fits, tail) (sym (append_assoc w seg _))

abbrev pub Next : List Bytes → Bytes → Scan → Type 0
Next names rest s = (front : Bytes) × Fits names front rest s

-- A segment was read after the written bytes and the gap; `rest` is still unread.
module _ (names : List Bytes) (gap seg rest : Bytes) (s : Scan)
    (whole : s.path ≡ (spell names ++ slash ∷ gap) ++ (seg ++ rest))
    (places : s.stack ≡ positions names) (next_place : s.write_pos ≡ suc (length (spell names)))
    (index : s.i ≡ length (spell names ++ slash ∷ gap) + length seg)
    (bar : at (rest ++ slash ∷ []) 0 ≡ slash) where
  skipped_Next : Next names rest s
  skipped_Next = (
    (spell names ++ slash ∷ gap) ++ seg,
    record {
      whole = whole ∙ sym (append_assoc (spell names ++ slash ∷ gap) seg rest);
      places = places;
      next_place = next_place;
      index = index ∙ sym (length-append (spell names ++ slash ∷ gap) seg);
      written = behind (gap ++ seg) (append_assoc (spell names) (slash ∷ gap) seg);
    },
  )

  abbrev marked : Bytes
  marked = spell names ++ slash ∷ []

  -- What lies behind the copy.
  abbrev left : Bytes
  left = drop (length seg) (gap ++ seg)

  length-left : length left ≡ length gap
  length-left = omega (arith, length-drop (length seg) (gap ++ seg), length-append gap seg)

  regrouped : s.path ≡ marked ++ ((gap ++ seg) ++ rest)
  regrouped = whole ∙ simp append_assoc

  copied : copy_to s.path s.write_pos seg ≡ (marked ++ seg) ++ (left ++ rest)
  copied =
      ap₂ (λ path pos. copy_to path pos seg) regrouped
        (next_place ∙ omega (arith, length-append (spell names) (slash ∷ [])))
      ∙ copy_to_lem marked (gap ++ seg) rest seg (omega (arith, length-append gap seg))

  fitting : leb s.write_pos (length s.path) ≡ true
  fitting = ground (
    arith,
    next_place,
    ap length regrouped,
    length-append marked ((gap ++ seg) ++ rest),
    length-append (spell names) (slash ∷ []),
  )

  -- The bar behind the copy falls into the gap, or on a bar that is there, or past the end.
  barred :
      (gap' : Bytes)
      → length gap' ≡ length gap
      → Next (seg ∷ names) rest (record s {
        stack = s.write_pos ∷ s.stack;
        path = set ((marked ++ seg) ++ (gap' ++ rest)) (length (marked ++ seg)) slash;
        write_pos = suc (length (marked ++ seg));
      })
  barred [] e = (
    marked ++ seg,
    record {
      whole = set-append (marked ++ seg) rest slash ∙ ap (◌++◌ (marked ++ seg)) (set_bar rest bar);
      places = ap₂ (λ a b. a ∷ b) next_place places;
      next_place = ap (λ w. suc (length w)) (append_assoc (spell names) (slash ∷ []) seg);
      index = omega (
        arith,
        index,
        e,
        length-append marked seg,
        length-append (spell names) (slash ∷ gap),
        length-append (spell names) (slash ∷ []),
      );
      written = touching (append_assoc (spell names) (slash ∷ []) seg) bar (λ h. cc);
    },
  )
  barred (c ∷ gap') e = (
    (marked ++ seg) ++ slash ∷ gap',
    record {
      whole =
          set-append (marked ++ seg) (c ∷ gap' ++ rest) slash
          ∙ sym (append_assoc (marked ++ seg) (slash ∷ gap') rest);
      places = ap₂ (λ a b. a ∷ b) next_place places;
      next_place = ap (λ w. suc (length w)) (append_assoc (spell names) (slash ∷ []) seg);
      index = omega (
        arith,
        index,
        e,
        length-append marked seg,
        length-append (marked ++ seg) (slash ∷ gap'),
        length-append (spell names) (slash ∷ gap),
        length-append (spell names) (slash ∷ []),
      );
      written =
          behind gap' (ap (λ w. w ++ slash ∷ gap') (append_assoc (spell names) (slash ∷ []) seg));
    },
  )

  pushed_Next : Returns (Next (seg ∷ names) rest) (push_segment seg s)
  unfolding push_segment
  pushed_Next =
      let sum : s.write_pos + length seg ≡ length (marked ++ seg) =
        omega
          (arith, next_place, length-append marked seg, length-append (spell names) (slash ∷ [])) in
      rw (fitting, copied, sum, push_segment) (returns (barred left length-left))

popped_Next :
    (names : List Bytes) (gap seg rest : Bytes) (s : Scan)
    → s.path ≡ (spell names ++ slash ∷ gap) ++ (seg ++ rest)
    → s.stack ≡ positions names
    → s.write_pos ≡ suc (length (spell names))
    → s.i ≡ length (spell names ++ slash ∷ gap) + length seg
    → at (rest ++ slash ∷ []) 0 ≡ slash
    → Next (elim names [ [] ↦ [] | _ ∷ up ↦ up ]) rest (pop_segment s)
unfolding pop_segment
popped_Next [] gap seg rest s whole places next_place index bar =
    rw (places, pop_segment) (skipped_Next [] gap seg rest s whole places next_place index bar)
popped_Next (name ∷ up) gap seg rest s whole places next_place index bar =
    let popped : Scan = record s { write_pos = suc (length (spell up)); stack = positions up } in
    let joined : (spell up ++ slash ∷ name) ++ slash ∷ gap
        ≡ spell up ++ slash ∷ (name ++ slash ∷ gap) =
      append_assoc (spell up) (slash ∷ name) (slash ∷ gap) in
    rw (places, pop_segment)
      (skipped_Next up (name ++ slash ∷ gap) seg rest popped
        (whole ∙ ap (λ w. w ++ (seg ++ rest)) joined) refl refl
        (index ∙ ap (λ w. length w + length seg) joined) bar)

-- The tests on the bytes of a segment are comparisons with `.` and `..`.
one_dot : (seg : Bytes) → (length seg == 1 && at seg 0 == dot) ≡ list_beq seg (dot ∷ [])
unfolding list_beq
one_dot [] = refl
one_dot (a ∷ []) = ground arith
one_dot (a ∷ b ∷ seg) = ground arith

two_dots :
    (seg : Bytes)
    → (length seg == 2 && (at seg 0 == dot && at seg 1 == dot)) ≡ list_beq seg (dot ∷ dot ∷ [])
unfolding list_beq
two_dots [] = refl
two_dots (a ∷ []) = ground arith
two_dots (a ∷ b ∷ []) = ground arith
two_dots (a ∷ b ∷ c ∷ seg) = ground arith

module _ (names : List Bytes) (gap seg rest : Bytes) (s : Scan)
    (whole : s.path ≡ (spell names ++ slash ∷ gap) ++ (seg ++ rest))
    (places : s.stack ≡ positions names) (next_place : s.write_pos ≡ suc (length (spell names)))
    (index : s.i ≡ length (spell names ++ slash ∷ gap) + length seg)
    (bar : at (rest ++ slash ∷ []) 0 ≡ slash) where
  pub taken_Next : Returns (Next (resolve_one seg names) rest) (take_segment seg s)
  unfolding take_segment resolve_one
  taken_Next = elim (Bool-cases (list_beq seg (dot ∷ []))) [
    | inl one ↦
        rw (one_dot seg, one, take_segment, resolve_one)
          (returns (skipped_Next names gap seg rest s whole places next_place index bar))
    | inr more ↦ elim (Bool-cases (list_beq seg (dot ∷ dot ∷ []))) [
      | inl two ↦
          rw (one_dot seg, more, two_dots seg, two, take_segment, resolve_one)
            (returns (popped_Next names gap seg rest s whole places next_place index bar))
      | inr name ↦
          rw (one_dot seg, more, two_dots seg, name, take_segment, resolve_one)
            (pushed_Next names gap seg rest s whole places next_place index bar)
    ]
  ]
