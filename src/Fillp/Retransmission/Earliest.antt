-- ===== src/Fillp/Retransmission/Earliest.antt =====
-- Which entry PeekEarliest finds.
use go_kitbox.Prelude.{
  ℕ, ◌<◌, ◌≤◌, List, [], ◌∷◌, Option, none, some, ltb, ltb→lt, ltb→le, arith, Bool-cases, inl, inr,
}
use go_kitbox.Fillp.Retransmission.{Entry, RetransmissionQueue, earliest, peek_earliest}

-- The entry is in the map under the number.
pub data Has (s : ℕ) (e : Entry) : List (ℕ × Entry) → Type 0 where
  has_first : {m : List (ℕ × Entry)} → Has s e ((s, e) ∷ m)
  has_later : {p : ℕ × Entry} {m : List (ℕ × Entry)} → Has s e m → Has s e (p ∷ m)

abbrev pub AllFrom : ℕ → List (ℕ × Entry) → Type 0
AllFrom n m = (s : ℕ) (e : Entry) → Has s e m → n ≤ s

-- The entry that is kept from before, or the one with the least number below the one before.
pub data Found (n : ℕ) (before : Option Entry) (m : List (ℕ × Entry)) : Option Entry → Type 0 where
  kept : AllFrom n m → Found n before m before
  lower : {s : ℕ} {e : Entry} → Has s e m → s < n → AllFrom s m → Found n before m (some e)

AllFrom-cons :
    (n k : ℕ) (e : Entry) (m : List (ℕ × Entry)) → n ≤ k → AllFrom n m → AllFrom n ((k, e) ∷ m)
AllFrom-cons n k e m h all s e' has_first = h
AllFrom-cons n k e m h all s e' (has_later x) = all s e' x

Found-passed :
    (n k : ℕ) (e : Entry) (before : Option Entry) (m : List (ℕ × Entry)) {out : Option Entry}
    → n ≤ k
    → Found n before m out
    → Found n before ((k, e) ∷ m) out
Found-passed n k e before m h (kept all) = kept (AllFrom-cons n k e m h all)
Found-passed n k e before m h (lower has lt all) =
    lower (has_later has) lt (AllFrom-cons _ k e m (omega (arith, h, lt)) all)

Found-taken :
    (n k : ℕ) (e : Entry) (before : Option Entry) (m : List (ℕ × Entry)) {out : Option Entry}
    → k < n
    → Found k (some e) m out
    → Found n before ((k, e) ∷ m) out
Found-taken n k e before m h (kept all) = lower has_first h (AllFrom-cons k k e m (omega arith) all)
Found-taken n k e before m h (lower has lt all) =
    lower (has_later has) (omega (arith, h, lt)) (AllFrom-cons _ k e m (omega (arith, lt)) all)

earliest-Found :
    (n : ℕ) (before : Option Entry) (m : List (ℕ × Entry)) → Found n before m (earliest n before m)
unfolding earliest
earliest-Found n before [] = kept (λ s e h. elim h [ ])
earliest-Found n before ((k, e) ∷ m) = elim (Bool-cases (ltb k n)) [
  | inl y ↦
      rw (y, earliest) (Found-taken n k e before m (ltb→lt k n y) (earliest-Found k (some e) m))
  | inr z ↦
      rw (z, earliest) (Found-passed n k e before m (ltb→le k n z) (earliest-Found n before m))
]

-- PeekEarliest finds the entry with the least sequence number, whatever the order in which the map is
-- iterated. It finds none only if every number is 2^32 - 1 or above: so an entry with the number
-- 2^32 - 1 is never found.
pub peek_earliest-Found :
    (q : RetransmissionQueue) → Found 4294967295 none q.packets (peek_earliest q)
unfolding peek_earliest
peek_earliest-Found q = earliest-Found 4294967295 none q.packets
