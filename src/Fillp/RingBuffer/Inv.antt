-- ===== src/Fillp/RingBuffer/Inv.antt =====
-- The invariant of RingBuffer, and what its loops do to the bytes that it holds.
use go_kitbox.Prelude.{
  ℕ, zero, suc, ◌+◌, ◌-◌, ◌%◌, ◌≤◌, ◌<◌, ◌≡◌, refl, ap, ◌∙◌, sym, List, [], ◌∷◌, ◌++◌, append-nil,
  append_assoc, length, length-set, length-replicate, get_or, set, take, drop, arith,
}
use go_kitbox.Prelude.Run.{
  Returns, returns, Returns-map, Returns-bind, load_lem, store_lem, rem_lem,
}
use go_kitbox.Prelude.Window.{window, window-push_back, slot_lt}
use native.Mathlib.Nat.{mod-add-mod, mod-eq_of_lt}
use native.Mathlib.Numerals.{add-one}
use go_kitbox.Fillp.RingBuffer.{RingBuffer, new_ring_buffer, write_loop, read_loop, peek_loop}

pub record IsValid (rb : RingBuffer) : Type 0 where
  pub positive : 0 < rb.size
  pub stored : length rb.bytes ≡ rb.size
  pub head_in : rb.head < rb.size
  pub tail_at : rb.tail ≡ (rb.head + rb.count) % rb.size
  pub count_in : rb.count ≤ rb.size

abbrev pub contents : RingBuffer → List ℕ
contents rb = window 0 rb.size rb.bytes rb.head rb.count

-- What a loop keeps of the buffer that it started from.
pub record Keeps (rb : RingBuffer) (items : List ℕ) (rb' : RingBuffer) : Type 0 where
  pub valid : IsValid rb'
  pub same_size : rb'.size ≡ rb.size
  pub same_closed : rb'.is_closed ≡ rb.is_closed
  pub holds : contents rb' ≡ items

pub new_ring_buffer-IsValid : (size : ℕ) → 0 < size → IsValid (new_ring_buffer size)
unfolding new_ring_buffer
new_ring_buffer-IsValid size h = record {
  positive = h;
  stored = length-replicate size 0;
  head_in = h;
  tail_at = sym (mod-eq_of_lt h);
  count_in = omega arith;
}

-- One round of the loop of Write.
module _ (rb : RingBuffer) (b : ℕ) (v : IsValid rb) (r : rb.count < rb.size) where
  abbrev pub pushed : RingBuffer
  pushed = record rb {
    bytes = set rb.bytes rb.tail b;
    tail = (rb.tail + 1) % rb.size;
    count = rb.count + 1;
  }

  pub tail_in : rb.tail < length rb.bytes
  tail_in = omega (arith, v, slot_lt (rb.head + rb.count) rb.size v.positive)

  pub pushed-Keeps : Keeps rb (contents rb ++ b ∷ []) pushed
  pushed-Keeps = record {
    valid = record {
      positive = v.positive;
      stored = length-set rb.bytes rb.tail b ∙ v.stored;
      head_in = v.head_in;
      tail_at =
          rw v.tail_at
            (mod-add-mod (rb.head + rb.count) rb.size 1 ∙ ap (λ k. k % rb.size) (omega arith));
      count_in = omega arith;
    };
    same_size = refl;
    same_closed = refl;
    holds =
        ap (window 0 rb.size (set rb.bytes rb.tail b) rb.head) (add-one rb.count)
        ∙ ap (λ t. window 0 rb.size (set rb.bytes t b) rb.head (suc rb.count)) v.tail_at
        ∙ window-push_back 0 rb.size rb.bytes b rb.head rb.count v.head_in r (omega (arith, v));
  }

pub Keeps-trans :
    {rb rb' rb'' : RingBuffer} {xs ys zs : List ℕ}
    → Keeps rb xs rb'
    → ys ≡ zs
    → Keeps rb' ys rb''
    → Keeps rb zs rb''
Keeps-trans k e l = record {
  valid = l.valid;
  same_size = l.same_size ∙ k.same_size;
  same_closed = l.same_closed ∙ k.same_closed;
  holds = l.holds ∙ e;
}

pub Keeps-self : (rb : RingBuffer) {xs : List ℕ} → IsValid rb → contents rb ≡ xs → Keeps rb xs rb
Keeps-self rb v e = record { valid = v; same_size = refl; same_closed = refl; holds = e }

pub write_loop_lem :
    (d : List ℕ) (rb : RingBuffer)
    → IsValid rb
    → rb.count + length d ≤ rb.size
    → Returns (Keeps rb (contents rb ++ d)) (write_loop d rb)
unfolding write_loop
write_loop_lem [] rb v h = returns (Keeps-self rb v (sym (append-nil (contents rb))))
write_loop_lem (b ∷ d) rb v h =
    let room : rb.count < rb.size = omega arith in
    let first = pushed-Keeps rb b v room in
    rw
      (store_lem rb.bytes rb.tail b (tail_in rb b v room), rem_lem (rb.tail + 1) rb.size v.positive)
      (Returns-map
        (λ rb' k.
          Keeps-trans first (ap (λ xs. xs ++ d) first.holds ∙ append_assoc (contents rb) (b ∷ []) d)
            k)
        (write_loop_lem d (pushed rb b v room) first.valid (omega arith)))

-- One round of the loop of Read.
module _ (rb : RingBuffer) (n : ℕ) (v : IsValid rb) (r : rb.count ≡ suc n) where
  abbrev pub popped : RingBuffer
  popped = record rb { head = (rb.head + 1) % rb.size; count = rb.count - 1 }

  pub popped-Keeps : Keeps rb (drop 1 (contents rb)) popped
  popped-Keeps = record {
    valid = record {
      positive = v.positive;
      stored = v.stored;
      head_in = slot_lt (rb.head + 1) rb.size v.positive;
      tail_at =
          v.tail_at
          ∙ ap (λ k. k % rb.size) turn
          ∙ sym (mod-add-mod (rb.head + 1) rb.size (rb.count - 1));
      count_in = omega (arith, v);
    };
    same_size = refl;
    same_closed = refl;
    holds =
        ap (window 0 rb.size rb.bytes ((rb.head + 1) % rb.size)) less
        ∙ sym (ap (λ c. drop 1 (window 0 rb.size rb.bytes rb.head c)) r);
  }
    where
      turn : rb.head + rb.count ≡ rb.head + 1 + (rb.count - 1)
      turn = omega arith

      less : rb.count - 1 ≡ n
      less = omega arith

  pub contents-popped : contents rb ≡ get_or rb.bytes rb.head 0 ∷ contents popped
  contents-popped =
      ap (window 0 rb.size rb.bytes rb.head) r
      ∙ ap (λ c. get_or rb.bytes rb.head 0 ∷ window 0 rb.size rb.bytes ((rb.head + 1) % rb.size) c)
          less
    where
      less : n ≡ rb.count - 1
      less = omega arith

-- What the loop of Read gives: the first `n` bytes, and a buffer of the others.
abbrev pub HasRead : RingBuffer → ℕ → List ℕ × RingBuffer → Type 0
HasRead rb n (bs, rb') = (bs ≡ take n (contents rb)) × Keeps rb (drop n (contents rb)) rb'

pub read_loop_lem :
    (n : ℕ) (rb : RingBuffer) → IsValid rb → n ≤ rb.count → Returns (HasRead rb n) (read_loop n rb)
unfolding read_loop
read_loop_lem zero rb v h = returns (refl, Keeps-self rb v refl)
read_loop_lem (suc n) rb v h =
    let more : rb.count ≡ suc (rb.count - 1) = omega arith in
    let first = popped-Keeps rb (rb.count - 1) v more in
    let split = contents-popped rb (rb.count - 1) v more in
    rw (load_lem 0 rb.bytes rb.head (omega (arith, v)), rem_lem (rb.head + 1) rb.size v.positive)
      (Returns-bind (read_loop_lem n (popped rb (rb.count - 1) v more) first.valid (omega arith))
        λ (bs, rb') (got, k). returns (
          ap (◌∷◌ (get_or rb.bytes rb.head 0)) got ∙ sym (ap (take (suc n)) split),
          Keeps-trans first (sym (ap (drop (suc n)) split)) k,
        ))

pub peek_loop_lem :
    (n : ℕ) (rb : RingBuffer) (h : ℕ) (c : ℕ)
    → 0 < rb.size
    → length rb.bytes ≡ rb.size
    → h < rb.size
    → n ≤ c
    → Returns (λ bs. bs ≡ take n (window 0 rb.size rb.bytes h c)) (peek_loop n rb h)
unfolding peek_loop
peek_loop_lem zero rb h c p s q r = returns refl
peek_loop_lem (suc n) rb h zero p s q r = absurd (omega arith)
peek_loop_lem (suc n) rb h (suc c) p s q r =
    rw (load_lem 0 rb.bytes h (omega arith), rem_lem (h + 1) rb.size p)
      (Returns-bind
        (peek_loop_lem n rb ((h + 1) % rb.size) c p s (slot_lt (h + 1) rb.size p) (omega arith))
        λ bs got. returns (ap (◌∷◌ (get_or rb.bytes h 0)) got))
