-- ===== src/Fillp/RingBuffer/PutBack.antt =====
-- What the loop of Unread does to the bytes of a RingBuffer.
use go_kitbox.Prelude.{
  ℕ, zero, suc, ◌+◌, ◌-◌, ◌%◌, ◌≤◌, ◌<◌, ◌≡◌, refl, ap, ◌∙◌, sym, List, ◌∷◌, ◌++◌, length,
  length-set, get_or, set, take, take-suc, arith,
}
use go_kitbox.Prelude.Run.{Returns, returns, Returns-map, load_lem, store_lem, rem_lem}
use go_kitbox.Prelude.Window.{window, window-push_front, slot_lt}
use native.Mathlib.Nat.{mod-add-mod, mod-eq-sub-mod}
use native.Mathlib.Numerals.{add-one}
use go_kitbox.Fillp.RingBuffer.{RingBuffer, unread_loop}
use go_kitbox.Fillp.RingBuffer.Inv.{IsValid, contents, Keeps, Keeps-trans, Keeps-self}

-- One round of the loop of Unread.
module _ (rb : RingBuffer) (b g : ℕ) (v : IsValid rb) (r : rb.count < rb.size)
    (e : g ≡ (rb.head + (rb.size - 1)) % rb.size) where
  abbrev pub put_back : RingBuffer
  put_back = record rb { bytes = set rb.bytes g b; head = g; count = rb.count + 1 }

  pub put_back_in : g < rb.size
  put_back_in = rw e (slot_lt (rb.head + (rb.size - 1)) rb.size v.positive)

  pub put_back-Keeps : Keeps rb (b ∷ contents rb) put_back
  put_back-Keeps = record {
    valid = record {
      positive = v.positive;
      stored = length-set rb.bytes g b ∙ v.stored;
      head_in = put_back_in;
      tail_at = v.tail_at ∙ sym turn;
      count_in = omega arith;
    };
    same_size = refl;
    same_closed = refl;
    holds =
        ap (window 0 rb.size (set rb.bytes g b) g) (add-one rb.count)
        ∙ window-push_front 0 rb.size rb.bytes b rb.head rb.count g v.head_in r (omega (arith, v))
            e;
  }
    where
      turn : (g + (rb.count + 1)) % rb.size ≡ (rb.head + rb.count) % rb.size
      turn =
          ap (λ k. (k + (rb.count + 1)) % rb.size) e
          ∙ mod-add-mod (rb.head + (rb.size - 1)) rb.size (rb.count + 1)
          ∙ ap (λ k. k % rb.size) around
          ∙ mod-eq-sub-mod {n = rb.head + rb.count + rb.size} {m = rb.size} (omega arith)
          ∙ ap (λ k. k % rb.size) back
        where
          around : rb.head + (rb.size - 1) + (rb.count + 1) ≡ rb.head + rb.count + rb.size
          around = omega (arith, v)

          back : rb.head + rb.count + rb.size - rb.size ≡ rb.head + rb.count
          back = omega arith

before_head :
    (rb : RingBuffer)
    → IsValid rb
    → (rb.head + length rb.bytes - 1) % length rb.bytes ≡ (rb.head + (rb.size - 1)) % rb.size
before_head rb v =
    ap (λ n. (rb.head + n - 1) % n) v.stored ∙ ap (λ k. k % rb.size) (omega (arith, v))

pub unread_loop_lem :
    (d : List ℕ) (i : ℕ) (rb : RingBuffer)
    → IsValid rb
    → i ≤ length d
    → rb.count + i ≤ rb.size
    → Returns (Keeps rb (take i d ++ contents rb)) (unread_loop d i rb)
unfolding unread_loop
unread_loop_lem d zero rb v h q = returns (Keeps-self rb v refl)
unread_loop_lem d (suc i) rb v h q =
    let g = (rb.head + length rb.bytes - 1) % length rb.bytes in
    let e = before_head rb v in
    let room : rb.count < rb.size = omega arith in
    let b = get_or d i 0 in
    let first = put_back-Keeps rb b g v room e in
    rw
      (
        rem_lem (rb.head + length rb.bytes - 1) (length rb.bytes) (omega (arith, v)),
        load_lem 0 d i (omega arith),
        store_lem rb.bytes g b (omega (arith, v, put_back_in rb b g v room e)),
      )
      (Returns-map
        (λ rb' k.
          Keeps-trans first
            (ap (λ xs. take i d ++ xs) first.holds ∙ take-suc i d 0 (contents rb) (omega arith)) k)
        (unread_loop_lem d i (put_back rb b g v room e) first.valid (omega arith) (omega arith)))
