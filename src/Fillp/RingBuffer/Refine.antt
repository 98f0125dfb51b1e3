-- ===== src/Fillp/RingBuffer/Refine.antt =====
-- A RingBuffer behaves as the bounded queue of the bytes that it holds.
use go_kitbox.Prelude.{
  ℕ, zero, suc, ◌-◌, ◌≤◌, ◌≡◌, refl, ap, ◌∙◌, sym, Bool, true, false, List, [], ◌∷◌, length, take,
  take_all, take_more, drop, drop_all, if◌then◌else◌, Bool-cases, inl, inr, arith, ltb, ltb→lt,
  ltb→le, suc-eq_zero, ◌==◌,
}
use native.Mathlib.Nat.{mod-eq_of_lt}
use go_kitbox.Prelude.Run.{Run, ok, Returns, returns}
use go_kitbox.Prelude.Window.{length-window}
use go_kitbox.Fillp.RingBuffer.Fifo
use go_kitbox.Fillp.RingBuffer.Fifo.{Fifo}
use go_kitbox.Fillp.RingBuffer.{
  RingBuffer, BufferError, available, write, read_loop, read, peek_loop, peek, unread, used, clear,
  close, Op, op_write, op_unread, op_read, op_peek, op_clear, op_close, op_used, op_available,
  Reply, done, bytes_read, settle, settle_read, settle_peek, step, run,
}
use go_kitbox.Fillp.RingBuffer.Inv.{
  IsValid, contents, Keeps, Keeps-self, HasRead, write_loop_lem, read_loop_lem, peek_loop_lem,
}
use go_kitbox.Fillp.RingBuffer.PutBack.{unread_loop_lem}

abbrev pub abs : RingBuffer → Fifo
abs rb = record { items = contents rb; cap = rb.size; closed = rb.is_closed }

-- The buffer answers as the queue does, and holds what the queue then holds.
pub record Agrees (out : Reply × RingBuffer) (want : Reply × Fifo) : Type 0 where
  pub answer : out.0 ≡ want.0
  pub state : abs out.1 ≡ want.1
  pub valid : IsValid out.1

length-contents : (rb : RingBuffer) → length (contents rb) ≡ rb.count
length-contents rb = length-window 0 rb.size rb.bytes rb.head rb.count

abs_of_Keeps :
    {rb rb' : RingBuffer} {xs : List ℕ} → Keeps rb xs rb' → abs rb' ≡ record (abs rb) { items = xs }
abs_of_Keeps k = λ i. record { items = k.holds i; cap = k.same_size i; closed = k.same_closed i }

Agrees-if {ℓ} :
    {X : Type ℓ} (f : X → Reply × RingBuffer) {x x' : X} {y y' : Reply × Fifo} (b : Bool)
    → (b ≡ true → Agrees (f x) y)
    → (b ≡ false → Agrees (f x') y')
    → Agrees (f (if b then x else x')) (if b then y else y')
Agrees-if f true p q = p refl
Agrees-if f false p q = q refl

Agrees-same : (rb : RingBuffer) (reply : Reply) → IsValid rb → Agrees (reply, rb) (reply, abs rb)
Agrees-same rb reply v = record { answer = refl; state = refl; valid = v }

Agrees-settle :
    (rb : RingBuffer) {xs : List ℕ} {r : Run BufferError RingBuffer}
    → Returns (Keeps rb xs) r
    → Agrees (settle rb r) (done, record (abs rb) { items = xs })
Agrees-settle rb (returns k) = record { answer = refl; state = abs_of_Keeps k; valid = k.valid }

Agrees-settle_read :
    (rb : RingBuffer) (n : ℕ) {r : Run BufferError (List ℕ × RingBuffer)}
    → Returns (HasRead rb n) r
    → Agrees
        (settle_read rb r)
        (bytes_read (take n (contents rb)), record (abs rb) { items = drop n (contents rb) })
Agrees-settle_read rb n (returns (got, k)) = record {
  answer = ap bytes_read got;
  state = abs_of_Keeps k;
  valid = k.valid;
}

Agrees-settle_peek :
    (rb : RingBuffer) {xs : List ℕ} {r : Run BufferError (List ℕ)}
    → IsValid rb
    → Returns (λ bs. bs ≡ xs) r
    → Agrees (settle_peek rb r) (bytes_read xs, abs rb)
Agrees-settle_peek rb v (returns got) = record {
  answer = ap bytes_read got;
  state = refl;
  valid = v;
}

-- Read and Peek cut the size down to what is there, which changes nothing of what they return.
clip : RingBuffer → ℕ → ℕ
clip rb n = if ltb rb.count n then rb.count else n

clip-le : (rb : RingBuffer) (n : ℕ) → clip rb n ≤ rb.count
unfolding clip
clip-le rb n = ground arith

take-clip : (rb : RingBuffer) (n : ℕ) → take (clip rb n) (contents rb) ≡ take n (contents rb)
unfolding clip
take-clip rb n = elim (Bool-cases (ltb rb.count n)) [
  | inl more ↦ rw more (
      sym (ap (λ k. take k (contents rb)) (length-contents rb))
      ∙ take_all (contents rb)
      ∙ sym (take_more n (contents rb) (omega (arith, length-contents rb, ltb→lt rb.count n more))))
  | inr fits ↦ rw fits
]

drop-clip : (rb : RingBuffer) (n : ℕ) → drop (clip rb n) (contents rb) ≡ drop n (contents rb)
unfolding clip
drop-clip rb n = elim (Bool-cases (ltb rb.count n)) [
  | inl more ↦ rw more (
      drop_all rb.count (contents rb) (omega (arith, length-contents rb))
      ∙ sym (drop_all n (contents rb) (omega (arith, length-contents rb, ltb→lt rb.count n more))))
  | inr fits ↦ rw fits
]

read_clipped :
    (rb : RingBuffer) (n : ℕ)
    → IsValid rb
    → n ≤ rb.count
    → Returns (HasRead rb n) (if n == 0 then ok ([], rb) else read_loop n rb)
read_clipped rb zero v h = returns (refl, Keeps-self rb v refl)
read_clipped rb (suc n) v h = rw (suc-eq_zero n) (read_loop_lem (suc n) rb v h)

peek_clipped :
    (rb : RingBuffer) (n : ℕ)
    → IsValid rb
    → n ≤ rb.count
    → Returns (λ bs. bs ≡ take n (contents rb)) (if n == 0 then ok [] else peek_loop n rb rb.head)
peek_clipped rb zero v h = returns refl
peek_clipped rb (suc n) v h =
    rw (suc-eq_zero n) (peek_loop_lem (suc n) rb rb.head rb.count v.positive v.stored v.head_in h)

-- Every method, on every branch, answers as the queue and keeps the buffer valid.
pub buffer_step_refines :
    (op : Op) (rb : RingBuffer) → IsValid rb → Agrees (step op rb) (Fifo.step op (abs rb))
unfolding step write read peek unread clear close used available clip Fifo.step
buffer_step_refines (op_write d) rb v = rw (length-contents rb) (
    Agrees-if (settle rb) rb.is_closed (λ c. Agrees-same rb _ v)
      (λ o.
        Agrees-if (settle rb) (ltb (rb.size - rb.count) (length d)) (λ full. Agrees-same rb _ v)
          (λ fits. Agrees-settle rb (
            write_loop_lem d rb v
              (omega (arith, v, ltb→le (rb.size - rb.count) (length d) fits))))))
buffer_step_refines (op_unread d) rb v = rw (length-contents rb) (
    Agrees-if (settle rb) (ltb (rb.size - rb.count) (length d)) (λ full. Agrees-same rb _ v)
      (λ fits. Agrees-settle rb (
        rw (take_all d) at (
          unread_loop_lem d (length d) rb v (omega arith)
            (omega (arith, v, ltb→le (rb.size - rb.count) (length d) fits))))))
buffer_step_refines (op_read n) rb v =
    Agrees-if (settle_read rb) rb.is_closed (λ c. Agrees-same rb _ v)
      (λ o.
        rw (← take-clip rb n, ← drop-clip rb n)
          (Agrees-settle_read rb (clip rb n) (read_clipped rb (clip rb n) v (clip-le rb n))))
buffer_step_refines (op_peek n) rb v =
    Agrees-if (settle_peek rb) rb.is_closed (λ c. Agrees-same rb _ v)
      (λ o.
        rw (← take-clip rb n)
          (Agrees-settle_peek rb v (peek_clipped rb (clip rb n) v (clip-le rb n))))
buffer_step_refines op_clear rb v = record {
  answer = refl;
  state = refl;
  valid = record {
    positive = v.positive;
    stored = v.stored;
    head_in = v.positive;
    tail_at = sym (mod-eq_of_lt v.positive);
    count_in = omega arith;
  };
}
buffer_step_refines op_close rb v = record {
  answer = refl;
  state = refl;
  valid = record {
    positive = v.positive;
    stored = v.stored;
    head_in = v.head_in;
    tail_at = v.tail_at;
    count_in = v.count_in;
  };
}
buffer_step_refines op_used rb v = rw (length-contents rb) (Agrees-same rb _ v)
buffer_step_refines op_available rb v = rw (length-contents rb) (Agrees-same rb _ v)

-- Any sequence of calls on a valid RingBuffer gives the replies that the bounded queue of its bytes
-- gives, none of which is a panic.
pub buffer_run_refines :
    (ops : List Op) (rb : RingBuffer) → IsValid rb → run ops rb ≡ Fifo.run ops (abs rb)
unfolding run Fifo.run
buffer_run_refines [] rb v = refl
buffer_run_refines (op ∷ ops) rb v =
    let a = buffer_step_refines op rb v in
    rw (buffer_run_refines ops (step op rb).1 a.valid, a.state, a.answer)
