-- ===== src/Taskpool/RingQueue/Refine.antt =====
-- A RingQueue answers every attempt as the bounded queue of its tasks does.
use go_kitbox.Prelude.{
  ℕ, ◌<◌, ◌≡◌, refl, sym, ap, ap₂, ◌∙◌, Bool, true, false, not, ◌&&◌, List, [], ◌∷◌, none, length,
  length-replicate, arith, ◌==◌, ==_iff, if◌then◌else◌, suc-eq_zero,
}
use mathlib.Core.Path.{subst, subst₂}
use native.Mathlib.Nat.{mod-eq_of_lt}
use go_kitbox.Prelude.Run.{ok, Returns, returns, Returns-bind}
use go_kitbox.Taskpool.RingQueue.{
  RingQueue, Reply, pushed, err_queue_closed, waits, err_queue_full, none_ready, batch_waits,
  Attempt, Op, op_push, op_pop, op_batch, op_batch_resume, op_close, new_ring_queue, push, pop,
  batch_resume, batch_push, close, step, run,
}
use go_kitbox.Taskpool.RingQueue.Spec
use go_kitbox.Taskpool.RingQueue.Spec.{Fifo, append, is_full, push_with, nothing, pop_from, stall}
use go_kitbox.Taskpool.RingQueue.Inv.{Holds, size_of_Holds, enqueue_lem, dequeue_lem}

pub and-false : (b : Bool) → (b && false) ≡ false
and-false true = refl
and-false false = refl

module _ {A : Type 0} where
  -- The attempt ends with the reply that is wanted, on a ring that holds the queue that is wanted.
  abbrev pub Answers : Reply A × Fifo A → Reply A × RingQueue A → Type 0
  Answers (reply, f) (reply', q) = (reply' ≡ reply) × Holds f q

  pub new_ring_queue-Holds :
      (cap : ℕ)
      → 0 < cap
      → Holds (record { items = []; cap = cap; shut = false }) (new_ring_queue {A = A} cap)
  unfolding new_ring_queue
  new_ring_queue-Holds cap h = record {
    valid = record {
      positive = h;
      stored = length-replicate cap none;
      head_in = h;
      tail_at = sym (mod-eq_of_lt h);
      size_in = omega arith;
    };
    tasks = refl;
    same_cap = refl;
    same_shut = refl;
  }

  module _ (f : Fifo A) (q : RingQueue A) (h : Holds f q) where
    -- the test of the loops
    full-eq : (q.size == q.capacity) ≡ is_full f
    full-eq = rw (size_of_Holds h, h.same_cap)

    not_full-lt : (q.size == q.capacity) ≡ false → q.size < q.capacity
    not_full-lt e = ground (arith, h.valid)

  push_cases :
      (full shut blocking : Bool) (a : A) {f : Fifo A} {q : RingQueue A} {r : Attempt A}
      → Holds f q
      → (full ≡ false → Returns (Answers (pushed, append f a)) r)
      → Returns (Answers (push_with shut full blocking a f)) (
          if full
          then (if shut
              then ok (err_queue_closed, q)
              else (if not blocking then ok (err_queue_full, q) else ok (waits, q)))
          else (if shut then ok (err_queue_closed, q) else r))
  push_cases true true blocking a h k = returns (refl, h)
  push_cases true false true a h k = returns (refl, h)
  push_cases true false false a h k = returns (refl, h)
  push_cases false true blocking a h k = returns (refl, h)
  push_cases false false blocking a h k = k refl

  push_refines :
      (a : A) (blocking : Bool) (f : Fifo A) (q : RingQueue A)
      → Holds f q
      → Returns (Answers (Spec.step (op_push a blocking) f)) (push a blocking q)
  unfolding push Spec.step
  push_refines a blocking f q h =
      subst₂ (λ s u. Returns (Answers (push_with s u blocking a f)) (push a blocking q)) h.same_shut
        (full-eq f q h)
        (push_cases (q.size == q.capacity) q.closed blocking a h
          (λ e. Returns-bind (enqueue_lem f q a h (not_full-lt f q h e)) λ q' k. returns (refl, k)))

  -- a Pop of an empty queue
  pop_none :
      (shut blocking : Bool) {f : Fifo A} {q : RingQueue A}
      → Holds f q
      → Returns {E = ⊥} (Answers (nothing shut blocking, f)) (
          if shut
          then ok (err_queue_closed, q)
          else (if not blocking then ok (none_ready, q) else ok (waits, q)))
  pop_none true blocking h = returns (refl, h)
  pop_none false true h = returns (refl, h)
  pop_none false false h = returns (refl, h)

  pop_by :
      (items : List A) (blocking : Bool) (f : Fifo A) (q : RingQueue A)
      → f.items ≡ items
      → Holds f q
      → Returns (Answers (pop_from q.closed blocking f items)) (pop blocking q)
  unfolding pop
  pop_by [] blocking f q e h =
      let zero_size : (q.size == 0) ≡ true = (==_iff q.size 0).1 (size_of_Holds h ∙ ap length e) in
      rw zero_size (pop_none q.closed blocking h)
  pop_by (a ∷ rest) blocking f q e h =
      let more : (q.size == 0) ≡ false =
        ap (λ n. n == 0) (size_of_Holds h ∙ ap length e) ∙ suc-eq_zero (length rest) in
      rw (more, and-false q.closed) (dequeue_lem f q a rest h e)

  pop_refines :
      (blocking : Bool) (f : Fifo A) (q : RingQueue A)
      → Holds f q
      → Returns (Answers (Spec.step (op_pop blocking) f)) (pop blocking q)
  unfolding Spec.step
  pop_refines blocking f q h =
      subst (λ s. Returns (Answers (pop_from s blocking f f.items)) (pop blocking q)) h.same_shut
        (pop_by f.items blocking f q refl h)

  stall_by :
      (shut full : Bool) (as' : List A) {f : Fifo A} {want : Reply A × Fifo A} {q : RingQueue A}
      {r : Attempt A}
      → Holds f q
      → (full ≡ false → Returns (Answers want) r)
      → Returns
          (Answers (if full then (stall shut as', f) else want))
          (if full then (if shut then ok (err_queue_closed, q) else ok (batch_waits as', q)) else r)
  stall_by true true as' h k = returns (refl, h)
  stall_by false true as' h k = returns (refl, h)
  stall_by shut false as' h k = k refl

  batch_resume_refines :
      (as' : List A) (f : Fifo A) (q : RingQueue A)
      → Holds f q
      → Returns (Answers (Spec.fill as' f)) (batch_resume as' q)
  unfolding batch_resume Spec.fill
  batch_resume_refines [] f q h = returns (refl, h)
  batch_resume_refines (a ∷ as') f q h =
      let rest = Spec.fill as' (append f a) in
      subst₂
        (λ s u.
          Returns (Answers (if u then (stall s (a ∷ as'), f) else rest)) (batch_resume (a ∷ as') q))
        h.same_shut (full-eq f q h)
        (stall_by q.closed (q.size == q.capacity) (a ∷ as') h (λ e.
          Returns-bind (enqueue_lem f q a h (not_full-lt f q h e))
            λ q' k. batch_resume_refines as' (append f a) q' k))

  batch_by :
      (shut : Bool) {f : Fifo A} {want : Reply A × Fifo A} {q : RingQueue A} {r : Attempt A}
      → Holds f q
      → Returns (Answers want) r
      → Returns
          (Answers (if shut then (err_queue_closed, f) else want))
          (if shut then ok (err_queue_closed, q) else r)
  batch_by true h k = returns (refl, h)
  batch_by false h k = k

  close_by :
      (c : Bool) {f : Fifo A} {q : RingQueue A}
      → Holds f q
      → q.closed ≡ c
      → Holds (record f { shut = true }) (if not c then record q { closed = true } else q)
  close_by true h e = record {
    valid = h.valid;
    tasks = h.tasks;
    same_cap = h.same_cap;
    same_shut = e;
  }
  close_by false {q = q} h e = record {
    valid = record {
      positive = h.valid.positive;
      stored = h.valid.stored;
      head_in = h.valid.head_in;
      tail_at = h.valid.tail_at;
      size_in = h.valid.size_in;
    };
    tasks = h.tasks;
    same_cap = h.same_cap;
    same_shut = refl;
  }

  close-Holds :
      (f : Fifo A) (q : RingQueue A) → Holds f q → Holds (record f { shut = true }) (close q)
  unfolding close
  close-Holds f q h = close_by q.closed h refl

  -- Every attempt ends without a panic, with the answer of the queue, on a ring that holds it.
  pub queue_step_refines :
      (op : Op A) (f : Fifo A) (q : RingQueue A)
      → Holds f q
      → Returns (Answers (Spec.step op f)) (step op q)
  unfolding step Spec.step
  queue_step_refines (op_push a blocking) f q h = push_refines a blocking f q h
  queue_step_refines (op_pop blocking) f q h = pop_refines blocking f q h
  queue_step_refines (op_batch as') f q h =
      unfold batch_push in
      subst
        (λ s.
          Returns (Answers (if s then (err_queue_closed, f) else Spec.fill as' f))
            (batch_push as' q))
        h.same_shut (batch_by q.closed h (batch_resume_refines as' f q h))
  queue_step_refines (op_batch_resume as') f q h = batch_resume_refines as' f q h
  queue_step_refines op_close f q h = returns (refl, close-Holds f q h)

  -- A ring that holds a queue gives the replies of the queue to any interleaving of attempts, without
  -- a panic, and holds the queue that is left.
  pub queue_run_refines :
      (ops : List (Op A)) (f : Fifo A) (q : RingQueue A)
      → Holds f q
      → Returns (λ out. (out.0 ≡ (Spec.run ops f).0) × Holds (Spec.run ops f).1 out.1) (run ops q)
  unfolding run Spec.run
  queue_run_refines [] f q h = returns (refl, h)
  queue_run_refines (op ∷ ops) f q h =
      Returns-bind (queue_step_refines op f q h) λ (reply, q') (e, h').
        Returns-bind (queue_run_refines ops (Spec.step op f).1 q' h')
          λ (replies, q'') (es, h''). returns (ap₂ ◌∷◌ e es, h'')
