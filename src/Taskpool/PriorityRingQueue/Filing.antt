-- ===== src/Taskpool/PriorityRingQueue/Filing.antt =====
-- Which level Push puts a task in.
use go_kitbox.Prelude.{
  ℕ, ◌+◌, ◌/◌, ◌<◌, ◌≡◌, refl, sym, ◌∙◌, Bool, true, false, List, [], ◌∷◌, length, length-append,
  length-set, get_elem?, get_or, set, some, arith, ◌==◌,
}
use go_kitbox.Prelude.Int.{ℤ, pos}
use go_kitbox.Prelude.Run.{load_lem, store_lem, Returns, returns, Returns-bind}
use go_kitbox.Taskpool.RingQueue
use go_kitbox.Taskpool.RingQueue.{RingQueue, Reply, op_push}
use go_kitbox.Taskpool.RingQueue.Spec
use go_kitbox.Taskpool.RingQueue.Spec.{Fifo, push_with, is_full, append}
use go_kitbox.Taskpool.RingQueue.Inv.{Holds}
use go_kitbox.Taskpool.RingQueue.Refine.{Answers, queue_step_refines}
use go_kitbox.Taskpool.PriorityRingQueue.{
  PriorityRingQueue, push, bucket_index, clip, counted, no_bucket,
}
use go_kitbox.Taskpool.PriorityRingQueue.Inv.{
  total, Levels, length-Each, Each-get, Each-set, total-set,
}

module _ {A : Type 0} where
  -- The count follows the level: one more for a task that is in, and the same otherwise.
  counted_by :
      (shut full blocking : Bool) (task : A) (f : Fifo A)
      → let out = push_with shut full blocking task f in
        (n : ℕ) → counted out.0 n + length f.items ≡ n + length out.1.items
  counted_by true full blocking task f n = refl
  counted_by false true true task f n = refl
  counted_by false true false task f n = refl
  counted_by false false blocking task f n = omega (arith, length-append f.items (task ∷ []))

  sum_lem :
      (i : ℕ) (fs : List (Fifo A)) (f f' : Fifo A) {c n : ℕ}
      → get_elem? fs i ≡ some f
      → c + length f.items ≡ n + length f'.items
      → n ≡ total fs
      → c ≡ total (set fs i f')
  sum_lem i fs f f' at step all = omega (arith, step, all, total-set i fs f f' at)

  push_lem :
      (task : A) (blocking : Bool) (f : Fifo A) (q : RingQueue A)
      → Holds f q
      → Returns
          (Answers (push_with f.shut (is_full f) blocking task f))
          (RingQueue.push task blocking q)
  unfolding RingQueue.step Spec.step
  push_lem task blocking f q h = queue_step_refines (op_push task blocking) f q h

  -- The level of a priority that is not negative.
  abbrev pub level : ℕ → PriorityRingQueue A → ℕ
  level p pq = clip (p / pq.priority_range) pq

  level-lt : (p : ℕ) (pq : PriorityRingQueue A) → 0 < pq.bucket_count → level p pq < pq.bucket_count
  level-lt p pq h = ground arith

  -- What a Push of an open queue answers, and where the task went.
  pub record Filed (task : A) (blocking : Bool) (i : ℕ) (fs : List (Fifo A))
      (out : Reply A × PriorityRingQueue A) : Type 0 where
    pub at : Fifo A
    pub at_level : get_elem? fs i ≡ some at
    pub replied : out.0 ≡ (push_with at.shut (is_full at) blocking task at).0
    pub levels : Levels (set fs i (push_with at.shut (is_full at) blocking task at).1) out.1

  -- Push of a task whose priority is not negative, on an open queue that has buckets and a positive
  -- range of priorities for each, answers as the level of that priority does, and puts the task behind
  -- that level's tasks or changes nothing; the count of tasks stays right.
  pub push_files :
      (priority : A → ℤ) (task : A) (p : ℕ) (blocking : Bool) (fs : List (Fifo A))
      (pq : PriorityRingQueue A)
      → priority task ≡ pos p
      → pq.closed ≡ false
      → 0 < pq.priority_range
      → 0 < pq.bucket_count
      → Levels fs pq
      → Returns (Filed task blocking (level p pq) fs) (push priority task blocking pq)
  unfolding push bucket_index
  push_files priority task p blocking fs pq e open_now range some_bucket v =
      let i = level p pq in
      let lt : i < length fs = omega (arith, level-lt p pq some_bucket, v.as_many) in
      let in_range : i < length pq.buckets = omega (arith, lt, length-Each v.each) in
      let (f, at, h) = Each-get i no_bucket v.each lt in
      let divisor : (pq.priority_range == 0) ≡ false = ground arith in
      rw (open_now, e, divisor, load_lem no_bucket pq.buckets i in_range)
        (Returns-bind (push_lem task blocking f (get_or pq.buckets i no_bucket) h)
          λ (reply, b) (same, k).
            rw (store_lem pq.buckets i b in_range, same)
              (returns (record {
                at = f;
                at_level = at;
                replied = refl;
                levels = record {
                  each = Each-set i k v.each;
                  as_many = v.as_many ∙ sym (length-set fs i _);
                  sum =
                      sum_lem i fs f _ at
                        (counted_by f.shut (is_full f) blocking task f pq.total_size) v.sum;
                };
              })))
