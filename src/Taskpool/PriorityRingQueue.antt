-- ===== src/Taskpool/PriorityRingQueue.antt =====
-- PriorityRingQueue of pkg/taskpool/priority_queue.go: ten RingQueues, one for each range of
-- priorities. A call is one attempt, as in RingQueue, and here no other call runs within it.
-- starvationN is a number: with 0 and below it the guard is off all the same.
pub mod Inv
pub mod Indices
pub mod Order
pub mod Filing
use go_kitbox.Prelude.{
  ℕ, zero, suc, ◌+◌, ◌-◌, ◌/◌, ◌%◌, Bool, true, false, not, ◌&&◌, List, [], ◌∷◌, map, Option, none,
  some, replicate, ltb, leb, ◌==◌, if◌then◌else◌,
}
use go_kitbox.Prelude.Int.{ℤ, pos, negsuc}
use go_kitbox.Prelude.Run.{Run, ok, panic, ◌>>=◌, load, store}
use go_kitbox.Taskpool.RingQueue
use go_kitbox.Taskpool.RingQueue.{
  RingQueue, Reply, pushed, none_ready, err_queue_closed, err_queue_full, waits, popped,
  batch_waits, new_ring_queue,
}

pub record PriorityRingQueue (A : Type 0) : Type 0 where
  pub buckets : List (RingQueue A)
  pub bucket_count : ℕ
  pub priority_range : ℕ
  pub consume_count : ℕ
  pub starvation_n : ℕ
  pub closed : Bool
  pub total_size : ℕ
  pub capacity : ℕ

abbrev pub PriorityAttempt : Type 0 → Type 0
PriorityAttempt A = Run ⊥ (Reply A × PriorityRingQueue A)

-- the indices of the two loops of Pop
unfoldable pub upward : ℕ → ℕ → List ℕ
upward i zero = []
upward i (suc n) = i ∷ upward (suc i) n

unfoldable pub downward : ℕ → List ℕ
downward zero = []
downward (suc n) = n ∷ downward n

module _ {A : Type 0} where
  unfoldable pub new_priority_ring_queue : ℕ → ℕ → PriorityRingQueue A
  new_priority_ring_queue capacity starvation_n =
      let bucket_capacity = if ltb (capacity / 10) 10 then 10 else capacity / 10 in
      record {
        buckets = replicate 10 (new_ring_queue bucket_capacity);
        bucket_count = 10;
        priority_range = 10;
        consume_count = 0;
        starvation_n = starvation_n;
        closed = false;
        total_size = 0;
        capacity = capacity;
      }

  -- A bucket count of 0 would give the index -1: then there is no bucket 0 either.
  abbrev pub clip : ℕ → PriorityRingQueue A → ℕ
  clip i pq = if leb pq.bucket_count i then pq.bucket_count - 1 else i

  -- The quotient drops its fraction, and a negative index panics where it is used.
  unfoldable pub bucket_index : ℤ → PriorityRingQueue A → Run ⊥ ℕ
  bucket_index (pos p) pq =
      if pq.priority_range == 0 then panic else ok (clip (p / pq.priority_range) pq)
  bucket_index (negsuc p) pq =
      if pq.priority_range == 0
      then panic
      else (if ltb (suc p) pq.priority_range then ok (clip 0 pq) else panic)

  -- only a success is counted
  abbrev pub counted : Reply A → ℕ → ℕ
  counted pushed n = n + 1
  counted none_ready n = n
  counted err_queue_closed n = n
  counted err_queue_full n = n
  counted waits n = n
  counted (popped o) n = n
  counted (batch_waits ts) n = n

  abbrev pub no_bucket : RingQueue A
  no_bucket = record { buffer = []; head = 0; tail = 0; size = 0; capacity = 0; closed = false }

  unfoldable pub push : (A → ℤ) → A → Bool → PriorityRingQueue A → PriorityAttempt A
  unfolding bucket_index
  push priority task blocking pq =
      if pq.closed
      then ok (err_queue_closed, pq)
      else (bucket_index (priority task) pq >>= λ i. load no_bucket pq.buckets i >>= λ bucket.
          RingQueue.push task blocking bucket >>= λ (reply, bucket').
          store pq.buckets i bucket' >>= λ buckets.
          ok (reply, record pq { buckets = buckets; total_size = counted reply pq.total_size }))

  -- The loop of BatchPush goes on after a success only.
  abbrev pub after_push :
      A
      → List A
      → Reply A × PriorityRingQueue A
      → (PriorityRingQueue A → PriorityAttempt A)
      → PriorityAttempt A
  after_push t ts (pushed, pq) go = go pq
  after_push t ts (waits, pq) go = ok (batch_waits (t ∷ ts), pq)
  after_push t ts (none_ready, pq) go = ok (none_ready, pq)
  after_push t ts (err_queue_closed, pq) go = ok (err_queue_closed, pq)
  after_push t ts (err_queue_full, pq) go = ok (err_queue_full, pq)
  after_push t ts (popped o, pq) go = ok (popped o, pq)
  after_push t ts (batch_waits us, pq) go = ok (batch_waits us, pq)

  unfoldable pub batch_resume : (A → ℤ) → List A → PriorityRingQueue A → PriorityAttempt A
  batch_resume priority [] pq = ok (pushed, pq)
  batch_resume priority (t ∷ ts) pq =
      push priority t true pq >>= λ out. after_push t ts out (λ pq'. batch_resume priority ts pq')

  unfoldable pub batch_push : (A → ℤ) → List A → PriorityRingQueue A → PriorityAttempt A
  batch_push priority tasks pq =
      if pq.closed then ok (err_queue_closed, pq) else batch_resume priority tasks pq

  -- What a bucket answers to Pop(false): a task ends the loop, anything else does not.
  abbrev pub found :
      Reply A
      → List (RingQueue A)
      → (List (RingQueue A) → Run ⊥ (Option A × List (RingQueue A)))
      → Run ⊥ (Option A × List (RingQueue A))
  found (popped (some t)) bs go = ok (some t, bs)
  found (popped none) bs go = go bs
  found pushed bs go = go bs
  found none_ready bs go = go bs
  found err_queue_closed bs go = go bs
  found err_queue_full bs go = go bs
  found waits bs go = go bs
  found (batch_waits ts) bs go = go bs

  unfoldable pub scan : List ℕ → List (RingQueue A) → Run ⊥ (Option A × List (RingQueue A))
  scan [] bs = ok (none, bs)
  scan (i ∷ is) bs = load no_bucket bs i >>= λ bucket.
      RingQueue.pop false bucket >>= λ (reply, bucket').
      store bs i bucket' >>= λ bs'. found reply bs' (λ bs''. scan is bs'')

  unfoldable pub forced_low : PriorityRingQueue A → Bool
  forced_low pq = ltb 0 pq.starvation_n && (pq.consume_count + 1) % pq.starvation_n == 0

  unfoldable pub order : PriorityRingQueue A → List ℕ
  unfolding forced_low upward downward
  order pq = if forced_low pq then upward 0 pq.bucket_count else downward pq.bucket_count

  -- After a fruitless scan a blocking Pop goes through its test again.
  abbrev pub popped_from :
      Bool → PriorityRingQueue A → Option A × List (RingQueue A) → Reply A × PriorityRingQueue A
  popped_from blocking pq (some t, bs) =
      (popped (some t), record pq { buckets = bs; total_size = pq.total_size - 1 })
  popped_from blocking pq (none, bs) =
      ((if not blocking then none_ready else waits), record pq { buckets = bs })

  unfoldable pub pop : Bool → PriorityRingQueue A → PriorityAttempt A
  unfolding order scan
  pop blocking pq =
      if pq.closed && pq.total_size == 0
      then ok (err_queue_closed, pq)
      else (if pq.total_size == 0
          then (if not blocking then ok (none_ready, pq) else ok (waits, pq))
          else (let pq' = record pq { consume_count = pq.consume_count + 1 } in
              scan (order pq) pq.buckets >>= λ out. ok (popped_from blocking pq' out)))

  unfoldable pub len : PriorityRingQueue A → ℕ
  len pq = pq.total_size

  unfoldable pub close : PriorityRingQueue A → PriorityRingQueue A
  close pq =
      if not pq.closed
      then record pq { closed = true; buckets = map (λ b. RingQueue.close b) pq.buckets }
      else pq
