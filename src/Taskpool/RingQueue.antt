-- ===== src/Taskpool/RingQueue.antt =====
-- RingQueue of pkg/taskpool/queue.go, a bounded queue with blocking calls. A call holds the mutex
-- until it returns or waits on a condition variable; woken, it goes through its test again. Here a
-- call is one such attempt, which may end in `waits`, and an interleaving of goroutines is a list of
-- attempts. Signal and Broadcast only wake, so they change nothing.
pub mod Spec
pub mod Inv
pub mod Refine
pub mod Effects
pub mod History
use go_kitbox.Prelude.{
  ℕ, ◌+◌, ◌-◌, Bool, true, false, not, ◌&&◌, List, [], ◌∷◌, Option, none, some, replicate, ◌==◌,
  if◌then◌else◌,
}
use go_kitbox.Prelude.Run.{Run, ok, panic, ◌>>=◌, load, store, rem}

pub record RingQueue (A : Type 0) : Type 0 where
  pub buffer : List (Option A)  -- nil is `none`
  pub head : ℕ
  pub tail : ℕ
  pub size : ℕ
  pub capacity : ℕ
  pub closed : Bool

-- How an attempt ends. `batch_waits` names the tasks that BatchPush has still to push.
pub data Reply (A : Type 0) : Type 0 where
  pushed none_ready err_queue_closed err_queue_full waits : Reply A
  popped : Option A → Reply A
  batch_waits : List A → Reply A

-- The only other end is a panic.
abbrev pub Attempt : Type 0 → Type 0
Attempt A = Run ⊥ (Reply A × RingQueue A)

module _ {A : Type 0} where
  unfoldable pub new_ring_queue : ℕ → RingQueue A
  new_ring_queue capacity = record {
    buffer = replicate capacity none;
    head = 0;
    tail = 0;
    size = 0;
    capacity = capacity;
    closed = false;
  }

  -- the three assignments that Push and BatchPush share
  pub enqueue : RingQueue A → A → Run ⊥ (RingQueue A)
  enqueue q task = do
    buffer ← store q.buffer q.tail (some task)
    tail ← rem (q.tail + 1) q.capacity
    ok (record q { buffer = buffer; tail = tail; size = q.size + 1 })

  unfoldable pub push : A → Bool → RingQueue A → Attempt A
  unfolding enqueue
  push task blocking q =
      if q.size == q.capacity
      then (if q.closed
          then ok (err_queue_closed, q)
          else (if not blocking then ok (err_queue_full, q) else ok (waits, q)))
      else (if q.closed then ok (err_queue_closed, q) else enqueue q task >>= λ q'. ok (pushed, q'))

  pub dequeue : RingQueue A → Attempt A
  dequeue q = do
    task ← load none q.buffer q.head
    buffer ← store q.buffer q.head none
    head ← rem (q.head + 1) q.capacity
    ok (popped task, record q { buffer = buffer; head = head; size = q.size - 1 })

  unfoldable pub pop : Bool → RingQueue A → Attempt A
  unfolding dequeue
  pop blocking q =
      if q.size == 0
      then (if q.closed
          then ok (err_queue_closed, q)
          else (if not blocking then ok (none_ready, q) else ok (waits, q)))
      else (if q.closed && q.size == 0 then ok (err_queue_closed, q) else dequeue q)

  -- the loop of BatchPush, where it is entered and where a wait in it ends
  unfoldable pub batch_resume : List A → RingQueue A → Attempt A
  unfolding enqueue
  batch_resume [] q = ok (pushed, q)
  batch_resume (task ∷ tasks) q =
      if q.size == q.capacity
      then (if q.closed then ok (err_queue_closed, q) else ok (batch_waits (task ∷ tasks), q))
      else (enqueue q task >>= λ q'. batch_resume tasks q')

  unfoldable pub batch_push : List A → RingQueue A → Attempt A
  unfolding batch_resume
  batch_push tasks q = if q.closed then ok (err_queue_closed, q) else batch_resume tasks q

  unfoldable pub len : RingQueue A → ℕ
  len q = q.size

  unfoldable pub close : RingQueue A → RingQueue A
  close q = if not q.closed then record q { closed = true } else q

-- The attempts of all goroutines, in the order in which they hold the mutex.
pub data Op (A : Type 0) : Type 0 where
  op_push : A → Bool → Op A
  op_pop : Bool → Op A
  op_batch op_batch_resume : List A → Op A
  op_close : Op A

module _ {A : Type 0} where
  unfoldable pub step : Op A → RingQueue A → Attempt A
  step (op_push task blocking) q = push task blocking q
  step (op_pop blocking) q = pop blocking q
  step (op_batch tasks) q = batch_push tasks q
  step (op_batch_resume tasks) q = batch_resume tasks q
  step op_close q = ok (pushed, close q)

  -- The replies of a whole interleaving, and the queue that is left.
  unfoldable pub run : List (Op A) → RingQueue A → Run ⊥ (List (Reply A) × RingQueue A)
  run [] q = ok ([], q)
  run (op ∷ ops) q = do
    (reply, q') ← step op q
    (replies, q'') ← run ops q'
    ok (reply ∷ replies, q'')
