-- ===== src/Taskpool/RingQueue/Spec.antt =====
-- What a RingQueue promises: a bounded first-in first-out queue that can be closed and drained.
use go_kitbox.Prelude.{ℕ, Bool, true, List, [], ◌∷◌, ◌++◌, some, length, ◌==◌, if◌then◌else◌}
use go_kitbox.Taskpool.RingQueue.{
  Op, op_push, op_pop, op_batch, op_batch_resume, op_close, Reply, pushed, none_ready,
  err_queue_closed, err_queue_full, waits, popped, batch_waits,
}

pub record Fifo (A : Type 0) : Type 0 where
  pub items : List A
  pub cap : ℕ
  pub shut : Bool

module _ {A : Type 0} where
  abbrev pub is_full : Fifo A → Bool
  is_full f = length f.items == f.cap

  abbrev pub append : Fifo A → A → Fifo A
  append f a = record f { items = f.items ++ a ∷ [] }

  -- The answers, by what the queue is asked first: is it shut, is it full?
  abbrev pub push_with : Bool → Bool → Bool → A → Fifo A → Reply A × Fifo A
  push_with shut full blocking a f =
      if shut
      then (err_queue_closed, f)
      else (if full
          then ((if blocking then waits else err_queue_full), f)
          else (pushed, append f a))

  -- the reply to a Pop of an empty queue
  abbrev pub nothing : Bool → Bool → Reply A
  nothing shut blocking =
      if shut then err_queue_closed else (if blocking then waits else none_ready)

  abbrev pub pop_from : Bool → Bool → Fifo A → List A → Reply A × Fifo A
  pop_from shut blocking f [] = (nothing shut blocking, f)
  pop_from shut blocking f (a ∷ rest) = (popped (some a), record f { items = rest })

  abbrev pub stall : Bool → List A → Reply A
  stall shut as' = if shut then err_queue_closed else batch_waits as'

  -- a queue that is full stops BatchPush, and only then a closed one
  unfoldable pub fill : List A → Fifo A → Reply A × Fifo A
  fill [] f = (pushed, f)
  fill (a ∷ as') f =
      let rest = fill as' (append f a) in if is_full f then (stall f.shut (a ∷ as'), f) else rest

  unfoldable pub step : Op A → Fifo A → Reply A × Fifo A
  step (op_push a blocking) f = push_with f.shut (is_full f) blocking a f
  step (op_pop blocking) f = pop_from f.shut blocking f f.items
  step (op_batch as') f = if f.shut then (err_queue_closed, f) else fill as' f
  step (op_batch_resume as') f = fill as' f
  step op_close f = (pushed, record f { shut = true })

  unfoldable pub run : List (Op A) → Fifo A → List (Reply A) × Fifo A
  run [] f = ([], f)
  run (op ∷ ops) f =
      let (reply, f') = step op f in let (replies, f'') = run ops f' in (reply ∷ replies, f'')
