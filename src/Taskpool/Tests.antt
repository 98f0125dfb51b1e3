-- ===== src/Taskpool/Tests.antt =====
-- The queues on concrete inputs.
use go_kitbox.Prelude.{ℕ, ◌≡◌, refl, true, false, List, [], ◌∷◌, none, some, arith}
use go_kitbox.Prelude.Int.{pos}
use go_kitbox.Prelude.Run.{Run, ok, err, panic, Returns}
use go_kitbox.Taskpool.RingQueue.{
  RingQueue, Reply, pushed, popped, waits, err_queue_closed, batch_waits, Op, op_push, op_pop,
  op_batch, op_batch_resume, op_close, new_ring_queue, run, step, enqueue, dequeue,
}
use go_kitbox.Taskpool.RingQueue
use go_kitbox.Taskpool.RingQueue.Spec
use go_kitbox.Taskpool.RingQueue.Spec.{Fifo, append, push_with, is_full}
use go_kitbox.Taskpool.RingQueue.Inv.{Holds}
use go_kitbox.Taskpool.RingQueue.Refine.{new_ring_queue-Holds, queue_run_refines}
use go_kitbox.Taskpool.RingQueue.History.{Balanced, run_conserves, batch_after_close}
use go_kitbox.Taskpool.PriorityRingQueue
use go_kitbox.Taskpool.PriorityRingQueue.{PriorityRingQueue, new_priority_ring_queue}
use go_kitbox.Taskpool.PriorityRingQueue.Inv.{none_left, also, Levels}
use go_kitbox.Taskpool.PriorityRingQueue.Order.{Took, pop_takes}
use go_kitbox.Taskpool.PriorityRingQueue.Filing.{Filed, level, push_files}

abbrev script : List (Op ℕ)
script =
    op_push 1 true
    ∷ op_batch (2 ∷ 3 ∷ [])
    ∷ op_pop false
    ∷ op_close
    ∷ op_batch_resume (3 ∷ [])
    ∷ op_pop false
    ∷ op_pop false
    ∷ op_pop true
    ∷ []

abbrev two_slots : RingQueue ℕ
two_slots = new_ring_queue 2

abbrev two_free : Fifo ℕ
two_free = record { items = []; cap = 2; shut = false }

-- the replies of a run that ends
abbrev replies : Run ⊥ (List (Reply ℕ) × RingQueue ℕ) → List (Reply ℕ)
replies (ok (rs, q)) = rs
replies (err e) = []
replies panic = []

script_answers :
    replies (run script two_slots)
    ≡ pushed
      ∷ batch_waits (3 ∷ [])
      ∷ popped (some 1)
      ∷ pushed
      ∷ pushed
      ∷ popped (some 2)
      ∷ popped (some 3)
      ∷ err_queue_closed
      ∷ []
unfolding run step new_ring_queue RingQueue.push RingQueue.pop RingQueue.batch_push RingQueue.close
script_answers = refl

queue_run_refines_example :
    Returns
      (λ out. (out.0 ≡ (Spec.run script two_free).0) × Holds (Spec.run script two_free).1 out.1)
      (run script two_slots)
queue_run_refines_example =
    queue_run_refines script two_free two_slots (new_ring_queue-Holds 2 (omega arith))

run_conserves_example :
    Returns
      (λ (rs, q'). (f' : Fifo ℕ) × Holds f' q' × Balanced script two_free rs f')
      (run script two_slots)
run_conserves_example =
    run_conserves script two_free two_slots (new_ring_queue-Holds 2 (omega arith))

abbrev one_left : RingQueue ℕ
one_left = record {
  buffer = none ∷ some 7 ∷ [];
  head = 1;
  tail = 0;
  size = 1;
  capacity = 2;
  closed = true;
}

abbrev one_shut : Fifo ℕ
one_shut = record { items = 7 ∷ []; cap = 2; shut = true }

one_left-Holds : Holds one_shut one_left
one_left-Holds = record {
  valid = record {
    positive = omega arith;
    stored = refl;
    head_in = omega arith;
    tail_at = refl;
    size_in = omega arith;
  };
  tasks = refl;
  same_cap = refl;
  same_shut = refl;
}

batch_after_close_example :
    Returns
      (λ out. (out.0 ≡ pushed) × Holds (append one_shut 9) out.1 × (out.1.closed ≡ true))
      (step (op_batch_resume (9 ∷ [])) one_left)
batch_after_close_example = batch_after_close 9 one_shut one_left one_left-Holds refl (omega arith)

-- Two levels: the upper one empty, the lower one with a task.
abbrev levels : PriorityRingQueue ℕ
levels = record {
  buckets = one_left ∷ two_slots ∷ [];
  bucket_count = 2;
  priority_range = 10;
  consume_count = 0;
  starvation_n = 3;
  closed = false;
  total_size = 1;
  capacity = 4;
}

abbrev fifos : List (Fifo ℕ)
fifos = one_shut ∷ two_free ∷ []

levels-Levels : Levels fifos levels
levels-Levels = record {
  each = also one_left-Holds (also (new_ring_queue-Holds 2 (omega arith)) none_left);
  as_many = refl;
  sum = refl;
}

pop_takes_example : Returns (Took levels fifos) (PriorityRingQueue.pop false levels)
pop_takes_example = pop_takes false fifos levels levels-Levels (omega arith)

push_files_example :
    Returns
      (Filed 5 true (level 42 levels) fifos)
      (PriorityRingQueue.push (λ n. pos 42) 5 true levels)
push_files_example =
    push_files (λ n. pos 42) 5 42 true fifos levels refl refl (omega arith) (omega arith)
      levels-Levels
