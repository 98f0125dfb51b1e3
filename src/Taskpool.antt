-- ===== src/Taskpool.antt =====
-- The task queues of pkg/taskpool, which feed the workers of the pool.
pub mod RingQueue
pub mod PriorityRingQueue
mod Tests
