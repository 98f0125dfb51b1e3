-- ===== src/Fillp/RingBuffer/Fifo.antt =====
-- What a RingBuffer promises its users: a bounded queue of bytes that can be closed.
use go_kitbox.Prelude.{
  ℕ, ◌-◌, Bool, true, List, [], ◌∷◌, ◌++◌, length, take, drop, ltb, if◌then◌else◌,
}
use go_kitbox.Fillp.RingBuffer.{
  buffer_closed, insufficient_space, Op, op_write, op_unread, op_read, op_peek, op_clear, op_close,
  op_used, op_available, Reply, done, bytes_read, amount, failed,
}

pub record Fifo : Type 0 where
  pub items : List ℕ
  pub cap : ℕ
  pub closed : Bool

abbrev pub room : Fifo → ℕ
room q = q.cap - length q.items

-- The bytes taken from the front are the same for Read and Peek.
unfoldable pub step : Op → Fifo → Reply × Fifo
step (op_write d) q =
    if q.closed
    then (failed buffer_closed, q)
    else (if ltb (room q) (length d)
        then (failed (insufficient_space (length d) (room q)), q)
        else (done, record q { items = q.items ++ d }))
step (op_unread d) q =
    if ltb (room q) (length d) then (done, q) else (done, record q { items = d ++ q.items })
step (op_read n) q =
    if q.closed
    then (failed buffer_closed, q)
    else (bytes_read (take n q.items), record q { items = drop n q.items })
step (op_peek n) q =
    if q.closed then (failed buffer_closed, q) else (bytes_read (take n q.items), q)
step op_clear q = (done, record q { items = [] })
step op_close q = (done, record q { closed = true })
step op_used q = (amount (length q.items), q)
step op_available q = (amount (room q), q)

unfoldable pub run : List Op → Fifo → List Reply
run [] q = []
run (op ∷ ops) q = let (reply, q') = step op q in reply ∷ run ops q'
