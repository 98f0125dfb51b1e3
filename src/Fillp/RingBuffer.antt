-- ===== src/Fillp/RingBuffer.antt =====
-- RingBuffer of pkg/fillp/buffer.go, the byte buffer on either side of a connection. The mutex is
-- held for the whole of each method, so a method is one step. Lengths and indices are ints that
-- never turn negative here; a byte is any number, as bytes are only moved.
pub mod Fifo
pub mod Inv
pub mod PutBack
pub mod Refine
mod Tests
use go_kitbox.Prelude.{
  ℕ, zero, suc, ◌+◌, ◌-◌, Bool, true, false, List, [], ◌∷◌, length, replicate, ltb, ◌==◌,
  if◌then◌else◌,
}
use go_kitbox.Prelude.Run.{Run, ok, err, panic, ◌>>=◌, load, store, rem}

pub record RingBuffer : Type 0 where
  pub bytes : List ℕ  -- the field `data`
  pub size : ℕ
  pub head : ℕ
  pub tail : ℕ
  pub count : ℕ
  pub is_closed : Bool

pub data BufferError : Type 0 where
  buffer_closed : BufferError
  insufficient_space : ℕ → ℕ → BufferError

unfoldable pub new_ring_buffer : ℕ → RingBuffer
new_ring_buffer size = record {
  bytes = replicate size 0;
  size = size;
  head = 0;
  tail = 0;
  count = 0;
  is_closed = false;
}

unfoldable pub available : RingBuffer → ℕ
available rb = rb.size - rb.count

-- the loop of Write
pub write_loop : List ℕ → RingBuffer → Run BufferError RingBuffer
write_loop [] rb = ok rb
write_loop (b ∷ bs) rb = do
  bytes ← store rb.bytes rb.tail b
  tail ← rem (rb.tail + 1) rb.size
  write_loop bs (record rb { bytes = bytes; tail = tail; count = rb.count + 1 })

unfoldable pub write : RingBuffer → List ℕ → Run BufferError RingBuffer
unfolding write_loop available
write rb d =
    if rb.is_closed
    then err buffer_closed
    else (if ltb (available rb) (length d)
        then err (insufficient_space (length d) (available rb))
        else write_loop d rb)

-- the loop of Read, over the rounds that are left
pub read_loop : ℕ → RingBuffer → Run BufferError (List ℕ × RingBuffer)
read_loop zero rb = ok ([], rb)
read_loop (suc n) rb = do
  b ← load 0 rb.bytes rb.head
  head ← rem (rb.head + 1) rb.size
  (bs, rb') ← read_loop n (record rb { head = head; count = rb.count - 1 })
  ok (b ∷ bs, rb')

unfoldable pub read : RingBuffer → ℕ → Run BufferError (List ℕ × RingBuffer)
unfolding read_loop
read rb size =
    if rb.is_closed
    then err buffer_closed
    else (let n = if ltb rb.count size then rb.count else size in
        if n == 0 then ok ([], rb) else read_loop n rb)

-- the loop of Peek, with its own head
pub peek_loop : ℕ → RingBuffer → ℕ → Run BufferError (List ℕ)
peek_loop zero rb head = ok []
peek_loop (suc n) rb head = do
  b ← load 0 rb.bytes head
  next ← rem (head + 1) rb.size
  bs ← peek_loop n rb next
  ok (b ∷ bs)

unfoldable pub peek : RingBuffer → ℕ → Run BufferError (List ℕ)
unfolding peek_loop
peek rb size =
    if rb.is_closed
    then err buffer_closed
    else (let n = if ltb rb.count size then rb.count else size in
        if n == 0 then ok [] else peek_loop n rb rb.head)

-- the loop of Unread: `suc i` bytes of `d` are still to be put back, the last of them first
pub unread_loop : List ℕ → ℕ → RingBuffer → Run BufferError RingBuffer
unread_loop d zero rb = ok rb
unread_loop d (suc i) rb = do
  head ← rem (rb.head + length rb.bytes - 1) (length rb.bytes)
  b ← load 0 d i
  bytes ← store rb.bytes head b
  unread_loop d i (record rb { bytes = bytes; head = head; count = rb.count + 1 })

-- Unread does not ask whether the buffer is closed.
unfoldable pub unread : RingBuffer → List ℕ → Run BufferError RingBuffer
unfolding unread_loop available
unread rb d = if ltb (available rb) (length d) then ok rb else unread_loop d (length d) rb

unfoldable pub used : RingBuffer → ℕ
used rb = rb.count

unfoldable pub clear : RingBuffer → RingBuffer
clear rb = record rb { head = 0; tail = 0; count = 0 }

unfoldable pub close : RingBuffer → RingBuffer
close rb = record rb { is_closed = true }

-- A call, and what its caller sees of it.
pub data Op : Type 0 where
  op_write op_unread : List ℕ → Op
  op_read op_peek : ℕ → Op
  op_clear op_close op_used op_available : Op

pub data Reply : Type 0 where
  done : Reply
  bytes_read : List ℕ → Reply
  amount : ℕ → Reply
  failed : BufferError → Reply
  panicked : Reply

abbrev pub settle : RingBuffer → Run BufferError RingBuffer → Reply × RingBuffer
settle rb (ok rb') = (done, rb')
settle rb (err e) = (failed e, rb)
settle rb panic = (panicked, rb)

abbrev pub settle_read : RingBuffer → Run BufferError (List ℕ × RingBuffer) → Reply × RingBuffer
settle_read rb (ok (bs, rb')) = (bytes_read bs, rb')
settle_read rb (err e) = (failed e, rb)
settle_read rb panic = (panicked, rb)

abbrev pub settle_peek : RingBuffer → Run BufferError (List ℕ) → Reply × RingBuffer
settle_peek rb (ok bs) = (bytes_read bs, rb)
settle_peek rb (err e) = (failed e, rb)
settle_peek rb panic = (panicked, rb)

unfoldable pub step : Op → RingBuffer → Reply × RingBuffer
step (op_write d) rb = settle rb (write rb d)
step (op_unread d) rb = settle rb (unread rb d)
step (op_read n) rb = settle_read rb (read rb n)
step (op_peek n) rb = settle_peek rb (peek rb n)
step op_clear rb = (done, clear rb)
step op_close rb = (done, close rb)
step op_used rb = (amount (used rb), rb)
step op_available rb = (amount (available rb), rb)

unfoldable pub run : List Op → RingBuffer → List Reply
run [] rb = []
run (op ∷ ops) rb = let (reply, rb') = step op rb in reply ∷ run ops rb'
