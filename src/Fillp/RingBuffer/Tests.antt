-- ===== src/Fillp/RingBuffer/Tests.antt =====
-- RingBuffer on concrete inputs.
use go_kitbox.Prelude.{◌≡◌, refl, List, [], ◌∷◌, arith}
use go_kitbox.Fillp.RingBuffer.{
  insufficient_space, buffer_closed, Op, op_write, op_unread, op_read, op_peek, op_close, op_used,
  done, bytes_read, amount, failed, write, read, peek, unread, close, used, new_ring_buffer, step,
  run,
}
use go_kitbox.Fillp.RingBuffer.Fifo
use go_kitbox.Fillp.RingBuffer.Inv.{new_ring_buffer-IsValid}
use go_kitbox.Fillp.RingBuffer.Refine.{abs, buffer_run_refines}

abbrev script : List Op
script =
    op_write (1 ∷ 2 ∷ 3 ∷ [])
    ∷ op_read 2
    ∷ op_write (4 ∷ 5 ∷ [])
    ∷ op_write (6 ∷ 7 ∷ [])
    ∷ op_peek 9
    ∷ op_unread (8 ∷ [])
    ∷ op_used
    ∷ op_read 2
    ∷ op_close
    ∷ op_read 1
    ∷ []

script_replies :
    run script (new_ring_buffer 4)
    ≡ done
      ∷ bytes_read (1 ∷ 2 ∷ [])
      ∷ done
      ∷ failed (insufficient_space 2 1)
      ∷ bytes_read (3 ∷ 4 ∷ 5 ∷ [])
      ∷ done
      ∷ amount 4
      ∷ bytes_read (8 ∷ 3 ∷ [])
      ∷ done
      ∷ failed buffer_closed
      ∷ []
unfolding run step new_ring_buffer write read peek unread close used
script_replies = refl

buffer_run_refines_example :
    run script (new_ring_buffer 4) ≡ Fifo.run script (abs (new_ring_buffer 4))
buffer_run_refines_example =
    buffer_run_refines script (new_ring_buffer 4) (new_ring_buffer-IsValid 4 (omega arith))
