-- ===== src/Fillp/Tests.antt =====
-- Packets, windows and retransmissions on concrete inputs.
use go_kitbox.Prelude.{ℕ, ◌≡◌, refl, true, false, List, [], ◌∷◌, length, replicate, none, arith}
use go_kitbox.Prelude.Int.{pos, ◌≤ℤ◌}
use go_kitbox.Prelude.Keys.{nat_eq}
use go_kitbox.Prelude.Maps.{lookup, insert}
use go_kitbox.Prelude.Run.{ok, Returns}
use go_kitbox.Congestion.Whole.{whole}
use go_kitbox.Fillp.Packet.{Packet, encode_packet, decode_packet}
use go_kitbox.Fillp.Packet.Codec.{decode-encode}
use go_kitbox.Fillp.Sending.{
  SendState, RttState, default_mtu, fragment_data, min_rto, max_rto, update_rtt,
}
use go_kitbox.Fillp.Sending.Windows.{
  IsOpen, Split, window_run, fragments_after_run, fragment_data_stuck, rto_bounds,
}
use go_kitbox.Fillp.Retransmission.{RetransmissionQueue, new_retransmission_queue, add, trim_up_to}
use go_kitbox.Fillp.Retransmission.{peek_earliest}
use go_kitbox.Fillp.Retransmission.Earliest.{Found, peek_earliest-Found}
use go_kitbox.Fillp.Retransmission.Lookups.{NoWrap, Keeps, trim_up_to-Keeps}

abbrev hello : Packet
hello = record {
  type = 0;
  flags = 1;
  sequence = 4294967295;
  ack = 258;
  window = 65536;
  timestamp = 70000;
  payload = 104 ∷ 105 ∷ [];
  checksum = 0;
}

hello_bytes :
    encode_packet hello
    ≡ 0 ∷ 1 ∷ 255 ∷ 255 ∷ 255 ∷ 255 ∷ 0 ∷ 0 ∷ 1 ∷ 2 ∷ 0 ∷ 1 ∷ 0 ∷ 0 ∷ 0 ∷ 1 ∷ 17 ∷ 112 ∷ 0 ∷ 0 ∷ 0
      ∷ 0 ∷ 104 ∷ 105 ∷ []
unfolding encode_packet
hello_bytes = refl

decode-encode_example : decode_packet (encode_packet hello) ≡ ok hello
decode-encode_example = decode-encode hello (record {
  sequence_fits = omega arith;
  ack_fits = omega arith;
  window_fits = omega arith;
  timestamp_fits = omega arith;
  checksum_fits = omega arith;
})

abbrev sending : SendState
sending = record { congestion_wnd = 1400; ssthresh = 65536; send_window = 65536 }

sending-IsOpen : IsOpen sending
sending-IsOpen = record {
  low = omega arith;
  high = omega arith;
  granted = omega arith;
  no_wrap = omega arith;
}

abbrev bytes : List ℕ
bytes = 1 ∷ 2 ∷ 3 ∷ []

fragments_after_run_example :
    Returns
      (λ c'. Split default_mtu bytes (fragment_data (length bytes) c'.congestion_wnd bytes))
      (window_run (true ∷ false ∷ true ∷ []) sending)
fragments_after_run_example =
    fragments_after_run (true ∷ false ∷ true ∷ []) sending bytes sending-IsOpen

fragment_data_stuck_example : fragment_data 1000 0 (7 ∷ []) ≡ none
fragment_data_stuck_example = fragment_data_stuck 1000 7 []

abbrev measured : RttState
measured = record { rto = pos 200000000; srtt = pos 30000000; rttvar = pos 15000000 }

rto_bounds_example :
    (min_rto ≤ℤ (update_rtt whole (pos 90000000) measured).rto)
    × ((update_rtt whole (pos 90000000) measured).rto ≤ℤ max_rto)
rto_bounds_example = rto_bounds whole (pos 90000000) measured

abbrev frame : List ℕ
frame = replicate 22 0

abbrev waiting : RetransmissionQueue
waiting = add 40 frame 1000 (add 30 frame 1000 new_retransmission_queue)

waiting-NoWrap : NoWrap waiting
unfolding lookup add insert new_retransmission_queue
waiting-NoWrap s e h = ground (arith, h)

trim_up_to-Keeps_example : Returns (Keeps 35 waiting) (trim_up_to 35 2000 waiting)
trim_up_to-Keeps_example = trim_up_to-Keeps 35 2000 waiting waiting-NoWrap

peek_earliest-Found_example : Found 4294967295 none waiting.packets (peek_earliest waiting)
peek_earliest-Found_example = peek_earliest-Found waiting
