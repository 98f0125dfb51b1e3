-- ===== src/Congestion/Bbr.antt =====
-- BBRController of pkg/congestion/bbr.go.
use go_kitbox.Prelude.{ℕ, ◌+◌, ◌-◌, ◌*◌, List, [], ◌∷◌, ◌++◌, length, drop, ltb, if◌then◌else◌}
use go_kitbox.Prelude.Int.{ℤ, pos, pos_part, ltb_ℤ}
use go_kitbox.Congestion.Float.{Floats}
use go_kitbox.Congestion.Base.{Base, new_base, on_packet_sent, take_ack, settle}

pub data BbrState : Type 0 where
  startup drain probe_bw probe_rtt : BbrState

module _ (fl : Floats) where
  open fl use {Float, of_int, ratio, seconds, times, over, to_int, lt}

  pub record Bbr : Type 0 where
    pub base : Base fl
    pub bw_estimate : Float
    pub bw_samples : List ℤ
    pub max_samples : ℕ
    pub pacing_gain : Float
    pub cwnd_gain : Float
    pub state : BbrState
    pub probe_rtt_start : ℕ
    pub last_probe_rtt : ℕ

  unfoldable pub new_bbr : ℕ → ℕ → ℕ → ℕ → Bbr
  new_bbr initial_cwnd max_cwnd packet_size now = record {
    base = new_base fl initial_cwnd max_cwnd packet_size now;
    bw_estimate = of_int (pos 0);
    bw_samples = [];
    max_samples = 10;
    pacing_gain = ratio 20 10;
    cwnd_gain = ratio 20 10;
    state = startup;
    probe_rtt_start = 0;
    last_probe_rtt = now;
  }

  unfoldable pub bbr_sent : ℕ → Bbr → Bbr
  bbr_sent size s = record s { base = on_packet_sent fl size s.base }

  -- the loop over the samples
  unfoldable pub max_sample : ℤ → List ℤ → ℤ
  max_sample best [] = best
  max_sample best (bw ∷ rest) = max_sample (if ltb_ℤ best bw then bw else best) rest

  unfoldable pub update_bandwidth : ℤ → Bbr → Bbr
  unfolding max_sample
  update_bandwidth rate s =
      let all = s.bw_samples ++ rate ∷ [] in
      let kept = if ltb s.max_samples (length all) then drop 1 all else all in
      record s { bw_samples = kept; bw_estimate = of_int (max_sample (pos 0) kept) }

  -- the switch of OnAckReceived, by the state
  abbrev pub advance : BbrState → ℤ → ℕ → Bbr → Bbr
  advance startup current now s =
      if lt (of_int current) (times s.bw_estimate (ratio 9 10))
      then record s { state = drain; pacing_gain = ratio 5 10 }
      else s
  advance drain current now s =
      if ltb_ℤ s.base.in_flight (to_int (times s.bw_estimate (seconds s.base.min_rtt)))
      then record s { state = probe_bw; pacing_gain = ratio 125 100 }
      else s
  advance probe_bw current now s =
      if ltb 10000000000 (now - s.last_probe_rtt)
      then record s {
        state = probe_rtt;
        probe_rtt_start = now;
        last_probe_rtt = now;
        base = record s.base { cwnd = s.base.packet_size * 4 };
      }
      else s
  advance probe_rtt current now s =
      if ltb 200000000 (now - s.probe_rtt_start) then record s { state = probe_bw } else s

  unfoldable pub bbr_target : Bbr → ℕ
  bbr_target s =
      pos_part (to_int (times (times s.bw_estimate (seconds s.base.min_rtt)) s.cwnd_gain))

  unfoldable pub bbr_ack : ℕ → ℕ → ℕ → Bbr → Bbr
  unfolding update_bandwidth bbr_target
  bbr_ack size rtt now s =
      let current = to_int (over (of_int (pos size)) (seconds rtt)) in
      let s1 = update_bandwidth current (record s { base = take_ack fl size rtt s.base }) in
      let s2 = advance s1.state current now s1 in
      record s2 { base = settle fl now (bbr_target s2) s2.base }

  unfoldable pub bbr_lost : ℕ → Bbr → Bbr
  bbr_lost now s =
      let b = s.base in
      record s {
        base =
            settle fl now (pos_part (to_int (times (of_int (pos b.cwnd)) (ratio 9 10)))) (record b {
              lost_bytes = b.lost_bytes + b.packet_size;
              packets_lost = b.packets_lost + 1;
            });
      }

  unfoldable pub bbr_send_rate : Bbr → ℤ
  bbr_send_rate s = to_int (times s.bw_estimate s.pacing_gain)
