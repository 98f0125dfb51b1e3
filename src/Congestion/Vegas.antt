-- ===== src/Congestion/Vegas.antt =====
-- VegasController of pkg/congestion/vegas.go.
use go_kitbox.Prelude.{ℕ, ◌+◌, ◌-◌, ◌*◌, ◌/◌, ◌||◌, ◌==◌, if◌then◌else◌}
use go_kitbox.Prelude.Int.{ℤ, pos}
use go_kitbox.Congestion.Float.{Floats}
use go_kitbox.Congestion.Base.{Base, new_base, on_packet_sent, take_ack, settle}

module _ (fl : Floats) where
  open fl use {Float, of_int, seconds, minus, over, to_int, lt}

  pub record Vegas : Type 0 where
    pub base : Base fl
    pub alpha : ℕ
    pub beta : ℕ
    pub expected_rate : Float

  unfoldable pub new_vegas : ℕ → ℕ → ℕ → ℕ → Vegas
  new_vegas initial_cwnd max_cwnd packet_size now = record {
    base = new_base fl initial_cwnd max_cwnd packet_size now;
    alpha = 3 * packet_size;
    beta = 6 * packet_size;
    expected_rate = of_int (pos 0);
  }

  unfoldable pub vegas_sent : ℕ → Vegas → Vegas
  vegas_sent size v = record v { base = on_packet_sent fl size v.base }

  -- The window that the difference of the two rates asks for, before it is clamped.
  abbrev pub vegas_window : Float → Vegas → ℕ
  vegas_window diff v =
      let b = v.base in
      if lt diff (of_int (pos v.alpha))
      then b.cwnd + b.packet_size
      else (if lt (of_int (pos v.beta)) diff then b.cwnd - b.packet_size else b.cwnd)

  unfoldable pub vegas_ack : ℕ → ℕ → ℕ → Vegas → Vegas
  vegas_ack size rtt now v =
      let b = take_ack fl size rtt v.base in
      let expected = over (of_int (pos b.cwnd)) (seconds b.min_rtt) in
      let v' = record v { base = b; expected_rate = expected } in
      let actual = over (of_int (pos size)) (seconds rtt) in
      if b.min_rtt == 0 || rtt == 0
      then record v { base = b }
      else record v' { base = settle fl now (vegas_window (minus expected actual) v') b }

  unfoldable pub vegas_lost : ℕ → Vegas → Vegas
  vegas_lost now v =
      let b = v.base in
      record v {
        base = settle fl now (b.cwnd / 2) (record b {
          lost_bytes = b.lost_bytes + b.packet_size;
          packets_lost = b.packets_lost + 1;
          ssthresh = b.cwnd / 2;
        });
      }

  unfoldable pub vegas_send_rate : Vegas → ℤ
  vegas_send_rate v = to_int v.expected_rate
