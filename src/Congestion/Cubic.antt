-- ===== src/Congestion/Cubic.antt =====
-- CubicController of pkg/congestion/cubic.go.
use go_kitbox.Prelude.{ℕ, ◌+◌, ◌-◌, ltb, ◌==◌, if◌then◌else◌}
use go_kitbox.Prelude.Int.{ℤ, pos, pos_part, ◌+ℤ◌, ◌-ℤ◌, ltb_ℤ}
use go_kitbox.Congestion.Float.{Floats}
use go_kitbox.Congestion.Base.{Base, new_base, on_packet_sent, take_ack, settle}

module _ (fl : Floats) where
  open fl use {Float, of_int, ratio, seconds, minus, times, over, pow, to_int}

  pub record CubicConfig : Type 0 where
    pub beta : Float
    pub c : Float

  unfoldable pub default_cubic_config : CubicConfig
  default_cubic_config = record { beta = ratio 7 10; c = ratio 4 10 }

  pub record Cubic : Type 0 where
    pub base : Base fl
    pub beta : Float
    pub c : Float
    pub last_max_cwnd : ℕ
    pub epoch_start : ℕ
    pub k : Float

  unfoldable pub new_cubic_with_config : CubicConfig → ℕ → ℕ → ℕ → ℕ → Cubic
  new_cubic_with_config config initial_cwnd max_cwnd packet_size now = record {
    base = new_base fl initial_cwnd max_cwnd packet_size now;
    beta = config.beta;
    c = config.c;
    last_max_cwnd = initial_cwnd;
    epoch_start = now;
    k = of_int (pos 0);
  }

  unfoldable pub cubic_sent : ℕ → Cubic → Cubic
  cubic_sent size s = record s { base = on_packet_sent fl size s.base }

  -- c * (elapsed - K)³ + lastMaxCWnd
  unfoldable pub target_window : ℕ → Cubic → ℤ
  target_window now s =
      let d = minus (seconds (now - s.epoch_start)) s.k in
      to_int (times (times (times s.c d) d) d) +ℤ pos s.last_max_cwnd

  -- The window before it is clamped. `target - cwnd` is positive where it is taken.
  unfoldable pub cubic_window : ℕ → Cubic → ℕ
  unfolding target_window
  cubic_window now s =
      let b = s.base in
      let inc = pos_part (target_window now s -ℤ pos b.cwnd) in
      if ltb b.cwnd b.ssthresh
      then b.cwnd + b.packet_size
      else (if ltb_ℤ (pos b.cwnd) (target_window now s)
          then b.cwnd + (if ltb b.packet_size inc then b.packet_size else inc)
          else b.cwnd)

  unfoldable pub cubic_ack : ℕ → ℕ → ℕ → Cubic → Cubic
  unfolding cubic_window
  cubic_ack size rtt now s =
      let s' = record s { base = take_ack fl size rtt s.base } in
      record s' { base = settle fl now (cubic_window now s') s'.base }

  unfoldable pub cubic_lost : ℕ → Cubic → Cubic
  cubic_lost now s =
      let b = s.base in
      let reduced = pos_part (to_int (times (of_int (pos b.cwnd)) s.beta)) in
      record s {
        base = settle fl now reduced (record b {
          lost_bytes = b.lost_bytes + b.packet_size;
          packets_lost = b.packets_lost + 1;
          ssthresh = reduced;
        });
        last_max_cwnd = b.cwnd;
        epoch_start = now;
        k = pow (over (of_int (pos b.cwnd -ℤ pos reduced)) s.c) (ratio 1 3);
      }

  unfoldable pub cubic_send_rate : Cubic → ℤ
  cubic_send_rate s =
      if s.base.rtt == 0
      then pos 0
      else to_int (over (of_int (pos s.base.cwnd)) (seconds s.base.rtt))
