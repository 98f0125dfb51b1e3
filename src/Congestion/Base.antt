-- ===== src/Congestion/Base.antt =====
-- BaseController of pkg/congestion/controller.go, which every algorithm embeds. Sizes, durations
-- (in ns) and times are numbers; the bytes in flight may go below zero. A window that an algorithm
-- computes below zero is cut to 0 here: set_congestion_window raises both to the same lower bound.
-- The smoothed RTT, a mean of two durations, is not below zero.
use go_kitbox.Prelude.{ℕ, ◌+◌, ◌-◌, ◌*◌, ltb, ◌==◌, if◌then◌else◌}
use go_kitbox.Prelude.Int.{ℤ, pos, pos_part, ◌+ℤ◌, ◌-ℤ◌}
use go_kitbox.Congestion.Float.{Floats}

module _ (fl : Floats) where
  open fl use {Float, of_int, ratio, seconds, plus, times, over, to_int}

  -- CongestionStats without CurrentState, which only BBR sets and which is its state.
  pub record Stats : Type 0 where
    pub congestion_window : ℕ
    pub ssthresh : ℕ
    pub rtt : ℕ
    pub min_rtt : ℕ
    pub loss_rate : Float
    pub send_rate : ℤ
    pub in_flight : ℤ
    pub packets_sent : ℕ
    pub packets_lost : ℕ
    pub fast_retransmits : ℕ
    pub timeout_retransmits : ℕ

  pub record Base : Type 0 where
    pub cwnd : ℕ
    pub ssthresh : ℕ
    pub rtt : ℕ
    pub min_rtt : ℕ
    pub in_flight : ℤ
    pub max_cwnd : ℕ
    pub packet_size : ℕ
    pub stats : Stats
    pub sent_bytes : ℕ
    pub acked_bytes : ℕ
    pub lost_bytes : ℕ
    pub last_update : ℕ
    pub packets_sent : ℕ
    pub packets_lost : ℕ
    pub fast_retransmits : ℕ
    pub timeout_retransmits : ℕ

  unfoldable pub zero_stats : Stats
  zero_stats = record {
    congestion_window = 0;
    ssthresh = 0;
    rtt = 0;
    min_rtt = 0;
    loss_rate = of_int (pos 0);
    send_rate = pos 0;
    in_flight = pos 0;
    packets_sent = 0;
    packets_lost = 0;
    fast_retransmits = 0;
    timeout_retransmits = 0;
  }

  unfoldable pub new_base : ℕ → ℕ → ℕ → ℕ → Base
  unfolding zero_stats
  new_base initial_cwnd max_cwnd packet_size now = record {
    cwnd = initial_cwnd;
    ssthresh = 65536;
    rtt = 0;
    min_rtt = 0;
    in_flight = pos 0;
    max_cwnd = max_cwnd;
    packet_size = packet_size;
    stats = zero_stats;
    sent_bytes = 0;
    acked_bytes = 0;
    lost_bytes = 0;
    last_update = now;
    packets_sent = 0;
    packets_lost = 0;
    fast_retransmits = 0;
    timeout_retransmits = 0;
  }

  unfoldable pub update_rtt : ℕ → Base → Base
  update_rtt new_rtt b =
      if b.rtt == 0 then record b { rtt = new_rtt; min_rtt = new_rtt } else record b {
        rtt = pos_part (
            to_int (
              plus (times (ratio 875 1000) (of_int (pos b.rtt)))
                (times (ratio 125 1000) (of_int (pos new_rtt)))));
        min_rtt = if ltb new_rtt b.min_rtt then new_rtt else b.min_rtt;
      }

  -- The rate, and the controller with its byte counter started anew.
  unfoldable pub calculate_send_rate : ℕ → Base → ℤ × Base
  calculate_send_rate now b = if now - b.last_update == 0 then (pos 0, b) else (
    to_int (over (of_int (pos b.acked_bytes)) (seconds (now - b.last_update))),
    record b { last_update = now; acked_bytes = 0 },
  )

  unfoldable pub update_stats : ℕ → Base → Base
  unfolding calculate_send_rate
  update_stats now b =
      let (rate, b') = calculate_send_rate now b in
      record b' {
        stats = record {
          congestion_window = b'.cwnd;
          ssthresh = b'.ssthresh;
          rtt = b'.rtt;
          min_rtt = b'.min_rtt;
          loss_rate =
              if ltb 0 b'.sent_bytes
              then over (of_int (pos b'.lost_bytes)) (of_int (pos b'.sent_bytes))
              else b'.stats.loss_rate;
          send_rate = rate;
          in_flight = b'.in_flight;
          packets_sent = b'.packets_sent;
          packets_lost = b'.packets_lost;
          fast_retransmits = b'.fast_retransmits;
          timeout_retransmits = b'.timeout_retransmits;
        };
      }

  -- the two bounds of setCongestionWindow, in its order
  abbrev pub clamp_window : ℕ → ℕ → ℕ → ℕ
  clamp_window packet_size max_cwnd cwnd =
      let raised = if ltb cwnd (2 * packet_size) then 2 * packet_size else cwnd in
      if ltb max_cwnd raised then max_cwnd else raised

  unfoldable pub set_congestion_window : ℕ → Base → Base
  set_congestion_window cwnd b = record b { cwnd = clamp_window b.packet_size b.max_cwnd cwnd }

  -- OnPacketSent, the same in every algorithm.
  unfoldable pub on_packet_sent : ℕ → Base → Base
  on_packet_sent size b = record b {
    in_flight = b.in_flight +ℤ pos size;
    sent_bytes = b.sent_bytes + size;
    packets_sent = b.packets_sent + 1;
  }

  -- The first lines of OnAckReceived, the same in every algorithm.
  unfoldable pub take_ack : ℕ → ℕ → Base → Base
  unfolding update_rtt
  take_ack size rtt b =
      update_rtt rtt
        (record b { in_flight = b.in_flight -ℤ pos size; acked_bytes = b.acked_bytes + size })

  -- The last lines of the handlers: the window is clamped, and then the statistics are taken.
  unfoldable pub settle : ℕ → ℕ → Base → Base
  unfolding set_congestion_window update_stats
  settle now cwnd b = update_stats now (set_congestion_window cwnd b)
