-- ===== src/Congestion/Growth.antt =====
-- How far one acknowledgement moves the windows of Vegas, CUBIC and BBR.
use go_kitbox.Prelude.{ℕ, ◌+◌, ◌-◌, ◌≤◌, either_branch, ◌≡◌, refl, ap₂, ◌∙◌, ◌||◌, arith, ◌==◌}
use go_kitbox.Prelude.Int.{ℤ, pos}
use go_kitbox.Congestion.Float.{Floats}
use go_kitbox.Congestion.Base.{Base, take_ack, settle, clamp_window}
use go_kitbox.Congestion.Bounds.{InBounds, take_ack_lem}
use go_kitbox.Congestion.Vegas.{Vegas, vegas_ack, vegas_window}
use go_kitbox.Congestion.Cubic.{Cubic, cubic_ack, cubic_window}
use go_kitbox.Congestion.Bbr.{
  Bbr, BbrState, startup, drain, probe_bw, probe_rtt, bbr_ack, bbr_target, advance,
  update_bandwidth,
}

module _ {fl : Floats} where
  -- `settle` moves the window of a controller within its bounds no further than it is asked to.
  settle_between :
      (now w lo hi : ℕ) (b b' : Base fl)
      → InBounds b
      → b'.packet_size ≡ b.packet_size
      → b'.max_cwnd ≡ b.max_cwnd
      → lo ≤ b.cwnd
      → b.cwnd ≤ hi
      → lo ≤ w
      → w ≤ hi
      → (lo ≤ (settle fl now w b').cwnd) × ((settle fl now w b').cwnd ≤ hi)
  unfolding settle
  settle_between now w lo hi b b' v ep em l1 h1 l2 h2 = ground arith

  cubic_window_near :
      (now : ℕ) (s : Cubic fl)
      → (s.base.cwnd ≤ cubic_window fl now s)
        × (cubic_window fl now s ≤ s.base.cwnd + s.base.packet_size)
  unfolding cubic_window
  cubic_window_near now s = ground arith

  -- One acknowledgement never lowers the window of a CUBIC controller that is within its bounds,
  -- and raises it by a packet at most, wherever the target window is.
  pub cubic_ack_step :
      (n rtt now : ℕ) (s : Cubic fl)
      → InBounds s.base
      → (s.base.cwnd ≤ (cubic_ack fl n rtt now s).base.cwnd)
        × ((cubic_ack fl n rtt now s).base.cwnd ≤ s.base.cwnd + s.base.packet_size)
  unfolding cubic_ack
  cubic_ack_step n rtt now s v =
      let (same, window, _, flight) = take_ack_lem n rtt s.base in
      let s' = record s { base = take_ack fl n rtt s.base } in
      let (low, high) = cubic_window_near now s' in
      settle_between now (cubic_window fl now s') s.base.cwnd (s.base.cwnd + s.base.packet_size)
        s.base s'.base v same.same_packet same.same_max (omega arith) (omega arith)
        (omega (arith, low, window)) (omega (arith, high, window, same))

  vegas_window_near :
      (diff : fl.Float) (s : Vegas fl)
      → (s.base.cwnd - s.base.packet_size ≤ vegas_window fl diff s)
        × (vegas_window fl diff s ≤ s.base.cwnd + s.base.packet_size)
  vegas_window_near diff s = ground arith

  -- One acknowledgement moves the window of a Vegas controller that is within its bounds by a packet
  -- at most, up or down.
  pub vegas_ack_step :
      (n rtt now : ℕ) (s : Vegas fl)
      → InBounds s.base
      → (s.base.cwnd - s.base.packet_size ≤ (vegas_ack fl n rtt now s).base.cwnd)
        × ((vegas_ack fl n rtt now s).base.cwnd ≤ s.base.cwnd + s.base.packet_size)
  unfolding vegas_ack
  vegas_ack_step n rtt now s v =
      let (same, window, _, flight) = take_ack_lem n rtt s.base in
      let b = take_ack fl n rtt s.base in
      let expected = fl.over (fl.of_int (pos b.cwnd)) (fl.seconds b.min_rtt) in
      let s' = record s { base = b; expected_rate = expected } in
      let diff = fl.minus expected (fl.over (fl.of_int (pos n)) (fl.seconds rtt)) in
      let (low, high) = vegas_window_near diff s' in
      either_branch
        (λ (s' : Vegas fl).
          (s.base.cwnd - s.base.packet_size ≤ s'.base.cwnd)
          × (s'.base.cwnd ≤ s.base.cwnd + s.base.packet_size))
        (b.min_rtt == 0 || rtt == 0) (omega (arith, window))
        (settle_between now (vegas_window fl diff s') (s.base.cwnd - s.base.packet_size)
          (s.base.cwnd + s.base.packet_size) s.base b v same.same_packet same.same_max (omega arith)
          (omega arith) (omega (arith, low, window, same)) (omega (arith, high, window, same)))

  settle_window :
      (now w : ℕ) (b : Base fl)
      → (settle fl now w b).cwnd ≡ clamp_window fl b.packet_size b.max_cwnd w
  unfolding settle
  settle_window now w b = ground arith

  -- What the window is computed from.
  record SameTarget (s s' : Bbr fl) : Type 0 where
    bandwidth : s'.bw_estimate ≡ s.bw_estimate
    gain : s'.cwnd_gain ≡ s.cwnd_gain
    delay : s'.base.min_rtt ≡ s.base.min_rtt
    packet : s'.base.packet_size ≡ s.base.packet_size
    maximum : s'.base.max_cwnd ≡ s.base.max_cwnd

  advance-SameTarget :
      (state : BbrState) (current : ℤ) (now : ℕ) (s : Bbr fl)
      → SameTarget s (advance fl state current now s)
  advance-SameTarget startup current now s = ground arith
  advance-SameTarget drain current now s = ground arith
  advance-SameTarget probe_bw current now s = ground arith
  advance-SameTarget probe_rtt current now s = ground arith

  settle_target :
      (now : ℕ) (s s' : Bbr fl)
      → SameTarget s s'
      → (settle fl now (bbr_target fl s') s'.base).cwnd
        ≡ clamp_window fl s.base.packet_size s.base.max_cwnd (bbr_target fl s)
  unfolding bbr_target
  settle_target now s s' e =
      settle_window now (bbr_target fl s') s'.base
      ∙ rw (e.bandwidth, e.gain, e.delay, e.packet, e.maximum) refl

  -- In no state does the switch of BBR's OnAckReceived change the window that is set at the end of it:
  -- entering PROBE_RTT has no effect on the window.
  pub bbr_ack_window :
      (n rtt now : ℕ) (s : Bbr fl)
      → let current = fl.to_int (fl.over (fl.of_int (pos n)) (fl.seconds rtt)) in
        let s1 = update_bandwidth fl current (record s { base = take_ack fl n rtt s.base }) in
        (bbr_ack fl n rtt now s).base.cwnd
        ≡ clamp_window fl s.base.packet_size s.base.max_cwnd (bbr_target fl s1)
  unfolding bbr_ack
  bbr_ack_window n rtt now s =
      let current = fl.to_int (fl.over (fl.of_int (pos n)) (fl.seconds rtt)) in
      let s1 = update_bandwidth fl current (record s { base = take_ack fl n rtt s.base }) in
      let (same, _, _, _) = take_ack_lem n rtt s.base in
      settle_target now s1 (advance fl s1.state current now s1)
        (advance-SameTarget s1.state current now s1)
      ∙ ap₂ (λ p m. clamp_window fl p m (bbr_target fl s1)) same.same_packet same.same_max
