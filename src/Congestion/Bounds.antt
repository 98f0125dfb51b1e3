-- ===== src/Congestion/Bounds.antt =====
-- What the shared parts of the controllers keep: the window's bounds, and the bytes in flight.
use go_kitbox.Prelude.{ℕ, ◌*◌, ◌≤◌, ◌<◌, ◌≡◌, refl, ◌⊎◌, arith}
use go_kitbox.Prelude.Int.{pos, ◌+ℤ◌, ◌-ℤ◌}
use go_kitbox.Congestion.Float.{Floats}
use go_kitbox.Congestion.Base.{Base, take_ack, on_packet_sent, settle}

module _ {fl : Floats} where
  -- The window is at most the configured maximum, and at least two packets if that allows it.
  pub record InBounds (b : Base fl) : Type 0 where
    pub packet_positive : 0 < b.packet_size
    pub max_positive : 0 < b.max_cwnd
    pub high : b.cwnd ≤ b.max_cwnd
    pub low : (2 * b.packet_size ≤ b.cwnd) ⊎ (b.cwnd ≡ b.max_cwnd)

  -- What a step may not touch.
  pub record SameConfig (b b' : Base fl) : Type 0 where
    pub same_packet : b'.packet_size ≡ b.packet_size
    pub same_max : b'.max_cwnd ≡ b.max_cwnd

  pub InBounds-positive : {b : Base fl} → InBounds b → 0 < b.cwnd
  InBounds-positive v = ground arith

  pub take_ack_lem :
      (size rtt : ℕ) (b : Base fl)
      → let b' = take_ack fl size rtt b in
        SameConfig b b'
        × (b'.cwnd ≡ b.cwnd)
        × (b'.ssthresh ≡ b.ssthresh)
        × (b'.in_flight ≡ b.in_flight -ℤ pos size)
  unfolding take_ack
  take_ack_lem size rtt b = ground arith

  pub settle_lem :
      (now w : ℕ) (b : Base fl)
      → 0 < b.packet_size
      → 0 < b.max_cwnd
      → let b' = settle fl now w b in InBounds b' × SameConfig b b' × (b'.in_flight ≡ b.in_flight)
  unfolding settle
  settle_lem now w b p m = ground arith

  pub on_packet_sent_lem :
      (size : ℕ) (b : Base fl)
      → InBounds b
      → let b' = on_packet_sent fl size b in
        InBounds b' × (b'.cwnd ≡ b.cwnd) × (b'.in_flight ≡ b.in_flight +ℤ pos size)
  unfolding on_packet_sent
  on_packet_sent_lem size b v = (
    record {
      packet_positive = v.packet_positive;
      max_positive = v.max_positive;
      high = v.high;
      low = v.low;
    },
    refl,
    refl,
  )
