-- ===== src/Congestion/Reno/Windows.antt =====
-- How Reno moves its window.
use go_kitbox.Prelude.{ℕ, ◌+◌, ◌*◌, ◌/◌, ◌<◌, ◌≡◌, refl, ◌∙◌, false, arith, ltb, ◌==◌}
use Prim.Native.Nat.{min, max}
use go_kitbox.Prelude.Int.{pos, ◌-ℤ◌}
use go_kitbox.Prelude.Run.{Returns, returns, Returns-bind, Returns-if}
use go_kitbox.Congestion.Float.{Floats}
use go_kitbox.Congestion.Base.{take_ack, settle}
use go_kitbox.Congestion.Bounds.{InBounds, InBounds-positive, SameConfig, take_ack_lem, settle_lem}
use go_kitbox.Congestion.Reno.{Reno, half_window, duplicate_ack, new_ack, reno_ack, reno_lost}

module _ {fl : Floats} where
  -- The branch taken keeps the configuration and the bytes in flight.
  abbrev Kept : Reno fl → ℕ × Reno fl → Type 0
  Kept r (w, r') = SameConfig r.base r'.base × (r'.base.in_flight ≡ r.base.in_flight)

  duplicate_ack-Kept : (r : Reno fl) → Kept r (duplicate_ack fl r)
  unfolding duplicate_ack
  duplicate_ack-Kept r = ground arith

  new_ack-Kept : (r : Reno fl) → 0 < r.base.cwnd → Returns (Kept r) (new_ack fl r)
  unfolding new_ack
  new_ack-Kept r h =
      let nonzero : (r.base.cwnd == 0) ≡ false = ground arith in
      Returns-if (ltb r.base.cwnd r.base.ssthresh) (λ slow. returns kept)
        (λ steady. rw nonzero (returns kept))
    where
      kept : SameConfig r.base r.base × (r.base.in_flight ≡ r.base.in_flight)
      kept = (record { same_packet = refl; same_max = refl }, refl)

  pub reno_ack_lem :
      (size rtt now : ℕ) (r : Reno fl)
      → InBounds r.base
      → Returns
          (λ r'. InBounds r'.base × (r'.base.in_flight ≡ r.base.in_flight -ℤ pos size))
          (reno_ack fl size rtt now r)
  unfolding reno_ack
  reno_ack_lem size rtt now r v =
      let b = take_ack fl size rtt r.base in
      let r' = record r { base = b } in
      let (same, window, ssthresh, flight) = take_ack_lem size rtt r.base in
      let pos_window : 0 < b.cwnd = omega (arith, InBounds-positive v, window) in
      Returns-bind
        (Returns-if (size == 0) (λ dup. returns (duplicate_ack-Kept r'))
          (λ fresh. new_ack-Kept r' pos_window))
        λ (w, r'') (kept, flight').
          let (bounds, same', flight'') =
            settle_lem now w r''.base (omega (arith, v, same, kept))
              (omega (arith, v, same, kept)) in
          returns (bounds, flight'' ∙ flight' ∙ flight)

  pub reno_lost_lem :
      (now : ℕ) (r : Reno fl)
      → InBounds r.base
      → InBounds (reno_lost fl now r).base
        × ((reno_lost fl now r).base.in_flight ≡ r.base.in_flight)
  unfolding reno_lost
  reno_lost_lem now r v =
      let (bounds, same, flight) =
        settle_lem now (half_window fl r.base)
          (record r.base {
            lost_bytes = r.base.lost_bytes + r.base.packet_size;
            packets_lost = r.base.packets_lost + 1;
            timeout_retransmits = r.base.timeout_retransmits + 1;
            ssthresh = half_window fl r.base;
          })
          v.packet_positive v.max_positive in
      (bounds, flight)

  -- A loss halves the window, but leaves two packets, or the maximum where that is less; slow
  -- start then ends at the half, and the timeout is counted.
  pub reno_lost_window :
      (now : ℕ) (r : Reno fl)
      → let b = r.base in
        let b' = (reno_lost fl now r).base in
        (b'.ssthresh ≡ max (b.cwnd / 2) (2 * b.packet_size))
        × (b'.cwnd ≡ min b.max_cwnd (max (b.cwnd / 2) (2 * b.packet_size)))
        × (b'.timeout_retransmits ≡ b.timeout_retransmits + 1)
  unfolding reno_lost settle
  reno_lost_window now r = ground arith

  -- The third duplicate ACK in a row counts a fast retransmission: slow start then ends at half the
  -- window, two packets at least, and the window asked for is that half and three packets more.
  pub duplicate_ack_third :
      (r : Reno fl)
      → r.dup_ack_count ≡ 2
      → let (w, r') = duplicate_ack fl r in
        (w ≡ max (r.base.cwnd / 2) (2 * r.base.packet_size) + 3 * r.base.packet_size)
        × (r'.base.ssthresh ≡ max (r.base.cwnd / 2) (2 * r.base.packet_size))
        × (r'.base.fast_retransmits ≡ r.base.fast_retransmits + 1)
  unfolding duplicate_ack
  duplicate_ack_third r h = ground arith
