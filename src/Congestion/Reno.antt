-- ===== src/Congestion/Reno.antt =====
-- RenoController of pkg/congestion/reno.go. A handler holds the mutex throughout.
pub mod Windows
use go_kitbox.Prelude.{ℕ, ◌+◌, ◌-◌, ◌*◌, ◌/◌, ltb, ◌==◌, if◌then◌else◌}
use go_kitbox.Prelude.Run.{Run, ok, panic, ◌>>=◌}
use go_kitbox.Prelude.Int.{ℤ, pos}
use go_kitbox.Congestion.Float.{Floats}
use go_kitbox.Congestion.Base.{Base, new_base, on_packet_sent, take_ack, settle}

-- `a / b` on non-negative ints
unfoldable pub quot : ℕ → ℕ → Run ⊥ ℕ
quot a b = if b == 0 then panic else ok (a / b)

module _ (fl : Floats) where
  open fl use {of_int, seconds, over, to_int}

  pub record Reno : Type 0 where
    pub base : Base fl
    pub dup_ack_count : ℕ

  unfoldable pub new_reno : ℕ → ℕ → ℕ → ℕ → Reno
  new_reno initial_cwnd max_cwnd packet_size now = record {
    base = new_base fl initial_cwnd max_cwnd packet_size now;
    dup_ack_count = 0;
  }

  unfoldable pub reno_sent : ℕ → Reno → Reno
  reno_sent size r = record r { base = on_packet_sent fl size r.base }

  -- half the window, but two packets at least
  abbrev pub half_window : Base fl → ℕ
  half_window b = if ltb (b.cwnd / 2) (2 * b.packet_size) then 2 * b.packet_size else b.cwnd / 2

  -- The branches of OnAckReceived: the window before it is clamped.
  unfoldable pub duplicate_ack : Reno → ℕ × Reno
  duplicate_ack r =
      let b = r.base in
      let n = r.dup_ack_count + 1 in
      if n == 3
      then (
        half_window b + 3 * b.packet_size,
        record r {
          base = record b { fast_retransmits = b.fast_retransmits + 1; ssthresh = half_window b };
          dup_ack_count = n;
        },
      )
      else ((if ltb 3 n then b.cwnd + b.packet_size else b.cwnd), record r { dup_ack_count = n })

  unfoldable pub new_ack : Reno → Run ⊥ (ℕ × Reno)
  unfolding quot
  new_ack r =
      let b = r.base in
      if ltb b.cwnd b.ssthresh
      then ok (b.cwnd + b.packet_size, record r { dup_ack_count = 0 })
      else (quot (b.packet_size * b.packet_size) b.cwnd >>= λ step.
          ok (b.cwnd + step, record r { dup_ack_count = 0 }))

  unfoldable pub reno_ack : ℕ → ℕ → ℕ → Reno → Run ⊥ Reno
  unfolding duplicate_ack new_ack
  reno_ack size rtt now r = do
    let r' = record r { base = take_ack fl size rtt r.base }
    (cwnd, r'') ← if size == 0 then ok (duplicate_ack r') else new_ack r'
    ok (record r'' { base = settle fl now cwnd r''.base })

  unfoldable pub reno_lost : ℕ → Reno → Reno
  reno_lost now r =
      let b = r.base in
      record r {
        base = settle fl now (half_window b) (record b {
          lost_bytes = b.lost_bytes + b.packet_size;
          packets_lost = b.packets_lost + 1;
          timeout_retransmits = b.timeout_retransmits + 1;
          ssthresh = half_window b;
        });
      }

  unfoldable pub reno_send_rate : Reno → ℤ
  reno_send_rate r =
      if r.base.rtt == 0
      then pos 0
      else to_int (over (of_int (pos r.base.cwnd)) (seconds r.base.rtt))
