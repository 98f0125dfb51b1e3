-- ===== src/Fillp/Sending.antt =====
-- How much pkg/fillp/connection.go sends at once: fragmentData, updateCongestionWindow and updateRTT.
pub mod Windows
use go_kitbox.Prelude.{
  ℕ, zero, suc, ◌+◌, ◌-◌, ◌*◌, ◌/◌, ◌%◌, Bool, true, false, List, [], ◌∷◌, length, take, drop,
  Option, none, some, ltb, ◌==◌, if◌then◌else◌,
}
use go_kitbox.Prelude.Int.{ℤ, pos, negsuc, ◌+ℤ◌, ◌-ℤ◌, ltb_ℤ}
use go_kitbox.Prelude.Run.{Run, ok, panic}
use go_kitbox.Congestion.Float.{Floats}

abbrev pub default_mtu : ℕ
default_mtu = 1400

-- The loop of fragmentData on fuel; without enough of it there is no result.
unfoldable pub fragment_loop : ℕ → ℕ → List ℕ → Option (List (List ℕ))
fragment_loop fuel max_size [] = some []
fragment_loop zero max_size (x ∷ xs) = none
fragment_loop (suc fuel) max_size (x ∷ xs) =
    let bytes = x ∷ xs in
    let size = if ltb max_size (length bytes) then max_size else length bytes in
    elim (fragment_loop fuel max_size (drop size bytes)) as (λ r. Option (List (List ℕ))) [
      | none ↦ none
      | some fragments ↦ some (take size bytes ∷ fragments)
    ]

-- fragmentData of a connection with the congestion window given.
unfoldable pub fragment_data : ℕ → ℕ → List ℕ → Option (List (List ℕ))
unfolding fragment_loop
fragment_data fuel congestion_wnd bytes =
    fragment_loop fuel (if ltb default_mtu congestion_wnd then default_mtu else congestion_wnd)
      bytes

-- The fields of Connection for the built-in congestion control, each a uint32.
pub record SendState : Type 0 where
  pub congestion_wnd : ℕ
  pub ssthresh : ℕ
  pub send_window : ℕ

-- `c.congestionWnd += d` on a uint32
abbrev pub grow : ℕ → SendState → SendState
grow d c = record c { congestion_wnd = (c.congestion_wnd + d) % 4294967296 }

abbrev pub cap_window : SendState → SendState
cap_window c =
    if ltb c.send_window c.congestion_wnd then record c { congestion_wnd = c.send_window } else c

unfoldable pub update_congestion_window : Bool → SendState → Run ⊥ SendState
update_congestion_window true c =
    if ltb c.congestion_wnd c.ssthresh
    then ok (cap_window (grow default_mtu c))
    else (if c.congestion_wnd == 0
        then panic
        else ok (cap_window (grow (default_mtu * default_mtu / c.congestion_wnd) c)))
update_congestion_window false c =
    let half = c.congestion_wnd / 2 in
    let ssthresh = if ltb half (default_mtu * 2) then default_mtu * 2 else half in
    ok (record c { ssthresh = ssthresh; congestion_wnd = ssthresh })

-- time.Duration in nanoseconds
pub record RttState : Type 0 where
  pub rto : ℤ
  pub srtt : ℤ
  pub rttvar : ℤ

abbrev pub abs : ℤ → ℤ
abs d = if ltb_ℤ d (pos 0) then pos 0 -ℤ d else d

-- `/ 2` on an int64 drops the fraction.
abbrev pub half : ℤ → ℤ
half (pos n) = pos (n / 2)
half (negsuc n) = pos 0 -ℤ pos ((n + 1) / 2)

abbrev pub is_zero : ℤ → Bool
is_zero (pos n) = n == 0
is_zero (negsuc n) = false

abbrev pub min_rto : ℤ
min_rto = pos 50000000

abbrev pub max_rto : ℤ
max_rto = pos 10000000000

abbrev pub clamp_rto : ℤ → ℤ
clamp_rto rto = if ltb_ℤ rto min_rto then min_rto else (if ltb_ℤ max_rto rto then max_rto else rto)

module _ (fl : Floats) where
  open fl use {of_int, ratio, minus, plus, times, to_int}

  -- The smoothed values before the timeout is computed.
  unfoldable pub smooth : ℤ → RttState → RttState
  smooth rtt c =
      let alpha = ratio 125 1000 in
      let beta = ratio 25 100 in
      let one = of_int (pos 1) in
      if is_zero c.srtt then record c { srtt = rtt; rttvar = half rtt } else record c {
        rttvar = to_int (
            plus (times (minus one beta) (of_int c.rttvar))
              (times beta (of_int (abs (c.srtt -ℤ rtt)))));
        srtt = to_int (plus (times (minus one alpha) (of_int c.srtt)) (times alpha (of_int rtt)));
      }

  -- 4 * rttvar is written as a sum. Durations do not overflow here: that takes 2^63 ns.
  unfoldable pub update_rtt : ℤ → RttState → RttState
  unfolding smooth
  update_rtt rtt c =
      let c' = smooth rtt c in
      record c' { rto = clamp_rto (c'.srtt +ℤ (c'.rttvar +ℤ c'.rttvar +ℤ c'.rttvar +ℤ c'.rttvar)) }
