-- ===== src/Fillp/Sending/Windows.antt =====
-- The window stays positive, so fragmentData ends, with fragments of at most an MTU.
use go_kitbox.Prelude.{
  ℕ, zero, suc, ◌+◌, ◌*◌, ◌/◌, ◌≤◌, ◌<◌, ◌≡◌, refl, ap, ◌∙◌, Bool, true, false, List, [], ◌∷◌, ◌++◌,
  length, take, drop, take-append-drop, length-drop, length-take_le, Option, none, some, ltb, ◌==◌,
  if◌then◌else◌, arith,
}
use mathlib.Core.Path.{subst}
use native.Mathlib.Nat.{div-lt_iff_lt-mul}
use go_kitbox.Prelude.Int.{ℤ, ◌≤ℤ◌}
use go_kitbox.Prelude.Run.{Run, ok, ◌>>=◌, Returns, returns, Returns-bind, Returns-map, Returns-if}
use go_kitbox.Congestion.Float.{Floats}
use go_kitbox.Fillp.Sending.{
  SendState, RttState, default_mtu, fragment_loop, fragment_data, update_congestion_window,
  cap_window, grow, min_rto, max_rto, update_rtt,
}

-- A window that may be sent in: at least a packet, at most what the peer grants.
pub record IsOpen (c : SendState) : Type 0 where
  pub low : default_mtu ≤ c.congestion_wnd
  pub high : c.congestion_wnd ≤ c.send_window
  pub granted : 2 * default_mtu ≤ c.send_window
  pub no_wrap : c.send_window + default_mtu < 4294967296

growth_small : (w : ℕ) → default_mtu ≤ w → default_mtu * default_mtu / w ≤ default_mtu
growth_small w h = omega (
  arith,
  (div-lt_iff_lt-mul {k = w} {x = default_mtu * default_mtu} {y = default_mtu + 1} (omega arith)).1
      (omega arith),
)

cap_IsOpen :
    (d : ℕ) (c : SendState)
    → IsOpen c
    → d ≤ default_mtu
    → IsOpen (cap_window (grow d c)) × ((cap_window (grow d c)).send_window ≡ c.send_window)
cap_IsOpen d c v h = ground (arith, v)

update_IsOpen :
    (ack : Bool) (c : SendState)
    → IsOpen c
    → Returns (λ c'. IsOpen c' × (c'.send_window ≡ c.send_window)) (update_congestion_window ack c)
unfolding update_congestion_window
update_IsOpen true c v =
    Returns-if (ltb c.congestion_wnd c.ssthresh)
      (λ _. returns (cap_IsOpen default_mtu c v (omega arith)))
      (λ _.
        Returns-if (c.congestion_wnd == 0) (λ e. absurd (ground (arith, v)))
          (λ _. returns (
            cap_IsOpen (default_mtu * default_mtu / c.congestion_wnd) c v
              (growth_small c.congestion_wnd v.low))))
update_IsOpen false c v = returns (ground arith)

pub data AllSized (n : ℕ) : List (List ℕ) → Type 0 where
  no_more : AllSized n []
  sized :
      {xs : List ℕ} {xss : List (List ℕ)}
      → 0 < length xs
      → length xs ≤ n
      → AllSized n xss
      → AllSized n (xs ∷ xss)

abbrev pub concat : List (List ℕ) → List ℕ
concat [] = []
concat (xs ∷ xss) = xs ++ concat xss

abbrev pub Split : ℕ → List ℕ → Option (List (List ℕ)) → Type 0
Split n bytes r = (xss : List (List ℕ)) × (r ≡ some xss) × (concat xss ≡ bytes) × AllSized n xss

fragment_loop-Split :
    (fuel n : ℕ) (bytes : List ℕ)
    → 0 < n
    → length bytes ≤ fuel
    → Split n bytes (fragment_loop fuel n bytes)
unfolding fragment_loop
fragment_loop-Split fuel n [] p h = ([], refl, refl, no_more)
fragment_loop-Split zero n (x ∷ xs) p h = absurd (omega arith)
fragment_loop-Split (suc fuel) n (x ∷ xs) p h =
    let bytes = x ∷ xs in
    let size = if ltb n (length bytes) then n else length bytes in
    let facts : (0 < size) × (size ≤ n) × (size ≤ length bytes) = ground arith in
    let (xss, e, whole, each) =
      fragment_loop-Split fuel n (drop size bytes) p
        (omega (arith, length-drop size bytes, facts, h)) in
    let taken = length-take_le size bytes facts.2 in
    (
      take size bytes ∷ xss,
      rw (e, fragment_loop) refl,
      ap (λ ys. take size bytes ++ ys) whole ∙ take-append-drop size bytes,
      sized (omega (arith, taken, facts)) (omega (arith, taken, facts)) each,
    )

-- Acknowledgements (true) and losses (false), one after the other.
unfoldable pub window_run : List Bool → SendState → Run ⊥ SendState
window_run [] c = ok c
window_run (ack ∷ acks) c = update_congestion_window ack c >>= λ c'. window_run acks c'

window_run-IsOpen :
    (acks : List Bool) (c : SendState) → IsOpen c → Returns IsOpen (window_run acks c)
unfolding window_run
window_run-IsOpen [] c v = returns v
window_run-IsOpen (ack ∷ acks) c v =
    Returns-bind (update_IsOpen ack c v) λ c' (v', _). window_run-IsOpen acks c' v'

fragment_data-Split :
    (c : SendState) (bytes : List ℕ)
    → IsOpen c
    → Split default_mtu bytes (fragment_data (length bytes) c.congestion_wnd bytes)
unfolding fragment_data
fragment_data-Split c bytes v =
    subst (λ n. Split default_mtu bytes (fragment_loop (length bytes) n bytes)) (ground (arith, v))
      (fragment_loop-Split (length bytes) default_mtu bytes (omega arith) (omega arith))

-- From a window of at least a packet, within the peer's grant of at least two packets that leaves a
-- packet's room below 2^32, no sequence of acknowledgements and losses divides by zero, and
-- fragmentData then ends: its fragments are the data in order, none empty, none longer than an MTU.
pub fragments_after_run :
    (acks : List Bool) (c : SendState) (bytes : List ℕ)
    → IsOpen c
    → Returns
        (λ c'. Split default_mtu bytes (fragment_data (length bytes) c'.congestion_wnd bytes))
        (window_run acks c)
fragments_after_run acks c bytes v =
    Returns-map (λ c' v'. fragment_data-Split c' bytes v') (window_run-IsOpen acks c v)

-- no byte is taken
size_zero : (n : ℕ) → (if ltb 0 (suc n) then 0 else suc n) ≡ 0
size_zero n = ground arith

fragment_loop_stuck : (fuel : ℕ) (x : ℕ) (xs : List ℕ) → fragment_loop fuel 0 (x ∷ xs) ≡ none
unfolding fragment_loop
fragment_loop_stuck zero x xs = refl
fragment_loop_stuck (suc fuel) x xs =
    rw (size_zero (length xs), fragment_loop_stuck fuel x xs, fragment_loop) refl

-- With a congestion window of 0 no number of rounds lets the loop of fragmentData end on data.
pub fragment_data_stuck : (fuel : ℕ) (x : ℕ) (xs : List ℕ) → fragment_data fuel 0 (x ∷ xs) ≡ none
unfolding fragment_data
fragment_data_stuck fuel x xs = rw zero_size (fragment_loop_stuck fuel x xs)
  where
    zero_size : (if ltb default_mtu 0 then default_mtu else 0) ≡ 0
    zero_size = refl

-- Whatever the measurements, and however the floats round, the timeout is at least 50 ms and at
-- most 10 s.
pub rto_bounds :
    (fl : Floats) (rtt : ℤ) (c : RttState)
    → (min_rto ≤ℤ (update_rtt fl rtt c).rto) × ((update_rtt fl rtt c).rto ≤ℤ max_rto)
unfolding update_rtt
rto_bounds fl rtt c = ground arith
