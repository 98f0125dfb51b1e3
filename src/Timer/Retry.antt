-- ===== src/Timer/Retry.antt =====
-- Retry and ExponentialBackoff of pkg/timer/timer.go. The function that is retried acts on an outside
-- world `W`; a sleep is recorded by its length. Delays do not reach 2^63 ns.
pub mod Attempts
use go_kitbox.Prelude.{ℕ, zero, suc, ◌*◌, Bool, true, false, List, [], ◌∷◌, Option, none, some, ltb}

-- nil, or the error that wraps the last error of the function (none if it was never called).
pub data Retried (E : Type 0) : Type 0 where
  succeeded : Retried E
  exhausted : Option E → Retried E

module _ {W E : Type 0} where
  abbrev pub slept : Bool → ℕ → Retried E × List ℕ × W → Retried E × List ℕ × W
  slept true delay (r, sleeps, w) = (r, delay ∷ sleeps, w)
  slept false delay out = out

  -- One round: a success ends the loop, and a failure sleeps if a round is left.
  abbrev pub round :
      ℕ → ℕ → Option E × W → (E → W → Retried E × List ℕ × W) → Retried E × List ℕ × W
  round left delay (none, w) go = (succeeded, [], w)
  round left delay (some e, w) go = slept (ltb 0 left) delay (go e w)

  -- The loops, by the rounds that are left; they differ in the next delay.
  unfoldable pub attempts_loop :
      (ℕ → ℕ) → ℕ → ℕ → (W → Option E × W) → Option E → W → Retried E × List ℕ × W
  attempts_loop next zero delay fn last w = (exhausted last, [], w)
  attempts_loop next (suc left) delay fn last w =
      round left delay (fn w) (λ e w'. attempts_loop next left (next delay) fn (some e) w')

  unfoldable pub retry : ℕ → ℕ → (W → Option E × W) → W → Retried E × List ℕ × W
  unfolding attempts_loop
  retry attempts delay fn w = attempts_loop (λ d. d) attempts delay fn none w

  unfoldable pub exponential_backoff : ℕ → ℕ → (W → Option E × W) → W → Retried E × List ℕ × W
  unfolding attempts_loop
  exponential_backoff attempts initial_delay fn w =
      attempts_loop (λ d. d * 2) attempts initial_delay fn none w
