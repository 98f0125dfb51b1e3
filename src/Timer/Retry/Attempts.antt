-- ===== src/Timer/Retry/Attempts.antt =====
-- How often the function is called, and how long the sleeps between the calls are.
use go_kitbox.Prelude.{
  ℕ, zero, suc, ◌*◌, ◌<◌, ◌≡◌, refl, true, List, [], ◌∷◌, Option, none, some, ltb, arith,
}
use go_kitbox.Timer.Retry.{
  Retried, succeeded, exhausted, slept, round, attempts_loop, retry, exponential_backoff,
}

-- `n` sleeps, each from the one before it.
abbrev pub sleeps_from : (ℕ → ℕ) → ℕ → ℕ → List ℕ
sleeps_from next zero delay = []
sleeps_from next (suc n) delay = delay ∷ sleeps_from next n (next delay)

abbrev pub before_last : ℕ → ℕ
before_last zero = 0
before_last (suc n) = n

more_left : (n : ℕ) → ltb 0 (suc n) ≡ true
more_left n = ground arith

module _ {W E : Type 0} where
  -- So many calls in a row fail; the last error, and the world that is left.
  pub data Fails (fn : W → Option E × W) : ℕ → Option E → W → Option E → W → Type 0 where
    no_call : {last : Option E} {w : W} → Fails fn 0 last w last w
    one_more :
        {n : ℕ} {last last' : Option E} {w w' w'' : W} {e : E}
        → fn w ≡ (some e, w')
        → Fails fn n (some e) w' last' w''
        → Fails fn (suc n) last w last' w''

  -- The first success ends it, after a sleep for each failure; or all calls fail, and the last of
  -- them is not slept after.
  pub data Outcome (next : ℕ → ℕ) (attempts delay : ℕ) (fn : W → Option E × W) (last : Option E)
      (w : W) : Retried E × List ℕ × W → Type 0 where
    at_last :
        {k : ℕ} {last' : Option E} {w1 w2 : W}
        → k < attempts
        → Fails fn k last w last' w1
        → fn w1 ≡ (none, w2)
        → Outcome next attempts delay fn last w (succeeded, sleeps_from next k delay, w2)
    never :
        {last' : Option E} {w1 : W}
        → Fails fn attempts last w last' w1
        → Outcome next attempts delay fn last w
            (exhausted last', sleeps_from next (before_last attempts) delay, w1)

  Outcome-later :
      (next : ℕ → ℕ) (left delay : ℕ) (fn : W → Option E × W) (last : Option E) (w w' : W) (e : E)
      {out : Retried E × List ℕ × W}
      → fn w ≡ (some e, w')
      → Outcome next left (next delay) fn (some e) w' out
      → Outcome next (suc left) delay fn last w (slept (ltb 0 left) delay out)
  Outcome-later next zero delay fn last w w' e f (at_last lt p q) = absurd (omega (arith, lt))
  Outcome-later next zero delay fn last w w' e f (never p) = never (one_more f p)
  Outcome-later next (suc left) delay fn last w w' e f (at_last lt p q) =
      rw (more_left left) (at_last (omega (arith, lt)) (one_more f p) q)
  Outcome-later next (suc left) delay fn last w w' e f (never p) =
      rw (more_left left) (never (one_more f p))

  round-Outcome :
      (next : ℕ → ℕ) (left delay : ℕ) (fn : W → Option E × W) (last : Option E) (w : W)
      (r : Option E × W) {go : E → W → Retried E × List ℕ × W}
      → fn w ≡ r
      → ((e : E) (w' : W) → Outcome next left (next delay) fn (some e) w' (go e w'))
      → Outcome next (suc left) delay fn last w (round left delay r go)
  round-Outcome next left delay fn last w (none, w') f go = at_last (omega arith) no_call f
  round-Outcome next left delay fn last w (some e, w') f go =
      Outcome-later next left delay fn last w w' e f (go e w')

  attempts_loop-Outcome :
      (next : ℕ → ℕ) (left delay : ℕ) (fn : W → Option E × W) (last : Option E) (w : W)
      → Outcome next left delay fn last w (attempts_loop next left delay fn last w)
  unfolding attempts_loop
  attempts_loop-Outcome next zero delay fn last w = never no_call
  attempts_loop-Outcome next (suc left) delay fn last w =
      round-Outcome next left delay fn last w (fn w) refl
        (λ e w'. attempts_loop-Outcome next left (next delay) fn (some e) w')

  -- Retry calls the function until it succeeds, and at most so many times as it is told; between two
  -- calls it sleeps for the delay. It fails with the last error of the function.
  pub retry-Outcome :
      (attempts delay : ℕ) (fn : W → Option E × W) (w : W)
      → Outcome (λ d. d) attempts delay fn none w (retry attempts delay fn w)
  unfolding retry
  retry-Outcome attempts delay fn w = attempts_loop-Outcome (λ d. d) attempts delay fn none w

  -- ExponentialBackoff calls the function until it succeeds, and at most so many times as it is
  -- told; it sleeps between two calls, first for the delay that it is given and then for twice as
  -- long each time. It fails with the last error of the function.
  pub exponential_backoff-Outcome :
      (attempts delay : ℕ) (fn : W → Option E × W) (w : W)
      → Outcome (λ d. d * 2) attempts delay fn none w (exponential_backoff attempts delay fn w)
  unfolding exponential_backoff
  exponential_backoff-Outcome attempts delay fn w =
      attempts_loop-Outcome (λ d. d * 2) attempts delay fn none w
