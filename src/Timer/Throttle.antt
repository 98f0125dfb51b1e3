-- ===== src/Timer/Throttle.antt =====
-- Throttle and Debounce of pkg/timer/timer.go: the functions that they return, with the variables that
-- these capture.
use go_kitbox.Prelude.{
  ℕ, ◌+◌, ◌-◌, ◌≤◌, Bool, true, false, List, [], ◌∷◌, Option, none, some, leb, if◌then◌else◌,
  Bool-cases, inl, inr, leb→le,
}

-- No call yet is the zero time, from which Sub saturates at the longest duration.

-- Whether the callback runs, and the time that is remembered.
unfoldable pub throttle : ℕ → ℕ → Option ℕ → Bool × Option ℕ
throttle duration now none = (true, some now)
throttle duration now (some last_call) =
    if leb duration (now - last_call) then (true, some now) else (false, some last_call)

-- A call at the time `now` stops the timer that is pending and starts one that fires after `wait`.
unfoldable pub debounce : ℕ → ℕ → Option ℕ → Option ℕ
debounce wait now pending = some (now + wait)

-- The times at which the callback runs, of all the times at which the throttled function is called.
unfoldable pub throttle_run : ℕ → List ℕ → Option ℕ → List ℕ
throttle_run duration [] last_call = []
throttle_run duration (now ∷ times) last_call =
    let (runs, last_call') = throttle duration now last_call in
    let rest = throttle_run duration times last_call' in if runs then now ∷ rest else rest

-- Each time is at least `duration` after the one before it.
pub data Spaced (duration : ℕ) : Option ℕ → List ℕ → Type 0 where
  no_run : {last : Option ℕ} → Spaced duration last []
  first_run : {t : ℕ} {ts : List ℕ} → Spaced duration (some t) ts → Spaced duration none (t ∷ ts)
  next_run :
      {last t : ℕ} {ts : List ℕ}
      → duration ≤ t - last
      → Spaced duration (some t) ts
      → Spaced duration (some last) (t ∷ ts)

-- However often the throttled function is called, two runs of the callback in a row are at least the
-- duration apart.
pub throttle_run-Spaced :
    (duration : ℕ) (times : List ℕ) (last_call : Option ℕ)
    → Spaced duration last_call (throttle_run duration times last_call)
unfolding throttle_run throttle
throttle_run-Spaced duration [] last_call = no_run
throttle_run-Spaced duration (now ∷ times) none =
    first_run (throttle_run-Spaced duration times (some now))
throttle_run-Spaced duration (now ∷ times) (some last) =
    elim (Bool-cases (leb duration (now - last))) [
      | inl due ↦
          rw (due, throttle_run)
            (next_run (leb→le duration (now - last) due)
              (throttle_run-Spaced duration times (some now)))
      | inr early ↦ rw (early, throttle_run) (throttle_run-Spaced duration times (some last))
    ]
