-- ===== src/Congestion/Float.antt =====
-- float64 as the controllers use it. The language of the proofs has no floats, so the type and its
-- operations are a parameter, and nothing is assumed of them: what is proved holds for any rounding.
use go_kitbox.Prelude.{ℕ, Bool}
use go_kitbox.Prelude.Int.{ℤ}

pub record Floats : Type 1 where
  pub Float : Type 0
  pub of_int : ℤ → Float
  pub ratio : ℕ → ℕ → Float  -- the literal p / q, as `ratio 875 1000` for 0.875
  pub seconds : ℕ → Float  -- Duration.Seconds
  pub plus : Float → Float → Float
  pub minus : Float → Float → Float
  pub times : Float → Float → Float
  pub over : Float → Float → Float
  pub pow : Float → Float → Float
  pub to_int : Float → ℤ  -- int(x)
  pub lt : Float → Float → Bool
