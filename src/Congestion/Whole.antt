-- ===== src/Congestion/Whole.antt =====
-- Whole numbers in place of float64, for the tests: every operation rounds to an integer.
use go_kitbox.Prelude.{◌*◌, ◌/◌}
use go_kitbox.Prelude.Int.{ℤ, pos, pos_part, ◌+ℤ◌, ◌-ℤ◌, ltb_ℤ}
use go_kitbox.Congestion.Float.{Floats}

abbrev pub whole : Floats
whole = record {
  Float = ℤ;
  of_int = λ a. a;
  ratio = λ p q. pos (p / q);
  seconds = λ n. pos (n / 1000000000);
  plus = λ a b. a +ℤ b;
  minus = λ a b. a -ℤ b;
  times = λ a b. pos (pos_part a * pos_part b);
  over = λ a b. pos (pos_part a / pos_part b);
  pow = λ a b. a;
  to_int = λ a. a;
  lt = ltb_ℤ;
}
