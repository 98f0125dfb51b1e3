-- ===== src/Taskpool/PriorityRingQueue/Indices.antt =====
-- The indices that the loops of Pop go through.
use go_kitbox.Prelude.{
  ℕ, zero, suc, ◌+◌, ◌≤◌, ◌<◌, sym, Bool, true, false, List, [], ◌∷◌, arith, if◌then◌else◌,
  ℕ_discrete,
}
use mathlib.Core.Path.{subst}
use go_kitbox.Taskpool.PriorityRingQueue.{upward, downward}

pub data Below (n : ℕ) : List ℕ → Type 0 where
  below_end : Below n []
  below : {i : ℕ} {is : List ℕ} → i < n → Below n is → Below n (i ∷ is)

pub data Listed (i : ℕ) : List ℕ → Type 0 where
  first : {is : List ℕ} → Listed i (i ∷ is)
  later : {j : ℕ} {is : List ℕ} → Listed i is → Listed i (j ∷ is)

pub upward-Listed : (n i s : ℕ) → s ≤ i → i < s + n → Listed i (upward s n)
unfolding upward
upward-Listed zero i s h k = absurd (omega arith)
upward-Listed (suc n) i s h k = elim (ℕ_discrete s i) [
  | yes e ↦ subst (λ j. Listed i (j ∷ upward (suc s) n)) (sym e) first
  | no ne ↦ later (upward-Listed n i (suc s) (omega arith) (omega arith))
]

pub downward-Listed : (n i : ℕ) → i < n → Listed i (downward n)
unfolding downward
downward-Listed zero i h = absurd (omega arith)
downward-Listed (suc n) i h = elim (ℕ_discrete n i) [
  | yes e ↦ subst (λ j. Listed i (j ∷ downward n)) (sym e) first
  | no ne ↦ later (downward-Listed n i (omega arith))
]

pub upward-Below : (n s m : ℕ) → s + n ≤ m → Below m (upward s n)
unfolding upward
upward-Below zero s m h = below_end
upward-Below (suc n) s m h = below (omega arith) (upward-Below n (suc s) m (omega arith))

pub downward-Below : (n m : ℕ) → n ≤ m → Below m (downward n)
unfolding downward
downward-Below zero m h = below_end
downward-Below (suc n) m h = below (omega arith) (downward-Below n m (omega arith))

pub order_lem :
    (low : Bool) (n : ℕ)
    → let is = if low then upward 0 n else downward n in
      Below n is × ((i : ℕ) → i < n → Listed i is)
order_lem true n =
    (upward-Below n 0 n (omega arith), λ i h. upward-Listed n i 0 (omega arith) (omega arith))
order_lem false n = (downward-Below n n (omega arith), λ i h. downward-Listed n i h)
