-- ===== src/Prelude/Run.antt =====
-- How a Go call ends: a value, a returned error, or a run-time panic.
use Prim.Native.Nat.{ℕ, ◌%◌, ◌<◌}
use mathlib.Core.Path.{◌≡◌, refl}
use mathlib.Core.Logic.{◌⊎◌, inl, inr}
use mathlib.Core.Bool.{Bool, true, false}
use mathlib.Core.List.{List}
use native.Mathlib.Omega.{arith}
use go_kitbox.Prelude.Tests.{ltb, ◌==◌, if◌then◌else◌}
use go_kitbox.Prelude.Lists.{length, set, get_or}

pub data Run {ℓ κ} (E : Type κ) (A : Type ℓ) : Type (ℓ ⊔ κ) where
  ok : A → Run E A
  err : E → Run E A
  panic : Run E A

infixl 5 ◌>>=◌
abbrev pub ◌>>=◌ {ℓ κ ε} :
    {E : Type ε} {A : Type ℓ} {B : Type κ} → Run E A → (A → Run E B) → Run E B
ok a >>= f = f a
err e >>= f = err e
panic >>= f = panic

-- `a[i]`: an index out of range panics. The default only fills the unreachable case.
abbrev pub load {ℓ ε} : {E : Type ε} {A : Type ℓ} → A → List A → ℕ → Run E A
load d a i = if ltb i (length a) then ok (get_or a i d) else panic

-- `a[i] = v`
abbrev pub store {ℓ ε} : {E : Type ε} {A : Type ℓ} → List A → ℕ → A → Run E (List A)
store a i v = if ltb i (length a) then ok (set a i v) else panic

-- `a % b` on non-negative operands: a zero divisor panics.
abbrev pub rem {ε} : {E : Type ε} → ℕ → ℕ → Run E ℕ
rem a b = if b == 0 then panic else ok (a % b)

module _ {ℓ ε} {E : Type ε} {A : Type ℓ} where
  pub Run-cases : (r : Run E A) → ((a : A) × (r ≡ ok a)) ⊎ (((e : E) × (r ≡ err e)) ⊎ (r ≡ panic))
  Run-cases (ok a) = inl (a, refl)
  Run-cases (err e) = inr (inl (e, refl))
  Run-cases panic = inr (inr refl)

  pub load_lem :
      (d : A) (a : List A) (i : ℕ) → i < length a → load {E = E} d a i ≡ ok (get_or a i d)
  load_lem d a i h = ground arith

  pub store_lem : (a : List A) (i : ℕ) (v : A) → i < length a → store {E = E} a i v ≡ ok (set a i v)
  store_lem a i v h = ground arith

pub rem_lem {ε} : {E : Type ε} (a b : ℕ) → 0 < b → rem {E = E} a b ≡ ok (a % b)
rem_lem a b h = ground arith

-- The call returns normally, with a value that satisfies `P`.
pub data Returns {ℓ κ ε} {E : Type ε} {A : Type ℓ} (P : A → Type κ)
    : Run E A → Type (ℓ ⊔ κ ⊔ ε) where
  returns : {a : A} → P a → Returns P (ok a)

module _ {ℓ κ ε} {E : Type ε} {A : Type ℓ} {P : A → Type κ} where
  pub Returns-map {κ'} :
      {Q : A → Type κ'} {r : Run E A} → ((a : A) → P a → Q a) → Returns P r → Returns Q r
  Returns-map k (returns p) = returns (k _ p)

  pub Returns-bind {ℓ' κ'} :
      {C : Type ℓ'} {Q : C → Type κ'} {call : Run E A} {next : A → Run E C}
      → Returns P call
      → ((value : A) → P value → Returns Q (next value))
      → Returns Q (call >>= next)
  Returns-bind (returns holds) rest = rest _ holds

  pub Returns-bind_eq {ℓ'} :
      {C : Type ℓ'} {call : Run E A} {next : A → Run E C} {out : Run E C}
      → Returns P call
      → ((value : A) → P value → next value ≡ out)
      → (call >>= next) ≡ out
  Returns-bind_eq (returns holds) rest = rest _ holds

  -- A test that may be told which way it went.
  pub Returns-if :
      (test : Bool) {yes_call no_call : Run E A}
      → (test ≡ true → Returns P yes_call)
      → (test ≡ false → Returns P no_call)
      → Returns P (if test then yes_call else no_call)
  Returns-if false passed failed = failed refl
  Returns-if true passed failed = passed refl

  pub Returns-ok : {a : A} → Returns {E = E} P (ok a) → P a
  Returns-ok (returns p) = p
