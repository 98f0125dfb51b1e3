-- ===== src/Prelude/Keys.antt =====
-- Boolean equality as an interface, for the keys of maps.
use Prim.Native.Nat.{ℕ}
use Prim.Native.String.{String}
use mathlib.Core.Path.{◌≡◌, refl, sym, ap, ap₂, ◌∙◌}
use mathlib.Core.Logic.{◌↔◌, ◌≢◌, inl, inr}
use mathlib.Core.Bool.{Bool, true, false, ◌&&◌}
use mathlib.Core.List.{List, [], ◌∷◌}
use text.Mathlib.Text.{◌==◌ as str_eq}
use text.Mathlib.TextEquality.{eq_iff}
use go_kitbox.Prelude.Tests.{◌==◌, ==_iff, Bool-cases}

pub record Eq {ℓ} (Key : Type ℓ) : Type ℓ where
  pub beq : Key → Key → Bool
  pub beq_iff : (j k : Key) → (beq j k ≡ true) ↔ (j ≡ k)

instance abbrev pub nat_eq : Eq ℕ
nat_eq = record { beq = λ a b. a == b; beq_iff = ==_iff }

instance abbrev pub string_eq : Eq String
string_eq = record { beq = str_eq; beq_iff = eq_iff }

and_left : (a b : Bool) → (a && b) ≡ true → a ≡ true
and_left true b h = refl
and_left false b h = h

and_right : (a b : Bool) → (a && b) ≡ true → b ≡ true
and_right true b h = h
and_right false b h = cc

both : {a b : Bool} → a ≡ true → b ≡ true → (a && b) ≡ true
both p q = rw (p, q)

-- Keys that are structs of two comparable fields.
module _ {ℓ κ} {A : Type ℓ} {B : Type κ} ⦃e : Eq A⦄ ⦃f : Eq B⦄ where
  pub pair_beq_iff : (p q : A × B) → ((e.beq p.0 q.0 && f.beq p.1 q.1) ≡ true) ↔ (p ≡ q)
  pair_beq_iff p q = (
    λ h.
        ap₂ (λ a b. (a, b)) ((e.beq_iff p.0 q.0).0 (and_left _ _ h))
          ((f.beq_iff p.1 q.1).0 (and_right _ _ h)),
    λ h. both ((e.beq_iff p.0 q.0).1 (ap (λ r. r.0) h)) ((f.beq_iff p.1 q.1).1 (ap (λ r. r.1) h)),
  )

  instance abbrev pub pair_eq : Eq (A × B)
  pair_eq = record { beq = λ p q. e.beq p.0 q.0 && f.beq p.1 q.1; beq_iff = pair_beq_iff }

-- Keys that are slices, as Go compares strings.
module _ {ℓ} {A : Type ℓ} ⦃e : Eq A⦄ where
  unfoldable pub list_beq : List A → List A → Bool
  list_beq [] [] = true
  list_beq [] (k ∷ ks) = false
  list_beq (j ∷ js) [] = false
  list_beq (j ∷ js) (k ∷ ks) = e.beq j k && list_beq js ks

  pub list_beq_eq : (js ks : List A) → list_beq js ks ≡ true → js ≡ ks
  unfolding list_beq
  list_beq_eq [] [] h = refl
  list_beq_eq [] (k ∷ ks) h = cc
  list_beq_eq (j ∷ js) [] h = cc
  list_beq_eq (j ∷ js) (k ∷ ks) h =
      ap₂ (λ a b. a ∷ b) ((e.beq_iff j k).0 (and_left _ _ h))
        (list_beq_eq js ks (and_right (e.beq j k) _ h))

  pub list_beq_self : (ks : List A) → list_beq ks ks ≡ true
  unfolding list_beq
  list_beq_self [] = refl
  list_beq_self (k ∷ ks) = both ((e.beq_iff k k).1 refl) (list_beq_self ks)

  pub list_beq_iff : (js ks : List A) → (list_beq js ks ≡ true) ↔ (js ≡ ks)
  list_beq_iff js ks = (list_beq_eq js ks, λ h. ap (list_beq js) (sym h) ∙ list_beq_self js)

  instance abbrev pub list_eq : Eq (List A)
  list_eq = record { beq = list_beq; beq_iff = list_beq_iff }

pub beq_self {ℓ} : {A : Type ℓ} ⦃e : Eq A⦄ (a : A) → e.beq a a ≡ true
beq_self ⦃e⦄ a = (e.beq_iff a a).1 refl

pub beq_false {ℓ} : {A : Type ℓ} ⦃e : Eq A⦄ (a b : A) → a ≢ b → e.beq a b ≡ false
beq_false ⦃e⦄ a b n = elim (Bool-cases (e.beq a b)) [
  | inl y ↦ absurd (n ((e.beq_iff a b).0 y))
  | inr z ↦ z
]
