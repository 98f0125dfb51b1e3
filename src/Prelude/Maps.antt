-- ===== src/Prelude/Maps.antt =====
-- Go maps as association lists with one entry for each key, over any type of keys that can be
-- compared. Iteration goes through the list; Go's own order is unspecified.
use mathlib.Core.Path.{◌≡◌, refl, sym, ap, ◌∙◌}
use mathlib.Core.Logic.{◌≢◌, ◌⊎◌}
use mathlib.Core.Option.{Option, none, some}
use mathlib.Core.List.{List, [], ◌∷◌}
use native.Mathlib.Omega.{arith}
use go_kitbox.Prelude.Tests.{if◌then◌else◌}
use go_kitbox.Prelude.Keys.{Eq, beq_self}

module _ {ℓ κ} {K : Type ℓ} {V : Type κ} ⦃e : Eq K⦄ where
  unfoldable pub lookup : K → List (K × V) → Option V
  lookup key [] = none
  lookup key ((at, value) ∷ rest) = if e.beq at key then some value else lookup key rest

  unfoldable pub insert : K → V → List (K × V) → List (K × V)
  insert key value [] = (key, value) ∷ []
  insert key value ((at, old) ∷ rest) =
      if e.beq at key then (key, value) ∷ rest else (at, old) ∷ insert key value rest

  unfoldable pub delete : K → List (K × V) → List (K × V)
  delete key [] = []
  delete key ((at, old) ∷ rest) =
      if e.beq at key then delete key rest else (at, old) ∷ delete key rest

  pub lookup-insert :
      (key asked : K) (value : V) (m : List (K × V))
      → lookup asked (insert key value m) ≡ (if e.beq key asked then some value else lookup asked m)
  unfolding lookup insert
  lookup-insert key asked value [] = refl
  lookup-insert key asked value ((at, old) ∷ rest) = ground (
    arith,
    lookup-insert key asked value rest,
    e.beq_iff at key,
    e.beq_iff at asked,
    e.beq_iff key asked,
  )

  pub lookup-delete :
      (key asked : K) (m : List (K × V))
      → lookup asked (delete key m) ≡ (if e.beq key asked then none else lookup asked m)
  unfolding lookup delete
  lookup-delete key asked [] = ground arith
  lookup-delete key asked ((at, old) ∷ rest) = ground (
    arith,
    lookup-delete key asked rest,
    e.beq_iff at key,
    e.beq_iff at asked,
    e.beq_iff key asked,
  )

  -- What is found after an insert is the new value, or was there under another key.
  pub insert_cases :
      (key asked : K) (value found : V) (m : List (K × V))
      → lookup asked (insert key value m) ≡ some found
      → ((key ≡ asked) × (value ≡ found)) ⊎ ((key ≢ asked) × (lookup asked m ≡ some found))
  insert_cases key asked value found m h =
      let h' : (if e.beq key asked then some value else lookup asked m) ≡ some found =
        sym (lookup-insert key asked value m) ∙ h in
      ground (arith, h', e.beq_iff key asked)

  pub delete_cases :
      (key asked : K) (found : V) (m : List (K × V))
      → lookup asked (delete key m) ≡ some found
      → (key ≢ asked) × (lookup asked m ≡ some found)
  delete_cases key asked found m h =
      let h' : (if e.beq key asked then none else lookup asked m) ≡ some found =
        sym (lookup-delete key asked m) ∙ h in
      ground (arith, h', e.beq_iff key asked)

  pub lookup-insert_self :
      (key : K) (value : V) (m : List (K × V)) → lookup key (insert key value m) ≡ some value
  lookup-insert_self key value m =
      lookup-insert key key value m
      ∙ ap (λ b. if b then some value else lookup key m) (beq_self key)
