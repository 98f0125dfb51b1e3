-- ===== src/Prelude/Window.antt =====
-- A circular buffer as the list of its live slots: `window buf cap h n` reads `n` slots from index
-- `h` on, going round at `cap`. Both ring buffers of the repository are read through it.
use native.Mathlib.Nat.{mod-add-mod, mod-eq_of_lt, mod-eq-sub-mod, mod-lt}
use Prim.Native.Nat.{ℕ, zero, suc, ◌+◌, ◌-◌, ◌%◌, ◌≤◌, ◌<◌}
use mathlib.Core.Path.{◌≡◌, refl, sym, ap, ap₂, ◌∙◌}
use mathlib.Core.Logic.{◌≢◌}
use mathlib.Core.List.{List, [], ◌∷◌, ◌++◌}
use native.Mathlib.Omega.{arith}
use native.Mathlib.Decide.{dec_lt}
use go_kitbox.Prelude.Lists.{length, set, get_or, get_or-set_self, get_or-set_ne}

-- The index of the slot that lies `j` places behind `h`, in either half of the buffer.
slot_near : (h j : ℕ) {n : ℕ} → h + j < n → (h + j) % n ≡ h + j
slot_near h j p = mod-eq_of_lt p

slot_far : {h j cap : ℕ} → h < cap → j < cap → cap ≤ h + j → (h + j) % cap ≡ h + j - cap
slot_far {h} {j} {cap} p q r =
    mod-eq-sub-mod {n = h + j} {m = cap} r ∙ mod-eq_of_lt {n = h + j - cap} {m = cap} (omega arith)

-- Two different places less than a full turn apart are two different slots.
pub slot_ne : {h cap : ℕ} (j k : ℕ) → h < cap → j < k → k < cap → (h + j) % cap ≢ (h + k) % cap
slot_ne {h} {cap} j k hh jk kc e = elim (dec_lt (h + j) cap) [
  | yes p ↦ elim (dec_lt (h + k) cap) [
    | yes q ↦ omega (arith, slot_near h j p, slot_near h k q)
    | no q ↦
        omega (arith, slot_near h j p, slot_far {h = h} {j = k} {cap = cap} hh kc (omega arith))
  ]
  | no p ↦ omega (
    arith,
    slot_far {h = h} {j = j} {cap = cap} hh (omega arith) (omega arith),
    slot_far {h = h} {j = k} {cap = cap} hh kc (omega arith),
  )
]

-- Stepping one slot on.
pub slot_step : (h j n : ℕ) → ((h + 1) % n + j) % n ≡ (h + suc j) % n
slot_step h j n = mod-add-mod (h + 1) n j ∙ ap (λ k. k % n) (omega arith)

pub slot_lt : (a n : ℕ) → 0 < n → a % n < n
slot_lt a n h = mod-lt a h

module _ {ℓ} {A : Type ℓ} (d : A) (cap : ℕ) where
  abbrev pub window : List A → ℕ → ℕ → List A
  window buf h zero = []
  window buf h (suc n) = get_or buf h d ∷ window buf ((h + 1) % cap) n

  pub length-window : (buf : List A) (h n : ℕ) → length (window buf h n) ≡ n
  length-window buf h zero = refl
  length-window buf h (suc n) = ap suc (length-window buf ((h + 1) % cap) n)

  -- The last slot of a window.
  pub window-suc :
      (buf : List A) (h n : ℕ)
      → h < cap
      → window buf h (suc n) ≡ window buf h n ++ get_or buf ((h + n) % cap) d ∷ []
  window-suc buf h zero p =
      ap (λ i. get_or buf i d ∷ []) (omega (arith, slot_near h 0 {n = cap} (omega arith)))
  window-suc buf h (suc n) p = ap (◌∷◌ (get_or buf h d)) (
      window-suc buf ((h + 1) % cap) n (slot_lt (h + 1) cap (omega arith))
      ∙ ap (λ i. window buf ((h + 1) % cap) n ++ get_or buf i d ∷ []) (slot_step h n cap))

  -- A write outside the window leaves it alone.
  pub window-set_off :
      (buf : List A) (i : ℕ) (x : A) (h n : ℕ)
      → h < cap
      → ((j : ℕ) → j < n → i ≢ (h + j) % cap)
      → window (set buf i x) h n ≡ window buf h n
  window-set_off buf i x h zero p off = refl
  window-set_off buf i x h (suc n) p off =
      ap₂ ◌∷◌
        (get_or-set_ne buf x d
          (λ e. off 0 (omega arith) (e ∙ omega (arith, slot_near h 0 {n = cap} (omega arith)))))
        (window-set_off buf i x ((h + 1) % cap) n (slot_lt (h + 1) cap (omega arith))
          (λ j q e. off (suc j) (omega arith) (e ∙ slot_step h j cap)))

  -- A write just behind the window extends it at the end.
  pub window-push_back :
      (buf : List A) (x : A) (h n : ℕ)
      → h < cap
      → n < cap
      → cap ≤ length buf
      → window (set buf ((h + n) % cap) x) h (suc n) ≡ window buf h n ++ x ∷ []
  window-push_back buf x h n p q s =
      let t = (h + n) % cap in
      window-suc (set buf t x) h n p
      ∙ ap₂ (λ w v. w ++ v ∷ []) (window-set_off buf t x h n p (λ j r e. slot_ne j n p r q (sym e)))
          (get_or-set_self buf t x d (omega (arith, slot_lt (h + n) cap (omega arith))))

  -- A write just before the window extends it at the front.
  pub window-push_front :
      (buf : List A) (x : A) (h n g : ℕ)
      → h < cap
      → n < cap
      → cap ≤ length buf
      → g ≡ (h + (cap - 1)) % cap
      → window (set buf g x) g (suc n) ≡ x ∷ window buf h n
  window-push_front buf x h n g p q s e =
      ap₂ ◌∷◌ (get_or-set_self buf g x d (omega (arith, slot_lt (h + (cap - 1)) cap (omega arith))))
        (ap (λ i. window (set buf g x) i n) back
          ∙ window-set_off buf g x h n p
              (λ j r f. slot_ne j (cap - 1) p (last j r) (omega arith) (sym f ∙ e)))
    where
      last : (j : ℕ) → j < n → j < cap - 1
      last j r = omega arith

      turn : h + (cap - 1) + 1 ≡ h + cap
      turn = omega arith

      home : (h + cap) % cap ≡ h
      home = mod-eq-sub-mod {n = h + cap} {m = cap} (omega arith) ∙ again
        where
          again : (h + cap - cap) % cap ≡ h
          again = ap (λ k. k % cap) (omega arith) ∙ mod-eq_of_lt p

      back : (g + 1) % cap ≡ h
      back =
          ap (λ k. (k + 1) % cap) e
          ∙ mod-add-mod (h + (cap - 1)) cap 1
          ∙ ap (λ k. k % cap) turn
          ∙ home
