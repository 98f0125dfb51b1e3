-- ===== src/Statemachine/Hsm/Paths.antt =====
-- The states that a transition leaves and enters.
use mathlib.Core.List.{reverse, reverse-append, reverse-reverse, reverse-cons}
use go_kitbox.Prelude.{
  ℕ, zero, suc, ◌-◌, ◌≤◌, ◌≡◌, ◌≢◌, refl, sym, ap, ap₂, ◌∙◌, false, List, [], ◌∷◌, ◌++◌, length,
  length-append, take, take_more, drop, take-append-drop, arith, ◌==◌, ==_iff, inl, inr, Bool-cases,
}
use go_kitbox.Prelude.Keys.{string_eq}
use go_kitbox.Statemachine.Rules.{State}
use go_kitbox.Statemachine.Hsm.{common_idx, get_exit_path, get_enter_path}

length-reverse : (xs : List State) → length (reverse xs) ≡ length xs
length-reverse [] = refl
length-reverse (x ∷ xs) =
    ap length (reverse-cons x xs)
    ∙ length-append (reverse xs) (x ∷ [])
    ∙ omega (arith, length-reverse xs)

take-append_le : (n : ℕ) (xs ys : List State) → n ≤ length xs → take n (xs ++ ys) ≡ take n xs
take-append_le zero xs ys h = refl
take-append_le (suc n) [] ys h = absurd (omega arith)
take-append_le (suc n) (x ∷ xs) ys h = ap (◌∷◌ x) (take-append_le n xs ys (omega arith))

-- Cutting a list short drops from the front of its reverse.
take-reverse : (c : ℕ) (ys : List State) → take (length ys - c) (reverse ys) ≡ reverse (drop c ys)
take-reverse zero ys = take_more (length ys - 0) (reverse ys) (omega (arith, length-reverse ys))
take-reverse (suc c) [] = take_more (0 - suc c) [] (omega arith)
take-reverse (suc c) (y ∷ ys) =
    ap₂ take {x = length (y ∷ ys) - suc c} (omega arith) (reverse-cons y ys)
    ∙ take-append_le (length ys - c) (reverse ys) (y ∷ []) (omega (arith, length-reverse ys))
    ∙ take-reverse c ys

cut-eq : (c : ℕ) (xs : List State) → take (length xs - c) xs ≡ reverse (drop c (reverse xs))
cut-eq c xs =
    ap₂ (λ n ys. take (n - c) ys) (sym (length-reverse xs)) (sym (reverse-reverse xs))
    ∙ take-reverse c (reverse xs)

common-take : (as' bs : List State) → take (common_idx as' bs) as' ≡ take (common_idx as' bs) bs
unfolding common_idx
common-take [] bs = refl
common-take (a ∷ as') [] = refl
common-take (a ∷ as') (b ∷ bs) = elim (Bool-cases (string_eq.beq a b)) [
  | inl y ↦ rw y (ap₂ ◌∷◌ ((string_eq.beq_iff a b).0 y) (common-take as' bs))
  | inr n ↦ rw n
]

heads_apart :
    (a b : State) {as' bs xs ys : List State} {x y : State}
    → string_eq.beq a b ≡ false
    → a ∷ as' ≡ x ∷ xs
    → b ∷ bs ≡ y ∷ ys
    → ¬ (x ≡ y)
heads_apart a b other p q e =
    let same : a ≡ b = cc in let yes' = (string_eq.beq_iff a b).1 same in cc

-- Behind the common part the lists differ at once.
common_maximal :
    (as' bs xs ys : List State) (x y : State)
    → drop (common_idx as' bs) as' ≡ x ∷ xs
    → drop (common_idx as' bs) bs ≡ y ∷ ys
    → ¬ (x ≡ y)
unfolding common_idx
common_maximal [] bs xs ys x y p q = cc
common_maximal (a ∷ as') [] xs ys x y p q = cc
common_maximal (a ∷ as') (b ∷ bs) xs ys x y p q = elim (Bool-cases (string_eq.beq a b)) [
  | inl same ↦ common_maximal as' bs xs ys x y (rw same at p) (rw same at q)
  | inr other ↦ heads_apart a b other (rw other at p) (rw other at q)
]

exit-eq :
    (from to : List State)
    → get_exit_path from to ≡ take (length from - common_idx (reverse from) (reverse to)) from
unfolding get_exit_path
exit-eq from to = elim (Bool-cases (common_idx (reverse from) (reverse to) == 0)) [
  | inl z ↦ rw z (
      sym (
        take_more (length from - common_idx (reverse from) (reverse to)) from
          (omega (arith, (==_iff (common_idx (reverse from) (reverse to)) 0).0 z))))
  | inr m ↦ rw m
]

enter-eq :
    (from to : List State)
    → get_enter_path from to ≡ drop (common_idx (reverse from) (reverse to)) (reverse to)
unfolding get_enter_path
enter-eq from to =
    let c = common_idx (reverse from) (reverse to) in
    ap reverse (cut-eq c to) ∙ reverse-reverse (drop c (reverse to))

-- With `common` for the ancestors that both states share, the exited states and `common` are the
-- line of the source, and the entered ones, from the inside out, and `common` that of the target.
-- `common` is as long as can be: the outermost exited and the outermost entered state differ.
pub record Splits (from to : List State) : Type 0 where
  pub common : List State
  pub exits : get_exit_path from to ++ common ≡ from
  pub enters : reverse (get_enter_path from to) ++ common ≡ to
  pub apart :
      (x y : State) (xs ys : List State)
      → reverse (get_exit_path from to) ≡ x ∷ xs
      → get_enter_path from to ≡ y ∷ ys
      → x ≢ y

rejoin :
    (c : ℕ) (xs : List State) → reverse (drop c (reverse xs)) ++ reverse (take c (reverse xs)) ≡ xs
rejoin c xs =
    sym (reverse-append (take c (reverse xs)) (drop c (reverse xs)))
    ∙ ap reverse (take-append-drop c (reverse xs))
    ∙ reverse-reverse xs

-- For any two lines of ancestors, the exit path followed by what the lines share is the first line,
-- and the enter path, reversed, followed by what they share is the second; what they share is as
-- long as can be, as the outermost state exited and the outermost state entered differ.
pub paths_split : (from to : List State) → Splits from to
paths_split from to =
    let c = common_idx (reverse from) (reverse to) in
    let out = exit-eq from to ∙ cut-eq c from in
    let in' = enter-eq from to in
    record {
      common = reverse (take c (reverse from));
      exits = ap (λ xs. xs ++ reverse (take c (reverse from))) out ∙ rejoin c from;
      enters =
          ap₂ (λ xs ys. reverse xs ++ reverse ys) in' (common-take (reverse from) (reverse to))
          ∙ rejoin c to;
      apart = λ x y xs ys p q.
          common_maximal (reverse from) (reverse to) xs ys x y
            (sym (reverse-reverse (drop c (reverse from))) ∙ ap reverse (sym out) ∙ p)
            (sym in' ∙ q);
    }
