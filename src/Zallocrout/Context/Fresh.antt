-- ===== src/Zallocrout/Context/Fresh.antt =====
-- A context from the pool shows its new parameters and nothing of its last use, and what is found after
-- a SetValue.
use go_kitbox.Prelude.{
  ℕ, zero, suc, ◌+◌, ◌<◌, ◌≤◌, ◌≡◌, refl, sym, ap, ◌∙◌, true, false, List, [], ◌∷◌, ◌++◌, Option,
  none, some, length, get_or, set, take, drop, leb, if◌then◌else◌, Bool-cases, inl, inr,
  take-append, length-take_le, length-append, length-set, ◌⊎◌, arith,
}
use go_kitbox.Prelude.Keys.{nat_eq, list_eq, list_beq}
use go_kitbox.Zallocrout.Paths.{Bytes}
use go_kitbox.Zallocrout.Tree.{Param, max_params}
use go_kitbox.Zallocrout.Context.{
  RouteContext, max_values, find_pair, copy_params, acquire_context, get_param, get_value,
  set_value,
}

abbrev pub first_value : {V : Type 0} → Bytes → List (Bytes × V) → Option V
first_value key [] = none
first_value key ((k, v) ∷ pairs) = if list_beq k key then some v else first_value key pairs

take-drop-suc :
    {A : Type 0} (n i : ℕ) (xs : List A) (d : A)
    → i < length xs
    → take (suc n) (drop i xs) ≡ get_or xs i d ∷ take n (drop (suc i) xs)
take-drop-suc n i [] d h = absurd (omega arith)
take-drop-suc n zero (x ∷ xs) d h = refl
take-drop-suc n (suc i) (x ∷ xs) d h = take-drop-suc n i xs d (omega arith)

find_pair_lem :
    {V : Type 0} (key : Bytes) (d : V) (n i : ℕ) (pairs : List (Bytes × V))
    → i + n ≤ length pairs
    → find_pair key d n pairs i ≡ first_value key (take n (drop i pairs))
unfolding find_pair
find_pair_lem key d zero i pairs h = refl
find_pair_lem key d (suc n) i pairs h =
    ap
      (λ rest.
        if list_beq (get_or pairs i ([], d)).0 key then some (get_or pairs i ([], d)).1 else rest)
      (find_pair_lem key d n (suc i) pairs (omega arith))
    ∙ ap (first_value key) (sym (take-drop-suc n i pairs ([], d) (omega arith)))

pub record IsContext {P V : Type 0} (ctx : RouteContext P V) : Type 0 where
  pub all_params : length ctx.param_pairs ≡ max_params
  pub all_values : length ctx.value_pairs ≡ max_values
  pub values_fit : ctx.value_count ≤ max_values

-- The first pairs of the array are the given ones.
copied :
    (count : ℕ) (pairs old : List Param)
    → count ≤ length pairs
    → count ≤ length old
    → (take count (copy_params count pairs old) ≡ take count pairs)
      × (count ≤ length (copy_params count pairs old))
unfolding copy_params
copied zero pairs old h k = (refl, omega arith)
copied (suc zero) [] old h k = absurd (omega arith)
copied (suc zero) (p ∷ ps) [] h k = absurd (omega arith)
copied (suc zero) (p ∷ ps) (o ∷ os) h k = (refl, omega arith)
copied (suc (suc zero)) [] old h k = absurd (omega arith)
copied (suc (suc zero)) (p ∷ []) old h k = absurd (omega arith)
copied (suc (suc zero)) (p ∷ q ∷ ps) [] h k = absurd (omega arith)
copied (suc (suc zero)) (p ∷ q ∷ ps) (o ∷ []) h k = absurd (omega arith)
copied (suc (suc zero)) (p ∷ q ∷ ps) (o ∷ r ∷ os) h k = (refl, omega arith)
copied (suc (suc (suc n))) pairs old h k =
    let count : ℕ = suc (suc (suc n)) in
    let size : length (take count pairs) ≡ count = length-take_le count pairs h in
    let plain : copy_params count pairs old ≡ take count pairs ++ drop count old = ground arith in
    (
      ap (take count) plain
          ∙ ap (λ m. take m (take count pairs ++ drop count old)) (sym size)
          ∙ take-append (take count pairs) (drop count old),
      omega (arith, ap length plain, length-append (take count pairs) (drop count old), size),
    )

module _ {P V : Type 0} where
  -- A context that is taken from the pool, whatever it was used for before, has under each key the
  -- parameter that is the first one with that key among those given, and none if there is none, and
  -- it has no values.
  pub acquire_context_fresh :
      (ctx : RouteContext P V) (parent : P) (pairs : List Param) (count : ℕ) (key : Bytes)
      → IsContext ctx
      → length pairs ≡ max_params
      → count ≤ max_params
      → (get_param key (acquire_context ctx parent pairs count)
          ≡ first_value key (take count pairs))
        × (get_value key (acquire_context ctx parent pairs count) ≡ none)
  unfolding acquire_context get_param get_value
  acquire_context_fresh ctx parent pairs count key v size h =
      let (same, fits) =
        copied count pairs ctx.param_pairs (omega (arith, size)) (omega (arith, v.all_params)) in
      (
        find_pair_lem key [] count 0 (copy_params count pairs ctx.param_pairs) (omega (arith, fits))
            ∙ ap (first_value key) same,
        find_pair_lem key none 0 0 ctx.value_pairs (omega arith),
      )

take-set :
    {A : Type 0} (n : ℕ) (xs : List A) (x : A)
    → n < length xs
    → take (suc n) (set xs n x) ≡ take n xs ++ x ∷ []
take-set n [] x h = absurd (omega arith)
take-set zero (y ∷ ys) x h = refl
take-set (suc n) (y ∷ ys) x h = ap (λ zs. y ∷ zs) (take-set n ys x (omega arith))

-- What is found in a list with one more pair at its end.
abbrev pub or_last : {V : Type 0} → Bytes → Bytes → V → Option V → Option V
or_last key asked v none = if list_beq key asked then some v else none
or_last key asked v (some w) = some w

first_value-snoc :
    {V : Type 0} (key asked : Bytes) (v : V) (pairs : List (Bytes × V))
    → first_value asked (pairs ++ (key, v) ∷ []) ≡ or_last key asked v (first_value asked pairs)
first_value-snoc key asked v [] = refl
first_value-snoc key asked v ((k, w) ∷ pairs) = elim (Bool-cases (list_beq k asked)) [
  | inl same ↦ rw same refl
  | inr other ↦ rw other (first_value-snoc key asked v pairs)
]

module _ {P V : Type 0} where
  -- SetValue fails on a context with six values and changes nothing. Otherwise a key has afterwards the
  -- value that it had before, even if it is the key that is set; the new value is found only under a
  -- key that had none.
  pub get_value-set_value :
      (key asked : Bytes) (v : Option V) (ctx : RouteContext P V)
      → IsContext ctx
      → ((ctx.value_count ≡ max_values) × (set_value key v ctx ≡ (ctx, false)))
        ⊎ (((set_value key v ctx).1 ≡ true)
            × (get_value asked (set_value key v ctx).0 ≡ or_last key asked v (get_value asked ctx)))
  unfolding set_value get_value
  get_value-set_value key asked v ctx c = elim (Bool-cases (leb max_values ctx.value_count)) [
    | inl full ↦ inl (ground (arith, full), rw (full, set_value) refl)
    | inr room ↦
        let inside : ctx.value_count < length ctx.value_pairs =
          ground (arith, room, c.all_values) in
        let pairs : List (Bytes × Option V) = set ctx.value_pairs ctx.value_count (key, v) in
        let grown : find_pair asked none (suc ctx.value_count) pairs 0
            ≡ or_last key asked v (find_pair asked none ctx.value_count ctx.value_pairs 0) =
          find_pair_lem asked none (suc ctx.value_count) 0 pairs
            (omega (arith, inside, length-set ctx.value_pairs ctx.value_count (key, v)))
          ∙ ap (first_value asked) (take-set ctx.value_count ctx.value_pairs (key, v) inside)
          ∙ first_value-snoc key asked v (take ctx.value_count ctx.value_pairs)
          ∙ ap (or_last key asked v) (
              sym (
                find_pair_lem asked none ctx.value_count 0 ctx.value_pairs
                  (omega (arith, inside)))) in
        inr (rw (room, set_value) (refl, grown))
  ]
