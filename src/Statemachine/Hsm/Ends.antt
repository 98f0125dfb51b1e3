-- ===== src/Statemachine/Hsm/Ends.antt =====
-- When the loops along the parents end, and what they find.
use go_kitbox.Prelude.{
  ℕ, zero, suc, ◌<◌, ◌≡◌, ◌≢◌, refl, List, [], ◌∷◌, Option, none, some, Option-cases, inl, inr,
  arith,
}
use go_kitbox.Prelude.Keys.{string_eq, pair_eq}
use go_kitbox.Prelude.Maps.{lookup}
use go_kitbox.Statemachine.Rules.{State, Event, Transition}
use go_kitbox.Statemachine.Hsm.{Hsm, get_ancestors, find_rule, fire, trigger}

-- The parents have no cycle: every state has a height, and its parent a lower one. (A tree of
-- states has one: the distance to the root.)
abbrev pub Ranks : List (State × State) → (State → ℕ) → Type 0
Ranks parent rank = (s p : State) → lookup s parent ≡ some p → rank p < rank s

pub get_ancestors_ends :
    (parent : List (State × State)) (rank : State → ℕ)
    → Ranks parent rank
    → (n : ℕ) (s : State) → rank s < n
    → (xs : List State) × (get_ancestors n parent s ≡ some (s ∷ xs))
unfolding get_ancestors
get_ancestors_ends parent rank r zero s h = absurd (omega arith)
get_ancestors_ends parent rank r (suc n) s h = elim (Option-cases (lookup s parent)) [
  | inl e ↦ ([], rw (e, get_ancestors))
  | inr (p, e) ↦
      let (xs, got) = get_ancestors_ends parent rank r n p (omega (arith, r s p e)) in
      (p ∷ xs, rw (e, get_ancestors) (rw got))
]

module _ {W E : Type 0} where
  -- The rule of the first state of a line that has one for the event.
  abbrev pub nearest_rule : Event → Hsm W E → List State → Option (Transition W E)
  nearest_rule event h [] = none
  nearest_rule event h (s ∷ ss) = elim (lookup (s, event) h.transitions) [
    | some t ↦ some t
    | none ↦ nearest_rule event h ss
  ]

  -- The search along the parents ends with the rule of the nearest ancestor that has one.
  pub find_rule_nearest :
      (event : Event) (h : Hsm W E) (n : ℕ) (s : State) (line : List State)
      → get_ancestors n h.parent s ≡ some line
      → find_rule n event h s ≡ some (nearest_rule event h line)
  unfolding get_ancestors find_rule
  find_rule_nearest event h zero s line e = cc
  find_rule_nearest event h (suc n) s line e = elim (Option-cases (lookup s h.parent)) [
    | inl top ↦ ground arith
    | inr (p, up) ↦ elim (Option-cases (get_ancestors n h.parent p)) [
      | inl lost ↦ absurd (ground arith)
      | inr (rest, got) ↦ ground (arith, find_rule_nearest event h n p rest got)
    ]
  ]

  pub trigger_ends :
      (n : ℕ) (event : Event) (w : W) (h : Hsm W E) (rank : State → ℕ)
      → Ranks h.parent rank
      → ((s : State) → rank s < n)
      → trigger n event w h ≢ none
  unfolding trigger fire
  trigger_ends n event w h rank r enough e =
      let (xs, from) = get_ancestors_ends h.parent rank r n h.current (enough h.current) in
      let found = find_rule_nearest event h n h.current (h.current ∷ xs) from in
      elim (Option-cases (nearest_rule event h (h.current ∷ xs))) [
        | inl none' ↦ ground arith
        | inr (t, rule) ↦
            let (ys, to) = get_ancestors_ends h.parent rank r n t.to (enough t.to) in ground arith
      ]

  find_rule_cycle :
      (event : Event) (h : Hsm W E) (s : State)
      → lookup s h.parent ≡ some s
      → lookup (s, event) h.transitions ≡ none
      → (n : ℕ) → find_rule n event h s ≡ none
  unfolding find_rule
  find_rule_cycle event h s p l zero = refl
  find_rule_cycle event h s p l (suc n) = ground (arith, find_rule_cycle event h s p l n)

  -- In a state that is its own parent, an event that it has no rule for keeps Trigger searching for
  -- ever: no fuel is enough.
  pub trigger_cycle :
      (event : Event) (w : W) (h : Hsm W E) (n : ℕ)
      → lookup h.current h.parent ≡ some h.current
      → lookup (h.current, event) h.transitions ≡ none
      → trigger n event w h ≡ none
  unfolding trigger
  trigger_cycle event w h n p l = rw (find_rule_cycle event h h.current p l n, trigger)
