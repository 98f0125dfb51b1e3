-- ===== src/Statemachine/Hsm.antt =====
-- HSM of pkg/statemachine/hsm.go: states have parents, and inherit their transitions. The loops
-- along the parents have no bound in the source; here they take fuel, and `none` says that it ran
-- out. Hsm/Ends shows how much is enough, and when no fuel is.
pub mod Paths
pub mod Ends
pub mod Crossing
use mathlib.Core.List.{reverse}
use go_kitbox.Prelude.{
  ℕ, zero, suc, ◌-◌, Bool, true, false, List, [], ◌∷◌, ◌++◌, Option, none, some, length, take, ◌==◌,
  if◌then◌else◌,
}
use go_kitbox.Prelude.Keys.{Eq, string_eq, pair_eq}
use go_kitbox.Prelude.Maps.{lookup, insert}
use go_kitbox.Statemachine.Rules.{
  State, Event, Key, Action, Error, invalid_transition, transition_denied, duplicate_transition,
  callback, Transition, ask_guard, call_transition, call_action,
}

pub record Hsm (W E : Type 0) : Type 0 where
  pub current : State
  pub initial : State
  pub transitions : List (Key × Transition W E)
  pub on_enter : List (State × Action W E)
  pub on_exit : List (State × Action W E)
  pub parent : List (State × State)
  pub children : List (State × List State)

abbrev or_nil : Option (List State) → List State
or_nil none = []
or_nil (some xs) = xs

-- getAncestors: the state itself first, then its parent, and so on.
unfoldable pub get_ancestors : ℕ → List (State × State) → State → Option (List State)
get_ancestors zero parent s = none
get_ancestors (suc n) parent s = elim (lookup s parent) [
  | none ↦ some (s ∷ [])
  | some p ↦ elim (get_ancestors n parent p) [ none ↦ none | some rest ↦ some (s ∷ rest) ]
]

-- The loop that finds the common ancestors compares from the ends: it runs over reversed lists.
unfoldable pub common_idx : List State → List State → ℕ
common_idx [] to = 0
common_idx (a ∷ from) [] = 0
common_idx (a ∷ from) (b ∷ to) = if string_eq.beq a b then suc (common_idx from to) else 0

unfoldable pub get_exit_path : List State → List State → List State
get_exit_path from to =
    let common = common_idx (reverse from) (reverse to) in
    if common == 0 then from else take (length from - common) from

unfoldable pub get_enter_path : List State → List State → List State
get_enter_path from to =
    let common = common_idx (reverse from) (reverse to) in reverse (take (length to - common) to)

module _ {W E : Type 0} where
  unfoldable pub new_hsm : State → Hsm W E
  new_hsm initial = record {
    current = initial;
    initial = initial;
    transitions = [];
    on_enter = [];
    on_exit = [];
    parent = [];
    children = [];
  }

  unfoldable pub add_state : State → State → Hsm W E → Hsm W E
  add_state child parent h = record h {
    parent = insert child parent h.parent;
    children = insert parent (or_nil (lookup parent h.children) ++ child ∷ []) h.children;
  }

  unfoldable pub add_transition : State → State → Event → Hsm W E → Option (Error E) × Hsm W E
  add_transition from to event h = elim (lookup (from, event) h.transitions) [
    | some t ↦ (some duplicate_transition, h)
    | none ↦ (
      none,
      record h {
        transitions =
            insert (from, event)
              (record { from = from; to = to; event = event; guard = none; on_transition = none })
              h.transitions;
      },
    )
  ]

  unfoldable pub set_on_enter : State → Action W E → Hsm W E → Hsm W E
  set_on_enter s action h = record h { on_enter = insert s action h.on_enter }

  unfoldable pub set_on_exit : State → Action W E → Hsm W E → Hsm W E
  set_on_exit s action h = record h { on_exit = insert s action h.on_exit }

  -- The loop of Can and of Trigger: the rule of the state itself, or of the nearest ancestor.
  unfoldable pub find_rule : ℕ → Event → Hsm W E → State → Option (Option (Transition W E))
  find_rule zero event h s = none
  find_rule (suc n) event h s = elim (lookup (s, event) h.transitions) [
    | some t ↦ some (some t)
    | none ↦ elim (lookup s h.parent) [ none ↦ some none | some p ↦ find_rule n event h p ]
  ]

  unfoldable pub can : ℕ → Event → Hsm W E → Option Bool
  can n event h = elim (find_rule n event h h.current) [
    | none ↦ none
    | some none ↦ some false
    | some (some t) ↦ some true
  ]

  -- The loops over the exit and the enter callbacks: the first error ends them.
  unfoldable pub run_actions : List (State × Action W E) → List State → W → Option E × W
  run_actions actions [] w = (none, w)
  run_actions actions (s ∷ ss) w =
      let (e, w') = call_action (lookup s actions) s w in
      elim e [ some x ↦ (some x, w') | none ↦ run_actions actions ss w' ]

  -- Trigger once the rule is found, the guard has agreed and both lines of ancestors are known.
  unfoldable pub cross :
      List State → List State → Transition W E → W → Hsm W E → Option (Error E) × Hsm W E × W
  unfolding run_actions get_exit_path get_enter_path
  cross from to t w h =
      let (e, w1) = run_actions h.on_exit (get_exit_path from to) w in
      elim e [
        | some x ↦ (some (callback x), h, w1)
        | none ↦
            let (e', w2) = call_transition t.on_transition h.current t.to w1 in
            elim e' [
              | some x ↦ (some (callback x), h, w2)
              | none ↦
                  let (e'', w3) = run_actions h.on_enter (get_enter_path from to) w2 in
                  elim e'' [
                    | some x ↦ (some (callback x), record h { current = t.to }, w3)
                    | none ↦ (none, record h { current = t.to }, w3)
                  ]
            ]
      ]

  unfoldable pub fire : ℕ → Transition W E → W → Hsm W E → Option (Option (Error E) × Hsm W E × W)
  unfolding get_ancestors cross
  fire n t w h =
      let (allowed, w') = ask_guard t.guard h.current t.to w in
      elim allowed [
        | false ↦ some (some transition_denied, h, w')
        | true ↦ elim (get_ancestors n h.parent h.current) [
          | none ↦ none
          | some from ↦ elim (get_ancestors n h.parent t.to) [
            | none ↦ none
            | some to ↦ some (cross from to t w' h)
          ]
        ]
      ]

  unfoldable pub trigger : ℕ → Event → W → Hsm W E → Option (Option (Error E) × Hsm W E × W)
  unfolding find_rule fire
  trigger n event w h = elim (find_rule n event h h.current) [
    | none ↦ none
    | some none ↦ some (some invalid_transition, h, w)
    | some (some t) ↦ fire n t w h
  ]

  unfoldable pub reset : Hsm W E → Hsm W E
  reset h = record h { current = h.initial }
