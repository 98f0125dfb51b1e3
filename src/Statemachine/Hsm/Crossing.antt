-- ===== src/Statemachine/Hsm/Crossing.antt =====
-- What Trigger of the hierarchical machine does on each of its branches.
use mathlib.Core.List.{reverse}
use mathlib.Core.Path.{subst}
use go_kitbox.Prelude.{
  ℕ, zero, suc, ◌<◌, ◌≡◌, ◌≢◌, refl, true, false, List, [], ◌∷◌, ◌++◌, Option, none, some,
  Option-cases, Bool-cases, inl, inr, arith,
}
use go_kitbox.Prelude.Keys.{string_eq, pair_eq}
use go_kitbox.Prelude.Maps.{lookup}
use go_kitbox.Statemachine.Rules.{
  State, Event, Action, Error, invalid_transition, transition_denied, callback, Transition,
  ask_guard, call_transition, call_action,
}
use go_kitbox.Statemachine.Hsm.{
  Hsm, get_ancestors, get_exit_path, get_enter_path, run_actions, cross, fire, trigger,
}
use go_kitbox.Statemachine.Hsm.Paths.{paths_split}
use go_kitbox.Statemachine.Hsm.Ends.{Ranks, nearest_rule, find_rule_nearest}

-- A state, its parent, and so on up to a state without one.
pub data Line (parent : List (State × State)) : State → List State → Type 0 where
  top : {s : State} → lookup s parent ≡ none → Line parent s (s ∷ [])
  up :
      {s p : State} {line : List State}
      → lookup s parent ≡ some p
      → Line parent p line
      → Line parent s (s ∷ line)

get_ancestors-Line :
    (parent : List (State × State)) (rank : State → ℕ)
    → Ranks parent rank
    → (n : ℕ) (s : State) → rank s < n
    → (line : List State) × (get_ancestors n parent s ≡ some line) × Line parent s line
unfolding get_ancestors
get_ancestors-Line parent rank r zero s h = absurd (omega arith)
get_ancestors-Line parent rank r (suc n) s h = elim (Option-cases (lookup s parent)) [
  | inl e ↦ (s ∷ [], rw (e, get_ancestors) refl, top e)
  | inr (p, e) ↦
      let (line, got, above) = get_ancestors-Line parent rank r n p (omega (arith, h, r s p e)) in
      (s ∷ line, rw (e, get_ancestors) (rw got refl), up e above)
]

-- The states to leave, from the inside out, and to enter, from the outside in, between two lines: what
-- is left of the lines without the ancestors that they share, which are as many as can be.
pub record Between (from to exits enters : List State) : Type 0 where
  pub common : List State
  pub leaves : exits ++ common ≡ from
  pub reaches : reverse enters ++ common ≡ to
  pub apart : (x y : State) (xs ys : List State) → reverse exits ≡ x ∷ xs → enters ≡ y ∷ ys → x ≢ y

paths-Between :
    (from to : List State) → Between from to (get_exit_path from to) (get_enter_path from to)
paths-Between from to =
    let s = paths_split from to in
    record { common = s.common; leaves = s.exits; reaches = s.enters; apart = s.apart }

module _ {W E : Type 0} where
  -- The callbacks of states, called one after the other up to the first error.
  pub data Calls (actions : List (State × Action W E))
      : List State → W → Option E → W → Type 0 where
    called_all : {w : W} → Calls actions [] w none w
    called :
        {s : State} {ss : List State} {w w1 w2 : W} {e : Option E}
        → call_action (lookup s actions) s w ≡ (none, w1)
        → Calls actions ss w1 e w2
        → Calls actions (s ∷ ss) w e w2
    failed :
        {s : State} {ss : List State} {w w1 : W} {e : E}
        → call_action (lookup s actions) s w ≡ (some e, w1)
        → Calls actions (s ∷ ss) w (some e) w1

  run_actions-Calls :
      (actions : List (State × Action W E)) (ss : List State) (w : W)
      → let (e, w') = run_actions actions ss w in Calls actions ss w e w'
  unfolding run_actions
  run_actions-Calls actions [] w = called_all
  run_actions-Calls actions (s ∷ ss) w =
      let r = call_action (lookup s actions) s w in
      elim (Option-cases r.0) [
        | inl fine ↦
            rw (fine, run_actions) (called (λ i. (fine i, r.1)) (run_actions-Calls actions ss r.1))
        | inr (e, bad) ↦ rw (bad, run_actions) (failed (λ i. (bad i, r.1)))
      ]

  -- A transition, once its guard has agreed: the exit callbacks, the callback of the rule, the enter
  -- callbacks. An error of the first two kinds leaves the machine as it was, one of an enter callback
  -- leaves it in the target.
  pub data Crosses (t : Transition W E) (h : Hsm W E) (exits enters : List State) (w : W)
      : Option (Error E) × Hsm W E × W → Type 0 where
    exit_failed :
        {e : E} {w1 : W}
        → Calls h.on_exit exits w (some e) w1
        → Crosses t h exits enters w (some (callback e), h, w1)
    rule_failed :
        {e : E} {w1 w2 : W}
        → Calls h.on_exit exits w none w1
        → call_transition t.on_transition h.current t.to w1 ≡ (some e, w2)
        → Crosses t h exits enters w (some (callback e), h, w2)
    enter_failed :
        {e : E} {w1 w2 w3 : W}
        → Calls h.on_exit exits w none w1
        → call_transition t.on_transition h.current t.to w1 ≡ (none, w2)
        → Calls h.on_enter enters w2 (some e) w3
        → Crosses t h exits enters w (some (callback e), record h { current = t.to }, w3)
    crossed :
        {w1 w2 w3 : W}
        → Calls h.on_exit exits w none w1
        → call_transition t.on_transition h.current t.to w1 ≡ (none, w2)
        → Calls h.on_enter enters w2 none w3
        → Crosses t h exits enters w (none, record h { current = t.to }, w3)

  -- The calls of a list whose error is known.
  known-Calls :
      (actions : List (State × Action W E)) (ss : List State) (w : W) (e : Option E)
      → (run_actions actions ss w).0 ≡ e
      → Calls actions ss w e (run_actions actions ss w).1
  known-Calls actions ss w e h =
      subst (λ x. Calls actions ss w x (run_actions actions ss w).1) h
        (run_actions-Calls actions ss w)

  cross-Crosses :
      (from to : List State) (t : Transition W E) (w : W) (h : Hsm W E)
      → Crosses t h (get_exit_path from to) (get_enter_path from to) w (cross from to t w h)
  unfolding cross
  cross-Crosses from to t w h =
      let out = get_exit_path from to in
      let in' = get_enter_path from to in
      let x = run_actions h.on_exit out w in
      let m = call_transition t.on_transition h.current t.to x.1 in
      let n = run_actions h.on_enter in' m.1 in
      elim (Option-cases x.0) [
        | inr (e, bad) ↦ rw (bad, cross) (exit_failed (known-Calls h.on_exit out w (some e) bad))
        | inl left ↦
            let exits = known-Calls h.on_exit out w none left in
            elim (Option-cases m.0) [
              | inr (e, bad) ↦ rw (left, bad, cross) (rule_failed exits (λ i. (bad i, m.1)))
              | inl fine ↦
                  let moved : m ≡ (none, m.1) = λ i. (fine i, m.1) in
                  elim (Option-cases n.0) [
                    | inr (e, bad) ↦
                        rw (left, fine, bad, cross)
                          (enter_failed exits moved (known-Calls h.on_enter in' m.1 (some e) bad))
                    | inl entered ↦
                        rw (left, fine, entered, cross)
                          (crossed exits moved (known-Calls h.on_enter in' m.1 none entered))
                  ]
            ]
      ]

  -- What Trigger does: it looks for the rule of the current state or else of its nearest ancestor with
  -- one for the event, asks the guard of that rule, and crosses to its target.
  pub data Triggers (event : Event) (h : Hsm W E) (w : W)
      : Option (Error E) × Hsm W E × W → Type 0 where
    no_rule :
        {line : List State}
        → Line h.parent h.current line
        → nearest_rule event h line ≡ none
        → Triggers event h w (some invalid_transition, h, w)
    denied :
        {line : List State} {t : Transition W E} {w1 : W}
        → Line h.parent h.current line
        → nearest_rule event h line ≡ some t
        → ask_guard t.guard h.current t.to w ≡ (false, w1)
        → Triggers event h w (some transition_denied, h, w1)
    agreed :
        {from to exits enters : List State} {t : Transition W E} {w1 : W}
        {out : Option (Error E) × Hsm W E × W}
        → Line h.parent h.current from
        → nearest_rule event h from ≡ some t
        → ask_guard t.guard h.current t.to w ≡ (true, w1)
        → Line h.parent t.to to
        → Between from to exits enters
        → Crosses t h exits enters w1 out
        → Triggers event h w out

  -- If every state is ranked above its parent, and the fuel is above every rank, Trigger ends, and does
  -- the following: without a rule of the state or an ancestor for the event,
  -- or if the guard of the nearest one disagrees, it is refused and no callback is called; otherwise
  -- the exit callbacks are called from the current state up to below the common ancestors, then that
  -- of the rule, then the enter callbacks down to the target, up to the first error. The machine is then
  -- in the target, and as it was if an exit callback or that of the rule had failed.
  pub trigger-Triggers :
      (n : ℕ) (event : Event) (w : W) (h : Hsm W E) (rank : State → ℕ)
      → Ranks h.parent rank
      → ((s : State) → rank s < n)
      → (out : Option (Error E) × Hsm W E × W) × (trigger n event w h ≡ some out)
        × Triggers event h w out
  unfolding trigger fire
  trigger-Triggers n event w h rank r enough =
      let (from, got, line) = get_ancestors-Line h.parent rank r n h.current (enough h.current) in
      let found = find_rule_nearest event h n h.current from got in
      elim (Option-cases (nearest_rule event h from)) [
        | inl absent ↦
            ((some invalid_transition, h, w), rw (found, absent, trigger) refl, no_rule line absent)
        | inr (t, rule) ↦
            let g = ask_guard t.guard h.current t.to w in
            elim (Bool-cases g.0) [
              | inr refused ↦ (
                (some transition_denied, h, g.1),
                rw (found, rule, trigger) (rw (refused, fire) refl),
                denied line rule (λ i. (refused i, g.1)),
              )
              | inl allowed ↦
                  let (to, reached, line') =
                    get_ancestors-Line h.parent rank r n t.to (enough t.to) in
                  (
                    cross from to t g.1 h,
                    rw (found, rule, trigger) (rw (allowed, got, reached, fire) refl),
                    agreed line rule (λ i. (allowed i, g.1)) line' (paths-Between from to)
                        (cross-Crosses from to t g.1 h),
                  )
            ]
      ]
