-- ===== src/Statemachine/Fsm/Reach.antt =====
-- Where a machine can get to, and what its rules are.
use go_kitbox.Prelude.{
  ◌≡◌, ◌≢◌, refl, ap, ◌∙◌, inl, inr, Option, none, some, List, [], ◌∷◌, Option-cases, if◌then◌else◌,
}
use mathlib.Core.Path.{subst₂}
use go_kitbox.Prelude.Keys.{string_eq, pair_eq, beq_false}
use go_kitbox.Prelude.Maps.{lookup, insert, lookup-insert}
use go_kitbox.Statemachine.Rules.{State, Event, Key, Guard, Error, Transition}
use go_kitbox.Statemachine.Fsm.{Fsm, add_rule, trigger}
use go_kitbox.Statemachine.Fsm.Trigger.{
  Fires, denied, exit_failed, transition_failed, enter_failed, done, trigger-Fires, trigger_no_rule,
  can-none,
}

module _ {W E : Type 0} where
  -- The rules of a machine as a graph on its states.
  pub data Walk (rules : List (Key × Transition W E)) (s : State) : State → Type 0 where
    here : Walk rules s s
    along :
        {a b : State} (event : Event) {t : Transition W E}
        → Walk rules s a
        → lookup (a, event) rules ≡ some t
        → t.to ≡ b
        → Walk rules s b

  Walk-trans :
      {rules : List (Key × Transition W E)} {a b c : State}
      → Walk rules a b
      → Walk rules b c
      → Walk rules a c
  Walk-trans p here = p
  Walk-trans p (along event q l e) = along event (Walk-trans p q) l e

  -- A series of Triggers. What each returns does not stop the caller.
  unfoldable pub run : List Event → W → Fsm W E → Fsm W E × W
  run [] w f = (f, w)
  run (event ∷ events) w f = let (err, f', w') = trigger event w f in run events w' f'

  -- A Trigger leaves the machine as it was but for the current state.
  abbrev pub Moves : Fsm W E → Fsm W E → Type 0
  Moves f f' = (s : State) × (f' ≡ record f { current = s }) × Walk f.transitions f.current s

  Fires-Moves :
      (event : Event) {t : Transition W E} {f : Fsm W E} {w : W}
      {out : Option (Error E) × Fsm W E × W}
      → lookup (f.current, event) f.transitions ≡ some t
      → Fires t f w out
      → Moves f out.1
  Fires-Moves event {f = f} l (denied g) = (f.current, refl, here)
  Fires-Moves event {f = f} l (exit_failed g x) = (f.current, refl, here)
  Fires-Moves event {f = f} l (transition_failed g x m) = (f.current, refl, here)
  Fires-Moves event {t = t} l (enter_failed g x m n) = (t.to, refl, along event here l refl)
  Fires-Moves event {t = t} l (done g x m n) = (t.to, refl, along event here l refl)

  trigger-Moves : (event : Event) (w : W) (f : Fsm W E) → Moves f (trigger event w f).1
  trigger-Moves event w f = elim (Option-cases (lookup (f.current, event) f.transitions)) [
    | inl n ↦
        let e = ap (λ out. out.1) (trigger_no_rule event w f (can-none event f n)) in
        (f.current, e, here)
    | inr (t, l) ↦ Fires-Moves event l (trigger-Fires event w f t l)
  ]

  -- Whatever events come, whatever the callbacks do: the machine is at the end of a walk along its
  -- rules from where it was, and has the rules, the callbacks and the initial state that it had.
  pub run-Moves : (events : List Event) (w : W) (f : Fsm W E) → Moves f (run events w f).0
  unfolding run
  run-Moves [] w f = (f.current, refl, here)
  run-Moves (event ∷ events) w f =
      let (s, e, walk) = trigger-Moves event w f in
      let f' = (trigger event w f).1 in
      let (s', e', walk') = run-Moves events (trigger event w f).2 f' in
      let onward : Walk f.transitions s s' =
        subst₂ (λ rules a. Walk rules a s') (ap (λ m. m.transitions) e) (ap (λ m. m.current) e)
          walk' in
      (s', e' ∙ ap (λ (m : Fsm W E). record m { current = s' }) e, Walk-trans walk onward)

  insert_keeps :
      (key k : Key) (u t : Transition W E) (rules : List (Key × Transition W E))
      → lookup key rules ≡ none
      → lookup k rules ≡ some t
      → lookup k (insert key u rules) ≡ some t
  insert_keeps key k u t rules n l = lookup-insert key k u rules ∙ old
    where
      other : key ≢ k
      other e = cc

      old : (if pair_eq.beq key k then some u else lookup k rules) ≡ some t
      old = rw (beq_false key k other) l

  -- A rule that is there is never replaced by AddTransition, with a guard or without.
  pub add_rule_keeps :
      (from to : State) (event : Event) (guard : Option (Guard W)) (f : Fsm W E) (k : Key)
      (t : Transition W E)
      → lookup k f.transitions ≡ some t
      → lookup k (add_rule from to event guard f).1.transitions ≡ some t
  unfolding add_rule
  add_rule_keeps from to event guard f k t l =
      elim (Option-cases (lookup (from, event) f.transitions)) [
        | inl n ↦ rw (n, add_rule) (insert_keeps (from, event) k _ t f.transitions n l)
        | inr (u, d) ↦ rw (d, add_rule) l
      ]
