-- ===== src/Statemachine/Fsm/Trigger.antt =====
-- What Trigger does on each of its branches.
use go_kitbox.Prelude.{
  ◌≡◌, ◌≢◌, refl, ap, ◌↔◌, inl, inr, Bool, true, false, Option, none, some, arith, Option-cases,
}
use go_kitbox.Prelude.Keys.{string_eq, pair_eq}
use go_kitbox.Prelude.Maps.{lookup}
use go_kitbox.Statemachine.Rules.{
  Event, Error, invalid_transition, transition_denied, callback, Transition, ask_guard,
  call_transition, call_action,
}
use go_kitbox.Statemachine.Fsm.{Fsm, can, entered, moved, exited, guarded, trigger}

module _ {W E : Type 0} where
  -- The machine that a callback of the rule `t` may leave: where it was, or at the target.
  abbrev pub target : Transition W E → Fsm W E → Fsm W E
  target t f = record f { current = t.to }

  -- How a Trigger with the rule `t` may end, and after which calls, in which order.
  pub data Fires (t : Transition W E) (f : Fsm W E) (w : W)
      : Option (Error E) × Fsm W E × W → Type 0 where
    denied :
        {w1 : W}
        → ask_guard t.guard f.current t.to w ≡ (false, w1)
        → Fires t f w (some transition_denied, f, w1)
    exit_failed :
        {w1 w2 : W} {e : E}
        → ask_guard t.guard f.current t.to w ≡ (true, w1)
        → call_action (lookup f.current f.on_exit) f.current w1 ≡ (some e, w2)
        → Fires t f w (some (callback e), f, w2)
    transition_failed :
        {w1 w2 w3 : W} {e : E}
        → ask_guard t.guard f.current t.to w ≡ (true, w1)
        → call_action (lookup f.current f.on_exit) f.current w1 ≡ (none, w2)
        → call_transition t.on_transition f.current t.to w2 ≡ (some e, w3)
        → Fires t f w (some (callback e), f, w3)
    enter_failed :
        {w1 w2 w3 w4 : W} {e : E}
        → ask_guard t.guard f.current t.to w ≡ (true, w1)
        → call_action (lookup f.current f.on_exit) f.current w1 ≡ (none, w2)
        → call_transition t.on_transition f.current t.to w2 ≡ (none, w3)
        → call_action (lookup t.to f.on_enter) t.to w3 ≡ (some e, w4)
        → Fires t f w (some (callback e), target t f, w4)
    done :
        {w1 w2 w3 w4 : W}
        → ask_guard t.guard f.current t.to w ≡ (true, w1)
        → call_action (lookup f.current f.on_exit) f.current w1 ≡ (none, w2)
        → call_transition t.on_transition f.current t.to w2 ≡ (none, w3)
        → call_action (lookup t.to f.on_enter) t.to w3 ≡ (none, w4)
        → Fires t f w (none, target t f, w4)

  module _ (t : Transition W E) (f : Fsm W E) (w : W) where
    Fires-entered :
        (r : Option E × W) {w1 w2 w3 : W}
        → ask_guard t.guard f.current t.to w ≡ (true, w1)
        → call_action (lookup f.current f.on_exit) f.current w1 ≡ (none, w2)
        → call_transition t.on_transition f.current t.to w2 ≡ (none, w3)
        → call_action (lookup t.to f.on_enter) t.to w3 ≡ r
        → Fires t f w (entered r (target t f))
    unfolding entered
    Fires-entered (some e, w4) g x m n = enter_failed g x m n
    Fires-entered (none, w4) g x m n = done g x m n

    Fires-moved :
        (r : Option E × W) {w1 w2 : W}
        → ask_guard t.guard f.current t.to w ≡ (true, w1)
        → call_action (lookup f.current f.on_exit) f.current w1 ≡ (none, w2)
        → call_transition t.on_transition f.current t.to w2 ≡ r
        → Fires t f w (moved t r f)
    unfolding moved
    Fires-moved (some e, w3) g x m = transition_failed g x m
    Fires-moved (none, w3) g x m =
        Fires-entered (call_action (lookup t.to f.on_enter) t.to w3) g x m refl

    Fires-exited :
        (r : Option E × W) {w1 : W}
        → ask_guard t.guard f.current t.to w ≡ (true, w1)
        → call_action (lookup f.current f.on_exit) f.current w1 ≡ r
        → Fires t f w (exited t r f)
    unfolding exited
    Fires-exited (some e, w2) g x = exit_failed g x
    Fires-exited (none, w2) g x =
        Fires-moved (call_transition t.on_transition f.current t.to w2) g x refl

    Fires-guarded :
        (r : Bool × W) → ask_guard t.guard f.current t.to w ≡ r → Fires t f w (guarded t r f)
    unfolding guarded
    Fires-guarded (false, w1) g = denied g
    Fires-guarded (true, w1) g =
        Fires-exited (call_action (lookup f.current f.on_exit) f.current w1) g refl

  -- A Trigger for which the current state has a rule calls the guard, the exit callback, the
  -- transition callback and, in the rule's target, the enter callback, in this order, until the
  -- guard refuses or a callback fails; the state is the target from before the enter callback on,
  -- also if that fails.
  pub trigger-Fires :
      (event : Event) (w : W) (f : Fsm W E) (t : Transition W E)
      → lookup (f.current, event) f.transitions ≡ some t
      → Fires t f w (trigger event w f)
  unfolding trigger
  trigger-Fires event w f t e = rw e (Fires-guarded t f w (ask_guard t.guard f.current t.to w) refl)

  pub can-none :
      (event : Event) (f : Fsm W E)
      → lookup (f.current, event) f.transitions ≡ none
      → can event f ≡ false
  unfolding can
  can-none event f n = ground arith

  -- An event that Can refuses is an invalid transition: it changes nothing and calls nothing.
  pub trigger_no_rule :
      (event : Event) (w : W) (f : Fsm W E)
      → can event f ≡ false
      → trigger event w f ≡ (some invalid_transition, f, w)
  unfolding can trigger
  trigger_no_rule event w f h = elim (Option-cases (lookup (f.current, event) f.transitions)) [
    | inl n ↦ rw n
    | inr (t, s) ↦ absurd (ground arith)
  ]

  Fires-error :
      {t : Transition W E} {f : Fsm W E} {w : W} {out : Option (Error E) × Fsm W E × W}
      → Fires t f w out
      → out.0 ≢ some invalid_transition
  Fires-error (denied g) e = cc
  Fires-error (exit_failed g x) e = cc
  Fires-error (transition_failed g x m) e = cc
  Fires-error (enter_failed g x m n) e = cc
  Fires-error (done g x m n) e = cc

  -- Can tells exactly whether Trigger will find the transition invalid.
  pub can-trigger :
      (event : Event) (w : W) (f : Fsm W E)
      → (can event f ≡ false) ↔ ((trigger event w f).0 ≡ some invalid_transition)
  can-trigger event w f = (
    λ h. ap (λ out. out.0) (trigger_no_rule event w f h),
    λ h. elim (Option-cases (lookup (f.current, event) f.transitions)) [
      | inl n ↦ can-none event f n
      | inr (t, s) ↦ absurd (Fires-error (trigger-Fires event w f t s) h)
    ],
  )
