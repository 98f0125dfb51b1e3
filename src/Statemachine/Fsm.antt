-- ===== src/Statemachine/Fsm.antt =====
-- FSM of pkg/statemachine/fsm.go. The mutex is held for the whole of a method.
pub mod Trigger
pub mod Reach
use go_kitbox.Prelude.{Bool, true, false, List, [], ◌∷◌, Option, none, some, if◌then◌else◌}
use go_kitbox.Prelude.Keys.{Eq, string_eq, pair_eq}
use go_kitbox.Prelude.Maps.{lookup, insert}
use go_kitbox.Statemachine.Rules.{
  State, Event, Key, Guard, TransitionFunc, Action, Error, invalid_transition, transition_denied,
  event_not_found, duplicate_transition, callback, Transition, ask_guard, call_transition,
  call_action,
}

pub record Fsm (W E : Type 0) : Type 0 where
  pub current : State
  pub initial : State
  pub transitions : List (Key × Transition W E)
  pub on_enter : List (State × Action W E)
  pub on_exit : List (State × Action W E)

-- A method that can fail returns the error beside the machine that it leaves.
abbrev pub Outcome : Type 0 → Type 0 → Type 0
Outcome W E = Option (Error E) × Fsm W E

module _ {W E : Type 0} where
  unfoldable pub new_fsm : State → Fsm W E
  new_fsm initial = record {
    current = initial;
    initial = initial;
    transitions = [];
    on_enter = [];
    on_exit = [];
  }

  -- AddTransition and AddTransitionWithGuard differ in the guard alone.
  unfoldable pub add_rule : State → State → Event → Option (Guard W) → Fsm W E → Outcome W E
  add_rule from to event guard f = elim (lookup (from, event) f.transitions) [
    | some t ↦ (some duplicate_transition, f)
    | none ↦ (
      none,
      record f {
        transitions =
            insert (from, event)
              (record { from = from; to = to; event = event; guard = guard; on_transition = none })
              f.transitions;
      },
    )
  ]

  unfoldable pub add_transition : State → State → Event → Fsm W E → Outcome W E
  unfolding add_rule
  add_transition from to event f = add_rule from to event none f

  unfoldable pub add_transition_with_guard : State → State → Event → Guard W → Fsm W E → Outcome W E
  unfolding add_rule
  add_transition_with_guard from to event guard f = add_rule from to event (some guard) f

  unfoldable pub set_on_enter : State → Action W E → Fsm W E → Fsm W E
  set_on_enter s action f = record f { on_enter = insert s action f.on_enter }

  unfoldable pub set_on_exit : State → Action W E → Fsm W E → Fsm W E
  set_on_exit s action f = record f { on_exit = insert s action f.on_exit }

  unfoldable pub set_on_transition : State → Event → TransitionFunc W E → Fsm W E → Outcome W E
  set_on_transition from event fn f = elim (lookup (from, event) f.transitions) [
    | none ↦ (some event_not_found, f)
    | some t ↦ (
      none,
      record f {
        transitions = insert (from, event) (record t { on_transition = some fn }) f.transitions;
      },
    )
  ]

  unfoldable pub can : Event → Fsm W E → Bool
  can event f = elim (lookup (f.current, event) f.transitions) [ some t ↦ true | none ↦ false ]

  -- The calls of Trigger from the last to the first. Each gets what it decides on as an argument.
  pub entered : Option E × W → Fsm W E → Option (Error E) × Fsm W E × W
  entered (some e, w) f = (some (callback e), f, w)
  entered (none, w) f = (none, f, w)

  pub moved : Transition W E → Option E × W → Fsm W E → Option (Error E) × Fsm W E × W
  unfolding entered
  moved t (some e, w) f = (some (callback e), f, w)
  moved t (none, w) f =
      entered (call_action (lookup t.to f.on_enter) t.to w) (record f { current = t.to })

  pub exited : Transition W E → Option E × W → Fsm W E → Option (Error E) × Fsm W E × W
  unfolding moved
  exited t (some e, w) f = (some (callback e), f, w)
  exited t (none, w) f = moved t (call_transition t.on_transition f.current t.to w) f

  pub guarded : Transition W E → Bool × W → Fsm W E → Option (Error E) × Fsm W E × W
  unfolding exited
  guarded t (false, w) f = (some transition_denied, f, w)
  guarded t (true, w) f = exited t (call_action (lookup f.current f.on_exit) f.current w) f

  pub found : Option (Transition W E) → W → Fsm W E → Option (Error E) × Fsm W E × W
  unfolding guarded
  found none w f = (some invalid_transition, f, w)
  found (some t) w f = guarded t (ask_guard t.guard f.current t.to w) f

  unfoldable pub trigger : Event → W → Fsm W E → Option (Error E) × Fsm W E × W
  unfolding found
  trigger event w f = found (lookup (f.current, event) f.transitions) w f

  unfoldable pub reset : Fsm W E → Fsm W E
  reset f = record f { current = f.initial }
