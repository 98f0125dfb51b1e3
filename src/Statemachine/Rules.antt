-- ===== src/Statemachine/Rules.antt =====
-- types.go, transition.go and errors.go of pkg/statemachine: what both machines are built from. A
-- callback is any function of the machine's user: it may change the world outside, `W`, and fails
-- with any error of `E`. (A callback that calls its own machine would wait for its mutex for ever;
-- it cannot be written here, as the machine is no part of `W`.)
use Prim.Native.String.{String}
use go_kitbox.Prelude.{Bool, true, Option, none, some}

abbrev pub State : Type 0
State = String

abbrev pub Event : Type 0
Event = String

-- `transitionKey`
abbrev pub Key : Type 0
Key = State × Event

abbrev pub Guard : Type 0 → Type 0
Guard W = W → State → State → Bool × W

abbrev pub TransitionFunc : Type 0 → Type 0 → Type 0
TransitionFunc W E = W → State → State → Option E × W

abbrev pub Action : Type 0 → Type 0 → Type 0
Action W E = W → State → Option E × W

pub data Error (E : Type 0) : Type 0 where
  invalid_transition transition_denied event_not_found duplicate_transition : Error E
  callback : E → Error E

-- The fields From and Event repeat the key. A nil callback is `none`.
pub record Transition (W E : Type 0) : Type 0 where
  pub from : State
  pub to : State
  pub event : Event
  pub guard : Option (Guard W)
  pub on_transition : Option (TransitionFunc W E)

-- The calls that Trigger makes, each of which is left out where nothing is set.
unfoldable pub ask_guard : {W : Type 0} → Option (Guard W) → State → State → W → Bool × W
ask_guard none from to w = (true, w)
ask_guard (some g) from to w = g w from to

module _ {W E : Type 0} where
  unfoldable pub call_transition : Option (TransitionFunc W E) → State → State → W → Option E × W
  call_transition none from to w = (none, w)
  call_transition (some f) from to w = f w from to

  unfoldable pub call_action : Option (Action W E) → State → W → Option E × W
  call_action none s w = (none, w)
  call_action (some f) s w = f w s
