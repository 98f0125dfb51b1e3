-- ===== src/Statemachine/Tests.antt =====
-- The state machines on concrete inputs: an order that is paid and shipped, and a player whose
-- playing and paused states lie inside `on`. The world is the list of the calls made.
use go_kitbox.Prelude.{
  Option, ◌≡◌, ◌≢◌, refl, ap, ℕ, ◌<◌, List, [], ◌∷◌, none, some, arith, if◌then◌else◌,
}
use go_kitbox.Prelude.Keys.{string_eq, pair_eq}
use go_kitbox.Prelude.Maps.{lookup, insert}
use go_kitbox.Statemachine.Rules.{
  Error, State, Event, Action, callback, Transition, ask_guard, call_action, call_transition,
}
use go_kitbox.Statemachine.Fsm
use go_kitbox.Statemachine.Fsm.{Fsm}
use go_kitbox.Statemachine.Fsm.Trigger.{Fires, trigger-Fires}
use go_kitbox.Statemachine.Fsm.Reach.{Moves, run, run-Moves}
use go_kitbox.Statemachine.Hsm
use go_kitbox.Statemachine.Hsm.{Hsm}
use go_kitbox.Statemachine.Hsm.Paths.{Splits, paths_split}
use go_kitbox.Statemachine.Hsm.Crossing.{Triggers, trigger-Triggers}
use go_kitbox.Statemachine.Hsm.Ends.{Ranks, trigger_ends, trigger_cycle}

abbrev World : Type 0
World = List State

abbrev logged : Action World State
logged w s = (none, s ∷ w)

abbrev failing : Action World State
failing w s = (some s, w)

abbrev rule : State → State → Event → Transition World State
rule from to event = record {
  from = from;
  to = to;
  event = event;
  guard = none;
  on_transition = none;
}

abbrev order : Fsm World State
order = record {
  current = "new";
  initial = "new";
  transitions =
      (("new", "pay"), rule "new" "paid" "pay")
      ∷ (("paid", "ship"), rule "paid" "sent" "ship")
      ∷ [];
  on_enter = ("paid", logged) ∷ ("sent", failing) ∷ [];
  on_exit = ("new", logged) ∷ [];
}

order_built :
    (Fsm.add_transition "paid" "sent" "ship"
      (Fsm.add_transition "new" "paid" "pay"
        (Fsm.new_fsm {W = World} {E = State} "new")).1).1.transitions
    ≡ order.transitions
unfolding Fsm.add_transition Fsm.new_fsm lookup insert
order_built = refl

pay_calls :
    Fsm.trigger "pay" [] order ≡ (none, record order { current = "paid" }, "paid" ∷ "new" ∷ [])
unfolding Fsm.trigger lookup ask_guard call_action call_transition
pay_calls = refl

-- The enter callback fails after the state has changed.
ship_fails :
    Fsm.trigger "ship" [] (record order { current = "paid" })
    ≡ (some (callback "sent"), record order { current = "sent" }, [])
unfolding Fsm.trigger lookup ask_guard call_action call_transition
ship_fails = refl

trigger-Fires_example : Fires (rule "new" "paid" "pay") order [] (Fsm.trigger "pay" [] order)
unfolding lookup
trigger-Fires_example = trigger-Fires "pay" [] order (rule "new" "paid" "pay") refl

run-Moves_example : Moves order (run ("pay" ∷ "pay" ∷ "ship" ∷ []) [] order).0
run-Moves_example = run-Moves ("pay" ∷ "pay" ∷ "ship" ∷ []) [] order

abbrev player : Hsm World State
player = record {
  current = "playing";
  initial = "off";
  transitions =
      (("playing", "pause"), rule "playing" "paused" "pause")
      ∷ (("on", "stop"), rule "on" "off" "stop")
      ∷ [];
  on_enter = ("off", logged) ∷ ("on", logged) ∷ ("paused", logged) ∷ [];
  on_exit = ("playing", logged) ∷ ("on", logged) ∷ [];
  parent = ("playing", "on") ∷ ("paused", "on") ∷ [];
  children = ("on", "playing" ∷ "paused" ∷ []) ∷ [];
}

player_built :
    (Hsm.add_state "paused" "on"
      (Hsm.add_state "playing" "on" (Hsm.new_hsm {W = World} {E = State} "off"))).children
    ≡ player.children
unfolding Hsm.add_state Hsm.new_hsm lookup insert
player_built = refl

-- `stop` is the parent's, so both levels are left; `pause` stays below `on`.
stop_calls :
    Hsm.trigger 3 "stop" [] player
    ≡ some (none, record player { current = "off" }, "off" ∷ "on" ∷ "playing" ∷ [])
unfolding Hsm.trigger Hsm.common_idx lookup ask_guard call_action call_transition
stop_calls = refl

pause_calls :
    Hsm.trigger 3 "pause" [] player
    ≡ some (none, record player { current = "paused" }, "paused" ∷ "playing" ∷ [])
unfolding Hsm.trigger Hsm.common_idx lookup ask_guard call_action call_transition
pause_calls = refl

paths_split_example : Splits ("playing" ∷ "on" ∷ []) ("paused" ∷ "on" ∷ [])
paths_split_example = paths_split ("playing" ∷ "on" ∷ []) ("paused" ∷ "on" ∷ [])

abbrev height : State → ℕ
height s = if string_eq.beq "playing" s then 1 else (if string_eq.beq "paused" s then 1 else 0)

parent_on : (s p : State) → lookup s player.parent ≡ some p → (some p ≡ some "on") × (height s ≡ 1)
unfolding lookup
parent_on s p e = ground arith

height_on : height "on" ≡ 0
height_on = refl

height-Ranks : Ranks player.parent height
height-Ranks s p e =
    let (q, one) = parent_on s p e in
    let at : p ≡ "on" = cc in
    let below : height p ≡ height "on" = ap height at in omega (arith, below, one, height_on)

height_lt : (s : State) → height s < 3
height_lt s = ground arith

trigger_ends_example : Hsm.trigger 3 "stop" [] player ≢ none
trigger_ends_example = trigger_ends 3 "stop" [] player height height-Ranks height_lt

trigger-Triggers_example :
    (out : Option (Error State) × Hsm World State × World) × (Hsm.trigger 3 "stop" [] player
      ≡ some out)
    × Triggers "stop" player [] out
trigger-Triggers_example = trigger-Triggers 3 "stop" [] player height height-Ranks height_lt

abbrev looped : Hsm World State
looped = record player { parent = ("playing", "playing") ∷ [] }

trigger_cycle_example : Hsm.trigger 1000 "rewind" [] looped ≡ none
unfolding lookup
trigger_cycle_example = trigger_cycle "rewind" [] looped 1000 refl refl
