-- ===== src/Statemachine.antt =====
-- The state machines of pkg/statemachine.
pub mod Rules
pub mod Fsm
pub mod Hsm
mod Tests
