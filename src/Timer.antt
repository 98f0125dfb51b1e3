-- ===== src/Timer.antt =====
-- The package pkg/timer.
pub mod Manager
pub mod Retry
pub mod Throttle
mod Tests
