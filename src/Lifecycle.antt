-- ===== src/Lifecycle.antt =====
-- pkg/lifecycle: a manager that starts workers, waits for a signal, an error or the end of its context,
-- and stops them in order.
pub mod Hooks
pub mod Manager
mod Tests
