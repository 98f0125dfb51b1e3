-- ===== src/Zallocrout.antt =====
-- The package pkg/zallocrout.
pub mod Paths
pub mod Routes
pub mod Tree
pub mod Cache
pub mod Metrics
pub mod Router
pub mod Context
mod Tests
