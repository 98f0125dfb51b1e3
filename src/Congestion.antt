-- ===== src/Congestion.antt =====
-- The congestion controllers of pkg/congestion.
pub mod Float
pub mod Whole
pub mod Base
pub mod Reno
pub mod Vegas
pub mod Cubic
pub mod Bbr
pub mod Bounds
pub mod Interface
pub mod Runs
pub mod Growth
mod Tests
