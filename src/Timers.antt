-- ===== src/Timers.antt =====
-- The timers of include/brutils/timers and src/brutils/timers.
pub mod Combined
pub mod Keeper
pub mod Single
mod Tests
