-- ===== src/Scheduler.antt =====
-- The scheduler (python/minisgl/scheduler/).
pub mod Table
pub mod Decode
pub mod Prefill
pub mod Mapping
pub mod State
pub mod Loop
pub mod Messages
pub mod Exchange
pub mod Ranks
pub mod Tests
