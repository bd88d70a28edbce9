-- ===== src/Dual.antt =====
-- Two micro-batches through one model, in turns (GLMDualBatchRunner.py and
-- DeepseekV2DualBatchRunner.py, at the repository's root): the calls that change state, with
-- the exceptions that may leave them, and the schedule that both runners share.
pub mod Run
pub mod Schedule
pub mod State
pub mod Plain
pub mod Glm
pub mod Deepseek
pub mod Device
pub mod Slots
pub mod Turns
pub mod Alone
pub mod Restored
pub mod Stages
pub mod Serial
pub mod Checks
mod Decides
mod Tests
