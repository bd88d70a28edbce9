-- ===== src/Attention.antt =====
-- The attention backends: what they prepare for a batch, and which of them runs
-- (python/minisgl/attention/base.py). The kernels are calls of other libraries.
pub mod Metadata
pub mod Lengths
pub mod Capture
pub mod Replay
pub mod Graphs
pub mod Backend
mod Tests
pub mod Tables
pub mod Ragged
