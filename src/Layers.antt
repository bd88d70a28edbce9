-- ===== src/Layers.antt =====
-- The parts of python/minisgl/layers/ that spread a model over ranks.
pub mod Embedding
pub mod Vocabulary
mod Tests
