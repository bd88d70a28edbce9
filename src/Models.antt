-- ===== src/Models.antt =====
-- Model configurations and the checks on a checkpoint (python/minisgl/models/).
pub mod Config
pub mod Specs
pub mod Gguf
pub mod Tests
