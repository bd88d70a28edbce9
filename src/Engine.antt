-- ===== src/Engine.antt =====
-- The engine's plain logic (python/minisgl/engine/).
pub mod Config
pub mod Memory
pub mod Adjusting
pub mod Pages
pub mod Graph
pub mod Padding
pub mod Tests
