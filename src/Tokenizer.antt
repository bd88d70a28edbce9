-- ===== src/Tokenizer.antt =====
-- The tokenizer process (python/minisgl/tokenizer/).
pub mod Printable
pub mod Detokenize
pub mod Streaming
pub mod Slices
pub mod Offsets
pub mod Sent
pub mod Server
pub mod Gather
pub mod Rounds
mod Tests
