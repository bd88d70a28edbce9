-- ===== src/KvCache.antt =====
-- Prefix caches: the interface of python/minisgl/kvcache/base.py and its two implementations.
pub mod Interface
pub mod Naive
pub mod Radix
