-- ===== src/KvCache/Interface.antt =====
-- `BasePrefixCache` and `BaseCacheHandle` (python/minisgl/kvcache/base.py). A call gets the
-- readings of the clock that it makes.
use flash_kvmo_e.Base.{ℕ, ◌+◌, ◌%◌, ◌≤◌, ◌≡◌, Bool, List, Result, ok, length}

pub record PrefixCache : Type 1 where
  pub Cache : Type 0
  pub Handle : Type 0
  pub cached_len : Handle → ℕ
  pub get_matched_indices : Handle → Cache → Result (List ℕ)
  pub lock_handle : Handle → Bool → Cache → Result Cache
  pub match_prefix : List ℕ → ℕ → Cache → Result (Handle × Cache)
  pub insert_prefix : List ℕ → List ℕ → ℕ → ℕ → Cache → Result (ℕ × Handle × Cache)
  pub evict : ℕ → Cache → Result (List ℕ × Cache)
  pub evictable_size : Cache → ℕ
  pub protected_size : Cache → ℕ

-- What a caller of `evict` relies on, for pages of `page_size` slots: at least as many indices as
-- asked for, in whole pages, and taken from what was evictable.
pub record EvictLaw (P : PrefixCache) (page_size : ℕ) : Type 1 where
  pub Valid : P.Cache → Type 0
  pub evict_lem :
      (size : ℕ) (c : P.Cache) (indices : List ℕ) (c' : P.Cache)
      → Valid c
      → P.evict size c ≡ ok (indices, c')
      → (size ≤ length indices)
        × (length indices % page_size ≡ 0)
        × (P.evictable_size c' + length indices ≡ P.evictable_size c)
        × (P.protected_size c' ≡ P.protected_size c)
