-- ===== src/KvCache/Naive.antt =====
-- `NaivePrefixCache` (python/minisgl/kvcache/naive_cache.py): it caches nothing, and has no state.
use native.Mathlib.Nat.{zero-mod}
use flash_kvmo_e.Base.{
  ◌%◌, ℕ, ◌+◌, ◌≤◌, ◌≡◌, refl, Bool, List, [], Result, ok, raise, not_implemented, ◌==◌,
  if◌then◌else◌, length, arith,
}
use flash_kvmo_e.KvCache.Interface.{PrefixCache, EvictLaw}

unfoldable pub lock_handle : Unit {0} → Bool → Unit {0} → Result (Unit {0})
lock_handle handle unlock c = ok c

unfoldable pub match_prefix : List ℕ → ℕ → Unit {0} → Result (Unit {0} × Unit {0})
match_prefix input_ids tic c = ok (tt, c)

unfoldable pub insert_prefix : List ℕ → List ℕ → ℕ → ℕ → Unit {0} → Result (ℕ × Unit {0} × Unit {0})
insert_prefix input_ids indices tic now c = ok (0, tt, c)

unfoldable pub evict : ℕ → Unit {0} → Result (List ℕ × Unit {0})
evict size c = if size == 0 then ok ([], c) else raise not_implemented

abbrev pub naive_cache : PrefixCache
naive_cache = record {
  Cache = Unit {0};
  Handle = Unit {0};
  cached_len = λ _. 0;
  get_matched_indices = λ _ _. ok [];
  lock_handle = lock_handle;
  match_prefix = match_prefix;
  insert_prefix = insert_prefix;
  evict = evict;
  evictable_size = λ _. 0;
  protected_size = λ _. 0;
}

pub naive_evict_lem :
    (page_size size : ℕ) (c : Unit {0}) (indices : List ℕ) (c' : Unit {0})
    → evict size c ≡ ok (indices, c')
    → (size ≤ length indices)
      × (length indices % page_size ≡ 0)
      × (0 + length indices ≡ 0)
      × (◌≡◌ {A = ℕ} 0 0)
unfolding evict
naive_evict_lem page_size size c indices c' h =
    (ground arith, ground (arith, zero-mod page_size), ground arith, refl)

unfoldable pub naive_evict_law : (page_size : ℕ) → EvictLaw naive_cache page_size
naive_evict_law page_size = record {
  Valid = λ _. Unit;
  evict_lem = λ size c indices c' v h. naive_evict_lem page_size size c indices c' h;
}
