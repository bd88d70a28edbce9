-- ===== src/Cache.antt =====
-- `CacheManager` (python/minisgl/scheduler/cache.py), over any prefix cache. The page table is a
-- function from a table index and a position; its bounds are not modelled. Indices are the
-- numbers of token slots, a page is named by its first slot.
pub mod Pages
pub mod Budget
pub mod Rows
pub mod Tests
use flash_kvmo_e.Base.{
  range_from, ℕ, zero, suc, ◌+◌, ◌-◌, ◌*◌, ◌/◌, ◌%◌, Bool, true, false, ◌&&◌, not, Option, none,
  some, List, [], ◌∷◌, ◌++◌, map, Result, ok, raise, assertion_error, runtime_error, guard, ◌>>=◌,
  ◌>>◌, ltb, leb, ◌==◌, if◌then◌else◌, length, take, drop, slice, range, sum,
}
use flash_kvmo_e.Utils.{div_ceil}
use flash_kvmo_e.Core.{Req, PendingReq, input_len}
use flash_kvmo_e.KvCache.Interface.{PrefixCache}
use Pages.{Allocation, strided, page_to_token, write_page_table}

-- `lazy_free_list` is there inside `lazy_free_region`.
pub record CacheManager (C : Type 0) : Type 0 where
  pub free_slots : List ℕ
  pub prefix_cache : C
  pub num_pages : ℕ
  pub page_table : ℕ → ℕ → ℕ
  pub page_size : ℕ
  pub lazy_free_list : Option (List (List ℕ))

unfoldable pub flatten : List (List ℕ) → List ℕ
flatten [] = []
flatten (x ∷ xs) = x ++ flatten xs

-- `_free`, which `lazy_free_region` replaces by `lazy_free`.
unfoldable pub free : {C : Type 0} → List ℕ → CacheManager C → CacheManager C
unfolding strided
free indices m = elim m.lazy_free_list [
  | none ↦
      if ltb 0 (length indices)
      then record m { free_slots = m.free_slots ++ strided m.page_size indices }
      else m
  | some pending ↦ record m { lazy_free_list = some (pending ++ strided m.page_size indices ∷ []) }
]

-- `with lazy_free_region(): …`
abbrev pub begin_lazy_free : {C : Type 0} → CacheManager C → CacheManager C
begin_lazy_free m = record m { lazy_free_list = some [] }

unfoldable pub end_lazy_free : {C : Type 0} → CacheManager C → CacheManager C
unfolding flatten
end_lazy_free m = elim m.lazy_free_list [
  | none ↦ m
  | some pending ↦ record m { free_slots = m.free_slots ++ flatten pending; lazy_free_list = none }
]

-- The pages that a request needs, from its first one without a slot.
unfoldable pub allocation_info : {F H : Type 0} → ℕ → List (Req F H) → List Allocation
unfolding div_ceil
allocation_info page_size [] = []
allocation_info page_size (req ∷ reqs) =
    let first_page = div_ceil req.cached_len page_size in
    let last_page = div_ceil req.device_len page_size in
    if ltb first_page last_page
    then (req.table_idx, first_page, last_page) ∷ allocation_info page_size reqs
    else allocation_info page_size reqs

unfoldable pub needed_pages : List Allocation → ℕ
needed_pages [] = 0
needed_pages ((_, first_page, last_page) ∷ info) = (last_page - first_page) + needed_pages info

unfoldable pub all_aligned : ℕ → List ℕ → Bool
all_aligned page_size [] = true
all_aligned page_size (x ∷ xs) = (x % page_size == 0) && all_aligned page_size xs

-- `torch.arange(num_pages) * page_size`
unfoldable pub scale : ℕ → List ℕ → List ℕ
scale page_size [] = []
scale page_size (x ∷ xs) = x * page_size ∷ scale page_size xs

unfoldable pub new_manager : {C : Type 0} → ℕ → ℕ → (ℕ → ℕ → ℕ) → C → CacheManager C
unfolding scale range_from
new_manager num_pages page_size page_table prefix_cache = record {
  free_slots = scale page_size (range 0 num_pages);
  prefix_cache = prefix_cache;
  num_pages = num_pages;
  page_table = page_table;
  page_size = page_size;
  lazy_free_list = none;
}

module _ (P : PrefixCache) where
  abbrev pub Manager : Type 0
  Manager = CacheManager P.Cache

  unfoldable pub available_size : Manager → ℕ
  available_size m = P.evictable_size m.prefix_cache + length m.free_slots * m.page_size

  unfoldable pub match_req : {F : Type 0} → PendingReq F → ℕ → Manager → Result (P.Handle × Manager)
  match_req req tic m = do
    guard (ltb 0 (input_len req)) assertion_error
    (handle, c) ← P.match_prefix (take (input_len req - 1) req.input_ids) tic m.prefix_cache
    ok (handle, record m { prefix_cache = c })

  unfoldable pub lock : P.Handle → Manager → Result Manager
  lock handle m = do
    c ← P.lock_handle handle false m.prefix_cache
    ok (record m { prefix_cache = c })

  unfoldable pub unlock : P.Handle → Manager → Result Manager
  unlock handle m = do
    c ← P.lock_handle handle true m.prefix_cache
    ok (record m { prefix_cache = c })

  -- The branch of `_allocate` that evicts.
  unfoldable pub make_room : ℕ → Manager → Result Manager
  unfolding strided
  make_room needed m = do
    (evicted, c) ← P.evict ((needed - length m.free_slots) * m.page_size) m.prefix_cache
    let free_slots = m.free_slots ++ strided m.page_size evicted
    guard (leb needed (length free_slots)) assertion_error
    ok (record m { free_slots = free_slots; prefix_cache = c })

  unfoldable pub allocate : ℕ → Manager → Result (List ℕ × Manager)
  unfolding make_room
  allocate needed m = do
    m' ← if ltb (length m.free_slots) needed then make_room needed m else ok m
    ok (take needed m'.free_slots, record m' { free_slots = drop needed m'.free_slots })

  unfoldable pub allocate_paged : {F : Type 0} → List (Req F P.Handle) → Manager → Result Manager
  unfolding allocation_info needed_pages allocate page_to_token write_page_table
  allocate_paged reqs m =
      let info = allocation_info m.page_size reqs in
      if ltb 0 (needed_pages info)
      then (do
        (pages, m') ← allocate (needed_pages info) m
        table ← write_page_table m'.page_table (page_to_token m.page_size pages) info m.page_size
        ok (record m' { page_table = table }))
      else ok m

  -- `self.page_table[req.table_idx, : req.cached_len]`
  unfoldable pub page_indices : {F : Type 0} → Req F P.Handle → Manager → List ℕ
  page_indices req m = map (m.page_table req.table_idx) (range 0 req.cached_len)

  unfoldable pub cache_req :
      {F : Type 0} → Req F P.Handle → Bool → ℕ → ℕ → Manager → Result (Req F P.Handle × Manager)
  unfolding page_indices unlock lock free
  cache_req req finished tic now m = do
    let indices = page_indices req m
    (cached_len, new_handle, c) ←
        P.insert_prefix (take req.cached_len req.input_ids) indices tic now m.prefix_cache
    m1 ← unlock req.cache_handle (record m { prefix_cache = c })
    let m2 = free (slice (P.cached_len req.cache_handle) cached_len indices) m1
    if finished
        then ok (req, free (drop (P.cached_len new_handle) indices) m2)
        else (do m3 ← lock new_handle m2; ok (record req { cache_handle = new_handle }, m3))

  -- `RadixPrefixCache.check_integrity` and the naive one do nothing.
  unfoldable pub check_integrity : Manager → Result (Unit {0})
  unfolding all_aligned
  check_integrity m = do
    let total_size = P.evictable_size m.prefix_cache + P.protected_size m.prefix_cache
    let cache_pages = total_size / m.page_size
    guard (length m.free_slots + cache_pages == m.num_pages) runtime_error
    guard (if ltb 1 m.page_size then all_aligned m.page_size m.free_slots else true) assertion_error
