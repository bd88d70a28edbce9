-- ===== src/Scheduler/Prefill.antt =====
-- `PrefillAdder` and `PrefillManager` (python/minisgl/scheduler/prefill.py), over any prefix
-- cache. `World` holds the objects that the managers share: the cache manager with the page table,
-- the table manager and the request objects.

pub mod Chunks
pub mod Budget
pub mod Room
use flash_kvmo_e.Base.{
  ℕ, zero, suc, ◌+◌, ◌-◌, Bool, true, false, Option, none, some, List, [], ◌∷◌, ◌++◌, Result, ok,
  raise, runtime_error, guard, ◌>>=◌, ◌>>◌, leb, ltb, ◌==◌, if◌then◌else◌, length, take, drop,
  slice, min,
}
use flash_kvmo_e.Core.{
  Req, PendingReq, SamplingParams, Store, new_req, create, input_len, output_len,
}
use flash_kvmo_e.KvCache.Interface.{PrefixCache}
use flash_kvmo_e.Cache
use flash_kvmo_e.Cache.{CacheManager, Manager, match_req, lock, unlock}
use flash_kvmo_e.Scheduler.Table
use flash_kvmo_e.Scheduler.Table.{TableManager, write_row}

pub record Adder : Type 0 where
  pub token_budget : ℕ
  pub reserved_size : ℕ

module _ (F : Type 0) (P : PrefixCache) where
  pub record World : Type 0 where
    pub cache : CacheManager P.Cache
    pub table : TableManager
    pub store : Store F P.Handle

module _ {F : Type 0} (P : PrefixCache) where
  -- `set the cached part`: the ids and the slots of the matched prefix.
  unfoldable pub copy_cached : PendingReq F → P.Handle → ℕ → World F P → Result (World F P)
  unfolding write_row
  copy_cached req handle table_idx w =
      let cached_len = P.cached_len handle in
      if ltb 0 cached_len
      then (do
        indices ← P.get_matched_indices handle w.cache.prefix_cache
        guard (length indices == cached_len) runtime_error
        ok (record w {
          table = record w.table {
            token_pool = write_row table_idx 0 (take cached_len req.input_ids) w.table.token_pool;
          };
          cache = record w.cache { page_table = write_row table_idx 0 indices w.cache.page_table };
        }))
      else ok w

  -- `none` is the `None` of the source: no room.
  unfoldable pub try_allocate_one :
      PendingReq F → ℕ → Adder → World F P → Result (Option (P.Handle × ℕ) × World F P)
  unfolding copy_cached match_req lock unlock Cache.available_size Table.allocate
  try_allocate_one req tic a w = if Table.available_size w.table == 0 then ok (none, w) else (do
    (handle, m1) ← match_req P req tic w.cache
    let extend_len = input_len req - P.cached_len handle
    let estimated_len = extend_len + output_len req
    if ltb (Cache.available_size P m1) (estimated_len + a.reserved_size)
        then ok (none, record w { cache = m1 })
        else (do
          m2 ← lock P handle m1
          if ltb (Cache.available_size P m2) (estimated_len + a.reserved_size)
              then (do m3 ← unlock P handle m2; ok (none, record w { cache = m3 }))
              else (do
                (table_idx, table) ← Table.allocate w.table
                w' ← copy_cached req handle table_idx (record w { cache = m2; table = table })
                ok (some (handle, table_idx), w'))))

  abbrev pub chunk_size : PendingReq F → ℕ → Adder → ℕ
  chunk_size req cached_len a = min a.token_budget (input_len req - cached_len)

  unfoldable pub add_one_req :
      PendingReq F → P.Handle → ℕ → ℕ → Adder → World F P → Result (ℕ × Adder × World F P)
  unfolding write_row new_req
  add_one_req req cache_handle table_idx cached_len a w = do
    let remain_len = input_len req - cached_len
    let chunk = chunk_size req cached_len a
    let is_chunked = ltb chunk remain_len
    let a' : Adder = record {
      token_budget = a.token_budget - chunk;
      reserved_size = a.reserved_size + (remain_len + output_len req);
    }
    let ids = slice cached_len (cached_len + chunk) req.input_ids
    let table = record w.table {
      token_pool = write_row table_idx cached_len ids w.table.token_pool;
    }
    obj ←
        new_req is_chunked (take (cached_len + chunk) req.input_ids) table_idx cached_len
          (output_len req) req.uid req.sampling_params cache_handle
    let (ref, store) = create obj w.store
    ok (ref, a', record w { table = table; store = store })

  unfoldable pub try_add_one :
      PendingReq F → ℕ → Adder → World F P → Result (Option ℕ × Adder × World F P)
  unfolding try_allocate_one add_one_req
  try_add_one req tic a w = if a.token_budget == 0 then ok (none, a, w) else elim req.chunked_req [
    | some ref ↦ do
      let chunked = w.store.req ref
      (new, a', w') ← add_one_req req chunked.cache_handle chunked.table_idx chunked.cached_len a w
      ok (some new, a', w')
    | none ↦ do
      (resource, w1) ← try_allocate_one req tic a w
      elim resource [
        | none ↦ ok (none, a, w1)
        | some (handle, table_idx) ↦ do
          (new, a', w') ← add_one_req req handle table_idx (P.cached_len handle) a w1
          ok (some new, a', w')
      ]
  ]

  -- The loop of `schedule_next_batch`: the requests of the batch, and the pending ones that were
  -- cut. The clock is read once for each request.
  unfoldable pub add_all :
      List (PendingReq F)
      → List ℕ
      → List (PendingReq F)
      → (ℕ → ℕ)
      → Adder
      → World F P
      → Result (List ℕ × List (PendingReq F) × World F P)
  unfolding try_add_one
  add_all [] reqs chunked_list clock a w = ok (reqs, chunked_list, w)
  add_all (pending ∷ rest) reqs chunked_list clock a w = do
    (added, a', w') ← try_add_one pending (clock (length reqs)) a w
    elim added [
      | none ↦ ok (reqs, chunked_list, w')
      | some ref ↦
          add_all rest (reqs ++ ref ∷ [])
            (if (w'.store.req ref).chunked
              then chunked_list ++ record pending { chunked_req = some ref } ∷ []
              else chunked_list)
            clock a' w'
    ]

  -- `inflight_tokens` is the estimate of the decode manager.
  unfoldable pub schedule_next_batch :
      ℕ
      → ℕ
      → (ℕ → ℕ)
      → List (PendingReq F)
      → World F P
      → Result (Option (List ℕ) × List (PendingReq F) × World F P)
  unfolding add_all
  schedule_next_batch prefill_budget inflight_tokens clock pending_list w =
      if length pending_list == 0 then ok (none, pending_list, w) else (do
        (reqs, chunked_list, w') ←
            add_all pending_list [] [] clock
              (record { token_budget = prefill_budget; reserved_size = inflight_tokens }) w
        if length reqs == 0
            then ok (none, pending_list, w')
            else ok (some reqs, chunked_list ++ drop (length reqs) pending_list, w'))

-- The chunked request of the aborted one, and the list without it.
unfoldable pub abort_req : {F : Type 0} → ℕ → List (PendingReq F) → Option ℕ × List (PendingReq F)
abort_req uid [] = (none, [])
abort_req uid (req ∷ rest) =
    if req.uid == uid
    then (req.chunked_req, rest)
    else let (found, rest') = abort_req uid rest in (found, req ∷ rest')
