-- ===== src/Engine/Memory.antt =====
-- How `Engine.__init__` sizes the KV cache and the page table (python/minisgl/engine/engine.py).
-- What the calls of CUDA report is an argument: the free memory of each rank, in bytes. A loss of
-- free memory and a negative budget are kept apart from 0 by comparing before subtracting.
use flash_kvmo_e.Base.{
  ℕ, ◌+◌, ◌-◌, ◌*◌, ◌/◌, true, none, some, List, [], ◌∷◌, ◌++◌, Result, ok, assertion_error,
  runtime_error, zero_division, guard, ◌>>=◌, ◌>>◌, ltb, leb, min, max, if◌then◌else◌, replicate,
}
use flash_kvmo_e.Utils.{div_even}
use flash_kvmo_e.Models.Config.{Floats, is_mla}
use flash_kvmo_e.Engine.Config.{EngineConfig, itemsize, config_max_seq_len}

-- `_sync_get_memory`: the least and the most free memory of the ranks, this one first.
unfoldable pub smallest : ℕ → List ℕ → ℕ
smallest free [] = free
smallest free (other ∷ rest) = min free (smallest other rest)

unfoldable pub largest : ℕ → List ℕ → ℕ
largest free [] = free
largest free (other ∷ rest) = max free (largest other rest)

unfoldable pub sync_get_memory : ℕ → List ℕ → Result (ℕ × ℕ)
unfolding smallest largest
sync_get_memory free others = do
  guard (leb (largest free others - smallest free others) (2 * 1024 * 1024 * 1024)) runtime_error
  ok (smallest free others, largest free others)

unfoldable pub align_up_32 : ℕ → ℕ
align_up_32 num = (num + 31) / 32 * 32

module _ (fl : Floats) (c : EngineConfig fl.F) where
  unfoldable pub cache_width : Result ℕ
  unfolding div_even
  cache_width =
      if is_mla c.model_config
      then ok (c.model_config.kv_lora_rank + c.model_config.qk_rope_head_dim)
      else (do
        heads ← div_even c.model_config.num_kv_heads c.tp_size true
        ok (2 * c.model_config.head_dim * heads))

  unfoldable pub cache_per_page : Result ℕ
  unfolding cache_width
  cache_per_page = do
    width ← cache_width
    ok (width * c.page_size * itemsize c.dtype * c.model_config.num_layers)

  -- `available // per_page`, where `available` is `budget - (old - new)`. A negative number of
  -- pages fails the assertion that follows, as 0 does.
  unfoldable pub pages_that_fit : ℕ → ℕ → ℕ → Result ℕ
  pages_that_fit old new per_page = do
    guard (ltb 0 per_page) zero_division
    let total = fl.int_mul old c.memory_ratio + new
    ok (if ltb total old then 0 else (total - old) / per_page)

  -- `new` is the free memory after the model is loaded.
  unfoldable pub determine_num_pages : ℕ → ℕ → Result ℕ
  unfolding cache_per_page pages_that_fit
  determine_num_pages old new = do
    per_page ← cache_per_page
    num_pages ← elim c.num_page_override [ none ↦ pages_that_fit old new per_page | some n ↦ ok n ]
    guard (ltb 1 num_pages) assertion_error
    ok num_pages

-- The sizes that the engine keeps: `pool_pages` is the number of pages of the KV cache pool, and
-- `page_table` has a row for each request and one for the dummy request.
pub record EngineSizes : Type 0 where
  pub num_pages : ℕ
  pub pool_pages : ℕ
  pub max_seq_len : ℕ
  pub aligned_max_seq_len : ℕ
  pub dummy_table_idx : ℕ
  pub page_table : List (List ℕ)

module _ (fl : Floats) (c : EngineConfig fl.F) where
  unfoldable pub init_sizes : ℕ → ℕ → Result EngineSizes
  unfolding determine_num_pages align_up_32
  init_sizes old new = do
    num_pages ← determine_num_pages fl c old new
    let num_tokens = num_pages * c.page_size
    let max_seq_len = min (config_max_seq_len c) num_tokens
    let width = align_up_32 max_seq_len
    ok (record {
      num_pages = num_pages;
      pool_pages = num_pages + 1;
      max_seq_len = max_seq_len;
      aligned_max_seq_len = width;
      dummy_table_idx = c.max_running_req;
      page_table =
          replicate c.max_running_req (replicate width 0) ++ (replicate width num_tokens ∷ []);
    })
