-- ===== src/Engine/Tests.antt =====
-- The theorem on padding at a small batch.
use flash_kvmo_e.Base.Texts.{str_eq, contains, strs_eq}
use flash_kvmo_e.Engine.Padding.{Unpadded}
use flash_kvmo_e.Engine.Pages.{TokenWidth, init_sizes_bounds, init_sizes_memory}
use flash_kvmo_e.Engine.Memory.{
  align_up_32, pages_that_fit, cache_width, determine_num_pages, EngineSizes, cache_per_page,
  init_sizes,
}
use flash_kvmo_e.Engine.Config.{
  is_auto, choose_page_size, choose_backend, adjust_mla, bfloat16, EngineConfig, check_config,
  adjust_config,
}
use flash_kvmo_e.Engine.Adjusting.{adjust_config-idempotent, adjust_config-backend}
use flash_kvmo_e.Base.{
  drop, ◌&&◌, ◌/◌, ◌==◌, ◌%◌, All, ◌≤◌, ◌*◌, raise, ◌<◌, arith, true, ◌+◌, ◌⊎◌, false, length,
  replicate, ◌++◌, [], some, ◌∷◌, none, ℕ, ◌≡◌, refl, ok,
}
use flash_kvmo_e.Models.Config.{is_mla, ModelConfig, Floats}
use flash_kvmo_e.Models.Tests.{model}
use flash_kvmo_e.Engine.Padding.{Unpadded}
use flash_kvmo_e.Engine.Pages.{TokenWidth, init_sizes_bounds}
use flash_kvmo_e.Engine.Adjusting.{adjust_config-idempotent, adjust_config-backend}
use flash_kvmo_e.Core.{decode}
use flash_kvmo_e.Engine.Graph.{determine_cuda_graph_bs, new_runner, pad_batch}
use flash_kvmo_e.Engine.Padding.{elem, pad_batch_lem}

determine_cuda_graph_bs-24 :
    determine_cuda_graph_bs none (some 24) 0 ≡ 1 ∷ 2 ∷ 4 ∷ 8 ∷ 12 ∷ 16 ∷ 24 ∷ []
unfolding determine_cuda_graph_bs
determine_cuda_graph_bs-24 = refl

pad_batch_lem_example :
    (n : ℕ) × (pad_batch {R = ℕ} (new_runner (8 ∷ 2 ∷ 4 ∷ [])) 9 decode (1 ∷ 2 ∷ 3 ∷ [])
      ≡ ok ((1 ∷ 2 ∷ 3 ∷ []) ++ replicate {A = ℕ} n 9))
    × ((Unpadded (8 ∷ 2 ∷ 4 ∷ []) decode 3 × (n ≡ 0))
        ⊎ ((decode ≡ decode)
            × (elem (3 + n) (8 ∷ 2 ∷ 4 ∷ []) ≡ true)
            × All (λ m. (m < 3) ⊎ (3 + n ≤ m)) (8 ∷ 2 ∷ 4 ∷ [])))
pad_batch_lem_example = pad_batch_lem (8 ∷ 2 ∷ 4 ∷ []) 9 decode (1 ∷ 2 ∷ 3 ∷ []) (omega arith)

abbrev glm : ModelConfig ℕ
glm = record model { model_type = "glm4_moe"; architectures = "Glm4MoeForCausalLM" ∷ [] }

-- Tenths in place of floats.
abbrev tenths : Floats
tenths = record { F = ℕ; one = 10; is_zero = λ n. n == 0; int_mul = λ n x. n * x / 10 }

abbrev asked : EngineConfig ℕ
asked = record {
  tp_size = 1;
  dtype = bfloat16;
  model_config = glm;
  max_running_req = 2;
  attention_backend = "auto";
  moe_backend = "kt";
  kt_weight_path = some "/weights";
  kt_cpuinfer = 8;
  kt_threadpool_count = 2;
  kt_method = "LLAMAFILE";
  page_size = 1;
  memory_ratio = 9;
  max_seq_len_override = none;
  num_page_override = none;
}

abbrev blackwell : EngineConfig ℕ
blackwell = record asked { attention_backend = "trtllm"; page_size = 64 }

adjust_runs : adjust_config false true asked ≡ ok blackwell
unfolding adjust_config check_config adjust_mla choose_backend choose_page_size strs_eq
adjust_runs = refl

adjust_config-idempotent_example : adjust_config true false blackwell ≡ ok blackwell
adjust_config-idempotent_example =
    adjust_config-idempotent false true asked blackwell adjust_runs true false

adjust_config-backend_example :
    (is_auto blackwell.attention_backend ≡ false)
    × ((contains blackwell.attention_backend "trtllm" ≡ false)
        ⊎ (elem blackwell.page_size (16 ∷ 32 ∷ 64 ∷ []) ≡ true))
    × ((is_mla blackwell.model_config ≡ false)
        ⊎ (str_eq blackwell.attention_backend "fi" && (blackwell.page_size == 1) ≡ true))
adjust_config-backend_example = adjust_config-backend false true asked blackwell adjust_runs

abbrev sizes : EngineSizes
unfolding init_sizes
sizes = elim (init_sizes tenths asked 1000 400) [
  | ok s ↦ s
  | raise e ↦ record {
    num_pages = 0;
    pool_pages = 0;
    max_seq_len = 0;
    aligned_max_seq_len = 0;
    dummy_table_idx = 0;
    page_table = [];
  }
]

init_runs : init_sizes tenths asked 1000 400 ≡ ok sizes
unfolding init_sizes determine_num_pages cache_per_page cache_width pages_that_fit align_up_32
init_runs = refl

init_sizes_bounds_example :
    (1 < sizes.num_pages)
    × (sizes.pool_pages ≡ sizes.num_pages + 1)
    × All (All (λ location. location < sizes.pool_pages * 1)) sizes.page_table
    × (sizes.dummy_table_idx ≡ asked.max_running_req)
    × (length sizes.page_table ≡ asked.max_running_req + 1)
    × All (λ row. length row ≡ sizes.aligned_max_seq_len) sizes.page_table
    × (drop sizes.dummy_table_idx sizes.page_table
        ≡ replicate sizes.aligned_max_seq_len (sizes.num_pages * 1) ∷ [])
    × (sizes.max_seq_len ≤ sizes.num_pages * 1)
    × (sizes.max_seq_len ≤ sizes.aligned_max_seq_len)
    × (sizes.aligned_max_seq_len % 32 ≡ 0)
init_sizes_bounds_example = init_sizes_bounds tenths asked 1000 400 sizes (omega arith) init_runs

init_sizes_memory_example :
    (width : ℕ) × TokenWidth tenths asked width
    × (sizes.num_pages * (width * 1 * 2 * asked.model_config.num_layers) + 1000
        ≤ tenths.int_mul 1000 asked.memory_ratio + 400)
    × (sizes.pool_pages ≡ sizes.num_pages + 1)
init_sizes_memory_example = init_sizes_memory tenths asked 1000 400 sizes refl init_runs

sized_page : cache_per_page tenths asked ≡ ok 40
unfolding cache_per_page cache_width
sized_page = refl
