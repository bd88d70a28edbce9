-- ===== src/Engine/Config.antt =====
-- The engine's configuration and `_adjust_config` (python/minisgl/engine/config.py, engine.py).
-- Sizes are natural numbers, so a limit that is not positive is 0. `sm90` and `sm100` are what
-- torch says of the device.
use flash_kvmo_e.Base.{
  ℕ, Bool, true, false, ◌&&◌, ◌||◌, not, Option, none, some, Result, ok, value_error, guard, ◌>>=◌,
  ◌>>◌, ltb, leb, ◌==◌, if◌then◌else◌,
}
use flash_kvmo_e.Base.Texts.{String, str_eq, contains}
use flash_kvmo_e.Models.Config.{ModelConfig, is_mla}
use flash_kvmo_e.Models.Gguf.{supported}

pub data Dtype : Type 0 where
  float16 bfloat16 float32 : Dtype

-- `dtype.itemsize`
abbrev pub itemsize : Dtype → ℕ
itemsize float16 = 2
itemsize bfloat16 = 2
itemsize float32 = 4

abbrev pub is_bfloat16 : Dtype → Bool
is_bfloat16 bfloat16 = true
is_bfloat16 _ = false

pub record EngineConfig (F : Type 0) : Type 0 where
  pub tp_size : ℕ
  pub dtype : Dtype
  pub model_config : ModelConfig F
  pub max_running_req : ℕ
  pub attention_backend : String
  pub moe_backend : String
  pub kt_weight_path : Option String
  pub kt_cpuinfer : ℕ
  pub kt_threadpool_count : ℕ
  pub kt_method : String
  pub page_size : ℕ
  pub memory_ratio : F
  pub max_seq_len_override : Option ℕ
  pub num_page_override : Option ℕ

abbrev pub has_path : Option String → Bool
has_path none = false
has_path (some path) = not (str_eq path "")

abbrev pub is_auto : String → Bool
is_auto backend = str_eq backend "auto"

unfoldable pub choose_backend : Bool → Bool → String → String
choose_backend sm90 sm100 backend =
    if is_auto backend then if sm100 then "trtllm" else if sm90 then "fa,fi" else "fi" else backend

unfoldable pub choose_page_size : String → ℕ → ℕ
choose_page_size backend page_size =
    if contains backend "trtllm"
      && not ((page_size == 16) || (page_size == 32) || (page_size == 64))
    then 64
    else page_size

module _ {F : Type 0} where
  abbrev pub config_max_seq_len : EngineConfig F → ℕ
  config_max_seq_len c = elim c.max_seq_len_override [
    | none ↦ c.model_config.rotary_config.max_position
    | some n ↦ n
  ]

  abbrev pub max_forward_len : EngineConfig F → ℕ
  max_forward_len c = config_max_seq_len c

  -- The tests of `_adjust_config` that read the configuration only.
  unfoldable pub check_config : EngineConfig F → Result (Unit {0})
  check_config c = do
    guard (str_eq c.moe_backend "kt") value_error
    guard (supported c.model_config.architectures) value_error
    guard (c.tp_size == 1) value_error
    guard (is_bfloat16 c.dtype) value_error
    guard (has_path c.kt_weight_path) value_error
    guard (str_eq c.kt_method "LLAMAFILE") value_error
    guard (ltb 0 c.kt_threadpool_count && leb c.kt_threadpool_count c.kt_cpuinfer) value_error
    guard (ltb 0 (max_forward_len c) && ltb 0 c.max_running_req) value_error

  -- The branch for latent attention: the backend it leaves.
  unfoldable pub adjust_mla : EngineConfig F → Result String
  adjust_mla c =
      if is_mla c.model_config
      then (do
        guard
            ((c.model_config.kv_lora_rank == 512)
              && (c.model_config.qk_rope_head_dim == 64)
              && ltb 0 c.model_config.q_lora_rank)
            value_error
        let backend = if is_auto c.attention_backend then "fi" else c.attention_backend
        guard (str_eq backend "fi" && (c.page_size == 1)) value_error
        ok backend)
      else ok c.attention_backend

  unfoldable pub adjust_config : Bool → Bool → EngineConfig F → Result (EngineConfig F)
  unfolding check_config adjust_mla choose_backend choose_page_size
  adjust_config sm90 sm100 c = do
    check_config c
    left ← adjust_mla c
    let backend = choose_backend sm90 sm100 left
    ok (record c { attention_backend = backend; page_size = choose_page_size backend c.page_size })
