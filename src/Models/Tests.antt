-- ===== src/Models/Tests.antt =====
-- Runs of the model code: a small configuration, and a checkpoint for it.
use flash_kvmo_e.Models.Gguf.Metadata.{check_fields, check_metadata, expected_metadata}
use flash_kvmo_e.Models.Config.{
  resolve_rotary, check_routing, resolve_mla, resolve_theta, set_rope_type, resolve_head_dim, build,
  merge, ModelConfig, from_hf, HfConfig, Floats, Pretrained,
}
use flash_kvmo_e.Base.{
  ◌+◌, ids_eq, ℕ, Bool, true, false, none, some, List, [], ◌∷◌, Result, ok, ◌≡◌, refl, ◌==◌, All,
  ◌*◌, reverse, map,
}
use flash_kvmo_e.Base.Texts.{strs_eq, String, Dict, get}
use flash_kvmo_e.Models.Config.Shapes.{from_hf_latent}
use flash_kvmo_e.Models.Gguf.{
  shard_numbers, shard_id, check_architecture, check_shards, index_readers, index_tensors, Content,
  Tensor, Reader, GgufWeights, int, real, str,
}
use flash_kvmo_e.Models.Gguf.Init.{gguf_weights}
use flash_kvmo_e.Models.Gguf.Shapes.{check_shapes, expected_shapes}
use flash_kvmo_e.Models.Gguf.Checking.{index_complete}

-- Whole numbers in place of floats.
abbrev numbers : Floats
numbers = record { F = ℕ; one = 1; is_zero = λ n. n == 0; int_mul = λ n x. n * x }

abbrev deepseek : HfConfig ℕ
deepseek = record {
  architectures = some ("DeepseekV2ForCausalLM" ∷ []);
  rope_theta = some 10000;
  rope_scaling = none;
  num_attention_heads = some 2;
  num_key_value_heads = some 2;
  head_dim = none;
  hidden_size = some 8;
  tie_word_embeddings = some false;
  model_type = some "deepseek_v2";
  num_local_experts = none;
  num_experts = none;
  n_routed_experts = some 4;
  num_experts_per_tok = some 2;
  moe_intermediate_size = some 16;
  norm_topk_prob = some false;
  scoring_func = some "softmax";
  topk_method = some "group_limited_greedy";
  moe_layer_freq = some 1;
  num_hidden_layers = some 1;
  vocab_size = some 32;
  intermediate_size = some 24;
  hidden_act = some "silu";
  rms_norm_eps = some 1;
  max_position_embeddings = some 128;
  partial_rotary_factor = none;
  first_k_dense_replace = some 1;
  n_shared_experts = some 1;
  n_group = some 1;
  topk_group = some 1;
  routed_scaling_factor = some 1;
  q_lora_rank = some 4;
  kv_lora_rank = some 6;
  qk_nope_head_dim = some 3;
  qk_rope_head_dim = some 2;
  v_head_dim = some 3;
}

abbrev pretrained : Pretrained ℕ
pretrained = record { top = deepseek; text_config = none }

abbrev result_of {ℓ} : {A : Type ℓ} → Result A → A → A
result_of (ok a) default = a
result_of e default = default

abbrev pub model : ModelConfig ℕ
model = record {
  num_layers = 1;
  num_qo_heads = 2;
  num_kv_heads = 2;
  head_dim = 5;
  hidden_size = 8;
  vocab_size = 32;
  intermediate_size = 24;
  rms_norm_eps = 1;
  rotary_config = record {
    head_dim = 2;
    rotary_dim = 2;
    max_position = 128;
    base = 10000;
    scaling = none;
  };
  hidden_act = "silu";
  tie_word_embeddings = false;
  num_experts = 4;
  num_experts_per_tok = 2;
  moe_intermediate_size = 16;
  norm_topk_prob = false;
  model_type = "deepseek_v2";
  architectures = "DeepseekV2ForCausalLM" ∷ [];
  q_lora_rank = 4;
  kv_lora_rank = 6;
  qk_nope_head_dim = 3;
  qk_rope_head_dim = 2;
  v_head_dim = 3;
  first_k_dense_replace = 1;
  n_shared_experts = 1;
  n_group = 1;
  topk_group = 1;
  routed_scaling_factor = 1;
}

from_hf_runs : from_hf numbers pretrained ≡ ok model
unfolding from_hf merge build resolve_head_dim set_rope_type resolve_theta resolve_mla check_routing
    resolve_rotary
from_hf_runs = refl

abbrev tensor_of : String × List ℕ → Tensor Unit
tensor_of (n, s) = record { name = n; shape = reverse s; tensor_type = 0; payload = tt }

abbrev listed : Dict (List ℕ)
unfolding expected_shapes
listed = result_of (expected_shapes model {D = Unit} []) []

abbrev reader : Reader ℕ Unit
reader = record {
  little_endian = true;
  fields = ("general.architecture", str "deepseek2") ∷ ("deepseek2.block_count", int 1) ∷ [];
  tensors = map tensor_of listed;
}

abbrev is_close : Content ℕ → Content ℕ → Bool
is_close (int m) (int n) = m == n
is_close (real x) (real y) = x == y
is_close x y = false

abbrev readers : Result (List (Reader ℕ Unit))
readers = ok (reader ∷ [])

abbrev indexed : Dict (Tensor Unit)
unfolding index_tensors
indexed = result_of (index_tensors reader.tensors []) []

abbrev weights : GgufWeights ℕ Unit
weights = record { readers = reader ∷ []; tensors = indexed; config = model }

gguf_weights_runs : gguf_weights is_close model readers ≡ ok weights
unfolding gguf_weights index_readers check_shards expected_shapes check_shapes expected_metadata
    check_metadata check_fields check_architecture shard_id index_tensors shard_numbers strs_eq
    ids_eq
gguf_weights_runs = refl

index_complete_example : All (λ r. All (λ t. get indexed t.name ≡ some t) r.tensors) (reader ∷ [])
index_complete_example = index_complete is_close model readers weights gguf_weights_runs

from_hf_latent_example :
    (model.head_dim ≡ model.qk_nope_head_dim + model.qk_rope_head_dim)
    × (model.rotary_config.head_dim ≡ model.qk_rope_head_dim)
    × (model.rotary_config.rotary_dim ≡ model.qk_rope_head_dim)
from_hf_latent_example = from_hf_latent numbers pretrained model from_hf_runs refl

abbrev plain_model : ModelConfig ℕ
unfolding from_hf
plain_model =
    result_of
      (from_hf numbers (record pretrained { top = record deepseek { model_type = some "llama" } }))
      model

plain_runs :
    from_hf numbers (record pretrained { top = record deepseek { model_type = some "llama" } })
    ≡ ok plain_model
unfolding from_hf merge build resolve_head_dim set_rope_type resolve_theta resolve_mla check_routing
    resolve_rotary
plain_runs = refl
