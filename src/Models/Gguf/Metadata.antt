-- ===== src/Models/Gguf/Metadata.antt =====
-- The metadata that `GGUFWeights.__init__` compares with the configuration
-- (python/minisgl/models/gguf.py).
use flash_kvmo_e.Base.{
  ℕ, ◌+◌, Bool, false, Option, none, some, List, [], ◌∷◌, Result, ok, raise, value_error,
  type_error, guard, ◌>>=◌, ◌>>◌, if◌then◌else◌,
}
use flash_kvmo_e.Base.Texts.{String, ◌<>◌, Dict, get, set}
use flash_kvmo_e.Models.Config.{ModelConfig, is_mla, is_glm4_moe}
use flash_kvmo_e.Models.Gguf.{Content, int, real, Reader, is_int, architecture_name}

-- `metadata.update(entries)`
unfoldable pub update {ℓ} : {V : Type ℓ} → Dict V → List (String × V) → Dict V
unfolding set
update d [] = d
update d ((key, value) ∷ rest) = update (set key value d) rest

module _ {F : Type 0} (c : ModelConfig F) where
  unfoldable pub base_metadata : ℕ → Dict (Content F)
  base_metadata block_count =
      ("block_count", int block_count)
      ∷ ("embedding_length", int c.hidden_size)
      ∷ ("attention.head_count", int c.num_qo_heads)
      ∷ ("attention.head_count_kv", int c.num_kv_heads)
      ∷ ("attention.key_length", int c.head_dim)
      ∷ ("attention.value_length", int c.head_dim)
      ∷ ("expert_count", int c.num_experts)
      ∷ ("expert_used_count", int c.num_experts_per_tok)
      ∷ ("expert_feed_forward_length", int c.moe_intermediate_size)
      ∷ ("rope.freq_base", real c.rotary_config.base)
      ∷ ("attention.layer_norm_rms_epsilon", real c.rms_norm_eps)
      ∷ []

  -- Newer files describe the compressed cache: one KV head. The field is an integer in GGUF; a
  -- floating-point 1.0, which Python would take as well, is not one head here.
  unfoldable pub is_compressed : Option (Content F) → Bool
  is_compressed none = false
  is_compressed (some heads) = is_int 1 heads

  unfoldable pub mla_metadata : Bool → List (String × Content F)
  mla_metadata compressed_kv =
      ("attention.head_count_kv", int (if compressed_kv then 1 else c.num_kv_heads))
      ∷ (
        "attention.key_length",
        int (if compressed_kv then c.kv_lora_rank + c.qk_rope_head_dim else c.head_dim),
      )
      ∷ ("attention.value_length", int (if compressed_kv then c.kv_lora_rank else c.v_head_dim))
      ∷ ("attention.key_length_mla", int c.head_dim)
      ∷ ("attention.value_length_mla", int c.v_head_dim)
      ∷ ("attention.q_lora_rank", int c.q_lora_rank)
      ∷ ("attention.kv_lora_rank", int c.kv_lora_rank)
      ∷ ("rope.dimension_count", int c.qk_rope_head_dim)
      ∷ ("leading_dense_block_count", int c.first_k_dense_replace)
      ∷ ("expert_shared_count", int c.n_shared_experts)
      ∷ []

  unfoldable pub glm4_metadata : List (String × Content F)
  glm4_metadata =
      ("rope.dimension_count", int c.rotary_config.rotary_dim)
      ∷ ("leading_dense_block_count", int c.first_k_dense_replace)
      ∷ ("expert_shared_count", int c.n_shared_experts)
      ∷ []

  -- The layers that a file has beside those of the configuration.
  unfoldable pub nextn_layers : Option (Content F) → Result ℕ
  nextn_layers none = ok 0
  nextn_layers (some (int n)) = ok n
  nextn_layers (some _) = raise type_error

  -- `fields` are those of the first reader.
  unfoldable pub expected_metadata : Dict (Content F) → Result (Dict (Content F))
  unfolding base_metadata is_compressed mla_metadata glm4_metadata nextn_layers update get
  expected_metadata fields =
      let name = architecture_name c in
      if is_mla c
      then ok (
          update (base_metadata c.num_layers)
            (mla_metadata (is_compressed (get fields (name <> ".attention.head_count_kv")))))
      else if is_glm4_moe c
      then (do
        nextn ← nextn_layers (get fields (name <> ".nextn_predict_layers"))
        ok (update (base_metadata (c.num_layers + nextn)) glm4_metadata))
      else ok (base_metadata c.num_layers)

module _ {F : Type 0} (is_close : Content F → Content F → Bool) (name : String) where
  unfoldable pub check_fields : Dict (Content F) → List (String × Content F) → Result (Unit {0})
  unfolding get
  check_fields fields [] = ok tt
  check_fields fields ((key, expected) ∷ rest) = elim (get fields (name <> "." <> key)) [
    | none ↦ check_fields fields rest
    | some field ↦ do guard (is_close field expected) value_error; check_fields fields rest
  ]

  unfoldable pub check_metadata :
      {D : Type 0} → List (Reader F D) → Dict (Content F) → Result (Unit {0})
  unfolding check_fields
  check_metadata [] metadata = ok tt
  check_metadata (reader ∷ rest) metadata = do
    check_fields reader.fields metadata
    check_metadata rest metadata
