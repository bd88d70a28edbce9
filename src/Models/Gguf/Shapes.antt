-- ===== src/Models/Gguf/Shapes.antt =====
-- The shapes that `GGUFWeights.__init__` expects and compares (python/minisgl/models/gguf.py).
use flash_kvmo_e.Base.{
  ℕ, ◌+◌, ◌*◌, true, false, ◌&&◌, ◌||◌, none, some, List, [], ◌∷◌, Result, ok, raise, value_error,
  key_error, guard, ◌>>=◌, ◌>>◌, if◌then◌else◌, range, range_from, reverse, ids_eq,
}
use flash_kvmo_e.Base.Texts.{String, ◌<>◌, show, Dict, get, has, set, del}
use flash_kvmo_e.Models.Config.{ModelConfig, is_mla, is_glm4_moe}
use flash_kvmo_e.Models.Specs.{Spec, src, gate_up_down, is_down, is_dense, gpu_tensor_specs}
use flash_kvmo_e.Models.Gguf.{Tensor}

-- `{name: shape for name, _, shape in …}`
unfoldable pub spec_shapes : List Spec → Dict (List ℕ) → Dict (List ℕ)
unfolding set
spec_shapes [] expected = expected
spec_shapes ((name, _, shape) ∷ rest) expected = spec_shapes rest (set name shape expected)

-- `expected.pop(name)`
unfoldable pub pop : String → Dict (List ℕ) → Result (Dict (List ℕ))
unfolding get del
pop name d = do guard (has d name) key_error; ok (del name d)

module _ {F : Type 0} (c : ModelConfig F) where
  -- Older files keep KV-B combined.
  unfoldable pub combine_kv :
      {D : Type 0} → Dict (Tensor D) → List ℕ → Dict (List ℕ) → Result (Dict (List ℕ))
  unfolding pop show
  combine_kv index [] expected = ok expected
  combine_kv index (layer ∷ layers) expected = elim (has index (src layer <> ".attn_kv_b.weight")) [
    | false ↦ combine_kv index layers expected
    | true ↦ do
      without_k ← pop (src layer <> ".attn_k_b.weight") expected
      without_v ← pop (src layer <> ".attn_v_b.weight") without_k
      combine_kv index layers (
          set (src layer <> ".attn_kv_b.weight")
            (c.num_qo_heads * (c.qk_nope_head_dim + c.v_head_dim) ∷ c.kv_lora_rank ∷ []) without_v)
  ]

  abbrev expert_dims : String → List ℕ
  expert_dims proj =
      c.num_experts
      ∷ (if is_down proj
          then c.hidden_size ∷ c.moe_intermediate_size ∷ []
          else c.moe_intermediate_size ∷ c.hidden_size ∷ [])

  unfoldable pub layer_experts : ℕ → List String → Dict (List ℕ) → Dict (List ℕ)
  unfolding set show
  layer_experts layer [] expected = expected
  layer_experts layer (proj ∷ rest) expected =
      layer_experts layer rest
        (set (src layer <> ".ffn_" <> proj <> "_exps.weight") (expert_dims proj) expected)

  -- The layers whose experts are dense have none.
  unfoldable pub add_experts : List ℕ → Dict (List ℕ) → Dict (List ℕ)
  unfolding layer_experts
  add_experts [] expected = expected
  add_experts (layer ∷ layers) expected = add_experts layers (
      if (is_mla c || is_glm4_moe c) && is_dense c layer
      then expected
      else layer_experts layer gate_up_down expected)

  unfoldable pub expected_shapes : {D : Type 0} → Dict (Tensor D) → Result (Dict (List ℕ))
  unfolding spec_shapes gpu_tensor_specs combine_kv add_experts range_from
  expected_shapes index = do
    let layers = range 0 c.num_layers
    let listed = spec_shapes (gpu_tensor_specs c) []
    expected ← if is_mla c then combine_kv index layers listed else ok listed
    ok (add_experts layers expected)

unfoldable pub check_shapes : {D : Type 0} → Dict (Tensor D) → Dict (List ℕ) → Result (Unit {0})
unfolding get
check_shapes index [] = ok tt
check_shapes index ((name, shape) ∷ rest) = elim (get index name) [
  | none ↦ raise value_error
  | some tensor ↦ do
    guard (ids_eq (reverse tensor.shape) shape) value_error
    check_shapes index rest
]
