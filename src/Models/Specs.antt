-- ===== src/Models/Specs.antt =====
-- The tensors that a checkpoint must have for the GPU (python/minisgl/models/gguf.py): for each its
-- GGUF name, its name at run time and its PyTorch shape.
use flash_kvmo_e.Base.{
  ℕ, ◌+◌, ◌*◌, Bool, List, [], ◌∷◌, ◌++◌, range, range_from, ltb, if◌then◌else◌,
}
use flash_kvmo_e.Base.Texts.{String, ◌<>◌, show, str_eq}
use flash_kvmo_e.Models.Config.{ModelConfig, is_mla, is_glm4_moe}

abbrev pub Spec : Type 0
Spec = String × String × List ℕ

-- `for layer in range(…): yield from …`
unfoldable pub for_layers {ℓ} : {A : Type ℓ} → List ℕ → (ℕ → List A) → List A
for_layers [] body = []
for_layers (layer ∷ layers) body = body layer ++ for_layers layers body

abbrev pub src : ℕ → String
src layer = "blk." <> show layer

abbrev pub dst : ℕ → String
dst layer = "model.layers." <> show layer

abbrev pub is_down : String → Bool
is_down proj = str_eq proj "down"

abbrev pub gate_up_down : List String
gate_up_down = "gate" ∷ "up" ∷ "down" ∷ []

module _ {F : Type 0} (c : ModelConfig F) where
  abbrev all_layers : List ℕ
  all_layers = range 0 c.num_layers

  abbrev heads_of : List (String × ℕ)
  heads_of = ("q", c.num_qo_heads) ∷ ("k", c.num_kv_heads) ∷ ("v", c.num_kv_heads) ∷ []

  -- The weights of the three projections, in the two places that yield them.
  unfoldable pub proj_weights : ℕ → List (String × ℕ) → List Spec
  unfolding show
  proj_weights layer [] = []
  proj_weights layer ((proj, heads) ∷ rest) =
      (
        src layer <> ".attn_" <> proj <> ".weight",
        dst layer <> ".self_attn." <> proj <> "_proj.weight",
        heads * c.head_dim ∷ c.hidden_size ∷ [],
      )
      ∷ proj_weights layer rest

  unfoldable pub proj_biases : ℕ → List (String × ℕ) → List Spec
  unfolding show
  proj_biases layer [] = []
  proj_biases layer ((proj, heads) ∷ rest) =
      (
        src layer <> ".attn_" <> proj <> ".bias",
        dst layer <> ".self_attn." <> proj <> "_proj.bias",
        heads * c.head_dim ∷ [],
      )
      ∷ proj_biases layer rest

  -- The body of the loop of `_gpu_tensor_specs`, for Qwen3 MoE.
  unfoldable pub qwen3_layer : ℕ → List Spec
  unfolding proj_weights show
  qwen3_layer layer =
      proj_weights layer heads_of
      ++ (
        src layer <> ".attn_output.weight",
        dst layer <> ".self_attn.o_proj.weight",
        c.hidden_size ∷ c.num_qo_heads * c.head_dim ∷ [],
      )
        ∷ (
          src layer <> ".attn_q_norm.weight",
          dst layer <> ".self_attn.q_norm.weight",
          c.head_dim ∷ [],
        )
        ∷ (
          src layer <> ".attn_k_norm.weight",
          dst layer <> ".self_attn.k_norm.weight",
          c.head_dim ∷ [],
        )
        ∷ (
          src layer <> ".attn_norm.weight",
          dst layer <> ".input_layernorm.weight",
          c.hidden_size ∷ [],
        )
        ∷ (
          src layer <> ".ffn_norm.weight",
          dst layer <> ".post_attention_layernorm.weight",
          c.hidden_size ∷ [],
        )
        ∷ (
          src layer <> ".ffn_gate_inp.weight",
          dst layer <> ".mlp.gate.weight",
          c.num_experts ∷ c.hidden_size ∷ [],
        )
        ∷ []

  abbrev pub is_dense : ℕ → Bool
  is_dense layer = ltb layer c.first_k_dense_replace

  abbrev intermediate : ℕ → ℕ
  intermediate layer =
      if is_dense layer then c.intermediate_size else c.n_shared_experts * c.moe_intermediate_size

  -- `for proj in ("gate", "up", "down")`, the last loop of the two families with shared experts.
  unfoldable pub shared_mlp : ℕ → List String → List Spec
  unfolding show
  shared_mlp layer [] = []
  shared_mlp layer (proj ∷ rest) =
      let suffix : String = if is_dense layer then "" else "_shexp" in
      let mlp = dst layer <> (if is_dense layer then ".mlp" else ".mlp.shared_experts") in
      let shape : List ℕ =
        if is_down proj
        then c.hidden_size ∷ intermediate layer ∷ []
        else intermediate layer ∷ c.hidden_size ∷ [] in
      (
        src layer <> ".ffn_" <> proj <> suffix <> ".weight",
        mlp <> "." <> proj <> "_proj.weight",
        shape,
      )
      ∷ shared_mlp layer rest

  unfoldable pub glm4_layer : ℕ → List Spec
  unfolding proj_weights proj_biases shared_mlp show
  glm4_layer layer =
      proj_weights layer heads_of
      ++ proj_biases layer heads_of
      ++ (
        src layer <> ".attn_output.weight",
        dst layer <> ".self_attn.o_proj.weight",
        c.hidden_size ∷ c.num_qo_heads * c.head_dim ∷ [],
      )
        ∷ (
          src layer <> ".attn_norm.weight",
          dst layer <> ".input_layernorm.weight",
          c.hidden_size ∷ [],
        )
        ∷ (
          src layer <> ".post_attention_norm.weight",
          dst layer <> ".post_attention_layernorm.weight",
          c.hidden_size ∷ [],
        )
        ∷ (if is_dense layer
            then []
            else (
              src layer <> ".ffn_gate_inp.weight",
              dst layer <> ".mlp.gate.weight",
              c.num_experts ∷ c.hidden_size ∷ [],
            )
              ∷ (
                src layer <> ".exp_probs_b.bias",
                dst layer <> ".mlp.gate.e_score_correction_bias",
                c.num_experts ∷ [],
              )
              ∷ [])
      ++ shared_mlp layer gate_up_down

  -- The name below a layer, the name below its attention, and the shape.
  abbrev latent_specs : List Spec
  latent_specs =
      ("attn_q_a", "q_a_proj", c.q_lora_rank ∷ c.hidden_size ∷ [])
      ∷ ("attn_q_a_norm", "q_a_layernorm", c.q_lora_rank ∷ [])
      ∷ ("attn_q_b", "q_b_proj", c.num_qo_heads * c.head_dim ∷ c.q_lora_rank ∷ [])
      ∷ (
        "attn_kv_a_mqa",
        "kv_a_proj_with_mqa",
        (c.kv_lora_rank + c.qk_rope_head_dim) ∷ c.hidden_size ∷ [],
      )
      ∷ ("attn_kv_a_norm", "kv_a_layernorm", c.kv_lora_rank ∷ [])
      ∷ ("attn_k_b", "k_b_proj", c.num_qo_heads ∷ c.kv_lora_rank ∷ c.qk_nope_head_dim ∷ [])
      ∷ ("attn_v_b", "v_b_proj", c.num_qo_heads ∷ c.v_head_dim ∷ c.kv_lora_rank ∷ [])
      ∷ ("attn_output", "o_proj", c.hidden_size ∷ c.num_qo_heads * c.v_head_dim ∷ [])
      ∷ []

  unfoldable pub latent_layer : ℕ → List Spec → List Spec
  unfolding show
  latent_layer layer [] = []
  latent_layer layer ((name, target, shape) ∷ rest) =
      (
        src layer <> "." <> name <> ".weight",
        dst layer <> ".self_attn." <> target <> ".weight",
        shape,
      )
      ∷ latent_layer layer rest

  unfoldable pub deepseek_layer : ℕ → List Spec
  unfolding latent_layer shared_mlp show
  deepseek_layer layer =
      latent_layer layer latent_specs
      ++ (
        src layer <> ".attn_norm.weight",
        dst layer <> ".input_layernorm.weight",
        c.hidden_size ∷ [],
      )
        ∷ (
          src layer <> ".ffn_norm.weight",
          dst layer <> ".post_attention_layernorm.weight",
          c.hidden_size ∷ [],
        )
        ∷ (if is_dense layer
            then []
            else (
              src layer <> ".ffn_gate_inp.weight",
              dst layer <> ".mlp.gate.weight",
              c.num_experts ∷ c.hidden_size ∷ [],
            )
              ∷ [])
      ++ shared_mlp layer gate_up_down

  unfoldable pub gpu_tensor_specs : List Spec
  unfolding for_layers qwen3_layer glm4_layer deepseek_layer range_from
  gpu_tensor_specs =
      ("token_embd.weight", "model.embed_tokens.weight", c.vocab_size ∷ c.hidden_size ∷ [])
      ∷ ("output_norm.weight", "model.norm.weight", c.hidden_size ∷ [])
      ∷ (
        if c.tie_word_embeddings then "token_embd.weight" else "output.weight",
        "lm_head.weight",
        c.vocab_size ∷ c.hidden_size ∷ [],
      )
      ∷ for_layers all_layers
          (if is_mla c then deepseek_layer else if is_glm4_moe c then glm4_layer else qwen3_layer)
