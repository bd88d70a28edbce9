-- ===== src/Models/Config.antt =====
-- `RotaryConfig` and `ModelConfig` (python/minisgl/models/config.py). Floats are a parameter. The
-- configuration of transformers is a record of its attributes: `none` is a missing attribute, and
-- for those that the code tests for truth (`head_dim`, `rope_theta`, `rope_scaling`, `text_config`)
-- also one that is None. Any other attribute that is there has a value of its type.
pub mod Shapes
use flash_kvmo_e.Base.{
  zero_division, ℕ, ◌+◌, ◌/◌, Bool, true, false, ◌&&◌, ◌||◌, not, Option, none, some, List, [], ◌∷◌,
  Result, ok, raise, attribute_error, key_error, type_error, value_error, guard, ◌>>=◌, ◌>>◌, ltb,
  ◌==◌, if◌then◌else◌,
}
use flash_kvmo_e.Base.Texts.{String, str_eq, Dict, get, has, set}

pub record Floats : Type 1 where
  pub F : Type 0
  pub one : F
  pub is_zero : F → Bool
  -- `int(n * x)`
  pub int_mul : ℕ → F → ℕ

pub data RopeValue (F : Type 0) : Type 0 where
  text : String → RopeValue F
  number : F → RopeValue F

pub record RotaryConfig (F : Type 0) : Type 0 where
  pub head_dim : ℕ
  pub rotary_dim : ℕ
  pub max_position : ℕ
  pub base : F
  pub scaling : Option (Dict (RopeValue F))

pub record ModelConfig (F : Type 0) : Type 0 where
  pub num_layers : ℕ
  pub num_qo_heads : ℕ
  pub num_kv_heads : ℕ
  pub head_dim : ℕ
  pub hidden_size : ℕ
  pub vocab_size : ℕ
  pub intermediate_size : ℕ
  pub rms_norm_eps : F
  pub rotary_config : RotaryConfig F
  pub hidden_act : String
  pub tie_word_embeddings : Bool
  pub num_experts : ℕ
  pub num_experts_per_tok : ℕ
  pub moe_intermediate_size : ℕ
  pub norm_topk_prob : Bool
  pub model_type : String
  pub architectures : List String
  pub q_lora_rank : ℕ
  pub kv_lora_rank : ℕ
  pub qk_nope_head_dim : ℕ
  pub qk_rope_head_dim : ℕ
  pub v_head_dim : ℕ
  pub first_k_dense_replace : ℕ
  pub n_shared_experts : ℕ
  pub n_group : ℕ
  pub topk_group : ℕ
  pub routed_scaling_factor : F

module _ {F : Type 0} where
  abbrev pub is_mla : ModelConfig F → Bool
  is_mla c = str_eq c.model_type "deepseek_v2"

  abbrev pub is_moe : ModelConfig F → Bool
  is_moe c = ltb 0 c.num_experts

  abbrev pub is_glm4_moe : ModelConfig F → Bool
  is_glm4_moe c = str_eq c.model_type "glm4_moe"

pub record HfConfig (F : Type 0) : Type 0 where
  pub architectures : Option (List String)
  pub rope_theta : Option F
  pub rope_scaling : Option (Dict (RopeValue F))
  pub num_attention_heads : Option ℕ
  pub num_key_value_heads : Option ℕ
  pub head_dim : Option ℕ
  pub hidden_size : Option ℕ
  pub tie_word_embeddings : Option Bool
  pub model_type : Option String
  pub num_local_experts : Option ℕ
  pub num_experts : Option ℕ
  pub n_routed_experts : Option ℕ
  pub num_experts_per_tok : Option ℕ
  pub moe_intermediate_size : Option ℕ
  pub norm_topk_prob : Option Bool
  pub scoring_func : Option String
  pub topk_method : Option String
  pub moe_layer_freq : Option ℕ
  pub num_hidden_layers : Option ℕ
  pub vocab_size : Option ℕ
  pub intermediate_size : Option ℕ
  pub hidden_act : Option String
  pub rms_norm_eps : Option F
  pub max_position_embeddings : Option ℕ
  pub partial_rotary_factor : Option F
  pub first_k_dense_replace : Option ℕ
  pub n_shared_experts : Option ℕ
  pub n_group : Option ℕ
  pub topk_group : Option ℕ
  pub routed_scaling_factor : Option F
  pub q_lora_rank : Option ℕ
  pub kv_lora_rank : Option ℕ
  pub qk_nope_head_dim : Option ℕ
  pub qk_rope_head_dim : Option ℕ
  pub v_head_dim : Option ℕ

-- `config.name`, and `getattr(config, "name", default)`.
abbrev pub attr {ℓ} : {A : Type ℓ} → Option A → Result A
attr none = raise attribute_error
attr (some a) = ok a

abbrev pub get_or {ℓ} : {A : Type ℓ} → Option A → A → A
get_or none default = default
get_or (some a) default = a

-- `getattr(config, name, default) if wanted`, where the field has a default of its own.
abbrev pub attr_if {ℓ} : {A : Type ℓ} → Bool → Option A → A → Result A
attr_if true a default = attr a
attr_if false a default = ok default

abbrev nonempty {ℓ} : {A : Type ℓ} → Option (List A) → Bool
nonempty none = false
nonempty (some []) = false
nonempty (some (x ∷ xs)) = true

pub record Pretrained (F : Type 0) : Type 0 where
  pub top : HfConfig F
  pub text_config : Option (HfConfig F)

module _ (fl : Floats) where
  abbrev nonzero : Option fl.F → Bool
  nonzero none = false
  nonzero (some x) = not (fl.is_zero x)

  -- What `config` is after the first statement: the text configuration, with what it lacks of
  -- three attributes taken from the outer one.
  unfoldable pub merge : Pretrained fl.F → HfConfig fl.F
  merge p = elim p.text_config [
    | none ↦ p.top
    | some inner ↦ record inner {
      architectures =
          if not (nonempty inner.architectures) && nonempty p.top.architectures
          then p.top.architectures
          else inner.architectures;
      rope_theta =
          if not (nonzero inner.rope_theta) && nonzero p.top.rope_theta
          then p.top.rope_theta
          else inner.rope_theta;
      rope_scaling =
          if not (nonempty inner.rope_scaling) && nonempty p.top.rope_scaling
          then p.top.rope_scaling
          else inner.rope_scaling;
    }
  ]

  -- `getattr(config, "head_dim", None) or config.hidden_size // config.num_attention_heads`
  unfoldable pub resolve_head_dim : HfConfig fl.F → ℕ → Result ℕ
  resolve_head_dim c heads =
      let divided : Result ℕ = (do
        hidden ← attr c.hidden_size
        guard (ltb 0 heads) zero_division
        ok (hidden / heads)) in
      elim c.head_dim [ none ↦ divided | some d ↦ if d == 0 then divided else ok d ]

  -- `rope_scaling.setdefault("rope_type", rope_scaling.get("type", "default"))`
  unfoldable pub set_rope_type : Dict (RopeValue fl.F) → Dict (RopeValue fl.F)
  unfolding get set
  set_rope_type d =
      if has d "rope_type" then d else set "rope_type" (get_or (get d "type") (text "default")) d

  -- `getattr(config, "rope_theta", None) or rope_scaling["rope_theta"]`
  unfoldable pub resolve_theta : Option fl.F → Option (Dict (RopeValue fl.F)) → Result fl.F
  unfolding get
  resolve_theta theta scaling =
      let inside : Result fl.F = elim scaling [
        | none ↦ raise type_error
        | some d ↦ elim (get d "rope_theta") [
          | none ↦ raise key_error
          | some (text s) ↦ raise type_error
          | some (number x) ↦ ok x
        ]
      ] in
      elim theta [ none ↦ inside | some x ↦ if fl.is_zero x then inside else ok x ]

  -- The routing that the MLA models must have.
  unfoldable pub check_routing : HfConfig fl.F → Result (Unit {0})
  check_routing c = do
    scoring ← attr c.scoring_func
    topk ← attr c.topk_method
    freq ← attr c.moe_layer_freq
    guard (str_eq scoring "softmax" && str_eq topk "group_limited_greedy" && (freq == 1))
        value_error

  abbrev rotary_dim : HfConfig fl.F → ℕ → ℕ
  rotary_dim c head_dim = fl.int_mul head_dim (get_or c.partial_rotary_factor fl.one)

  -- The number of experts and the head dimension, which an MLA model computes otherwise.
  unfoldable pub resolve_mla : Bool → HfConfig fl.F → ℕ → ℕ → Result (ℕ × ℕ)
  unfolding check_routing
  resolve_mla false c num_experts head_dim = ok (num_experts, head_dim)
  resolve_mla true c num_experts head_dim = do
    check_routing c
    experts ← attr c.n_routed_experts
    nope ← attr c.qk_nope_head_dim
    rope ← attr c.qk_rope_head_dim
    ok (experts, nope + rope)

  unfoldable pub resolve_rotary :
      Bool → HfConfig fl.F → ℕ → fl.F → Option (Dict (RopeValue fl.F)) → Result (RotaryConfig fl.F)
  resolve_rotary mla c head_dim theta scaling = do
    dim ← if mla then attr c.qk_rope_head_dim else ok head_dim
    max_position ← attr c.max_position_embeddings
    ok (record {
      head_dim = dim;
      rotary_dim = if mla then dim else rotary_dim c head_dim;
      max_position = max_position;
      base = theta;
      scaling = scaling;
    })

  unfoldable pub build : HfConfig fl.F → Result (ModelConfig fl.F)
  unfolding resolve_head_dim set_rope_type resolve_theta resolve_mla resolve_rotary
  build c = do
    heads ← attr c.num_attention_heads
    own_head_dim ← resolve_head_dim c heads
    let model_type = get_or c.model_type "llama"
    let mla = str_eq model_type "deepseek_v2"
    let shared_moe = mla || str_eq model_type "glm4_moe"
    let listed = get_or c.num_local_experts (get_or c.num_experts (get_or c.n_routed_experts 0))
    (num_experts, head_dim) ← resolve_mla mla c listed own_head_dim
    let scaling : Option (Dict (RopeValue fl.F)) = elim c.rope_scaling [
      | none ↦ none
      | some d ↦ some (set_rope_type d)
    ]
    theta ← resolve_theta c.rope_theta scaling
    num_layers ← attr c.num_hidden_layers
    hidden_size ← attr c.hidden_size
    vocab_size ← attr c.vocab_size
    intermediate_size ← attr c.intermediate_size
    hidden_act ← attr c.hidden_act
    rms_norm_eps ← attr c.rms_norm_eps
    rotary_config ← resolve_rotary mla c head_dim theta scaling
    first_k ← attr_if shared_moe c.first_k_dense_replace 0
    n_shared ← attr_if shared_moe c.n_shared_experts 0
    n_group ← attr_if shared_moe c.n_group 1
    topk_group ← attr_if shared_moe c.topk_group 1
    factor ← attr_if shared_moe c.routed_scaling_factor fl.one
    q_lora ← attr_if mla c.q_lora_rank 0
    kv_lora ← attr_if mla c.kv_lora_rank 0
    nope ← attr_if mla c.qk_nope_head_dim 0
    rope ← attr_if mla c.qk_rope_head_dim 0
    v_head ← attr_if mla c.v_head_dim 0
    ok (record {
      num_layers = num_layers;
      num_qo_heads = heads;
      num_kv_heads = get_or c.num_key_value_heads heads;
      head_dim = head_dim;
      hidden_size = hidden_size;
      vocab_size = vocab_size;
      intermediate_size = intermediate_size;
      rms_norm_eps = rms_norm_eps;
      rotary_config = rotary_config;
      hidden_act = hidden_act;
      tie_word_embeddings = get_or c.tie_word_embeddings false;
      num_experts = num_experts;
      num_experts_per_tok = get_or c.num_experts_per_tok 0;
      moe_intermediate_size = get_or c.moe_intermediate_size 0;
      norm_topk_prob = get_or c.norm_topk_prob false;
      model_type = model_type;
      architectures = get_or c.architectures ("LlamaForCausalLM" ∷ []);
      q_lora_rank = q_lora;
      kv_lora_rank = kv_lora;
      qk_nope_head_dim = nope;
      qk_rope_head_dim = rope;
      v_head_dim = v_head;
      first_k_dense_replace = first_k;
      n_shared_experts = n_shared;
      n_group = n_group;
      topk_group = topk_group;
      routed_scaling_factor = factor;
    })

  unfoldable pub from_hf : Pretrained fl.F → Result (ModelConfig fl.F)
  unfolding merge build
  from_hf p = build (merge p)
