-- ===== src/Models/Config/Shapes.antt =====
-- What `ModelConfig.from_hf` returns (python/minisgl/models/config.py): the dimensions of a model
-- with latent attention, and of one without.
use flash_kvmo_e.Models.Config.{
  merge, Pretrained, set_rope_type, attr_if, from_hf, RotaryConfig, resolve_theta, resolve_head_dim,
  RopeValue, get_or, is_mla, resolve_rotary, build, attr, ModelConfig, HfConfig, check_routing,
  resolve_mla, Floats,
}
use flash_kvmo_e.Base.{
  step, ℕ, Bool, true, false, Option, none, some, ok, ok-injective, >>=-eq-ok, ◌≡◌, refl, subst,
  ◌∙◌, ◌+◌, ap, sym, ◌||◌,
}
use flash_kvmo_e.Base.Texts.{Dict, str_eq}

attr-eq-ok {ℓ} : {A : Type ℓ} (o : Option A) {a : A} → attr o ≡ ok a → o ≡ some a
attr-eq-ok none h = cc
attr-eq-ok (some b) h = cc

attr_if-eq-ok {ℓ} :
    {A : Type ℓ} (wanted : Bool) (o : Option A) (default : A) {a : A}
    → attr_if wanted o default ≡ ok a
    → (wanted ≡ true → o ≡ some a) × (wanted ≡ false → a ≡ default)
attr_if-eq-ok true o default h = (λ _. attr-eq-ok o h, λ e. cc)
attr_if-eq-ok false o default h = (λ e. cc, λ _. sym (ok-injective h))

module _ (fl : Floats) where
  resolve_mla-eq-ok :
      (mla : Bool) (c : HfConfig fl.F) (n h : ℕ) (r : ℕ × ℕ)
      → resolve_mla fl mla c n h ≡ ok r
      → mla ≡ true
      → (nope rope : ℕ) × (c.qk_nope_head_dim ≡ some nope)
        × (c.qk_rope_head_dim ≡ some rope)
        × (r.1 ≡ nope + rope)
  unfolding resolve_mla
  resolve_mla-eq-ok true c n h r run _ =
      let (_, _, run1) = >>=-eq-ok (check_routing fl c) _ run in
      let (_, _, run2) = >>=-eq-ok (attr c.n_routed_experts) _ run1 in
      let (nope, has_nope, run3) = >>=-eq-ok (attr c.qk_nope_head_dim) _ run2 in
      let (rope, has_rope, run4) = >>=-eq-ok (attr c.qk_rope_head_dim) _ run3 in
      (
        nope,
        rope,
        attr-eq-ok c.qk_nope_head_dim has_nope,
        attr-eq-ok c.qk_rope_head_dim has_rope,
        sym (ap (λ p. p.1) (ok-injective run4)),
      )
  resolve_mla-eq-ok false c n h r run e = cc

  resolve_rotary-eq-ok :
      (mla : Bool) (c : HfConfig fl.F) (h : ℕ) (theta : fl.F)
      (scaling : Option (Dict (RopeValue fl.F))) (r : RotaryConfig fl.F)
      → resolve_rotary fl mla c h theta scaling ≡ ok r
      → (mla ≡ true → (c.qk_rope_head_dim ≡ some r.head_dim) × (r.rotary_dim ≡ r.head_dim))
        × (mla ≡ false → r.head_dim ≡ h)
        × (r.base ≡ theta)
  unfolding resolve_rotary
  resolve_rotary-eq-ok true c h theta scaling r run =
      let (dim, has_dim, run1) = >>=-eq-ok (attr c.qk_rope_head_dim) _ run in
      let (_, _, run2) = >>=-eq-ok (attr c.max_position_embeddings) _ run1 in
      subst
        (λ q.
          (true ≡ true → (c.qk_rope_head_dim ≡ some q.head_dim) × (q.rotary_dim ≡ q.head_dim))
          × (true ≡ false → q.head_dim ≡ h)
          × (q.base ≡ theta))
        (ok-injective run2) (λ _. (attr-eq-ok c.qk_rope_head_dim has_dim, refl), λ e. cc, refl)
  resolve_rotary-eq-ok false c h theta scaling r run =
      let (_, _, run2) = >>=-eq-ok (attr c.max_position_embeddings) _ run in
      subst
        (λ q.
          (false ≡ true → (c.qk_rope_head_dim ≡ some q.head_dim) × (q.rotary_dim ≡ q.head_dim))
          × (false ≡ false → q.head_dim ≡ h)
          × (q.base ≡ theta))
        (ok-injective run2) (λ e. cc, λ _. refl, refl)

  -- The dimensions of a model with latent attention, and of one without.
  abbrev pub Shaped : ModelConfig fl.F → Type 0
  Shaped m =
      (is_mla m ≡ true
        → (m.head_dim ≡ m.qk_nope_head_dim + m.qk_rope_head_dim)
          × (m.rotary_config.head_dim ≡ m.qk_rope_head_dim)
          × (m.rotary_config.rotary_dim ≡ m.qk_rope_head_dim))
      × (is_mla m ≡ false
          → (m.rotary_config.head_dim ≡ m.head_dim)
            × (m.kv_lora_rank ≡ 0)
            × (m.qk_rope_head_dim ≡ 0))

  build-Shaped : (c : HfConfig fl.F) (m : ModelConfig fl.F) → build fl c ≡ ok m → Shaped m
  unfolding build
  build-Shaped c m =
      let mla = str_eq (get_or c.model_type "llama") "deepseek_v2" in
      step (attr c.num_attention_heads) λ heads _. step (resolve_head_dim fl c heads) λ own _.
        let listed =
          get_or c.num_local_experts (get_or c.num_experts (get_or c.n_routed_experts 0)) in
        step (resolve_mla fl mla c listed own) λ sizes mla_eq.
          let scaling : Option (Dict (RopeValue fl.F)) = elim c.rope_scaling [
            | none ↦ none
            | some d ↦ some (set_rope_type fl d)
          ] in
          step (resolve_theta fl c.rope_theta scaling) λ theta _.
            step (attr c.num_hidden_layers) λ _ _. step (attr c.hidden_size) λ _ _.
              step (attr c.vocab_size) λ _ _. step (attr c.intermediate_size) λ _ _.
                step (attr c.hidden_act) λ _ _. step (attr c.rms_norm_eps) λ _ _.
                  step (resolve_rotary fl mla c sizes.1 theta scaling) λ rotary rotary_eq.
                    let shared = mla || str_eq (get_or c.model_type "llama") "glm4_moe" in
                    step (attr_if shared c.first_k_dense_replace 0) λ _ _.
                      step (attr_if shared c.n_shared_experts 0) λ _ _.
                        step (attr_if shared c.n_group 1) λ _ _.
                          step (attr_if shared c.topk_group 1) λ _ _.
                            step (attr_if shared c.routed_scaling_factor fl.one) λ _ _.
                              step (attr_if mla c.q_lora_rank 0) λ _ _.
                                step (attr_if mla c.kv_lora_rank 0) λ kv kv_eq.
                                  step (attr_if mla c.qk_nope_head_dim 0) λ nope nope_eq.
                                    step (attr_if mla c.qk_rope_head_dim 0) λ rope rope_eq.
                                      step (attr_if mla c.v_head_dim 0) λ _ _.
                                        let rotary_lem =
                                          resolve_rotary-eq-ok mla c sizes.1 theta scaling rotary
                                            rotary_eq in
                                        let kv_lem = attr_if-eq-ok mla c.kv_lora_rank 0 kv_eq in
                                        let nope_lem =
                                          attr_if-eq-ok mla c.qk_nope_head_dim 0 nope_eq in
                                        let rope_lem =
                                          attr_if-eq-ok mla c.qk_rope_head_dim 0 rope_eq in
                                        λ run. subst Shaped (ok-injective run) (
                                          λ is.
                                              let (n, r, has_n, has_r, sum_eq) =
                                                resolve_mla-eq-ok mla c listed own sizes mla_eq
                                                  is in
                                              let (has_dim, same) = rotary_lem.0 is in
                                              let e = nope_lem.0 is in
                                              let e' = rope_lem.0 is in
                                              let n_eq : n ≡ nope = cc in
                                              let r_eq : r ≡ rope = cc in
                                              let d_eq : rotary.head_dim ≡ rope = cc in
                                              (rw (← n_eq, ← r_eq) sum_eq, d_eq, same ∙ d_eq),
                                          λ no. (rotary_lem.1 no, kv_lem.1 no, rope_lem.1 no),
                                        )

  -- When `from_hf` returns a model with latent attention, its head dimension is
  -- `qk_nope_head_dim + qk_rope_head_dim` and its rotary dimensions are `qk_rope_head_dim`.
  pub from_hf_latent :
      (p : Pretrained fl.F) (m : ModelConfig fl.F)
      → from_hf fl p ≡ ok m
      → is_mla m ≡ true
      → (m.head_dim ≡ m.qk_nope_head_dim + m.qk_rope_head_dim)
        × (m.rotary_config.head_dim ≡ m.qk_rope_head_dim)
        × (m.rotary_config.rotary_dim ≡ m.qk_rope_head_dim)
  unfolding from_hf
  from_hf_latent p m run latent = (build-Shaped (merge fl p) m run).0 latent

  -- When `from_hf` returns any other model, its rotary head dimension is that of its heads, and
  -- the dimensions of a compressed cache are 0.
  pub from_hf_plain :
      (p : Pretrained fl.F) (m : ModelConfig fl.F)
      → from_hf fl p ≡ ok m
      → is_mla m ≡ false
      → (m.rotary_config.head_dim ≡ m.head_dim) × (m.kv_lora_rank ≡ 0) × (m.qk_rope_head_dim ≡ 0)
  unfolding from_hf
  from_hf_plain p m run plain = (build-Shaped (merge fl p) m run).1 plain
