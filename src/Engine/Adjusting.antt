-- ===== src/Engine/Adjusting.antt =====
-- What `_adjust_config` accepts and what it leaves (python/minisgl/engine/engine.py).
use flash_kvmo_e.Engine.Padding.{elem}
use flash_kvmo_e.Engine.Config.{
  check_config, is_auto, adjust_config, EngineConfig, adjust_mla, choose_page_size, choose_backend,
}
use flash_kvmo_e.Base.{
  [], ◌∷◌, ==_iff, and_true, if-eq-ok, ℕ, Bool, true, false, ◌&&◌, ok, value_error, ltb, ◌==◌,
  if◌then◌else◌, ◌≡◌, refl, sym, ◌∙◌, subst, ok-injective, step, guard-eq-ok, arith, Bool-cases,
  inl, inr, ◌⊎◌,
}
use flash_kvmo_e.Base.Texts.{String, str_eq, str_eq_iff, contains}
use flash_kvmo_e.Models.Config.{is_mla}

choices :
    (sm90 sm100 : Bool)
    → is_auto (if sm100 then "trtllm" else if sm90 then "fa,fi" else "fi") ≡ false
choices sm90 true = refl
choices true false = refl
choices false false = refl

choose_backend-known :
    (sm90 sm100 : Bool) (backend : String) → is_auto (choose_backend sm90 sm100 backend) ≡ false
unfolding choose_backend
choose_backend-known sm90 sm100 backend = elim (Bool-cases (is_auto backend)) [
  | inl auto ↦ rw auto (choices sm90 sm100)
  | inr known ↦ rw known known
]

choose_backend_of_known :
    (sm90 sm100 : Bool) (backend : String)
    → is_auto backend ≡ false
    → choose_backend sm90 sm100 backend ≡ backend
unfolding choose_backend
choose_backend_of_known sm90 sm100 backend known = rw known refl

choose_page_size-again :
    (backend : String) (n : ℕ)
    → choose_page_size backend (choose_page_size backend n) ≡ choose_page_size backend n
unfolding choose_page_size
choose_page_size-again backend n = ground arith

choose_page_size-trtllm :
    (backend : String) (n : ℕ)
    → (contains backend "trtllm" ≡ false)
      ⊎ (elem (choose_page_size backend n) (16 ∷ 32 ∷ 64 ∷ []) ≡ true)
unfolding choose_page_size elem
choose_page_size-trtllm backend n = ground arith

latent_choice :
    (sm90 sm100 : Bool)
    → str_eq (choose_backend sm90 sm100 "fi") "fi"
        && (choose_page_size (choose_backend sm90 sm100 "fi") 1 == 1)
      ≡ true
unfolding choose_backend choose_page_size
latent_choice sm90 sm100 = refl

module _ {F : Type 0} where
  adjust_mla-eq-ok :
      (c : EngineConfig F) (left : String)
      → adjust_mla c ≡ ok left
      → (is_mla c.model_config ≡ true → (left ≡ "fi") × (c.page_size ≡ 1))
        × (is_mla c.model_config ≡ false → left ≡ c.attention_backend)
  unfolding adjust_mla
  adjust_mla-eq-ok c left run =
      let (latent, plain) = if-eq-ok (is_mla c.model_config) _ (ok c.attention_backend) run in
      (
        λ is.
            let (_, run1) =
              guard-eq-ok
                ((c.model_config.kv_lora_rank == 512)
                  && (c.model_config.qk_rope_head_dim == 64)
                  && ltb 0 c.model_config.q_lora_rank)
                value_error _ (latent is) in
            let backend = if is_auto c.attention_backend then "fi" else c.attention_backend in
            let (tests, run2) =
              guard-eq-ok (str_eq backend "fi" && (c.page_size == 1)) value_error _ run1 in
            let e : backend ≡ left = ok-injective run2 in
            let both = and_true (str_eq backend "fi") (c.page_size == 1) tests in
            (sym e ∙ (str_eq_iff backend "fi").0 both.0, (==_iff c.page_size 1).0 both.1),
        λ is_plain. sym (ok-injective (plain is_plain)),
      )

  -- A latent model that is accepted is accepted again with the backend it was left.
  adjust_mla-again :
      (c : EngineConfig F) (left : String)
      → adjust_mla c ≡ ok left
      → is_mla c.model_config ≡ true
      → adjust_mla (record c { attention_backend = "fi"; page_size = 1 }) ≡ ok "fi"
  unfolding adjust_mla
  adjust_mla-again c left run is =
      let (latent, plain) = if-eq-ok (is_mla c.model_config) _ (ok c.attention_backend) run in
      let sizes =
        (c.model_config.kv_lora_rank == 512)
        && (c.model_config.qk_rope_head_dim == 64)
        && ltb 0 c.model_config.q_lora_rank in
      let (good, _) = guard-eq-ok sizes value_error _ (latent is) in rw (is, good) refl

  abbrev set_up : EngineConfig F → String → ℕ → EngineConfig F
  set_up c backend n = record c { attention_backend = backend; page_size = n }

  check_config-frame :
      (c : EngineConfig F) (backend : String) (n : ℕ)
      → check_config (set_up c backend n) ≡ check_config c
  unfolding check_config
  check_config-frame c backend n = refl

  abbrev adjusted_with : EngineConfig F → Bool → Bool → String → EngineConfig F
  adjusted_with c sm90 sm100 left =
      let backend = choose_backend sm90 sm100 left in
      set_up c backend (choose_page_size backend c.page_size)

  adjust_mla-adjusted :
      (c : EngineConfig F) (sm90 sm100 : Bool) (left : String)
      → adjust_mla c ≡ ok left
      → adjust_mla (adjusted_with c sm90 sm100 left) ≡ ok (choose_backend sm90 sm100 left)
  unfolding adjust_mla choose_backend choose_page_size
  adjust_mla-adjusted c sm90 sm100 left run = elim (Bool-cases (is_mla c.model_config)) [
    | inl is ↦
        let (named, one) = (adjust_mla-eq-ok c left run).0 is in
        rw (named, one) (adjust_mla-again c left run is)
    | inr plain ↦ rw plain refl
  ]

  -- What `_adjust_config` returns is a configuration that it accepts as it is, on any device.
  pub adjust_config-idempotent :
      (sm90 sm100 : Bool) (c adjusted : EngineConfig F)
      → adjust_config sm90 sm100 c ≡ ok adjusted
      → (sm90' sm100' : Bool) → adjust_config sm90' sm100' adjusted ≡ ok adjusted
  unfolding adjust_config
  adjust_config-idempotent sm90 sm100 c adjusted run sm90' sm100' =
      step (check_config c)
        (λ _ checked. step (adjust_mla c) λ left mla_run run'.
          let b = choose_backend sm90 sm100 left in
          subst (λ d. adjust_config sm90' sm100' d ≡ ok d) (ok-injective run')
            (rw
              (
                check_config-frame c b (choose_page_size b c.page_size),
                checked,
                adjust_mla-adjusted c sm90 sm100 left mla_run,
                choose_backend_of_known sm90' sm100' b (choose_backend-known sm90 sm100 left),
                choose_page_size-again b c.page_size,
              )
              refl))
        run

  -- When `_adjust_config` returns, the backend is no longer "auto"; a backend with "trtllm" in its
  -- name has pages of 16, 32 or 64 tokens; and a model with latent attention has the backend "fi"
  -- and pages of one token.
  pub adjust_config-backend :
      (sm90 sm100 : Bool) (c adjusted : EngineConfig F)
      → adjust_config sm90 sm100 c ≡ ok adjusted
      → (is_auto adjusted.attention_backend ≡ false)
        × ((contains adjusted.attention_backend "trtllm" ≡ false)
            ⊎ (elem adjusted.page_size (16 ∷ 32 ∷ 64 ∷ []) ≡ true))
        × ((is_mla adjusted.model_config ≡ false)
            ⊎ (str_eq adjusted.attention_backend "fi" && (adjusted.page_size == 1) ≡ true))
  unfolding adjust_config
  adjust_config-backend sm90 sm100 c adjusted run =
      step (check_config c)
        (λ _ checked. step (adjust_mla c) λ left mla_run run'.
          let b = choose_backend sm90 sm100 left in
          subst
            (λ d.
              (is_auto d.attention_backend ≡ false)
              × ((contains d.attention_backend "trtllm" ≡ false)
                  ⊎ (elem d.page_size (16 ∷ 32 ∷ 64 ∷ []) ≡ true))
              × ((is_mla d.model_config ≡ false)
                  ⊎ (str_eq d.attention_backend "fi" && (d.page_size == 1) ≡ true)))
            (ok-injective run')
            (
              choose_backend-known sm90 sm100 left,
              choose_page_size-trtllm b c.page_size,
              elim (Bool-cases (is_mla c.model_config)) [
                | inl is ↦
                    let (named, one) = (adjust_mla-eq-ok c left mla_run).0 is in
                    inr (rw (named, one) (latent_choice sm90 sm100))
                | inr plain ↦ inl plain
              ],
            ))
        run
