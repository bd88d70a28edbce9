-- ===== src/Dual/Alone.antt =====
-- Two micro-batches in turns get the results that each gets alone (GLMDualBatchRunner.py).
use flash_kvmo_e.Base.{
  ◌-◌, inr, inl, Bool-cases, range, ◌∙◌, ℕ, zero, suc, ◌+◌, ◌<◌, ◌≡◌, refl, Option, none, some,
  ◌==◌, if◌then◌else◌, arith, ok, range_from,
}
use flash_kvmo_e.Dual.Run.{Outcome-value, Outcome-bind, Outcome, return}
use flash_kvmo_e.Dual.State.{self_attn, Model, Micro, World}
use flash_kvmo_e.Dual.Device.{Device, Flow, attended, after, through_moe}
use flash_kvmo_e.Dual.Turns
use flash_kvmo_e.Dual.Turns.{run_schedule_lem}
use flash_kvmo_e.Dual.Plain.{forward_layer, forward_layers, forward}
use flash_kvmo_e.Dual.Glm.{sparse_mlp, forward_dual, alone}

module _ {T S K B V : Type 0} (M : Model T S K B) (batches : ℕ → B) (attention : ℕ → K)
    (D : Device M batches attention V) where
  abbrev Alone : ℕ → V → World T S K B → Type 0
  Alone mb cache w =
      (w.batch ≡ some (batches mb))
      × (w.attn_backend ≡ attention mb)
      × (D.queue w.device ≡ none)
      × (D.view mb w.device ≡ cache)

  -- The values that a layer hands to the next are those of the flow.
  abbrev Flows : ℕ → Flow T V → T → Option T → World T S K B → Type 0
  Flows mb f x residual w = (x ≡ f.x) × (residual ≡ f.residual) × Alone mb f.cache w

  abbrev through : ℕ → ℕ → Flow T V → Flow T V
  through mb k f = through_moe M batches attention D k (attended M batches attention D mb k f)

  forward_layer_lem :
      (mb k : ℕ) (f : Flow T V) (w : World T S K B)
      → Alone mb f.cache w
      → Outcome
          (λ y. Flows mb (through mb k f) y.0 (some y.1))
          (forward_layer M (sparse_mlp M) k f.x f.residual w)
  unfolding forward_layer self_attn sparse_mlp
  forward_layer_lem mb k f w (b, a, q, c) =
      let n = M.input_layernorm k f.x f.residual in
      let p = M.project k (M.positions (batches mb)) n.0 in
      let (s', run, mine, others, same) = D.attn_forward_law mb k p.0 p.1 p.2 w.device in
      let x = (attended M batches attention D mb k f).x in
      let (s'', run', views, queue) =
        D.wrapper_forward_law k x (M.gate k x).0 (M.gate k x).1 s' (same ∙ q) in
      elim (Bool-cases (M.dense k)) [
        | inl dense ↦
            rw (b, a, run, c, dense) (rw dense refl, refl, (refl, refl, same ∙ q, mine ∙ rw c refl))
        | inr sparse ↦
            rw (b, a, run, c, sparse, run')
              (rw sparse refl, refl, (refl, refl, queue, views mb ∙ mine ∙ rw c refl))
      ]

  forward_layers_lem :
      (mb : ℕ) (cache : V) (n k m : ℕ) (x : T) (residual : Option T) (w : World T S K B)
      → k + n ≡ m
      → Flows mb (after M batches attention D mb cache k) x residual w
      → Outcome
          (λ y. Flows mb (after M batches attention D mb cache m) y.0 y.1)
          (forward_layers M (sparse_mlp M) (range_from k n) x residual w)
  unfolding forward_layers after range_from
  forward_layers_lem mb cache zero k m x residual w end h =
      let e : k ≡ m = omega arith in rw (← e) h
  forward_layers_lem mb cache (suc n) k m x residual w end (e, e', h) =
      let f = after M batches attention D mb cache k in
      rw (e, e')
        (Outcome-bind (λ y. Flows mb (through mb k f) y.0 (some y.1))
          (λ y. Flows mb (after M batches attention D mb cache m) y.0 y.1)
          (forward_layer M (sparse_mlp M) k f.x f.residual w)
          (λ y. forward_layers M (sparse_mlp M) (range_from (suc k) n) y.0 (some y.1))
          (forward_layer_lem mb k f w h)
          (λ y v flows.
            forward_layers_lem mb cache n (suc k) m y.0 (some y.1) v (omega arith) flows))

  abbrev pub result : ℕ → V → T
  result mb cache =
      let f = after M batches attention D mb cache M.layer_num in (M.norm f.x f.residual).0

  forward_lem :
      (mb : ℕ) (w : World T S K B)
      → Alone mb (D.view mb w.device) w
      → Outcome
          (λ h v. h ≡ result mb (D.view mb w.device))
          (forward M (sparse_mlp M) (M.input_ids (batches mb)) w)
  unfolding forward after
  forward_lem mb w h =
      let cache = D.view mb w.device in
      Outcome-bind (λ y. Flows mb (after M batches attention D mb cache M.layer_num) y.0 y.1)
        (λ h v. h ≡ result mb cache)
        (forward_layers M (sparse_mlp M) (range 0 M.layer_num)
          (M.embed_tokens (M.input_ids (batches mb))) none w)
        (λ y. return (M.norm y.0 y.1).0)
        (forward_layers_lem mb cache (M.layer_num - 0) 0 M.layer_num
          (M.embed_tokens (M.input_ids (batches mb))) none w (omega arith) (refl, refl, h))
        (λ y v (e, e', _). rw (e, e') refl)

  pub alone_lem :
      (mb : ℕ) (w : World T S K B)
      → w.batch ≡ none
      → D.queue w.device ≡ none
      → (alone M batches attention mb w).0 ≡ ok (result mb (D.view mb w.device))
  unfolding alone
  alone_lem mb w free idle =
      let v : World T S K B = record w { attn_backend = attention mb; batch = some (batches mb) } in
      let (h, u, run, e) =
        Outcome-value (λ h u. h ≡ result mb (D.view mb w.device))
          (forward M (sparse_mlp M) (M.input_ids (batches mb)) v)
          (forward_lem mb v (refl, refl, idle, refl)) in
      rw (free, run, e) refl

  forward_dual_lem :
      (w : World T S K B)
      → 0 < M.layer_num
      → w.batch ≡ none
      → D.queue w.device ≡ none
      → (forward_dual M batches attention w).0
        ≡ ok (result 0 (D.view 0 w.device), result 1 (D.view 1 w.device))
  unfolding forward_dual after
  forward_dual_lem w pos free idle =
      let first : ℕ → Micro T = λ mb.
        Turns.resting M batches attention D w.device
          (after M batches attention D mb (D.view mb w.device) 0) in
      let v : World T S K B = record w {
        micros = λ i. if 1 == i then first 1 else if 0 == i then first 0 else w.micros i;
      } in
      let (u, run, (m0, m1)) =
        run_schedule_lem M batches attention D w.device v pos free idle refl refl refl refl in
      rw (run, m0, m1) refl

  -- For a model with layers, on a context without a batch and with no job of the experts
  -- open, the two micro-batches in turns return, and what they return are the results that
  -- each of the two gets when it runs through the model alone, with its own backend and from
  -- the same state; that the attention of one micro-batch leaves the cache of the other as it
  -- is, and that the experts answer for what was submitted, is assumed of the device.
  pub forward_dual-forward :
      (w : World T S K B)
      → 0 < M.layer_num
      → w.batch ≡ none
      → D.queue w.device ≡ none
      → (h0 : T) × (h1 : T) × ((forward_dual M batches attention w).0 ≡ ok (h0, h1))
        × ((alone M batches attention 0 w).0 ≡ ok h0)
        × ((alone M batches attention 1 w).0 ≡ ok h1)
  forward_dual-forward w pos free idle = (
    result 0 (D.view 0 w.device),
    result 1 (D.view 1 w.device),
    forward_dual_lem w pos free idle,
    alone_lem 0 w free idle,
    alone_lem 1 w free idle,
  )
