-- ===== src/Dual/Serial.antt =====
-- The DeepSeek runner's two micro-batches get the results that each gets alone
-- (DeepseekV2DualBatchRunner.py).
use flash_kvmo_e.Base.{ℕ, ◌<◌, ◌≡◌, refl, ◌∙◌, ap, fun_ext, none, ok, ◌==◌, if◌then◌else◌}
use flash_kvmo_e.Dual.Run.{Run, continue, return, ◌>>◌}
use flash_kvmo_e.Dual.State.{Model, Micro, World, set_backend, forward_batch, on_device}
use flash_kvmo_e.Dual.Device.{Device, after}
use flash_kvmo_e.Dual.Plain
use flash_kvmo_e.Dual.Turns.{resting}
use flash_kvmo_e.Dual.Glm
use flash_kvmo_e.Dual.Alone.{result, alone_lem}
use flash_kvmo_e.Dual.Stages.{run_schedule_lem, add_shared-unmerged}
use flash_kvmo_e.Dual.Deepseek.{sparse_mlp, alone, run_pipeline, add_shared}

module _ {T S K B V : Type 0} (M : Model T S K B) (batches : ℕ → B) (attention : ℕ → K)
    (D : Device M batches attention V) (add_comm : (x y : T) → M.add x y ≡ M.add y x) where
  -- The two models add the routed and the shared result in different orders.
  sparse_mlp_same : sparse_mlp M ≡ Glm.sparse_mlp M
  unfolding sparse_mlp Glm.sparse_mlp
  sparse_mlp_same = fun_ext (λ layer. fun_ext (λ x. fun_ext (λ w.
      let call = on_device (M.wrapper_forward layer x (M.gate layer x).0 (M.gate layer x).1) w in
      let shared = M.shared_experts layer x in
      ap (λ (f : T → Run (World T S K B) T). continue call f)
        (fun_ext (λ routed. fun_ext (λ v. ap (λ y. (ok y, v)) (add_comm shared routed)))))))

  alone_same : (mb : ℕ) → alone M batches attention mb ≡ Glm.alone M batches attention mb
  unfolding alone Glm.alone
  alone_same mb =
      ap
        (λ mlp.
          set_backend (attention mb)
          >> forward_batch (batches mb) (Plain.forward M mlp (M.input_ids (batches mb))))
        sparse_mlp_same

  run_pipeline_lem :
      (w : World T S K B)
      → 0 < M.layer_num
      → w.batch ≡ none
      → D.queue w.device ≡ none
      → (run_pipeline M batches attention (return tt) w).0
        ≡ ok (
          result M batches attention D 0 (D.view 0 w.device),
          result M batches attention D 1 (D.view 1 w.device),
        )
  unfolding run_pipeline after
  run_pipeline_lem w pos free idle =
      let first : ℕ → Micro T = λ mb.
        resting M batches attention D w.device
          (after M batches attention D mb (D.view mb w.device) 0) in
      let v : World T S K B = record w {
        micros = λ i. if 1 == i then first 1 else if 0 == i then first 0 else w.micros i;
      } in
      let (u, run, (m0, m1)) =
        run_schedule_lem M batches attention D w.device v pos free idle refl refl refl refl in
      let e0 : add_shared M (u.micros 0) ≡ _ =
        ap (add_shared M) m0 ∙ add_shared-unmerged M batches attention D w.device 0 M.layer_num in
      let e1 : add_shared M (u.micros 1) ≡ _ =
        ap (add_shared M) m1 ∙ add_shared-unmerged M batches attention D w.device 1 M.layer_num in
      rw (run, e0, e1) refl

  -- For a model with layers whose sums do not depend on the order of their two parts, on a
  -- context without a batch and with no job of the experts open, the two micro-batches in turns
  -- return, and what they return are the results that each of the two gets when it runs through
  -- the model alone, with its own backend and from the same state; that the attention of one
  -- micro-batch leaves the cache of the other as it is, and that the experts answer for what
  -- was submitted, is assumed of the device.
  pub run_pipeline-forward :
      (w : World T S K B)
      → 0 < M.layer_num
      → w.batch ≡ none
      → D.queue w.device ≡ none
      → (h0 : T) × (h1 : T) × ((run_pipeline M batches attention (return tt) w).0 ≡ ok (h0, h1))
        × ((alone M batches attention 0 w).0 ≡ ok h0)
        × ((alone M batches attention 1 w).0 ≡ ok h1)
  run_pipeline-forward w pos free idle = (
    result M batches attention D 0 (D.view 0 w.device),
    result M batches attention D 1 (D.view 1 w.device),
    run_pipeline_lem w pos free idle,
    ap (λ m. (m w).0) (alone_same 0) ∙ alone_lem M batches attention D 0 w free idle,
    ap (λ m. (m w).0) (alone_same 1) ∙ alone_lem M batches attention D 1 w free idle,
  )
