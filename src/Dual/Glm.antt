-- ===== src/Dual/Glm.antt =====
-- `Glm4MoeModel` (GLMDualBatchRunner.py): a batch alone, and two micro-batches in turns.
use flash_kvmo_e.Base.{ℕ, Option, none, some, type_error, if◌then◌else◌}
use flash_kvmo_e.Dual.Run.{Run, return, fail, get_state, finally, ◌>>=◌, ◌>>◌}
use flash_kvmo_e.Dual.State.{
  Model, Micro, World, set_backend, forward_batch, on_device, get_micro, put_micro, get_layer,
  self_attn,
}
use flash_kvmo_e.Dual.Schedule.{run_schedule}
use flash_kvmo_e.Dual.Plain

module _ {T S K B : Type 0} (M : Model T S K B) where
  unfoldable pub sparse_mlp : ℕ → T → Run (World T S K B) T
  sparse_mlp layer x = do
    let (ids, weights) = M.gate layer x
    routed ← on_device (M.wrapper_forward layer x ids weights)
    return (M.add routed (M.shared_experts layer x))

  -- A batch alone.
  abbrev pub forward : T → Run (World T S K B) T
  forward = Plain.forward M sparse_mlp

  -- The part of `submit_attn` in the context of the batch.
  abbrev pub through_attn : ℕ → ℕ → Run (World T S K B) T
  through_attn mb layer_idx = do
    m ← get_micro mb
    let (x1, residual1) = M.input_layernorm layer_idx m.hidden_states m.residual
    put_micro mb (λ m. record m { residual = some residual1 })
    x2 ← self_attn M layer_idx x1
    m' ← get_micro mb
    let (x3, residual2) = M.post_attention_layernorm layer_idx x2 m'.residual
    put_micro mb (λ m. record m { residual = some residual2 })
    return x3

  -- Its part behind the context: a dense layer is run, the experts' inputs are kept.
  abbrev pub enter_mlp : ℕ → ℕ → T → Run (World T S K B) (Unit {0})
  enter_mlp mb layer_idx x =
      if M.dense layer_idx
      then put_micro mb (λ m. record m { hidden_states = M.dense_mlp layer_idx x })
      else (let (ids, weights) = M.gate layer_idx x in
          put_micro mb (λ m. record m { topk_ids = some ids; topk_weights = some weights })
          >> put_micro mb (λ m. record m { shared = some (M.shared_experts layer_idx x) })
          >> put_micro mb (λ m. record m { hidden_states = x }))

  -- `routed.add_(shared)` and what follows it; there is no adding of None.
  abbrev pub take_routed : ℕ → Option T → T → Run (World T S K B) (Unit {0})
  take_routed mb none routed = fail type_error
  take_routed mb (some shared) routed =
      put_micro mb (λ m. record m { hidden_states = M.add routed shared })
      >> put_micro mb (λ m. record m { shared = none })
      >> put_micro mb (λ m. record m { topk_ids = none; topk_weights = none })

  abbrev pub wait_experts : ℕ → ℕ → Micro T → Run (World T S K B) (Unit {0})
  wait_experts mb layer_idx m =
      on_device (M.sync_forward layer_idx m.hidden_states) >>= take_routed mb m.shared

  unfoldable pub submit_moe : ℕ → ℕ → Run (World T S K B) (Unit {0})
  submit_moe mb layer_idx = do
    get_layer M layer_idx
    m ← get_micro mb
    if M.dense layer_idx
        then return tt
        else on_device (M.submit_forward layer_idx m.hidden_states m.topk_ids m.topk_weights)

  unfoldable pub sync_moe : ℕ → ℕ → Run (World T S K B) (Unit {0})
  sync_moe mb layer_idx = do
    get_layer M layer_idx
    m ← get_micro mb
    if M.dense layer_idx then return tt else wait_experts mb layer_idx m

  abbrev pub results : Run (World T S K B) (T × T)
  results = do
    m0 ← get_micro 0
    m1 ← get_micro 1
    return ((M.norm m0.hidden_states m0.residual).0, (M.norm m1.hidden_states m1.residual).0)

  module _ (batches : ℕ → B) (attention : ℕ → K) where
    unfoldable pub submit_attn : ℕ → ℕ → Run (World T S K B) (Unit {0})
    unfolding self_attn
    submit_attn mb layer_idx = do
      get_layer M layer_idx
      set_backend (attention mb)
      x ← forward_batch (batches mb) (through_attn mb layer_idx)
      enter_mlp mb layer_idx x

    abbrev pub start : ℕ → Run (World T S K B) (Unit {0})
    start mb = put_micro mb (λ m. record {
      hidden_states = M.embed_tokens (M.input_ids (batches mb));
      residual = none;
      shared = none;
      topk_ids = none;
      topk_weights = none;
    })

    unfoldable pub forward_dual : Run (World T S K B) (T × T)
    unfolding run_schedule submit_attn submit_moe sync_moe
    forward_dual = do
      start 0
      start 1
      w ← get_state
      finally (run_schedule submit_attn submit_moe sync_moe (return tt) M.layer_num)
          (λ v. record v { attn_backend = w.attn_backend })
      results

    -- One micro-batch through the model by itself, in its context and with its backend.
    unfoldable pub alone : ℕ → Run (World T S K B) T
    alone mb =
        set_backend (attention mb)
        >> forward_batch (batches mb) (forward (M.input_ids (batches mb)))
