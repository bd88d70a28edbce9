-- ===== src/Dual/Deepseek.antt =====
-- `DeepseekModel` (python/minisgl/models/deepseek_v2.py) and two micro-batches through it in turns
-- (DeepseekV2DualBatchRunner.py). The shared experts of a layer are added to the routed ones at
-- the start of the next, a dense layer is run where the experts are submitted.
use flash_kvmo_e.Base.{ℕ, none, some, if◌then◌else◌}
use flash_kvmo_e.Dual.Run.{Run, return, get_state, ◌>>=◌, ◌>>◌}
use flash_kvmo_e.Dual.State.{
  Model, Micro, World, set_backend, forward_batch, on_device, get_micro, put_micro, get_layer,
  self_attn,
}
use flash_kvmo_e.Dual.Schedule.{run_schedule}
use flash_kvmo_e.Dual.Plain

module _ {T S K B : Type 0} (M : Model T S K B) where
  -- `DeepseekMoE.forward`
  unfoldable pub sparse_mlp : ℕ → T → Run (World T S K B) T
  sparse_mlp layer x = do
    let (ids, weights) = M.gate layer x
    let shared = M.shared_experts layer x
    routed ← on_device (M.wrapper_forward layer x ids weights)
    return (M.add shared routed)

  -- `hidden_states + shared`, if there is a shared result.
  abbrev pub add_shared : Micro T → Micro T
  add_shared m = elim m.shared [
    | none ↦ m
    | some shared ↦ record m { hidden_states = M.add m.hidden_states shared; shared = none }
  ]

  abbrev pub through_attn : ℕ → ℕ → Run (World T S K B) T
  through_attn mb layer_idx = do
    m ← get_micro mb
    let (x1, residual1) = M.input_layernorm layer_idx m.hidden_states m.residual
    put_micro mb (λ m. record m { residual = some residual1 })
    x2 ← self_attn M layer_idx x1
    m' ← get_micro mb
    let (x3, residual2) = M.post_attention_layernorm layer_idx x2 m'.residual
    put_micro mb (λ m. record m { residual = some residual2 })
    return x3

  abbrev pub enter_mlp : ℕ → ℕ → T → Run (World T S K B) (Unit {0})
  enter_mlp mb layer_idx x =
      put_micro mb (λ m. record m { hidden_states = x })
      >> (if M.dense layer_idx
          then return tt
          else (let (ids, weights) = M.gate layer_idx x in
              put_micro mb (λ m. record m { topk_ids = some ids; topk_weights = some weights })
              >> put_micro mb (λ m. record m { shared = some (M.shared_experts layer_idx x) })))

  unfoldable pub submit_moe : ℕ → ℕ → Run (World T S K B) (Unit {0})
  submit_moe mb layer_idx = do
    get_layer M layer_idx
    m ← get_micro mb
    if M.dense layer_idx
        then put_micro mb (λ m. record m { hidden_states = M.dense_mlp layer_idx m.hidden_states })
        else on_device (M.submit_forward layer_idx m.hidden_states m.topk_ids m.topk_weights)

  abbrev pub take_output : ℕ → T → Run (World T S K B) (Unit {0})
  take_output mb output =
      put_micro mb (λ m. record m { hidden_states = output })
      >> put_micro mb (λ m. record m { topk_ids = none; topk_weights = none })

  unfoldable pub sync_moe : ℕ → ℕ → Run (World T S K B) (Unit {0})
  sync_moe mb layer_idx = do
    get_layer M layer_idx
    m ← get_micro mb
    if M.dense layer_idx
        then return tt
        else on_device (M.sync_forward layer_idx m.hidden_states) >>= take_output mb

  abbrev pub results : Run (World T S K B) (T × T)
  results = do
    put_micro 0 add_shared
    put_micro 1 add_shared
    m0 ← get_micro 0
    m1 ← get_micro 1
    return ((M.norm m0.hidden_states m0.residual).0, (M.norm m1.hidden_states m1.residual).0)

  module _ (batches : ℕ → B) (attention : ℕ → K) where
    unfoldable pub submit_attn : ℕ → ℕ → Run (World T S K B) (Unit {0})
    unfolding self_attn
    submit_attn mb layer_idx = do
      get_layer M layer_idx
      put_micro mb add_shared
      set_backend (attention mb)
      x ← forward_batch (batches mb) (through_attn mb layer_idx)
      enter_mlp mb layer_idx x

    abbrev pub start : ℕ → Run (World T S K B) (Unit {0})
    start mb = put_micro mb (λ m. record {
      hidden_states = M.embed_tokens (M.input_ids (batches mb));
      residual = none;
      shared = none;
      topk_ids = none;
      topk_weights = none;
    })

    -- `_run_pipeline`, behind the checks and the planning. `synchronize` is the wait for the stream at
    -- the end of a slot, which the model does not show to be needed: its calls run in their order.
    -- Tensors are values, so that a clone is the tensor itself. An exception leaves the backend of the micro-batch that ran.
    unfoldable pub run_pipeline : Run (World T S K B) (Unit {0}) → Run (World T S K B) (T × T)
    unfolding run_schedule submit_attn submit_moe sync_moe
    run_pipeline synchronize = do
      start 0
      start 1
      w ← get_state
      run_schedule submit_attn submit_moe sync_moe synchronize M.layer_num
      set_backend w.attn_backend
      results

    -- One micro-batch through the model by itself, in its context and with its backend.
    unfoldable pub alone : ℕ → Run (World T S K B) T
    alone mb =
        set_backend (attention mb)
        >> forward_batch (batches mb) (Plain.forward M sparse_mlp (M.input_ids (batches mb)))
