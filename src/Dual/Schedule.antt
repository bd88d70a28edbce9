-- ===== src/Dual/Schedule.antt =====
-- The order of the calls in `Glm4MoeModel.forward_dual` and
-- `DeepseekV2DualBatchRunner._run_pipeline`.
use flash_kvmo_e.Base.{ℕ, ◌+◌, ◌-◌, ◌*◌, ◌/◌, ◌%◌, List, [], ◌∷◌, range, ◌==◌, if◌then◌else◌}
use flash_kvmo_e.Dual.Run.{Run, return, ◌>>◌}

-- `synchronize` ends a slot: only the second runner has it.
module _ {W : Type 0} (submit_attn submit_moe sync_moe : ℕ → ℕ → Run W (Unit {0}))
    (synchronize : Run W (Unit {0})) (layer_num : ℕ) where
  -- The last step is `overlap_steps + 1`, which is twice the number of layers.
  unfoldable pub run_slot : ℕ → Run W (Unit {0})
  run_slot step =
      (if step == 0
        then submit_attn 0 0
        else if step == 2 * layer_num
        then submit_moe 1 (layer_num - 1) >> sync_moe 1 (layer_num - 1)
        else (let attn_batch = step % 2 in
            let moe_batch = 1 - attn_batch in
            let attn_layer = step / 2 in
            let moe_layer = (step - 1) / 2 in
            submit_moe moe_batch moe_layer
            >> submit_attn attn_batch attn_layer
            >> sync_moe moe_batch moe_layer))
      >> synchronize

  unfoldable pub run_slots : List ℕ → Run W (Unit {0})
  unfolding run_slot
  run_slots [] = return tt
  run_slots (step ∷ steps) = run_slot step >> run_slots steps

  unfoldable pub run_schedule : Run W (Unit {0})
  unfolding run_slots
  run_schedule = run_slots (range 0 (2 * layer_num + 1))
