-- ===== src/Dual/Restored.antt =====
-- What `Glm4MoeModel.forward_dual` leaves in the context, exceptions included.
use flash_kvmo_e.Base.{
  ◌+◌, range, ◌/◌, ◌%◌, ◌*◌, ◌==◌, ◌-◌, inr, inl, Bool-cases, index_error, ltb, ℕ, ◌≡◌, refl,
  Option, none, some, ok, raise, Result, Bool, true, false, List, [], ◌∷◌, if◌then◌else◌,
}
use flash_kvmo_e.Dual.Run.{Run, continue, return, fail, ◌>>=◌, ◌>>◌}
use flash_kvmo_e.Dual.State.{
  Model, Micro, World, set_backend, forward_batch, on_device, get_micro, put_micro, get_layer,
}
use flash_kvmo_e.Dual.Schedule.{run_schedule, run_slots, run_slot}
use flash_kvmo_e.Dual.Glm.{
  start, results, wait_experts, take_routed, through_attn, enter_mlp, submit_attn, submit_moe,
  sync_moe, forward_dual,
}

module _ {T S K B : Type 0} where
  -- A call that finds no batch in the context leaves none there, whether it returns or raises.
  record Clean {A : Type 0} (m : Run (World T S K B) A) : Type 0 where
    leaves : (w : World T S K B) → w.batch ≡ none → (m w).1.batch ≡ none

  Clean-bind :
      {A C : Type 0} (m : Run (World T S K B) A) (f : A → Run (World T S K B) C)
      → Clean m
      → ((a : A) → Clean (f a))
      → Clean (m >>= f)
  Clean-bind m f h k = record { leaves = λ w e. go (m w) (h.leaves w e) }
    where
      go : (r : Result _ × World T S K B) → r.1.batch ≡ none → (continue r f).1.batch ≡ none
      go (ok a, v) e' = (k a).leaves v e'
      go (raise x, v) e' = e'

  Clean-if :
      {A : Type 0} (b : Bool) (m n : Run (World T S K B) A)
      → Clean m
      → Clean n
      → Clean (if b then m else n)
  Clean-if true m n h k = h
  Clean-if false m n h k = k

  Clean-put_micro :
      (mb : ℕ) (f : Micro T → Micro T) → Clean (put_micro {S = S} {K = K} {B = B} mb f)
  Clean-put_micro mb f = record { leaves = λ w e. e }

  Clean-on_device : {A : Type 0} (call : Run S A) → Clean (on_device {T = T} {K = K} {B = B} call)
  Clean-on_device call = record { leaves = λ w e. e }

  Clean-forward_batch :
      {A : Type 0} (b : B) (body : Run (World T S K B) A) → Clean (forward_batch b body)
  Clean-forward_batch b body = record { leaves = λ w e. rw e refl }

module _ {T S K B : Type 0} (M : Model T S K B) (batches : ℕ → B) (attention : ℕ → K) where
  Clean-get_layer : (k : ℕ) → Clean (get_layer M k)
  Clean-get_layer k =
      Clean-if (ltb k M.layer_num) (return tt) (fail index_error) (record { leaves = λ w e. e })
        (record { leaves = λ w e. e })

  Clean-submit_moe : (mb k : ℕ) → Clean (submit_moe M mb k)
  unfolding submit_moe
  Clean-submit_moe mb k = Clean-bind (get_layer M k) _ (Clean-get_layer k) (λ _.
      Clean-bind (get_micro mb) _ (record { leaves = λ w e. e })
        (λ m.
          let call = on_device (M.submit_forward k m.hidden_states m.topk_ids m.topk_weights) in
          Clean-if (M.dense k) (return tt) call (record { leaves = λ w e. e })
            (Clean-on_device (M.submit_forward k m.hidden_states m.topk_ids m.topk_weights))))

  Clean-take_routed : (mb : ℕ) (o : Option T) (routed : T) → Clean (take_routed M mb o routed)
  Clean-take_routed mb none routed = record { leaves = λ w e. e }
  Clean-take_routed mb (some shared) routed = record { leaves = λ w e. e }

  Clean-sync_moe : (mb k : ℕ) → Clean (sync_moe M mb k)
  unfolding sync_moe
  Clean-sync_moe mb k = Clean-bind (get_layer M k) _ (Clean-get_layer k) (λ _.
      Clean-bind (get_micro mb) _ (record { leaves = λ w e. e })
        (λ m.
          Clean-if (M.dense k) (return tt) (wait_experts M mb k m) (record { leaves = λ w e. e })
            (Clean-bind (on_device (M.sync_forward k m.hidden_states)) (take_routed M mb m.shared)
              (Clean-on_device (M.sync_forward k m.hidden_states))
              (Clean-take_routed mb m.shared))))

  Clean-enter_mlp : (mb k : ℕ) (x : T) → Clean (enter_mlp M mb k x)
  Clean-enter_mlp mb k x = record {
    leaves = λ w e. elim (Bool-cases (M.dense k)) [ inl d ↦ rw d e | inr d ↦ rw d e ];
  }

  Clean-submit_attn : (mb k : ℕ) → Clean (submit_attn M batches attention mb k)
  unfolding submit_attn
  Clean-submit_attn mb k = Clean-bind (get_layer M k) _ (Clean-get_layer k) (λ _.
      Clean-bind (set_backend (attention mb)) _ (record { leaves = λ w e. e })
        (λ _.
          Clean-bind (forward_batch (batches mb) (through_attn M mb k)) (enter_mlp M mb k)
            (Clean-forward_batch (batches mb) (through_attn M mb k)) (Clean-enter_mlp mb k)))

  abbrev slot : ℕ → Run (World T S K B) (Unit {0})
  slot =
      run_slot (submit_attn M batches attention) (submit_moe M) (sync_moe M) (return tt) M.layer_num

  abbrev overlap : ℕ → ℕ → ℕ → ℕ → Run (World T S K B) (Unit {0})
  overlap i j k l = submit_moe M j l >> submit_attn M batches attention i k >> sync_moe M j l

  abbrev last : Run (World T S K B) (Unit {0})
  last = submit_moe M 1 (M.layer_num - 1) >> sync_moe M 1 (M.layer_num - 1)

  Clean-overlap : (i j k l : ℕ) → Clean (overlap i j k l)
  Clean-overlap i j k l =
      Clean-bind (submit_moe M j l >> submit_attn M batches attention i k) _
        (Clean-bind (submit_moe M j l) _ (Clean-submit_moe j l) (λ _. Clean-submit_attn i k))
        (λ _. Clean-sync_moe j l)

  Clean-last : Clean last
  Clean-last =
      Clean-bind (submit_moe M 1 (M.layer_num - 1)) _ (Clean-submit_moe 1 (M.layer_num - 1))
        (λ _. Clean-sync_moe 1 (M.layer_num - 1))

  Clean-slot : (step : ℕ) → Clean (slot step)
  unfolding run_slot
  Clean-slot step =
      Clean-bind
        (if step == 0
          then submit_attn M batches attention 0 0
          else if step == 2 * M.layer_num
          then last
          else overlap (step % 2) (1 - step % 2) (step / 2) ((step - 1) / 2))
        _
        (Clean-if (step == 0) (submit_attn M batches attention 0 0)
          (if step == 2 * M.layer_num
            then last
            else overlap (step % 2) (1 - step % 2) (step / 2) ((step - 1) / 2))
          (Clean-submit_attn 0 0)
          (Clean-if (step == 2 * M.layer_num) last
            (overlap (step % 2) (1 - step % 2) (step / 2) ((step - 1) / 2)) Clean-last
            (Clean-overlap (step % 2) (1 - step % 2) (step / 2) ((step - 1) / 2))))
        (λ _. record { leaves = λ w e. e })

  Clean-run_slots :
      (steps : List ℕ)
      → Clean (
          run_slots
            (submit_attn M batches attention)
            (submit_moe M)
            (sync_moe M)
            (return tt)
            M.layer_num
            steps)
  unfolding run_slots
  Clean-run_slots [] = record { leaves = λ w e. e }
  Clean-run_slots (step ∷ steps) =
      Clean-bind (slot step) _ (Clean-slot step) (λ _. Clean-run_slots steps)

  -- Whatever the device does, and whether the two micro-batches return or a call raises: a
  -- context without a batch ends without one, and with the attention backend that it began with.
  pub forward_dual-Restored :
      (w : World T S K B)
      → w.batch ≡ none
      → ((forward_dual M batches attention w).1.attn_backend ≡ w.attn_backend)
        × ((forward_dual M batches attention w).1.batch ≡ none)
  unfolding forward_dual run_schedule
  forward_dual-Restored w free =
      let v = (start M batches attention 1 (start M batches attention 0 w).1).1 in
      let steps = range 0 (2 * M.layer_num + 1) in
      ends
        (run_slots (submit_attn M batches attention) (submit_moe M) (sync_moe M) (return tt)
          M.layer_num steps v)
        ((Clean-run_slots steps).leaves v free)
    where
      ends :
          (r : Result (Unit {0}) × World T S K B)
          → r.1.batch ≡ none
          → (let u : World T S K B = record (r.1) { attn_backend = w.attn_backend } in
              ((continue (r.0, u) (λ _. results M)).1.attn_backend ≡ w.attn_backend)
              × ((continue (r.0, u) (λ _. results M)).1.batch ≡ none))
      ends (ok a, u) e = (refl, e)
      ends (raise x, u) e = (refl, e)
