-- ===== src/Dual/State.antt =====
-- The state of a runner and of the context it runs in (python/minisgl/core.py), and what both
-- models take as arguments: their tensor functions, which are plain, and the calls outside them,
-- which change a device and may raise.
use flash_kvmo_e.Base.{
  ℕ, Bool, Option, none, some, assertion_error, index_error, Result, ltb, ◌==◌, if◌then◌else◌,
}
use flash_kvmo_e.Dual.Run.{Run, return, fail, change, get_state, finally, ◌>>=◌, ◌>>◌}

-- `T`: tensors, `S`: what the device and the expert wrappers hold, `K`: attention backends, `B`:
-- batches. A layer is known by its index.
pub record Model (T S K B : Type 0) : Type 0 where
  pub layer_num : ℕ
  pub dense : ℕ → Bool
  pub input_ids : B → T
  pub positions : B → T
  pub embed_tokens : T → T
  pub input_layernorm : ℕ → T → Option T → T × T
  pub project : ℕ → T → T → T × T × T
  pub o_proj : ℕ → T → T
  pub post_attention_layernorm : ℕ → T → Option T → T × T
  pub dense_mlp : ℕ → T → T
  pub gate : ℕ → T → T × T
  pub shared_experts : ℕ → T → T
  pub add : T → T → T
  pub norm : T → Option T → T × T
  pub attn_forward : K → T → T → T → ℕ → B → Run S T
  pub wrapper_forward : ℕ → T → T → T → Run S T
  pub submit_forward : ℕ → T → Option T → Option T → Run S (Unit {0})
  pub sync_forward : ℕ → T → Run S T

-- What a runner keeps in its lists at one index.
pub record Micro (T : Type 0) : Type 0 where
  pub hidden_states : T
  pub residual : Option T
  pub shared : Option T
  pub topk_ids : Option T
  pub topk_weights : Option T

-- `attn_backend` and `batch` are the context's.
pub record World (T S K B : Type 0) : Type 0 where
  pub attn_backend : K
  pub batch : Option B
  pub device : S
  pub micros : ℕ → Micro T

module _ {T S K B : Type 0} where
  abbrev pub set_backend : K → Run (World T S K B) (Unit {0})
  set_backend k = change (λ w. record w { attn_backend = k })

  abbrev pub get_batch : Run (World T S K B) B
  get_batch = do w ← get_state; elim w.batch [ none ↦ fail assertion_error | some b ↦ return b ]

  abbrev pub forward_batch : {A : Type 0} → B → Run (World T S K B) A → Run (World T S K B) A
  forward_batch b body = do
    w ← get_state
    elim w.batch [
      | some _ ↦ fail assertion_error
      | none ↦
          change (λ v. record v { batch = some b }) >> finally body (λ v. record v { batch = none })
    ]

  abbrev pub put_device : {A : Type 0} → World T S K B → Result A × S → Result A × World T S K B
  put_device w (r, s) = (r, record w { device = s })

  -- A call outside the model.
  abbrev pub on_device : {A : Type 0} → Run S A → Run (World T S K B) A
  on_device call w = put_device w (call w.device)

  abbrev pub get_micro : ℕ → Run (World T S K B) (Micro T)
  get_micro mb w = return (w.micros mb) w

  abbrev pub put_micro : ℕ → (Micro T → Micro T) → Run (World T S K B) (Unit {0})
  put_micro mb f =
      change (λ w. record w { micros = λ i. if mb == i then f (w.micros i) else w.micros i })

  -- The layer of that index is there.
  abbrev pub get_layer : Model T S K B → ℕ → Run (World T S K B) (Unit {0})
  get_layer M layer_idx = if ltb layer_idx M.layer_num then return tt else fail index_error

  -- The attention of a layer, on the batch and with the backend of the context.
  unfoldable pub self_attn : Model T S K B → ℕ → T → Run (World T S K B) T
  self_attn M layer x = do
    batch ← get_batch
    w ← get_state
    let (q, k, v) = M.project layer (M.positions batch) x
    o ← on_device (M.attn_forward w.attn_backend q k v layer batch)
    return (M.o_proj layer o)
