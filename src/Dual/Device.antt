-- ===== src/Dual/Device.antt =====
-- What the runners rely on outside them: attention with the backend and the batch of one
-- micro-batch changes only its part of the device, and an expert wrapper answers for what was
-- submitted to it. With it, what one micro-batch computes layer by layer.
use flash_kvmo_e.Base.{ℕ, zero, suc, Option, none, some, ok, ◌≡◌, ◌≢◌, if◌then◌else◌}
use flash_kvmo_e.Dual.State.{Model}

-- `view` is the part of the key-value cache that a micro-batch reads and writes, `queue` the job
-- that a wrapper was given and has not answered yet.
pub record Device {T S K B : Type 0} (M : Model T S K B) (batches : ℕ → B) (attention : ℕ → K)
    (V : Type 0) : Type 0 where
  pub view : ℕ → S → V
  pub queue : S → Option (ℕ × T × T × T)
  pub attend : ℕ → ℕ → T → T → T → V → T × V
  pub experts : ℕ → T → T → T → T
  pub attn_forward_law :
      (mb layer : ℕ) (q k v : T) (s : S)
      → (s' : S) × (M.attn_forward (attention mb) q k v layer (batches mb) s
          ≡ (ok (attend mb layer q k v (view mb s)).0, s'))
        × (view mb s' ≡ (attend mb layer q k v (view mb s)).1)
        × ((j : ℕ) → j ≢ mb → view j s' ≡ view j s)
        × (queue s' ≡ queue s)
  pub submit_forward_law :
      (layer : ℕ) (x ids weights : T) (s : S)
      → queue s ≡ none
      → (s' : S) × (M.submit_forward layer x (some ids) (some weights) s ≡ (ok tt, s'))
        × ((j : ℕ) → view j s' ≡ view j s)
        × (queue s' ≡ some (layer, x, ids, weights))
  pub sync_forward_law :
      (layer : ℕ) (x ids weights : T) (s : S)
      → queue s ≡ some (layer, x, ids, weights)
      → (s' : S) × (M.sync_forward layer x s ≡ (ok (experts layer x ids weights), s'))
        × ((j : ℕ) → view j s' ≡ view j s)
        × (queue s' ≡ none)
  pub wrapper_forward_law :
      (layer : ℕ) (x ids weights : T) (s : S)
      → queue s ≡ none
      → (s' : S) × (M.wrapper_forward layer x ids weights s
          ≡ (ok (experts layer x ids weights), s'))
        × ((j : ℕ) → view j s' ≡ view j s)
        × (queue s' ≡ none)

-- Between two layers, or between the attention of a layer and its experts.
pub record Flow (T V : Type 0) : Type 0 where
  pub x : T
  pub residual : Option T
  pub cache : V

module _ {T S K B V : Type 0} (M : Model T S K B) (batches : ℕ → B) (attention : ℕ → K)
    (D : Device M batches attention V) where
  abbrev pub attended : ℕ → ℕ → Flow T V → Flow T V
  attended mb layer f =
      let n = M.input_layernorm layer f.x f.residual in
      let p = M.project layer (M.positions (batches mb)) n.0 in
      let o = D.attend mb layer p.0 p.1 p.2 f.cache in
      let m = M.post_attention_layernorm layer (M.o_proj layer o.0) (some n.1) in
      record { x = m.0; residual = some m.1; cache = o.1 }

  abbrev pub moe : ℕ → T → T
  moe layer x =
      if M.dense layer
      then M.dense_mlp layer x
      else M.add (D.experts layer x (M.gate layer x).0 (M.gate layer x).1)
          (M.shared_experts layer x)

  abbrev pub through_moe : ℕ → Flow T V → Flow T V
  through_moe layer f = record f { x = moe layer f.x }

  -- After that many layers.
  unfoldable pub after : ℕ → V → ℕ → Flow T V
  after mb v zero = record {
    x = M.embed_tokens (M.input_ids (batches mb));
    residual = none;
    cache = v;
  }
  after mb v (suc k) = through_moe k (attended mb k (after mb v k))
