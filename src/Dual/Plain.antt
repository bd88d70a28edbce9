-- ===== src/Dual/Plain.antt =====
-- The forward pass of one batch, which both models share but for the part of a layer with experts:
-- it is an argument here (GLMDualBatchRunner.py, python/minisgl/models/deepseek_v2.py).
use flash_kvmo_e.Base.{ℕ, Option, none, some, List, [], ◌∷◌, range, if◌then◌else◌}
use flash_kvmo_e.Dual.Run.{Run, return, ◌>>=◌}
use flash_kvmo_e.Dual.State.{Model, World, self_attn}

module _ {T S K B : Type 0} (M : Model T S K B) (sparse_mlp : ℕ → T → Run (World T S K B) T) where
  unfoldable pub forward_layer : ℕ → T → Option T → Run (World T S K B) (T × T)
  unfolding self_attn
  forward_layer layer x residual = do
    let (x1, residual1) = M.input_layernorm layer x residual
    x2 ← self_attn M layer x1
    let (x3, residual2) = M.post_attention_layernorm layer x2 (some residual1)
    y ← if M.dense layer then return (M.dense_mlp layer x3) else sparse_mlp layer x3
    return (y, residual2)

  unfoldable pub forward_layers : List ℕ → T → Option T → Run (World T S K B) (T × Option T)
  unfolding forward_layer
  forward_layers [] x residual = return (x, residual)
  forward_layers (layer ∷ layers) x residual = do
    (x', residual') ← forward_layer layer x residual
    forward_layers layers x' (some residual')

  unfoldable pub forward : T → Run (World T S K B) T
  unfolding forward_layers
  forward ids = do
    (x, residual) ← forward_layers (range 0 M.layer_num) (M.embed_tokens ids) none
    return (M.norm x residual).0
