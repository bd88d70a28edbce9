-- ===== src/Dual/Tests.antt =====
-- A small model on numbers, and the theorems on it.
use flash_kvmo_e.Dual.Run.{return}
use flash_kvmo_e.Dual.Deepseek
use flash_kvmo_e.Dual.Deepseek.{run_pipeline}
use flash_kvmo_e.Dual.Serial.{run_pipeline-forward}
use flash_kvmo_e.Dual.Checks.{TensorInfo, MicroBatch, Runner, begin_run, begin_run_lem, Valid}
use flash_kvmo_e.Core.{Req, decode}
use flash_kvmo_e.Base.{
  ◌⊎◌, value_error, ids_eq, ◌∷◌, [], false, true, ℕ, ◌+◌, ◌*◌, ◌≡◌, refl, Option, none, some,
  Result, ok, raise, runtime_error, ltb, ◌==◌, if◌then◌else◌, arith,
}
use flash_kvmo_e.Dual.State.{Model, World}
use flash_kvmo_e.Dual.Device.{Device}
use flash_kvmo_e.Dual.Glm.{forward_dual, alone}
use flash_kvmo_e.Dual.Alone.{forward_dual-forward}
use flash_kvmo_e.Dual.Restored.{forward_dual-Restored}

-- A cell of the cache for each micro-batch, and the job of the experts.
record Memory : Type 0 where
  cells : ℕ → ℕ
  job : Option (ℕ × ℕ × ℕ × ℕ)

abbrev routed : ℕ → ℕ → ℕ → ℕ → ℕ
routed layer x ids weights = x + ids * weights + layer

abbrev answer : Option (ℕ × ℕ × ℕ × ℕ) → Result ℕ
answer none = raise runtime_error
answer (some (layer, x, ids, weights)) = ok (routed layer x ids weights)

abbrev post : ℕ → ℕ → Option ℕ → Option ℕ → Option (ℕ × ℕ × ℕ × ℕ)
post layer x (some ids) (some weights) = some (layer, x, ids, weights)
post layer x _ _ = none

abbrev plus_residual : ℕ → Option ℕ → ℕ
plus_residual x none = x
plus_residual x (some r) = x + r

abbrev small : Model ℕ Memory ℕ ℕ
small = record {
  layer_num = 3;
  dense = λ layer. ltb layer 1;
  input_ids = λ b. b + 1;
  positions = λ b. b;
  embed_tokens = λ ids. 10 * ids;
  input_layernorm = λ layer x r. (plus_residual x r, plus_residual x r + layer);
  project = λ layer pos x. (x, x + pos, 2 * x);
  o_proj = λ layer x. x + 1;
  post_attention_layernorm = λ layer x r. (plus_residual x r, plus_residual x r);
  dense_mlp = λ layer x. 3 * x;
  gate = λ layer x. (x + layer, 2);
  shared_experts = λ layer x. x + 5;
  add = λ x y. x + y;
  norm = λ x r. (plus_residual x r, x);
  attn_forward = λ backend q k v layer b s. (
    ok (q + k * s.cells b),
    record s { cells = λ j. if b == j then s.cells j + v else s.cells j },
  );
  wrapper_forward = λ layer x ids weights s. (ok (routed layer x ids weights), s);
  submit_forward = λ layer x ids weights s. (ok tt, record s { job = post layer x ids weights });
  sync_forward = λ layer x s. (answer s.job, record s { job = none });
}

abbrev numbered : ℕ → ℕ
numbered i = i

memory : Device small numbered numbered ℕ
memory = record {
  view = λ mb s. s.cells mb;
  queue = λ s. s.job;
  attend = λ mb layer q k v cell. (q + k * cell, cell + v);
  experts = routed;
  attn_forward_law = λ mb layer q k v s. (
    _,
    refl,
    (let same : (mb == mb) ≡ true = ground arith in rw same refl),
    (λ j ne. (let other : (mb == j) ≡ false = ground arith in rw other refl)),
    refl,
  );
  submit_forward_law = λ layer x ids weights s idle. (_, refl, (λ j. refl), refl);
  sync_forward_law = λ layer x ids weights s work. (_, rw work refl, (λ j. refl), refl);
  wrapper_forward_law = λ layer x ids weights s idle. (s, refl, (λ j. refl), idle);
}

abbrev world : World ℕ Memory ℕ ℕ
world = record {
  attn_backend = 7;
  batch = none;
  device = record { cells = λ j. j + 1; job = none };
  micros = λ i. record {
    hidden_states = 0;
    residual = none;
    shared = none;
    topk_ids = none;
    topk_weights = none;
  };
}

forward_dual-forward_example :
    (h0 : ℕ) × (h1 : ℕ) × ((forward_dual small numbered numbered world).0 ≡ ok (h0, h1))
    × ((alone small numbered numbered 0 world).0 ≡ ok h0)
    × ((alone small numbered numbered 1 world).0 ≡ ok h1)
unfolding memory
forward_dual-forward_example =
    forward_dual-forward small numbered numbered memory world (omega arith) refl refl

forward_dual-Restored_example :
    ((forward_dual small numbered numbered world).1.attn_backend ≡ 7)
    × ((forward_dual small numbered numbered world).1.batch ≡ none)
forward_dual-Restored_example = forward_dual-Restored small numbered numbered world refl

run_pipeline-forward_example :
    (h0 : ℕ) × (h1 : ℕ) × ((run_pipeline small numbered numbered (return tt) world).0 ≡ ok (h0, h1))
    × ((Deepseek.alone small numbered numbered 0 world).0 ≡ ok h0)
    × ((Deepseek.alone small numbered numbered 1 world).0 ≡ ok h1)
unfolding memory
run_pipeline-forward_example =
    run_pipeline-forward small numbered numbered memory (λ x y. omega arith) world (omega arith)
      refl refl

abbrev one_token : ℕ → Req ℕ (Unit {0})
one_token table_idx = record {
  input_ids = [];
  table_idx = table_idx;
  cached_len = 3;
  output_len = 2;
  uid = table_idx;
  sampling_params = record {
    temperature = 0;
    top_k = none;
    top_p = 1;
    ignore_eos = false;
    max_tokens = 2;
  };
  cache_handle = tt;
  device_len = 4;
  max_device_len = 5;
  chunked = false;
}

abbrev on_gpu : TensorInfo
on_gpu = record { on_device = true; shape = 2 ∷ [] }

abbrev pair : ℕ → ℕ → MicroBatch ℕ (Unit {0})
pair i j = record {
  phase = decode;
  reqs = one_token i ∷ one_token j ∷ [];
  padded_size = 2;
  input_ids = on_gpu;
  positions = on_gpu;
  out_loc = on_gpu;
}

abbrev runner : Option (ℕ × ℕ) → Runner
runner sizes = record { max_tokens = 8; batch_sizes = sizes }

begin_run-pairs :
    begin_run true false false (runner none) (pair 1 2) (pair 3 4) ≡ ok (runner (some (2, 2)))
unfolding begin_run ids_eq
begin_run-pairs = refl

-- A row that both micro-batches use is refused.
begin_run-shared_row :
    begin_run true false false (runner none) (pair 1 2) (pair 3 1) ≡ raise value_error
unfolding begin_run ids_eq
begin_run-shared_row = refl

begin_run_lem_example :
    (Valid true false (runner none) (pair 1 2) (pair 3 4)
      × (false ≡ false)
      × (begin_run true false false (runner none) (pair 1 2) (pair 3 4)
          ≡ ok (runner (some (2, 2)))))
    ⊎ (Valid true false (runner none) (pair 1 2) (pair 3 4)
        × (false ≡ true)
        × (begin_run true false false (runner none) (pair 1 2) (pair 3 4) ≡ raise runtime_error))
    ⊎ ((¬ Valid true false (runner none) (pair 1 2) (pair 3 4))
        × (begin_run true false false (runner none) (pair 1 2) (pair 3 4) ≡ raise value_error))
begin_run_lem_example = begin_run_lem true false false (runner none) (pair 1 2) (pair 3 4)
