-- ===== src/Message/Tests.antt =====
-- Messages that are sent and received.
use flash_kvmo_e.Message.{
  deserialize_any, serialize_any, Value, stop, item, tensor, object, done, list, atom, field,
  Fields, Arrays,
}
use flash_kvmo_e.Message.Classes.{
  sampling_params, collect, all_known, backend_table, dataclass, Literals, class_of,
}
use flash_kvmo_e.Base.{ℕ, List, [], ◌∷◌, ok, ◌≡◌, refl, none}
use flash_kvmo_e.Base.Texts.{str_elem}
use flash_kvmo_e.Message.Roundtrip.{Sendable, deserialize_any-serialize_any}

-- One-dimensional tensors of one dtype, whose bytes are the numbers.
abbrev flat : Arrays
flat = record {
  Tensor = List ℕ;
  Bytes = List ℕ;
  NpDtype = Unit;
  dim = λ t. 1;
  dtype_str = λ t. "torch.int32";
  to_bytes = λ t. t;
  without_torch = λ s. "int32";
  np_dtype = λ s. ok tt;
  from_bytes = λ b n. ok b;
}

restore_flat :
    (t : flat.Tensor)
    → flat.dim t ≡ 1
    → (n : flat.NpDtype) × (flat.np_dtype (flat.without_torch (flat.dtype_str t)) ≡ ok n)
      × (flat.from_bytes (flat.to_bytes t) n ≡ ok t)
restore_flat t one_dim = (tt, refl, refl)

abbrev literals : Literals ℕ
literals = record { zero = 0; minus_one = 9; one = 1; no = 0; max_tokens = 1024 }

abbrev params : Fields ℕ flat
params = field "temperature" (atom 0) (
    field "top_k" (atom 9)
      (field "top_p" (atom 1) (field "ignore_eos" (atom 0) (field "max_tokens" (atom 16) done))))

abbrev user : Fields ℕ flat
user = field "uid" (atom 7) (
    field "input_ids" (tensor (1 ∷ 2 ∷ []))
      (field "sampling_params" (object "SamplingParams" params) done))

abbrev batch : Fields ℕ flat
batch = field "data" (list (item (object "UserMsg" user) (item (object "ExitMsg" done) stop))) done

params-Sendable : Sendable (class_of (backend_table literals)) (object "SamplingParams" params)
unfolding Sendable class_of dataclass str_elem all_known collect
params-Sendable = (
  (tt, (tt, (tt, (tt, (tt, tt))))),
  refl,
  (refl, (refl, (refl, (refl, (refl, tt))))),
  refl,
  (dataclass "SamplingParams" (sampling_params literals), refl, refl),
)

user-Sendable : Sendable (class_of (backend_table literals)) (object "UserMsg" user)
unfolding Sendable class_of dataclass str_elem all_known collect
user-Sendable = (
  (tt, (refl, (params-Sendable, tt))),
  refl,
  (refl, (refl, (refl, tt))),
  refl,
  (
    dataclass "UserMsg" (("uid", none) ∷ ("input_ids", none) ∷ ("sampling_params", none) ∷ []),
    refl,
    refl,
  ),
)

batch-Sendable : Sendable (class_of (backend_table literals)) (object "BatchBackendMsg" batch)
unfolding Sendable class_of dataclass str_elem all_known collect
batch-Sendable = (
  ((user-Sendable, ((tt, refl, tt, refl, (dataclass "ExitMsg" [], refl, refl)), tt)), tt),
  refl,
  (refl, tt),
  refl,
  (dataclass "BatchBackendMsg" (("data", none) ∷ []), refl, refl),
)

deserialize_any-serialize_any_example :
    (json : Value ℕ flat) × (serialize_any (object "BatchBackendMsg" batch) ≡ ok json)
    × (deserialize_any (class_of (backend_table literals)) json
        ≡ ok (object "BatchBackendMsg" batch))
deserialize_any-serialize_any_example =
    deserialize_any-serialize_any (class_of (backend_table literals)) restore_flat
      (object "BatchBackendMsg" batch) batch-Sendable
