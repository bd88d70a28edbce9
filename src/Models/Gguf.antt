-- ===== src/Models/Gguf.antt =====
-- `GGUFWeights.__init__` (python/minisgl/models/gguf.py): the index of a checkpoint's tensors and
-- its checks. What the gguf package reads from a file is data: `Reader`. `np.isclose` with the
-- tolerances of the source is the argument `is_close`; a float never equals an integer or a string.
pub mod Shapes
pub mod Metadata
pub mod Init
pub mod Indexing
pub mod Checking
pub mod Parts
use flash_kvmo_e.Base.{
  ℕ, ◌+◌, ◌*◌, Bool, true, false, ◌&&◌, ◌||◌, not, Option, none, some, List, [], ◌∷◌, ◌++◌, Result,
  ok, raise, value_error, type_error, key_error, guard, ◌>>=◌, ◌>>◌, ltb, ◌==◌, if◌then◌else◌,
  length, range, range_from, reverse, ids_eq,
}
use flash_kvmo_e.Base.Sorting.{sorted}
use flash_kvmo_e.Base.Texts.{String, ◌<>◌, show, str_eq, strs_eq, Dict, get, has, set, del}
use flash_kvmo_e.Models.Config.{ModelConfig, is_mla, is_glm4_moe}
use flash_kvmo_e.Models.Specs.{
  Spec, src, for_layers, gate_up_down, is_down, is_dense, gpu_tensor_specs,
}

-- `field.contents()`; `other` is any value but an int, a float or a string.
pub data Content (F : Type 0) : Type 0 where
  int : ℕ → Content F
  real : F → Content F
  str : String → Content F
  other : Content F

-- `shape` is in GGUF's order. `payload` is the packed data.
pub record Tensor (D : Type 0) : Type 0 where
  pub name : String
  pub shape : List ℕ
  pub tensor_type : ℕ
  pub payload : D

pub record Reader (F D : Type 0) : Type 0 where
  pub little_endian : Bool
  pub fields : Dict (Content F)
  pub tensors : List (Tensor D)

pub record GgufWeights (F D : Type 0) : Type 0 where
  pub readers : List (Reader F D)
  pub tensors : Dict (Tensor D)
  pub config : ModelConfig F

abbrev pub supported : List String → Bool
supported architectures =
    strs_eq architectures ("Qwen3MoeForCausalLM" ∷ [])
    || strs_eq architectures ("DeepseekV2ForCausalLM" ∷ [])
    || strs_eq architectures ("Glm4MoeForCausalLM" ∷ [])

module _ {F : Type 0} where
  abbrev pub is_int : ℕ → Content F → Bool
  is_int n (int m) = m == n
  is_int n _ = false

  abbrev pub is_str : String → Content F → Bool
  is_str s (str t) = str_eq t s
  is_str s _ = false

  abbrev pub architecture_name : ModelConfig F → String
  architecture_name c =
      if is_mla c then "deepseek2" else if is_glm4_moe c then "glm4moe" else "qwen3moe"

  -- The first shard must name the architecture; any other may leave it out.
  unfoldable pub check_architecture : Bool → String → Option (Content F) → Result (Unit {0})
  check_architecture first name none = guard (not first) value_error
  check_architecture first name (some content) = guard (is_str name content) value_error

  -- The index of a shard, where it is one.
  unfoldable pub shard_id : ℕ → Dict (Content F) → Result (List (Content F))
  unfolding get
  shard_id shards fields = elim (get fields "split.count") [
    | none ↦ ok []
    | some count ↦ elim (get fields "split.no") [
      | none ↦ raise value_error
      | some number ↦ do guard (is_int shards count) value_error; ok (number ∷ [])
    ]
  ]

  -- `sorted(shard_ids) != list(range(…))` fails or raises where one is no integer.
  unfoldable pub shard_numbers : List (Content F) → Option (List ℕ)
  shard_numbers [] = some []
  shard_numbers (int n ∷ rest) = elim (shard_numbers rest) [ none ↦ none | some ns ↦ some (n ∷ ns) ]
  shard_numbers _ = none

  unfoldable pub check_shards : ℕ → List (Content F) → Result (Unit {0})
  unfolding shard_numbers sorted range_from
  check_shards shards [] = guard (not (ltb 1 shards)) value_error
  check_shards shards ids = elim (shard_numbers ids) [
    | none ↦ raise value_error
    | some numbers ↦ guard (ids_eq (sorted numbers) (range 0 shards)) value_error
  ]

module _ {D : Type 0} where
  unfoldable pub index_tensors : List (Tensor D) → Dict (Tensor D) → Result (Dict (Tensor D))
  unfolding get set
  index_tensors [] index = ok index
  index_tensors (tensor ∷ rest) index = do
    guard (not (has index tensor.name)) value_error
    index_tensors rest (set tensor.name tensor index)

module _ {F D : Type 0} where
  -- The loop over the readers; `first` is `index == 0`, and `shards` is their number.
  unfoldable pub index_readers :
      String
      → ℕ
      → Bool
      → List (Reader F D)
      → Dict (Tensor D)
      → List (Content F)
      → Result (Dict (Tensor D) × List (Content F))
  unfolding check_architecture shard_id index_tensors get
  index_readers name shards first [] index ids = ok (index, ids)
  index_readers name shards first (reader ∷ rest) index ids = do
    guard reader.little_endian value_error
    check_architecture first name (get reader.fields "general.architecture")
    id ← shard_id shards reader.fields
    index' ← index_tensors reader.tensors index
    index_readers name shards false rest index' (ids ++ id)
