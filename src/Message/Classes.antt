-- ===== src/Message/Classes.antt =====
-- The message classes and their tables (python/minisgl/message/backend.py, frontend.py and
-- tokenizer.py; `SamplingParams` of python/minisgl/core.py). A dataclass is called with keywords;
-- the literals that stand as defaults are atoms, which the caller gives.
use flash_kvmo_e.Base.{
  Bool, true, false, Option, none, some, List, [], ◌∷◌, Result, ok, raise, type_error, guard, ◌>>=◌,
  ◌>>◌,
}
use flash_kvmo_e.Base.Texts.{String, Dict, get}
use flash_kvmo_e.Message.{
  Arrays, Value, Fields, atom, object, done, field, find_field, serialize_any, deserialize_type,
}

-- `0.0`, `-1`, `1.0`, `False` and `1024`.
pub record Literals (A : Type 0) : Type 0 where
  pub zero : A
  pub minus_one : A
  pub one : A
  pub no : A
  pub max_tokens : A

-- Each attribute of a dataclass, with its default where it has one.
abbrev pub Attributes : Type 0 → Arrays → Type 0
Attributes A arrays = List (String × Option (Value A arrays))

module _ {A : Type 0} {arrays : Arrays} where
  unfoldable pub all_known : Attributes A arrays → Fields A arrays → Bool
  unfolding get
  all_known attributes done = true
  all_known attributes (field k v rest) = elim (get attributes k) [
    | none ↦ false
    | some _ ↦ all_known attributes rest
  ]

  unfoldable pub collect : Attributes A arrays → Fields A arrays → Result (Fields A arrays)
  unfolding find_field
  collect [] kwargs = ok done
  collect ((name, default) ∷ rest) kwargs = do
    v ← elim (find_field name kwargs) [
      | some v ↦ ok v
      | none ↦ elim default [ some v ↦ ok v | none ↦ raise type_error ]
    ]
    attrs ← collect rest kwargs
    ok (field name v attrs)

  -- `cls(**kwargs)`
  unfoldable pub dataclass :
      String → Attributes A arrays → Fields A arrays → Result (Value A arrays)
  unfolding all_known collect
  dataclass name attributes kwargs = do
    guard (all_known attributes kwargs) type_error
    attrs ← collect attributes kwargs
    ok (object name attrs)

  unfoldable pub class_of :
      Dict (Attributes A arrays) → String → Option (Fields A arrays → Result (Value A arrays))
  unfolding get dataclass
  class_of table name = elim (get table name) [
    | none ↦ none
    | some attributes ↦ some (dataclass name attributes)
  ]

  abbrev required : String → String × Option (Value A arrays)
  required name = (name, none)

  abbrev pub sampling_params : Literals A → Attributes A arrays
  sampling_params literals =
      ("temperature", some (atom literals.zero))
      ∷ ("top_k", some (atom literals.minus_one))
      ∷ ("top_p", some (atom literals.one))
      ∷ ("ignore_eos", some (atom literals.no))
      ∷ ("max_tokens", some (atom literals.max_tokens))
      ∷ []

  abbrev pub backend_table : Literals A → Dict (Attributes A arrays)
  backend_table literals =
      ("SamplingParams", sampling_params literals)
      ∷ ("BaseBackendMsg", [])
      ∷ ("BatchBackendMsg", required "data" ∷ [])
      ∷ ("ExitMsg", [])
      ∷ ("UserMsg", required "uid" ∷ required "input_ids" ∷ required "sampling_params" ∷ [])
      ∷ ("AbortBackendMsg", required "uid" ∷ [])
      ∷ []

  abbrev pub frontend_table : Dict (Attributes A arrays)
  frontend_table =
      ("BaseFrontendMsg", [])
      ∷ ("BatchFrontendMsg", required "data" ∷ [])
      ∷ ("UserReply", required "uid" ∷ required "incremental_output" ∷ required "finished" ∷ [])
      ∷ []

  abbrev pub tokenizer_table : Literals A → Dict (Attributes A arrays)
  tokenizer_table literals =
      ("SamplingParams", sampling_params literals)
      ∷ ("BaseTokenizerMsg", [])
      ∷ ("BatchTokenizerMsg", required "data" ∷ [])
      ∷ ("DetokenizeMsg", required "uid" ∷ required "next_token" ∷ required "finished" ∷ [])
      ∷ ("TokenizeMsg", required "uid" ∷ required "text" ∷ required "sampling_params" ∷ [])
      ∷ ("AbortMsg", required "uid" ∷ [])
      ∷ []

  -- `decoder(json)`, with the globals of the module of the message class.
  unfoldable pub decoder : Dict (Attributes A arrays) → Fields A arrays → Result (Value A arrays)
  unfolding deserialize_type class_of
  decoder table json = deserialize_type (class_of table) json

  -- `encoder(msg)`, for a message, which is an object.
  unfoldable pub encoder : Value A arrays → Result (Value A arrays)
  unfolding serialize_any
  encoder msg = serialize_any msg
