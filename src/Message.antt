-- ===== src/Message.antt =====
-- How messages cross between processes (python/minisgl/message/utils.py). A value is one of
-- Python's, as far as messages have them; `atom` is an int, a float, a bool or None.
pub mod Roundtrip
pub mod Classes
mod Tests
use flash_kvmo_e.Base.{
  ℕ, Bool, true, false, not, ◌&&◌, Option, none, some, Result, ok, raise, key_error, type_error,
  value_error, attribute_error, assertion_error, guard, ◌>>=◌, ◌>>◌, ◌==◌, if◌then◌else◌,
}
use flash_kvmo_e.Base.Texts.{String, str_eq}

-- The classes of torch and numpy that the code calls, and the table of classes.
--   `dim`, `dtype_str` and `to_bytes`: `t.dim()`, `str(t.dtype)` and `t.numpy().tobytes()`
--   `without_torch`: `s.replace("torch.", "")`
--   `np_dtype`: `getattr(np, s)`
--   `from_bytes`: `torch.from_numpy(np.frombuffer(buffer, dtype).copy())`
pub record Arrays : Type 1 where
  pub Tensor : Type 0
  pub Bytes : Type 0
  pub NpDtype : Type 0
  pub dim : Tensor → ℕ
  pub dtype_str : Tensor → String
  pub to_bytes : Tensor → Bytes
  pub without_torch : String → String
  pub np_dtype : String → Result NpDtype
  pub from_bytes : Bytes → NpDtype → Result Tensor

module _ (A : Type 0) (arrays : Arrays) where
  mutual
    pub data Value : Type 0 where
      atom : A → Value
      str : String → Value
      bytes : arrays.Bytes → Value
      list : Values → Value
      tuple : Values → Value
      dict : Fields → Value
      tensor : arrays.Tensor → Value
      object : String → Fields → Value

    pub data Values : Type 0 where
      stop : Values
      item : Value → Values → Values

    -- The items of a dict with strings as keys, or the attributes of an object.
    pub data Fields : Type 0 where
      done : Fields
      field : String → Value → Fields → Fields

module _ {A : Type 0} {arrays : Arrays} where
  unfoldable pub find_field : String → Fields A arrays → Option (Value A arrays)
  find_field name done = none
  find_field name (field k v rest) = if str_eq k name then some v else find_field name rest

  -- `serialized[k] = v`
  unfoldable pub set_field : String → Value A arrays → Fields A arrays → Fields A arrays
  set_field name v done = field name v done
  set_field name v (field k old rest) = elim (str_eq k name) [
    | true ↦ field k v rest
    | false ↦ field k old (set_field name v rest)
  ]

  unfoldable pub set_fields : Fields A arrays → Fields A arrays → Fields A arrays
  unfolding set_field
  set_fields serialized done = serialized
  set_fields serialized (field k v rest) = set_fields (set_field k v serialized) rest

  -- `serialize_type`, for a tensor, and for an object once its attributes are serialized.
  unfoldable pub serialize_tensor : arrays.Tensor → Result (Value A arrays)
  serialize_tensor t = do
    guard (arrays.dim t == 1) assertion_error
    ok (
        dict (
          field "__type__" (str "Tensor") (
            field "buffer" (bytes (arrays.to_bytes t))
              (field "dtype" (str (arrays.dtype_str t)) done))))

  unfoldable pub serialize_object : String → Fields A arrays → Value A arrays
  unfolding set_fields
  serialize_object name fields = dict (set_fields (field "__type__" (str name) done) fields)

  unfoldable mutual
    unfolding serialize_tensor serialize_object

    pub serialize_any : Value A arrays → Result (Value A arrays)
    serialize_any (atom a) = ok (atom a)
    serialize_any (str s) = ok (str s)
    serialize_any (bytes b) = ok (bytes b)
    serialize_any (list vs) = do vs' ← serialize_values vs; ok (list vs')
    serialize_any (tuple vs) = do vs' ← serialize_values vs; ok (tuple vs')
    serialize_any (dict fs) = do fs' ← serialize_fields fs; ok (dict fs')
    serialize_any (tensor t) = serialize_tensor t
    serialize_any (object name fs) = do fs' ← serialize_fields fs; ok (serialize_object name fs')

    pub serialize_values : Values A arrays → Result (Values A arrays)
    serialize_values stop = ok stop
    serialize_values (item v vs) = do
      v' ← serialize_any v
      vs' ← serialize_values vs
      ok (item v' vs')

    pub serialize_fields : Fields A arrays → Result (Fields A arrays)
    serialize_fields done = ok done
    serialize_fields (field k v fs) = do
      v' ← serialize_any v
      fs' ← serialize_fields fs
      ok (field k v' fs')

-- `cls_map`: a class is called with keyword arguments.
abbrev pub Classes : Type 0 → Arrays → Type 0
Classes A arrays = String → Option (Fields A arrays → Result (Value A arrays))

module _ {A : Type 0} {arrays : Arrays} (cls_map : Classes A arrays) where
  -- The branch of `deserialize_type` for a tensor.
  unfoldable pub deserialize_tensor : Fields A arrays → Result (Value A arrays)
  unfolding find_field
  deserialize_tensor json = elim (find_field "buffer" json) [
    | none ↦ raise key_error
    | some buffer ↦ elim (find_field "dtype" json) [
      | none ↦ raise key_error
      | some (str dtype) ↦ do
        np_dtype ← arrays.np_dtype (arrays.without_torch dtype)
        elim buffer [
          | bytes b ↦ do t ← arrays.from_bytes b np_dtype; ok (tensor t)
          | _ ↦ raise assertion_error
        ]
      | some v ↦ raise attribute_error
    ]
  ]

  -- `deserialize_type`: `kwargs` is every other item of `data`, deserialized. The key of a class
  -- that is no string is in no table, and a list or dict cannot be a key.
  unfoldable pub deserialize_type_with :
      Fields A arrays → Result (Fields A arrays) → Result (Value A arrays)
  unfolding find_field deserialize_tensor
  deserialize_type_with json kwargs = elim (find_field "__type__" json) [
    | none ↦ raise key_error
    | some (str name) ↦
        if str_eq name "Tensor"
        then deserialize_tensor json
        else elim (cls_map name) [ none ↦ raise key_error | some cls ↦ kwargs >>= cls ]
    | some (list vs) ↦ raise type_error
    | some (dict fs) ↦ raise type_error
    | some v ↦ raise key_error
  ]

  -- The branch of `_deserialize_any` for a dict. `plain` is its items, deserialized.
  unfoldable pub deserialize_dict_with :
      Fields A arrays
      → Result (Fields A arrays)
      → Result (Fields A arrays)
      → Result (Value A arrays)
  unfolding find_field deserialize_type_with
  deserialize_dict_with json kwargs plain = elim (find_field "__type__" json) [
    | none ↦ do fs ← plain; ok (dict fs)
    | some _ ↦ deserialize_type_with json kwargs
  ]

  unfoldable mutual
    unfolding deserialize_dict_with

    pub deserialize_any : Value A arrays → Result (Value A arrays)
    deserialize_any (atom a) = ok (atom a)
    deserialize_any (str s) = ok (str s)
    deserialize_any (bytes b) = ok (bytes b)
    deserialize_any (list vs) = do vs' ← deserialize_values vs; ok (list vs')
    deserialize_any (tuple vs) = do vs' ← deserialize_values vs; ok (tuple vs')
    deserialize_any (dict json) =
        deserialize_dict_with json (deserialize_kwargs json) (deserialize_items json)
    deserialize_any (tensor t) = raise value_error
    deserialize_any (object name fs) = raise value_error

    pub deserialize_values : Values A arrays → Result (Values A arrays)
    deserialize_values stop = ok stop
    deserialize_values (item v vs) = do
      v' ← deserialize_any v
      vs' ← deserialize_values vs
      ok (item v' vs')

    pub deserialize_items : Fields A arrays → Result (Fields A arrays)
    deserialize_items done = ok done
    deserialize_items (field k v fs) = do
      v' ← deserialize_any v
      fs' ← deserialize_items fs
      ok (field k v' fs')

    pub deserialize_kwargs : Fields A arrays → Result (Fields A arrays)
    deserialize_kwargs done = ok done
    deserialize_kwargs (field k v fs) =
        let rest = deserialize_kwargs fs in
        let value = deserialize_any v in
        if str_eq k "__type__" then rest else (do v' ← value; fs' ← rest; ok (field k v' fs'))

  unfoldable pub deserialize_type : Fields A arrays → Result (Value A arrays)
  unfolding deserialize_type_with deserialize_kwargs
  deserialize_type json = deserialize_type_with json (deserialize_kwargs json)
