-- ===== src/Message/Roundtrip.antt =====
-- What is sent is what arrives (python/minisgl/message/utils.py): `deserialize_any` after
-- `serialize_any`.
use flash_kvmo_e.Base.{
  Bool, true, false, ◌||◌, none, some, List, [], ◌∷◌, Result, ok, ◌≡◌, refl, sym, ap, ◌∙◌, subst,
  Bool-cases, inl, inr, ==_iff,
}
use flash_kvmo_e.Base.Texts.{String, str_eq, str_eq_iff, str_eq_refl, str_elem}
use flash_kvmo_e.Message.{
  Arrays, Value, Values, Fields, atom, str, bytes, list, tuple, dict, tensor, object, stop, item,
  done, field, Classes, find_field, set_field, set_fields, serialize_object, serialize_tensor,
  serialize_any, serialize_values, serialize_fields, deserialize_tensor, deserialize_type_with,
  deserialize_type, deserialize_any, deserialize_values, deserialize_items, deserialize_kwargs,
  deserialize_dict_with,
}

str_eq-sym : (s t : String) → str_eq s t ≡ false → str_eq t s ≡ false
str_eq-sym s t differ = elim (Bool-cases (str_eq t s)) [
  | inl same ↦
      let e = (str_eq_iff t s).0 same in let bad : str_eq s t ≡ true = rw e (str_eq_refl s) in cc
  | inr other ↦ other
]

or_false : (a b : Bool) → (a || b) ≡ false → (a ≡ false) × (b ≡ false)
or_false false b h = (refl, h)
or_false true b h = cc

not_here :
    (name k : String) (ks : List String)
    → str_elem name (k ∷ ks) ≡ false
    → (str_eq k name ≡ false) × (str_elem name ks ≡ false)
unfolding str_elem
not_here name k ks h = or_false (str_eq k name) (str_elem name ks) h

abbrev Distinct : List String → Type 0
Distinct [] = Unit
Distinct (k ∷ ks) = (str_elem k ks ≡ false) × Distinct ks

module _ {A : Type 0} {arrays : Arrays} where
  abbrev keys : Fields A arrays → List String
  keys done = []
  keys (field k v rest) = k ∷ keys rest

  find_field-none :
      (name : String) (fs : Fields A arrays)
      → str_elem name (keys fs) ≡ false
      → find_field name fs ≡ none
  unfolding find_field str_elem
  find_field-none name done fresh = refl
  find_field-none name (field k v rest) fresh =
      let (other, fresh') = or_false (str_eq k name) (str_elem name (keys rest)) fresh in
      rw other (find_field-none name rest fresh')

  set_field-other :
      (name k : String) (v old : Value A arrays) (rest : Fields A arrays)
      → str_eq k name ≡ false
      → set_field name v (field k old rest) ≡ field k old (set_field name v rest)
  unfolding set_field
  set_field-other name k v old rest other = rw (other, set_field) refl

  -- A key that is set later is not `k`: what stands under `k` stays in front.
  set_fields-skip :
      (k : String) (v : Value A arrays) (acc fs : Fields A arrays)
      → str_elem k (keys fs) ≡ false
      → set_fields (field k v acc) fs ≡ field k v (set_fields acc fs)
  unfolding set_fields str_elem
  set_fields-skip k v acc done fresh = refl
  set_fields-skip k v acc (field j w rest) fresh =
      let (other, fresh') = or_false (str_eq j k) (str_elem k (keys rest)) fresh in
      ap (λ a. set_fields a rest) (set_field-other j k w v acc (str_eq-sym j k other))
      ∙ set_fields-skip k v (set_field j w acc) rest fresh'

  set_fields-done : (fs : Fields A arrays) → Distinct (keys fs) → set_fields done fs ≡ fs
  unfolding set_fields set_field
  set_fields-done done apart = refl
  set_fields-done (field k v rest) apart =
      set_fields-skip k v done rest apart.0 ∙ ap (field k v) (set_fields-done rest apart.1)

  serialize_object-eq :
      (name : String) (fs : Fields A arrays)
      → str_elem "__type__" (keys fs) ≡ false
      → Distinct (keys fs)
      → serialize_object name fs ≡ dict (field "__type__" (str name) fs)
  unfolding serialize_object
  serialize_object-eq name fs fresh apart = ap dict (
      set_fields-skip "__type__" (str name) done fs fresh
      ∙ ap (field "__type__" (str name)) (set_fields-done fs apart))

module _ {A : Type 0} {arrays : Arrays} (cls_map : Classes A arrays) where
  -- The values that messages hold: tensors have one dimension, no key of a dict or attribute of an
  -- object is "__type__", and an object is what its class builds from its attributes.
  unfoldable mutual
    pub Sendable : Value A arrays → Type 0
    Sendable (atom a) = Unit
    Sendable (str s) = Unit
    Sendable (bytes b) = Unit
    Sendable (list vs) = SendableAll vs
    Sendable (tuple vs) = SendableAll vs
    Sendable (dict fs) = SendableFields fs × (str_elem "__type__" (keys fs) ≡ false)
    Sendable (tensor t) = arrays.dim t ≡ 1
    Sendable (object name fs) =
        SendableFields fs
        × (str_elem "__type__" (keys fs) ≡ false)
        × Distinct (keys fs)
        × (str_eq name "Tensor" ≡ false)
        × ((cls : Fields A arrays → Result (Value A arrays)) × (cls_map name ≡ some cls)
            × (cls fs ≡ ok (object name fs)))

    pub SendableAll : Values A arrays → Type 0
    SendableAll stop = Unit
    SendableAll (item v vs) = Sendable v × SendableAll vs

    pub SendableFields : Fields A arrays → Type 0
    SendableFields done = Unit
    SendableFields (field k v fs) = Sendable v × SendableFields fs

module _ {A : Type 0} {arrays : Arrays} (cls_map : Classes A arrays)
    (restore : (t : arrays.Tensor)
      → arrays.dim t ≡ 1
      → (n : arrays.NpDtype) × (arrays.np_dtype (arrays.without_torch (arrays.dtype_str t)) ≡ ok n)
        × (arrays.from_bytes (arrays.to_bytes t) n ≡ ok t)) where
  abbrev Restored : Value A arrays → Type 0
  Restored v =
      (json : Value A arrays) × (serialize_any v ≡ ok json) × (deserialize_any cls_map json ≡ ok v)

  Restored-tensor : (t : arrays.Tensor) → arrays.dim t ≡ 1 → Restored (tensor t)
  unfolding serialize_any deserialize_any serialize_tensor deserialize_dict_with
      deserialize_type_with deserialize_tensor find_field
  Restored-tensor t one_dim =
      let (n, known, same) = restore t one_dim in
      let json = dict (
        field "__type__" (str "Tensor") (
          field "buffer" (bytes (arrays.to_bytes t))
            (field "dtype" (str (arrays.dtype_str t)) done))) in
      (json, rw ((==_iff (arrays.dim t) 1).1 one_dim) refl, rw (known, same) refl)

  -- An object whose attributes arrive arrives itself.
  restored_object :
      (name : String) (fs fs' : Fields A arrays) (cls : Fields A arrays → Result (Value A arrays))
      → cls_map name ≡ some cls
      → cls fs ≡ ok (object name fs)
      → str_eq name "Tensor" ≡ false
      → str_elem "__type__" (keys fs') ≡ false
      → Distinct (keys fs')
      → deserialize_kwargs cls_map fs' ≡ ok fs
      → deserialize_any cls_map (serialize_object name fs') ≡ ok (object name fs)
  unfolding deserialize_any deserialize_dict_with deserialize_type_with find_field
  restored_object name fs fs' cls known builds no_tensor fresh apart kwargs =
      rw (serialize_object-eq name fs' fresh apart, no_tensor, known, kwargs) builds

  restored_dict :
      (fs fs' : Fields A arrays)
      → find_field "__type__" fs' ≡ none
      → deserialize_items cls_map fs' ≡ ok fs
      → deserialize_any cls_map (dict fs') ≡ ok (dict fs)
  unfolding deserialize_any
  restored_dict fs fs' fresh back = rw (deserialize_dict_with, fresh, back) refl

  mutual
    unfolding serialize_any deserialize_any Sendable

    restored : (v : Value A arrays) → Sendable cls_map v → Restored v
    restored (atom a) h = (atom a, refl, refl)
    restored (str s) h = (str s, refl, refl)
    restored (bytes b) h = (bytes b, refl, refl)
    restored (list vs) h =
        let (vs', there, back) = restored_values vs h in (list vs', rw there refl, rw back refl)
    restored (tuple vs) h =
        let (vs', there, back) = restored_values vs h in (tuple vs', rw there refl, rw back refl)
    restored (dict fs) h =
        let (fs', there, same, back, _) = restored_fields fs h.0 in
        let fresh = find_field-none "__type__" fs' (rw same h.1) in
        (dict fs', rw there refl, restored_dict fs fs' fresh back)
    restored (tensor t) h = Restored-tensor t h
    restored (object name fs) h =
        let (sendable, fresh, apart, no_tensor, (cls, known, builds)) = h in
        let (fs', there, same, _, kwargs) = restored_fields fs sendable in
        (
          serialize_object name fs',
          rw there refl,
          restored_object name fs fs' cls known builds no_tensor (rw same fresh)
              (subst Distinct (sym same) apart) (kwargs fresh),
        )

    restored_values :
        (vs : Values A arrays)
        → SendableAll cls_map vs
        → (vs' : Values A arrays) × (serialize_values vs ≡ ok vs')
          × (deserialize_values cls_map vs' ≡ ok vs)
    restored_values stop h = (stop, refl, refl)
    restored_values (item v vs) h =
        let (v', there, back) = restored v h.0 in
        let (vs', all_there, all_back) = restored_values vs h.1 in
        (item v' vs', rw (there, all_there) refl, rw (back, all_back) refl)

    restored_fields :
        (fs : Fields A arrays)
        → SendableFields cls_map fs
        → (fs' : Fields A arrays) × (serialize_fields fs ≡ ok fs')
          × (keys fs' ≡ keys fs)
          × (deserialize_items cls_map fs' ≡ ok fs)
          × (str_elem "__type__" (keys fs) ≡ false → deserialize_kwargs cls_map fs' ≡ ok fs)
    restored_fields done h = (done, refl, refl, refl, λ _. refl)
    restored_fields (field k v fs) h =
        let (v', there, back) = restored v h.0 in
        let (fs', all_there, same, all_back, kwargs) = restored_fields fs h.1 in
        (
          field k v' fs',
          rw (there, all_there) refl,
          ap (◌∷◌ k) same,
          rw (back, all_back) refl,
          λ fresh.
              let (other, fresh') = not_here "__type__" k (keys fs) fresh in
              rw (other, back, kwargs fresh') refl,
        )

  -- A value that messages hold is serialized without an error, and deserializing gives it back: a
  -- tensor of one dimension by what numpy restores, an object by its class.
  pub deserialize_any-serialize_any :
      (v : Value A arrays)
      → Sendable cls_map v
      → (json : Value A arrays) × (serialize_any v ≡ ok json)
        × (deserialize_any cls_map json ≡ ok v)
  deserialize_any-serialize_any v h = restored v h

  pub received_object :
      (name : String) (fs : Fields A arrays)
      → Sendable cls_map (object name fs)
      → (json : Fields A arrays) × (serialize_any (object name fs) ≡ ok (dict json))
        × (deserialize_type cls_map json ≡ ok (object name fs))
  unfolding serialize_any Sendable deserialize_type deserialize_type_with find_field deserialize_any
  received_object name fs h =
      let (sendable, fresh, apart, no_tensor, (cls, known, builds)) = h in
      let (fs', there, same, _, kwargs) = restored_fields fs sendable in
      (
        field "__type__" (str name) fs',
        rw (there, serialize_object-eq name fs' (rw same fresh) (subst Distinct (sym same) apart))
            refl,
        rw (no_tensor, known, kwargs fresh) builds,
      )
