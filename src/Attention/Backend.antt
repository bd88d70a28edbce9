-- ===== src/Attention/Backend.antt =====
-- Which backend runs a batch (python/minisgl/attention/base.py and __init__.py), and when
-- FlashInfer plans it (fi.py). The single backends and the kernels are calls of other libraries.
use flash_kvmo_e.Base.{
  subst, sym, ok-injective, inr, inl, Option-cases, Error, step, ℕ, ◌≡◌, refl, ◌∙◌, ap, Bool, true,
  false, Option, none, some, List, [], ◌∷◌, ◌++◌, Result, ok, raise, assertion_error,
  argument_type_error, key_error, guard, ◌>>=◌, ◌>>◌, if◌then◌else◌,
}
use flash_kvmo_e.Base.Texts.{str_eq_iff, String, str_eq}
use flash_kvmo_e.Core.{Phase, prefill, decode}
use flash_kvmo_e.Attention.Metadata.{FiMetadata}

-- `K` is the type of a single backend.
pub data Backend (K : Type 0) : Type 0 where
  single : K → Backend K
  hybrid : Backend K → Backend K → Backend K

module _ {K : Type 0} where
  -- The backend whose `forward` and `prepare_metadata` a batch of the phase reaches.
  unfoldable pub backend_of : Phase → Backend K → K
  backend_of phase (single k) = k
  backend_of prefill (hybrid prefill_backend decode_backend) = backend_of prefill prefill_backend
  backend_of decode (hybrid prefill_backend decode_backend) = backend_of decode decode_backend

  -- Capture and replay always reach the decode backend.
  unfoldable pub graph_backend : Backend K → K
  graph_backend (single k) = k
  graph_backend (hybrid prefill_backend decode_backend) = graph_backend decode_backend

  unfoldable pub lookup : String → List (String × K) → Option K
  lookup name [] = none
  lookup name ((n, k) ∷ registry) = if str_eq n name then some k else lookup name registry

  -- `assert_supported`
  unfoldable pub assert_supported : List String → List (String × K) → Result (Unit {0})
  unfolding lookup
  assert_supported [] registry = ok tt
  assert_supported (name ∷ names) registry = elim (lookup name registry) [
    | none ↦ raise argument_type_error
    | some k ↦ assert_supported names registry
  ]

  -- A backend is given as the parts of its name between commas, a name without a comma as one
  -- part.
  unfoldable pub validate_attn_backend : List String → Bool → List (String × K) → Result (Unit {0})
  unfolding assert_supported
  validate_attn_backend (name ∷ []) allow_auto registry =
      if str_eq name "auto"
      then guard allow_auto assertion_error
      else assert_supported (name ∷ []) registry
  validate_attn_backend names allow_auto registry = assert_supported names registry

  -- `SUPPORTED_ATTENTION_BACKENDS[backend](config)`
  unfoldable pub create_single : String → List (String × K) → Result (Backend K)
  unfolding lookup
  create_single name registry = elim (lookup name registry) [
    | none ↦ raise key_error
    | some k ↦ ok (single k)
  ]

  unfoldable pub create_named : String → List (String × K) → Result (Backend K)
  unfolding validate_attn_backend create_single
  create_named name registry =
      validate_attn_backend (name ∷ []) false registry >> create_single name registry

  unfoldable pub create_attention_backend : List String → List (String × K) → Result (Backend K)
  unfolding validate_attn_backend create_named create_single
  create_attention_backend (p ∷ d ∷ []) registry =
      validate_attn_backend (p ∷ d ∷ []) false registry
      >> (if str_eq p d then create_single p registry else (do
        p_backend ← create_named p registry
        d_backend ← create_named d registry
        ok (hybrid p_backend d_backend)))
  create_attention_backend (name ∷ []) registry = create_named name registry
  create_attention_backend names registry =
      validate_attn_backend names false registry >> raise assertion_error

-- What FlashInfer and the cache are told, in order.
pub data Event : Type 0 where
  synchronize record_event : Event
  plan : FiMetadata → Event
  store_kv run : ℕ → Event

-- `_initialize_metadata_once`: the mark is set before the wrapper plans.
unfoldable pub initialize_metadata_once : FiMetadata → FiMetadata × List Event
initialize_metadata_once metadata =
    if metadata.initialized
    then (metadata, [])
    else (let marked : FiMetadata = record metadata { initialized = true } in
        (marked, synchronize ∷ plan marked ∷ record_event ∷ []))

-- `FlashInferBackend.forward`
unfoldable pub fi_forward : ℕ → FiMetadata → FiMetadata × List Event
unfolding initialize_metadata_once
fi_forward layer_id metadata =
    let (metadata', planned) = initialize_metadata_once metadata in
    (metadata', planned ++ store_kv layer_id ∷ run layer_id ∷ [])

-- The layers of a model, in order.
unfoldable pub fi_forward_all : List ℕ → FiMetadata → List Event
unfolding fi_forward
fi_forward_all [] metadata = []
fi_forward_all (layer_id ∷ layer_ids) metadata =
    let (metadata', events) = fi_forward layer_id metadata in
    events ++ fi_forward_all layer_ids metadata'

unfoldable pub layer_events : List ℕ → List Event
layer_events [] = []
layer_events (layer_id ∷ layer_ids) = store_kv layer_id ∷ run layer_id ∷ layer_events layer_ids

initialize_metadata_once-done :
    (metadata : FiMetadata)
    → metadata.initialized ≡ true
    → initialize_metadata_once metadata ≡ (metadata, [])
unfolding initialize_metadata_once
initialize_metadata_once-done metadata h = if_true metadata.initialized _ _ h
  where
    if_true : {A : Type 0} (b : Bool) (a c : A) → b ≡ true → (if b then a else c) ≡ a
    if_true true a c e = refl
    if_true false a c e = cc

planned_before :
    (layer_ids : List ℕ) (metadata : FiMetadata)
    → metadata.initialized ≡ true
    → fi_forward_all layer_ids metadata ≡ layer_events layer_ids
unfolding fi_forward_all fi_forward layer_events
planned_before [] metadata h = refl
planned_before (layer_id ∷ layer_ids) metadata h =
    rw (initialize_metadata_once-done metadata h)
      (ap (λ e. store_kv layer_id ∷ run layer_id ∷ e) (planned_before layer_ids metadata h))

-- A batch whose metadata is new is planned once, before its first layer and with the wrapper that
-- it had then, however many layers follow; and every layer stores its keys before it runs.
pub fi_forward_all_lem :
    (layer_id : ℕ) (layer_ids : List ℕ) (metadata : FiMetadata)
    → metadata.initialized ≡ false
    → fi_forward_all (layer_id ∷ layer_ids) metadata
      ≡ synchronize
        ∷ plan (record metadata { initialized = true })
        ∷ record_event
        ∷ layer_events (layer_id ∷ layer_ids)
unfolding fi_forward_all fi_forward initialize_metadata_once layer_events
fi_forward_all_lem layer_id layer_ids metadata h =
    rw (h, planned_before layer_ids (record metadata { initialized = true }) refl) refl

module _ {K : Type 0} where
  create_single_lem :
      (name : String) (registry : List (String × K)) {b : Backend K}
      → create_single name registry ≡ ok b
      → (k : K) × (lookup name registry ≡ some k) × (b ≡ single k)
  unfolding create_single
  create_single_lem name registry h = elim (Option-cases (lookup name registry)) [
    | inl e ↦ absurd_ok (rw (e, create_single) at h)
    | inr (k, e) ↦ (k, e, ok-injective (sym (rw (e, create_single) at h)))
  ]
    where
      absurd_ok : {X : Type 0} {A : Type 0} {e : Error} {a : A} → raise e ≡ ok a → X
      absurd_ok h = cc

  create_named_lem :
      (name : String) (registry : List (String × K)) {b : Backend K}
      → create_named name registry ≡ ok b
      → (k : K) × (lookup name registry ≡ some k) × (b ≡ single k)
  unfolding create_named
  create_named_lem name registry h =
      create_single_lem name registry
        (step (validate_attn_backend (name ∷ []) false registry) (λ _ _ run. run) h)

  abbrev Serves : String → String → List (String × K) → Backend K → Type 0
  Serves p d registry b =
      (lookup p registry ≡ some (backend_of prefill b))
      × (lookup d registry ≡ some (backend_of decode b))
      × (lookup d registry ≡ some (graph_backend b))

  abbrev create_both : String → String → List (String × K) → Result (Backend K)
  create_both p d registry = do
    p_backend ← create_named p registry
    d_backend ← create_named d registry
    ok (hybrid p_backend d_backend)

  create_both-Serves :
      (p d : String) (registry : List (String × K)) {b : Backend K}
      → create_both p d registry ≡ ok b
      → Serves p d registry b
  unfolding backend_of graph_backend
  create_both-Serves p d registry h =
      step (create_named p registry)
        (λ x run_p made.
          step (create_named d registry)
            (λ y run_d made'.
              let (k, there, e) = create_named_lem p registry run_p in
              let (k', there', e') = create_named_lem d registry run_d in
              let whole = ap (hybrid x) (sym e') ∙ ok-injective made' in
              subst (Serves p d registry) (ap (λ z. hybrid z (single k')) (sym e) ∙ whole)
                (there, there', there'))
            made)
        h

  create_one-Serves :
      (p d : String) (registry : List (String × K)) {b : Backend K}
      → str_eq p d ≡ true
      → create_single p registry ≡ ok b
      → Serves p d registry b
  unfolding backend_of graph_backend
  create_one-Serves p d registry same made =
      let (k, there, e) = create_single_lem p registry made in
      let there' = ap (λ n. lookup n registry) (sym ((str_eq_iff p d).0 same)) ∙ there in
      subst (Serves p d registry) (sym e) (there, there', there')

  -- If a backend is created from two names, prefill batches reach the backend registered under
  -- the first and decode batches, and the graphs, the one under the second, whether the names
  -- differ or not.
  pub create_attention_backend_lem :
      (p d : String) (registry : List (String × K)) {b : Backend K}
      → create_attention_backend (p ∷ d ∷ []) registry ≡ ok b
      → (lookup p registry ≡ some (backend_of prefill b))
        × (lookup d registry ≡ some (backend_of decode b))
        × (lookup d registry ≡ some (graph_backend b))
  unfolding create_attention_backend backend_of graph_backend
  create_attention_backend_lem p d registry {b = b} h =
      step (validate_attn_backend (p ∷ d ∷ []) false registry)
        (λ _ _ made. pick (str_eq p d) refl made) h
    where
      pick :
          (same : Bool)
          → str_eq p d ≡ same
          → (if same then create_single p registry else create_both p d registry) ≡ ok b
          → Serves p d registry b
      pick true e made = create_one-Serves p d registry e made
      pick false e made = create_both-Serves p d registry made
