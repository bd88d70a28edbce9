-- ===== src/Dual/Checks.antt =====
-- The checks in front of `DeepseekV2DualBatchRunner._run_pipeline`.
use flash_kvmo_e.Base.{
  sym, leb→le, inr, ap, ltb→lt, raise, le→leb, lt→ltb, ids_eq_iff, ◌↔◌, Bool-cases, inl, ==_iff,
  ◌⊎◌, and_true, ℕ, suc, ◌≤◌, ◌<◌, ◌≡◌, refl, Bool, true, false, not, ◌&&◌, Option, none, some,
  List, [], ◌∷◌, ◌++◌, map, Result, ok, value_error, runtime_error, guard, ◌>>◌, ltb, leb, ◌==◌,
  if◌then◌else◌, ids_eq, length, All, arith,
}
use flash_kvmo_e.Dual.Decides.{
  Decides, Checks, decides, decides-and, checks-guard, checks-then, not_iff,
}
use flash_kvmo_e.Core.{Req, Phase, prefill, decode, extend_len}
use flash_kvmo_e.Engine.Padding.{elem}

-- Whether the tensor is on the runner's device, and its shape.
pub record TensorInfo : Type 0 where
  pub on_device : Bool
  pub shape : List ℕ

pub record MicroBatch (F H : Type 0) : Type 0 where
  pub phase : Phase
  pub reqs : List (Req F H)
  pub padded_size : ℕ
  pub input_ids : TensorInfo
  pub positions : TensorInfo
  pub out_loc : TensorInfo

-- What the runner was made with, and the sizes of the first pair it ran.
pub record Runner : Type 0 where
  pub max_tokens : ℕ
  pub batch_sizes : Option (ℕ × ℕ)

-- `len(set(rows))`
unfoldable pub set_size : List ℕ → ℕ
unfolding elem
set_size [] = 0
set_size (row ∷ rows) = if elem row rows then set_size rows else suc (set_size rows)

abbrev pub fits : ℕ → TensorInfo → Bool
fits n t = t.on_device && ids_eq t.shape (n ∷ [])

abbrev pub same_sizes : Option (ℕ × ℕ) → ℕ → ℕ → Bool
same_sizes none a b = true
same_sizes (some (x, y)) a b = (a == x) && (b == y)

module _ {F H : Type 0} where
  abbrev pub size : MicroBatch F H → ℕ
  size batch = length batch.reqs

  abbrev pub is_decode : MicroBatch F H → Bool
  is_decode batch = elim batch.phase [ decode ↦ true | prefill ↦ false ]

  unfoldable pub all_single : List (Req F H) → Bool
  all_single [] = true
  all_single (req ∷ reqs) = (extend_len req == 1) && all_single reqs

  unfoldable pub validate_batch : ℕ → MicroBatch F H → Result (Unit {0})
  unfolding all_single
  validate_batch max_tokens batch = do
    guard
        (is_decode batch
          && (ltb 0 (size batch)
              && ((size batch == batch.padded_size) && leb batch.padded_size max_tokens)))
        value_error
    guard (all_single batch.reqs) value_error
    guard
        (fits (size batch) batch.input_ids
          && (fits (size batch) batch.positions && fits (size batch) batch.out_loc))
        value_error

  abbrev pub rows : MicroBatch F H → List ℕ
  rows batch = map (λ req. req.table_idx) batch.reqs

  -- The stream is the runner's, and whether it is capturing, are answers of CUDA.
  unfoldable pub validate_inputs :
      Bool → Bool → Runner → MicroBatch F H → MicroBatch F H → Result (Unit {0})
  unfolding validate_batch set_size
  validate_inputs same_stream capturing runner m0 m1 = do
    guard same_stream value_error
    guard (not capturing) value_error
    validate_batch runner.max_tokens m0
    validate_batch runner.max_tokens m1
    guard (set_size (rows m0 ++ rows m1) == length (rows m0 ++ rows m1)) value_error
    guard (same_sizes runner.batch_sizes (size m0) (size m1)) value_error

  -- The start of `_run_pipeline`; `nested` is whether the context has a batch.
  unfoldable pub begin_run :
      Bool → Bool → Bool → Runner → MicroBatch F H → MicroBatch F H → Result Runner
  unfolding validate_inputs
  begin_run same_stream capturing nested runner m0 m1 = do
    validate_inputs same_stream capturing runner m0 m1
    guard (not nested) runtime_error
    ok (record runner { batch_sizes = some (size m0, size m1) })

-- No row occurs twice.
unfoldable pub Distinct : List ℕ → Type 0
Distinct [] = Unit
Distinct (row ∷ rows) = (elem row rows ≡ false) × Distinct rows

set_size-le : (rows : List ℕ) → set_size rows ≤ length rows
unfolding set_size
set_size-le [] = omega arith
set_size-le (row ∷ rows) = ground (arith, set_size-le rows)

set_size-Distinct : (rows : List ℕ) → set_size rows ≡ length rows → Distinct rows
unfolding set_size Distinct
set_size-Distinct [] e = tt
set_size-Distinct (row ∷ rows) e =
    (ground (arith, set_size-le rows), set_size-Distinct rows (ground (arith, set_size-le rows)))

Distinct-set_size : (rows : List ℕ) → Distinct rows → set_size rows ≡ length rows
unfolding set_size Distinct
Distinct-set_size [] d = refl
Distinct-set_size (row ∷ rows) d = rw d.0 (ap suc (Distinct-set_size rows d.1))

-- The sizes are those of an earlier run, if there was one.
abbrev pub SameSizes : Option (ℕ × ℕ) → ℕ → ℕ → Type 0
SameSizes o a b = (o ≡ none) ⊎ (o ≡ some (a, b))

same_sizes-decides : (o : Option (ℕ × ℕ)) (a b : ℕ) → Decides (same_sizes o a b) (SameSizes o a b)
same_sizes-decides none a b = inl (refl, inl refl)
same_sizes-decides (some (x, y)) a b = elim (Bool-cases (same_sizes (some (x, y)) a b)) [
  | inl same ↦
      let (p, q) = and_true (a == x) (b == y) same in
      inl (same, inr (rw ((==_iff a x).0 p, (==_iff b y).0 q) refl))
  | inr other ↦ inr (
    other,
    λ h. elim h [
      | inl e ↦ cc
      | inr e ↦
          let p : x ≡ a = cc in
          let q : y ≡ b = cc in
          let same : (a == x) && (b == y) ≡ true =
            rw ((==_iff a x).1 (sym p), (==_iff b y).1 (sym q)) refl in
          cc
    ],
  )
]

phase_iff :
    (phase : Phase) → ((elim phase [ decode ↦ true | prefill ↦ false ]) ≡ true) ↔ (phase ≡ decode)
phase_iff decode = (λ h. refl, λ h. refl)
phase_iff prefill = (λ h. cc, λ h. cc)

-- A tensor of n numbers on the device.
abbrev pub OnDevice : ℕ → TensorInfo → Type 0
OnDevice n t = (t.on_device ≡ true) × (t.shape ≡ n ∷ [])

fits-decides : (n : ℕ) (t : TensorInfo) → Decides (fits n t) (OnDevice n t)
fits-decides n t =
    decides-and t.on_device (ids_eq t.shape (n ∷ [])) (decides t.on_device (λ h. h, λ h. h))
      (decides (ids_eq t.shape (n ∷ [])) (ids_eq_iff t.shape (n ∷ [])))

module _ {F H : Type 0} where
  all_single-decides :
      (reqs : List (Req F H)) → Decides (all_single reqs) (All (λ req. extend_len req ≡ 1) reqs)
  unfolding all_single
  all_single-decides [] = inl (refl, tt)
  all_single-decides (req ∷ reqs) =
      decides-and (extend_len req == 1) (all_single reqs)
        (decides (extend_len req == 1) (==_iff (extend_len req) 1)) (all_single-decides reqs)

  is_decode-decides : (batch : MicroBatch F H) → Decides (is_decode batch) (batch.phase ≡ decode)
  is_decode-decides batch = decides (is_decode batch) (phase_iff batch.phase)

  -- A decode batch that is not empty, not padded and not larger than the experts take, of one
  -- token for each request, with one id, position and location of each on the device.
  abbrev pub Decodes : ℕ → MicroBatch F H → Type 0
  Decodes max_tokens batch =
      ((batch.phase ≡ decode)
        × ((0 < size batch)
            × ((size batch ≡ batch.padded_size) × (batch.padded_size ≤ max_tokens))))
      × (All (λ req. extend_len req ≡ 1) batch.reqs
          × (OnDevice (size batch) batch.input_ids
              × (OnDevice (size batch) batch.positions × OnDevice (size batch) batch.out_loc)))

  validate_batch-checks :
      (max_tokens : ℕ) (batch : MicroBatch F H)
      → Checks (validate_batch max_tokens batch) (Decodes max_tokens batch)
  unfolding validate_batch
  validate_batch-checks max_tokens batch =
      let n = size batch in
      let nonempty = ltb 0 n in
      let whole = n == batch.padded_size in
      let within = leb batch.padded_size max_tokens in
      let first =
        decides-and (is_decode batch) (nonempty && (whole && within)) (is_decode-decides batch) (
          decides-and nonempty (whole && within) (decides nonempty (ltb→lt 0 n, lt→ltb 0 n)) (
            decides-and whole within (decides whole (==_iff n batch.padded_size)) (
              decides within
                (leb→le batch.padded_size max_tokens, le→leb batch.padded_size max_tokens)))) in
      let tensors =
        decides-and (fits n batch.input_ids) (fits n batch.positions && fits n batch.out_loc)
          (fits-decides n batch.input_ids)
          (decides-and (fits n batch.positions) (fits n batch.out_loc)
            (fits-decides n batch.positions) (fits-decides n batch.out_loc)) in
      checks-then _ _ (checks-guard _ first)
        (checks-then _ _ (checks-guard _ (all_single-decides batch.reqs)) (checks-guard _ tensors))

  -- What the runner asks of two micro-batches.
  abbrev pub Valid : Bool → Bool → Runner → MicroBatch F H → MicroBatch F H → Type 0
  Valid same_stream capturing runner m0 m1 =
      (same_stream ≡ true)
      × ((capturing ≡ false)
          × (Decodes runner.max_tokens m0
              × (Decodes runner.max_tokens m1
                  × (Distinct (rows m0 ++ rows m1)
                      × SameSizes runner.batch_sizes (size m0) (size m1)))))

  validate_inputs-checks :
      (same_stream capturing : Bool) (runner : Runner) (m0 m1 : MicroBatch F H)
      → Checks
          (validate_inputs same_stream capturing runner m0 m1)
          (Valid same_stream capturing runner m0 m1)
  unfolding validate_inputs
  validate_inputs-checks same_stream capturing runner m0 m1 =
      let all = rows m0 ++ rows m1 in
      let apart = decides (set_size all == length all) (
        λ h. set_size-Distinct all ((==_iff (set_size all) (length all)).0 h),
        λ d. (==_iff (set_size all) (length all)).1 (Distinct-set_size all d),
      ) in
      checks-then _ _ (checks-guard _ (decides same_stream (λ h. h, λ h. h))) (
        checks-then _ _ (checks-guard _ (decides (not capturing) (not_iff capturing))) (
          checks-then _ _ (validate_batch-checks runner.max_tokens m0) (
            checks-then _ _ (validate_batch-checks runner.max_tokens m1) (
              checks-then _ _ (checks-guard _ apart)
                (checks-guard _ (same_sizes-decides runner.batch_sizes (size m0) (size m1)))))))

  -- A run begins exactly if the stream is the runner's and not capturing, no batch is set in the
  -- context, both micro-batches are decode batches of one token for each request with their
  -- tensors on the device, neither empty nor padded nor larger than the experts take, no two
  -- requests of the two share a row of the page table, and the sizes are those of the runs
  -- before; the runner then keeps the sizes. If only the context is in use it raises a
  -- RuntimeError, otherwise a ValueError.
  pub begin_run_lem :
      (same_stream capturing nested : Bool) (runner : Runner) (m0 m1 : MicroBatch F H)
      → (Valid same_stream capturing runner m0 m1
          × (nested ≡ false)
          × (begin_run same_stream capturing nested runner m0 m1
              ≡ ok (record runner { batch_sizes = some (size m0, size m1) })))
        ⊎ (Valid same_stream capturing runner m0 m1
            × (nested ≡ true)
            × (begin_run same_stream capturing nested runner m0 m1 ≡ raise runtime_error))
        ⊎ ((¬ Valid same_stream capturing runner m0 m1)
            × (begin_run same_stream capturing nested runner m0 m1 ≡ raise value_error))
  unfolding begin_run
  begin_run_lem same_stream capturing nested runner m0 m1 =
      elim (validate_inputs-checks same_stream capturing runner m0 m1) [
        | inl (run, valid) ↦ elim (Bool-cases nested) [
          | inl inside ↦ inr (inl (valid, inside, rw (run, inside) refl))
          | inr outside ↦ inl (valid, outside, rw (run, outside) refl)
        ]
        | inr (run, invalid) ↦ inr (inr (invalid, rw run refl))
      ]
