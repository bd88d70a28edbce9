-- ===== src/Attention/Ragged.antt =====
-- The index tensors of FlashInfer (python/minisgl/attention/fi.py).
use flash_kvmo_e.Base.{
  length-range_from, ok-injective, step, length-map, inr, inl, leb, some, Bool-cases, get_elem?,
  length-replicate, length-append, append_assoc, ℕ, zero, suc, ◌+◌, ◌-◌, ◌≤◌, ◌<◌, ◌≡◌, refl, ap,
  sym, ◌∙◌, List, [], ◌∷◌, ◌++◌, map, ok, length, range, arith, sum, slice, take, drop, replicate,
}
use flash_kvmo_e.Core.{Req, Phase}
use flash_kvmo_e.Attention.Metadata.{
  cumsum, cu_seqlens, ragged_indices, power_from, next_power_of_2, get_ones_cpu, FiMetadata,
  prepare_fi, seqlens_k, seqlens_q, max_of,
}

le-power_from : (fuel p n : ℕ) → 0 < p → n ≤ p + fuel → n ≤ power_from fuel p n
unfolding power_from
le-power_from zero p n pos h = omega arith
le-power_from (suc fuel) p n pos h =
    ground (arith, le-power_from fuel (p + p) n (omega arith) (omega arith))

le-next_power_of_2 : (n : ℕ) → n ≤ next_power_of_2 n
unfolding next_power_of_2
le-next_power_of_2 n = ground (arith, le-power_from n 1 n (omega arith) (omega arith))

take-replicate : (m n a : ℕ) → m ≤ n → take m (replicate n a) ≡ replicate m a
take-replicate zero n a h = refl
take-replicate (suc m) zero a h = absurd (omega arith)
take-replicate (suc m) (suc n) a h = ap (◌∷◌ a) (take-replicate m n a (omega arith))

-- If the cached tensor holds ones, a batch gets as many ones as it has requests, and the tensor
-- that is cached then holds ones again.
pub get_ones_cpu_lem :
    (n bs : ℕ) → (m : ℕ) × (get_ones_cpu (replicate n 1) bs ≡ (replicate bs 1, replicate m 1))
unfolding get_ones_cpu
get_ones_cpu_lem n bs =
    let whole : length (replicate {A = ℕ} n 1) ≡ n = length-replicate n 1 in
    elim (Bool-cases (leb bs n)) [
      | inl fits ↦ (n, rw (whole, fits, take-replicate bs n 1 (ground arith)) refl)
      | inr more ↦
          let m = next_power_of_2 bs in
          (m, rw (whole, more, take-replicate bs m 1 (le-next_power_of_2 bs)) refl)
    ]

get_elem?-sums :
    (total : ℕ) (xs ys : List ℕ) (y : ℕ)
    → (get_elem? (total ∷ cumsum total (xs ++ y ∷ ys)) (length xs) ≡ some (total + sum xs))
      × (get_elem? (cumsum total (xs ++ y ∷ ys)) (length xs) ≡ some (total + sum xs + y))
unfolding cumsum sum
get_elem?-sums total [] ys y = (ap some (omega arith), ap some (omega arith))
get_elem?-sums total (x ∷ xs) ys y =
    let (a, b) = get_elem?-sums (total + x) xs ys y in
    (a ∙ ap some (omega arith), b ∙ ap some (omega arith))

pub drop-append {ℓ} : {A : Type ℓ} (xs ys : List A) → drop (length xs) (xs ++ ys) ≡ ys
drop-append [] ys = refl
drop-append (x ∷ xs) ys = drop-append xs ys

pub take-append {ℓ} : {A : Type ℓ} (xs ys : List A) → take (length xs) (xs ++ ys) ≡ xs
take-append [] ys = refl
take-append (x ∷ xs) ys = ap (◌∷◌ x) (take-append xs ys)

module _ {F H : Type 0} where
  ragged-append :
      (table : ℕ → ℕ → ℕ) (xs ys : List (Req F H))
      → ragged_indices table (xs ++ ys) ≡ ragged_indices table xs ++ ragged_indices table ys
  unfolding ragged_indices
  ragged-append table [] ys = refl
  ragged-append table (x ∷ xs) ys = simp (ragged-append table xs ys, append_assoc)

  length-row :
      (table : ℕ → ℕ → ℕ) (req : Req F H)
      → length (map (table req.table_idx) (range 0 req.device_len)) ≡ req.device_len
  length-row table req =
      length-map (table req.table_idx) (range 0 req.device_len)
      ∙ length-range_from 0 (req.device_len - 0)
      ∙ omega arith

  length-ragged :
      (table : ℕ → ℕ → ℕ) (reqs : List (Req F H))
      → length (ragged_indices table reqs) ≡ sum (seqlens_k reqs)
  unfolding ragged_indices sum
  length-ragged table [] = refl
  length-ragged table (req ∷ reqs) = omega (
    arith,
    length-append (map (table req.table_idx) (range 0 req.device_len)) (ragged_indices table reqs),
    length-row table req,
    length-ragged table reqs,
  )

  seqlens_k-append :
      (before after : List (Req F H)) (req : Req F H)
      → seqlens_k (before ++ req ∷ after) ≡ seqlens_k before ++ req.device_len ∷ seqlens_k after
  seqlens_k-append [] after req = refl
  seqlens_k-append (first ∷ before) after req =
      ap (◌∷◌ first.device_len) (seqlens_k-append before after req)

  offsets :
      (before after : List (Req F H)) (req : Req F H)
      → let n = sum (seqlens_k before) in
        let all = cu_seqlens (seqlens_k (before ++ req ∷ after)) in
        (get_elem? all (length before) ≡ some n)
        × (get_elem? all (suc (length before)) ≡ some (n + req.device_len))
  unfolding cu_seqlens cumsum
  offsets before after req =
      let (x, y) = get_elem?-sums 0 (seqlens_k before) (seqlens_k after) req.device_len in
      let same : length (seqlens_k before) ≡ length before = length-map _ before in
      rw (seqlens_k-append before after req, ← same)
        (x ∙ ap some (omega arith), y ∙ ap some (omega arith))

  slice-ragged :
      (table : ℕ → ℕ → ℕ) (before after : List (Req F H)) (req : Req F H)
      → let n = sum (seqlens_k before) in
        slice n (n + req.device_len) (ragged_indices table (before ++ req ∷ after))
        ≡ map (table req.table_idx) (range 0 req.device_len)
  unfolding ragged_indices
  slice-ragged table before after req =
      let n = sum (seqlens_k before) in
      let d = req.device_len in
      let first = ragged_indices table before in
      let row = map (table req.table_idx) (range 0 d) in
      let rest = ragged_indices table after in
      let width : n + d - n ≡ length row = omega (arith, length-row table req) in
      let there : drop n (first ++ (row ++ rest)) ≡ row ++ rest =
        rw (← length-ragged table before) (drop-append first (row ++ rest)) in
      rw (width, ragged-append table before (req ∷ after), there) (take-append row rest)

  -- If the metadata of a batch is prepared, then between the offset of a request and the next one
  -- the indices are the slots of the request's row of the page table, one for each of its
  -- tokens.
  pub prepare_fi-indices :
      (table : ℕ → ℕ → ℕ) (cached_ones_cpu ones : List ℕ) (phase : Phase)
      (before after : List (Req F H)) (req : Req F H) {metadata : FiMetadata}
      → prepare_fi table cached_ones_cpu phase (before ++ req ∷ after) ≡ ok (metadata, ones)
      → (a : ℕ) × (b : ℕ) × (get_elem? metadata.cu_seqlens_k_cpu (length before) ≡ some a)
        × (get_elem? metadata.cu_seqlens_k_cpu (suc (length before)) ≡ some b)
        × (slice a b metadata.indices ≡ map (table req.table_idx) (range 0 req.device_len))
  unfolding prepare_fi
  prepare_fi-indices table cached_ones_cpu ones phase before after req run =
      step (max_of (seqlens_q (before ++ req ∷ after)))
        (λ m _ run'.
          let made = ok-injective (sym run') in
          let n = sum (seqlens_k before) in
          let (x, y) = offsets before after req in
          (
            n,
            n + req.device_len,
            ap (λ p. get_elem? (FiMetadata.cu_seqlens_k_cpu p.0) (length before)) made ∙ x,
            ap (λ p. get_elem? (FiMetadata.cu_seqlens_k_cpu p.0) (suc (length before))) made ∙ y,
            ap (λ p. slice n (n + req.device_len) (FiMetadata.indices p.0)) made
                ∙ slice-ragged table before after req,
          ))
        run
