-- ===== src/Scheduler/Mapping.antt =====
-- The index tensors of a batch: `_make_positions`, `_make_input_tuple`, `_make_write_tuple`
-- (python/minisgl/scheduler/scheduler.py). A slice of a tensor that is filled request by request is
-- the concatenation of the parts. `F` and `H` are the types of floats and handles.
use flash_kvmo_e.Base.{
  sym, ◌∙◌, ℕ, zero, suc, ◌+◌, ◌-◌, ◌<◌, ◌≡◌, refl, ap, Option, none, some, List, [], ◌∷◌, ◌++◌,
  length, replicate, range, range_from, if◌then◌else◌, arith, length-append, length-replicate,
  length-range_from, get_elem?,
}
use flash_kvmo_e.Core.{Req, extend_len, can_decode}

module _ {F H : Type 0} where
  unfoldable pub make_positions : List (Req F H) → List ℕ
  unfolding range_from
  make_positions [] = []
  make_positions (req ∷ reqs) = range req.cached_len req.device_len ++ make_positions reqs

  -- The table index of each position; the positions themselves are the other half.
  unfoldable pub make_input_mapping : List (Req F H) → List ℕ
  make_input_mapping [] = []
  make_input_mapping (req ∷ reqs) =
      replicate (extend_len req) req.table_idx ++ make_input_mapping reqs

  -- `none` is the -1 of the source: the last column.
  unfoldable pub make_write_tuple : List (Req F H) → List (ℕ × Option ℕ)
  make_write_tuple [] = []
  make_write_tuple (req ∷ reqs) =
      (req.table_idx, if can_decode req then some req.device_len else none) ∷ make_write_tuple reqs

  -- `needed_size` of `_make_positions`.
  unfoldable pub needed_size : List (Req F H) → ℕ
  needed_size [] = 0
  needed_size (req ∷ reqs) = extend_len req + needed_size reqs

  -- The position tensor is filled exactly, and has a table index for each position.
  pub length-make_positions :
      (reqs : List (Req F H))
      → (length (make_positions reqs) ≡ needed_size reqs)
        × (length (make_input_mapping reqs) ≡ length (make_positions reqs))
  unfolding make_positions make_input_mapping needed_size
  length-make_positions [] = (refl, refl)
  length-make_positions (req ∷ reqs) =
      let (a, b) = length-make_positions reqs in
      (
        omega (
          arith,
          a,
          length-append (range req.cached_len req.device_len) (make_positions reqs),
          length-range_from req.cached_len (req.device_len - req.cached_len),
        ),
        omega (
          arith,
          b,
          length-append (range req.cached_len req.device_len) (make_positions reqs),
          length-range_from req.cached_len (req.device_len - req.cached_len),
          length-append (replicate (extend_len req) req.table_idx) (make_input_mapping reqs),
          length-replicate (extend_len req) req.table_idx,
        ),
      )

pub get_elem?-append {ℓ} :
    {A : Type ℓ} (xs ys : List A) (k : ℕ) → get_elem? (xs ++ ys) (length xs + k) ≡ get_elem? ys k
get_elem?-append [] ys k = ap (get_elem? ys) (omega arith)
get_elem?-append (x ∷ xs) ys k =
    let e : suc (length xs) + k ≡ suc (length xs + k) = omega arith in
    rw e (get_elem?-append xs ys k)

pub get_elem?-append_left {ℓ} :
    {A : Type ℓ} (xs ys : List A) (k : ℕ) → k < length xs → get_elem? (xs ++ ys) k ≡ get_elem? xs k
get_elem?-append_left [] ys k h = elim h [ ]
get_elem?-append_left (x ∷ xs) ys zero h = refl
get_elem?-append_left (x ∷ xs) ys (suc k) h = get_elem?-append_left xs ys k (omega arith)

pub get_elem?-range_from : (a n k : ℕ) → k < n → get_elem? (range_from a n) k ≡ some (a + k)
unfolding range_from
get_elem?-range_from a zero k h = elim h [ ]
get_elem?-range_from a (suc n) zero h = ap some (omega arith)
get_elem?-range_from a (suc n) (suc k) h =
    get_elem?-range_from (suc a) n k (omega arith) ∙ ap some (omega arith)

get_elem?-replicate : (n v k : ℕ) → k < n → get_elem? (replicate n v) k ≡ some v
get_elem?-replicate zero v k h = elim h [ ]
get_elem?-replicate (suc n) v zero h = refl
get_elem?-replicate (suc n) v (suc k) h = get_elem?-replicate n v k (omega arith)

module _ {F H : Type 0} where
  -- Behind the entries of the requests before it, the k-th entry of a request, for k below its
  -- extend length, is its table index with position `cached_len + k`.
  pub make_positions_lem :
      (before after : List (Req F H)) (req : Req F H) (k : ℕ)
      → k < extend_len req
      → (get_elem? (make_positions (before ++ req ∷ after)) (needed_size before + k)
          ≡ some (req.cached_len + k))
        × (get_elem? (make_input_mapping (before ++ req ∷ after)) (needed_size before + k)
            ≡ some req.table_idx)
  unfolding make_positions make_input_mapping needed_size
  make_positions_lem [] after req k h =
      let row = range req.cached_len req.device_len in
      let same : 0 + k ≡ k = omega arith in
      rw same (
        get_elem?-append_left row (make_positions after) k
              (omega (arith, length-range_from req.cached_len (req.device_len - req.cached_len)))
            ∙ get_elem?-range_from req.cached_len (req.device_len - req.cached_len) k h,
        get_elem?-append_left (replicate (extend_len req) req.table_idx) (make_input_mapping after)
              k (omega (arith, length-replicate (extend_len req) req.table_idx))
            ∙ get_elem?-replicate (extend_len req) req.table_idx k h,
      )
  make_positions_lem (first ∷ before) after req k h =
      let row = range first.cached_len first.device_len in
      let n = extend_len first in
      let (a, b) = make_positions_lem before after req k h in
      let e : n + needed_size before + k ≡ n + (needed_size before + k) = omega arith in
      let la = length-range_from first.cached_len (first.device_len - first.cached_len) in
      let lb = length-replicate n first.table_idx in
      rw e (
        ap
              (λ m.
                get_elem? (row ++ make_positions (before ++ req ∷ after))
                  (m + (needed_size before + k)))
              (sym la)
            ∙ get_elem?-append row (make_positions (before ++ req ∷ after)) (needed_size before + k)
            ∙ a,
        ap
              (λ m.
                get_elem?
                  (replicate n first.table_idx ++ make_input_mapping (before ++ req ∷ after))
                  (m + (needed_size before + k)))
              (sym lb)
            ∙ get_elem?-append (replicate n first.table_idx)
                (make_input_mapping (before ++ req ∷ after)) (needed_size before + k)
            ∙ b,
      )
