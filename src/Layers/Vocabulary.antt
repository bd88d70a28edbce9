-- ===== src/Layers/Vocabulary.antt =====
-- Each token has one owner, and its logit is the owner's (python/minisgl/layers/embedding.py).
use flash_kvmo_e.Utils.{div_ceil}
use flash_kvmo_e.Attention.Ragged.{drop-append, take-append}
use native.Mathlib.Nat.{mod-lt, div-add-mod', div-lt_iff_lt-mul, le-div_iff_mul-le, mul_comm}
use flash_kvmo_e.Base.{
  ==_iff, inl, length-map, inr, Bool-cases, get_elem?-map, get_elem?-take, ℕ, zero, suc, ◌+◌, ◌-◌,
  ◌*◌, ◌/◌, ◌%◌, ◌≤◌, ◌<◌, ◌≡◌, refl, ap, sym, ◌∙◌, Option, some, List, [], ◌∷◌, map, ◌==◌, length,
  take, range, get_elem?, All, arith,
}
use flash_kvmo_e.Layers.Embedding.{
  concat, chunks, row_of, side_by_side, gather_logits, vocab_range, local_size,
}
use flash_kvmo_e.Scheduler.Mapping.{get_elem?-range_from, get_elem?-append, get_elem?-append_left}

module _ {A : Type 0} where
  chunks-concat :
      (rows : ℕ) (xss : List (List A))
      → All (λ xs. length xs ≡ rows) xss
      → chunks (length xss) rows (concat xss) ≡ xss
  unfolding chunks concat
  chunks-concat rows [] h = refl
  chunks-concat rows (xs ∷ xss) (e, h) = rw (← e) (
      rw (take-append xs (concat xss), drop-append xs (concat xss))
        (ap (◌∷◌ xs) (chunks-concat (length xs) xss (rw (← e) at h))))

covered : (num tp : ℕ) → 0 < tp → num ≤ tp * local_size num tp
unfolding div_ceil
covered num tp pos =
    let a = div-add-mod' (num + tp - 1) tp in
    let b = mod-lt (num + tp - 1) pos in
    let swap : tp * ((num + tp - 1) / tp) ≡ (num + tp - 1) / tp * tp =
      mul_comm tp ((num + tp - 1) / tp) in
    omega (arith, a, b, swap)

positive : (num tp : ℕ) → 0 < tp → 0 < num → 0 < local_size num tp
unfolding div_ceil
positive num tp pos some_num = (le-div_iff_mul-le pos).1 (omega arith)

module _ {A : Type 0} where
  -- Behind `q` parts of one length begins the next.
  get_elem?-concat :
      (n q r : ℕ) (xss : List (List A))
      → All (λ xs. length xs ≡ n) xss
      → r < n
      → q < length xss
      → get_elem? (concat xss) (q * n + r) ≡ get_elem? (row_of q xss) r
  unfolding concat
  get_elem?-concat n q r [] h lt lt' = elim lt' [ ]
  get_elem?-concat n zero r (xs ∷ xss) (e, h) lt lt' =
      let p : 0 * n + r ≡ r = omega arith in
      rw p (get_elem?-append_left xs (concat xss) r (omega (arith, e)))
  get_elem?-concat n (suc q) r (xs ∷ xss) (e, h) lt lt' =
      let p : suc q * n + r ≡ length xs + (q * n + r) = omega (arith, e) in
      rw p (
        get_elem?-append xs (concat xss) (q * n + r)
        ∙ get_elem?-concat n q r xss h lt (omega arith))

  -- The row of one rank, and its entries.
  abbrev entry : ℕ → ℕ → List (List A) → Option A
  entry i j m = get_elem? (row_of i m) j

  row_of-some :
      (i : ℕ) (m : List (List A)) {row : List A} → get_elem? m i ≡ some row → row_of i m ≡ row
  row_of-some i m e = rw (e, row_of) refl

  length-row_of :
      (n i : ℕ) (m : List (List A))
      → All (λ row. length row ≡ n) m
      → i < length m
      → length (row_of i m) ≡ n
  length-row_of n i [] h lt = elim lt [ ]
  length-row_of n zero (row ∷ m) h lt = h.0
  length-row_of n (suc i) (row ∷ m) h lt = length-row_of n i m h.1 (omega arith)

  rows_of :
      (n rows i : ℕ) (ranks : List (List (List A)))
      → All (λ m. All (λ row. length row ≡ n) m) ranks
      → All (λ m. length m ≡ rows) ranks
      → i < rows
      → All (λ row. length row ≡ n) (map (row_of i) ranks)
  rows_of n rows i [] wide high lt = tt
  rows_of n rows i (m ∷ ranks) (w, wide) (h, high) lt =
      (length-row_of n i m w (omega (arith, h)), rows_of n rows i ranks wide high lt)

  row_of-map :
      (q i : ℕ) (ranks : List (List (List A)))
      → q < length ranks
      → row_of q (map (row_of i) ranks) ≡ row_of i (row_of q ranks)
  row_of-map q i [] lt = elim lt [ ]
  row_of-map zero i (m ∷ ranks) lt = refl
  row_of-map (suc q) i (m ∷ ranks) lt = row_of-map q i ranks (omega arith)

  get_elem?-side_by_side :
      (n rows q r i : ℕ) (ranks : List (List (List A)))
      → All (λ m. All (λ row. length row ≡ n) m) ranks
      → All (λ m. length m ≡ rows) ranks
      → i < rows
      → r < n
      → q < length ranks
      → entry i (q * n + r) (side_by_side rows ranks) ≡ entry i r (row_of q ranks)
  unfolding side_by_side
  get_elem?-side_by_side n rows q r i ranks wide high lt lt' lt'' =
      let f : ℕ → List A = λ k. concat (map (row_of k) ranks) in
      let there : get_elem? (map f (range 0 rows)) i ≡ some (f i) =
        get_elem?-map f i (range 0 rows)
          (get_elem?-range_from 0 (rows - 0) i (omega arith) ∙ ap some (omega arith)) in
      ap (λ row. get_elem? row (q * n + r)) (row_of-some i (map f (range 0 rows)) there)
      ∙ get_elem?-concat n q r (map (row_of i) ranks) (rows_of n rows i ranks wide high lt) lt'
          (omega (arith, length-map (row_of i) ranks))
      ∙ ap (λ row. get_elem? row r) (row_of-map q i ranks lt'')

  -- One row from each rank is the rank.
  single_rows :
      (ranks : List (List (List A)))
      → All (λ m. length m ≡ 1) ranks
      → concat ranks ≡ map (row_of 0) ranks
  unfolding concat
  single_rows [] h = refl
  single_rows ([] ∷ ranks) (e, h) = absurd (omega arith)
  single_rows ((row ∷ []) ∷ ranks) (e, h) = ap (◌∷◌ row) (single_rows ranks h)
  single_rows ((row ∷ row' ∷ m) ∷ ranks) (e, h) = absurd (omega arith)

  entry-map-take :
      (num i j : ℕ) (m : List (List A)) → j < num → entry i j (map (take num) m) ≡ entry i j m
  entry-map-take num i j [] lt = refl
  entry-map-take num zero j (row ∷ m) lt = get_elem?-take num j row lt
  entry-map-take num (suc i) j (row ∷ m) lt = entry-map-take num i j m lt

  gather_entry :
      (num bs rows n q r i : ℕ) (ranks : List (List (List A)))
      → All (λ m. All (λ row. length row ≡ n) m) ranks
      → All (λ m. length m ≡ rows) ranks
      → (bs ≡ 1 → rows ≡ 1)
      → i < rows
      → r < n
      → q < length ranks
      → q * n + r < num
      → entry i (q * n + r) (gather_logits num bs rows ranks) ≡ entry i r (row_of q ranks)
  unfolding gather_logits
  gather_entry num bs rows n q r i ranks wide high one lt lt' lt'' inside =
      elim (Bool-cases (bs == 1)) [
        | inr many ↦
            rw (many, chunks-concat rows ranks high)
              (entry-map-take num i (q * n + r) (side_by_side rows ranks) inside
                ∙ get_elem?-side_by_side n rows q r i ranks wide high lt lt' lt'')
        | inl alone ↦
            let e : rows ≡ 1 = one ((==_iff bs 1).0 alone) in
            let z : i ≡ 0 = omega arith in
            rw (alone, z)
              (get_elem?-take num (q * n + r) (concat (concat ranks)) inside
                ∙ ap (λ m. get_elem? (concat m) (q * n + r)) (single_rows ranks (rw e at high))
                ∙ get_elem?-concat n q r (map (row_of 0) ranks)
                    (rows_of n rows 0 ranks wide high (omega arith)) lt'
                    (omega (arith, length-map (row_of 0) ranks))
                ∙ ap (λ row. get_elem? row r) (row_of-map q 0 ranks lt''))
      ]

  -- The logits of a batch, gathered from ranks that computed as many rows and as many columns,
  -- hold for each row and each token id the logit that one rank, the owner of the id, computed,
  -- at the place of the id in the owner's range of the vocabulary.
  pub gather_logits_lem :
      (num_embeddings bs rows token i : ℕ) (ranks : List (List (List A)))
      → 0 < length ranks
      → All (λ m. All (λ row. length row ≡ local_size num_embeddings (length ranks)) m) ranks
      → All (λ m. length m ≡ rows) ranks
      → (bs ≡ 1 → rows ≡ 1)
      → i < rows
      → token < num_embeddings
      → (q : ℕ) × (r : ℕ) × (q < length ranks)
        × (r < (vocab_range num_embeddings (length ranks) q).count)
        × ((vocab_range num_embeddings (length ranks) q).start_idx + r ≡ token)
        × (get_elem? (row_of i (gather_logits num_embeddings bs rows ranks)) token
            ≡ get_elem? (row_of i (row_of q ranks)) r)
  unfolding vocab_range div_ceil
  gather_logits_lem num bs rows token i ranks some_rank wide high one lt inside =
      let tp = length ranks in
      let n = local_size num tp in
      let enough : num ≤ tp * n = covered num tp some_rank in
      let pos : 0 < n = positive num tp some_rank (omega arith) in
      let q = token / n in
      let r = token % n in
      let whole = div-add-mod' token n in
      let small = mod-lt token pos in
      let swap : n * q ≡ q * n = mul_comm n q in
      let owner : q < tp = (div-lt_iff_lt-mul pos).1 (omega arith) in
      (
        q,
        r,
        owner,
        omega (arith, whole, small, swap),
        omega (arith, whole, swap),
        ap (get_elem? (row_of i (gather_logits num bs rows ranks))) (sym whole)
            ∙ gather_entry num bs rows n q r i ranks wide high one lt small owner
                (omega (arith, whole)),
      )
