-- ===== src/Attention/Lengths.antt =====
-- The offsets of the queries of a batch, whichever way they are made, and the last token of each
-- request.
use flash_kvmo_e.Base.{
  get_elem?-take, step, take, get_elem?-map, inr, some, inl, Bool-cases, ok-injective, get_elem?,
  and_true, ◌<◌, ◌≤◌, ℕ, suc, ◌+◌, ◌-◌, ◌≡◌, refl, ap, sym, ◌∙◌, true, List, [], ◌∷◌, ◌++◌, ok,
  ◌==◌, length, range_from, arith, All,
}
use flash_kvmo_e.Core.{Req, IsReq, extend_len}
use flash_kvmo_e.Engine.Graph.{maximum}
use flash_kvmo_e.Scheduler.Mapping.{
  make_input_mapping, make_positions, needed_size, make_positions_lem,
}
use flash_kvmo_e.Attention.Metadata.{
  cumsum, cu_seqlens, max_of, all_zero, choose_cu_seqlens_q, get_last_indices, FaMetadata,
  prepare_fa, seqlens_q, seqlens_k, cached_lens,
}

le-maximum : (x : ℕ) (xs : List ℕ) → (x ≤ maximum (x ∷ xs)) × (maximum xs ≤ maximum (x ∷ xs))
unfolding maximum
le-maximum x xs = (ground arith, ground arith)

-- If no number is above 1 and none is 0, the sums count.
cumsum_ones :
    (total : ℕ) (xs : List ℕ)
    → All (λ x. 0 < x) xs
    → maximum xs ≤ 1
    → cumsum total xs ≡ range_from (suc total) (length xs)
unfolding cumsum range_from
cumsum_ones total [] pos le = refl
cumsum_ones total (x ∷ xs) pos le =
    let (a, b) = le-maximum x xs in
    let e : total + x ≡ suc total = omega (arith, pos.0) in
    rw e (ap (◌∷◌ (suc total)) (cumsum_ones (suc total) xs pos.1 (omega arith)))

choose_lem :
    (q k c : List ℕ) (m : ℕ)
    → All (λ x. 0 < x) q
    → maximum q ≡ m
    → (all_zero c ≡ true → q ≡ k)
    → choose_cu_seqlens_q m q c (cu_seqlens k) ≡ cu_seqlens q
unfolding choose_cu_seqlens_q cu_seqlens cumsum range_from
choose_lem q k c m pos top same = elim (Bool-cases (m == 1)) [
  | inl one ↦
      let whole : length q + 1 - 0 ≡ suc (length q) = omega arith in
      rw (one, whole) (ap (◌∷◌ 0) (sym (cumsum_ones 0 q pos (ground arith))))
  | inr many ↦ elim (Bool-cases (all_zero c)) [
    | inl zeros ↦ rw (many, zeros, same zeros) refl
    | inr hit ↦ rw (many, hit) refl
  ]
]

pub max_of_lem : (xs : List ℕ) {m : ℕ} → max_of xs ≡ ok m → maximum xs ≡ m
unfolding max_of
max_of_lem [] h = cc
max_of_lem (x ∷ xs) h = ok-injective h

All_middle :
    {A : Type 0} (P : A → Type 0) (before : List A) (x : A) (after : List A)
    → All P (before ++ x ∷ after)
    → P x
All_middle P [] x after h = h.0
All_middle P (y ∷ before) x after h = All_middle P before x after h.1

module _ {F H : Type 0} where
  extend_pos : (reqs : List (Req F H)) → All IsReq reqs → All (λ x. 0 < x) (seqlens_q reqs)
  extend_pos [] v = tt
  extend_pos (req ∷ reqs) v = (let c = v.0.cached in omega arith, extend_pos reqs v.1)

  no_cache :
      (reqs : List (Req F H)) → all_zero (cached_lens reqs) ≡ true → seqlens_q reqs ≡ seqlens_k reqs
  unfolding all_zero
  no_cache [] h = refl
  no_cache (req ∷ reqs) h =
      let (z, zs) = and_true (req.cached_len == 0) (all_zero (cached_lens reqs)) h in
      let e : extend_len req ≡ req.device_len = ground arith in rw (e, no_cache reqs zs) refl

  -- For well-formed requests, each of the three ways gives the cumulative sums of the numbers of
  -- tokens that the requests extend by.
  pub choose_cu_seqlens_q_lem :
      (reqs : List (Req F H)) {max_seqlen_q : ℕ}
      → All IsReq reqs
      → max_of (seqlens_q reqs) ≡ ok max_seqlen_q
      → choose_cu_seqlens_q max_seqlen_q
          (seqlens_q reqs)
          (cached_lens reqs)
          (cu_seqlens (seqlens_k reqs))
        ≡ cu_seqlens (seqlens_q reqs)
  choose_cu_seqlens_q_lem reqs {max_seqlen_q = m} v h =
      choose_lem (seqlens_q reqs) (seqlens_k reqs) (cached_lens reqs) m (extend_pos reqs v)
        (max_of_lem (seqlens_q reqs) h) (no_cache reqs)

  -- The entry behind the requests before it is the number of tokens that they extend by.
  get_elem?-cumsum :
      (total : ℕ) (before after : List (Req F H)) (req : Req F H)
      → get_elem? (cumsum total (seqlens_q (before ++ req ∷ after))) (length before)
        ≡ some (total + needed_size before + extend_len req)
  unfolding cumsum needed_size
  get_elem?-cumsum total [] after req = ap some (omega arith)
  get_elem?-cumsum total (first ∷ before) after req =
      get_elem?-cumsum (total + extend_len first) before after req ∙ ap some (omega arith)

  last_index :
      (before after : List (Req F H)) (req : Req F H) (bs : ℕ)
      → length before < bs
      → get_elem?
          (get_last_indices (cu_seqlens (seqlens_q (before ++ req ∷ after))) bs)
          (length before)
        ≡ some (needed_size before + extend_len req - 1)
  unfolding get_last_indices cu_seqlens cumsum
  last_index before after req bs lt =
      let offsets = cumsum 0 (seqlens_q (before ++ req ∷ after)) in
      let all : 1 + bs - 1 ≡ bs = omega arith in
      rw all (
        get_elem?-map (λ x. x - 1) (length before) (take bs offsets)
          (get_elem?-take bs (length before) offsets lt ∙ get_elem?-cumsum 0 before after req)
        ∙ ap some (omega arith))

  -- If the metadata of a batch of well-formed requests is prepared, then for each of the first `bs`
  -- of them the last indices name the entry of the scheduler's position tensor that holds the
  -- last position of the request, in the row of that request.
  pub prepare_fa-last_indices :
      (page_table : ℕ → ℕ → ℕ) (page_size bs : ℕ) (before after : List (Req F H)) (req : Req F H)
      {metadata : FaMetadata}
      → All IsReq (before ++ req ∷ after)
      → prepare_fa page_table page_size (before ++ req ∷ after) ≡ ok metadata
      → length before < bs
      → (i : ℕ) × (get_elem? (get_last_indices metadata.cu_seqlens_q bs) (length before) ≡ some i)
        × (get_elem? (make_positions (before ++ req ∷ after)) i ≡ some (req.device_len - 1))
        × (get_elem? (make_input_mapping (before ++ req ∷ after)) i ≡ some req.table_idx)
  unfolding prepare_fa
  prepare_fa-last_indices page_table page_size bs before after req v run lt =
      let reqs = before ++ req ∷ after in
      step (max_of (seqlens_k reqs))
        (λ max_k _ run1.
          step (max_of (seqlens_q reqs))
            (λ max_q e run2.
              let same =
                ap FaMetadata.cu_seqlens_q (ok-injective (sym run2))
                ∙ choose_cu_seqlens_q_lem reqs v e in
              let wf = All_middle IsReq before req after v in
              let c = wf.cached in
              let n = extend_len req in
              let (a, b) = make_positions_lem before after req (n - 1) (omega arith) in
              let place : needed_size before + (n - 1) ≡ needed_size before + n - 1 = omega arith in
              let end : req.cached_len + (n - 1) ≡ req.device_len - 1 = omega arith in
              (
                needed_size before + n - 1,
                ap (λ o. get_elem? (get_last_indices o bs) (length before)) same
                    ∙ last_index before after req bs lt,
                rw (place, end) at a,
                rw place at b,
              ))
            run1)
        run
