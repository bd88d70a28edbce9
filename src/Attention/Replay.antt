-- ===== src/Attention/Replay.antt =====
-- A replayed graph reads the metadata of its batch (python/minisgl/attention/fa.py).
use flash_kvmo_e.Base.{
  length-drop, length-append, ℕ, zero, suc, ◌+◌, ◌≤◌, ◌<◌, ◌≡◌, refl, ap, sym, ◌∙◌, true, List, [],
  ◌∷◌, ◌++◌, map, ok, ◌==◌, length, range, arith, take, drop, All, min,
}
use flash_kvmo_e.Attention.Metadata.{FaMetadata}
use flash_kvmo_e.Attention.Capture.{
  CaptureData, copy_prefix, copy_rows, copy_metadata, captured_views, width,
}

take-append_length {ℓ} :
    {A : Type ℓ} (n : ℕ) (xs ys : List A) → length xs ≡ n → take n (xs ++ ys) ≡ xs
take-append_length zero [] ys e = refl
take-append_length zero (x ∷ xs) ys e = absurd (omega arith)
take-append_length (suc n) [] ys e = absurd (omega arith)
take-append_length (suc n) (x ∷ xs) ys e = ap (◌∷◌ x) (take-append_length n xs ys (omega arith))

-- A source of the size of the prefix is copied, and the buffer keeps its size.
copy_prefix_lem :
    (n : ℕ) (from to : List ℕ)
    → length from ≡ n
    → n ≤ length to
    → (copy_prefix n from to ≡ ok (from ++ drop n to)) × (length (from ++ drop n to) ≡ length to)
unfolding copy_prefix
copy_prefix_lem n from to e le =
    (run from e, omega (arith, length-append from (drop n to), length-drop n to))
  where
    run : (from : List ℕ) → length from ≡ n → copy_prefix n from to ≡ ok (from ++ drop n to)
    run [] e =
        (let m : min n (length to) ≡ 0 = omega arith in
          let z : n ≡ 0 = omega arith in rw (m, z) refl)
    run (x ∷ []) e =
        (let m : min n (length to) ≡ 1 = omega arith in
          let z : n ≡ 1 = omega arith in rw (m, z) refl)
    run (x ∷ y ∷ xs) e =
        let m : min n (length to) ≡ n = omega arith in
        let test : (suc (suc (length xs)) == n) ≡ true = ground arith in rw (m, test) refl

-- Rows of one width, copied into as many rows and more that are at least as wide.
copy_rows_lem :
    (n columns : ℕ) (froms tos : List (List ℕ))
    → All (λ row. length row ≡ n) froms
    → All (λ row. length row ≡ columns) tos
    → n ≤ columns
    → length froms ≤ length tos
    → (rows : List (List ℕ)) × (copy_rows n froms tos ≡ ok rows)
      × (length rows ≡ length tos)
      × All (λ row. length row ≡ columns) rows
      × (map (take n) (take (length froms) rows) ≡ froms)
unfolding copy_rows
copy_rows_lem n columns [] tos a b le short = (tos, refl, refl, b, refl)
copy_rows_lem n columns (from ∷ froms) [] a b le short = absurd (omega arith)
copy_rows_lem n columns (from ∷ froms) (to ∷ tos) a b le short =
    let (run, size) = copy_prefix_lem n from to a.0 (omega (arith, b.0)) in
    let (rows, rest, len, wide, same) =
      copy_rows_lem n columns froms tos a.1 b.1 le (omega arith) in
    (
      (from ++ drop n to) ∷ rows,
      rw (run, rest) refl,
      omega (arith, len),
      (omega (arith, size, b.0), wide),
      rw (take-append_length n from (drop n to) a.0, same) refl,
    )

-- The buffers were made for `max_bs` requests with that many pages each.
pub record IsCapture (max_bs columns : ℕ) (c : CaptureData) : Type 0 where
  pub lens : length c.seq_lens ≡ max_bs
  pub offsets : length c.cu_seqlens_k ≡ max_bs + 1
  pub queries : c.cu_seqlens_q ≡ range 0 (max_bs + 1)
  pub rows : length c.page_table ≡ max_bs
  pub wide : All (λ row. length row ≡ columns) c.page_table

-- The sizes of the metadata of a batch, as `prepare_metadata` makes them.
pub record IsMetadata (bs table_len : ℕ) (metadata : FaMetadata) : Type 0 where
  pub lens : length metadata.cache_seqlens ≡ bs
  pub offsets : length metadata.cu_seqlens_k ≡ bs + 1
  pub rows : length metadata.page_table ≡ bs
  pub wide : All (λ row. length row ≡ table_len) metadata.page_table

width_lem :
    (n : ℕ) (rows : List (List ℕ))
    → 0 < length rows
    → All (λ row. length row ≡ n) rows
    → width rows ≡ n
unfolding width
width_lem n [] pos h = elim pos [ ]
width_lem n (row ∷ rows) pos h = h.0

-- Buffers that are large enough take the metadata of a batch, keep their sizes, and the parts of
-- them that the graph was captured with then hold it.
pub copy_metadata_lem :
    (metadata : FaMetadata) (bs max_bs columns table_len page_size : ℕ) (c : CaptureData)
    → IsCapture max_bs columns c
    → IsMetadata bs table_len metadata
    → 0 < bs
    → bs ≤ max_bs
    → table_len ≤ columns
    → (c' : CaptureData) × (copy_metadata metadata bs c ≡ ok c')
      × IsCapture max_bs columns c'
      × (let v = captured_views page_size bs c' in
          (v.cu_seqlens_k ≡ metadata.cu_seqlens_k)
          × (v.cache_seqlens ≡ metadata.cache_seqlens)
          × (map (take table_len) v.page_table ≡ metadata.page_table))
unfolding copy_metadata captured_views
copy_metadata_lem metadata bs max_bs columns table_len page_size c is m pos le fits =
    let (run1, size1) =
      copy_prefix_lem (bs + 1) metadata.cu_seqlens_k c.cu_seqlens_k m.offsets
        (omega (arith, is.offsets)) in
    let (run2, size2) =
      copy_prefix_lem bs metadata.cache_seqlens c.seq_lens m.lens (omega (arith, is.lens)) in
    let (rows, run3, len, wide, same) =
      copy_rows_lem table_len columns metadata.page_table c.page_table m.wide is.wide fits
        (omega (arith, m.rows, is.rows)) in
    let there = width_lem table_len metadata.page_table (omega (arith, m.rows)) m.wide in
    (
      record c {
        cu_seqlens_k = metadata.cu_seqlens_k ++ drop (bs + 1) c.cu_seqlens_k;
        seq_lens = metadata.cache_seqlens ++ drop bs c.seq_lens;
        page_table = rows;
      },
      rw (there, run1, run2, run3) refl,
      record {
        lens = size2 ∙ is.lens;
        offsets = size1 ∙ is.offsets;
        queries = is.queries;
        rows = len ∙ is.rows;
        wide = wide;
      },
      (
        take-append_length (bs + 1) metadata.cu_seqlens_k _ m.offsets,
        take-append_length bs metadata.cache_seqlens _ m.lens,
        ap (λ k. map (take table_len) (take k rows)) (sym m.rows) ∙ same,
      ),
    )
