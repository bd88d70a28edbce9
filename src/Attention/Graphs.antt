-- ===== src/Attention/Graphs.antt =====
-- From the capture of the graphs to the replay of one for a decode batch
-- (python/minisgl/attention/fa.py).
use flash_kvmo_e.Base.{
  length-replicate, Option-cases, ok-injective, assertion_error, subst, step, length-range_from,
  raise, inr, inl, ltb, Bool-cases, length-map, ℕ, zero, suc, ◌+◌, ◌-◌, ◌*◌, ◌/◌, ◌≤◌, ◌<◌, ◌≡◌,
  refl, ap, ◌∙◌, true, some, List, [], ◌∷◌, map, ok, length, range, range_from, arith, take, All,
  replicate,
}
use flash_kvmo_e.Base.Sorting.{sorted}
use flash_kvmo_e.Core.{Req}
use flash_kvmo_e.Cache.Pages.{stride_from, strided}
use flash_kvmo_e.Engine.Graph.{maximum}
use flash_kvmo_e.Engine.Padding.{elem, elem-sorted}
use flash_kvmo_e.Attention.Metadata.{
  FaMetadata, prepare_fa, page_row, cu_seqlens, cumsum, choose_cu_seqlens_q, max_of, seqlens_k,
  seqlens_q,
}
use flash_kvmo_e.Attention.Lengths.{max_of_lem}
use flash_kvmo_e.Attention.Capture.{
  copy_metadata, CaptureData, FaBackend, create, init_capture_graph, prepare_for_replay,
  prepare_for_capture, captured_views,
}
use flash_kvmo_e.Attention.Replay.{IsCapture, IsMetadata, copy_metadata_lem}

take-range_from : (m n a : ℕ) → m ≤ n → take m (range_from a n) ≡ range_from a m
unfolding range_from
take-range_from zero n a le = refl
take-range_from (suc m) zero a le = absurd (omega arith)
take-range_from (suc m) (suc n) a le = ap (◌∷◌ a) (take-range_from m n (suc a) (omega arith))

length-stride_from_le :
    (p c columns : ℕ) (xs : List ℕ)
    → 0 < p
    → length xs ≤ c + columns * p
    → length (stride_from p c xs) ≤ columns
unfolding stride_from
length-stride_from_le p c columns [] pos le = omega arith
length-stride_from_le p zero zero (x ∷ xs) pos le = absurd (omega arith)
length-stride_from_le p zero (suc columns) (x ∷ xs) pos le =
    let e : suc columns * p ≡ p + columns * p = omega arith in
    omega (arith, length-stride_from_le p (p - 1) columns xs pos (omega arith))
length-stride_from_le p (suc c) columns (x ∷ xs) pos le =
    length-stride_from_le p c columns xs pos (omega arith)

length-stride_from_same :
    (p c : ℕ) (xs ys : List ℕ)
    → length xs ≡ length ys
    → length (stride_from p c xs) ≡ length (stride_from p c ys)
unfolding stride_from
length-stride_from_same p c [] [] e = refl
length-stride_from_same p c [] (y ∷ ys) e = absurd (omega arith)
length-stride_from_same p c (x ∷ xs) [] e = absurd (omega arith)
length-stride_from_same p zero (x ∷ xs) (y ∷ ys) e =
    ap suc (length-stride_from_same p (p - 1) xs ys (omega arith))
length-stride_from_same p (suc c) (x ∷ xs) (y ∷ ys) e =
    length-stride_from_same p c xs ys (omega arith)

length-cumsum : (total : ℕ) (xs : List ℕ) → length (cumsum total xs) ≡ length xs
unfolding cumsum
length-cumsum total [] = refl
length-cumsum total (x ∷ xs) = ap suc (length-cumsum (total + x) xs)

All-replicate {ℓ κ} : {A : Type ℓ} (P : A → Type κ) (n : ℕ) (a : A) → P a → All P (replicate n a)
All-replicate P zero a h = tt
All-replicate P (suc n) a h = (h, All-replicate P n a h)

elem-le-maximum : (x : ℕ) (xs : List ℕ) → elem x xs ≡ true → x ≤ maximum xs
unfolding elem maximum
elem-le-maximum x [] h = cc
elem-le-maximum x (y ∷ ys) h = ground (arith, elem-le-maximum x ys)

abbrev table_len : ℕ → ℕ → ℕ
table_len p max_seqlen_k = length (strided p (range 0 max_seqlen_k))

-- After the capture for sizes `bs_list`: the buffers have room for the largest of them.
pub record IsReady (max_seq_len : ℕ) (bs_list : List ℕ) (b : FaBackend) : Type 0 where
  pub buffers : CaptureData
  pub captured : b.capture ≡ some buffers
  pub sizes : b.capture_bs ≡ sorted bs_list
  pub room : IsCapture (maximum bs_list) (max_seq_len / b.page_size) buffers

create-IsCapture : (max_bs columns : ℕ) → IsCapture max_bs columns (create max_bs columns)
unfolding create
create-IsCapture max_bs columns = record {
  lens = length-replicate max_bs 1;
  offsets = length-range_from 0 (max_bs + 1 - 0) ∙ omega arith;
  queries = refl;
  rows = length-replicate max_bs (replicate columns 0);
  wide = All-replicate _ max_bs (replicate columns 0) (length-replicate columns 0);
}

pub init_capture_graph-IsReady :
    (max_seq_len : ℕ) (bs_list : List ℕ) (b : FaBackend) {b' : FaBackend}
    → init_capture_graph max_seq_len bs_list b ≡ ok b'
    → IsReady max_seq_len bs_list b'
unfolding init_capture_graph
init_capture_graph-IsReady max_seq_len bs_list b run = elim (Option-cases b.capture) [
  | inr (c, e) ↦ absurd_run (rw (e, init_capture_graph) at run)
  | inl e ↦
      step (max_of bs_list)
        (λ max_bs top run'.
          subst (IsReady max_seq_len bs_list) (ok-injective run')
            (ready_from max_bs (max_of_lem bs_list top)))
        (rw (e, init_capture_graph) at run)
]
  where
    absurd_run : {X : Type 0} {x : FaBackend} → raise assertion_error ≡ ok x → X
    absurd_run h = cc

    ready_from :
        (max_bs : ℕ)
        → maximum bs_list ≡ max_bs
        → IsReady max_seq_len bs_list (record b {
          capture = some (create max_bs (max_seq_len / b.page_size));
          max_graph_bs = max_bs;
          capture_bs = sorted bs_list;
        })
    ready_from max_bs top = record {
      buffers = create max_bs (max_seq_len / b.page_size);
      captured = refl;
      sizes = refl;
      room = rw top (create-IsCapture max_bs (max_seq_len / b.page_size));
    }

replay_run :
    (metadata : FaMetadata) (bs : ℕ) (b : FaBackend) (c c' : CaptureData)
    → b.capture ≡ some c
    → elem bs b.capture_bs ≡ true
    → copy_metadata metadata bs c ≡ ok c'
    → prepare_for_replay metadata bs b ≡ ok (record b { capture = some c' })
unfolding prepare_for_replay
replay_run metadata bs b c c' captured there copied = rw (captured, there, copied) refl

module _ {F H : Type 0} where
  length-page_row :
      (table : ℕ → ℕ → ℕ) (p m : ℕ) (req : Req F H)
      → length (page_row table p m req) ≡ table_len p m
  unfolding page_row strided
  length-page_row table p m req =
      let row = map (table req.table_idx) (range 0 m) in
      let e = length-stride_from_same p 0 row (range 0 m) (length-map _ (range 0 m)) in
      elim (Bool-cases (ltb 1 p)) [
        | inl wide ↦ rw wide (length-map _ (strided p row) ∙ e)
        | inr one ↦ rw one e
      ]

  All-rows :
      (table : ℕ → ℕ → ℕ) (p m : ℕ) (reqs : List (Req F H))
      → All (λ row. length row ≡ table_len p m) (map (page_row table p m) reqs)
  All-rows table p m [] = tt
  All-rows table p m (req ∷ reqs) = (length-page_row table p m req, All-rows table p m reqs)

  abbrev Sized : ℕ → List (Req F H) → FaMetadata → Type 0
  Sized p reqs metadata =
      IsMetadata (length reqs) (table_len p metadata.max_seqlen_k) metadata
      × (0 < length reqs)
      × (metadata.max_seqlen_q ≡ 1 → metadata.cu_seqlens_q ≡ range 0 (length reqs + 1))

  some_reqs : (reqs : List (Req F H)) {m : ℕ} → max_of (seqlens_k reqs) ≡ ok m → 0 < length reqs
  unfolding max_of
  some_reqs [] h = cc
  some_reqs (req ∷ reqs) h = omega arith

  prepare_fa-Sized :
      (table : ℕ → ℕ → ℕ) (p : ℕ) (reqs : List (Req F H)) {metadata : FaMetadata}
      → prepare_fa table p reqs ≡ ok metadata
      → Sized p reqs metadata
  unfolding prepare_fa cu_seqlens cumsum choose_cu_seqlens_q
  prepare_fa-Sized table p reqs run =
      step (max_of (seqlens_k reqs))
        (λ max_k some_k run1.
          step (max_of (seqlens_q reqs))
            (λ max_q _ run2. subst (Sized p reqs) (ok-injective run2) (
              record {
                lens = length-map _ reqs;
                offsets = omega (
                  arith,
                  length-cumsum 0 (seqlens_k reqs),
                  length-map (λ (r : Req F H). r.device_len) reqs,
                );
                rows = length-map (page_row table p max_k) reqs;
                wide = All-rows table p max_k reqs;
              },
              some_reqs reqs some_k,
              (λ one.
                  let same : length (seqlens_q reqs) ≡ length reqs = length-map _ reqs in
                  rw (one, same) refl),
            ))
            run1)
        run

  -- A decode batch of a captured size, none of whose requests is longer than the captured table
  -- is wide, can be replayed: no copy raises, the buffers stay ready for the next replay, and
  -- what the graph of that size was captured with then holds the metadata of the batch.
  pub prepare_for_replay_lem :
      (max_seq_len : ℕ) (bs_list : List ℕ) (b : FaBackend) (table : ℕ → ℕ → ℕ)
      (reqs : List (Req F H)) {metadata : FaMetadata}
      → IsReady max_seq_len bs_list b
      → 0 < b.page_size
      → prepare_fa table b.page_size reqs ≡ ok metadata
      → metadata.max_seqlen_q ≡ 1
      → elem (length reqs) bs_list ≡ true
      → metadata.max_seqlen_k ≤ max_seq_len / b.page_size * b.page_size
      → (b' : FaBackend) × (v : FaMetadata) × (prepare_for_replay metadata (length reqs) b ≡ ok b')
        × IsReady max_seq_len bs_list b'
        × (prepare_for_capture (length reqs) b' ≡ ok v)
        × (v.cu_seqlens_k ≡ metadata.cu_seqlens_k)
        × (v.cu_seqlens_q ≡ metadata.cu_seqlens_q)
        × (v.cache_seqlens ≡ metadata.cache_seqlens)
        × (map (take (table_len b.page_size metadata.max_seqlen_k)) v.page_table
            ≡ metadata.page_table)
  unfolding prepare_for_replay prepare_for_capture captured_views
  prepare_for_replay_lem max_seq_len bs_list b table reqs {metadata = md} ready pos run one has
        fits =
      let (m, nonempty, queries) = prepare_fa-Sized table b.page_size reqs run in
      let c = ready.buffers in
      let there : elem (length reqs) b.capture_bs ≡ true =
        ap (elem (length reqs)) ready.sizes ∙ elem-sorted (length reqs) bs_list ∙ has in
      let le = elem-le-maximum (length reqs) bs_list has in
      let columns = max_seq_len / b.page_size in
      let narrow =
        length-stride_from_le b.page_size 0 columns (range 0 md.max_seqlen_k) pos
          (omega (arith, length-range_from 0 (md.max_seqlen_k - 0))) in
      let (c', copied, is, (same_k, same_lens, same_rows)) =
        copy_metadata_lem md (length reqs) (maximum bs_list) columns
          (table_len b.page_size md.max_seqlen_k) b.page_size c ready.room m nonempty le
          (unfold strided in narrow) in
      (
        record b { capture = some c' },
        captured_views b.page_size (length reqs) c',
        replay_run md (length reqs) b c c' ready.captured there copied,
        record { buffers = c'; captured = refl; sizes = ready.sizes; room = is },
        rw there refl,
        same_k,
        ap (take (length reqs + 1)) is.queries
            ∙ take-range_from (length reqs + 1) (maximum bs_list + 1 - 0) 0 (omega arith)
            ∙ (let whole : length reqs + 1 - 0 ≡ length reqs + 1 = omega arith in
                rw (queries one, whole) refl),
        same_lens,
        same_rows,
      )
