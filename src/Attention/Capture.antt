-- ===== src/Attention/Capture.antt =====
-- The buffers that a captured CUDA graph reads (python/minisgl/attention/utils.py and fa.py), and
-- what is copied into them before it is replayed. A tensor of two dimensions is a list of rows.
use flash_kvmo_e.Base.{
  ℕ, ◌+◌, ◌*◌, ◌/◌, min, Option, none, some, List, [], ◌∷◌, ◌++◌, Result, ok, raise, runtime_error,
  assertion_error, guard, ◌>>=◌, ◌>>◌, ◌==◌, if◌then◌else◌, length, take, drop, replicate, range,
}
use flash_kvmo_e.Base.Sorting.{sorted}
use flash_kvmo_e.Engine.Padding.{elem}
use flash_kvmo_e.Attention.Metadata.{FaMetadata, max_of}

pub record CaptureData : Type 0 where
  pub seq_lens : List ℕ
  pub positions : List ℕ
  pub cu_seqlens_k : List ℕ
  pub cu_seqlens_q : List ℕ
  pub page_table : List (List ℕ)

unfoldable pub create : ℕ → ℕ → CaptureData
create max_bs max_seq_len = record {
  seq_lens = replicate max_bs 1;
  positions = replicate max_bs 0;
  cu_seqlens_k = range 0 (max_bs + 1);
  cu_seqlens_q = range 0 (max_bs + 1);
  page_table = replicate max_bs (replicate max_seq_len 0);
}

-- `size(1)`, of a tensor that has a row.
unfoldable pub width : List (List ℕ) → ℕ
width [] = 0
width (row ∷ rows) = length row

-- `to[:n].copy_(from)`: a tensor of one element is broadcast, else the sizes must agree.
unfoldable pub copy_prefix : ℕ → List ℕ → List ℕ → Result (List ℕ)
copy_prefix n (x ∷ []) to = let m = min n (length to) in ok (replicate m x ++ drop m to)
copy_prefix n from to =
    let m = min n (length to) in
    if length from == m then ok (from ++ drop m to) else raise runtime_error

-- `to[:bs, :n].copy_(from)`, row by row, for a source of `bs` rows.
unfoldable pub copy_rows : ℕ → List (List ℕ) → List (List ℕ) → Result (List (List ℕ))
unfolding copy_prefix
copy_rows n [] to = ok to
copy_rows n (from ∷ froms) [] = raise runtime_error
copy_rows n (from ∷ froms) (to ∷ tos) = do
  row ← copy_prefix n from to
  rows ← copy_rows n froms tos
  ok (row ∷ rows)

-- `FlashAttentionBackend`, without the kernels' arguments.
pub record FaBackend : Type 0 where
  pub page_size : ℕ
  pub capture : Option CaptureData
  pub max_graph_bs : ℕ
  pub capture_bs : List ℕ

unfoldable pub init_capture_graph : ℕ → List ℕ → FaBackend → Result FaBackend
unfolding create max_of sorted
init_capture_graph max_seq_len bs_list b = elim b.capture [
  | some _ ↦ raise assertion_error
  | none ↦ do
    max_bs ← max_of bs_list
    ok (record b {
      capture = some (create max_bs (max_seq_len / b.page_size));
      max_graph_bs = max_bs;
      capture_bs = sorted bs_list;
    })
]

-- What a graph for `bs` requests is captured with: the first parts of the buffers.
unfoldable pub captured_views : ℕ → ℕ → CaptureData → FaMetadata
unfolding width
captured_views page_size bs capture = record {
  cu_seqlens_k = take (bs + 1) capture.cu_seqlens_k;
  cu_seqlens_q = take (bs + 1) capture.cu_seqlens_q;
  cache_seqlens = take bs capture.seq_lens;
  max_seqlen_k = width capture.page_table * page_size;
  max_seqlen_q = 1;
  page_table = take bs capture.page_table;
}

unfoldable pub prepare_for_capture : ℕ → FaBackend → Result FaMetadata
unfolding captured_views
prepare_for_capture bs b = guard (elem bs b.capture_bs) assertion_error >> elim b.capture [
  | none ↦ raise assertion_error
  | some capture ↦ ok (captured_views b.page_size bs capture)
]

unfoldable pub copy_metadata : FaMetadata → ℕ → CaptureData → Result CaptureData
unfolding copy_prefix copy_rows width
copy_metadata metadata bs capture = do
  let table_len = width metadata.page_table
  offsets ← copy_prefix (bs + 1) metadata.cu_seqlens_k capture.cu_seqlens_k
  lens ← copy_prefix bs metadata.cache_seqlens capture.seq_lens
  rows ← copy_rows table_len metadata.page_table capture.page_table
  ok (record capture { cu_seqlens_k = offsets; seq_lens = lens; page_table = rows })

unfoldable pub prepare_for_replay : FaMetadata → ℕ → FaBackend → Result FaBackend
unfolding copy_metadata
prepare_for_replay metadata bs b = elim b.capture [
  | none ↦ raise assertion_error
  | some capture ↦ do
    guard (elem bs b.capture_bs) assertion_error
    capture' ← copy_metadata metadata bs capture
    ok (record b { capture = some capture' })
]
