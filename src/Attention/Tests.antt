-- ===== src/Attention/Tests.antt =====
-- Small batches, and the theorems on them.
use Prim.Native.String.{String}
use flash_kvmo_e.Engine.Padding.{elem}
use flash_kvmo_e.Attention.Capture.{prepare_for_capture}
use flash_kvmo_e.Attention.Graphs.{IsReady, init_capture_graph-IsReady, prepare_for_replay_lem}
use flash_kvmo_e.Cache.Pages.{strided}
use flash_kvmo_e.Attention.Capture.{create, prepare_for_replay, FaBackend, init_capture_graph}
use flash_kvmo_e.Attention.Backend.{
  fi_forward_all_lem, layer_events, create_attention_backend_lem, graph_backend, record_event, plan,
  single, synchronize, backend_of, hybrid, create_attention_backend, fi_forward_all, lookup,
}
use flash_kvmo_e.Base.{
  range_from, All, ℕ, ◌+◌, ◌*◌, ◌/◌, ◌≡◌, refl, true, false, none, some, List, [], ◌∷◌, map, ok,
  get_elem?, slice, take, range, arith,
}
use flash_kvmo_e.Core.{IsReq, Req, SamplingParams, prefill, decode}
use flash_kvmo_e.Scheduler.Mapping.{make_positions, make_input_mapping}
use flash_kvmo_e.Attention.Metadata.{
  FaMetadata, FiMetadata, prepare_fa, prepare_fi, get_last_indices, page_row, prefill_wrapper,
}
use flash_kvmo_e.Attention.Lengths.{prepare_fa-last_indices}
use flash_kvmo_e.Attention.Ragged.{prepare_fi-indices}
use flash_kvmo_e.Attention.Tables.{page_row_lem}

abbrev params : SamplingParams ℕ
params = record { temperature = 0; top_k = none; top_p = 1; ignore_eos = false; max_tokens = 2 }

abbrev request : ℕ → ℕ → ℕ → Req ℕ (Unit {0})
request table_idx cached_len device_len = record {
  input_ids = [];
  table_idx = table_idx;
  cached_len = cached_len;
  output_len = 2;
  uid = table_idx;
  sampling_params = params;
  cache_handle = tt;
  device_len = device_len;
  max_device_len = 5;
  chunked = false;
}

-- Row `i` of the table holds the slots from `10 * i` on.
abbrev table : ℕ → ℕ → ℕ
table i pos = 10 * i + pos

abbrev extended : Req ℕ (Unit {0})
extended = request 1 1 3

abbrev fresh : Req ℕ (Unit {0})
fresh = request 2 0 2

abbrev prepared : FaMetadata
prepared = record {
  cu_seqlens_k = 0 ∷ 3 ∷ 5 ∷ [];
  cu_seqlens_q = 0 ∷ 2 ∷ 4 ∷ [];
  cache_seqlens = 3 ∷ 2 ∷ [];
  max_seqlen_k = 3;
  max_seqlen_q = 2;
  page_table = (5 ∷ 6 ∷ []) ∷ (10 ∷ 11 ∷ []) ∷ [];
}

prepare_fa-two : prepare_fa table 2 (extended ∷ fresh ∷ []) ≡ ok prepared
unfolding prepare_fa range_from
prepare_fa-two = refl

abbrev two_IsReq : All IsReq (extended ∷ fresh ∷ [])
two_IsReq = (
  record { cached = omega arith; room = omega arith },
  (record { cached = omega arith; room = omega arith }, tt),
)

prepare_fa-last_indices_example :
    (i : ℕ) × (get_elem? (get_last_indices (0 ∷ 2 ∷ 4 ∷ []) 2) 1 ≡ some i)
    × (get_elem? (make_positions (extended ∷ fresh ∷ [])) i ≡ some 1)
    × (get_elem? (make_input_mapping (extended ∷ fresh ∷ [])) i ≡ some 2)
prepare_fa-last_indices_example =
    prepare_fa-last_indices table 2 2 (extended ∷ []) [] fresh two_IsReq prepare_fa-two
      (omega arith)

abbrev ragged : FiMetadata
ragged = record {
  cu_seqlens_q_cpu = 0 ∷ 2 ∷ 4 ∷ [];
  cu_seqlens_k_cpu = 0 ∷ 3 ∷ 5 ∷ [];
  cu_seqlens_q_gpu = 0 ∷ 2 ∷ 4 ∷ [];
  indices = 10 ∷ 11 ∷ 12 ∷ 20 ∷ 21 ∷ [];
  last_page_len_cpu = 1 ∷ 1 ∷ [];
  seq_lens_cpu = 3 ∷ 2 ∷ [];
  wrapper = prefill_wrapper;
  initialized = false;
}

prepare_fi-two : prepare_fi table [] prefill (extended ∷ fresh ∷ []) ≡ ok (ragged, 1 ∷ 1 ∷ [])
unfolding prepare_fi range_from
prepare_fi-two = refl

prepare_fi-indices_example :
    (a : ℕ) × (b : ℕ) × (get_elem? (0 ∷ 3 ∷ 5 ∷ []) 1 ≡ some a)
    × (get_elem? (0 ∷ 3 ∷ 5 ∷ []) 2 ≡ some b)
    × (slice a b ragged.indices ≡ map (table 2) (range 0 2))
prepare_fi-indices_example =
    prepare_fi-indices table [] (1 ∷ 1 ∷ []) prefill (extended ∷ []) [] fresh prepare_fi-two

page_row_lem_example : get_elem? (page_row table 2 3 extended) (2 / 2) ≡ some (5 + 2 / 2)
page_row_lem_example =
    page_row_lem table (λ j. 5 + j) 2 3 2 extended (omega arith) (omega arith) (λ q h. omega arith)
      (omega arith)

-- A graph captured for up to four requests of up to eight tokens, and a batch of two.
abbrev backend : FaBackend
backend = record { page_size = 2; capture = none; max_graph_bs = 0; capture_bs = [] }

abbrev captured : FaBackend
captured = record {
  page_size = 2;
  capture = some (create 4 4);
  max_graph_bs = 4;
  capture_bs = 1 ∷ 2 ∷ 4 ∷ [];
}

init_capture_graph-captured : init_capture_graph 8 (4 ∷ 2 ∷ 1 ∷ []) backend ≡ ok captured
unfolding init_capture_graph range_from
init_capture_graph-captured = refl

abbrev decoding : List (Req ℕ (Unit {0}))
decoding = request 1 2 3 ∷ request 2 4 5 ∷ []

abbrev decoded : FaMetadata
decoded = record {
  cu_seqlens_k = 0 ∷ 3 ∷ 8 ∷ [];
  cu_seqlens_q = 0 ∷ 1 ∷ 2 ∷ [];
  cache_seqlens = 3 ∷ 5 ∷ [];
  max_seqlen_k = 5;
  max_seqlen_q = 1;
  page_table = (5 ∷ 6 ∷ 7 ∷ []) ∷ (10 ∷ 11 ∷ 12 ∷ []) ∷ [];
}

prepare_fa-decoded : prepare_fa table 2 decoding ≡ ok decoded
unfolding prepare_fa range_from
prepare_fa-decoded = refl

prepare_for_replay_lem_example :
    (b' : FaBackend) × (v : FaMetadata) × (prepare_for_replay decoded 2 captured ≡ ok b')
    × IsReady 8 (4 ∷ 2 ∷ 1 ∷ []) b'
    × (prepare_for_capture 2 b' ≡ ok v)
    × (v.cu_seqlens_k ≡ 0 ∷ 3 ∷ 8 ∷ [])
    × (v.cu_seqlens_q ≡ 0 ∷ 1 ∷ 2 ∷ [])
    × (v.cache_seqlens ≡ 3 ∷ 5 ∷ [])
    × (map (take 3) v.page_table ≡ (5 ∷ 6 ∷ 7 ∷ []) ∷ (10 ∷ 11 ∷ 12 ∷ []) ∷ [])
unfolding strided elem range_from
prepare_for_replay_lem_example =
    prepare_for_replay_lem 8 (4 ∷ 2 ∷ 1 ∷ []) captured table decoding
      (init_capture_graph-IsReady 8 (4 ∷ 2 ∷ 1 ∷ []) backend init_capture_graph-captured)
      (omega arith) prepare_fa-decoded refl refl (omega arith)

abbrev registry : List (String × ℕ)
registry = ("trtllm", 0) ∷ ("fi", 1) ∷ ("fa", 2) ∷ []

create_attention_backend-two :
    create_attention_backend ("fa" ∷ "fi" ∷ []) registry ≡ ok (hybrid (single 2) (single 1))
unfolding create_attention_backend
create_attention_backend-two = refl

create_attention_backend_lem_example :
    (lookup "fa" registry ≡ some (backend_of prefill (hybrid (single 2) (single 1))))
    × (lookup "fi" registry ≡ some (backend_of decode (hybrid (single 2) (single 1))))
    × (lookup "fi" registry ≡ some (graph_backend (hybrid (single 2) (single 1))))
create_attention_backend_lem_example =
    create_attention_backend_lem "fa" "fi" registry create_attention_backend-two

fi_forward_all_lem_example :
    fi_forward_all (0 ∷ 1 ∷ []) ragged
    ≡ synchronize
      ∷ plan (record ragged { initialized = true })
      ∷ record_event
      ∷ layer_events (0 ∷ 1 ∷ [])
fi_forward_all_lem_example = fi_forward_all_lem 0 (1 ∷ []) ragged refl
