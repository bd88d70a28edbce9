-- ===== src/Attention/Metadata.antt =====
-- The metadata of a batch (python/minisgl/attention/fa.py, fi.py, fi_mla.py; trtllm.py has the text
-- of fa.py). Tensors of sizes are lists of numbers, and copies between host and device are left
-- out. The global page table is a function of a row and a column.
use flash_kvmo_e.Base.{
  false, runtime_error, ℕ, zero, suc, ◌+◌, ◌-◌, ◌/◌, Bool, true, ◌&&◌, List, [], ◌∷◌, ◌++◌, map,
  Result, ok, raise, value_error, guard, ◌>>=◌, ◌>>◌, leb, ltb, ◌==◌, if◌then◌else◌, length, take,
  replicate, slice, range,
}
use flash_kvmo_e.Core.{Req, Phase, prefill, decode, extend_len}
use flash_kvmo_e.Cache.Pages.{strided}
use flash_kvmo_e.Engine.Graph.{maximum}

-- `cumsum_`, from a sum that is already there.
unfoldable pub cumsum : ℕ → List ℕ → List ℕ
cumsum total [] = []
cumsum total (x ∷ xs) = (total + x) ∷ cumsum (total + x) xs

-- `torch.tensor([0] + lens).cumsum_(dim=0)`
unfoldable pub cu_seqlens : List ℕ → List ℕ
unfolding cumsum
cu_seqlens lens = cumsum 0 (0 ∷ lens)

-- `max(lens)` raises on an empty list.
unfoldable pub max_of : List ℕ → Result ℕ
unfolding maximum
max_of [] = raise value_error
max_of (x ∷ xs) = ok (maximum (x ∷ xs))

unfoldable pub all_zero : List ℕ → Bool
all_zero [] = true
all_zero (l ∷ ls) = (l == 0) && all_zero ls

-- The three ways to the offsets of the queries: a decode batch, a prefill without a cache hit, and
-- any other.
unfoldable pub choose_cu_seqlens_q : ℕ → List ℕ → List ℕ → List ℕ → List ℕ
unfolding cu_seqlens all_zero
choose_cu_seqlens_q max_seqlen_q seqlens_q cached_lens cu_seqlens_k =
    if max_seqlen_q == 1
    then range 0 (length seqlens_q + 1)
    else if all_zero cached_lens
    then cu_seqlens_k
    else cu_seqlens seqlens_q

-- `metadata.cu_seqlens_q[1 : 1 + bs] - 1`; each entry from the second on is positive for a batch
-- of well-formed requests.
unfoldable pub get_last_indices : List ℕ → ℕ → List ℕ
get_last_indices cu_seqlens_q bs = map (λ x. x - 1) (slice 1 (1 + bs) cu_seqlens_q)

pub record FaMetadata : Type 0 where
  pub cu_seqlens_k : List ℕ
  pub cu_seqlens_q : List ℕ
  pub cache_seqlens : List ℕ
  pub max_seqlen_k : ℕ
  pub max_seqlen_q : ℕ
  pub page_table : List (List ℕ)

module _ {F H : Type 0} where
  abbrev pub seqlens_q : List (Req F H) → List ℕ
  seqlens_q = map extend_len

  abbrev pub seqlens_k : List (Req F H) → List ℕ
  seqlens_k = map (λ req. req.device_len)

  abbrev pub cached_lens : List (Req F H) → List ℕ
  cached_lens = map (λ req. req.cached_len)

  -- `page_table[req.table_idx, : max_seqlen_k : page_size]`, floor-divided.
  unfoldable pub page_row : (ℕ → ℕ → ℕ) → ℕ → ℕ → Req F H → List ℕ
  unfolding strided
  page_row page_table page_size max_seqlen_k req =
      let row = strided page_size (map (page_table req.table_idx) (range 0 max_seqlen_k)) in
      if ltb 1 page_size then map (λ slot. slot / page_size) row else row

  -- `FlashAttentionBackend.prepare_metadata`, for the padded requests of the batch.
  unfoldable pub prepare_fa : (ℕ → ℕ → ℕ) → ℕ → List (Req F H) → Result FaMetadata
  unfolding cu_seqlens max_of choose_cu_seqlens_q page_row
  prepare_fa page_table page_size reqs = do
    max_seqlen_k ← max_of (seqlens_k reqs)
    max_seqlen_q ← max_of (seqlens_q reqs)
    let cu_seqlens_k = cu_seqlens (seqlens_k reqs)
    ok (record {
      cu_seqlens_k = cu_seqlens_k;
      cu_seqlens_q =
          choose_cu_seqlens_q max_seqlen_q (seqlens_q reqs) (cached_lens reqs) cu_seqlens_k;
      cache_seqlens = seqlens_k reqs;
      max_seqlen_k = max_seqlen_k;
      max_seqlen_q = max_seqlen_q;
      page_table = map (page_row page_table page_size max_seqlen_k) reqs;
    })

  -- `torch.cat([page_table[req.table_idx, : req.device_len] for req in reqs])`
  unfoldable pub ragged_indices : (ℕ → ℕ → ℕ) → List (Req F H) → List ℕ
  ragged_indices page_table [] = []
  ragged_indices page_table (req ∷ reqs) =
      map (page_table req.table_idx) (range 0 req.device_len) ++ ragged_indices page_table reqs

-- Which of its two wrappers the batch runs with.
pub data Wrapper : Type 0 where
  prefill_wrapper decode_wrappers : Wrapper

pub record FiMetadata : Type 0 where
  pub cu_seqlens_q_cpu : List ℕ
  pub cu_seqlens_k_cpu : List ℕ
  pub cu_seqlens_q_gpu : List ℕ
  pub indices : List ℕ
  pub last_page_len_cpu : List ℕ
  pub seq_lens_cpu : List ℕ
  pub wrapper : Wrapper
  pub initialized : Bool

-- `1 << math.ceil(math.log2(n))`, where the logarithm is not rounded: the first power of two that is not below `n`, with enough
-- rounds.
unfoldable pub power_from : ℕ → ℕ → ℕ → ℕ
power_from zero p n = p
power_from (suc fuel) p n = let rest = power_from fuel (p + p) n in if leb n p then p else rest

unfoldable pub next_power_of_2 : ℕ → ℕ
unfolding power_from
next_power_of_2 n = if leb n 1 then 1 else power_from n 1 n

-- `_get_ones_cpu`, with the cached tensor it leaves behind.
unfoldable pub get_ones_cpu : List ℕ → ℕ → List ℕ × List ℕ
unfolding next_power_of_2
get_ones_cpu cached_ones_cpu bs =
    if leb bs (length cached_ones_cpu)
    then (take bs cached_ones_cpu, cached_ones_cpu)
    else (let ones = replicate (next_power_of_2 bs) 1 in (take bs ones, ones))

module _ {F H : Type 0} where
  -- `FlashInferBackend.prepare_metadata`; the numbers of heads and the types are constants of the
  -- backend.
  unfoldable pub prepare_fi :
      (ℕ → ℕ → ℕ) → List ℕ → Phase → List (Req F H) → Result (FiMetadata × List ℕ)
  unfolding cu_seqlens max_of choose_cu_seqlens_q ragged_indices get_ones_cpu
  prepare_fi page_table cached_ones_cpu phase reqs = do
    max_seqlen_q ← max_of (seqlens_q reqs)
    let cu_seqlens_k_cpu = cu_seqlens (seqlens_k reqs)
    let cu_seqlens_q_cpu =
        choose_cu_seqlens_q max_seqlen_q (seqlens_q reqs) (cached_lens reqs) cu_seqlens_k_cpu
    let (ones, cached) = get_ones_cpu cached_ones_cpu (length reqs)
    ok (
      record {
        cu_seqlens_q_cpu = cu_seqlens_q_cpu;
        cu_seqlens_k_cpu = cu_seqlens_k_cpu;
        cu_seqlens_q_gpu = cu_seqlens_q_cpu;
        indices = ragged_indices page_table reqs;
        last_page_len_cpu = ones;
        seq_lens_cpu = seqlens_k reqs;
        wrapper = elim phase [ decode ↦ decode_wrappers | prefill ↦ prefill_wrapper ];
        initialized = false;
      },
      cached,
    )

pub record MlaMetadata : Type 0 where
  pub qo_indptr : List ℕ
  pub kv_indptr : List ℕ
  pub kv_indices : List ℕ
  pub kv_len_arr : List ℕ
  pub qo_indptr_gpu : List ℕ
  pub initialized : Bool

module _ {F H : Type 0} where
  -- `FlashInferMLABackend.prepare_metadata`; `torch.cat` of no tensors raises.
  unfoldable pub prepare_mla : (ℕ → ℕ → ℕ) → List (Req F H) → Result MlaMetadata
  unfolding cu_seqlens ragged_indices
  prepare_mla page_table reqs =
      guard (ltb 0 (length reqs)) runtime_error
      >> ok (record {
        qo_indptr = cu_seqlens (seqlens_q reqs);
        kv_indptr = cu_seqlens (seqlens_k reqs);
        kv_indices = ragged_indices page_table reqs;
        kv_len_arr = seqlens_k reqs;
        qo_indptr_gpu = cu_seqlens (seqlens_q reqs);
        initialized = false;
      })
