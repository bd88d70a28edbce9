-- ===== src/Core.antt =====
-- Requests and batches (python/minisgl/core.py, and `PendingReq` of scheduler/utils.py). `F` is
-- the type of floats, `H` that of cache handles. Token ids are numbers.
use flash_kvmo_e.Base.{
  ℕ, suc, ◌+◌, ◌-◌, ◌≤◌, ◌<◌, ◌≡◌, Bool, false, Option, List, [], ◌∷◌, ◌++◌, Result, ok,
  assertion_error, guard, ◌>>◌, ltb, leb, ◌==◌, if◌then◌else◌, length, arith,
}

-- `top_k` is an int that may be -1: `none` stands for every value below 0.
pub record SamplingParams (F : Type 0) : Type 0 where
  pub temperature : F
  pub top_k : Option ℕ
  pub top_p : F
  pub ignore_eos : Bool
  pub max_tokens : ℕ

-- An object of class `ChunkedReq` has `chunked` set.
pub record Req (F H : Type 0) : Type 0 where
  pub input_ids : List ℕ
  pub table_idx : ℕ
  pub cached_len : ℕ
  pub output_len : ℕ
  pub uid : ℕ
  pub sampling_params : SamplingParams F
  pub cache_handle : H
  pub device_len : ℕ
  pub max_device_len : ℕ
  pub chunked : Bool

-- `chunked_req` is a reference into the store of requests.
pub record PendingReq (F : Type 0) : Type 0 where
  pub uid : ℕ
  pub input_ids : List ℕ
  pub sampling_params : SamplingParams F
  pub chunked_req : Option ℕ

-- The request objects, which batches, the running set and pending requests share.
pub record Store (F H : Type 0) : Type 0 where
  pub next : ℕ
  pub req : ℕ → Req F H

module _ {F : Type 0} where
  abbrev pub input_len : PendingReq F → ℕ
  input_len req = length req.input_ids

  abbrev pub output_len : PendingReq F → ℕ
  output_len req = req.sampling_params.max_tokens

module _ {F H : Type 0} where
  -- `__init__` and `__post_init__`.
  unfoldable pub new_req : Bool → List ℕ → ℕ → ℕ → ℕ → ℕ → SamplingParams F → H → Result (Req F H)
  new_req chunked input_ids table_idx cached_len output_len uid sampling_params cache_handle = do
    guard (ltb cached_len (length input_ids)) assertion_error
    guard (leb (length input_ids) (length input_ids + output_len)) assertion_error
    ok (record {
      input_ids = input_ids;
      table_idx = table_idx;
      cached_len = cached_len;
      output_len = output_len;
      uid = uid;
      sampling_params = sampling_params;
      cache_handle = cache_handle;
      device_len = length input_ids;
      max_device_len = length input_ids + output_len;
      chunked = chunked;
    })

  -- `device_len` never passes `max_device_len`, nor `cached_len` `device_len`: `IsReq`.
  abbrev pub remain_len : Req F H → ℕ
  remain_len req = req.max_device_len - req.device_len

  abbrev pub extend_len : Req F H → ℕ
  extend_len req = req.device_len - req.cached_len

  abbrev pub can_decode : Req F H → Bool
  can_decode req = if req.chunked then false else ltb 0 (remain_len req)

  abbrev pub create : Req F H → Store F H → ℕ × Store F H
  create req s =
      (s.next, record { next = suc s.next; req = λ x. if s.next == x then req else s.req x })

  abbrev pub assign : ℕ → Req F H → Store F H → Store F H
  assign ref req s = record s { req = λ x. if ref == x then req else s.req x }

  unfoldable pub complete_one : Req F H → Req F H
  complete_one req = record req { cached_len = req.device_len; device_len = req.device_len + 1 }

  -- Only called where `isinstance(req, ChunkedReq)` is false; else it raises.
  unfoldable pub append_host : Req F H → ℕ → Req F H
  append_host req next_token = record req { input_ids = req.input_ids ++ next_token ∷ [] }

  pub record IsReq (req : Req F H) : Type 0 where
    pub cached : req.cached_len < req.device_len
    pub room : req.device_len ≤ req.max_device_len

  -- A new request that is made without an error is well formed, extends by what of its ids is
  -- not cached, and has its output length to go.
  pub new_req-IsReq :
      (chunked : Bool) (input_ids : List ℕ) (table_idx cached_len output_len uid : ℕ)
      (sampling_params : SamplingParams F) (cache_handle : H) {req : Req F H}
      → new_req chunked input_ids table_idx cached_len output_len uid sampling_params cache_handle
        ≡ ok req
      → IsReq req × (extend_len req + cached_len ≡ length input_ids) × (remain_len req ≡ output_len)
  unfolding new_req
  new_req-IsReq chunked input_ids table_idx cached_len output_len uid sampling_params cache_handle
        h =
      (record { cached = ground arith; room = ground arith }, ground arith, ground arith)

  pub new_req-max_device_len :
      (chunked : Bool) (input_ids : List ℕ) (table_idx cached_len output_len uid : ℕ)
      (sampling_params : SamplingParams F) (cache_handle : H) {req : Req F H}
      → new_req chunked input_ids table_idx cached_len output_len uid sampling_params cache_handle
        ≡ ok req
      → req.max_device_len ≡ length input_ids + output_len
  unfolding new_req
  new_req-max_device_len chunked input_ids table_idx cached_len output_len uid sampling_params
        cache_handle h =
      ground arith

  -- For a well-formed request with tokens to go, one decoded token keeps it well formed, leaves
  -- one id to extend, and one token less to go.
  pub complete_one-IsReq :
      (req : Req F H)
      → IsReq req
      → 0 < remain_len req
      → IsReq (complete_one req)
        × (extend_len (complete_one req) ≡ 1)
        × (remain_len (complete_one req) + 1 ≡ remain_len req)
  unfolding complete_one
  complete_one-IsReq req v h =
      (record { cached = omega arith; room = omega arith }, omega arith, omega arith)

pub data Phase : Type 0 where
  prefill decode : Phase
