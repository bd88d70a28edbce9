-- ===== src/Scheduler/State.antt =====
-- The messages, batches and state of the scheduler (python/minisgl/scheduler/scheduler.py,
-- message/backend.py, message/tokenizer.py, core.py).
use flash_kvmo_e.Base.{ℕ, Bool, Option, List}
use flash_kvmo_e.Core.{Req, PendingReq, SamplingParams, Phase}
use flash_kvmo_e.KvCache.Interface.{PrefixCache}
use flash_kvmo_e.Scheduler.Decode.{DecodeManager}
use flash_kvmo_e.Scheduler.Prefill.{World}
use flash_kvmo_e.Engine.Graph.{GraphRunner}

pub record UserMsg (F : Type 0) : Type 0 where
  pub uid : ℕ
  pub input_ids : List ℕ
  pub sampling_params : SamplingParams F

mutual
  pub data BackendMsg (F : Type 0) : Type 0 where
    batched : BackendMsgs F → BackendMsg F
    exit : BackendMsg F
    user : UserMsg F → BackendMsg F
    abort : ℕ → BackendMsg F

  pub data BackendMsgs (F : Type 0) : Type 0 where
    nil : BackendMsgs F
    cons : BackendMsg F → BackendMsgs F → BackendMsgs F

pub record DetokenizeMsg : Type 0 where
  pub uid : ℕ
  pub next_token : ℕ
  pub finished : Bool

pub record Batch : Type 0 where
  pub reqs : List ℕ
  pub phase : Phase

-- The tensors that `_prepare_batch` makes.
pub record ForwardInput : Type 0 where
  pub batch : Batch
  pub positions : List ℕ
  pub input_mapping : List ℕ
  pub out_loc : List ℕ
  pub write_tuple : List (ℕ × Option ℕ)

pub record Config : Type 0 where
  pub max_seq_len : ℕ
  pub eos_token_id : ℕ
  pub prefill_budget : ℕ
  pub pool_width : ℕ
  pub graph_runner : GraphRunner

module _ (F : Type 0) (P : PrefixCache) where
  pub record Scheduler : Type 0 where
    pub world : World F P
    pub decode_manager : DecodeManager
    pub pending_list : List (PendingReq F)
    pub finished_reqs : List ℕ
    pub dummy_req : Req F P.Handle
