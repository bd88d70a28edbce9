-- ===== src/Scheduler/Tests.antt =====
-- The theorems on requests and on the scheduler's managers at small inputs.
use flash_kvmo_e.Base.{
  All, raise, [], ◌+◌, none, false, arith, some, ◌∷◌, get_elem?, ◌≤◌, ℕ, ◌≡◌, refl, ok,
}
use flash_kvmo_e.Core.{prefill, SamplingParams, Req, PendingReq, Store, new_req, IsReq}
use flash_kvmo_e.KvCache.Naive.{naive_cache, match_prefix, lock_handle}
use flash_kvmo_e.Cache.{new_manager}
use flash_kvmo_e.Scheduler.Table
use flash_kvmo_e.Scheduler.Table.{TableManager, new_table, allocate-free, free-allocate}
use flash_kvmo_e.Scheduler.Decode
use flash_kvmo_e.Scheduler.Decode.{
  elem, DecodeManager, filter_reqs, remove_req, IsSorted, elem-filter_reqs, elem-remove_req,
  schedule_next_batch_lem,
}
use flash_kvmo_e.Scheduler.Prefill
use flash_kvmo_e.Scheduler.Prefill.{World}
use flash_kvmo_e.Scheduler.Prefill.Budget.{extends, AllReqs, schedule_next_batch-Within}
use flash_kvmo_e.Scheduler.Prefill.Room.{Fits, BatchRoomy, schedule_next_batch-Fits}
use flash_kvmo_e.Scheduler.State.{Config, Scheduler, BackendMsg, batched, user, cons, nil}
use flash_kvmo_e.Scheduler.Loop.{next_batch, process_one_msg}
use flash_kvmo_e.Scheduler.Messages.{AllFit, process_one_msg-AllFit}
use flash_kvmo_e.Scheduler.Mapping.{
  make_positions, make_input_mapping, needed_size, make_positions_lem,
}

abbrev params : SamplingParams ℕ
params = record { temperature = 0; top_k = none; top_p = 1; ignore_eos = false; max_tokens = 2 }

-- Three ids, one of them cached, and two tokens to decode.
abbrev sample : ℕ → Req ℕ (Unit {0})
sample uid = record {
  input_ids = 5 ∷ 6 ∷ 7 ∷ [];
  table_idx = uid;
  cached_len = 1;
  output_len = 2;
  uid = uid;
  sampling_params = params;
  cache_handle = tt;
  device_len = 3;
  max_device_len = 5;
  chunked = false;
}

new_req-sample : new_req false (5 ∷ 6 ∷ 7 ∷ []) 4 1 2 4 params tt ≡ ok (sample 4)
unfolding new_req
new_req-sample = refl

sample-IsReq : IsReq (sample 4)
sample-IsReq = record { cached = omega arith; room = omega arith }

abbrev two_rows : TableManager
two_rows = record { free_slots = 0 ∷ 1 ∷ []; token_pool = λ _ _. 0 }

abbrev one_row : TableManager
one_row = record { free_slots = 0 ∷ []; token_pool = λ _ _. 0 }

allocate-two_rows : Table.allocate two_rows ≡ ok (1, one_row)
unfolding Table.allocate
allocate-two_rows = refl

-- Request 3 runs before request 1 was added; their uids are their numbers.
abbrev store : Store ℕ (Unit {0})
store = record { next = 5; req = sample }

abbrev running : DecodeManager
running = record { page_size = 1; running_reqs = 3 ∷ 1 ∷ [] }

schedule_next_batch-running : Decode.schedule_next_batch store running ≡ some (1 ∷ 3 ∷ [])
unfolding Decode.schedule_next_batch
schedule_next_batch-running = refl

make_positions_lem_example :
    (get_elem? (make_positions (sample 4 ∷ sample 7 ∷ [])) (needed_size (sample 4 ∷ []) + 1)
      ≡ some (1 + 1))
    × (get_elem? (make_input_mapping (sample 4 ∷ sample 7 ∷ [])) (needed_size (sample 4 ∷ []) + 1)
        ≡ some 7)
make_positions_lem_example = make_positions_lem (sample 4 ∷ []) [] (sample 7) 1 (omega arith)

-- A request of five ids meets a budget of three: it is cut.
abbrev long_req : PendingReq ℕ
long_req = record {
  uid = 8;
  input_ids = 1 ∷ 2 ∷ 3 ∷ 4 ∷ 5 ∷ [];
  sampling_params = params;
  chunked_req = none;
}

abbrev fresh : World ℕ naive_cache
fresh = record {
  cache = new_manager 8 1 (λ _ _. 0) tt;
  table = new_table 2;
  store = record { next = 0; req = sample };
}

abbrev after_batch : World ℕ naive_cache
after_batch = elim (Prefill.schedule_next_batch naive_cache 3 0 (λ i. i) (long_req ∷ []) fresh) [
  | ok (_, _, w) ↦ w
  | raise _ ↦ fresh
]

schedule_next_batch-cut :
    Prefill.schedule_next_batch naive_cache 3 0 (λ i. i) (long_req ∷ []) fresh
    ≡ ok (some (0 ∷ []), record long_req { chunked_req = some 0 } ∷ [], after_batch)
unfolding Prefill.schedule_next_batch new_manager new_table match_prefix lock_handle
schedule_next_batch-cut = refl

schedule_next_batch-Within_example :
    (extends after_batch.store (0 ∷ []) ≤ 3) × AllReqs after_batch.store (0 ∷ [])
schedule_next_batch-Within_example =
    schedule_next_batch-Within naive_cache 3 0 (λ i. i) (long_req ∷ []) fresh (0 ∷ [])
      (record long_req { chunked_req = some 0 } ∷ []) after_batch schedule_next_batch-cut

schedule_next_batch-Fits_example :
    All (Fits 7) (record long_req { chunked_req = some 0 } ∷ [])
    × BatchRoomy naive_cache 7 after_batch.store (some (0 ∷ []))
schedule_next_batch-Fits_example =
    schedule_next_batch-Fits naive_cache 7 3 0 (λ i. i) (long_req ∷ []) fresh (some (0 ∷ []))
      (record long_req { chunked_req = some 0 } ∷ []) after_batch (omega arith, tt)
      schedule_next_batch-cut

-- A sequence has room for six tokens: the message asks for two more than the one that is left.
abbrev config : Config
config = record {
  max_seq_len = 6;
  eos_token_id = 0;
  prefill_budget = 3;
  pool_width = 8;
  graph_runner = record { max_graph_bs = 0; graph_bs_list = [] };
}

abbrev idle_scheduler : Scheduler ℕ naive_cache
idle_scheduler = record {
  world = fresh;
  decode_manager = record { page_size = 1; running_reqs = [] };
  pending_list = [];
  finished_reqs = [];
  dummy_req = sample 0;
}

abbrev long_msg : BackendMsg ℕ
long_msg = batched (
    cons (user (record { uid = 8; input_ids = 1 ∷ 2 ∷ 3 ∷ 4 ∷ 5 ∷ []; sampling_params = params }))
      nil)

abbrev cut_req : PendingReq ℕ
cut_req = record {
  uid = 8;
  input_ids = 1 ∷ 2 ∷ 3 ∷ 4 ∷ 5 ∷ [];
  sampling_params = record params { max_tokens = 1 };
  chunked_req = none;
}

abbrev waiting_scheduler : Scheduler ℕ naive_cache
waiting_scheduler = record idle_scheduler { pending_list = cut_req ∷ [] }

process_one_msg-cut :
    process_one_msg naive_cache config long_msg 0 idle_scheduler ≡ ok waiting_scheduler
unfolding process_one_msg
process_one_msg-cut = refl

process_one_msg-AllFit_example : AllFit naive_cache config waiting_scheduler
process_one_msg-AllFit_example =
    process_one_msg-AllFit naive_cache config long_msg 0 idle_scheduler waiting_scheduler tt
      process_one_msg-cut

abbrev picked : Scheduler ℕ naive_cache
picked = elim (next_batch naive_cache config (λ i. i) waiting_scheduler) [
  | ok (_, s) ↦ s
  | raise _ ↦ waiting_scheduler
]

next_batch-picked :
    next_batch naive_cache config (λ i. i) waiting_scheduler
    ≡ ok (some (record { reqs = 0 ∷ []; phase = prefill }), picked)
unfolding next_batch new_manager new_table match_prefix lock_handle
next_batch-picked = refl
