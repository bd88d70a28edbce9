-- ===== src/Scheduler/Loop.antt =====
-- `Scheduler` (python/minisgl/scheduler/scheduler.py), over any prefix cache. The model's answer,
-- the next token of each request of a batch, is an argument. Logging and `req_timings`, which only
-- feeds the log, are left out.
use flash_kvmo_e.Scheduler.State.{
  UserMsg, BackendMsg, BackendMsgs, DetokenizeMsg, Batch, ForwardInput, Config, Scheduler, batched,
  exit, user, abort, nil, cons,
}
use flash_kvmo_e.Base.{
  ℕ, ◌-◌, true, false, ◌&&◌, ◌||◌, not, Option, none, some, List, [], ◌∷◌, ◌++◌, Result, ok, raise,
  index_error, keyboard_interrupt, ◌>>=◌, leb, ltb, ◌==◌, if◌then◌else◌, length, map,
}
use flash_kvmo_e.Core.{
  Req, Phase, prefill, decode, Store, assign, can_decode, complete_one, append_host,
}
use flash_kvmo_e.KvCache.Interface.{PrefixCache}
use flash_kvmo_e.Cache.{Manager, begin_lazy_free, end_lazy_free, cache_req, allocate_paged}
use flash_kvmo_e.Scheduler.Table
use flash_kvmo_e.Scheduler.Decode
use flash_kvmo_e.Scheduler.Decode.{DecodeManager, elem}
use flash_kvmo_e.Scheduler.Prefill
use flash_kvmo_e.Scheduler.Prefill.{World}
use flash_kvmo_e.Engine.Graph.{pad_batch}
use flash_kvmo_e.Scheduler.Mapping.{make_positions, make_input_mapping, make_write_tuple}

-- `table[rows, columns]`
unfoldable pub read_cells : (ℕ → ℕ → ℕ) → List ℕ → List ℕ → List ℕ
read_cells table (i ∷ rows) (pos ∷ columns) = table i pos ∷ read_cells table rows columns
read_cells table _ _ = []

-- `token_pool[output_mapping] = next_tokens`; a row has `width` columns.
unfoldable pub write_tokens : ℕ → List (ℕ × Option ℕ) → List ℕ → (ℕ → ℕ → ℕ) → ℕ → ℕ → ℕ
write_tokens width ((i, column) ∷ cells) (token ∷ tokens) pool =
    let pos : ℕ = elim column [ none ↦ width - 1 | some q ↦ q ] in
    write_tokens width cells tokens (λ j q. if (i == j) && (pos == q) then token else pool j q)
write_tokens width _ _ pool = pool

-- `for req in batch.reqs: req.complete_one()` in `Engine.forward_batch`.
unfoldable pub complete_all : {F H : Type 0} → List ℕ → Store F H → Store F H
unfolding complete_one
complete_all [] s = s
complete_all (ref ∷ refs) s = complete_all refs (assign ref (complete_one (s.req ref)) s)

module _ {F : Type 0} (P : PrefixCache) (cfg : Config) where
  abbrev put_req : ℕ → Req F P.Handle → Scheduler F P → Scheduler F P
  put_req ref req s = record s { world = record s.world { store = assign ref req s.world.store } }

  -- The table slot is given back before the request is cached.
  unfoldable pub free_req_resources : ℕ → ℕ → Scheduler F P → Result (Scheduler F P)
  unfolding Table.free cache_req
  free_req_resources ref tic s = do
    let req = s.world.store.req ref
    let table = Table.free req.table_idx s.world.table
    (req', cache) ← cache_req P req true tic tic s.world.cache
    ok (record s {
      world = record { cache = cache; table = table; store = assign ref req' s.world.store };
    })

  -- A prompt that leaves no room is dropped; `max_tokens` is cut to the room that is left.
  unfoldable pub accept_user : UserMsg F → Scheduler F P → Scheduler F P
  accept_user msg s =
      let input_len = length msg.input_ids in
      let max_output_len = cfg.max_seq_len - input_len in
      if leb cfg.max_seq_len input_len then s else record s {
        pending_list =
            s.pending_list
            ++ record {
              uid = msg.uid;
              input_ids = msg.input_ids;
              sampling_params =
                  if ltb max_output_len msg.sampling_params.max_tokens
                  then record (msg.sampling_params) { max_tokens = max_output_len }
                  else msg.sampling_params;
              chunked_req = none;
            }
              ∷ [];
      }

  unfoldable pub abort_uid : ℕ → ℕ → Scheduler F P → Result (Scheduler F P)
  unfolding Prefill.abort_req Decode.abort_req free_req_resources
  abort_uid uid tic s = do
    let (waiting, pending_list) = Prefill.abort_req uid s.pending_list
    let s1 = record s { pending_list = pending_list }
    elim waiting [
      | some ref ↦ free_req_resources ref tic s1
      | none ↦
          let (running, decode_manager) = Decode.abort_req s.world.store uid s.decode_manager in
          let s2 = record s1 { decode_manager = decode_manager } in
          elim running [ none ↦ ok s2 | some ref ↦ free_req_resources ref tic s2 ]
    ]

  -- What happens to one request of the last batch, with its next token.
  unfoldable pub process_req :
      Phase → ℕ → ℕ → ℕ → Scheduler F P → Result (List DetokenizeMsg × List ℕ × Scheduler F P)
  unfolding append_host free_req_resources Decode.remove_req elem cache_req
  process_req phase ref next_token tic s =
      let req = append_host (s.world.store.req ref) next_token in
      if (s.world.store.req ref).chunked then ok ([], [], s) else (do
        let s1 = put_req ref req s
        let finished =
            not (can_decode req)
            || (not req.sampling_params.ignore_eos && (next_token == cfg.eos_token_id))
        let reply = record { uid = req.uid; next_token = next_token; finished = finished } ∷ []
        if finished && not (elem ref s.finished_reqs)
            then (do
              s2 ←
                  free_req_resources ref tic
                    (record s1 { decode_manager = Decode.remove_req ref s1.decode_manager })
              ok (reply, ref ∷ [], s2))
            else elim phase [
              | decode ↦ ok (reply, [], s1)
              | prefill ↦ do
                (req', cache) ← cache_req P req false tic tic s1.world.cache
                ok (
                  reply,
                  [],
                  put_req ref req' (record s1 { world = record s1.world { cache = cache } }),
                )
            ])

  unfoldable pub process_reqs :
      Phase
      → List ℕ
      → List ℕ
      → ℕ
      → Scheduler F P
      → Result (List DetokenizeMsg × List ℕ × Scheduler F P)
  unfolding process_req
  process_reqs phase [] tokens tic s = ok ([], [], s)
  process_reqs phase (ref ∷ refs) [] tic s =
      let rest = process_reqs phase refs [] tic s in
      if (s.world.store.req ref).chunked then rest else raise index_error
  process_reqs phase (ref ∷ refs) (token ∷ tokens) tic s = do
    (reply, done, s') ← process_req phase ref token tic s
    (replies, finished, s'') ← process_reqs phase refs tokens tic s'
    ok (reply ++ replies, done ++ finished, s'')

  abbrev on_cache : (Manager P → Manager P) → Scheduler F P → Scheduler F P
  on_cache f s = record s { world = record s.world { cache = f s.world.cache } }

  -- `_process_last_data`; the second part is what `send_result` sends.
  unfoldable pub process_last_data :
      Batch → List ℕ → ℕ → Scheduler F P → Result (List DetokenizeMsg × Scheduler F P)
  unfolding process_reqs end_lazy_free
  process_last_data batch next_tokens tic s = do
    (reply, finished, s') ←
        process_reqs batch.phase batch.reqs next_tokens tic (on_cache begin_lazy_free s)
    ok (reply, record (on_cache end_lazy_free s') { finished_reqs = finished })

  -- The next batch, prefill first.
  unfoldable pub next_batch : (ℕ → ℕ) → Scheduler F P → Result (Option Batch × Scheduler F P)
  unfolding Prefill.schedule_next_batch Decode.schedule_next_batch Decode.inflight_tokens
  next_batch clock s = do
    (prefills, pending_list, world) ←
        Prefill.schedule_next_batch P cfg.prefill_budget
          (Decode.inflight_tokens s.world.store s.decode_manager) clock s.pending_list s.world
    let s' = record s { pending_list = pending_list; world = world }
    elim prefills [
      | some reqs ↦ ok (some (record { reqs = reqs; phase = prefill }), s')
      | none ↦ elim (Decode.schedule_next_batch world.store s.decode_manager) [
        | none ↦ ok (none, s')
        | some reqs ↦ ok (some (record { reqs = reqs; phase = decode }), s')
      ]
    ]

  -- `_prepare_batch`: the padding has dummies with a row of their own.
  unfoldable pub prepare_batch : Batch → Scheduler F P → Result (ForwardInput × Scheduler F P)
  unfolding pad_batch allocate_paged make_positions make_input_mapping make_write_tuple read_cells
  prepare_batch batch s = do
    let reqs = map s.world.store.req batch.reqs
    padded_reqs ← pad_batch cfg.graph_runner s.dummy_req batch.phase reqs
    cache ← allocate_paged P reqs s.world.cache
    ok (
      record {
        batch = batch;
        positions = make_positions padded_reqs;
        input_mapping = make_input_mapping padded_reqs;
        out_loc =
            read_cells cache.page_table (make_input_mapping padded_reqs)
              (make_positions padded_reqs);
        write_tuple = make_write_tuple reqs;
      },
      on_cache (λ _. cache) s,
    )

  -- `_forward`: the tokens are written where the write tuple says, then the batch's requests run on
  -- if they can.
  unfoldable pub forward : ForwardInput → List ℕ → Scheduler F P → Scheduler F P
  unfolding complete_all write_tokens Decode.filter_reqs
  forward input next_tokens s =
      let store = complete_all input.batch.reqs s.world.store in
      let pool =
        write_tokens cfg.pool_width input.write_tuple next_tokens s.world.table.token_pool in
      record s {
        world = record s.world {
          store = store;
          table = record s.world.table { token_pool = pool };
        };
        decode_manager = Decode.filter_reqs store input.batch.reqs s.decode_manager;
      }

unfoldable mutual
  unfolding accept_user abort_uid

  -- `_process_one_msg`. An exit message raises KeyboardInterrupt.
  pub process_one_msg :
      {F : Type 0} (P : PrefixCache) (cfg : Config)
      → BackendMsg F
      → ℕ
      → Scheduler F P
      → Result (Scheduler F P)
  process_one_msg P cfg (batched msgs) tic s = process_msgs P cfg msgs tic s
  process_one_msg P cfg exit tic s = raise keyboard_interrupt
  process_one_msg P cfg (user msg) tic s = ok (accept_user P cfg msg s)
  process_one_msg P cfg (abort uid) tic s = abort_uid P cfg uid tic s

  pub process_msgs :
      {F : Type 0} (P : PrefixCache) (cfg : Config)
      → BackendMsgs F
      → ℕ
      → Scheduler F P
      → Result (Scheduler F P)
  process_msgs P cfg nil tic s = ok s
  process_msgs P cfg (cons msg msgs) tic s = do
    s' ← process_one_msg P cfg msg tic s
    process_msgs P cfg msgs tic s'

module _ {F : Type 0} (P : PrefixCache) (cfg : Config) where
  unfoldable pub run_next :
      (ForwardInput → List ℕ → List ℕ)
      → Option Batch
      → Scheduler F P
      → Result (Option (Batch × List ℕ) × Scheduler F P)
  unfolding prepare_batch forward read_cells
  run_next answer none s = ok (none, s)
  run_next answer (some batch) s = do
    (input, s') ← prepare_batch P cfg batch s
    let input_ids = read_cells s'.world.table.token_pool input.input_mapping input.positions
    let next_tokens = answer input input_ids
    ok (some (batch, next_tokens), forward P cfg input next_tokens s')

  unfoldable pub process_last :
      ℕ
      → Option (Batch × List ℕ)
      → Option (Batch × List ℕ)
      → Scheduler F P
      → Result (Option (Batch × List ℕ) × List DetokenizeMsg × Scheduler F P)
  unfolding process_last_data
  process_last tic none ongoing s = ok (ongoing, [], s)
  process_last tic (some (batch, tokens)) ongoing s = do
    (reply, s') ← process_last_data P cfg batch tokens tic s
    ok (ongoing, reply, s')

  -- The body of `overlap_loop` behind the messages: the next batch is scheduled and run, then the
  -- results of the last one are processed. `answer` is the model: the next tokens of
  -- a batch, from its index tensors and the ids that the token pool has for them.
  unfoldable pub overlap_step :
      (ForwardInput → List ℕ → List ℕ)
      → (ℕ → ℕ)
      → Option (Batch × List ℕ)
      → Scheduler F P
      → Result (Option (Batch × List ℕ) × List DetokenizeMsg × Scheduler F P)
  unfolding next_batch run_next process_last
  overlap_step answer clock last_data s = do
    (next, s1) ← next_batch P cfg clock s
    (ongoing, s2) ← run_next answer next s1
    process_last (clock 0) last_data ongoing s2
