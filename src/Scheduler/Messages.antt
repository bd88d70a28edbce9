-- ===== src/Scheduler/Messages.antt =====
-- Messages and batches keep the waiting requests within the sequence length
-- (python/minisgl/scheduler/scheduler.py).
use flash_kvmo_e.Base.{
  true, ℕ, ◌≡◌, refl, sym, length, arith, All, All-append, Ensures, Ensures-ok, Ensures-bind,
  Ensures-option, ok, subst, leb, Bool-cases, inl, inr,
}
use flash_kvmo_e.KvCache.Interface.{PrefixCache}
use flash_kvmo_e.Cache.{cache_req}
use flash_kvmo_e.Scheduler.Decode
use flash_kvmo_e.Scheduler.Prefill
use flash_kvmo_e.Scheduler.Prefill.Room.{Fits, abort_req-All}
use flash_kvmo_e.Scheduler.State.{
  Scheduler, Config, UserMsg, BackendMsg, BackendMsgs, batched, exit, user, abort, nil, cons,
}
use flash_kvmo_e.Scheduler.Loop.{
  free_req_resources, accept_user, abort_uid, process_one_msg, process_msgs,
}

module _ {F : Type 0} (P : PrefixCache) (cfg : Config) where
  -- Every waiting request fits the sequence length of the engine.
  abbrev pub AllFit : Scheduler F P → Type 0
  AllFit s = All (Fits cfg.max_seq_len) s.pending_list

  free_req_resources-pending_list :
      (ref tic : ℕ) (s : Scheduler F P)
      → Ensures (λ t. t.pending_list ≡ s.pending_list) (free_req_resources P cfg ref tic s)
  unfolding free_req_resources
  free_req_resources-pending_list ref tic s =
      Ensures-bind (cache_req P (s.world.store.req ref) true tic tic s.world.cache) _
        λ (req, cache) _. Ensures-ok _ refl

  accept_user-AllFit :
      (msg : UserMsg F) (s : Scheduler F P) → AllFit s → AllFit (accept_user P cfg msg s)
  unfolding accept_user
  accept_user-AllFit msg s h = elim (Bool-cases (leb cfg.max_seq_len (length msg.input_ids))) [
    | inl long ↦ rw long h
    | inr short ↦ rw short (All-append _ s.pending_list _ h (ground (arith, short), tt))
  ]

  free_req_resources-AllFit :
      (ref tic : ℕ) (s : Scheduler F P)
      → AllFit s
      → Ensures AllFit (free_req_resources P cfg ref tic s)
  free_req_resources-AllFit ref tic s h = record {
    holds = λ t run.
        subst (All (Fits cfg.max_seq_len))
          (sym ((free_req_resources-pending_list ref tic s).holds t run)) h;
  }

  abort_uid-AllFit :
      (uid tic : ℕ) (s : Scheduler F P) → AllFit s → Ensures AllFit (abort_uid P cfg uid tic s)
  unfolding abort_uid
  abort_uid-AllFit uid tic s h =
      let left = abort_req-All (Fits cfg.max_seq_len) uid s.pending_list h in
      let (waiting, pending_list) = Prefill.abort_req uid s.pending_list in
      let s1 = record s { pending_list = pending_list } in
      Ensures-option waiting _ _
        (λ _.
          let (running, decode_manager) = Decode.abort_req s.world.store uid s.decode_manager in
          Ensures-option running _ _ (λ _. Ensures-ok _ left)
            λ ref _.
              free_req_resources-AllFit ref tic (record s1 { decode_manager = decode_manager })
                left)
        λ ref _. free_req_resources-AllFit ref tic s1 left

mutual
  unfolding process_one_msg process_msgs

  one-AllFit :
      {F : Type 0} (P : PrefixCache) (cfg : Config) (msg : BackendMsg F) (tic : ℕ)
      (s : Scheduler F P)
      → AllFit P cfg s
      → Ensures (AllFit P cfg) (process_one_msg P cfg msg tic s)
  one-AllFit P cfg (batched msgs) tic s h = all-AllFit P cfg msgs tic s h
  one-AllFit P cfg exit tic s h = record { holds = λ t e. cc }
  one-AllFit P cfg (user msg) tic s h = Ensures-ok _ (accept_user-AllFit P cfg msg s h)
  one-AllFit P cfg (abort uid) tic s h = abort_uid-AllFit P cfg uid tic s h

  all-AllFit :
      {F : Type 0} (P : PrefixCache) (cfg : Config) (msgs : BackendMsgs F) (tic : ℕ)
      (s : Scheduler F P)
      → AllFit P cfg s
      → Ensures (AllFit P cfg) (process_msgs P cfg msgs tic s)
  all-AllFit P cfg nil tic s h = Ensures-ok _ h
  all-AllFit P cfg (cons msg msgs) tic s h =
      Ensures-bind (process_one_msg P cfg msg tic s) _
        λ t run. all-AllFit P cfg msgs tic t ((one-AllFit P cfg msg tic s h).holds t run)

module _ {F : Type 0} (P : PrefixCache) (cfg : Config) where
  -- Whatever message arrives, a nested batch included: if it is processed without an error, the
  -- waiting requests fit the sequence length after it if they did before.
  pub process_one_msg-AllFit :
      (msg : BackendMsg F) (tic : ℕ) (s s' : Scheduler F P)
      → AllFit P cfg s
      → process_one_msg P cfg msg tic s ≡ ok s'
      → AllFit P cfg s'
  process_one_msg-AllFit msg tic s s' h run = (one-AllFit P cfg msg tic s h).holds s' run
