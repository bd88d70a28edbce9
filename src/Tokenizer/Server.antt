-- ===== src/Tokenizer/Server.antt =====
-- One round of the tokenizer process (python/minisgl/tokenizer/server.py and tokenize.py). `C` is
-- the type of chats and `S` that of strings; `apply_chat_template` and `encode` are the
-- tokenizer's, the latter with the conversion to a row of int32.
use flash_kvmo_e.Base.{
  ℕ, zero, suc, Bool, List, [], ◌∷◌, ◌++◌, Result, ok, raise, value_error, ◌>>=◌, ltb, length,
  if◌then◌else◌, map,
}
use flash_kvmo_e.Core.{SamplingParams}
use flash_kvmo_e.Scheduler.State.{
  DetokenizeMsg, BackendMsg, BackendMsgs, batched, user, abort, nil, cons,
}
use flash_kvmo_e.Scheduler.Exchange.{Packet, one, batch}
use flash_kvmo_e.Tokenizer.Detokenize.{DecodeMap, detokenize}

pub data Text (S C : Type 0) : Type 0 where
  plain : S → Text S C
  chat : C → Text S C

pub record TokenizeMsg (F S C : Type 0) : Type 0 where
  pub uid : ℕ
  pub text : Text S C
  pub sampling_params : SamplingParams F

pub data TokenizerMsg (F S C : Type 0) : Type 0 where
  to_text : DetokenizeMsg → TokenizerMsg F S C
  to_ids : TokenizeMsg F S C → TokenizerMsg F S C
  to_abort : ℕ → TokenizerMsg F S C

pub record UserReply : Type 0 where
  pub uid : ℕ
  pub incremental_output : List ℕ
  pub finished : Bool

module _ {ℓ} {M : Type ℓ} where
  unfoldable pub unwrap_msg : Packet M → List M
  unwrap_msg (one msg) = msg ∷ []
  unwrap_msg (batch msgs) = msgs

  -- The loop that adds to `pending_msg`. `arrived` of the packets are there when it looks.
  unfoldable pub receive_more : ℕ → ℕ → List M → List (Packet M) → List M × List (Packet M)
  unfolding unwrap_msg
  receive_more local_bs zero pending inbox = (pending, inbox)
  receive_more local_bs (suc arrived) pending [] = (pending, [])
  receive_more local_bs (suc arrived) pending (packet ∷ inbox) =
      let more = receive_more local_bs arrived (pending ++ unwrap_msg packet) inbox in
      if ltb (length pending) local_bs then more else (pending, packet ∷ inbox)

  -- A batch of one message is sent as the message.
  unfoldable pub pack : List M → Packet M
  pack [] = batch []
  pack (msg ∷ []) = one msg
  pack (msg ∷ next ∷ msgs) = batch (msg ∷ next ∷ msgs)

module _ {F S C : Type 0} where
  -- `[m for m in pending_msg if isinstance(m, DetokenizeMsg)]`, and so on.
  unfoldable pub detokenize_msgs : List (TokenizerMsg F S C) → List DetokenizeMsg
  detokenize_msgs [] = []
  detokenize_msgs (to_text msg ∷ msgs) = msg ∷ detokenize_msgs msgs
  detokenize_msgs (_ ∷ msgs) = detokenize_msgs msgs

  unfoldable pub tokenize_msgs : List (TokenizerMsg F S C) → List (TokenizeMsg F S C)
  tokenize_msgs [] = []
  tokenize_msgs (to_ids msg ∷ msgs) = msg ∷ tokenize_msgs msgs
  tokenize_msgs (_ ∷ msgs) = tokenize_msgs msgs

  unfoldable pub abort_msgs : List (TokenizerMsg F S C) → List ℕ
  abort_msgs [] = []
  abort_msgs (to_abort uid ∷ msgs) = uid ∷ abort_msgs msgs
  abort_msgs (_ ∷ msgs) = abort_msgs msgs

-- `zip(detokenize_msg, replies, strict=True)`
unfoldable pub user_replies : List DetokenizeMsg → List (List ℕ) → Result (List UserReply)
user_replies [] [] = ok []
user_replies (msg ∷ msgs) (reply ∷ replies) = do
  rest ← user_replies msgs replies
  ok (record { uid = msg.uid; incremental_output = reply; finished = msg.finished } ∷ rest)
user_replies _ _ = raise value_error

module _ {F : Type 0} where
  abbrev pub backend_msgs : List (BackendMsg F) → BackendMsgs F
  backend_msgs [] = nil
  backend_msgs (msg ∷ msgs) = cons msg (backend_msgs msgs)

  unfoldable pub pack_backend : List (BackendMsg F) → BackendMsg F
  pack_backend [] = batched nil
  pack_backend (msg ∷ []) = msg
  pack_backend (msg ∷ next ∷ msgs) = batched (backend_msgs (msg ∷ next ∷ msgs))

abbrev pub prompt : {S C : Type 0} → (C → S) → Text S C → S
prompt apply_chat_template (plain s) = s
prompt apply_chat_template (chat c) = apply_chat_template c

module _ {F S C : Type 0} (apply_chat_template : C → S) (encode : S → List ℕ) where
  -- The message to the backend for one element of `TokenizeManager.tokenize`.
  abbrev pub user_msg : TokenizeMsg F S C → BackendMsg F
  user_msg msg = user (record {
    uid = msg.uid;
    input_ids = encode (prompt apply_chat_template msg.text);
    sampling_params = msg.sampling_params;
  })

  -- The messages to the backend.
  unfoldable pub backend_round : List (TokenizerMsg F S C) → List (BackendMsg F)
  unfolding tokenize_msgs abort_msgs pack_backend
  backend_round pending =
      let prompts = tokenize_msgs pending in
      let aborts = abort_msgs pending in
      let users : List (BackendMsg F) =
        if ltb 0 (length prompts) then pack_backend (map user_msg prompts) ∷ [] else [] in
      let stops : List (BackendMsg F) =
        if ltb 0 (length aborts) then pack_backend (map abort aborts) ∷ [] else [] in
      users ++ stops

module _ (batch_decode : List (List ℕ) → List (List ℕ)) (eos_token_id : ℕ) where
  -- The messages to the frontend, and the new map.
  unfoldable pub reply_round :
      DecodeMap → List DetokenizeMsg → Result (DecodeMap × List (Packet UserReply))
  unfolding user_replies pack detokenize
  reply_round decode_map texts =
      if ltb 0 (length texts)
      then (do
        (decode_map', replies) ← detokenize batch_decode eos_token_id decode_map texts
        data_out ← user_replies texts replies
        ok (decode_map', pack data_out ∷ []))
      else ok (decode_map, [])

module _ {F S C : Type 0} (apply_chat_template : C → S) (encode : S → List ℕ)
    (batch_decode : List (List ℕ) → List (List ℕ)) (eos_token_id : ℕ) where
  -- The body of the loop after the messages are received: the new map, what is sent to the
  -- frontend and what is sent to the backend.
  unfoldable pub worker_round :
      DecodeMap
      → List (TokenizerMsg F S C)
      → Result (DecodeMap × List (Packet UserReply) × List (BackendMsg F))
  unfolding detokenize_msgs reply_round backend_round
  worker_round decode_map pending = do
    (decode_map', front) ←
        reply_round batch_decode eos_token_id decode_map (detokenize_msgs pending)
    ok (decode_map', front, backend_round apply_chat_template encode pending)
