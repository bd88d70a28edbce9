-- ===== src/Scheduler/Exchange.antt =====
-- How the ranks of a scheduler receive messages and answer (python/minisgl/scheduler/io.py). The
-- queues of ZMQ are lists: `inbox` is what the tokenizer has sent to rank 0 and it has not read,
-- `link` what rank 0 has published to one of the other ranks and it has not read. Raw messages are
-- decoded as they are received. A blocking `get` on an empty queue waits: `raise stop_iteration`.
use flash_kvmo_e.Base.{
  ℕ, zero, suc, Bool, true, false, Option, none, some, List, [], ◌∷◌, ◌++◌, Result, ok, raise,
  stop_iteration, ◌>>=◌, length,
}

module _ {ℓ} {Raw : Type ℓ} where
  -- `queue.get()`
  unfoldable pub get_raw : List Raw → Result (Raw × List Raw)
  get_raw [] = raise stop_iteration
  get_raw (raw ∷ queue) = ok (raw, queue)

  -- The call under `if blocking`: what it reads, and what is left.
  unfoldable pub get_blocking : Bool → List Raw → Result (List Raw × List Raw)
  unfolding get_raw
  get_blocking false queue = ok ([], queue)
  get_blocking true queue = do (raw, rest) ← get_raw queue; ok (raw ∷ [], rest)

  -- `while not queue.empty(): queue.get()`. `arrived` of the messages are there when the loop
  -- looks: those that come later are left.
  unfoldable pub get_available : ℕ → List Raw → List Raw × List Raw
  get_available zero queue = ([], queue)
  get_available (suc arrived) [] = ([], [])
  get_available (suc arrived) (raw ∷ queue) =
      let (raws, rest) = get_available arrived queue in (raw ∷ raws, rest)

  -- `for _ in range(dst_length): queue.get()`
  unfoldable pub get_count : ℕ → List Raw → Result (List Raw × List Raw)
  unfolding get_raw
  get_count zero queue = ok ([], queue)
  get_count (suc n) queue = do
    (raw, rest) ← get_raw queue
    (raws, rest') ← get_count n rest
    ok (raw ∷ raws, rest')

module _ {ℓ κ} {Raw : Type ℓ} {Msg : Type κ} (decode : Raw → Msg) where
  abbrev pub decode_all : List Raw → List Msg
  decode_all [] = []
  decode_all (raw ∷ raws) = decode raw ∷ decode_all raws

  -- `_recv_msg_single_rank`: the messages, and the inbox that is left.
  unfoldable pub recv_msg_single_rank : Bool → ℕ → List Raw → Result (List Msg × List Raw)
  unfolding get_blocking get_available
  recv_msg_single_rank blocking arrived inbox = do
    (first, inbox') ← get_blocking blocking inbox
    let (rest, inbox'') = get_available arrived inbox'
    ok (decode_all (first ++ rest), inbox'')

  -- `_recv_msg_multi_rank0`: the messages, the inbox that is left, what is published to the other
  -- ranks, and the number that is broadcast.
  unfoldable pub recv_msg_multi_rank0 :
      Bool → ℕ → List Raw → Result (List Msg × List Raw × List Raw × ℕ)
  unfolding get_blocking get_available
  recv_msg_multi_rank0 blocking arrived inbox = do
    (first, inbox') ← get_blocking blocking inbox
    let (pending, inbox'') = get_available arrived inbox'
    ok (decode_all first ++ decode_all pending, inbox'', first ++ pending, length pending)

  -- `_recv_msg_multi_rank1`: the messages, and the link that is left.
  unfoldable pub recv_msg_multi_rank1 : Bool → ℕ → List Raw → Result (List Msg × List Raw)
  unfolding get_blocking get_count
  recv_msg_multi_rank1 blocking dst_length link = do
    (first, link') ← get_blocking blocking link
    (pending, link'') ← get_count dst_length link'
    ok (decode_all first ++ decode_all pending, link'')

  -- Rounds of rank 0: for each whether it blocks and how many messages have arrived. The batches
  -- that it receives, the rounds of the other ranks and all that is published to them.
  unfoldable pub rounds_rank0 :
      List (Bool × ℕ) → List Raw → Result (List (List Msg) × List (Bool × ℕ) × List Raw)
  unfolding recv_msg_multi_rank0
  rounds_rank0 [] inbox = ok ([], [], [])
  rounds_rank0 ((blocking, arrived) ∷ rounds) inbox = do
    (batch, inbox', published, count) ← recv_msg_multi_rank0 blocking arrived inbox
    (batches, others, all) ← rounds_rank0 rounds inbox'
    ok (batch ∷ batches, (blocking, count) ∷ others, published ++ all)

  unfoldable pub rounds_rank1 : List (Bool × ℕ) → List Raw → Result (List (List Msg) × List Raw)
  unfolding recv_msg_multi_rank1
  rounds_rank1 [] link = ok ([], link)
  rounds_rank1 ((blocking, count) ∷ rounds) link = do
    (batch, link') ← recv_msg_multi_rank1 blocking count link
    (batches, rest) ← rounds_rank1 rounds link'
    ok (batch ∷ batches, rest)

-- What is put on a queue: a message, or a batch of them.
pub data Packet {ℓ} (M : Type ℓ) : Type ℓ where
  one : M → Packet M
  batch : List M → Packet M

module _ {ℓ} {M : Type ℓ} where
  -- `_reply_tokenizer_rank0`: nothing is sent for no reply.
  unfoldable pub reply_tokenizer_rank0 : List M → Option (Packet M)
  reply_tokenizer_rank0 [] = none
  reply_tokenizer_rank0 (msg ∷ []) = some (one msg)
  reply_tokenizer_rank0 (msg ∷ next ∷ msgs) = some (batch (msg ∷ next ∷ msgs))

  -- `_reply_tokenizer_rank1`
  abbrev pub reply_tokenizer_rank1 : List M → Option (Packet M)
  reply_tokenizer_rank1 reply = none
