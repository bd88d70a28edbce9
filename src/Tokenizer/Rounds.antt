-- ===== src/Tokenizer/Rounds.antt =====
-- What a round of the tokenizer process sends (python/minisgl/tokenizer/server.py).
use flash_kvmo_e.Tokenizer.Server.{
  reply_round, backend_round, TokenizerMsg, pack, worker_round, unwrap_msg, UserReply, user_replies,
}
use flash_kvmo_e.Base.{
  Option-cases, Result-cases, Error, raise, Result, none, some, key_error, ◌⊎◌, inl, inr, lt→ltb, ℕ,
  suc, Bool, List, [], ◌∷◌, ◌++◌, ok, length, if◌then◌else◌, map, ◌≡◌, refl, sym, ap, ◌∙◌,
  append-nil, >>=-eq-ok, ok-injective, arith,
}
use flash_kvmo_e.Scheduler.State.{DetokenizeMsg, BackendMsg}
use flash_kvmo_e.Scheduler.Exchange.{Packet}
use flash_kvmo_e.Tokenizer.Detokenize.{DecodeMap, detokenize, emit_all, emit, collect_ids, update}
use flash_kvmo_e.Tokenizer.Gather.{
  all_leaves, gather, prompt_of, abort_of, token_of, detokenize_msgs-gather, backend_round-gather,
}

abbrev pub unwrap_all : List (Packet UserReply) → List UserReply
unfolding unwrap_msg
unwrap_all [] = []
unwrap_all (packet ∷ packets) = unwrap_msg packet ++ unwrap_all packets

unwrap_msg-pack {ℓ} : {M : Type ℓ} (msgs : List M) → unwrap_msg (pack msgs) ≡ msgs
unfolding unwrap_msg pack
unwrap_msg-pack [] = refl
unwrap_msg-pack (m ∷ []) = refl
unwrap_msg-pack (m ∷ n ∷ msgs) = refl

abbrev pub asked : DetokenizeMsg → ℕ × Bool
asked msg = (msg.uid, msg.finished)

abbrev pub answered : UserReply → ℕ × Bool
answered reply = (reply.uid, reply.finished)

raise-not-ok :
    (e : Error) (r : DecodeMap × List (List ℕ))
    → let m : Result (DecodeMap × List (List ℕ)) = raise e in ¬ (m ≡ ok r)
raise-not-ok e r h = cc

abbrev pub answer : UserReply → List ℕ
answer reply = reply.incremental_output

user_replies-answers :
    (msgs : List DetokenizeMsg) (texts : List (List ℕ))
    → length texts ≡ length msgs
    → (replies : List UserReply) × (user_replies msgs texts ≡ ok replies)
      × (map answered replies ≡ map asked msgs)
      × (map answer replies ≡ texts)
unfolding user_replies
user_replies-answers [] [] e = ([], refl, refl, refl)
user_replies-answers [] (text ∷ texts) e = absurd (omega (arith, e))
user_replies-answers (msg ∷ msgs) [] e = absurd (omega (arith, e))
user_replies-answers (msg ∷ msgs) (text ∷ texts) e =
    let (replies, run, a, b) = user_replies-answers msgs texts (omega (arith, e)) in
    let reply : UserReply = record {
      uid = msg.uid;
      incremental_output = text;
      finished = msg.finished;
    } in
    (reply ∷ replies, rw run refl, ap (◌∷◌ (asked msg)) a, ap (◌∷◌ text) b)

-- One text for each token.
emit_all-length :
    (decode_map : DecodeMap) (msgs : List DetokenizeMsg) (reads surrs : List (List ℕ))
    (r : DecodeMap × List (List ℕ))
    → emit_all decode_map msgs reads surrs ≡ ok r
    → length r.1 ≡ length msgs
unfolding emit_all
emit_all-length decode_map [] [] [] r run = ap (λ x. length x.1) (sym (ok-injective run))
emit_all-length decode_map (msg ∷ msgs) (read ∷ reads) (surr ∷ surrs) r run =
    elim (Option-cases (decode_map msg.uid)) [
      | inl gone ↦ absurd (raise-not-ok key_error r (rw (emit_all, gone) at run))
      | inr (s, there) ↦
          let (s', text) = emit s read surr in
          let left = if msg.finished then none else some s' in
          let (r', rest, run') =
            >>=-eq-ok (emit_all (update decode_map msg.uid left) msgs reads surrs) _
              (rw (emit_all, there) at run) in
          ap (λ x. length x.1) (sym (ok-injective run'))
          ∙ ap suc (emit_all-length (update decode_map msg.uid left) msgs reads surrs r' rest)
    ]
emit_all-length decode_map [] (read ∷ reads) surrs r run = cc
emit_all-length decode_map [] [] (surr ∷ surrs) r run = cc
emit_all-length decode_map (msg ∷ msgs) [] surrs r run = cc
emit_all-length decode_map (msg ∷ msgs) (read ∷ reads) [] r run = cc

module _ (batch_decode : List (List ℕ) → List (List ℕ)) (eos_token_id : ℕ) where
  -- The texts of the tokens and the new map; the tokenizer is not asked where there is no token.
  abbrev pub Detokenized : DecodeMap → List DetokenizeMsg → DecodeMap → List (List ℕ) → Type 0
  Detokenized decode_map tokens decode_map' texts =
      ((tokens ≡ []) × (decode_map' ≡ decode_map) × (texts ≡ []))
      ⊎ (detokenize batch_decode eos_token_id decode_map tokens ≡ ok (decode_map', texts))

  reply_round_lem :
      (decode_map : DecodeMap) (tokens : List DetokenizeMsg)
      → let round = reply_round batch_decode eos_token_id decode_map tokens in
        ((e : Error) × (detokenize batch_decode eos_token_id decode_map tokens ≡ raise e)
          × (round ≡ raise e))
        ⊎ ((decode_map' : DecodeMap) × (texts : List (List ℕ)) × (front : List (Packet UserReply))
            × (round ≡ ok (decode_map', front))
            × Detokenized decode_map tokens decode_map' texts
            × (map answered (unwrap_all front) ≡ map asked tokens)
            × (map answer (unwrap_all front) ≡ texts))
  unfolding reply_round detokenize unwrap_all
  reply_round_lem decode_map [] = inr (decode_map, [], [], refl, inl (refl, refl, refl), refl, refl)
  reply_round_lem decode_map (msg ∷ msgs) =
      let tokens = msg ∷ msgs in
      let some_tokens = lt→ltb 0 (suc (length msgs)) (omega arith) in
      let (map', reads, surrs) = collect_ids eos_token_id decode_map tokens in
      elim (Result-cases (detokenize batch_decode eos_token_id decode_map tokens)) [
        | inl (e, failed) ↦ inl (e, failed, rw (reply_round, some_tokens, failed) refl)
        | inr ((decode_map', texts), run) ↦
            let each =
              emit_all-length map' tokens (batch_decode reads) (batch_decode surrs)
                (decode_map', texts) run in
            let (replies, zipped, a, b) = user_replies-answers tokens texts each in
            let packed : unwrap_all (pack replies ∷ []) ≡ replies =
              append-nil (unwrap_msg (pack replies)) ∙ unwrap_msg-pack replies in
            inr (
              decode_map',
              texts,
              pack replies ∷ [],
              rw (reply_round, some_tokens, run, zipped) refl,
              inr run,
              ap (map answered) packed ∙ a,
              ap (map answer) packed ∙ b,
            )
      ]

module _ {F S C : Type 0} (apply_chat_template : C → S) (encode : S → List ℕ)
    (batch_decode : List (List ℕ) → List (List ℕ)) (eos_token_id : ℕ) where
  -- A round raises only what the detokenizer raises on the tokens that came. Otherwise it returns,
  -- with the map of the detokenizer: the backend gets one message for each prompt, with the ids of
  -- its text, in the order in which they came, and behind them one for each abort, in their order;
  -- and the frontend gets one reply for each token, with its uid, whether it is the last and the
  -- text of the detokenizer, in the order in which the tokens came.
  pub worker_round_lem :
      (decode_map : DecodeMap) (pending : List (TokenizerMsg F S C))
      → let round =
          worker_round apply_chat_template encode batch_decode eos_token_id decode_map pending in
        let tokens = gather token_of pending in
        ((e : Error) × (detokenize batch_decode eos_token_id decode_map tokens ≡ raise e)
          × (round ≡ raise e))
        ⊎ ((decode_map' : DecodeMap) × (texts : List (List ℕ)) × (front : List (Packet UserReply))
            × (back : List (BackendMsg F)) × (round ≡ ok (decode_map', front, back))
            × Detokenized batch_decode eos_token_id decode_map tokens decode_map' texts
            × (all_leaves back
                ≡ gather (prompt_of apply_chat_template encode) pending ++ gather abort_of pending)
            × (map answered (unwrap_all front) ≡ map asked tokens)
            × (map answer (unwrap_all front) ≡ texts))
  unfolding worker_round
  worker_round_lem decode_map pending =
      let tokens = gather token_of pending in
      let same = detokenize_msgs-gather pending in
      elim (reply_round_lem batch_decode eos_token_id decode_map tokens) [
        | inl (e, failed, raised) ↦ inl (e, failed, rw (worker_round, same, raised) refl)
        | inr (decode_map', texts, front, run, told, a, b) ↦ inr (
          decode_map',
          texts,
          front,
          backend_round apply_chat_template encode pending,
          rw (worker_round, same, run) refl,
          told,
          backend_round-gather apply_chat_template encode pending,
          a,
          b,
        )
      ]
