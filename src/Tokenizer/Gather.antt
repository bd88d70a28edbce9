-- ===== src/Tokenizer/Gather.antt =====
-- What a round of the tokenizer process sends to the backend (python/minisgl/tokenizer/server.py).
use flash_kvmo_e.Tokenizer.Server.{
  backend_round, detokenize_msgs, abort_msgs, tokenize_msgs, user_msg, TokenizerMsg, TokenizeMsg,
  to_ids, to_text, to_abort, plain, chat, backend_msgs, pack_backend,
}
use flash_kvmo_e.Base.{
  lt→ltb, ℕ, suc, List, [], ◌∷◌, ◌++◌, ltb, length, if◌then◌else◌, map, ◌≡◌, refl, sym, ap, ◌∙◌,
  All, append-nil, arith, append_assoc,
}
use flash_kvmo_e.Scheduler.State.{
  DetokenizeMsg, BackendMsg, BackendMsgs, batched, user, abort, exit, nil, cons,
}

module _ {F : Type 0} where
  -- The messages in a message to the backend, in order.
  unfoldable mutual
    pub leaves : BackendMsg F → List (BackendMsg F)
    leaves (batched msgs) = leaves_of msgs
    leaves exit = exit ∷ []
    leaves (user msg) = user msg ∷ []
    leaves (abort uid) = abort uid ∷ []

    pub leaves_of : BackendMsgs F → List (BackendMsg F)
    leaves_of nil = []
    leaves_of (cons msg msgs) = leaves msg ++ leaves_of msgs

  abbrev pub all_leaves : List (BackendMsg F) → List (BackendMsg F)
  unfolding leaves
  all_leaves [] = []
  all_leaves (msg ∷ msgs) = leaves msg ++ all_leaves msgs

  leaves_of-backend_msgs :
      (msgs : List (BackendMsg F))
      → All (λ m. leaves m ≡ m ∷ []) msgs
      → leaves_of (backend_msgs msgs) ≡ msgs
  unfolding leaves
  leaves_of-backend_msgs [] h = refl
  leaves_of-backend_msgs (m ∷ msgs) h = rw h.0 (ap (◌∷◌ m) (leaves_of-backend_msgs msgs h.1))

  leaves-pack_backend :
      (msgs : List (BackendMsg F))
      → All (λ m. leaves m ≡ m ∷ []) msgs
      → leaves (pack_backend msgs) ≡ msgs
  unfolding leaves pack_backend
  leaves-pack_backend [] h = refl
  leaves-pack_backend (m ∷ []) h = h.0
  leaves-pack_backend (m ∷ n ∷ msgs) h = leaves_of-backend_msgs (m ∷ n ∷ msgs) h

  all_leaves-append :
      (xs ys : List (BackendMsg F)) → all_leaves (xs ++ ys) ≡ all_leaves xs ++ all_leaves ys
  unfolding all_leaves
  all_leaves-append [] ys = refl
  all_leaves-append (x ∷ xs) ys =
      ap (◌++◌ (leaves x)) (all_leaves-append xs ys)
      ∙ sym (append_assoc (leaves x) (all_leaves xs) (all_leaves ys))

  -- What is sent where there is something to send.
  abbrev sent_if_any {ℓ} : {A : Type ℓ} → (A → BackendMsg F) → List A → List (BackendMsg F)
  sent_if_any f xs = if ltb 0 (length xs) then pack_backend (map f xs) ∷ [] else []

  All-map {ℓ} :
      {A : Type ℓ} (f : A → BackendMsg F)
      → ((x : A) → leaves (f x) ≡ f x ∷ [])
      → (xs : List A) → All (λ m. leaves m ≡ m ∷ []) (map f xs)
  All-map f leaf [] = tt
  All-map f leaf (x ∷ xs) = (leaf x, All-map f leaf xs)

  all_leaves-sent {ℓ} :
      {A : Type ℓ} (f : A → BackendMsg F)
      → ((x : A) → leaves (f x) ≡ f x ∷ [])
      → (xs : List A) → all_leaves (sent_if_any f xs) ≡ map f xs
  unfolding all_leaves
  all_leaves-sent f leaf [] = refl
  all_leaves-sent f leaf (x ∷ xs) = rw (lt→ltb 0 (suc (length xs)) (omega arith)) (
      append-nil (leaves (pack_backend (map f (x ∷ xs))))
      ∙ leaves-pack_backend (map f (x ∷ xs)) (All-map f leaf (x ∷ xs)))

-- What each message gives, one behind the other.
abbrev pub gather {ℓ κ} : {A : Type ℓ} {B : Type κ} → (A → List B) → List A → List B
gather f [] = []
gather f (x ∷ xs) = f x ++ gather f xs

module _ {F S C : Type 0} where
  -- The message to the backend for a prompt: the ids of its text, or of the chat in the template.
  abbrev pub prompt_of : (C → S) → (S → List ℕ) → TokenizerMsg F S C → List (BackendMsg F)
  prompt_of apply_chat_template encode (to_ids msg) =
      user (record {
        uid = msg.uid;
        input_ids = elim msg.text [
          | plain text ↦ encode text
          | chat turns ↦ encode (apply_chat_template turns)
        ];
        sampling_params = msg.sampling_params;
      })
      ∷ []
  prompt_of apply_chat_template encode (to_text msg) = []
  prompt_of apply_chat_template encode (to_abort uid) = []

  abbrev pub abort_of : TokenizerMsg F S C → List (BackendMsg F)
  abort_of (to_abort uid) = abort uid ∷ []
  abort_of (to_ids msg) = []
  abort_of (to_text msg) = []

  abbrev pub token_of : TokenizerMsg F S C → List DetokenizeMsg
  token_of (to_text msg) = msg ∷ []
  token_of (to_ids msg) = []
  token_of (to_abort uid) = []

  abort_msgs-gather :
      (pending : List (TokenizerMsg F S C))
      → map abort (abort_msgs pending) ≡ gather abort_of pending
  unfolding abort_msgs
  abort_msgs-gather [] = refl
  abort_msgs-gather (to_abort uid ∷ pending) = ap (◌∷◌ (abort uid)) (abort_msgs-gather pending)
  abort_msgs-gather (to_ids msg ∷ pending) = abort_msgs-gather pending
  abort_msgs-gather (to_text msg ∷ pending) = abort_msgs-gather pending

  pub detokenize_msgs-gather :
      (pending : List (TokenizerMsg F S C)) → detokenize_msgs pending ≡ gather token_of pending
  unfolding detokenize_msgs
  detokenize_msgs-gather [] = refl
  detokenize_msgs-gather (to_text msg ∷ pending) = ap (◌∷◌ msg) (detokenize_msgs-gather pending)
  detokenize_msgs-gather (to_ids msg ∷ pending) = detokenize_msgs-gather pending
  detokenize_msgs-gather (to_abort uid ∷ pending) = detokenize_msgs-gather pending

module _ {F S C : Type 0} (apply_chat_template : C → S) (encode : S → List ℕ) where
  user_msg-eq :
      (msg : TokenizeMsg F S C)
      → user_msg apply_chat_template encode msg ∷ []
        ≡ prompt_of apply_chat_template encode (to_ids msg)
  user_msg-eq msg =
      elim msg.text
        as (λ text.
          user_msg apply_chat_template encode (record msg { text = text }) ∷ []
          ≡ prompt_of apply_chat_template encode (to_ids (record msg { text = text }))) [
            | plain s ↦ refl
            | chat c ↦ refl
          ]

  tokenize_msgs-gather :
      (pending : List (TokenizerMsg F S C))
      → map (user_msg apply_chat_template encode) (tokenize_msgs pending)
        ≡ gather (prompt_of apply_chat_template encode) pending
  unfolding tokenize_msgs
  tokenize_msgs-gather [] = refl
  tokenize_msgs-gather (to_ids msg ∷ pending) =
      ap (λ x. x ++ map (user_msg apply_chat_template encode) (tokenize_msgs pending))
        (user_msg-eq msg)
      ∙ ap (◌++◌ (prompt_of apply_chat_template encode (to_ids msg))) (tokenize_msgs-gather pending)
  tokenize_msgs-gather (to_text msg ∷ pending) = tokenize_msgs-gather pending
  tokenize_msgs-gather (to_abort uid ∷ pending) = tokenize_msgs-gather pending

  pub backend_round-gather :
      (pending : List (TokenizerMsg F S C))
      → all_leaves (backend_round apply_chat_template encode pending)
        ≡ gather (prompt_of apply_chat_template encode) pending ++ gather abort_of pending
  unfolding backend_round leaves
  backend_round-gather pending =
      let users = user_msg apply_chat_template encode in
      let prompts = tokenize_msgs pending in
      let aborts = abort_msgs pending in
      all_leaves-append (sent_if_any users prompts) (sent_if_any abort aborts)
      ∙ ap (λ x. x ++ all_leaves (sent_if_any abort aborts))
          (all_leaves-sent users (λ x. refl) prompts ∙ tokenize_msgs-gather pending)
      ∙ ap (◌++◌ (gather (prompt_of apply_chat_template encode) pending))
          (all_leaves-sent abort (λ x. refl) aborts ∙ abort_msgs-gather pending)
