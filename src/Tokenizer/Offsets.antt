-- ===== src/Tokenizer/Offsets.antt =====
-- The offsets of a request in `DetokenizeManager` (python/minisgl/tokenizer/detokenize.py), for a
-- tokenizer whose tokens may end inside a character.
use flash_kvmo_e.Tokenizer.Slices.{
  take-append_left, drop-append_left, slice-append-drop, take-take-le,
}
use flash_kvmo_e.Tokenizer.Detokenize.{add_token, DecodeStatus}
use flash_kvmo_e.Base.{
  ℕ, ◌≤◌, ◌<◌, ◌≡◌, sym, ap, ◌∙◌, subst, ◌&&◌, List, [], ◌∷◌, ◌++◌, length, take, drop, ◌==◌, arith,
  ◌⊎◌, inl, inr, Bool-cases, take-append-drop, length-append,
}
use flash_kvmo_e.Scheduler.State.{DetokenizeMsg}
use flash_kvmo_e.Tokenizer.Streaming.{Closed, IsStreaming, Closed-of_append}

module _ (decode : List ℕ → List ℕ) where
  -- The status of a request of which `sent` was sent: both offsets stand behind closed texts, and
  -- what was sent stays as it is when more ids come.
  pub record IsStatus (s : DecodeStatus) (sent : List ℕ) : Type 0 where
    pub read_text : s.decoded_str ≡ decode (take s.read_offset s.decoded_ids)
    pub read-Closed : Closed s.decoded_str
    pub surr-Closed : Closed (decode (take s.surr_offset s.decoded_ids))
    pub surr-le : s.surr_offset ≤ s.read_offset
    pub read-le : s.read_offset ≤ length s.decoded_ids
    pub sent_text : sent ≡ take s.sent_offset (decode s.decoded_ids)
    pub settled :
        (Closed (decode s.decoded_ids) × (s.sent_offset ≤ length (decode s.decoded_ids)))
        ⊎ (s.sent_offset < length (decode s.decoded_ids))

  -- The same while a token is taken in.
  pub record IsReady (s : DecodeStatus) (sent : List ℕ) : Type 0 where
    pub read_text : s.decoded_str ≡ decode (take s.read_offset s.decoded_ids)
    pub read-Closed : Closed s.decoded_str
    pub surr-Closed : Closed (decode (take s.surr_offset s.decoded_ids))
    pub surr-le : s.surr_offset ≤ s.read_offset
    pub read-le : s.read_offset ≤ length s.decoded_ids
    pub sent_text : sent ≡ take s.sent_offset (decode s.decoded_ids)

  -- The new text.
  abbrev pub new_of : DecodeStatus → List ℕ
  new_of s = decode (drop s.read_offset s.decoded_ids)

module _ (decode : List ℕ → List ℕ) (streams : IsStreaming decode) where
  -- What was sent stands at the start of the text of more ids.
  take-keeps :
      (ids more : List ℕ) (n : ℕ)
      → (Closed (decode ids) × (n ≤ length (decode ids))) ⊎ (n < length (decode ids))
      → take n (decode (ids ++ more)) ≡ take n (decode ids)
  take-keeps ids more n (inl (closed, le)) =
      ap (take n) (streams.decode-append ids more closed)
      ∙ take-append_left n (decode ids) (decode more) le
  take-keeps ids more n (inr lt) = streams.decode-keeps ids more n lt

  IsStatus-IsReady :
      (s : DecodeStatus) (sent : List ℕ) → IsStatus decode s sent → IsReady decode s sent
  IsStatus-IsReady s sent right = record {
    read_text = right.read_text;
    read-Closed = right.read-Closed;
    surr-Closed = right.surr-Closed;
    surr-le = right.surr-le;
    read-le = right.read-le;
    sent_text = right.sent_text;
  }

  -- More ids leave the status ready.
  extend-IsReady :
      (s : DecodeStatus) (sent more : List ℕ)
      → IsStatus decode s sent
      → IsReady decode (record s { decoded_ids = s.decoded_ids ++ more }) sent
  extend-IsReady s sent more right = record {
    read_text =
        right.read_text
        ∙ ap decode (sym (take-append_left s.read_offset s.decoded_ids more right.read-le));
    read-Closed = right.read-Closed;
    surr-Closed =
        let short : s.surr_offset ≤ length s.decoded_ids =
          omega (arith, right.surr-le, right.read-le) in
        subst (λ ids. Closed (decode ids))
          (sym (take-append_left s.surr_offset s.decoded_ids more short)) right.surr-Closed;
    surr-le = right.surr-le;
    read-le = omega (arith, length-append s.decoded_ids more, right.read-le);
    sent_text = right.sent_text ∙ sym (take-keeps s.decoded_ids more s.sent_offset right.settled);
  }

  pub add_token-IsReady :
      (eos : ℕ) (s : DecodeStatus) (msg : DetokenizeMsg) (sent : List ℕ)
      → IsStatus decode s sent
      → IsReady decode (add_token eos s msg) sent
  unfolding add_token
  add_token-IsReady eos s msg sent right =
      elim (Bool-cases (msg.finished && (msg.next_token == eos))) [
        | inl end ↦ rw end (IsStatus-IsReady s sent right)
        | inr more ↦ rw more (extend-IsReady s sent (msg.next_token ∷ []) right)
      ]

  -- The text from the older offset to the newer is closed.
  front-Closed :
      (s : DecodeStatus) (sent : List ℕ)
      → IsReady decode s sent
      → Closed (decode (drop s.surr_offset (take s.read_offset s.decoded_ids)))
  front-Closed s sent right =
      let ids = s.decoded_ids in
      let back = take s.surr_offset ids in
      let front = drop s.surr_offset (take s.read_offset ids) in
      let joined : back ++ front ≡ take s.read_offset ids =
        ap (λ x. x ++ front) (sym (take-take-le s.surr_offset s.read_offset ids right.surr-le))
        ∙ take-append-drop s.surr_offset (take s.read_offset ids) in
      Closed-of_append (decode back) (decode front) (
        subst Closed
          (right.read_text
            ∙ ap decode (sym joined)
            ∙ streams.decode-append back front right.surr-Closed)
          right.read-Closed)

  pub new_text-eq :
      (s : DecodeStatus) (sent : List ℕ)
      → IsReady decode s sent
      → let surr = decode (drop s.surr_offset (take s.read_offset s.decoded_ids)) in
        drop (length surr) (decode (drop s.surr_offset s.decoded_ids)) ≡ new_of decode s
  new_text-eq s sent right =
      let ids = s.decoded_ids in
      let front = drop s.surr_offset (take s.read_offset ids) in
      let rest = drop s.read_offset ids in
      let split = slice-append-drop s.surr_offset s.read_offset ids right.surr-le right.read-le in
      ap (λ x. drop (length (decode front)) (decode x)) (sym split)
      ∙ ap (drop (length (decode front)))
          (streams.decode-append front rest (front-Closed s sent right))
      ∙ drop-append_left (decode front) (decode rest)

  -- The text that was read and the new text are the text of all ids.
  pub whole-eq :
      (s : DecodeStatus) (sent : List ℕ)
      → IsReady decode s sent
      → s.decoded_str ++ new_of decode s ≡ decode s.decoded_ids
  whole-eq s sent right =
      let ids = s.decoded_ids in
      let read = take s.read_offset ids in
      ap (λ x. x ++ new_of decode s) right.read_text
      ∙ sym (
          streams.decode-append read (drop s.read_offset ids)
            (subst Closed right.read_text right.read-Closed))
      ∙ ap decode (take-append-drop s.read_offset ids)
