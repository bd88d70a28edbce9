-- ===== src/Tokenizer/Sent.antt =====
-- What `DetokenizeManager` has sent of a request (python/minisgl/tokenizer/detokenize.py), for a
-- tokenizer whose tokens may end inside a character.
use flash_kvmo_e.Tokenizer.Slices.{take-append_left, take_all, drop_all}
use flash_kvmo_e.Tokenizer.Offsets.{
  IsStatus, IsReady, new_of, add_token-IsReady, new_text-eq, whole-eq,
}
use flash_kvmo_e.Tokenizer.Detokenize.{
  new_status, collect_ids, update, emit_all, emit, add_token, status_of, DecodeMap, detokenize,
  emit_text, is_whole, DecodeStatus,
}
use flash_kvmo_e.Base.{
  length-take, ltb→lt, append_assoc, ltb, ==_iff, ℕ, ◌≤◌, ◌<◌, ◌≡◌, refl, sym, ap, ◌∙◌, subst, true,
  false, Option, none, some, List, [], ◌∷◌, ◌++◌, ok, length, take, drop, if◌then◌else◌, arith, map,
  ◌⊎◌, inl, inr, Bool-cases, append-nil, take-append-drop, length-append,
}
use flash_kvmo_e.Scheduler.State.{DetokenizeMsg}
use flash_kvmo_e.Tokenizer.Streaming.{
  Closed, IsStreaming, Closed-append, partial-cases, printable_length-lt,
}
use flash_kvmo_e.Tokenizer.Printable.{last, find_printable_text, printable_length}

update-same :
    (decode_map : DecodeMap) (uid : ℕ) (status : Option DecodeStatus)
    → update decode_map uid status uid ≡ status
update-same decode_map uid status = rw ((==_iff uid uid).1 refl) refl

emit_one :
    (decode_map : DecodeMap) (s : DecodeStatus) (msg : DetokenizeMsg) (read_str surr_str : List ℕ)
    → decode_map msg.uid ≡ some s
    → let r = emit s read_str surr_str in
      emit_all decode_map (msg ∷ []) (read_str ∷ []) (surr_str ∷ [])
      ≡ ok (update decode_map msg.uid (if msg.finished then none else some r.0), r.1 ∷ [])
unfolding emit_all
emit_one decode_map s msg read_str surr_str there = rw (there, emit_all) refl

module _ (decode : List ℕ → List ℕ) where
  -- The text up to the part of the new text that is shown.
  abbrev pub shown_of : DecodeStatus → List ℕ
  shown_of s = s.decoded_str ++ find_printable_text (new_of decode s)

  -- What becomes of the new text: one that is whole completes what was sent, and a part of another
  -- is added to it; but where less is shown than was sent before, nothing is sent.
  abbrev pub Emitted : DecodeStatus → List ℕ → DecodeStatus × List ℕ → Type 0
  Emitted s sent (s', text) =
      ((is_whole (new_of decode s) ≡ true)
        × (sent ++ text ≡ decode s.decoded_ids)
        × IsStatus decode s' (sent ++ text))
      ⊎ ((is_whole (new_of decode s) ≡ false)
          × (sent ++ text ≡ shown_of s)
          × ((rest : List ℕ) × (shown_of s ++ rest ≡ decode s.decoded_ids))
          × IsStatus decode s' (sent ++ text))
      ⊎ ((is_whole (new_of decode s) ≡ false) × (length (shown_of s) < s.sent_offset) × (text ≡ []))

module _ (decode : List ℕ → List ℕ) (streams : IsStreaming decode) where
  emit_text_whole :
      (s : DecodeStatus) (new : List ℕ)
      → is_whole new ≡ true
      → emit_text s new ≡ (
        record s {
          decoded_str = s.decoded_str ++ new;
          surr_offset = s.read_offset;
          read_offset = length s.decoded_ids;
          sent_offset = length (s.decoded_str ++ new);
        },
        drop s.sent_offset (s.decoded_str ++ new),
      )
  unfolding emit_text
  emit_text_whole s new complete = rw complete refl

  emit_text_part :
      (s : DecodeStatus) (new : List ℕ)
      → is_whole new ≡ false
      → let part = s.decoded_str ++ find_printable_text new in
        emit_text s new ≡ (record s { sent_offset = length part }, drop s.sent_offset part)
  unfolding emit_text
  emit_text_part s new partial = rw partial refl

  shown-append :
      (s : DecodeStatus) (sent : List ℕ)
      → IsReady decode s sent
      → (rest : List ℕ) × (shown_of decode s ++ rest ≡ decode s.decoded_ids)
  unfolding find_printable_text
  shown-append s sent right =
      let new = new_of decode s in
      let shown = take (printable_length new) new in
      let rest = drop (printable_length new) new in
      (
        rest,
        append_assoc s.decoded_str shown rest
            ∙ ap (◌++◌ s.decoded_str) (take-append-drop (printable_length new) new)
            ∙ whole-eq decode streams s sent right,
      )

  emit_whole :
      (s : DecodeStatus) (sent : List ℕ)
      → IsReady decode s sent
      → is_whole (new_of decode s) ≡ true
      → Emitted decode s sent (emit_text s (new_of decode s))
  emit_whole s sent right complete =
      let ids = s.decoded_ids in
      let new = new_of decode s in
      let so = s.sent_offset in
      let whole = whole-eq decode streams s sent right in
      let closed = Closed-append s.decoded_str new complete in
      let e : sent ++ drop so (s.decoded_str ++ new) ≡ decode ids =
        ap (λ w. sent ++ drop so w) whole
        ∙ ap (λ x. x ++ drop so (decode ids)) right.sent_text
        ∙ take-append-drop so (decode ids) in
      subst (Emitted decode s sent) (sym (emit_text_whole s new complete)) (
        inl (
          complete,
          e,
          record {
            read_text = whole ∙ ap decode (sym (take_all ids));
            read-Closed = closed;
            surr-Closed = subst Closed right.read_text right.read-Closed;
            surr-le = right.read-le;
            read-le = omega arith;
            sent_text =
                e ∙ sym (ap (λ w. take (length w) (decode ids)) whole ∙ take_all (decode ids));
            settled = inl (subst Closed whole closed, omega (arith, ap length whole));
          },
        ))

  -- What is shown of a text that is not whole stays as it is.
  shown-settled :
      (s : DecodeStatus) (sent rest : List ℕ)
      → IsReady decode s sent
      → is_whole (new_of decode s) ≡ false
      → shown_of decode s ++ rest ≡ decode s.decoded_ids
      → (Closed (decode s.decoded_ids)
          × (length (shown_of decode s) ≤ length (decode s.decoded_ids)))
        ⊎ (length (shown_of decode s) < length (decode s.decoded_ids))
  unfolding find_printable_text
  shown-settled s sent rest right partial joined =
      let new = new_of decode s in
      let whole = whole-eq decode streams s sent right in
      let all : length (shown_of decode s) ≤ length (decode s.decoded_ids) =
        omega (arith, ap length joined, length-append (shown_of decode s) rest) in
      elim (partial-cases new partial) [
        | inl empty ↦ inl (
          subst Closed
              (sym (append-nil s.decoded_str) ∙ ap (◌++◌ s.decoded_str) (sym empty) ∙ whole)
              right.read-Closed,
          all,
        )
        | inr open_ended ↦
            let few = printable_length-lt new open_ended in
            let short = length-take (printable_length new) new in
            let front = length-append s.decoded_str (take (printable_length new) new) in
            let total = length-append s.decoded_str new in
            inr (omega (arith, few, short, front, total, ap length whole))
      ]

  emit_part :
      (s : DecodeStatus) (sent : List ℕ)
      → IsReady decode s sent
      → is_whole (new_of decode s) ≡ false
      → Emitted decode s sent (emit_text s (new_of decode s))
  emit_part s sent right partial =
      let D = decode s.decoded_ids in
      let new = new_of decode s in
      let so = s.sent_offset in
      let part = shown_of decode s in
      let (rest, joined) = shown-append s sent right in
      subst (Emitted decode s sent) (sym (emit_text_part s new partial))
        (elim (Bool-cases (ltb (length part) so)) [
          | inl back ↦
              let less = ltb→lt (length part) so back in
              inr (inr (partial, less, drop_all so part (omega (arith, less))))
          | inr on ↦
              let fits : so ≤ length part = ground (arith, on) in
              let e : sent ++ drop so part ≡ part =
                ap (λ x. x ++ drop so part)
                  (right.sent_text ∙ ap (take so) (sym joined) ∙ take-append_left so part rest fits)
                ∙ take-append-drop so part in
              inr (
                inl (
                  partial,
                  e,
                  (rest, joined),
                  record {
                    read_text = right.read_text;
                    read-Closed = right.read-Closed;
                    surr-Closed = right.surr-Closed;
                    surr-le = right.surr-le;
                    read-le = right.read-le;
                    sent_text =
                        e
                        ∙ sym (
                            ap (take (length part)) (sym joined)
                            ∙ take-append_left (length part) part rest (omega arith)
                            ∙ take_all part);
                    settled = shown-settled s sent rest right partial joined;
                  },
                ))
        ])

  emit_text-Emitted :
      (s : DecodeStatus) (sent : List ℕ)
      → IsReady decode s sent
      → Emitted decode s sent (emit_text s (new_of decode s))
  emit_text-Emitted s sent right = elim (Bool-cases (is_whole (new_of decode s))) [
    | inl complete ↦ emit_whole s sent right complete
    | inr partial ↦ emit_part s sent right partial
  ]

  -- One message, with the new text of its request.
  detokenize_one :
      (batch_decode : List (List ℕ) → List (List ℕ))
      → ((ids : List (List ℕ)) → batch_decode ids ≡ map decode ids)
      → (eos : ℕ) (decode_map : DecodeMap) (msg : DetokenizeMsg) (sent : List ℕ)
      → let s = add_token eos (status_of decode_map msg.uid) msg in
        IsReady decode s sent
        → let r = emit_text s (new_of decode s) in
          detokenize batch_decode eos decode_map (msg ∷ [])
          ≡ ok (
            update
                (update decode_map msg.uid (some s))
                msg.uid
                (if msg.finished then none else some r.0),
            r.1 ∷ [],
          )
  unfolding detokenize emit collect_ids
  detokenize_one batch_decode each eos decode_map msg sent right =
      let s = add_token eos (status_of decode_map msg.uid) msg in
      let decode_map' = update decode_map msg.uid (some s) in
      let read = drop s.surr_offset s.decoded_ids in
      let surr = drop s.surr_offset (take s.read_offset s.decoded_ids) in
      ap (λ x. emit_all decode_map' (msg ∷ []) x (batch_decode (surr ∷ []))) (each (read ∷ []))
      ∙ ap (emit_all decode_map' (msg ∷ []) (decode read ∷ [])) (each (surr ∷ []))
      ∙ emit_one decode_map' s msg (decode read) (decode surr)
          (update-same decode_map msg.uid (some s))
      ∙ ap
          (λ new.
            let r = emit_text s new in
            ok (update decode_map' msg.uid (if msg.finished then none else some r.0), r.1 ∷ []))
          (new_text-eq decode streams s sent right)

  -- One message of a request, for a tokenizer that decodes each sequence of ids by itself, goes on
  -- behind a text that does not end in U+FFFD, and changes the last character of a text at most
  -- when more ids come. `sent` is what was sent of the request before, and its status is right for
  -- that. `detokenize` answers with one text. If the new text is not empty and does not end in
  -- U+FFFD, what was sent is then the text of all ids. Otherwise it is the text up to the part that
  -- is shown, a prefix of the text of all ids; or, where that is shorter than the offset of what was
  -- sent before, nothing is sent now. The status is right again in the first two cases. A request
  -- that is finished leaves the map in every case, and any other has the new status there.
  pub detokenize_lem :
      (batch_decode : List (List ℕ) → List (List ℕ))
      → ((ids : List (List ℕ)) → batch_decode ids ≡ map decode ids)
      → (eos : ℕ) (decode_map : DecodeMap) (msg : DetokenizeMsg) (sent : List ℕ)
      → IsStatus decode (status_of decode_map msg.uid) sent
      → let s = add_token eos (status_of decode_map msg.uid) msg in
        (decode_map' : DecodeMap) × (text : List ℕ) × (s' : DecodeStatus) × (detokenize batch_decode
            eos decode_map
            (msg ∷ [])
          ≡ ok (decode_map', text ∷ []))
        × Emitted decode s sent (s', text)
        × (((msg.finished ≡ true) × (decode_map' msg.uid ≡ none))
            ⊎ ((msg.finished ≡ false) × (decode_map' msg.uid ≡ some s')))
  detokenize_lem batch_decode each eos decode_map msg sent right =
      let s = add_token eos (status_of decode_map msg.uid) msg in
      let ready =
        add_token-IsReady decode streams eos (status_of decode_map msg.uid) msg sent right in
      let r = emit_text s (new_of decode s) in
      let decode_map' = update decode_map msg.uid (some s) in
      let left = if msg.finished then none else some r.0 in
      (
        update decode_map' msg.uid left,
        r.1,
        r.0,
        detokenize_one batch_decode each eos decode_map msg sent ready,
        emit_text-Emitted s sent ready,
        elim (Bool-cases msg.finished) [
          | inl over ↦ inl (over, update-same decode_map' msg.uid left ∙ rw over refl)
          | inr runs ↦ inr (runs, update-same decode_map' msg.uid left ∙ rw runs refl)
        ],
      )

  -- A new request has a right status, of which nothing was sent.
  pub new_status-IsStatus : IsStatus decode new_status []
  unfolding last
  new_status-IsStatus = record {
    read_text = sym streams.decode-nil;
    read-Closed = refl;
    surr-Closed = subst Closed (sym streams.decode-nil) refl;
    surr-le = omega arith;
    read-le = omega arith;
    sent_text = refl;
    settled = inl (subst Closed (sym streams.decode-nil) refl, omega arith);
  }
