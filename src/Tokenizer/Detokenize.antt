-- ===== src/Tokenizer/Detokenize.antt =====
-- `DetokenizeManager` (python/minisgl/tokenizer/detokenize.py): the text of each request as it
-- grows. `batch_decode` is the tokenizer's. The map from uids is a function.
use flash_kvmo_e.Base.{
  ℕ, Bool, not, ◌&&◌, Option, none, some, List, [], ◌∷◌, ◌++◌, Result, ok, raise, value_error,
  key_error, ◌>>=◌, length, take, drop, ltb, ◌==◌, if◌then◌else◌,
}
use flash_kvmo_e.Scheduler.State.{DetokenizeMsg}
use flash_kvmo_e.Tokenizer.Printable.{ends_with, find_printable_text, last}

pub record DecodeStatus : Type 0 where
  pub decoded_ids : List ℕ
  pub decoded_str : List ℕ
  pub read_offset : ℕ
  pub surr_offset : ℕ
  pub sent_offset : ℕ

abbrev pub DecodeMap : Type 0
DecodeMap = ℕ → Option DecodeStatus

-- `self.decode_map[uid] = status` and `del self.decode_map[uid]`
abbrev pub update : DecodeMap → ℕ → Option DecodeStatus → DecodeMap
update decode_map uid status = λ other. if uid == other then status else decode_map other

abbrev pub new_status : DecodeStatus
new_status = record {
  decoded_ids = [];
  decoded_str = [];
  read_offset = 0;
  surr_offset = 0;
  sent_offset = 0;
}

-- The status that the first loop works on.
abbrev pub status_of : DecodeMap → ℕ → DecodeStatus
status_of decode_map uid = elim (decode_map uid) [ none ↦ new_status | some s ↦ s ]

-- The ids with the new token, unless it is the end of the sequence.
unfoldable pub add_token : ℕ → DecodeStatus → DetokenizeMsg → DecodeStatus
add_token eos_token_id s msg =
    if msg.finished && (msg.next_token == eos_token_id)
    then s
    else record s { decoded_ids = s.decoded_ids ++ (msg.next_token ∷ []) }

-- The first loop: the map, `read_ids` and `surr_ids`.
unfoldable pub collect_ids :
    ℕ → DecodeMap → List DetokenizeMsg → DecodeMap × List (List ℕ) × List (List ℕ)
unfolding add_token
collect_ids eos decode_map [] = (decode_map, [], [])
collect_ids eos decode_map (msg ∷ msgs) =
    let s = add_token eos (status_of decode_map msg.uid) msg in
    let (decode_map', read_ids, surr_ids) =
      collect_ids eos (update decode_map msg.uid (some s)) msgs in
    (
      decode_map',
      drop s.surr_offset s.decoded_ids ∷ read_ids,
      drop s.surr_offset (take s.read_offset s.decoded_ids) ∷ surr_ids,
    )

-- `len(new_text) > 0 and not new_text.endswith("�")`; the character is 0xFFFD.
abbrev pub is_whole : List ℕ → Bool
unfolding last
is_whole new_text = ltb 0 (length new_text) && not (ends_with 65533 new_text)

-- What one round of the second loop does with the new text: the new status and what is sent.
unfoldable pub emit_text : DecodeStatus → List ℕ → DecodeStatus × List ℕ
unfolding find_printable_text
emit_text s new_text =
    let whole = s.decoded_str ++ new_text in
    let part = s.decoded_str ++ find_printable_text new_text in
    if is_whole new_text
    then (
      record s {
        decoded_str = whole;
        surr_offset = s.read_offset;
        read_offset = length s.decoded_ids;
        sent_offset = length whole;
      },
      drop s.sent_offset whole,
    )
    else (record s { sent_offset = length part }, drop s.sent_offset part)

unfoldable pub emit : DecodeStatus → List ℕ → List ℕ → DecodeStatus × List ℕ
unfolding emit_text
emit s read_str surr_str = emit_text s (drop (length surr_str) read_str)

-- The second loop. `zip` is strict.
unfoldable pub emit_all :
    DecodeMap
    → List DetokenizeMsg
    → List (List ℕ)
    → List (List ℕ)
    → Result (DecodeMap × List (List ℕ))
unfolding emit
emit_all decode_map [] [] [] = ok (decode_map, [])
emit_all decode_map (msg ∷ msgs) (read_str ∷ reads) (surr_str ∷ surrs) = elim (decode_map msg.uid) [
  | none ↦ raise key_error
  | some s ↦ (do
    let (s', text) = emit s read_str surr_str
    (decode_map', texts) ←
        emit_all (update decode_map msg.uid (if msg.finished then none else some s')) msgs reads
          surrs
    ok (decode_map', text ∷ texts))
]
emit_all decode_map _ _ _ = raise value_error

module _ (batch_decode : List (List ℕ) → List (List ℕ)) (eos_token_id : ℕ) where
  unfoldable pub detokenize : DecodeMap → List DetokenizeMsg → Result (DecodeMap × List (List ℕ))
  unfolding collect_ids emit_all
  detokenize decode_map msgs =
      let (decode_map', read_ids, surr_ids) = collect_ids eos_token_id decode_map msgs in
      emit_all decode_map' msgs (batch_decode read_ids) (batch_decode surr_ids)
