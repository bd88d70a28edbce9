-- ===== src/Tokenizer/Tests.antt =====
-- A tokenizer whose tokens are code points.
use flash_kvmo_e.Tokenizer.Gather.{all_leaves}
use flash_kvmo_e.Tokenizer.Rounds.{worker_round_lem, unwrap_all, answered, answer, Detokenized}
use flash_kvmo_e.Tokenizer.Sent.{detokenize_lem, Emitted}
use flash_kvmo_e.Tokenizer.Offsets.{IsStatus}
use flash_kvmo_e.Tokenizer.Streaming.{IsStreaming, Closed, Closed-of_append}
use flash_kvmo_e.Tokenizer.Printable.{last}
use flash_kvmo_e.Tokenizer.Server.{
  UserReply, to_text, chat, to_ids, backend_round, to_abort, TokenizerMsg, reply_round,
  worker_round,
}
use flash_kvmo_e.Tokenizer.Detokenize.{
  emit, collect_ids, emit_all, detokenize, add_token, DecodeMap, DecodeStatus,
}
use flash_kvmo_e.Base.{
  take, ◌++◌, ap, ◌<◌, length, zero, suc, inl, Error, raise, ℕ, List, [], ◌∷◌, ok, refl, ◌≡◌, none,
  some, true, false, map, ◌⊎◌, arith,
}
use flash_kvmo_e.Scheduler.State.{nil, abort, cons, batched, user, BackendMsg, DetokenizeMsg}
use flash_kvmo_e.Core.{SamplingParams}
use flash_kvmo_e.Scheduler.Exchange.{Packet, one}
use flash_kvmo_e.Scheduler.State.{BackendMsg, user, abort, batched, cons, nil}
use flash_kvmo_e.Tokenizer.Printable.{find_printable_text}

-- "go on" is shown up to its space.
find_printable_text-words :
    find_printable_text (103 ∷ 111 ∷ 32 ∷ 111 ∷ 110 ∷ []) ≡ 103 ∷ 111 ∷ 32 ∷ []
unfolding find_printable_text
find_printable_text-words = refl

abbrev spell : List ℕ → List ℕ
spell ids = ids

abbrev spell_all : List (List ℕ) → List (List ℕ)
spell_all ids = map spell ids

abbrev message : DetokenizeMsg
message = record { uid = 5; next_token = 104; finished = false }

abbrev half_way : DecodeStatus
half_way = record {
  decoded_ids = 111 ∷ [];
  decoded_str = 111 ∷ [];
  read_offset = 1;
  surr_offset = 0;
  sent_offset = 1;
}

-- The token 0 is the first half of the letter 104, whose second half is the token 1.
abbrev halves : List ℕ → List ℕ
halves [] = []
halves (zero ∷ []) = 65533 ∷ []
halves (zero ∷ _ ∷ ids) = 104 ∷ halves ids
halves (suc id ∷ ids) = suc id ∷ halves ids

halves-append : (xs ys : List ℕ) → Closed (halves xs) → halves (xs ++ ys) ≡ halves xs ++ halves ys
unfolding last
halves-append [] ys closed = refl
halves-append (zero ∷ []) ys closed = cc
halves-append (zero ∷ y ∷ xs) ys closed =
    ap (◌∷◌ 104) (halves-append xs ys (Closed-of_append (104 ∷ []) (halves xs) closed))
halves-append (suc x ∷ xs) ys closed =
    ap (◌∷◌ (suc x)) (halves-append xs ys (Closed-of_append (suc x ∷ []) (halves xs) closed))

halves-keeps :
    (xs ys : List ℕ) (n : ℕ)
    → n < length (halves xs)
    → take n (halves (xs ++ ys)) ≡ take n (halves xs)
halves-keeps xs ys zero short = refl
halves-keeps [] ys (suc n) short = absurd (omega (arith, short))
halves-keeps (zero ∷ []) ys (suc n) short = absurd (omega (arith, short))
halves-keeps (zero ∷ y ∷ xs) ys (suc n) short =
    ap (◌∷◌ 104) (halves-keeps xs ys n (omega (arith, short)))
halves-keeps (suc x ∷ xs) ys (suc n) short =
    ap (◌∷◌ (suc x)) (halves-keeps xs ys n (omega (arith, short)))

halves-IsStreaming : IsStreaming halves
halves-IsStreaming = record {
  decode-nil = refl;
  decode-append = halves-append;
  decode-keeps = halves-keeps;
}

half_way-IsStatus : IsStatus halves half_way (111 ∷ [])
unfolding last
half_way-IsStatus = record {
  read_text = refl;
  read-Closed = refl;
  surr-Closed = refl;
  surr-le = omega arith;
  read-le = omega arith;
  sent_text = refl;
  settled = inl (refl, omega arith);
}

abbrev running : DecodeMap
running = λ uid. some half_way

abbrev token : ℕ → DetokenizeMsg
token next_token = record { uid = 5; next_token = next_token; finished = false }

-- The first half of a letter.
detokenize_lem_example :
    let s = add_token 2 half_way (token 0) in
    (decode_map' : DecodeMap) × (text : List ℕ) × (s' : DecodeStatus) × (detokenize
        (map halves)
        2
        running
        (token 0 ∷ [])
      ≡ ok (decode_map', text ∷ []))
    × Emitted halves s (111 ∷ []) (s', text)
    × (((false ≡ true) × (decode_map' 5 ≡ none)) ⊎ ((false ≡ false) × (decode_map' 5 ≡ some s')))
detokenize_lem_example =
    detokenize_lem halves halves-IsStreaming (map halves) (λ ids. refl) 2 running (token 0)
      (111 ∷ []) half_way-IsStatus

-- Nothing is sent of the first half, and the letter with the second.
sends_halves :
    (map1 : DecodeMap) × (map2 : DecodeMap) × (detokenize
        (map halves)
        9
        (λ uid. none)
        (token 0 ∷ [])
      ≡ ok (map1, [] ∷ []))
    × (detokenize (map halves) 9 map1 (token 1 ∷ []) ≡ ok (map2, (104 ∷ []) ∷ []))
unfolding detokenize emit_all collect_ids emit add_token
sends_halves = (_, _, refl, refl)

abbrev greedy : SamplingParams ℕ
greedy = record { temperature = 0; top_k = none; top_p = 1; ignore_eos = false; max_tokens = 4 }

abbrev pending : List (TokenizerMsg ℕ (List ℕ) (List ℕ))
pending =
    to_abort 3
    ∷ to_ids (record { uid = 8; text = chat (104 ∷ []); sampling_params = greedy })
    ∷ to_text message
    ∷ to_abort 4
    ∷ []

abbrev template : List ℕ → List ℕ
template c = 60 ∷ c

abbrev to_frontend : List (Packet UserReply)
to_frontend = one (record { uid = 5; incremental_output = 104 ∷ []; finished = false }) ∷ []

abbrev to_backend : List (BackendMsg ℕ)
to_backend =
    user (record { uid = 8; input_ids = 60 ∷ 104 ∷ []; sampling_params = greedy })
    ∷ batched (cons (abort 3) (cons (abort 4) nil))
    ∷ []

round_runs :
    (decode_map' : DecodeMap) × (worker_round template spell spell_all 2 running pending
      ≡ ok (decode_map', to_frontend, to_backend))
unfolding worker_round reply_round backend_round detokenize emit_all collect_ids emit add_token
round_runs = (_, refl)

worker_round_lem_example :
    let round = worker_round template spell spell_all 2 running pending in
    ((e : Error) × (detokenize spell_all 2 running (message ∷ []) ≡ raise e) × (round ≡ raise e))
    ⊎ ((decode_map' : DecodeMap) × (texts : List (List ℕ)) × (front : List (Packet UserReply))
        × (back : List (BackendMsg ℕ)) × (round ≡ ok (decode_map', front, back))
        × Detokenized spell_all 2 running (message ∷ []) decode_map' texts
        × (all_leaves back
            ≡ user (record { uid = 8; input_ids = 60 ∷ 104 ∷ []; sampling_params = greedy })
              ∷ abort 3
              ∷ abort 4
              ∷ [])
        × (map answered (unwrap_all front) ≡ (5, false) ∷ [])
        × (map answer (unwrap_all front) ≡ texts))
worker_round_lem_example = worker_round_lem template spell spell_all 2 running pending
