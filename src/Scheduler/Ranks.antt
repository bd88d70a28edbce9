-- ===== src/Scheduler/Ranks.antt =====
-- Every rank receives what rank 0 receives (python/minisgl/scheduler/io.py).
use flash_kvmo_e.Scheduler.Exchange.{
  rounds_rank1, decode_all, recv_msg_single_rank, rounds_rank0, get_available, recv_msg_multi_rank1,
  get_raw, get_count, get_blocking, recv_msg_multi_rank0,
}
mod Tests
use flash_kvmo_e.Base.{
  ℕ, zero, suc, Bool, true, false, Option, none, some, List, [], ◌∷◌, ◌++◌, Result, ok, raise,
  stop_iteration, ◌>>=◌, length, ◌≡◌, refl, sym, ap, ◌∙◌, subst, append_assoc, >>=-eq-ok,
  ok-injective, step,
}
use flash_kvmo_e.Scheduler.Exchange

module _ {ℓ} {Raw : Type ℓ} where
  get_count-append :
      (raws later : List Raw) → get_count (length raws) (raws ++ later) ≡ ok (raws, later)
  unfolding get_count get_raw
  get_count-append [] later = refl
  get_count-append (raw ∷ raws) later = rw (get_count-append raws later) refl

  -- A blocking read sees only the front of the queue.
  get_blocking-append :
      (blocking : Bool) (queue first rest later : List Raw)
      → get_blocking blocking queue ≡ ok (first, rest)
      → get_blocking blocking (first ++ later) ≡ ok (first, later)
  unfolding get_blocking get_raw
  get_blocking-append false queue first rest later run =
      let e : [] ≡ first = ap (λ p. p.0) (ok-injective run) in
      subst (λ f. get_blocking false (f ++ later) ≡ ok (f, later)) e refl
  get_blocking-append true [] first rest later run = cc
  get_blocking-append true (raw ∷ queue) first rest later run =
      let e : raw ∷ [] ≡ first = ap (λ p. p.0) (ok-injective run) in
      subst (λ f. get_blocking true (f ++ later) ≡ ok (f, later)) e refl

module _ {ℓ κ} {Raw : Type ℓ} {Msg : Type κ} (decode : Raw → Msg) where
  -- The next rank reads from the front of the link what rank 0 published in the round.
  recv_msg_multi_rank1-published :
      (blocking : Bool) (arrived : ℕ) (inbox : List Raw) (msgs : List Msg)
      (inbox' published : List Raw) (count : ℕ) (later : List Raw)
      → recv_msg_multi_rank0 decode blocking arrived inbox ≡ ok (msgs, inbox', published, count)
      → recv_msg_multi_rank1 decode blocking count (published ++ later) ≡ ok (msgs, later)
  unfolding recv_msg_multi_rank0 recv_msg_multi_rank1
  recv_msg_multi_rank1-published blocking arrived inbox msgs inbox' published count later run =
      let (r, blocked, run') = >>=-eq-ok (get_blocking blocking inbox) _ run in
      let pending = (get_available arrived r.1).0 in
      let e = ok-injective run' in
      subst (λ t. recv_msg_multi_rank1 decode blocking t.3 (t.2 ++ later) ≡ ok (t.0, later)) e
        (rw
          (
            append_assoc r.0 pending later,
            get_blocking-append blocking inbox r.0 r.1 (pending ++ later) blocked,
            get_count-append pending later,
          )
          refl)

  -- Whatever the rounds of rank 0 are, the other ranks receive the same batches of messages, round
  -- by round and in the same order, if each of them reads only what rank 0 published in them: it
  -- is at the front of their link, and what follows is left there.
  pub rounds_rank1-rounds_rank0 :
      (rounds : List (Bool × ℕ)) (inbox : List Raw) (batches : List (List Msg))
      (others : List (Bool × ℕ)) (published : List Raw)
      → rounds_rank0 decode rounds inbox ≡ ok (batches, others, published)
      → (later : List Raw) → rounds_rank1 decode others (published ++ later) ≡ ok (batches, later)
  unfolding rounds_rank0 rounds_rank1
  rounds_rank1-rounds_rank0 [] inbox batches others published run later =
      subst (λ t. rounds_rank1 decode t.1 (t.2 ++ later) ≡ ok (t.0, later)) (ok-injective run) refl
  rounds_rank1-rounds_rank0 ((blocking, arrived) ∷ rounds) inbox batches others published run
        later =
      let (first, one_round, run1) =
        >>=-eq-ok (recv_msg_multi_rank0 decode blocking arrived inbox) _ run in
      let (rest, more, run2) = >>=-eq-ok (rounds_rank0 decode rounds first.1) _ run1 in
      subst (λ t. rounds_rank1 decode t.1 (t.2 ++ later) ≡ ok (t.0, later)) (ok-injective run2)
        (rw
          (
            append_assoc first.2 rest.2 later,
            recv_msg_multi_rank1-published blocking arrived inbox first.0 first.1 first.2 first.3
                (rest.2 ++ later) one_round,
            rounds_rank1-rounds_rank0 rounds first.1 rest.0 rest.1 rest.2 more later,
          )
          refl)

  decode_all-append :
      (xs ys : List Raw)
      → decode_all decode (xs ++ ys) ≡ decode_all decode xs ++ decode_all decode ys
  decode_all-append [] ys = refl
  decode_all-append (x ∷ xs) ys = ap (◌∷◌ (decode x)) (decode_all-append xs ys)

  -- Rank 0 of several ranks receives what a single rank does, and leaves the same in the inbox.
  pub recv_msg_multi_rank0-single_rank :
      (blocking : Bool) (arrived : ℕ) (inbox : List Raw) (msgs : List Msg)
      (inbox' published : List Raw) (count : ℕ)
      → recv_msg_multi_rank0 decode blocking arrived inbox ≡ ok (msgs, inbox', published, count)
      → recv_msg_single_rank decode blocking arrived inbox ≡ ok (msgs, inbox')
  unfolding recv_msg_multi_rank0 recv_msg_single_rank
  recv_msg_multi_rank0-single_rank blocking arrived inbox msgs inbox' published count run =
      let (r, blocked, run') = >>=-eq-ok (get_blocking blocking inbox) _ run in
      let pending = (get_available arrived r.1).0 in
      subst (λ t. recv_msg_single_rank decode blocking arrived inbox ≡ ok (t.0, t.1))
        (ok-injective run') (rw (blocked, decode_all-append r.0 pending) refl)
