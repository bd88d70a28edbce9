-- ===== src/Scheduler/Prefill/Room.antt =====
-- Requests stay within the room that their sequences have (python/minisgl/scheduler/prefill.py).
use flash_kvmo_e.Base.{
  ℕ, ◌+◌, ◌≤◌, ◌<◌, ◌≡◌, ap, sym, Option, none, some, List, [], ◌∷◌, ◌++◌, length, arith, All,
  All-mono, All-append, All-drop, Ensures, Ensures-ok, Ensures-if, Ensures-bind, Ensures-option, ok,
  ◌==◌, subst, Bool-cases, inl, inr,
}
use flash_kvmo_e.Core.{PendingReq, Store, input_len, output_len}
use flash_kvmo_e.KvCache.Interface.{PrefixCache}
use flash_kvmo_e.Scheduler.Prefill.{
  Adder, World, try_add_one, add_all, schedule_next_batch, abort_req,
}
use flash_kvmo_e.Scheduler.Prefill.Chunks.{Step, try_add_one-Step}

module _ {F : Type 0} where
  -- The prompt and the tokens to decode fit a sequence of `limit` tokens.
  abbrev pub Fits : ℕ → PendingReq F → Type 0
  Fits limit req = input_len req + output_len req ≤ limit

  -- No request that a batch refers to may grow past `limit` tokens.
  abbrev pub Roomy : {H : Type 0} → ℕ → Store F H → List ℕ → Type 0
  Roomy limit s = All (λ ref. (ref < s.next) × ((s.req ref).max_device_len ≤ limit))

  pub abort_req-All :
      (Q : PendingReq F → Type 0) (uid : ℕ) (pending : List (PendingReq F))
      → All Q pending
      → All Q (abort_req uid pending).1
  unfolding abort_req
  abort_req-All Q uid [] h = tt
  abort_req-All Q uid (req ∷ rest) h = elim (Bool-cases (req.uid == uid)) [
    | inl found ↦ rw found h.1
    | inr other ↦ rw other (h.0, abort_req-All Q uid rest h.1)
  ]

module _ {F : Type 0} (P : PrefixCache) (limit : ℕ) where
  Roomy-step :
      (s s' : Store F P.Handle) (refs : List ℕ)
      → s.next ≤ s'.next
      → ((x : ℕ) → x < s.next → s'.req x ≡ s.req x)
      → Roomy limit s refs
      → Roomy limit s' refs
  Roomy-step s s' refs more old h =
      All-mono refs
        (λ x (b, r).
          (omega (arith, b, more), omega (arith, r, ap (λ q. q.max_device_len) (old x b))))
        h

  abbrev Good : List ℕ × List (PendingReq F) × World F P → Type 0
  Good (reqs, chunked, w) = All (Fits limit) chunked × Roomy limit w.store reqs

  add_all-Good :
      (pending : List (PendingReq F)) (reqs : List ℕ) (chunked : List (PendingReq F))
      (clock : ℕ → ℕ) (a : Adder) (w : World F P)
      → All (Fits limit) pending
      → All (Fits limit) chunked
      → Roomy limit w.store reqs
      → Ensures Good (add_all P pending reqs chunked clock a w)
  unfolding add_all
  add_all-Good [] reqs chunked clock a w p c r = Ensures-ok _ (c, r)
  add_all-Good (req ∷ rest) reqs chunked clock a w p c r =
      Ensures-bind (try_add_one P req (clock (length reqs)) a w) _ λ (added, a', w') run.
        let step = (try_add_one-Step P req (clock (length reqs)) a w).holds (added, a', w') run in
        Ensures-option added _ _
          (λ e.
            let (_, same) = subst (λ o. Step P req w a (o, a', w')) e step in
            Ensures-ok _ (c, subst (λ s. Roomy limit s reqs) (sym same) r))
          λ ref e.
            let new = subst (λ o. Step P req w a (o, a', w')) e step in
            add_all-Good rest (reqs ++ ref ∷ []) _ clock a' w' p.1
              (elim (Bool-cases ((w'.store.req ref).chunked)) [
                | inl cut ↦ rw cut (All-append _ chunked _ c (p.0, tt))
                | inr whole ↦ rw whole c
              ])
              (All-append _ reqs (ref ∷ [])
                (Roomy-step w.store w'.store reqs (omega (arith, new.next)) new.old r)
                ((omega (arith, new.new, new.next), omega (arith, new.room, p.0)), tt))

  abbrev pub BatchRoomy : Store F P.Handle → Option (List ℕ) → Type 0
  BatchRoomy s none = Unit
  BatchRoomy s (some reqs) = Roomy limit s reqs

  abbrev GoodBatch : Option (List ℕ) × List (PendingReq F) × World F P → Type 0
  GoodBatch (none, pending, w) = All (Fits limit) pending
  GoodBatch (some reqs, pending, w) = Good (reqs, pending, w)

  batch-Good :
      (prefill_budget inflight_tokens : ℕ) (clock : ℕ → ℕ) (pending : List (PendingReq F))
      (w : World F P)
      → All (Fits limit) pending
      → Ensures GoodBatch (schedule_next_batch P prefill_budget inflight_tokens clock pending w)
  unfolding schedule_next_batch
  batch-Good budget inflight clock pending w p =
      let a : Adder = record { token_budget = budget; reserved_size = inflight } in
      Ensures-if (length pending == 0) _ _ (λ _. Ensures-ok _ p)
        λ _. Ensures-bind (add_all P pending [] [] clock a w) _ λ (reqs, chunked, w') run.
          let (c, r) = (add_all-Good pending [] [] clock a w p tt tt).holds _ run in
          Ensures-if (length reqs == 0) _ _ (λ _. Ensures-ok _ p)
            λ _. Ensures-ok _ (All-append _ chunked _ c (All-drop _ (length reqs) pending p), r)

  -- If every pending request fits a sequence of `limit` tokens, then after a call that returns the
  -- pending ones still do, those that were cut included, and no request of a prefill batch may grow
  -- past `limit` tokens.
  pub schedule_next_batch-Fits :
      (prefill_budget inflight_tokens : ℕ) (clock : ℕ → ℕ) (pending : List (PendingReq F))
      (w : World F P) (batch : Option (List ℕ)) (pending' : List (PendingReq F)) (w' : World F P)
      → All (Fits limit) pending
      → schedule_next_batch P prefill_budget inflight_tokens clock pending w
        ≡ ok (batch, pending', w')
      → All (Fits limit) pending' × BatchRoomy w'.store batch
  schedule_next_batch-Fits budget inflight clock pending w none pending' w' p h =
      let g = (batch-Good budget inflight clock pending w p).holds (none, pending', w') h in (g, tt)
  schedule_next_batch-Fits budget inflight clock pending w (some reqs) pending' w' p h =
      (batch-Good budget inflight clock pending w p).holds (some reqs, pending', w') h
