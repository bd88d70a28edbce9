-- ===== src/Scheduler/Prefill/Budget.antt =====
-- The prefill budget bounds what a batch extends by (python/minisgl/scheduler/prefill.py).
use flash_kvmo_e.Base.{
  ℕ, ◌+◌, ◌≤◌, ◌<◌, ◌≡◌, refl, ap, sym, subst, Option, none, some, List, [], ◌∷◌, ◌++◌, length,
  arith, Ensures, Ensures-ok, Ensures-if, Ensures-bind, Ensures-option, ok, ◌==◌,
}
use flash_kvmo_e.Core.{PendingReq, Store, extend_len, IsReq}
use flash_kvmo_e.KvCache.Interface.{PrefixCache}
use flash_kvmo_e.Scheduler.Prefill.{Adder, World, try_add_one, add_all, schedule_next_batch}
use flash_kvmo_e.Scheduler.Prefill.Chunks.{Added, Step, try_add_one-Step}

module _ {F H : Type 0} where
  -- The ids that the requests of a batch extend by.
  abbrev pub extends : Store F H → List ℕ → ℕ
  extends s [] = 0
  extends s (ref ∷ refs) = extend_len (s.req ref) + extends s refs

  -- Every reference is one of a well-formed request of the store.
  abbrev pub AllReqs : Store F H → List ℕ → Type 0
  AllReqs s [] = Unit
  AllReqs s (ref ∷ refs) = (ref < s.next) × IsReq (s.req ref) × AllReqs s refs

  extends-append :
      (s : Store F H) (xs : List ℕ) (x : ℕ)
      → extends s (xs ++ x ∷ []) ≡ extends s xs + extend_len (s.req x)
  extends-append s [] x = omega arith
  extends-append s (y ∷ ys) x = omega (arith, extends-append s ys x)

  AllReqs-append :
      (s : Store F H) (xs : List ℕ) (x : ℕ)
      → AllReqs s xs
      → x < s.next
      → IsReq (s.req x)
      → AllReqs s (xs ++ x ∷ [])
  AllReqs-append s [] x h b v = (b, v, tt)
  AllReqs-append s (y ∷ ys) x h b v = (h.0, h.1, AllReqs-append s ys x h.2 b v)

  -- A store with the same requests, and maybe more.
  record Grows (s s' : Store F H) : Type 0 where
    more : s.next ≤ s'.next
    old : (x : ℕ) → x < s.next → s'.req x ≡ s.req x

  Grows-same : {s s' : Store F H} → s' ≡ s → Grows s s'
  Grows-same e = record {
    more = omega (arith, ap (λ t. t.next) e);
    old = λ x _. ap (λ t. t.req x) e;
  }

  Grows-reqs :
      {s s' : Store F H} (refs : List ℕ)
      → Grows s s'
      → AllReqs s refs
      → (extends s' refs ≡ extends s refs) × AllReqs s' refs
  Grows-reqs [] g h = (refl, tt)
  Grows-reqs (x ∷ xs) g h =
      let (same, all) = Grows-reqs xs g h.2 in
      let e = g.old x h.0 in
      (
        omega (arith, same, ap extend_len e),
        (omega (arith, h.0, g.more), subst IsReq (sym e) h.1, all),
      )

module _ {F : Type 0} (P : PrefixCache) where
  abbrev Within : ℕ → List ℕ × List (PendingReq F) × World F P → Type 0
  Within budget (reqs, _, w) = (extends w.store reqs ≤ budget) × AllReqs w.store reqs

  Grows-Added :
      {req : PendingReq F} {w w' : World F P} {a a' : Adder} {ref : ℕ}
      → Added P req w a ref a' w'
      → Grows w.store w'.store
  Grows-Added h = record { more = omega (arith, h.next); old = h.old }

  add_all-Within :
      (budget : ℕ) (pending : List (PendingReq F)) (reqs : List ℕ) (chunked : List (PendingReq F))
      (clock : ℕ → ℕ) (a : Adder) (w : World F P)
      → extends w.store reqs + a.token_budget ≤ budget
      → AllReqs w.store reqs
      → Ensures (Within budget) (add_all P pending reqs chunked clock a w)
  unfolding add_all
  add_all-Within budget [] reqs chunked clock a w h all = Ensures-ok _ (omega arith, all)
  add_all-Within budget (p ∷ ps) reqs chunked clock a w h all =
      Ensures-bind (try_add_one P p (clock (length reqs)) a w) _ λ (added, a', w') run.
        let step = (try_add_one-Step P p (clock (length reqs)) a w).holds (added, a', w') run in
        Ensures-option added _ _
          (λ e.
            let (_, same) = subst (λ o. Step P p w a (o, a', w')) e step in
            let (keep, all') = Grows-reqs reqs (Grows-same same) all in
            Ensures-ok _ (omega (arith, keep), all'))
          λ ref e.
            let new = subst (λ o. Step P p w a (o, a', w')) e step in
            let (keep, all') = Grows-reqs reqs (Grows-Added new) all in
            add_all-Within budget ps (reqs ++ ref ∷ []) _ clock a' w'
              (omega (arith, keep, extends-append w'.store reqs ref, new.spent))
              (AllReqs-append w'.store reqs ref all' (omega (arith, new.new, new.next)) new.well)

  abbrev WithinBatch : ℕ → Option (List ℕ) × List (PendingReq F) × World F P → Type 0
  WithinBatch budget (none, _, w) = Unit
  WithinBatch budget (some reqs, pending, w) = Within budget (reqs, pending, w)

  batch-Within :
      (budget inflight : ℕ) (clock : ℕ → ℕ) (pending : List (PendingReq F)) (w : World F P)
      → Ensures (WithinBatch budget) (schedule_next_batch P budget inflight clock pending w)
  unfolding schedule_next_batch
  batch-Within budget inflight clock pending w =
      let a : Adder = record { token_budget = budget; reserved_size = inflight } in
      Ensures-if (length pending == 0) _ _ (λ _. Ensures-ok _ tt)
        λ _. Ensures-bind (add_all P pending [] [] clock a w) _ λ (reqs, chunked, w') run.
          let all = (add_all-Within budget pending [] [] clock a w (omega arith) tt).holds _ run in
          Ensures-if (length reqs == 0) _ _ (λ _. Ensures-ok _ tt) (λ _. Ensures-ok _ all)

  -- If the prefill manager returns a batch, its requests are well formed, and together they
  -- extend by no more ids than the prefill budget.
  pub schedule_next_batch-Within :
      (prefill_budget inflight_tokens : ℕ) (clock : ℕ → ℕ) (pending : List (PendingReq F))
      (w : World F P) (reqs : List ℕ) (pending' : List (PendingReq F)) (w' : World F P)
      → schedule_next_batch P prefill_budget inflight_tokens clock pending w
        ≡ ok (some reqs, pending', w')
      → (extends w'.store reqs ≤ prefill_budget) × AllReqs w'.store reqs
  unfolding schedule_next_batch
  schedule_next_batch-Within budget inflight clock pending w reqs pending' w' h =
      (batch-Within budget inflight clock pending w).holds (some reqs, pending', w') h
