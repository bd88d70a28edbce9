-- ===== src/Scheduler/Decode.antt =====
-- `DecodeManager` (python/minisgl/scheduler/decode.py). The set of running requests is a list of
-- references with no repetition; the order of a Python set is not specified.
use flash_kvmo_e.Base.{
  inr, sym, inl, ap, subst, Bool-cases, ◌∙◌, ℕ, ◌+◌, ◌-◌, ◌*◌, ◌≤◌, ◌≡◌, refl, Bool, false, ◌&&◌,
  ◌||◌, not, Option, none, some, List, [], ◌∷◌, ◌++◌, leb, ltb, ◌==◌, if◌then◌else◌, length, arith,
}
use flash_kvmo_e.Core.{Store, can_decode, remain_len}

pub record DecodeManager : Type 0 where
  pub page_size : ℕ
  pub running_reqs : List ℕ

unfoldable pub elem : ℕ → List ℕ → Bool
elem x [] = false
elem x (y ∷ ys) = (y == x) || elem x ys

-- `set.union`
unfoldable pub union : List ℕ → List ℕ → List ℕ
unfolding elem
union xs [] = xs
union xs (y ∷ ys) = union (if elem y xs then xs else xs ++ y ∷ []) ys

unfoldable pub keep : (ℕ → Bool) → List ℕ → List ℕ
keep p [] = []
keep p (x ∷ xs) = if p x then x ∷ keep p xs else keep p xs

unfoldable pub remove_req : ℕ → DecodeManager → DecodeManager
unfolding keep
remove_req ref d = record d { running_reqs = keep (λ x. not (x == ref)) d.running_reqs }

unfoldable pub runnable : DecodeManager → Bool
runnable d = ltb 0 (length d.running_reqs)

module _ {F H : Type 0} (s : Store F H) where
  unfoldable pub filter_reqs : List ℕ → DecodeManager → DecodeManager
  unfolding union keep
  filter_reqs reqs d = record d {
    running_reqs = keep (λ x. can_decode (s.req x)) (union d.running_reqs reqs);
  }

  unfoldable pub find_uid : ℕ → List ℕ → Option ℕ
  find_uid uid [] = none
  find_uid uid (x ∷ xs) = if (s.req x).uid == uid then some x else find_uid uid xs

  unfoldable pub abort_req : ℕ → DecodeManager → Option ℕ × DecodeManager
  unfolding find_uid remove_req
  abort_req uid d = elim (find_uid uid d.running_reqs) [
    | none ↦ (none, d)
    | some ref ↦ (some ref, remove_req ref d)
  ]

  unfoldable pub remain_total : List ℕ → ℕ
  remain_total [] = 0
  remain_total (x ∷ xs) = remain_len (s.req x) + remain_total xs

  unfoldable pub inflight_tokens : DecodeManager → ℕ
  unfolding remain_total
  inflight_tokens d = remain_total d.running_reqs + (d.page_size - 1) * length d.running_reqs

  -- `sorted(…, key=lambda req: req.uid)`, by insertion: it is stable too.
  unfoldable pub insert_by_uid : ℕ → List ℕ → List ℕ
  insert_by_uid x [] = x ∷ []
  insert_by_uid x (y ∷ ys) =
      if leb (s.req x).uid (s.req y).uid then x ∷ y ∷ ys else y ∷ insert_by_uid x ys

  unfoldable pub sort_by_uid : List ℕ → List ℕ
  unfolding insert_by_uid
  sort_by_uid [] = []
  sort_by_uid (x ∷ xs) = insert_by_uid x (sort_by_uid xs)

  -- The requests of the next decode batch.
  unfoldable pub schedule_next_batch : DecodeManager → Option (List ℕ)
  unfolding runnable sort_by_uid
  schedule_next_batch d = if runnable d then some (sort_by_uid d.running_reqs) else none

-- A membership test on what `filter_reqs` keeps.
elem-append : (x : ℕ) (xs ys : List ℕ) → elem x (xs ++ ys) ≡ (elem x xs || elem x ys)
unfolding elem
elem-append x [] ys = refl
elem-append x (y ∷ xs) ys = ground (arith, elem-append x xs ys)

elem-union : (x : ℕ) (xs ys : List ℕ) → elem x (union xs ys) ≡ (elem x xs || elem x ys)
unfolding union elem
elem-union x xs [] = ground arith
elem-union x xs (y ∷ ys) =
    ground (arith, elem-union x xs ys, elem-union x (xs ++ y ∷ []) ys, elem-append x xs (y ∷ []))

elem-keep : (p : ℕ → Bool) (x : ℕ) (xs : List ℕ) → elem x (keep p xs) ≡ (elem x xs && p x)
unfolding elem keep
elem-keep p x [] = refl
elem-keep p x (y ∷ ys) = elim (Bool-cases (y == x)) [
  | inl e ↦
      (let same : y ≡ x = ground arith in
        subst (λ z. elem x (keep p (z ∷ ys)) ≡ (elem x (z ∷ ys) && p x)) (sym same)
          (ground (arith, elem-keep p x ys)))
  | inr ne ↦ ground (arith, elem-keep p x ys)
]

-- After `filter_reqs` exactly those requests run that ran before or were in the batch, and that
-- still have tokens to decode.
pub elem-filter_reqs :
    {F H : Type 0} (s : Store F H) (reqs : List ℕ) (d : DecodeManager) (ref : ℕ)
    → elem ref (filter_reqs s reqs d).running_reqs
      ≡ ((elem ref d.running_reqs || elem ref reqs) && can_decode (s.req ref))
unfolding filter_reqs
elem-filter_reqs s reqs d ref =
    elem-keep (λ x. can_decode (s.req x)) ref (union d.running_reqs reqs)
    ∙ ap (λ b. b && can_decode (s.req ref)) (elem-union ref d.running_reqs reqs)

-- A request that is removed does not run any more, and no other is touched.
pub elem-remove_req :
    (ref x : ℕ) (d : DecodeManager)
    → elem x (remove_req ref d).running_reqs ≡ (elem x d.running_reqs && not (x == ref))
unfolding remove_req
elem-remove_req ref x d = elem-keep (λ y. not (y == ref)) x d.running_reqs

-- The batch is in the order of the uids.
abbrev pub IsSorted : {F H : Type 0} → Store F H → List ℕ → Type 0
IsSorted s [] = Unit
IsSorted s (x ∷ []) = Unit
IsSorted s (x ∷ y ∷ xs) = ((s.req x).uid ≤ (s.req y).uid) × IsSorted s (y ∷ xs)

module _ {F H : Type 0} (s : Store F H) where
  insert_by_uid-IsSorted : (x : ℕ) (xs : List ℕ) → IsSorted s xs → IsSorted s (insert_by_uid s x xs)
  unfolding insert_by_uid
  insert_by_uid-IsSorted x [] h = tt
  insert_by_uid-IsSorted x (y ∷ []) h = ground arith
  insert_by_uid-IsSorted x (y ∷ z ∷ xs) h = ground (arith, insert_by_uid-IsSorted x (z ∷ xs) h.1)

  sort_by_uid-IsSorted : (xs : List ℕ) → IsSorted s (sort_by_uid s xs)
  unfolding sort_by_uid
  sort_by_uid-IsSorted [] = tt
  sort_by_uid-IsSorted (x ∷ xs) =
      insert_by_uid-IsSorted x (sort_by_uid s xs) (sort_by_uid-IsSorted xs)

  elem-insert_by_uid : (r x : ℕ) (xs : List ℕ) → elem r (insert_by_uid s x xs) ≡ elem r (x ∷ xs)
  unfolding elem insert_by_uid
  elem-insert_by_uid r x [] = refl
  elem-insert_by_uid r x (y ∷ ys) = ground (arith, elem-insert_by_uid r x ys)

  elem-sort_by_uid : (r : ℕ) (xs : List ℕ) → elem r (sort_by_uid s xs) ≡ elem r xs
  unfolding elem sort_by_uid
  elem-sort_by_uid r [] = refl
  elem-sort_by_uid r (x ∷ xs) =
      elem-insert_by_uid r x (sort_by_uid s xs) ∙ ap (λ b. (x == r) || b) (elem-sort_by_uid r xs)

  -- If there is a decode batch, it holds exactly the running requests, in the order of their
  -- uids.
  pub schedule_next_batch_lem :
      (d : DecodeManager) (reqs : List ℕ)
      → schedule_next_batch s d ≡ some reqs
      → IsSorted s reqs × ((r : ℕ) → elem r reqs ≡ elem r d.running_reqs)
  unfolding schedule_next_batch runnable
  schedule_next_batch_lem d reqs h =
      let e : sort_by_uid s d.running_reqs ≡ reqs = ground arith in
      subst (λ l. IsSorted s l × ((r : ℕ) → elem r l ≡ elem r d.running_reqs)) e
        (sort_by_uid-IsSorted d.running_reqs, λ r. elem-sort_by_uid r d.running_reqs)
