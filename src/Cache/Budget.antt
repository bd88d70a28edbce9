-- ===== src/Cache/Budget.antt =====
-- `_allocate` against `available_size` (python/minisgl/scheduler/cache.py).
use flash_kvmo_e.Utils.{sub-mul-add}
use flash_kvmo_e.Base.{
  Result, inr, leb→le, inl, ap, assertion_error, ok-injective, subst, guard-eq-ok, ℕ, zero, suc,
  ◌+◌, ◌-◌, ◌*◌, ◌/◌, ◌%◌, ◌≤◌, ◌<◌, ◌≡◌, refl, List, [], ◌∷◌, ok, >>=-eq-ok, Bool-cases, length,
  take, drop, arith, length-append, length-take, length-drop, ltb,
}
use flash_kvmo_e.KvCache.Interface.{PrefixCache, EvictLaw}
use flash_kvmo_e.Cache.{Manager, available_size, make_room, allocate}
use flash_kvmo_e.Cache.Pages.{stride_from, strided}

-- A stride over `k` skipped elements and whole pages takes one element of each page.
length-stride_from :
    (p k : ℕ) (xs : List ℕ) (n : ℕ)
    → 0 < p
    → k < p
    → length xs ≡ k + n * p
    → length (stride_from p k xs) ≡ n
unfolding stride_from
length-stride_from p k [] n pos lt e = grind arith
length-stride_from p zero (x ∷ xs) zero pos lt e = absurd (omega arith)
length-stride_from p zero (x ∷ xs) (suc n) pos lt e =
    omega (arith, length-stride_from p (p - 1) xs n pos (omega arith) (grind arith))
length-stride_from p (suc k) (x ∷ xs) n pos lt e =
    length-stride_from p k xs n pos (omega arith) (omega arith)

pub length-strided :
    (p : ℕ) (xs : List ℕ) → 0 < p → length xs % p ≡ 0 → length (strided p xs) * p ≡ length xs
unfolding strided
length-strided p xs pos h =
    let e = length-stride_from p 0 xs (length xs / p) pos (omega arith) (grind arith) in
    grind (arith, e)

module _ (P : PrefixCache) (m : Manager P) (law : EvictLaw P m.page_size) (pos : 0 < m.page_size)
    (valid : law.Valid m.prefix_cache) where
  abbrev Roomy : ℕ → Manager P → Type 0
  Roomy needed m' =
      (available_size P m' ≡ available_size P m)
      × (needed ≤ length m'.free_slots)
      × (m'.page_size ≡ m.page_size)
      × (P.protected_size m'.prefix_cache ≡ P.protected_size m.prefix_cache)

  make_room_lem : (needed : ℕ) (m' : Manager P) → make_room P needed m ≡ ok m' → Roomy needed m'
  unfolding make_room available_size
  make_room_lem needed m' h =
      let size = (needed - length m.free_slots) * m.page_size in
      let ((evicted, c), run, e) = >>=-eq-ok (P.evict size m.prefix_cache) _ h in
      let (enough, paged, taken, same) = law.evict_lem size m.prefix_cache evicted c valid run in
      let n = length-strided m.page_size evicted pos paged in
      let sum = length-append m.free_slots (strided m.page_size evicted) in
      let (test, made) = guard-eq-ok _ assertion_error _ e in
      subst (Roomy needed) (ok-injective made) (
        omega (arith, sum, n, taken, ap (λ (k : ℕ). k * m.page_size) sum),
        leb→le _ _ test,
        refl,
        same,
      )

  -- For a prefix cache that obeys the law of eviction and a positive page size: if `_allocate`
  -- returns, it hands out as many pages as were asked for, and takes their slots off the
  -- available size and nothing else, whether some had to be evicted or not; the protected size
  -- is unchanged.
  pub allocate_lem :
      (needed : ℕ) (pages : List ℕ) (m' : Manager P)
      → allocate P needed m ≡ ok (pages, m')
      → (length pages ≡ needed)
        × (available_size P m' + needed * m.page_size ≡ available_size P m)
        × (P.protected_size m'.prefix_cache ≡ P.protected_size m.prefix_cache)
  unfolding allocate available_size
  allocate_lem needed pages m' h = elim (Bool-cases (ltb (length m.free_slots) needed)) [
    | inl short ↦
        let (s, run, e) = >>=-eq-ok (make_room P needed m) _ (rw short at h) in
        let (same, room, page, kept) = make_room_lem needed s run in
        taken s pages m' e same room page kept
    | inr enough ↦ taken m pages m' (rw enough at h) refl (ground arith) refl refl
  ]
    where
      taken :
          (s : Manager P) (pages : List ℕ) (m' : Manager P)
          → ◌≡◌ {A = Result (List ℕ × Manager P)}
              (ok (take needed s.free_slots, record s { free_slots = drop needed s.free_slots }))
              (ok (pages, m'))
          → available_size P s ≡ available_size P m
          → needed ≤ length s.free_slots
          → s.page_size ≡ m.page_size
          → P.protected_size s.prefix_cache ≡ P.protected_size m.prefix_cache
          → (length pages ≡ needed)
            × (available_size P m' + needed * m.page_size ≡ available_size P m)
            × (P.protected_size m'.prefix_cache ≡ P.protected_size m.prefix_cache)
      taken s pages m' e same room page kept =
          let left : length (drop needed s.free_slots) * s.page_size + needed * m.page_size
              ≡ length s.free_slots * s.page_size =
            rw (length-drop, ← page) (sub-mul-add (length s.free_slots) needed s.page_size room) in
          let rest : P.evictable_size s.prefix_cache
                + length (drop needed s.free_slots) * s.page_size
                + needed * m.page_size
              ≡ available_size P m =
            omega (arith, left, same) in
          subst
            (λ x.
              (length x.0 ≡ needed)
              × (available_size P x.1 + needed * m.page_size ≡ available_size P m)
              × (P.protected_size x.1.prefix_cache ≡ P.protected_size m.prefix_cache))
            (ok-injective e) (omega (arith, length-take needed s.free_slots), rest, kept)
