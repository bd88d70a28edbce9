-- ===== src/Radix/Walk.antt =====
-- `_tree_walk` and `match_prefix` (radix_cache.py): what the walk finds, and what it keeps.
use flash_kvmo_e.Base.{
  none, ==_ne, false, ==_iff, true, Option-cases, inl, inr, Bool-cases, ℕ, zero, suc, ◌+◌, ◌<◌, ◌≡◌,
  refl, ◌∙◌, some, List, [], arith, length, drop, ok, ltb, ◌==◌,
}
use native.Mathlib.Nat.{zero-mod}
use flash_kvmo_e.Utils.{align_down}
use flash_kvmo_e.Radix.{
  Radix, Handle, key_fn, touch, get_match_len, split_at, walk_from, tree_walk, match_prefix,
}
use flash_kvmo_e.Radix.Round.{
  Found-split_stuck, Found-split, split_at-child, Found-child, Found, page-le-match_len,
}
use flash_kvmo_e.Radix.Dict.{get}
use flash_kvmo_e.Radix.Tree.{at_root, IsRadix}

-- One round that goes on, and one that splits.
module _ (r : Radix) (fuel : ℕ) (ids : List ℕ) (u n c tic : ℕ) (more : ltb n (length ids) ≡ true)
    (hit : get (key_fn r.page_size (drop n ids)) (r.node u).children ≡ some c) where
  abbrev m : ℕ
  m = align_down (get_match_len r c (drop n ids)) r.page_size

  walk_from-whole :
      (m == length (r.node c).key) ≡ true
      → walk_from (suc fuel) ids tic u n r ≡ walk_from fuel ids tic c (n + m) (touch c tic r)
  unfolding walk_from
  walk_from-whole whole = rw (more, hit, whole, walk_from) refl

  walk_from-part :
      (v : ℕ) (s : Radix)
      → (m == length (r.node c).key) ≡ false
      → split_at c m tic r ≡ ok (v, s)
      → walk_from (suc fuel) ids tic u n r ≡ ok (v, n + m, touch v tic s)
  unfolding walk_from
  walk_from-part v s part run = rw (more, hit, part, run, walk_from) refl

-- No child of the node goes on with the next page.
abbrev pub Stuck : List ℕ → ℕ → ℕ → Radix → Type 0
Stuck ids u n r = n < length ids → get (key_fn r.page_size (drop n ids)) (r.node u).children ≡ none

-- Enough rounds are allowed, and no assert fails.
walk_from-Found :
    (b r : Radix) (fuel : ℕ) (ids : List ℕ) (u n tic : ℕ)
    → Found b ids u n r
    → length ids < n + fuel
    → (u' n' : ℕ) × (r' : Radix) × (walk_from fuel ids tic u n r ≡ ok (u', n', r'))
      × Found b ids u' n' r'
      × Stuck ids u' n' r'
unfolding walk_from
walk_from-Found b r zero ids u n tic f h = absurd (omega (arith, f.bounded))
walk_from-Found b r (suc fuel) ids u n tic f h = elim (Bool-cases (ltb n (length ids))) [
  | inr done ↦ (u, n, r, rw (done, walk_from) refl, f, λ lt. absurd (ground arith))
  | inl more ↦ elim (Option-cases (get (key_fn r.page_size (drop n ids)) (r.node u).children)) [
    | inl miss ↦ (u, n, r, rw (more, miss, walk_from) refl, f, λ _. miss)
    | inr (c, hit) ↦
        elim (Bool-cases
          (align_down (get_match_len r c (drop n ids)) r.page_size == length (r.node c).key)) [
            | inl whole ↦
                let same = (==_iff _ _).0 whole in
                let (u', n', r', run, g, stuck) =
                  walk_from-Found b (touch c tic r) fuel ids c
                    (n + align_down (get_match_len r c (drop n ids)) r.page_size) tic
                    (Found-child b r ids u n c tic f hit same) (next_fuel c hit) in
                (u', n', r', walk_from-whole r fuel ids u n c tic more hit whole ∙ run, g, stuck)
            | inr part ↦
                let ne = ==_ne _ _ part in
                (
                  r.counter,
                  n + align_down (get_match_len r c (drop n ids)) r.page_size,
                  _,
                  walk_from-part r fuel ids u n c tic more hit r.counter _ part
                      (split_at-child b r ids u n c tic f hit ne),
                  Found-split b r ids u n c tic f hit ne,
                  λ _. Found-split_stuck b r ids u n c tic f hit ne,
                )
          ]
  ]
]
  where
    next_fuel :
        (c : ℕ)
        → get (key_fn r.page_size (drop n ids)) (r.node u).children ≡ some c
        → length ids < n + align_down (get_match_len r c (drop n ids)) r.page_size + fuel
    next_fuel c hit = omega (arith, page-le-match_len b r ids u n c tic f hit, f.tree.page_pos)

Found-start : (r : Radix) (ids : List ℕ) → IsRadix r → Found r ids 0 0 r
Found-start r ids t = record {
  tree = t;
  bounded = omega arith;
  paged = zero-mod r.page_size;
  indices = [];
  spelled = at_root t.root t.root_bound;
  counted = refl;
  page = refl;
  evictable = refl;
  protected = refl;
  kept = λ v ks vs h. h;
}

pub tree_walk-Found :
    (r : Radix) (ids : List ℕ) (tic : ℕ)
    → IsRadix r
    → (u n : ℕ) × (r' : Radix) × (tree_walk ids tic r ≡ ok (u, n, r'))
      × Found r ids u n r'
      × Stuck ids u n r'
unfolding tree_walk
tree_walk-Found r ids tic t =
    walk_from-Found r r (suc (length ids)) ids 0 0 tic (Found-start r ids t) (omega arith)

-- `match_prefix` on a radix tree never fails. The handle's node stands for the first `cached_len`
-- ids, whole pages of them, with as many indices; the tree is a radix tree again, its sizes are
-- unchanged, and every node that stood for some ids and indices, such as that of an older handle,
-- still stands for them.
pub match_prefix-Found :
    (r : Radix) (ids : List ℕ) (tic : ℕ)
    → IsRadix r
    → (h : Handle) × (r' : Radix) × (match_prefix ids tic r ≡ ok (h, r'))
      × Found r ids h.node h.cached_len r'
unfolding match_prefix
match_prefix-Found r ids tic t =
    let (u, n, r', run, f, _) = tree_walk-Found r ids tic t in
    (record { cached_len = n; node = u }, r', rw run refl, f)
