-- ===== src/KvCache/Radix.antt =====
-- `RadixPrefixCache` behind the interface.
use flash_kvmo_e.Utils.{mod-add}
use native.Mathlib.Nat.{zero-mod}
use flash_kvmo_e.Base.{
  leb, ◌==◌, inl, inr, ltb, Bool-cases, ℕ, zero, suc, ◌+◌, ◌%◌, ◌≤◌, ◌≡◌, ok, List, [], ◌∷◌, ◌++◌,
  length, arith, >>=-eq-ok, length-append,
}
use flash_kvmo_e.Radix.{Radix, Handle, match_prefix, insert_prefix}
use flash_kvmo_e.Radix.Lock.{lock_handle, get_matched_indices, cat}
use flash_kvmo_e.Radix.Evict.{collect_leave_nodes_for_evict, heappop, evict, evict_loop, evict_node}
use flash_kvmo_e.KvCache.Interface.{PrefixCache, EvictLaw}

abbrev pub radix_cache : PrefixCache
radix_cache = record {
  Cache = Radix;
  Handle = Handle;
  cached_len = λ h. h.cached_len;
  get_matched_indices = get_matched_indices;
  lock_handle = lock_handle;
  match_prefix = match_prefix;
  insert_prefix = insert_prefix;
  evict = evict;
  evictable_size = λ c. c.evictable_size;
  protected_size = λ c. c.protected_size;
}

-- Every node has a slot for each id of its key, and whole pages of them.
pub record HasPages (page_size : ℕ) (r : Radix) : Type 0 where
  pub valued : (u : ℕ) → length (r.node u).value ≡ length (r.node u).key
  pub paged : (u : ℕ) → length (r.node u).key % page_size ≡ 0

abbrev sizes : List (List ℕ) → ℕ
sizes [] = 0
sizes (x ∷ xs) = length x + sizes xs

sizes-append : (xs : List (List ℕ)) (x : List ℕ) → sizes (xs ++ x ∷ []) ≡ sizes xs + length x
sizes-append [] x = omega arith
sizes-append (y ∷ ys) x = omega (arith, sizes-append ys x)

length-cat : (xs : List (List ℕ)) (out : List ℕ) → cat xs ≡ ok out → length out ≡ sizes xs
unfolding cat
length-cat [] out h = cc
length-cat (x ∷ []) out h = ground arith
length-cat (x ∷ y ∷ xs) out h =
    let (rest, run, e) = >>=-eq-ok (cat (y ∷ xs)) _ h in
    ground (arith, length-cat (y ∷ xs) rest run, length-append x rest)

record Evicted (size : ℕ) (page_size : ℕ) (evicted : List (List ℕ)) (before after : Radix)
    : Type 0 where
  enough : size ≤ sizes evicted
  paged : sizes evicted % page_size ≡ 0
  taken : after.evictable_size + sizes evicted ≡ before.evictable_size
  protected : after.protected_size ≡ before.protected_size

-- What one eviction changes.
evict_node_lem :
    (page_size u parent : ℕ) (r r' : Radix)
    → HasPages page_size r
    → evict_node u r ≡ ok (parent, r')
    → HasPages page_size r'
      × (r'.evictable_size + length (r.node u).key ≡ r.evictable_size)
      × (r'.protected_size ≡ r.protected_size)
unfolding evict_node
evict_node_lem page_size u parent r r' h e = (
  record { valued = λ v. ground (arith, h.valued v); paged = λ v. ground (arith, h.paged v) },
  ground arith,
  ground arith,
)

evict_loop_lem :
    (page_size fuel size done : ℕ) (heap : List ℕ) (evicted : List (List ℕ)) (r : Radix)
    (out : List (List ℕ)) (r' : Radix)
    → HasPages page_size r
    → done ≡ sizes evicted
    → sizes evicted % page_size ≡ 0
    → evict_loop fuel size done heap evicted r ≡ ok (out, r')
    → (size ≤ sizes out)
      × (sizes out % page_size ≡ 0)
      × (r'.evictable_size + sizes out ≡ r.evictable_size + sizes evicted)
      × (r'.protected_size ≡ r.protected_size)
unfolding evict_loop
evict_loop_lem page_size zero size done heap evicted r out r' h d m e = absurd (ground arith)
evict_loop_lem page_size (suc fuel) size done [] evicted r out r' h d m e =
    (ground arith, ground arith, ground arith, ground arith)
evict_loop_lem page_size (suc fuel) size done (v ∷ heap) evicted r out r' h d m e =
    elim (Bool-cases (ltb done size)) [
      | inr stop ↦ (ground arith, ground arith, ground arith, ground arith)
      | inl go ↦
          let popped = heappop (λ w. (r.node w).timestamp) v heap in
          let u = popped.0 in
          let ((parent, s), run, rest) = >>=-eq-ok (evict_node u r) _ (rw (go, evict_loop) at e) in
          let (pages, taken, same) = evict_node_lem page_size u parent r s h run in
          let (a, b, c, p) =
            evict_loop_lem page_size fuel size (done + length (r.node u).key) _
              (evicted ++ (r.node u).value ∷ []) s out r' pages
              (omega (arith, d, sizes-append evicted (r.node u).value, h.valued u))
              (rw (sizes-append, h.valued) (mod-add _ _ _ m (h.paged u))) rest in
          (
            a,
            b,
            omega (arith, c, taken, sizes-append evicted (r.node u).value, h.valued u),
            omega (arith, p, same),
          )
    ]

-- On a cache whose nodes have a slot for each id and whole pages of them, an eviction that
-- returns gives at least as many indices as asked for, in whole pages, takes exactly as many off
-- `evictable_size`, and leaves `protected_size`.
pub radix_evict_lem :
    (page_size size : ℕ) (r : Radix) (indices : List ℕ) (r' : Radix)
    → HasPages page_size r
    → evict size r ≡ ok (indices, r')
    → (size ≤ length indices)
      × (length indices % page_size ≡ 0)
      × (r'.evictable_size + length indices ≡ r.evictable_size)
      × (r'.protected_size ≡ r.protected_size)
unfolding evict
radix_evict_lem page_size size r indices r' h e = elim (Bool-cases (size == 0)) [
  | inl nothing ↦ (ground arith, ground (arith, zero-mod page_size), ground arith, ground arith)
  | inr some_size ↦ elim (Bool-cases (leb size r.evictable_size)) [
    | inr refused ↦ absurd (ground arith)
    | inl allowed ↦
        let body = rw (some_size, allowed) at e in
        let (leaves, found, e1) = >>=-eq-ok (collect_leave_nodes_for_evict r) _ body in
        let ((out, s), run, e2) = >>=-eq-ok (evict_loop (suc size) size 0 leaves [] r) _ e1 in
        let (slots, joined, e3) = >>=-eq-ok (cat out) _ e2 in
        let (a, b, c, p) =
          evict_loop_lem page_size (suc size) size 0 leaves [] r out s h (omega arith)
            (zero-mod page_size) run in
        let n = length-cat out slots joined in
        (ground (arith, n, a), ground (arith, n, b), ground (arith, n, c), ground (arith, p))
  ]
]

-- The radix cache fills the law that the cache manager relies on.
pub radix_evict_law : (page_size : ℕ) → EvictLaw radix_cache page_size
radix_evict_law page_size = record {
  Valid = HasPages page_size;
  evict_lem = radix_evict_lem page_size;
}
