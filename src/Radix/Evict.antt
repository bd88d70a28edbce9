-- ===== src/Radix/Evict.antt =====
-- `evict` and the search for its first candidates (radix_cache.py).
use flash_kvmo_e.Base.{
  key_error, ℕ, zero, suc, ◌+◌, Bool, true, false, not, ◌&&◌, none, some, List, [], ◌∷◌, ◌++◌,
  Result, ok, raise, assertion_error, out_of_fuel, guard, ◌>>=◌, ◌>>◌, ltb, leb, ◌==◌,
  if◌then◌else◌, length, reverse, map,
}
use flash_kvmo_e.Radix.{get, Node, Radix, modify, key_fn, get_parent}
use flash_kvmo_e.Radix.Dict.{del}
use flash_kvmo_e.Radix.Lock.{sub_size, cat}

abbrev pub is_leaf : Node → Bool
is_leaf x = elim x.children [ [] ↦ true | _ ↦ false ]

abbrev pub is_root : Node → Bool
is_root x = elim x.parent [ none ↦ true | some _ ↦ false ]

-- The stack `nodes` has its top first.
unfoldable pub collect : ℕ → List ℕ → List ℕ → Radix → Result (List ℕ)
collect fuel [] leave_nodes r = ok leave_nodes
collect zero (u ∷ nodes) leave_nodes r = raise out_of_fuel
collect (suc fuel) (u ∷ nodes) leave_nodes r =
    if is_leaf (r.node u)
    then collect fuel nodes
        (if (r.node u).ref_count == 0 then leave_nodes ++ u ∷ [] else leave_nodes) r
    else collect fuel (reverse (map (λ e. e.1) (r.node u).children) ++ nodes) leave_nodes r

unfoldable pub collect_leave_nodes_for_evict : Radix → Result (List ℕ)
unfolding collect
collect_leave_nodes_for_evict r = collect r.counter (0 ∷ []) [] r

-- `heapq.heappop` under `RadixTreeNode.__lt__`: a node with the least timestamp. Among equal
-- timestamps it takes the first, where the order of `heapq` is not specified.
unfoldable pub heappop : (ℕ → ℕ) → ℕ → List ℕ → ℕ × List ℕ
heappop time u [] = (u, [])
heappop time u (v ∷ heap) =
    let (least, rest) = heappop time v heap in
    if leb (time u) (time least) then (u, v ∷ heap) else (least, u ∷ rest)

-- `key in children`
abbrev has : List ℕ → List (List ℕ × ℕ) → Bool
has key children = elim (get key children) [ none ↦ false | some u ↦ true ]

-- The loop body from `heappop` on: the node's parent, and the cache without the node.
unfoldable pub evict_node : ℕ → Radix → Result (ℕ × Radix)
unfolding sub_size del
evict_node u r = do
  guard (((r.node u).ref_count == 0) && is_leaf (r.node u) && not (is_root (r.node u)))
      assertion_error
  evictable ← sub_size r.evictable_size (length (r.node u).key)
  parent ← get_parent (r.node u).parent
  let key = key_fn r.page_size (r.node u).key
  guard (has key (r.node parent).children) key_error
  ok (
    parent,
    record (modify parent (λ x. record x { children = del key x.children }) r) {
      evictable_size = evictable;
    },
  )

-- The `while` loop, with `leave_nodes` as the heap.
unfoldable pub evict_loop :
    ℕ → ℕ → ℕ → List ℕ → List (List ℕ) → Radix → Result (List (List ℕ) × Radix)
unfolding evict_node heappop
evict_loop zero size evicted_size leave_nodes evicted r = raise out_of_fuel
evict_loop (suc fuel) size evicted_size leave_nodes evicted r = elim (ltb evicted_size size) [
  | false ↦ ok (evicted, r)
  | true ↦ elim leave_nodes [
    | [] ↦ raise assertion_error
    | v ∷ heap ↦
        let (u, rest) = heappop (λ w. (r.node w).timestamp) v heap in
        do
          (parent, r') ← evict_node u r
          evict_loop fuel size (evicted_size + length (r.node u).key)
              (if is_leaf (r'.node parent) && ((r'.node parent).ref_count == 0)
                then parent ∷ rest
                else rest)
              (evicted ++ (r.node u).value ∷ []) r'
  ]
]

-- Each round evicts at least one id.
unfoldable pub evict : ℕ → Radix → Result (List ℕ × Radix)
unfolding collect_leave_nodes_for_evict evict_loop cat
evict size r = if size == 0 then ok ([], r) else (do
  guard (leb size r.evictable_size) assertion_error
  leave_nodes ← collect_leave_nodes_for_evict r
  (evicted, r') ← evict_loop (suc size) size 0 leave_nodes [] r
  indices ← cat evicted
  ok (indices, r'))
