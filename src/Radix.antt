-- ===== src/Radix.antt =====
-- The radix prefix cache (python/minisgl/kvcache/radix_cache.py). Nodes are objects that handles
-- and parents share, so they live in a store: `node u` is the object with uuid `u`, `counter` the
-- next uuid, and the root has uuid 0. Tensors are lists, and a child dictionary is the list of its
-- items. `RadixTreeNode.length` is the length of the key, which `set_key_value` sets beside it.
pub mod Dict
pub mod Lock
pub mod Evict
pub mod Shape
pub mod Sizes
pub mod Steps
pub mod Accounting
pub mod Compare
pub mod Tree
pub mod Split
pub mod Splitting
pub mod Round
pub mod Walk
pub mod Insert
pub mod Inserting
pub mod Tests
use Dict.{get, put}
use flash_kvmo_e.Base.{
  ℕ, zero, suc, ◌+◌, ◌-◌, Bool, true, false, ◌&&◌, Option, none, some, List, [], ◌∷◌, ◌++◌, Result,
  ok, raise, assertion_error, runtime_error, negative_size, out_of_fuel, guard, ◌>>=◌, ◌>>◌, ltb,
  leb, ◌==◌, if◌then◌else◌, length, take, drop,
}
use flash_kvmo_e.Utils.{align_down}

pub record Node : Type 0 where
  pub children : List (List ℕ × ℕ)
  pub parent : Option ℕ
  pub ref_count : ℕ
  pub timestamp : ℕ
  pub key : List ℕ
  pub value : List ℕ

pub record Radix : Type 0 where
  pub page_size : ℕ
  pub counter : ℕ
  pub node : ℕ → Node
  pub evictable_size : ℕ
  pub protected_size : ℕ

pub record Handle : Type 0 where
  pub cached_len : ℕ
  pub node : ℕ

abbrev pub update : (ℕ → Node) → ℕ → Node → ℕ → Node
update f u x v = if u == v then x else f v

abbrev pub modify : ℕ → (Node → Node) → Radix → Radix
modify u f r = record r { node = update r.node u (f (r.node u)) }

-- `_get_key_fn`: the first page of the ids. At page size 1 it is the first id.
abbrev pub key_fn : ℕ → List ℕ → List ℕ
key_fn page_size x = take page_size x

-- `tic or time.monotonic_ns()`; the key and value are set by the caller.
abbrev pub new_node : Option ℕ → ℕ → Radix → Radix
new_node tic now r = record r {
  counter = suc r.counter;
  node = update r.node r.counter (record {
    children = [];
    parent = none;
    ref_count = 0;
    timestamp = elim tic [ none ↦ now | some t ↦ if t == 0 then now else t ];
    key = [];
    value = [];
  });
}

unfoldable pub set_key_value : ℕ → List ℕ → List ℕ → Radix → Result Radix
set_key_value u key value r = do
  guard (length key == length value) assertion_error
  ok (modify u (λ x. record x { key = key; value = value }) r)

unfoldable pub set_parent : ℕ → ℕ → Radix → Radix
unfolding put
set_parent u p r =
    let r' = modify u (λ x. record x { parent = some p }) r in
    modify p (λ x. record x { children = put (key_fn r.page_size (r'.node u).key) u x.children }) r'

-- The `parent` property.
abbrev pub get_parent : Option ℕ → Result ℕ
get_parent none = raise assertion_error
get_parent (some p) = ok p

-- `fast_compare_key`: the first position at which the sequences differ.
unfoldable pub fast_compare_key : List ℕ → List ℕ → ℕ
fast_compare_key (x ∷ xs) (y ∷ ys) = if x == y then suc (fast_compare_key xs ys) else 0
fast_compare_key _ _ = 0

abbrev pub get_match_len : Radix → ℕ → List ℕ → ℕ
get_match_len r u ids = fast_compare_key (r.node u).key ids

-- The upper part of the node becomes a new node, which takes its place below the parent.
unfoldable pub split_at : ℕ → ℕ → ℕ → Radix → Result (ℕ × Radix)
unfolding set_key_value set_parent
split_at u pos now r = do
  guard (ltb 0 pos && ltb pos (length (r.node u).key)) assertion_error
  parent ← get_parent (r.node u).parent
  r1 ←
      set_key_value r.counter (take pos (r.node u).key) (take pos (r.node u).value)
        (new_node (some (r.node u).timestamp) now r)
  let r2 = set_parent r.counter parent r1
  let r3 = modify r.counter (λ x. record x { ref_count = (r.node u).ref_count }) r2
  r4 ← set_key_value u (drop pos (r.node u).key) (drop pos (r.node u).value) r3
  ok (r.counter, set_parent u r.counter r4)

abbrev pub touch : ℕ → ℕ → Radix → Radix
touch u tic = modify u (λ x. record x { timestamp = tic })

-- The loop of `_tree_walk`, at the node `u` with `prefix_len` ids matched. `tic` is the reading
-- of the clock at its start.
unfoldable pub walk_from : ℕ → List ℕ → ℕ → ℕ → ℕ → Radix → Result (ℕ × ℕ × Radix)
unfolding split_at fast_compare_key get
walk_from zero ids tic u prefix_len r = raise out_of_fuel
walk_from (suc fuel) ids tic u prefix_len r =
    let rest = drop prefix_len ids in
    elim (ltb prefix_len (length ids)) [
      | false ↦ ok (u, prefix_len, r)
      | true ↦ elim (get (key_fn r.page_size rest) (r.node u).children) [
        | none ↦ ok (u, prefix_len, r)
        | some child ↦
            let match_len = align_down (get_match_len r child rest) r.page_size in
            elim (match_len == length (r.node child).key) [
              | true ↦ walk_from fuel ids tic child (prefix_len + match_len) (touch child tic r)
              | false ↦ do
                (upper, r') ← split_at child match_len tic r
                ok (upper, prefix_len + match_len, touch upper tic r')
            ]
      ]
    ]

-- One round more than there are ids: each round matches a page or returns.
unfoldable pub tree_walk : List ℕ → ℕ → Radix → Result (ℕ × ℕ × Radix)
unfolding walk_from
tree_walk ids tic r = walk_from (suc (length ids)) ids tic 0 0 r

unfoldable pub match_prefix : List ℕ → ℕ → Radix → Result (Handle × Radix)
unfolding tree_walk
match_prefix ids tic r = do
  (u, prefix_len, r') ← tree_walk ids tic r
  ok (record { cached_len = prefix_len; node = u }, r')

-- What `insert_prefix` does once the walk has come to `u`. `now` is the reading of the clock in the
-- constructor of the new node.
unfoldable pub insert_rest : ℕ → List ℕ → List ℕ → ℕ → ℕ → ℕ → Radix → Result (ℕ × Handle × Radix)
unfolding set_key_value set_parent
insert_rest insert_len ids indices now u prefix_len r = elim (prefix_len == insert_len) [
  | true ↦ ok (prefix_len, record { cached_len = insert_len; node = u }, r)
  | false ↦ do
    r1 ←
        set_key_value r.counter (drop prefix_len ids) (drop prefix_len indices)
          (new_node none now r)
    let r2 = set_parent r.counter u r1
    ok (
      prefix_len,
      record { cached_len = insert_len; node = r.counter },
      record r2 { evictable_size = r2.evictable_size + length (r2.node r.counter).key },
    )
]

unfoldable pub insert_prefix : List ℕ → List ℕ → ℕ → ℕ → Radix → Result (ℕ × Handle × Radix)
unfolding tree_walk insert_rest
insert_prefix input_ids indices tic now r = do
  let insert_len = align_down (length input_ids) r.page_size
  let ids = take insert_len input_ids
  (u, prefix_len, r1) ← tree_walk ids tic r
  insert_rest insert_len ids (take insert_len indices) now u prefix_len r1
