-- ===== src/Radix/Lock.antt =====
-- `lock_handle`, the sizes, `__init__` and the indices behind a handle (radix_cache.py).
use flash_kvmo_e.Base.{
  ℕ, zero, suc, ◌+◌, ◌-◌, Bool, none, some, List, [], ◌∷◌, ◌++◌, Result, ok, raise, assertion_error,
  runtime_error, negative_size, out_of_fuel, guard, ◌>>=◌, ◌>>◌, ltb, leb, ◌==◌, if◌then◌else◌,
  length, reverse,
}
use flash_kvmo_e.Radix.{Node, Radix, Handle, modify}

-- A counter of Python's that would turn negative is reported.
unfoldable pub sub_size : ℕ → ℕ → Result ℕ
sub_size a b = do guard (leb b a) negative_size; ok (a - b)

abbrev pub root_node : Node
root_node = record {
  children = [];
  parent = none;
  ref_count = 1;
  timestamp = 0;
  key = [];
  value = [];
}

-- `__init__`. The timestamp of the root is never read.
abbrev pub init : ℕ → Radix
init page_size = record {
  page_size = page_size;
  counter = 1;
  node = λ _. root_node;
  evictable_size = 0;
  protected_size = 0;
}

unfoldable pub lock_one : ℕ → Radix → Result Radix
unfolding sub_size
lock_one u r =
    let bumped = modify u (λ x. record x { ref_count = x.ref_count + 1 }) r in
    if (r.node u).ref_count == 0
    then (do
      evictable ← sub_size r.evictable_size (length (r.node u).key)
      ok (record bumped {
        evictable_size = evictable;
        protected_size = r.protected_size + length (r.node u).key;
      }))
    else ok bumped

unfoldable pub unlock_one : ℕ → Radix → Result Radix
unfolding sub_size
unlock_one u r = do
  guard (ltb 0 (r.node u).ref_count) assertion_error
  let dropped = modify u (λ x. record x { ref_count = x.ref_count - 1 }) r
  if (r.node u).ref_count == 1
      then (do
        protected ← sub_size r.protected_size (length (r.node u).key)
        ok (record dropped {
          evictable_size = r.evictable_size + length (r.node u).key;
          protected_size = protected;
        }))
      else ok dropped

-- `while not node.is_root(): …; node = node.parent`, for either body of the loop.
unfoldable pub climb : (ℕ → Radix → Result Radix) → ℕ → ℕ → Radix → Result Radix
climb body zero u r = raise out_of_fuel
climb body (suc fuel) u r = elim (r.node u).parent [
  | none ↦ ok r
  | some p ↦ do r' ← body u r; climb body fuel p r'
]

-- A path to the root passes each node at most once.
unfoldable pub lock_handle : Handle → Bool → Radix → Result Radix
unfolding lock_one unlock_one climb
lock_handle handle unlock r =
    if unlock
    then climb unlock_one r.counter handle.node r
    else climb lock_one r.counter handle.node r

-- The values on the way to the root, the last one first.
unfoldable pub value_list : ℕ → ℕ → Radix → Result (List (List ℕ))
value_list zero u r = raise out_of_fuel
value_list (suc fuel) u r = elim (r.node u).parent [
  | none ↦ ok []
  | some p ↦ do above ← value_list fuel p r; ok ((r.node u).value ∷ above)
]

-- `torch.cat` raises on an empty list.
unfoldable pub cat : List (List ℕ) → Result (List ℕ)
cat [] = raise runtime_error
cat (x ∷ []) = ok x
cat (x ∷ y ∷ xs) = do rest ← cat (y ∷ xs); ok (x ++ rest)

unfoldable pub get_matched_indices : Handle → Radix → Result (List ℕ)
unfolding value_list cat
get_matched_indices handle r = do values ← value_list r.counter handle.node r; cat (reverse values)

pub record SizeInfo : Type 0 where
  pub evictable_size : ℕ
  pub protected_size : ℕ

unfoldable pub size_info : Radix → SizeInfo
size_info r = record { evictable_size = r.evictable_size; protected_size = r.protected_size }

unfoldable pub total_size : SizeInfo → ℕ
total_size s = s.evictable_size + s.protected_size
