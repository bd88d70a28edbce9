-- ===== src/Radix/Tests.antt =====
-- Runs of the radix cache on small inputs, and the theorems at them.
use flash_kvmo_e.Base.{
  All, zero, suc, suc, inr, subst, ids_eq_iff, inl, Bool-cases, some, ◌%◌, ◌-◌, length, total, ◌≤◌,
  ◌<◌, arith, raise, ids_eq, ◌+◌, ℕ, ◌≡◌, refl, true, false, List, [], ◌∷◌, Result, ok, ◌>>=◌,
}
use flash_kvmo_e.Utils.{align_down}
use flash_kvmo_e.Radix.{Radix, Handle, set_parent, match_prefix, insert_prefix}
use flash_kvmo_e.Radix.Dict.{get, put}
use flash_kvmo_e.Radix.Shape.{shape, WayUp, root, up, in_tree, ref_counts}
use flash_kvmo_e.Radix.Sizes.{Accounted, SameTree, locked}
use flash_kvmo_e.Radix.Tree.{IsChild, IsRadix}
use flash_kvmo_e.Radix.Round.{Found}
use flash_kvmo_e.Radix.Walk.{match_prefix-Found}
use flash_kvmo_e.Radix.Insert.{Inserted, inserted}
use flash_kvmo_e.Radix.Inserting.{insert_prefix-Inserted}
use flash_kvmo_e.Radix.Accounting.{
  visits, lock_handle-Accounted, unlock_handle-Accounted, unlock_handle-lock_handle,
}
use flash_kvmo_e.KvCache.Radix.{HasPages, radix_evict_lem}
use flash_kvmo_e.Radix.Lock.{init, lock_handle, get_matched_indices}
use flash_kvmo_e.Radix.Evict.{evict}

program : Unit {0}
unfolding match_prefix insert_prefix lock_handle get_matched_indices evict align_down
program = tt

-- 1 2 3 4 is inserted, 1 2 5 splits it; the handle of the first is locked.
script : Result (List ℕ × List ℕ × ℕ × ℕ)
unfolding program
script = do
  (_, h, a) ← insert_prefix (1 ∷ 2 ∷ 3 ∷ 4 ∷ []) (11 ∷ 12 ∷ 13 ∷ 14 ∷ []) 5 6 (init 1)
  b ← lock_handle h false a
  (n, g, c) ← insert_prefix (1 ∷ 2 ∷ 5 ∷ []) (21 ∷ 22 ∷ 23 ∷ []) 7 8 b
  found ← get_matched_indices h c
  (gone, d) ← evict 1 c
  e ← lock_handle h true d
  ok (found, gone, e.evictable_size, e.protected_size)

script-run : script ≡ ok (11 ∷ 12 ∷ 13 ∷ 14 ∷ [], 23 ∷ [], 4, 0)
unfolding script
script-run = refl

-- A tree with one leaf below the root, as the insertion of 1 2 with the slots 11 12 leaves it.
abbrev leaf_tree : Radix
leaf_tree = inserted 0 (1 ∷ 2 ∷ []) (11 ∷ 12 ∷ []) 6 (init 1)

abbrev leaf : Handle
leaf = record { cached_len = 2; node = 1 }

init-IsRadix : IsRadix (init 1)
unfolding get
init-IsRadix = record {
  page_pos = omega arith;
  root_bound = omega arith;
  root = refl;
  child = λ p k c lt e. absurd (ground arith);
}

insert_prefix-Inserted_example :
    (n : ℕ) × (h : Handle) × (r' : Radix) × (insert_prefix (1 ∷ 2 ∷ []) (11 ∷ 12 ∷ []) 5 6 (init 1)
      ≡ ok (n, h, r'))
    × Inserted (init 1) (1 ∷ 2 ∷ []) n h r'
insert_prefix-Inserted_example =
    insert_prefix-Inserted (init 1) (1 ∷ 2 ∷ []) (11 ∷ 12 ∷ []) 5 6 init-IsRadix (omega arith)

leaf_tree-child :
    (p : ℕ) (k : List ℕ) (c : ℕ)
    → p < 2
    → get k (shape leaf_tree p).children ≡ some c
    → IsChild (shape leaf_tree) 1 2 p k c
unfolding get put ids_eq inserted set_parent
leaf_tree-child zero k c lt e = elim (Bool-cases (ids_eq (1 ∷ []) k)) [
  | inl e1 ↦
      let same = (ids_eq_iff (1 ∷ []) k).0 e1 in
      let one : 1 ≡ c = ground arith in
      subst (λ x. IsChild (shape leaf_tree) 1 2 0 k x) one
        (subst (λ j. IsChild (shape leaf_tree) 1 2 0 j 1) same
          (record {
            bound = omega arith;
            parent = refl;
            first = refl;
            some_ids = omega arith;
            paged = refl;
            valued = refl;
          }))
  | inr e2 ↦ absurd (ground arith)
]
leaf_tree-child (suc zero) k c lt e = absurd (ground arith)
leaf_tree-child (suc (suc p)) k c lt e = absurd (omega arith)

leaf_tree-IsRadix : IsRadix leaf_tree
unfolding get put inserted set_parent
leaf_tree-IsRadix = record {
  page_pos = omega arith;
  root_bound = omega arith;
  root = refl;
  child = leaf_tree-child;
}

leaf_tree-Accounted : Accounted leaf_tree
unfolding inserted set_parent total in_tree put get ids_eq
leaf_tree-Accounted = record { evictable = refl; protected = refl }

leaf-WayUp : WayUp leaf_tree 1 (1 ∷ [])
unfolding inserted set_parent put get ids_eq in_tree
leaf-WayUp = up {p = 0} refl (omega arith) refl (root refl)

leaf_tree-counter : length {A = ℕ} (1 ∷ []) < leaf_tree.counter
unfolding inserted set_parent
leaf_tree-counter = omega arith

lock_handle-Accounted_example :
    (r' : Radix) × (lock_handle leaf false leaf_tree ≡ ok r')
    × SameTree leaf_tree r'
    × Accounted r'
    × ((v : ℕ) → ref_counts r' v ≡ ref_counts leaf_tree v + visits (1 ∷ []) v)
lock_handle-Accounted_example =
    lock_handle-Accounted leaf_tree leaf (1 ∷ []) leaf-WayUp leaf_tree-counter leaf_tree-Accounted

unlock_handle-lock_handle_example :
    (lock_handle leaf false leaf_tree >>= lock_handle leaf true) ≡ ok leaf_tree
unlock_handle-lock_handle_example =
    unlock_handle-lock_handle leaf_tree leaf (1 ∷ []) leaf-WayUp leaf_tree-counter
      leaf_tree-Accounted

-- The leaf is locked once.
abbrev locked_tree : Radix
locked_tree = locked 1 leaf_tree

locked_tree-Accounted : Accounted locked_tree
unfolding locked inserted set_parent total in_tree put get ids_eq
locked_tree-Accounted = record { evictable = refl; protected = refl }

locked-WayUp : WayUp locked_tree 1 (1 ∷ [])
unfolding locked inserted set_parent put get ids_eq in_tree
locked-WayUp = up {p = 0} refl (omega arith) refl (root refl)

locked_tree-counter : length {A = ℕ} (1 ∷ []) < locked_tree.counter
unfolding locked inserted set_parent
locked_tree-counter = omega arith

locked_tree-held : All (λ v. 0 < ref_counts locked_tree v) (1 ∷ [])
unfolding locked inserted set_parent
locked_tree-held = (omega arith, tt)

unlock_handle-Accounted_example :
    (r' : Radix) × (lock_handle leaf true locked_tree ≡ ok r')
    × SameTree locked_tree r'
    × Accounted r'
    × ((v : ℕ) → ref_counts r' v ≡ ref_counts locked_tree v - visits (1 ∷ []) v)
unlock_handle-Accounted_example =
    unlock_handle-Accounted locked_tree leaf (1 ∷ []) locked-WayUp locked_tree-counter
      locked_tree-held locked_tree-Accounted

match_prefix-Found_example :
    (h : Handle) × (r' : Radix) × (match_prefix (1 ∷ 3 ∷ []) 7 leaf_tree ≡ ok (h, r'))
    × Found leaf_tree (1 ∷ 3 ∷ []) h.node h.cached_len r'
match_prefix-Found_example = match_prefix-Found leaf_tree (1 ∷ 3 ∷ []) 7 leaf_tree-IsRadix

mod-one : (n : ℕ) → n % 1 ≡ 0
mod-one n = grind arith

leaf_tree-HasPages : HasPages 1 leaf_tree
unfolding inserted set_parent
leaf_tree-HasPages = record { valued = λ u. ground arith; paged = λ u. mod-one _ }

-- Evicting one id takes the whole leaf.
abbrev bare_tree : Radix
bare_tree = elim (evict 1 leaf_tree) [ ok (_, r) ↦ r | raise _ ↦ init 1 ]

evict-leaf : evict 1 leaf_tree ≡ ok (11 ∷ 12 ∷ [], bare_tree)
unfolding program inserted set_parent
evict-leaf = refl

radix_evict_lem_example :
    (1 ≤ length {A = ℕ} (11 ∷ 12 ∷ []))
    × (length {A = ℕ} (11 ∷ 12 ∷ []) % 1 ≡ 0)
    × (bare_tree.evictable_size + length {A = ℕ} (11 ∷ 12 ∷ []) ≡ leaf_tree.evictable_size)
    × (bare_tree.protected_size ≡ leaf_tree.protected_size)
radix_evict_lem_example =
    radix_evict_lem 1 1 leaf_tree (11 ∷ 12 ∷ []) bare_tree leaf_tree-HasPages evict-leaf
