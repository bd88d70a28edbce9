-- ===== src/Radix/Insert.antt =====
-- `insert_prefix` (radix_cache.py): a new leaf for what the walk did not find.
use flash_kvmo_e.Base.{
  ℕ, suc, ◌+◌, ◌%◌, ◌<◌, ◌≤◌, ◌≡◌, sym, fun_ext, subst, none, some, List, [], ◌++◌, arith, length,
  take, ◌==◌, if◌then◌else◌, Bool-cases, inl, inr, ids_eq, ids_eq_iff,
}
use native.Mathlib.Decide.{ℕ_discrete}
use flash_kvmo_e.Utils.{align_down}
use flash_kvmo_e.Radix.{Radix, Handle, key_fn, modify, new_node, set_parent}
use flash_kvmo_e.Radix.Dict.{get, put, get-put}
use flash_kvmo_e.Radix.Shape.{Shape, shape}
use flash_kvmo_e.Radix.Tree.{IsChild, IsTree, Spells, at_root, below, below_eq, IsRadix, StandsFor}

-- The tree with a new leaf `n` below `u`.
abbrev pub insert_shape : (ℕ → Shape) → ℕ → ℕ → ℕ → List ℕ → List ℕ → ℕ → Shape
insert_shape t page n u key value v =
    if n == v
    then record { children = []; parent = some u; key = key; value = value }
    else if u == v
    then record (t u) { children = put (key_fn page key) n (t u).children }
    else t v

module _ (t : ℕ → Shape) (page n u : ℕ) (key value : List ℕ) (tree : IsTree t page n)
    (u_old : u < n) (free_page : get (key_fn page key) (t u).children ≡ none)
    (some_ids : 0 < length key) (paged : length key % page ≡ 0)
    (valued : length value ≡ length key) where
  abbrev t' : ℕ → Shape
  t' = insert_shape t page n u key value

  kept_child : {q d : ℕ} {j : List ℕ} → IsChild t page n q j d → IsChild t' page (suc n) q j d
  kept_child {q} {d} {j} h = record {
    bound = omega (arith, h.bound);
    parent = ground (arith, h.bound, h.parent);
    first = ground (arith, h.bound, h.first);
    some_ids = ground (arith, h.bound, h.some_ids);
    paged = ground (arith, h.bound, h.paged);
    valued = ground (arith, h.bound, h.valued);
  }

  leaf : IsChild t' page (suc n) u (key_fn page key) n
  leaf = record {
    bound = omega arith;
    parent = ground arith;
    first = ground arith;
    some_ids = ground arith;
    paged = ground arith;
    valued = ground arith;
  }

  child_below :
      (j : List ℕ) (d : ℕ)
      → get j (put (key_fn page key) n (t u).children) ≡ some d
      → IsChild t' page (suc n) u j d
  child_below j d h = elim (Bool-cases (ids_eq (key_fn page key) j)) [
    | inl e ↦
        let page_same = (ids_eq_iff (key_fn page key) j).0 e in
        let same : d ≡ n = ground (arith, get-put (key_fn page key) j n (t u).children) in
        subst (λ x. IsChild t' page (suc n) u j x) (sym same)
          (subst (λ x. IsChild t' page (suc n) u x n) page_same leaf)
    | inr e ↦
        kept_child
          (tree.child u j d u_old (ground (arith, get-put (key_fn page key) j n (t u).children)))
  ]

  pub IsTree-insert : IsTree t' page (suc n)
  unfolding get
  IsTree-insert = record {
    page_pos = tree.page_pos;
    root_bound = omega arith;
    root = ground (arith, tree.root, tree.root_bound);
    child = λ q j d bound h. elim (ℕ_discrete n q) [
      | yes new ↦ absurd (ground arith)
      | no old ↦ elim (ℕ_discrete u q) [
        | yes same ↦
            subst (λ x. IsChild t' page (suc n) x j d) same (child_below j d (ground arith))
        | no ne ↦ kept_child (tree.child q j d (omega arith) (ground arith))
      ]
    ];
  }

  pub Spells-insert :
      {v : ℕ} {ids indices : List ℕ} → Spells t n v ids indices → Spells t' (suc n) v ids indices
  Spells-insert {v} (at_root e b) = at_root (ground arith) (omega arith)
  Spells-insert {v} (below {p = q} {ids = ids} {indices = indices} e b s) =
      below_eq {p = q} (ground arith) (omega arith) (Spells-insert s) (ground arith) (ground arith)

  pub Spells-leaf :
      {ids indices : List ℕ}
      → Spells t n u ids indices
      → Spells t' (suc n) n (ids ++ key) (indices ++ value)
  Spells-leaf s =
      below_eq {p = u} (ground arith) (omega arith) (Spells-insert s) (ground arith) (ground arith)

-- The state after the assignments of `insert_prefix`, with the asserts gone.
unfoldable pub inserted : ℕ → List ℕ → List ℕ → ℕ → Radix → Radix
unfolding set_parent
inserted u key value now r =
    let s =
      set_parent r.counter u
        (modify r.counter (λ x. record x { key = key; value = value }) (new_node none now r)) in
    record s { evictable_size = s.evictable_size + length (s.node r.counter).key }

pub shape-inserted :
    (u : ℕ) (key value : List ℕ) (now : ℕ) (r : Radix)
    → u < r.counter
    → shape (inserted u key value now r) ≡ insert_shape (shape r) r.page_size r.counter u key value
unfolding inserted
shape-inserted u key value now r old = fun_ext λ v. ground arith

pub evictable-inserted :
    (u : ℕ) (key value : List ℕ) (now : ℕ) (r : Radix)
    → u < r.counter
    → (inserted u key value now r).evictable_size ≡ r.evictable_size + length key
unfolding inserted
evictable-inserted u key value now r old = ground arith

-- What `insert_prefix` returns and leaves.
pub record Inserted (b : Radix) (ids : List ℕ) (n : ℕ) (h : Handle) (r : Radix) : Type 0 where
  pub tree : IsRadix r
  pub whole : h.cached_len ≡ align_down (length ids) b.page_size
  pub cached : n ≤ h.cached_len
  pub paged : n % b.page_size ≡ 0
  pub indices : List ℕ
  pub spelled : StandsFor r h.node (take h.cached_len ids) indices
  pub counted : length indices ≡ h.cached_len
  pub grown : r.evictable_size + n ≡ b.evictable_size + h.cached_len
  pub protected : r.protected_size ≡ b.protected_size
  pub page : r.page_size ≡ b.page_size
  pub kept : (v : ℕ) (ks vs : List ℕ) → StandsFor b v ks vs → StandsFor r v ks vs
