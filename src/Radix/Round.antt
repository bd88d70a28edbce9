-- ===== src/Radix/Round.antt =====
-- One round of `_tree_walk` (radix_cache.py): the child that the walk finds, and what splitting it keeps.
use flash_kvmo_e.Base.{
  drop-drop, ids_eq_iff, ◌∷◌, ◌-◌, none, take_of_length-le, subst, take-add, ℕ, suc, ◌+◌, ◌%◌, ◌<◌,
  ◌≤◌, ◌≡◌, ◌≢◌, refl, sym, ◌∙◌, ap, fun_ext, some, List, [], ◌++◌, arith, length, take, drop, ok,
  length-take, length-drop, length-append,
}
use mathlib.Core.Path.{ap₂}
use flash_kvmo_e.Utils.{
  align_bounds, mod-sub, align_down, align_down-le, le-align_down, align_down-mod,
  le_of_mod-eq-zero, mod-add,
}
use flash_kvmo_e.Radix.{Radix, key_fn, touch, get_match_len, split_at}
use flash_kvmo_e.Radix.Dict.{get}
use flash_kvmo_e.Radix.Compare.{fast_compare_key-le, take-fast_compare_key, le-fast_compare_key}
use flash_kvmo_e.Radix.Shape.{Shape, shape}
use flash_kvmo_e.Radix.Tree.{
  IsChild, IsTree, Spells, below_eq, Spells-bound, Spells-ne_parent, IsRadix, StandsFor,
}
use flash_kvmo_e.Radix.Split.{splitted, split_shape, shape-splitted, split_at-splitted}
use flash_kvmo_e.Radix.Splitting.{IsTree-split, Spells-split}

-- The walk has come to `u` with `n` of the ids matched; `b` is the cache before it.
pub record Found (b : Radix) (ids : List ℕ) (u n : ℕ) (r : Radix) : Type 0 where
  pub tree : IsRadix r
  pub bounded : n ≤ length ids
  pub paged : n % r.page_size ≡ 0
  pub indices : List ℕ
  pub spelled : StandsFor r u (take n ids) indices
  pub counted : length indices ≡ n
  pub page : r.page_size ≡ b.page_size
  pub evictable : r.evictable_size ≡ b.evictable_size
  pub protected : r.protected_size ≡ b.protected_size
  pub kept : (v : ℕ) (ks vs : List ℕ) → StandsFor b v ks vs → StandsFor r v ks vs

shape-touch : (u tic : ℕ) (r : Radix) → shape (touch u tic r) ≡ shape r
shape-touch u tic r = fun_ext λ v. ground arith

-- A cache with the shape of one that the walk has come to.
Found-shape :
    {b r s : Radix} {ids : List ℕ} {u n : ℕ}
    → Found b ids u n r
    → shape s ≡ shape r
    → s.page_size ≡ r.page_size
    → s.counter ≡ r.counter
    → s.evictable_size ≡ r.evictable_size
    → s.protected_size ≡ r.protected_size
    → Found b ids u n s
Found-shape {b} {r} {s} {ids} {u} {n} f e page counter ev pr = record {
  tree =
      subst (λ t. IsTree t s.page_size s.counter) (sym e)
        (subst (λ p. IsTree (shape r) p s.counter) (sym page)
          (subst (λ c. IsTree (shape r) r.page_size c) (sym counter) f.tree));
  bounded = f.bounded;
  paged = rw page f.paged;
  indices = f.indices;
  spelled = move f.spelled;
  counted = f.counted;
  page = page ∙ f.page;
  evictable = ev ∙ f.evictable;
  protected = pr ∙ f.protected;
  kept = λ v ks vs h. move (f.kept v ks vs h);
}
  where
    move : {v : ℕ} {ks vs : List ℕ} → StandsFor r v ks vs → StandsFor s v ks vs
    move {v} {ks} {vs} h =
        subst (λ t. Spells t s.counter v ks vs) (sym e)
          (subst (λ c. Spells (shape r) c v ks vs) (sym counter) h)

-- One round that finds the child `c`.
module _ (b r : Radix) (ids : List ℕ) (u n c tic : ℕ) (f : Found b ids u n r)
    (hit : get (key_fn r.page_size (drop n ids)) (r.node u).children ≡ some c) where
  abbrev rest : List ℕ
  rest = drop n ids

  abbrev match_len : ℕ
  match_len = align_down (get_match_len r c rest) r.page_size

  child : IsChild (shape r) r.page_size r.counter u (key_fn r.page_size rest) c
  child = f.tree.child u _ c (Spells-bound f.spelled) hit

  other : c ≢ u
  other same = Spells-ne_parent f.spelled c same (ground (arith, child.parent))

  match_len-le : (match_len ≤ length (r.node c).key) × (match_len ≤ length rest)
  match_len-le =
      let (a, d) = fast_compare_key-le (r.node c).key rest in
      let below = align_down-le (get_match_len r c rest) r.page_size in (omega arith, omega arith)

  pub page-le-match_len : r.page_size ≤ match_len
  page-le-match_len = le-align_down _ _ f.tree.page_pos (
      le-fast_compare_key r.page_size (r.node c).key rest
        (le_of_mod-eq-zero _ _ child.some_ids child.paged) child.first)

  match_len-mod : match_len % r.page_size ≡ 0
  match_len-mod = align_down-mod _ _ f.tree.page_pos

  take-match_len : take (n + match_len) ids ≡ take n ids ++ take match_len (r.node c).key
  take-match_len =
      take-add n match_len ids
      ∙ ap (λ x. take n ids ++ x)
          (sym (take-fast_compare_key match_len (r.node c).key rest (align_down-le _ _)))

  next_bounded : n + match_len ≤ length ids
  next_bounded = omega (arith, f.bounded, match_len-le.1, length-drop n ids)

  -- The whole key of the child is matched.
  pub Found-child :
      match_len ≡ length (r.node c).key → Found b ids c (n + match_len) (touch c tic r)
  Found-child whole =
      Found-shape {r = r}
        (record {
          tree = f.tree;
          bounded = next_bounded;
          paged = mod-add n match_len r.page_size f.paged match_len-mod;
          indices = f.indices ++ (r.node c).value;
          spelled =
              below_eq child.parent child.bound f.spelled
                (take-match_len
                  ∙ ap (λ x. take n ids ++ x)
                      (take_of_length-le match_len (r.node c).key (omega arith)))
                refl;
          counted =
              omega (arith, length-append f.indices (r.node c).value, f.counted, child.valued);
          page = f.page;
          evictable = f.evictable;
          protected = f.protected;
          kept = f.kept;
        })
        (shape-touch c tic r) refl refl refl refl

  -- A part of it is: the child is split, and the new node is where the walk ends.
  module _ (part : match_len ≢ length (r.node c).key) where
    abbrev s : Radix
    s = splitted c u match_len tic r

    shorter : match_len < length (r.node c).key
    shorter = omega (arith, match_len-le.0)

    pub split_at-child : split_at c match_len tic r ≡ ok (r.counter, s)
    split_at-child =
        split_at-splitted c u match_len tic r child.bound (Spells-bound f.spelled) other
          child.parent (omega (arith, page-le-match_len, f.tree.page_pos)) shorter child.valued

    abbrev after : ℕ → Shape
    after = split_shape (shape r) r.page_size r.counter c u match_len

    abbrev spelled_after :
        {v : ℕ} {ks vs : List ℕ} → StandsFor r v ks vs → Spells after (suc r.counter) v ks vs
    spelled_after =
        Spells-split (shape r) r.page_size r.counter c u match_len _ f.tree hit
          (Spells-bound f.spelled) other page-le-match_len shorter match_len-mod

    upper_spelled :
        Spells after
          (suc r.counter)
          r.counter
          (take (n + match_len) ids)
          (f.indices ++ take match_len (r.node c).value)
    upper_spelled =
        below_eq {p = u} (ground arith) (omega arith) (spelled_after f.spelled)
          (take-match_len ∙ ground arith) (ground arith)

    shape-after : shape (touch r.counter tic s) ≡ after
    shape-after =
        shape-touch r.counter tic s
        ∙ shape-splitted c u match_len tic r child.bound (Spells-bound f.spelled) other

    move :
        {v : ℕ} {ks vs : List ℕ}
        → Spells after (suc r.counter) v ks vs
        → StandsFor (touch r.counter tic s) v ks vs
    unfolding splitted
    move {v} {ks} {vs} h = subst (λ t. Spells t (suc r.counter) v ks vs) (sym shape-after) h

    -- The next page of the ids is not the next page of the child's key.
    next_page :
        key_fn r.page_size (drop match_len (r.node c).key)
        ≢ key_fn r.page_size (drop (n + match_len) ids)
    next_page e =
        let longer : r.page_size ≤ length (r.node c).key - match_len =
          le_of_mod-eq-zero _ _ (omega (arith, shorter))
            (mod-sub (length (r.node c).key) match_len r.page_size child.paged match_len-mod) in
        let agree : take (match_len + r.page_size) (r.node c).key
            ≡ take (match_len + r.page_size) rest =
          take-add match_len r.page_size (r.node c).key
          ∙ ap₂ (λ x y. x ++ y)
              (take-fast_compare_key match_len (r.node c).key rest (align_down-le _ _))
              (e ∙ ap (take r.page_size) (sym (drop-drop n match_len ids)))
          ∙ sym (take-add match_len r.page_size rest) in
        let more =
          le-fast_compare_key (match_len + r.page_size) (r.node c).key rest (omega (arith, shorter))
            agree in
        let bounds = align_bounds (get_match_len r c rest) r.page_size f.tree.page_pos in
        absurd (omega (arith, more, bounds.1))

    pub Found-split_stuck :
        get
          (key_fn (touch r.counter tic s).page_size (drop (n + match_len) ids))
          ((touch r.counter tic s).node r.counter).children
        ≡ none
    unfolding splitted get
    Found-split_stuck =
        let e : ((touch r.counter tic s).node r.counter).children
            ≡ (key_fn r.page_size (drop match_len (r.node c).key), c) ∷ [] =
          ap (λ t. (t r.counter).children) shape-after ∙ ground arith in
        ap (get (key_fn r.page_size (drop (n + match_len) ids))) e
        ∙ ground (
          arith,
          next_page,
          (ids_eq_iff (key_fn r.page_size (drop match_len (r.node c).key))
              (key_fn r.page_size (drop (n + match_len) ids))).0,
        )

    pub Found-split : Found b ids r.counter (n + match_len) (touch r.counter tic s)
    unfolding splitted
    Found-split = record {
      tree =
          subst (λ t. IsTree t r.page_size (suc r.counter)) (sym shape-after)
            (IsTree-split (shape r) r.page_size r.counter c u match_len _ f.tree hit
              (Spells-bound f.spelled) other page-le-match_len shorter match_len-mod);
      bounded = next_bounded;
      paged = mod-add n match_len r.page_size f.paged match_len-mod;
      indices = f.indices ++ take match_len (r.node c).value;
      spelled = move upper_spelled;
      counted = omega (
        arith,
        length-append f.indices (take match_len (r.node c).value),
        length-take match_len (r.node c).value,
        f.counted,
        child.valued,
        match_len-le.0,
      );
      page = f.page;
      evictable = f.evictable;
      protected = f.protected;
      kept = λ v ks vs h. move (spelled_after (f.kept v ks vs h));
    }
