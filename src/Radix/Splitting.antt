-- ===== src/Radix/Splitting.antt =====
-- A split keeps the radix tree, and what every node in it stands for.
use flash_kvmo_e.Base.{
  inr, inl, subst, Bool-cases, ℕ, zero, suc, ◌%◌, ◌<◌, ◌≤◌, ◌≡◌, ◌≢◌, refl, sym, ◌∙◌, ap, some,
  List, [], ◌∷◌, ◌++◌, arith, length, take, drop, length-take, length-drop, append_assoc,
  take-append-drop, ids_eq, ids_eq_iff,
}
use flash_kvmo_e.Utils.{mod-sub}
use native.Mathlib.Decide.{ℕ_discrete}
use flash_kvmo_e.Radix.{key_fn}
use flash_kvmo_e.Radix.Dict.{get, put, get-put}
use flash_kvmo_e.Radix.Shape.{Shape}
use flash_kvmo_e.Radix.Split.{split_shape}
use flash_kvmo_e.Radix.Tree.{IsChild, IsTree, Spells, at_root, below, below_eq}

take-take : (m n : ℕ) (xs : List ℕ) → m ≤ n → take m (take n xs) ≡ take m xs
take-take zero n xs h = refl
take-take (suc m) zero xs h = absurd (omega arith)
take-take (suc m) (suc n) [] h = refl
take-take (suc m) (suc n) (x ∷ xs) h = ap (◌∷◌ x) (take-take m n xs (omega arith))

module _ (t : ℕ → Shape) (page n c p pos : ℕ) (k : List ℕ) (tree : IsTree t page n)
    (found : get k (t p).children ≡ some c) (p_old : p < n) (other : c ≢ p) (low : page ≤ pos)
    (high : pos < length (t c).key) (paged : pos % page ≡ 0) where
  abbrev t' : ℕ → Shape
  t' = split_shape t page n c p pos

  is_child : IsChild t page n p k c
  is_child = tree.child p k c p_old found

  kept_child :
      {q d : ℕ} {j : List ℕ} → d ≢ c → IsChild t page n q j d → IsChild t' page (suc n) q j d
  kept_child {q} {d} {j} ne h = record {
    bound = omega (arith, h.bound);
    parent = ground (arith, h.bound, h.parent);
    first = ground (arith, h.bound, h.first);
    some_ids = ground (arith, h.bound, h.some_ids);
    paged = ground (arith, h.bound, h.paged);
    valued = ground (arith, h.bound, h.valued);
  }

  upper : IsChild t' page (suc n) p k n
  upper = record {
    bound = omega arith;
    parent = ground arith;
    first = ground (arith, take-take page pos (t c).key low, is_child.first);
    some_ids = ground (arith, length-take pos (t c).key, tree.page_pos);
    paged = ground (arith, length-take pos (t c).key);
    valued =
        ground (arith, length-take pos (t c).key, length-take pos (t c).value, is_child.valued);
  }

  lower : IsChild t' page (suc n) n (key_fn page (drop pos (t c).key)) c
  lower =
      let b = is_child.bound in
      record {
        bound = omega arith;
        parent = ground arith;
        first = ground arith;
        some_ids = ground (arith, length-drop pos (t c).key);
        paged = ground (
          arith,
          length-drop pos (t c).key,
          mod-sub (length (t c).key) pos page is_child.paged paged,
        );
        valued =
            ground (arith, length-drop pos (t c).key, length-drop pos (t c).value, is_child.valued);
      }

  child_below_new :
      (j : List ℕ) (d : ℕ)
      → get j ((key_fn page (drop pos (t c).key), c) ∷ []) ≡ some d
      → IsChild t' page (suc n) n j d
  unfolding get
  child_below_new j d h = elim (Bool-cases (ids_eq (key_fn page (drop pos (t c).key)) j)) [
    | inl e ↦
        let same : d ≡ c = ground arith in
        let page_same = (ids_eq_iff _ j).0 e in
        subst (λ x. IsChild t' page (suc n) n j x) (sym same)
          (subst (λ x. IsChild t' page (suc n) n x c) page_same lower)
    | inr e ↦ absurd (ground arith)
  ]

  child_below_parent :
      (j : List ℕ) (d : ℕ)
      → get j (put (key_fn page (take pos (t c).key)) n (t p).children) ≡ some d
      → IsChild t' page (suc n) p j d
  child_below_parent j d h =
      let first : key_fn page (take pos (t c).key) ≡ k =
        take-take page pos (t c).key low ∙ is_child.first in
      elim (Bool-cases (ids_eq k j)) [
        | inl e ↦
            let page_same = (ids_eq_iff k j).0 e in
            let same : d ≡ n =
              ground (arith, get-put (key_fn page (take pos (t c).key)) j n (t p).children) in
            subst (λ x. IsChild t' page (suc n) p j x) (sym same)
              (subst (λ x. IsChild t' page (suc n) p x n) page_same upper)
        | inr e ↦
            let old =
              tree.child p j d p_old
                (ground (arith, get-put (key_fn page (take pos (t c).key)) j n (t p).children)) in
            kept_child (λ same. ground (arith, (ids_eq_iff k j).1, is_child.first, old.first)) old
      ]

  child_below_other :
      (q : ℕ) (j : List ℕ) (d : ℕ)
      → q < n
      → q ≢ p
      → get j (t q).children ≡ some d
      → IsChild t' page (suc n) q j d
  child_below_other q j d q_old ne h =
      let old = tree.child q j d q_old h in
      kept_child (λ same. ground (arith, is_child.parent, old.parent)) old

  pub IsTree-split : IsTree t' page (suc n)
  IsTree-split = record {
    page_pos = tree.page_pos;
    root_bound = omega arith;
    root = ground (arith, tree.root, tree.root_bound, is_child.parent);
    child = λ q j d bound h. elim (ℕ_discrete n q) [
      | yes new ↦
          subst (λ x. IsChild t' page (suc n) x j d) new (child_below_new j d (ground arith))
      | no old ↦ elim (ℕ_discrete p q) [
        | yes same ↦
            subst (λ x. IsChild t' page (suc n) x j d) same (child_below_parent j d (ground arith))
        | no ne ↦ child_below_other q j d (omega arith) (λ e. ne (sym e)) (ground arith)
      ]
    ];
  }

  -- Every node stands for what it stood for: those below the split, through the new node.
  pub Spells-split :
      {u : ℕ} {ids indices : List ℕ} → Spells t n u ids indices → Spells t' (suc n) u ids indices
  Spells-split {u} (at_root e b) = at_root (ground (arith, is_child.parent)) (omega arith)
  Spells-split {u} (below {p = q} {ids = ids} {indices = indices} e b s) = elim (ℕ_discrete c u) [
    | yes same ↦
        let above : q ≡ p = ground (arith, is_child.parent, ap (λ x. (t x).parent) same) in
        let top : Spells t' (suc n) p ids indices =
          subst (λ x. Spells t' (suc n) x ids indices) above (Spells-split s) in
        let mid : Spells t' (suc n) n (ids ++ take pos (t c).key)
            (indices ++ take pos (t c).value) =
          below_eq {p = p} (ground arith) (omega arith) top (ground arith) (ground arith) in
        let whole : Spells t' (suc n) c (ids ++ (t c).key) (indices ++ (t c).value) =
          below_eq {p = n} (ground (arith, is_child.bound)) (omega (arith, is_child.bound)) mid
            (ground (
              arith,
              is_child.bound,
              append_assoc ids (take pos (t c).key) (drop pos (t c).key),
              take-append-drop pos (t c).key,
            ))
            (ground (
              arith,
              is_child.bound,
              append_assoc indices (take pos (t c).value) (drop pos (t c).value),
              take-append-drop pos (t c).value,
            )) in
        subst (λ x. Spells t' (suc n) x (ids ++ (t x).key) (indices ++ (t x).value)) same whole
    | no ne ↦
        below_eq {p = q} (ground arith) (omega arith) (Spells-split s) (ground arith) (ground arith)
  ]
