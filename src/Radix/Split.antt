-- ===== src/Radix/Split.antt =====
-- `split_at`, on a node of the tree (radix_cache.py): the upper part becomes a new node.
use flash_kvmo_e.Base.{
  ℕ, ◌<◌, ◌≡◌, ◌≢◌, fun_ext, some, [], ◌∷◌, arith, length, take, drop, ok, length-take, length-drop,
  ◌==◌, if◌then◌else◌,
}
use flash_kvmo_e.Radix.{Radix, key_fn, modify, new_node, set_parent, split_at}
use flash_kvmo_e.Radix.Dict.{put}
use flash_kvmo_e.Radix.Shape.{Shape, shape, ref_counts}

-- The state after the assignments of `split_at`, with the asserts gone.
unfoldable pub splitted : ℕ → ℕ → ℕ → ℕ → Radix → Radix
unfolding set_parent
splitted c p pos now r =
    let key = (r.node c).key in
    let value = (r.node c).value in
    let r1 =
      modify r.counter (λ x. record x { key = take pos key; value = take pos value })
        (new_node (some (r.node c).timestamp) now r) in
    let r2 = set_parent r.counter p r1 in
    let r3 = modify r.counter (λ x. record x { ref_count = (r.node c).ref_count }) r2 in
    set_parent c r.counter
      (modify c (λ x. record x { key = drop pos key; value = drop pos value }) r3)

-- The tree after a split, in one step.
abbrev pub split_shape : (ℕ → Shape) → ℕ → ℕ → ℕ → ℕ → ℕ → ℕ → Shape
split_shape t page n c p pos v =
    if n == v
    then record {
      children = (key_fn page (drop pos (t c).key), c) ∷ [];
      parent = some p;
      key = take pos (t c).key;
      value = take pos (t c).value;
    }
    else if c == v
    then record {
      children = (t c).children;
      parent = some n;
      key = drop pos (t c).key;
      value = drop pos (t c).value;
    }
    else if p == v
    then record (t p) { children = put (key_fn page (take pos (t c).key)) n (t p).children }
    else t v

module _ (c p pos now : ℕ) (r : Radix) (c_old : c < r.counter) (p_old : p < r.counter)
    (other : c ≢ p) where
  pub shape-splitted :
      shape (splitted c p pos now r) ≡ split_shape (shape r) r.page_size r.counter c p pos
  unfolding splitted
  shape-splitted = fun_ext λ v. ground (arith, c_old, p_old, other)

  pub ref_counts-splitted :
      (v : ℕ)
      → ref_counts (splitted c p pos now r) v
        ≡ (if r.counter == v then ref_counts r c else ref_counts r v)
  unfolding splitted
  ref_counts-splitted v = ground (arith, c_old, p_old, other)

  pub split_at-splitted :
      (r.node c).parent ≡ some p
      → 0 < pos
      → pos < length (r.node c).key
      → length (r.node c).value ≡ length (r.node c).key
      → split_at c pos now r ≡ ok (r.counter, splitted c p pos now r)
  unfolding split_at splitted
  split_at-splitted e low high valued = ground (
    arith,
    length-take pos (r.node c).key,
    length-take pos (r.node c).value,
    length-drop pos (r.node c).key,
    length-drop pos (r.node c).value,
  )
