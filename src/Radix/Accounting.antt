-- ===== src/Radix/Accounting.antt =====
-- `lock_handle` on a handle whose node is in the tree (radix_cache.py).
use flash_kvmo_e.Base.{
  All, All-mono, fun_ext, subst, ◌>>=◌, none, some, Result, ℕ, zero, suc, ◌+◌, ◌-◌, ◌≤◌, ◌<◌, ◌≡◌,
  ◌≢◌, refl, sym, ◌∙◌, ap, true, false, List, [], ◌∷◌, arith, ◌==◌, if◌then◌else◌, length, ok,
  total,
}
use flash_kvmo_e.Radix.{Radix, Handle}
use flash_kvmo_e.Radix.Lock.{lock_one, unlock_one, climb, lock_handle}
use flash_kvmo_e.Radix.Steps.{Accounted-locked, Accounted-unlocked}
use flash_kvmo_e.Radix.Shape.{Way, shape, ref_counts, in_tree, root, up, WayUp, Way-ne}
use flash_kvmo_e.Radix.Sizes.{
  idle, held, Accounted, SameTree, SameTree-refl, SameTree-trans, locked, unlocked, SameTree-locked,
  SameTree-unlocked, ref_counts-locked, ref_counts-unlocked, lock_one-locked, unlock_one-unlocked,
}

-- How often a way passes a node.
abbrev pub visits : List ℕ → ℕ → ℕ
visits [] v = 0
visits (u ∷ l) v = visits l v + (if u == v then 1 else 0)

-- What a climb that does not raise leaves: the same tree, and sizes that are right.
pub record Climbed (b : Radix) (s : Radix) : Type 0 where
  pub tree : SameTree b s
  pub accounted : Accounted s

parent_of_same : {b r : Radix} → SameTree b r → (u : ℕ) → (r.node u).parent ≡ (b.node u).parent
parent_of_same t u = ap (λ f. (f u).parent) t.shapes

in_tree_of_same :
    {b r : Radix}
    → SameTree b r
    → (u : ℕ) → in_tree (shape r) r.page_size u ≡ in_tree (shape b) b.page_size u
in_tree_of_same t u = λ i. in_tree (t.shapes i) (t.page i) u

bound_of_same : {b r : Radix} → SameTree b r → (u : ℕ) → u < b.counter → u < r.counter
bound_of_same t u h = rw t.counter h

-- One round of the loop.
pub climb-root :
    (body : ℕ → Radix → Result Radix) (fuel u : ℕ) (r : Radix)
    → (r.node u).parent ≡ none
    → climb body (suc fuel) u r ≡ ok r
unfolding climb
climb-root body fuel u r e = rw (e, climb) refl

pub climb-up :
    (body : ℕ → Radix → Result Radix) (fuel u p : ℕ) (r r' : Radix)
    → (r.node u).parent ≡ some p
    → body u r ≡ ok r'
    → climb body (suc fuel) u r ≡ climb body fuel p r'
unfolding climb
climb-up body fuel u p r r' e run = rw (e, run, climb) refl

climb_lock :
    (b r : Radix) (fuel : ℕ) {u : ℕ} {l : List ℕ}
    → WayUp b u l
    → Climbed b r
    → length l < fuel
    → (r' : Radix) × (climb lock_one fuel u r ≡ ok r')
      × Climbed b r'
      × ((v : ℕ) → ref_counts r' v ≡ ref_counts r v + visits l v)
climb_lock b r zero w c h = absurd (omega arith)
climb_lock b r (suc fuel) {u} (root e) c h =
    (r, climb-root lock_one fuel u r (parent_of_same c.tree u ∙ e), c, λ v. omega arith)
climb_lock b r (suc fuel) {u} (up {p = p} {l = l} e bound inside w) c h =
    let lt = bound_of_same c.tree u bound in
    let live = in_tree_of_same c.tree u ∙ inside in
    let (r', run, c', counts) =
      climb_lock b (locked u r) fuel w
        (record {
          tree = SameTree-trans c.tree (SameTree-locked u r);
          accounted = Accounted-locked u r lt live c.accounted;
        })
        (omega arith) in
    (
      r',
      climb-up lock_one fuel u p r (locked u r) (parent_of_same c.tree u ∙ e)
            (lock_one-locked u r lt live c.accounted)
          ∙ run,
      c',
      λ v. omega (arith, counts v, ref_counts-locked u r v),
    )

positive_rest :
    (r : Radix) (u : ℕ) (l : List ℕ)
    → All (λ v. v ≢ u) l
    → All (λ v. 0 < ref_counts r v) l
    → All (λ v. 0 < ref_counts (unlocked u r) v) l
positive_rest r u [] ne pos = tt
positive_rest r u (x ∷ l) ne pos =
    (ground (arith, ref_counts-unlocked u r x, ne.0, pos.0), positive_rest r u l ne.1 pos.1)

climb_unlock :
    (b r : Radix) (fuel : ℕ) {u : ℕ} {l : List ℕ}
    → WayUp b u l
    → Climbed b r
    → All (λ v. 0 < ref_counts r v) l
    → length l < fuel
    → (r' : Radix) × (climb unlock_one fuel u r ≡ ok r')
      × Climbed b r'
      × ((v : ℕ) → ref_counts r' v ≡ ref_counts r v - visits l v)
climb_unlock b r zero w c pos h = absurd (omega arith)
climb_unlock b r (suc fuel) {u} (root e) c pos h =
    (r, climb-root unlock_one fuel u r (parent_of_same c.tree u ∙ e), c, λ v. omega arith)
climb_unlock b r (suc fuel) {u} (up {p = p} {l = l} e bound inside w) c pos h =
    let lt = bound_of_same c.tree u bound in
    let live = in_tree_of_same c.tree u ∙ inside in
    let (r', run, c', counts) =
      climb_unlock b (unlocked u r) fuel w
        (record {
          tree = SameTree-trans c.tree (SameTree-unlocked u r);
          accounted = Accounted-unlocked u r lt live c.accounted pos.0;
        })
        (positive_rest r u l (Way-ne e bound inside w) pos.1) (omega arith) in
    (
      r',
      climb-up unlock_one fuel u p r (unlocked u r) (parent_of_same c.tree u ∙ e)
            (unlock_one-unlocked u r lt live c.accounted pos.0)
          ∙ run,
      c',
      λ v. omega (arith, counts v, ref_counts-unlocked u r v),
    )

-- On a cache whose sizes are right, locking a handle in the tree, with fewer nodes on its way to
-- the root than there are, never raises: it adds one to the count of every node on the way,
-- leaves the tree and every other count as they are, and keeps the sizes right.
pub lock_handle-Accounted :
    (r : Radix) (handle : Handle) (l : List ℕ)
    → WayUp r handle.node l
    → length l < r.counter
    → Accounted r
    → (r' : Radix) × (lock_handle handle false r ≡ ok r')
      × SameTree r r'
      × Accounted r'
      × ((v : ℕ) → ref_counts r' v ≡ ref_counts r v + visits l v)
unfolding lock_handle
lock_handle-Accounted r handle l w h a =
    let (r', run, c, counts) =
      climb_lock r r r.counter w (record { tree = SameTree-refl r; accounted = a }) h in
    (r', run, c.tree, c.accounted, counts)

-- On a cache whose sizes are right, unlocking a handle in the tree whose way to the root is
-- locked, with fewer nodes on it than there are, never raises: it takes one off every count on
-- the way, leaves the rest of the tree, and keeps the sizes right.
pub unlock_handle-Accounted :
    (r : Radix) (handle : Handle) (l : List ℕ)
    → WayUp r handle.node l
    → length l < r.counter
    → All (λ v. 0 < ref_counts r v) l
    → Accounted r
    → (r' : Radix) × (lock_handle handle true r ≡ ok r')
      × SameTree r r'
      × Accounted r'
      × ((v : ℕ) → ref_counts r' v ≡ ref_counts r v - visits l v)
unfolding lock_handle
unlock_handle-Accounted r handle l w h pos a =
    let (r', run, c, counts) =
      climb_unlock r r r.counter w (record { tree = SameTree-refl r; accounted = a }) pos h in
    (r', run, c.tree, c.accounted, counts)

visits_self : (l m : List ℕ) → ((v : ℕ) → visits m v ≤ visits l v) → All (λ v. 0 < visits l v) m
visits_self l [] h = tt
visits_self l (u ∷ m) h = (ground (arith, h u), visits_self l m (λ v. omega (arith, h v)))

same_state :
    {a b : Radix} → SameTree a b → Accounted a → Accounted b → ref_counts b ≡ ref_counts a → b ≡ a
same_state {a} {b} t x y counts = λ i. record {
  page_size = t.page i;
  counter = t.counter i;
  node = λ u. record {
    children = (t.shapes i u).children;
    parent = (t.shapes i u).parent;
    ref_count = counts i u;
    timestamp = t.stamps i u;
    key = (t.shapes i u).key;
    value = (t.shapes i u).value;
  };
  evictable_size = evictable i;
  protected_size = protected i;
}
  where
    evictable : b.evictable_size ≡ a.evictable_size
    evictable =
        y.evictable
        ∙ (λ i. total (idle (t.shapes i) (t.page i) (counts i)) (t.counter i))
        ∙ sym x.evictable

    protected : b.protected_size ≡ a.protected_size
    protected =
        y.protected
        ∙ (λ i. total (held (t.shapes i) (t.page i) (counts i)) (t.counter i))
        ∙ sym x.protected

-- On a cache whose sizes are right, locking a handle in the tree, with fewer nodes on its way to
-- the root than there are, and unlocking it again gives back the cache as it was, every field of
-- every node included.
pub unlock_handle-lock_handle :
    (r : Radix) (handle : Handle) (l : List ℕ)
    → WayUp r handle.node l
    → length l < r.counter
    → Accounted r
    → (lock_handle handle false r >>= lock_handle handle true) ≡ ok r
unlock_handle-lock_handle r handle l w h a =
    let (r1, locks, t1, a1, c1) = lock_handle-Accounted r handle l w h a in
    let w1 : WayUp r1 handle.node l =
      subst (λ s. Way s r1.page_size r1.counter handle.node l) (sym t1.shapes)
        (subst (λ n. Way (shape r) n r1.counter handle.node l) (sym t1.page)
          (subst (λ n. Way (shape r) r.page_size n handle.node l) (sym t1.counter) w)) in
    let pos = All-mono l (λ v k. omega (arith, c1 v, k)) (visits_self l l (λ v. omega arith)) in
    let (r2, unlocks, t2, a2, c2) =
      unlock_handle-Accounted r1 handle l w1 (rw t1.counter h) pos a1 in
    let back = same_state (SameTree-trans t1 t2) a a2 (fun_ext λ v. omega (arith, c1 v, c2 v)) in
    rw (locks, unlocks, back) refl
