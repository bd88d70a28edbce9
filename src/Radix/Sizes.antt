-- ===== src/Radix/Sizes.antt =====
-- The size counters against the nodes of the tree, and one step of `lock_handle`.
use flash_kvmo_e.Base.{
  ℕ, ◌+◌, ◌-◌, ◌<◌, ◌≡◌, ◌≢◌, refl, ◌∙◌, ap, fun_ext, true, not, ◌&&◌, arith, ◌==◌, if◌then◌else◌,
  length, ok, total, le-total, total_update,
}
use flash_kvmo_e.Radix.{Radix, modify}
use flash_kvmo_e.Radix.Lock.{lock_one, unlock_one}
use flash_kvmo_e.Radix.Shape.{times, Shape, shape, ref_counts, in_tree}

-- What a node adds to `evictable_size`, and to `protected_size`.
abbrev pub idle : (ℕ → Shape) → ℕ → (ℕ → ℕ) → ℕ → ℕ
idle t page rc u = if in_tree t page u && (rc u == 0) then length (t u).key else 0

abbrev pub held : (ℕ → Shape) → ℕ → (ℕ → ℕ) → ℕ → ℕ
held t page rc u = if in_tree t page u && not (rc u == 0) then length (t u).key else 0

pub record Accounted (r : Radix) : Type 0 where
  pub evictable : r.evictable_size ≡ total (idle (shape r) r.page_size (ref_counts r)) r.counter
  pub protected : r.protected_size ≡ total (held (shape r) r.page_size (ref_counts r)) r.counter

-- `b` is `a` with other reference counts.
pub record SameTree (a b : Radix) : Type 0 where
  pub page : b.page_size ≡ a.page_size
  pub counter : b.counter ≡ a.counter
  pub shapes : shape b ≡ shape a
  pub stamps : times b ≡ times a

pub SameTree-refl : (a : Radix) → SameTree a a
SameTree-refl a = record { page = refl; counter = refl; shapes = refl; stamps = refl }

pub SameTree-trans : {a b c : Radix} → SameTree a b → SameTree b c → SameTree a c
SameTree-trans h k = record {
  page = k.page ∙ h.page;
  counter = k.counter ∙ h.counter;
  shapes = k.shapes ∙ h.shapes;
  stamps = k.stamps ∙ h.stamps;
}

-- What the sums become when one count changes.
module _ (t : ℕ → Shape) (page n : ℕ) (rc rc' : ℕ → ℕ) (u : ℕ) (bound : u < n)
    (same : (v : ℕ) → v ≢ u → rc' v ≡ rc v) where
  pub idle_update :
      total (idle t page rc') n + idle t page rc u ≡ total (idle t page rc) n + idle t page rc' u
  idle_update =
      total_update (idle t page rc') (idle t page rc) n u bound
        λ i ne. ap (λ c. if in_tree t page i && (c == 0) then length (t i).key else 0) (same i ne)

  pub held_update :
      total (held t page rc') n + held t page rc u ≡ total (held t page rc) n + held t page rc' u
  held_update =
      total_update (held t page rc') (held t page rc) n u bound λ i ne.
        ap (λ c. if in_tree t page i && not (c == 0) then length (t i).key else 0) (same i ne)

-- The state after a step that does not raise.
abbrev pub bumped : ℕ → Radix → Radix
bumped u = modify u (λ x. record x { ref_count = x.ref_count + 1 })

abbrev pub dropped : ℕ → Radix → Radix
dropped u = modify u (λ x. record x { ref_count = x.ref_count - 1 })

unfoldable pub locked : ℕ → Radix → Radix
locked u r = record (bumped u r) {
  evictable_size =
      if (r.node u).ref_count == 0
      then r.evictable_size - length (r.node u).key
      else r.evictable_size;
  protected_size =
      if (r.node u).ref_count == 0
      then r.protected_size + length (r.node u).key
      else r.protected_size;
}

unfoldable pub unlocked : ℕ → Radix → Radix
unlocked u r = record (dropped u r) {
  evictable_size =
      if (r.node u).ref_count == 1
      then r.evictable_size + length (r.node u).key
      else r.evictable_size;
  protected_size =
      if (r.node u).ref_count == 1
      then r.protected_size - length (r.node u).key
      else r.protected_size;
}

module _ (u : ℕ) (r : Radix) where
  pub SameTree-locked : SameTree r (locked u r)
  unfolding locked
  SameTree-locked = record {
    page = refl;
    counter = refl;
    shapes = fun_ext λ v. ground arith;
    stamps = fun_ext λ v. ground arith;
  }

  pub SameTree-unlocked : SameTree r (unlocked u r)
  unfolding unlocked
  SameTree-unlocked = record {
    page = refl;
    counter = refl;
    shapes = fun_ext λ v. ground arith;
    stamps = fun_ext λ v. ground arith;
  }

  pub ref_counts-locked :
      (v : ℕ) → ref_counts (locked u r) v ≡ ref_counts r v + (if u == v then 1 else 0)
  unfolding locked
  ref_counts-locked v = ground arith

  pub ref_counts-unlocked :
      (v : ℕ) → ref_counts (unlocked u r) v ≡ ref_counts r v - (if u == v then 1 else 0)
  unfolding unlocked
  ref_counts-unlocked v = ground arith

  module _ (bound : u < r.counter) (inside : in_tree (shape r) r.page_size u ≡ true)
      (a : Accounted r) where
    pub lock_one-locked : lock_one u r ≡ ok (locked u r)
    unfolding lock_one locked
    lock_one-locked =
        let least = le-total (idle (shape r) r.page_size (ref_counts r)) r.counter u bound in
        ground (arith, least, a.evictable, inside)

    pub unlock_one-unlocked : 0 < ref_counts r u → unlock_one u r ≡ ok (unlocked u r)
    unfolding unlock_one unlocked
    unlock_one-unlocked pos =
        let least = le-total (held (shape r) r.page_size (ref_counts r)) r.counter u bound in
        ground (arith, least, a.protected, inside)
