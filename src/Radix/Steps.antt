-- ===== src/Radix/Steps.antt =====
-- One step of `lock_handle` keeps the sizes right (radix_cache.py).
use flash_kvmo_e.Base.{ℕ, ◌≤◌, ◌<◌, ◌≡◌, ◌≢◌, sym, ◌∙◌, true, arith, total, le-total}
use flash_kvmo_e.Radix.{Radix}
use flash_kvmo_e.Radix.Shape.{shape, ref_counts, in_tree}
use flash_kvmo_e.Radix.Sizes.{
  idle, held, Accounted, SameTree, idle_update, held_update, locked, unlocked, SameTree-locked,
  SameTree-unlocked, ref_counts-locked, ref_counts-unlocked,
}

-- The sums may be read off the old tree.
Accounted-of_same :
    {r s : Radix}
    → SameTree r s
    → s.evictable_size ≡ total (idle (shape r) r.page_size (ref_counts s)) r.counter
    → s.protected_size ≡ total (held (shape r) r.page_size (ref_counts s)) r.counter
    → Accounted s
Accounted-of_same {r} {s} t e p = record {
  evictable =
      e ∙ λ i. total (idle (sym t.shapes i) (sym t.page i) (ref_counts s)) (sym t.counter i);
  protected =
      p ∙ λ i. total (held (sym t.shapes i) (sym t.page i) (ref_counts s)) (sym t.counter i);
}

module _ (u : ℕ) (r : Radix) (bound : u < r.counter)
    (inside : in_tree (shape r) r.page_size u ≡ true) (a : Accounted r) where
  locked-other : (v : ℕ) → v ≢ u → ref_counts (locked u r) v ≡ ref_counts r v
  locked-other v ne = ground (arith, ref_counts-locked u r v)

  unlocked-other : (v : ℕ) → v ≢ u → ref_counts (unlocked u r) v ≡ ref_counts r v
  unlocked-other v ne = ground (arith, ref_counts-unlocked u r v)

  idle_room : idle (shape r) r.page_size (ref_counts r) u ≤ r.evictable_size
  idle_room =
      omega
        (arith, le-total (idle (shape r) r.page_size (ref_counts r)) r.counter u bound, a.evictable)

  held_room : held (shape r) r.page_size (ref_counts r) u ≤ r.protected_size
  held_room =
      omega
        (arith, le-total (held (shape r) r.page_size (ref_counts r)) r.counter u bound, a.protected)

  pub Accounted-locked : Accounted (locked u r)
  unfolding locked
  Accounted-locked =
      Accounted-of_same (SameTree-locked u r)
        (ground (
          arith,
          idle_update (shape r) r.page_size r.counter (ref_counts r) (ref_counts (locked u r)) u
              bound locked-other,
          idle_room,
          inside,
          a.evictable,
        ))
        (ground (
          arith,
          held_update (shape r) r.page_size r.counter (ref_counts r) (ref_counts (locked u r)) u
              bound locked-other,
          inside,
          a.protected,
        ))

  pub Accounted-unlocked : 0 < ref_counts r u → Accounted (unlocked u r)
  unfolding unlocked
  Accounted-unlocked pos =
      Accounted-of_same (SameTree-unlocked u r)
        (ground (
          arith,
          idle_update (shape r) r.page_size r.counter (ref_counts r) (ref_counts (unlocked u r)) u
              bound unlocked-other,
          inside,
          a.evictable,
        ))
        (ground (
          arith,
          held_update (shape r) r.page_size r.counter (ref_counts r) (ref_counts (unlocked u r)) u
              bound unlocked-other,
          held_room,
          inside,
          a.protected,
        ))
