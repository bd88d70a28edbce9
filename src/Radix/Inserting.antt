-- ===== src/Radix/Inserting.antt =====
-- `insert_prefix` as a whole (radix_cache.py).
use flash_kvmo_e.Base.{
  false, true, ℕ, suc, ◌-◌, ◌%◌, ◌<◌, ◌≤◌, ◌≡◌, ◌≢◌, refl, sym, ◌∙◌, subst, List, ◌++◌, arith,
  length, take, drop, ok, length-take, length-drop, length-append, ◌==◌, Bool-cases, inl, inr,
  take-append-drop, take_of_length-le, ==_iff, ==_ne,
}
use flash_kvmo_e.Utils.{align_down, align_down-le, align_down-mod, mod-sub}
use flash_kvmo_e.Radix.{Radix, Handle, set_key_value, tree_walk, insert_rest, insert_prefix}
use flash_kvmo_e.Radix.Shape.{Shape, shape}
use flash_kvmo_e.Radix.Tree.{IsTree, Spells, Spells-bound, IsRadix, StandsFor}
use flash_kvmo_e.Radix.Round.{Found}
use flash_kvmo_e.Radix.Walk.{Stuck, tree_walk-Found}
use flash_kvmo_e.Radix.Insert.{
  insert_shape, IsTree-insert, Spells-insert, Spells-leaf, inserted, shape-inserted,
  evictable-inserted, Inserted,
}

-- The walk over the aligned ids has come to `u`, with `n` of them matched.
module _ (b r : Radix) (input slots : List ℕ) (u n now : ℕ)
    (f : Found b (take (align_down (length input) b.page_size) input) u n r) where
  abbrev insert_len : ℕ
  insert_len = align_down (length input) b.page_size

  abbrev ids : List ℕ
  ids = take insert_len input

  length-ids : length ids ≡ insert_len
  length-ids = omega (arith, length-take insert_len input, align_down-le (length input) b.page_size)

  -- All of them are matched: nothing is inserted.
  Inserted-found :
      n ≡ insert_len → Inserted b input n (record { cached_len = insert_len; node = u }) r
  Inserted-found e = record {
    tree = f.tree;
    whole = refl;
    cached = omega arith;
    paged = subst (λ p. n % p ≡ 0) f.page f.paged;
    indices = f.indices;
    spelled =
        subst (λ l. StandsFor r u l f.indices) (take_of_length-le n ids (omega (arith, length-ids)))
          f.spelled;
    counted = omega (arith, f.counted);
    grown = omega (arith, f.evictable);
    protected = f.protected;
    page = f.page;
    kept = f.kept;
  }

  -- Some are not: they become a new leaf.
  module _ (stuck : Stuck ids u n r) (enough : length input ≤ length slots)
      (part : n ≢ insert_len) where
    abbrev key : List ℕ
    key = drop n ids

    abbrev value : List ℕ
    value = drop n (take insert_len slots)

    less : n < length ids
    less = omega (arith, f.bounded, length-ids)

    page_pos : 0 < b.page_size
    page_pos = subst (λ p. 0 < p) f.page f.tree.page_pos

    length-key : length key ≡ insert_len - n
    length-key = omega (arith, length-drop n ids, length-ids)

    pub length-value : length value ≡ length key
    length-value = omega (
      arith,
      length-key,
      length-drop n (take insert_len slots),
      length-take insert_len slots,
      align_down-le (length input) b.page_size,
    )

    paged_key : length key % r.page_size ≡ 0
    paged_key =
        rw (length-key, f.page)
          (mod-sub insert_len n b.page_size (align_down-mod (length input) b.page_size page_pos)
            (subst (λ p. n % p ≡ 0) f.page f.paged))

    abbrev s : Radix
    s = inserted u key value now r

    abbrev after : ℕ → Shape
    after = insert_shape (shape r) r.page_size r.counter u key value

    u_old : u < r.counter
    u_old = Spells-bound f.spelled

    move : {v : ℕ} {ks vs : List ℕ} → Spells after (suc r.counter) v ks vs → StandsFor s v ks vs
    unfolding inserted
    move {v} {ks} {vs} h =
        subst (λ t. Spells t (suc r.counter) v ks vs) (sym (shape-inserted u key value now r u_old))
          h

    some_key : 0 < length key
    some_key = omega (arith, length-key, less, length-ids)

    pub Inserted-new : Inserted b input n (record { cached_len = insert_len; node = r.counter }) s
    unfolding inserted
    Inserted-new = record {
      tree =
          subst (λ t. IsTree t r.page_size (suc r.counter))
            (sym (shape-inserted u key value now r u_old))
            (IsTree-insert (shape r) r.page_size r.counter u key value f.tree u_old (stuck less)
              some_key paged_key length-value);
      whole = refl;
      cached = omega (arith, f.bounded, length-ids);
      paged = subst (λ p. n % p ≡ 0) f.page f.paged;
      indices = f.indices ++ value;
      spelled =
          subst (λ l. StandsFor s r.counter l (f.indices ++ value)) (take-append-drop n ids)
            (move (
              Spells-leaf (shape r) r.page_size r.counter u key value f.tree u_old (stuck less)
                some_key paged_key length-value f.spelled));
      counted = omega (
        arith,
        length-append f.indices value,
        length-value,
        length-key,
        f.counted,
        f.bounded,
        length-ids,
      );
      grown = omega (
        arith,
        evictable-inserted u key value now r u_old,
        length-key,
        f.evictable,
        f.bounded,
        length-ids,
      );
      protected = f.protected;
      page = f.page;
      kept = λ v ks vs h. move (
          Spells-insert (shape r) r.page_size r.counter u key value f.tree u_old (stuck less)
            some_key paged_key length-value (f.kept v ks vs h));
    }

module _ (r : Radix) (input slots : List ℕ) (tic now u n : ℕ) (r1 : Radix)
    (run : tree_walk (take (align_down (length input) r.page_size) input) tic r
      ≡ ok (u, n, r1)) where
  abbrev len : ℕ
  len = align_down (length input) r.page_size

  insert_prefix-walked :
      insert_prefix input slots tic now r
      ≡ insert_rest len (take len input) (take len slots) now u n r1
  unfolding insert_prefix
  insert_prefix-walked = rw run refl

  insert_prefix-found :
      (n == len) ≡ true
      → insert_prefix input slots tic now r ≡ ok (n, record { cached_len = len; node = u }, r1)
  unfolding insert_rest
  insert_prefix-found all = insert_prefix-walked ∙ rw (insert_rest, all) refl

  insert_prefix-new :
      (n == len) ≡ false
      → length (drop n (take len slots)) ≡ length (drop n (take len input))
      → insert_prefix input slots tic now r
        ≡ ok (
          n,
          record { cached_len = len; node = r1.counter },
          inserted u (drop n (take len input)) (drop n (take len slots)) now r1,
        )
  unfolding insert_rest inserted set_key_value
  insert_prefix-new part lens =
      let test =
        (==_iff (length (drop n (take len input))) (length (drop n (take len slots)))).1
          (sym lens) in
      insert_prefix-walked ∙ rw (insert_rest, part, set_key_value, test) refl

-- `insert_prefix` on a radix tree never fails, if there is a slot for each id. The new handle stands
-- for the ids rounded down to whole pages, with as many slots, and `evictable_size` grows by what
-- was not cached before; every node still stands for what it stood for.
pub insert_prefix-Inserted :
    (r : Radix) (input slots : List ℕ) (tic now : ℕ)
    → IsRadix r
    → length input ≤ length slots
    → (n : ℕ) × (h : Handle) × (r' : Radix) × (insert_prefix input slots tic now r ≡ ok (n, h, r'))
      × Inserted r input n h r'
insert_prefix-Inserted r input slots tic now t enough =
    let len = align_down (length input) r.page_size in
    let (u, n, r1, run, f, stuck) = tree_walk-Found r (take len input) tic t in
    elim (Bool-cases (n == len)) [
      | inl all ↦
          let e = (==_iff n len).0 all in
          (
            n,
            record { cached_len = len; node = u },
            r1,
            insert_prefix-found r input slots tic now u n r1 run all,
            Inserted-found r r1 input slots u n now f e,
          )
      | inr some_left ↦
          let ne = ==_ne n len some_left in
          let lens = length-value r r1 input slots u n now f stuck enough ne in
          (
            n,
            record { cached_len = len; node = r1.counter },
            inserted u (drop n (take len input)) (drop n (take len slots)) now r1,
            insert_prefix-new r input slots tic now u n r1 run some_left lens,
            Inserted-new r r1 input slots u n now f stuck enough ne,
          )
    ]
