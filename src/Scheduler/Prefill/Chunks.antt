-- ===== src/Scheduler/Prefill/Chunks.antt =====
-- What one call of `schedule_next_batch` puts into a batch (python/minisgl/scheduler/prefill.py).
use flash_kvmo_e.Base.{
  Ensures-guard, Ensures-option, Ensures-ok, Ensures-bind, Ensures-if, Ensures, length-take, ℕ, suc,
  ◌+◌, ◌-◌, ◌<◌, ◌≤◌, ◌≡◌, refl, ap, ◌∙◌, subst, Option, none, some, ok, runtime_error, ltb, ◌==◌,
  length, arith, >>=-eq-ok, ok-injective,
}
use flash_kvmo_e.Core.{
  PendingReq, new_req, input_len, output_len, extend_len, new_req-IsReq, new_req-max_device_len,
  IsReq,
}
use flash_kvmo_e.KvCache.Interface.{PrefixCache}
use flash_kvmo_e.Cache
use flash_kvmo_e.Cache.{match_req, lock, unlock}
use flash_kvmo_e.Scheduler.Table
use flash_kvmo_e.Scheduler.Prefill.{
  Adder, World, chunk_size, copy_cached, try_allocate_one, add_one_req, try_add_one,
}

module _ {F : Type 0} (P : PrefixCache) where
  abbrev pub SameStore : World F P → World F P → Type 0
  SameStore w w' = w'.store ≡ w.store

  copy_cached-store :
      (req : PendingReq F) (handle : P.Handle) (table_idx : ℕ) (w : World F P)
      → Ensures (SameStore w) (copy_cached P req handle table_idx w)
  unfolding copy_cached
  copy_cached-store req handle table_idx w =
      Ensures-if (ltb 0 (P.cached_len handle)) _ _
        (λ _. Ensures-bind (P.get_matched_indices handle w.cache.prefix_cache) _ λ indices _.
          Ensures-guard (length indices == P.cached_len handle) runtime_error _
            (λ _. Ensures-ok _ refl))
        (λ _. Ensures-ok _ refl)

  -- What an added request takes from the budget it extends by; it never grows past the room that the
  -- pending request asks for.
  pub record Added (req : PendingReq F) (w : World F P) (a : Adder) (ref : ℕ) (a' : Adder)
      (w' : World F P) : Type 0 where
    pub new : ref ≡ w.store.next
    pub next : w'.store.next ≡ suc w.store.next
    pub old : (x : ℕ) → x < w.store.next → w'.store.req x ≡ w.store.req x
    pub spent : extend_len (w'.store.req ref) + a'.token_budget ≡ a.token_budget
    pub well : IsReq (w'.store.req ref)
    pub room : (w'.store.req ref).max_device_len ≤ input_len req + output_len req

  add_one_req-Added :
      (req : PendingReq F) (handle : P.Handle) (table_idx cached_len : ℕ) (a : Adder)
      (w : World F P) (ref : ℕ) (a' : Adder) (w' : World F P)
      → add_one_req P req handle table_idx cached_len a w ≡ ok (ref, a', w')
      → Added req w a ref a' w'
  unfolding add_one_req
  add_one_req-Added req handle table_idx cached_len a w ref a' w' h =
      let (obj, run, e) =
        >>=-eq-ok
          (new_req _ _ table_idx cached_len (output_len req) req.uid req.sampling_params handle) _
          h in
      let grows =
        new_req-max_device_len _ _ table_idx cached_len (output_len req) req.uid req.sampling_params
          handle run in
      let (well, extends, _) =
        new_req-IsReq _ _ table_idx cached_len (output_len req) req.uid req.sampling_params handle
          run in
      let size = length-take (cached_len + chunk_size P req cached_len a) req.input_ids in
      subst (λ t. Added req w a t.0 t.1 t.2) (ok-injective e)
        (record {
          new = refl;
          next = refl;
          old = λ x lt. ground arith;
          spent = ground (arith, extends, size, well.cached);
          well = subst IsReq (ground arith) well;
          room = ground (arith, grows, size);
        })

  try_allocate_one-store :
      (req : PendingReq F) (tic : ℕ) (a : Adder) (w : World F P)
      → Ensures (λ t. SameStore w t.1) (try_allocate_one P req tic a w)
  unfolding try_allocate_one
  try_allocate_one-store req tic a w =
      Ensures-if (Table.available_size w.table == 0) _ _ (λ _. Ensures-ok _ refl)
        λ _. Ensures-bind (match_req P req tic w.cache) _ λ (handle, m1) _.
          let need = (input_len req - P.cached_len handle) + output_len req + a.reserved_size in
          Ensures-if (ltb (Cache.available_size P m1) need) _ _ (λ _. Ensures-ok _ refl)
            λ _. Ensures-bind (lock P handle m1) _ λ m2 _.
              Ensures-if (ltb (Cache.available_size P m2) need) _ _
                (λ _. Ensures-bind (unlock P handle m2) _ λ m3 _. Ensures-ok _ refl)
                λ _. Ensures-bind (Table.allocate w.table) _ λ (slot, table) _.
                  Ensures-bind
                    (copy_cached P req handle slot (record w { cache = m2; table = table })) _
                    λ w' run. Ensures-ok _ (
                      (copy_cached-store req handle slot
                          (record w { cache = m2; table = table })).holds
                        w' run)

  Added-of_store :
      {req : PendingReq F} {w w1 : World F P} {a a' : Adder} {ref : ℕ} {w' : World F P}
      → w1.store ≡ w.store
      → Added req w1 a ref a' w'
      → Added req w a ref a' w'
  Added-of_store e h = record {
    new = h.new ∙ ap (λ s. s.next) e;
    next = h.next ∙ ap (λ s. suc s.next) e;
    old = λ x lt. h.old x (rw (ap (λ s. s.next) e) lt) ∙ ap (λ s. s.req x) e;
    spent = h.spent;
    well = h.well;
    room = h.room;
  }

  abbrev pub Step : PendingReq F → World F P → Adder → Option ℕ × Adder × World F P → Type 0
  Step req w a (none, a', w') = (a' ≡ a) × SameStore w w'
  Step req w a (some ref, a', w') = Added req w a ref a' w'

  pub try_add_one-Step :
      (req : PendingReq F) (tic : ℕ) (a : Adder) (w : World F P)
      → Ensures (Step req w a) (try_add_one P req tic a w)
  unfolding try_add_one
  try_add_one-Step req tic a w =
      Ensures-if (a.token_budget == 0) _ _ (λ _. Ensures-ok _ (refl, refl))
        λ _.
          Ensures-option req.chunked_req _ _
            (λ _. Ensures-bind (try_allocate_one P req tic a w) _ λ (found, w1) run.
              let same = (try_allocate_one-store req tic a w).holds (found, w1) run in
              Ensures-option found _ _ (λ _. Ensures-ok _ (refl, same))
                λ (handle, slot) _.
                  Ensures-bind (add_one_req P req handle slot (P.cached_len handle) a w1) _
                    λ (ref, a', w') add. Ensures-ok _ (
                      Added-of_store same (
                        add_one_req-Added req handle slot (P.cached_len handle) a w1 ref a' w'
                          add)))
            λ old _.
              let c = w.store.req old in
              Ensures-bind (add_one_req P req c.cache_handle c.table_idx c.cached_len a w) _
                λ (ref, a', w') add.
                  Ensures-ok _ (
                    add_one_req-Added req c.cache_handle c.table_idx c.cached_len a w ref a' w' add)
