-- ===== src/Dual/Slots.antt =====
-- The schedule takes both micro-batches through all layers, whatever the calls are, if each takes
-- its micro-batch one stage further and leaves the other where it is.
use flash_kvmo_e.Base.{
  true, false, sym, ℕ, zero, suc, ◌+◌, ◌-◌, ◌*◌, ◌/◌, ◌%◌, ◌<◌, ◌≡◌, ◌≢◌, refl, Option, none, some,
  List, [], ◌∷◌, range_from, ◌==◌, arith,
}
use flash_kvmo_e.Dual.Run.{Run, Next, Next-then, ◌>>◌}
use flash_kvmo_e.Dual.Schedule.{run_slot, run_slots, run_schedule}

pub data Stage : Type 0 where
  ready attended submitted : Stage

-- `At σ i k`: micro-batch `i` has passed `k` layers and is at that stage of the next. `Queue`: the
-- job that is submitted and not answered.
pub record Phases {W : Type 0} (submit_attn submit_moe sync_moe : ℕ → ℕ → Run W (Unit {0}))
    (synchronize : Run W (Unit {0})) (layer_num : ℕ) : Type 1 where
  pub At : Stage → ℕ → ℕ → W → Type 0
  pub Queue : Option (ℕ × ℕ) → W → Type 0
  pub submit_attn-At :
      (i j k l : ℕ) (σ : Stage) (q : Option (ℕ × ℕ)) (w : W)
      → i ≢ j
      → k < layer_num
      → At ready i k w
      → At σ j l w
      → Queue q w
      → Next (submit_attn i k) w (λ v. At attended i k v × At σ j l v × Queue q v)
  pub submit_moe-At :
      (i j k l : ℕ) (σ : Stage) (w : W)
      → i ≢ j
      → k < layer_num
      → At attended i k w
      → At σ j l w
      → Queue none w
      → Next (submit_moe i k) w (λ v. At submitted i k v × At σ j l v × Queue (some (i, k)) v)
  pub sync_moe-At :
      (i j k l : ℕ) (σ : Stage) (w : W)
      → i ≢ j
      → k < layer_num
      → At submitted i k w
      → At σ j l w
      → Queue (some (i, k)) w
      → Next (sync_moe i k) w (λ v. At ready i (suc k) v × At σ j l v × Queue none v)
  pub synchronize-At :
      (i j k l : ℕ) (σ τ : Stage) (w : W)
      → At σ i k w
      → At τ j l w
      → Queue none w
      → Next synchronize w (λ v. At σ i k v × At τ j l v × Queue none v)

module _ {W : Type 0} {submit_attn submit_moe sync_moe : ℕ → ℕ → Run W (Unit {0})}
    {synchronize : Run W (Unit {0})} {layer_num : ℕ}
    (P : Phases submit_attn submit_moe sync_moe synchronize layer_num) where
  abbrev Overlapped : ℕ → W → Type 0
  Overlapped l w = P.At attended 0 l w × P.At ready 1 l w × P.Queue none w

  abbrev Finished : ℕ → W → Type 0
  Finished l w = P.At ready 0 l w × P.At ready 1 l w × P.Queue none w

  abbrev slots : List ℕ → Run W (Unit {0})
  slots = run_slots submit_attn submit_moe sync_moe synchronize layer_num

  abbrev slot : ℕ → Run W (Unit {0})
  slot = run_slot submit_attn submit_moe sync_moe synchronize layer_num

  -- While the experts work for one micro-batch, the other has its attention.
  overlap :
      (i j k l : ℕ) (w : W)
      → i ≢ j
      → k < layer_num
      → l < layer_num
      → P.At attended i k w
      → P.At ready j l w
      → P.Queue none w
      → Next
          (submit_moe i k >> submit_attn j l >> sync_moe i k >> synchronize)
          w
          (λ v. P.At attended j l v × P.At ready i (suc k) v × P.Queue none v)
  overlap i j k l w ne lt lt' a r q =
      Next-then (submit_moe i k >> submit_attn j l >> sync_moe i k) synchronize w
        (Next-then (submit_moe i k >> submit_attn j l) (sync_moe i k) w
          (Next-then (submit_moe i k) (submit_attn j l) w
            (P.submit_moe-At i j k l ready w ne lt a r q)
            (λ v h.
              P.submit_attn-At j i l k submitted (some (i, k)) v (λ e. ne (sym e)) lt' h.1 h.0 h.2))
          (λ v h. P.sync_moe-At i j k l attended v ne lt h.1 h.0 h.2))
        (λ v h. P.synchronize-At j i l (suc k) attended ready v h.1 h.0 h.2)

  slot_first : (w : W) → 0 < layer_num → Finished 0 w → Next (slot 0) w (Overlapped 0)
  unfolding run_slot
  slot_first w pos (a, b, q) =
      Next-then (submit_attn 0 0) synchronize w
        (P.submit_attn-At 0 1 0 0 ready none w (λ e. absurd (omega arith)) pos a b q)
        (λ v h. P.synchronize-At 0 1 0 0 attended ready v h.0 h.1 h.2)

  -- The odd slot: layer `l` of the experts for 0 and of the attention for 1.
  slot_odd :
      (l : ℕ) (w : W)
      → l < layer_num
      → Overlapped l w
      → Next
          (slot (2 * l + 1))
          w
          (λ v. P.At attended 1 l v × P.At ready 0 (suc l) v × P.Queue none v)
  unfolding run_slot
  slot_odd l w lt (a, r, q) =
      let e0 : ((2 * l + 1) == 0) ≡ false = ground arith in
      let e1 : ((2 * l + 1) == (2 * layer_num)) ≡ false = ground arith in
      let e2 : (2 * l + 1) % 2 ≡ 1 = omega arith in
      let e3 : (2 * l + 1) / 2 ≡ l = omega arith in
      let e4 : (2 * l + 1 - 1) / 2 ≡ l = omega arith in
      rw (e0, e1, e2, e3, e4) (overlap 0 1 l l w (λ e. absurd (omega arith)) lt lt a r q)

  slot_even :
      (l : ℕ) (w : W)
      → suc l < layer_num
      → P.At attended 1 l w × P.At ready 0 (suc l) w × P.Queue none w
      → Next (slot (2 * l + 2)) w (Overlapped (suc l))
  unfolding run_slot
  slot_even l w lt (a, r, q) =
      let e0 : ((2 * l + 2) == 0) ≡ false = ground arith in
      let e1 : ((2 * l + 2) == (2 * layer_num)) ≡ false = ground arith in
      let e2 : (2 * l + 2) % 2 ≡ 0 = omega arith in
      let e3 : (2 * l + 2) / 2 ≡ suc l = omega arith in
      let e4 : (2 * l + 2 - 1) / 2 ≡ l = omega arith in
      rw (e0, e1, e2, e3, e4)
        (overlap 1 0 l (suc l) w (λ e. absurd (omega arith)) (omega arith) lt a r q)

  slot_last :
      (l : ℕ) (w : W)
      → suc l ≡ layer_num
      → P.At attended 1 l w × P.At ready 0 (suc l) w × P.Queue none w
      → Next (slot (2 * l + 2)) w (Finished layer_num)
  unfolding run_slot
  slot_last l w end (a, r, q) =
      let e0 : ((2 * l + 2) == 0) ≡ false = ground arith in
      let e1 : ((2 * l + 2) == (2 * layer_num)) ≡ true = ground arith in
      let e2 : layer_num - 1 ≡ l = omega arith in
      rw (e0, e1, e2, ← end)
        (Next-then (submit_moe 1 l >> sync_moe 1 l) synchronize w
          (Next-then (submit_moe 1 l) (sync_moe 1 l) w
            (P.submit_moe-At 1 0 l (suc l) ready w (λ e. absurd (omega arith)) (omega arith) a r q)
            (λ v h.
              P.sync_moe-At 1 0 l (suc l) ready v (λ e. absurd (omega arith)) (omega arith) h.0 h.1
                h.2))
          (λ v h. P.synchronize-At 0 1 (suc l) (suc l) ready ready v h.1 h.0 h.2))

  run_rest :
      (d l a n : ℕ) (w : W)
      → l + suc d ≡ layer_num
      → a ≡ 2 * l + 1
      → n ≡ 2 * d
      → Overlapped l w
      → Next (slots (range_from a (suc (suc n)))) w (Finished layer_num)
  unfolding run_slots range_from
  run_rest zero l a n w e ea en h =
      let ea' : suc a ≡ 2 * l + 2 = omega arith in
      let none_left : n ≡ 0 = omega arith in
      rw none_left (
        Next-then (slot a) (slots (suc a ∷ [])) w (rw ea (slot_odd l w (omega arith) h)) (λ v k.
          Next-then (slot (suc a)) (slots []) v (rw ea' (slot_last l v (omega arith) k))
            (λ u f. (u, refl, f))))
  run_rest (suc d) l a n w e ea en h =
      let ea' : suc a ≡ 2 * l + 2 = omega arith in
      let more : n ≡ suc (suc (2 * d)) = omega arith in
      let rest = range_from (suc (suc a)) (suc (suc (2 * d))) in
      rw more (
        Next-then (slot a) (slots (suc a ∷ rest)) w (rw ea (slot_odd l w (omega arith) h)) (λ v k.
          Next-then (slot (suc a)) (slots rest) v (rw ea' (slot_even l v (omega arith) k))
            (λ u f. run_rest d (suc l) (suc (suc a)) (2 * d) u (omega arith) (omega arith) refl f)))

  pub run_schedule-At :
      (w : W)
      → 0 < layer_num
      → Finished 0 w
      → Next
          (run_schedule submit_attn submit_moe sync_moe synchronize layer_num)
          w
          (Finished layer_num)
  unfolding run_schedule run_slots range_from
  run_schedule-At w pos h =
      let whole : 2 * layer_num + 1 - 0 ≡ suc (suc (suc (2 * (layer_num - 1)))) = omega arith in
      rw whole (
        Next-then (slot 0) (slots (range_from 1 (suc (suc (2 * (layer_num - 1)))))) w
          (slot_first w pos h)
          (λ v k. run_rest (layer_num - 1) 0 1 (2 * (layer_num - 1)) v (omega arith) refl refl k))
