-- ===== src/Attention/Tables.antt =====
-- The page table of a batch (python/minisgl/attention/fa.py).
use flash_kvmo_e.Scheduler.Mapping.{get_elem?-range_from}
use flash_kvmo_e.Base.{
  inr, inl, ltb, Bool-cases, get_elem?-map, ℕ, zero, suc, ◌+◌, ◌-◌, ◌*◌, ◌/◌, ◌%◌, ◌≤◌, ◌<◌, ◌≡◌,
  ap, ◌∙◌, List, [], ◌∷◌, map, range, arith, some, get_elem?,
}
use native.Mathlib.Nat.{div-mul-le_self, mul-div_cancel, mod-add-div'}
use flash_kvmo_e.Core.{Req}
use flash_kvmo_e.Cache.Pages.{stride_from, strided}
use flash_kvmo_e.Attention.Metadata.{page_row}

get_elem?-stride_from :
    (p c k : ℕ) (xs : List ℕ) {x : ℕ}
    → 0 < p
    → get_elem? xs (c + k * p) ≡ some x
    → get_elem? (stride_from p c xs) k ≡ some x
unfolding stride_from
get_elem?-stride_from p c k [] pos h = cc
get_elem?-stride_from p zero zero (x ∷ xs) pos h = let e : 0 + 0 * p ≡ 0 = omega arith in rw e at h
get_elem?-stride_from p zero (suc k) (x ∷ xs) pos h =
    let e : 0 + suc k * p ≡ suc (p - 1 + k * p) = omega arith in
    get_elem?-stride_from p (p - 1) k xs pos (rw e at h)
get_elem?-stride_from p (suc c) k (x ∷ xs) pos h =
    let e : suc c + k * p ≡ suc (c + k * p) = omega arith in
    get_elem?-stride_from p c k xs pos (rw e at h)

module _ {F H : Type 0} where
  -- If the slots of a request lie in pages, position by position, then the row prepared for it
  -- holds, at the page of each of its positions, the number of that page.
  pub page_row_lem :
      (table : ℕ → ℕ → ℕ) (pages : ℕ → ℕ) (p max_seqlen_k pos : ℕ) (req : Req F H)
      → 0 < p
      → req.device_len ≤ max_seqlen_k
      → ((q : ℕ) → q < req.device_len → table req.table_idx q ≡ pages (q / p) * p + q % p)
      → pos < req.device_len
      → get_elem? (page_row table p max_seqlen_k req) (pos / p) ≡ some (pages (pos / p))
  unfolding page_row strided
  page_row_lem table pages p m pos req pos_p le paged lt =
      let j = pos / p in
      let q = j * p in
      let row = map (table req.table_idx) (range 0 m) in
      let low : q < req.device_len = omega (arith, div-mul-le_self pos p) in
      let same : q / p ≡ j = mul-div_cancel j pos_p in
      let even : q % p ≡ 0 = omega (arith, rw same at (mod-add-div' q p)) in
      let slot : table req.table_idx (0 + q) ≡ pages j * p =
        let start : 0 + q ≡ q = omega arith in
        rw start (paged q low ∙ rw (same, even) (omega arith)) in
      let there : get_elem? (strided p row) j ≡ some (pages j * p) =
        get_elem?-stride_from p 0 j row pos_p (
          let start : 0 + q ≡ q = omega arith in
          rw start (
            get_elem?-map (table req.table_idx) q (range 0 m)
              (get_elem?-range_from 0 (m - 0) q (omega arith))
            ∙ ap some slot)) in
      elim (Bool-cases (ltb 1 p)) [
        | inl wide ↦ rw wide (
            get_elem?-map (λ s. s / p) j (strided p row) there
            ∙ ap some (mul-div_cancel (pages j) pos_p))
        | inr one ↦
            let e : pages j * p ≡ pages j =
              (let single : p ≡ 1 = ground arith in rw single (omega arith)) in
            rw one (there ∙ ap some e)
      ]
