-- ===== src/Models/Gguf/Parts/Tiling.antt =====
-- Where `_MappedParts` maps the parts of a file, and what it undoes (python/minisgl/models/
-- gguf_parts.py).
use flash_kvmo_e.Models.Gguf.Parts.{
  Call, mmap_anonymous, mmap_fixed, munmap, sizes_of, map_files, unmap, init_mapped, check_sizes,
  all_positive, all_aligned,
}
use flash_kvmo_e.Base.{
  Result-cases, ◌++◌, ◌≤◌, All, Error, guard-eq-ok, ℕ, ◌+◌, ◌%◌, ◌<◌, Bool, true, false, none, some,
  List, [], ◌∷◌, Result, ok, raise, value_error, runtime_error, guard, ltb, ◌==◌, sum, ◌≡◌, refl,
  sym, ◌⊎◌, inl, inr, and_true, ltb→lt, ==_iff, arith, subst,
}
use native.Mathlib.Nat.{mod-eq-zero_of_dvd, dvd-add, dvd_of_mod-eq-zero}

module _ {H : Type 0} where
  -- The calls map the files one behind the other from `start` to `end`, each file at the start of
  -- a page and not empty.
  abbrev pub Tiles : ℕ → ℕ → ℕ → List (H × ℕ) → List (Call H) → Type 0
  Tiles page start end [] [] = start ≡ end
  Tiles page start end ((handle, size) ∷ files) (call ∷ calls) =
      (call ≡ mmap_fixed start size handle)
      × (start % page ≡ 0)
      × (0 < size)
      × Tiles page (start + size) end files calls
  Tiles page start end _ _ = ⊥

  -- The call replaces a part of the range only.
  abbrev pub Inside : ℕ → ℕ → Call H → Type 0
  Inside start end (mmap_fixed address size handle) = (start ≤ address) × (address + size ≤ end)
  Inside start end _ = ⊥

add_aligned : (a b page : ℕ) → a % page ≡ 0 → b % page ≡ 0 → (a + b) % page ≡ 0
add_aligned a b page ha hb =
    mod-eq-zero_of_dvd page (dvd-add page (dvd_of_mod-eq-zero page ha) (dvd_of_mod-eq-zero page hb))

abbrev pub is_raise {ℓ} : {A : Type ℓ} → Result A → Bool
is_raise (raise e) = true
is_raise (ok a) = false

guard-true : (test : Bool) (e : Error) → guard test e ≡ ok tt → test ≡ true
guard-true true e run = refl
guard-true false e run = cc

raise-not-ok : (e : Error) → let r : Result (Unit {0}) = raise e in ¬ (r ≡ ok tt)
raise-not-ok e h = cc

check_sizes-eq-ok :
    (page : ℕ) (linux : Bool) (sizes : List ℕ)
    → check_sizes page linux sizes ≡ ok tt
    → (all_positive sizes ≡ true) × (all_aligned page sizes ≡ true)
unfolding check_sizes
check_sizes-eq-ok page linux sizes run =
    let (_, run1) = guard-eq-ok linux runtime_error _ run in
    let (positive, run2) = guard-eq-ok (all_positive sizes) value_error _ run1 in
    (positive, guard-true (all_aligned page sizes) value_error run2)

module _ {H : Type 0} (map_at : ℕ → ℕ → H → Result (Unit {0})) (address : ℕ) where
  map_files-Inside :
      (offset end : ℕ) (files : List (H × ℕ))
      → offset + sum (sizes_of files) ≤ end
      → All (Inside address (address + end)) (map_files map_at address offset files).0
  unfolding map_files sum
  map_files-Inside offset end [] fits = tt
  map_files-Inside offset end ((handle, size) ∷ files) fits =
      elim (Result-cases (map_at (address + offset) size handle)) [
        | inl (e, failed) ↦ rw (map_files, failed) ((omega arith, omega (arith, fits)), tt)
        | inr (u, mapped) ↦
            rw (map_files, mapped)
              (
                (omega arith, omega (arith, fits)),
                map_files-Inside (offset + size) end files (omega (arith, fits)),
              )
      ]

  map_files-Tiles :
      (page offset : ℕ) (files : List (H × ℕ))
      → all_positive (sizes_of files) ≡ true
      → all_aligned page (sizes_of files) ≡ true
      → (address + offset) % page ≡ 0
      → (map_files map_at address offset files).1 ≡ ok tt
      → Tiles page
          (address + offset)
          (address + (offset + sum (sizes_of files)))
          files
          (map_files map_at address offset files).0
  unfolding all_positive all_aligned map_files sum
  map_files-Tiles page offset [] positive aligned on_page run = omega arith
  map_files-Tiles page offset ((handle, size) ∷ []) positive aligned on_page run =
      let (some_bytes, _) = and_true (ltb 0 size) true positive in
      elim (Result-cases (map_at (address + offset) size handle)) [
        | inl (e, failed) ↦ absurd (raise-not-ok e (rw (map_files, failed) at run))
        | inr (u, mapped) ↦
            rw (map_files, mapped) (refl, on_page, ltb→lt 0 size some_bytes, omega arith)
      ]
  map_files-Tiles page offset ((handle, size) ∷ (handle', size') ∷ files) positive aligned on_page
        run =
      let next : List (H × ℕ) = (handle', size') ∷ files in
      let (some_bytes, positive') = and_true (ltb 0 size) (all_positive (sizes_of next)) positive in
      let (whole, aligned') =
        and_true (size % page == 0) (all_aligned page (sizes_of next)) aligned in
      elim (Result-cases (map_at (address + offset) size handle)) [
        | inl (e, failed) ↦ absurd (raise-not-ok e (rw (map_files, failed) at run))
        | inr (u, mapped) ↦
            let e : address + (offset + size) ≡ address + offset + size = omega arith in
            let there : address + (offset + size + sum (sizes_of next))
                ≡ address + (offset + (size + sum (sizes_of next))) =
              omega arith in
            let on_page' : (address + (offset + size)) % page ≡ 0 =
              subst (λ k. k % page ≡ 0) (sym e)
                (add_aligned (address + offset) size page on_page
                  ((==_iff (size % page) 0).0 whole)) in
            let calls = (map_files map_at address (offset + size) next).0 in
            let ended : (map_files map_at address (offset + size) next).1 ≡ ok tt =
              rw (map_files, mapped) at run in
            let tiles =
              map_files-Tiles page (offset + size) ((handle', size') ∷ files) positive' aligned'
                on_page' ended in
            rw (map_files, mapped)
              (
                refl,
                on_page,
                ltb→lt 0 size some_bytes,
                subst
                    (λ k.
                      Tiles page k (address + (offset + (size + sum (sizes_of next)))) next calls)
                    e
                    (subst (λ k. Tiles page (address + (offset + size)) k next calls) there tiles),
              )
      ]

-- What mmap answers for the whole range is the start of a page, as its documentation says.
-- Then the constructor ends in one of three ways. It raises before it owns a range, having called
-- mmap at most once, in vain. Or it raises after it reserved the range of the sum of the sizes:
-- then every call behind the reservation lies in the range, the last call unmaps the whole range,
-- and the object has no address. Or it returns: then the object has the reserved range, and the
-- calls map every file into it in order, without a gap or an overlap, each at the start of a page
-- and not empty.
pub init_mapped-Tiles :
    {H : Type 0} (page : ℕ) (linux : Bool) (reserve : ℕ → Result ℕ)
    (map_at : ℕ → ℕ → H → Result (Unit {0})) (files : List (H × ℕ))
    → ((size address : ℕ) → reserve size ≡ ok address → address % page ≡ 0)
    → let (parts, calls, ended) = init_mapped page linux reserve map_at files in
      let total = sum (sizes_of files) in
      ((parts.address ≡ none)
        × (is_raise ended ≡ true)
        × ((calls ≡ [])
            ⊎ ((calls ≡ mmap_anonymous total ∷ []) × (is_raise (reserve total) ≡ true))))
      ⊎ ((address : ℕ) × (reserve total ≡ ok address)
          × (parts.address ≡ none)
          × (is_raise ended ≡ true)
          × ((mapped : List (Call H)) × (calls
                ≡ mmap_anonymous total ∷ mapped ++ (munmap address total ∷ []))
              × All (Inside address (address + total)) mapped))
      ⊎ ((address : ℕ) × (reserve total ≡ ok address)
          × (parts ≡ record { address = some address; size = total })
          × (ended ≡ ok tt)
          × ((mapped : List (Call H)) × (calls ≡ mmap_anonymous total ∷ mapped)
              × Tiles page address (address + total) files mapped))
unfolding init_mapped unmap
init_mapped-Tiles page linux reserve map_at files on_pages =
    let total = sum (sizes_of files) in
    elim (Result-cases (check_sizes page linux (sizes_of files))) [
      | inl (e, bad) ↦ inl (rw (init_mapped, bad) (refl, refl, inl refl))
      | inr (u, good) ↦ elim (Result-cases (reserve total)) [
        | inl (e, full) ↦ inl (rw (init_mapped, good, full) (refl, refl, inr (refl, refl)))
        | inr (address, reserved) ↦
            let calls = (map_files map_at address 0 files).0 in
            elim (Result-cases (map_files map_at address 0 files).1) [
              | inl (e, failed) ↦
                  let inside = map_files-Inside map_at address 0 total files (omega arith) in
                  inr (
                    inl (
                      rw (init_mapped, good, reserved, failed)
                        (address, refl, refl, refl, (calls, refl, inside))))
              | inr (v, mapped) ↦
                  let (positive, aligned) = check_sizes-eq-ok page linux (sizes_of files) good in
                  let start : address + 0 ≡ address = omega arith in
                  let tiles =
                    map_files-Tiles map_at address page 0 files positive aligned
                      (subst (λ k. k % page ≡ 0) (sym start) (on_pages total address reserved))
                      mapped in
                  let none_before : 0 + total ≡ total = omega arith in
                  let whole =
                    subst (λ k. Tiles page k (address + total) files calls) start
                      (subst (λ k. Tiles page (address + 0) (address + k) files calls) none_before
                        tiles) in
                  inr (
                    inr (
                      rw (init_mapped, good, reserved, mapped)
                        (address, refl, refl, refl, (calls, refl, whole))))
            ]
      ]
    ]
