-- ===== src/Models/Gguf/Parts.antt =====
-- The one mapping of the byte-split parts of a file: `_MappedParts` (python/minisgl/models/
-- gguf_parts.py). `reserve` is what mmap answers for the whole range, `map_at` what it answers for
-- a part at an address, and `page` is `mmap.PAGESIZE`. `H` is the type of open files. The calls
-- of libc are recorded in order.
pub mod Tiling
mod Tests
use flash_kvmo_e.Base.{
  ◌++◌, ◌≤◌, All, Error, guard-eq-ok, ℕ, zero, suc, ◌+◌, ◌%◌, ◌<◌, Bool, true, false, not, ◌&&◌,
  Option, none, some, List, [], ◌∷◌, Result, ok, raise, value_error, runtime_error, guard, ◌>>=◌,
  ◌>>◌, ltb, ◌==◌, if◌then◌else◌, sum, ◌≡◌, refl, sym, ap, ◌∙◌, ◌⊎◌, inl, inr, Bool-cases, and_true,
  ltb→lt, ==_iff, arith, ok-injective, subst, >>=-eq-ok,
}

pub record MappedParts : Type 0 where
  pub address : Option ℕ
  pub size : ℕ

-- The calls of libc: mmap with MAP_ANONYMOUS, mmap with MAP_FIXED, and munmap.
pub data Call (H : Type 0) : Type 0 where
  mmap_anonymous : ℕ → Call H
  mmap_fixed : ℕ → ℕ → H → Call H
  munmap : ℕ → ℕ → Call H

unfoldable pub all_positive : List ℕ → Bool
all_positive [] = true
all_positive (size ∷ sizes) = ltb 0 size && all_positive sizes

-- Every size but the last is a number of pages.
unfoldable pub all_aligned : ℕ → List ℕ → Bool
all_aligned page [] = true
all_aligned page (size ∷ []) = true
all_aligned page (size ∷ next ∷ sizes) = (size % page == 0) && all_aligned page (next ∷ sizes)

-- The checks of the platform and of the sizes.
unfoldable pub check_sizes : ℕ → Bool → List ℕ → Result (Unit {0})
unfolding all_positive all_aligned
check_sizes page linux sizes = do
  guard linux runtime_error
  guard (all_positive sizes) value_error
  guard (all_aligned page sizes) value_error

module _ {H : Type 0} where
  abbrev pub sizes_of : List (H × ℕ) → List ℕ
  sizes_of [] = []
  sizes_of ((handle, size) ∷ files) = size ∷ sizes_of files

  -- The loop over the files, from an offset: the calls, and how it ends.
  unfoldable pub map_files :
      (ℕ → ℕ → H → Result (Unit {0})) → ℕ → ℕ → List (H × ℕ) → List (Call H) × Result (Unit {0})
  map_files map_at address offset [] = ([], ok tt)
  map_files map_at address offset ((handle, size) ∷ files) =
      let call = mmap_fixed (address + offset) size handle in
      let rest = map_files map_at address (offset + size) files in
      elim (map_at (address + offset) size handle) [
        | raise e ↦ (call ∷ [], raise e)
        | ok _ ↦ (call ∷ rest.0, rest.1)
      ]

  -- `_unmap`
  unfoldable pub unmap : MappedParts → MappedParts × List (Call H)
  unmap parts = elim parts.address [
    | none ↦ (parts, [])
    | some address ↦ (record parts { address = none }, munmap address parts.size ∷ [])
  ]

  -- What the object is after the constructor, the calls, and how the constructor ends. The size is
  -- 0 where the attribute is not set yet.
  unfoldable pub init_mapped :
      ℕ
      → Bool
      → (ℕ → Result ℕ)
      → (ℕ → ℕ → H → Result (Unit {0}))
      → List (H × ℕ)
      → MappedParts × List (Call H) × Result (Unit {0})
  unfolding check_sizes map_files unmap sum
  init_mapped page linux reserve map_at files =
      let total = sum (sizes_of files) in
      elim (check_sizes page linux (sizes_of files)) [
        | raise e ↦ (record { address = none; size = 0 }, [], raise e)
        | ok _ ↦ elim (reserve total) [
          | raise e ↦ (record { address = none; size = total }, mmap_anonymous total ∷ [], raise e)
          | ok address ↦
              let parts : MappedParts = record { address = some address; size = total } in
              let (calls, ended) = map_files map_at address 0 files in
              elim ended [
                | raise e ↦
                    let (parts', undone) = unmap parts in
                    (parts', mmap_anonymous total ∷ calls ++ undone, raise e)
                | ok _ ↦ (parts, mmap_anonymous total ∷ calls, ok tt)
              ]
        ]
      ]
