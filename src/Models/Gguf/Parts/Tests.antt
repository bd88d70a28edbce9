-- ===== src/Models/Gguf/Parts/Tests.antt =====
-- Three parts, the last of them no whole page, and a part that cannot be mapped. Files are numbers.
use flash_kvmo_e.Models.Gguf.Parts.{Call, mmap_anonymous, mmap_fixed, munmap, init_mapped, unmap}
use flash_kvmo_e.Models.Gguf.Parts.Tiling.{init_mapped-Tiles, Tiles, Inside, is_raise}
use flash_kvmo_e.Base.{
  sum, ℕ, ◌+◌, ◌%◌, List, [], ◌∷◌, ◌++◌, Result, ok, raise, os_error, refl, ◌≡◌, true, ◌⊎◌, none,
  some, if◌then◌else◌, ltb, All, ok-injective, subst, false,
}

abbrev files : List (ℕ × ℕ)
files = (7, 8) ∷ (8, 4) ∷ (9, 3) ∷ []

abbrev any_place : ℕ → ℕ → ℕ → Result (Unit {0})
any_place address size handle = ok tt

maps : init_mapped 4 true (λ n. ok 100) any_place files ≡ (
  record { address = some 100; size = 15 },
  mmap_anonymous 15 ∷ mmap_fixed 100 8 7 ∷ mmap_fixed 108 4 8 ∷ mmap_fixed 112 3 9 ∷ [],
  ok tt,
)
unfolding init_mapped
maps = refl

unmaps :
    init_mapped 4 true
      (λ n. ok 100)
      (λ address size handle. if ltb 104 address then raise os_error else ok tt)
      files
    ≡ (
      record { address = none; size = 15 },
      mmap_anonymous 15 ∷ mmap_fixed 100 8 7 ∷ mmap_fixed 108 4 8 ∷ munmap 100 15 ∷ [],
      raise os_error,
    )
unfolding init_mapped
unmaps = refl

-- `__del__`
deletes :
    unmap {H = ℕ} (record { address = some 100; size = 15 })
    ≡ (record { address = none; size = 15 }, munmap 100 15 ∷ [])
unfolding unmap
deletes = refl

on_page : (address : ℕ) → ok 100 ≡ ok address → address % 4 ≡ 0
on_page address e = subst (λ k. k % 4 ≡ 0) (ok-injective e) refl

init_mapped-Tiles_example :
    let (parts, calls, ended) = init_mapped 4 true (λ n. ok 100) any_place files in
    ((parts.address ≡ none)
      × (is_raise ended ≡ true)
      × ((calls ≡ []) ⊎ ((calls ≡ mmap_anonymous 15 ∷ []) × (false ≡ true))))
    ⊎ ((address : ℕ) × (ok 100 ≡ ok address)
        × (parts.address ≡ none)
        × (is_raise ended ≡ true)
        × ((mapped : List (Call ℕ)) × (calls
              ≡ mmap_anonymous 15 ∷ mapped ++ (munmap address 15 ∷ []))
            × All (Inside address (address + 15)) mapped))
    ⊎ ((address : ℕ) × (ok 100 ≡ ok address)
        × (parts ≡ record { address = some address; size = 15 })
        × (ended ≡ ok tt)
        × ((mapped : List (Call ℕ)) × (calls ≡ mmap_anonymous 15 ∷ mapped)
            × Tiles 4 address (address + 15) files mapped))
unfolding sum
init_mapped-Tiles_example = init_mapped-Tiles 4 true (λ n. ok 100) any_place files (λ size. on_page)
