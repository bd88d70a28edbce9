-- ===== src/Cache/Tests.antt =====
-- The theorems on the cache manager at small inputs.
use flash_kvmo_e.Base.{
  inr, ◌+◌, [], arith, ◌*◌, List, ◌<◌, inl, ◌∷◌, length, raise, ℕ, ◌≡◌, refl, ok,
}
use flash_kvmo_e.KvCache.Naive.{naive_cache, naive_evict_law}
use flash_kvmo_e.Cache.{Manager, new_manager, available_size, allocate}
use flash_kvmo_e.Cache.Pages.{cells, Allocation, write_page_table}
use flash_kvmo_e.Cache.Budget.{allocate_lem}
use flash_kvmo_e.Cache.Rows.{write_page_table_lem, write_page_table-other}

-- Four pages of two slots.
abbrev four_pages : Manager naive_cache
four_pages = new_manager 4 2 (λ _ _. 0) tt

abbrev two_left : Manager naive_cache
two_left = record four_pages { free_slots = 4 ∷ 6 ∷ [] }

allocate-two : allocate naive_cache 2 four_pages ≡ ok (0 ∷ 2 ∷ [], two_left)
unfolding allocate new_manager
allocate-two = refl

four_pages-size : 0 < four_pages.page_size
unfolding new_manager
four_pages-size = omega arith

allocate_lem_example :
    (length {A = ℕ} (0 ∷ 2 ∷ []) ≡ 2)
    × (available_size naive_cache two_left + 2 * four_pages.page_size
        ≡ available_size naive_cache four_pages)
    × (naive_cache.protected_size two_left.prefix_cache
        ≡ naive_cache.protected_size four_pages.prefix_cache)
unfolding naive_evict_law
allocate_lem_example =
    allocate_lem naive_cache four_pages (naive_evict_law four_pages.page_size) four_pages-size tt 2
      (0 ∷ 2 ∷ []) two_left allocate-two

-- The second page of row 0 and the first of row 1, two slots each.
abbrev info : List Allocation
info = (0, 1, 2) ∷ (1, 0, 1) ∷ []

abbrev slots : List ℕ
slots = 20 ∷ 21 ∷ 30 ∷ 31 ∷ []

abbrev written : ℕ → ℕ → ℕ
written = elim (write_page_table (λ _ _. 0) slots info 2) [ ok t ↦ t | raise _ ↦ λ _ _. 0 ]

write_page_table-written : write_page_table (λ _ _. 0) slots info 2 ≡ ok written
unfolding write_page_table
write_page_table-written = refl

write_page_table_lem_example : written 0 (1 * 2 + 1) ≡ 21
unfolding cells
write_page_table_lem_example =
    write_page_table_lem (λ _ _. 0) written slots [] ((1, 0, 1) ∷ []) 0 1 2 2 1 21
      write_page_table-written (inl (omega arith), tt) (omega arith) refl

write_page_table-other_example : written 1 3 ≡ 0
write_page_table-other_example =
    write_page_table-other (λ _ _. 0) written slots info 2 1 3 write_page_table-written
      (inl (omega arith), (inr (inr (omega arith)), tt))
