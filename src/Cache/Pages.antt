-- ===== src/Cache/Pages.antt =====
-- Pages and token slots (python/minisgl/scheduler/cache.py).
use flash_kvmo_e.Base.{
  ℕ, zero, suc, ◌-◌, ◌*◌, List, [], ◌∷◌, ◌++◌, Result, ok, assertion_error, guard, ◌>>◌, ◌&&◌, ◌==◌,
  if◌then◌else◌, length, range, range_from,
}

-- `indices[::page_size]`, with `k` elements to skip before the next one that is taken.
unfoldable pub stride_from : ℕ → ℕ → List ℕ → List ℕ
stride_from page_size k [] = []
stride_from page_size zero (x ∷ xs) = x ∷ stride_from page_size (page_size - 1) xs
stride_from page_size (suc k) (x ∷ xs) = stride_from page_size k xs

unfoldable pub strided : ℕ → List ℕ → List ℕ
unfolding stride_from
strided page_size xs = stride_from page_size 0 xs

-- The token slots of a list of pages.
unfoldable pub expand : ℕ → List ℕ → List ℕ
unfolding range_from
expand page_size [] = []
expand page_size (page ∷ pages) = range_from page page_size ++ expand page_size pages

unfoldable pub page_to_token : ℕ → List ℕ → List ℕ
unfolding expand
page_to_token page_size pages = if page_size == 1 then pages else expand page_size pages

abbrev pub Allocation : Type 0
Allocation = ℕ × ℕ × ℕ

abbrev pub pair_with : ℕ → List ℕ → List (ℕ × ℕ)
pair_with i [] = []
pair_with i (pos ∷ rest) = (i, pos) ∷ pair_with i rest

-- The positions that `_write_page_table` fills, each with its table index.
unfoldable pub cells : ℕ → List Allocation → List (ℕ × ℕ)
unfolding range_from
cells page_size [] = []
cells page_size ((table_idx, first_page, last_page) ∷ info) =
    pair_with table_idx (range (first_page * page_size) (last_page * page_size))
    ++ cells page_size info

abbrev pub write_cell : (ℕ → ℕ → ℕ) → ℕ → ℕ → ℕ → ℕ → ℕ → ℕ
write_cell table i pos slot j q = if (i == j) && (pos == q) then slot else table j q

-- `page_table[table_idxs, offsets] = allocated`. torch leaves open which slot a repeated cell gets;
-- here it is the last one.
unfoldable pub scatter : (ℕ → ℕ → ℕ) → List (ℕ × ℕ) → List ℕ → ℕ → ℕ → ℕ
scatter table ((i, pos) ∷ rest) (slot ∷ slots) = scatter (write_cell table i pos slot) rest slots
scatter table _ _ = table

unfoldable pub write_page_table : (ℕ → ℕ → ℕ) → List ℕ → List Allocation → ℕ → Result (ℕ → ℕ → ℕ)
unfolding cells scatter
write_page_table table allocated info page_size = do
  guard (length (cells page_size info) == length allocated) assertion_error
  ok (scatter table (cells page_size info) allocated)
