-- ===== src/Cache/Rows.antt =====
-- What `_write_page_table` writes (python/minisgl/scheduler/cache.py).
use flash_kvmo_e.Base.{
  All, All-append, ==_iff, assertion_error, append_assoc, ℕ, zero, suc, ◌+◌, ◌-◌, ◌*◌, ◌≤◌, ◌<◌,
  ◌≡◌, ◌≢◌, refl, ◌⊎◌, inl, inr, some, List, [], ◌∷◌, ◌++◌, ok, length, get_elem?, drop, range,
  range_from, arith, length-append, guard-eq-ok, ok-injective, ◌&&◌, ◌==◌, false, ap, ◌∙◌, sym,
}
use flash_kvmo_e.Cache.Pages.{Allocation, cells, pair_with, scatter, write_cell, write_page_table}

-- No cell of the list is the one at `j`, `q`.
abbrev Misses : ℕ → ℕ → List (ℕ × ℕ) → Type 0
Misses j q = All (λ c. ((c.0 == j) && (c.1 == q)) ≡ false)

-- The request's row is another one, or the position is outside the new pages.
abbrev pub Outside : ℕ → ℕ → ℕ → List Allocation → Type 0
Outside p j q = All (λ e. (e.0 ≢ j) ⊎ (q < e.1 * p) ⊎ (e.2 * p ≤ q))

scatter_other :
    (table : ℕ → ℕ → ℕ) (cs : List (ℕ × ℕ)) (slots : List ℕ) (j q : ℕ)
    → Misses j q cs
    → scatter table cs slots j q ≡ table j q
unfolding scatter
scatter_other table [] slots j q h = refl
scatter_other table (c ∷ cs) [] j q h = refl
scatter_other table ((i, pos) ∷ cs) (s ∷ slots) j q h =
    scatter_other (write_cell table i pos s) cs slots j q h.1 ∙ ground (arith, h.0)

Misses-row :
    (i j q a n : ℕ) → (i ≢ j) ⊎ (q < a) ⊎ (a + n ≤ q) → Misses j q (pair_with i (range_from a n))
unfolding range_from
Misses-row i j q a zero h = tt
Misses-row i j q a (suc n) h = (ground arith, Misses-row i j q (suc a) n (ground arith))

Misses-cells : (p j q : ℕ) (info : List Allocation) → Outside p j q info → Misses j q (cells p info)
unfolding cells
Misses-cells p j q [] h = tt
Misses-cells p j q ((i, f, l) ∷ info) h =
    All-append _ (pair_with i (range (f * p) (l * p))) (cells p info)
      (Misses-row i j q (f * p) (l * p - f * p) (ground (arith, h.0))) (Misses-cells p j q info h.1)

-- The k-th cell of a row gets the k-th slot, whatever is written elsewhere.
scatter_row :
    (table : ℕ → ℕ → ℕ) (i a n k : ℕ) (rest : List (ℕ × ℕ)) (slots : List ℕ) {s : ℕ}
    → k < n
    → Misses i (a + k) rest
    → get_elem? slots k ≡ some s
    → scatter table (pair_with i (range_from a n) ++ rest) slots i (a + k) ≡ s
unfolding scatter range_from
scatter_row table i a zero k rest slots lt h e = elim lt [ ]
scatter_row table i a (suc n) k rest [] lt h e = cc
scatter_row table i a (suc n) zero rest (x ∷ slots) lt h e =
    scatter_other (write_cell table i a x) (pair_with i (range_from (suc a) n) ++ rest) slots i
      (a + 0)
      (All-append _ (pair_with i (range_from (suc a) n)) rest
        (Misses-row i i (a + 0) (suc a) n (inr (inl (omega arith)))) h)
    ∙ ground arith
scatter_row table i a (suc n) (suc k) rest (x ∷ slots) lt h e =
    let same : a + suc k ≡ suc a + k = omega arith in
    rw same
      (scatter_row (write_cell table i a x) i (suc a) n k rest slots (omega arith) (rw same at h) e)

scatter-append :
    (table : ℕ → ℕ → ℕ) (cs ds : List (ℕ × ℕ)) (slots : List ℕ)
    → length cs ≤ length slots
    → (t : ℕ → ℕ → ℕ) × (scatter table (cs ++ ds) slots ≡ scatter t ds (drop (length cs) slots))
unfolding scatter
scatter-append table [] ds slots h = (table, refl)
scatter-append table (c ∷ cs) ds [] h = absurd (omega arith)
scatter-append table ((i, pos) ∷ cs) ds (s ∷ slots) h =
    scatter-append (write_cell table i pos s) cs ds slots (omega arith)

get_elem?-drop : (n k : ℕ) (xs : List ℕ) → get_elem? (drop n xs) k ≡ get_elem? xs (n + k)
get_elem?-drop zero k xs = ap (get_elem? xs) (omega arith)
get_elem?-drop (suc n) k [] = refl
get_elem?-drop (suc n) k (x ∷ xs) =
    get_elem?-drop n k xs ∙ (let e : suc n + k ≡ suc (n + k) = omega arith in rw e refl)

cells-append : (p : ℕ) (xs ys : List Allocation) → cells p (xs ++ ys) ≡ cells p xs ++ cells p ys
unfolding cells
cells-append p [] ys = refl
cells-append p ((i, f, l) ∷ xs) ys = simp (cells-append p xs ys, append_assoc)

-- If the table is written without an error, an entry outside the new pages stays as it is.
pub write_page_table-other :
    (table table' : ℕ → ℕ → ℕ) (slots : List ℕ) (info : List Allocation) (p j q : ℕ)
    → write_page_table table slots info p ≡ ok table'
    → Outside p j q info
    → table' j q ≡ table j q
unfolding write_page_table
write_page_table-other table table' slots info p j q h out =
    let (_, made) = guard-eq-ok (length (cells p info) == length slots) assertion_error _ h in
    ap (λ t. t j q) (sym (ok-injective made))
    ∙ scatter_other table (cells p info) slots j q (Misses-cells p j q info out)

-- If the table is written without an error, the new pages of a request's row point, position by
-- position, to the slots allocated for it, which stand behind those of the requests before it,
-- if no later request writes the same position of that row.
pub write_page_table_lem :
    (table table' : ℕ → ℕ → ℕ) (slots : List ℕ) (before after : List Allocation) (i f l p k s : ℕ)
    → write_page_table table slots (before ++ (i, f, l) ∷ after) p ≡ ok table'
    → Outside p i (f * p + k) after
    → k < l * p - f * p
    → get_elem? slots (length (cells p before) + k) ≡ some s
    → table' i (f * p + k) ≡ s
unfolding write_page_table
write_page_table_lem table table' slots before after i f l p k s h out lt e =
    let all = before ++ (i, f, l) ∷ after in
    let (test, made) = guard-eq-ok (length (cells p all) == length slots) assertion_error _ h in
    let whole = (==_iff (length (cells p all)) (length slots)).0 test in
    let fits : length (cells p before) ≤ length slots = omega (
      arith,
      whole,
      ap length (cells-append p before ((i, f, l) ∷ after)),
      length-append (cells p before) (cells p ((i, f, l) ∷ after)),
    ) in
    let (t, run) = scatter-append table (cells p before) (cells p ((i, f, l) ∷ after)) slots fits in
    ap (λ u. u i (f * p + k)) (sym (ok-injective made))
    ∙ ap (λ cs. scatter table cs slots i (f * p + k)) (cells-append p before ((i, f, l) ∷ after))
    ∙ ap (λ u. u i (f * p + k)) run
    ∙ unfold cells in
      scatter_row t i (f * p) (l * p - f * p) k (cells p after) _ lt
        (Misses-cells p i (f * p + k) after out)
        (get_elem?-drop (length (cells p before)) k slots ∙ e)
