-- ===== src/Scheduler/Table.antt =====
-- `TableManager` (python/minisgl/scheduler/table.py). The page table it names is the tensor of the
-- cache manager, and is kept there. Free slots are taken from the end of the list.
use flash_kvmo_e.Base.{
  >>=-eq-ok, ℕ, zero, suc, ◌+◌, ◌-◌, ◌≡◌, refl, ◌&&◌, List, [], ◌∷◌, ◌++◌, Result, ok, raise,
  index_error, ◌>>=◌, leb, ltb, ◌==◌, if◌then◌else◌, length, range, range_from, arith,
}

pub record TableManager : Type 0 where
  pub free_slots : List ℕ
  pub token_pool : ℕ → ℕ → ℕ

unfoldable pub new_table : ℕ → TableManager
unfolding range_from
new_table max_running_reqs = record { free_slots = range 0 max_running_reqs; token_pool = λ _ _. 0 }

abbrev pub available_size : TableManager → ℕ
available_size t = length t.free_slots

-- `list.pop()`
unfoldable pub pop : List ℕ → Result (ℕ × List ℕ)
pop [] = raise index_error
pop (x ∷ []) = ok (x, [])
pop (x ∷ y ∷ xs) = do (last, rest) ← pop (y ∷ xs); ok (last, x ∷ rest)

unfoldable pub allocate : TableManager → Result (ℕ × TableManager)
unfolding pop
allocate t = do (slot, rest) ← pop t.free_slots; ok (slot, record t { free_slots = rest })

unfoldable pub free : ℕ → TableManager → TableManager
free slot t = record t { free_slots = t.free_slots ++ slot ∷ [] }

abbrev pub get_or : List ℕ → ℕ → ℕ → ℕ
get_or [] i d = d
get_or (x ∷ xs) zero d = x
get_or (x ∷ xs) (suc i) d = get_or xs i d

-- `table[row, start : start + len(values)].copy_(values)`
unfoldable pub write_row : ℕ → ℕ → List ℕ → (ℕ → ℕ → ℕ) → ℕ → ℕ → ℕ
write_row row start values table j q =
    if (row == j) && leb start q && ltb q (start + length values)
    then get_or values (q - start) 0
    else table j q

pop-append : (xs : List ℕ) (x : ℕ) → pop (xs ++ x ∷ []) ≡ ok (x, xs)
unfolding pop
pop-append [] x = refl
pop-append (y ∷ []) x = refl
pop-append (y ∷ z ∷ xs) x = rw (pop-append (z ∷ xs) x)

pop_lem : (xs : List ℕ) {x : ℕ} {rest : List ℕ} → pop xs ≡ ok (x, rest) → xs ≡ rest ++ x ∷ []
unfolding pop
pop_lem [] h = cc
pop_lem (x ∷ []) h = ground arith
pop_lem (x ∷ y ∷ xs) h =
    let ((last, rest), run, e) = >>=-eq-ok (pop (y ∷ xs)) _ h in
    ground (arith, pop_lem (y ∷ xs) run)

-- The slot freed last is the next one handed out, and taking it undoes the free.
pub allocate-free : (t : TableManager) (slot : ℕ) → allocate (free slot t) ≡ ok (slot, t)
unfolding allocate free
allocate-free t slot = rw (pop-append t.free_slots slot)

-- If a slot is handed out, freeing it gives back the table as it was.
pub free-allocate : (t t' : TableManager) (slot : ℕ) → allocate t ≡ ok (slot, t') → free slot t' ≡ t
unfolding allocate free
free-allocate t t' slot h =
    let ((last, rest), run, e) = >>=-eq-ok (pop t.free_slots) _ h in
    ground (arith, pop_lem t.free_slots run)
