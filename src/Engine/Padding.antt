-- ===== src/Engine/Padding.antt =====
-- Every batch can be padded (python/minisgl/engine/graph.py).
use flash_kvmo_e.Base.{
  sym, ◌∙◌, All, All-mono, subst, ok-injective, ℕ, ◌+◌, ◌-◌, ◌≤◌, ◌<◌, ◌≡◌, refl, Bool, true, false,
  ◌||◌, List, [], ◌∷◌, ◌++◌, ok, leb, ◌==◌, length, replicate, arith, Bool-cases, inl, inr, ◌⊎◌,
}
use flash_kvmo_e.Core.{Phase, prefill, decode}
use flash_kvmo_e.Base.Sorting.{insert, sorted}
use flash_kvmo_e.Engine.Graph.{
  maximum, new_runner, can_use_cuda_graph, first_at_least, padded_size, pad_batch,
}

-- Membership, as a test.
unfoldable pub elem : ℕ → List ℕ → Bool
elem x [] = false
elem x (y ∷ ys) = (y == x) || elem x ys

elem-insert : (r x : ℕ) (xs : List ℕ) → elem r (insert x xs) ≡ elem r (x ∷ xs)
unfolding elem insert
elem-insert r x [] = refl
elem-insert r x (y ∷ ys) = ground (arith, elem-insert r x ys)

pub elem-sorted : (r : ℕ) (xs : List ℕ) → elem r (sorted xs) ≡ elem r xs
unfolding elem sorted
elem-sorted r [] = refl
elem-sorted r (x ∷ xs) = ground (arith, elem-sorted r xs, elem-insert r x (sorted xs))

elem-maximum : (xs : List ℕ) → 0 < length xs → elem (maximum xs) xs ≡ true
unfolding elem maximum
elem-maximum [] h = elim h [ ]
elem-maximum (x ∷ []) h = ground arith
elem-maximum (x ∷ y ∷ xs) h = ground (arith, elem-maximum (y ∷ xs) (omega arith))

-- The search finds a size if one is large enough, and what it finds is in the list.
first_at_least_lem :
    (size m : ℕ) (xs : List ℕ)
    → elem m xs ≡ true
    → size ≤ m
    → (n : ℕ) × (first_at_least size xs ≡ ok n) × (size ≤ n) × (elem n xs ≡ true)
unfolding first_at_least elem
first_at_least_lem size m [] h le = cc
first_at_least_lem size m (x ∷ xs) h le = elim (Bool-cases (leb size x)) [
  | inl fits ↦ (x, rw fits refl, ground arith, ground arith)
  | inr small ↦
      let (n, run, a, b) = first_at_least_lem size m xs (ground arith) le in
      (n, rw small run, a, ground arith)
]

length_of_maximum : (bs : List ℕ) (size : ℕ) → 0 < size → size ≤ maximum bs → 0 < length bs
unfolding maximum
length_of_maximum [] size pos h = absurd (omega arith)
length_of_maximum (x ∷ bs) size pos h = omega arith

-- Every number of the list is at most those behind it.
unfoldable Ordered : List ℕ → Type 0
Ordered [] = Unit
Ordered (x ∷ xs) = All (λ y. x ≤ y) xs × Ordered xs

All-insert {κ} : (P : ℕ → Type κ) (x : ℕ) (xs : List ℕ) → P x → All P xs → All P (insert x xs)
unfolding insert
All-insert P x [] px all = (px, all)
All-insert P x (y ∷ ys) px all = elim (Bool-cases (leb x y)) [
  | inl le ↦ rw le (px, all)
  | inr gt ↦ rw gt (all.0, All-insert P x ys px all.1)
]

All_of_insert {κ} : (P : ℕ → Type κ) (x : ℕ) (xs : List ℕ) → All P (insert x xs) → P x × All P xs
unfolding insert
All_of_insert P x [] all = all
All_of_insert P x (y ∷ ys) all = elim (Bool-cases (leb x y)) [
  | inl le ↦ rw le at all
  | inr gt ↦
      let (py, rest) : P y × All P (insert x ys) = rw gt at all in
      let (px, others) = All_of_insert P x ys rest in (px, (py, others))
]

All_of_sorted {κ} : (P : ℕ → Type κ) (xs : List ℕ) → All P (sorted xs) → All P xs
unfolding sorted
All_of_sorted P [] all = tt
All_of_sorted P (x ∷ xs) all =
    let (px, rest) = All_of_insert P x (sorted xs) all in (px, All_of_sorted P xs rest)

insert-Ordered : (x : ℕ) (xs : List ℕ) → Ordered xs → Ordered (insert x xs)
unfolding insert Ordered
insert-Ordered x [] o = (tt, tt)
insert-Ordered x (y ∷ ys) o = elim (Bool-cases (leb x y)) [
  | inl le ↦
      let first : x ≤ y = ground arith in
      rw le ((first, All-mono ys (λ z h. omega (arith, first, h)) o.0), o)
  | inr gt ↦
      let below : y ≤ x = ground arith in
      rw gt (All-insert (λ z. y ≤ z) x ys below o.0, insert-Ordered x ys o.1)
]

sorted-Ordered : (xs : List ℕ) → Ordered (sorted xs)
unfolding sorted Ordered
sorted-Ordered [] = tt
sorted-Ordered (x ∷ xs) = insert-Ordered x (sorted xs) (sorted-Ordered xs)

-- No number between the size and what the search finds is in an ordered list.
first_at_least-least :
    (size n : ℕ) (xs : List ℕ)
    → Ordered xs
    → first_at_least size xs ≡ ok n
    → All (λ m. (m < size) ⊎ (n ≤ m)) xs
unfolding first_at_least Ordered
first_at_least-least size n [] o run = tt
first_at_least-least size n (x ∷ xs) o run = elim (Bool-cases (leb size x)) [
  | inl fits ↦
      let e : x ≡ n = ok-injective (rw fits at run) in
      (inr (omega arith), All-mono xs (λ z h. inr (omega (arith, e, h))) o.0)
  | inr small ↦ (inl (ground arith), first_at_least-least size n xs o.1 (rw small at run))
]

below_maximum : (bs : List ℕ) (size : ℕ) → maximum bs < size → All (λ m. m < size) bs
unfolding maximum
below_maximum [] size h = tt
below_maximum (x ∷ bs) size h = (ground arith, below_maximum bs size (ground arith))

abbrev pub Unpadded : List ℕ → Phase → ℕ → Type 0
Unpadded bs phase size = (phase ≡ prefill) ⊎ All (λ m. m < size) bs

-- Whether a graph can be used, without the runner.
graph_cases :
    (bs : List ℕ) (phase : Phase) (size : ℕ)
    → 0 < size
    → ((can_use_cuda_graph (new_runner bs) phase size ≡ false) × Unpadded bs phase size)
      ⊎ ((can_use_cuda_graph (new_runner bs) phase size ≡ true)
          × (phase ≡ decode)
          × (size ≤ maximum bs)
          × (0 < length bs))
unfolding can_use_cuda_graph new_runner
graph_cases bs prefill size pos = inl (refl, inl refl)
graph_cases bs decode size pos = elim (Bool-cases (leb size (maximum bs))) [
  | inl fits ↦ inr (fits, refl, ground arith, length_of_maximum bs size pos (ground arith))
  | inr large ↦ inl (large, inr (below_maximum bs size (ground arith)))
]

-- For a batch that is not empty, `pad_batch` never raises StopIteration: the padded batch is the
-- requests themselves and dummies behind them. A prefill batch, and a batch that is larger than
-- every captured size, gets no dummy; any other batch is padded to a captured size, the least that
-- is large enough.
pub pad_batch_lem :
    {R : Type 0} (bs : List ℕ) (dummy : R) (phase : Phase) (reqs : List R)
    → 0 < length reqs
    → (n : ℕ) × (pad_batch (new_runner bs) dummy phase reqs ≡ ok (reqs ++ replicate n dummy))
      × ((Unpadded bs phase (length reqs) × (n ≡ 0))
          ⊎ ((phase ≡ decode)
              × (elem (length reqs + n) bs ≡ true)
              × All (λ m. (m < length reqs) ⊎ (length reqs + n ≤ m)) bs))
unfolding pad_batch padded_size new_runner
pad_batch_lem bs dummy phase reqs pos = elim (graph_cases bs phase (length reqs) pos) [
  | inl (plain, why) ↦
      let none_left : length reqs - length reqs ≡ 0 = omega arith in
      (0, rw (plain, none_left) refl, inl (why, refl))
  | inr (graph, decodes, large, some_bs) ↦
      let size = length reqs in
      let (n, run, enough, there) =
        first_at_least_lem size (maximum bs) (sorted bs)
          (elem-sorted (maximum bs) bs ∙ elem-maximum bs some_bs) large in
      let whole : size + (n - size) ≡ n = omega arith in
      let least =
        All_of_sorted (λ m. (m < size) ⊎ (n ≤ m)) bs
          (first_at_least-least size n (sorted bs) (sorted-Ordered bs) run) in
      (
        n - size,
        rw (graph, run) refl,
        inr (
          decodes,
          rw whole (sym (elem-sorted n bs) ∙ there),
          subst (λ k. All (λ m. (m < size) ⊎ (k ≤ m)) bs) (sym whole) least,
        ),
      )
]
