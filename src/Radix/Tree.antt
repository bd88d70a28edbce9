-- ===== src/Radix/Tree.antt =====
-- The invariant of the radix tree, and the ids and indices that a node stands for.
use flash_kvmo_e.Base.{
  ℕ, ◌%◌, ◌<◌, ◌≡◌, ◌≢◌, sym, ap, none, some, List, [], ◌++◌, arith, length, subst,
}
use flash_kvmo_e.Radix.{Radix, key_fn}
use flash_kvmo_e.Radix.Dict.{get}
use flash_kvmo_e.Radix.Shape.{Shape, shape}

-- What holds of a child `c`, found under the page `k` at the node `p`.
pub record IsChild (t : ℕ → Shape) (page n p : ℕ) (k : List ℕ) (c : ℕ) : Type 0 where
  pub bound : c < n
  pub parent : (t c).parent ≡ some p
  pub first : key_fn page (t c).key ≡ k
  pub some_ids : 0 < length (t c).key
  pub paged : length (t c).key % page ≡ 0
  pub valued : length (t c).value ≡ length (t c).key

pub record IsTree (t : ℕ → Shape) (page n : ℕ) : Type 0 where
  pub page_pos : 0 < page
  pub root_bound : 0 < n
  pub root : (t 0).parent ≡ none
  pub child :
      (p : ℕ) (k : List ℕ) (c : ℕ) → p < n → get k (t p).children ≡ some c → IsChild t page n p k c

-- `u` stands for the ids and indices on the way to it from the root.
pub data Spells (t : ℕ → Shape) (n : ℕ) : ℕ → List ℕ → List ℕ → Type 0 where
  at_root : {u : ℕ} → (t u).parent ≡ none → u < n → Spells t n u [] []
  below :
      {u p : ℕ} {ids indices : List ℕ}
      → (t u).parent ≡ some p
      → u < n
      → Spells t n p ids indices
      → Spells t n u (ids ++ (t u).key) (indices ++ (t u).value)

-- No node is its own parent, where there is a way to the root.
pub Spells-ne_parent :
    {t : ℕ → Shape} {n u : ℕ} {ids indices : List ℕ}
    → Spells t n u ids indices
    → (v : ℕ) → v ≡ u
    → (t v).parent ≢ some v
Spells-ne_parent {t} (at_root e _) v same loop = cc (ap (λ w. (t w).parent) same)
Spells-ne_parent {t} (below {p = p} e _ s) v same loop =
    let top : v ≡ p = ground (arith, ap (λ w. (t w).parent) same) in Spells-ne_parent s v top loop

pub Spells-bound :
    {t : ℕ → Shape} {n u : ℕ} {ids indices : List ℕ} → Spells t n u ids indices → u < n
Spells-bound (at_root _ b) = b
Spells-bound (below _ b _) = b

abbrev pub IsRadix : Radix → Type 0
IsRadix r = IsTree (shape r) r.page_size r.counter

abbrev pub StandsFor : Radix → ℕ → List ℕ → List ℕ → Type 0
StandsFor r = Spells (shape r) r.counter

-- `below`, at ids and indices that are known up to an equation.
pub below_eq :
    {t : ℕ → Shape} {n u p : ℕ} {ids indices ids' indices' : List ℕ}
    → (t u).parent ≡ some p
    → u < n
    → Spells t n p ids indices
    → ids' ≡ ids ++ (t u).key
    → indices' ≡ indices ++ (t u).value
    → Spells t n u ids' indices'
below_eq {t} {n} {u} {ids = ids} {indices = indices} {ids' = ids'} {indices' = indices'} e b s keys
      values =
    subst (λ k. Spells t n u k indices') (sym keys)
      (subst (λ v. Spells t n u (ids ++ (t u).key) v) (sym values) (below e b s))
