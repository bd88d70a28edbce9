-- ===== src/Radix/Dict.antt =====
-- Python's dict from a page of token ids to a node, in the order of insertion.
use flash_kvmo_e.Base.{
  ℕ, ◌≡◌, refl, Option, none, some, List, [], ◌∷◌, arith, if◌then◌else◌, ids_eq, ids_eq_iff,
}

-- d.get(k)
unfoldable pub get : List ℕ → List (List ℕ × ℕ) → Option ℕ
unfolding ids_eq
get k [] = none
get k ((j, u) ∷ d) = if ids_eq j k then some u else get k d

-- d[k] = u keeps the place of a key that is there.
unfoldable pub put : List ℕ → ℕ → List (List ℕ × ℕ) → List (List ℕ × ℕ)
unfolding ids_eq
put k u [] = (k, u) ∷ []
put k u ((j, v) ∷ d) = if ids_eq j k then (j, u) ∷ d else (j, v) ∷ put k u d

-- del d[k]
unfoldable pub del : List ℕ → List (List ℕ × ℕ) → List (List ℕ × ℕ)
unfolding ids_eq
del k [] = []
del k ((j, v) ∷ d) = if ids_eq j k then d else (j, v) ∷ del k d

pub get-put :
    (k j : List ℕ) (u : ℕ) (d : List (List ℕ × ℕ))
    → get j (put k u d) ≡ (if ids_eq k j then some u else get j d)
unfolding get put
get-put k j u [] = refl
get-put k j u ((i, v) ∷ d) =
    ground (arith, get-put k j u d, ids_eq_iff i k, ids_eq_iff i j, ids_eq_iff k j)
