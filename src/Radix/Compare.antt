-- ===== src/Radix/Compare.antt =====
-- `fast_compare_key` finds the longest common prefix (kernel/csrc/src/radix.cpp).
use flash_kvmo_e.Base.{◌↔◌, ℕ, zero, suc, ◌≤◌, ◌≡◌, refl, List, [], ◌∷◌, arith, length, take}
use flash_kvmo_e.Radix.{fast_compare_key}

pub fast_compare_key-le :
    (xs ys : List ℕ) → (fast_compare_key xs ys ≤ length xs) × (fast_compare_key xs ys ≤ length ys)
unfolding fast_compare_key
fast_compare_key-le [] ys = (omega arith, omega arith)
fast_compare_key-le (x ∷ xs) [] = (omega arith, omega arith)
fast_compare_key-le (x ∷ xs) (y ∷ ys) =
    let (a, b) = fast_compare_key-le xs ys in (ground arith, ground arith)

-- Up to the position found, the sequences agree.
pub take-fast_compare_key :
    (m : ℕ) (xs ys : List ℕ) → m ≤ fast_compare_key xs ys → take m xs ≡ take m ys
unfolding fast_compare_key
take-fast_compare_key zero xs ys h = refl
take-fast_compare_key (suc m) [] ys h = absurd (omega arith)
take-fast_compare_key (suc m) (x ∷ xs) [] h = absurd (omega arith)
take-fast_compare_key (suc m) (x ∷ xs) (y ∷ ys) h = ground (arith, take-fast_compare_key m xs ys)

-- It passes every common prefix.
pub le-fast_compare_key :
    (m : ℕ) (xs ys : List ℕ) → m ≤ length xs → take m xs ≡ take m ys → m ≤ fast_compare_key xs ys
unfolding fast_compare_key
le-fast_compare_key zero xs ys h e = omega arith
le-fast_compare_key (suc m) [] ys h e = absurd (omega arith)
le-fast_compare_key (suc m) (x ∷ xs) [] h e = cc
le-fast_compare_key (suc m) (x ∷ xs) (y ∷ ys) h e =
    ground (arith, le-fast_compare_key m xs ys (omega arith))

-- The result is the longest common prefix: the prefixes of length `m` agree and are whole exactly
-- when `m` is at most the result.
pub fast_compare_key_lem :
    (m : ℕ) (xs ys : List ℕ)
    → (m ≤ fast_compare_key xs ys) ↔ ((m ≤ length xs) × (m ≤ length ys) × (take m xs ≡ take m ys))
fast_compare_key_lem m xs ys =
    let (a, b) = fast_compare_key-le xs ys in
    (
      λ h. (omega arith, omega arith, take-fast_compare_key m xs ys h),
      λ (p, _, e). le-fast_compare_key m xs ys p e,
    )
