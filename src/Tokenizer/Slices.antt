-- ===== src/Tokenizer/Slices.antt =====
-- Slices of lists that grow at their end.
use flash_kvmo_e.Base.{
  ℕ, zero, suc, ◌≤◌, ◌≡◌, refl, ap, List, [], ◌∷◌, ◌++◌, length, take, drop, arith,
  take-append-drop, take_of_length-le,
}

pub take-append_left {ℓ} :
    {A : Type ℓ} (n : ℕ) (xs ys : List A) → n ≤ length xs → take n (xs ++ ys) ≡ take n xs
take-append_left zero xs ys short = refl
take-append_left (suc n) [] ys short = absurd (omega arith)
take-append_left (suc n) (x ∷ xs) ys short = ap (◌∷◌ x) (take-append_left n xs ys (omega arith))

pub drop-append_left {ℓ} : {A : Type ℓ} (xs ys : List A) → drop (length xs) (xs ++ ys) ≡ ys
drop-append_left [] ys = refl
drop-append_left (x ∷ xs) ys = drop-append_left xs ys

pub take_all {ℓ} : {A : Type ℓ} (xs : List A) → take (length xs) xs ≡ xs
take_all xs = take_of_length-le (length xs) xs (omega arith)

-- A slice and what follows it.
pub slice-append-drop {ℓ} :
    {A : Type ℓ} (a b : ℕ) (xs : List A)
    → a ≤ b
    → b ≤ length xs
    → drop a (take b xs) ++ drop b xs ≡ drop a xs
slice-append-drop zero b xs low high = take-append-drop b xs
slice-append-drop (suc a) zero xs low high = absurd (omega arith)
slice-append-drop (suc a) (suc b) [] low high = refl
slice-append-drop (suc a) (suc b) (x ∷ xs) low high =
    slice-append-drop a b xs (omega arith) (omega arith)

pub drop_all {ℓ} : {A : Type ℓ} (m : ℕ) (xs : List A) → length xs ≤ m → drop m xs ≡ []
drop_all zero [] short = refl
drop_all zero (x ∷ xs) short = absurd (omega (arith, short))
drop_all (suc m) [] short = refl
drop_all (suc m) (x ∷ xs) short = drop_all m xs (omega (arith, short))

pub take-take-le {ℓ} : {A : Type ℓ} (m n : ℕ) (xs : List A) → m ≤ n → take m (take n xs) ≡ take m xs
take-take-le zero n xs le = refl
take-take-le (suc m) zero xs le = absurd (omega (arith, le))
take-take-le (suc m) (suc n) [] le = refl
take-take-le (suc m) (suc n) (x ∷ xs) le = ap (◌∷◌ x) (take-take-le m n xs (omega (arith, le)))
