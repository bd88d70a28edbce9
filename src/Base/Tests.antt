-- ===== src/Base/Tests.antt =====
-- Boolean tests on numbers and lists of numbers, the conditional, and case lemmas.
use Prim.Native.Nat.{ℕ, ◌≤◌, ◌<◌, compare, Ordering}
use mathlib.Core.Path.{◌≡◌, refl}
use mathlib.Core.Logic.{◌↔◌, ◌≢◌, ◌⊎◌, inl, inr}
use mathlib.Core.Bool.{Bool, true, false, ◌&&◌}
use mathlib.Core.List.{List, [], ◌∷◌}
use mathlib.Core.Option.{Option, none, some}
use native.Mathlib.Omega.{arith}

abbrev pub ltb : ℕ → ℕ → Bool
ltb a b = elim (compare a b) [ Ordering.lt ↦ true | _ ↦ false ]

abbrev pub leb : ℕ → ℕ → Bool
leb a b = elim (compare a b) [ Ordering.gt ↦ false | _ ↦ true ]

infix 50 ◌==◌
abbrev pub ◌==◌ : ℕ → ℕ → Bool
a == b = elim (compare a b) [ Ordering.eq ↦ true | _ ↦ false ]

infix 1 if◌then◌else◌
abbrev pub if◌then◌else◌ {ℓ} : {A : Type ℓ} → Bool → A → A → A
if true then x else y = x
if false then x else y = y

pub ltb→lt : (a b : ℕ) → ltb a b ≡ true → a < b
ltb→lt a b h = ground arith

pub lt→ltb : (a b : ℕ) → a < b → ltb a b ≡ true
lt→ltb a b h = ground arith

pub leb→le : (a b : ℕ) → leb a b ≡ true → a ≤ b
leb→le a b h = ground arith

pub le→leb : (a b : ℕ) → a ≤ b → leb a b ≡ true
le→leb a b h = ground arith

pub ==_iff : (a b : ℕ) → ((a == b) ≡ true) ↔ (a ≡ b)
==_iff a b = ground arith

pub ==_ne : (a b : ℕ) → (a == b) ≡ false → a ≢ b
==_ne a b h e = ground arith

pub and_true : (a b : Bool) → (a && b) ≡ true → (a ≡ true) × (b ≡ true)
and_true true true h = (refl, refl)
and_true true false h = cc
and_true false b h = cc

pub Bool-cases : (b : Bool) → (b ≡ true) ⊎ (b ≡ false)
Bool-cases true = inl refl
Bool-cases false = inr refl

pub Option-cases {ℓ} : {A : Type ℓ} (o : Option A) → (o ≡ none) ⊎ ((a : A) × (o ≡ some a))
Option-cases none = inl refl
Option-cases (some a) = inr (a, refl)

-- Equality of two sequences of token ids.
unfoldable pub ids_eq : List ℕ → List ℕ → Bool
ids_eq [] [] = true
ids_eq (x ∷ xs) (y ∷ ys) = (x == y) && ids_eq xs ys
ids_eq _ _ = false

pub ids_eq_iff : (xs ys : List ℕ) → (ids_eq xs ys ≡ true) ↔ (xs ≡ ys)
unfolding ids_eq
ids_eq_iff [] [] = (λ _. refl, λ _. refl)
ids_eq_iff [] (y ∷ ys) = (λ h. cc, λ h. cc)
ids_eq_iff (x ∷ xs) [] = (λ h. cc, λ h. cc)
ids_eq_iff (x ∷ xs) (y ∷ ys) =
    (λ h. ground (arith, (ids_eq_iff xs ys).0), λ h. ground (arith, (ids_eq_iff xs ys).1))

pub ids_eq_refl : (xs : List ℕ) → ids_eq xs xs ≡ true
ids_eq_refl xs = (ids_eq_iff xs xs).1 refl
