-- ===== src/Base/Texts.antt =====
-- Python's strings where the program only builds and compares them, and dicts with such keys.
use Prim.Native.Nat.{ℕ, zero, suc, ◌/◌, ◌%◌}
use Prim.Native.String.{◌++◌}
pub use Prim.Native.String.{String}
use mathlib.Core.Bool.{Bool, true, false, ◌||◌, ◌&&◌}
use mathlib.Core.Path.{◌≡◌, refl}
use mathlib.Core.Logic.{◌↔◌}
use mathlib.Core.Option.{Option, none, some}
use mathlib.Core.List.{List, [], ◌∷◌}
use native.Mathlib.Omega.{arith}
use text.Mathlib.Text
use text.Mathlib.TextEquality.{eq_iff}
use text.Mathlib.TextPositions.{eq_refl}
use flash_kvmo_e.Base.Tests.{ltb, ◌==◌, if◌then◌else◌}

infixr 65 ◌<>◌
abbrev pub ◌<>◌ : String → String → String
s <> t = s ++ t

abbrev pub str_eq : String → String → Bool
str_eq s t = Text.◌==◌ s t

pub str_eq_iff : (s t : String) → (str_eq s t ≡ true) ↔ (s ≡ t)
str_eq_iff = eq_iff

pub str_eq_refl : (s : String) → str_eq s s ≡ true
str_eq_refl = eq_refl

-- `t in s`
abbrev pub contains : String → String → Bool
contains s t = elim (Text.find? s t) [ none ↦ false | some i ↦ true ]

-- `s in names`
unfoldable pub str_elem : String → List String → Bool
str_elem s [] = false
str_elem s (t ∷ ts) = str_eq t s || str_elem s ts

unfoldable pub strs_eq : List String → List String → Bool
strs_eq [] [] = true
strs_eq (s ∷ ss) (t ∷ ts) = str_eq s t && strs_eq ss ts
strs_eq _ _ = false

abbrev pub digit : ℕ → String
digit d =
    if d == 0
    then "0"
    else if d == 1
    then "1"
    else if d == 2
    then "2"
    else if d == 3
    then "3"
    else if d == 4
    then "4"
    else if d == 5
    then "5"
    else if d == 6
    then "6"
    else if d == 7
    then "7"
    else if d == 8
    then "8"
    else "9"

-- `str(n)`. One round for each digit: `n` rounds and one are enough.
unfoldable pub digits : ℕ → ℕ → String
digits zero n = ""
digits (suc rounds) n =
    let front = digits rounds (n / 10) in if ltb n 10 then digit n else front <> digit (n % 10)

unfoldable pub show : ℕ → String
unfolding digits
show n = digits (suc n) n

abbrev pub Dict {ℓ} : Type ℓ → Type ℓ
Dict V = List (String × V)

module _ {ℓ} {V : Type ℓ} where
  -- `d.get(k)`
  unfoldable pub get : Dict V → String → Option V
  get [] k = none
  get ((key, value) ∷ rest) k = if str_eq key k then some value else get rest k

  -- `k in d`
  abbrev pub has : Dict V → String → Bool
  has d k = elim (get d k) [ none ↦ false | some _ ↦ true ]

  -- `d[k] = value` keeps the place of a key that is there.
  unfoldable pub set : String → V → Dict V → Dict V
  set k value [] = (k, value) ∷ []
  set k value ((key, old) ∷ rest) = elim (str_eq key k) [
    | true ↦ (key, value) ∷ rest
    | false ↦ (key, old) ∷ set k value rest
  ]

  -- `del d[k]`, for a key that is there.
  unfoldable pub del : String → Dict V → Dict V
  del k [] = []
  del k ((key, value) ∷ rest) = elim (str_eq key k) [
    | true ↦ rest
    | false ↦ (key, value) ∷ del k rest
  ]

  pub get-set :
      (k : String) (value : V) (d : Dict V) (j : String)
      → get (set k value d) j ≡ (if str_eq k j then some value else get d j)
  unfolding get set
  get-set k value [] j = refl
  get-set k value ((key, old) ∷ rest) j =
      ground (arith, get-set k value rest j, eq_iff key k, eq_iff key j, eq_iff k j)
