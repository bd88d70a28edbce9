-- ===== src/Base/Results.antt =====
-- What a call that may raise returns. A failing call leaves no state behind: nothing in the
-- modelled code catches these exceptions.
use flash_kvmo_e.Base.Tests.{if◌then◌else◌}
use mathlib.Core.Bool.{Bool, true, false}
use mathlib.Core.Logic.{◌⊎◌, inl, inr}
use mathlib.Core.Path.{◌≡◌, refl, subst}
use mathlib.Core.Option.{Option, none, some}

-- `negative_size` and `out_of_fuel` are the model's own: a counter would go below zero, a loop
-- would run on. The others are Python's.
pub data Error : Type 0 where
  assertion_error key_error value_error index_error runtime_error not_implemented : Error
  stop_iteration file_not_found keyboard_interrupt attribute_error type_error : Error
  zero_division argument_type_error : Error
  os_error negative_size out_of_fuel : Error

pub data Result {ℓ} (A : Type ℓ) : Type ℓ where
  ok : A → Result A
  raise : Error → Result A

-- `assert test`, and `if not test: raise e`.
abbrev pub guard : Bool → Error → Result (Unit {0})
guard false e = raise e
guard true e = ok tt

infixl 5 ◌>>=◌ ◌>>◌
abbrev pub ◌>>=◌ {ℓ μ} : {A : Type ℓ} {C : Type μ} → Result A → (A → Result C) → Result C
raise e >>= rest = raise e
ok value >>= rest = rest value

abbrev pub ◌>>◌ {ℓ} : {C : Type ℓ} → Result (Unit {0}) → Result C → Result C
check >> call = check >>= λ _. call

-- A chain that returns has a first call that returns, and a rest that does.
pub >>=-eq-ok {ℓ μ} :
    {A : Type ℓ} {C : Type μ} (call : Result A) (rest : A → Result C) {c : C}
    → (call >>= rest) ≡ ok c
    → (value : A) × (call ≡ ok value) × (rest value ≡ ok c)
>>=-eq-ok (raise e) rest run = cc
>>=-eq-ok (ok value) rest run = (value, refl, run)

-- The same, with the rest of the proof as its last argument but one.
pub step {ℓ μ κ} :
    {A : Type ℓ} {C : Type μ} {P : Type κ} {c : C} (call : Result A) {rest : A → Result C}
    → ((value : A) → call ≡ ok value → rest value ≡ ok c → P)
    → (call >>= rest) ≡ ok c
    → P
step (raise e) k run = cc
step (ok value) k run = k value refl run

pub if-eq-ok {ℓ} :
    {A : Type ℓ} (test : Bool) (m n : Result A) {a : A}
    → (if test then m else n) ≡ ok a
    → (test ≡ true → m ≡ ok a) × (test ≡ false → n ≡ ok a)
if-eq-ok true m n run = (λ _. run, λ e. cc)
if-eq-ok false m n run = (λ e. cc, λ _. run)

pub guard-eq-ok {ℓ} :
    {B : Type ℓ} (test : Bool) (e : Error) (k : Result B) {b : B}
    → (guard test e >> k) ≡ ok b
    → (test ≡ true) × (k ≡ ok b)
guard-eq-ok true e k h = (refl, h)
guard-eq-ok false e k h = cc

pub ok-injective {ℓ} : {A : Type ℓ} {a b : A} → ok a ≡ ok b → a ≡ b
ok-injective h = cc

-- What holds of the value of a call, if it returns one.
pub record Ensures {ℓ κ} {A : Type ℓ} (Q : A → Type κ) (m : Result A) : Type (ℓ ⊔ κ) where
  pub holds : (a : A) → m ≡ ok a → Q a

module _ {ℓ κ} {A : Type ℓ} {Q : A → Type κ} where
  pub Ensures-ok : (a : A) → Q a → Ensures Q (ok a)
  Ensures-ok a q = record { holds = λ b e. subst Q (ok-injective e) q }

  pub Ensures-if :
      (b : Bool) (m n : Result A)
      → (b ≡ true → Ensures Q m)
      → (b ≡ false → Ensures Q n)
      → Ensures Q (if b then m else n)
  Ensures-if true m n x y = x refl
  Ensures-if false m n x y = y refl

  pub Ensures-guard :
      (b : Bool) (e : Error) (k : Result A) → (b ≡ true → Ensures Q k) → Ensures Q (guard b e >> k)
  Ensures-guard true e k h = h refl
  Ensures-guard false e k h = record { holds = λ a r. cc }

module _ {ℓ κ μ} {A : Type ℓ} {B : Type κ} {Q : B → Type μ} where
  pub Ensures-bind :
      (m : Result A) (f : A → Result B)
      → ((a : A) → m ≡ ok a → Ensures Q (f a))
      → Ensures Q (m >>= f)
  Ensures-bind (ok a) f h = h a refl
  Ensures-bind (raise e) f h = record { holds = λ a r. cc }

module _ {ℓ κ μ} {B : Type κ} {Q : B → Type μ} where
  pub Ensures-option :
      {C : Type ℓ} (o : Option C) (n : Result B) (s : C → Result B)
      → (o ≡ none → Ensures Q n)
      → ((c : C) → o ≡ some c → Ensures Q (s c))
      → Ensures Q (elim o [ none ↦ n | some c ↦ s c ])
  Ensures-option none n s x y = x refl
  Ensures-option (some c) n s x y = y c refl

pub Result-cases {ℓ} :
    {A : Type ℓ} (m : Result A) → ((e : Error) × (m ≡ raise e)) ⊎ ((a : A) × (m ≡ ok a))
Result-cases (raise e) = inl (e, refl)
Result-cases (ok a) = inr (a, refl)
