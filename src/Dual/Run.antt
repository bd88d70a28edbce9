-- ===== src/Dual/Run.antt =====
-- Calls that change a state and may raise. An exception leaves the state as it is when it is
-- raised: a runner puts a backend back in its `finally` clause.
use flash_kvmo_e.Base.{◌≡◌, refl, Result, ok, raise, Error}

abbrev pub Run : Type 0 → Type 0 → Type 0
Run W A = W → Result A × W

module _ {W : Type 0} where
  abbrev pub continue : {A C : Type 0} → Result A × W → (A → Run W C) → Result C × W
  continue (ok a, w) f = f a w
  continue (raise e, w) f = (raise e, w)

  infixl 5 ◌>>=◌ ◌>>◌
  abbrev pub ◌>>=◌ : {A C : Type 0} → Run W A → (A → Run W C) → Run W C
  (m >>= f) w = continue (m w) f

  abbrev pub ◌>>◌ : {C : Type 0} → Run W (Unit {0}) → Run W C → Run W C
  m >> n = m >>= λ _. n

  abbrev pub return : {A : Type 0} → A → Run W A
  return a w = (ok a, w)

  abbrev pub fail : {A : Type 0} → Error → Run W A
  fail e w = (raise e, w)

  abbrev pub change : (W → W) → Run W (Unit {0})
  change f w = (ok tt, f w)

  abbrev pub get_state : Run W W
  get_state w = (ok w, w)

  -- `try: … finally: …`, for a clause that does not raise.
  abbrev pub finally : {A : Type 0} → Run W A → (W → W) → Run W A
  finally m f w = let (r, w') = m w in (r, f w')

  -- The call returns, in a state with the property.
  abbrev pub Next {κ} : Run W (Unit {0}) → W → (W → Type κ) → Type κ
  Next m w Q = (w' : W) × (m w ≡ (ok tt, w')) × Q w'

  pub >>-eq :
      {A C : Type 0} (m : Run W A) (f : A → Run W C) {w w' : W} {a : A}
      → m w ≡ (ok a, w')
      → (m >>= f) w ≡ f a w'
  >>-eq m f e = rw e refl

  pub Next-then {κ μ} :
      {P : W → Type κ} {Q : W → Type μ} (m n : Run W (Unit {0})) (w : W)
      → Next m w P
      → ((w' : W) → P w' → Next n w' Q)
      → Next (m >> n) w Q
  Next-then m n w (w1, e, p) k = let (w2, e', q) = k w1 p in (w2, rw e e', q)

  -- The same, computed from what the call gives.
  abbrev pub Returns : (W → Type 0) → Result (Unit {0}) × W → Type 0
  Returns Q (ok u, w) = Q w
  Returns Q (raise e, w) = ⊥

  pub Returns-Next : {Q : W → Type 0} (m : Run W (Unit {0})) (w : W) → Returns Q (m w) → Next m w Q
  Returns-Next {Q = Q} m w h = go (m w) h refl
    where
      go : (r : Result (Unit {0}) × W) → Returns Q r → m w ≡ r → Next m w Q
      go (ok u, w') q e = (w', e, q)
      go (raise e', w') q e = elim q [ ]

  -- A call of any type returns, and its value and state have the property.
  abbrev pub Outcome : {A : Type 0} → (A → W → Type 0) → Result A × W → Type 0
  Outcome Q (ok a, w) = Q a w
  Outcome Q (raise e, w) = ⊥

  pub Outcome-bind :
      {A C : Type 0} (Q : A → W → Type 0) (R : C → W → Type 0) (r : Result A × W) (f : A → Run W C)
      → Outcome Q r
      → ((a : A) (w : W) → Q a w → Outcome R (f a w))
      → Outcome R (continue r f)
  Outcome-bind Q R (ok a, w) f q k = k a w q
  Outcome-bind Q R (raise e, w) f q k = elim q [ ]

  pub Outcome-value :
      {A : Type 0} (Q : A → W → Type 0) (r : Result A × W)
      → Outcome Q r
      → (a : A) × (w : W) × (r ≡ (ok a, w)) × Q a w
  Outcome-value Q (ok a, w) q = (a, w, refl, q)
  Outcome-value Q (raise e, w) q = elim q [ ]
