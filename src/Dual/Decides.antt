-- ===== src/Dual/Decides.antt =====
-- Tests and checks as decisions, for the checks of DeepseekV2DualBatchRunner.py.
use flash_kvmo_e.Base.{
  ◌≡◌, refl, Bool, true, false, not, ◌&&◌, ◌↔◌, ◌⊎◌, inl, inr, Bool-cases, Result, ok, raise,
  value_error, guard, ◌>>◌,
}

-- A test that decides a proposition, and a check that returns when it holds and otherwise raises
-- a ValueError.
abbrev pub Decides : Bool → Type 0 → Type 0
Decides test P = ((test ≡ true) × P) ⊎ ((test ≡ false) × (¬ P))

abbrev pub Checks : Result (Unit {0}) → Type 0 → Type 0
Checks m P = ((m ≡ ok tt) × P) ⊎ ((m ≡ raise value_error) × (¬ P))

pub decides : {P : Type 0} (test : Bool) → (test ≡ true) ↔ P → Decides test P
decides test iff = elim (Bool-cases test) [
  | inl holds ↦ inl (holds, iff.0 holds)
  | inr fails ↦ inr (fails, λ p. cc (fails, iff.1 p))
]

pub decides-and : {P Q : Type 0} (a b : Bool) → Decides a P → Decides b Q → Decides (a && b) (P × Q)
decides-and a b (inl (e, p)) (inl (f, q)) = inl (rw (e, f) refl, (p, q))
decides-and a b (inl (e, p)) (inr (f, q)) = inr (rw (e, f) refl, λ h. q h.1)
decides-and a b (inr (e, p)) d = inr (rw e refl, λ h. p h.0)

pub checks-guard : {P : Type 0} (test : Bool) → Decides test P → Checks (guard test value_error) P
checks-guard test (inl (e, p)) = inl (rw e refl, p)
checks-guard test (inr (e, p)) = inr (rw e refl, p)

pub checks-then :
    {P Q : Type 0} (m n : Result (Unit {0})) → Checks m P → Checks n Q → Checks (m >> n) (P × Q)
checks-then m n (inl (e, p)) (inl (f, q)) = inl (rw (e, f) refl, (p, q))
checks-then m n (inl (e, p)) (inr (f, q)) = inr (rw (e, f) refl, λ h. q h.1)
checks-then m n (inr (e, p)) d = inr (rw e refl, λ h. p h.0)

pub not_iff : (b : Bool) → (not b ≡ true) ↔ (b ≡ false)
not_iff true = (λ h. cc, λ h. cc)
not_iff false = (λ h. refl, λ h. refl)
