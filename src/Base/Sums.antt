-- ===== src/Base/Sums.antt =====
-- Sums of a weight over the numbers below a bound.
use Prim.Native.Nat.{ℕ, zero, suc, ◌+◌, ◌≤◌, ◌<◌}
use mathlib.Core.Path.{◌≡◌, refl}
use mathlib.Core.Logic.{◌≢◌}
use native.Mathlib.Omega.{arith}
use native.Mathlib.Decide.{ℕ_discrete}

unfoldable pub total : (ℕ → ℕ) → ℕ → ℕ
total w zero = 0
total w (suc n) = total w n + w n

pub total_congr : (v w : ℕ → ℕ) (n : ℕ) → ((i : ℕ) → i < n → v i ≡ w i) → total v n ≡ total w n
unfolding total
total_congr v w zero h = refl
total_congr v w (suc n) h =
    omega (arith, total_congr v w n (λ i k. h i (omega arith)), h n (omega arith))

pub le-total : (w : ℕ → ℕ) (n u : ℕ) → u < n → w u ≤ total w n
unfolding total
le-total w zero u h = elim h [ ]
le-total w (suc n) u h = elim (ℕ_discrete u n) [
  | yes e ↦ subst-le e
  | no ne ↦ omega (arith, le-total w n u (omega arith))
]
  where
    subst-le : u ≡ n → w u ≤ total w n + w n
    subst-le e = grind arith

-- A change of the weight at one place changes the sum by as much.
pub total_update :
    (v w : ℕ → ℕ) (n u : ℕ)
    → u < n
    → ((i : ℕ) → i ≢ u → v i ≡ w i)
    → total v n + w u ≡ total w n + v u
unfolding total
total_update v w zero u h same = elim h [ ]
total_update v w (suc n) u h same = elim (ℕ_discrete u n) [
  | yes e ↦ let below = total_congr v w n (λ i k. same i (omega arith)) in grind arith
  | no ne ↦
      let e : v n ≡ w n = same n (omega arith) in
      omega (arith, total_update v w n u (omega arith) same, e)
]
