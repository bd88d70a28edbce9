-- ===== src/Utils.antt =====
-- Rounding helpers (python/minisgl/utils/misc.py). The divisors of the callers are positive, so
-- Python's error on division by zero does not arise.
use native.Mathlib.Nat.{le_of_dvd, mod-eq-zero_of_dvd, dvd-sub, dvd-add, dvd_of_mod-eq-zero}
use flash_kvmo_e.Base.{
  ℕ, ◌+◌, ◌-◌, ◌*◌, ◌/◌, ◌%◌, ◌≤◌, ◌<◌, ◌≡◌, Bool, ◌&&◌, Result, ok, assertion_error, guard, ◌>>◌,
  ltb, ◌==◌, if◌then◌else◌, arith,
}

-- `b % a == 0` with `b > a` is KV-head replication.
unfoldable pub div_even : ℕ → ℕ → Bool → Result ℕ
div_even a b allow_replicate =
    if allow_replicate && ltb a b
    then (do guard (b % a == 0) assertion_error; ok 1)
    else (do guard (a % b == 0) assertion_error; ok (a / b))

unfoldable pub div_ceil : ℕ → ℕ → ℕ
div_ceil a b = (a + b - 1) / b

unfoldable pub align_ceil : ℕ → ℕ → ℕ
unfolding div_ceil
align_ceil a b = div_ceil a b * b

unfoldable pub align_down : ℕ → ℕ → ℕ
align_down a b = (a / b) * b

pub align_down-le : (a b : ℕ) → align_down a b ≤ a
unfolding align_down
align_down-le a b = grind arith

-- For a positive page size, rounding down loses less than a page, and rounding up adds less.
pub align_bounds :
    (a b : ℕ)
    → 0 < b
    → (align_down a b ≤ a)
      × (a < align_down a b + b)
      × (a ≤ align_ceil a b)
      × (align_ceil a b < a + b)
      × (align_down a b % b ≡ 0)
      × (align_ceil a b % b ≡ 0)
unfolding align_down align_ceil
align_bounds a b h = (grind arith, grind arith, grind arith, grind arith, grind arith, grind arith)

pub div_ceil_mono : (a c b : ℕ) → 0 < b → a ≤ c → div_ceil a b ≤ div_ceil c b
unfolding div_ceil
div_ceil_mono a c b h k = grind arith

pub mod-sub : (a b m : ℕ) → a % m ≡ 0 → b % m ≡ 0 → (a - b) % m ≡ 0
mod-sub a b m p q =
    mod-eq-zero_of_dvd m (dvd-sub m (dvd_of_mod-eq-zero m p) (dvd_of_mod-eq-zero m q))

pub mod-add : (a b m : ℕ) → a % m ≡ 0 → b % m ≡ 0 → (a + b) % m ≡ 0
mod-add a b m p q =
    mod-eq-zero_of_dvd m (dvd-add m (dvd_of_mod-eq-zero m p) (dvd_of_mod-eq-zero m q))

pub le-align_down : (a b : ℕ) → 0 < b → b ≤ a → b ≤ align_down a b
unfolding align_down
le-align_down a b pos h = grind (arith, align_bounds a b pos)

pub align_down-mod : (a b : ℕ) → 0 < b → align_down a b % b ≡ 0
align_down-mod a b pos = (align_bounds a b pos).4

pub le_of_mod-eq-zero : (a b : ℕ) → 0 < a → a % b ≡ 0 → b ≤ a
le_of_mod-eq-zero a b pos h = le_of_dvd pos (dvd_of_mod-eq-zero b h)

pub sub-mul-add : (a b p : ℕ) → b ≤ a → (a - b) * p + b * p ≡ a * p
sub-mul-add a b p h = grind arith
