-- ===== src/Base/Ratios.antt =====
-- Fractions with a positive denominator, in place of the program's floats: a jitter factor and
-- what Math.random returns. Their arithmetic is exact; the rounding of floats is not modelled.
use native.Mathlib.Nat.{
  div-le_of_le-mul, le_trans, le_refl, le_of_eq, mul_assoc, mul_comm, mul-le-mul,
}
use queue_forge.Base.{Bool, arith, leb, ℕ, ◌*◌, ◌+◌, ◌-◌, ◌/◌, ◌<◌, ◌≤◌}
use Prim.Native.Nat.{ℕ, ◌*◌, ◌/◌, ◌+◌, ◌-◌, ◌≤◌, ◌<◌}
use mathlib.Core.Bool.{Bool}
use queue_forge.Base.Tests.{leb}

pub record Ratio : Type 0 where
  pub num : ℕ
  pub den : ℕ

-- A fraction in [0, 1].
pub record IsFactor (r : Ratio) : Type 0 where
  pub den_pos : 0 < r.den
  pub le_one : r.num ≤ r.den

-- A fraction in [0, 1): what Math.random returns.
pub record IsDraw (r : Ratio) : Type 0 where
  pub den_pos : 0 < r.den
  pub lt_one : r.num < r.den

abbrev pub is_zero : Ratio → Bool
is_zero r = leb r.num 0

-- Math.floor(n * r * s).
unfoldable pub scale : ℕ → Ratio → Ratio → ℕ
scale n r s = n * r.num * s.num / (r.den * s.den)

-- Math.ceil(n * r * s).
unfoldable pub scale_up : ℕ → Ratio → Ratio → ℕ
scale_up n r s = (n * r.num * s.num + r.den * s.den - 1) / (r.den * s.den)

-- A part of a number is at most the number.
pub scale-le : (n : ℕ) (r s : Ratio) → IsFactor r → IsDraw s → scale n r s ≤ n
unfolding scale
scale-le n r s hr hs = div-le_of_le-mul (r.den * s.den) (
    le_trans (le_of_eq (mul_assoc n r.num s.num)) (
      le_trans (mul-le-mul (le_refl n) (mul-le-mul hr.le_one (omega arith)))
        (le_of_eq (mul_comm n _))))
