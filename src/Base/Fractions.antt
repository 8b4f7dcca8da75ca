-- ===== src/Base/Fractions.antt =====
-- Scaling by a fraction.
use Prim.Native.Nat.{ℕ, zero, suc, ◌*◌, ◌/◌, ◌≤◌}
use native.Mathlib.Nat.{div-le_of_le-mul, mul-le-mul_left}
use native.Mathlib.Omega.{arith}

-- scaling by a fraction of at most 1 does not grow
pub scale_le : (n num den : ℕ) → num ≤ den → n * num / den ≤ n
scale_le n num zero h = omega arith
scale_le n num (suc d) h = div-le_of_le-mul (suc d) (omega (arith, mul-le-mul_left n h))
