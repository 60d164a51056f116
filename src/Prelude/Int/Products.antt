-- ===== src/Prelude/Int/Products.antt =====
-- Products of integers by a number of units: how they add and how they keep an order.
use Prim.Native.Nat.{ℕ, ◌+◌, ◌*◌, ◌≤◌}
use mathlib.Core.Path.{◌≡◌}
use native.Mathlib.Omega.{arith}
use nexus_trade_engine.Prelude.Int.{
  ℤ, pos, pos_part, neg_part, ◌+ℤ◌, ◌*ℤ◌, ◌≤ℤ◌, +ℤ_parts, eq_of_parts,
}

pub *ℤ_parts :
    (a b : ℤ)
    → pos_part (a *ℤ b) + (pos_part a * neg_part b + neg_part a * pos_part b)
      ≡ neg_part (a *ℤ b) + (pos_part a * pos_part b + neg_part a * neg_part b)
unfolding ◌*ℤ◌
*ℤ_parts a b = ground arith

le_mul_right : (a b n : ℕ) → a ≤ b → a * n ≤ b * n
le_mul_right a b n h = grind arith

-- A larger factor gives a larger product by a number of units.
pub *ℤ_mono : (a b : ℤ) (n : ℕ) → a ≤ℤ b → a *ℤ pos n ≤ℤ b *ℤ pos n
*ℤ_mono a b n h = omega (
  arith,
  *ℤ_parts a (pos n),
  *ℤ_parts b (pos n),
  le_mul_right (pos_part a + neg_part b) (pos_part b + neg_part a) n h,
)

pub *ℤ_distrib : (a : ℤ) (m n : ℕ) → a *ℤ pos m +ℤ a *ℤ pos n ≡ a *ℤ pos (m + n)
*ℤ_distrib a m n =
    omega (
      arith,
      +ℤ_parts,
      eq_of_parts,
      *ℤ_parts a (pos m),
      *ℤ_parts a (pos n),
      *ℤ_parts a (pos (m + n)),
    )

pub *ℤ_zero : (a : ℤ) → a *ℤ pos 0 ≡ pos 0
*ℤ_zero a = omega (arith, eq_of_parts, *ℤ_parts a (pos 0))

-- The sum of two positive numbers of units is one.
pub +ℤ-pos : (m n : ℕ) → pos m +ℤ pos n ≡ pos (m + n)
+ℤ-pos m n = omega (arith, +ℤ_parts, eq_of_parts)
