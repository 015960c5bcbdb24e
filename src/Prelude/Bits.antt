-- ===== src/Prelude/Bits.antt =====
-- A mask bounds what it lets through.
use Prim.Native.Nat.{ℕ, zero, suc, ◌/◌, ◌≤◌, min, bit_and, digits, bit_and-bitwise}
use native.Mathlib.Omega.{arith}

-- With any number of digits read, the digits of the mask are not exceeded.
masked_le : (fuel word mask : ℕ) → digits (λ _. zero) min fuel word mask ≤ mask
masked_le zero word mask = omega arith
masked_le (suc fuel) zero mask = omega arith
masked_le (suc fuel) (suc word) mask = omega (arith, masked_le fuel (suc word / 2) (mask / 2))

pub bit_and-le : (word mask : ℕ) → bit_and word mask ≤ mask
bit_and-le word mask = omega (arith, bit_and-bitwise word mask, masked_le word word mask)
