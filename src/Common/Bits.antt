-- ===== src/Common/Bits.antt =====
-- Bounds of bit operations at variables.
use Prim.Native.Nat.{ℕ, zero, suc, ◌/◌, ◌≤◌, min, bit_and, digits, bit_and-bitwise}
use native.Mathlib.Omega.{arith}

-- `&` digit by digit, with rounds to spare.
abbrev and_rounds : ℕ → ℕ → ℕ → ℕ
and_rounds n a b = digits (λ b. zero) min n a b

and_rounds-le : (n a b : ℕ) → and_rounds n a b ≤ b
and_rounds-le zero a b = omega arith
and_rounds-le (suc n) zero b = omega arith
and_rounds-le (suc n) (suc a) b = omega (arith, and_rounds-le n (suc a / 2) (b / 2))

-- A mask bounds what it lets through.
pub bit_and-le : (a b : ℕ) → bit_and a b ≤ b
bit_and-le a b = omega (arith, bit_and-bitwise a b, and_rounds-le a a b)
