-- ===== src/Base/Bits.antt =====
-- Bounds on the bit operations.
use Prim.Native.Nat.{
  ℕ, zero, suc, ◌^◌, ◌<◌, ◌≤◌, ◌/◌, ◌%◌, digits, differ, bit_xor, bit_xor-bitwise, bit_and,
  bit_and-bitwise, min,
}
use native.Mathlib.Nat.{pow-suc}
use native.Mathlib.Omega.{arith}

differ-le : (k x y : ℕ) → x ≤ k → y ≤ k → differ x y ≤ k
differ-le k zero y a b = b
differ-le k (suc x) zero a b = a
differ-le k (suc x) (suc y) a b = differ-le k x y (omega arith) (omega arith)

-- The digits of an exclusive or stay below a power of two that bounds both numbers.
xor_digits-lt : (n k a b : ℕ) → a < 2 ^ k → b < 2 ^ k → digits (λ y. y) differ n a b < 2 ^ k
xor_digits-lt zero k a b ha hb = hb
xor_digits-lt (suc n) k zero b ha hb = hb
xor_digits-lt (suc n) zero (suc a) b ha hb = absurd (omega arith)
xor_digits-lt (suc n) (suc k) (suc a) b ha hb = omega (
  arith,
  pow-suc 2 k,
  differ-le 1 (suc a % 2) (b % 2) (omega arith) (omega arith),
  xor_digits-lt n k (suc a / 2) (b / 2) (omega (arith, pow-suc 2 k)) (omega (arith, pow-suc 2 k)),
)

pub bit_xor-lt : (k a b : ℕ) → a < 2 ^ k → b < 2 ^ k → bit_xor a b < 2 ^ k
bit_xor-lt k a b ha hb = simp bit_xor-bitwise (xor_digits-lt a k a b ha hb)

and_digits-le : (n a b : ℕ) → digits (λ y. zero) min n a b ≤ b
and_digits-le zero a b = omega arith
and_digits-le (suc n) zero b = omega arith
and_digits-le (suc n) (suc a) b = omega (arith, and_digits-le n (suc a / 2) (b / 2))

pub bit_and-le : (a b : ℕ) → bit_and a b ≤ b
bit_and-le a b = simp bit_and-bitwise (and_digits-le a a b)
