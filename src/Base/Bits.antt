-- ===== src/Base/Bits.antt =====
-- Binary digits: when an exclusive or, and an inclusive one, is zero.
use Prim.Native.Nat.{
  ℕ, zero, suc, ◌/◌, ◌%◌, ◌≤◌, bit_or, bit_xor, digits, differ, max, bit_xor-bitwise,
  bit_or-bitwise,
}
use mathlib.Core.Path.{◌≡◌}
use mathlib.Core.Logic.{◌↔◌}
use native.Mathlib.Omega.{arith}

differ-zero : (x y : ℕ) → (differ x y ≡ 0) ↔ (x ≡ y)
differ-zero zero y = (λ h. omega (arith, h), λ h. omega (arith, h))
differ-zero (suc x) zero = (λ h. absurd (omega (arith, h)), λ h. absurd (omega (arith, h)))
differ-zero (suc x) (suc y) = ground (arith, differ-zero x y)

digits-differ : (n a b : ℕ) → a ≤ n → (digits (λ b. b) differ n a b ≡ 0) ↔ (a ≡ b)
digits-differ zero zero b h = (λ k. omega (arith, k), λ k. omega (arith, k))
digits-differ zero (suc a) b h = absurd (omega arith)
digits-differ (suc n) zero b h = (λ k. omega (arith, k), λ k. omega (arith, k))
digits-differ (suc n) (suc a) b h =
    ground
      (arith, digits-differ n (suc a / 2) (b / 2) (omega arith), differ-zero (suc a % 2) (b % 2))

pub bit_xor_zero : (a b : ℕ) → (bit_xor a b ≡ 0) ↔ (a ≡ b)
bit_xor_zero a b = rw (bit_xor-bitwise a b) (digits-differ a a b (omega arith))

max-zero : (x y : ℕ) → (max x y ≡ 0) ↔ ((x ≡ 0) × (y ≡ 0))
max-zero x y = ground arith

digits-max : (n a b : ℕ) → a ≤ n → (digits (λ b. b) max n a b ≡ 0) ↔ ((a ≡ 0) × (b ≡ 0))
digits-max zero a b h = ground arith
digits-max (suc n) zero b h = ground arith
digits-max (suc n) (suc a) b h =
    ground (arith, digits-max n (suc a / 2) (b / 2) (omega arith), max-zero (suc a % 2) (b % 2))

pub bit_or_zero : (a b : ℕ) → (bit_or a b ≡ 0) ↔ ((a ≡ 0) × (b ≡ 0))
bit_or_zero a b = rw (bit_or-bitwise a b) (digits-max a a b (omega arith))
