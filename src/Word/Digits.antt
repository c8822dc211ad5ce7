-- ===== src/Word/Digits.antt =====
-- The native bit operations are a recursion on binary digits. This file gives, for each, the one
-- equation for the lowest digit from which the laws in `Laws` follow.
use Prim.Native.Nat.{max, digits, bitwise, differ, bit_and, bit_or, bit_xor}
use Prim.Native.Nat.{bit_and-bitwise, bit_or-bitwise, bit_xor-bitwise}
use hashcodecs_rs.Common.{ℕ, zero, suc, ◌+◌, ◌*◌, ◌/◌, ◌%◌, ◌≤◌, ◌<◌, min, ◌≡◌, refl, arith}

-- Enough rounds for the left operand, one way or another, give one result.
same_digits :
    (last : ℕ → ℕ) (f : ℕ → ℕ → ℕ) (a b rounds others : ℕ)
    → a ≤ rounds
    → a ≤ others
    → digits last f rounds a b ≡ digits last f others a b
same_digits last f zero b zero zero enough also = refl
same_digits last f zero b zero (suc others) enough also = refl
same_digits last f zero b (suc rounds) zero enough also = refl
same_digits last f zero b (suc rounds) (suc others) enough also = refl
same_digits last f (suc a) b zero others enough also = absurd (omega arith)
same_digits last f (suc a) b (suc rounds) zero enough also = absurd (omega arith)
same_digits last f (suc a) b (suc rounds) (suc others) enough also =
    let next = same_digits last f (suc a / 2) (b / 2) rounds others (omega arith) (omega arith) in
    omega arith

lowest_digit :
    (last : ℕ → ℕ) (f : ℕ → ℕ → ℕ) (a b : ℕ)
    → bitwise last f (suc a) b ≡ f (suc a % 2) (b % 2) + 2 * bitwise last f (suc a / 2) (b / 2)
lowest_digit last f a b =
    let next = same_digits last f (suc a / 2) (b / 2) a (suc a / 2) (omega arith) (omega arith) in
    omega arith

pub bit_or_digit : (a b : ℕ) → bit_or a b ≡ max (a % 2) (b % 2) + 2 * bit_or (a / 2) (b / 2)
bit_or_digit zero b = omega (arith, bit_or-bitwise 0 (b / 2), bit_or-bitwise 0 b)
bit_or_digit (suc a) b = omega (
  arith,
  lowest_digit (λ x. x) max a b,
  bit_or-bitwise (suc a / 2) (b / 2),
  bit_or-bitwise (suc a) b,
)

pub bit_and_digit : (a b : ℕ) → bit_and a b ≡ min (a % 2) (b % 2) + 2 * bit_and (a / 2) (b / 2)
bit_and_digit zero b = omega (arith, bit_and-bitwise 0 (b / 2), bit_and-bitwise 0 b)
bit_and_digit (suc a) b = omega (
  arith,
  lowest_digit (λ x. 0) min a b,
  bit_and-bitwise (suc a / 2) (b / 2),
  bit_and-bitwise (suc a) b,
)

differ_bits : (x y : ℕ) → x < 2 → y < 2 → differ x y ≡ (x + y) % 2
differ_bits zero y h k = omega arith
differ_bits (suc zero) zero h k = omega arith
differ_bits (suc zero) (suc zero) h k = omega arith
differ_bits (suc zero) (suc (suc y)) h k = absurd (omega arith)
differ_bits (suc (suc x)) y h k = absurd (omega arith)

pub bit_xor_digit : (a b : ℕ) → bit_xor a b ≡ bit_xor (a / 2) (b / 2) * 2 + (a % 2 + b % 2) % 2
bit_xor_digit zero b = omega (arith, bit_xor-bitwise 0 b, bit_xor-bitwise 0 (b / 2))
bit_xor_digit (suc a) b = omega (
  arith,
  bit_xor-bitwise (suc a) b,
  bit_xor-bitwise (suc a / 2) (b / 2),
  lowest_digit (λ x. x) differ a b,
  differ_bits (suc a % 2) (b % 2) (omega arith) (omega arith),
)
