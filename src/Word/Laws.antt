-- ===== src/Word/Laws.antt =====
-- Laws of `&`, `|` and `^` at every width: bounds, masks as remainders, disjoint fields as sums,
-- and the group laws of exclusive or.
use Prim.Native.Nat.{bit_and, bit_or, bit_xor, bit_xor-bitwise, bit_or-bitwise}
use mathlib.Core.WellFounded.{Acc, WellFounded, induction}
use native.Mathlib.Nat.{pow-suc, one-le-pow, div-one, div-div-eq-div-mul}
use hashcodecs_rs.Common.{
  ℕ, zero, suc, ◌+◌, ◌-◌, ◌*◌, ◌/◌, ◌%◌, ◌^◌, ◌≤◌, ◌<◌, ◌≡◌, refl, sym, ◌∙◌, ap, arith,
}
use hashcodecs_rs.Word.Digits.{bit_or_digit, bit_and_digit, bit_xor_digit}

Acc-below : (k n : ℕ) → n < k → Acc ◌<◌ n
Acc-below zero n h = elim h [ ]
Acc-below (suc k) n h = Acc.intro n (λ m hm. Acc-below k m (omega arith))

lt_wf : WellFounded ◌<◌
lt_wf = record { apply = λ n. Acc-below (suc n) n (omega arith) }

-- Induction on a number by halving it.
halving : (P : ℕ → Type 0) → P 0 → ((n : ℕ) → P (suc n / 2) → P (suc n)) → (n : ℕ) → P n
halving P base step n = induction lt_wf {C = P} n go
  where
    go : (k : ℕ) → ((m : ℕ) → m < k → P m) → P k
    go zero ih = base
    go (suc k) ih = step k (ih (suc k / 2) (omega arith))

pub bit_or-zero : (a : ℕ) → bit_or a 0 ≡ a
bit_or-zero = halving (λ a. bit_or a 0 ≡ a) refl λ n ih. omega (arith, ih, bit_or_digit (suc n) 0)

pub bit_and-zero : (a : ℕ) → bit_and a 0 ≡ 0
bit_and-zero =
    halving (λ a. bit_and a 0 ≡ 0) refl λ n ih. omega (arith, ih, bit_and_digit (suc n) 0)

pub bit_xor-zero : (a : ℕ) → bit_xor a 0 ≡ a
bit_xor-zero =
    halving (λ a. bit_xor a 0 ≡ a) refl λ n ih. omega (arith, ih, bit_xor_digit (suc n) 0)

pub zero-bit_xor : (b : ℕ) → bit_xor 0 b ≡ b
zero-bit_xor b = bit_xor-bitwise 0 b

pub zero-bit_or : (b : ℕ) → bit_or 0 b ≡ b
zero-bit_or b = bit_or-bitwise 0 b

pub bit_xor_self : (a : ℕ) → bit_xor a a ≡ 0
bit_xor_self =
    halving (λ a. bit_xor a a ≡ 0) refl λ n ih. omega (arith, ih, bit_xor_digit (suc n) (suc n))

-- A wider value takes one more digit.
two_pow_suc : (k : ℕ) → 2 ^ suc k ≡ 2 * 2 ^ k
two_pow_suc k = omega (arith, pow-suc 2 k)

field_suc : (q k : ℕ) → q * 2 ^ suc k ≡ 2 * (q * 2 ^ k)
field_suc q k = omega (arith, ap (λ (t : ℕ). q * t) (pow-suc 2 k))

-- No operation leaves the width of its operands.
pub bit_or-lt : (k a b : ℕ) → a < 2 ^ k → b < 2 ^ k → bit_or a b < 2 ^ k
bit_or-lt zero zero zero h g = omega arith
bit_or-lt zero zero (suc b) h g = absurd (omega arith)
bit_or-lt zero (suc a) b h g = absurd (omega arith)
bit_or-lt (suc k) a b h g = omega (
  arith,
  two_pow_suc k,
  bit_or_digit a b,
  bit_or-lt k (a / 2) (b / 2) (omega (arith, two_pow_suc k)) (omega (arith, two_pow_suc k)),
)

pub bit_xor-lt : (k a b : ℕ) → a < 2 ^ k → b < 2 ^ k → bit_xor a b < 2 ^ k
bit_xor-lt zero zero zero h g = omega arith
bit_xor-lt zero zero (suc b) h g = absurd (omega arith)
bit_xor-lt zero (suc a) b h g = absurd (omega arith)
bit_xor-lt (suc k) a b h g = omega (
  arith,
  two_pow_suc k,
  bit_xor_digit a b,
  bit_xor-lt k (a / 2) (b / 2) (omega (arith, two_pow_suc k)) (omega (arith, two_pow_suc k)),
)

pub le-bit_or_left : (a b : ℕ) → a ≤ bit_or a b
le-bit_or_left a b =
    halving (λ n. (c : ℕ) → n ≤ bit_or n c) (λ c. omega arith)
      (λ n ih c. omega (arith, ih (c / 2), bit_or_digit (suc n) c)) a b

pub le-bit_or_right : (a b : ℕ) → b ≤ bit_or a b
le-bit_or_right a b =
    halving (λ n. (c : ℕ) → n ≤ bit_or c n) (λ c. omega arith)
      (λ n ih c. omega (arith, ih (c / 2), bit_or_digit c (suc n))) b a

half_field : (q k : ℕ) → q * 2 ^ suc k / 2 ≡ q * 2 ^ k
half_field q k = omega (arith, field_suc q k)

-- A field of `k` low bits beside a value shifted by `k`: both `|` and `^` add them.
pub bit_or_fields : (k q r : ℕ) → r < 2 ^ k → bit_or (q * 2 ^ k) r ≡ q * 2 ^ k + r
bit_or_fields zero q zero h = omega (arith, bit_or-zero (q * 2 ^ 0))
bit_or_fields zero q (suc r) h = absurd (omega arith)
bit_or_fields (suc k) q r h = omega (
  arith,
  bit_or_digit (q * 2 ^ suc k) r,
  field_suc q k,
  ap (λ (t : ℕ). bit_or t (r / 2)) (half_field q k),
  bit_or_fields k q (r / 2) (omega (arith, two_pow_suc k)),
)

pub bit_xor_fields : (k q r : ℕ) → r < 2 ^ k → bit_xor (q * 2 ^ k) r ≡ q * 2 ^ k + r
bit_xor_fields zero q zero h = omega (arith, bit_xor-zero (q * 2 ^ 0))
bit_xor_fields zero q (suc r) h = absurd (omega arith)
bit_xor_fields (suc k) q r h = omega (
  arith,
  bit_xor_digit (q * 2 ^ suc k) r,
  field_suc q k,
  ap (λ (t : ℕ). bit_xor t (r / 2)) (half_field q k),
  bit_xor_fields k q (r / 2) (omega (arith, two_pow_suc k)),
)

-- A mask of `k` ones keeps the remainder.
mask_field : (k q r : ℕ) → r < 2 ^ k → bit_and (q * 2 ^ k + r) (2 ^ k - 1) ≡ r
mask_field zero q zero h = omega (arith, bit_and-zero (q * 2 ^ 0 + 0))
mask_field zero q (suc r) h = absurd (omega arith)
mask_field (suc k) q r h = ground (
  arith,
  bit_and_digit (q * 2 ^ suc k + r) (2 ^ suc k - 1),
  field_suc q k,
  two_pow_suc k,
  one-le-pow k 2,
  mask_field k q (r / 2) (omega (arith, two_pow_suc k)),
)

pub bit_and_mask : (k a : ℕ) → bit_and a (2 ^ k - 1) ≡ a % 2 ^ k
bit_and_mask k a = ground (arith, one-le-pow k 2, mask_field k (a / 2 ^ k) (a % 2 ^ k))

pub bit_xor_comm : (a b : ℕ) → bit_xor a b ≡ bit_xor b a
bit_xor_comm =
    halving (λ a. (b : ℕ) → bit_xor a b ≡ bit_xor b a)
      (λ b. omega (arith, bit_xor-zero b, zero-bit_xor b))
      λ n ih b. omega (arith, ih (b / 2), bit_xor_digit (suc n) b, bit_xor_digit b (suc n))

half_xor : (a b : ℕ) → bit_xor a b / 2 ≡ bit_xor (a / 2) (b / 2)
half_xor a b = omega (arith, bit_xor_digit a b)

pub bit_xor_assoc : (a b c : ℕ) → bit_xor (bit_xor a b) c ≡ bit_xor a (bit_xor b c)
bit_xor_assoc =
    halving (λ a. (b c : ℕ) → bit_xor (bit_xor a b) c ≡ bit_xor a (bit_xor b c))
      (λ b c. simp zero-bit_xor)
      λ n ih b c. ground (
        arith,
        ih (b / 2) (c / 2),
        bit_xor_digit (bit_xor (suc n) b) c,
        bit_xor_digit (suc n) (bit_xor b c),
        bit_xor_digit (suc n) b,
        bit_xor_digit b c,
        half_xor (suc n) b,
        half_xor b c,
      )

pub bit_or_comm : (a b : ℕ) → bit_or a b ≡ bit_or b a
bit_or_comm =
    halving (λ a. (b : ℕ) → bit_or a b ≡ bit_or b a)
      (λ b. omega (arith, bit_or-zero b, zero-bit_or b))
      λ n ih b. omega (arith, ih (b / 2), bit_or_digit (suc n) b, bit_or_digit b (suc n))

halve_then : (k x : ℕ) → x / 2 ^ suc k ≡ x / 2 / 2 ^ k
halve_then k x =
    ap (λ i. x / i) (omega (arith, two_pow_suc k)) ∙ sym (div-div-eq-div-mul x 2 (2 ^ k))

pub bit_xor-div : (k a b : ℕ) → bit_xor a b / 2 ^ k ≡ bit_xor (a / 2 ^ k) (b / 2 ^ k)
bit_xor-div zero a b = rw (div-one (bit_xor a b), div-one a, div-one b) refl
bit_xor-div (suc k) a b =
    rw (halve_then k (bit_xor a b), halve_then k a, halve_then k b, half_xor a b)
      (bit_xor-div k (a / 2) (b / 2))
