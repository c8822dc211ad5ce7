-- ===== src/Word/Wrapping.antt =====
-- The wrapping operations on `u32` and `u64` that the hashes use.
use hashcodecs_rs.Common.{ℕ, ◌+◌, ◌-◌, ◌*◌, ◌/◌, ◌%◌, ◌^◌, ◌<◌, arith}
use Prim.Native.Nat.{bit_or, bit_xor}

-- `wrapping_add`, `wrapping_mul`, `rotate_left`
abbrev pub add32 : ℕ → ℕ → ℕ
add32 x y = (x + y) % 2 ^ 32

abbrev pub mul32 : ℕ → ℕ → ℕ
mul32 x y = x * y % 2 ^ 32

abbrev pub rotate_left32 : ℕ → ℕ → ℕ
rotate_left32 x k = bit_or (x * 2 ^ k % 2 ^ 32) (x / 2 ^ (32 - k))

abbrev pub add64 : ℕ → ℕ → ℕ
add64 x y = (x + y) % 2 ^ 64

abbrev pub mul64 : ℕ → ℕ → ℕ
mul64 x y = x * y % 2 ^ 64

abbrev pub rotate_left64 : ℕ → ℕ → ℕ
rotate_left64 x k = bit_or (x * 2 ^ k % 2 ^ 64) (x / 2 ^ (64 - k))

-- `wrapping_sub` of words
abbrev pub sub64 : ℕ → ℕ → ℕ
sub64 x y = (x + (2 ^ 64 - y % 2 ^ 64)) % 2 ^ 64

-- `swap_bytes`
abbrev pub swap_bytes32 : ℕ → ℕ
swap_bytes32 x =
    x % 2 ^ 8 * 2 ^ 24
    + x / 2 ^ 8 % 2 ^ 8 * 2 ^ 16
    + x / 2 ^ 16 % 2 ^ 8 * 2 ^ 8
    + x / 2 ^ 24 % 2 ^ 8

abbrev pub swap_bytes64 : ℕ → ℕ
swap_bytes64 x = swap_bytes32 (x % 2 ^ 32) * 2 ^ 32 + swap_bytes32 (x / 2 ^ 32 % 2 ^ 32)

-- Values that fit.
abbrev pub IsU32 : ℕ → Type 0
IsU32 x = x < 2 ^ 32

abbrev pub IsU64 : ℕ → Type 0
IsU64 x = x < 2 ^ 64

pub add32-IsU32 : (x y : ℕ) → IsU32 (add32 x y)
add32-IsU32 x y = omega arith

pub mul32-IsU32 : (x y : ℕ) → IsU32 (mul32 x y)
mul32-IsU32 x y = omega arith

pub add64-IsU64 : (x y : ℕ) → IsU64 (add64 x y)
add64-IsU64 x y = omega arith

pub mul64-IsU64 : (x y : ℕ) → IsU64 (mul64 x y)
mul64-IsU64 x y = omega arith

-- `x ^ (x >> k)`
abbrev pub xor_shift : ℕ → ℕ → ℕ
xor_shift x k = bit_xor x (x / 2 ^ k)
