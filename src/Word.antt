-- ===== src/Word.antt =====
-- Machine words as native numbers. A `w`-bit value is a number below `2 ^ w`; every operation that
-- wraps in the source has its `% 2 ^ w` written out here.
mod Digits
mod Laws
pub mod Wrapping
pub use Laws.*
pub use Wrapping.*
pub use Prim.Native.Nat.{bit_and, bit_or, bit_xor}
use hashcodecs_rs.Common.{ℕ, ◌+◌, ◌-◌, ◌*◌, ◌/◌, ◌%◌, ◌^◌, ◌<◌}

-- `x >> k` at any width.
infixl 75 ◌>>>◌
abbrev pub ◌>>>◌ : ℕ → ℕ → ℕ
x >>> k = x / 2 ^ k

-- `x << k` on `u8`, `u32` and `u64`: bits shifted out of the word are lost.
abbrev pub shl8 : ℕ → ℕ → ℕ
shl8 x k = x * 2 ^ k % 2 ^ 8

abbrev pub shl32 : ℕ → ℕ → ℕ
shl32 x k = x * 2 ^ k % 2 ^ 32

abbrev pub shl64 : ℕ → ℕ → ℕ
shl64 x k = x * 2 ^ k % 2 ^ 64

abbrev pub IsByte : ℕ → Type 0
IsByte b = b < 256
