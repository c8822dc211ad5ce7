-- ===== src/Murmur3/Primitives.antt =====
-- murmur3/primitives.rs: the finalizers, and the little-endian loads.
pub mod Laws
pub mod Bijective
use hashcodecs_rs.Common.{
  ◌==◌, if◌then◌else◌, ℕ, ◌+◌, ◌*◌, ◌^◌, Option, none, some, List, [], ◌∷◌, ◌>>=◌, get_elem?,
  length,
}
use hashcodecs_rs.Word.{bit_or, bit_xor, mul32, mul64, xor_shift, shl64}

unfoldable pub fmix32 : ℕ → ℕ
fmix32 hash =
    let hash1 = xor_shift hash 16 in
    let hash2 = mul32 hash1 2246822507 in
    let hash3 = xor_shift hash2 13 in let hash4 = mul32 hash3 3266489909 in xor_shift hash4 16

unfoldable pub fmix64 : ℕ → ℕ
fmix64 hash =
    let hash1 = xor_shift hash 33 in
    let hash2 = mul64 hash1 18397679294719823053 in
    let hash3 = xor_shift hash2 33 in
    let hash4 = mul64 hash3 14181476777654086739 in xor_shift hash4 33

-- `uN::from_le_bytes(input[offset..offset + N / 8])`: the slice panics out of bounds.
unfoldable pub read_u16_le : List ℕ → ℕ → Option ℕ
read_u16_le input offset = do
  b0 ← get_elem? input offset
  b1 ← get_elem? input (offset + 1)
  some (b0 + b1 * 2 ^ 8)

unfoldable pub read_u32_le : List ℕ → ℕ → Option ℕ
read_u32_le input offset = do
  b0 ← get_elem? input offset
  b1 ← get_elem? input (offset + 1)
  b2 ← get_elem? input (offset + 2)
  b3 ← get_elem? input (offset + 3)
  some (b0 + b1 * 2 ^ 8 + b2 * 2 ^ 16 + b3 * 2 ^ 24)

unfoldable pub read_u64_le : List ℕ → ℕ → Option ℕ
unfolding read_u32_le
read_u64_le input offset = do
  low ← read_u32_le input offset
  high ← read_u32_le input (offset + 4)
  some (low + high * 2 ^ 32)

-- `match input.len()`
unfoldable pub read_partial_u64_le : List ℕ → Option ℕ
unfolding read_u16_le read_u32_le read_u64_le
read_partial_u64_le [] = some 0
read_partial_u64_le (a ∷ []) = some a
read_partial_u64_le (a ∷ b ∷ []) = read_u16_le (a ∷ b ∷ []) 0
read_partial_u64_le (a ∷ b ∷ c ∷ []) = do
  low ← read_u16_le (a ∷ b ∷ c ∷ []) 0
  some (bit_or low (shl64 c 16))
read_partial_u64_le (a ∷ b ∷ c ∷ d ∷ []) = read_u32_le (a ∷ b ∷ c ∷ d ∷ []) 0
read_partial_u64_le (a ∷ b ∷ c ∷ d ∷ e ∷ []) = do
  low ← read_u32_le (a ∷ b ∷ c ∷ d ∷ e ∷ []) 0
  some (bit_or low (shl64 e 32))
read_partial_u64_le (a ∷ b ∷ c ∷ d ∷ e ∷ f ∷ []) = do
  low ← read_u32_le (a ∷ b ∷ c ∷ d ∷ e ∷ f ∷ []) 0
  high ← read_u16_le (a ∷ b ∷ c ∷ d ∷ e ∷ f ∷ []) 4
  some (bit_or low (shl64 high 32))
read_partial_u64_le (a ∷ b ∷ c ∷ d ∷ e ∷ f ∷ g ∷ []) = do
  low ← read_u32_le (a ∷ b ∷ c ∷ d ∷ e ∷ f ∷ g ∷ []) 0
  high ← read_u16_le (a ∷ b ∷ c ∷ d ∷ e ∷ f ∷ g ∷ []) 4
  some (bit_or (bit_or low (shl64 high 32)) (shl64 g 48))
read_partial_u64_le input = if length input == 8 then read_u64_le input 0 else none
