-- ===== src/Murmur3/X86Hasher32.antt =====
-- murmur3/x86_32/murmur3_x86_hasher32.rs: the x86 32-bit variant, with the scalar body that targets
-- other than x86 always take.
pub mod Streaming
use hashcodecs_rs.Common.{
  ℕ, ◌+◌, ◌%◌, ◌^◌, Option, none, some, List, [], ◌∷◌, ◌>>=◌, leb, ◌==◌, if◌then◌else◌, get_elem?,
  length,
}
use hashcodecs_rs.Word.{bit_xor, add32, mul32, rotate_left32, shl32}
use hashcodecs_rs.Murmur3.BlockBuffer.{Mix, BlockBuffer, new_buffer, consume, remaining, split}
use hashcodecs_rs.Murmur3.Primitives.{fmix32, read_u32_le}

abbrev x86_32_c1 : ℕ
x86_32_c1 = 3432918353

abbrev x86_32_c2 : ℕ
x86_32_c2 = 461845907

pub record Murmur3X86Hasher32 : Type 0 where
  pub hash : ℕ
  pub tail : BlockBuffer
  pub total : ℕ

-- `block.wrapping_mul(X86_32_C1).rotate_left(15).wrapping_mul(X86_32_C2)`
abbrev pub scramble : ℕ → ℕ
scramble block = mul32 (rotate_left32 (mul32 block x86_32_c1) 15) x86_32_c2

unfoldable pub mix_hash : ℕ → ℕ → ℕ
mix_hash hash block = add32 (mul32 (rotate_left32 (bit_xor hash block) 13) 5) 3864292196

-- `while offset < input.len()`; a load past the end panics.
unfoldable pub mix_body_scalar : Mix ℕ
unfolding mix_hash read_u32_le
mix_body_scalar [] hash = some hash
mix_body_scalar (a ∷ b ∷ c ∷ d ∷ rest) hash = do
  word ← read_u32_le (a ∷ b ∷ c ∷ d ∷ rest) 0
  mix_body_scalar rest (mix_hash hash (scramble word))
mix_body_scalar rest hash = none

unfoldable pub mix_body : Mix ℕ
mix_body blocks hash = mix_body_scalar blocks hash

unfoldable pub finish_tail : List ℕ → ℕ → ℕ → Option ℕ
finish_tail tail_bytes hash len = do
  let tail_len = length tail_bytes
  tail2 ←
      if tail_len == 3
      then (get_elem? tail_bytes 2 >>= λ b. some (bit_xor 0 (shl32 b 16)))
      else some 0
  tail1 ←
      if leb 2 tail_len
      then (get_elem? tail_bytes 1 >>= λ b. some (bit_xor tail2 (shl32 b 8)))
      else some tail2
  hash' ←
      if tail_len == 0
      then some hash
      else (get_elem? tail_bytes 0 >>= λ b. some (bit_xor hash (scramble (bit_xor tail1 b))))
  some (fmix32 (bit_xor hash' len))

unfoldable pub new : ℕ → Option Murmur3X86Hasher32
new seed = do buffer ← new_buffer 4; some (record { hash = seed; tail = buffer; total = 0 })

unfoldable pub update : Murmur3X86Hasher32 → List ℕ → Option Murmur3X86Hasher32
update hasher input = do
  let total = add32 hasher.total (length input % 2 ^ 32)
  (hash, tail) ← consume 4 hasher.tail input mix_body hasher.hash
  some (record { hash = hash; tail = tail; total = total })

unfoldable pub digest : Murmur3X86Hasher32 → Option ℕ
digest hasher = do tail ← remaining hasher.tail; finish_tail tail hasher.hash hasher.total

unfoldable pub murmur3_x86_32 : List ℕ → ℕ → Option ℕ
murmur3_x86_32 input seed = do
  (blocks, tail) ← split 4 input
  hash ← mix_body blocks seed
  finish_tail tail hash (length input % 2 ^ 32)
