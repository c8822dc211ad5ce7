-- ===== src/Murmur3/X64Hasher128.antt =====
-- murmur3/x64_128/murmur3_x64_hasher128.rs: the x64 128-bit variant, with the scalar body that
-- targets other than x86 always take.
pub mod Streaming
use hashcodecs_rs.Common.{
  ℕ, ◌+◌, ◌%◌, ◌^◌, Option, none, some, List, [], ◌∷◌, ◌>>=◌, ltb, ◌==◌, if◌then◌else◌, length,
  take, drop, min,
}
use hashcodecs_rs.Word.{bit_xor, add64, mul64, rotate_left64}
use hashcodecs_rs.Murmur3.BlockBuffer.{Mix, BlockBuffer, new_buffer, consume, remaining, split}
use hashcodecs_rs.Murmur3.Primitives.{fmix64, read_u64_le, read_partial_u64_le}

abbrev x64_128_c1 : ℕ
x64_128_c1 = 9782798678568883157

abbrev x64_128_c2 : ℕ
x64_128_c2 = 5545529020109919103

-- `[u64; 2]`
abbrev pub Hashes : Type 0
Hashes = ℕ × ℕ

pub record Murmur3X64Hasher128 : Type 0 where
  pub hashes : Hashes
  pub tail : BlockBuffer
  pub total : ℕ

abbrev pub scramble1 : ℕ → ℕ
scramble1 value = mul64 (rotate_left64 (mul64 value x64_128_c1) 31) x64_128_c2

abbrev pub scramble2 : ℕ → ℕ
scramble2 value = mul64 (rotate_left64 (mul64 value x64_128_c2) 33) x64_128_c1

unfoldable pub scale_hash : ℕ → ℕ → ℕ
scale_hash addend hash = add64 (mul64 hash 5) addend

unfoldable pub mix_hashes : Hashes → ℕ → ℕ → Hashes
unfolding scale_hash
mix_hashes (hash1, hash2) block1 block2 =
    let hash1' = scale_hash 1390208809 (add64 (rotate_left64 (bit_xor hash1 block1) 27) hash2) in
    (hash1', scale_hash 944331445 (add64 (rotate_left64 (bit_xor hash2 block2) 31) hash1'))

-- `while cursor < end`; a read past the end is out of bounds.
unfoldable pub mix_body_scalar : Mix Hashes
unfolding mix_hashes read_u64_le
mix_body_scalar [] hashes = some hashes
mix_body_scalar (a ∷ b ∷ c ∷ d ∷ e ∷ f ∷ g ∷ h ∷ i ∷ j ∷ k ∷ l ∷ m ∷ n ∷ o ∷ p ∷ rest) hashes = do
  value1 ← read_u64_le (a ∷ b ∷ c ∷ d ∷ e ∷ f ∷ g ∷ h ∷ []) 0
  value2 ← read_u64_le (i ∷ j ∷ k ∷ l ∷ m ∷ n ∷ o ∷ p ∷ []) 0
  mix_body_scalar rest (mix_hashes hashes (scramble1 value1) (scramble2 value2))
mix_body_scalar rest hashes = none

unfoldable pub mix_body : Mix Hashes
mix_body blocks hashes = if length blocks == 0 then some hashes else mix_body_scalar blocks hashes

-- The end of `finish_tail`, from `hashes[0] ^= length` on.
abbrev pub finish_hashes : Hashes → ℕ → Hashes
finish_hashes (hash1, hash2) len =
    let mixed1 = bit_xor hash1 len in
    let mixed2 = bit_xor hash2 len in
    let sum1 = add64 mixed1 mixed2 in
    let sum2 = add64 mixed2 sum1 in
    let final1 = fmix64 sum1 in
    let final2 = fmix64 sum2 in let last1 = add64 final1 final2 in (last1, add64 final2 last1)

unfoldable pub finish_tail : List ℕ → Hashes → ℕ → Option Hashes
finish_tail tail (hash1, hash2) len = do
  hash2 ←
      if ltb 8 (length tail)
      then (read_partial_u64_le (drop 8 tail) >>= λ block2. some (bit_xor hash2 (scramble2 block2)))
      else some hash2
  hash1 ←
      if length tail == 0
      then some hash1
      else (read_partial_u64_le (take (min (length tail) 8) tail) >>= λ block1.
          some (bit_xor hash1 (scramble1 block1)))
  some (finish_hashes (hash1, hash2) len)

unfoldable pub new : ℕ → Option Murmur3X64Hasher128
new seed = do
  buffer ← new_buffer 16
  some (record { hashes = (seed, seed); tail = buffer; total = 0 })

unfoldable pub update : Murmur3X64Hasher128 → List ℕ → Option Murmur3X64Hasher128
update hasher input = do
  let total = add64 hasher.total (length input % 2 ^ 64)
  (hashes, tail) ← consume 16 hasher.tail input mix_body hasher.hashes
  some (record { hashes = hashes; tail = tail; total = total })

unfoldable pub digest : Murmur3X64Hasher128 → Option Hashes
digest hasher = do tail ← remaining hasher.tail; finish_tail tail hasher.hashes hasher.total

-- `hash`, which `murmur3_x64_128` calls
unfoldable pub murmur3_x64_128 : List ℕ → ℕ → Option Hashes
murmur3_x64_128 input seed = do
  (blocks, tail) ← split 16 input
  hashes ← mix_body blocks (seed, seed)
  finish_tail tail hashes (length input % 2 ^ 64)
