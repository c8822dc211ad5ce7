-- ===== src/Xxhash/ShortInputs/Formulas128.antt =====
-- xxhash/short_inputs.rs: the 128-bit formulas for inputs of at most 240 bytes.
use hashcodecs_rs.Common.{
  ℕ, zero, suc, ◌+◌, ◌-◌, ◌*◌, ◌/◌, ◌%◌, ◌^◌, Option, none, some, ◌&&◌, List, ◌>>=◌, ltb, leb, ◌==◌,
  if◌then◌else◌, length,
}
use hashcodecs_rs.Word.{
  bit_xor, bit_or, add64, mul64, sub64, shl64, rotate_left32, swap_bytes32, swap_bytes64,
}
use hashcodecs_rs.Xxhash.Primitives.{
  secret, p32_2, p64_1, p64_2, p64_4, mx2, mix16_ptr, read_u32_le, read_u64_le, read_u64_le_ptr,
  xxh3_avalanche, xxh64_avalanche,
}
use hashcodecs_rs.Xxhash.ShortInputs.{Pair, secret64, secret32, combined, spread_seed}

-- `mix32_ptr` on 16 bytes at each of two offsets, and 32 bytes of the secret.
unfoldable pub mix32_ptr : Pair → List ℕ → ℕ → ℕ → ℕ → ℕ → Option Pair
mix32_ptr (acc0, acc1) input first second key seed = do
  m0 ← mix16_ptr input first secret key seed
  s0 ← read_u64_le_ptr input second
  s1 ← read_u64_le_ptr input (second + 8)
  m1 ← mix16_ptr input second secret (key + 16) seed
  f0 ← read_u64_le_ptr input first
  f1 ← read_u64_le_ptr input (first + 8)
  some (bit_xor (add64 acc0 m0) (add64 s0 s1), bit_xor (add64 acc1 m1) (add64 f0 f1))

-- The slices `[first..][..16]`, `[second..][..16]` and `SECRET[secret..][..32]` panic out of range.
unfoldable pub mix32 : Pair → List ℕ → ℕ → ℕ → ℕ → ℕ → Option Pair
mix32 acc input first second key seed =
    if leb (first + 16) (length input)
      && (leb (second + 16) (length input) && leb (key + 32) (length secret))
    then mix32_ptr acc input first second key seed
    else none

unfoldable pub final128 : Pair → ℕ → ℕ → Pair
final128 (acc0, acc1) len seed = (
  xxh3_avalanche (add64 acc0 acc1),
  sub64 0 (
      xxh3_avalanche (
        add64 (add64 (mul64 acc0 p64_1) (mul64 acc1 p64_4))
          (mul64 (sub64 (len % 2 ^ 64) seed) p64_2))),
)

unfoldable pub xxh3_128_len_32 : List ℕ → ℕ → Option Pair
xxh3_128_len_32 input seed = do
  acc ← mix32 (mul64 32 p64_1, 0) input 0 16 0 seed
  some (final128 acc 32 seed)

unfoldable pub xxh3_128_len_64 : List ℕ → ℕ → Option Pair
xxh3_128_len_64 input seed = do
  acc ← mix32 (mul64 64 p64_1, 0) input 16 32 32 seed
  acc' ← mix32 acc input 0 48 0 seed
  some (final128 acc' 64 seed)

unfoldable pub xxh3_128_len_128 : List ℕ → ℕ → Option Pair
xxh3_128_len_128 input seed = do
  acc1 ← mix32 (mul64 128 p64_1, 0) input 48 64 96 seed
  acc2 ← mix32 acc1 input 32 80 64 seed
  acc3 ← mix32 acc2 input 16 96 32 seed
  acc4 ← mix32 acc3 input 0 112 0 seed
  some (final128 acc4 128 seed)

unfoldable pub xxh3_128_len_17_to_128 : List ℕ → ℕ → Option Pair
xxh3_128_len_17_to_128 input seed = do
  let len = length input
  let acc0 : Pair = (mul64 (len % 2 ^ 64) p64_1, 0)
  acc1 ← if ltb 96 len then mix32 acc0 input 48 (len - 64) 96 seed else some acc0
  acc2 ← if ltb 64 len then mix32 acc1 input 32 (len - 48) 64 seed else some acc1
  acc3 ← if ltb 32 len then mix32 acc2 input 16 (len - 32) 32 seed else some acc2
  acc4 ← mix32 acc3 input 0 (len - 16) 0 seed
  some (final128 acc4 len seed)

-- The classes of `xxh3_128_len_0_to_16`.
unfoldable pub xxh3_128_len_0 : ℕ → Option Pair
xxh3_128_len_0 seed = do
  key1 ← secret64 64 72
  key2 ← secret64 80 88
  some (xxh64_avalanche (bit_xor seed key1), xxh64_avalanche (bit_xor seed key2))

unfoldable pub xxh3_128_len_1_to_3 : List ℕ → ℕ → Option Pair
xxh3_128_len_1_to_3 input seed = do
  c ← combined input
  let h = rotate_left32 (swap_bytes32 c) 13
  key1 ← secret32 0 4
  key2 ← secret32 8 12
  some
      (xxh64_avalanche (bit_xor c (add64 key1 seed)), xxh64_avalanche (bit_xor h (sub64 key2 seed)))

unfoldable pub xxh3_128_len_4_to_8 : List ℕ → ℕ → Option Pair
xxh3_128_len_4_to_8 input seed = do
  let len = length input
  low_word ← read_u32_le input 0
  high_word ← read_u32_le input (len - 4)
  key ← secret64 16 24
  let input_word = bit_or low_word (shl64 high_word 32)
  let mixed = bit_xor input_word (add64 key (spread_seed seed))
  let product = mixed * add64 p64_1 (shl64 (len % 2 ^ 64) 2)
  let lo0 = product % 2 ^ 64
  let hi = add64 (product / 2 ^ 64 % 2 ^ 64) (shl64 lo0 1)
  let lo1 = bit_xor lo0 (hi / 2 ^ 3)
  let lo2 = mul64 (bit_xor lo1 (lo1 / 2 ^ 35)) mx2
  some (bit_xor lo2 (lo2 / 2 ^ 28), xxh3_avalanche hi)

unfoldable pub xxh3_128_len_9_to_16 : List ℕ → ℕ → Option Pair
xxh3_128_len_9_to_16 input seed = do
  let len = length input
  lo ← read_u64_le input 0
  hi ← read_u64_le input (len - 8)
  key1 ← secret64 32 40
  let product = bit_xor (bit_xor lo hi) (sub64 key1 seed) * p64_1
  let low0 = add64 (product % 2 ^ 64) (shl64 ((len - 1) % 2 ^ 64) 54)
  let high0 = product / 2 ^ 64 % 2 ^ 64
  key2 ← secret64 48 56
  let hi' = bit_xor hi (add64 key2 seed)
  let high = add64 high0 (add64 hi' (mul64 (hi' % 2 ^ 32) (p32_2 - 1)))
  let low = bit_xor low0 (swap_bytes64 high)
  let product' = low * p64_2
  some (
    xxh3_avalanche (product' % 2 ^ 64),
    xxh3_avalanche (add64 (product' / 2 ^ 64 % 2 ^ 64) (mul64 high p64_2)),
  )

unfoldable pub xxh3_128_len_0_to_16 : List ℕ → ℕ → Option Pair
xxh3_128_len_0_to_16 input seed =
    if length input == 0
    then xxh3_128_len_0 seed
    else if leb (length input) 3
    then xxh3_128_len_1_to_3 input seed
    else if leb (length input) 8
    then xxh3_128_len_4_to_8 input seed
    else xxh3_128_len_9_to_16 input seed

-- `for i in (0..128).step_by(32)`, and the blocks behind them.
unfoldable pub mix_head32 : ℕ → ℕ → List ℕ → ℕ → Pair → Option Pair
mix_head32 zero i input seed acc = some acc
mix_head32 (suc n) i input seed acc =
    mix32_ptr acc input i (i + 16) i seed >>= λ acc'. mix_head32 n (i + 32) input seed acc'

unfoldable pub mix_tail32 : ℕ → ℕ → List ℕ → ℕ → Pair → Option Pair
mix_tail32 zero index input seed acc = some acc
mix_tail32 (suc n) index input seed acc =
    mix32_ptr acc input (index * 32) (index * 32 + 16) (3 + (index - 4) * 32) seed >>= λ acc'.
    mix_tail32 n (index + 1) input seed acc'

unfoldable pub xxh3_128_len_129_to_240 : List ℕ → ℕ → Option Pair
xxh3_128_len_129_to_240 input seed = do
  let len = length input
  (head0, head1) ←
      if leb 129 len && leb len 240
      then mix_head32 4 0 input seed (mul64 (len % 2 ^ 64) p64_1, 0)
      else none
  acc ← mix_tail32 (len / 32 - 4) 4 input seed (xxh3_avalanche head0, xxh3_avalanche head1)
  acc' ← mix32_ptr acc input (len - 16) (len - 32) 103 (sub64 0 seed)
  some (final128 acc' len seed)
