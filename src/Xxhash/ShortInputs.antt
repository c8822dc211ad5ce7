-- ===== src/Xxhash/ShortInputs.antt =====
-- xxhash/short_inputs.rs: words that the formulas for at most 240 bytes share, and the 64-bit ones;
-- the 128-bit ones are in Formulas128. The lengths that the
-- dispatch of xxhash/one_shot.rs guarantees keep every difference above zero.
pub mod Formulas128
pub mod Hash64
pub mod Hash128
use hashcodecs_rs.Common.{
  ℕ, zero, suc, ◌+◌, ◌-◌, ◌*◌, ◌/◌, ◌%◌, ◌^◌, Option, none, some, Bool, ◌&&◌, List, ◌>>=◌, ltb, leb,
  ◌==◌, if◌then◌else◌, get_elem?, length, take, drop,
}
use hashcodecs_rs.Word.{
  bit_xor, bit_or, add64, mul64, sub64, shl32, shl64, rotate_left32, swap_bytes32, swap_bytes64,
}
use hashcodecs_rs.Xxhash.Primitives.{
  secret, p32_2, p64_1, p64_2, p64_4, mx2, mix16, mix16_ptr, mul_fold, read_u32_le, read_u64_le,
  read_u64_le_ptr, rrmxmx, xxh3_avalanche, xxh64_avalanche,
}

-- `[u64; 2]`
abbrev pub Pair : Type 0
Pair = ℕ × ℕ

-- `read_u64_le(&SECRET, i) ^ read_u64_le(&SECRET, j)`, and with 32 bits.
abbrev pub secret64 : ℕ → ℕ → Option ℕ
secret64 i j = do a ← read_u64_le secret i; b ← read_u64_le secret j; some (bit_xor a b)

abbrev pub secret32 : ℕ → ℕ → Option ℕ
secret32 i j = do a ← read_u32_le secret i; b ← read_u32_le secret j; some (bit_xor a b)

-- The `combined` word of one to three bytes.
abbrev pub combined : List ℕ → Option ℕ
combined input = do
  let len = length input
  first ← get_elem? input 0
  middle ← get_elem? input (len / 2)
  last ← get_elem? input (len - 1)
  some (bit_or (bit_or (bit_or (shl32 first 16) (shl32 middle 24)) last) (shl32 (len % 2 ^ 32) 8))

-- `seed ^ ((seed as u32).swap_bytes() as u64) << 32`
abbrev pub spread_seed : ℕ → ℕ
spread_seed seed = bit_xor seed (shl64 (swap_bytes32 (seed % 2 ^ 32)) 32)

-- The three classes of `xxh3_64_len_0_to_16` behind the empty input.
unfoldable pub xxh3_64_len_1_to_3 : List ℕ → ℕ → Option ℕ
xxh3_64_len_1_to_3 input seed = do
  word ← combined input
  key ← secret32 0 4
  some (xxh64_avalanche (bit_xor word (add64 key seed)))

unfoldable pub xxh3_64_len_4_to_8 : List ℕ → ℕ → Option ℕ
xxh3_64_len_4_to_8 input seed = do
  let len = length input
  high ← read_u32_le input (len - 4)
  low ← read_u32_le input 0
  key ← secret64 8 16
  let input_word = bit_or high (shl64 low 32)
  some (rrmxmx (bit_xor input_word (sub64 key (spread_seed seed))) len)

unfoldable pub xxh3_64_len_9_to_16 : List ℕ → ℕ → Option ℕ
xxh3_64_len_9_to_16 input seed = do
  let len = length input
  first ← read_u64_le input 0
  key1 ← secret64 24 32
  last ← read_u64_le input (len - 8)
  key2 ← secret64 40 48
  let lo = bit_xor first (add64 key1 seed)
  let hi = bit_xor last (sub64 key2 seed)
  some (xxh3_avalanche (add64 (add64 (add64 (len % 2 ^ 64) (swap_bytes64 lo)) hi) (mul_fold lo hi)))

unfoldable pub xxh3_64_len_0_to_16 : List ℕ → ℕ → Option ℕ
xxh3_64_len_0_to_16 input seed =
    if length input == 0
    then (secret64 56 64 >>= λ key. some (xxh64_avalanche (bit_xor seed key)))
    else if leb (length input) 3
    then xxh3_64_len_1_to_3 input seed
    else if leb (length input) 8
    then xxh3_64_len_4_to_8 input seed
    else xxh3_64_len_9_to_16 input seed

-- `acc = acc.wrapping_add(mix16(input, i, &SECRET, j, seed))`
abbrev pub add_mix16 : List ℕ → ℕ → ℕ → ℕ → ℕ → Option ℕ
add_mix16 input i j seed acc = mix16 input i secret j seed >>= λ m. some (add64 acc m)

unfoldable pub xxh3_64_len_17_to_128 : List ℕ → ℕ → Option ℕ
xxh3_64_len_17_to_128 input seed = do
  let len = length input
  let acc0 = mul64 (len % 2 ^ 64) p64_1
  acc1 ←
      if ltb 96 len
      then (add_mix16 input 48 96 seed acc0 >>= add_mix16 input (len - 64) 112 seed)
      else some acc0
  acc2 ←
      if ltb 64 len
      then (add_mix16 input 32 64 seed acc1 >>= add_mix16 input (len - 48) 80 seed)
      else some acc1
  acc3 ←
      if ltb 32 len
      then (add_mix16 input 16 32 seed acc2 >>= add_mix16 input (len - 32) 48 seed)
      else some acc2
  acc4 ← add_mix16 input 0 0 seed acc3
  acc5 ← add_mix16 input (len - 16) 16 seed acc4
  some (xxh3_avalanche acc5)

-- `for i in i..i + n`: the blocks of the first 128 bytes, and the ones behind them.
unfoldable pub mix_head : ℕ → ℕ → List ℕ → ℕ → ℕ → Option ℕ
mix_head zero i input seed acc = some acc
mix_head (suc n) i input seed acc =
    add_mix16 input (16 * i) (16 * i) seed acc >>= λ acc'. mix_head n (i + 1) input seed acc'

unfoldable pub mix_tail : ℕ → ℕ → List ℕ → ℕ → ℕ → Option ℕ
mix_tail zero i input seed tail = some tail
mix_tail (suc n) i input seed tail =
    add_mix16 input (16 * i) (3 + 16 * (i - 8)) seed tail >>= λ tail'.
    mix_tail n (i + 1) input seed tail'

unfoldable pub xxh3_64_len_129_to_240 : List ℕ → ℕ → Option ℕ
xxh3_64_len_129_to_240 input seed = do
  let len = length input
  acc ← mix_head 8 0 input seed (mul64 (len % 2 ^ 64) p64_1)
  let acc' = xxh3_avalanche acc
  tail ← mix16 input (len - 16) secret 119 seed
  tail' ← mix_tail (len / 16 - 8) 8 input seed tail
  some (xxh3_avalanche (add64 acc' tail'))
