-- ===== src/Xxhash/OneShot.antt =====
-- xxhash/one_shot.rs: the formula is selected by the length.
pub mod Total
use hashcodecs_rs.Common.{
  ℕ, Option, none, some, Bool, List, ◌>>=◌, leb, ◌==◌, if◌then◌else◌, length,
}
use hashcodecs_rs.Xxhash.ShortInputs.{
  Pair, xxh3_64_len_0_to_16, xxh3_64_len_17_to_128, xxh3_64_len_129_to_240,
}
use hashcodecs_rs.Xxhash.ShortInputs.Formulas128.{
  xxh3_128_len_0_to_16, xxh3_128_len_17_to_128, xxh3_128_len_32, xxh3_128_len_64, xxh3_128_len_128,
  xxh3_128_len_129_to_240,
}
use hashcodecs_rs.Xxhash.LongInputs.{long_input, xxh3_64_over_240_bytes, hash_128_seeded}

-- `match input.len()`; `expect` panics if the input is not long.
unfoldable pub xxh3_64 : List ℕ → ℕ → Option ℕ
xxh3_64 input seed =
    if leb (length input) 16
    then xxh3_64_len_0_to_16 input seed
    else if leb (length input) 128
    then xxh3_64_len_17_to_128 input seed
    else if leb (length input) 240
    then xxh3_64_len_129_to_240 input seed
    else (long_input input >>= λ long. xxh3_64_over_240_bytes long seed)

unfoldable pub xxh3_128 : List ℕ → ℕ → Option Pair
xxh3_128 input seed =
    if leb (length input) 16
    then xxh3_128_len_0_to_16 input seed
    else if length input == 32
    then xxh3_128_len_32 input seed
    else if length input == 64
    then xxh3_128_len_64 input seed
    else if length input == 128
    then xxh3_128_len_128 input seed
    else if leb (length input) 128
    then xxh3_128_len_17_to_128 input seed
    else if leb (length input) 240
    then xxh3_128_len_129_to_240 input seed
    else (long_input input >>= λ long. hash_128_seeded long seed)
