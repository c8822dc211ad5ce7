-- ===== src/Xxhash/LongInputs.antt =====
-- xxhash/long_inputs/long_engine.rs and scalar.rs: inputs of more than 240 bytes, with the engine of
-- the build that has no vector kernel.
pub mod Scalar
use hashcodecs_rs.Common.{
  ℕ, zero, suc, ◌+◌, ◌-◌, ◌*◌, ◌/◌, ◌%◌, ◌^◌, Option, none, some, List, [], ◌∷◌, ◌>>=◌, ltb, ◌==◌,
  if◌then◌else◌, get_elem?, set, length, copy_at,
}
use hashcodecs_rs.Word.{bit_xor, add64, mul64, sub64, xor_shift}
use hashcodecs_rs.Xxhash.Primitives.{
  secret, p32_1, p32_2, p32_3, p64_1, p64_2, p64_3, p64_4, p64_5, mul_fold, read_u64_le,
  read_u64_le_ptr, xxh3_avalanche,
}

-- `LongInput::new`
unfoldable pub long_input : List ℕ → Option (List ℕ)
long_input input = if ltb 240 (length input) then some input else none

-- `[u8; 192]`
abbrev pub Secret : Type 0
Secret = List ℕ

-- `to_le_bytes`
abbrev pub to_le_bytes : ℕ → List ℕ
to_le_bytes x =
    x % 2 ^ 8
    ∷ x / 2 ^ 8 % 2 ^ 8
    ∷ x / 2 ^ 16 % 2 ^ 8
    ∷ x / 2 ^ 24 % 2 ^ 8
    ∷ x / 2 ^ 32 % 2 ^ 8
    ∷ x / 2 ^ 40 % 2 ^ 8
    ∷ x / 2 ^ 48 % 2 ^ 8
    ∷ x / 2 ^ 56 % 2 ^ 8
    ∷ []

-- `for offset in (0..192).step_by(16)`, with `n` rounds left.
unfoldable pub derive_rounds : ℕ → ℕ → ℕ → Secret → Option Secret
derive_rounds zero offset seed derived = some derived
derive_rounds (suc n) offset seed derived = do
  low ← read_u64_le secret offset
  high ← read_u64_le secret (offset + 8)
  derived' ← copy_at derived offset (to_le_bytes (add64 low seed))
  derived'' ← copy_at derived' (offset + 8) (to_le_bytes (sub64 high seed))
  derive_rounds n (offset + 16) seed derived''

unfoldable pub initialize_secret_scalar : ℕ → Option Secret
initialize_secret_scalar seed = derive_rounds 12 0 seed secret

pub record LongSchedule : Type 0 where
  pub full_blocks : ℕ
  pub tail_offset : ℕ
  pub tail_stripes : ℕ
  pub last_offset : ℕ

unfoldable pub build_long_input_schedule : List ℕ → LongSchedule
build_long_input_schedule input =
    let full_blocks = (length input - 1) / 1024 in
    let tail_offset = full_blocks * 1024 in
    record {
      full_blocks = full_blocks;
      tail_offset = tail_offset;
      tail_stripes = (length input - tail_offset - 1) / 64;
      last_offset = length input - 64;
    }

-- `[u64; 8]`
abbrev pub Accumulator : Type 0
Accumulator = List ℕ

unfoldable pub initial_accumulator : Accumulator
initial_accumulator = p32_3 ∷ p64_1 ∷ p64_2 ∷ p64_3 ∷ p64_4 ∷ p32_2 ∷ p64_5 ∷ p32_1 ∷ []

-- `for lane in 0..4`
unfoldable pub merge_lanes : ℕ → ℕ → Accumulator → Secret → ℕ → ℕ → Option ℕ
merge_lanes zero lane acc keys offset result = some result
merge_lanes (suc n) lane acc keys offset result = do
  acc0 ← get_elem? acc (lane * 2)
  key0 ← read_u64_le keys (offset + lane * 16)
  acc1 ← get_elem? acc (lane * 2 + 1)
  key1 ← read_u64_le keys (offset + lane * 16 + 8)
  merge_lanes n (lane + 1) acc keys offset
      (add64 result (mul_fold (bit_xor acc0 key0) (bit_xor acc1 key1)))

unfoldable pub merge : Accumulator → Secret → ℕ → ℕ → Option ℕ
merge acc keys offset start = do
  result ← merge_lanes 4 0 acc keys offset start
  some (xxh3_avalanche result)

unfoldable pub finalize_long_64 : ℕ → Secret → Accumulator → Option ℕ
finalize_long_64 len keys acc = merge acc keys 11 (mul64 (len % 2 ^ 64) p64_1)

-- `!` is the complement of a word: it is applied to the product.
unfoldable pub finalize_long_128 : ℕ → Secret → Accumulator → Option (ℕ × ℕ)
finalize_long_128 len keys acc = do
  low ← merge acc keys 11 (mul64 (len % 2 ^ 64) p64_1)
  high ← merge acc keys 117 (2 ^ 64 - 1 - mul64 (len % 2 ^ 64) p64_2)
  some (low, high)

-- `for lane in 0..8` of `accumulate_stripe`
unfoldable pub accumulate_lanes : ℕ → ℕ → Accumulator → List ℕ → Secret → ℕ → ℕ → Option Accumulator
accumulate_lanes zero lane acc input keys data_offset secret_offset = some acc
accumulate_lanes (suc n) lane acc input keys data_offset secret_offset = do
  value ← read_u64_le_ptr input (data_offset + lane * 8)
  key ← read_u64_le_ptr keys (secret_offset + lane * 8)
  let mixed = bit_xor value key
  other ← get_elem? acc (bit_xor lane 1)
  let acc' = set acc (bit_xor lane 1) (add64 other value)
  own ← get_elem? acc' lane
  let acc'' = set acc' lane (add64 own (mul64 (mixed % 2 ^ 32) (mixed / 2 ^ 32)))
  accumulate_lanes n (lane + 1) acc'' input keys data_offset secret_offset

unfoldable pub accumulate_stripe : Accumulator → List ℕ → Secret → ℕ → ℕ → Option Accumulator
accumulate_stripe acc input keys data_offset secret_offset =
    accumulate_lanes 8 0 acc input keys data_offset secret_offset

-- `for (lane, value) in acc.iter_mut().enumerate()`
unfoldable pub scramble_lanes : ℕ → Accumulator → Secret → Option Accumulator
scramble_lanes lane [] keys = some []
scramble_lanes lane (value ∷ acc) keys = do
  key ← read_u64_le_ptr keys (128 + lane * 8)
  rest ← scramble_lanes (lane + 1) acc keys
  some (mul64 (bit_xor (xor_shift value 47) key) p32_1 ∷ rest)

unfoldable pub scramble : Accumulator → Secret → Option Accumulator
scramble acc keys = scramble_lanes 0 acc keys

-- `for stripe in stripe..stripe + n`
unfoldable pub accumulate_stripes : ℕ → ℕ → Accumulator → List ℕ → Secret → ℕ → Option Accumulator
accumulate_stripes zero stripe acc input keys offset = some acc
accumulate_stripes (suc n) stripe acc input keys offset = do
  acc' ← accumulate_stripe acc input keys (offset + stripe * 64) (stripe * 8)
  accumulate_stripes n (stripe + 1) acc' input keys offset

-- `for block in block..block + n`
unfoldable pub accumulate_blocks : ℕ → ℕ → Accumulator → List ℕ → Secret → Option Accumulator
accumulate_blocks zero block acc input keys = some acc
accumulate_blocks (suc n) block acc input keys = do
  acc' ← accumulate_stripes 16 0 acc input keys (block * 1024)
  acc'' ← scramble acc' keys
  accumulate_blocks n (block + 1) acc'' input keys

unfoldable pub accumulate : List ℕ → Secret → Option Accumulator
accumulate input keys = do
  let schedule = build_long_input_schedule input
  acc ← accumulate_blocks schedule.full_blocks 0 initial_accumulator input keys
  acc' ← accumulate_stripes schedule.tail_stripes 0 acc input keys schedule.tail_offset
  accumulate_stripe acc' input keys schedule.last_offset 121

-- `LongEngine::derive_secret`: no secret is derived from the zero seed.
unfoldable pub derive_secret : ℕ → Option (Option Secret)
derive_secret seed =
    if seed == 0
    then some none
    else (initialize_secret_scalar seed >>= λ derived. some (some derived))

-- `LongEngine::secret`
unfoldable pub chosen_secret : Option Secret → Secret
chosen_secret none = secret
chosen_secret (some derived) = derived

-- `LongEngine::hash`, and `LongEngine::hash_128` without a vector kernel.
unfoldable pub engine_hash :
    {T : Type 0} → List ℕ → Secret → (ℕ → Secret → Accumulator → Option T) → Option T
engine_hash input keys finalize = do acc ← accumulate input keys; finalize (length input) keys acc

unfoldable pub hash_128 : List ℕ → Secret → Option (ℕ × ℕ)
hash_128 input keys = engine_hash input keys finalize_long_128

unfoldable pub hash_128_seeded : List ℕ → ℕ → Option (ℕ × ℕ)
hash_128_seeded input seed = do
  derived ← derive_secret seed
  engine_hash input (chosen_secret derived) finalize_long_128

unfoldable pub xxh3_64_over_240_bytes : List ℕ → ℕ → Option ℕ
xxh3_64_over_240_bytes input seed = do
  derived ← derive_secret seed
  engine_hash input (chosen_secret derived) finalize_long_64
