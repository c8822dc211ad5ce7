-- ===== src/Murmur3/X86Hasher128.antt =====
-- murmur3/x86_128/murmur3_x86_hasher128.rs: the x86 128-bit variant, with the scalar body that
-- targets other than x86 always take.
pub mod Streaming
use hashcodecs_rs.Common.{
  ℕ, ◌+◌, ◌*◌, ◌/◌, ◌%◌, ◌^◌, Option, none, some, List, [], ◌∷◌, ◌>>=◌, ltb, ◌==◌, if◌then◌else◌,
  length, get_elem?, set,
}
use hashcodecs_rs.Word.{bit_xor, bit_or, add32, mul32, rotate_left32, shl32}
use hashcodecs_rs.Murmur3.BlockBuffer.{Mix, BlockBuffer, new_buffer, consume, remaining, split}
use hashcodecs_rs.Murmur3.Primitives.{fmix32, read_u32_le}

-- `[u32; 4]`
pub record Hashes : Type 0 where
  pub hash1 : ℕ
  pub hash2 : ℕ
  pub hash3 : ℕ
  pub hash4 : ℕ

pub record Murmur3X86Hasher128 : Type 0 where
  pub hashes : Hashes
  pub tail : BlockBuffer
  pub total : ℕ

-- The multipliers and rotations of the four lanes.
abbrev pub scramble1 : ℕ → ℕ
scramble1 block = mul32 (rotate_left32 (mul32 block 597399067) 15) 2869860233

abbrev pub scramble2 : ℕ → ℕ
scramble2 block = mul32 (rotate_left32 (mul32 block 2869860233) 16) 951274213

abbrev pub scramble3 : ℕ → ℕ
scramble3 block = mul32 (rotate_left32 (mul32 block 951274213) 17) 2716044179

abbrev pub scramble4 : ℕ → ℕ
scramble4 block = mul32 (rotate_left32 (mul32 block 2716044179) 18) 597399067

unfoldable pub scale_hash : ℕ → ℕ → ℕ
scale_hash addend hash = add32 (mul32 hash 5) addend

unfoldable pub mix_hashes : Hashes → ℕ → ℕ → ℕ → ℕ → Hashes
unfolding scale_hash
mix_hashes hashes block1 block2 block3 block4 =
    let hash1 =
      scale_hash 1444728091 (add32 (rotate_left32 (bit_xor hashes.hash1 block1) 19) hashes.hash2) in
    let hash2 =
      scale_hash 197830471 (add32 (rotate_left32 (bit_xor hashes.hash2 block2) 17) hashes.hash3) in
    let hash3 =
      scale_hash 2530024501 (add32 (rotate_left32 (bit_xor hashes.hash3 block3) 15) hashes.hash4) in
    let hash4 =
      scale_hash 850148119 (add32 (rotate_left32 (bit_xor hashes.hash4 block4) 13) hash1) in
    record { hash1 = hash1; hash2 = hash2; hash3 = hash3; hash4 = hash4 }

-- `while offset < input.len()`; a load past the end panics.
unfoldable pub mix_body_scalar : Mix Hashes
unfolding mix_hashes read_u32_le
mix_body_scalar [] hashes = some hashes
mix_body_scalar (a ∷ b ∷ c ∷ d ∷ e ∷ f ∷ g ∷ h ∷ i ∷ j ∷ k ∷ l ∷ m ∷ n ∷ o ∷ p ∷ rest) hashes = do
  block1 ← read_u32_le (a ∷ b ∷ c ∷ d ∷ []) 0
  block2 ← read_u32_le (e ∷ f ∷ g ∷ h ∷ []) 0
  block3 ← read_u32_le (i ∷ j ∷ k ∷ l ∷ []) 0
  block4 ← read_u32_le (m ∷ n ∷ o ∷ p ∷ []) 0
  mix_body_scalar rest (
      mix_hashes hashes (scramble1 block1) (scramble2 block2) (scramble3 block3) (scramble4 block4))
mix_body_scalar rest hashes = none

unfoldable pub mix_body : Mix Hashes
mix_body blocks hashes = mix_body_scalar blocks hashes

-- The four sums of `finalize`.
abbrev add_lanes : Hashes → Hashes
add_lanes hashes =
    let hash1 = add32 (add32 (add32 hashes.hash1 hashes.hash2) hashes.hash3) hashes.hash4 in
    record {
      hash1 = hash1;
      hash2 = add32 hashes.hash2 hash1;
      hash3 = add32 hashes.hash3 hash1;
      hash4 = add32 hashes.hash4 hash1;
    }

-- `for hash in &mut hashes`
abbrev each : (ℕ → ℕ) → Hashes → Hashes
each f hashes = record {
  hash1 = f hashes.hash1;
  hash2 = f hashes.hash2;
  hash3 = f hashes.hash3;
  hash4 = f hashes.hash4;
}

unfoldable pub finalize : Hashes → ℕ → Hashes
finalize hashes len = add_lanes (each fmix32 (add_lanes (each (λ hash. bit_xor hash len) hashes)))

-- The loop over the tail: `blocks[index / 4] |= (byte as u32) << ((index % 4) * 8)`
unfoldable pub gather : List ℕ → ℕ → List ℕ → Option (List ℕ)
gather [] index blocks = some blocks
gather (byte ∷ tail) index blocks = do
  old ← get_elem? blocks (index / 4)
  gather tail (index + 1) (set blocks (index / 4) (bit_or old (shl32 byte (index % 4 * 8))))

-- `hash ^= …` for a lane that the tail reaches
abbrev pub mix_lane : List ℕ → ℕ → List ℕ → ℕ → (ℕ → ℕ) → ℕ → Option ℕ
mix_lane tail least blocks lane scramble hash =
    if ltb least (length tail)
    then (get_elem? blocks lane >>= λ block. some (bit_xor hash (scramble block)))
    else some hash

unfoldable pub finish_tail : List ℕ → Hashes → ℕ → Option Hashes
finish_tail tail hashes len = do
  blocks ← gather tail 0 (0 ∷ 0 ∷ 0 ∷ 0 ∷ [])
  hash4 ← mix_lane tail 12 blocks 3 scramble4 hashes.hash4
  hash3 ← mix_lane tail 8 blocks 2 scramble3 hashes.hash3
  hash2 ← mix_lane tail 4 blocks 1 scramble2 hashes.hash2
  hash1 ← mix_lane tail 0 blocks 0 scramble1 hashes.hash1
  some (finalize (record { hash1 = hash1; hash2 = hash2; hash3 = hash3; hash4 = hash4 }) len)

abbrev pub each_lane : ℕ → Hashes
each_lane seed = record { hash1 = seed; hash2 = seed; hash3 = seed; hash4 = seed }

unfoldable pub new : ℕ → Option Murmur3X86Hasher128
new seed = do
  buffer ← new_buffer 16
  some (record { hashes = each_lane seed; tail = buffer; total = 0 })

unfoldable pub update : Murmur3X86Hasher128 → List ℕ → Option Murmur3X86Hasher128
update hasher input = do
  let total = add32 hasher.total (length input % 2 ^ 32)
  (hashes, tail) ← consume 16 hasher.tail input mix_body hasher.hashes
  some (record { hashes = hashes; tail = tail; total = total })

unfoldable pub digest : Murmur3X86Hasher128 → Option Hashes
digest hasher = do tail ← remaining hasher.tail; finish_tail tail hasher.hashes hasher.total

unfoldable pub murmur3_x86_128 : List ℕ → ℕ → Option Hashes
murmur3_x86_128 input seed = do
  (blocks, tail) ← split 16 input
  hashes ← mix_body blocks (each_lane seed)
  finish_tail tail hashes (length input % 2 ^ 32)
