-- ===== src/Murmur3/BlockBuffer.antt =====
-- murmur3/block_buffer.rs: input bytes collected into full blocks.
pub mod Laws
pub mod Ends
use hashcodecs_rs.Common.{
  copy_at, checked_sub, ℕ, ◌+◌, ◌-◌, ◌*◌, ◌/◌, Option, none, some, List, [], ◌++◌, ◌>>=◌, leb, ◌==◌,
  if◌then◌else◌, min, length, take, drop, replicate,
}

-- The closure that `consume` is given: it mixes full blocks into a state, or panics.
abbrev pub Mix : Type 0 → Type 0
Mix S = List ℕ → S → Option S

-- `FullBlocks::split`: the bytes of the full blocks, and the others.
unfoldable pub split : ℕ → List ℕ → Option (List ℕ × List ℕ)
split block_size input =
    if block_size == 0
    then none
    else let body_len = length input / block_size * block_size in
      some (take body_len input, drop body_len input)

pub record BlockBuffer : Type 0 where
  pub bytes : List ℕ
  pub len : ℕ

unfoldable pub new_buffer : ℕ → Option BlockBuffer
new_buffer block_size =
    if block_size == 0 then none else some (record { bytes = replicate block_size 0; len = 0 })

-- The part of `consume` behind the buffered block: all full blocks at once, and the rest kept.
unfoldable pub consume_input :
    {S : Type 0} → ℕ → List ℕ → Mix S → S → List ℕ → Option (S × BlockBuffer)
unfolding split copy_at
consume_input block_size input mix state bytes = do
  (blocks, remaining) ← split block_size input
  state' ← if length blocks == 0 then some state else mix blocks state
  bytes' ← copy_at bytes 0 remaining
  some (state', record { bytes = bytes'; len = length remaining })

unfoldable pub consume :
    {S : Type 0} → ℕ → BlockBuffer → List ℕ → Mix S → S → Option (S × BlockBuffer)
unfolding consume_input copy_at checked_sub
consume block_size buffer input mix state =
    if buffer.len == 0 then consume_input block_size input mix state buffer.bytes else do
      needed ← checked_sub block_size buffer.len
      let copied = min needed (length input)
      bytes ← copy_at buffer.bytes buffer.len (take copied input)
      if buffer.len + copied == block_size
          then (mix bytes state >>= λ state'.
              consume_input block_size (drop copied input) mix state' bytes)
          else some (state, record { bytes = bytes; len = buffer.len + copied })

-- `&self.bytes[..self.len]`
unfoldable pub remaining : BlockBuffer → Option (List ℕ)
remaining buffer =
    if leb buffer.len (length buffer.bytes) then some (take buffer.len buffer.bytes) else none
