-- ===== src/Murmur3/Bounds.antt =====
-- The one-call functions of src/murmur3 return words.
use hashcodecs_rs.Common.{ℕ, ◌≡◌, some, List}
use hashcodecs_rs.Word.{IsU32, IsU64}
use hashcodecs_rs.Murmur3.X86Hasher32.{murmur3_x86_32}
use hashcodecs_rs.Murmur3.X86Hasher32.Streaming.{murmur3_x86_32-IsU32}
use hashcodecs_rs.Murmur3.X64Hasher128.{murmur3_x64_128}
use hashcodecs_rs.Murmur3.X64Hasher128.Streaming.{murmur3_x64_128-IsU64}
use hashcodecs_rs.Murmur3.X86Hasher128
use hashcodecs_rs.Murmur3.X86Hasher128.{murmur3_x86_128}
use hashcodecs_rs.Murmur3.X86Hasher128.Streaming.{murmur3_x86_128-AreU32, AreU32}

-- For every input and seed, the three one-call functions return one u32 value, four u32 values and
-- two u64 values: no load is out of bounds.
pub murmur3-AreWords :
    (input : List ℕ) (seed : ℕ)
    → ((d : ℕ) × (murmur3_x86_32 input seed ≡ some d) × IsU32 d)
      × ((d : X86Hasher128.Hashes) × (murmur3_x86_128 input seed ≡ some d) × AreU32 d)
      × ((d : ℕ × ℕ) × (murmur3_x64_128 input seed ≡ some d) × (IsU64 d.0) × (IsU64 d.1))
murmur3-AreWords input seed = (
  murmur3_x86_32-IsU32 input seed,
  murmur3_x86_128-AreU32 input seed,
  murmur3_x64_128-IsU64 input seed,
)
