-- ===== src/Tests/Murmur3.antt =====
-- The values that the documentation of murmur3 gives, and examples of its theorems.
use hashcodecs_rs.Common.{ℕ, ◌≡◌, ◌↔◌, refl, some, List, [], ◌∷◌, ◌>>=◌, arith}
use hashcodecs_rs.Word.{IsU32, IsU64}
use hashcodecs_rs.Murmur3.BlockBuffer.{split}
use hashcodecs_rs.Murmur3.Primitives.{fmix32, fmix64, read_partial_u64_le}
use hashcodecs_rs.Murmur3.Primitives.Laws.{little_endian, read_partial_u64_le-little_endian}
use hashcodecs_rs.Murmur3.Primitives.Bijective.{finalizers-injective}
use hashcodecs_rs.Murmur3.Bounds.{murmur3-AreWords}
use hashcodecs_rs.Murmur3.Hasher.Streaming.{update_all}
use hashcodecs_rs.Murmur3.X86Hasher32
use hashcodecs_rs.Murmur3.X86Hasher32.{murmur3_x86_32}
use hashcodecs_rs.Murmur3.X86Hasher32.Streaming.{digest-update_all_x86_32}
use hashcodecs_rs.Murmur3.X64Hasher128
use hashcodecs_rs.Murmur3.X64Hasher128.{murmur3_x64_128}
use hashcodecs_rs.Murmur3.X64Hasher128.Streaming.{digest-update_all_x64_128}
use hashcodecs_rs.Murmur3.X86Hasher128
use hashcodecs_rs.Murmur3.X86Hasher128.{murmur3_x86_128}
use hashcodecs_rs.Murmur3.X86Hasher128.Streaming.{digest-update_all_x86_128, AreU32}

abbrev hello : List ℕ
hello = b'h' ∷ b'e' ∷ b'l' ∷ b'l' ∷ b'o' ∷ []

abbrev hel_lo : List (List ℕ)
hel_lo = (b'h' ∷ b'e' ∷ b'l' ∷ []) ∷ (b'l' ∷ b'o' ∷ []) ∷ []

abbrev one_two_three : List ℕ
one_two_three = 1 ∷ 2 ∷ 3 ∷ []

hello_x86_32 : murmur3_x86_32 hello 0 ≡ some 613153351
unfolding murmur3_x86_32 split X86Hasher32.mix_body X86Hasher32.mix_body_scalar
    X86Hasher32.finish_tail fmix32
hello_x86_32 = refl

three_x64_128 : murmur3_x64_128 one_two_three 0 ≡ some (1901714139111438249, 5282241052699499109)
unfolding murmur3_x64_128 split X64Hasher128.mix_body X64Hasher128.finish_tail fmix64
    read_partial_u64_le
three_x64_128 = refl

three_x86_128 :
    murmur3_x86_128 one_two_three 0
    ≡ some
        (record { hash1 = 4127286497; hash2 = 3037938227; hash3 = 3037938227; hash4 = 3037938227 })
unfolding murmur3_x86_128 split X86Hasher128.mix_body X86Hasher128.mix_body_scalar
    X86Hasher128.finish_tail X86Hasher128.gather X86Hasher128.finalize fmix32
three_x86_128 = refl

digest-update_all_x86_32_example :
    (X86Hasher32.new 7 >>= λ h. update_all X86Hasher32.update h hel_lo >>= X86Hasher32.digest)
    ≡ murmur3_x86_32 hello 7
digest-update_all_x86_32_example = digest-update_all_x86_32 7 hel_lo

digest-update_all_x64_128_example :
    (X64Hasher128.new 7 >>= λ h. update_all X64Hasher128.update h hel_lo >>= X64Hasher128.digest)
    ≡ murmur3_x64_128 hello 7
digest-update_all_x64_128_example = digest-update_all_x64_128 7 hel_lo

digest-update_all_x86_128_example :
    (X86Hasher128.new 7 >>= λ h. update_all X86Hasher128.update h hel_lo >>= X86Hasher128.digest)
    ≡ murmur3_x86_128 hello 7
digest-update_all_x86_128_example = digest-update_all_x86_128 7 hel_lo

read_partial_u64_le-little_endian_example : read_partial_u64_le hello ≡ some (little_endian hello)
read_partial_u64_le-little_endian_example =
    read_partial_u64_le-little_endian hello
      (omega arith, (omega arith, (omega arith, (omega arith, (omega arith, tt))))) (omega arith)

abbrev seven : ℕ
seven = 7

murmur3-AreWords_example :
    ((d : ℕ) × (murmur3_x86_32 hello 7 ≡ some d) × IsU32 d)
    × ((d : X86Hasher128.Hashes) × (murmur3_x86_128 hello 7 ≡ some d) × AreU32 d)
    × ((d : ℕ × ℕ) × (murmur3_x64_128 hello 7 ≡ some d) × (IsU64 d.0) × (IsU64 d.1))
murmur3-AreWords_example = murmur3-AreWords hello 7

finalizers-injective_example :
    ((fmix32 7 ≡ fmix32 8) ↔ (seven ≡ 8)) × ((fmix64 7 ≡ fmix64 7) ↔ (seven ≡ 7))
finalizers-injective_example =
    finalizers-injective 7 8 7 7 (omega arith) (omega arith) (omega arith) (omega arith)
