-- ===== src/Xxhash/ShortInputs/Hash128.antt =====
-- The 128-bit formulas of xxhash/short_inputs.rs return two `u64` on every input of their length
-- class, and the formulas for 32, 64 and 128 bytes are the general one.
use hashcodecs_rs.Common.{
  ℕ, zero, suc, ◌+◌, ◌-◌, ◌*◌, ◌/◌, ◌≤◌, ◌<◌, ◌≡◌, refl, some, true, ◌&&◌, List, ltb, leb, ◌==◌,
  if◌then◌else◌, length, arith, Returns, Returns-some,
}
use hashcodecs_rs.Word.{IsU64, bit_xor-lt, sub64}
use hashcodecs_rs.Xxhash.Primitives.{secret}
use hashcodecs_rs.Xxhash.Primitives.Laws.{
  Total, total, both, either, read_u32_le-Total, read_u64_le-Total, read_u64_le_ptr-Total,
  mix16_ptr-Total, xxh3_avalanche-IsU64, xxh64_avalanche-IsU64, length-secret,
}
use hashcodecs_rs.Xxhash.ShortInputs.{Pair}
use hashcodecs_rs.Xxhash.ShortInputs.Formulas128.{
  xxh3_128_len_0, xxh3_128_len_1_to_3, xxh3_128_len_4_to_8, xxh3_128_len_9_to_16,
  xxh3_128_len_0_to_16, xxh3_128_len_17_to_128, xxh3_128_len_32, xxh3_128_len_64, xxh3_128_len_128,
  xxh3_128_len_129_to_240, mix32, mix32_ptr, final128, mix_head32, mix_tail32,
}
use hashcodecs_rs.Xxhash.ShortInputs.Hash64.{after, secret64-Total, secret32-Total, combined-Total}

abbrev pub AreU64 : Pair → Type 0
AreU64 p = (IsU64 p.0) × (IsU64 p.1)

final128-AreU64 : (acc : Pair) (len seed : ℕ) → AreU64 (final128 acc len seed)
unfolding final128
final128-AreU64 (acc0, acc1) len seed = (xxh3_avalanche-IsU64 _, omega arith)

class_0 : (seed : ℕ) → Returns AreU64 (xxh3_128_len_0 seed)
unfolding xxh3_128_len_0
class_0 seed = after (secret64-Total 64 72 (omega arith) (omega arith)) λ key1.
    after (secret64-Total 80 88 (omega arith) (omega arith))
      λ key2. Returns-some (xxh64_avalanche-IsU64 _, xxh64_avalanche-IsU64 _)

class_1_to_3 :
    (input : List ℕ) (seed : ℕ) → 0 < length input → Returns AreU64 (xxh3_128_len_1_to_3 input seed)
unfolding xxh3_128_len_1_to_3
class_1_to_3 input seed h = after (combined-Total input h) λ c.
    after (secret32-Total 0 4 (omega arith) (omega arith)) λ key1.
      after (secret32-Total 8 12 (omega arith) (omega arith))
        λ key2. Returns-some (xxh64_avalanche-IsU64 _, xxh64_avalanche-IsU64 _)

class_4_to_8 :
    (input : List ℕ) (seed : ℕ) → 4 ≤ length input → Returns AreU64 (xxh3_128_len_4_to_8 input seed)
unfolding xxh3_128_len_4_to_8
class_4_to_8 input seed h = after (read_u32_le-Total input 0 (omega arith)) λ low.
    after (read_u32_le-Total input (length input - 4) (omega arith)) λ high.
      after (secret64-Total 16 24 (omega arith) (omega arith))
        λ key. Returns-some (bit_xor-lt 64 _ _ (omega arith) (omega arith), xxh3_avalanche-IsU64 _)

class_9_to_16 :
    (input : List ℕ) (seed : ℕ)
    → 8 ≤ length input
    → Returns AreU64 (xxh3_128_len_9_to_16 input seed)
unfolding xxh3_128_len_9_to_16
class_9_to_16 input seed h = after (read_u64_le-Total input 0 (omega arith)) λ lo.
    after (read_u64_le-Total input (length input - 8) (omega arith)) λ hi.
      after (secret64-Total 32 40 (omega arith) (omega arith)) λ key1.
        after (secret64-Total 48 56 (omega arith) (omega arith))
          λ key2. Returns-some (xxh3_avalanche-IsU64 _, xxh3_avalanche-IsU64 _)

pub xxh3_128_len_0_to_16-AreU64 :
    (input : List ℕ) (seed : ℕ) → Returns AreU64 (xxh3_128_len_0_to_16 input seed)
unfolding xxh3_128_len_0_to_16
xxh3_128_len_0_to_16-AreU64 input seed =
    either AreU64 (length input == 0) (λ e. class_0 seed)
      (λ e.
        either AreU64 (leb (length input) 3) (λ f. class_1_to_3 input seed (ground arith))
          (λ f.
            either AreU64 (leb (length input) 8) (λ g. class_4_to_8 input seed (ground arith))
              (λ g. class_9_to_16 input seed (ground arith))))

pub mix32_ptr-Total :
    (acc : Pair) (input : List ℕ) (first second key seed : ℕ)
    → first + 16 ≤ length input
    → second + 16 ≤ length input
    → key + 32 ≤ 192
    → Total (mix32_ptr acc input first second key seed)
unfolding mix32_ptr
mix32_ptr-Total (acc0, acc1) input first second key seed h g k =
    both (mix16_ptr-Total input first secret key seed h (omega (arith, length-secret))) λ m0.
      both (read_u64_le_ptr-Total input second (omega arith)) λ s0.
        both (read_u64_le_ptr-Total input (second + 8) (omega arith)) λ s1.
          both
            (mix16_ptr-Total input second secret (key + 16) seed g (omega (arith, length-secret)))
            λ m1.
              both (read_u64_le_ptr-Total input first (omega arith))
                λ f0. both (read_u64_le_ptr-Total input (first + 8) (omega arith)) λ f1. total _

mix32-Total :
    (acc : Pair) (input : List ℕ) (first second key seed : ℕ)
    → first + 16 ≤ length input
    → second + 16 ≤ length input
    → key + 32 ≤ 192
    → Total (mix32 acc input first second key seed)
unfolding mix32
mix32-Total acc input first second key seed h g k =
    either (λ v. Unit {0})
      (leb (first + 16) (length input)
        && (leb (second + 16) (length input) && leb (key + 32) (length secret)))
      (λ e. mix32_ptr-Total acc input first second key seed h g k)
      (λ e. absurd (ground (arith, length-secret)))

-- One of the nested steps of `xxh3_128_len_17_to_128`.
optional_mix :
    (acc : Pair) (input : List ℕ) (least first second key seed : ℕ)
    → (ltb least (length input) ≡ true → (first + 16 ≤ length input) × (second + 16 ≤ length input))
    → key + 32 ≤ 192
    → Total (if ltb least (length input) then mix32 acc input first second key seed else some acc)
optional_mix acc input least first second key seed h k =
    either (λ v. Unit {0}) (ltb least (length input))
      (λ e. mix32-Total acc input first second key seed (h e).0 (h e).1 k) (λ e. total acc)

pub xxh3_128_len_17_to_128-AreU64 :
    (input : List ℕ) (seed : ℕ)
    → 16 ≤ length input
    → Returns AreU64 (xxh3_128_len_17_to_128 input seed)
unfolding xxh3_128_len_17_to_128
xxh3_128_len_17_to_128-AreU64 input seed h =
    let n = length input in
    after
      (optional_mix _ input 96 48 (n - 64) 96 seed (λ e. (ground arith, ground arith))
        (omega arith))
      λ acc1.
        after
          (optional_mix acc1 input 64 32 (n - 48) 64 seed (λ e. (ground arith, ground arith))
            (omega arith))
          λ acc2.
            after
              (optional_mix acc2 input 32 16 (n - 32) 32 seed (λ e. (ground arith, ground arith))
                (omega arith))
              λ acc3.
                after
                  (mix32-Total acc3 input 0 (n - 16) 0 seed (omega arith) (omega arith)
                    (omega arith))
                  λ acc4. Returns-some (final128-AreU64 acc4 n seed)

mix_head32-Total :
    (n i : ℕ) (input : List ℕ) (seed : ℕ) (acc : Pair)
    → i + n * 32 ≤ 128
    → 128 ≤ length input
    → Total (mix_head32 n i input seed acc)
unfolding mix_head32
mix_head32-Total zero i input seed acc h g = total acc
mix_head32-Total (suc n) i input seed acc h g =
    both (mix32_ptr-Total acc input i (i + 16) i seed (omega arith) (omega arith) (omega arith))
      λ a. mix_head32-Total n (i + 32) input seed a (omega arith) g

mix_tail32-Total :
    (n i : ℕ) (input : List ℕ) (seed : ℕ) (acc : Pair)
    → (i + n) * 32 ≤ length input
    → 4 ≤ i
    → i + n ≤ 7
    → Total (mix_tail32 n i input seed acc)
unfolding mix_tail32
mix_tail32-Total zero i input seed acc h l g = total acc
mix_tail32-Total (suc n) i input seed acc h l g =
    both
      (mix32_ptr-Total acc input (i * 32) (i * 32 + 16) (3 + (i - 4) * 32) seed (omega arith)
        (omega arith) (omega arith))
      λ a. mix_tail32-Total n (i + 1) input seed a (omega arith) (omega arith) (omega arith)

pub xxh3_128_len_129_to_240-AreU64 :
    (input : List ℕ) (seed : ℕ)
    → 129 ≤ length input
    → length input ≤ 240
    → Returns AreU64 (xxh3_128_len_129_to_240 input seed)
unfolding xxh3_128_len_129_to_240
xxh3_128_len_129_to_240-AreU64 input seed h g =
    let n = length input in
    after
      (either (λ v. Unit {0}) (leb 129 n && leb n 240)
        (λ e. mix_head32-Total 4 0 input seed _ (omega arith) (omega arith))
        (λ e. absurd (ground arith)))
      λ head.
        after
          (mix_tail32-Total (n / 32 - 4) 4 input seed _ (omega arith) (omega arith) (omega arith))
          λ acc.
            after
              (mix32_ptr-Total acc input (n - 16) (n - 32) 103 (sub64 0 seed) (omega arith)
                (omega arith) (omega arith))
              λ acc'. Returns-some (final128-AreU64 acc' n seed)

-- For every input of 32 bytes and every seed, the formula of xxh3_128_len_32 is the one of
-- xxh3_128_len_17_to_128.
pub xxh3_128_len_32-general :
    (input : List ℕ) (seed : ℕ)
    → length input ≡ 32
    → xxh3_128_len_32 input seed ≡ xxh3_128_len_17_to_128 input seed
unfolding xxh3_128_len_32 xxh3_128_len_17_to_128
xxh3_128_len_32-general input seed h = rw h refl

-- For every input of 64 bytes and every seed, the formula of xxh3_128_len_64 is the one of
-- xxh3_128_len_17_to_128.
pub xxh3_128_len_64-general :
    (input : List ℕ) (seed : ℕ)
    → length input ≡ 64
    → xxh3_128_len_64 input seed ≡ xxh3_128_len_17_to_128 input seed
unfolding xxh3_128_len_64 xxh3_128_len_17_to_128
xxh3_128_len_64-general input seed h = rw h refl

-- For every input of 128 bytes and every seed, the formula of xxh3_128_len_128 is the one of
-- xxh3_128_len_17_to_128.
pub xxh3_128_len_128-general :
    (input : List ℕ) (seed : ℕ)
    → length input ≡ 128
    → xxh3_128_len_128 input seed ≡ xxh3_128_len_17_to_128 input seed
unfolding xxh3_128_len_128 xxh3_128_len_17_to_128
xxh3_128_len_128-general input seed h = rw h refl
