-- ===== src/Xxhash/ShortInputs/Hash64.antt =====
-- The 64-bit formulas of xxhash/short_inputs.rs return a `u64` on every input of their length class.
use hashcodecs_rs.Common.{
  ℕ, zero, suc, ◌+◌, ◌-◌, ◌*◌, ◌/◌, ◌≤◌, ◌<◌, ◌≡◌, Option, some, true, List, ltb, leb, ◌==◌,
  if◌then◌else◌, length, arith, Returns, Returns-bind, Returns-some, ◌>>=◌,
}
use hashcodecs_rs.Word.{IsU64}
use hashcodecs_rs.Xxhash.Primitives.{secret}
use hashcodecs_rs.Xxhash.Primitives.Laws.{
  Total, total, both, either, get-Total, read_u32_le-Total, read_u64_le-Total, mix16-Total,
  xxh3_avalanche-IsU64, xxh64_avalanche-IsU64, rrmxmx-IsU64, length-secret,
}
use hashcodecs_rs.Xxhash.ShortInputs.{
  secret64, secret32, combined, add_mix16, xxh3_64_len_0_to_16, xxh3_64_len_1_to_3,
  xxh3_64_len_4_to_8, xxh3_64_len_9_to_16, xxh3_64_len_17_to_128, xxh3_64_len_129_to_240, mix_head,
  mix_tail,
}

-- A value behind a total step.
pub after {ℓ} :
    {A B : Type 0} {P : B → Type ℓ} {m : Option A} {f : A → Option B}
    → Total m
    → ((a : A) → Returns P (f a))
    → Returns P (m >>= f)
after r k = Returns-bind r λ a h. k a

pub secret64-Total : (i j : ℕ) → i + 8 ≤ 192 → j + 8 ≤ 192 → Total (secret64 i j)
secret64-Total i j h g =
    both (read_u64_le-Total secret i (omega (arith, length-secret)))
      λ a. both (read_u64_le-Total secret j (omega (arith, length-secret))) λ b. total _

pub secret32-Total : (i j : ℕ) → i + 4 ≤ 192 → j + 4 ≤ 192 → Total (secret32 i j)
secret32-Total i j h g =
    both (read_u32_le-Total secret i (omega (arith, length-secret)))
      λ a. both (read_u32_le-Total secret j (omega (arith, length-secret))) λ b. total _

pub combined-Total : (input : List ℕ) → 0 < length input → Total (combined input)
combined-Total input h = both (get-Total input 0 h) λ first.
    both (get-Total input (length input / 2) (omega arith))
      λ middle. both (get-Total input (length input - 1) (omega arith)) λ last. total _

class_1_to_3 :
    (input : List ℕ) (seed : ℕ) → 0 < length input → Returns IsU64 (xxh3_64_len_1_to_3 input seed)
unfolding xxh3_64_len_1_to_3
class_1_to_3 input seed h = after (combined-Total input h) λ word.
    after (secret32-Total 0 4 (omega arith) (omega arith))
      λ key. Returns-some (xxh64_avalanche-IsU64 _)

class_4_to_8 :
    (input : List ℕ) (seed : ℕ) → 4 ≤ length input → Returns IsU64 (xxh3_64_len_4_to_8 input seed)
unfolding xxh3_64_len_4_to_8
class_4_to_8 input seed h = after (read_u32_le-Total input (length input - 4) (omega arith)) λ high.
    after (read_u32_le-Total input 0 (omega arith)) λ low.
      after (secret64-Total 8 16 (omega arith) (omega arith)) λ key. Returns-some (rrmxmx-IsU64 _ _)

class_9_to_16 :
    (input : List ℕ) (seed : ℕ) → 8 ≤ length input → Returns IsU64 (xxh3_64_len_9_to_16 input seed)
unfolding xxh3_64_len_9_to_16
class_9_to_16 input seed h = after (read_u64_le-Total input 0 (omega arith)) λ first.
    after (secret64-Total 24 32 (omega arith) (omega arith)) λ key1.
      after (read_u64_le-Total input (length input - 8) (omega arith)) λ last.
        after (secret64-Total 40 48 (omega arith) (omega arith))
          λ key2. Returns-some (xxh3_avalanche-IsU64 _)

pub xxh3_64_len_0_to_16-IsU64 :
    (input : List ℕ) (seed : ℕ) → Returns IsU64 (xxh3_64_len_0_to_16 input seed)
unfolding xxh3_64_len_0_to_16
xxh3_64_len_0_to_16-IsU64 input seed =
    either IsU64 (length input == 0)
      (λ e.
        after (secret64-Total 56 64 (omega arith) (omega arith))
          λ key. Returns-some (xxh64_avalanche-IsU64 _))
      (λ e.
        either IsU64 (leb (length input) 3) (λ f. class_1_to_3 input seed (ground arith))
          (λ f.
            either IsU64 (leb (length input) 8) (λ g. class_4_to_8 input seed (ground arith))
              (λ g. class_9_to_16 input seed (ground arith))))

pub add_mix16-Total :
    (input : List ℕ) (i j seed acc : ℕ)
    → i + 16 ≤ length input
    → j + 16 ≤ 192
    → Total (add_mix16 input i j seed acc)
add_mix16-Total input i j seed acc h g =
    both (mix16-Total input i secret j seed h (omega (arith, length-secret))) λ m. total _

-- One of the nested steps of `xxh3_64_len_17_to_128`.
pair_of_mixes :
    (input : List ℕ) (least i j key key' seed acc : ℕ)
    → (ltb least (length input) ≡ true → (i + 16 ≤ length input) × (j + 16 ≤ length input))
    → key + 16 ≤ 192
    → key' + 16 ≤ 192
    → Total (
        if ltb least (length input)
        then (add_mix16 input i key seed acc >>= add_mix16 input j key' seed)
        else some acc)
pair_of_mixes input least i j key key' seed acc h g g' =
    either (λ v. Unit {0}) (ltb least (length input))
      (λ e.
        both (add_mix16-Total input i key seed acc (h e).0 g)
          λ a. add_mix16-Total input j key' seed a (h e).1 g')
      (λ e. total acc)

pub xxh3_64_len_17_to_128-IsU64 :
    (input : List ℕ) (seed : ℕ)
    → 16 ≤ length input
    → Returns IsU64 (xxh3_64_len_17_to_128 input seed)
unfolding xxh3_64_len_17_to_128
xxh3_64_len_17_to_128-IsU64 input seed h =
    let n = length input in
    after
      (pair_of_mixes input 96 48 (n - 64) 96 112 seed _ (λ e. (ground arith, ground arith))
        (omega arith) (omega arith))
      λ acc1.
        after
          (pair_of_mixes input 64 32 (n - 48) 64 80 seed acc1 (λ e. (ground arith, ground arith))
            (omega arith) (omega arith))
          λ acc2.
            after
              (pair_of_mixes input 32 16 (n - 32) 32 48 seed acc2
                (λ e. (ground arith, ground arith)) (omega arith) (omega arith))
              λ acc3.
                after (add_mix16-Total input 0 0 seed acc3 (omega arith) (omega arith)) λ acc4.
                  after (add_mix16-Total input (n - 16) 16 seed acc4 (omega arith) (omega arith))
                    λ acc5. Returns-some (xxh3_avalanche-IsU64 _)

mix_head-Total :
    (n i : ℕ) (input : List ℕ) (seed acc : ℕ)
    → 16 * (i + n) ≤ length input
    → i + n ≤ 12
    → Total (mix_head n i input seed acc)
unfolding mix_head
mix_head-Total zero i input seed acc h g = total acc
mix_head-Total (suc n) i input seed acc h g =
    both (add_mix16-Total input (16 * i) (16 * i) seed acc (omega arith) (omega arith))
      λ a. mix_head-Total n (i + 1) input seed a (omega arith) (omega arith)

mix_tail-Total :
    (n i : ℕ) (input : List ℕ) (seed acc : ℕ)
    → 16 * (i + n) ≤ length input
    → 8 ≤ i
    → i + n ≤ 15
    → Total (mix_tail n i input seed acc)
unfolding mix_tail
mix_tail-Total zero i input seed acc h l g = total acc
mix_tail-Total (suc n) i input seed acc h l g =
    both (add_mix16-Total input (16 * i) (3 + 16 * (i - 8)) seed acc (omega arith) (omega arith))
      λ a. mix_tail-Total n (i + 1) input seed a (omega arith) (omega arith) (omega arith)

pub xxh3_64_len_129_to_240-IsU64 :
    (input : List ℕ) (seed : ℕ)
    → 129 ≤ length input
    → length input ≤ 240
    → Returns IsU64 (xxh3_64_len_129_to_240 input seed)
unfolding xxh3_64_len_129_to_240
xxh3_64_len_129_to_240-IsU64 input seed h g =
    let n = length input in
    after (mix_head-Total 8 0 input seed _ (omega arith) (omega arith)) λ acc.
      after
        (mix16-Total input (n - 16) secret 119 seed (omega arith) (omega (arith, length-secret)))
        λ tail.
          after
            (mix_tail-Total (n / 16 - 8) 8 input seed tail (omega arith) (omega arith)
              (omega arith))
            λ tail'. Returns-some (xxh3_avalanche-IsU64 _)
