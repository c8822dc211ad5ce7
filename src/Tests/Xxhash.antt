-- ===== src/Tests/Xxhash.antt =====
-- Runs of the xxHash model, and examples of its theorems.
use hashcodecs_rs.Common.{
  arith, ◌+◌, ◌-◌, ◌^◌, ℕ, ◌≡◌, refl, some, List, [], ◌∷◌, ◌>>=◌, replicate, Returns, copy_at,
}
use hashcodecs_rs.Word.{IsU64}
use hashcodecs_rs.Xxhash.ShortInputs
use hashcodecs_rs.Xxhash.ShortInputs.{xxh3_64_len_0_to_16}
use hashcodecs_rs.Xxhash.ShortInputs.Formulas128
use hashcodecs_rs.Xxhash.ShortInputs.Formulas128.{
  xxh3_128_len_0_to_16, xxh3_128_len_32, xxh3_128_len_64, xxh3_128_len_128, xxh3_128_len_17_to_128,
}
use hashcodecs_rs.Xxhash.ShortInputs.Hash128.{AreU64}
use hashcodecs_rs.Xxhash.OneShot.{xxh3_64, xxh3_128}
use hashcodecs_rs.Xxhash.OneShot.Total.{xxh3-Returns, xxh3_128-general}
use hashcodecs_rs.Xxhash.LongInputs.{derive_rounds, initialize_secret_scalar}
use hashcodecs_rs.Xxhash.Primitives
use hashcodecs_rs.Xxhash.Primitives.{secret}
use hashcodecs_rs.Xxhash.Batch.{
  xxh3_64_batch_for_each, xxh3_128_batch_for_each, xxh3_64_batch, xxh3_128_batch,
}
use hashcodecs_rs.Xxhash.Batch.Each.{call_all, map_all, batches-map_all, batches_for_each-map_all}
use hashcodecs_rs.Xxhash.Prepared.{
  hash_64_batch_for_each, hash_128_batch_for_each, new, hash_64, prepared_hash_128, hash_64_batch,
  hash_128_batch,
}
use hashcodecs_rs.Xxhash.Prepared.OneShot.{prepared_matches}

-- Inputs of `n` bytes.
abbrev sevens : ℕ → List ℕ
sevens n = replicate n 7

abbrev hello : List ℕ
hello = b'h' ∷ b'e' ∷ b'l' ∷ b'l' ∷ b'o' ∷ []

abbrev maximum_seed : ℕ
maximum_seed = 2 ^ 64 - 1

-- Two inputs for the short formulas, around a long one.
abbrev mixed : List (List ℕ)
mixed = sevens 3 ∷ sevens 241 ∷ sevens 17 ∷ []

xxh3_64_empty : xxh3_64 [] 0 ≡ some 3244421341483603138
unfolding xxh3_64 xxh3_64_len_0_to_16 Primitives.read_u64_le secret Primitives.xxh64_avalanche
xxh3_64_empty = refl

xxh3_128_empty : xxh3_128 [] 0 ≡ some (6918025063187695999, 11072670137173121240)
unfolding xxh3_128 xxh3_128_len_0_to_16 Formulas128.xxh3_128_len_0 Primitives.read_u64_le secret
    Primitives.xxh64_avalanche
xxh3_128_empty = refl

-- The two values of `test_maximum_seed_remains_valid_across_apis` in tests/test_xxhash.py.
xxh3_64-hello : xxh3_64 hello maximum_seed ≡ some 2602620247648655140
unfolding xxh3_64 xxh3_64_len_0_to_16 ShortInputs.xxh3_64_len_4_to_8 Primitives.read_u32_le
    Primitives.read_u64_le secret Primitives.rrmxmx
xxh3_64-hello = refl

xxh3_128-hello : xxh3_128 hello maximum_seed ≡ some (9101043023604627021, 17807405623819876487)
unfolding xxh3_128 xxh3_128_len_0_to_16 Formulas128.xxh3_128_len_4_to_8 Primitives.read_u32_le
    Primitives.read_u64_le secret Primitives.xxh3_avalanche
xxh3_128-hello = refl

secret_of_zero : initialize_secret_scalar 0 ≡ some secret
unfolding initialize_secret_scalar derive_rounds Primitives.read_u64_le secret copy_at
secret_of_zero = refl

-- A callback that adds up what it is given.
abbrev add_up : ℕ → ℕ → ℕ
add_up hash sum = hash + sum

abbrev add_low : ℕ × ℕ → ℕ → ℕ
add_low hash sum = hash.0 + sum

xxh3-Returns_example :
    Returns IsU64 (xxh3_64 (sevens 241) 5) × Returns AreU64 (xxh3_128 (sevens 241) 5)
xxh3-Returns_example = xxh3-Returns (sevens 241) 5

xxh3_128-general_example : xxh3_128 (sevens 64) 5 ≡ xxh3_128_len_17_to_128 (sevens 64) 5
xxh3_128-general_example = xxh3_128-general (sevens 64) 5 (omega arith) (omega arith)

batches-map_all_example :
    (xxh3_64_batch mixed 5 ≡ map_all (λ i. xxh3_64 i 5) mixed)
    × (xxh3_128_batch mixed 5 ≡ map_all (λ i. xxh3_128 i 5) mixed)
batches-map_all_example = batches-map_all mixed 5

batches_for_each-map_all_example :
    (xxh3_64_batch_for_each add_up 0 mixed 5
      ≡ (map_all (λ i. xxh3_64 i 5) mixed >>= λ hashes. some (call_all add_up 0 hashes)))
    × (xxh3_128_batch_for_each add_low 0 mixed 5
        ≡ (map_all (λ i. xxh3_128 i 5) mixed >>= λ hashes. some (call_all add_low 0 hashes)))
batches_for_each-map_all_example = batches_for_each-map_all add_up add_low 0 mixed 5

prepared_matches_example :
    (((new 5 >>= λ p. hash_64 p (sevens 241)) ≡ xxh3_64 (sevens 241) 5)
      × ((new 5 >>= λ p. prepared_hash_128 p (sevens 241)) ≡ xxh3_128 (sevens 241) 5))
    × (((new 5 >>= λ p. hash_64_batch p mixed) ≡ map_all (λ i. xxh3_64 i 5) mixed)
        × ((new 5 >>= λ p. hash_128_batch p mixed) ≡ map_all (λ i. xxh3_128 i 5) mixed))
    × (((new 5 >>= λ p. hash_64_batch_for_each p mixed add_up 0)
          ≡ (map_all (λ i. xxh3_64 i 5) mixed >>= λ hashes. some (call_all add_up 0 hashes)))
        × ((new 5 >>= λ p. hash_128_batch_for_each p mixed add_low 0)
            ≡ (map_all (λ i. xxh3_128 i 5) mixed >>= λ hashes. some (call_all add_low 0 hashes))))
prepared_matches_example = prepared_matches 5 add_up add_low 0 (sevens 241) mixed
