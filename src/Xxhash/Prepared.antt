-- ===== src/Xxhash/Prepared.antt =====
-- xxhash/prepared.rs: one seed for many hashes.
pub mod OneShot
use hashcodecs_rs.Common.{ℕ, Option, none, some, List, [], ◌>>=◌}
use hashcodecs_rs.Xxhash.ShortInputs.{Pair}
use hashcodecs_rs.Xxhash.LongInputs.{
  Secret, long_input, derive_secret, chosen_secret, engine_hash, hash_128, finalize_long_64,
  finalize_long_128,
}
use hashcodecs_rs.Xxhash.OneShot.{xxh3_64, xxh3_128}
use hashcodecs_rs.Xxhash.Batch.{push, hash_each_input_with_secret}

pub record PreparedXxh3 : Type 0 where
  pub seed : ℕ
  pub secret : Option Secret

unfoldable pub new : ℕ → Option PreparedXxh3
new seed = derive_secret seed >>= λ derived. some (record { seed = seed; secret = derived })

unfoldable pub hash_64 : PreparedXxh3 → List ℕ → Option ℕ
hash_64 prepared input = elim (long_input input) [
  | none ↦ xxh3_64 input prepared.seed
  | some long ↦ engine_hash long (chosen_secret prepared.secret) finalize_long_64
]

unfoldable pub prepared_hash_128 : PreparedXxh3 → List ℕ → Option Pair
prepared_hash_128 prepared input = elim (long_input input) [
  | none ↦ xxh3_128 input prepared.seed
  | some long ↦ hash_128 long (chosen_secret prepared.secret)
]

unfoldable pub hash_64_batch_for_each :
    {S : Type 0} → PreparedXxh3 → List (List ℕ) → (ℕ → S → S) → S → Option S
hash_64_batch_for_each prepared inputs output state =
    hash_each_input_with_secret xxh3_64 finalize_long_64 output state inputs prepared.seed
      (chosen_secret prepared.secret)

unfoldable pub hash_64_batch : PreparedXxh3 → List (List ℕ) → Option (List ℕ)
unfolding hash_64_batch_for_each
hash_64_batch prepared inputs = hash_64_batch_for_each prepared inputs push []

unfoldable pub hash_128_batch_for_each :
    {S : Type 0} → PreparedXxh3 → List (List ℕ) → (Pair → S → S) → S → Option S
hash_128_batch_for_each prepared inputs output state =
    hash_each_input_with_secret xxh3_128 finalize_long_128 output state inputs prepared.seed
      (chosen_secret prepared.secret)

unfoldable pub hash_128_batch : PreparedXxh3 → List (List ℕ) → Option (List Pair)
hash_128_batch prepared inputs =
    hash_each_input_with_secret xxh3_128 finalize_long_128 push [] inputs prepared.seed
      (chosen_secret prepared.secret)
