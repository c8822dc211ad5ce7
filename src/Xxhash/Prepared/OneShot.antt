-- ===== src/Xxhash/Prepared/OneShot.antt =====
-- A prepared seed of xxhash/prepared.rs hashes as the one-call functions do.
use hashcodecs_rs.Common.{
  ℕ, ◌≡◌, refl, ◌∙◌, Option, some, List, [], leb, Bool-cases, inl, inr, length, ◌>>=◌,
}
use hashcodecs_rs.Xxhash.LongInputs.{chosen_secret, hash_128, finalize_long_64, finalize_long_128}
use hashcodecs_rs.Xxhash.LongInputs.Scalar.{derive_secret-IsSecret}
use hashcodecs_rs.Xxhash.OneShot.{xxh3_64, xxh3_128}
use hashcodecs_rs.Xxhash.OneShot.Total.{xxh3_64-IsU64, xxh3_128-AreU64}
use hashcodecs_rs.Xxhash.ShortInputs.{Pair}
use hashcodecs_rs.Xxhash.Batch.{push}
use hashcodecs_rs.Xxhash.Batch.Each.{
  map_all, call_all, called, pushed, long, not_long, agree_64, agree_128, with_secret-value,
  value_64, value_128,
}
use hashcodecs_rs.Xxhash.Prepared.{
  hash_64_batch_for_each, hash_128_batch_for_each, PreparedXxh3, new, hash_64, prepared_hash_128,
  hash_64_batch, hash_128_batch,
}

module _ (seed : ℕ) where
  abbrev derived : Option (List ℕ)
  derived = (derive_secret-IsSecret seed).value

  abbrev prepared : PreparedXxh3
  prepared = record { seed = seed; secret = derived }

  new-prepared : new seed ≡ some prepared
  unfolding new
  new-prepared = let e = (derive_secret-IsSecret seed).runs in rw e refl

  -- For every seed and input, preparing the seed and hashing to 64 bits is xxh3_64 with the seed.
  pub hash_64-xxh3_64 : (input : List ℕ) → (new seed >>= λ p. hash_64 p input) ≡ xxh3_64 input seed
  unfolding hash_64
  hash_64-xxh3_64 input = rw new-prepared (elim (Bool-cases (leb (length input) 240)) [
    | inl e ↦ rw (◌>>=◌, hash_64, not_long input e) refl
    | inr e ↦
        rw (◌>>=◌, hash_64, long input e)
          (agree_64 seed derived (derive_secret-IsSecret seed).runs input e)
  ])

  -- For every seed and input, preparing the seed and hashing to 128 bits is xxh3_128 with the
  -- seed.
  pub prepared_hash_128-xxh3_128 :
      (input : List ℕ) → (new seed >>= λ p. prepared_hash_128 p input) ≡ xxh3_128 input seed
  unfolding prepared_hash_128 hash_128
  prepared_hash_128-xxh3_128 input = rw new-prepared (elim (Bool-cases (leb (length input) 240)) [
    | inl e ↦ rw (◌>>=◌, prepared_hash_128, not_long input e) refl
    | inr e ↦
        rw (◌>>=◌, prepared_hash_128, long input e)
          (agree_128 seed derived (derive_secret-IsSecret seed).runs input e)
  ])

  -- For every seed, every callback and its state, and all inputs, preparing the seed and hashing
  -- the batch to 64 bits leaves the state of the callback after it was called with the xxh3_64
  -- hash of each input, in order.
  pub hash_64_batch_for_each-map_all :
      {S : Type 0} (output : ℕ → S → S) (state : S) (inputs : List (List ℕ))
      → (new seed >>= λ p. hash_64_batch_for_each p inputs output state)
        ≡ (map_all (λ i. xxh3_64 i seed) inputs >>= λ hashes. some (call_all output state hashes))
  unfolding hash_64_batch_for_each
  hash_64_batch_for_each-map_all output state inputs = rw new-prepared (
      with_secret-value xxh3_64 finalize_long_64 seed (value_64 seed)
        (λ i. (xxh3_64-IsU64 i seed).runs) (chosen_secret derived)
        (λ i e. agree_64 seed derived (derive_secret-IsSecret seed).runs i e) output inputs state
      ∙ called xxh3_64 finalize_long_64 seed (value_64 seed) (λ i. (xxh3_64-IsU64 i seed).runs)
          (chosen_secret derived)
          (λ i e. agree_64 seed derived (derive_secret-IsSecret seed).runs i e) output inputs state)

  -- For every seed and all inputs, preparing the seed and hashing the batch to 64 bits returns the
  -- xxh3_64 hash of each input, in order.
  pub hash_64_batch-map_all :
      (inputs : List (List ℕ))
      → (new seed >>= λ p. hash_64_batch p inputs) ≡ map_all (λ i. xxh3_64 i seed) inputs
  unfolding hash_64_batch
  hash_64_batch-map_all inputs = rw new-prepared (
      with_secret-value xxh3_64 finalize_long_64 seed (value_64 seed)
        (λ i. (xxh3_64-IsU64 i seed).runs) (chosen_secret derived)
        (λ i e. agree_64 seed derived (derive_secret-IsSecret seed).runs i e) push inputs []
      ∙ pushed xxh3_64 finalize_long_64 seed (value_64 seed) (λ i. (xxh3_64-IsU64 i seed).runs)
          (chosen_secret derived)
          (λ i e. agree_64 seed derived (derive_secret-IsSecret seed).runs i e) inputs)

  -- For every seed, every callback and its state, and all inputs, preparing the seed and hashing
  -- the batch to 128 bits leaves the state of the callback after it was called with the xxh3_128
  -- hash of each input, in order.
  pub hash_128_batch_for_each-map_all :
      {S : Type 0} (output : Pair → S → S) (state : S) (inputs : List (List ℕ))
      → (new seed >>= λ p. hash_128_batch_for_each p inputs output state)
        ≡ (map_all (λ i. xxh3_128 i seed) inputs >>= λ hashes. some (call_all output state hashes))
  unfolding hash_128_batch_for_each
  hash_128_batch_for_each-map_all output state inputs = rw new-prepared (
      with_secret-value xxh3_128 finalize_long_128 seed (value_128 seed)
        (λ i. (xxh3_128-AreU64 i seed).runs) (chosen_secret derived)
        (λ i e. agree_128 seed derived (derive_secret-IsSecret seed).runs i e) output inputs state
      ∙ called xxh3_128 finalize_long_128 seed (value_128 seed) (λ i. (xxh3_128-AreU64 i seed).runs)
          (chosen_secret derived)
          (λ i e. agree_128 seed derived (derive_secret-IsSecret seed).runs i e) output inputs
          state)

  -- For every seed and all inputs, preparing the seed and hashing the batch to 128 bits returns
  -- the xxh3_128 hash of each input, in order.
  pub hash_128_batch-map_all :
      (inputs : List (List ℕ))
      → (new seed >>= λ p. hash_128_batch p inputs) ≡ map_all (λ i. xxh3_128 i seed) inputs
  unfolding hash_128_batch
  hash_128_batch-map_all inputs = rw new-prepared (
      with_secret-value xxh3_128 finalize_long_128 seed (value_128 seed)
        (λ i. (xxh3_128-AreU64 i seed).runs) (chosen_secret derived)
        (λ i e. agree_128 seed derived (derive_secret-IsSecret seed).runs i e) push inputs []
      ∙ pushed xxh3_128 finalize_long_128 seed (value_128 seed) (λ i. (xxh3_128-AreU64 i seed).runs)
          (chosen_secret derived)
          (λ i e. agree_128 seed derived (derive_secret-IsSecret seed).runs i e) inputs)

-- For every seed, input, list of inputs, and callbacks on a state, after preparing the seed:
-- hashing the input to 64 or to 128 bits is the one-call hash with the seed; hashing the batch
-- returns the one-call hash of each input, in order; and hashing the batch for a callback leaves
-- the state of the callback after it was called with these hashes, in order.
pub prepared_matches :
    (seed : ℕ) {S : Type 0} (output_64 : ℕ → S → S) (output_128 : Pair → S → S) (state : S)
    (input : List ℕ) (inputs : List (List ℕ))
    → (((new seed >>= λ p. hash_64 p input) ≡ xxh3_64 input seed)
        × ((new seed >>= λ p. prepared_hash_128 p input) ≡ xxh3_128 input seed))
      × (((new seed >>= λ p. hash_64_batch p inputs) ≡ map_all (λ i. xxh3_64 i seed) inputs)
          × ((new seed >>= λ p. hash_128_batch p inputs) ≡ map_all (λ i. xxh3_128 i seed) inputs))
      × (((new seed >>= λ p. hash_64_batch_for_each p inputs output_64 state) ≡ (
            map_all (λ i. xxh3_64 i seed) inputs >>= λ hashes.
            some (call_all output_64 state hashes)))
          × ((new seed >>= λ p. hash_128_batch_for_each p inputs output_128 state) ≡ (
              map_all (λ i. xxh3_128 i seed) inputs >>= λ hashes.
              some (call_all output_128 state hashes))))
prepared_matches seed output_64 output_128 state input inputs = (
  (hash_64-xxh3_64 seed input, prepared_hash_128-xxh3_128 seed input),
  (hash_64_batch-map_all seed inputs, hash_128_batch-map_all seed inputs),
  (
    hash_64_batch_for_each-map_all seed output_64 state inputs,
    hash_128_batch_for_each-map_all seed output_128 state inputs,
  ),
)
