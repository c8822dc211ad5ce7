-- ===== src/Xxhash/Batch.antt =====
-- xxhash/batch.rs: many inputs with one seed, in the build that hashes them one by one. The callback
-- `output` is a function on the state that it captures.
pub mod Each
use hashcodecs_rs.Common.{
  ℕ, ◌≡◌, Option, none, some, List, [], ◌∷◌, ◌++◌, ◌>>=◌, leb, ◌==◌, if◌then◌else◌, length,
}
use hashcodecs_rs.Xxhash.ShortInputs.{Pair}
use hashcodecs_rs.Xxhash.LongInputs.{
  Secret, Accumulator, long_input, derive_secret, chosen_secret, engine_hash, finalize_long_64,
  finalize_long_128,
}
use hashcodecs_rs.Xxhash.OneShot.{xxh3_64, xxh3_128}

-- `hashes.push(hash)`
abbrev pub push : {T : Type 0} → T → List T → List T
push hash hashes = hashes ++ (hash ∷ [])

-- What one round of the last loop gives to the callback.
unfoldable pub hash_one :
    {T : Type 0}
    → (List ℕ → ℕ → Option T)
    → (ℕ → Secret → Accumulator → Option T)
    → List ℕ
    → ℕ
    → Secret
    → Option T
hash_one short finalize input seed keys = elim (long_input input) [
  | none ↦ short input seed
  | some long ↦ engine_hash long keys finalize
]

module _ {T S : Type 0} (short : List ℕ → ℕ → Option T)
    (finalize : ℕ → Secret → Accumulator → Option T) (output : T → S → S) where
  -- `while index < inputs.len() && inputs[index].len() <= 240`: the state of the callback, and
  -- `inputs[index..]`.
  unfoldable pub leading_short : S → List (List ℕ) → ℕ → Option (S × List (List ℕ))
  leading_short state [] seed = some (state, [])
  leading_short state (input ∷ inputs) seed =
      if leb (length input) 240
      then (short input seed >>= λ hash. leading_short (output hash state) inputs seed)
      else some (state, input ∷ inputs)

  -- `while index < inputs.len()`
  unfoldable pub hash_each : S → List (List ℕ) → ℕ → Secret → Option S
  hash_each state [] seed keys = some state
  hash_each state (input ∷ inputs) seed keys = hash_one short finalize input seed keys >>= λ hash.
      hash_each (output hash state) inputs seed keys

  unfoldable pub hash_each_input_with_secret : S → List (List ℕ) → ℕ → Secret → Option S
  hash_each_input_with_secret state inputs seed keys = do
    (state', rest) ← leading_short state inputs seed
    if length rest == 0 then some state' else hash_each state' rest seed keys

  unfoldable pub hash_each_input : S → List (List ℕ) → ℕ → Option S
  hash_each_input state inputs seed = do
    (state', rest) ← leading_short state inputs seed
    if length rest == 0
        then some state'
        else (derive_secret seed >>= λ derived.
            hash_each_input_with_secret state' rest seed (chosen_secret derived))

unfoldable pub xxh3_64_batch : List (List ℕ) → ℕ → Option (List ℕ)
xxh3_64_batch inputs seed = hash_each_input xxh3_64 finalize_long_64 push [] inputs seed

unfoldable pub xxh3_64_batch_for_each :
    {S : Type 0} → (ℕ → S → S) → S → List (List ℕ) → ℕ → Option S
xxh3_64_batch_for_each output state inputs seed =
    hash_each_input xxh3_64 finalize_long_64 output state inputs seed

unfoldable pub xxh3_128_batch : List (List ℕ) → ℕ → Option (List Pair)
xxh3_128_batch inputs seed = hash_each_input xxh3_128 finalize_long_128 push [] inputs seed

unfoldable pub xxh3_128_batch_for_each :
    {S : Type 0} → (Pair → S → S) → S → List (List ℕ) → ℕ → Option S
xxh3_128_batch_for_each output state inputs seed =
    hash_each_input xxh3_128 finalize_long_128 output state inputs seed
