-- ===== src/Xxhash/Batch/Each.antt =====
-- A batch of xxhash/batch.rs is the list of the one-call hashes.
use hashcodecs_rs.Common.{
  ℕ, ◌≡◌, refl, ap, ◌∙◌, sym, Option, none, some, true, false, List, [], ◌∷◌, ◌++◌, map, append-nil,
  append_assoc, leb, ◌==◌, if◌then◌else◌, Bool-cases, inl, inr, length, arith, ◌>>=◌,
}
use hashcodecs_rs.Xxhash.ShortInputs.{Pair}
use hashcodecs_rs.Xxhash.LongInputs.{
  Secret, Accumulator, long_input, derive_secret, chosen_secret, engine_hash, hash_128_seeded,
  xxh3_64_over_240_bytes, finalize_long_64, finalize_long_128,
}
use hashcodecs_rs.Xxhash.LongInputs.Scalar.{derive_secret-IsSecret}
use hashcodecs_rs.Xxhash.OneShot.{xxh3_64, xxh3_128}
use hashcodecs_rs.Xxhash.OneShot.Total.{xxh3_64-IsU64, xxh3_128-AreU64}
use hashcodecs_rs.Xxhash.Batch.{
  push, xxh3_64_batch_for_each, xxh3_128_batch_for_each, leading_short, hash_one, hash_each,
  hash_each_input_with_secret, hash_each_input, xxh3_64_batch, xxh3_128_batch,
}

-- One result for each input, in order, if every one returns.
abbrev pub map_all : {A B : Type 0} → (A → Option B) → List A → Option (List B)
map_all f [] = some []
map_all f (x ∷ xs) = f x >>= λ y. map_all f xs >>= λ ys. some (y ∷ ys)

-- The state of a callback after it was called with each result, in order.
abbrev pub call_all : {T S : Type 0} → (T → S → S) → S → List T → S
call_all output state [] = state
call_all output state (hash ∷ hashes) = call_all output (output hash state) hashes

call_all-push : {T : Type 0} (hashes more : List T) → call_all push hashes more ≡ hashes ++ more
call_all-push hashes [] = sym (append-nil hashes)
call_all-push hashes (hash ∷ more) =
    call_all-push (hashes ++ (hash ∷ [])) more ∙ append_assoc hashes (hash ∷ []) more

-- Long inputs.
pub long : (input : List ℕ) → leb (length input) 240 ≡ false → long_input input ≡ some input
unfolding long_input
long input h = ground arith

pub not_long : (input : List ℕ) → leb (length input) 240 ≡ true → long_input input ≡ none
unfolding long_input
not_long input h = ground arith

-- What a batch needs to know of the one-call hash `short`: it returns, and with the derived secret the
-- engine gives the same on long inputs.
module _ {T : Type 0} (short : List ℕ → ℕ → Option T)
    (finalize : ℕ → Secret → Accumulator → Option T) (seed : ℕ) (value : List ℕ → T)
    (runs : (input : List ℕ) → short input seed ≡ some (value input)) (keys : Secret)
    (agree : (input : List ℕ)
      → leb (length input) 240 ≡ false
      → engine_hash input keys finalize ≡ short input seed) where
  pub map_all-value :
      (inputs : List (List ℕ)) → map_all (λ i. short i seed) inputs ≡ some (map value inputs)
  map_all-value [] = refl
  map_all-value (input ∷ inputs) = rw (runs input, map_all-value inputs) refl

  hash_one-value : (input : List ℕ) → hash_one short finalize input seed keys ≡ some (value input)
  unfolding hash_one
  hash_one-value input = elim (Bool-cases (leb (length input) 240)) [
    | inl e ↦ rw (hash_one, not_long input e) (runs input)
    | inr e ↦ rw (hash_one, long input e) (agree input e ∙ runs input)
  ]

  -- The state of a callback that was called with the values of the inputs.
  module _ {S : Type 0} (output : T → S → S) where
    hash_each-value :
        (inputs : List (List ℕ)) (state : S)
        → hash_each short finalize output state inputs seed keys
          ≡ some (call_all output state (map value inputs))
    unfolding hash_each
    hash_each-value [] state = refl
    hash_each-value (input ∷ inputs) state =
        rw (hash_one-value input) (hash_each-value inputs (output (value input) state))

    leading-value :
        (inputs : List (List ℕ)) (state : S)
        → (r : S × List (List ℕ)) × (leading_short short finalize output state inputs seed ≡ some r)
          × (call_all output r.0 (map value r.1) ≡ call_all output state (map value inputs))
    unfolding leading_short
    leading-value [] state = ((state, []), refl, refl)
    leading-value (input ∷ inputs) state = elim (Bool-cases (leb (length input) 240)) [
      | inl e ↦
          let (r, run, same) = leading-value inputs (output (value input) state) in
          (r, rw (e, runs input) run, same)
      | inr e ↦ ((state, input ∷ inputs), rw e refl, refl)
    ]

    no_rest :
        (state : S) (rest : List (List ℕ)) (more : Option S)
        → more ≡ some (call_all output state (map value rest))
        → (if length rest == 0 then some state else more)
          ≡ some (call_all output state (map value rest))
    no_rest state [] more e = refl
    no_rest state (input ∷ rest) more e = ground (arith, e)

    pub with_secret-value :
        (inputs : List (List ℕ)) (state : S)
        → hash_each_input_with_secret short finalize output state inputs seed keys
          ≡ some (call_all output state (map value inputs))
    unfolding hash_each_input_with_secret
    with_secret-value inputs state =
        let (r, run, same) = leading-value inputs state in
        ap
          (λ o. o >>= λ s.
            (if length s.1 == 0
              then some s.0
              else hash_each short finalize output s.0 s.1 seed keys))
          run
        ∙ (no_rest r.0 r.1 (hash_each short finalize output r.0 r.1 seed keys)
              (hash_each-value r.1 r.0)
            ∙ ap some same)

    pub each_input-value :
        (inputs : List (List ℕ)) (state : S) (derived : Option Secret)
        → derive_secret seed ≡ some derived
        → chosen_secret derived ≡ keys
        → hash_each_input short finalize output state inputs seed
          ≡ some (call_all output state (map value inputs))
    unfolding hash_each_input
    each_input-value inputs state derived d c =
        let (r, run, same) = leading-value inputs state in
        rw (run, d, c, with_secret-value r.1 r.0)
          (no_rest r.0 r.1 (some (call_all output r.0 (map value r.1))) refl ∙ ap some same)

    -- The same, of the hashes that the one-call function returns.
    pub called :
        (inputs : List (List ℕ)) (state : S)
        → some (call_all output state (map value inputs))
          ≡ (map_all (λ i. short i seed) inputs >>= λ hashes. some (call_all output state hashes))
    called inputs state = rw (map_all-value inputs) refl

  pub pushed :
      (inputs : List (List ℕ))
      → some (call_all push [] (map value inputs)) ≡ map_all (λ i. short i seed) inputs
  pushed inputs = ap some (call_all-push [] (map value inputs)) ∙ sym (map_all-value inputs)

-- The engine with the derived secret computes the one-call hashes of long inputs.
module _ (seed : ℕ) (derived : Option Secret) (d : derive_secret seed ≡ some derived)
    (input : List ℕ) (h : leb (length input) 240 ≡ false) where
  long_64 :
      xxh3_64_over_240_bytes input seed ≡ engine_hash input (chosen_secret derived) finalize_long_64
  unfolding xxh3_64_over_240_bytes
  long_64 = rw d refl

  long_128 :
      hash_128_seeded input seed ≡ engine_hash input (chosen_secret derived) finalize_long_128
  unfolding hash_128_seeded
  long_128 = rw d refl

  pub agree_64 : engine_hash input (chosen_secret derived) finalize_long_64 ≡ xxh3_64 input seed
  unfolding xxh3_64
  agree_64 =
      let a : leb (length input) 16 ≡ false = ground arith in
      let b : leb (length input) 128 ≡ false = ground arith in
      sym (rw (a, b, h, long input h) long_64)

  pub agree_128 : engine_hash input (chosen_secret derived) finalize_long_128 ≡ xxh3_128 input seed
  unfolding xxh3_128
  agree_128 =
      let a : leb (length input) 16 ≡ false = ground arith in
      let b : leb (length input) 128 ≡ false = ground arith in
      let x : (length input == 32) ≡ false = ground arith in
      let y : (length input == 64) ≡ false = ground arith in
      let z : (length input == 128) ≡ false = ground arith in
      sym (rw (a, x, y, z, b, h, long input h) long_128)

-- The value of a one-call hash.
abbrev pub value_64 : ℕ → List ℕ → ℕ
value_64 seed input = (xxh3_64-IsU64 input seed).value

abbrev pub value_128 : ℕ → List ℕ → Pair
value_128 seed input = (xxh3_128-AreU64 input seed).value

each_64 :
    {S : Type 0} (output : ℕ → S → S) (state : S) (inputs : List (List ℕ)) (seed : ℕ)
    → hash_each_input xxh3_64 finalize_long_64 output state inputs seed
      ≡ some (call_all output state (map (value_64 seed) inputs))
each_64 output state inputs seed =
    let secret = derive_secret-IsSecret seed in
    each_input-value xxh3_64 finalize_long_64 seed (value_64 seed)
      (λ i. (xxh3_64-IsU64 i seed).runs) (chosen_secret secret.value)
      (λ i e. agree_64 seed secret.value secret.runs i e) output inputs state secret.value
      secret.runs refl

-- For every callback and its state, all inputs and every seed, xxh3_64_batch_for_each leaves the
-- state of the callback after it was called with the xxh3_64 hash of each input, in order.
pub xxh3_64_batch_for_each-map_all :
    {S : Type 0} (output : ℕ → S → S) (state : S) (inputs : List (List ℕ)) (seed : ℕ)
    → xxh3_64_batch_for_each output state inputs seed
      ≡ (map_all (λ i. xxh3_64 i seed) inputs >>= λ hashes. some (call_all output state hashes))
unfolding xxh3_64_batch_for_each
xxh3_64_batch_for_each-map_all output state inputs seed =
    let secret = derive_secret-IsSecret seed in
    each_64 output state inputs seed
    ∙ called xxh3_64 finalize_long_64 seed (value_64 seed) (λ i. (xxh3_64-IsU64 i seed).runs)
        (chosen_secret secret.value) (λ i e. agree_64 seed secret.value secret.runs i e) output
        inputs state

-- For all inputs and every seed, xxh3_64_batch returns the xxh3_64 hash of each input, in order.
pub xxh3_64_batch-map_all :
    (inputs : List (List ℕ)) (seed : ℕ)
    → xxh3_64_batch inputs seed ≡ map_all (λ i. xxh3_64 i seed) inputs
unfolding xxh3_64_batch
xxh3_64_batch-map_all inputs seed =
    let secret = derive_secret-IsSecret seed in
    each_64 push [] inputs seed
    ∙ pushed xxh3_64 finalize_long_64 seed (value_64 seed) (λ i. (xxh3_64-IsU64 i seed).runs)
        (chosen_secret secret.value) (λ i e. agree_64 seed secret.value secret.runs i e) inputs

each_128 :
    {S : Type 0} (output : Pair → S → S) (state : S) (inputs : List (List ℕ)) (seed : ℕ)
    → hash_each_input xxh3_128 finalize_long_128 output state inputs seed
      ≡ some (call_all output state (map (value_128 seed) inputs))
each_128 output state inputs seed =
    let secret = derive_secret-IsSecret seed in
    each_input-value xxh3_128 finalize_long_128 seed (value_128 seed)
      (λ i. (xxh3_128-AreU64 i seed).runs) (chosen_secret secret.value)
      (λ i e. agree_128 seed secret.value secret.runs i e) output inputs state secret.value
      secret.runs refl

-- For every callback and its state, all inputs and every seed, xxh3_128_batch_for_each leaves the
-- state of the callback after it was called with the xxh3_128 hash of each input, in order.
pub xxh3_128_batch_for_each-map_all :
    {S : Type 0} (output : Pair → S → S) (state : S) (inputs : List (List ℕ)) (seed : ℕ)
    → xxh3_128_batch_for_each output state inputs seed
      ≡ (map_all (λ i. xxh3_128 i seed) inputs >>= λ hashes. some (call_all output state hashes))
unfolding xxh3_128_batch_for_each
xxh3_128_batch_for_each-map_all output state inputs seed =
    let secret = derive_secret-IsSecret seed in
    each_128 output state inputs seed
    ∙ called xxh3_128 finalize_long_128 seed (value_128 seed) (λ i. (xxh3_128-AreU64 i seed).runs)
        (chosen_secret secret.value) (λ i e. agree_128 seed secret.value secret.runs i e) output
        inputs state

-- For all inputs and every seed, xxh3_128_batch returns the xxh3_128 hash of each input, in order.
pub xxh3_128_batch-map_all :
    (inputs : List (List ℕ)) (seed : ℕ)
    → xxh3_128_batch inputs seed ≡ map_all (λ i. xxh3_128 i seed) inputs
unfolding xxh3_128_batch
xxh3_128_batch-map_all inputs seed =
    let secret = derive_secret-IsSecret seed in
    each_128 push [] inputs seed
    ∙ pushed xxh3_128 finalize_long_128 seed (value_128 seed) (λ i. (xxh3_128-AreU64 i seed).runs)
        (chosen_secret secret.value) (λ i e. agree_128 seed secret.value secret.runs i e) inputs

-- For all inputs and every seed, xxh3_64_batch and xxh3_128_batch return the one-call hash of each
-- input, in order.
pub batches-map_all :
    (inputs : List (List ℕ)) (seed : ℕ)
    → (xxh3_64_batch inputs seed ≡ map_all (λ i. xxh3_64 i seed) inputs)
      × (xxh3_128_batch inputs seed ≡ map_all (λ i. xxh3_128 i seed) inputs)
batches-map_all inputs seed =
    (xxh3_64_batch-map_all inputs seed, xxh3_128_batch-map_all inputs seed)

-- For all callbacks and their state, all inputs and every seed, xxh3_64_batch_for_each and
-- xxh3_128_batch_for_each leave the state of the callback after it was called with the one-call
-- hash of each input, in order.
pub batches_for_each-map_all :
    {S : Type 0} (output_64 : ℕ → S → S) (output_128 : Pair → S → S) (state : S)
    (inputs : List (List ℕ)) (seed : ℕ)
    → (xxh3_64_batch_for_each output_64 state inputs seed ≡ (
        map_all (λ i. xxh3_64 i seed) inputs >>= λ hashes. some (call_all output_64 state hashes)))
      × (xxh3_128_batch_for_each output_128 state inputs seed ≡ (
          map_all (λ i. xxh3_128 i seed) inputs >>= λ hashes.
          some (call_all output_128 state hashes)))
batches_for_each-map_all output_64 output_128 state inputs seed = (
  xxh3_64_batch_for_each-map_all output_64 state inputs seed,
  xxh3_128_batch_for_each-map_all output_128 state inputs seed,
)
