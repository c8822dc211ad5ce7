-- ===== src/Xxhash/OneShot/Total.antt =====
-- The one-call hashes of xxhash/one_shot.rs return on every input and every seed.
use hashcodecs_rs.Common.{
  ℕ, ◌≤◌, ◌<◌, ◌≡◌, refl, List, true, false, Bool-cases, inl, inr, ltb, leb, ◌==◌, length, arith,
  Returns, Returns-bind, Returns-some,
}
use hashcodecs_rs.Word.{IsU64}
use hashcodecs_rs.Xxhash.Primitives.Laws.{either}
use hashcodecs_rs.Xxhash.ShortInputs.Hash64.{
  xxh3_64_len_0_to_16-IsU64, xxh3_64_len_17_to_128-IsU64, xxh3_64_len_129_to_240-IsU64,
}
use hashcodecs_rs.Xxhash.ShortInputs.Formulas128.{xxh3_128_len_17_to_128}
use hashcodecs_rs.Xxhash.ShortInputs.Hash128.{
  AreU64, xxh3_128_len_0_to_16-AreU64, xxh3_128_len_17_to_128-AreU64,
  xxh3_128_len_129_to_240-AreU64, xxh3_128_len_32-general, xxh3_128_len_64-general,
  xxh3_128_len_128-general,
}
use hashcodecs_rs.Xxhash.LongInputs.{
  long_input, chosen_secret, engine_hash, xxh3_64_over_240_bytes, hash_128_seeded,
}
use hashcodecs_rs.Xxhash.LongInputs.Scalar.{
  derive_secret-IsSecret, accumulate-IsAccumulator, finalize_long_64-IsU64, finalize_long_128-IsU64,
}
use hashcodecs_rs.Xxhash.OneShot.{xxh3_64, xxh3_128}

long_64 :
    (input : List ℕ) (seed : ℕ)
    → 240 < length input
    → Returns IsU64 (xxh3_64_over_240_bytes input seed)
unfolding xxh3_64_over_240_bytes engine_hash
long_64 input seed h = Returns-bind (derive_secret-IsSecret seed) λ derived k.
    Returns-bind (accumulate-IsAccumulator input (chosen_secret derived) h k)
      λ acc size. finalize_long_64-IsU64 (length input) (chosen_secret derived) acc k size

long_128 :
    (input : List ℕ) (seed : ℕ) → 240 < length input → Returns AreU64 (hash_128_seeded input seed)
unfolding hash_128_seeded engine_hash
long_128 input seed h = Returns-bind (derive_secret-IsSecret seed) λ derived k.
    Returns-bind (accumulate-IsAccumulator input (chosen_secret derived) h k)
      λ acc size. finalize_long_128-IsU64 (length input) (chosen_secret derived) acc k size

long_input-size :
    (input : List ℕ) → 240 < length input → Returns (λ (i : List ℕ). i ≡ input) (long_input input)
unfolding long_input
long_input-size input h =
    either (λ (i : List ℕ). i ≡ input) (ltb 240 (length input)) (λ e. Returns-some refl)
      (λ e. absurd (ground arith))

-- For every input and seed, xxh3_64 returns a u64 value: it does not panic, and no load is out of
-- bounds.
pub xxh3_64-IsU64 : (input : List ℕ) (seed : ℕ) → Returns IsU64 (xxh3_64 input seed)
unfolding xxh3_64
xxh3_64-IsU64 input seed =
    either IsU64 (leb (length input) 16) (λ e. xxh3_64_len_0_to_16-IsU64 input seed)
      λ a.
        either IsU64 (leb (length input) 128)
          (λ e. xxh3_64_len_17_to_128-IsU64 input seed (ground arith))
          λ b.
            either IsU64 (leb (length input) 240)
              (λ e. xxh3_64_len_129_to_240-IsU64 input seed (ground arith) (ground arith))
              λ c.
                Returns-bind (long_input-size input (ground arith))
                  λ long same. rw same (long_64 input seed (ground arith))

-- For every input and seed, xxh3_128 returns two u64 values: it does not panic, and no load is out
-- of bounds.
pub xxh3_128-AreU64 : (input : List ℕ) (seed : ℕ) → Returns AreU64 (xxh3_128 input seed)
unfolding xxh3_128
xxh3_128-AreU64 input seed =
    either AreU64 (leb (length input) 16) (λ e. xxh3_128_len_0_to_16-AreU64 input seed)
      λ a.
        either AreU64 (length input == 32)
          (λ e. rw (xxh3_128_len_32-general input seed (ground arith)) (general (ground arith)))
          λ b.
            either AreU64 (length input == 64)
              (λ e. rw (xxh3_128_len_64-general input seed (ground arith)) (general (ground arith)))
              λ c.
                either AreU64 (length input == 128)
                  (λ e.
                    rw (xxh3_128_len_128-general input seed (ground arith))
                      (general (ground arith)))
                  λ d.
                    either AreU64 (leb (length input) 128) (λ e. general (ground arith))
                      λ f.
                        either AreU64 (leb (length input) 240)
                          (λ e.
                            xxh3_128_len_129_to_240-AreU64 input seed (ground arith) (ground arith))
                          λ g.
                            Returns-bind (long_input-size input (ground arith))
                              λ long same. rw same (long_128 input seed (ground arith))
  where
    general : 16 ≤ length input → Returns AreU64 (xxh3_128_len_17_to_128 input seed)
    general h = xxh3_128_len_17_to_128-AreU64 input seed h

-- For every input and seed, xxh3_64 returns a u64 value and xxh3_128 two: they do not panic, and
-- no load is out of bounds.
pub xxh3-Returns :
    (input : List ℕ) (seed : ℕ)
    → Returns IsU64 (xxh3_64 input seed) × Returns AreU64 (xxh3_128 input seed)
xxh3-Returns input seed = (xxh3_64-IsU64 input seed, xxh3_128-AreU64 input seed)

-- For every input of 17 to 128 bytes and every seed, xxh3_128 is xxh3_128_len_17_to_128: the
-- special formulas for 32, 64 and 128 bytes change nothing.
pub xxh3_128-general :
    (input : List ℕ) (seed : ℕ)
    → 16 < length input
    → length input ≤ 128
    → xxh3_128 input seed ≡ xxh3_128_len_17_to_128 input seed
unfolding xxh3_128
xxh3_128-general input seed more less =
    let long : leb (length input) 16 ≡ false = ground arith in
    let fits : leb (length input) 128 ≡ true = ground arith in
    elim (Bool-cases (length input == 32)) [
      | inl e ↦ rw (long, e) (xxh3_128_len_32-general input seed (ground arith))
      | inr a ↦ elim (Bool-cases (length input == 64)) [
        | inl e ↦ rw (long, a, e) (xxh3_128_len_64-general input seed (ground arith))
        | inr b ↦ elim (Bool-cases (length input == 128)) [
          | inl e ↦ rw (long, a, b, e) (xxh3_128_len_128-general input seed (ground arith))
          | inr c ↦ rw (long, a, b, c, fits) refl
        ]
      ]
    ]
