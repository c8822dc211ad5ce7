-- ===== src/Xxhash/LongInputs/Scalar.antt =====
-- The scalar engine of xxhash/long_inputs reads inside the input and the secret, whatever the length.
use hashcodecs_rs.Common.{
  ℕ, zero, suc, ◌+◌, ◌-◌, ◌*◌, ◌/◌, ◌≤◌, ◌<◌, ◌≡◌, refl, ap, ◌∙◌, List, [], ◌∷◌, ◌++◌, leb, ◌==◌,
  set, length, take, drop, copy_at, arith, Returns, Returns-bind, Returns-some, length-append,
  length-take, length-drop,
}
use hashcodecs_rs.Word.{IsU64, bit_xor, bit_xor-lt}
use hashcodecs_rs.Xxhash.Primitives.{secret}
use hashcodecs_rs.Xxhash.Primitives.Laws.{
  Total, total, both, either, get-Total, read_u64_le-Total, read_u64_le_ptr-Total,
  xxh3_avalanche-IsU64, length-secret,
}
use hashcodecs_rs.Xxhash.ShortInputs.Hash64.{after}
use hashcodecs_rs.Xxhash.LongInputs.{
  Secret, Accumulator, derive_rounds, initialize_secret_scalar, initial_accumulator, merge,
  merge_lanes, finalize_long_64, finalize_long_128, accumulate_lanes, accumulate_stripe,
  scramble_lanes, scramble, accumulate_stripes, accumulate_blocks, accumulate,
  build_long_input_schedule, derive_secret, chosen_secret, to_le_bytes,
}

abbrev pub IsSecret : Secret → Type 0
IsSecret keys = length keys ≡ 192

abbrev pub IsAccumulator : Accumulator → Type 0
IsAccumulator acc = length acc ≡ 8

copy-size :
    (target source : List ℕ) (k : ℕ)
    → k + length source ≤ length target
    → Returns (λ (r : List ℕ). length r ≡ length target) (copy_at target k source)
unfolding copy_at
copy-size target source k h =
    either (λ (r : List ℕ). length r ≡ length target) (leb (k + length source) (length target))
      (λ e. Returns-some (
        omega (
          arith,
          length-append (take k target) (source ++ drop (k + length source) target),
          length-append source (drop (k + length source) target),
          length-take k target,
          length-drop (k + length source) target,
        )))
      (λ e. absurd (ground arith))

derive_rounds-IsSecret :
    (n offset seed : ℕ) (derived : Secret)
    → offset + n * 16 ≤ 192
    → IsSecret derived
    → Returns IsSecret (derive_rounds n offset seed derived)
unfolding derive_rounds
derive_rounds-IsSecret zero offset seed derived h size = Returns-some size
derive_rounds-IsSecret (suc n) offset seed derived h size =
    after (read_u64_le-Total secret offset (omega (arith, length-secret))) λ low.
      after (read_u64_le-Total secret (offset + 8) (omega (arith, length-secret))) λ high.
        Returns-bind (copy-size derived (to_le_bytes _) offset (omega arith)) λ derived' size'.
          Returns-bind (copy-size derived' (to_le_bytes _) (offset + 8) (omega arith))
            λ derived'' size''.
              derive_rounds-IsSecret n (offset + 16) seed derived'' (omega arith)
                (size'' ∙ (size' ∙ size))

pub derive_secret-IsSecret :
    (seed : ℕ) → Returns (λ d. IsSecret (chosen_secret d)) (derive_secret seed)
unfolding derive_secret chosen_secret initialize_secret_scalar
derive_secret-IsSecret seed =
    either (λ d. IsSecret (chosen_secret d)) (seed == 0) (λ e. Returns-some length-secret)
      (λ e.
        Returns-bind (derive_rounds-IsSecret 12 0 seed secret (omega arith) length-secret)
          λ derived size. Returns-some size)

length-set : (acc : List ℕ) (i v : ℕ) → length (set acc i v) ≡ length acc
length-set [] i v = refl
length-set (x ∷ acc) zero v = refl
length-set (x ∷ acc) (suc i) v = ap suc (length-set acc i v)

lanes-IsAccumulator :
    (n lane : ℕ) (acc : Accumulator) (input : List ℕ) (keys : Secret) (i j : ℕ)
    → lane + n ≤ 8
    → i + 64 ≤ length input
    → j + 64 ≤ length keys
    → IsAccumulator acc
    → Returns IsAccumulator (accumulate_lanes n lane acc input keys i j)
unfolding accumulate_lanes
lanes-IsAccumulator zero lane acc input keys i j h g k size = Returns-some size
lanes-IsAccumulator (suc n) lane acc input keys i j h g k size =
    let partner : bit_xor lane 1 < 8 = bit_xor-lt 3 lane 1 (omega arith) (omega arith) in
    after (read_u64_le_ptr-Total input (i + lane * 8) (omega arith)) λ value.
      after (read_u64_le_ptr-Total keys (j + lane * 8) (omega arith)) λ key.
        after (get-Total acc (bit_xor lane 1) (omega arith)) λ other.
          after
            (get-Total (set acc (bit_xor lane 1) _) lane
              (omega (arith, length-set acc (bit_xor lane 1) _)))
            λ own.
              lanes-IsAccumulator n (lane + 1) _ input keys i j (omega arith) g k
                (length-set _ lane _ ∙ (length-set acc (bit_xor lane 1) _ ∙ size))

stripe-IsAccumulator :
    (acc : Accumulator) (input : List ℕ) (keys : Secret) (i j : ℕ)
    → i + 64 ≤ length input
    → j + 64 ≤ length keys
    → IsAccumulator acc
    → Returns IsAccumulator (accumulate_stripe acc input keys i j)
unfolding accumulate_stripe
stripe-IsAccumulator acc input keys i j g k size =
    lanes-IsAccumulator 8 0 acc input keys i j (omega arith) g k size

stripes-IsAccumulator :
    (n stripe : ℕ) (acc : Accumulator) (input : List ℕ) (keys : Secret) (i : ℕ)
    → i + (stripe + n) * 64 ≤ length input
    → stripe + n ≤ 16
    → IsSecret keys
    → IsAccumulator acc
    → Returns IsAccumulator (accumulate_stripes n stripe acc input keys i)
unfolding accumulate_stripes
stripes-IsAccumulator zero stripe acc input keys i h g k size = Returns-some size
stripes-IsAccumulator (suc n) stripe acc input keys i h g k size =
    Returns-bind
      (stripe-IsAccumulator acc input keys (i + stripe * 64) (stripe * 8) (omega arith)
        (omega arith) size)
      λ acc' size'.
        stripes-IsAccumulator n (stripe + 1) acc' input keys i (omega arith) (omega arith) k size'

scramble_lanes-size :
    (lane : ℕ) (acc : Accumulator) (keys : Secret)
    → lane + length acc ≤ 8
    → IsSecret keys
    → Returns (λ (r : Accumulator). length r ≡ length acc) (scramble_lanes lane acc keys)
unfolding scramble_lanes
scramble_lanes-size lane [] keys h k = Returns-some refl
scramble_lanes-size lane (value ∷ acc) keys h k =
    after (read_u64_le_ptr-Total keys (128 + lane * 8) (omega arith)) λ key.
      Returns-bind (scramble_lanes-size (lane + 1) acc keys (omega arith) k)
        λ rest size. Returns-some (ap suc size)

blocks-IsAccumulator :
    (n block : ℕ) (acc : Accumulator) (input : List ℕ) (keys : Secret)
    → (block + n) * 1024 ≤ length input
    → IsSecret keys
    → IsAccumulator acc
    → Returns IsAccumulator (accumulate_blocks n block acc input keys)
unfolding accumulate_blocks scramble
blocks-IsAccumulator zero block acc input keys h k size = Returns-some size
blocks-IsAccumulator (suc n) block acc input keys h k size =
    Returns-bind
      (stripes-IsAccumulator 16 0 acc input keys (block * 1024) (omega arith) (omega arith) k size)
      λ acc' size'. Returns-bind (scramble_lanes-size 0 acc' keys (omega arith) k) λ acc'' size''.
        blocks-IsAccumulator n (block + 1) acc'' input keys (omega arith) k (size'' ∙ size')

pub accumulate-IsAccumulator :
    (input : List ℕ) (keys : Secret)
    → 240 < length input
    → IsSecret keys
    → Returns IsAccumulator (accumulate input keys)
unfolding accumulate build_long_input_schedule initial_accumulator
accumulate-IsAccumulator input keys h k =
    let n = length input in
    Returns-bind (blocks-IsAccumulator ((n - 1) / 1024) 0 _ input keys (omega arith) k refl)
      λ acc size.
        Returns-bind
          (stripes-IsAccumulator ((n - (n - 1) / 1024 * 1024 - 1) / 64) 0 acc input keys
            ((n - 1) / 1024 * 1024) (omega arith) (omega arith) k size)
          λ acc' size'.
            stripe-IsAccumulator acc' input keys (n - 64) 121 (omega arith) (omega arith) size'

merge_lanes-Total :
    (n lane : ℕ) (acc : Accumulator) (keys : Secret) (offset result : ℕ)
    → lane + n ≤ 4
    → offset + 64 ≤ length keys
    → IsAccumulator acc
    → Total (merge_lanes n lane acc keys offset result)
unfolding merge_lanes
merge_lanes-Total zero lane acc keys offset result h k size = total result
merge_lanes-Total (suc n) lane acc keys offset result h k size =
    both (get-Total acc (lane * 2) (omega arith)) λ acc0.
      both (read_u64_le-Total keys (offset + lane * 16) (omega arith)) λ key0.
        both (get-Total acc (lane * 2 + 1) (omega arith)) λ acc1.
          both (read_u64_le-Total keys (offset + lane * 16 + 8) (omega arith))
            λ key1. merge_lanes-Total n (lane + 1) acc keys offset _ (omega arith) k size

merge-IsU64 :
    (acc : Accumulator) (keys : Secret) (offset start : ℕ)
    → offset + 64 ≤ length keys
    → IsAccumulator acc
    → Returns IsU64 (merge acc keys offset start)
unfolding merge
merge-IsU64 acc keys offset start k size =
    after (merge_lanes-Total 4 0 acc keys offset start (omega arith) k size)
      λ r. Returns-some (xxh3_avalanche-IsU64 r)

pub finalize_long_64-IsU64 :
    (n : ℕ) (keys : Secret) (acc : Accumulator)
    → IsSecret keys
    → IsAccumulator acc
    → Returns IsU64 (finalize_long_64 n keys acc)
unfolding finalize_long_64
finalize_long_64-IsU64 n keys acc k size = merge-IsU64 acc keys 11 _ (omega arith) size

pub finalize_long_128-IsU64 :
    (n : ℕ) (keys : Secret) (acc : Accumulator)
    → IsSecret keys
    → IsAccumulator acc
    → Returns (λ (p : ℕ × ℕ). (IsU64 p.0) × (IsU64 p.1)) (finalize_long_128 n keys acc)
unfolding finalize_long_128
finalize_long_128-IsU64 n keys acc k size =
    Returns-bind (merge-IsU64 acc keys 11 _ (omega arith) size) λ low hl.
      Returns-bind (merge-IsU64 acc keys 117 _ (omega arith) size) λ high hh. Returns-some (hl, hh)
