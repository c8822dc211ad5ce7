-- ===== src/Murmur3/X64Hasher128/Streaming.antt =====
-- Chunks given one after another to murmur3/x64_128/murmur3_x64_hasher128.rs are
-- hashed as their concatenation.
use hashcodecs_rs.Common.{
  take, drop, length-take, length-drop, ltb, ◌==◌, if◌then◌else◌, min, Bool-cases, inl, inr, ℕ, ◌+◌,
  ◌%◌, ◌^◌, ◌<◌, ◌≡◌, refl, ap, ◌∙◌, sym, Option, none, some, List, [], ◌∷◌, ◌++◌, ◌>>=◌, arith,
  length, concat,
}
use hashcodecs_rs.Word.{IsU64, bit_xor}
use hashcodecs_rs.Murmur3.BlockBuffer.Laws.{IsMixer}
use hashcodecs_rs.Murmur3.Hasher.{Operations, IsHasher}
use hashcodecs_rs.Murmur3.Hasher.Streaming
use hashcodecs_rs.Murmur3.Hasher.Streaming.{update_all, one_call_parts}
use hashcodecs_rs.Murmur3.X64Hasher128.{
  Hashes, finish_hashes, scramble1, scramble2, Murmur3X64Hasher128, mix_body_scalar, mix_body,
  finish_tail, new, update, digest, murmur3_x64_128,
}
use hashcodecs_rs.Murmur3.Primitives.{read_partial_u64_le}
use hashcodecs_rs.Murmur3.Primitives.Laws.{read_partial_u64_le-total}

join :
    (xs ys : List ℕ) (s : Hashes)
    → length xs % 16 ≡ 0
    → mix_body_scalar (xs ++ ys) s ≡ (mix_body_scalar xs s >>= mix_body_scalar ys)
unfolding mix_body_scalar
join [] ys s z = refl
join (a ∷ []) ys s z = absurd (omega arith)
join (a ∷ b ∷ []) ys s z = absurd (omega arith)
join (a ∷ b ∷ c ∷ []) ys s z = absurd (omega arith)
join (a ∷ b ∷ c ∷ d ∷ []) ys s z = absurd (omega arith)
join (a ∷ b ∷ c ∷ d ∷ e ∷ []) ys s z = absurd (omega arith)
join (a ∷ b ∷ c ∷ d ∷ e ∷ f ∷ []) ys s z = absurd (omega arith)
join (a ∷ b ∷ c ∷ d ∷ e ∷ f ∷ g ∷ []) ys s z = absurd (omega arith)
join (a ∷ b ∷ c ∷ d ∷ e ∷ f ∷ g ∷ h ∷ []) ys s z = absurd (omega arith)
join (a ∷ b ∷ c ∷ d ∷ e ∷ f ∷ g ∷ h ∷ i ∷ []) ys s z = absurd (omega arith)
join (a ∷ b ∷ c ∷ d ∷ e ∷ f ∷ g ∷ h ∷ i ∷ j ∷ []) ys s z = absurd (omega arith)
join (a ∷ b ∷ c ∷ d ∷ e ∷ f ∷ g ∷ h ∷ i ∷ j ∷ k ∷ []) ys s z = absurd (omega arith)
join (a ∷ b ∷ c ∷ d ∷ e ∷ f ∷ g ∷ h ∷ i ∷ j ∷ k ∷ l ∷ []) ys s z = absurd (omega arith)
join (a ∷ b ∷ c ∷ d ∷ e ∷ f ∷ g ∷ h ∷ i ∷ j ∷ k ∷ l ∷ m ∷ []) ys s z = absurd (omega arith)
join (a ∷ b ∷ c ∷ d ∷ e ∷ f ∷ g ∷ h ∷ i ∷ j ∷ k ∷ l ∷ m ∷ n ∷ []) ys s z = absurd (omega arith)
join (a ∷ b ∷ c ∷ d ∷ e ∷ f ∷ g ∷ h ∷ i ∷ j ∷ k ∷ l ∷ m ∷ n ∷ o ∷ []) ys s z = absurd (omega arith)
join (a ∷ b ∷ c ∷ d ∷ e ∷ f ∷ g ∷ h ∷ i ∷ j ∷ k ∷ l ∷ m ∷ n ∷ o ∷ p ∷ xs) ys s z =
    join xs ys _ (omega arith)

total :
    (xs : List ℕ) (s : Hashes)
    → length xs % 16 ≡ 0
    → (s' : Hashes) × (mix_body_scalar xs s ≡ some s')
unfolding mix_body_scalar
total [] s z = (s, refl)
total (a ∷ []) s z = absurd (omega arith)
total (a ∷ b ∷ []) s z = absurd (omega arith)
total (a ∷ b ∷ c ∷ []) s z = absurd (omega arith)
total (a ∷ b ∷ c ∷ d ∷ []) s z = absurd (omega arith)
total (a ∷ b ∷ c ∷ d ∷ e ∷ []) s z = absurd (omega arith)
total (a ∷ b ∷ c ∷ d ∷ e ∷ f ∷ []) s z = absurd (omega arith)
total (a ∷ b ∷ c ∷ d ∷ e ∷ f ∷ g ∷ []) s z = absurd (omega arith)
total (a ∷ b ∷ c ∷ d ∷ e ∷ f ∷ g ∷ h ∷ []) s z = absurd (omega arith)
total (a ∷ b ∷ c ∷ d ∷ e ∷ f ∷ g ∷ h ∷ i ∷ []) s z = absurd (omega arith)
total (a ∷ b ∷ c ∷ d ∷ e ∷ f ∷ g ∷ h ∷ i ∷ j ∷ []) s z = absurd (omega arith)
total (a ∷ b ∷ c ∷ d ∷ e ∷ f ∷ g ∷ h ∷ i ∷ j ∷ k ∷ []) s z = absurd (omega arith)
total (a ∷ b ∷ c ∷ d ∷ e ∷ f ∷ g ∷ h ∷ i ∷ j ∷ k ∷ l ∷ []) s z = absurd (omega arith)
total (a ∷ b ∷ c ∷ d ∷ e ∷ f ∷ g ∷ h ∷ i ∷ j ∷ k ∷ l ∷ m ∷ []) s z = absurd (omega arith)
total (a ∷ b ∷ c ∷ d ∷ e ∷ f ∷ g ∷ h ∷ i ∷ j ∷ k ∷ l ∷ m ∷ n ∷ []) s z = absurd (omega arith)
total (a ∷ b ∷ c ∷ d ∷ e ∷ f ∷ g ∷ h ∷ i ∷ j ∷ k ∷ l ∷ m ∷ n ∷ o ∷ []) s z = absurd (omega arith)
total (a ∷ b ∷ c ∷ d ∷ e ∷ f ∷ g ∷ h ∷ i ∷ j ∷ k ∷ l ∷ m ∷ n ∷ o ∷ p ∷ xs) s z =
    total xs _ (omega arith)

-- The test for no bytes changes nothing.
body_scalar : (xs : List ℕ) (s : Hashes) → mix_body xs s ≡ mix_body_scalar xs s
unfolding mix_body mix_body_scalar
body_scalar [] s = refl
body_scalar (x ∷ xs) s = ground arith

bind_same :
    {m m' : Option Hashes} {f g : Hashes → Option Hashes}
    → m ≡ m'
    → ((s : Hashes) → f s ≡ g s)
    → (m >>= f) ≡ (m' >>= g)
bind_same {m} {m'} {f} {g} e h = ap (λ r. r >>= f) e ∙ by_cases m'
  where
    by_cases : (r : Option Hashes) → (r >>= f) ≡ (r >>= g)
    by_cases none = refl
    by_cases (some s) = h s

mixer : IsMixer 16 mix_body
mixer = record {
  nothing = λ s. body_scalar [] s ∙ (unfold mix_body_scalar in refl);
  join = λ xs ys s z.
      body_scalar (xs ++ ys) s
      ∙ (join xs ys s z ∙ sym (bind_same (body_scalar xs s) (body_scalar ys)));
  total = λ xs s z. let (s', e) = total xs s z in (s', body_scalar xs s ∙ e);
}

abbrev operations : Operations Murmur3X64Hasher128 Hashes Hashes
operations = record {
  block_size = 16;
  modulus = 2 ^ 64;
  start = λ seed. (seed, seed);
  mix = mix_body;
  finish = finish_tail;
  new = new;
  update = update;
  digest = digest;
  one_call = murmur3_x64_128;
  state = λ h. h.hashes;
  tail = λ h. h.tail;
  total = λ h. h.total;
}

hasher : IsHasher operations
unfolding new update digest murmur3_x64_128
hasher = record {
  positive = omega arith;
  counts = omega arith;
  mixer = mixer;
  new_runs = λ seed b e.
      (record { hashes = (seed, seed); tail = b; total = 0 }, rw e refl, refl, refl, refl);
  update_runs = λ h input q e. (
    record { hashes = q.0; tail = q.1; total = (h.total + length input % 2 ^ 64) % 2 ^ 64 },
    rw e refl,
    refl,
    refl,
    refl,
  );
  digest_runs = λ h rest e. rw e refl;
  one_call_runs = λ seed text body rest s p m. rw (p, m) refl;
}

-- For every seed and all chunks, a new x64_128 hasher, updated with the chunks one after another,
-- has the digest that murmur3_x64_128 computes of their concatenation.
pub digest-update_all_x64_128 :
    (seed : ℕ) (chunks : List (List ℕ))
    → (new seed >>= λ h. update_all update h chunks >>= digest)
      ≡ murmur3_x64_128 (concat chunks) seed
digest-update_all_x64_128 seed chunks = Streaming.digest-update_all operations hasher seed chunks

high_lane :
    (tail : List ℕ) (hash : ℕ)
    → length tail < 16
    → (v : ℕ) × ((if ltb 8 (length tail)
          then (read_partial_u64_le (drop 8 tail) >>= λ block2.
              some (bit_xor hash (scramble2 block2)))
          else some hash)
        ≡ some v)
high_lane tail hash h =
    let (block, e) = read_partial_u64_le-total (drop 8 tail) (omega (arith, length-drop 8 tail)) in
    elim (Bool-cases (ltb 8 (length tail))) [
      | inl c ↦ (bit_xor hash (scramble2 block), rw (c, e) refl)
      | inr c ↦ (hash, rw c refl)
    ]

low_lane :
    (tail : List ℕ) (hash : ℕ)
    → (v : ℕ) × ((if length tail == 0
          then some hash
          else (read_partial_u64_le (take (min (length tail) 8) tail) >>= λ block1.
              some (bit_xor hash (scramble1 block1))))
        ≡ some v)
low_lane tail hash =
    let front = take (min (length tail) 8) tail in
    let (block, e) =
      read_partial_u64_le-total front (omega (arith, length-take (min (length tail) 8) tail)) in
    elim (Bool-cases (length tail == 0)) [
      | inl c ↦ (hash, rw c refl)
      | inr c ↦ (bit_xor hash (scramble1 block), rw (c, e) refl)
    ]

-- Both words of a digest fit.
finish-IsU64 :
    (tail : List ℕ) (s : Hashes) (n : ℕ)
    → length tail < 16
    → (d : Hashes) × (finish_tail tail s n ≡ some d) × (IsU64 d.0) × (IsU64 d.1)
unfolding finish_tail
finish-IsU64 tail (hash1, hash2) n h =
    let (v2, e2) = high_lane tail hash2 h in
    let (v1, e1) = low_lane tail hash1 in
    (finish_hashes (v1, v2) n, rw (e2, e1) refl, omega arith, omega arith)

-- For every input and seed, murmur3_x64_128 returns two u64 values: no load is out of bounds.
pub murmur3_x64_128-IsU64 :
    (input : List ℕ) (seed : ℕ)
    → (d : Hashes) × (murmur3_x64_128 input seed ≡ some d) × (IsU64 d.0) × (IsU64 d.1)
murmur3_x64_128-IsU64 input seed =
    let (rest, s, short, runs) = one_call_parts operations hasher seed input in
    let (d, done, small0, small1) = finish-IsU64 rest s (length input % 2 ^ 64) short in
    (d, runs ∙ done, small0, small1)
