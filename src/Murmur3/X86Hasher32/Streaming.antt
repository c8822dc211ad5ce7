-- ===== src/Murmur3/X86Hasher32/Streaming.antt =====
-- Chunks given one after another to murmur3/x86_32/murmur3_x86_hasher32.rs are hashed as their
-- concatenation.
use hashcodecs_rs.Common.{
  ℕ, ◌+◌, ◌%◌, ◌^◌, ◌<◌, ◌≡◌, refl, ◌∙◌, some, List, [], ◌∷◌, ◌++◌, ◌>>=◌, arith, length, concat,
}
use hashcodecs_rs.Word.{IsU32}
use hashcodecs_rs.Murmur3.BlockBuffer.Laws.{IsMixer}
use hashcodecs_rs.Murmur3.Hasher.{Operations, IsHasher}
use hashcodecs_rs.Murmur3.Hasher.Streaming
use hashcodecs_rs.Murmur3.Hasher.Streaming.{update_all, one_call_parts}
use hashcodecs_rs.Murmur3.Primitives.Bijective.{fmix32-IsU32}
use hashcodecs_rs.Murmur3.Primitives.{fmix32}
use hashcodecs_rs.Murmur3.X86Hasher32.{
  Murmur3X86Hasher32, mix_body_scalar, mix_body, finish_tail, new, update, digest, murmur3_x86_32,
}

join :
    (xs ys : List ℕ) (s : ℕ)
    → length xs % 4 ≡ 0
    → mix_body (xs ++ ys) s ≡ (mix_body xs s >>= mix_body ys)
unfolding mix_body mix_body_scalar
join [] ys s h = refl
join (a ∷ []) ys s h = absurd (omega arith)
join (a ∷ b ∷ []) ys s h = absurd (omega arith)
join (a ∷ b ∷ c ∷ []) ys s h = absurd (omega arith)
join (a ∷ b ∷ c ∷ d ∷ xs) ys s h = join xs ys _ (omega arith)

total : (xs : List ℕ) (s : ℕ) → length xs % 4 ≡ 0 → (s' : ℕ) × (mix_body xs s ≡ some s')
unfolding mix_body mix_body_scalar
total [] s h = (s, refl)
total (a ∷ []) s h = absurd (omega arith)
total (a ∷ b ∷ []) s h = absurd (omega arith)
total (a ∷ b ∷ c ∷ []) s h = absurd (omega arith)
total (a ∷ b ∷ c ∷ d ∷ xs) s h = total xs _ (omega arith)

mixer : IsMixer 4 mix_body
unfolding mix_body
mixer = record { nothing = λ s. (unfold mix_body_scalar in refl); join = join; total = total }

abbrev operations : Operations Murmur3X86Hasher32 ℕ ℕ
operations = record {
  block_size = 4;
  modulus = 2 ^ 32;
  start = λ seed. seed;
  mix = mix_body;
  finish = finish_tail;
  new = new;
  update = update;
  digest = digest;
  one_call = murmur3_x86_32;
  state = λ h. h.hash;
  tail = λ h. h.tail;
  total = λ h. h.total;
}

hasher : IsHasher operations
unfolding new update digest murmur3_x86_32
hasher = record {
  positive = omega arith;
  counts = omega arith;
  mixer = mixer;
  new_runs = λ seed b e. (record { hash = seed; tail = b; total = 0 }, rw e refl, refl, refl, refl);
  update_runs = λ h input q e. (
    record { hash = q.0; tail = q.1; total = (h.total + length input % 2 ^ 32) % 2 ^ 32 },
    rw e refl,
    refl,
    refl,
    refl,
  );
  digest_runs = λ h rest e. rw e refl;
  one_call_runs = λ seed text body rest s p m. rw (p, m) refl;
}

-- For every seed and all chunks, a new x86_32 hasher, updated with the chunks one after another,
-- has the digest that murmur3_x86_32 computes of their concatenation.
pub digest-update_all_x86_32 :
    (seed : ℕ) (chunks : List (List ℕ))
    → (new seed >>= λ h. update_all update h chunks >>= digest)
      ≡ murmur3_x86_32 (concat chunks) seed
digest-update_all_x86_32 seed chunks = Streaming.digest-update_all operations hasher seed chunks

finish-IsU32 :
    (tail : List ℕ) (hash n : ℕ)
    → length tail < 4
    → (d : ℕ) × (finish_tail tail hash n ≡ some d) × IsU32 d
unfolding finish_tail
finish-IsU32 [] hash n h = (fmix32 _, refl, fmix32-IsU32 _)
finish-IsU32 (a ∷ []) hash n h = (fmix32 _, refl, fmix32-IsU32 _)
finish-IsU32 (a ∷ b ∷ []) hash n h = (fmix32 _, refl, fmix32-IsU32 _)
finish-IsU32 (a ∷ b ∷ c ∷ []) hash n h = (fmix32 _, refl, fmix32-IsU32 _)
finish-IsU32 (a ∷ b ∷ c ∷ d ∷ rest) hash n h = absurd (omega arith)

-- For every input and seed, murmur3_x86_32 returns a u32 value: no load is out of bounds.
pub murmur3_x86_32-IsU32 :
    (input : List ℕ) (seed : ℕ) → (d : ℕ) × (murmur3_x86_32 input seed ≡ some d) × IsU32 d
murmur3_x86_32-IsU32 input seed =
    let (rest, s, short, runs) = one_call_parts operations hasher seed input in
    let (d, done, small) = finish-IsU32 rest s (length input % 2 ^ 32) short in
    (d, runs ∙ done, small)
