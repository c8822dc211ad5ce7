-- ===== src/Murmur3/X86Hasher128/Streaming.antt =====
-- Chunks given one after another to murmur3/x86_128/murmur3_x86_hasher128.rs are
-- hashed as their concatenation.
use hashcodecs_rs.Common.{
  get_elem?, set, ltb, Bool-cases, inl, inr, ℕ, zero, suc, ◌+◌, ◌*◌, ◌/◌, ◌%◌, ◌^◌, ◌≤◌, ◌<◌, ◌≡◌,
  refl, ap, ◌∙◌, some, List, [], ◌∷◌, ◌++◌, ◌>>=◌, arith, length, concat,
}
use hashcodecs_rs.Word.{IsU32, bit_xor, bit_or, shl32}
use hashcodecs_rs.Murmur3.BlockBuffer.Laws.{IsMixer}
use hashcodecs_rs.Murmur3.Hasher.{Operations, IsHasher}
use hashcodecs_rs.Murmur3.Hasher.Streaming
use hashcodecs_rs.Murmur3.Hasher.Streaming.{update_all, one_call_parts}
use hashcodecs_rs.Murmur3.X86Hasher128.{
  Hashes, scramble1, scramble2, scramble3, scramble4, mix_lane, Murmur3X86Hasher128,
  mix_body_scalar, mix_body, finish_tail, new, update, digest, murmur3_x86_128, each_lane, finalize,
  gather,
}

join :
    (xs ys : List ℕ) (s : Hashes)
    → length xs % 16 ≡ 0
    → mix_body_scalar (xs ++ ys) s ≡ (mix_body_scalar xs s >>= mix_body_scalar ys)
unfolding mix_body_scalar
join [] ys s z = refl
join (a ∷ []) ys s z = absurd (omega arith)
join (a ∷ b ∷ []) ys s z = absurd (omega arith)
join (a ∷ b ∷ c ∷ []) ys s z = absurd (omega arith)
join (a ∷ b ∷ c ∷ d ∷ []) ys s z = absurd (omega arith)
join (a ∷ b ∷ c ∷ d ∷ e ∷ []) ys s z = absurd (omega arith)
join (a ∷ b ∷ c ∷ d ∷ e ∷ f ∷ []) ys s z = absurd (omega arith)
join (a ∷ b ∷ c ∷ d ∷ e ∷ f ∷ g ∷ []) ys s z = absurd (omega arith)
join (a ∷ b ∷ c ∷ d ∷ e ∷ f ∷ g ∷ h ∷ []) ys s z = absurd (omega arith)
join (a ∷ b ∷ c ∷ d ∷ e ∷ f ∷ g ∷ h ∷ i ∷ []) ys s z = absurd (omega arith)
join (a ∷ b ∷ c ∷ d ∷ e ∷ f ∷ g ∷ h ∷ i ∷ j ∷ []) ys s z = absurd (omega arith)
join (a ∷ b ∷ c ∷ d ∷ e ∷ f ∷ g ∷ h ∷ i ∷ j ∷ k ∷ []) ys s z = absurd (omega arith)
join (a ∷ b ∷ c ∷ d ∷ e ∷ f ∷ g ∷ h ∷ i ∷ j ∷ k ∷ l ∷ []) ys s z = absurd (omega arith)
join (a ∷ b ∷ c ∷ d ∷ e ∷ f ∷ g ∷ h ∷ i ∷ j ∷ k ∷ l ∷ m ∷ []) ys s z = absurd (omega arith)
join (a ∷ b ∷ c ∷ d ∷ e ∷ f ∷ g ∷ h ∷ i ∷ j ∷ k ∷ l ∷ m ∷ n ∷ []) ys s z = absurd (omega arith)
join (a ∷ b ∷ c ∷ d ∷ e ∷ f ∷ g ∷ h ∷ i ∷ j ∷ k ∷ l ∷ m ∷ n ∷ o ∷ []) ys s z = absurd (omega arith)
join (a ∷ b ∷ c ∷ d ∷ e ∷ f ∷ g ∷ h ∷ i ∷ j ∷ k ∷ l ∷ m ∷ n ∷ o ∷ p ∷ xs) ys s z =
    join xs ys _ (omega arith)

total :
    (xs : List ℕ) (s : Hashes)
    → length xs % 16 ≡ 0
    → (s' : Hashes) × (mix_body_scalar xs s ≡ some s')
unfolding mix_body_scalar
total [] s z = (s, refl)
total (a ∷ []) s z = absurd (omega arith)
total (a ∷ b ∷ []) s z = absurd (omega arith)
total (a ∷ b ∷ c ∷ []) s z = absurd (omega arith)
total (a ∷ b ∷ c ∷ d ∷ []) s z = absurd (omega arith)
total (a ∷ b ∷ c ∷ d ∷ e ∷ []) s z = absurd (omega arith)
total (a ∷ b ∷ c ∷ d ∷ e ∷ f ∷ []) s z = absurd (omega arith)
total (a ∷ b ∷ c ∷ d ∷ e ∷ f ∷ g ∷ []) s z = absurd (omega arith)
total (a ∷ b ∷ c ∷ d ∷ e ∷ f ∷ g ∷ h ∷ []) s z = absurd (omega arith)
total (a ∷ b ∷ c ∷ d ∷ e ∷ f ∷ g ∷ h ∷ i ∷ []) s z = absurd (omega arith)
total (a ∷ b ∷ c ∷ d ∷ e ∷ f ∷ g ∷ h ∷ i ∷ j ∷ []) s z = absurd (omega arith)
total (a ∷ b ∷ c ∷ d ∷ e ∷ f ∷ g ∷ h ∷ i ∷ j ∷ k ∷ []) s z = absurd (omega arith)
total (a ∷ b ∷ c ∷ d ∷ e ∷ f ∷ g ∷ h ∷ i ∷ j ∷ k ∷ l ∷ []) s z = absurd (omega arith)
total (a ∷ b ∷ c ∷ d ∷ e ∷ f ∷ g ∷ h ∷ i ∷ j ∷ k ∷ l ∷ m ∷ []) s z = absurd (omega arith)
total (a ∷ b ∷ c ∷ d ∷ e ∷ f ∷ g ∷ h ∷ i ∷ j ∷ k ∷ l ∷ m ∷ n ∷ []) s z = absurd (omega arith)
total (a ∷ b ∷ c ∷ d ∷ e ∷ f ∷ g ∷ h ∷ i ∷ j ∷ k ∷ l ∷ m ∷ n ∷ o ∷ []) s z = absurd (omega arith)
total (a ∷ b ∷ c ∷ d ∷ e ∷ f ∷ g ∷ h ∷ i ∷ j ∷ k ∷ l ∷ m ∷ n ∷ o ∷ p ∷ xs) s z =
    total xs _ (omega arith)

mixer : IsMixer 16 mix_body
unfolding mix_body
mixer = record { nothing = λ s. (unfold mix_body_scalar in refl); join = join; total = total }

abbrev operations : Operations Murmur3X86Hasher128 Hashes Hashes
operations = record {
  block_size = 16;
  modulus = 2 ^ 32;
  start = λ seed. each_lane seed;
  mix = mix_body;
  finish = finish_tail;
  new = new;
  update = update;
  digest = digest;
  one_call = murmur3_x86_128;
  state = λ h. h.hashes;
  tail = λ h. h.tail;
  total = λ h. h.total;
}

hasher : IsHasher operations
unfolding new update digest murmur3_x86_128
hasher = record {
  positive = omega arith;
  counts = omega arith;
  mixer = mixer;
  new_runs = λ seed b e.
      (record { hashes = each_lane seed; tail = b; total = 0 }, rw e refl, refl, refl, refl);
  update_runs = λ h input q e. (
    record { hashes = q.0; tail = q.1; total = (h.total + length input % 2 ^ 32) % 2 ^ 32 },
    rw e refl,
    refl,
    refl,
    refl,
  );
  digest_runs = λ h rest e. rw e refl;
  one_call_runs = λ seed text body rest s p m. rw (p, m) refl;
}

-- For every seed and all chunks, a new x86_128 hasher, updated with the chunks one after another,
-- has the digest that murmur3_x86_128 computes of their concatenation.
pub digest-update_all_x86_128 :
    (seed : ℕ) (chunks : List (List ℕ))
    → (new seed >>= λ h. update_all update h chunks >>= digest)
      ≡ murmur3_x86_128 (concat chunks) seed
digest-update_all_x86_128 seed chunks = Streaming.digest-update_all operations hasher seed chunks

-- Every lane of a digest fits.
abbrev pub AreU32 : Hashes → Type 0
AreU32 h = (IsU32 h.hash1) × (IsU32 h.hash2) × (IsU32 h.hash3) × (IsU32 h.hash4)

finalize-AreU32 : (h : Hashes) (n : ℕ) → AreU32 (finalize h n)
unfolding finalize
finalize-AreU32 h n = (omega arith, omega arith, omega arith, omega arith)

get : (blocks : List ℕ) (i : ℕ) → i < length blocks → (b : ℕ) × (get_elem? blocks i ≡ some b)
get [] i h = absurd (omega arith)
get (b ∷ blocks) zero h = (b, refl)
get (b ∷ blocks) (suc i) h = get blocks i (omega arith)

length-set : (blocks : List ℕ) (i b : ℕ) → length (set blocks i b) ≡ length blocks
length-set [] i b = refl
length-set (x ∷ blocks) zero b = refl
length-set (x ∷ blocks) (suc i) b = ap suc (length-set blocks i b)

-- The loop over the tail stays inside the four blocks.
gather-total :
    (tail : List ℕ) (index : ℕ) (blocks : List ℕ)
    → index + length tail ≤ 16
    → length blocks ≡ 4
    → (blocks' : List ℕ) × (gather tail index blocks ≡ some blocks') × (length blocks' ≡ 4)
unfolding gather
gather-total [] index blocks h n = (blocks, refl, n)
gather-total (byte ∷ tail) index blocks h n =
    let (old, e) = get blocks (index / 4) (omega arith) in
    let new_block = bit_or old (shl32 byte (index % 4 * 8)) in
    let (blocks', runs, n') =
      gather-total tail (index + 1) (set blocks (index / 4) new_block) (omega arith)
        (length-set blocks (index / 4) new_block ∙ n) in
    (blocks', rw e runs, n')

lane :
    (tail : List ℕ) (least : ℕ) (blocks : List ℕ) (i : ℕ) (f : ℕ → ℕ) (hash : ℕ)
    → i < length blocks
    → (v : ℕ) × (mix_lane tail least blocks i f hash ≡ some v)
lane tail least blocks i f hash h =
    let (block, e) = get blocks i h in
    elim (Bool-cases (ltb least (length tail))) [
      | inl c ↦ (bit_xor hash (f block), rw (c, e) refl)
      | inr c ↦ (hash, rw c refl)
    ]

finish-AreU32 :
    (tail : List ℕ) (s : Hashes) (n : ℕ)
    → length tail < 16
    → (d : Hashes) × (finish_tail tail s n ≡ some d) × AreU32 d
unfolding finish_tail
finish-AreU32 tail s n h =
    let (blocks, e, size) = gather-total tail 0 (0 ∷ 0 ∷ 0 ∷ 0 ∷ []) (omega arith) refl in
    let (v4, e4) = lane tail 12 blocks 3 scramble4 s.hash4 (omega arith) in
    let (v3, e3) = lane tail 8 blocks 2 scramble3 s.hash3 (omega arith) in
    let (v2, e2) = lane tail 4 blocks 1 scramble2 s.hash2 (omega arith) in
    let (v1, e1) = lane tail 0 blocks 0 scramble1 s.hash1 (omega arith) in
    let v : Hashes = record { hash1 = v1; hash2 = v2; hash3 = v3; hash4 = v4 } in
    (finalize v n, rw (e, e4, e3, e2, e1) refl, finalize-AreU32 v n)

-- For every input and seed, murmur3_x86_128 returns four u32 values: no load is out of bounds.
pub murmur3_x86_128-AreU32 :
    (input : List ℕ) (seed : ℕ) → (d : Hashes) × (murmur3_x86_128 input seed ≡ some d) × AreU32 d
murmur3_x86_128-AreU32 input seed =
    let (rest, s, short, runs) = one_call_parts operations hasher seed input in
    let (d, done, small) = finish-AreU32 rest s (length input % 2 ^ 32) short in
    (d, runs ∙ done, small)
