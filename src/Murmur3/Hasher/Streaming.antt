-- ===== src/Murmur3/Hasher/Streaming.antt =====
-- Chunks given one after another to any hasher of murmur3 are hashed as their concatenation.
use native.Mathlib.Nat.{zero-mod, add-mod}
use hashcodecs_rs.Common.{
  ℕ, ◌+◌, ◌%◌, ◌<◌, ◌≡◌, refl, ap, ◌∙◌, sym, subst, Option, some, List, [], ◌∷◌, ◌++◌, ◌>>=◌,
  length, length-append, append-nil, append_assoc, concat,
}
use hashcodecs_rs.Murmur3.BlockBuffer.{BlockBuffer}
use hashcodecs_rs.Murmur3.BlockBuffer.Laws.{Holds, consume-Holds}
use hashcodecs_rs.Murmur3.BlockBuffer.Ends.{new_buffer-Holds, remaining-Holds, split-Holds}
use hashcodecs_rs.Murmur3.Hasher.{Operations, IsHasher}

-- `update` for each chunk.
abbrev pub update_all : {H : Type 0} → (H → List ℕ → Option H) → H → List (List ℕ) → Option H
update_all update h [] = some h
update_all update h (chunk ∷ chunks) = update h chunk >>= λ h'. update_all update h' chunks

module _ {H S D : Type 0} (o : Operations H S D) (i : IsHasher o) (seed : ℕ) where
  -- The hasher has taken in `text`.
  record Taken (text : List ℕ) (h : H) : Type 0 where
    holds : Holds o.block_size o.mix (o.start seed) text (o.state h, o.tail h)
    counted : o.total h ≡ length text % o.modulus

  moved :
      (text : List ℕ) (s s' : S) (b b' : BlockBuffer)
      → s' ≡ s
      → b' ≡ b
      → Holds o.block_size o.mix (o.start seed) text (s, b)
      → Holds o.block_size o.mix (o.start seed) text (s', b')
  moved text s s' b b' p q h =
      subst (λ x. Holds o.block_size o.mix (o.start seed) text (s', x)) (sym q)
        (subst (λ x. Holds o.block_size o.mix (o.start seed) text (x, b)) (sym p) h)

  new-Taken : (h : H) × (o.new seed ≡ some h) × Taken [] h
  new-Taken =
      let (b, runs, holds) =
        new_buffer-Holds o.block_size i.positive o.mix i.mixer (o.start seed) in
      let (h, run, s, t, n) = i.new_runs seed b runs in
      (
        h,
        run,
        record {
          holds = moved [] (o.start seed) (o.state h) b (o.tail h) s t holds;
          counted = n ∙ sym (zero-mod o.modulus);
        },
      )

  update-Taken :
      (text input : List ℕ) (h : H)
      → Taken text h
      → (h' : H) × (o.update h input ≡ some h') × Taken (text ++ input) h'
  update-Taken text input h t =
      let (q, runs, holds) =
        consume-Holds o.block_size i.positive o.mix i.mixer (o.start seed) text input
          (o.state h, o.tail h) t.holds in
      let (h', run, s, b, n) = i.update_runs h input q runs in
      let count : o.total h' ≡ length (text ++ input) % o.modulus =
        n
        ∙ (ap (λ k. (k + length input % o.modulus) % o.modulus) t.counted
            ∙ (sym (add-mod (length text) (length input) o.modulus)
                ∙ ap (λ k. k % o.modulus) (sym (length-append text input)))) in
      (
        h',
        run,
        record {
          holds = moved (text ++ input) q.0 (o.state h') q.1 (o.tail h') s b holds;
          counted = count;
        },
      )

  digest-Taken : (text : List ℕ) (h : H) → Taken text h → o.digest h ≡ o.one_call text seed
  digest-Taken text h t =
      let p : S × BlockBuffer = (o.state h, o.tail h) in
      let left =
        remaining-Holds o.block_size i.positive o.mix i.mixer (o.start seed) text p t.holds in
      let parts = split-Holds o.block_size i.positive o.mix i.mixer (o.start seed) text p t.holds in
      i.digest_runs h t.holds.rest left
      ∙ (ap (o.finish t.holds.rest (o.state h)) t.counted
          ∙ sym
              (i.one_call_runs seed text t.holds.body t.holds.rest (o.state h) parts t.holds.mixed))

  update_all-Taken :
      (text : List ℕ) (h : H) (chunks : List (List ℕ))
      → Taken text h
      → (h' : H) × (update_all o.update h chunks ≡ some h') × Taken (text ++ concat chunks) h'
  update_all-Taken text h [] t = (h, refl, subst (λ x. Taken x h) (sym (append-nil text)) t)
  update_all-Taken text h (chunk ∷ chunks) t =
      let (h1, run1, t1) = update-Taken text chunk h t in
      let (h2, run2, t2) = update_all-Taken (text ++ chunk) h1 chunks t1 in
      (
        h2,
        ap (λ r. r >>= λ h'. update_all o.update h' chunks) run1 ∙ run2,
        subst (λ x. Taken x h2) (append_assoc text chunk (concat chunks)) t2,
      )

  pub digest-update_all :
      (chunks : List (List ℕ))
      → (o.new seed >>= λ h. update_all o.update h chunks >>= o.digest)
        ≡ o.one_call (concat chunks) seed
  digest-update_all chunks =
      let (h, run, t) = new-Taken in
      let (h', run', t') = update_all-Taken [] h chunks t in
      ap (λ r. r >>= λ x. update_all o.update x chunks >>= o.digest) run
      ∙ (ap (λ r. r >>= o.digest) run' ∙ digest-Taken (concat chunks) h' t')

  -- The full blocks of any text are mixed, and fewer bytes than a block are left.
  pub one_call_parts :
      (text : List ℕ)
      → (rest : List ℕ) × (s : S) × (length rest < o.block_size)
        × (o.one_call text seed ≡ o.finish rest s (length text % o.modulus))
  one_call_parts text =
      let (h, run, t) = new-Taken in
      let (h', run', t') = update-Taken [] text h t in
      let p : S × BlockBuffer = (o.state h', o.tail h') in
      let parts =
        split-Holds o.block_size i.positive o.mix i.mixer (o.start seed) text p t'.holds in
      (
        t'.holds.rest,
        o.state h',
        t'.holds.short,
        i.one_call_runs seed text t'.holds.body t'.holds.rest (o.state h') parts t'.holds.mixed,
      )
