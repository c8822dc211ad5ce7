-- ===== src/Murmur3/BlockBuffer/Ends.antt =====
-- The start and the end of a text in murmur3/block_buffer.rs: a new buffer, what is left in it, and
-- `FullBlocks::split` of the whole text.
use native.Mathlib.Nat.{mod-add-div', zero-mod, zero-add, add-mul-div_right, div-eq_of_lt}
use hashcodecs_rs.Common.{
  ℕ, ◌+◌, ◌*◌, ◌/◌, ◌<◌, ◌≡◌, refl, ap, ◌∙◌, some, true, false, List, [], ◌==◌, leb, arith, length,
  take, length-append, replicate, length-replicate, take-append, drop-append,
}
use hashcodecs_rs.Murmur3.BlockBuffer.{Mix, BlockBuffer, new_buffer, remaining, split}
use hashcodecs_rs.Murmur3.BlockBuffer.Laws.{IsMixer, Holds}

module _ (n : ℕ) (positive : 0 < n) {S : Type 0} (mix : Mix S) (m : IsMixer n mix) (start : S) where
  -- A new buffer, and no text.
  pub new_buffer-Holds :
      (b : BlockBuffer) × (new_buffer n ≡ some b) × Holds n mix start [] (start, b)
  unfolding new_buffer
  new_buffer-Holds =
      let z : ℕ = 0 in
      (
        record { bytes = replicate n z; len = 0 },
        ground arith,
        record {
          body = [];
          rest = [];
          whole = refl;
          blocks = zero-mod n;
          short = positive;
          mixed = m.nothing start;
          size = length-replicate n z;
          len = refl;
          kept = refl;
        },
      )

  -- What is left in the buffer.
  pub remaining-Holds :
      (text : List ℕ) (p : S × BlockBuffer) (h : Holds n mix start text p)
      → remaining p.1 ≡ some h.rest
  unfolding remaining
  remaining-Holds text p h =
      let fits : leb p.1.len (length p.1.bytes) ≡ true =
        (let l = h.len in let s = h.size in let r = h.short in ground arith) in
      rw fits (ap some (ap (λ k. take k p.1.bytes) h.len ∙ h.kept))

  -- Splitting the whole text gives what was mixed, and what is left in the buffer.
  pub split-Holds :
      (text : List ℕ) (p : S × BlockBuffer) (h : Holds n mix start text p)
      → split n text ≡ some (h.body, h.rest)
  unfolding split
  split-Holds text p h =
      let q = length h.body / n in
      let total : q * n ≡ length h.body =
        (let b = h.blocks in let d = mod-add-div' (length h.body) n in omega arith) in
      let size : length text ≡ length h.rest + q * n =
        (let a = ap length h.whole in omega (arith, length-append h.body h.rest)) in
      let k : length text / n * n ≡ length h.body =
        ap (λ i. i / n * n) size
        ∙ (ap (λ i. i * n)
              (add-mul-div_right (length h.rest) q positive
                ∙ ap (λ i. i + q) (div-eq_of_lt h.short))
            ∙ rw zero-add total) in
      let not_zero : (n == 0) ≡ false = ground arith in
      rw
        (
          not_zero,
          k,
          h.whole,
          take-append h.body h.rest (length h.body) refl,
          drop-append h.body h.rest (length h.body) refl,
        )
        refl
