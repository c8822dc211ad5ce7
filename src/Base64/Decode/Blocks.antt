-- ===== src/Base64/Decode/Blocks.antt =====
-- The block decoders of base64/decode/api.rs: one quantum, an unpadded tail, and eight symbols at
-- once, against the arithmetic of RFC 4648.
use hashcodecs_rs.Common.{
  ℕ, ◌+◌, ◌≤◌, ◌<◌, ◌≡◌, refl, inl, inr, Option, none, some, List, [], ◌∷◌, length, arith, All,
}
use hashcodecs_rs.Word.{IsByte, bit_or}
use hashcodecs_rs.Base64.Alphabet.Tables.{at}
use hashcodecs_rs.Base64.Output.{Memory, Outcome, ok, err, stored, invalid_input}
use hashcodecs_rs.Base64.Output.Laws.{write-stored}
use hashcodecs_rs.Base64.Rfc4648.{quad, short, join}
use hashcodecs_rs.Base64.Decode.{
  byte0, byte1, byte2, decode_quad_ptr, decode_unpadded_tail_ptr, decode_eight_ptr, symbol_value,
}
use hashcodecs_rs.Base64.Decode.Entries.{
  IsTable, byte0_sum, byte1_sum, byte2_sum, two_writes, three_writes, Entry, AllValid, SomeInvalid,
  or_four, or_more,
}

-- A block that follows the specification `o`: its bytes stored from cell `k` on, or the error with
-- the memory untouched.
abbrev pub block_outcome : ℕ → Memory → Option (List ℕ) → Outcome (Unit {0})
block_outcome k mem none = err invalid_input mem
block_outcome k mem (some bytes) = ok tt (stored k bytes mem)

module _ (table : List ℕ) (t : IsTable table) where
  pub quad-block :
      (a b c d k : ℕ) (mem : Memory)
      → a < 256
      → b < 256
      → c < 256
      → d < 256
      → k + 3 ≤ length mem
      → decode_quad_ptr (a ∷ b ∷ c ∷ d ∷ []) k 0 table mem
        ≡ block_outcome k mem (quad table a b c d)
  unfolding quad decode_quad_ptr symbol_value
  quad-block a b c d k mem ha hb hc hd fits = ground (
    arith,
    t.entry a ha,
    t.entry b hb,
    t.entry c hc,
    t.entry d hd,
    byte0_sum (at table a) (at table b),
    byte1_sum (at table b) (at table c),
    byte2_sum (at table c) (at table d),
    three_writes k (byte0 (at table a) (at table b)) (byte1 (at table b) (at table c))
        (byte2 (at table c) (at table d)) mem fits,
  )

  -- With one `=` the fourth symbol is not read.
  pub padded_three-block :
      (a b c d k : ℕ) (mem : Memory)
      → a < 256
      → b < 256
      → c < 256
      → k + 2 ≤ length mem
      → decode_quad_ptr (a ∷ b ∷ c ∷ d ∷ []) k 1 table mem
        ≡ block_outcome k mem (short table (a ∷ b ∷ c ∷ []))
  unfolding short decode_quad_ptr symbol_value
  padded_three-block a b c d k mem ha hb hc fits = ground (
    arith,
    t.entry a ha,
    t.entry b hb,
    t.entry c hc,
    byte0_sum (at table a) (at table b),
    byte1_sum (at table b) (at table c),
    two_writes k (k + 1) (byte0 (at table a) (at table b)) (byte1 (at table b) (at table c)) mem
        refl fits,
  )

  -- With two, neither the third nor the fourth.
  pub padded_two-block :
      (a b c d k : ℕ) (mem : Memory)
      → a < 256
      → b < 256
      → k + 1 ≤ length mem
      → decode_quad_ptr (a ∷ b ∷ c ∷ d ∷ []) k 2 table mem
        ≡ block_outcome k mem (short table (a ∷ b ∷ []))
  unfolding short decode_quad_ptr symbol_value
  padded_two-block a b c d k mem ha hb fits = ground (
    arith,
    t.entry a ha,
    t.entry b hb,
    byte0_sum (at table a) (at table b),
    write-stored k (byte0 (at table a) (at table b) ∷ []) mem fits,
  )

  pub tail_three-block :
      (a b c k : ℕ) (mem : Memory)
      → a < 256
      → b < 256
      → c < 256
      → k + 2 ≤ length mem
      → decode_unpadded_tail_ptr (a ∷ b ∷ c ∷ []) k table mem
        ≡ block_outcome k mem (short table (a ∷ b ∷ c ∷ []))
  unfolding short decode_unpadded_tail_ptr symbol_value
  tail_three-block a b c k mem ha hb hc fits = ground (
    arith,
    t.entry a ha,
    t.entry b hb,
    t.entry c hc,
    byte0_sum (at table a) (at table b),
    byte1_sum (at table b) (at table c),
    two_writes k (k + 1) (byte0 (at table a) (at table b)) (byte1 (at table b) (at table c)) mem
        refl fits,
  )

  pub tail_two-block :
      (a b k : ℕ) (mem : Memory)
      → a < 256
      → b < 256
      → k + 1 ≤ length mem
      → decode_unpadded_tail_ptr (a ∷ b ∷ []) k table mem
        ≡ block_outcome k mem (short table (a ∷ b ∷ []))
  unfolding short decode_unpadded_tail_ptr symbol_value
  tail_two-block a b k mem ha hb fits = ground (
    arith,
    t.entry a ha,
    t.entry b hb,
    byte0_sum (at table a) (at table b),
    write-stored k (byte0 (at table a) (at table b) ∷ []) mem fits,
  )

  quad_invalid :
      (a b c d : ℕ)
      → SomeInvalid (at table a) (at table b) (at table c) (at table d)
      → Entry (at table a)
      → Entry (at table b)
      → Entry (at table c)
      → quad table a b c d ≡ none
  unfolding quad
  quad_invalid a b c d bad ea eb ec = ground arith

  quad_valid :
      (a b c d : ℕ)
      → AllValid (at table a) (at table b) (at table c) (at table d)
      → quad table a b c d
        ≡ some (
            byte0 (at table a) (at table b)
            ∷ byte1 (at table b) (at table c)
            ∷ byte2 (at table c) (at table d)
            ∷ [])
  unfolding quad
  quad_valid a b c d v = ground (
    arith,
    byte0_sum (at table a) (at table b),
    byte1_sum (at table b) (at table c),
    byte2_sum (at table c) (at table d),
  )

  -- The single test of the eight-symbol path accepts exactly what two quanta accept.
  pub eight-block :
      (a b c d e f g h k : ℕ) (mem : Memory)
      → All IsByte (a ∷ b ∷ c ∷ d ∷ e ∷ f ∷ g ∷ h ∷ [])
      → k + 6 ≤ length mem
      → decode_eight_ptr a b c d e f g h k table mem
        ≡ block_outcome k mem (join (quad table a b c d) (quad table e f g h))
  unfolding decode_eight_ptr
  eight-block a b c d e f g h k mem (ha, (hb, (hc, (hd, (he, (hf, (hg, (hh, _)))))))) fits =
      let first = bit_or (bit_or (bit_or (at table a) (at table b)) (at table c)) (at table d) in
      let ea = t.entry a ha in
      let eb = t.entry b hb in
      let ec = t.entry c hc in
      let ed = t.entry d hd in
      let ee = t.entry e he in
      let ef = t.entry f hf in
      let eg = t.entry g hg in
      let eh = t.entry h hh in
      let rest = λ (hf : Entry first).
        or_more first (at table e) (at table f) (at table g) (at table h) hf ee ef eg eh in
      elim (or_four (at table a) (at table b) (at table c) (at table d) ea eb ec ed) [
        | inl (e4, bad) ↦ ground (arith, rest (inl e4), quad_invalid a b c d bad ea eb ec)
        | inr (l4, good) ↦ elim (rest (inr l4)) [
          | inl (e8, inl p) ↦ absurd (omega arith)
          | inl (e8, inr bad) ↦
              ground (arith, quad_valid a b c d good, quad_invalid e f g h bad ee ef eg)
          | inr (l8, l4', good') ↦ ground (
            arith,
            quad_valid a b c d good,
            quad_valid e f g h good',
            write-stored k
                (byte0 (at table a) (at table b)
                  ∷ byte1 (at table b) (at table c)
                  ∷ byte2 (at table c) (at table d)
                  ∷ byte0 (at table e) (at table f)
                  ∷ byte1 (at table f) (at table g)
                  ∷ byte2 (at table g) (at table h)
                  ∷ [])
                mem fits,
          )
        ]
      ]
