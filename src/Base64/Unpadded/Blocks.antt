-- ===== src/Base64/Unpadded/Blocks.antt =====
-- The validated blocks of base64/decode/api.rs against the checked ones, on symbols of the alphabet.
use hashcodecs_rs.Common.{
  ℕ, ◌+◌, ◌<◌, ◌≡◌, refl, ap, ◌∙◌, sym, Option, List, [], ◌∷◌, length, arith, All, inl, inr,
}
use hashcodecs_rs.Word.{bit_or}
use hashcodecs_rs.Base64.Alphabet.Tables.{at}
use hashcodecs_rs.Base64.Output.{Memory, Outcome, ok, err, fault, Write, ◌>>=◌, ◌>>◌}
use hashcodecs_rs.Base64.Decode.{
  decode_eight_ptr, decode_quad_ptr, decode_unpadded_tail_ptr, decode_fours, symbol_value,
}
use hashcodecs_rs.Base64.Decode.Entries.{IsTable, or_four, or_more}
use hashcodecs_rs.Base64.Decode.Loops.{body, body_eight, body_short, >>=_assoc}
use hashcodecs_rs.Base64.Unpadded.{
  decode_quad_validated_ptr, decode_eight_validated_ptr, decode_unpadded_tail_validated_ptr,
  decode_eights_validated, decode_fours_validated,
}

-- Symbols of the alphabet.
abbrev pub Symbols : List ℕ → List ℕ → Type 0
Symbols table = All (λ c. at table c < 64)

-- What follows an outcome.
abbrev after : {A B : Type 0} → Outcome A → (A → Write B) → Outcome B
after o f = elim o [ ok a mem' ↦ f a mem' | err e mem' ↦ err e mem' | fault ↦ fault ]

after_same :
    {A B : Type 0} (o o' : Outcome A) (f f' : A → Write B)
    → o ≡ o'
    → ((a : A) (mem : Memory) → f a mem ≡ f' a mem)
    → after o f ≡ after o' f'
after_same {A} o o' f f' e h = ap (λ x. after x f) e ∙ agree o'
  where
    agree : (x : Outcome A) → after x f ≡ after x f'
    agree (ok a mem) = h a mem
    agree (err e mem) = refl
    agree fault = refl

module _ (table : List ℕ) where
  eight_same :
      (a b c d e f g h k : ℕ) (mem : Memory)
      → Symbols table (a ∷ b ∷ c ∷ d ∷ e ∷ f ∷ g ∷ h ∷ [])
      → decode_eight_ptr a b c d e f g h k table mem
        ≡ decode_eight_validated_ptr a b c d e f g h k table mem
  unfolding decode_eight_ptr decode_eight_validated_ptr
  eight_same a b c d e f g h k mem (ha, (hb, (hc, (hd, (he, (hf, (hg, (hh, _)))))))) =
      let first = bit_or (bit_or (bit_or (at table a) (at table b)) (at table c)) (at table d) in
      elim (or_four (at table a) (at table b) (at table c) (at table d) (inr ha) (inr hb) (inr hc)
        (inr hd)) [
          | inl (e4, wrong) ↦ absurd (ground arith)
          | inr (l4, all4) ↦
              elim (or_more first (at table e) (at table f) (at table g) (at table h) (inr l4)
                (inr he) (inr hf) (inr hg) (inr hh)) [
                  | inl (e8, wrong) ↦ absurd (ground arith)
                  | inr (l8, first4, all8) ↦ ground arith
                ]
        ]

  quad_same :
      (a b c d k : ℕ) (mem : Memory)
      → Symbols table (a ∷ b ∷ c ∷ d ∷ [])
      → decode_quad_ptr (a ∷ b ∷ c ∷ d ∷ []) k 0 table mem
        ≡ decode_quad_validated_ptr a b c d k table mem
  unfolding decode_quad_ptr decode_quad_validated_ptr symbol_value
  quad_same a b c d k mem (ha, (hb, (hc, (hd, _)))) = ground arith

  pub tail_two_same :
      (a b k : ℕ) (mem : Memory)
      → Symbols table (a ∷ b ∷ [])
      → decode_unpadded_tail_ptr (a ∷ b ∷ []) k table mem
        ≡ decode_unpadded_tail_validated_ptr (a ∷ b ∷ []) k table mem
  unfolding decode_unpadded_tail_ptr decode_unpadded_tail_validated_ptr symbol_value
  tail_two_same a b k mem (ha, (hb, _)) = ground arith

  pub tail_three_same :
      (a b c k : ℕ) (mem : Memory)
      → Symbols table (a ∷ b ∷ c ∷ [])
      → decode_unpadded_tail_ptr (a ∷ b ∷ c ∷ []) k table mem
        ≡ decode_unpadded_tail_validated_ptr (a ∷ b ∷ c ∷ []) k table mem
  unfolding decode_unpadded_tail_ptr decode_unpadded_tail_validated_ptr symbol_value
  tail_three_same a b c k mem (ha, (hb, (hc, _))) = ground arith

  fours_same :
      (input : List ℕ) (k : ℕ) (mem : Memory)
      → Symbols table input
      → decode_fours table input k mem ≡ decode_fours_validated table input k mem
  unfolding decode_fours decode_fours_validated
  fours_same (a ∷ b ∷ c ∷ d ∷ rest) k mem (ha, (hb, (hc, (hd, r)))) =
      after_same (decode_quad_ptr (a ∷ b ∷ c ∷ d ∷ []) k 0 table mem)
        (decode_quad_validated_ptr a b c d k table mem) (λ u. decode_fours table rest (k + 3))
        (λ u. decode_fours_validated table rest (k + 3))
        (quad_same a b c d k mem (ha, (hb, (hc, (hd, tt)))))
        (λ u mem'. fours_same rest (k + 3) mem' r)
  fours_same [] k mem h = refl
  fours_same (a ∷ []) k mem h = refl
  fours_same (a ∷ b ∷ []) k mem h = refl
  fours_same (a ∷ b ∷ c ∷ []) k mem h = refl

  module _ (t : IsTable table) {A : Type 0} (f : ℕ → Write A) (a : A) (n : ℕ)
      (o : Option (List ℕ)) where
    abbrev pub body_validated : List ℕ → ℕ → Write A
    body_validated input k = do
      (rest, destination) ← decode_eights_validated table input k
      destination' ← decode_fours_validated table rest destination
      f destination'

    body_validated_eight :
        (b c d e g h i l : ℕ) (rest : List ℕ) (k : ℕ) (mem : Memory)
        → (decode_eight_validated_ptr b c d e g h i l k table >> body_validated rest (k + 6)) mem
          ≡ body_validated (b ∷ c ∷ d ∷ e ∷ g ∷ h ∷ i ∷ l ∷ rest) k mem
    unfolding decode_eights_validated
    body_validated_eight b c d e g h i l rest k mem = sym (
        >>=_assoc (decode_eight_validated_ptr b c d e g h i l k table)
          (λ _. decode_eights_validated table rest (k + 6))
          (λ r. decode_fours_validated table r.0 r.1 >>= f) mem)

    body_validated_short :
        (input : List ℕ) (k : ℕ) (mem : Memory)
        → length input < 8
        → (decode_fours_validated table input k >>= f) mem ≡ body_validated input k mem
    unfolding decode_eights_validated
    body_validated_short (b ∷ c ∷ d ∷ e ∷ g ∷ h ∷ i ∷ l ∷ rest) k mem s = absurd (omega arith)
    body_validated_short _ k mem s = refl

    pub body_same :
        (input : List ℕ) (k : ℕ) (mem : Memory)
        → Symbols table input
        → body table t f a n o input k mem ≡ body_validated input k mem
    body_same (b ∷ c ∷ d ∷ e ∷ g ∷ h ∷ i ∷ l ∷ rest) k mem
          (hb, (hc, (hd, (he, (hg, (hh, (hi, (hl, r)))))))) =
        sym (body_eight table t f a n o b c d e g h i l rest k mem)
        ∙ after_same (decode_eight_ptr b c d e g h i l k table mem)
            (decode_eight_validated_ptr b c d e g h i l k table mem)
            (λ u. body table t f a n o rest (k + 6)) (λ u. body_validated rest (k + 6))
            (eight_same b c d e g h i l k mem (hb, (hc, (hd, (he, (hg, (hh, (hi, (hl, tt)))))))))
            (λ u mem'. body_same rest (k + 6) mem' r)
        ∙ body_validated_eight b c d e g h i l rest k mem
    body_same input k mem h =
        sym (body_short table t f a n o input k mem (omega arith))
        ∙ after_same (decode_fours table input k mem) (decode_fours_validated table input k mem) f f
            (fours_same input k mem h) (λ u mem'. refl)
        ∙ body_validated_short input k mem (omega arith)
