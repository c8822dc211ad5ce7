-- ===== src/Base64/Unpadded/Validated.antt =====
-- `validate_alphabet` of base64/decode/api.rs accepts the symbols that RFC 4648 decodes, and the
-- decoder of validated text then gives the same bytes with no test.
use native.Mathlib.Nat.{add-zero}
use hashcodecs_rs.Common.{
  ℕ, ◌+◌, ◌-◌, ◌*◌, ◌/◌, ◌%◌, ◌≤◌, ◌<◌, ◌≡◌, ◌≢◌, refl, ap, ap₂, ◌∙◌, sym, subst, Option, none,
  some, false, List, [], ◌∷◌, ltb, ◌==◌, if◌then◌else◌, length, take, drop, arith, All, All-take,
  All-drop, length-take, length-drop, Bool-cases, inl, inr,
}
use hashcodecs_rs.Word.{IsByte}
use hashcodecs_rs.Base64.Alphabet.{DecodeAlphabet, standard, standard_decode, table_of}
use hashcodecs_rs.Base64.Alphabet.Tables.{at}
use hashcodecs_rs.Base64.Output.{Memory, ok, Write, ◌>>=◌, ◌>>◌, pure, stored, invalid_input}
use hashcodecs_rs.Base64.Output.Laws.{stored-nil}
use hashcodecs_rs.Base64.Rfc4648.{quad, short, decode_unpadded}
use hashcodecs_rs.Base64.Decode.{Result, good, bad}
use hashcodecs_rs.Base64.Decode.Entries.{IsTable}
use hashcodecs_rs.Base64.Decode.Loops.{Follows, Follows-along, body-Follows}
use hashcodecs_rs.Base64.Unpadded.{
  any_invalid, validate_alphabet, decode_unpadded_tail_validated_ptr,
  decode_standard_validated_to_ptr,
}
use hashcodecs_rs.Base64.Unpadded.Laws.{
  alphabet-IsTable, tail_bytes, unpadded_len, rest_spec, decode_unpadded-split, tail-Follows,
}
use hashcodecs_rs.Base64.Unpadded.Blocks.{
  Symbols, tail_two_same, tail_three_same, body_validated, body_same,
}

-- The verdict of a validation, of what the specification decodes.
abbrev pub verdict : Option (List ℕ) → Result (Unit {0})
verdict none = bad invalid_input
verdict (some bytes) = good tt

pub any_invalid-decode_unpadded :
    (table input : List ℕ)
    → length input % 4 ≢ 1
    → (if any_invalid table input then bad invalid_input else good tt)
      ≡ verdict (decode_unpadded table input)
unfolding any_invalid decode_unpadded quad short
any_invalid-decode_unpadded table [] m = refl
any_invalid-decode_unpadded table (a ∷ []) m = absurd (m refl)
any_invalid-decode_unpadded table (a ∷ b ∷ []) m = ground arith
any_invalid-decode_unpadded table (a ∷ b ∷ c ∷ []) m = ground arith
any_invalid-decode_unpadded table (a ∷ b ∷ c ∷ d ∷ rest) m =
    ground (arith, any_invalid-decode_unpadded table rest)

-- For every alphabet and all bytes whose number does not leave 1 when it is divided by four,
-- validate_alphabet accepts the bytes exactly when RFC 4648 decodes them as text without padding,
-- and returns InvalidInput otherwise.
pub validate_alphabet-decode_unpadded :
    (alphabet : DecodeAlphabet) (input : List ℕ)
    → length input % 4 ≢ 1
    → validate_alphabet input alphabet ≡ verdict (decode_unpadded (table_of alphabet) input)
unfolding validate_alphabet
validate_alphabet-decode_unpadded alphabet input m = elim (Bool-cases (ltb (length input) 16)) [
  | inl s ↦ rw (validate_alphabet, s) (any_invalid-decode_unpadded (table_of alphabet) input m)
  | inr s ↦ rw (validate_alphabet, s) (any_invalid-decode_unpadded (table_of alphabet) input m)
]

valid-Symbols :
    (table : List ℕ)
    → IsTable table
    → (input : List ℕ) → All IsByte input
    → any_invalid table input ≡ false
    → Symbols table input
unfolding any_invalid
valid-Symbols table t [] h e = tt
valid-Symbols table t (c ∷ input) (hc, h) e =
    (ground (arith, t.entry c hc), valid-Symbols table t input h (ground arith))

-- A result behind an action.
Follows-pure :
    {A : Type 0} (k n : ℕ) (mem : Memory) (o : Option (List ℕ)) (m : Write (Unit {0})) (a : A)
    → Follows k n mem o tt (m mem)
    → Follows k n mem o a ((m >> pure a) mem)
Follows-pure k n mem none m a (junk, e, l) = rw (e, ◌>>◌, ◌>>=◌) (junk, refl, l)
Follows-pure k n mem (some bytes) m a e = rw (e, ◌>>◌, ◌>>=◌) refl

-- The end of `decode_standard_validated_to_ptr`.
abbrev finish : List ℕ → ℕ → Write ℕ
finish tail destination =
    if length tail == 0
    then pure destination
    else (decode_unpadded_tail_validated_ptr tail destination standard_decode
        >> pure (destination + (length tail - length tail / 2)))

standard-IsTable : IsTable standard_decode
unfolding table_of
standard-IsTable = alphabet-IsTable standard

finish-Follows :
    (tail : List ℕ) (k : ℕ) (mem : Memory)
    → All IsByte tail
    → Symbols standard_decode tail
    → length tail < 4
    → length tail ≢ 1
    → k + tail_bytes (length tail) ≤ length mem
    → Follows k
        (tail_bytes (length tail))
        mem
        (rest_spec standard_decode tail)
        (k + tail_bytes (length tail))
        (finish tail k mem)
finish-Follows [] k mem h s l m fits =
    ap₂ (λ i j. ok i j) (sym (add-zero k)) (sym (stored-nil k mem (omega arith)))
finish-Follows (a ∷ []) k mem h s l m fits = absurd (m refl)
finish-Follows (a ∷ b ∷ []) k mem h s l m fits =
    Follows-pure k 1 mem (short standard_decode (a ∷ b ∷ []))
      (decode_unpadded_tail_validated_ptr (a ∷ b ∷ []) k standard_decode) (k + 1)
      (Follows-along k mem tt refl refl (tail_two_same standard_decode a b k mem s)
        (tail-Follows standard_decode standard-IsTable (a ∷ b ∷ []) k mem h l m fits))
finish-Follows (a ∷ b ∷ c ∷ []) k mem h s l m fits =
    Follows-pure k 2 mem (short standard_decode (a ∷ b ∷ c ∷ []))
      (decode_unpadded_tail_validated_ptr (a ∷ b ∷ c ∷ []) k standard_decode) (k + 2)
      (Follows-along k mem tt refl refl (tail_three_same standard_decode a b c k mem s)
        (tail-Follows standard_decode standard-IsTable (a ∷ b ∷ c ∷ []) k mem h l m fits))
finish-Follows (a ∷ b ∷ c ∷ d ∷ rest) k mem h s l m fits = absurd (omega arith)

validated_body :
    (input : List ℕ) (n : ℕ) (o : Option (List ℕ)) (a : ℕ) (mem : Memory)
    → body_validated standard_decode standard-IsTable
        (finish (drop (length input / 4 * 4) input))
        a
        n
        o
        (take (length input / 4 * 4) input)
        0
        mem
      ≡ decode_standard_validated_to_ptr input mem
unfolding decode_standard_validated_to_ptr
validated_body input n o a mem = elim (Bool-cases (ltb (length input / 4 * 4) 16)) [
  | inl s ↦ rw s refl
  | inr s ↦ rw s refl
]

module _ (input : List ℕ) (mem : Memory) (h : All IsByte input) (m : length input % 4 ≢ 1)
    (fits : unpadded_len input ≤ length mem) where
  validated-Follows :
      Symbols standard_decode input
      → Follows 0
          (unpadded_len input)
          mem
          (decode_unpadded standard_decode input)
          (unpadded_len input)
          (decode_standard_validated_to_ptr input mem)
  validated-Follows s =
      let p = length input / 4 * 4 in
      let front = take p input in
      let tail = drop p input in
      let n : length front ≡ p = omega (arith, length-take p input) in
      let r : length tail ≡ length input % 4 = omega (arith, length-drop p input) in
      let b : tail_bytes (length tail) ≡ tail_bytes (length input % 4) = ap tail_bytes r in
      let j = length front / 4 * 3 in
      let total : j + tail_bytes (length tail) ≡ unpadded_len input = omega arith in
      let o = rest_spec standard_decode tail in
      let sf = All-take (λ c. at standard_decode c < 64) p input s in
      subst
        (λ a.
          Follows 0 a mem (decode_unpadded standard_decode input) a
            (decode_standard_validated_to_ptr input mem))
        total
        (Follows-along 0 mem (j + tail_bytes (length tail)) refl
          (sym (decode_unpadded-split standard_decode input))
          (body_same standard_decode standard-IsTable (finish tail) (j + tail_bytes (length tail))
              (tail_bytes (length tail)) o front 0 mem sf
            ∙ validated_body input (tail_bytes (length tail)) o (j + tail_bytes (length tail)) mem)
          (body-Follows standard_decode standard-IsTable (finish tail)
            (j + tail_bytes (length tail)) (tail_bytes (length tail)) o front 0 j mem
            (All-take IsByte p input h) (omega arith) (omega arith) (omega arith)
            (λ mem' l.
              finish-Follows tail j mem' (All-drop IsByte p input h)
                (All-drop (λ c. at standard_decode c < 64) p input s) (omega arith) (omega arith)
                (omega arith))))

  -- For all bytes whose number does not leave 1 when it is divided by four, and an output with
  -- room for the decoded bytes, if validate_alphabet accepts the bytes in the standard alphabet,
  -- then decode_standard_validated_to_ptr, which checks no symbol, stores what RFC 4648 decodes
  -- them to, keeps the cells behind, and returns the number of bytes.
  pub decode_standard_validated_to_ptr-decode_unpadded :
      validate_alphabet input standard ≡ good tt
      → (bytes : List ℕ) × (decode_unpadded standard_decode input ≡ some bytes)
        × (decode_standard_validated_to_ptr input mem
            ≡ ok (unpadded_len input) (stored 0 bytes mem))
  unfolding table_of
  decode_standard_validated_to_ptr-decode_unpadded v =
      let e = sym (validate_alphabet-decode_unpadded standard input m) ∙ v in
      let i = sym (any_invalid-decode_unpadded standard_decode input m) in
      let s : any_invalid standard_decode input ≡ false = ground (arith, i, e) in
      conclude (decode_unpadded standard_decode input) e
        (validated-Follows (valid-Symbols standard_decode standard-IsTable input h s))
    where
      conclude :
          (o : Option (List ℕ))
          → verdict o ≡ good tt
          → Follows 0
              (unpadded_len input)
              mem
              o
              (unpadded_len input)
              (decode_standard_validated_to_ptr input mem)
          → (bytes : List ℕ) × (o ≡ some bytes)
            × (decode_standard_validated_to_ptr input mem
                ≡ ok (unpadded_len input) (stored 0 bytes mem))
      conclude none e f = absurd (ground arith)
      conclude (some bytes) e f = (bytes, refl, f)
