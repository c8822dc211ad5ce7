-- ===== src/Bindings/Lenient.antt =====
-- src/bindings/base64/lenient.rs: decoding that discards foreign bytes. The kernels are the scalar
-- ones, with which `decode_valid_prefix` is `None`; `WRITE` is true, as in every call of the code.
pub mod Machine
pub mod Runs
pub mod Rounds
pub mod Tables
pub mod Steps
pub mod Whole
use hashcodecs_rs.Common.{
  ℕ, zero, suc, ◌+◌, ◌-◌, ◌*◌, ◌/◌, ◌%◌, Option, none, some, Bool, true, false, ◌&&◌, ◌||◌, not,
  List, [], ◌∷◌, ltb, leb, ◌==◌, if◌then◌else◌, length, drop, take, set, replicate,
}
use hashcodecs_rs.Word.{bit_or, shl8, ◌>>>◌}
use hashcodecs_rs.Base64.Alphabet.{DecodeAlphabet, standard, mixed, standard_alphabet}
use hashcodecs_rs.Base64.Alphabet.Tables.{at}
use hashcodecs_rs.Base64.Output.{
  Memory, Outcome, ok, err, fault, Write, ◌>>=◌, ◌>>◌, pure, panic, write,
}
use hashcodecs_rs.Base64.Decode.{byte0, byte1, byte2, try}
use hashcodecs_rs.Base64.Unpadded.{decode_unpadded_layout, decode_to_ptr_with_unpadded_layout}
use hashcodecs_rs.Bindings.Scan.{symbol_prefix}
use hashcodecs_rs.Bindings.Translation
use hashcodecs_rs.Bindings.Staging
use hashcodecs_rs.Bindings.Staging.{on_suffix, push_symbols, finish}

pub data LenientDecodeError : Type 0 where
  invalid_input output_too_small : LenientDecodeError

-- The `Result` of the lenient decoders.
pub data Lenient (A : Type 0) : Type 0 where
  done : A → Lenient A
  failed : LenientDecodeError → Lenient A

-- `while value < 64`, with `n` rounds left.
unfoldable pub symbols_from : ℕ → ℕ → List ℕ → List ℕ
symbols_from zero value table = table
symbols_from (suc n) value table =
    symbols_from n (value + 1) (set table (at standard_alphabet value) value)

unfoldable pub standard_lenient_table : List ℕ
unfolding symbols_from
standard_lenient_table = symbols_from 64 0 (replicate 256 64)

unfoldable pub mixed_lenient_table : List ℕ
unfolding standard_lenient_table
mixed_lenient_table = set (set standard_lenient_table b'-' 62) b'_' 63

unfoldable pub lenient_decode_table : Option (ℕ × ℕ) → List ℕ
unfolding standard_lenient_table
lenient_decode_table none = standard_lenient_table
lenient_decode_table (some (plus, slash)) = set (set standard_lenient_table plus 62) slash 63

unfoldable pub fast_alphabet : Option (ℕ × ℕ) → Option DecodeAlphabet
fast_alphabet none = some standard
fast_alphabet (some (plus, slash)) = if (plus == b'-') && (slash == b'_') then some mixed else none

-- `expect`
abbrev pub expected : {A : Type 0} → Outcome A → Outcome A
expected (ok a mem) = ok a mem
expected (err e mem) = fault
expected fault = fault

pub record LenientState : Type 0 where
  pub written : ℕ
  pub quad_pos : ℕ
  pub leftchar : ℕ
  pub pads : ℕ

-- A statement goes on, or returns.
pub data Flow (A : Type 0) : Type 0 where
  proceed : A → Flow A
  leave : Lenient ℕ → Flow A

module _ (provided : ℕ) (table : List ℕ) (altchars : Option (ℕ × ℕ))
    (padded continue_after_padding : Bool) where
  -- What follows the outer loop.
  unfoldable pub at_end : LenientState → Lenient ℕ
  at_end s =
      if (s.quad_pos == 1) || (padded && (not (s.quad_pos == 0) && ltb (s.quad_pos + s.pads) 4))
      then failed invalid_input
      else done s.written

  -- The loop over discarded bytes in front of a quantum: the rest, and `pads`.
  unfoldable pub skip_discarded : List ℕ → ℕ → List ℕ × ℕ
  skip_discarded [] pads = ([], pads)
  skip_discarded (byte ∷ rest) pads =
      let more = skip_discarded rest (if padded && (byte == b'=') then suc pads else pads) in
      if leb 64 (at table byte) then more else (byte ∷ rest, pads)

  unfoldable pub decode_run : ℕ → List ℕ → Write (Unit {0})
  decode_run written symbols = elim (fast_alphabet altchars) [
    | some alphabet ↦ on_suffix written (λ mem. expected (
        (try (decode_unpadded_layout symbols) >>= λ layout.
        decode_to_ptr_with_unpadded_layout symbols layout alphabet)
          mem))
    | none ↦
        on_suffix written (λ mem. expected (
          (push_symbols false (Staging.new (Translation.new table altchars)) symbols >>= λ w.
          finish false w)
            mem))
        >>= λ staged. pure tt
  ]

  -- The loop over whole quanta: `written`, and the rest.
  unfoldable pub decode_quartets : ℕ → List ℕ → Write (Flow (ℕ × List ℕ))
  decode_quartets written (a ∷ b ∷ c ∷ d ∷ rest) =
      let first = at table a in
      let second = at table b in
      let third = at table c in
      let fourth = at table d in
      if leb 64 (bit_or (bit_or (bit_or first second) third) fourth)
      then pure (proceed (written, a ∷ b ∷ c ∷ d ∷ rest))
      else if ltb (provided - written) 3
      then pure (leave (failed output_too_small))
      else (write written (byte0 first second ∷ byte1 second third ∷ byte2 third fourth ∷ [])
          >> decode_quartets (written + 3) rest)
  decode_quartets written rest = pure (proceed (written, rest))

  -- One byte out, and the next place in the quantum.
  unfoldable pub emit : LenientState → ℕ → ℕ → ℕ → Write (Flow LenientState)
  emit s byte quad_pos leftchar =
      if s.written == provided
      then pure (leave (failed output_too_small))
      else (write s.written (byte ∷ [])
          >> pure (
              proceed (record {
                written = s.written + 1;
                quad_pos = quad_pos;
                leftchar = leftchar;
                pads = 0;
              })))

  -- `match quad_pos`
  unfoldable pub place : LenientState → ℕ → Write (Flow LenientState)
  unfolding emit
  place s value =
      if s.quad_pos == 0
      then pure (proceed (record { written = s.written; quad_pos = 1; leftchar = value; pads = 0 }))
      else if s.quad_pos == 1
      then emit s (bit_or (shl8 s.leftchar 2) (value >>> 4)) 2 (value % 16)
      else if s.quad_pos == 2
      then emit s (bit_or (shl8 s.leftchar 4) (value >>> 2)) 3 (value % 4)
      else if s.quad_pos == 3
      then emit s (bit_or (shl8 s.leftchar 6) value) 0 0
      else panic

  -- The statements on one byte.
  unfoldable pub step_byte : LenientState → ℕ → Write (Flow LenientState)
  unfolding place
  step_byte s byte =
      let value = at table byte in
      if padded && ((byte == b'=') && leb 64 (at table b'='))
      then if not continue_after_padding && (leb 2 s.quad_pos && leb 4 (s.quad_pos + suc s.pads))
        then pure (leave (done s.written))
        else pure (proceed (record s { pads = suc s.pads }))
      else if leb 64 value
      then pure (proceed s)
      else place s value

  module _ (again : LenientState → List ℕ → Write (Lenient ℕ)) where
    abbrev pub on_flow : {A : Type 0} → (A → Write (Lenient ℕ)) → Flow A → Write (Lenient ℕ)
    on_flow next (leave result) = pure result
    on_flow next (proceed a) = next a

    -- The last part of a round, from the loop over whole quanta on.
    unfoldable pub next_byte : LenientState → List ℕ → Write (Lenient ℕ)
    unfolding at_end step_byte
    next_byte s [] = pure (at_end s)
    next_byte s (byte ∷ rest) = step_byte s byte >>= on_flow (λ s'. again s' rest)

    unfoldable pub slow_part : LenientState → List ℕ → Write (Lenient ℕ)
    unfolding next_byte decode_quartets
    slow_part s input =
        if s.quad_pos == 0
        then (decode_quartets s.written input
            >>= on_flow (λ p. next_byte (record s { written = p.0 }) p.1))
        else next_byte s input

    -- A round in front of a quantum, the discarded bytes skipped.
    unfoldable pub run_part : LenientState → List ℕ → Write (Lenient ℕ)
    unfolding slow_part decode_run at_end
    run_part s [] = pure (at_end s)
    run_part s (byte ∷ rest) =
        let input = byte ∷ rest in
        let run = symbol_prefix input altchars / 4 * 4 in
        let decoded = run / 4 * 3 in
        if leb 16 run
        then if ltb (provided - s.written) decoded
          then pure (failed output_too_small)
          else (decode_run s.written (take run input)
              >> again (record s { written = s.written + decoded; pads = 0 }) (drop run input))
        else slow_part s input

    unfoldable pub round : LenientState → List ℕ → Write (Lenient ℕ)
    unfolding run_part skip_discarded
    round s [] = pure (at_end s)
    round s (byte ∷ rest) =
        let skipped = skip_discarded (byte ∷ rest) s.pads in
        if s.quad_pos == 0
        then run_part (record s { pads = skipped.1 }) skipped.0
        else slow_part s (byte ∷ rest)

  -- `while source < input.len()`: each round takes a byte at least, or ends.
  unfoldable pub lenient_rounds : ℕ → LenientState → List ℕ → Write (Lenient ℕ)
  unfolding round
  lenient_rounds zero s input = panic
  lenient_rounds (suc fuel) s input = round (lenient_rounds fuel) s input

unfoldable pub decode_lenient_to_ptr :
    List ℕ
    → ℕ
    → List ℕ
    → Option (ℕ × ℕ)
    → (padded continue_after_padding : Bool) → Write (Lenient ℕ)
unfolding lenient_rounds
decode_lenient_to_ptr input provided table altchars padded continue_after_padding =
    lenient_rounds provided table altchars padded continue_after_padding (suc (length input))
      (record { written = 0; quad_pos = 0; leftchar = 0; pads = 0 }) input
