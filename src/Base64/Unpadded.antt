-- ===== src/Base64/Unpadded.antt =====
-- base64/decode/api.rs: text without padding, and decoders of text that was validated before.
pub mod Laws
pub mod Blocks
pub mod Validated
use hashcodecs_rs.Common.{
  ℕ, ◌+◌, ◌-◌, ◌*◌, ◌/◌, ◌%◌, Option, none, some, Bool, true, false, List, [], ◌∷◌, ltb, ◌==◌,
  if◌then◌else◌, length, drop, take, ◌||◌,
}
use hashcodecs_rs.Common
use hashcodecs_rs.Base64.Alphabet.{
  DecodeAlphabet, standard, standard_decode, table_of, invalid_value,
}
use hashcodecs_rs.Base64.Alphabet.Tables.{at}
use hashcodecs_rs.Base64.Output.{Write, ◌>>=◌, ◌>>◌, pure, panic, write, invalid_input}
use hashcodecs_rs.Base64.Encode.{checked_mul, Cursor}
use hashcodecs_rs.Base64.Decode.{
  ErrorWritePolicy, partial, validated_blocks_only, DecodeLayout, Result, good, bad, byte0, byte1,
  byte2, index, checked_add, checked_slices, decode_to_ptr_with_layout_mode,
  decode_unpadded_tail_ptr,
}

-- `match tail`
unfoldable pub tail_len : ℕ → Option ℕ
tail_len tail =
    if tail == 0 then some 0 else if tail == 2 then some 1 else if tail == 3 then some 2 else none

unfoldable pub decode_unpadded_layout : List ℕ → Result DecodeLayout
unfolding tail_len checked_mul checked_add
decode_unpadded_layout input = elim (tail_len (length input % 4)) [
  | none ↦ bad invalid_input
  | some tail ↦ elim (Common.◌>>=◌ (checked_mul (length input / 4) 3) (λ n. checked_add n tail)) [
    | none ↦ bad invalid_input
    | some output_len ↦
        good (record { input_len = length input; padding = 0; output_len = output_len })
  ]
]

unfoldable pub decode_to_ptr_with_unpadded_layout_mode :
    List ℕ → DecodeLayout → DecodeAlphabet → ErrorWritePolicy → Write (Unit {0})
decode_to_ptr_with_unpadded_layout_mode input layout alphabet policy = do
  let prefix_len = length input / 4 * 4
  let prefix_layout : DecodeLayout = record {
    input_len = prefix_len;
    padding = 0;
    output_len = prefix_len / 4 * 3;
  }
  decode_to_ptr_with_layout_mode (take prefix_len input) prefix_layout alphabet false policy
  let tail = drop prefix_len input
  if length tail == 0
      then pure tt
      else decode_unpadded_tail_ptr tail (prefix_len / 4 * 3) (table_of alphabet)

unfoldable pub decode_to_ptr_with_unpadded_layout :
    List ℕ → DecodeLayout → DecodeAlphabet → Write (Unit {0})
decode_to_ptr_with_unpadded_layout input layout alphabet =
    decode_to_ptr_with_unpadded_layout_mode input layout alphabet partial

unfoldable pub decode_to_slice_with_unpadded_layout_and_alphabet :
    List ℕ → DecodeLayout → DecodeAlphabet → Write (Unit {0})
decode_to_slice_with_unpadded_layout_and_alphabet input layout alphabet =
    checked_slices input layout
      (decode_to_ptr_with_unpadded_layout_mode input layout alphabet partial)

unfoldable pub decode_to_slice_with_unpadded_layout_and_alphabet_validated_blocks :
    List ℕ → DecodeLayout → DecodeAlphabet → Write (Unit {0})
decode_to_slice_with_unpadded_layout_and_alphabet_validated_blocks input layout alphabet =
    checked_slices input layout
      (decode_to_ptr_with_unpadded_layout_mode input layout alphabet validated_blocks_only)

unfoldable pub decode_to_slice_with_layout_and_alphabet_validated_blocks :
    List ℕ → DecodeLayout → DecodeAlphabet → Write (Unit {0})
decode_to_slice_with_layout_and_alphabet_validated_blocks input layout alphabet =
    checked_slices input layout
      (decode_to_ptr_with_layout_mode input layout alphabet false validated_blocks_only)

-- Without a kernel nothing is validated: `validate_with_backend_inner` returns `Ok(0)`.
unfoldable pub validate_with_runtime_backend : List ℕ → DecodeAlphabet → Result ℕ
validate_with_runtime_backend input alphabet = good 0

-- `iter().any(…)`
unfoldable pub any_invalid : List ℕ → List ℕ → Bool
any_invalid table [] = false
any_invalid table (byte ∷ rest) = (at table byte == invalid_value) || any_invalid table rest

unfoldable pub validate_alphabet : List ℕ → DecodeAlphabet → Result (Unit {0})
unfolding validate_with_runtime_backend any_invalid
validate_alphabet input alphabet =
    elim (if ltb (length input) 16 then good 0 else validate_with_runtime_backend input alphabet) [
      | bad e ↦ bad e
      | good source ↦
          if any_invalid (table_of alphabet) (drop source input) then bad invalid_input else good tt
    ]

unfoldable pub decode_quad_validated_ptr : (a b c d : ℕ) → ℕ → List ℕ → Write (Unit {0})
decode_quad_validated_ptr a b c d output table = do
  let first = at table a
  let second = at table b
  let third = at table c
  let fourth = at table d
  write output (byte0 first second ∷ [])
  write (output + 1) (byte1 second third ∷ [])
  write (output + 2) (byte2 third fourth ∷ [])

unfoldable pub decode_eight_validated_ptr : (a b c d e f g h : ℕ) → ℕ → List ℕ → Write (Unit {0})
decode_eight_validated_ptr a b c d e f g h output table =
    let first = at table a in
    let second = at table b in
    let third = at table c in
    let fourth = at table d in
    let fifth = at table e in
    let sixth = at table f in
    let seventh = at table g in
    let eighth = at table h in
    write output (
      byte0 first second
      ∷ byte1 second third
      ∷ byte2 third fourth
      ∷ byte0 fifth sixth
      ∷ byte1 sixth seventh
      ∷ byte2 seventh eighth
      ∷ [])

unfoldable pub decode_unpadded_tail_validated_ptr : List ℕ → ℕ → List ℕ → Write (Unit {0})
unfolding index
decode_unpadded_tail_validated_ptr input output table = do
  a ← index input 0
  b ← index input 1
  write output (byte0 (at table a) (at table b) ∷ [])
  if length input == 3
      then (index input 2 >>= λ c. write (output + 1) (byte1 (at table b) (at table c) ∷ []))
      else pure tt

-- `while source + 8 <= prefix_len`
unfoldable pub decode_eights_validated : List ℕ → List ℕ → ℕ → Write Cursor
decode_eights_validated table (a ∷ b ∷ c ∷ d ∷ e ∷ f ∷ g ∷ h ∷ rest) destination = do
  decode_eight_validated_ptr a b c d e f g h destination table
  decode_eights_validated table rest (destination + 6)
decode_eights_validated table rest destination = pure (rest, destination)

-- `while source < prefix_len`; the slice of four symbols panics on a shorter rest.
unfoldable pub decode_fours_validated : List ℕ → List ℕ → ℕ → Write ℕ
decode_fours_validated table [] destination = pure destination
decode_fours_validated table (a ∷ b ∷ c ∷ d ∷ rest) destination = do
  decode_quad_validated_ptr a b c d destination table
  decode_fours_validated table rest (destination + 3)
decode_fours_validated table rest destination = panic

-- Without a kernel no input is consumed.
unfoldable pub decode_standard_validated_with_runtime_backend : List ℕ → Write (ℕ × ℕ)
decode_standard_validated_with_runtime_backend input = pure (0, 0)

unfoldable pub decode_standard_validated_to_ptr : List ℕ → Write ℕ
unfolding decode_standard_validated_with_runtime_backend
decode_standard_validated_to_ptr input = do
  let prefix_len = length input / 4 * 4
  (source, destination) ←
      if ltb prefix_len 16
      then pure (0, 0)
      else decode_standard_validated_with_runtime_backend (take prefix_len input)
  (rest, destination') ←
      decode_eights_validated standard_decode (drop source (take prefix_len input)) destination
  destination'' ← decode_fours_validated standard_decode rest destination'
  let tail = drop prefix_len input
  if length tail == 0
      then pure destination''
      else (decode_unpadded_tail_validated_ptr tail destination'' standard_decode
          >> pure (destination'' + (length tail - length tail / 2)))
