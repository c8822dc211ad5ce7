-- ===== src/Base64/Decode.antt =====
-- base64/decode/api.rs: layout, scalar decoder, and the decoding entry points of the build that has
-- no vector kernel (base64/runtime_dispatch.rs then selects no bytes).
pub mod Entries
pub mod Blocks
pub mod Loops
pub mod Padding
pub mod Mode
pub mod Layout
pub mod Api
pub mod Length
pub mod Size
pub mod Into
use mathlib.Core.Option
use hashcodecs_rs.Common.{
  ℕ, ◌+◌, ◌-◌, ◌*◌, ◌/◌, ◌%◌, ◌^◌, Option, none, some, Bool, true, false, ◌&&◌, List, [], ◌∷◌, ltb,
  leb, ◌==◌, if◌then◌else◌, length, drop, take, get_elem?,
}
use hashcodecs_rs.Word.{bit_and, bit_or, shl8, ◌>>>◌}
use hashcodecs_rs.Base64.Alphabet.{
  DecodeAlphabet, standard, url_safe, table_of, invalid_value, decode_store_padding,
}
use hashcodecs_rs.Base64.Alphabet.Tables.{at}
use hashcodecs_rs.Base64.Output.{
  Outcome, ok, err, fault, Write, ◌>>=◌, ◌>>◌, pure, fail, panic, ok_or, or_fault, write, len,
  on_prefix, allocate_uninitialized_output, assume_output_initialized, Base64Error, invalid_input,
  output_too_small,
}
use hashcodecs_rs.Base64.Encode.{usize_mod, checked_mul, Cursor}

pub data ErrorWritePolicy : Type 0 where
  partial validated_blocks_only : ErrorWritePolicy

pub record DecodeLayout : Type 0 where
  pub input_len : ℕ
  pub padding : ℕ
  pub output_len : ℕ

-- The `Result` of code that writes nothing.
pub data Result {ℓ} (A : Type ℓ) : Type ℓ where
  good : A → Result A
  bad : Base64Error → Result A

-- `?` on such a result.
abbrev pub try : {A : Type 0} → Result A → Write A
try (good a) mem = ok a mem
try (bad e) mem = err e mem

unfoldable pub decode_value : ℕ → List ℕ → Option ℕ
decode_value byte table =
    let value = at table byte in if value == invalid_value then none else some value

-- `input[i]`
unfoldable pub index : List ℕ → ℕ → Write ℕ
index input i = or_fault (get_elem? input i)

-- `decode_value(input[i], table).ok_or(Base64Error::InvalidInput)?`
unfoldable pub symbol_value : List ℕ → ℕ → List ℕ → Write ℕ
unfolding decode_value index
symbol_value input i table = do byte ← index input i; ok_or (decode_value byte table) invalid_input

abbrev pub byte0 : ℕ → ℕ → ℕ
byte0 first second = bit_or (shl8 first 2) (second >>> 4)

abbrev pub byte1 : ℕ → ℕ → ℕ
byte1 second third = bit_or (shl8 second 4) (third >>> 2)

abbrev pub byte2 : ℕ → ℕ → ℕ
byte2 third fourth = bit_or (shl8 third 6) fourth

unfoldable pub decode_quad_ptr : List ℕ → ℕ → ℕ → List ℕ → Write (Unit {0})
decode_quad_ptr input output padding table = do
  first ← symbol_value input 0 table
  second ← symbol_value input 1 table
  third ← if padding == 2 then pure 0 else symbol_value input 2 table
  fourth ← if padding == 0 then symbol_value input 3 table else pure 0
  write output (byte0 first second ∷ [])
  if ltb padding 2 then write (output + 1) (byte1 second third ∷ []) else pure tt
  if padding == 0 then write (output + 2) (byte2 third fourth ∷ []) else pure tt

unfoldable pub decode_unpadded_tail_ptr : List ℕ → ℕ → List ℕ → Write (Unit {0})
decode_unpadded_tail_ptr input output table = do
  first ← symbol_value input 0 table
  second ← symbol_value input 1 table
  third ← if length input == 3 then symbol_value input 2 table else pure 0
  write output (byte0 first second ∷ [])
  if length input == 3 then write (output + 1) (byte1 second third ∷ []) else pure tt

-- Eight symbols with one test: no other value sets all eight bits.
unfoldable pub decode_eight_ptr : (a b c d e f g h : ℕ) → ℕ → List ℕ → Write (Unit {0})
decode_eight_ptr a b c d e f g h output table mem =
    let first = at table a in
    let second = at table b in
    let third = at table c in
    let fourth = at table d in
    let fifth = at table e in
    let sixth = at table f in
    let seventh = at table g in
    let eighth = at table h in
    let all =
      bit_or
        (bit_or (bit_or (bit_or (bit_or (bit_or (bit_or first second) third) fourth) fifth) sixth)
          seventh)
        eighth in
    if all == invalid_value
    then fail invalid_input mem
    else write output
        (byte0 first second
          ∷ byte1 second third
          ∷ byte2 third fourth
          ∷ byte0 fifth sixth
          ∷ byte1 sixth seventh
          ∷ byte2 seventh eighth
          ∷ [])
        mem

-- `while source + 8 <= simd_len`
unfoldable pub decode_eights : List ℕ → List ℕ → ℕ → Write Cursor
decode_eights table (a ∷ b ∷ c ∷ d ∷ e ∷ f ∷ g ∷ h ∷ rest) destination = do
  decode_eight_ptr a b c d e f g h destination table
  decode_eights table rest (destination + 6)
decode_eights table rest destination = pure (rest, destination)

-- `while source < simd_len`; the slice of four symbols panics on a shorter rest.
unfoldable pub decode_fours : List ℕ → List ℕ → ℕ → Write ℕ
decode_fours table [] destination = pure destination
decode_fours table (a ∷ b ∷ c ∷ d ∷ rest) destination = do
  decode_quad_ptr (a ∷ b ∷ c ∷ d ∷ []) destination 0 table
  decode_fours table rest (destination + 3)
decode_fours table rest destination = panic

-- Without a kernel no input is consumed: `decode_with_backend_ptr_mode` returns `Ok((0, 0))`.
unfoldable pub decode_with_runtime_backend :
    List ℕ → DecodeAlphabet → Bool → ErrorWritePolicy → Write (ℕ × ℕ)
decode_with_runtime_backend input alphabet slack policy = pure (0, 0)

unfoldable pub decode_to_ptr_with_layout_mode :
    List ℕ → DecodeLayout → DecodeAlphabet → Bool → ErrorWritePolicy → Write (Unit {0})
unfolding decode_with_runtime_backend
decode_to_ptr_with_layout_mode input layout alphabet slack policy = do
  let padding = layout.padding
  let simd_len = if padding == 0 then length input else length input - 4
  (input_offset, output_offset) ←
      if ltb simd_len 16
      then pure (0, 0)
      else decode_with_runtime_backend (take simd_len input) alphabet slack policy
  let table = table_of alphabet
  (rest, destination) ← decode_eights table (drop input_offset (take simd_len input)) output_offset
  destination' ← decode_fours table rest destination
  if padding == 0
      then pure tt
      else decode_quad_ptr (take 4 (drop simd_len input)) destination' padding table

-- `[.., b'=', b'=']` and `[.., b'=']`
unfoldable pub padding_of : List ℕ → ℕ
padding_of [] = 0
padding_of (a ∷ []) = if a == b'=' then 1 else 0
padding_of (a ∷ b ∷ []) = if b == b'=' then (if a == b'=' then 2 else 1) else 0
padding_of (a ∷ b ∷ c ∷ rest) = padding_of (b ∷ c ∷ rest)

unfoldable pub decode_layout : List ℕ → Result DecodeLayout
unfolding padding_of
decode_layout [] = good (record { input_len = 0; padding = 0; output_len = 0 })
decode_layout (a ∷ rest) =
    let input = a ∷ rest in
    if bit_and (length input) 3 == 0
    then good (record {
      input_len = length input;
      padding = padding_of input;
      output_len = length input / 4 * 3 - padding_of input;
    })
    else bad invalid_input

unfoldable pub decode_to_ptr_with_layout :
    List ℕ → DecodeLayout → DecodeAlphabet → Bool → Write (Unit {0})
decode_to_ptr_with_layout input layout alphabet slack =
    decode_to_ptr_with_layout_mode input layout alphabet slack partial

-- `assert_eq!` on both lengths
unfoldable pub checked_slices : List ℕ → DecodeLayout → Write (Unit {0}) → Write (Unit {0})
checked_slices input layout m = do
  output_len ← len
  if length input == layout.input_len && output_len == layout.output_len then m else panic

unfoldable pub decode_to_slice_with_layout_and_alphabet :
    List ℕ → DecodeLayout → DecodeAlphabet → Write (Unit {0})
unfolding checked_slices
decode_to_slice_with_layout_and_alphabet input layout alphabet =
    checked_slices input layout (decode_to_ptr_with_layout input layout alphabet false)

unfoldable pub decode_to_slice_with_layout : List ℕ → DecodeLayout → Bool → Write (Unit {0})
decode_to_slice_with_layout input layout urlsafe =
    decode_to_slice_with_layout_and_alphabet input layout (if urlsafe then url_safe else standard)

unfoldable pub b64decode_into_with_alphabet : List ℕ → Bool → Write ℕ
b64decode_into_with_alphabet input urlsafe = do
  layout ← try (decode_layout input)
  provided ← len
  if ltb provided layout.output_len then fail (output_too_small layout.output_len provided) else do
    on_prefix layout.output_len (decode_to_slice_with_layout input layout urlsafe)
    pure layout.output_len

unfoldable pub b64decode_into : List ℕ → Write ℕ
b64decode_into input = b64decode_into_with_alphabet input false

unfoldable pub b64decode_urlsafe_into : List ℕ → Write ℕ
b64decode_urlsafe_into input = b64decode_into_with_alphabet input true

-- `contains(&b'=')`
unfoldable pub has_padding : List ℕ → Bool
has_padding [] = false
has_padding (c ∷ rest) = if c == b'=' then true else has_padding rest

unfoldable pub b64decoded_len : List ℕ → Result ℕ
unfolding has_padding
b64decoded_len input = elim (decode_layout input) [
  | bad e ↦ bad e
  | good layout ↦
      if has_padding (take (length input - layout.padding) input)
      then bad invalid_input
      else good layout.output_len
]

-- The vector that a decoder leaves, its error, or `none` for a panic or undefined behaviour.
unfoldable pub decoded : ℕ → Outcome (Unit {0}) → Option (Result (List ℕ))
decoded output_len (ok _ mem) = Option.map good (assume_output_initialized mem output_len)
decoded output_len (err e mem) = some (bad e)
decoded output_len fault = none

-- `checked_add`
unfoldable pub checked_add : ℕ → ℕ → Option ℕ
checked_add a b = if ltb (a + b) usize_mod then some (a + b) else none

unfoldable pub allocation_len : ℕ → Bool → Option ℕ
unfolding checked_add
allocation_len output_len slack =
    if slack then checked_add output_len decode_store_padding else some output_len

unfoldable pub b64decode_with_alphabet : List ℕ → Bool → Option (Result (List ℕ))
b64decode_with_alphabet input urlsafe = elim (decode_layout input) [
  | bad e ↦ some (bad e)
  | good layout ↦
      let simd_len = length input - (if layout.padding == 0 then 0 else 1) * 4 in
      let slack = leb 16 simd_len in
      let alphabet = if urlsafe then url_safe else standard in
      if layout.output_len == 0
      then some (good [])
      else elim (allocation_len layout.output_len slack) [
        | none ↦ none
        | some size ↦ elim (allocate_uninitialized_output size) [
          | none ↦ none
          | some mem ↦
              decoded layout.output_len (decode_to_ptr_with_layout input layout alphabet slack mem)
        ]
      ]
]

unfoldable pub b64decode : List ℕ → Option (Result (List ℕ))
b64decode input = b64decode_with_alphabet input false

unfoldable pub b64decode_urlsafe : List ℕ → Option (Result (List ℕ))
b64decode_urlsafe input = b64decode_with_alphabet input true
