-- ===== src/Base64/Encode.antt =====
-- base64/encode/api.rs: output length, scalar encoder, and the encoding entry points of the build
-- that has no vector kernel (base64/runtime_dispatch.rs then selects no bytes).
pub mod Scalar
pub mod Api
use hashcodecs_rs.Common.{
  ℕ, ◌+◌, ◌*◌, ◌/◌, ◌%◌, ◌^◌, Option, none, some, Bool, true, false, List, [], ◌∷◌, ltb, ◌==◌,
  if◌then◌else◌, length, drop,
}
use hashcodecs_rs.Word.{bit_and, bit_or, shl32, ◌>>>◌}
use hashcodecs_rs.Base64.Alphabet.{standard_alphabet, urlsafe_alphabet}
use hashcodecs_rs.Base64.Alphabet.Tables.{at}
use hashcodecs_rs.Base64.Output.{
  Outcome, ok, err, fault, Write, ◌>>=◌, ◌>>◌, pure, fail, panic, or_fault, write, len, on_prefix,
  allocate_uninitialized_output, assume_output_initialized, Base64Error, output_too_small,
}

-- A `usize` is below this bound.
abbrev pub usize_mod : ℕ
usize_mod = 2 ^ 64

unfoldable pub checked_mul : ℕ → ℕ → Option ℕ
checked_mul a b = if ltb (a * b) usize_mod then some (a * b) else none

unfoldable pub div_ceil : ℕ → ℕ → ℕ
div_ceil a b = if a % b == 0 then a / b else a / b + 1

unfoldable pub b64encoded_len : ℕ → Option ℕ
unfolding checked_mul div_ceil
b64encoded_len input_len = checked_mul (div_ceil input_len 3) 4

-- `expect`: `none` is a panic.
unfoldable pub encoded_len : ℕ → Option ℕ
unfolding b64encoded_len
encoded_len input_len = b64encoded_len input_len

-- Three bytes as one `u32`, the first byte highest.
unfoldable pub block24 : ℕ → ℕ → ℕ → ℕ
block24 a b c = bit_or (bit_or (shl32 a 16) (shl32 b 8)) c

-- `alphabet[((block >> k) & 0x3f) as usize]`; the mask keeps the index inside the 64 entries.
unfoldable pub symbol : List ℕ → ℕ → ℕ → ℕ
symbol alphabet block k = at alphabet (bit_and (block >>> k) 0x3f)

unfoldable pub quantum : List ℕ → ℕ → List ℕ
unfolding symbol
quantum alphabet block =
    symbol alphabet block 18
    ∷ symbol alphabet block 12
    ∷ symbol alphabet block 6
    ∷ symbol alphabet block 0
    ∷ []

-- The input behind `source`, and `destination`.
abbrev pub Cursor : Type 0
Cursor = List ℕ × ℕ

-- `while source + 6 <= input_len`: two quanta, one store of eight bytes.
unfoldable pub encode_sixes : List ℕ → List ℕ → ℕ → Write Cursor
encode_sixes alphabet (a ∷ b ∷ c ∷ d ∷ e ∷ f ∷ rest) destination = do
  let first = block24 a b c
  let second = block24 d e f
  write destination (
      symbol alphabet first 18
      ∷ symbol alphabet first 12
      ∷ symbol alphabet first 6
      ∷ symbol alphabet first 0
      ∷ symbol alphabet second 18
      ∷ symbol alphabet second 12
      ∷ symbol alphabet second 6
      ∷ symbol alphabet second 0
      ∷ [])
  encode_sixes alphabet rest (destination + 8)
encode_sixes alphabet rest destination = pure (rest, destination)

-- `while source + 3 <= input_len`
unfoldable pub encode_threes : List ℕ → List ℕ → ℕ → Write Cursor
encode_threes alphabet (a ∷ b ∷ c ∷ rest) destination = do
  write destination (quantum alphabet (block24 a b c))
  encode_threes alphabet rest (destination + 4)
encode_threes alphabet rest destination = pure (rest, destination)

-- `remaining == 1` and `remaining == 2`
unfoldable pub encode_tail : List ℕ → List ℕ → ℕ → Write (Unit {0})
encode_tail alphabet (a ∷ []) destination =
    let block = shl32 a 16 in
    write destination (symbol alphabet block 18 ∷ symbol alphabet block 12 ∷ b'=' ∷ b'=' ∷ [])
encode_tail alphabet (a ∷ b ∷ []) destination =
    let block = bit_or (shl32 a 16) (shl32 b 8) in
    write destination
      (symbol alphabet block 18 ∷ symbol alphabet block 12 ∷ symbol alphabet block 6 ∷ b'=' ∷ [])
encode_tail alphabet rest destination = pure tt

-- `output` is the cell that the output pointer stands at.
unfoldable pub encode_scalar_ptr_with_alphabet : List ℕ → ℕ → List ℕ → Write (Unit {0})
encode_scalar_ptr_with_alphabet input output alphabet = do
  (rest, destination) ← encode_sixes alphabet input output
  (rest', destination') ← encode_threes alphabet rest destination
  encode_tail alphabet rest' destination'

unfoldable pub alphabet_of : Bool → List ℕ
alphabet_of urlsafe = if urlsafe then urlsafe_alphabet else standard_alphabet

unfoldable pub encode_scalar_ptr : List ℕ → ℕ → Bool → Write (Unit {0})
encode_scalar_ptr input output urlsafe =
    encode_scalar_ptr_with_alphabet input output (alphabet_of urlsafe)

-- Without a kernel no input is consumed: `encode_with_backend_ptr` returns 0.
unfoldable pub encode_with_runtime_backend : List ℕ → Bool → Bool → Write ℕ
encode_with_runtime_backend input urlsafe allow_streaming_stores = pure 0

unfoldable pub encode_to_ptr : List ℕ → Bool → Write (Unit {0})
unfolding encode_with_runtime_backend
encode_to_ptr input urlsafe =
    if ltb (length input) 16 then encode_scalar_ptr input 0 urlsafe else do
      input_offset ← encode_with_runtime_backend input urlsafe true
      encode_scalar_ptr (drop input_offset input) (input_offset / 3 * 4) urlsafe

unfoldable pub encode_to_ptr_cached : List ℕ → Bool → Write (Unit {0})
unfolding encode_with_runtime_backend
encode_to_ptr_cached input urlsafe =
    if ltb (length input) 16 then encode_scalar_ptr input 0 urlsafe else do
      input_offset ← encode_with_runtime_backend input urlsafe false
      encode_scalar_ptr (drop input_offset input) (input_offset / 3 * 4) urlsafe

-- The assertion compares the length of the slice with the exact encoded length.
unfoldable pub encode_to_slice : List ℕ → Bool → Write (Unit {0})
encode_to_slice input urlsafe = do
  provided ← len
  required ← or_fault (encoded_len (length input))
  if provided == required then encode_to_ptr input urlsafe else panic

unfoldable pub b64encode_into_with_alphabet : List ℕ → Bool → Write ℕ
b64encode_into_with_alphabet input urlsafe = do
  required ← or_fault (encoded_len (length input))
  provided ← len
  if ltb provided required
      then fail (output_too_small required provided)
      else do on_prefix required (encode_to_slice input urlsafe); pure required

unfoldable pub b64encode_into : List ℕ → Write ℕ
b64encode_into input = b64encode_into_with_alphabet input false

unfoldable pub b64encode_urlsafe_into : List ℕ → Write ℕ
b64encode_urlsafe_into input = b64encode_into_with_alphabet input true

-- The vector that an encoder without errors leaves; `none` is a panic or undefined behaviour.
unfoldable pub finished : ℕ → Outcome (Unit {0}) → Option (List ℕ)
finished output_len (ok _ mem) = assume_output_initialized mem output_len
finished output_len (err e mem) = none
finished output_len fault = none

-- The `String` is its bytes.
unfoldable pub b64encode_with_alphabet : List ℕ → Bool → Option (List ℕ)
b64encode_with_alphabet input urlsafe = elim (encoded_len (length input)) [
  | none ↦ none
  | some output_len ↦ elim (allocate_uninitialized_output output_len) [
    | none ↦ none
    | some mem ↦ finished output_len (encode_to_ptr input urlsafe mem)
  ]
]

unfoldable pub b64encode : List ℕ → Option (List ℕ)
b64encode input = b64encode_with_alphabet input false

unfoldable pub b64encode_urlsafe : List ℕ → Option (List ℕ)
b64encode_urlsafe input = b64encode_with_alphabet input true
