-- ===== src/Base64/Wrapped.antt =====
-- base64/encode/api.rs: alphabets of the caller, and encoding in lines of a fixed width, in the build
-- that has no vector kernel.
pub mod Lines
pub mod Whole
pub mod Encoding
use hashcodecs_rs.Common.{
  ℕ, ◌+◌, ◌-◌, ◌*◌, ◌/◌, ◌%◌, Option, none, some, Bool, true, false, ◌&&◌, List, [], ◌∷◌, ltb, leb,
  ◌==◌, if◌then◌else◌, length, drop, take, set, replicate,
}
use hashcodecs_rs.Base64.Alphabet.{standard_alphabet, urlsafe_alphabet}
use hashcodecs_rs.Base64.Output.{
  Memory, Outcome, ok, err, fault, Write, ◌>>=◌, ◌>>◌, pure, or_fault, write, initialized,
}
use hashcodecs_rs.Base64.Encode.{encoded_len, encode_scalar_ptr_with_alphabet, alphabet_of}

-- The offsets of the vector kernels are left out.
pub record CustomEncodeAlphabet : Type 0 where
  pub table : List ℕ
  pub has_standard_prefix : Bool

unfoldable pub same_bytes : List ℕ → List ℕ → Bool
same_bytes [] [] = true
same_bytes (a ∷ xs) (b ∷ ys) = (a == b) && same_bytes xs ys
same_bytes _ _ = false

unfoldable pub from_table : List ℕ → CustomEncodeAlphabet
unfolding same_bytes
from_table table = record {
  table = table;
  has_standard_prefix = same_bytes (take 62 table) (take 62 standard_alphabet);
}

unfoldable pub custom_alphabet : ℕ → ℕ → CustomEncodeAlphabet
unfolding from_table
custom_alphabet value62 value63 = from_table (set (set standard_alphabet 62 value62) 63 value63)

-- Without a kernel no input is consumed, whatever the prefix of the alphabet.
unfoldable pub encode_custom_with_runtime_backend : List ℕ → CustomEncodeAlphabet → Bool → Write ℕ
encode_custom_with_runtime_backend input alphabet allow_streaming_stores =
    if alphabet.has_standard_prefix then pure 0 else pure 0

unfoldable pub encode_to_ptr_with_custom_alphabet :
    List ℕ → CustomEncodeAlphabet → Bool → Write (Unit {0})
unfolding encode_custom_with_runtime_backend
encode_to_ptr_with_custom_alphabet input alphabet cached =
    if ltb (length input) 16 then encode_scalar_ptr_with_alphabet input 0 alphabet.table else do
      input_offset ←
          encode_custom_with_runtime_backend input alphabet (if cached then false else true)
      encode_scalar_ptr_with_alphabet (drop input_offset input) (input_offset / 3 * 4)
          alphabet.table

-- `output` is the cell that the pointer stands at.
pub record WrappedOutput : Type 0 where
  pub output : ℕ
  pub width : ℕ
  pub column : ℕ

unfoldable pub new : ℕ → ℕ → WrappedOutput
new output width = record { output = output; width = width; column = 0 }

unfoldable pub start_line : WrappedOutput → Write WrappedOutput
start_line self =
    if self.column == self.width
    then (write self.output (b'\n' ∷ [])
        >> pure (record self { output = self.output + 1; column = 0 }))
    else pure self

unfoldable pub write_quad_ptr : WrappedOutput → (a b c d : ℕ) → Write WrappedOutput
write_quad_ptr self a b c d = do
  self' ← start_line self
  write self'.output (a ∷ b ∷ c ∷ d ∷ [])
  pure (record self' { output = self'.output + 4; column = self'.column + 4 })

-- The loop of `write_bytes`: the quads, and what is left.
unfoldable pub write_quads : WrappedOutput → List ℕ → Write (WrappedOutput × List ℕ)
write_quads self (a ∷ b ∷ c ∷ d ∷ rest) = do
  self' ← write_quad_ptr self a b c d
  write_quads self' rest
write_quads self rest = pure (self, rest)

unfoldable pub write_bytes : WrappedOutput → List ℕ → Write WrappedOutput
write_bytes self input = do
  (self', tail) ← write_quads self input
  if length tail == 0
      then pure self'
      else (start_line self' >>= λ line.
          write line.output tail
          >> pure (record line {
            output = line.output + length tail;
            column = line.column + length tail;
          }))

-- For blocks of 16 bytes, which the vector kernels write.
unfoldable pub write_16 : WrappedOutput → List ℕ → Write WrappedOutput
write_16 self block = do
  self' ← start_line self
  if leb 16 (self'.width - self'.column)
      then (write self'.output block
          >> pure (record self' { output = self'.output + 16; column = self'.column + 16 }))
      else (write_quads self' block >>= λ r. pure r.0)

-- What an action leaves in an array of `n` bytes that starts with zeros.
unfoldable pub in_array : ℕ → Write (Unit {0}) → Option (List ℕ)
in_array n m = elim (m (replicate n (some 0))) [
  | ok a mem ↦ initialized mem
  | err e mem ↦ none
  | fault ↦ none
]

-- `while source + 6 <= input.len()`
unfoldable pub wrapped_sixes : List ℕ → List ℕ → WrappedOutput → Write (List ℕ × WrappedOutput)
wrapped_sixes alphabet (a ∷ b ∷ c ∷ d ∷ e ∷ f ∷ rest) output = do
  encoded ←
      or_fault
        (in_array 8 (encode_scalar_ptr_with_alphabet (a ∷ b ∷ c ∷ d ∷ e ∷ f ∷ []) 0 alphabet))
  output' ← write_bytes output encoded
  wrapped_sixes alphabet rest output'
wrapped_sixes alphabet rest output = pure (rest, output)

-- `written`
unfoldable pub written_len : ℕ → ℕ → Bool → ℕ
written_len tail padded_len padded =
    if padded then padded_len else padded_len - (if tail % 3 == 0 then 0 else 1) * (3 - tail % 3)

unfoldable pub encode_scalar_wrapped_with_alphabet :
    List ℕ → WrappedOutput → List ℕ → Bool → Write WrappedOutput
unfolding wrapped_sixes written_len
encode_scalar_wrapped_with_alphabet input output alphabet padded = do
  (tail, output') ← wrapped_sixes alphabet input output
  if length tail == 0 then pure output' else do
    encoded ← or_fault (in_array 8 (encode_scalar_ptr_with_alphabet tail 0 alphabet))
    padded_len ← or_fault (encoded_len (length tail))
    write_bytes output' (take (written_len (length tail) padded_len padded) encoded)

unfoldable pub encode_scalar_wrapped : List ℕ → WrappedOutput → Bool → Bool → Write WrappedOutput
encode_scalar_wrapped input output urlsafe padded =
    encode_scalar_wrapped_with_alphabet input output (alphabet_of urlsafe) padded

-- Without a kernel no input is consumed.
unfoldable pub encode_wrapped_with_runtime_backend : List ℕ → WrappedOutput → Bool → Write ℕ
encode_wrapped_with_runtime_backend input output urlsafe = pure 0

unfoldable pub encode_wrapped_custom_with_runtime_backend :
    List ℕ → WrappedOutput → CustomEncodeAlphabet → Write ℕ
encode_wrapped_custom_with_runtime_backend input output alphabet =
    if alphabet.has_standard_prefix then pure 0 else pure 0

unfoldable pub encode_wrapped_to_ptr_cached : List ℕ → Bool → Bool → ℕ → Write WrappedOutput
unfolding encode_wrapped_with_runtime_backend new
encode_wrapped_to_ptr_cached input urlsafe padded width = do
  let output = new 0 width
  consumed ←
      if ltb (length input) 16
      then pure 0
      else encode_wrapped_with_runtime_backend input output urlsafe
  encode_scalar_wrapped (drop consumed input) output urlsafe padded

unfoldable pub encode_wrapped_to_ptr_custom :
    List ℕ → CustomEncodeAlphabet → Bool → ℕ → Write WrappedOutput
unfolding encode_wrapped_custom_with_runtime_backend new
encode_wrapped_to_ptr_custom input alphabet padded width = do
  let output = new 0 width
  consumed ←
      if ltb (length input) 16
      then pure 0
      else encode_wrapped_custom_with_runtime_backend input output alphabet
  encode_scalar_wrapped_with_alphabet (drop consumed input) output alphabet.table padded
