-- ===== src/Bindings/Encoder.antt =====
-- src/bindings/base64/encode.rs: the prepared encoder of the bindings. It encodes into a raw output of
-- `provided` bytes, in lines on demand; a large wrapped text is written line by line, any other is
-- encoded first and then broken into lines in place.
pub mod Cells
pub mod InPlace
pub mod Text
pub mod Routes
use mathlib.Core.Option
use Prim.Native.Nat.{max}
use hashcodecs_rs.Common.{
  ◌⊎◌, inl, inr, ◌++◌, ℕ, zero, suc, ◌+◌, ◌-◌, ◌*◌, ◌/◌, ◌%◌, ◌^◌, Option, none, some, Bool, true,
  false, ◌&&◌, List, [], ◌∷◌, ltb, leb, ◌==◌, if◌then◌else◌, length, drop, take, set, not,
}
use hashcodecs_rs.Bindings.{PyError, value_error, overflow_error}
use hashcodecs_rs.Base64.Alphabet.{standard_alphabet, urlsafe_alphabet}
use hashcodecs_rs.Base64.Output.{
  Memory, Outcome, ok, err, fault, Write, ◌>>=◌, ◌>>◌, pure, fail, or_fault, write,
  output_too_small,
}
use hashcodecs_rs.Base64.Encode.{encoded_len, encode_to_ptr_cached, usize_mod}
use hashcodecs_rs.Base64.Encode
use hashcodecs_rs.Base64.Wrapped
use hashcodecs_rs.Base64.Wrapped.{
  CustomEncodeAlphabet, custom_alphabet, same_bytes, in_array, encode_to_ptr_with_custom_alphabet,
  encode_wrapped_to_ptr_cached, encode_wrapped_to_ptr_custom,
}

pub data EncodeAlphabet : Type 0 where
  standard : EncodeAlphabet
  url_safe : EncodeAlphabet
  custom : CustomEncodeAlphabet → EncodeAlphabet

-- `EncodeAlphabet::new`; the two characters, if any.
unfoldable pub new_alphabet : Option (ℕ × ℕ) → EncodeAlphabet
new_alphabet none = standard
new_alphabet (some (a, b)) =
    if (a == b'-') && (b == b'_') then url_safe else custom (custom_alphabet a b)

unfoldable pub from_table : List ℕ → EncodeAlphabet
unfolding same_bytes Wrapped.from_table
from_table table =
    if same_bytes table standard_alphabet
    then standard
    else if same_bytes (take 62 table) (take 62 standard_alphabet)
        && same_bytes (drop 62 table) (b'-' ∷ b'_' ∷ [])
    then url_safe
    else custom (Wrapped.from_table table)

unfoldable pub is_urlsafe : EncodeAlphabet → Bool
is_urlsafe url_safe = true
is_urlsafe _ = false

pub data EncodePadding : Type 0 where
  padded : EncodePadding
  unpadded : EncodePadding

-- `EncodePadding::new`, and `matches!(padding, EncodePadding::Padded)`.
unfoldable pub new_padding : Bool → EncodePadding
new_padding is_padded = if is_padded then padded else unpadded

unfoldable pub is_padded : EncodePadding → Bool
is_padded padded = true
is_padded unpadded = false

pub data LineWrapping : Type 0 where
  no_lines : LineWrapping
  columns : ℕ → LineWrapping

-- `LineWrapping::new`
unfoldable pub new_wrapping : Option ℕ → LineWrapping
new_wrapping none = no_lines
new_wrapping (some width) = columns width

pub record PreparedEncoder : Type 0 where
  pub alphabet : EncodeAlphabet
  pub padding : EncodePadding
  pub wrapping : LineWrapping

unfoldable pub with_alphabet : EncodeAlphabet → Bool → Option ℕ → PreparedEncoder
unfolding new_padding new_wrapping
with_alphabet alphabet is_padded wrapcol = record {
  alphabet = alphabet;
  padding = new_padding is_padded;
  wrapping = new_wrapping wrapcol;
}

-- An `i128`.
pub data ℤ : Type 0 where
  pos : ℕ → ℤ
  negsuc : ℕ → ℤ

unfoldable pub normalize_wrapcol : ℤ → PyError ⊎ Option ℕ
normalize_wrapcol (negsuc n) = inl value_error
normalize_wrapcol (pos wrapcol) =
    if leb usize_mod wrapcol
    then inl overflow_error
    else if wrapcol == 0
    then inr none
    else inr (some (max (wrapcol / 4) 1 * 4))

-- `none` is a panic of `encoded_len`.
unfoldable pub unpadded_encoded_len : ℕ → Option ℕ
unpadded_encoded_len input_len =
    Option.map (λ n. n - (if input_len % 3 == 0 then 0 else 1) * (3 - input_len % 3))
      (encoded_len input_len)

unfoldable pub data_len : PreparedEncoder → ℕ → Option ℕ
data_len self input_len = elim self.padding [
  | padded ↦ encoded_len input_len
  | unpadded ↦ unpadded_encoded_len input_len
]

-- The sum wraps around in a `usize`.
unfoldable pub output_len : PreparedEncoder → ℕ → Option ℕ
output_len self input_len = Option.map (λ n. lines n self.wrapping) (data_len self input_len)
  where
    lines : ℕ → LineWrapping → ℕ
    lines n no_lines = n
    lines n (columns width) = if n == 0 then n else (n + (n - 1) / width) % usize_mod

-- `DIRECT_WRAPPED_INPUT_THRESHOLD`
abbrev pub direct_wrapped_input_threshold : ℕ
direct_wrapped_input_threshold = 4 * 1024 * 1024

unfoldable pub direct_wrap_width : PreparedEncoder → ℕ → Option (Option ℕ)
direct_wrap_width self input_len =
    if leb input_len direct_wrapped_input_threshold then some none else elim self.wrapping [
      | no_lines ↦ some none
      | columns width ↦
          Option.map (λ n. if ltb width n then some width else none) (data_len self input_len)
    ]

-- `cached` is the parameter `CACHED`.
unfoldable pub encode_ptr : Bool → List ℕ → EncodeAlphabet → Write (Unit {0})
unfolding is_urlsafe
encode_ptr cached input standard =
    if cached then encode_to_ptr_cached input false else Encode.encode_to_ptr input false
encode_ptr cached input url_safe =
    if cached then encode_to_ptr_cached input true else Encode.encode_to_ptr input true
encode_ptr cached input (custom alphabet) = encode_to_ptr_with_custom_alphabet input alphabet cached

unfoldable pub encode_unwrapped_ptr :
    Bool → List ℕ → EncodeAlphabet → EncodePadding → Write (Unit {0})
encode_unwrapped_ptr cached input alphabet padded = encode_ptr cached input alphabet
encode_unwrapped_ptr cached input alphabet unpadded = do
  let complete_input_len = length input / 3 * 3
  let complete_output_len = complete_input_len / 3 * 4
  encode_ptr cached (take complete_input_len input) alphabet
  if complete_input_len == length input then pure tt else do
    let tail = drop complete_input_len input
    encoded_tail ← or_fault (in_array 4 (encode_ptr cached tail alphabet))
    tail_len ← or_fault (unpadded_encoded_len (length tail))
    write complete_output_len (take tail_len encoded_tail)

-- `output.add(source).copy_to(output.add(destination), n)`: the ranges may overlap.
unfoldable pub copy_to : ℕ → ℕ → ℕ → Write (Unit {0})
copy_to source destination n mem =
    if leb (source + n) (length mem) && leb (destination + n) (length mem)
    then ok tt (take destination mem ++ (take n (drop source mem) ++ drop (destination + n) mem))
    else fault

-- The loop of `wrap_encoded_ptr`; its value is `destination`. A round takes at least one byte off
-- `source`, so `source` rounds are enough.
unfoldable pub move_lines : ℕ → ℕ → ℕ → ℕ → Write ℕ
unfolding copy_to
move_lines zero width source destination = if source == 0 then pure destination else (λ mem. fault)
move_lines (suc fuel) width source destination = if source == 0 then pure destination else do
  let remainder = source % width
  let line_len = if remainder == 0 then width else remainder
  let source' = source - line_len
  let destination' = destination - line_len
  copy_to source' destination' line_len
  if source' == 0
      then move_lines fuel width source' destination'
      else (write (destination' - 1) (b'\n' ∷ [])
          >> move_lines fuel width source' (destination' - 1))

unfoldable pub wrap_encoded_ptr : ℕ → ℕ → Write ℕ
unfolding move_lines
wrap_encoded_ptr data_len width =
    if leb data_len width
    then pure 0
    else move_lines data_len width data_len (data_len + (data_len - 1) / width)

unfoldable pub encode_to_ptr : PreparedEncoder → List ℕ → Write (Unit {0})
unfolding data_len encode_unwrapped_ptr
encode_to_ptr self input = elim self.wrapping [
  | no_lines ↦ encode_unwrapped_ptr false input self.alphabet self.padding
  | columns width ↦ do
    encode_unwrapped_ptr true input self.alphabet self.padding
    n ← or_fault (data_len self (length input))
    _ ← wrap_encoded_ptr n width
    pure tt
]

unfoldable pub encode_direct_to_ptr : PreparedEncoder → List ℕ → ℕ → Write (Unit {0})
unfolding is_padded
encode_direct_to_ptr self input width = elim self.alphabet [
  | standard ↦
      encode_wrapped_to_ptr_cached input false (is_padded self.padding) width >>= λ _. pure tt
  | url_safe ↦
      encode_wrapped_to_ptr_cached input true (is_padded self.padding) width >>= λ _. pure tt
  | custom alphabet ↦
      encode_wrapped_to_ptr_custom input alphabet (is_padded self.padding) width >>= λ _. pure tt
]

-- The error is an exception with the same two lengths.
unfoldable pub encode_slice_to_ptr : List ℕ → ℕ → PreparedEncoder → Write ℕ
unfolding direct_wrap_width output_len encode_direct_to_ptr encode_to_ptr
encode_slice_to_ptr input provided encoder = do
  required ← or_fault (output_len encoder (length input))
  if ltb provided required then fail (output_too_small required provided) else do
    direct ← or_fault (direct_wrap_width encoder (length input))
    elim direct [
      | some width ↦ encode_direct_to_ptr encoder input width
      | none ↦ encode_to_ptr encoder input
    ]
    pure required
