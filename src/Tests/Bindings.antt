-- ===== src/Tests/Bindings.antt =====
-- Examples for the bindings.
use hashcodecs_rs.Common.{
  ℕ, ◌/◌, ◌≡◌, refl, none, some, false, List, [], ◌∷◌, ◌++◌, map, arith, All, ltb, if◌then◌else◌,
  length, drop, replicate,
}
use hashcodecs_rs.Word.{IsByte}
use hashcodecs_rs.Base64.Output.{Memory, ok, err, stored, output_too_small}
use hashcodecs_rs.Base64.Rfc4648.{encode}
use hashcodecs_rs.Base64.Wrapped.Lines.{wrap, wrap_at}
use hashcodecs_rs.Base64.Wrapped.Encoding.{text}
use hashcodecs_rs.Bindings.Encoder.{
  pos, normalize_wrapcol, new_wrapping, with_alphabet, PreparedEncoder, encode_slice_to_ptr,
  wrap_encoded_ptr, url_safe, is_padded, new_padding,
}
use hashcodecs_rs.Bindings.Encoder.InPlace.{wrap_encoded_ptr-wrap}
use hashcodecs_rs.Bindings.Encoder.Text.{encoded, IsAligned, in_lines, normalize_wrapcol-IsAligned}
use hashcodecs_rs.Bindings.Encoder.Routes.{encode_slice_to_ptr-encoded}

abbrev hello : List ℕ
hello = b'h' ∷ b'e' ∷ b'l' ∷ b'l' ∷ b'o' ∷ []

hello-IsByte : All IsByte hello
hello-IsByte = (omega arith, (omega arith, (omega arith, (omega arith, (omega arith, tt)))))

abbrev pub cells : ℕ → Memory
cells n = replicate n none

-- URL-safe and unpadded, in lines of four.
abbrev encoder : PreparedEncoder
encoder = with_alphabet url_safe false (some 4)

normalize_wrapcol-IsAligned_example : IsAligned (new_wrapping (some 8))
unfolding normalize_wrapcol
normalize_wrapcol-IsAligned_example = normalize_wrapcol-IsAligned (pos 11) (some 8) refl

wrap_encoded_ptr-wrap_example :
    wrap_encoded_ptr 5 4 (map some hello ++ cells 3)
    ≡ ok 0 (map some (wrap 4 hello) ++ drop (4 / 4) (cells 3))
unfolding wrap wrap_at
wrap_encoded_ptr-wrap_example = wrap_encoded_ptr-wrap 4 (omega arith) hello (cells 3) (omega arith)

encode_slice_to_ptr-encoded_example : encode_slice_to_ptr hello 9 encoder (cells 9) ≡ (
    if ltb 9 (length (encoded encoder hello))
    then err (output_too_small (length (encoded encoder hello)) 9) (cells 9)
    else ok (length (encoded encoder hello)) (stored 0 (encoded encoder hello) (cells 9)))
unfolding IsAligned with_alphabet new_wrapping encoded in_lines wrap wrap_at text encode is_padded
    new_padding
encode_slice_to_ptr-encoded_example =
    encode_slice_to_ptr-encoded hello hello-IsByte (omega arith) encoder (cells 9)
      (omega arith, refl) (omega arith)
