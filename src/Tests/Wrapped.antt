-- ===== src/Tests/Wrapped.antt =====
-- Examples for wrapped and custom Base64 output, and for text without padding.
use hashcodecs_rs.Common.{
  ℕ, ◌≡◌, ◌≢◌, ◌%◌, refl, none, some, true, false, List, [], ◌∷◌, arith, All, length, replicate,
}
use hashcodecs_rs.Word.{IsByte}
use hashcodecs_rs.Base64.Alphabet
use hashcodecs_rs.Base64.Alphabet.{table_of, standard, standard_decode}
use hashcodecs_rs.Base64.Output.{Memory, ok, stored}
use hashcodecs_rs.Base64.Rfc4648.{encode, decode_unpadded}
use hashcodecs_rs.Base64.Encode.{alphabet_of}
use hashcodecs_rs.Base64.Decode.{DecodeLayout, good, partial}
use hashcodecs_rs.Base64.Decode.Loops.{Follows}
use hashcodecs_rs.Base64.Unpadded.{
  validate_alphabet, any_invalid, decode_standard_validated_to_ptr,
  decode_to_ptr_with_unpadded_layout_mode,
}
use hashcodecs_rs.Base64.Unpadded.Laws.{unpadded-Follows}
use hashcodecs_rs.Base64.Unpadded.Validated.{
  verdict, validate_alphabet-decode_unpadded, decode_standard_validated_to_ptr-decode_unpadded,
}
use hashcodecs_rs.Base64.Wrapped.{
  custom_alphabet, encode_to_ptr_with_custom_alphabet, encode_wrapped_to_ptr_cached,
  encode_wrapped_to_ptr_custom,
}
use hashcodecs_rs.Base64.Wrapped.Lines.{wrap, wrap_at, written}
use hashcodecs_rs.Base64.Wrapped.Encoding.{
  text, encode_wrapped_to_ptr_cached-wrap, encode_wrapped_to_ptr_custom-wrap,
  encode_to_ptr_with_custom_alphabet-encode,
}

abbrev hello : List ℕ
hello = b'h' ∷ b'e' ∷ b'l' ∷ b'l' ∷ b'o' ∷ []

hello-IsByte : All IsByte hello
hello-IsByte = (omega arith, (omega arith, (omega arith, (omega arith, (omega arith, tt)))))

-- `hello` without padding.
abbrev hello_text : List ℕ
hello_text = b'a' ∷ b'G' ∷ b'V' ∷ b's' ∷ b'b' ∷ b'G' ∷ b'8' ∷ []

hello_text-IsByte : All IsByte hello_text
hello_text-IsByte = (
  omega arith,
  (omega arith, (omega arith, (omega arith, (omega arith, (omega arith, (omega arith, tt)))))),
)

abbrev cells : ℕ → Memory
cells n = replicate n none

hello_lines :
    wrap 4 (text true (alphabet_of false) hello)
    ≡ b'a' ∷ b'G' ∷ b'V' ∷ b's' ∷ b'\n' ∷ b'b' ∷ b'G' ∷ b'8' ∷ b'=' ∷ []
unfolding wrap wrap_at text encode alphabet_of Alphabet.standard_alphabet
hello_lines = refl

encode_wrapped_to_ptr_cached-wrap_example :
    encode_wrapped_to_ptr_cached hello false true 4 (cells 9)
    ≡ written 0 4 4 (text true (alphabet_of false) hello) (cells 9)
unfolding wrap wrap_at text encode
encode_wrapped_to_ptr_cached-wrap_example =
    encode_wrapped_to_ptr_cached-wrap hello true 4 (cells 9) hello-IsByte (omega arith) refl false
      (omega arith)

encode_wrapped_to_ptr_custom-wrap_example :
    encode_wrapped_to_ptr_custom hello (custom_alphabet b'-' b'.') false 4 (cells 9)
    ≡ written 0 4 4 (text false (custom_alphabet b'-' b'.').table hello) (cells 9)
unfolding wrap wrap_at text encode
encode_wrapped_to_ptr_custom-wrap_example =
    encode_wrapped_to_ptr_custom-wrap hello false 4 (cells 9) hello-IsByte (omega arith) refl
      (custom_alphabet b'-' b'.') (omega arith)

encode_to_ptr_with_custom_alphabet-encode_example :
    encode_to_ptr_with_custom_alphabet hello (custom_alphabet b'-' b'.') true (cells 8)
    ≡ ok tt (stored 0 (encode (custom_alphabet b'-' b'.').table hello) (cells 8))
encode_to_ptr_with_custom_alphabet-encode_example =
    encode_to_ptr_with_custom_alphabet-encode hello (custom_alphabet b'-' b'.') true (cells 8)
      hello-IsByte (omega arith)

abbrev hello_layout : DecodeLayout
hello_layout = record { input_len = 7; padding = 0; output_len = 5 }

hello_text_rest : length hello_text % 4 ≢ 1
hello_text_rest = λ e. absurd (omega arith)

unpadded-Follows_example :
    Follows 0 5
      (cells 5)
      (decode_unpadded (table_of standard) hello_text)
      tt
      (decode_to_ptr_with_unpadded_layout_mode hello_text hello_layout standard partial (cells 5))
unpadded-Follows_example =
    unpadded-Follows standard partial hello_text hello_layout (cells 5) hello_text-IsByte
      hello_text_rest (omega arith)

validate_alphabet-decode_unpadded_example :
    validate_alphabet hello_text standard ≡ verdict (decode_unpadded (table_of standard) hello_text)
validate_alphabet-decode_unpadded_example =
    validate_alphabet-decode_unpadded standard hello_text hello_text_rest

hello_text_valid : validate_alphabet hello_text standard ≡ good tt
unfolding validate_alphabet any_invalid table_of standard_decode
hello_text_valid = refl

decode_standard_validated_to_ptr-decode_unpadded_example :
    (bytes : List ℕ) × (decode_unpadded standard_decode hello_text ≡ some bytes)
    × (decode_standard_validated_to_ptr hello_text (cells 5) ≡ ok 5 (stored 0 bytes (cells 5)))
decode_standard_validated_to_ptr-decode_unpadded_example =
    decode_standard_validated_to_ptr-decode_unpadded hello_text (cells 5) hello_text-IsByte
      hello_text_rest (omega arith) hello_text_valid
