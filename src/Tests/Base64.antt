-- ===== src/Tests/Base64.antt =====
-- Runs of the Base64 model, and examples of its theorems.
use hashcodecs_rs.Common.{
  ltb, if◌then◌else◌, ℕ, ◌≡◌, refl, none, some, false, List, [], ◌∷◌, ◌++◌, arith, All, map, length,
  drop, replicate, ◌>>=◌,
}
use hashcodecs_rs.Word.{IsByte}
use hashcodecs_rs.Base64.Alphabet
use hashcodecs_rs.Base64.Alphabet.{table_of, DecodeAlphabet, standard, url_safe}
use hashcodecs_rs.Base64.Output.{Memory, ok, err, invalid_input, output_too_small}
use hashcodecs_rs.Base64.Rfc4648
use hashcodecs_rs.Base64.Rfc4648.{encode, decode}
use hashcodecs_rs.Base64.Encode.{b64encode_with_alphabet, b64encode_into_with_alphabet, alphabet_of}
use hashcodecs_rs.Base64.Encode.Api.{b64encode_with_alphabet-encode, b64encode_into_total}
use hashcodecs_rs.Base64.Decode
use hashcodecs_rs.Base64.Decode.{
  good, bad, Result, b64decode_with_alphabet, b64decode_into_with_alphabet, b64decoded_len,
}
use hashcodecs_rs.Base64.Decode.Layout.{chosen, chosen-IsTable}
use hashcodecs_rs.Base64.Decode.Api.{
  result_of, b64decode_with_alphabet-decode, b64decode_into-decode, b64decode_into-invalid,
}
use hashcodecs_rs.Base64.Decode.Into.{Attempt, InRoom, b64decode_into-Attempt}
use hashcodecs_rs.Base64.Decode.Length.{b64decoded_len-decode}
use hashcodecs_rs.Base64.RoundTrip.{b64decode-b64encode}

abbrev hello : List ℕ
hello = b'h' ∷ b'e' ∷ b'l' ∷ b'l' ∷ b'o' ∷ []

abbrev hello_text : List ℕ
hello_text = b'a' ∷ b'G' ∷ b'V' ∷ b's' ∷ b'b' ∷ b'G' ∷ b'8' ∷ b'=' ∷ []

-- The third symbol is not in the alphabet.
abbrev bad_text : List ℕ
bad_text = b'a' ∷ b'G' ∷ b'!' ∷ b's' ∷ []

abbrev cells : ℕ → Memory
cells n = replicate n (some 0)

hello-IsByte : All IsByte hello
hello-IsByte = (omega arith, (omega arith, (omega arith, (omega arith, (omega arith, tt)))))

hello_text-IsByte : All IsByte hello_text
hello_text-IsByte = (
  omega arith,
  (
    omega arith,
    (omega arith, (omega arith, (omega arith, (omega arith, (omega arith, (omega arith, tt)))))),
  ),
)

bad_text-IsByte : All IsByte bad_text
bad_text-IsByte = (omega arith, (omega arith, (omega arith, (omega arith, tt))))

encode-hello : encode (alphabet_of false) hello ≡ hello_text
unfolding encode alphabet_of Alphabet.standard_alphabet
encode-hello = refl

decode-hello : decode (table_of (chosen false)) hello_text ≡ some hello
unfolding decode table_of Alphabet.standard_decode Rfc4648.quad Rfc4648.short
decode-hello = refl

decode_bad : decode (table_of (chosen false)) bad_text ≡ none
unfolding decode table_of Alphabet.standard_decode Rfc4648.quad
decode_bad = refl

b64decode-b64encode_example :
    (b64encode_with_alphabet hello false >>= λ text. b64decode_with_alphabet text false)
    ≡ some (good hello)
b64decode-b64encode_example = b64decode-b64encode hello false hello-IsByte (omega arith)

b64encode_with_alphabet-encode_example :
    b64encode_with_alphabet hello false ≡ some (encode (alphabet_of false) hello)
b64encode_with_alphabet-encode_example =
    b64encode_with_alphabet-encode hello false hello-IsByte (omega arith)

b64decode_with_alphabet-decode_example :
    b64decode_with_alphabet hello_text false
    ≡ some (result_of (decode (table_of (chosen false)) hello_text))
unfolding Rfc4648.decoded_size
b64decode_with_alphabet-decode_example =
    b64decode_with_alphabet-decode hello_text false hello_text-IsByte (omega arith)

b64decode_into-decode_example :
    b64decode_into_with_alphabet hello_text false (cells 6)
    ≡ ok 5 (map some hello ++ drop 5 (cells 6))
b64decode_into-decode_example =
    b64decode_into-decode hello_text false hello_text-IsByte (cells 6) hello decode-hello
      (omega arith)

-- One cell too few.
b64decode_into-Attempt_example :
    b64decode_into_with_alphabet hello_text false (cells 4) ≡ err (output_too_small 5 4) (cells 4)
unfolding Rfc4648.decoded_size Attempt InRoom
b64decode_into-Attempt_example = b64decode_into-Attempt hello_text false hello_text-IsByte (cells 4)

b64decode_into-invalid_example :
    (mem' : Memory) × (b64decode_into_with_alphabet bad_text false (cells 4)
      ≡ err invalid_input mem')
    × (length mem' ≡ 4)
    × (drop 3 mem' ≡ drop 3 (cells 4))
unfolding Decode.padding_of
b64decode_into-invalid_example =
    b64decode_into-invalid bad_text false bad_text-IsByte (cells 4) decode_bad (omega arith)

b64encode_into_total_example : b64encode_into_with_alphabet hello false (cells 9) ≡ (
    if ltb 9 8
    then err (output_too_small 8 9) (cells 9)
    else ok 8 (map some (encode (alphabet_of false) hello) ++ drop 8 (cells 9)))
b64encode_into_total_example = b64encode_into_total hello false hello-IsByte (omega arith) (cells 9)

b64decoded_len-decode_example : b64decoded_len hello_text ≡ good 5
b64decoded_len-decode_example =
    b64decoded_len-decode (table_of (chosen false)) (chosen-IsTable false).no_padding hello_text
      hello decode-hello
