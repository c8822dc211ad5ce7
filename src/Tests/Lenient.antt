-- ===== src/Tests/Lenient.antt =====
-- Examples for the lenient decoder of the bindings.
use hashcodecs_rs.Common.{
  ℕ, ◌≤◌, ◌≡◌, none, some, true, false, List, [], ◌∷◌, map, arith, All, length,
}
use hashcodecs_rs.Word.{IsByte}
use hashcodecs_rs.Base64.Alphabet.{standard_alphabet}
use hashcodecs_rs.Bindings.Strict.{standard_byte}
use hashcodecs_rs.Bindings.Translation.{new}
use hashcodecs_rs.Bindings.Staging.{apply_all}
use hashcodecs_rs.Bindings.Lenient.{
  decode_lenient_to_ptr, lenient_decode_table, standard_lenient_table,
}
use hashcodecs_rs.Bindings.Lenient.Machine.{machine, advance, result}
use hashcodecs_rs.Bindings.Lenient.Tables.{translated-standard_byte}
use hashcodecs_rs.Bindings.Lenient.Whole.{decode_lenient_to_ptr-machine}
use hashcodecs_rs.Tests.Bindings.{cells}

-- A foreign byte stands inside a quantum.
abbrev text : List ℕ
text = b'a' ∷ b'G' ∷ b'!' ∷ b'V' ∷ b's' ∷ b'b' ∷ b'G' ∷ b'8' ∷ b'=' ∷ []

text-IsByte : All IsByte text
text-IsByte = (
  omega arith,
  (
    omega arith,
    (
      omega arith,
      (omega arith, (omega arith, (omega arith, (omega arith, (omega arith, (omega arith, tt)))))),
    ),
  ),
)

fits : length (machine (lenient_decode_table none) true false text 0 0 0).0 ≤ 5
unfolding machine advance lenient_decode_table standard_lenient_table standard_alphabet
fits = omega arith

decode_lenient_to_ptr-machine_example :
    decode_lenient_to_ptr text 5 (lenient_decode_table none) none true false (cells 5)
    ≡ result 0 (cells 5) (machine (lenient_decode_table none) true false text 0 0 0)
decode_lenient_to_ptr-machine_example =
    decode_lenient_to_ptr-machine none true false text (cells 5) tt text-IsByte (omega arith) fits

translated-standard_byte_example :
    apply_all
      (new (lenient_decode_table (some (b'-', b'_'))) (some (b'-', b'_')))
      (b'-' ∷ b'A' ∷ b'_' ∷ [])
    ≡ map (standard_byte b'-' b'_') (b'-' ∷ b'A' ∷ b'_' ∷ [])
translated-standard_byte_example =
    translated-standard_byte b'-' b'_' (omega arith) (omega arith) (b'-' ∷ b'A' ∷ b'_' ∷ [])
