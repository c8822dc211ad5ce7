-- ===== src/Bindings/Strict.antt =====
-- src/bindings/base64/strict.rs: strict decoding into a new object, or into an output of `provided`
-- bytes.
pub mod Into
pub mod Fresh
pub mod Translate
use hashcodecs_rs.Common.{
  ℕ, ◌+◌, ◌-◌, ◌*◌, ◌/◌, ◌%◌, Option, none, some, Bool, true, false, List, [], ◌∷◌, ◌++◌, ltb, leb,
  ◌==◌, ◌||◌, if◌then◌else◌, length, drop, take, zero, suc,
}
use mathlib.Core.List.{map}
use hashcodecs_rs.Base64.Alphabet.{DecodeAlphabet}
use hashcodecs_rs.Base64.Output.{
  Memory, Outcome, ok, err, fault, Write, ◌>>=◌, ◌>>◌, pure, fail, len, on_prefix, invalid_input,
  output_too_small,
}
use hashcodecs_rs.Base64.Decode.{
  Result, good, bad, try, DecodeLayout, has_padding, decode_layout, decode_to_ptr_with_layout,
  decode_to_slice_with_layout_and_alphabet,
}
use hashcodecs_rs.Base64.Unpadded.{
  decode_unpadded_layout, decode_to_ptr_with_unpadded_layout,
  decode_to_slice_with_layout_and_alphabet_validated_blocks,
  decode_to_slice_with_unpadded_layout_and_alphabet,
  decode_to_slice_with_unpadded_layout_and_alphabet_validated_blocks,
}
use hashcodecs_rs.Bindings.{PyResult, returned, raised, memory_error}
use hashcodecs_rs.Bindings.Staging.{BytesApi, pybytes_with_len}

-- Both errors become `InvalidInput`.
unfoldable pub invalid : PyResult (Result (List ℕ)) → PyResult (Result (List ℕ))
invalid (returned (bad e)) = returned (bad invalid_input)
invalid r = r

unfoldable pub decode_strict : BytesApi → List ℕ → DecodeAlphabet → PyResult (Result (List ℕ))
unfolding invalid
decode_strict api input alphabet = elim (decode_layout input) [
  | bad e ↦ returned (bad invalid_input)
  | good layout ↦ invalid (
      pybytes_with_len api layout.output_len
        (decode_to_ptr_with_layout input layout alphabet false))
]

-- `error_writes.validated_prefix_only()` is the argument.
unfoldable pub decode_strict_into : List ℕ → DecodeAlphabet → Bool → Write ℕ
decode_strict_into input alphabet validated_prefix_only = do
  layout ← try (decode_layout input)
  provided ← len
  if ltb provided layout.output_len then fail (output_too_small layout.output_len provided) else do
    on_prefix layout.output_len (
        if validated_prefix_only
        then decode_to_slice_with_layout_and_alphabet_validated_blocks input layout alphabet
        else decode_to_slice_with_layout_and_alphabet input layout alphabet)
    pure layout.output_len

unfoldable pub decode_unpadded : BytesApi → List ℕ → DecodeAlphabet → PyResult (Result (List ℕ))
decode_unpadded api input alphabet = elim (decode_unpadded_layout input) [
  | bad e ↦ returned (bad e)
  | good layout ↦
      pybytes_with_len api layout.output_len
        (decode_to_ptr_with_unpadded_layout input layout alphabet)
]

unfoldable pub decode_unpadded_into : List ℕ → DecodeAlphabet → Bool → Write ℕ
decode_unpadded_into input alphabet validated_prefix_only =
    if has_padding input then fail invalid_input else do
      layout ← try (decode_unpadded_layout input)
      provided ← len
      if ltb provided layout.output_len
          then fail (output_too_small layout.output_len provided)
          else do
            on_prefix layout.output_len (
                if validated_prefix_only
                then decode_to_slice_with_unpadded_layout_and_alphabet_validated_blocks input layout
                    alphabet
                else decode_to_slice_with_unpadded_layout_and_alphabet input layout alphabet)
            pure layout.output_len

unfoldable pub standard_byte : ℕ → ℕ → ℕ → ℕ
standard_byte plus slash byte = if byte == slash then b'/' else if byte == plus then b'+' else byte

-- `memchr2` is the function of the crate memchr, and `reserve` says whether `try_reserve_exact` of an
-- empty vector has memory for a number of bytes.
unfoldable pub translate_altchars :
    (ℕ → ℕ → List ℕ → Option ℕ) → (ℕ → Bool) → List ℕ → ℕ → ℕ → PyResult (Option (List ℕ))
unfolding standard_byte
translate_altchars memchr2 reserve input plus slash = elim (memchr2 plus slash input) [
  | none ↦ returned none
  | some first ↦
      if reserve (length input)
      then returned (some (take first input ++ map (standard_byte plus slash) (drop first input)))
      else raised memory_error
]
