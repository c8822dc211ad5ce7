-- ===== src/Bindings/Strict/Fresh.antt =====
-- Strict decoding into a new object, in src/bindings/base64/strict.rs, against RFC 4648.
use hashcodecs_rs.Common.{
  ℕ, ◌%◌, ◌<◌, ◌≡◌, ◌≢◌, refl, ap, ◌∙◌, sym, Option, none, some, false, if◌then◌else◌, List, [],
  ◌∷◌, ltb, ◌==◌, length, arith, All, Bool-cases, inl, inr,
}
use hashcodecs_rs.Word.{IsByte}
use hashcodecs_rs.Base64.Alphabet.{DecodeAlphabet, table_of}
use hashcodecs_rs.Base64.Output.{Memory, Write}
use hashcodecs_rs.Base64.Encode.{usize_mod}
use hashcodecs_rs.Base64.Decode.Size.{decoded_size-whole, decoded_size-ragged}
use hashcodecs_rs.Base64.Output.Laws.{initialized-map, stored_full}
use hashcodecs_rs.Base64.Rfc4648.{
  decode, decode_unpadded, quad, short, join, decoded_size, unpadded_size,
}
use hashcodecs_rs.Base64.Decode.{Result, decode_to_ptr_with_layout, partial}
use hashcodecs_rs.Base64.Decode.Loops.{Follows}
use hashcodecs_rs.Base64.Decode.Layout.{
  output_len_of, decode_layout-good, decode_layout-bad, decode-ragged, length-decode, join-none,
  mode-Follows,
}
use hashcodecs_rs.Base64.Decode.Api.{result_of}
use hashcodecs_rs.Base64.Unpadded.{decode_to_ptr_with_unpadded_layout}
use hashcodecs_rs.Base64.Unpadded.Laws.{
  alphabet-IsTable, unpadded_len, unpadded_layout, decode_unpadded_layout-good,
  decode_unpadded_layout-bad, unpadded-Follows, length-decode_unpadded, unpadded_size-whole,
  unpadded_size-ragged,
}
use hashcodecs_rs.Bindings.{PyResult, returned, raised, memory_error}
use hashcodecs_rs.Bindings.Staging.{
  BytesApi, Payload, allocated, refused, initialize, pybytes_with_len, ssize_mod,
}
use hashcodecs_rs.Bindings.Strict.{decode_strict, decode_strict_into, invalid}
use hashcodecs_rs.Bindings.Strict

-- What becomes of a result that is written into a payload.
abbrev pub delivered : Payload → Result (List ℕ) → PyResult (Result (List ℕ))
delivered (refused e) r = raised e
delivered (allocated mem) r = returned r

-- The outcome of decoding text that stands for a number of bytes, if any, to `r` in a new object:
-- MemoryError if the number is not in `Py_ssize_t`, the exception of a refused allocation, or `r`.
abbrev pub new_object : BytesApi → Option ℕ → Result (List ℕ) → PyResult (Result (List ℕ))
new_object api none r = returned r
new_object api (some n) r =
    if ltb n ssize_mod then delivered (api.from_string_and_size n) r else raised memory_error

-- A decoder of `n` bytes into a payload of any contents.
initialize-delivered :
    (n : ℕ) (o : Option (List ℕ)) (m : Write (Unit {0})) (payload : Payload)
    → ((mem : Memory) → payload ≡ allocated mem → length mem ≡ n)
    → ((bytes : List ℕ) → o ≡ some bytes → length bytes ≡ n)
    → ((mem : Memory) → length mem ≡ n → Follows 0 n mem o tt (m mem))
    → initialize payload m ≡ delivered payload (result_of o)
unfolding initialize
initialize-delivered n o m (refused e) sized size follows = refl
initialize-delivered n none m (allocated mem) sized size follows =
    let (junk, e, l) = follows mem (sized mem refl) in rw (initialize, e) refl
initialize-delivered n (some bytes) m (allocated mem) sized size follows =
    let l : length bytes ≡ length mem = size bytes refl ∙ sym (sized mem refl) in
    rw (initialize, follows mem (sized mem refl), stored_full bytes mem l, initialized-map bytes)
      refl

pybytes_with_len-new_object :
    (api : BytesApi) (n : ℕ) (o : Option (List ℕ)) (m : Write (Unit {0}))
    → ((bytes : List ℕ) → o ≡ some bytes → length bytes ≡ n)
    → ((mem : Memory) → length mem ≡ n → Follows 0 n mem o tt (m mem))
    → pybytes_with_len api n m ≡ new_object api (some n) (result_of o)
unfolding pybytes_with_len
pybytes_with_len-new_object api n o m size follows = elim (Bool-cases (ltb n ssize_mod)) [
  | inl small ↦ rw small (
      initialize-delivered n o m (api.from_string_and_size n) (λ mem e. api.sized n mem e) size
        follows)
  | inr large ↦ rw large refl
]

invalid-delivered :
    (payload : Payload) (o : Option (List ℕ))
    → invalid (delivered payload (result_of o)) ≡ delivered payload (result_of o)
unfolding invalid
invalid-delivered (refused e) o = refl
invalid-delivered (allocated mem) none = refl
invalid-delivered (allocated mem) (some bytes) = refl

invalid-new_object :
    (api : BytesApi) (n : ℕ) (o : Option (List ℕ))
    → invalid (new_object api (some n) (result_of o)) ≡ new_object api (some n) (result_of o)
unfolding invalid
invalid-new_object api n o = elim (Bool-cases (ltb n ssize_mod)) [
  | inl small ↦ rw small (invalid-delivered (api.from_string_and_size n) o)
  | inr large ↦ rw large refl
]

-- A single symbol behind full quanta decodes to nothing.
ragged_one : (symbols input : List ℕ) → length input % 4 ≡ 1 → decode_unpadded symbols input ≡ none
unfolding decode_unpadded short
ragged_one symbols [] m = absurd (omega arith)
ragged_one symbols (a ∷ []) m = refl
ragged_one symbols (a ∷ b ∷ []) m = absurd (omega arith)
ragged_one symbols (a ∷ b ∷ c ∷ []) m = absurd (omega arith)
ragged_one symbols (a ∷ b ∷ c ∷ d ∷ rest) m =
    ap (join (quad symbols a b c d)) (ragged_one symbols rest (omega arith))
    ∙ join-none (quad symbols a b c d)

module _ (api : BytesApi) (alphabet : DecodeAlphabet) (input : List ℕ) (h : All IsByte input)
    (small : length input < usize_mod) where
  decode_strict-decode :
      decode_strict api input alphabet
      ≡ new_object api (decoded_size input) (result_of (decode (table_of alphabet) input))
  unfolding decode_strict decode_to_ptr_with_layout
  decode_strict-decode = elim (Bool-cases (length input % 4 == 0)) [
    | inr ragged ↦
        let m : length input % 4 ≢ 0 = ground arith in
        rw
          (
            decode_strict,
            decode_layout-bad input m,
            decode-ragged (table_of alphabet) input m,
            decoded_size-ragged input m,
          )
          refl
    | inl whole ↦
        let m : length input % 4 ≡ 0 = ground arith in
        let n = output_len_of input in
        let o = decode (table_of alphabet) input in
        rw
          (
            decode_strict,
            decode_layout-good input m,
            decoded_size-whole input m,
            pybytes_with_len-new_object api n o _
                (λ bytes e. length-decode (table_of alphabet) input bytes e)
                (λ mem l.
                  mode-Follows alphabet false partial (alphabet-IsTable alphabet) input mem h m
                    (omega arith)),
          )
          (invalid-new_object api n o)
  ]

  decode_unpadded-decode :
      Strict.decode_unpadded api input alphabet
      ≡ new_object api (unpadded_size input) (result_of (decode_unpadded (table_of alphabet) input))
  unfolding Strict.decode_unpadded decode_to_ptr_with_unpadded_layout
  decode_unpadded-decode = elim (Bool-cases (length input % 4 == 1)) [
    | inl one ↦
        let m : length input % 4 ≡ 1 = ground arith in
        rw
          (
            Strict.decode_unpadded,
            decode_unpadded_layout-bad input m,
            ragged_one (table_of alphabet) input m,
            unpadded_size-ragged input m,
          )
          refl
    | inr whole ↦
        let m : length input % 4 ≢ 1 = ground arith in
        let n = unpadded_len input in
        rw
          (
            Strict.decode_unpadded,
            decode_unpadded_layout-good input m (omega arith),
            unpadded_size-whole input m,
          )
          (pybytes_with_len-new_object api n (decode_unpadded (table_of alphabet) input) _
            (λ bytes e. length-decode_unpadded (table_of alphabet) input bytes e)
            (λ mem l.
              unpadded-Follows alphabet partial input (unpadded_layout input) mem h m
                (omega arith)))
  ]

  -- For every answer of PyBytes_FromStringAndSize whose payloads have the length that was asked
  -- for, every alphabet, and all bytes whose number is in usize, decode_strict and decode_unpadded
  -- (text with and without padding) return InvalidInput if the length of the text is wrong; raise
  -- MemoryError if it stands for a number of bytes that is not in Py_ssize_t; raise the exception
  -- of a refused allocation; and else return the bytes that RFC 4648 assigns to the text, or
  -- InvalidInput if it assigns none: there is no panic, and no uninitialised byte escapes.
  pub strict_decoders :
      (decode_strict api input alphabet
        ≡ new_object api (decoded_size input) (result_of (decode (table_of alphabet) input)))
      × (Strict.decode_unpadded api input alphabet
          ≡ new_object api
              (unpadded_size input)
              (result_of (decode_unpadded (table_of alphabet) input)))
  strict_decoders = (decode_strict-decode, decode_unpadded-decode)
