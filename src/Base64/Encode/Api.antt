-- ===== src/Base64/Encode/Api.antt =====
-- The encoding entry points of base64/encode/api.rs against the RFC 4648 encoding.
use hashcodecs_rs.Common.{
  leb, true, false, if◌then◌else◌, ltb, ℕ, ◌+◌, ◌*◌, ◌/◌, ◌≤◌, ◌<◌, ◌≡◌, refl, ◌∙◌, sym, Option,
  none, some, Bool, List, [], ◌∷◌, ◌++◌, map, ltb, length, drop, take, arith, All, Bool-cases,
  length-replicate, length-take, inl, inr,
}
use hashcodecs_rs.Word.{IsByte}
use hashcodecs_rs.Base64.Output.{
  Memory, ok, err, len, stored, on_prefix, uninitialized, isize_mod, allocate_uninitialized_output,
  output_too_small,
}
use hashcodecs_rs.Base64.Output.Laws.{stored_full, assume_full}
use hashcodecs_rs.Base64.Rfc4648.{encode}
use hashcodecs_rs.Base64.Encode.Scalar.{scalar-encode}
use hashcodecs_rs.Base64.Encode.{
  encoded_len, encode_to_ptr, encode_to_ptr_cached, encode_to_slice, encode_scalar_ptr, usize_mod,
  b64encode_with_alphabet, b64encode_into_with_alphabet, alphabet_of, finished,
}

abbrev pub padded_len : ℕ → ℕ
padded_len n = (n + 2) / 3 * 4

pub length-encode :
    (alphabet input : List ℕ) → length (encode alphabet input) ≡ padded_len (length input)
unfolding encode
length-encode alphabet [] = omega arith
length-encode alphabet (a ∷ []) = omega arith
length-encode alphabet (a ∷ b ∷ []) = omega arith
length-encode alphabet (a ∷ b ∷ c ∷ rest) = omega (arith, length-encode alphabet rest)

-- The length that `b64encoded_len` computes, and its overflow check.
pub encoded_len_fits : (n : ℕ) → padded_len n < usize_mod → encoded_len n ≡ some (padded_len n)
unfolding encoded_len
encoded_len_fits n h = ground arith

pub encoded_len_overflows : (n : ℕ) → usize_mod ≤ padded_len n → encoded_len n ≡ none
unfolding encoded_len
encoded_len_overflows n h = ground arith

pub encode_to_ptr-encode :
    (input : List ℕ) (urlsafe : Bool) (mem : Memory)
    → All IsByte input
    → padded_len (length input) ≤ length mem
    → encode_to_ptr input urlsafe mem ≡ ok tt (stored 0 (encode (alphabet_of urlsafe) input) mem)
unfolding encode_to_ptr encode_scalar_ptr
encode_to_ptr-encode input urlsafe mem h fits =
    let done =
      scalar-encode (alphabet_of urlsafe) input 0 mem h
        (omega (arith, length-encode (alphabet_of urlsafe) input)) in
    elim (Bool-cases (ltb (length input) 16)) [ inl e ↦ rw e done | inr e ↦ rw e done ]

pub encode_to_ptr_cached-encode :
    (input : List ℕ) (urlsafe : Bool) (mem : Memory)
    → All IsByte input
    → padded_len (length input) ≤ length mem
    → encode_to_ptr_cached input urlsafe mem
      ≡ ok tt (stored 0 (encode (alphabet_of urlsafe) input) mem)
unfolding encode_to_ptr_cached
encode_to_ptr_cached-encode input urlsafe mem h fits =
    let same : encode_to_ptr_cached input urlsafe mem ≡ encode_to_ptr input urlsafe mem =
      unfold encode_to_ptr in refl in
    same ∙ encode_to_ptr-encode input urlsafe mem h fits

-- For all bytes whose padded encoding has a length in usize, and either alphabet,
-- b64encode_with_alphabet panics if the padded encoding has more than isize::MAX bytes; else it
-- returns the RFC 4648 encoding, with no panic, store out of bounds or uninitialised byte.
pub b64encode_with_alphabet-encode :
    (input : List ℕ) (urlsafe : Bool)
    → All IsByte input
    → padded_len (length input) < usize_mod
    → b64encode_with_alphabet input urlsafe ≡ (
        if leb isize_mod (padded_len (length input))
        then none
        else some (encode (alphabet_of urlsafe) input))
unfolding finished b64encode_with_alphabet allocate_uninitialized_output
b64encode_with_alphabet-encode input urlsafe h fits =
    let n = padded_len (length input) in
    let size = length-encode (alphabet_of urlsafe) input in
    let fresh : n ≤ length (uninitialized n) =
      unfold uninitialized in omega (arith, length-replicate n (blank)) in
    elim (Bool-cases (leb isize_mod n)) [
      | inl large ↦
          let no : ltb n isize_mod ≡ false = ground arith in
          rw (b64encode_with_alphabet, encoded_len_fits (length input) fits, large, no) refl
      | inr small ↦
          let yes_ : ltb n isize_mod ≡ true = ground arith in
          rw
            (
              b64encode_with_alphabet,
              encoded_len_fits (length input) fits,
              small,
              yes_,
              encode_to_ptr-encode input urlsafe (uninitialized n) h fresh,
            )
            (assume_full (encode (alphabet_of urlsafe) input) n size)
    ]
  where
    blank : Option ℕ
    blank = none

module _ (input : List ℕ) (urlsafe : Bool) (bytes : All IsByte input)
    (fits : padded_len (length input) < usize_mod) where
  encode_to_slice-encode :
      (mem : Memory)
      → length mem ≡ padded_len (length input)
      → encode_to_slice input urlsafe mem ≡ ok tt (map some (encode (alphabet_of urlsafe) input))
  unfolding encode_to_slice len
  encode_to_slice-encode mem e =
      let written = encode_to_ptr-encode input urlsafe mem bytes (omega arith) in
      let full =
        stored_full (encode (alphabet_of urlsafe) input) mem
          (length-encode (alphabet_of urlsafe) input ∙ sym e) in
      rw (encoded_len_fits (length input) fits) (ground (arith, written, full))

  b64encode_into-encode :
      (mem : Memory)
      → padded_len (length input) ≤ length mem
      → b64encode_into_with_alphabet input urlsafe mem
        ≡ ok
            (padded_len (length input))
            (map some (encode (alphabet_of urlsafe) input) ++ drop (padded_len (length input)) mem)
  unfolding b64encode_into_with_alphabet len on_prefix
  b64encode_into-encode mem room =
      let n = padded_len (length input) in
      let slice = encode_to_slice-encode (take n mem) (omega (arith, length-take n mem)) in
      rw (encoded_len_fits (length input) fits) (ground (arith, slice))

  b64encode_into-too_small :
      (mem : Memory)
      → length mem < padded_len (length input)
      → b64encode_into_with_alphabet input urlsafe mem
        ≡ err (output_too_small (padded_len (length input)) (length mem)) mem
  unfolding b64encode_into_with_alphabet len
  b64encode_into-too_small mem small = rw (encoded_len_fits (length input) fits) (ground arith)

  -- For all bytes whose padded encoding has a length in usize, either alphabet, and a destination
  -- of any size, b64encode_into_with_alphabet returns OutputTooSmall with both lengths and leaves
  -- the destination unchanged if it has fewer cells than the encoding; else it stores the RFC 4648
  -- encoding at its start, keeps the cells behind it, and returns the length.
  pub b64encode_into_total :
      (mem : Memory)
      → b64encode_into_with_alphabet input urlsafe mem ≡ (
          let n = padded_len (length input) in
          if ltb (length mem) n
          then err (output_too_small n (length mem)) mem
          else ok n (map some (encode (alphabet_of urlsafe) input) ++ drop n mem))
  b64encode_into_total mem = elim (Bool-cases (ltb (length mem) (padded_len (length input)))) [
    | inl small ↦ rw small (b64encode_into-too_small mem (ground arith))
    | inr room ↦ rw room (b64encode_into-encode mem (ground arith))
  ]
