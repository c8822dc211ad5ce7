-- ===== src/Bindings/Strict/Into.antt =====
-- Strict decoding into an output of the caller, in src/bindings/base64/strict.rs, against RFC 4648.
use hashcodecs_rs.Common.{
  ℕ, ◌%◌, ◌<◌, ◌≡◌, ◌≢◌, refl, none, Bool, true, false, List, ltb, ◌==◌, if◌then◌else◌, length,
  take, arith, All, Bool-cases, inl, inr, length-take,
}
use hashcodecs_rs.Word.{IsByte}
use hashcodecs_rs.Base64.Alphabet.{DecodeAlphabet, table_of}
use hashcodecs_rs.Base64.Output.{Memory, len}
use hashcodecs_rs.Base64.Rfc4648.{decode, decode_unpadded, decoded_size, unpadded_size}
use hashcodecs_rs.Base64.Decode.Size.{decoded_size-whole, decoded_size-ragged}
use hashcodecs_rs.Base64.Decode.Into.{InRoom, Attempt, prefix-Follows}
use hashcodecs_rs.Base64.Encode.{usize_mod}
use hashcodecs_rs.Base64.Decode.{
  decode_to_ptr_with_layout, partial, validated_blocks_only, checked_slices,
  decode_to_slice_with_layout_and_alphabet, has_padding,
}
use hashcodecs_rs.Base64.Decode.Loops.{Follows}
use hashcodecs_rs.Base64.Decode.Layout.{
  output_len_of, layout_of, decode_layout-good, decode_layout-bad, length-decode, mode-Follows,
}
use hashcodecs_rs.Base64.Unpadded.{
  decode_to_slice_with_layout_and_alphabet_validated_blocks,
  decode_to_slice_with_unpadded_layout_and_alphabet,
  decode_to_slice_with_unpadded_layout_and_alphabet_validated_blocks,
}
use hashcodecs_rs.Base64.Unpadded.Laws.{
  unpadded_size-whole, unpadded_size-ragged, alphabet-IsTable, unpadded_len, unpadded_layout,
  decode_unpadded_layout-good, decode_unpadded_layout-bad, unpadded-Follows, length-decode_unpadded,
}
use hashcodecs_rs.Bindings.Strict.{decode_strict, decode_strict_into, invalid}
use hashcodecs_rs.Bindings.Strict

module _ (alphabet : DecodeAlphabet) (input : List ℕ) (h : All IsByte input) where
  abbrev table : List ℕ
  table = table_of alphabet

  strict_slice :
      (validated : Bool) (mem : Memory)
      → length input % 4 ≡ 0
      → length mem ≡ output_len_of input
      → Follows 0 (output_len_of input) mem (decode table input) tt (
          (if validated
              then decode_to_slice_with_layout_and_alphabet_validated_blocks input
                  (layout_of input)
                  alphabet
              else decode_to_slice_with_layout_and_alphabet input (layout_of input) alphabet)
            mem)
  unfolding decode_to_slice_with_layout_and_alphabet checked_slices len decode_to_ptr_with_layout
      decode_to_slice_with_layout_and_alphabet_validated_blocks
  strict_slice true mem m e =
      let same : (length input == length input) ≡ true = ground arith in
      let fit : (length mem == output_len_of input) ≡ true = ground arith in
      rw (same, fit)
        (mode-Follows alphabet false validated_blocks_only (alphabet-IsTable alphabet) input mem h m
          (omega arith))
  strict_slice false mem m e =
      let same : (length input == length input) ≡ true = ground arith in
      let fit : (length mem == output_len_of input) ≡ true = ground arith in
      rw (same, fit)
        (mode-Follows alphabet false partial (alphabet-IsTable alphabet) input mem h m
          (omega arith))

  decode_strict_into-Attempt :
      (validated : Bool) (mem : Memory)
      → Attempt
          (decoded_size input)
          mem
          (decode table input)
          (decode_strict_into input alphabet validated mem)
  unfolding decode_strict_into Attempt InRoom len
  decode_strict_into-Attempt validated mem = elim (Bool-cases (length input % 4 == 0)) [
    | inr ragged ↦
        let m : length input % 4 ≢ 0 = ground arith in
        rw (decode_layout-bad input m, decoded_size-ragged input m) refl
    | inl whole ↦
        let m : length input % 4 ≡ 0 = ground arith in
        let n = output_len_of input in
        elim (Bool-cases (ltb (length mem) n)) [
          | inl small ↦ rw (decode_layout-good input m, decoded_size-whole input m, small) refl
          | inr room ↦
              rw (decode_layout-good input m, decoded_size-whole input m, room)
                (prefix-Follows n (decode table input) _ mem
                  (λ bytes e. length-decode table input bytes e) (ground arith)
                  (strict_slice validated (take n mem) m (ground (arith, length-take n mem))))
        ]
  ]

  unpadded_slice :
      (validated : Bool) (mem : Memory)
      → length input % 4 ≢ 1
      → length mem ≡ unpadded_len input
      → Follows 0 (unpadded_len input) mem (decode_unpadded table input) tt (
          (if validated
              then decode_to_slice_with_unpadded_layout_and_alphabet_validated_blocks input
                  (unpadded_layout input)
                  alphabet
              else decode_to_slice_with_unpadded_layout_and_alphabet input
                  (unpadded_layout input)
                  alphabet)
            mem)
  unfolding decode_to_slice_with_unpadded_layout_and_alphabet checked_slices len
      decode_to_slice_with_unpadded_layout_and_alphabet_validated_blocks
  unpadded_slice true mem m e =
      let same : (length input == length input) ≡ true = ground arith in
      let fit : (length mem == unpadded_len input) ≡ true = ground arith in
      rw (same, fit)
        (unpadded-Follows alphabet validated_blocks_only input (unpadded_layout input) mem h m
          (omega arith))
  unpadded_slice false mem m e =
      let same : (length input == length input) ≡ true = ground arith in
      let fit : (length mem == unpadded_len input) ≡ true = ground arith in
      rw (same, fit)
        (unpadded-Follows alphabet partial input (unpadded_layout input) mem h m (omega arith))

  decode_unpadded_into-Attempt :
      (validated : Bool) (mem : Memory)
      → length input < usize_mod
      → Attempt
          (if has_padding input then none else unpadded_size input)
          mem
          (decode_unpadded table input)
          (Strict.decode_unpadded_into input alphabet validated mem)
  unfolding Strict.decode_unpadded_into Attempt InRoom len
  decode_unpadded_into-Attempt validated mem counted = elim (Bool-cases (has_padding input)) [
    | inl padded ↦ rw padded refl
    | inr unpadded ↦ elim (Bool-cases (length input % 4 == 1)) [
      | inl one ↦
          let m : length input % 4 ≡ 1 = ground arith in
          rw (unpadded, decode_unpadded_layout-bad input m, unpadded_size-ragged input m) refl
      | inr whole ↦
          let m : length input % 4 ≢ 1 = ground arith in
          let n = unpadded_len input in
          elim (Bool-cases (ltb (length mem) n)) [
            | inl small ↦
                rw
                  (
                    unpadded,
                    decode_unpadded_layout-good input m counted,
                    unpadded_size-whole input m,
                    small,
                  )
                  refl
            | inr room ↦
                rw
                  (
                    unpadded,
                    decode_unpadded_layout-good input m counted,
                    unpadded_size-whole input m,
                    room,
                  )
                  (prefix-Follows n (decode_unpadded table input) _ mem
                    (λ bytes e. length-decode_unpadded table input bytes e) (ground arith)
                    (unpadded_slice validated (take n mem) m (ground (arith, length-take n mem))))
          ]
    ]
  ]

  -- For every alphabet and policy, all bytes whose number is in usize, and an output of any size,
  -- decode_strict_into and decode_unpadded_into (the latter refuses a text that contains =) return
  -- InvalidInput if the length of the text is wrong, and OutputTooSmall with both lengths if the
  -- output has fewer cells than the text stands for by RFC 4648, and leave the output unchanged
  -- then; else they store what RFC 4648 decodes the text to, with or without padding, and return
  -- its length, or return InvalidInput with at most that many cells overwritten.
  pub into_decoders :
      (validated : Bool) (mem : Memory)
      → length input < usize_mod
      → Attempt
          (decoded_size input)
          mem
          (decode table input)
          (decode_strict_into input alphabet validated mem)
        × Attempt
            (if has_padding input then none else unpadded_size input)
            mem
            (decode_unpadded table input)
            (Strict.decode_unpadded_into input alphabet validated mem)
  into_decoders validated mem counted =
      (decode_strict_into-Attempt validated mem, decode_unpadded_into-Attempt validated mem counted)
