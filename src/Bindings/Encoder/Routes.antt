-- ===== src/Bindings/Encoder/Routes.antt =====
-- Every route of the prepared encoder in src/bindings/base64/encode.rs writes the same text.
use native.Mathlib.Nat.{div-eq_of_lt}
use hashcodecs_rs.Common.{
  ℕ, ◌+◌, ◌-◌, ◌/◌, ◌%◌, ◌≤◌, ◌<◌, ◌≡◌, refl, ap, ◌∙◌, sym, subst, none, some, Bool, true, false,
  List, ◌++◌, map, ltb, leb, ◌==◌, if◌then◌else◌, length, drop, arith, All, length-drop, drop-drop,
  inl, inr, ◌⊎◌, Bool-cases,
}
use hashcodecs_rs.Word.{IsByte}
use hashcodecs_rs.Base64.Output.{Memory, ok, err, ◌>>=◌, ◌>>◌, pure, stored, output_too_small}
use hashcodecs_rs.Base64.Output.Laws.{run, run_value}
use hashcodecs_rs.Base64.Encode.{alphabet_of, usize_mod}
use hashcodecs_rs.Base64.Encode.Api.{padded_len, length-encode, encoded_len_fits}
use hashcodecs_rs.Base64.Wrapped.Lines.{wrap}
use hashcodecs_rs.Base64.Wrapped.Encoding.{
  text, encode_wrapped_to_ptr_cached-wrap, encode_wrapped_to_ptr_custom-wrap,
}
use hashcodecs_rs.Bindings.Encoder.{
  EncodeAlphabet, standard, url_safe, custom, EncodePadding, padded, unpadded, is_padded,
  LineWrapping, no_lines, columns, PreparedEncoder, data_len, output_len, direct_wrap_width,
  encode_unwrapped_ptr, direct_wrapped_input_threshold, wrap_encoded_ptr, encode_to_ptr,
  encode_direct_to_ptr, encode_slice_to_ptr,
}
use hashcodecs_rs.Base64.Wrapped.Whole.{length-wrap}
use hashcodecs_rs.Bindings.Encoder.InPlace.{wrap_encoded_ptr-wrap}
use hashcodecs_rs.Bindings.Encoder.Text.{
  table, in_lines, encoded, IsAligned, length-text, unpadded_len_fits, unwrapped-text,
}

module _ (input : List ℕ) (h : All IsByte input)
    (counted : padded_len (length input) < usize_mod) where
  data_len-text :
      (encoder : PreparedEncoder)
      → data_len encoder (length input)
        ≡ some (length (text (is_padded encoder.padding) (table encoder.alphabet) input))
  unfolding data_len is_padded
  data_len-text encoder = by_padding encoder.padding
    where
      by_padding :
          (padding : EncodePadding)
          → data_len (record encoder { padding = padding }) (length input)
            ≡ some (length (text (is_padded padding) (table encoder.alphabet) input))
      by_padding padded =
          unfold text in
          encoded_len_fits (length input) counted
          ∙ ap some (sym (length-encode (table encoder.alphabet) input))
      by_padding unpadded =
          unpadded_len_fits (length input) counted
          ∙ ap some (sym (length-text (table encoder.alphabet) input))

  output_len-encoded :
      (encoder : PreparedEncoder)
      → IsAligned encoder.wrapping
      → length (encoded encoder input) < usize_mod
      → output_len encoder (length input) ≡ some (length (encoded encoder input))
  unfolding output_len encoded in_lines IsAligned
  output_len-encoded encoder = by_wrapping encoder.wrapping
    where
      symbols : List ℕ
      symbols = text (is_padded encoder.padding) (table encoder.alphabet) input

      by_wrapping :
          (wrapping : LineWrapping)
          → IsAligned wrapping
          → length (in_lines wrapping symbols) < usize_mod
          → output_len (record encoder { wrapping = wrapping }) (length input)
            ≡ some (length (in_lines wrapping symbols))
      by_wrapping no_lines aligned small =
          rw (data_len-text (record encoder { wrapping = no_lines })) refl
      by_wrapping (columns width) (wide, _) small =
          let n = length symbols in
          let size : length (wrap width symbols) ≡ n + (n - 1) / width =
            length-wrap width (omega arith) symbols in
          let whole : (n + (n - 1) / width) % usize_mod ≡ n + (n - 1) / width = omega arith in
          rw (data_len-text (record encoder { wrapping = columns width }), whole, size)
            (elim (Bool-cases (n == 0)) [
              | inl e ↦
                  let none_left : (n - 1) / width ≡ 0 = div-eq_of_lt (ground arith) in
                  rw (e, none_left) (ap some (omega arith))
              | inr e ↦ rw e refl
            ])

  -- The route for small inputs.
  encode_to_ptr-encoded :
      (encoder : PreparedEncoder) (mem : Memory)
      → IsAligned encoder.wrapping
      → length (encoded encoder input) ≤ length mem
      → encode_to_ptr encoder input mem ≡ ok tt (stored 0 (encoded encoder input) mem)
  unfolding encode_to_ptr encoded in_lines IsAligned
  encode_to_ptr-encoded encoder mem = by_wrapping encoder.wrapping
    where
      symbols : List ℕ
      symbols = text (is_padded encoder.padding) (table encoder.alphabet) input

      by_wrapping :
          (wrapping : LineWrapping)
          → IsAligned wrapping
          → length (in_lines wrapping symbols) ≤ length mem
          → encode_to_ptr (record encoder { wrapping = wrapping }) input mem
            ≡ ok tt (stored 0 (in_lines wrapping symbols) mem)
      by_wrapping no_lines aligned fits =
          unwrapped-text input h counted false encoder.alphabet encoder.padding mem fits
      by_wrapping (columns width) (wide, _) fits =
          let n = length symbols in
          let q = (n - 1) / width in
          let rest = drop (0 + n) mem in
          let size : length (wrap width symbols) ≡ n + q =
            length-wrap width (omega arith) symbols in
          run (encode_unwrapped_ptr true input encoder.alphabet encoder.padding) _ mem
            (stored 0 symbols mem)
            (unwrapped-text input h counted true encoder.alphabet encoder.padding mem (omega arith))
          ∙ rw (data_len-text (record encoder { wrapping = columns width })) (
              run_value (wrap_encoded_ptr n width) (λ _. pure tt) 0 (stored 0 symbols mem)
                (map some (wrap width symbols) ++ drop q rest)
                (wrap_encoded_ptr-wrap width (omega arith) symbols rest
                  (omega (arith, length-drop (0 + n) mem))))
          ∙ ap (λ t. ok tt (map some (wrap width symbols) ++ t))
              (drop-drop q (0 + n) mem ∙ ap (λ m. drop m mem) (omega arith))

  -- The route for large inputs.
  encode_direct_to_ptr-encoded :
      (encoder : PreparedEncoder) (width : ℕ) (mem : Memory)
      → 4 ≤ width
      → width % 4 ≡ 0
      → let symbols = text (is_padded encoder.padding) (table encoder.alphabet) input in
        length (wrap width symbols) ≤ length mem
        → encode_direct_to_ptr encoder input width mem ≡ ok tt (stored 0 (wrap width symbols) mem)
  unfolding encode_direct_to_ptr table alphabet_of wrap
  encode_direct_to_ptr-encoded encoder width mem wide aligned = by_alphabet encoder.alphabet
    where
      is_padded' : Bool
      is_padded' = is_padded encoder.padding

      by_alphabet :
          (alphabet : EncodeAlphabet)
          → length (wrap width (text is_padded' (table alphabet) input)) ≤ length mem
          → encode_direct_to_ptr (record encoder { alphabet = alphabet }) input width mem
            ≡ ok tt (stored 0 (wrap width (text is_padded' (table alphabet) input)) mem)
      by_alphabet standard fits =
          rw
            (
              ◌>>=◌,
              encode_wrapped_to_ptr_cached-wrap input is_padded' width mem h wide aligned false
                  fits,
            )
            refl
      by_alphabet url_safe fits =
          rw
            (
              ◌>>=◌,
              encode_wrapped_to_ptr_cached-wrap input is_padded' width mem h wide aligned true fits,
            )
            refl
      by_alphabet (custom alphabet) fits =
          rw
            (
              ◌>>=◌,
              encode_wrapped_to_ptr_custom-wrap input is_padded' width mem h wide aligned alphabet
                  fits,
            )
            refl

  -- The route that is taken.
  route :
      (encoder : PreparedEncoder)
      → (direct_wrap_width encoder (length input) ≡ some none)
        ⊎ ((width : ℕ) × (direct_wrap_width encoder (length input) ≡ some (some width))
            × (encoder.wrapping ≡ columns width))
  unfolding direct_wrap_width
  route encoder = by_wrapping encoder.wrapping
    where
      n : ℕ
      n = length input

      by_wrapping :
          (wrapping : LineWrapping)
          → (direct_wrap_width (record encoder { wrapping = wrapping }) n ≡ some none)
            ⊎ ((width : ℕ) × (direct_wrap_width (record encoder { wrapping = wrapping }) n
                  ≡ some (some width))
                × (wrapping ≡ columns width))
      by_wrapping no_lines = inl (ground arith)
      by_wrapping (columns width) =
          let size = data_len-text (record encoder { wrapping = columns width }) in
          let symbols = text (is_padded encoder.padding) (table encoder.alphabet) input in
          elim (Bool-cases (leb n direct_wrapped_input_threshold)) [
            | inl small ↦ inl (rw small refl)
            | inr large ↦ elim (Bool-cases (ltb width (length symbols))) [
              | inl several ↦ inr (width, rw (large, size, several) refl, refl)
              | inr one ↦ inl (rw (large, size, one) refl)
            ]
          ]

  -- For all bytes whose padded encoding has a length in usize, every prepared encoder whose lines,
  -- if any, have a width that is a multiple of four and at least four, and an output of any size,
  -- if the text of the encoder has a length in usize: encode_slice_to_ptr refuses an output that
  -- is too small for it, with both lengths, and leaves the output unchanged; else it stores the
  -- text (the RFC 4648 encoding of the alphabet, with or without padding, in lines if asked),
  -- keeps the cells behind it, and returns its length, on each of its routes.
  pub encode_slice_to_ptr-encoded :
      (encoder : PreparedEncoder) (mem : Memory)
      → IsAligned encoder.wrapping
      → length (encoded encoder input) < usize_mod
      → encode_slice_to_ptr input (length mem) encoder mem ≡ (
          if ltb (length mem) (length (encoded encoder input))
          then err (output_too_small (length (encoded encoder input)) (length mem)) mem
          else ok (length (encoded encoder input)) (stored 0 (encoded encoder input) mem))
  unfolding encode_slice_to_ptr
  encode_slice_to_ptr-encoded encoder mem aligned small =
      elim (Bool-cases (ltb (length mem) (length (encoded encoder input)))) [
        | inl short ↦ rw (output_len-encoded encoder aligned small, short) refl
        | inr room ↦ elim (route encoder) [
          | inl e ↦
              rw
                (
                  output_len-encoded encoder aligned small,
                  room,
                  e,
                  ◌>>◌,
                  ◌>>=◌,
                  encode_to_ptr-encoded encoder mem aligned (ground arith),
                )
                refl
          | inr (width, e, w) ↦
              let wide_aligned : (4 ≤ width) × (width % 4 ≡ 0) =
                unfold IsAligned in subst IsAligned w aligned in
              let symbols = text (is_padded encoder.padding) (table encoder.alphabet) input in
              let whole : encoded encoder input ≡ wrap width symbols =
                unfold encoded in_lines in ap (λ x. in_lines x symbols) w in
              rw (output_len-encoded encoder aligned small, room, e)
                (run (encode_direct_to_ptr encoder input width)
                  (pure (length (encoded encoder input))) mem (stored 0 (encoded encoder input) mem)
                  (encode_direct_to_ptr-encoded encoder width mem wide_aligned.0 wide_aligned.1
                      (rw (← whole) (ground arith))
                    ∙ ap (λ t. ok tt (stored 0 t mem)) (sym whole)))
        ]
      ]
