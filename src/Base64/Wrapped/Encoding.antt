-- ===== src/Base64/Wrapped/Encoding.antt =====
-- The wrapped and the custom encoders of base64/encode/api.rs against RFC 4648 text in lines.
use native.Mathlib.Nat.{add-zero}
use hashcodecs_rs.Common.{
  ℕ, ◌+◌, ◌-◌, ◌*◌, ◌/◌, ◌%◌, ◌≤◌, ◌<◌, ◌≡◌, refl, ap, ◌∙◌, sym, some, Bool, true, false, List, [],
  ◌∷◌, ◌++◌, ltb, ◌==◌, if◌then◌else◌, length, take, replicate, suc, arith, All, Bool-cases, inl,
  inr,
}
use hashcodecs_rs.Word.{IsByte}
use hashcodecs_rs.Base64.Output.{Memory, ok, ◌>>=◌, stored, initialized}
use hashcodecs_rs.Base64.Output.Laws.{stored-nil}
use hashcodecs_rs.Base64.Rfc4648.{encode}
use hashcodecs_rs.Base64.Encode.{encode_scalar_ptr_with_alphabet, alphabet_of}
use hashcodecs_rs.Base64.Encode.Scalar.{scalar-encode}
use hashcodecs_rs.Base64.Encode.Api.{padded_len, length-encode, encoded_len_fits}
use hashcodecs_rs.Base64.Decode.Loops.{>>=_assoc}
use hashcodecs_rs.Base64.Wrapped.{
  CustomEncodeAlphabet, WrappedOutput, encode_to_ptr_with_custom_alphabet,
  encode_custom_with_runtime_backend, in_array, wrapped_sixes, written_len, write_bytes,
  encode_scalar_wrapped_with_alphabet, encode_scalar_wrapped, encode_wrapped_to_ptr_cached,
  encode_wrapped_to_ptr_custom, encode_wrapped_with_runtime_backend,
  encode_wrapped_custom_with_runtime_backend, new,
}
use hashcodecs_rs.Base64.Wrapped.Lines.{
  wrap_at, wrap, room_after, position, write_bytes-wrap_at, quads_room, written, written_parts,
}

-- The symbols of `n` bytes without padding.
abbrev pub unpadded_symbols : ℕ → ℕ
unpadded_symbols n = (n * 8 + 5) / 6

-- The encoding, its padding left out on demand.
unfoldable pub text : Bool → List ℕ → List ℕ → List ℕ
text padded alphabet input =
    if padded
    then encode alphabet input
    else take (unpadded_symbols (length input)) (encode alphabet input)

-- What an array of eight bytes holds behind the text: a chunk of fewer than seven bytes.
abbrev in_eight : List ℕ → List ℕ
in_eight xs = xs ++ replicate (8 - length xs) 0

module _ (alphabet : List ℕ) where
  in_array-encode :
      (chunk : List ℕ)
      → All IsByte chunk
      → length (encode alphabet chunk) ≤ 8
      → in_array 8 (encode_scalar_ptr_with_alphabet chunk 0 alphabet)
        ≡ initialized (stored 0 (encode alphabet chunk) (replicate 8 (some 0)))
  unfolding in_array
  in_array-encode chunk h fits =
      rw (in_array, scalar-encode alphabet chunk 0 (replicate 8 (some 0)) h (omega arith)) refl

  filled :
      (xs : List ℕ)
      → 0 < length xs
      → length xs < 7
      → initialized (stored 0 (encode alphabet xs) (replicate 8 (some 0)))
        ≡ some (in_eight (encode alphabet xs))
  unfolding encode initialized
  filled [] p s = absurd (omega arith)
  filled (a ∷ []) p s = refl
  filled (a ∷ b ∷ []) p s = refl
  filled (a ∷ b ∷ c ∷ []) p s = refl
  filled (a ∷ b ∷ c ∷ d ∷ []) p s = refl
  filled (a ∷ b ∷ c ∷ d ∷ e ∷ []) p s = refl
  filled (a ∷ b ∷ c ∷ d ∷ e ∷ f ∷ []) p s = refl
  filled (a ∷ b ∷ c ∷ d ∷ e ∷ f ∷ g ∷ rest) p s = absurd (omega arith)

  in_eight-encode :
      (chunk : List ℕ)
      → All IsByte chunk
      → 0 < length chunk
      → length chunk < 7
      → in_array 8 (encode_scalar_ptr_with_alphabet chunk 0 alphabet)
        ≡ some (in_eight (encode alphabet chunk))
  in_eight-encode chunk h p s =
      in_array-encode chunk h (omega (arith, length-encode alphabet chunk)) ∙ filled chunk p s

  text_six :
      (padded : Bool) (a b c d e f : ℕ) (rest : List ℕ)
      → text padded alphabet (a ∷ b ∷ c ∷ d ∷ e ∷ f ∷ rest)
        ≡ encode alphabet (a ∷ b ∷ c ∷ d ∷ e ∷ f ∷ []) ++ text padded alphabet rest
  unfolding text encode
  text_six true a b c d e f rest = refl
  text_six false a b c d e f rest =
      let n : unpadded_symbols (length (a ∷ b ∷ c ∷ d ∷ e ∷ f ∷ rest))
          ≡ suc (suc (suc (suc (suc (suc (suc (suc (unpadded_symbols (length rest))))))))) =
        omega arith in
      ap (λ m. take m (encode alphabet (a ∷ b ∷ c ∷ d ∷ e ∷ f ∷ rest))) n

  tail_text :
      (padded : Bool) (tail : List ℕ)
      → length tail < 6
      → 0 < length tail
      → take
          (written_len (length tail) (padded_len (length tail)) padded)
          (in_eight (encode alphabet tail))
        ≡ text padded alphabet tail
  unfolding written_len text encode
  tail_text padded [] s p = absurd (omega arith)
  tail_text true (a ∷ []) s p = refl
  tail_text false (a ∷ []) s p = refl
  tail_text true (a ∷ b ∷ []) s p = refl
  tail_text false (a ∷ b ∷ []) s p = refl
  tail_text true (a ∷ b ∷ c ∷ []) s p = refl
  tail_text false (a ∷ b ∷ c ∷ []) s p = refl
  tail_text true (a ∷ b ∷ c ∷ d ∷ []) s p = refl
  tail_text false (a ∷ b ∷ c ∷ d ∷ []) s p = refl
  tail_text true (a ∷ b ∷ c ∷ d ∷ e ∷ []) s p = refl
  tail_text false (a ∷ b ∷ c ∷ d ∷ e ∷ []) s p = refl
  tail_text padded (a ∷ b ∷ c ∷ d ∷ e ∷ f ∷ rest) s p = absurd (omega arith)

  wrapped_six :
      (padded : Bool) (self : WrappedOutput) (a b c d e f : ℕ) (rest : List ℕ) (mem : Memory)
      → All IsByte (a ∷ b ∷ c ∷ d ∷ e ∷ f ∷ [])
      → encode_scalar_wrapped_with_alphabet (a ∷ b ∷ c ∷ d ∷ e ∷ f ∷ rest) self alphabet padded mem
        ≡ (write_bytes self (encode alphabet (a ∷ b ∷ c ∷ d ∷ e ∷ f ∷ [])) >>= λ self'.
              encode_scalar_wrapped_with_alphabet rest self' alphabet padded)
            mem
  unfolding encode_scalar_wrapped_with_alphabet wrapped_sixes
  wrapped_six padded self a b c d e f rest mem h =
      let chunk = a ∷ b ∷ c ∷ d ∷ e ∷ f ∷ [] in
      let e : in_array 8 (encode_scalar_ptr_with_alphabet chunk 0 alphabet)
          ≡ some (encode alphabet chunk) =
        in_eight-encode chunk h (omega arith) (omega arith) ∙ (unfold encode in refl) in
      rw e (
        >>=_assoc (write_bytes self (encode alphabet chunk))
          (λ self'. wrapped_sixes alphabet rest self') _ mem)

  wrapped_sixes_short :
      (self : WrappedOutput) (tail : List ℕ) (mem : Memory)
      → length tail < 6
      → wrapped_sixes alphabet tail self mem ≡ ok (tail, self) mem
  unfolding wrapped_sixes
  wrapped_sixes_short self (a ∷ b ∷ c ∷ d ∷ e ∷ f ∷ rest) mem s = absurd (omega arith)
  wrapped_sixes_short self _ mem s = refl

  wrapped_tail :
      (padded : Bool) (self : WrappedOutput) (tail : List ℕ) (mem : Memory)
      → All IsByte tail
      → length tail < 6
      → 0 < length tail
      → encode_scalar_wrapped_with_alphabet tail self alphabet padded mem
        ≡ write_bytes self (text padded alphabet tail) mem
  unfolding encode_scalar_wrapped_with_alphabet
  wrapped_tail padded self tail mem h s p =
      let n : (length tail == 0) ≡ false = ground arith in
      rw
        (
          ◌>>=◌,
          wrapped_sixes_short self tail mem s,
          n,
          in_eight-encode tail h p (omega arith),
          encoded_len_fits (length tail) (omega arith),
          tail_text padded tail s p,
        )
        refl

  module _ (width : ℕ) (wide : 4 ≤ width) (aligned : width % 4 ≡ 0) where
    pub encode_scalar_wrapped-wrap_at :
        (padded : Bool) (room k : ℕ) (input : List ℕ) (mem : Memory)
        → All IsByte input
        → room ≤ width
        → room % 4 ≡ 0
        → k + length (wrap_at width room (text padded alphabet input)) ≤ length mem
        → encode_scalar_wrapped_with_alphabet input (position k width room) alphabet padded mem
          ≡ written k width room (text padded alphabet input) mem
    encode_scalar_wrapped-wrap_at true room k [] mem h r g fits =
        unfold encode_scalar_wrapped_with_alphabet wrapped_sixes text encode wrap_at room_after in
        rw (stored-nil k mem (omega arith), add-zero) refl
    encode_scalar_wrapped-wrap_at false room k [] mem h r g fits =
        unfold encode_scalar_wrapped_with_alphabet wrapped_sixes text encode wrap_at room_after in
        rw (stored-nil k mem (omega arith), add-zero) refl
    encode_scalar_wrapped-wrap_at padded room k (a ∷ b ∷ c ∷ d ∷ e ∷ f ∷ rest) mem
          (ha, (hb, (hc, (hd, (he, (hf, h)))))) r g fits =
        let chunk = a ∷ b ∷ c ∷ d ∷ e ∷ f ∷ [] in
        let h6 : All IsByte chunk = (ha, (hb, (hc, (hd, (he, (hf, tt)))))) in
        let eight = encode alphabet chunk in
        let more = text padded alphabet rest in
        let split : text padded alphabet (a ∷ b ∷ c ∷ d ∷ e ∷ f ∷ rest) ≡ eight ++ more =
          text_six padded a b c d e f rest in
        let parts = written_parts k width room eight more mem (rw (← split) fits) in
        let q = quads_room width wide aligned room eight r g (unfold encode in refl) in
        let first = wrap_at width room eight in
        let one : write_bytes (position k width room) eight mem ≡ written k width room eight mem =
          write_bytes-wrap_at width wide aligned room k eight mem r g parts.1 in
        let next : encode_scalar_wrapped_with_alphabet (a ∷ b ∷ c ∷ d ∷ e ∷ f ∷ rest)
              (position k width room) alphabet padded mem
            ≡ encode_scalar_wrapped_with_alphabet rest
                (position (k + length first) width (room_after width room eight)) alphabet padded
                (stored k first mem) =
          rw (wrapped_six padded (position k width room) a b c d e f rest mem h6, ◌>>=◌, one)
            refl in
        next
        ∙ encode_scalar_wrapped-wrap_at padded (room_after width room eight) (k + length first) rest
            (stored k first mem) h q.0 q.1 parts.0
        ∙ parts.2
        ∙ ap (λ t. written k width room t mem) (sym split)
    encode_scalar_wrapped-wrap_at padded room k tail mem h r g fits =
        wrapped_tail padded (position k width room) tail mem h (omega arith) (omega arith)
        ∙ write_bytes-wrap_at width wide aligned room k (text padded alphabet tail) mem r g fits

-- The writer at the start of the output.
start : (width : ℕ) → new 0 width ≡ position 0 width width
unfolding new
start width = ap (λ c. record { output = 0; width = width; column = c }) (omega arith)

module _ (input : List ℕ) (padded : Bool) (width : ℕ) (mem : Memory) (h : All IsByte input)
    (wide : 4 ≤ width) (aligned : width % 4 ≡ 0) where
  from_start :
      (alphabet : List ℕ)
      → length (wrap width (text padded alphabet input)) ≤ length mem
      → encode_scalar_wrapped_with_alphabet input (new 0 width) alphabet padded mem
        ≡ written 0 width width (text padded alphabet input) mem
  unfolding wrap
  from_start alphabet fits = rw (start width) (
      encode_scalar_wrapped-wrap_at alphabet width wide aligned padded width 0 input mem h
        (omega arith) aligned (omega arith))

  -- For all bytes, with or without padding, either alphabet, and every width that is a multiple of
  -- four and at least four, if the output has room for the text in lines,
  -- encode_wrapped_to_ptr_cached stores the RFC 4648 text with a line break after each full line
  -- that is not the last, keeps the cells behind it, and stands behind the text.
  pub encode_wrapped_to_ptr_cached-wrap :
      (urlsafe : Bool)
      → length (wrap width (text padded (alphabet_of urlsafe) input)) ≤ length mem
      → encode_wrapped_to_ptr_cached input urlsafe padded width mem
        ≡ written 0 width width (text padded (alphabet_of urlsafe) input) mem
  unfolding encode_wrapped_to_ptr_cached encode_wrapped_with_runtime_backend encode_scalar_wrapped
  encode_wrapped_to_ptr_cached-wrap urlsafe fits = elim (Bool-cases (ltb (length input) 16)) [
    | inl s ↦ rw s (from_start (alphabet_of urlsafe) fits)
    | inr s ↦ rw s (from_start (alphabet_of urlsafe) fits)
  ]

  -- For all bytes, with or without padding, every alphabet of the caller, and every width that is
  -- a multiple of four and at least four, if the output has room for the text in lines,
  -- encode_wrapped_to_ptr_custom stores the text in this alphabet with a line break after each
  -- full line that is not the last, keeps the cells behind it, and stands behind the text.
  pub encode_wrapped_to_ptr_custom-wrap :
      (alphabet : CustomEncodeAlphabet)
      → length (wrap width (text padded alphabet.table input)) ≤ length mem
      → encode_wrapped_to_ptr_custom input alphabet padded width mem
        ≡ written 0 width width (text padded alphabet.table input) mem
  unfolding encode_wrapped_to_ptr_custom encode_wrapped_custom_with_runtime_backend
  encode_wrapped_to_ptr_custom-wrap alphabet fits = elim (Bool-cases (ltb (length input) 16)) [
    | inl s ↦ rw s (from_start alphabet.table fits)
    | inr s ↦ elim (Bool-cases alphabet.has_standard_prefix) [
      | inl p ↦ rw (s, p) (from_start alphabet.table fits)
      | inr p ↦ rw (s, p) (from_start alphabet.table fits)
    ]
  ]

-- For all bytes, every alphabet of the caller, and an output with room for the padded text,
-- encode_to_ptr_with_custom_alphabet stores the RFC 4648 encoding in this alphabet and keeps the
-- cells behind it.
pub encode_to_ptr_with_custom_alphabet-encode :
    (input : List ℕ) (alphabet : CustomEncodeAlphabet) (cached : Bool) (mem : Memory)
    → All IsByte input
    → padded_len (length input) ≤ length mem
    → encode_to_ptr_with_custom_alphabet input alphabet cached mem
      ≡ ok tt (stored 0 (encode alphabet.table input) mem)
unfolding encode_to_ptr_with_custom_alphabet encode_custom_with_runtime_backend
encode_to_ptr_with_custom_alphabet-encode input alphabet cached mem h fits =
    let done =
      scalar-encode alphabet.table input 0 mem h
        (omega (arith, length-encode alphabet.table input)) in
    elim (Bool-cases (ltb (length input) 16)) [
      | inl s ↦ rw s done
      | inr s ↦ elim (Bool-cases alphabet.has_standard_prefix) [
        | inl p ↦ rw (s, p) done
        | inr p ↦ rw (s, p) done
      ]
    ]
