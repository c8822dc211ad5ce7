-- ===== src/Bindings/Encoder/Text.antt =====
-- What a prepared encoder of src/bindings/base64/encode.rs stands for, and its text without lines.

use hashcodecs_rs.Common.{
  ℕ, suc, ◌+◌, ◌*◌, ◌/◌, ◌%◌, ◌≤◌, ◌<◌, ◌≡◌, refl, ap, ◌∙◌, sym, Option, none, some, Bool, true,
  false, List, [], ◌∷◌, ◌++◌, ◌==◌, length, take, drop, replicate, arith, All, All-take, All-drop,
  length-append, length-take, length-drop, take-append-drop, drop_all, append-nil, inl, inr,
  Bool-cases,
}
use hashcodecs_rs.Word.{IsByte}
use hashcodecs_rs.Base64.Alphabet.{standard_alphabet, urlsafe_alphabet}
use hashcodecs_rs.Base64.Alphabet.Tables.{at}
use hashcodecs_rs.Base64.Output.{Memory, ok, ◌>>=◌, pure, or_fault, write, stored, initialized}
use hashcodecs_rs.Base64.Output.Laws.{length-stored, stored-stored, write-stored, run}
use hashcodecs_rs.Base64.Rfc4648.{encode}
use hashcodecs_rs.Base64.Encode.{alphabet_of, usize_mod}
use hashcodecs_rs.Base64.Encode.Api.{
  padded_len, length-encode, encoded_len_fits, encode_to_ptr-encode, encode_to_ptr_cached-encode,
}
use hashcodecs_rs.Base64.Wrapped.{in_array}
use hashcodecs_rs.Base64.Wrapped.Lines.{wrap}
use hashcodecs_rs.Base64.Wrapped.Encoding.{
  text, unpadded_symbols, encode_to_ptr_with_custom_alphabet-encode,
}
use hashcodecs_rs.Bindings.Encoder.{
  EncodeAlphabet, standard, url_safe, custom, EncodePadding, padded, unpadded, is_padded,
  LineWrapping, no_lines, columns, PreparedEncoder, encode_ptr, encode_unwrapped_ptr,
  unpadded_encoded_len, ℤ, pos, negsuc, normalize_wrapcol, new_wrapping,
}

-- The 64 symbols.
unfoldable pub table : EncodeAlphabet → List ℕ
table standard = standard_alphabet
table url_safe = urlsafe_alphabet
table (custom alphabet) = alphabet.table

-- The text in lines, on demand.
unfoldable pub in_lines : LineWrapping → List ℕ → List ℕ
in_lines no_lines symbols = symbols
in_lines (columns width) symbols = wrap width symbols

-- What an encoder stands for.
unfoldable pub encoded : PreparedEncoder → List ℕ → List ℕ
encoded encoder input =
    in_lines encoder.wrapping (text (is_padded encoder.padding) (table encoder.alphabet) input)

-- Lines of a positive number of quads.
unfoldable pub IsAligned : LineWrapping → Type 0
IsAligned no_lines = Unit
IsAligned (columns width) = (4 ≤ width) × (width % 4 ≡ 0)

-- For every integer, if normalize_wrapcol accepts it, the line width that it gives, if any, is a
-- multiple of four and at least four.
pub normalize_wrapcol-IsAligned :
    (wrapcol : ℤ) (width : Option ℕ)
    → normalize_wrapcol wrapcol ≡ inr width
    → IsAligned (new_wrapping width)
unfolding normalize_wrapcol new_wrapping
normalize_wrapcol-IsAligned wrapcol none e = unfold IsAligned in tt
normalize_wrapcol-IsAligned (negsuc n) (some width) e = unfold IsAligned in ground arith
normalize_wrapcol-IsAligned (pos n) (some width) e = unfold IsAligned in ground arith

encode_ptr-encode :
    (cached : Bool) (input : List ℕ) (alphabet : EncodeAlphabet) (mem : Memory)
    → All IsByte input
    → padded_len (length input) ≤ length mem
    → encode_ptr cached input alphabet mem ≡ ok tt (stored 0 (encode (table alphabet) input) mem)
unfolding encode_ptr table alphabet_of
encode_ptr-encode cached input (custom alphabet) mem h fits =
    encode_to_ptr_with_custom_alphabet-encode input alphabet cached mem h fits
encode_ptr-encode true input standard mem h fits =
    encode_to_ptr_cached-encode input false mem h fits
encode_ptr-encode false input standard mem h fits = encode_to_ptr-encode input false mem h fits
encode_ptr-encode true input url_safe mem h fits = encode_to_ptr_cached-encode input true mem h fits
encode_ptr-encode false input url_safe mem h fits = encode_to_ptr-encode input true mem h fits

-- Whole quanta keep their text.
text_split :
    (symbols xs ys : List ℕ)
    → length xs % 3 ≡ 0
    → text false symbols (xs ++ ys) ≡ encode symbols xs ++ text false symbols ys
unfolding text encode
text_split symbols [] ys e = refl
text_split symbols (a ∷ []) ys e = absurd (omega arith)
text_split symbols (a ∷ b ∷ []) ys e = absurd (omega arith)
text_split symbols (a ∷ b ∷ c ∷ xs) ys e =
    let n : unpadded_symbols (length (a ∷ b ∷ c ∷ (xs ++ ys)))
        ≡ suc (suc (suc (suc (unpadded_symbols (length (xs ++ ys)))))) =
      omega arith in
    ap (λ m. take m (encode symbols (a ∷ b ∷ c ∷ (xs ++ ys)))) n
    ∙ ap
        (λ t.
          at symbols (a / 4)
          ∷ at symbols (a % 4 * 16 + b / 16)
          ∷ at symbols (b % 16 * 4 + c / 64)
          ∷ at symbols (c % 64)
          ∷ t)
        (text_split symbols xs ys (omega arith))

text_nil : (symbols : List ℕ) → text false symbols [] ≡ []
unfolding text
text_nil symbols = refl

pub length-text :
    (symbols input : List ℕ) → length (text false symbols input) ≡ unpadded_symbols (length input)
unfolding text
length-text symbols input = omega (
  arith,
  length-take (unpadded_symbols (length input)) (encode symbols input),
  length-encode symbols input,
)

filled :
    (symbols tail : List ℕ)
    → 0 < length tail
    → length tail < 3
    → initialized (stored 0 (encode symbols tail) (replicate 4 (some 0)))
      ≡ some (encode symbols tail)
unfolding encode initialized
filled symbols [] p s = absurd (omega arith)
filled symbols (a ∷ []) p s = refl
filled symbols (a ∷ b ∷ []) p s = refl
filled symbols (a ∷ b ∷ c ∷ rest) p s = absurd (omega arith)

-- One or two bytes in an array of four.
in_four :
    (cached : Bool) (tail : List ℕ) (alphabet : EncodeAlphabet)
    → All IsByte tail
    → 0 < length tail
    → length tail < 3
    → in_array 4 (encode_ptr cached tail alphabet) ≡ some (encode (table alphabet) tail)
unfolding in_array
in_four cached tail alphabet h p s =
    rw (in_array, encode_ptr-encode cached tail alphabet (replicate 4 (some 0)) h (omega (arith)))
      (filled (table alphabet) tail p s)

pub unpadded_len_fits :
    (n : ℕ) → padded_len n < usize_mod → unpadded_encoded_len n ≡ some (unpadded_symbols n)
unfolding unpadded_encoded_len
unpadded_len_fits n counted = rw (encoded_len_fits n counted) (ground arith)

-- The text of the last one or two bytes, written through an array of four.
write_tail :
    (cached : Bool) (alphabet : EncodeAlphabet) (ys : List ℕ) (k : ℕ) (mem : Memory)
    → All IsByte ys
    → 0 < length ys
    → length ys < 3
    → k + length (text false (table alphabet) ys) ≤ length mem
    → (or_fault (in_array 4 (encode_ptr cached ys alphabet)) >>= λ encoded_tail.
          or_fault (unpadded_encoded_len (length ys)) >>= λ tail_len.
          write k (take tail_len encoded_tail))
        mem
      ≡ ok tt (stored k (text false (table alphabet) ys) mem)
unfolding text
write_tail cached alphabet ys k mem h p s fits =
    rw (in_four cached ys alphabet h p s, unpadded_len_fits (length ys) (omega arith))
      (write-stored k (text false (table alphabet) ys) mem fits)

module _ (input : List ℕ) (h : All IsByte input)
    (counted : padded_len (length input) < usize_mod) where
  -- The whole quanta, then the rest of the text.
  unpadded_parts :
      (cached : Bool) (alphabet : EncodeAlphabet) (mem : Memory)
      → length (text false (table alphabet) input) ≤ length mem
      → encode_unwrapped_ptr cached input alphabet unpadded mem
        ≡ ok tt (stored 0 (text false (table alphabet) input) mem)
  unfolding encode_unwrapped_ptr
  unpadded_parts cached alphabet mem fits =
      let a = length input / 3 * 3 in
      let xs = take a input in
      let ys = drop a input in
      let n : length xs ≡ a = omega (arith, length-take a input) in
      let m : length ys ≡ length input % 3 = omega (arith, length-drop a input) in
      let size = length-text (table alphabet) input in
      let whole : text false (table alphabet) input
          ≡ encode (table alphabet) xs ++ text false (table alphabet) ys =
        ap (text false (table alphabet)) (sym (take-append-drop a input))
        ∙ text_split (table alphabet) xs ys (omega arith) in
      let first =
        encode_ptr-encode cached xs alphabet mem (All-take IsByte a input h) (omega arith) in
      let k : length (encode (table alphabet) xs) ≡ a / 3 * 4 =
        length-encode (table alphabet) xs ∙ omega arith in
      let total : length (encode (table alphabet) xs) + length (text false (table alphabet) ys)
          ≤ length mem =
        omega (
          arith,
          ap length whole,
          length-append (encode (table alphabet) xs) (text false (table alphabet) ys),
        ) in
      elim (Bool-cases (a == length input)) [
        | inl e ↦
            let none_left : ys ≡ [] = drop_all a input (ground arith) in
            let front : text false (table alphabet) input ≡ encode (table alphabet) xs =
              whole
              ∙ ap (λ t. encode (table alphabet) xs ++ text false (table alphabet) t) none_left
              ∙ ap (λ t. encode (table alphabet) xs ++ t) (text_nil (table alphabet))
              ∙ append-nil (encode (table alphabet) xs) in
            rw (e, front)
              (run (encode_ptr cached xs alphabet) (pure tt) mem
                (stored 0 (encode (table alphabet) xs) mem) first)
        | inr e ↦
            let some_left : 0 < length ys = ground arith in
            let kept : length (stored 0 (encode (table alphabet) xs) mem) ≡ length mem =
              length-stored 0 (encode (table alphabet) xs) mem (omega arith) in
            rw (e, whole)
              (run (encode_ptr cached xs alphabet) _ mem (stored 0 (encode (table alphabet) xs) mem)
                  first
                ∙ write_tail cached alphabet ys (a / 3 * 4)
                    (stored 0 (encode (table alphabet) xs) mem) (All-drop IsByte a input h)
                    some_left (omega arith) (omega arith)
                ∙ ap (ok tt) (
                    ap
                      (λ i.
                        stored i (text false (table alphabet) ys)
                          (stored 0 (encode (table alphabet) xs) mem))
                      (omega arith)
                    ∙ stored-stored 0 (encode (table alphabet) xs) (text false (table alphabet) ys)
                        mem (omega arith)))
      ]

  pub unwrapped-text :
      (cached : Bool) (alphabet : EncodeAlphabet) (padding : EncodePadding) (mem : Memory)
      → length (text (is_padded padding) (table alphabet) input) ≤ length mem
      → encode_unwrapped_ptr cached input alphabet padding mem
        ≡ ok tt (stored 0 (text (is_padded padding) (table alphabet) input) mem)
  unfolding is_padded
  unwrapped-text cached alphabet unpadded mem fits = unpadded_parts cached alphabet mem fits
  unwrapped-text cached alphabet padded mem fits =
      unfold encode_unwrapped_ptr text in
      encode_ptr-encode cached input alphabet mem h
        (omega (arith, length-encode (table alphabet) input))
