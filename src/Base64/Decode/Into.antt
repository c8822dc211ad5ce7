-- ===== src/Base64/Decode/Into.antt =====
-- Decoding into an output of the caller, in base64/decode/api.rs and
-- bindings/base64/strict.rs, against RFC 4648.
use hashcodecs_rs.Common.{
  ℕ, zero, suc, ◌+◌, ◌%◌, ◌≤◌, ◌≡◌, ◌≢◌, refl, ap, ◌∙◌, sym, Option, none, some, Bool, true, false,
  List, [], ◌∷◌, ◌++◌, map, ltb, leb, ◌==◌, length, take, drop, arith, All, Bool-cases, inl, inr,
  length-take, take-append-drop, append_assoc,
}
use hashcodecs_rs.Word.{IsByte}
use hashcodecs_rs.Base64.Alphabet.{table_of}
use hashcodecs_rs.Base64.Output.{
  Memory, Outcome, err, Write, ◌>>=◌, ◌>>◌, pure, len, on_prefix, stored, invalid_input,
  output_too_small,
}
use hashcodecs_rs.Base64.Rfc4648.{decode, decoded_size}
use hashcodecs_rs.Base64.Decode.{b64decode_into_with_alphabet}
use hashcodecs_rs.Base64.Decode.Size.{decoded_size-whole, decoded_size-ragged}
use hashcodecs_rs.Base64.Decode.Loops.{Follows}
use hashcodecs_rs.Base64.Decode.Layout.{
  output_len_of, decode_layout-good, decode_layout-bad, length-decode, chosen,
}
use hashcodecs_rs.Base64.Decode.Api.{slice-Follows}

drop-append_short :
    {A : Type 0} (n : ℕ) (xs ys : List A) → n ≤ length xs → drop n (xs ++ ys) ≡ drop n xs ++ ys
drop-append_short zero xs ys h = refl
drop-append_short (suc n) [] ys h = absurd (omega arith)
drop-append_short (suc n) (x ∷ xs) ys h = drop-append_short n xs ys (omega arith)

-- A store in a prefix of the memory.
stored_prefix :
    (bytes : List ℕ) (n : ℕ) (mem : Memory)
    → length bytes ≤ n
    → n ≤ length mem
    → stored 0 bytes (take n mem) ++ drop n mem ≡ stored 0 bytes mem
stored_prefix bytes n mem h fits =
    append_assoc (map some bytes) (drop (0 + length bytes) (take n mem)) (drop n mem)
    ∙ ap (λ t. map some bytes ++ t)
        (sym (
            drop-append_short (0 + length bytes) (take n mem) (drop n mem)
              (omega (arith, length-take n mem)))
          ∙ ap (drop (0 + length bytes)) (take-append-drop n mem))

-- A decoder of `n` bytes on a prefix of the output.
pub prefix-Follows :
    (n : ℕ) (o : Option (List ℕ)) (m : Write (Unit {0})) (mem : Memory)
    → ((bytes : List ℕ) → o ≡ some bytes → length bytes ≡ n)
    → n ≤ length mem
    → Follows 0 n (take n mem) o tt (m (take n mem))
    → Follows 0 n mem o n ((on_prefix n m >> pure n) mem)
unfolding on_prefix
prefix-Follows n none m mem size fits (junk, e, l) =
    let room : leb n (length mem) ≡ true = ground arith in
    (junk, rw (◌>>◌, ◌>>=◌, room, e, stored_prefix junk n mem l fits) refl, l)
prefix-Follows n (some bytes) m mem size fits e =
    let room : leb n (length mem) ≡ true = ground arith in
    let l : length bytes ≡ n = size bytes refl in
    rw (◌>>◌, ◌>>=◌, room, e, stored_prefix bytes n mem (omega arith) fits) refl

-- What a decoder into an output of `length mem` bytes does with text that stands for `n` bytes: it
-- reports an output that is too small, with both lengths, and leaves it unchanged; else it decodes.
unfoldable pub InRoom : Bool → ℕ → Memory → Option (List ℕ) → Outcome ℕ → Type 0
InRoom true n mem o x = x ≡ err (output_too_small n (length mem)) mem
InRoom false n mem o x = Follows 0 n mem o n x

-- Text whose length is wrong stands for no number of bytes.
unfoldable pub Attempt : Option ℕ → Memory → Option (List ℕ) → Outcome ℕ → Type 0
unfolding InRoom
Attempt none mem o x = x ≡ err invalid_input mem
Attempt (some n) mem o x = InRoom (ltb (length mem) n) n mem o x

-- For all bytes, either alphabet, and a destination of any size, b64decode_into_with_alphabet
-- returns InvalidInput if the length of the text is wrong, and OutputTooSmall with both lengths if
-- the destination has fewer cells than the text stands for by RFC 4648, and leaves the destination
-- unchanged then; else it stores the bytes that RFC 4648 assigns to the text, keeps the cells
-- behind them and returns their number, or returns InvalidInput with at most that many cells
-- overwritten.
pub b64decode_into-Attempt :
    (input : List ℕ) (urlsafe : Bool)
    → All IsByte input
    → (mem : Memory)
    → Attempt
        (decoded_size input)
        mem
        (decode (table_of (chosen urlsafe)) input)
        (b64decode_into_with_alphabet input urlsafe mem)
unfolding b64decode_into_with_alphabet Attempt InRoom len
b64decode_into-Attempt input urlsafe h mem = elim (Bool-cases (length input % 4 == 0)) [
  | inr ragged ↦
      let m : length input % 4 ≢ 0 = ground arith in
      rw (decode_layout-bad input m, decoded_size-ragged input m) refl
  | inl whole ↦
      let m : length input % 4 ≡ 0 = ground arith in
      let n = output_len_of input in
      let table = table_of (chosen urlsafe) in
      elim (Bool-cases (ltb (length mem) n)) [
        | inl small ↦ rw (decode_layout-good input m, decoded_size-whole input m, small) refl
        | inr room ↦
            rw (decode_layout-good input m, decoded_size-whole input m, room)
              (prefix-Follows n (decode table input) _ mem
                (λ bytes e. length-decode table input bytes e) (ground arith)
                (slice-Follows input urlsafe h (take n mem) m (ground (arith, length-take n mem))))
      ]
]
