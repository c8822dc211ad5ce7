-- ===== src/Base64/Decode/Api.antt =====
-- The padded decoding entry points of base64/decode/api.rs against the decoding of RFC 4648.
use hashcodecs_rs.Common.{
  ℕ, ◌+◌, ◌-◌, ◌*◌, ◌%◌, ◌≤◌, ◌<◌, ◌≡◌, ◌≢◌, inl, inr, Bool-cases, ◌==◌, refl, ap, ◌∙◌, subst,
  Option, none, some, Bool, true, false, if◌then◌else◌, List, [], ◌∷◌, ◌++◌, map, leb, length, take,
  drop, arith, All, length-append, length-take, length-drop, length-replicate, drop-append,
}
use hashcodecs_rs.Word.{IsByte}
use hashcodecs_rs.Base64.Alphabet.{table_of}
use hashcodecs_rs.Base64.Output.{
  Memory, Outcome, ok, err, len, stored, on_prefix, uninitialized, allocate_uninitialized_output,
  isize_mod, invalid_input,
}
use hashcodecs_rs.Base64.Output.Laws.{stored_full, assume_prefix, length-stored}
use hashcodecs_rs.Base64.Rfc4648.{decode, decoded_size}
use hashcodecs_rs.Base64.Decode.Size.{decoded_size-whole, decoded_size-ragged}
use hashcodecs_rs.Base64.Encode.{usize_mod}
use hashcodecs_rs.Base64.Decode.{
  Result, good, bad, padding_of, partial, decode_to_ptr_with_layout, b64decode_with_alphabet,
  b64decode_into_with_alphabet, decode_to_slice_with_layout,
  decode_to_slice_with_layout_and_alphabet, checked_slices, allocation_len, decoded,
}
use hashcodecs_rs.Base64.Decode.Loops.{Follows}
use hashcodecs_rs.Base64.Decode.Mode.{padding-bound}
use hashcodecs_rs.Base64.Decode.Layout.{
  output_len_of, layout_of, decode_layout-good, decode_layout-bad, decode-ragged, length-decode,
  chosen, chosen-IsTable, mode-Follows,
}

-- The `Result` of a decoding.
abbrev pub result_of : Option (List ℕ) → Result (List ℕ)
result_of none = bad invalid_input
result_of (some bytes) = good bytes

-- The bytes, with the four that the decoder may write behind them, are too many for one allocation.
abbrev pub too_many : Option ℕ → Bool
too_many none = false
too_many (some n) = leb isize_mod (n + 4)

decode-empty :
    (table input : List ℕ)
    → length input % 4 ≡ 0
    → output_len_of input ≡ 0
    → decode table input ≡ some []
unfolding decode
decode-empty table [] m e = refl
decode-empty table (a ∷ rest) m e = let p = padding-bound (a ∷ rest) in absurd (omega arith)

pub decode-whole : (table input xs : List ℕ) → decode table input ≡ some xs → length input % 4 ≡ 0
decode-whole table input xs e = elim (Bool-cases (length input % 4 == 0)) [
  | inl m ↦ ground arith
  | inr m ↦
      let ragged : length input % 4 ≢ 0 = ground arith in
      absurd (ground (arith, decode-ragged table input ragged))
]

Follows-some :
    (k n : ℕ) (mem : Memory) {o : Option (List ℕ)} {xs : List ℕ} {x : Outcome (Unit {0})}
    → o ≡ some xs
    → Follows k n mem o tt x
    → x ≡ ok tt (stored k xs mem)
Follows-some k n mem {o} {xs} {x} e h = subst (λ i. Follows k n mem i tt x) e h

Follows-none :
    (k n : ℕ) (mem : Memory) {o : Option (List ℕ)} {x : Outcome (Unit {0})}
    → o ≡ none
    → Follows k n mem o tt x
    → (junk : List ℕ) × (x ≡ err invalid_input (stored k junk mem)) × (length junk ≤ n)
Follows-none k n mem {o} {x} e h = subst (λ i. Follows k n mem i tt x) e h

module _ (input : List ℕ) (urlsafe : Bool) (bytes : All IsByte input) where
  abbrev table : List ℕ
  table = table_of (chosen urlsafe)

  -- What the private allocation holds when the decoder is done.
  decoded-Follows :
      (o : Option (List ℕ)) (n size : ℕ) (x : Outcome (Unit {0}))
      → ((xs : List ℕ) → o ≡ some xs → length xs ≡ n)
      → n ≤ size
      → Follows 0 n (uninitialized size) o tt x
      → decoded n x ≡ some (result_of o)
  unfolding decoded
  decoded-Follows none n size x l h (junk, e, b) = rw e refl
  decoded-Follows (some xs) n size x l h e = rw (e, assume_prefix xs n size (l xs refl) h) refl

  -- An allocation that is not too large.
  allocated :
      (size : ℕ) → size < isize_mod → allocate_uninitialized_output size ≡ some (uninitialized size)
  unfolding allocate_uninitialized_output
  allocated size h = ground arith

  too_large : (size : ℕ) → isize_mod ≤ size → allocate_uninitialized_output size ≡ none
  unfolding allocate_uninitialized_output
  too_large size h = ground arith

  allocation :
      (slack : Bool)
      → output_len_of input + 4 < isize_mod
      → (size : ℕ) × (allocation_len (output_len_of input) slack ≡ some size)
        × (output_len_of input ≤ size)
        × (size < isize_mod)
  unfolding allocation_len
  allocation true h = (output_len_of input + 4, ground arith, omega arith, omega arith)
  allocation false h = (output_len_of input, refl, omega arith, omega arith)

  allocation_slack :
      output_len_of input + 4 < usize_mod
      → allocation_len (output_len_of input) true ≡ some (output_len_of input + 4)
  unfolding allocation_len
  allocation_slack h = ground arith

  decode-laid_out :
      (slack : Bool)
      → length input % 4 ≡ 0
      → output_len_of input + 4 < isize_mod
      → elim (allocation_len (output_len_of input) slack) [
        | none ↦ none
        | some size ↦ elim (allocate_uninitialized_output size) [
          | none ↦ none
          | some mem ↦
              decoded
                (output_len_of input)
                (decode_to_ptr_with_layout input (layout_of input) (chosen urlsafe) slack mem)
        ]
      ]
        ≡ some (result_of (decode table input))
  unfolding decode_to_ptr_with_layout
  decode-laid_out slack m fits =
      let (size, e, room, small) = allocation slack fits in
      let blank : Option ℕ = none in
      let fresh : output_len_of input ≤ length (uninitialized size) =
        unfold uninitialized in omega (arith, length-replicate size blank) in
      rw (e, allocated size small)
        (decoded-Follows (decode table input) (output_len_of input) size _
          (λ xs q. length-decode table input xs q) room
          (mode-Follows (chosen urlsafe) slack partial (chosen-IsTable urlsafe) input
            (uninitialized size) bytes m fresh))

  -- The layout of text that has one.
  decode-good :
      length input % 4 ≡ 0
      → length input < usize_mod
      → b64decode_with_alphabet input urlsafe ≡ (
          if leb isize_mod (output_len_of input + 4)
          then none
          else some (result_of (decode table input)))
  unfolding b64decode_with_alphabet
  decode-good m fits =
      let p = padding-bound input in
      let slack = leb 16 (length input - (if padding_of input == 0 then 0 else 1) * 4) in
      elim (Bool-cases (leb isize_mod (output_len_of input + 4))) [
        | inl large ↦
            let more : isize_mod ≤ output_len_of input + 4 = ground arith in
            let some_bytes : (output_len_of input == 0) ≡ false = ground arith in
            let long : slack ≡ true = ground arith in
            let size = allocation_slack (omega arith) in
            rw
              (
                b64decode_with_alphabet,
                decode_layout-good input m,
                some_bytes,
                large,
                long,
                size,
                too_large (output_len_of input + 4) more,
              )
              refl
        | inr small ↦
            let less : output_len_of input + 4 < isize_mod = ground arith in
            elim (Bool-cases (output_len_of input == 0)) [
              | inl e ↦
                  rw
                    (
                      b64decode_with_alphabet,
                      decode_layout-good input m,
                      small,
                      e,
                      decode-empty table input m (ground arith),
                    )
                    refl
              | inr e ↦
                  rw (b64decode_with_alphabet, decode_layout-good input m, small, e)
                    (decode-laid_out slack m less)
            ]
      ]

  decode-bad :
      length input % 4 ≢ 0
      → b64decode_with_alphabet input urlsafe ≡ some (result_of (decode table input))
  unfolding b64decode_with_alphabet
  decode-bad m =
      rw (b64decode_with_alphabet, decode_layout-bad input m, decode-ragged table input m) refl

  -- For all bytes whose number is in usize, and either alphabet, b64decode_with_alphabet returns
  -- the bytes that RFC 4648 assigns to the text, and InvalidInput if it assigns none, with no
  -- panic, access out of bounds or uninitialised byte; only for text that stands for so many bytes
  -- that they and four bytes of slack exceed isize::MAX does it panic.
  pub b64decode_with_alphabet-decode :
      length input < usize_mod
      → b64decode_with_alphabet input urlsafe
        ≡ (if too_many (decoded_size input) then none else some (result_of (decode table input)))
  b64decode_with_alphabet-decode fits = elim (Bool-cases (length input % 4 == 0)) [
    | inl m ↦ rw (decoded_size-whole input (ground arith)) (decode-good (ground arith) fits)
    | inr m ↦ rw (decoded_size-ragged input (ground arith)) (decode-bad (ground arith))
  ]

  -- The call of the decoder on a destination slice of the right length.
  pub slice-Follows :
      (mem : Memory)
      → length input % 4 ≡ 0
      → length mem ≡ output_len_of input
      → Follows 0
          (output_len_of input)
          mem
          (decode table input)
          tt
          (decode_to_slice_with_layout input (layout_of input) urlsafe mem)
  unfolding decode_to_slice_with_layout decode_to_slice_with_layout_and_alphabet checked_slices len
      decode_to_ptr_with_layout
  slice-Follows mem m e =
      let run =
        mode-Follows (chosen urlsafe) false partial (chosen-IsTable urlsafe) input mem bytes m
          (omega arith) in
      let same : (length input == length input) ≡ true = ground arith in
      let fit : (length mem == output_len_of input) ≡ true = ground arith in rw (same, fit) run

  -- For all bytes that RFC 4648 decodes as text, and either alphabet, and a destination with room
  -- for the decoded bytes, b64decode_into_with_alphabet stores them at the start of the
  -- destination, keeps the cells behind them, and returns their number.
  pub b64decode_into-decode :
      (mem : Memory) (xs : List ℕ)
      → decode table input ≡ some xs
      → length xs ≤ length mem
      → b64decode_into_with_alphabet input urlsafe mem
        ≡ ok (length xs) (map some xs ++ drop (length xs) mem)
  unfolding b64decode_into_with_alphabet len on_prefix
  b64decode_into-decode mem xs e room =
      let m = decode-whole table input xs e in
      let n = output_len_of input in
      let size : length xs ≡ n = length-decode table input xs e in
      let part : length (take n mem) ≡ n = omega (arith, length-take n mem) in
      let slice =
        Follows-some 0 n (take n mem) e (slice-Follows (take n mem) m part)
        ∙ ap (ok tt) (stored_full xs (take n mem) (omega arith)) in
      rw (decode_layout-good input m, size) (ground (arith, slice))

  pub ragged :
      (mem : Memory)
      → length input % 4 ≢ 0
      → b64decode_into_with_alphabet input urlsafe mem ≡ err invalid_input mem
  unfolding b64decode_into_with_alphabet
  ragged mem m = rw (decode_layout-bad input m) refl

  invalid_quantum :
      (mem : Memory)
      → length input % 4 ≡ 0
      → decode table input ≡ none
      → output_len_of input ≤ length mem
      → (mem' : Memory) × (b64decode_into_with_alphabet input urlsafe mem ≡ err invalid_input mem')
        × (length mem' ≡ length mem)
        × (drop (output_len_of input) mem' ≡ drop (output_len_of input) mem)
  unfolding b64decode_into_with_alphabet len on_prefix
  invalid_quantum mem m e room =
      let n = output_len_of input in
      let part : length (take n mem) ≡ n = omega (arith, length-take n mem) in
      let (junk, q, b) = Follows-none 0 n (take n mem) e (slice-Follows (take n mem) m part) in
      let mem' = stored 0 junk (take n mem) in
      let size : length mem' ≡ n = length-stored 0 junk (take n mem) (omega arith) ∙ part in
      (
        mem' ++ drop n mem,
        rw (decode_layout-good input m) (ground (arith, q)),
        omega (arith, length-append mem' (drop n mem), length-drop n mem),
        drop-append mem' (drop n mem) n size,
      )

  -- For all bytes that RFC 4648 does not decode as text, and either alphabet, and a destination
  -- with room for the length of the layout, b64decode_into_with_alphabet returns InvalidInput, and
  -- changes neither the number of cells nor a cell behind that length.
  pub b64decode_into-invalid :
      (mem : Memory)
      → decode table input ≡ none
      → output_len_of input ≤ length mem
      → (mem' : Memory) × (b64decode_into_with_alphabet input urlsafe mem ≡ err invalid_input mem')
        × (length mem' ≡ length mem)
        × (drop (output_len_of input) mem' ≡ drop (output_len_of input) mem)
  b64decode_into-invalid mem e room = elim (Bool-cases (length input % 4 == 0)) [
    | inl m ↦ invalid_quantum mem (ground arith) e room
    | inr m ↦ (mem, ragged mem (ground arith), refl, refl)
  ]
