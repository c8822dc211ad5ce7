-- ===== src/Base64/Decode/Layout.antt =====
-- `decode_layout` of base64/decode/api.rs, and the length of what it lays out.
use hashcodecs_rs.Common.{
  ℕ, ◌+◌, ◌-◌, ◌*◌, ◌/◌, ◌%◌, ◌≤◌, ◌<◌, ◌≡◌, ◌≢◌, inl, inr, Bool-cases, ◌==◌, refl, ap, ◌∙◌, sym,
  subst, Option, none, some, Bool, true, false, if◌then◌else◌, zero, suc, List, [], ◌∷◌, ◌++◌,
  length, arith, All, length-append,
}
use hashcodecs_rs.Word.{IsByte, bit_and_mask}
use hashcodecs_rs.Base64.Alphabet.{DecodeAlphabet, standard, url_safe, table_of}
use hashcodecs_rs.Base64.Alphabet.Tables.{Inverts, standard-Inverts, urlsafe-Inverts}
use hashcodecs_rs.Base64.Output.{Memory, invalid_input}
use hashcodecs_rs.Base64.Rfc4648.{quad, short, decode, join}
use hashcodecs_rs.Base64.Decode.{
  DecodeLayout, ErrorWritePolicy, good, bad, decode_layout, padding_of,
  decode_to_ptr_with_layout_mode,
}
use hashcodecs_rs.Base64.Decode.Entries.{IsTable}
use hashcodecs_rs.Base64.Decode.Loops.{Follows, Follows-along, length-quad}
use hashcodecs_rs.Base64.Decode.Padding.{split, last_four, padding_of-append}
use hashcodecs_rs.Base64.Decode.Mode.{full-Follows, padded-Follows, padding-bound}

abbrev pub output_len_of : List ℕ → ℕ
output_len_of input = length input / 4 * 3 - padding_of input

-- The layout of text whose length is a multiple of four.
abbrev pub layout_of : List ℕ → DecodeLayout
layout_of input = record {
  input_len = length input;
  padding = padding_of input;
  output_len = output_len_of input;
}

pub decode_layout-good :
    (input : List ℕ) → length input % 4 ≡ 0 → decode_layout input ≡ good (layout_of input)
unfolding decode_layout
decode_layout-good [] m = refl
decode_layout-good (a ∷ rest) m = ground (arith, bit_and_mask 2 (length (a ∷ rest)))

pub decode_layout-bad :
    (input : List ℕ) → length input % 4 ≢ 0 → decode_layout input ≡ bad invalid_input
unfolding decode_layout
decode_layout-bad [] m = absurd (m refl)
decode_layout-bad (a ∷ rest) m = ground (arith, bit_and_mask 2 (length (a ∷ rest)))

pub join-none : (o : Option (List ℕ)) → join o none ≡ none
join-none none = refl
join-none (some xs) = refl

-- Text of another length is not padded text.
pub decode-ragged : (table input : List ℕ) → length input % 4 ≢ 0 → decode table input ≡ none
unfolding decode
decode-ragged table [] m = absurd (m refl)
decode-ragged table (a ∷ []) m = refl
decode-ragged table (a ∷ b ∷ []) m = refl
decode-ragged table (a ∷ b ∷ c ∷ []) m = refl
decode-ragged table (a ∷ b ∷ c ∷ d ∷ []) m = absurd (m refl)
decode-ragged table (a ∷ b ∷ c ∷ d ∷ e ∷ rest) m =
    ap (join (quad table a b c d)) (decode-ragged table (e ∷ rest) (λ h. m (omega arith)))
    ∙ join-none (quad table a b c d)

pub length-short_two :
    (table : List ℕ) (a b : ℕ) (bytes : List ℕ)
    → short table (a ∷ b ∷ []) ≡ some bytes
    → length bytes ≡ 1
unfolding short
length-short_two table a b bytes e = ground arith

pub length-short_three :
    (table : List ℕ) (a b c : ℕ) (bytes : List ℕ)
    → short table (a ∷ b ∷ c ∷ []) ≡ some bytes
    → length bytes ≡ 2
unfolding short
length-short_three table a b c bytes e = ground arith

pub length-join :
    (x y : Option (List ℕ)) (m n : ℕ) (bytes : List ℕ)
    → ((xs : List ℕ) → x ≡ some xs → length xs ≡ m)
    → ((ys : List ℕ) → y ≡ some ys → length ys ≡ n)
    → join x y ≡ some bytes
    → length bytes ≡ m + n
length-join none y m n bytes hx hy e = ground arith
length-join (some xs) none m n bytes hx hy e = ground arith
length-join (some xs) (some ys) m n bytes hx hy e =
    ground (arith, hx xs refl, hy ys refl, length-append xs ys)

length-last :
    (table : List ℕ) (a b c d : ℕ) (bytes : List ℕ)
    → decode table (last_four a b c d) ≡ some bytes
    → length bytes ≡ 3 - padding_of (last_four a b c d)
unfolding decode padding_of
length-last table a b c d bytes e = ground (
  arith,
  length-quad table a b c d bytes,
  length-short_two table a b bytes,
  length-short_three table a b c bytes,
)

-- Padded text decodes to as many bytes as its layout has.
pub length-decode :
    (table input bytes : List ℕ)
    → decode table input ≡ some bytes
    → length bytes ≡ output_len_of input
unfolding decode padding_of
length-decode table [] bytes e = ground arith
length-decode table (a ∷ []) bytes e = ground arith
length-decode table (a ∷ b ∷ []) bytes e = ground arith
length-decode table (a ∷ b ∷ c ∷ []) bytes e = ground arith
length-decode table (a ∷ b ∷ c ∷ d ∷ []) bytes e = length-last table a b c d bytes e
length-decode table (a ∷ b ∷ c ∷ d ∷ e ∷ []) bytes h =
    absurd (ground (arith, join-none (quad table a b c d)))
length-decode table (a ∷ b ∷ c ∷ d ∷ e ∷ f ∷ rest) bytes h =
    elim (Bool-cases (length (e ∷ f ∷ rest) % 4 == 0)) [
      | inl m ↦
          let m' : length (e ∷ f ∷ rest) % 4 ≡ 0 = ground arith in
          let p = padding-bound (e ∷ f ∷ rest) in
          let tail =
            length-join (quad table a b c d) (decode table (e ∷ f ∷ rest)) 3
              (output_len_of (e ∷ f ∷ rest)) bytes (λ xs q. length-quad table a b c d xs q)
              (λ ys q. length-decode table (e ∷ f ∷ rest) ys q) h in
          omega arith
      | inr m ↦
          let m' : length (e ∷ f ∷ rest) % 4 ≢ 0 = ground arith in
          absurd
            (ground (arith, join-none (quad table a b c d), decode-ragged table (e ∷ f ∷ rest) m'))
    ]

-- The decode tables of the two alphabets that the padded decoders take.
abbrev pub chosen : Bool → DecodeAlphabet
chosen urlsafe = if urlsafe then url_safe else standard

Inverts-IsTable : {alphabet table : List ℕ} → Inverts alphabet table → IsTable table
Inverts-IsTable i = record { entry = λ c h. ground (arith, i.of_byte c h); no_padding = i.padding }

pub chosen-IsTable : (urlsafe : Bool) → IsTable (table_of (chosen urlsafe))
unfolding table_of
chosen-IsTable true = Inverts-IsTable urlsafe-Inverts
chosen-IsTable false = Inverts-IsTable standard-Inverts

nonempty : (input : List ℕ) (p : ℕ) → padding_of input ≡ suc p → 0 < length input
unfolding padding_of
nonempty [] p e = absurd (omega arith)
nonempty (a ∷ rest) p e = omega arith

-- `decode_to_ptr_with_layout_mode` follows the specification on every text with a layout.
pub mode-Follows :
    (alphabet : DecodeAlphabet) (slack : Bool) (policy : ErrorWritePolicy)
    → IsTable (table_of alphabet)
    → (input : List ℕ) (mem : Memory) → All IsByte input
    → length input % 4 ≡ 0
    → output_len_of input ≤ length mem
    → Follows 0
        (output_len_of input)
        mem
        (decode (table_of alphabet) input)
        tt
        (decode_to_ptr_with_layout_mode input (layout_of input) alphabet slack policy mem)
mode-Follows alphabet slack policy t input mem h m fits = by_padding (padding_of input) refl
  where
    Goal : List ℕ → Type 0
    Goal text =
        Follows 0 (output_len_of text) mem (decode (table_of alphabet) text) tt
          (decode_to_ptr_with_layout_mode text (layout_of text) alphabet slack policy mem)

    by_padding : (p : ℕ) → padding_of input ≡ p → Goal input
    by_padding zero e =
        Follows-along 0 mem tt (omega arith) refl refl
          (full-Follows alphabet slack policy t input (layout_of input) mem h m e e (omega arith))
    by_padding (suc p) e =
        let s = split input m (nonempty input p e) in
        let text = s.front ++ last_four s.a s.b s.c s.d in
        let h' : All IsByte text = subst (All IsByte) s.whole h in
        let g : length s.front % 4 ≡ 0 = s.groups in
        let q : padding_of text ≡ suc p = sym (ap padding_of s.whole) ∙ e in
        let last : padding_of (last_four s.a s.b s.c s.d) ≡ suc p =
          sym (padding_of-append s.front s.a s.b s.c s.d) ∙ q in
        let bound = padding-bound (last_four s.a s.b s.c s.d) in
        let size = length-append s.front (last_four s.a s.b s.c s.d) in
        let n : length s.front / 4 * 3 + (2 - p) ≡ output_len_of text = omega arith in
        let fits' : output_len_of text ≤ length mem =
          subst (λ i. output_len_of i ≤ length mem) s.whole fits in
        subst Goal (sym s.whole) (
          Follows-along 0 mem tt n refl refl (
            padded-Follows alphabet slack policy t s.front s.a s.b s.c s.d p (layout_of text) mem h'
              g last q (omega arith)))
