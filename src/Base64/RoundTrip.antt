-- ===== src/Base64/RoundTrip.antt =====
-- The decoders of base64/decode/api.rs undo the encoders of base64/encode/api.rs.

use hashcodecs_rs.Common.{
  ℕ, ◌+◌, ◌*◌, ◌/◌, ◌%◌, ◌<◌, ◌≡◌, inl, inr, Bool-cases, ◌==◌, refl, ap, ◌∙◌, none, some, Bool, leb,
  if◌then◌else◌, ◌>>=◌, true, false, List, [], ◌∷◌, length, arith, All,
}
use hashcodecs_rs.Word.{IsByte}
use hashcodecs_rs.Base64.Alphabet.{table_of}
use hashcodecs_rs.Base64.Alphabet.Tables.{at, Inverts, standard-Inverts, urlsafe-Inverts}
use hashcodecs_rs.Base64.Rfc4648.{encode, quad, short, decode, join, digit, decoded_size}
use hashcodecs_rs.Base64.Encode.{usize_mod, alphabet_of, b64encode_with_alphabet}
use hashcodecs_rs.Base64.Encode.Api.{padded_len, length-encode, b64encode_with_alphabet-encode}
use hashcodecs_rs.Base64.Decode.{b64decode_with_alphabet, good}
use hashcodecs_rs.Base64.Decode.Layout.{chosen}
use hashcodecs_rs.Base64.Decode.Api.{b64decode_with_alphabet-decode, too_many}
use hashcodecs_rs.Base64.Decode.Size.{decoded_size-whole}
use hashcodecs_rs.Base64.Output.{isize_mod}

module _ {alphabet table : List ℕ} (i : Inverts alphabet table) where
  digit-symbol : (v : ℕ) → v < 64 → digit table (at alphabet v) ≡ some v
  unfolding digit
  digit-symbol v h = ground (arith, i.of_symbol v h)

  -- No symbol is `=`.
  symbol_padding : (v : ℕ) → v < 64 → (at alphabet v == b'=') ≡ false
  symbol_padding v h = elim (Bool-cases (at alphabet v == b'=')) [
    | inl e ↦
        let e' : at alphabet v ≡ b'=' = ground arith in
        absurd (omega (arith, i.of_symbol v h, ap (at table) e', i.padding))
    | inr e ↦ e
  ]

  quad-symbols :
      (v w x y : ℕ)
      → v < 64
      → w < 64
      → x < 64
      → y < 64
      → quad table (at alphabet v) (at alphabet w) (at alphabet x) (at alphabet y)
        ≡ some ((v * 4 + w / 16) ∷ (w % 16 * 16 + x / 4) ∷ (x % 4 * 64 + y) ∷ [])
  unfolding quad
  quad-symbols v w x y hv hw hx hy =
      rw (digit-symbol v hv, digit-symbol w hw, digit-symbol x hx, digit-symbol y hy) refl

  quad-encode :
      (a b c : ℕ)
      → a < 256
      → b < 256
      → c < 256
      → quad table
          (at alphabet (a / 4))
          (at alphabet (a % 4 * 16 + b / 16))
          (at alphabet (b % 16 * 4 + c / 64))
          (at alphabet (c % 64))
        ≡ some (a ∷ b ∷ c ∷ [])
  quad-encode a b c ha hb hc =
      let e =
        quad-symbols (a / 4) (a % 4 * 16 + b / 16) (b % 16 * 4 + c / 64) (c % 64) (omega arith)
          (omega arith) (omega arith) (omega arith) in
      ground arith

  one-encode :
      (a : ℕ)
      → a < 256
      → short table (at alphabet (a / 4) ∷ at alphabet (a % 4 * 16) ∷ []) ≡ some (a ∷ [])
  unfolding short
  one-encode a ha =
      rw (digit-symbol (a / 4) (omega arith), digit-symbol (a % 4 * 16) (omega arith))
        (ground arith)

  two-encode :
      (a b : ℕ)
      → a < 256
      → b < 256
      → short table
          (at alphabet (a / 4) ∷ at alphabet (a % 4 * 16 + b / 16) ∷ at alphabet (b % 16 * 4) ∷ [])
        ≡ some (a ∷ b ∷ [])
  unfolding short
  two-encode a b ha hb =
      rw
        (
          digit-symbol (a / 4) (omega arith),
          digit-symbol (a % 4 * 16 + b / 16) (omega arith),
          digit-symbol (b % 16 * 4) (omega arith),
        )
        (ground arith)

  -- A full quantum in front of other text.
  decode-more :
      (a b c d : ℕ) (rest : List ℕ)
      → 0 < length rest
      → decode table (a ∷ b ∷ c ∷ d ∷ rest) ≡ join (quad table a b c d) (decode table rest)
  unfolding decode
  decode-more a b c d [] h = absurd (omega arith)
  decode-more a b c d (e ∷ rest) h = refl

  pub decode-encode :
      (input : List ℕ) → All IsByte input → decode table (encode alphabet input) ≡ some input
  unfolding decode encode
  decode-encode [] h = refl
  decode-encode (a ∷ []) (ha, _) = one-encode a ha
  decode-encode (a ∷ b ∷ []) (ha, (hb, _)) =
      rw (symbol_padding (b % 16 * 4) (omega arith)) (two-encode a b ha hb)
  decode-encode (a ∷ b ∷ c ∷ []) (ha, (hb, (hc, _))) =
      rw (symbol_padding (c % 64) (omega arith)) (quad-encode a b c ha hb hc)
  decode-encode (a ∷ b ∷ c ∷ d ∷ rest) (ha, (hb, (hc, h))) =
      decode-more (at alphabet (a / 4)) (at alphabet (a % 4 * 16 + b / 16))
        (at alphabet (b % 16 * 4 + c / 64)) (at alphabet (c % 64)) (encode alphabet (d ∷ rest))
        (omega (arith, length-encode alphabet (d ∷ rest)))
      ∙ rw (quad-encode a b c ha hb hc, decode-encode (d ∷ rest) h) refl

  encode-IsByte : (input : List ℕ) → All IsByte input → All IsByte (encode alphabet input)
  unfolding encode
  encode-IsByte [] h = tt
  encode-IsByte (a ∷ []) (ha, _) = (
    i.symbol_byte (a / 4) (omega arith),
    (i.symbol_byte (a % 4 * 16) (omega arith), (omega arith, (omega arith, tt))),
  )
  encode-IsByte (a ∷ b ∷ []) (ha, (hb, _)) = (
    i.symbol_byte (a / 4) (omega arith),
    (
      i.symbol_byte (a % 4 * 16 + b / 16) (omega arith),
      (i.symbol_byte (b % 16 * 4) (omega arith), (omega arith, tt)),
    ),
  )
  encode-IsByte (a ∷ b ∷ c ∷ rest) (ha, (hb, (hc, h))) = (
    i.symbol_byte (a / 4) (omega arith),
    (
      i.symbol_byte (a % 4 * 16 + b / 16) (omega arith),
      (
        i.symbol_byte (b % 16 * 4 + c / 64) (omega arith),
        (i.symbol_byte (c % 64) (omega arith), encode-IsByte rest h),
      ),
    ),
  )

chosen-Inverts : (urlsafe : Bool) → Inverts (alphabet_of urlsafe) (table_of (chosen urlsafe))
unfolding table_of alphabet_of
chosen-Inverts true = urlsafe-Inverts
chosen-Inverts false = standard-Inverts

-- The padded text of fewer than isize_mod bytes is not too large to decode.
encode-not_too_many :
    (alphabet input : List ℕ)
    → padded_len (length input) < isize_mod
    → too_many (decoded_size (encode alphabet input)) ≡ false
encode-not_too_many alphabet input small =
    let size = length-encode alphabet input in
    let m : length (encode alphabet input) % 4 ≡ 0 = omega arith in
    rw (decoded_size-whole (encode alphabet input) m) (ground arith)

-- For all bytes whose padded encoding has a length in usize, and either alphabet,
-- b64decode_with_alphabet of the text that b64encode_with_alphabet returns is the bytes, unless
-- the text has more than isize::MAX bytes, for which the encoder panics.
pub b64decode-b64encode :
    (input : List ℕ) (urlsafe : Bool)
    → All IsByte input
    → padded_len (length input) < usize_mod
    → (b64encode_with_alphabet input urlsafe >>= λ text. b64decode_with_alphabet text urlsafe)
      ≡ (if leb isize_mod (padded_len (length input)) then none else some (good input))
b64decode-b64encode input urlsafe h fits =
    let i = chosen-Inverts urlsafe in
    let text = encode (alphabet_of urlsafe) input in
    elim (Bool-cases (leb isize_mod (padded_len (length input)))) [
      | inl large ↦ rw (b64encode_with_alphabet-encode input urlsafe h fits, large) refl
      | inr small ↦
          let fits' : length text < usize_mod =
            omega (arith, length-encode (alphabet_of urlsafe) input) in
          rw
            (
              b64encode_with_alphabet-encode input urlsafe h fits,
              small,
              b64decode_with_alphabet-decode text urlsafe (encode-IsByte i input h) fits',
              encode-not_too_many (alphabet_of urlsafe) input (ground arith),
              decode-encode i input h,
            )
            refl
    ]
