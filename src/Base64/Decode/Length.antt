-- ===== src/Base64/Decode/Length.antt =====
-- `b64decoded_len` of base64/decode/api.rs.

use hashcodecs_rs.Common.{
  ℕ, ◌-◌, ◌≤◌, ◌≡◌, ◌≢◌, inl, inr, zero, suc, Bool-cases, ◌==◌, refl, ap, ◌∙◌, Option, none, some,
  false, List, [], ◌∷◌, length, take, arith,
}
use hashcodecs_rs.Base64.Alphabet.Tables.{at}
use hashcodecs_rs.Base64.Rfc4648.{quad, short, decode, join, digit}
use hashcodecs_rs.Base64.Decode.{good, has_padding, padding_of, b64decoded_len}
use hashcodecs_rs.Base64.Decode.Padding.{last_four}
use hashcodecs_rs.Base64.Decode.Mode.{padding-bound}
use hashcodecs_rs.Base64.Decode.Layout.{decode_layout-good, length-decode, join-none}
use hashcodecs_rs.Base64.Decode.Api.{decode-whole}

join_parts :
    (x y : Option (List ℕ)) (xs : List ℕ)
    → join x y ≡ some xs
    → (ys : List ℕ) × (zs : List ℕ) × (x ≡ some ys) × (y ≡ some zs)
join_parts none y xs e = absurd (ground arith)
join_parts (some ys) none xs e = absurd (ground arith)
join_parts (some ys) (some zs) xs e = (ys, zs, refl, refl)

module _ (table : List ℕ) (padding : at table b'=' ≡ 255) where
  symbol_padding : (c : ℕ) → at table c ≢ 255 → (c == b'=') ≡ false
  symbol_padding c h = elim (Bool-cases (c == b'=')) [
    | inl e ↦ let e' : c ≡ b'=' = ground arith in absurd (h (ap (at table) e' ∙ padding))
    | inr e ↦ e
  ]

  quad_symbols :
      (a b c d : ℕ) (xs : List ℕ)
      → quad table a b c d ≡ some xs
      → has_padding (a ∷ b ∷ c ∷ d ∷ []) ≡ false
  unfolding quad digit has_padding
  quad_symbols a b c d xs e =
      ground (arith, symbol_padding a, symbol_padding b, symbol_padding c, symbol_padding d)

  last_symbols :
      (a b c d : ℕ) (xs : List ℕ)
      → decode table (last_four a b c d) ≡ some xs
      → has_padding (take (4 - padding_of (last_four a b c d)) (last_four a b c d)) ≡ false
  unfolding decode short digit has_padding padding_of
  last_symbols a b c d xs e =
      ground (arith, symbol_padding a, symbol_padding b, symbol_padding c, quad_symbols a b c d xs)

  has_padding-more :
      (a b c d n : ℕ) (rest : List ℕ)
      → 4 ≤ n
      → has_padding (a ∷ b ∷ c ∷ d ∷ []) ≡ false
      → has_padding (take n (a ∷ b ∷ c ∷ d ∷ rest)) ≡ has_padding (take (n - 4) rest)
  unfolding has_padding
  has_padding-more a b c d zero rest h e = absurd (omega arith)
  has_padding-more a b c d (suc zero) rest h e = absurd (omega arith)
  has_padding-more a b c d (suc (suc zero)) rest h e = absurd (omega arith)
  has_padding-more a b c d (suc (suc (suc zero))) rest h e = absurd (omega arith)
  has_padding-more a b c d (suc (suc (suc (suc n)))) rest h e = ground arith

  -- Text that decodes has `=` at its end only.
  symbols_only :
      (input xs : List ℕ)
      → decode table input ≡ some xs
      → has_padding (take (length input - padding_of input) input) ≡ false
  unfolding decode padding_of
  symbols_only [] xs e = unfold has_padding in refl
  symbols_only (a ∷ []) xs e = absurd (ground arith)
  symbols_only (a ∷ b ∷ []) xs e = absurd (ground arith)
  symbols_only (a ∷ b ∷ c ∷ []) xs e = absurd (ground arith)
  symbols_only (a ∷ b ∷ c ∷ d ∷ []) xs e = last_symbols a b c d xs e
  symbols_only (a ∷ b ∷ c ∷ d ∷ e ∷ []) xs h =
      absurd (ground (arith, join-none (quad table a b c d)))
  symbols_only (a ∷ b ∷ c ∷ d ∷ e ∷ f ∷ rest) xs h =
      let tail = e ∷ f ∷ rest in
      let (ys, zs, hy, hz) = join_parts (quad table a b c d) (decode table tail) xs h in
      let p = padding-bound tail in
      let size : 2 ≤ length tail = omega arith in
      let n : (length (a ∷ b ∷ c ∷ d ∷ tail) - padding_of tail) - 4
          ≡ length tail - padding_of tail =
        omega arith in
      has_padding-more a b c d (length (a ∷ b ∷ c ∷ d ∷ tail) - padding_of tail) tail (omega arith)
        (quad_symbols a b c d ys hy)
      ∙ (ap (λ i. has_padding (take i tail)) n ∙ symbols_only (e ∷ f ∷ rest) zs hz)

  -- For every table in which = has no value, and every text that RFC 4648 decodes by it,
  -- b64decoded_len returns the number of decoded bytes.
  pub b64decoded_len-decode :
      (input xs : List ℕ) → decode table input ≡ some xs → b64decoded_len input ≡ good (length xs)
  unfolding b64decoded_len
  b64decoded_len-decode input xs e =
      rw
        (
          b64decoded_len,
          decode_layout-good input (decode-whole table input xs e),
          symbols_only input xs e,
          length-decode table input xs e,
        )
        refl
