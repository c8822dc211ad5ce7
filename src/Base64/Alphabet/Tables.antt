-- ===== src/Base64/Alphabet/Tables.antt =====
-- What the decode tables hold, checked over all bytes.
use hashcodecs_rs.Common.{
  ℕ, ◌<◌, ◌≡◌, refl, ◌⊎◌, Bool, true, ◌&&◌, ◌||◌, List, arith, ltb, ◌==◌, get_or,
}
use hashcodecs_rs.Common.Tables.{passes_below, passes_below_at}
use hashcodecs_rs.Base64.Alphabet.{
  standard_alphabet, urlsafe_alphabet, standard_decode, urlsafe_decode, invalid_value,
}

-- `table[byte]`, and `alphabet[value]` for a six-bit value.
abbrev pub at : List ℕ → ℕ → ℕ
at table i = get_or table i invalid_value

-- `table` undoes `alphabet`, and maps every other byte to the invalid value.
pub record Inverts (alphabet table : List ℕ) : Type 0 where
  pub of_symbol : (v : ℕ) → v < 64 → at table (at alphabet v) ≡ v
  pub of_byte :
      (c : ℕ)
      → c < 256
      → (at table c ≡ invalid_value) ⊎ ((at table c < 64) × (at alphabet (at table c) ≡ c))
  pub symbol_byte : (v : ℕ) → v < 64 → at alphabet v < 256
  pub padding : at table b'=' ≡ invalid_value

abbrev symbol_ok : List ℕ → List ℕ → ℕ → Bool
symbol_ok alphabet table v = (at table (at alphabet v) == v) && ltb (at alphabet v) 256

abbrev byte_ok : List ℕ → List ℕ → ℕ → Bool
byte_ok alphabet table c =
    (at table c == invalid_value) || (ltb (at table c) 64 && (at alphabet (at table c) == c))

inverts :
    (alphabet table : List ℕ)
    → passes_below (symbol_ok alphabet table) 64 ≡ true
    → passes_below (byte_ok alphabet table) 256 ≡ true
    → at table b'=' ≡ invalid_value
    → Inverts alphabet table
inverts alphabet table s b p = record {
  of_symbol = λ v h. ground (arith, passes_below_at (symbol_ok alphabet table) 64 s v h);
  of_byte = λ c h. ground (arith, passes_below_at (byte_ok alphabet table) 256 b c h);
  symbol_byte = λ v h. ground (arith, passes_below_at (symbol_ok alphabet table) 64 s v h);
  padding = p;
}

pub standard-Inverts : Inverts standard_alphabet standard_decode
unfolding passes_below standard_alphabet standard_decode
standard-Inverts = inverts _ _ refl refl refl

pub urlsafe-Inverts : Inverts urlsafe_alphabet urlsafe_decode
unfolding passes_below urlsafe_alphabet urlsafe_decode
urlsafe-Inverts = inverts _ _ refl refl refl
