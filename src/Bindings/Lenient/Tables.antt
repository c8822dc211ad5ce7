-- ===== src/Bindings/Lenient/Tables.antt =====
-- The decode table of the caller's two characters in src/bindings/base64/lenient.rs, and what the
-- translation of src/bindings/base64/configured.rs does with them.
use hashcodecs_rs.Common.{
  ℕ, zero, suc, ◌<◌, ◌≡◌, refl, ap, ap₂, ◌∙◌, sym, subst, Option, none, some, Bool, true, false,
  ◌&&◌, ◌||◌, not, List, [], ◌∷◌, ltb, leb, ◌==◌, if◌then◌else◌, length, arith, Bool-cases, inl,
  inr, map, set, length-set,
}
use hashcodecs_rs.Common.Tables.{passes_below, passes_below_at}
use hashcodecs_rs.Base64.Alphabet.{
  DecodeAlphabet, standard, mixed, url_safe, standard_alphabet, standard_decode, mixed_decode,
  table_of,
}
use hashcodecs_rs.Base64.Alphabet.Tables.{at}
use hashcodecs_rs.Bindings.Scan.{is_lenient_symbol, is_altchar, translate, translate_byte}
use hashcodecs_rs.Bindings.Strict.{standard_byte}
use hashcodecs_rs.Bindings.Translation.{
  Translation, is_source, add_pair, translation_pairs, apply, new,
}
use hashcodecs_rs.Bindings.Staging.{apply_all}
use hashcodecs_rs.Bindings.Lenient.{
  standard_lenient_table, mixed_lenient_table, lenient_decode_table, fast_alphabet,
}
use hashcodecs_rs.Bindings.Lenient.Runs.{Agrees}

at-set : (t : List ℕ) (i v c : ℕ) → i < length t → at (set t i v) c ≡ (if c == i then v else at t c)
at-set [] i v c h = absurd (omega arith)
at-set (x ∷ t) zero v zero h = refl
at-set (x ∷ t) zero v (suc c) h = ground arith
at-set (x ∷ t) (suc i) v zero h = ground arith
at-set (x ∷ t) (suc i) v (suc c) h = ground (arith, at-set t i v c)

table_size : length standard_lenient_table ≡ 256
unfolding standard_lenient_table standard_alphabet
table_size = refl

abbrev byte_ok : ℕ → Bool
byte_ok c =
    (not (is_lenient_symbol c none) || ltb (at standard_lenient_table c) 64)
    && (leb 64 (at standard_lenient_table c)
        || (at standard_decode c == at standard_lenient_table c))

bytes_ok : passes_below byte_ok 256 ≡ true
unfolding passes_below standard_lenient_table standard_decode is_lenient_symbol standard_alphabet
bytes_ok = refl

symbol_of : (c : ℕ) → c < 256 → is_lenient_symbol c none ≡ true → at standard_lenient_table c < 64
symbol_of c h e = ground (arith, passes_below_at byte_ok 256 bytes_ok c h)

value_of :
    (c : ℕ)
    → c < 256
    → at standard_lenient_table c < 64
    → at standard_decode c ≡ at standard_lenient_table c
value_of c h v = ground (arith, passes_below_at byte_ok 256 bytes_ok c h)

abbrev mixed_ok : ℕ → Bool
mixed_ok c = leb 64 (at mixed_lenient_table c) || (at mixed_decode c == at mixed_lenient_table c)

mixed_all_ok : passes_below mixed_ok 256 ≡ true
unfolding passes_below mixed_lenient_table mixed_decode standard_alphabet
mixed_all_ok = refl

mixed_value :
    (c : ℕ) → c < 256 → at mixed_lenient_table c < 64 → at mixed_decode c ≡ at mixed_lenient_table c
mixed_value c h v = ground (arith, passes_below_at mixed_ok 256 mixed_all_ok c h)

map_same : (f g : ℕ → ℕ) (xs : List ℕ) → ((c : ℕ) → f c ≡ g c) → map f xs ≡ map g xs
map_same f g [] h = refl
map_same f g (x ∷ xs) h = rw (h x, map_same f g xs h) refl

map_fixed : (f : ℕ → ℕ) (xs : List ℕ) → ((c : ℕ) → f c ≡ c) → xs ≡ map f xs
map_fixed f [] h = refl
map_fixed f (x ∷ xs) h = rw (h x) (ap (λ t. x ∷ t) (map_fixed f xs h))

pub none-Agrees : Agrees standard_lenient_table none
unfolding apply_all new fast_alphabet table_of
none-Agrees = record {
  fast = only;
  symbol = symbol_of;
  image = λ c. c;
  translated = λ xs. map_fixed (λ c. c) xs (λ c. refl);
  value = λ c h v. (h, value_of c h v);
}
  where
    only :
        (alphabet : DecodeAlphabet)
        → some standard ≡ some alphabet
        → (c : ℕ) → c < 256
        → at standard_lenient_table c < 64
        → at (table_of alphabet) c ≡ at standard_lenient_table c
    only standard e c h v = value_of c h v
    only url_safe e c h v = absurd (ground arith)
    only mixed e c h v = absurd (ground arith)

mixed_table : lenient_decode_table (some (b'-', b'_')) ≡ mixed_lenient_table
unfolding lenient_decode_table mixed_lenient_table
mixed_table = refl

abbrev pub AreBytes : Option (ℕ × ℕ) → Type 0
AreBytes none = Unit {0}
AreBytes (some (plus, slash)) = (plus < 256) × (slash < 256)

module _ (plus slash : ℕ) (hp : plus < 256) (hs : slash < 256) where
  abbrev table : List ℕ
  table = lenient_decode_table (some (plus, slash))

  at-table :
      (c : ℕ)
      → at table c
        ≡ (if c == slash then 63 else if c == plus then 62 else at standard_lenient_table c)
  unfolding lenient_decode_table
  at-table c =
      let size : length standard_lenient_table ≡ 256 = table_size in
      let outer =
        at-set (set standard_lenient_table plus 62) slash 63 c
          (omega (arith, length-set standard_lenient_table plus 62)) in
      let inner = at-set standard_lenient_table plus 62 c (omega arith) in rw (outer, inner) refl

  abbrev slash_pair : List (ℕ × ℕ)
  slash_pair = if slash == b'/' then [] else (slash, b'/') ∷ []

  abbrev pairs : List (ℕ × ℕ)
  pairs =
      if slash == plus
      then slash_pair
      else if plus == b'+'
      then slash_pair
      else (plus, b'+') ∷ slash_pair

  translation_pairs-pairs : translation_pairs table plus slash ≡ pairs
  unfolding translation_pairs add_pair is_source
  translation_pairs-pairs =
      let last : at standard_alphabet 63 ≡ b'/' = unfold standard_alphabet in refl in
      let other : at standard_alphabet 62 ≡ b'+' = unfold standard_alphabet in refl in
      ground (arith, at-table plus, at-table slash, last, other)

  abbrev made : List (ℕ × ℕ) → Option Translation
  made [] = none
  made (p ∷ []) = some (record { source0 = p.0; target0 = p.1; source1 = p.0; target1 = p.1 })
  made (p ∷ q ∷ more) = some (record { source0 = p.0; target0 = p.1; source1 = q.0; target1 = q.1 })

  new-pairs : new table (some (plus, slash)) ≡ made pairs
  unfolding new
  new-pairs = ap made translation_pairs-pairs

  -- For every two bytes that the caller chose and all bytes, the translation made for the lenient
  -- table of these two translates as translate_altchars does: the second character to /, else the
  -- first to +, and no other byte.
  pub translated-standard_byte :
      (xs : List ℕ)
      → apply_all (new table (some (plus, slash))) xs ≡ map (standard_byte plus slash) xs
  unfolding apply_all apply translate translate_byte standard_byte
  translated-standard_byte xs =
      ap (λ t. apply_all t xs) new-pairs ∙ elim (Bool-cases (slash == b'/')) [
        | inl k ↦ elim (Bool-cases (slash == plus)) [
          | inl e ↦ rw (e, k) (map_fixed _ xs (λ c. ground arith))
          | inr e ↦ elim (Bool-cases (plus == b'+')) [
            | inl p ↦ rw (e, p, k) (map_fixed _ xs (λ c. ground arith))
            | inr p ↦ rw (e, p, k) (map_same _ _ xs (λ c. ground arith))
          ]
        ]
        | inr k ↦ elim (Bool-cases (slash == plus)) [
          | inl e ↦ rw (e, k) (map_same _ _ xs (λ c. ground arith))
          | inr e ↦ elim (Bool-cases (plus == b'+')) [
            | inl p ↦ rw (e, p, k) (map_same _ _ xs (λ c. ground arith))
            | inr p ↦ rw (e, p, k) (map_same _ _ xs (λ c. ground arith))
          ]
        ]
      ]

  other_symbol :
      (c : ℕ)
      → (c == slash) ≡ false
      → (c == plus) ≡ false
      → is_lenient_symbol c (some (plus, slash)) ≡ is_lenient_symbol c none
  unfolding is_lenient_symbol is_altchar
  other_symbol c s p = rw (s, p) refl

  symbols : (c : ℕ) → c < 256 → is_lenient_symbol c (some (plus, slash)) ≡ true → at table c < 64
  symbols c h e = elim (Bool-cases (c == slash)) [
    | inl s ↦ ground (arith, at-table c)
    | inr s ↦ elim (Bool-cases (c == plus)) [
      | inl p ↦ ground (arith, at-table c)
      | inr p ↦
          let same = symbol_of c h (sym (other_symbol c s p) ∙ e) in ground (arith, at-table c)
    ]
  ]

  values :
      (c : ℕ)
      → c < 256
      → at table c < 64
      → (standard_byte plus slash c < 256)
        × (at standard_decode (standard_byte plus slash c) ≡ at table c)
  unfolding standard_byte
  values c h v =
      let last : at standard_decode b'/' ≡ 63 = unfold standard_decode in refl in
      let other : at standard_decode b'+' ≡ 62 = unfold standard_decode in refl in
      elim (Bool-cases (c == slash)) [
        | inl s ↦ rw s (omega arith, ground (arith, at-table c))
        | inr s ↦ elim (Bool-cases (c == plus)) [
          | inl p ↦ rw (s, p) (omega arith, ground (arith, at-table c))
          | inr p ↦
              let same : at table c ≡ at standard_lenient_table c = ground (arith, at-table c) in
              rw (s, p) (h, value_of c h (omega arith) ∙ sym same)
        ]
      ]

  pub some-Agrees : Agrees table (some (plus, slash))
  unfolding fast_alphabet table_of
  some-Agrees = record {
    fast = by_alphabet;
    symbol = symbols;
    image = standard_byte plus slash;
    translated = translated-standard_byte;
    value = values;
  }
    where
      by_alphabet :
          (alphabet : DecodeAlphabet)
          → fast_alphabet (some (plus, slash)) ≡ some alphabet
          → (c : ℕ) → c < 256
          → at table c < 64
          → at (table_of alphabet) c ≡ at table c
      by_alphabet standard e c h v = absurd (ground arith)
      by_alphabet url_safe e c h v = absurd (ground arith)
      by_alphabet mixed e c h v =
          let p : plus ≡ b'-' = ground arith in
          let s : slash ≡ b'_' = ground arith in
          let same : table ≡ mixed_lenient_table =
            ap₂ (λ x y. lenient_decode_table (some (x, y))) p s ∙ mixed_table in
          mixed_value c h (subst (λ t. at t c < 64) same v) ∙ ap (λ t. at t c) (sym same)

-- The table of the caller's two characters, if there are any.
pub lenient_decode_table-Agrees :
    (altchars : Option (ℕ × ℕ))
    → AreBytes altchars
    → Agrees (lenient_decode_table altchars) altchars
unfolding lenient_decode_table
lenient_decode_table-Agrees none h = none-Agrees
lenient_decode_table-Agrees (some (plus, slash)) (hp, hs) = some-Agrees plus slash hp hs
