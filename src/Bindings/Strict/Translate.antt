-- ===== src/Bindings/Strict/Translate.antt =====
-- The translation of other characters than `+/` in src/bindings/base64/strict.rs.
use hashcodecs_rs.Common.{
  ℕ, zero, suc, ◌≡◌, refl, ap, sym, Option, none, some, Bool, true, false, List, [], ◌∷◌, ◌++◌, map,
  ◌||◌, ◌==◌, take, drop, length, if◌then◌else◌, arith, Bool-cases, inl, inr,
}
use hashcodecs_rs.Bindings.{PyResult, returned, raised, memory_error}
use hashcodecs_rs.Bindings.Strict.{standard_byte, translate_altchars}

-- Whether one of two characters occurs in a text.
abbrev pub contains : ℕ → ℕ → List ℕ → Bool
contains plus slash [] = false
contains plus slash (c ∷ rest) =
    let later = contains plus slash rest in if (c == plus) || (c == slash) then true else later

-- Whether a text starts with one of two characters.
abbrev pub starts : ℕ → ℕ → List ℕ → Bool
starts plus slash [] = false
starts plus slash (c ∷ rest) = (c == plus) || (c == slash)

-- What `memchr2` of the crate memchr promises: a place that it finds holds one of the characters,
-- and none of them stands in front; if it finds none, none of them occurs.
pub record IsMemchr2 (memchr2 : ℕ → ℕ → List ℕ → Option ℕ) : Type 0 where
  pub found :
      (a b k : ℕ) (text : List ℕ)
      → memchr2 a b text ≡ some k
      → (contains a b (take k text) ≡ false) × (starts a b (drop k text) ≡ true)
  pub absent : (a b : ℕ) (text : List ℕ) → memchr2 a b text ≡ none → contains a b text ≡ false

-- The text with each byte translated, in a copy if there is something to translate and memory for
-- the copy.
abbrev pub translation : (ℕ → Bool) → List ℕ → ℕ → ℕ → PyResult (Option (List ℕ))
translation reserve input plus slash =
    if contains plus slash input
    then if reserve (length input)
      then returned (some (map (standard_byte plus slash) input))
      else raised memory_error
    else returned none

module _ (plus slash : ℕ) where
  standard_byte-other :
      (c : ℕ) → (c == plus) || (c == slash) ≡ false → standard_byte plus slash c ≡ c
  unfolding standard_byte
  standard_byte-other c e = ground arith

  -- Text without the characters is its own translation.
  map-absent :
      (text : List ℕ)
      → contains plus slash text ≡ false
      → map (standard_byte plus slash) text ≡ text
  map-absent [] e = refl
  map-absent (c ∷ rest) e = elim (Bool-cases ((c == plus) || (c == slash))) [
    | inl hit ↦ absurd (ground (arith, e, hit))
    | inr miss ↦
        let e' : contains plus slash rest ≡ false = ground (arith, e, miss) in
        rw (standard_byte-other c miss, map-absent rest e') refl
  ]

  starts-contains :
      (text : List ℕ) → starts plus slash text ≡ true → contains plus slash text ≡ true
  starts-contains [] e = absurd (ground arith)
  starts-contains (c ∷ rest) e = rw e refl

  contains-drop :
      (k : ℕ) (text : List ℕ)
      → contains plus slash (drop k text) ≡ true
      → contains plus slash text ≡ true
  contains-drop zero text e = e
  contains-drop (suc k) [] e = e
  contains-drop (suc k) (c ∷ rest) e = elim (Bool-cases ((c == plus) || (c == slash))) [
    | inl hit ↦ rw hit refl
    | inr miss ↦ rw miss (contains-drop k rest e)
  ]

  -- The prefix in front of the first of the characters need not be translated.
  map-split :
      (k : ℕ) (text : List ℕ)
      → contains plus slash (take k text) ≡ false
      → take k text ++ map (standard_byte plus slash) (drop k text)
        ≡ map (standard_byte plus slash) text
  map-split zero text e = refl
  map-split (suc k) [] e = refl
  map-split (suc k) (c ∷ rest) e = elim (Bool-cases ((c == plus) || (c == slash))) [
    | inl hit ↦ absurd (ground (arith, e, hit))
    | inr miss ↦
        let e' : contains plus slash (take k rest) ≡ false = ground (arith, e, miss) in
        rw (standard_byte-other c miss) (ap (λ t. c ∷ t) (map-split k rest e'))
  ]

-- For every memchr2 that finds the first of two characters, every answer of try_reserve_exact, all
-- bytes and every two characters: translate_altchars makes no copy if neither character occurs;
-- else it raises MemoryError if the memory for the copy is refused, and returns the input with
-- each byte translated otherwise, the second character before the first; and the text that is
-- decoded, the copy or the input if there is none to make, is the input with each byte translated.
pub translate_altchars-translation :
    (memchr2 : ℕ → ℕ → List ℕ → Option ℕ) (reserve : ℕ → Bool)
    → IsMemchr2 memchr2
    → (input : List ℕ) (plus slash : ℕ)
    → (translate_altchars memchr2 reserve input plus slash ≡ translation reserve input plus slash)
      × ((if contains plus slash input then map (standard_byte plus slash) input else input)
          ≡ map (standard_byte plus slash) input)
unfolding translate_altchars
translate_altchars-translation memchr2 reserve law input plus slash = (
  by_place (memchr2 plus slash input) refl,
  elim (Bool-cases (contains plus slash input)) [
    | inl occurs ↦ rw occurs refl
    | inr clean ↦ rw clean (sym (map-absent plus slash input clean))
  ],
)
  where
    by_place :
        (place : Option ℕ)
        → memchr2 plus slash input ≡ place
        → translate_altchars memchr2 reserve input plus slash ≡ translation reserve input plus slash
    by_place none e = rw (translate_altchars, e, law.absent plus slash input e) refl
    by_place (some k) e =
        let (before, here) = law.found plus slash k input e in
        let hit =
          contains-drop plus slash k input (starts-contains plus slash (drop k input) here) in
        rw (translate_altchars, e, hit, map-split plus slash k input before) refl
