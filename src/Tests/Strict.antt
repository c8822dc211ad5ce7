-- ===== src/Tests/Strict.antt =====
-- Examples for the strict decoders and the staging writer of the bindings.
use hashcodecs_rs.Common.{
  ℕ, ◌≡◌, none, some, true, false, List, [], ◌∷◌, map, arith, All, length, concat, ◌++◌,
  if◌then◌else◌, Option, zero, suc, ◌≢◌, ltb, leb, ◌==◌, ◌||◌, take, drop, inl, inr, Bool-cases,
  refl, ap, ◌∙◌, sym, length-replicate,
}
use hashcodecs_rs.Word.{IsByte}
use hashcodecs_rs.Base64.Alphabet.{standard, standard_decode, table_of}
use hashcodecs_rs.Base64.Output.{Memory, ok, stored, uninitialized}
use hashcodecs_rs.Base64.Decode.{has_padding}
use hashcodecs_rs.Base64.Rfc4648.{decode, decode_unpadded, decoded_size, unpadded_size}
use hashcodecs_rs.Bindings.{memory_error}
use hashcodecs_rs.Bindings.Translation.{Translation, apply}
use hashcodecs_rs.Bindings.Strict
use hashcodecs_rs.Bindings.Strict.{decode_strict, decode_strict_into, decode_unpadded_into}
use hashcodecs_rs.Bindings.Strict.Into.{into_decoders}
use hashcodecs_rs.Base64.Decode.Into.{Attempt}
use hashcodecs_rs.Bindings.Strict.Fresh.{new_object, strict_decoders}
use mathlib.Core.Option
use hashcodecs_rs.Base64.Decode.Api.{result_of}
use hashcodecs_rs.Bindings.Strict.Translate.{
  contains, starts, IsMemchr2, translation, translate_altchars-translation,
}
use hashcodecs_rs.Bindings.Strict.{translate_altchars, standard_byte}
use hashcodecs_rs.Bindings.Staging.{
  BytesApi, Payload, allocated, refused, new, apply_all, push_symbols,
}
use hashcodecs_rs.Bindings.Staging.Holds.{Valid}
use hashcodecs_rs.Bindings.Staging.Writer.{Pushed}
use hashcodecs_rs.Bindings.Staging.Streams.{
  push_symbols-Pushed, stream, stream-decode_unpadded, new-Holds,
}
use hashcodecs_rs.Base64.Unpadded.{any_invalid}
use hashcodecs_rs.Bindings.Staging.Validator
use hashcodecs_rs.Bindings.Staging.Validation.{checked, accepted, checked-any_invalid}
use hashcodecs_rs.Tests.Bindings.{cells}

-- The text of `hello`.
abbrev text : List ℕ
text = b'a' ∷ b'G' ∷ b'V' ∷ b's' ∷ b'b' ∷ b'G' ∷ b'8' ∷ b'=' ∷ []

text-IsByte : All IsByte text
text-IsByte = (
  omega arith,
  (
    omega arith,
    (omega arith, (omega arith, (omega arith, (omega arith, (omega arith, (omega arith, tt)))))),
  ),
)

abbrev bare : List ℕ
bare = b'a' ∷ b'G' ∷ b'V' ∷ b's' ∷ b'b' ∷ b'G' ∷ b'8' ∷ []

bare-IsByte : All IsByte bare
bare-IsByte = (
  omega arith,
  (omega arith, (omega arith, (omega arith, (omega arith, (omega arith, (omega arith, tt)))))),
)

into_decoders_example :
    Attempt
      (decoded_size bare)
      (cells 6)
      (decode standard_decode bare)
      (decode_strict_into bare standard false (cells 6))
    × Attempt
        (if has_padding bare then none else unpadded_size bare)
        (cells 6)
        (decode_unpadded standard_decode bare)
        (decode_unpadded_into bare standard false (cells 6))
unfolding table_of
into_decoders_example = into_decoders standard bare bare-IsByte false (cells 6) (omega arith)

-- An allocator with room for 4096 bytes in an object.
four_kibibytes : ℕ → Payload
unfolding uninitialized
four_kibibytes n = if ltb n 4096 then allocated (uninitialized n) else refused memory_error

-- The length of a payload; `n` if there is none.
abbrev payload_len : ℕ → Payload → ℕ
payload_len n (allocated mem) = length mem
payload_len n (refused e) = n

payload_len-four_kibibytes : (n : ℕ) → payload_len n (four_kibibytes n) ≡ n
unfolding four_kibibytes uninitialized
payload_len-four_kibibytes n = elim (Bool-cases (ltb n 4096)) [
  | inl small ↦ rw small (length-replicate n blank)
  | inr large ↦ rw large refl
]
  where
    blank : Option ℕ
    blank = none

four_kibibytes-sized : (n : ℕ) (mem : Memory) → four_kibibytes n ≡ allocated mem → length mem ≡ n
four_kibibytes-sized n mem e = sym (ap (payload_len n) e) ∙ payload_len-four_kibibytes n

abbrev small_objects : BytesApi
small_objects = record { from_string_and_size = four_kibibytes; sized = four_kibibytes-sized }

strict_decoders_example :
    (decode_strict small_objects text standard
      ≡ new_object small_objects (decoded_size text) (result_of (decode standard_decode text)))
    × (Strict.decode_unpadded small_objects text standard
        ≡ new_object small_objects
            (unpadded_size text)
            (result_of (decode_unpadded standard_decode text)))
unfolding table_of
strict_decoders_example = strict_decoders small_objects standard text text-IsByte (omega arith)

-- A search from the left.
abbrev search_two : ℕ → ℕ → List ℕ → Option ℕ
search_two a b [] = none
search_two a b (c ∷ rest) =
    let later = search_two a b rest in if (c == a) || (c == b) then some 0 else Option.map suc later

search_two-hit :
    (a b c : ℕ) (rest : List ℕ) → (c == a) || (c == b) ≡ true → search_two a b (c ∷ rest) ≡ some 0
search_two-hit a b c rest hit = rw hit refl

search_two-miss :
    (a b c : ℕ) (rest : List ℕ)
    → (c == a) || (c == b) ≡ false
    → search_two a b (c ∷ rest) ≡ Option.map suc (search_two a b rest)
search_two-miss a b c rest miss = rw miss refl

shifted_zero : (place : Option ℕ) → Option.map suc place ≢ some 0
shifted_zero none e = absurd (ground arith)
shifted_zero (some k) e = absurd (ground arith)

shifted_suc : (place : Option ℕ) (k : ℕ) → Option.map suc place ≡ some (suc k) → place ≡ some k
shifted_suc none k e = absurd (ground arith)
shifted_suc (some j) k e = ground arith

shifted_none : (place : Option ℕ) → Option.map suc place ≡ none → place ≡ none
shifted_none none e = refl
shifted_none (some k) e = absurd (ground arith)

search_two-found :
    (a b k : ℕ) (xs : List ℕ)
    → search_two a b xs ≡ some k
    → (contains a b (take k xs) ≡ false) × (starts a b (drop k xs) ≡ true)
search_two-found a b k [] e = absurd (ground arith)
search_two-found a b zero (c ∷ rest) e = elim (Bool-cases ((c == a) || (c == b))) [
  | inl hit ↦ (refl, hit)
  | inr miss ↦
      absurd (shifted_zero (search_two a b rest) (sym (search_two-miss a b c rest miss) ∙ e))
]
search_two-found a b (suc k) (c ∷ rest) e = elim (Bool-cases ((c == a) || (c == b))) [
  | inl hit ↦
      let e' : some 0 ≡ some (suc k) = sym (search_two-hit a b c rest hit) ∙ e in
      absurd (ground arith)
  | inr miss ↦
      let e' : Option.map suc (search_two a b rest) ≡ some (suc k) =
        sym (search_two-miss a b c rest miss) ∙ e in
      rw miss (search_two-found a b k rest (shifted_suc (search_two a b rest) k e'))
]

search_two-absent : (a b : ℕ) (xs : List ℕ) → search_two a b xs ≡ none → contains a b xs ≡ false
search_two-absent a b [] e = refl
search_two-absent a b (c ∷ rest) e = elim (Bool-cases ((c == a) || (c == b))) [
  | inl hit ↦
      let nothing : Option ℕ = none in
      let e' : some 0 ≡ nothing = sym (search_two-hit a b c rest hit) ∙ e in absurd (ground arith)
  | inr miss ↦
      let e' : Option.map suc (search_two a b rest) ≡ none =
        sym (search_two-miss a b c rest miss) ∙ e in
      rw miss (search_two-absent a b rest (shifted_none (search_two a b rest) e'))
]

search_two-IsMemchr2 : IsMemchr2 search_two
search_two-IsMemchr2 = record { found = search_two-found; absent = search_two-absent }

translate_altchars-translation_example :
    (translate_altchars search_two (λ n. leb n 4096) (b'A' ∷ b'-' ∷ b'_' ∷ []) b'-' b'_'
      ≡ translation (λ n. leb n 4096) (b'A' ∷ b'-' ∷ b'_' ∷ []) b'-' b'_')
    × ((if contains b'-' b'_' (b'A' ∷ b'-' ∷ b'_' ∷ [])
          then map (standard_byte b'-' b'_') (b'A' ∷ b'-' ∷ b'_' ∷ [])
          else b'A' ∷ b'-' ∷ b'_' ∷ [])
        ≡ map (standard_byte b'-' b'_') (b'A' ∷ b'-' ∷ b'_' ∷ []))
translate_altchars-translation_example =
    translate_altchars-translation search_two (λ n. leb n 4096) search_two-IsMemchr2
      (b'A' ∷ b'-' ∷ b'_' ∷ []) b'-' b'_'

-- Three pieces, none of them whole quanta, with `-` for `+`.
abbrev minus : Translation
minus = record { source0 = b'-'; target0 = b'+'; source1 = b'-'; target1 = b'+' }

abbrev pieces : List (List ℕ)
pieces = (b'a' ∷ b'G' ∷ b'V' ∷ []) ∷ (b's' ∷ b'b' ∷ []) ∷ (b'G' ∷ b'-' ∷ []) ∷ []

symbols-Valid : Valid (apply_all (some minus) (concat pieces))
unfolding apply_all apply standard_decode
symbols-Valid = (
  (
    omega arith,
    (omega arith, (omega arith, (omega arith, (omega arith, (omega arith, (omega arith, tt)))))),
  ),
  (
    omega arith,
    (omega arith, (omega arith, (omega arith, (omega arith, (omega arith, (omega arith, tt)))))),
  ),
)

stream-decode_unpadded_example :
    (bytes : List ℕ) × (decode_unpadded standard_decode (apply_all (some minus) (concat pieces))
      ≡ some bytes)
    × (stream false (new (some minus)) pieces (cells 6)
        ≡ ok (length bytes) (stored 0 bytes (cells 6)))
stream-decode_unpadded_example =
    stream-decode_unpadded (some minus) false pieces (cells 6) symbols-Valid (omega arith)
      (omega arith) (omega arith)

bare-Valid : Valid bare
unfolding standard_decode
bare-Valid = (
  bare-IsByte,
  (
    omega arith,
    (omega arith, (omega arith, (omega arith, (omega arith, (omega arith, (omega arith, tt)))))),
  ),
)

push_symbols-Pushed_example :
    Pushed none (cells 5) (push_symbols true (new none) bare) ([] ++ apply_all none bare) (cells 5)
unfolding new apply_all
push_symbols-Pushed_example =
    push_symbols-Pushed none (cells 5) true (new none) [] bare (cells 5) (new-Holds none (cells 5))
      (omega arith) (omega arith) (bare-Valid, omega arith)

checked-any_invalid_example :
    checked (Validator.new (some minus)) pieces
    ≡ accepted (any_invalid standard_decode (apply_all (some minus) (concat pieces)))
checked-any_invalid_example = checked-any_invalid (some minus) pieces (omega arith)
