-- ===== src/Bindings/Staging/Blocks.antt =====
-- One decoded block of src/bindings/base64/staging.rs, at any place of the output.
use mathlib.Core.List.{map-append}
use hashcodecs_rs.Common.{
  ℕ, ◌+◌, ◌%◌, ◌≤◌, ◌<◌, ◌≡◌, ◌≢◌, refl, ap, ◌∙◌, sym, Option, none, some, Bool, true, false, List,
  [], ◌∷◌, ◌++◌, leb, length, drop, arith, All, drop-drop, length-map,
}
use hashcodecs_rs.Word.{IsByte}
use hashcodecs_rs.Base64.Alphabet.{standard, standard_decode, table_of}
use hashcodecs_rs.Base64.Output.{Memory, Outcome, ok, Write, pure, stored}
use hashcodecs_rs.Base64.Output.Laws.{run}
use hashcodecs_rs.Base64.Rfc4648.{decode_unpadded, quad, join}
use hashcodecs_rs.Base64.Encode.{usize_mod}
use hashcodecs_rs.Base64.Decode.{good, partial}
use hashcodecs_rs.Base64.Decode.Loops.{Follows, join_assoc, nil-join}
use hashcodecs_rs.Base64.Unpadded.{
  any_invalid, validate_alphabet, decode_to_ptr_with_unpadded_layout,
}
use hashcodecs_rs.Base64.Unpadded.Laws.{
  unpadded_len, unpadded_layout, decode_unpadded_layout-good, unpadded-Follows,
}
use hashcodecs_rs.Base64.Unpadded.Blocks.{Symbols}
use hashcodecs_rs.Base64.Unpadded.Validated.{
  verdict, validate_alphabet-decode_unpadded, decode_standard_validated_to_ptr-decode_unpadded,
  any_invalid-decode_unpadded,
}
use hashcodecs_rs.Bindings.Translation.{Translation, apply}
use hashcodecs_rs.Bindings.Scan.{translate}
use hashcodecs_rs.Bindings.Staging.{apply_all, decode_staging, on_suffix}

pub on_suffix-stored :
    {A : Type 0} (k : ℕ) (m : Write A) (a : A) (bytes : List ℕ) (mem : Memory)
    → k ≤ length mem
    → m (drop k mem) ≡ ok a (stored 0 bytes (drop k mem))
    → on_suffix k m mem ≡ ok a (stored k bytes mem)
unfolding on_suffix
on_suffix-stored k m a bytes mem h e =
    let inside : leb k (length mem) ≡ true = ground arith in
    let rest : drop (0 + length bytes) (drop k mem) ≡ drop (k + length bytes) mem =
      drop-drop (0 + length bytes) k mem ∙ ap (λ i. drop i mem) (omega arith) in
    rw (inside, e, rest) refl

Symbols-any_invalid : (table input : List ℕ) → Symbols table input → any_invalid table input ≡ false
unfolding any_invalid
Symbols-any_invalid table [] h = refl
Symbols-any_invalid table (c ∷ input) (hc, h) = ground (arith, Symbols-any_invalid table input h)

module _ (input : List ℕ) (h : All IsByte input) (s : Symbols standard_decode input)
    (m : length input % 4 ≢ 1) where
  symbols_verdict : verdict (decode_unpadded standard_decode input) ≡ good tt
  symbols_verdict =
      let i = Symbols-any_invalid standard_decode input s in
      sym (any_invalid-decode_unpadded standard_decode input m) ∙ rw i refl

  validated : validate_alphabet input standard ≡ good tt
  unfolding table_of
  validated = validate_alphabet-decode_unpadded standard input m ∙ symbols_verdict

  -- A block of symbols, checked or not.
  pub decode_staging-runs :
      (checked : Bool) (mem : Memory)
      → unpadded_len input ≤ length mem
      → length input < usize_mod
      → (bytes : List ℕ) × (decode_unpadded standard_decode input ≡ some bytes)
        × (decode_staging checked input mem ≡ ok (unpadded_len input) (stored 0 bytes mem))
  unfolding decode_staging
  decode_staging-runs false mem fits counted =
      decode_standard_validated_to_ptr-decode_unpadded input mem h m fits validated
  decode_staging-runs true mem fits counted =
      conclude (decode_unpadded standard_decode input) symbols_verdict (
        unfold table_of decode_to_ptr_with_unpadded_layout in
        unpadded-Follows standard partial input (unpadded_layout input) mem h m fits)
    where
      action : Outcome (Unit {0})
      action = decode_to_ptr_with_unpadded_layout input (unpadded_layout input) standard mem

      conclude :
          (o : Option (List ℕ))
          → verdict o ≡ good tt
          → Follows 0 (unpadded_len input) mem o tt action
          → (bytes : List ℕ) × (o ≡ some bytes)
            × (decode_staging true input mem ≡ ok (unpadded_len input) (stored 0 bytes mem))
      conclude none e f = absurd (ground arith)
      conclude (some bytes) e f = (
        bytes,
        refl,
        rw (decode_staging, decode_unpadded_layout-good input m counted)
            (run (decode_to_ptr_with_unpadded_layout input (unpadded_layout input) standard)
              (pure (unpadded_len input)) mem (stored 0 bytes mem) f),
      )

-- Full quanta in front decode on their own.
pub decode_unpadded-append :
    (table xs ys : List ℕ)
    → length xs % 4 ≡ 0
    → decode_unpadded table (xs ++ ys) ≡ join (decode_unpadded table xs) (decode_unpadded table ys)
unfolding decode_unpadded
decode_unpadded-append table [] ys m = sym (nil-join (decode_unpadded table ys))
decode_unpadded-append table (a ∷ []) ys m = absurd (omega arith)
decode_unpadded-append table (a ∷ b ∷ []) ys m = absurd (omega arith)
decode_unpadded-append table (a ∷ b ∷ c ∷ []) ys m = absurd (omega arith)
decode_unpadded-append table (a ∷ b ∷ c ∷ d ∷ xs) ys m =
    ap (join (quad table a b c d)) (decode_unpadded-append table xs ys (omega arith))
    ∙ sym (join_assoc (quad table a b c d) (decode_unpadded table xs) (decode_unpadded table ys))

-- The translation is one byte for one byte.
pub apply_all-append :
    (t : Option Translation) (xs ys : List ℕ)
    → apply_all t (xs ++ ys) ≡ apply_all t xs ++ apply_all t ys
unfolding apply_all apply translate
apply_all-append none xs ys = refl
apply_all-append (some t) xs ys = map-append _ xs ys

pub length-apply_all : (t : Option Translation) (xs : List ℕ) → length (apply_all t xs) ≡ length xs
unfolding apply_all apply translate
length-apply_all none xs = refl
length-apply_all (some t) xs = length-map _ xs
