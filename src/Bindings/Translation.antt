-- ===== src/Bindings/Translation.antt =====
-- src/bindings/base64/configured.rs: the translation of the caller's two characters to `+/`.

use hashcodecs_rs.Common.{
  ℕ, Option, none, some, ◌&&◌, ◌||◌, ◌++◌, Bool, false, not, List, [], ◌∷◌, ltb, ◌==◌,
  if◌then◌else◌,
}
use hashcodecs_rs.Base64.Alphabet.{standard_alphabet}
use hashcodecs_rs.Base64.Alphabet.Tables.{at}
use hashcodecs_rs.Bindings.Scan.{translate}

-- The kernel is `translate` of the scalar scanners.
pub record Translation : Type 0 where
  pub source0 : ℕ
  pub target0 : ℕ
  pub source1 : ℕ
  pub target1 : ℕ

-- One round of the loop over the two characters; the pairs are `sources` and `targets`, up to
-- `count`.
unfoldable pub is_source : List (ℕ × ℕ) → ℕ → Bool
is_source [] byte = false
is_source (p ∷ pairs) byte = (p.0 == byte) || is_source pairs byte

unfoldable pub add_pair : List ℕ → List (ℕ × ℕ) → ℕ → List (ℕ × ℕ)
unfolding is_source
add_pair table pairs byte =
    let value = at table byte in
    if is_source pairs byte
    then pairs
    else if ltb value 64 && not (at standard_alphabet value == byte)
    then pairs ++ ((byte, at standard_alphabet value) ∷ [])
    else pairs

unfoldable pub translation_pairs : List ℕ → ℕ → ℕ → List (ℕ × ℕ)
unfolding add_pair
translation_pairs table plus slash = add_pair table (add_pair table [] plus) slash

unfoldable pub new : List ℕ → Option (ℕ × ℕ) → Option Translation
unfolding translation_pairs
new table none = none
new table (some (plus, slash)) = elim (translation_pairs table plus slash) [
  | [] ↦ none
  | p ∷ [] ↦ some (record { source0 = p.0; target0 = p.1; source1 = p.0; target1 = p.1 })
  | p ∷ q ∷ more ↦ some (record { source0 = p.0; target0 = p.1; source1 = q.0; target1 = q.1 })
]

unfoldable pub apply : Translation → List ℕ → List ℕ
unfolding translate
apply self input = translate input self.source0 self.target0 self.source1 self.target1
