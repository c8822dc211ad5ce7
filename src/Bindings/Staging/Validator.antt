-- ===== src/Bindings/Staging/Validator.antt =====
-- StagingValidator of src/bindings/base64/staging.rs: what is checked is thrown away.

use hashcodecs_rs.Common.{
  ℕ, ◌>>=◌, Option, none, some, List, [], ◌∷◌, ◌==◌, if◌then◌else◌, length, drop, zero, suc,
}
use hashcodecs_rs.Base64.Alphabet.{standard}
use hashcodecs_rs.Base64.Decode.{good, bad}
use hashcodecs_rs.Base64.Unpadded.{decode_unpadded_layout, validate_alphabet}
use hashcodecs_rs.Bindings.Translation.{Translation}
use hashcodecs_rs.Bindings.Staging.{StagingBuffer, apply_all, is_full, extend_from_slice}

-- The translation and the initialised bytes of the buffer.
pub record StagingValidator : Type 0 where
  pub translation : Option Translation
  pub staging : StagingBuffer

unfoldable pub new : Option Translation → StagingValidator
new translation = record { translation = translation; staging = [] }

unfoldable pub flush : StagingValidator → Option StagingValidator
flush self = elim (decode_unpadded_layout (apply_all self.translation self.staging)) [
  | bad e ↦ none
  | good layout ↦ elim (validate_alphabet (apply_all self.translation self.staging) standard) [
    | bad e ↦ none
    | good accepted ↦ some (record self { staging = [] })
  ]
]

unfoldable pub push_rounds : ℕ → StagingValidator → List ℕ → Option StagingValidator
push_rounds zero self input = none
push_rounds (suc fuel) self [] = some self
push_rounds (suc fuel) self (byte ∷ rest) = do
  let input = byte ∷ rest
  let extended = extend_from_slice self.staging input
  let self' : StagingValidator = record self { staging = extended.0 }
  self'' ← (if is_full self'.staging then flush self' else some self')
  push_rounds fuel self'' (drop extended.1 input)

unfoldable pub push : StagingValidator → List ℕ → Option StagingValidator
unfolding push_rounds
push self input = push_rounds (suc (length input)) self input

unfoldable pub finish : StagingValidator → Option (Unit {0})
finish self = do self' ← (if length self.staging == 0 then some self else flush self); some tt
