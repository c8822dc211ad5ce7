-- ===== src/Base64/Decode/Size.antt =====
-- The length in the layout of padded text in base64/decode/api.rs, against RFC 4648.
use mathlib.Core.Option
use hashcodecs_rs.Common.{
  ℕ, ◌+◌, ◌%◌, ◌≡◌, ◌≢◌, refl, ap, ◌∙◌, none, some, List, [], ◌∷◌, length, arith,
}
use hashcodecs_rs.Base64.Rfc4648.{decoded_size}
use hashcodecs_rs.Base64.Decode.{padding_of}
use hashcodecs_rs.Base64.Decode.Mode.{padding-bound}
use hashcodecs_rs.Base64.Decode.Layout.{output_len_of}

pub decoded_size-whole :
    (input : List ℕ) → length input % 4 ≡ 0 → decoded_size input ≡ some (output_len_of input)
unfolding decoded_size padding_of
decoded_size-whole [] m = refl
decoded_size-whole (a ∷ []) m = absurd (omega arith)
decoded_size-whole (a ∷ b ∷ []) m = absurd (omega arith)
decoded_size-whole (a ∷ b ∷ c ∷ []) m = absurd (omega arith)
decoded_size-whole (a ∷ b ∷ c ∷ d ∷ []) m = ground arith
decoded_size-whole (a ∷ b ∷ c ∷ d ∷ e ∷ []) m = absurd (omega arith)
decoded_size-whole (a ∷ b ∷ c ∷ d ∷ e ∷ f ∷ rest) m =
    let p = padding-bound (e ∷ f ∷ rest) in
    let more : output_len_of (e ∷ f ∷ rest) + 3 ≡ output_len_of (a ∷ b ∷ c ∷ d ∷ e ∷ f ∷ rest) =
      omega arith in
    ap (Option.map (λ n. n + 3)) (decoded_size-whole (e ∷ f ∷ rest) (omega arith)) ∙ ap some more

pub decoded_size-ragged : (input : List ℕ) → length input % 4 ≢ 0 → decoded_size input ≡ none
unfolding decoded_size
decoded_size-ragged [] m = absurd (m refl)
decoded_size-ragged (a ∷ []) m = refl
decoded_size-ragged (a ∷ b ∷ []) m = refl
decoded_size-ragged (a ∷ b ∷ c ∷ []) m = refl
decoded_size-ragged (a ∷ b ∷ c ∷ d ∷ []) m = absurd (m refl)
decoded_size-ragged (a ∷ b ∷ c ∷ d ∷ e ∷ rest) m =
    ap (Option.map (λ n. n + 3)) (decoded_size-ragged (e ∷ rest) (λ h. m (omega arith)))
