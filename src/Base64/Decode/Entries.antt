-- ===== src/Base64/Decode/Entries.antt =====
-- Words made of table entries in base64/decode/api.rs: bytes of six-bit values, and the test by `|`.
use hashcodecs_rs.Common.{
  ℕ, ◌+◌, ◌*◌, ◌/◌, ◌%◌, ◌≤◌, ◌<◌, ◌≡◌, ap, ◌∙◌, ◌⊎◌, inl, inr, List, [], ◌∷◌, length, arith,
}
use hashcodecs_rs.Word.{bit_or, bit_or_fields, bit_or-lt, le-bit_or_left, le-bit_or_right}
use hashcodecs_rs.Base64.Alphabet.Tables.{at}
use hashcodecs_rs.Base64.Output.{Memory, ok, ◌>>=◌, ◌>>◌, write, stored}
use hashcodecs_rs.Base64.Output.Laws.{length-stored, stored-stored, write-stored}
use hashcodecs_rs.Base64.Decode.{byte0, byte1, byte2}

-- Every entry is a six-bit value or the invalid value, and `=` has none.
pub record IsTable (table : List ℕ) : Type 0 where
  pub entry : (c : ℕ) → c < 256 → (at table c ≡ 255) ⊎ (at table c < 64)
  pub no_padding : at table b'=' ≡ 255

pub byte0_sum : (v w : ℕ) → v < 64 → w < 64 → byte0 v w ≡ v * 4 + w / 16
byte0_sum v w hv hw = ground (arith, bit_or_fields 2 v (w / 16) (omega arith))

pub byte1_sum : (w x : ℕ) → w < 64 → x < 64 → byte1 w x ≡ w % 16 * 16 + x / 4
byte1_sum w x hw hx = ground (arith, bit_or_fields 4 (w % 16) (x / 4) (omega arith))

pub byte2_sum : (x y : ℕ) → x < 64 → y < 64 → byte2 x y ≡ x % 4 * 64 + y
byte2_sum x y hx hy = ground (arith, bit_or_fields 6 (x % 4) y (omega arith))

pub two_writes :
    (k j x y : ℕ) (mem : Memory)
    → j ≡ k + 1
    → k + 2 ≤ length mem
    → (write k (x ∷ []) >> write j (y ∷ [])) mem ≡ ok tt (stored k (x ∷ y ∷ []) mem)
two_writes k j x y mem e fits =
    let kept : length (stored k (x ∷ []) mem) ≡ length mem =
      length-stored k (x ∷ []) mem (omega arith) in
    rw (write-stored k (x ∷ []) mem (omega arith), ◌>>◌, ◌>>=◌)
      (write-stored j (y ∷ []) (stored k (x ∷ []) mem) (omega arith)
        ∙ ap (λ i. ok tt (stored i (y ∷ []) (stored k (x ∷ []) mem))) e
        ∙ ap (ok tt) (stored-stored k (x ∷ []) (y ∷ []) mem (omega arith)))

pub three_writes :
    (k x y z : ℕ) (mem : Memory)
    → k + 3 ≤ length mem
    → (write k (x ∷ []) >> (write (k + 1) (y ∷ []) >> write (k + 2) (z ∷ []))) mem
      ≡ ok tt (stored k (x ∷ y ∷ z ∷ []) mem)
three_writes k x y z mem fits =
    let kept : length (stored k (x ∷ []) mem) ≡ length mem =
      length-stored k (x ∷ []) mem (omega arith) in
    rw (write-stored k (x ∷ []) mem (omega arith), ◌>>◌, ◌>>=◌)
      (two_writes (k + 1) (k + 2) y z (stored k (x ∷ []) mem) (omega arith) (omega arith)
        ∙ ap (ok tt) (stored-stored k (x ∷ []) (y ∷ z ∷ []) mem (omega arith)))

abbrev pub Entry : ℕ → Type 0
Entry x = (x ≡ 255) ⊎ (x < 64)

-- `|` of entries is the invalid value exactly if one of them is.
pub or_Entry :
    (x y : ℕ)
    → Entry x
    → Entry y
    → ((bit_or x y ≡ 255) × ((x ≡ 255) ⊎ (y ≡ 255))) ⊎ ((bit_or x y < 64) × (x < 64) × (y < 64))
or_Entry x y (inl p) hy = inl (omega (arith, bit_or-lt 8 x y, le-bit_or_left x y), inl p)
or_Entry x y (inr p) (inl q) = inl (omega (arith, bit_or-lt 8 x y, le-bit_or_right x y), inr q)
or_Entry x y (inr p) (inr q) = inr (bit_or-lt 6 x y p q, p, q)

abbrev pub AllValid : ℕ → ℕ → ℕ → ℕ → Type 0
AllValid v w x y = (v < 64) × (w < 64) × (x < 64) × (y < 64)

abbrev pub SomeInvalid : ℕ → ℕ → ℕ → ℕ → Type 0
SomeInvalid v w x y = (v ≡ 255) ⊎ ((w ≡ 255) ⊎ ((x ≡ 255) ⊎ (y ≡ 255)))

pub or_four :
    (v w x y : ℕ)
    → Entry v
    → Entry w
    → Entry x
    → Entry y
    → let r = bit_or (bit_or (bit_or v w) x) y in
      ((r ≡ 255) × SomeInvalid v w x y) ⊎ ((r < 64) × AllValid v w x y)
or_four v w x y hv hw hx hy =
    grind (arith, or_Entry v w hv hw, or_Entry (bit_or v w) x, or_Entry (bit_or (bit_or v w) x) y)

pub or_more :
    (p v w x y : ℕ)
    → Entry p
    → Entry v
    → Entry w
    → Entry x
    → Entry y
    → let r = bit_or (bit_or (bit_or (bit_or p v) w) x) y in
      ((r ≡ 255) × ((p ≡ 255) ⊎ SomeInvalid v w x y)) ⊎ ((r < 64) × (p < 64) × AllValid v w x y)
or_more p v w x y hp hv hw hx hy = grind (
  arith,
  or_Entry p v hp hv,
  or_Entry (bit_or p v) w,
  or_Entry (bit_or (bit_or p v) w) x,
  or_Entry (bit_or (bit_or (bit_or p v) w) x) y,
)
