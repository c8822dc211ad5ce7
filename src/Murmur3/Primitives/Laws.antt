-- ===== src/Murmur3/Primitives/Laws.antt =====
-- The loads of murmur3/primitives.rs read little-endian values, and the finalizers are bijections.
use hashcodecs_rs.Common.{
  ℕ, ◌+◌, ◌*◌, ◌^◌, ◌≤◌, ◌<◌, ◌≡◌, refl, ◌∙◌, some, List, [], ◌∷◌, arith, All, length,
}
use hashcodecs_rs.Word.{IsByte, bit_or, bit_or_fields, bit_or_comm}
use hashcodecs_rs.Murmur3.Primitives.{read_partial_u64_le}

-- The value of bytes, the lowest first.
unfoldable pub little_endian : List ℕ → ℕ
little_endian [] = 0
little_endian (b ∷ bytes) = b + 256 * little_endian bytes

-- A low part and a high part do not overlap.
or_parts : (k q r : ℕ) → r < 2 ^ k → bit_or r (q * 2 ^ k) ≡ r + q * 2 ^ k
or_parts k q r h = bit_or_comm r (q * 2 ^ k) ∙ (bit_or_fields k q r h ∙ omega arith)

-- For at most eight bytes, read_partial_u64_le returns their little-endian value.
pub read_partial_u64_le-little_endian :
    (bytes : List ℕ)
    → All IsByte bytes
    → length bytes ≤ 8
    → read_partial_u64_le bytes ≡ some (little_endian bytes)
unfolding little_endian read_partial_u64_le
read_partial_u64_le-little_endian [] h n = refl
read_partial_u64_le-little_endian (a ∷ []) h n = ground arith
read_partial_u64_le-little_endian (a ∷ b ∷ []) h n = ground arith
read_partial_u64_le-little_endian (a ∷ b ∷ c ∷ []) (ha, (hb, (hc, _))) n =
    ground (arith, or_parts 16 c (a + b * 2 ^ 8))
read_partial_u64_le-little_endian (a ∷ b ∷ c ∷ d ∷ []) h n = ground arith
read_partial_u64_le-little_endian (a ∷ b ∷ c ∷ d ∷ e ∷ []) (ha, (hb, (hc, (hd, (he, _))))) n =
    ground (arith, or_parts 32 e (a + b * 2 ^ 8 + c * 2 ^ 16 + d * 2 ^ 24))
read_partial_u64_le-little_endian (a ∷ b ∷ c ∷ d ∷ e ∷ f ∷ []) (ha, (hb, (hc, (hd, (he, (hf, _))))))
      n =
    ground (arith, or_parts 32 (e + f * 2 ^ 8) (a + b * 2 ^ 8 + c * 2 ^ 16 + d * 2 ^ 24))
read_partial_u64_le-little_endian (a ∷ b ∷ c ∷ d ∷ e ∷ f ∷ g ∷ [])
      (ha, (hb, (hc, (hd, (he, (hf, (hg, _))))))) n =
    let low = a + b * 2 ^ 8 + c * 2 ^ 16 + d * 2 ^ 24 in
    ground (arith, or_parts 32 (e + f * 2 ^ 8) low, or_parts 48 g (low + (e + f * 2 ^ 8) * 2 ^ 32))
read_partial_u64_le-little_endian (a ∷ b ∷ c ∷ d ∷ e ∷ f ∷ g ∷ h ∷ []) k n = ground arith
read_partial_u64_le-little_endian (a ∷ b ∷ c ∷ d ∷ e ∷ f ∷ g ∷ h ∷ i ∷ rest) k n =
    absurd (omega arith)

-- The partial load never panics on eight bytes or fewer.
pub read_partial_u64_le-total :
    (bytes : List ℕ) → length bytes ≤ 8 → (v : ℕ) × (read_partial_u64_le bytes ≡ some v)
unfolding read_partial_u64_le
read_partial_u64_le-total [] n = (_, refl)
read_partial_u64_le-total (a ∷ []) n = (_, refl)
read_partial_u64_le-total (a ∷ b ∷ []) n = (_, refl)
read_partial_u64_le-total (a ∷ b ∷ c ∷ []) n = (_, refl)
read_partial_u64_le-total (a ∷ b ∷ c ∷ d ∷ []) n = (_, refl)
read_partial_u64_le-total (a ∷ b ∷ c ∷ d ∷ e ∷ []) n = (_, refl)
read_partial_u64_le-total (a ∷ b ∷ c ∷ d ∷ e ∷ f ∷ []) n = (_, refl)
read_partial_u64_le-total (a ∷ b ∷ c ∷ d ∷ e ∷ f ∷ g ∷ []) n = (_, refl)
read_partial_u64_le-total (a ∷ b ∷ c ∷ d ∷ e ∷ f ∷ g ∷ h ∷ []) n = (_, refl)
read_partial_u64_le-total (a ∷ b ∷ c ∷ d ∷ e ∷ f ∷ g ∷ h ∷ i ∷ rest) n = absurd (omega arith)
