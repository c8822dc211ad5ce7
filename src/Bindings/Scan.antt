-- ===== src/Bindings/Scan.antt =====
-- src/bindings/base64/scan: the scalar scanners, which scan.rs selects in the build that has no vector
-- kernel. The two characters of the caller are a pair.
use hashcodecs_rs.Common.{
  ℕ, suc, ◌+◌, ◌-◌, ◌^◌, ◌%◌, Option, none, some, Bool, false, ◌||◌, List, [], ◌∷◌, map, leb, ◌==◌,
  if◌then◌else◌,
}

-- `wrapping_sub` on bytes
unfoldable pub wrapping_sub8 : ℕ → ℕ → ℕ
wrapping_sub8 a b = (a + 2 ^ 8 - b) % 2 ^ 8

unfoldable pub is_altchar : ℕ → Option (ℕ × ℕ) → Bool
is_altchar byte none = false
is_altchar byte (some (plus, slash)) = (byte == plus) || (byte == slash)

unfoldable pub is_lenient_symbol : ℕ → Option (ℕ × ℕ) → Bool
unfolding wrapping_sub8 is_altchar
is_lenient_symbol byte altchars =
    leb (wrapping_sub8 byte b'A') (b'Z' - b'A')
    || (leb (wrapping_sub8 byte b'a') (b'z' - b'a')
        || (leb (wrapping_sub8 byte b'0') (b'9' - b'0')
            || ((byte == b'+') || ((byte == b'/') || is_altchar byte altchars))))

unfoldable pub symbol_count : List ℕ → Option (ℕ × ℕ) → ℕ
unfolding is_lenient_symbol
symbol_count [] altchars = 0
symbol_count (byte ∷ rest) altchars =
    (if is_lenient_symbol byte altchars then 1 else 0) + symbol_count rest altchars

-- `position` of the first other byte, or the length
unfoldable pub symbol_prefix : List ℕ → Option (ℕ × ℕ) → ℕ
unfolding is_lenient_symbol
symbol_prefix [] altchars = 0
symbol_prefix (byte ∷ rest) altchars =
    let more = symbol_prefix rest altchars in
    if is_lenient_symbol byte altchars then suc more else 0

unfoldable pub translate_byte : ℕ → ℕ → ℕ → ℕ → ℕ → ℕ
translate_byte source0 target0 source1 target1 byte =
    if byte == source0 then target0 else if byte == source1 then target1 else byte

unfoldable pub translate : List ℕ → ℕ → ℕ → ℕ → ℕ → List ℕ
unfolding translate_byte
translate input source0 target0 source1 target1 =
    map (translate_byte source0 target0 source1 target1) input
