-- ===== src/Base64/Rfc4648.antt =====
-- The Base64 encoding of RFC 4648, section 4, in plain arithmetic on 24-bit groups: what the
-- encoders of base64/encode and the decoders of base64/decode are held to.
use hashcodecs_rs.Common.{
  ℕ, ◌+◌, ◌*◌, ◌/◌, ◌%◌, Option, none, some, List, [], ◌∷◌, ◌++◌, ◌==◌, if◌then◌else◌, ◌>>=◌,
}
use mathlib.Core.Option
use hashcodecs_rs.Base64.Alphabet.Tables.{at}

-- Three bytes are four six-bit digits, the highest first; one or two bytes are padded with zero
-- bits to whole digits, and with `=` to four symbols.
unfoldable pub encode : List ℕ → List ℕ → List ℕ
encode alphabet [] = []
encode alphabet (a ∷ []) = at alphabet (a / 4) ∷ at alphabet (a % 4 * 16) ∷ b'=' ∷ b'=' ∷ []
encode alphabet (a ∷ b ∷ []) =
    at alphabet (a / 4) ∷ at alphabet (a % 4 * 16 + b / 16) ∷ at alphabet (b % 16 * 4) ∷ b'=' ∷ []
encode alphabet (a ∷ b ∷ c ∷ rest) =
    at alphabet (a / 4)
    ∷ at alphabet (a % 4 * 16 + b / 16)
    ∷ at alphabet (b % 16 * 4 + c / 64)
    ∷ at alphabet (c % 64)
    ∷ encode alphabet rest

-- The digit of a symbol, if it is in the alphabet of `table`.
unfoldable pub digit : List ℕ → ℕ → Option ℕ
digit table c = if at table c == 255 then none else some (at table c)

-- The bytes of a full quantum.
unfoldable pub quad : List ℕ → ℕ → ℕ → ℕ → ℕ → Option (List ℕ)
unfolding digit
quad table a b c d = do
  v ← digit table a
  w ← digit table b
  x ← digit table c
  y ← digit table d
  some ((v * 4 + w / 16) ∷ (w % 16 * 16 + x / 4) ∷ (x % 4 * 64 + y) ∷ [])

-- The bytes of two or three symbols, the unused low bits of the last one ignored.
unfoldable pub short : List ℕ → List ℕ → Option (List ℕ)
unfolding digit
short table (a ∷ b ∷ []) = do v ← digit table a; w ← digit table b; some ((v * 4 + w / 16) ∷ [])
short table (a ∷ b ∷ c ∷ []) = do
  v ← digit table a
  w ← digit table b
  x ← digit table c
  some ((v * 4 + w / 16) ∷ (w % 16 * 16 + x / 4) ∷ [])
short table _ = none

-- Both parts, one after the other.
abbrev pub join : Option (List ℕ) → Option (List ℕ) → Option (List ℕ)
join none more = none
join (some bytes) none = none
join (some bytes) (some more) = some (bytes ++ more)

-- Full quanta to the end.
unfoldable pub quads : List ℕ → List ℕ → Option (List ℕ)
quads table [] = some []
quads table (a ∷ b ∷ c ∷ d ∷ rest) = join (quad table a b c d) (quads table rest)
quads table _ = none

-- Padded text: full quanta, and a last one in which `=` stands for missing symbols.
unfoldable pub decode : List ℕ → List ℕ → Option (List ℕ)
decode table [] = some []
decode table (a ∷ b ∷ c ∷ d ∷ []) =
    if d == b'='
    then (if c == b'=' then short table (a ∷ b ∷ []) else short table (a ∷ b ∷ c ∷ []))
    else quad table a b c d
decode table (a ∷ b ∷ c ∷ d ∷ e ∷ rest) = join (quad table a b c d) (decode table (e ∷ rest))
decode table _ = none

-- Text without padding.
unfoldable pub decode_unpadded : List ℕ → List ℕ → Option (List ℕ)
decode_unpadded table [] = some []
decode_unpadded table (a ∷ b ∷ c ∷ d ∷ rest) =
    join (quad table a b c d) (decode_unpadded table rest)
decode_unpadded table rest = short table rest

-- The number of bytes that padded text stands for, whatever its symbols.
unfoldable pub decoded_size : List ℕ → Option ℕ
decoded_size [] = some 0
decoded_size (a ∷ b ∷ c ∷ d ∷ []) = some (if d == b'=' then (if c == b'=' then 1 else 2) else 3)
decoded_size (a ∷ b ∷ c ∷ d ∷ e ∷ rest) = Option.map (λ n. n + 3) (decoded_size (e ∷ rest))
decoded_size _ = none

-- The same for text without padding.
unfoldable pub unpadded_size : List ℕ → Option ℕ
unpadded_size [] = some 0
unpadded_size (a ∷ []) = none
unpadded_size (a ∷ b ∷ []) = some 1
unpadded_size (a ∷ b ∷ c ∷ []) = some 2
unpadded_size (a ∷ b ∷ c ∷ d ∷ rest) = Option.map (λ n. n + 3) (unpadded_size rest)
