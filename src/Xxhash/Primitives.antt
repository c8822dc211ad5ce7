-- ===== src/Xxhash/Primitives.antt =====
-- xxhash/primitives.rs: constants, loads, mixers. `none` is a panic, or a read out of bounds.
pub mod Laws
use hashcodecs_rs.Common.{
  ℕ, ◌+◌, ◌-◌, ◌*◌, ◌/◌, ◌%◌, ◌^◌, Option, none, some, Bool, ◌&&◌, List, [], ◌∷◌, ◌>>=◌, leb,
  if◌then◌else◌, get_elem?, length,
}
use hashcodecs_rs.Word.{bit_xor, bit_or, add64, mul64, sub64, rotate_left64, xor_shift}

abbrev pub p32_1 : ℕ
p32_1 = 2654435761

abbrev pub p32_2 : ℕ
p32_2 = 2246822519

abbrev pub p32_3 : ℕ
p32_3 = 3266489917

abbrev pub p64_1 : ℕ
p64_1 = 11400714785074694791

abbrev pub p64_2 : ℕ
p64_2 = 14029467366897019727

abbrev pub p64_3 : ℕ
p64_3 = 1609587929392839161

abbrev pub p64_4 : ℕ
p64_4 = 9650029242287828579

abbrev pub p64_5 : ℕ
p64_5 = 2870177450012600261

abbrev pub mx1 : ℕ
mx1 = 1609587791953885689

abbrev pub mx2 : ℕ
mx2 = 11507291218515648293

unfoldable pub secret : List ℕ
secret =
    184 ∷ 254 ∷ 108 ∷ 57 ∷ 35 ∷ 164 ∷ 75 ∷ 190 ∷ 124 ∷ 1 ∷ 129 ∷ 44 ∷ 247 ∷ 33 ∷ 173 ∷ 28 ∷ 222
    ∷ 212 ∷ 109 ∷ 233 ∷ 131 ∷ 144 ∷ 151 ∷ 219 ∷ 114 ∷ 64 ∷ 164 ∷ 164 ∷ 183 ∷ 179 ∷ 103 ∷ 31 ∷ 203
    ∷ 121 ∷ 230 ∷ 78 ∷ 204 ∷ 192 ∷ 229 ∷ 120 ∷ 130 ∷ 90 ∷ 208 ∷ 125 ∷ 204 ∷ 255 ∷ 114 ∷ 33 ∷ 184 ∷ 8
    ∷ 70 ∷ 116 ∷ 247 ∷ 67 ∷ 36 ∷ 142 ∷ 224 ∷ 53 ∷ 144 ∷ 230 ∷ 129 ∷ 58 ∷ 38 ∷ 76 ∷ 60 ∷ 40 ∷ 82
    ∷ 187 ∷ 145 ∷ 195 ∷ 0 ∷ 203 ∷ 136 ∷ 208 ∷ 101 ∷ 139 ∷ 27 ∷ 83 ∷ 46 ∷ 163 ∷ 113 ∷ 100 ∷ 72 ∷ 151
    ∷ 162 ∷ 13 ∷ 249 ∷ 78 ∷ 56 ∷ 25 ∷ 239 ∷ 70 ∷ 169 ∷ 222 ∷ 172 ∷ 216 ∷ 168 ∷ 250 ∷ 118 ∷ 63 ∷ 227
    ∷ 156 ∷ 52 ∷ 63 ∷ 249 ∷ 220 ∷ 187 ∷ 199 ∷ 199 ∷ 11 ∷ 79 ∷ 29 ∷ 138 ∷ 81 ∷ 224 ∷ 75 ∷ 205 ∷ 180
    ∷ 89 ∷ 49 ∷ 200 ∷ 159 ∷ 126 ∷ 201 ∷ 217 ∷ 120 ∷ 115 ∷ 100 ∷ 234 ∷ 197 ∷ 172 ∷ 131 ∷ 52 ∷ 211
    ∷ 235 ∷ 195 ∷ 197 ∷ 129 ∷ 160 ∷ 255 ∷ 250 ∷ 19 ∷ 99 ∷ 235 ∷ 23 ∷ 13 ∷ 221 ∷ 81 ∷ 183 ∷ 240 ∷ 218
    ∷ 73 ∷ 211 ∷ 22 ∷ 85 ∷ 38 ∷ 41 ∷ 212 ∷ 104 ∷ 158 ∷ 43 ∷ 22 ∷ 190 ∷ 88 ∷ 125 ∷ 71 ∷ 161 ∷ 252
    ∷ 143 ∷ 248 ∷ 184 ∷ 209 ∷ 122 ∷ 208 ∷ 49 ∷ 206 ∷ 69 ∷ 203 ∷ 58 ∷ 143 ∷ 149 ∷ 22 ∷ 4 ∷ 40 ∷ 175
    ∷ 215 ∷ 251 ∷ 202 ∷ 187 ∷ 75 ∷ 64 ∷ 126 ∷ []

unfoldable pub read_u32_le : List ℕ → ℕ → Option ℕ
read_u32_le input offset = do
  b0 ← get_elem? input offset
  b1 ← get_elem? input (offset + 1)
  b2 ← get_elem? input (offset + 2)
  b3 ← get_elem? input (offset + 3)
  some (b0 + 2 ^ 8 * b1 + 2 ^ 16 * b2 + 2 ^ 24 * b3)

unfoldable pub read_u64_le : List ℕ → ℕ → Option ℕ
unfolding read_u32_le
read_u64_le input offset = do
  low ← read_u32_le input offset
  high ← read_u32_le input (offset + 4)
  some (low + 2 ^ 32 * high)

unfoldable pub read_u64_le_ptr : List ℕ → ℕ → Option ℕ
read_u64_le_ptr input offset = read_u64_le input offset

-- The low half of a 128-bit product, exclusive-ored with the high half.
unfoldable pub mul_fold : ℕ → ℕ → ℕ
mul_fold a b = bit_xor (a * b % 2 ^ 64) (a * b / 2 ^ 64 % 2 ^ 64)

unfoldable pub xxh3_avalanche : ℕ → ℕ
xxh3_avalanche h = xor_shift (mul64 (xor_shift h 37) mx1) 32

unfoldable pub xxh64_avalanche : ℕ → ℕ
xxh64_avalanche h =
    let h1 = mul64 (xor_shift h 33) p64_2 in
    let h2 = mul64 (xor_shift h1 29) p64_3 in xor_shift h2 32

unfoldable pub rrmxmx : ℕ → ℕ → ℕ
rrmxmx h len =
    let h1 = bit_xor h (bit_xor (rotate_left64 h 49) (rotate_left64 h 24)) in
    let h2 = mul64 h1 mx2 in
    let h3 = bit_xor h2 (add64 (h2 / 2 ^ 35) (len % 2 ^ 64)) in
    let h4 = mul64 h3 mx2 in xor_shift h4 28

-- `mix16_ptr` reads 16 bytes of `bytes` from one offset and of `keys` from another.
unfoldable pub mix16_ptr : List ℕ → ℕ → List ℕ → ℕ → ℕ → Option ℕ
mix16_ptr bytes bytes_offset keys key_offset seed = do
  data_lo ← read_u64_le_ptr bytes bytes_offset
  data_hi ← read_u64_le_ptr bytes (bytes_offset + 8)
  secret_lo ← read_u64_le_ptr keys key_offset
  secret_hi ← read_u64_le_ptr keys (key_offset + 8)
  let lo = bit_xor data_lo (add64 secret_lo seed)
  let hi = bit_xor data_hi (sub64 secret_hi seed)
  some (mul_fold lo hi)

-- The assertions hold without overflow: a slice is shorter than `2 ^ 64`.
unfoldable pub mix16 : List ℕ → ℕ → List ℕ → ℕ → ℕ → Option ℕ
mix16 bytes bytes_offset keys key_offset seed =
    if leb (bytes_offset + 16) (length bytes) && leb (key_offset + 16) (length keys)
    then mix16_ptr bytes bytes_offset keys key_offset seed
    else none
