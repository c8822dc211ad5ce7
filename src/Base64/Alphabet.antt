-- ===== src/Base64/Alphabet.antt =====
-- base64/alphabet.rs: the two encoding alphabets and the three decode tables.
pub mod Tables
use Prim.Native.Char.{code}
use Prim.Native.String.{String}
use hashcodecs_rs.Common.{
  ℕ, zero, suc, ◌+◌, Bool, true, false, not, ◌||◌, List, [], ◌∷◌, if◌then◌else◌, set, replicate,
}

abbrev codes : String → List ℕ
codes String.[] = []
codes (String.◌∷◌ c s) = code c ∷ codes s

unfoldable pub standard_alphabet : List ℕ
standard_alphabet = codes "ABCDEFGHIJKLMNOPQRSTUVWXYZabcdefghijklmnopqrstuvwxyz0123456789+/"

unfoldable pub urlsafe_alphabet : List ℕ
urlsafe_alphabet = codes "ABCDEFGHIJKLMNOPQRSTUVWXYZabcdefghijklmnopqrstuvwxyz0123456789-_"

abbrev pub invalid_value : ℕ
invalid_value = 255

abbrev pub decode_store_padding : ℕ
decode_store_padding = 4

pub data DecodeAlphabet : Type 0 where
  standard url_safe mixed : DecodeAlphabet

-- `while index < 26`, with `n` rounds left.
letters : ℕ → ℕ → List ℕ → List ℕ
letters zero index table = table
letters (suc n) index table =
    letters n (index + 1) (set (set table (b'A' + index) index) (b'a' + index) (index + 26))

-- `while index < 10`, with `n` rounds left.
decimals : ℕ → ℕ → List ℕ → List ℕ
decimals zero index table = table
decimals (suc n) index table = decimals n (index + 1) (set table (b'0' + index) (index + 52))

unfoldable pub decode_table : Bool → Bool → List ℕ
unfolding letters decimals
decode_table urlsafe mix =
    let table = decimals 10 0 (letters 26 0 (replicate 256 invalid_value)) in
    let table' : List ℕ = if urlsafe || mix then set (set table b'-' 62) b'_' 63 else table in
    if not urlsafe || mix then set (set table' b'+' 62) b'/' 63 else table'

unfoldable pub standard_decode : List ℕ
unfolding decode_table
standard_decode = decode_table false false

unfoldable pub urlsafe_decode : List ℕ
unfolding decode_table
urlsafe_decode = decode_table true false

unfoldable pub mixed_decode : List ℕ
unfolding decode_table
mixed_decode = decode_table true true

-- `match alphabet`, the table that the decoders read.
unfoldable pub table_of : DecodeAlphabet → List ℕ
table_of standard = standard_decode
table_of url_safe = urlsafe_decode
table_of mixed = mixed_decode
