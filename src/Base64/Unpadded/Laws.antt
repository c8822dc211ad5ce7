-- ===== src/Base64/Unpadded/Laws.antt =====
-- Text without padding: the layout and the decoder of base64/decode/api.rs against RFC 4648.
use native.Mathlib.Nat.{zero-add}
use mathlib.Core.Option
use hashcodecs_rs.Common.{
  ℕ, suc, ◌+◌, ◌*◌, ◌/◌, ◌%◌, ◌≤◌, ◌<◌, ◌≡◌, ◌≢◌, refl, ap, ◌∙◌, sym, subst, Option, none, some,
  Bool, true, false, ◌||◌, List, [], ◌∷◌, ltb, ◌==◌, if◌then◌else◌, length, take, drop, arith, All,
  All-take, All-drop, length-take, length-drop,
}
use hashcodecs_rs.Common.Tables.{passes_below, passes_below_at}
use hashcodecs_rs.Word.{IsByte}
use hashcodecs_rs.Base64.Alphabet.{
  DecodeAlphabet, standard, url_safe, mixed, mixed_decode, table_of,
}
use hashcodecs_rs.Base64.Alphabet.Tables.{at}
use hashcodecs_rs.Base64.Output.{Memory, ok, Write, pure, invalid_input}
use hashcodecs_rs.Base64.Output.Laws.{stored-nil}
use hashcodecs_rs.Base64.Rfc4648.{quad, quads, short, join, decode_unpadded, unpadded_size}
use hashcodecs_rs.Base64.Encode.{usize_mod, checked_mul}
use hashcodecs_rs.Base64.Decode.{
  ErrorWritePolicy, DecodeLayout, good, bad, checked_add, decode_unpadded_tail_ptr,
  decode_to_ptr_with_layout_mode,
}
use hashcodecs_rs.Base64.Decode.Entries.{IsTable}
use hashcodecs_rs.Base64.Decode.Blocks.{tail_two-block, tail_three-block}
use hashcodecs_rs.Base64.Decode.Loops.{
  Follows, Follows-then, block-Follows, Follows-along, join_assoc, nil-join, length-quad,
}
use hashcodecs_rs.Base64.Decode.Mode.{quads-Follows}
use hashcodecs_rs.Base64.Decode.Layout.{
  chosen-IsTable, length-join, length-short_two, length-short_three,
}
use hashcodecs_rs.Base64.Unpadded.{
  tail_len, decode_unpadded_layout, decode_to_ptr_with_unpadded_layout_mode,
}

abbrev entry_ok : List ℕ → ℕ → Bool
entry_ok table c = (at table c == 255) || ltb (at table c) 64

table-IsTable :
    (table : List ℕ)
    → passes_below (entry_ok table) 256 ≡ true
    → at table b'=' ≡ 255
    → IsTable table
table-IsTable table h p = record {
  entry = λ c l. ground (arith, passes_below_at (entry_ok table) 256 h c l);
  no_padding = p;
}

mixed-IsTable : IsTable mixed_decode
unfolding passes_below mixed_decode
mixed-IsTable = table-IsTable _ refl refl

pub alphabet-IsTable : (alphabet : DecodeAlphabet) → IsTable (table_of alphabet)
unfolding table_of
alphabet-IsTable standard = chosen-IsTable false
alphabet-IsTable url_safe = chosen-IsTable true
alphabet-IsTable mixed = mixed-IsTable

-- The bytes that text of a length without padding decodes to.
abbrev pub tail_bytes : ℕ → ℕ
tail_bytes n = if n == 3 then 2 else if n == 2 then 1 else 0

abbrev pub unpadded_len : List ℕ → ℕ
unpadded_len input = length input / 4 * 3 + tail_bytes (length input % 4)

abbrev pub unpadded_layout : List ℕ → DecodeLayout
unpadded_layout input = record {
  input_len = length input;
  padding = 0;
  output_len = unpadded_len input;
}

pub decode_unpadded_layout-good :
    (input : List ℕ)
    → length input % 4 ≢ 1
    → length input < usize_mod
    → decode_unpadded_layout input ≡ good (unpadded_layout input)
unfolding decode_unpadded_layout tail_len checked_mul checked_add
decode_unpadded_layout-good input m h = ground arith

pub decode_unpadded_layout-bad :
    (input : List ℕ) → length input % 4 ≡ 1 → decode_unpadded_layout input ≡ bad invalid_input
unfolding decode_unpadded_layout tail_len
decode_unpadded_layout-bad input m = ground arith

-- What the symbols behind the full quanta decode to.
abbrev pub rest_spec : List ℕ → List ℕ → Option (List ℕ)
rest_spec table [] = some []
rest_spec table (a ∷ rest) = short table (a ∷ rest)

pub decode_unpadded-split :
    (table input : List ℕ)
    → decode_unpadded table input
      ≡ join
          (quads table (take (length input / 4 * 4) input))
          (rest_spec table (drop (length input / 4 * 4) input))
unfolding decode_unpadded quads
decode_unpadded-split table [] = refl
decode_unpadded-split table (a ∷ []) = sym (nil-join _)
decode_unpadded-split table (a ∷ b ∷ []) = sym (nil-join _)
decode_unpadded-split table (a ∷ b ∷ c ∷ []) = sym (nil-join _)
decode_unpadded-split table (a ∷ b ∷ c ∷ d ∷ rest) =
    let e : length (a ∷ b ∷ c ∷ d ∷ rest) / 4 * 4 ≡ suc (suc (suc (suc (length rest / 4 * 4)))) =
      omega arith in
    rw e (
      ap (join (quad table a b c d)) (decode_unpadded-split table rest)
      ∙ sym (join_assoc (quad table a b c d) _ _))

length-quads :
    (table input bytes : List ℕ)
    → quads table input ≡ some bytes
    → length bytes ≡ length input / 4 * 3
unfolding quads
length-quads table [] bytes e = ground arith
length-quads table (a ∷ []) bytes e = ground arith
length-quads table (a ∷ b ∷ []) bytes e = ground arith
length-quads table (a ∷ b ∷ c ∷ []) bytes e = ground arith
length-quads table (a ∷ b ∷ c ∷ d ∷ rest) bytes e =
    let l =
      length-join (quad table a b c d) (quads table rest) 3 (length rest / 4 * 3) bytes
        (λ xs p. length-quad table a b c d xs p) (λ ys p. length-quads table rest ys p) e in
    omega arith

abbrev pub tail_decoder : List ℕ → List ℕ → ℕ → Write (Unit {0})
tail_decoder table tail k =
    if length tail == 0 then pure tt else decode_unpadded_tail_ptr tail k table

pub tail-Follows :
    (table : List ℕ) (t : IsTable table) (tail : List ℕ) (k : ℕ) (mem : Memory)
    → All IsByte tail
    → length tail < 4
    → length tail ≢ 1
    → k + tail_bytes (length tail) ≤ length mem
    → Follows k
        (tail_bytes (length tail))
        mem
        (rest_spec table tail)
        tt
        (tail_decoder table tail k mem)
tail-Follows table t [] k mem h l m fits = sym (ap (ok tt) (stored-nil k mem (omega arith)))
tail-Follows table t (a ∷ []) k mem h l m fits = absurd (m refl)
tail-Follows table t (a ∷ b ∷ []) k mem (ha, (hb, _)) l m fits =
    block-Follows k 1 mem (short table (a ∷ b ∷ [])) _ (omega arith)
      (tail_two-block table t a b k mem ha hb fits)
tail-Follows table t (a ∷ b ∷ c ∷ []) k mem (ha, (hb, (hc, _))) l m fits =
    block-Follows k 2 mem (short table (a ∷ b ∷ c ∷ [])) _ (omega arith)
      (tail_three-block table t a b c k mem ha hb hc fits)
tail-Follows table t (a ∷ b ∷ c ∷ d ∷ rest) k mem h l m fits = absurd (omega arith)

-- For every alphabet and error policy, all bytes whose number does not leave 1 when it is divided
-- by four, and an output with room for the decoded bytes, decode_to_ptr_with_unpadded_layout_mode
-- stores the bytes that RFC 4648 assigns to the text without padding, or returns InvalidInput with
-- at most that many cells overwritten.
pub unpadded-Follows :
    (alphabet : DecodeAlphabet) (policy : ErrorWritePolicy) (input : List ℕ) (layout : DecodeLayout)
    (mem : Memory)
    → All IsByte input
    → length input % 4 ≢ 1
    → unpadded_len input ≤ length mem
    → Follows 0
        (unpadded_len input)
        mem
        (decode_unpadded (table_of alphabet) input)
        tt
        (decode_to_ptr_with_unpadded_layout_mode input layout alphabet policy mem)
unfolding decode_to_ptr_with_unpadded_layout_mode
unpadded-Follows alphabet policy input layout mem h m fits =
    let table = table_of alphabet in
    let t = alphabet-IsTable alphabet in
    let p = length input / 4 * 4 in
    let front = take p input in
    let tail = drop p input in
    let n : length front ≡ p = omega (arith, length-take p input) in
    let r : length tail ≡ length input % 4 = omega (arith, length-drop p input) in
    let q : DecodeLayout = record { input_len = p; padding = 0; output_len = p / 4 * 3 } in
    let same : p / 4 * 3 ≡ length input / 4 * 3 = omega arith in
    let short_bytes : tail_bytes (length tail) ≡ tail_bytes (length input % 4) = ap tail_bytes r in
    Follows-along 0 mem tt {n' = unpadded_len input} (omega arith)
      (sym (decode_unpadded-split table input)) refl
      (Follows-then 0 (p / 4 * 3) (tail_bytes (length tail)) mem (quads table front)
        (rest_spec table tail) (decode_to_ptr_with_layout_mode front q alphabet false policy)
        (tail_decoder table tail (p / 4 * 3)) tt
        (Follows-along 0 mem tt {n' = p / 4 * 3} (omega arith) refl refl (
          quads-Follows alphabet false policy t front q mem (All-take IsByte p input h)
            (omega arith) refl (omega arith)))
        (λ bytes e. omega (arith, length-quads table front bytes e)) (omega arith)
        (λ mem' l.
          subst
            (λ j.
              Follows j (tail_bytes (length tail)) mem' (rest_spec table tail) tt
                (tail_decoder table tail (p / 4 * 3) mem'))
            (sym (zero-add (p / 4 * 3)))
            (tail-Follows table t tail (p / 4 * 3) mem' (All-drop IsByte p input h) (omega arith)
              (omega arith) (omega arith))))

-- Text without padding decodes to as many bytes as its layout has.
pub length-decode_unpadded :
    (table input bytes : List ℕ)
    → decode_unpadded table input ≡ some bytes
    → length bytes ≡ unpadded_len input
unfolding decode_unpadded
length-decode_unpadded table [] bytes e = ground arith
length-decode_unpadded table (a ∷ []) bytes e = unfold short in absurd (ground arith)
length-decode_unpadded table (a ∷ b ∷ []) bytes e = length-short_two table a b bytes e
length-decode_unpadded table (a ∷ b ∷ c ∷ []) bytes e = length-short_three table a b c bytes e
length-decode_unpadded table (a ∷ b ∷ c ∷ d ∷ rest) bytes e =
    let whole =
      length-join (quad table a b c d) (decode_unpadded table rest) 3 (unpadded_len rest) bytes
        (λ xs q. length-quad table a b c d xs q) (λ ys q. length-decode_unpadded table rest ys q)
        e in
    let same : length (a ∷ b ∷ c ∷ d ∷ rest) % 4 ≡ length rest % 4 = omega arith in
    let ends : tail_bytes (length (a ∷ b ∷ c ∷ d ∷ rest) % 4) ≡ tail_bytes (length rest % 4) =
      ap tail_bytes same in
    omega arith

pub unpadded_size-whole :
    (input : List ℕ) → length input % 4 ≢ 1 → unpadded_size input ≡ some (unpadded_len input)
unfolding unpadded_size
unpadded_size-whole [] m = refl
unpadded_size-whole (a ∷ []) m = absurd (m refl)
unpadded_size-whole (a ∷ b ∷ []) m = refl
unpadded_size-whole (a ∷ b ∷ c ∷ []) m = refl
unpadded_size-whole (a ∷ b ∷ c ∷ d ∷ rest) m =
    let rest_eq : length rest % 4 ≡ length (a ∷ b ∷ c ∷ d ∷ rest) % 4 = omega arith in
    let same : tail_bytes (length rest % 4) ≡ tail_bytes (length (a ∷ b ∷ c ∷ d ∷ rest) % 4) =
      ap tail_bytes rest_eq in
    let more : unpadded_len rest + 3 ≡ unpadded_len (a ∷ b ∷ c ∷ d ∷ rest) = omega arith in
    ap (Option.map (λ n. n + 3)) (unpadded_size-whole rest (λ q. m (omega arith))) ∙ ap some more

pub unpadded_size-ragged : (input : List ℕ) → length input % 4 ≡ 1 → unpadded_size input ≡ none
unfolding unpadded_size
unpadded_size-ragged [] m = absurd (omega arith)
unpadded_size-ragged (a ∷ []) m = refl
unpadded_size-ragged (a ∷ b ∷ []) m = absurd (omega arith)
unpadded_size-ragged (a ∷ b ∷ c ∷ []) m = absurd (omega arith)
unpadded_size-ragged (a ∷ b ∷ c ∷ d ∷ rest) m =
    ap (Option.map (λ n. n + 3)) (unpadded_size-ragged rest (omega arith))
