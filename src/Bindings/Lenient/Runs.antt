-- ===== src/Bindings/Lenient/Runs.antt =====
-- Whole quanta in src/bindings/base64/lenient.rs: what the machine makes of them, and the decoder that
-- takes a run of symbols at once.

use hashcodecs_rs.Common.{
  ℕ, ◌+◌, ◌*◌, ◌/◌, ◌%◌, ◌≤◌, ◌<◌, ◌≡◌, ◌≢◌, inl, inr, refl, ap, ◌∙◌, sym, subst, Option, none,
  some, Bool, true, false, List, [], ◌∷◌, ◌++◌, leb, ◌==◌, length, drop, arith, All, Bool-cases,
  append-nil, map, concat, length-drop,
}
use hashcodecs_rs.Word.{IsByte}
use hashcodecs_rs.Base64.Alphabet.{DecodeAlphabet, standard_decode, table_of}
use hashcodecs_rs.Base64.Alphabet.Tables.{at}
use hashcodecs_rs.Base64.Rfc4648.{decode_unpadded, quad, digit}
use hashcodecs_rs.Base64.Encode.{usize_mod}
use hashcodecs_rs.Base64.Output.{Memory, ok, Write, ◌>>=◌, pure, stored}
use hashcodecs_rs.Base64.Output.Laws.{run_value}
use hashcodecs_rs.Base64.Decode.{try, partial}
use hashcodecs_rs.Base64.Unpadded.{decode_unpadded_layout, decode_to_ptr_with_unpadded_layout}
use hashcodecs_rs.Base64.Unpadded.Laws.{
  unpadded_len, unpadded_layout, decode_unpadded_layout-good, unpadded-Follows,
}
use hashcodecs_rs.Base64.Unpadded.Blocks.{Symbols}
use hashcodecs_rs.Bindings.Scan.{is_lenient_symbol}
use hashcodecs_rs.Bindings.Translation
use hashcodecs_rs.Bindings.Staging
use hashcodecs_rs.Bindings.Staging.{apply_all, on_suffix, push_symbols, finish}
use hashcodecs_rs.Bindings.Staging.Blocks.{on_suffix-stored}
use hashcodecs_rs.Bindings.Staging.Streams.{stream, stream-decode_unpadded}
use hashcodecs_rs.Base64.Decode.Loops.{Follows}
use hashcodecs_rs.Bindings.Staging.Holds.{Valid}
use hashcodecs_rs.Bindings.Lenient.{decode_run, fast_alphabet, expected}
use hashcodecs_rs.Bindings.Lenient.Machine.{on_symbol, prepend, advance, machine, machine_fresh}

-- The bytes of whole quanta.
unfoldable pub bytes_of : List ℕ → List ℕ → List ℕ
bytes_of table (a ∷ b ∷ c ∷ d ∷ rest) =
    (at table a * 4 + at table b / 16)
    ∷ (at table b % 16 * 16 + at table c / 4)
    ∷ (at table c % 4 * 64 + at table d)
    ∷ bytes_of table rest
bytes_of table _ = []

pub length-bytes_of :
    (table xs : List ℕ) → length xs % 4 ≡ 0 → length (bytes_of table xs) ≡ length xs / 4 * 3
unfolding bytes_of
length-bytes_of table [] m = refl
length-bytes_of table (a ∷ []) m = absurd (omega arith)
length-bytes_of table (a ∷ b ∷ []) m = absurd (omega arith)
length-bytes_of table (a ∷ b ∷ c ∷ []) m = absurd (omega arith)
length-bytes_of table (a ∷ b ∷ c ∷ d ∷ rest) m =
    omega (arith, length-bytes_of table rest (omega arith))

some_injective : (xs ys : List ℕ) → some xs ≡ some ys → xs ≡ ys
some_injective xs ys e = ap (value_or xs) e
  where
    value_or : List ℕ → Option (List ℕ) → List ℕ
    value_or d (some zs) = zs
    value_or d none = d

-- Another table decodes the image of the symbols alike.
pub decode_unpadded-bytes_of :
    (other table : List ℕ) (g : ℕ → ℕ) (xs : List ℕ)
    → All (λ c. (at table c < 64) × (at other (g c) ≡ at table c)) xs
    → length xs % 4 ≡ 0
    → decode_unpadded other (map g xs) ≡ some (bytes_of table xs)
unfolding bytes_of decode_unpadded quad digit
decode_unpadded-bytes_of other table g [] h m = refl
decode_unpadded-bytes_of other table g (a ∷ []) h m = absurd (omega arith)
decode_unpadded-bytes_of other table g (a ∷ b ∷ []) h m = absurd (omega arith)
decode_unpadded-bytes_of other table g (a ∷ b ∷ c ∷ []) h m = absurd (omega arith)
decode_unpadded-bytes_of other table g (a ∷ b ∷ c ∷ d ∷ rest) (ha, (hb, (hc, (hd, h)))) m =
    let na : (at table a == 255) ≡ false = ground arith in
    let nb : (at table b == 255) ≡ false = ground arith in
    let nc : (at table c == 255) ≡ false = ground arith in
    let nd : (at table d == 255) ≡ false = ground arith in
    rw
      (
        ha.1,
        hb.1,
        hc.1,
        hd.1,
        na,
        nb,
        nc,
        nd,
        decode_unpadded-bytes_of other table g rest h (omega arith),
      )
      refl

module _ (table : List ℕ) (padded continue_after_padding : Bool) where
  advance-symbol :
      (c q left p : ℕ)
      → at table c < 64
      → advance table padded continue_after_padding c q left p ≡ on_symbol (at table c) q left
  unfolding advance
  advance-symbol c q left p h =
      let valid : leb 64 (at table c) ≡ false = ground arith in
      elim (Bool-cases (c == b'=')) [
        | inl e ↦
            let same : c ≡ b'=' = ground arith in
            let v : leb 64 (at table b'=') ≡ false =
              subst (λ x. leb 64 (at table x) ≡ false) same valid in
            elim (Bool-cases padded) [
              | inl p ↦ rw (p, e, v, valid) refl
              | inr p ↦ rw (p, valid) refl
            ]
        | inr e ↦ elim (Bool-cases padded) [
          | inl p ↦ rw (p, e, valid) refl
          | inr p ↦ rw (p, valid) refl
        ]
      ]

  pub machine-quad :
      (a b c d : ℕ) (rest : List ℕ) (left p : ℕ)
      → at table a < 64
      → at table b < 64
      → at table c < 64
      → at table d < 64
      → machine table padded continue_after_padding (a ∷ b ∷ c ∷ d ∷ rest) 0 left p
        ≡ prepend
            ((at table a * 4 + at table b / 16)
              ∷ (at table b % 16 * 16 + at table c / 4)
              ∷ (at table c % 4 * 64 + at table d)
              ∷ [])
            (machine table padded continue_after_padding rest 0 left p)
  unfolding machine
  machine-quad a b c d rest left p ha hb hc hd =
      rw
        (
          machine,
          advance-symbol a 0 left p ha,
          advance-symbol b 1 (at table a) 0 hb,
          advance-symbol c 2 (at table b % 16) 0 hc,
          advance-symbol d 3 (at table c % 4) 0 hd,
          machine_fresh table padded continue_after_padding rest 0 0 left p,
        )
        refl

  pub machine-bytes_of :
      (xs rest : List ℕ) (left p : ℕ)
      → All (λ c. at table c < 64) xs
      → length xs % 4 ≡ 0
      → machine table padded continue_after_padding (xs ++ rest) 0 left p
        ≡ prepend (bytes_of table xs) (machine table padded continue_after_padding rest 0 left p)
  unfolding bytes_of
  machine-bytes_of [] rest left p h m = refl
  machine-bytes_of (a ∷ []) rest left p h m = absurd (omega arith)
  machine-bytes_of (a ∷ b ∷ []) rest left p h m = absurd (omega arith)
  machine-bytes_of (a ∷ b ∷ c ∷ []) rest left p h m = absurd (omega arith)
  machine-bytes_of (a ∷ b ∷ c ∷ d ∷ xs) rest left p (ha, (hb, (hc, (hd, h)))) m =
      machine-quad a b c d (xs ++ rest) left p ha hb hc hd
      ∙ ap
          (prepend (
            (at table a * 4 + at table b / 16)
            ∷ (at table b % 16 * 16 + at table c / 4)
            ∷ (at table c % 4 * 64 + at table d)
            ∷ []))
          (machine-bytes_of xs rest left p h (omega arith))

-- The table is the one of the caller's two characters: the fast alphabet, if there is one, has its
-- values, and so has the standard alphabet after the translation.
pub record Agrees (table : List ℕ) (altchars : Option (ℕ × ℕ)) : Type 0 where
  pub fast :
      (alphabet : DecodeAlphabet)
      → fast_alphabet altchars ≡ some alphabet
      → (c : ℕ) → c < 256
      → at table c < 64
      → at (table_of alphabet) c ≡ at table c
  pub symbol : (c : ℕ) → c < 256 → is_lenient_symbol c altchars ≡ true → at table c < 64
  pub image : ℕ → ℕ
  pub translated : (xs : List ℕ) → apply_all (Translation.new table altchars) xs ≡ map image xs
  pub value :
      (c : ℕ)
      → c < 256
      → at table c < 64
      → (image c < 256) × (at standard_decode (image c) ≡ at table c)

module _ (provided : ℕ) (table : List ℕ) (altchars : Option (ℕ × ℕ))
    (padded continue_after_padding : Bool) (agrees : Agrees table altchars) where
  fast_values :
      (alphabet : DecodeAlphabet) (e : fast_alphabet altchars ≡ some alphabet) (xs : List ℕ)
      → All IsByte xs
      → All (λ c. at table c < 64) xs
      → All (λ c. (at table c < 64) × (at (table_of alphabet) c ≡ at table c)) xs
  fast_values alphabet e [] b h = tt
  fast_values alphabet e (c ∷ xs) (b, bs) (h, hs) =
      ((h, agrees.fast alphabet e c b h), fast_values alphabet e xs bs hs)

  slow_values :
      (xs : List ℕ)
      → All IsByte xs
      → All (λ c. at table c < 64) xs
      → All (λ c. (at table c < 64) × (at standard_decode (agrees.image c) ≡ at table c)) xs
        × (All IsByte (map agrees.image xs) × Symbols standard_decode (map agrees.image xs))
  slow_values [] b h = (tt, (tt, tt))
  slow_values (c ∷ xs) (b, bs) (h, hs) =
      let (v, (w, s)) = slow_values xs bs hs in
      let (i, e) = agrees.value c b h in (((h, e), v), ((i, w), (omega arith, s)))

  pub decode_run-bytes_of :
      (written : ℕ) (xs : List ℕ) (mem : Memory)
      → All IsByte xs
      → All (λ c. at table c < 64) xs
      → length xs % 4 ≡ 0
      → length xs < usize_mod
      → written + length xs / 4 * 3 ≤ length mem
      → decode_run provided table altchars padded continue_after_padding written xs mem
        ≡ ok tt (stored written (bytes_of table xs) mem)
  unfolding decode_run
  decode_run-bytes_of written xs mem b h m counted fits = by_alphabet (fast_alphabet altchars) refl
    where
      k : ℕ
      k = length xs / 4 * 3

      mem' : Memory
      mem' = drop written mem

      fast_run : DecodeAlphabet → Write (Unit {0})
      fast_run alphabet mem0 = expected (
          (try (decode_unpadded_layout xs) >>= λ layout.
          decode_to_ptr_with_unpadded_layout xs layout alphabet)
            mem0)

      slow_run : Write ℕ
      slow_run mem0 = expected (
          (push_symbols false (Staging.new (Translation.new table altchars)) xs >>= λ w.
          finish false w)
            mem0)

      chosen : Option DecodeAlphabet → Write (Unit {0})
      chosen (some alphabet) = on_suffix written (fast_run alphabet)
      chosen none = on_suffix written slow_run >>= λ staged. pure tt

      same : (ys : List ℕ) → map (λ c. c) ys ≡ ys
      same [] = refl
      same (y ∷ ys) = ap (λ t. y ∷ t) (same ys)

      decoded :
          (alphabet : DecodeAlphabet)
          → decode_unpadded (table_of alphabet) xs ≡ some (bytes_of table xs)
          → fast_run alphabet mem' ≡ ok tt (stored 0 (bytes_of table xs) mem')
      decoded alphabet d =
          let q : length xs % 4 ≢ 1 = λ q. absurd (omega arith) in
          let follows =
            unpadded-Follows alphabet partial xs (unpadded_layout xs) mem' b q
              (ground (arith, length-drop written mem)) in
          let moved =
            subst
              (λ o.
                Follows 0 (unpadded_len xs) mem' o tt
                  (decode_to_ptr_with_unpadded_layout xs (unpadded_layout xs) alphabet mem'))
              d (unfold table_of decode_to_ptr_with_unpadded_layout in follows) in
          rw (decode_unpadded_layout-good xs q counted) (ap expected moved)

      by_alphabet :
          (o : Option DecodeAlphabet)
          → fast_alphabet altchars ≡ o
          → decode_run provided table altchars padded continue_after_padding written xs mem
            ≡ ok tt (stored written (bytes_of table xs) mem)
      by_alphabet (some alphabet) e =
          ap (λ o. chosen o mem) e
          ∙ on_suffix-stored written (fast_run alphabet) tt (bytes_of table xs) mem (omega arith) (
              decoded alphabet (
                ap (decode_unpadded (table_of alphabet)) (sym (same xs))
                ∙ decode_unpadded-bytes_of (table_of alphabet) table (λ c. c) xs
                    (fast_values alphabet e xs b h) m))
      by_alphabet none e =
          let t = Translation.new table altchars in
          let (v, valid) = slow_values xs b h in
          let all : concat (xs ∷ []) ≡ xs = append-nil xs in
          let image : apply_all t (concat (xs ∷ [])) ≡ map agrees.image xs =
            ap (apply_all t) all ∙ agrees.translated xs in
          let l : length (concat (xs ∷ [])) ≡ length xs = ap length all in
          let (bytes, d, r) =
            stream-decode_unpadded t false (xs ∷ []) mem' (subst Valid (sym image) valid)
              (λ q. absurd (omega arith)) (ground (arith, length-drop written mem)) (omega arith) in
          let moved : (push_symbols false (Staging.new t) xs >>= λ w. finish false w) mem'
              ≡ ok (length bytes) (stored 0 bytes mem') =
            unfold stream in r in
          let same_bytes : bytes ≡ bytes_of table xs = some_injective bytes (bytes_of table xs) (
            sym d
            ∙ ap (decode_unpadded standard_decode) image
            ∙ decode_unpadded-bytes_of standard_decode table agrees.image xs v m) in
          ap (λ o. chosen o mem) e
          ∙ run_value (on_suffix written slow_run) (λ staged. pure tt) (length bytes) mem
              (stored written bytes mem)
              (on_suffix-stored written slow_run (length bytes) bytes mem (omega arith)
                (ap expected moved))
          ∙ ap (λ x. ok tt (stored written x mem)) same_bytes
