-- ===== src/Base64/Encode/Scalar.antt =====
-- The scalar encoder of base64/encode/api.rs writes the RFC 4648 encoding and nothing else.
use hashcodecs_rs.Common.{
  ℕ, ◌+◌, ◌*◌, ◌/◌, ◌%◌, ◌^◌, ◌≤◌, ◌<◌, ◌≡◌, refl, ap, ◌∙◌, sym, List, [], ◌∷◌, ◌++◌, length, arith,
  All, length-append, append_assoc,
}
use hashcodecs_rs.Word.{bit_or, shl32, IsByte, bit_or_fields, bit_and_mask}
use hashcodecs_rs.Base64.Alphabet.Tables.{at}
use hashcodecs_rs.Base64.Output.{Memory, ok, Write, ◌>>=◌, ◌>>◌, stored}
use hashcodecs_rs.Base64.Output.Laws.{length-stored, stored-stored, write-stored, stored-nil}
use hashcodecs_rs.Base64.Rfc4648.{encode}
use hashcodecs_rs.Base64.Encode.{
  block24, symbol, quantum, encode_sixes, encode_threes, encode_tail,
  encode_scalar_ptr_with_alphabet,
}

block24_sum : (a b c : ℕ) → a < 256 → b < 256 → c < 256 → block24 a b c ≡ a * 65536 + b * 256 + c
unfolding block24
block24_sum a b c ha hb hc =
    ground (arith, bit_or_fields 16 a (b * 256) (omega arith), bit_or_fields 8 (a * 256 + b) c hc)

symbol_digit :
    (alphabet : List ℕ) (block k : ℕ) → symbol alphabet block k ≡ at alphabet (block / 2 ^ k % 64)
unfolding symbol
symbol_digit alphabet block k = rw (bit_and_mask 6 (block / 2 ^ k))

pub quantum-encode :
    (alphabet : List ℕ) (a b c : ℕ) (rest : List ℕ)
    → a < 256
    → b < 256
    → c < 256
    → encode alphabet (a ∷ b ∷ c ∷ rest) ≡ quantum alphabet (block24 a b c) ++ encode alphabet rest
unfolding encode quantum
quantum-encode alphabet a b c rest ha hb hc = ground (
  arith,
  block24_sum a b c ha hb hc,
  symbol_digit alphabet (block24 a b c) 18,
  symbol_digit alphabet (block24 a b c) 12,
  symbol_digit alphabet (block24 a b c) 6,
  symbol_digit alphabet (block24 a b c) 0,
)

module _ (alphabet : List ℕ) where
  padded_one :
      (a : ℕ)
      → a < 256
      → let block = shl32 a 16 in
        ◌≡◌ {A = List ℕ}
          (symbol alphabet block 18 ∷ symbol alphabet block 12 ∷ b'=' ∷ b'=' ∷ [])
          (encode alphabet (a ∷ []))
  unfolding encode
  padded_one a ha =
      ground (arith, symbol_digit alphabet (shl32 a 16) 18, symbol_digit alphabet (shl32 a 16) 12)

  padded_two :
      (a b : ℕ)
      → a < 256
      → b < 256
      → let block = bit_or (shl32 a 16) (shl32 b 8) in
        ◌≡◌ {A = List ℕ}
          (symbol alphabet block 18
            ∷ symbol alphabet block 12
            ∷ symbol alphabet block 6
            ∷ b'='
            ∷ [])
          (encode alphabet (a ∷ b ∷ []))
  unfolding encode
  padded_two a b ha hb = ground (
    arith,
    bit_or_fields 16 a (b * 256) (omega arith),
    symbol_digit alphabet (bit_or (shl32 a 16) (shl32 b 8)) 18,
    symbol_digit alphabet (bit_or (shl32 a 16) (shl32 b 8)) 12,
    symbol_digit alphabet (bit_or (shl32 a 16) (shl32 b 8)) 6,
  )

  encode_tail-encode :
      (input : List ℕ) (k : ℕ) (mem : Memory)
      → All IsByte input
      → length input < 3
      → k + length (encode alphabet input) ≤ length mem
      → encode_tail alphabet input k mem ≡ ok tt (stored k (encode alphabet input) mem)
  unfolding encode_tail
  encode_tail-encode [] k mem h s fits = unfold encode in rw (stored-nil k mem (omega arith))
  encode_tail-encode (a ∷ []) k mem h s fits =
      rw (padded_one a h.0) (write-stored k (encode alphabet (a ∷ [])) mem fits)
  encode_tail-encode (a ∷ b ∷ []) k mem h s fits =
      rw (padded_two a b h.0 h.1.0) (write-stored k (encode alphabet (a ∷ b ∷ [])) mem fits)
  encode_tail-encode (a ∷ b ∷ c ∷ rest) k mem h s fits = absurd (omega arith)

  -- A round of each loop is one store.
  encode_threes_step :
      (a b c : ℕ) (rest : List ℕ) (k : ℕ) (mem : Memory)
      → k + 4 ≤ length mem
      → encode_threes alphabet (a ∷ b ∷ c ∷ rest) k mem
        ≡ encode_threes alphabet rest (k + 4) (stored k (quantum alphabet (block24 a b c)) mem)
  unfolding encode_threes
  encode_threes_step a b c rest k mem fits =
      rw (
        write-stored k (quantum alphabet (block24 a b c)) mem (unfold quantum in fits),
        ◌>>◌,
        ◌>>=◌,
      )

  encode_sixes_step :
      (a b c d e f : ℕ) (rest : List ℕ) (k : ℕ) (mem : Memory)
      → k + 8 ≤ length mem
      → encode_sixes alphabet (a ∷ b ∷ c ∷ d ∷ e ∷ f ∷ rest) k mem
        ≡ encode_sixes alphabet rest
            (k + 8)
            (stored k (quantum alphabet (block24 a b c) ++ quantum alphabet (block24 d e f)) mem)
  unfolding encode_sixes quantum
  encode_sixes_step a b c d e f rest k mem fits = rw (write-stored k _ mem fits, ◌>>◌, ◌>>=◌)

  -- The last two parts of the encoder.
  finish : List ℕ → ℕ → Write (Unit {0})
  finish input k = do
    (rest, destination) ← encode_threes alphabet input k
    encode_tail alphabet rest destination

  -- What remains after a first store of `xs` is to store `ys` behind it.
  after_store :
      (k n : ℕ) (xs ys : List ℕ) (mem : Memory) (m : Write (Unit {0}))
      → length xs ≡ n
      → k + length (xs ++ ys) ≤ length mem
      → ((mem' : Memory)
          → k + n + length ys ≤ length mem'
          → m mem' ≡ ok tt (stored (k + n) ys mem'))
      → m (stored k xs mem) ≡ ok tt (stored k (xs ++ ys) mem)
  after_store k n xs ys mem m e fits next =
      let fits' : k + length xs + length ys ≤ length mem = omega (arith, length-append xs ys) in
      let kept : length (stored k xs mem) ≡ length mem = length-stored k xs mem (omega arith) in
      next (stored k xs mem) (omega arith)
      ∙ rw (← e) (ap (ok tt) (stored-stored k xs ys mem (omega arith)))

  finish_step :
      (a b c : ℕ) (rest : List ℕ) (k : ℕ) (mem : Memory)
      → k + 4 ≤ length mem
      → finish (a ∷ b ∷ c ∷ rest) k mem
        ≡ finish rest (k + 4) (stored k (quantum alphabet (block24 a b c)) mem)
  unfolding finish
  finish_step a b c rest k mem fits = rw (encode_threes_step a b c rest k mem fits, ◌>>=◌)

  finish-encode :
      (input : List ℕ) (k : ℕ) (mem : Memory)
      → All IsByte input
      → k + length (encode alphabet input) ≤ length mem
      → finish input k mem ≡ ok tt (stored k (encode alphabet input) mem)
  finish-encode [] k mem h fits =
      unfold finish encode_threes in encode_tail-encode [] k mem h (omega arith) fits
  finish-encode (a ∷ []) k mem h fits =
      unfold finish encode_threes in encode_tail-encode (a ∷ []) k mem h (omega arith) fits
  finish-encode (a ∷ b ∷ []) k mem h fits =
      unfold finish encode_threes in encode_tail-encode (a ∷ b ∷ []) k mem h (omega arith) fits
  finish-encode (a ∷ b ∷ c ∷ rest) k mem h fits =
      let whole = quantum-encode alphabet a b c rest h.0 h.1.0 h.1.1.0 in
      finish_step a b c rest k mem (unfold encode in omega arith)
      ∙ after_store k 4 (quantum alphabet (block24 a b c)) (encode alphabet rest) mem
          (finish rest (k + 4)) (unfold quantum in refl) (rw (← whole) fits)
          (λ mem' fits'. finish-encode rest (k + 4) mem' h.1.1.1 fits')
      ∙ ap (λ t. ok tt (stored k t mem)) (sym whole)

  scalar_step :
      (a b c d e f : ℕ) (rest : List ℕ) (k : ℕ) (mem : Memory)
      → k + 8 ≤ length mem
      → encode_scalar_ptr_with_alphabet (a ∷ b ∷ c ∷ d ∷ e ∷ f ∷ rest) k alphabet mem
        ≡ encode_scalar_ptr_with_alphabet rest
            (k + 8)
            alphabet
            (stored k (quantum alphabet (block24 a b c) ++ quantum alphabet (block24 d e f)) mem)
  unfolding encode_scalar_ptr_with_alphabet
  scalar_step a b c d e f rest k mem fits =
      rw (encode_sixes_step a b c d e f rest k mem fits, ◌>>=◌)

  -- Fewer than six bytes skip the first loop.
  scalar_short :
      (input : List ℕ) (k : ℕ) (mem : Memory)
      → length input < 6
      → encode_scalar_ptr_with_alphabet input k alphabet mem ≡ finish input k mem
  unfolding encode_scalar_ptr_with_alphabet encode_sixes finish
  scalar_short (a ∷ b ∷ c ∷ d ∷ e ∷ f ∷ rest) k mem h = absurd (omega arith)
  scalar_short _ k mem h = refl

  pub scalar-encode :
      (input : List ℕ) (k : ℕ) (mem : Memory)
      → All IsByte input
      → k + length (encode alphabet input) ≤ length mem
      → encode_scalar_ptr_with_alphabet input k alphabet mem
        ≡ ok tt (stored k (encode alphabet input) mem)
  scalar-encode (a ∷ b ∷ c ∷ d ∷ e ∷ f ∷ rest) k mem (ha, (hb, (hc, (hd, (he, (hf, h)))))) fits =
      let first = quantum alphabet (block24 a b c) in
      let second = quantum alphabet (block24 d e f) in
      let whole : encode alphabet (a ∷ b ∷ c ∷ d ∷ e ∷ f ∷ rest)
          ≡ (first ++ second) ++ encode alphabet rest =
        quantum-encode alphabet a b c (d ∷ e ∷ f ∷ rest) ha hb hc
        ∙ ap (λ t. first ++ t) (quantum-encode alphabet d e f rest hd he hf)
        ∙ sym (append_assoc first second (encode alphabet rest)) in
      scalar_step a b c d e f rest k mem (unfold encode in omega arith)
      ∙ after_store k 8 (first ++ second) (encode alphabet rest) mem
          (encode_scalar_ptr_with_alphabet rest (k + 8) alphabet) (unfold quantum in refl)
          (rw (← whole) fits) (λ mem' fits'. scalar-encode rest (k + 8) mem' h fits')
      ∙ ap (λ t. ok tt (stored k t mem)) (sym whole)
  scalar-encode input k mem h fits =
      scalar_short input k mem (omega arith) ∙ finish-encode input k mem h fits
