-- ===== src/Bindings/Lenient/Machine.antt =====
-- What src/bindings/base64/lenient.rs decodes, said byte by byte: a place in the quantum, the bits
-- left over from the last symbol, and the padding since then.
use hashcodecs_rs.Common.{
  ℕ, suc, ◌+◌, ◌*◌, ◌/◌, ◌%◌, ◌≤◌, ◌<◌, ◌≡◌, ◌⊎◌, inl, inr, refl, ap, Option, Bool, true, false,
  ◌&&◌, ◌||◌, not, List, [], ◌∷◌, ◌++◌, ltb, leb, ◌==◌, if◌then◌else◌, length, arith, Bool-cases,
  length-append,
}
use hashcodecs_rs.Word.{bit_or, shl8, ◌>>>◌}
use hashcodecs_rs.Base64.Alphabet.Tables.{at}
use hashcodecs_rs.Base64.Output.{Memory, Outcome, ok, write, stored}
use hashcodecs_rs.Base64.Output.Laws.{run, write-stored, stored-stored}
use hashcodecs_rs.Base64.Decode.Entries.{byte0_sum, byte1_sum, byte2_sum}
use hashcodecs_rs.Bindings.Lenient.{
  Lenient, done, failed, invalid_input, LenientState, Flow, proceed, leave, step_byte, emit, place,
}

pub data Move : Type 0 where
  halts : Move
  moves : (quad_pos leftchar pads : ℕ) → Move
  emits : (byte quad_pos leftchar : ℕ) → Move

abbrev pub on_symbol : ℕ → ℕ → ℕ → Move
on_symbol value q left =
    if q == 0
    then moves 1 value 0
    else if q == 1
    then emits (left * 4 + value / 16) 2 (value % 16)
    else if q == 2
    then emits (left * 16 + value / 4) 3 (value % 4)
    else emits (left * 64 + value) 0 0

abbrev pub prepend : List ℕ → List ℕ × Bool → List ℕ × Bool
prepend bytes r = (bytes ++ r.0, r.1)

-- `k` bytes are written before.
abbrev pub result : ℕ → Memory → List ℕ × Bool → Outcome (Lenient ℕ)
result k mem r = ok (if r.1 then done (k + length r.0) else failed invalid_input) (stored k r.0 mem)

pub result-prepend :
    (k : ℕ) (mem : Memory) (bytes : List ℕ) (r : List ℕ × Bool)
    → k + length bytes ≤ length mem
    → result (k + length bytes) (stored k bytes mem) r ≡ result k mem (prepend bytes r)
result-prepend k mem bytes r h =
    let n : k + length bytes + length r.0 ≡ k + length (bytes ++ r.0) =
      omega (arith, length-append bytes r.0) in
    rw (stored-stored k bytes r.0 mem h, n) refl

module _ (table : List ℕ) (padded continue_after_padding : Bool) where
  unfoldable pub advance : ℕ → ℕ → ℕ → ℕ → Move
  advance c q left p =
      if padded && ((c == b'=') && leb 64 (at table b'='))
      then if not continue_after_padding && (leb 2 q && leb 4 (q + suc p))
        then halts
        else moves q left (suc p)
      else if leb 64 (at table c)
      then moves q left p
      else on_symbol (at table c) q left

  -- The bytes, and whether the text is accepted.
  unfoldable pub machine : List ℕ → ℕ → ℕ → ℕ → List ℕ × Bool
  unfolding advance
  machine [] q left p = ([], not ((q == 1) || (padded && (not (q == 0) && ltb (q + p) 4))))
  machine (c ∷ rest) q left p = elim (advance c q left p) [
    | halts ↦ ([], true)
    | moves q' left' p' ↦ machine rest q' left' p'
    | emits byte q' left' ↦ prepend (byte ∷ []) (machine rest q' left' 0)
  ]

  -- In front of a quantum nothing is left over, and padding has no effect.
  pub machine_fresh :
      (input : List ℕ) (left p left' p' : ℕ) → machine input 0 left p ≡ machine input 0 left' p'
  unfolding machine advance
  machine_fresh [] left p left' p' = refl
  machine_fresh (c ∷ rest) left p left' p' =
      elim (Bool-cases (padded && ((c == b'=') && leb 64 (at table b'=')))) [
        | inl pad ↦
            let same = machine_fresh rest left (suc p) left' (suc p') in
            elim (Bool-cases continue_after_padding) [
              | inl q ↦ rw (machine, pad, q) same
              | inr q ↦ rw (machine, pad, q) same
            ]
        | inr other ↦ elim (Bool-cases (leb 64 (at table c))) [
          | inl foreign ↦ rw (machine, other, foreign) (machine_fresh rest left p left' p')
          | inr symbol ↦ rw (machine, other, symbol) refl
        ]
      ]

  -- A discarded byte in front of a quantum.
  pub machine_discarded :
      (c : ℕ) (rest : List ℕ) (left p left' p' : ℕ)
      → leb 64 (at table c) ≡ true
      → machine (c ∷ rest) 0 left p ≡ machine rest 0 left' p'
  unfolding machine advance
  machine_discarded c rest left p left' p' foreign =
      elim (Bool-cases (padded && ((c == b'=') && leb 64 (at table b'=')))) [
        | inl pad ↦
            let same = machine_fresh rest left (suc p) left' p' in
            elim (Bool-cases continue_after_padding) [
              | inl q ↦ rw (machine, pad, q) same
              | inr q ↦ rw (machine, pad, q) same
            ]
        | inr other ↦ rw (machine, other, foreign) (machine_fresh rest left p left' p')
      ]

abbrev pub Good : ℕ → ℕ → Type 0
Good q left =
    (q ≡ 0) ⊎ (((q ≡ 1) × (left < 64)) ⊎ (((q ≡ 2) × (left < 16)) ⊎ ((q ≡ 3) × (left < 4))))

module _ (provided : ℕ) (table : List ℕ) (altchars : Option (ℕ × ℕ))
    (padded continue_after_padding : Bool) where
  abbrev pub stepped : LenientState → Memory → Move → Outcome (Flow LenientState)
  stepped s mem halts = ok (leave (done s.written)) mem
  stepped s mem (moves q left p) =
      ok (proceed (record { written = s.written; quad_pos = q; leftchar = left; pads = p })) mem
  stepped s mem (emits byte q left) =
      ok (proceed (record { written = s.written + 1; quad_pos = q; leftchar = left; pads = 0 }))
        (stored s.written (byte ∷ []) mem)

  abbrev pub out : Move → ℕ
  out halts = 0
  out (moves q left p) = 0
  out (emits byte q left) = 1

  emit-stored :
      (s : LenientState) (byte q left : ℕ) (mem : Memory)
      → length mem ≡ provided
      → s.written + 1 ≤ provided
      → emit provided table altchars padded continue_after_padding s byte q left mem
        ≡ stepped s mem (emits byte q left)
  unfolding emit
  emit-stored s byte q left mem e fits =
      let room : (s.written == provided) ≡ false = ground arith in
      rw room (
        run (write s.written (byte ∷ [])) _ mem (stored s.written (byte ∷ []) mem)
          (write-stored s.written (byte ∷ []) mem (omega arith)))

  place-on_symbol :
      (s : LenientState) (v : ℕ) (mem : Memory)
      → v < 64
      → Good s.quad_pos s.leftchar
      → length mem ≡ provided
      → s.written + out (on_symbol v s.quad_pos s.leftchar) ≤ provided
      → place provided table altchars padded continue_after_padding s v mem
        ≡ stepped s mem (on_symbol v s.quad_pos s.leftchar)
  unfolding place
  place-on_symbol s v mem h (inl q) e fits = rw q refl
  place-on_symbol s v mem h (inr (inl (q, l))) e fits =
      let one : out (on_symbol v s.quad_pos s.leftchar) ≡ 1 = rw q refl in
      let b = byte0_sum s.leftchar v l h in
      rw (q, b) (emit-stored s (s.leftchar * 4 + v / 16) 2 (v % 16) mem e (omega arith))
  place-on_symbol s v mem h (inr (inr (inl (q, l)))) e fits =
      let one : out (on_symbol v s.quad_pos s.leftchar) ≡ 1 = rw q refl in
      let b : bit_or (shl8 s.leftchar 4) (v >>> 2) ≡ s.leftchar * 16 + v / 4 =
        omega (arith, byte1_sum s.leftchar v (omega arith) h) in
      rw (q, b) (emit-stored s (s.leftchar * 16 + v / 4) 3 (v % 4) mem e (omega arith))
  place-on_symbol s v mem h (inr (inr (inr (q, l)))) e fits =
      let one : out (on_symbol v s.quad_pos s.leftchar) ≡ 1 = rw q refl in
      let b : bit_or (shl8 s.leftchar 6) v ≡ s.leftchar * 64 + v =
        omega (arith, byte2_sum s.leftchar v (omega arith) h) in
      rw (q, b) (emit-stored s (s.leftchar * 64 + v) 0 0 mem e (omega arith))

  pub step_byte-advance :
      (s : LenientState) (c : ℕ) (mem : Memory)
      → Good s.quad_pos s.leftchar
      → length mem ≡ provided
      → s.written + out (advance table padded continue_after_padding c s.quad_pos s.leftchar s.pads)
        ≤ provided
      → step_byte provided table altchars padded continue_after_padding s c mem
        ≡ stepped s mem (advance table padded continue_after_padding c s.quad_pos s.leftchar s.pads)
  unfolding step_byte place emit advance
  step_byte-advance s c mem g e fits =
      elim (Bool-cases (padded && ((c == b'=') && leb 64 (at table b'=')))) [
        | inl pad ↦
            elim (Bool-cases (
              not continue_after_padding
              && (leb 2 s.quad_pos && leb 4 (s.quad_pos + suc s.pads)))) [
                | inl q ↦ rw (pad, q) refl
                | inr q ↦ rw (pad, q) refl
              ]
        | inr other ↦ elim (Bool-cases (leb 64 (at table c))) [
          | inl foreign ↦ rw (other, foreign) refl
          | inr symbol ↦
              let same : advance table padded continue_after_padding c s.quad_pos s.leftchar s.pads
                  ≡ on_symbol (at table c) s.quad_pos s.leftchar =
                rw (other, symbol) refl in
              rw (other, symbol)
                (place-on_symbol s (at table c) mem (ground arith) g e (omega (arith, ap out same)))
        ]
      ]
