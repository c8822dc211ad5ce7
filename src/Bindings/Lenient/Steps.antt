-- ===== src/Bindings/Lenient/Steps.antt =====
-- The part of a round of src/bindings/base64/lenient.rs from the loop over whole quanta on.
use native.Mathlib.Nat.{add-zero}
use hashcodecs_rs.Common.{
  ℕ, suc, ◌+◌, ◌-◌, ◌*◌, ◌/◌, ◌%◌, ◌≤◌, ◌<◌, ◌≡◌, inl, inr, refl, ap, ◌∙◌, sym, Option, Bool, true,
  false, ◌&&◌, ◌||◌, not, List, [], ◌∷◌, ltb, leb, ◌==◌, if◌then◌else◌, length, arith, All,
  Bool-cases,
}
use hashcodecs_rs.Word.{IsByte, bit_or, le-bit_or_left, le-bit_or_right}
use hashcodecs_rs.Base64.Alphabet.Tables.{at}
use hashcodecs_rs.Base64.Output.{Memory, Outcome, ok, err, fault, Write, ◌>>=◌, write, stored}
use hashcodecs_rs.Base64.Output.Laws.{write-stored, run, stored-nil, length-stored}
use hashcodecs_rs.Base64.Decode.{byte0, byte1, byte2}
use hashcodecs_rs.Base64.Decode.Entries.{byte0_sum, byte1_sum, byte2_sum}
use hashcodecs_rs.Base64.Decode.Loops.{>>=_assoc}
use hashcodecs_rs.Bindings.Lenient.{
  Lenient, LenientState, Flow, step_byte, at_end, decode_quartets, on_flow, next_byte, slow_part,
}
use hashcodecs_rs.Bindings.Lenient.Machine.{
  Move, halts, moves, emits, on_symbol, prepend, advance, machine, Good, stepped, out,
  step_byte-advance, result, result-prepend,
}
use hashcodecs_rs.Bindings.Lenient.Runs.{machine-quad}

pub when_true : {A : Type 0} (b : Bool) (x y : A) → b ≡ true → (if b then x else y) ≡ x
when_true b x y e = rw e refl

pub when_false : {A : Type 0} (b : Bool) (x y : A) → b ≡ false → (if b then x else y) ≡ y
when_false b x y e = rw e refl

abbrev Kept : Move → Type 0
Kept halts = Unit {0}
Kept (moves q left p) = Good q left
Kept (emits byte q left) = Good q left

on_symbol-Kept : (v q left : ℕ) → v < 64 → Good q left → Kept (on_symbol v q left)
on_symbol-Kept v q left h (inl e) = rw e (inr (inl (refl, h)))
on_symbol-Kept v q left h (inr (inl (e, l))) = rw e (inr (inr (inl (refl, omega arith))))
on_symbol-Kept v q left h (inr (inr (inl (e, l)))) = rw e (inr (inr (inr (refl, omega arith))))
on_symbol-Kept v q left h (inr (inr (inr (e, l)))) = rw e (inl refl)

abbrev bound : {A B : Type 0} → Outcome A → (A → Write B) → Outcome B
bound o f = elim o [ ok a mem ↦ f a mem | err e mem ↦ err e mem | fault ↦ fault ]

module _ (table : List ℕ) (padded continue_after_padding : Bool) where
  advance-Kept :
      (c q left p : ℕ) → Good q left → Kept (advance table padded continue_after_padding c q left p)
  unfolding advance
  advance-Kept c q left p g =
      elim (Bool-cases (padded && ((c == b'=') && leb 64 (at table b'=')))) [
        | inl pad ↦
            elim (Bool-cases (not continue_after_padding && (leb 2 q && leb 4 (q + suc p)))) [
              | inl e ↦ rw (pad, e) tt
              | inr e ↦ rw (pad, e) g
            ]
        | inr other ↦ elim (Bool-cases (leb 64 (at table c))) [
          | inl foreign ↦ rw (other, foreign) g
          | inr symbol ↦ rw (other, symbol) (on_symbol-Kept (at table c) q left (ground arith) g)
        ]
      ]

  -- What follows a move.
  abbrev after : List ℕ → Move → List ℕ × Bool
  after rest m = elim m [
    | halts ↦ ([], true)
    | moves q left p ↦ machine table padded continue_after_padding rest q left p
    | emits byte q left ↦
        prepend (byte ∷ []) (machine table padded continue_after_padding rest q left 0)
  ]

module _ (provided : ℕ) (table : List ℕ) (altchars : Option (ℕ × ℕ))
    (padded continue_after_padding : Bool) where
  abbrev pub reads : List ℕ → LenientState → List ℕ × Bool
  reads input s = machine table padded continue_after_padding input s.quad_pos s.leftchar s.pads

  -- A program on the state and on fewer than `n` bytes follows the machine.
  abbrev pub Right : ℕ → (LenientState → List ℕ → Write (Lenient ℕ)) → Type 0
  Right n again =
      (s : LenientState) (input : List ℕ) (mem : Memory)
      → length input < n
      → All IsByte input
      → Good s.quad_pos s.leftchar
      → length mem ≡ provided
      → s.written + length (reads input s).0 ≤ provided
      → again s input mem ≡ result s.written mem (reads input s)

  pub at_end-machine :
      (s : LenientState) (mem : Memory)
      → s.written ≤ length mem
      → ok (at_end provided table altchars padded continue_after_padding s) mem
        ≡ result s.written mem (reads [] s)
  unfolding at_end machine
  at_end-machine s mem h =
      elim (Bool-cases
        ((s.quad_pos == 1) || (padded && (not (s.quad_pos == 0) && ltb (s.quad_pos + s.pads) 4)))) [
          | inl e ↦ rw (at_end, e, stored-nil s.written mem h) refl
          | inr e ↦ rw (at_end, e, stored-nil s.written mem h, add-zero) refl
        ]

  module _ (n : ℕ) (again : LenientState → List ℕ → Write (Lenient ℕ)) (right : Right n again) where
    next_byte-machine :
        Right (suc n) (next_byte provided table altchars padded continue_after_padding again)
    unfolding next_byte machine
    next_byte-machine s [] mem l b g e fits = at_end-machine s mem (omega arith)
    next_byte-machine s (c ∷ rest) mem l (hc, hr) g e fits =
        ap (λ o. bound o next) stepping
        ∙ follow m
            (advance-Kept table padded continue_after_padding c s.quad_pos s.leftchar s.pads g) fits
      where
        m : Move
        m = advance table padded continue_after_padding c s.quad_pos s.leftchar s.pads

        next : Flow LenientState → Write (Lenient ℕ)
        next =
            on_flow provided table altchars padded continue_after_padding again
              (λ s'. again s' rest)

        room :
            (x : Move)
            → s.written + length (after table padded continue_after_padding rest x).0 ≤ provided
            → s.written + out provided table altchars padded continue_after_padding x ≤ provided
        room halts f = f
        room (moves q left p) f = omega arith
        room (emits byte q left) f = omega arith

        stepping :
            step_byte provided table altchars padded continue_after_padding s c mem
            ≡ stepped provided table altchars padded continue_after_padding s mem m
        stepping =
            step_byte-advance provided table altchars padded continue_after_padding s c mem g e
              (ground (arith, room m fits))

        follow :
            (x : Move)
            → Kept x
            → s.written + length (after table padded continue_after_padding rest x).0 ≤ provided
            → bound (stepped provided table altchars padded continue_after_padding s mem x) next
              ≡ result s.written mem (after table padded continue_after_padding rest x)
        follow halts k fits = rw (stored-nil s.written mem (omega arith), add-zero) refl
        follow (moves q left p) k fits =
            right (record { written = s.written; quad_pos = q; leftchar = left; pads = p }) rest mem
              (omega arith) hr k e fits
        follow (emits byte q left) k fits =
            let kept = length-stored s.written (byte ∷ []) mem (omega arith) in
            right (record { written = s.written + 1; quad_pos = q; leftchar = left; pads = 0 }) rest
              (stored s.written (byte ∷ []) mem) (omega arith) hr k (omega arith) (omega arith)
            ∙ result-prepend s.written mem (byte ∷ []) _ (omega arith)

    quartets-machine :
        (s : LenientState) (w : ℕ) (input : List ℕ) (mem : Memory)
        → s.quad_pos ≡ 0
        → length input < suc n
        → All IsByte input
        → length mem ≡ provided
        → w + length (reads input s).0 ≤ provided
        → (decode_quartets provided table altchars padded continue_after_padding w input
              >>= on_flow provided table altchars padded continue_after_padding again (λ p.
                next_byte provided table altchars padded continue_after_padding again
                  (record s { written = p.0 })
                  p.1))
            mem
          ≡ result w mem (reads input s)
    unfolding decode_quartets
    quartets-machine s w (a ∷ b ∷ c ∷ d ∷ rest) mem q l (ha, (hb, (hc, (hd, hr)))) e fits =
        elim (Bool-cases (leb 64 all)) [
          | inl stop ↦ rw stop (
              next_byte-machine (record s { written = w }) (a ∷ b ∷ c ∷ d ∷ rest) mem l
                (ha, (hb, (hc, (hd, hr)))) (inl q) e fits)
          | inr go ↦
              let small : all < 64 = ground arith in
              let la = le-bit_or_left (at table a) (at table b) in
              let lb = le-bit_or_right (at table a) (at table b) in
              let lab = le-bit_or_left (bit_or (at table a) (at table b)) (at table c) in
              let lc = le-bit_or_right (bit_or (at table a) (at table b)) (at table c) in
              let labc =
                le-bit_or_left (bit_or (bit_or (at table a) (at table b)) (at table c))
                  (at table d) in
              let ld =
                le-bit_or_right (bit_or (bit_or (at table a) (at table b)) (at table c))
                  (at table d) in
              let xs : List ℕ =
                (at table a * 4 + at table b / 16)
                ∷ (at table b % 16 * 16 + at table c / 4)
                ∷ (at table c % 4 * 64 + at table d)
                ∷ [] in
              let read : List ℕ → ℕ → List ℕ × Bool =
                λ i x. machine table padded continue_after_padding i x s.leftchar s.pads in
              let quad : reads (a ∷ b ∷ c ∷ d ∷ rest) s ≡ prepend xs (reads rest s) =
                ap (read (a ∷ b ∷ c ∷ d ∷ rest)) q
                ∙ machine-quad table padded continue_after_padding a b c d rest s.leftchar s.pads
                    (omega arith) (omega arith) (omega arith) (omega arith)
                ∙ ap (λ x. prepend xs (read rest x)) (sym q) in
              let size : length (reads (a ∷ b ∷ c ∷ d ∷ rest) s).0 ≡ 3 + length (reads rest s).0 =
                ap (λ r. length r.0) quad ∙ omega arith in
              let room : ltb (provided - w) 3 ≡ false = ground arith in
              let same : write w values mem ≡ ok tt (stored w xs mem) =
                rw
                  (
                    byte0_sum (at table a) (at table b) (omega arith) (omega arith),
                    byte1_sum (at table b) (at table c) (omega arith) (omega arith),
                    byte2_sum (at table c) (at table d) (omega arith) (omega arith),
                  )
                  (write-stored w xs mem (omega arith)) in
              let kept = length-stored w xs mem (omega arith) in
              ap (λ m. (m >>= rest_of) mem) (when_false _ _ _ go ∙ when_false _ _ _ room)
              ∙ >>=_assoc (write w values)
                  (λ u.
                    decode_quartets provided table altchars padded continue_after_padding (w + 3)
                      rest)
                  rest_of mem
              ∙ run (write w values)
                  (decode_quartets provided table altchars padded continue_after_padding (w + 3)
                      rest
                    >>= rest_of)
                  mem (stored w xs mem) same
              ∙ quartets-machine s (w + 3) rest (stored w xs mem) q (omega arith) hr (omega arith)
                  (omega arith)
              ∙ result-prepend w mem xs (reads rest s) (omega arith)
              ∙ ap (result w mem) (sym quad)
        ]
      where
        all : ℕ
        all = bit_or (bit_or (bit_or (at table a) (at table b)) (at table c)) (at table d)

        values : List ℕ
        values =
            byte0 (at table a) (at table b)
            ∷ byte1 (at table b) (at table c)
            ∷ byte2 (at table c) (at table d)
            ∷ []

        rest_of : Flow (ℕ × List ℕ) → Write (Lenient ℕ)
        rest_of = on_flow provided table altchars padded continue_after_padding again (λ p.
            next_byte provided table altchars padded continue_after_padding again
              (record s { written = p.0 }) p.1)
    quartets-machine s w [] mem q l b e fits =
        next_byte-machine (record s { written = w }) [] mem l b (inl q) e fits
    quartets-machine s w (a ∷ []) mem q l b e fits =
        next_byte-machine (record s { written = w }) (a ∷ []) mem l b (inl q) e fits
    quartets-machine s w (a ∷ c ∷ []) mem q l b e fits =
        next_byte-machine (record s { written = w }) (a ∷ c ∷ []) mem l b (inl q) e fits
    quartets-machine s w (a ∷ c ∷ d ∷ []) mem q l b e fits =
        next_byte-machine (record s { written = w }) (a ∷ c ∷ d ∷ []) mem l b (inl q) e fits

    pub slow_part-machine :
        Right (suc n) (slow_part provided table altchars padded continue_after_padding again)
    unfolding slow_part
    slow_part-machine s input mem l b g e fits = elim (Bool-cases (s.quad_pos == 0)) [
      | inl q ↦ rw q (quartets-machine s s.written input mem (ground arith) l b e fits)
      | inr q ↦ rw q (next_byte-machine s input mem l b g e fits)
    ]
