-- ===== src/Bindings/Lenient/Rounds.antt =====
-- The rounds of src/bindings/base64/lenient.rs follow the byte machine.
use hashcodecs_rs.Common.{
  ℕ, zero, suc, ◌+◌, ◌-◌, ◌*◌, ◌/◌, ◌%◌, ◌≤◌, ◌<◌, ◌≡◌, inl, inr, refl, ap, ◌∙◌, sym, Option, Bool,
  false, ◌&&◌, List, [], ◌∷◌, ltb, leb, ◌==◌, if◌then◌else◌, length, drop, take, arith, All,
  All-drop, Bool-cases, length-append, length-drop, length-take, take-append-drop,
}
use hashcodecs_rs.Word.{IsByte}
use hashcodecs_rs.Base64.Alphabet.Tables.{at}
use hashcodecs_rs.Base64.Encode.{usize_mod}
use hashcodecs_rs.Base64.Output.{Memory, Write, stored}
use hashcodecs_rs.Base64.Output.Laws.{run, length-stored}
use hashcodecs_rs.Bindings.Scan.{symbol_prefix, is_lenient_symbol}
use hashcodecs_rs.Bindings.Lenient.{
  Lenient, LenientState, skip_discarded, decode_run, run_part, round, lenient_rounds,
}
use hashcodecs_rs.Bindings.Lenient.Machine.{
  prepend, machine, machine_fresh, machine_discarded, result, result-prepend,
}
use hashcodecs_rs.Bindings.Lenient.Runs.{
  Agrees, bytes_of, length-bytes_of, machine-bytes_of, decode_run-bytes_of,
}
use hashcodecs_rs.Bindings.Lenient.Steps.{
  when_true, when_false, reads, Right, at_end-machine, slow_part-machine,
}

module _ (provided : ℕ) (table : List ℕ) (altchars : Option (ℕ × ℕ))
    (padded continue_after_padding : Bool) where
  skip_discarded-machine :
      (input : List ℕ) (left p : ℕ)
      → All IsByte input
      → let r = skip_discarded provided table altchars padded continue_after_padding input p in
        (machine table padded continue_after_padding r.0 0 left r.1
          ≡ machine table padded continue_after_padding input 0 left p)
        × (length r.0 ≤ length input)
        × All IsByte r.0
  unfolding skip_discarded
  skip_discarded-machine [] left p b = (refl, omega arith, tt)
  skip_discarded-machine (c ∷ rest) left p (hc, hr) = elim (Bool-cases (leb 64 (at table c))) [
    | inr symbol ↦ rw symbol (refl, omega arith, (hc, hr))
    | inl foreign ↦
        let p' : ℕ = if padded && (c == b'=') then suc p else p in
        let (same, l, b) = skip_discarded-machine rest left p' hr in
        let later =
          machine_discarded table padded continue_after_padding c rest left p left p' foreign in
        rw foreign (same ∙ sym later, omega arith, b)
  ]

  module _ (agrees : Agrees table altchars) where
    symbol_prefix-length : (input : List ℕ) → symbol_prefix input altchars ≤ length input
    unfolding symbol_prefix
    symbol_prefix-length [] = omega arith
    symbol_prefix-length (c ∷ rest) = ground (arith, symbol_prefix-length rest)

    symbol_prefix-valid :
        (input : List ℕ) (k : ℕ)
        → All IsByte input
        → k ≤ symbol_prefix input altchars
        → All IsByte (take k input) × All (λ c. at table c < 64) (take k input)
    unfolding symbol_prefix
    symbol_prefix-valid input zero b h = (tt, tt)
    symbol_prefix-valid [] (suc k) b h = (tt, tt)
    symbol_prefix-valid (c ∷ rest) (suc k) (hc, hr) h =
        elim (Bool-cases (is_lenient_symbol c altchars)) [
          | inl e ↦
              let (b, v) = symbol_prefix-valid rest k hr (ground arith) in
              ((hc, b), (agrees.symbol c hc e, v))
          | inr e ↦ absurd (ground arith)
        ]

    module _ (n : ℕ) (again : LenientState → List ℕ → Write (Lenient ℕ))
        (right : Right provided table altchars padded continue_after_padding n again)
        (counted : n < usize_mod) where
      run_part-machine :
          (s : LenientState) (input : List ℕ) (mem : Memory)
          → s.quad_pos ≡ 0
          → length input < suc n
          → All IsByte input
          → length mem ≡ provided
          → s.written
              + length (reads provided table altchars padded continue_after_padding input s).0
            ≤ provided
          → run_part provided table altchars padded continue_after_padding again s input mem
            ≡ result s.written mem
                (reads provided table altchars padded continue_after_padding input s)
      unfolding run_part
      run_part-machine s [] mem q l b e fits =
          at_end-machine provided table altchars padded continue_after_padding s mem (omega arith)
      run_part-machine s (c ∷ rest) mem q l b e fits = elim (Bool-cases (leb 16 r)) [
        | inr short ↦ rw short (
            slow_part-machine provided table altchars padded continue_after_padding n again right s
              (c ∷ rest) mem l b (inl q) e fits)
        | inl long ↦
            let input = c ∷ rest in
            let least : 16 ≤ r = ground arith in
            let (bytes, valid) = symbol_prefix-valid input r b (omega arith) in
            let shorter = symbol_prefix-length input in
            let n_xs : length xs ≡ r = omega (arith, length-take r input) in
            let whole : length xs % 4 ≡ 0 = omega arith in
            let n_bytes = length-bytes_of table xs whole in
            let split : reads provided table altchars padded continue_after_padding input s
                ≡ prepend (bytes_of table xs)
                    (machine table padded continue_after_padding later s.quad_pos s.leftchar 0) =
              ap (λ x. machine table padded continue_after_padding input x s.leftchar s.pads) q
              ∙ ap (λ i. machine table padded continue_after_padding i 0 s.leftchar s.pads)
                  (sym (take-append-drop r input))
              ∙ machine-bytes_of table padded continue_after_padding xs later s.leftchar s.pads
                  valid whole
              ∙ ap (prepend (bytes_of table xs)) (
                  machine_fresh table padded continue_after_padding later s.leftchar s.pads
                    s.leftchar 0)
              ∙ ap
                  (λ x.
                    prepend (bytes_of table xs)
                      (machine table padded continue_after_padding later x s.leftchar 0))
                  (sym q) in
            let size =
              ap (λ o. length o.0) split
              ∙ length-append (bytes_of table xs)
                  (machine table padded continue_after_padding later s.quad_pos s.leftchar 0).0 in
            let room : ltb (provided - s.written) (r / 4 * 3) ≡ false = ground arith in
            let place : s.written + r / 4 * 3 ≡ s.written + length (bytes_of table xs) =
              omega arith in
            let kept = length-stored s.written (bytes_of table xs) mem (omega arith) in
            ap (λ (m : Write (Lenient ℕ)). m mem) (when_true _ _ _ long ∙ when_false _ _ _ room)
            ∙ run (decode_run provided table altchars padded continue_after_padding s.written xs)
                (again (record s { written = s.written + r / 4 * 3; pads = 0 }) later) mem
                (stored s.written (bytes_of table xs) mem)
                (decode_run-bytes_of provided table altchars padded continue_after_padding agrees
                  s.written xs mem bytes valid whole (omega arith) (omega arith))
            ∙ right (record s { written = s.written + r / 4 * 3; pads = 0 }) later
                (stored s.written (bytes_of table xs) mem) (omega (arith, length-drop r input))
                (All-drop IsByte r input b) (inl q) (omega arith) (omega arith)
            ∙ ap
                (λ k.
                  result k (stored s.written (bytes_of table xs) mem)
                    (machine table padded continue_after_padding later s.quad_pos s.leftchar 0))
                place
            ∙ result-prepend s.written mem (bytes_of table xs)
                (machine table padded continue_after_padding later s.quad_pos s.leftchar 0)
                (omega arith)
            ∙ ap (result s.written mem) (sym split)
      ]
        where
          r : ℕ
          r = symbol_prefix (c ∷ rest) altchars / 4 * 4

          xs : List ℕ
          xs = take r (c ∷ rest)

          later : List ℕ
          later = drop r (c ∷ rest)

      round-machine :
          Right provided table altchars padded continue_after_padding
            (suc n)
            (round provided table altchars padded continue_after_padding again)
      unfolding round
      round-machine s [] mem l b g e fits =
          at_end-machine provided table altchars padded continue_after_padding s mem (omega arith)
      round-machine s (c ∷ rest) mem l b g e fits = elim (Bool-cases (s.quad_pos == 0)) [
        | inr q ↦
            ap (λ (m : Write (Lenient ℕ)). m mem) (when_false _ _ _ q)
            ∙ slow_part-machine provided table altchars padded continue_after_padding n again right
                s (c ∷ rest) mem l b g e fits
        | inl q ↦
            let zero_pos : s.quad_pos ≡ 0 = ground arith in
            let skipped =
              skip_discarded provided table altchars padded continue_after_padding (c ∷ rest)
                s.pads in
            let (same, shorter, bytes) = skip_discarded-machine (c ∷ rest) s.leftchar s.pads b in
            let read : List ℕ → ℕ → ℕ → List ℕ × Bool =
              λ i x p. machine table padded continue_after_padding i x s.leftchar p in
            let same_reads : reads provided table altchars padded continue_after_padding skipped.0
                  (record s { pads = skipped.1 })
                ≡ reads provided table altchars padded continue_after_padding (c ∷ rest) s =
              ap (λ x. read skipped.0 x skipped.1) zero_pos
              ∙ same
              ∙ ap (λ x. read (c ∷ rest) x s.pads) (sym zero_pos) in
            let size = ap (λ o. length o.0) same_reads in
            ap (λ (m : Write (Lenient ℕ)). m mem) (when_true _ _ _ q)
            ∙ run_part-machine (record s { pads = skipped.1 }) skipped.0 mem zero_pos (omega arith)
                bytes e (omega arith)
            ∙ ap (result s.written mem) same_reads
      ]

    pub lenient_rounds-machine :
        (fuel : ℕ)
        → fuel ≤ usize_mod
        → Right provided table altchars padded continue_after_padding fuel
            (lenient_rounds provided table altchars padded continue_after_padding fuel)
    unfolding lenient_rounds
    lenient_rounds-machine zero h s input mem l b g e fits = absurd (omega arith)
    lenient_rounds-machine (suc fuel) h s input mem l b g e fits =
        round-machine fuel
          (lenient_rounds provided table altchars padded continue_after_padding fuel)
          (lenient_rounds-machine fuel (omega arith)) (omega arith) s input mem l b g e fits
