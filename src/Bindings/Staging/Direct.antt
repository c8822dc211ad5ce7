-- ===== src/Bindings/Staging/Direct.antt =====
-- Pushing symbols in src/bindings/base64/staging.rs, past the buffer where there is no translation,
-- and the end of a stream.
use hashcodecs_rs.Common.{
  ℕ, zero, suc, ◌+◌, ◌*◌, ◌/◌, ◌%◌, ◌<◌, ◌≡◌, refl, ap, ap₂, ◌∙◌, sym, subst, Option, none, Bool,
  false, ◌&&◌, not, List, [], ◌∷◌, ◌++◌, ◌==◌, length, take, drop, arith, min, length-append,
  length-take, length-drop, Bool-cases, inl, inr, append-nil,
}
use hashcodecs_rs.Base64.Output.{Memory, Write, ◌>>=◌, pure, stored}
use hashcodecs_rs.Base64.Encode.{usize_mod}
use hashcodecs_rs.Base64.Decode.Loops.{>>=_assoc}
use hashcodecs_rs.Bindings.Translation.{Translation}
use hashcodecs_rs.Bindings.Staging.{
  configured_staging_capacity, StagingWriter, apply_all, decode_staging, on_suffix,
  remaining_capacity, flush, push_staged_symbols, push_direct_rounds,
}
use hashcodecs_rs.Bindings.Staging.Holds.{Holds, flush-runs, all_flushed}
use hashcodecs_rs.Bindings.Staging.Writer.{
  Pushed, Fits, staged_rounds, Pushed-bind, Pushed-pure, parts, Fits-front,
}

pub Pushed-along :
    (t : Option Translation) (base : Memory) (m m' : Write StagingWriter) (symbols : List ℕ)
    (mem : Memory)
    → m' mem ≡ m mem
    → Pushed t base m symbols mem
    → Pushed t base m' symbols mem
Pushed-along t base m m' symbols mem e p = record {
  self = p.self;
  memory = p.memory;
  runs = e ∙ p.runs;
  holds = p.holds;
  short = p.short;
}

module _ (t : Option Translation) (base : Memory) where
  pub staged :
      (checked : Bool) (self : StagingWriter) (symbols input : List ℕ) (mem : Memory)
      → Holds t base self symbols mem
      → length self.staging < configured_staging_capacity
      → Fits t base (symbols ++ apply_all t input)
      → Pushed t base (push_staged_symbols checked self input) (symbols ++ apply_all t input) mem
  unfolding push_staged_symbols
  staged checked self symbols input mem h s v =
      staged_rounds t base (suc (length input)) checked self symbols input mem h s (omega arith) v

-- A writer with an empty buffer and no translation.
abbrev idle : ℕ → StagingWriter
idle written = record { written = written; translation = none; staging = [] }

module _ (base : Memory) where
  direct_block :
      (checked : Bool) (written : ℕ) (symbols now : List ℕ) (mem : Memory)
      → Holds none base (idle written) symbols mem
      → Fits none base (symbols ++ now)
      → length now % 4 ≡ 0
      → length now < usize_mod
      → Pushed none base
          (on_suffix written (decode_staging checked now) >>= λ n. pure (idle (written + n)))
          (symbols ++ now)
          mem
  unfolding apply_all
  direct_block checked written symbols now mem h v m counted =
      let full : StagingWriter = record { written = written; translation = none; staging = now } in
      let h' : Holds none base full (symbols ++ now) mem = record {
        flushed = h.flushed;
        bytes = h.bytes;
        same = refl;
        split = ap (λ s. s ++ now) (h.split ∙ append-nil h.flushed);
        whole = h.whole;
        decoded = h.decoded;
        memory = h.memory;
        count = h.count;
      } in
      let groups : length (symbols ++ now) % 4 ≡ 0 =
        omega
          (arith, length-append symbols now, ap length (h.split ∙ append-nil h.flushed), h.whole) in
      let (bytes, e, r) =
        flush-runs none base checked full (symbols ++ now) mem h' v.0 (λ q. absurd (omega arith))
          v.1 counted in
      record {
        self = idle (length bytes);
        memory = stored 0 bytes base;
        runs = (unfold flush in r);
        holds =
            all_flushed none base (idle (length bytes)) (symbols ++ now) bytes refl refl groups e
              refl;
        short = omega arith;
      }

  idle_writer :
      (self : StagingWriter)
      → self.translation ≡ none
      → length self.staging ≡ 0
      → self ≡ idle self.written
  idle_writer self e s =
      ap₂ (λ t st. record { written = self.written; translation = t; staging = st }) e
        (empty self.staging s)
    where
      empty : (xs : List ℕ) → length xs ≡ 0 → xs ≡ []
      empty [] s = refl
      empty (x ∷ xs) s = absurd (omega arith)

  -- The two kinds of rounds.
  direct_step :
      (fuel : ℕ) (checked : Bool) (w b : ℕ) (rest : List ℕ) (mem : Memory)
      → let direct = length (b ∷ rest) / 4 * 4 in
        (direct == 0) ≡ false
        → push_direct_rounds (suc fuel) checked (idle w) (b ∷ rest) mem
          ≡ ((on_suffix w (decode_staging checked (take direct (b ∷ rest))) >>= λ n.
                  pure (idle (w + n)))
                >>= λ x. push_direct_rounds fuel checked x (drop direct (b ∷ rest)))
              mem
  unfolding push_direct_rounds
  direct_step fuel checked w b rest mem e = rw e (
      sym (
        >>=_assoc
          (on_suffix w (decode_staging checked (take (length (b ∷ rest) / 4 * 4) (b ∷ rest))))
          (λ n. pure (idle (w + n)))
          (λ x. push_direct_rounds fuel checked x (drop (length (b ∷ rest) / 4 * 4) (b ∷ rest)))
          mem))

  staged_step :
      (fuel : ℕ) (checked : Bool) (self : StagingWriter) (b : ℕ) (rest : List ℕ) (mem : Memory)
      → let copied = min (length (b ∷ rest)) (remaining_capacity self.staging) in
        ((length self.staging == 0) && not (length (b ∷ rest) / 4 * 4 == 0)) ≡ false
        → push_direct_rounds (suc fuel) checked self (b ∷ rest) mem
          ≡ (push_staged_symbols checked self (take copied (b ∷ rest)) >>= λ x.
                push_direct_rounds fuel checked x (drop copied (b ∷ rest)))
              mem
  unfolding push_direct_rounds
  staged_step fuel checked self b rest mem e = rw e refl

  pub direct_rounds :
      (fuel : ℕ) (checked : Bool) (self : StagingWriter) (symbols input : List ℕ) (mem : Memory)
      → Holds none base self symbols mem
      → length self.staging < configured_staging_capacity
      → length input < fuel
      → length input < usize_mod
      → Fits none base (symbols ++ input)
      → Pushed none base (push_direct_rounds fuel checked self input) (symbols ++ input) mem
  direct_rounds zero checked self symbols input mem h s f c v = absurd (omega arith)
  direct_rounds (suc fuel) checked self symbols [] mem h s f c v =
      unfold push_direct_rounds apply_all in Pushed-pure none base self symbols mem h s
  direct_rounds (suc fuel) checked self symbols (b ∷ rest) mem h s f c v =
      elim (Bool-cases ((length self.staging == 0) && not (direct == 0))) [
        | inl e ↦
            let w : self ≡ idle self.written = idle_writer self h.same (ground arith) in
            subst
              (λ x.
                Pushed none base (push_direct_rounds (suc fuel) checked x input) (symbols ++ input)
                  mem)
              (sym w)
              (direct_case self.written (subst (λ x. Holds none base x symbols mem) w h)
                (ground arith)
                (λ x m hh ss all.
                  direct_rounds fuel checked x (symbols ++ take direct input) (drop direct input) m
                    hh ss (ground (arith, length-drop direct input))
                    (omega (arith, length-drop direct input)) all))
        | inr e ↦
            let now = take copied input in
            let later = drop copied input in
            let whole : (symbols ++ take copied input) ++ drop copied input ≡ symbols ++ input =
              unfold apply_all in parts none base copied symbols input in
            let all : Fits none base ((symbols ++ now) ++ later) =
              subst (Fits none base) (sym whole) v in
            let first : Pushed none base (push_staged_symbols checked self now) (symbols ++ now)
                mem =
              unfold apply_all in
              staged none base checked self symbols now mem h s
                (Fits-front none base (symbols ++ now) later all) in
            subst (λ x. Pushed none base (push_direct_rounds (suc fuel) checked self input) x mem)
              whole
              (Pushed-along none base
                (push_staged_symbols checked self now >>= λ x.
                  push_direct_rounds fuel checked x later)
                (push_direct_rounds (suc fuel) checked self input) ((symbols ++ now) ++ later) mem
                (staged_step fuel checked self b rest mem e)
                (Pushed-bind none base (push_staged_symbols checked self now)
                  (λ x. push_direct_rounds fuel checked x later) (symbols ++ now)
                  ((symbols ++ now) ++ later) mem first
                  (direct_rounds fuel checked first.self (symbols ++ now) later first.memory
                    first.holds first.short
                    (unfold remaining_capacity in omega (arith, length-drop copied input))
                    (omega (arith, length-drop copied input)) all)))
      ]
    where
      input : List ℕ
      input = b ∷ rest

      direct : ℕ
      direct = length input / 4 * 4

      copied : ℕ
      copied = min (length input) (remaining_capacity self.staging)

      direct_case :
          (w : ℕ)
          → Holds none base (idle w) symbols mem
          → (direct == 0) ≡ false
          → ((x : StagingWriter) (mem' : Memory)
              → Holds none base x (symbols ++ take direct input) mem'
              → length x.staging < configured_staging_capacity
              → Fits none base ((symbols ++ take direct input) ++ drop direct input)
              → Pushed none base
                  (push_direct_rounds fuel checked x (drop direct input))
                  ((symbols ++ take direct input) ++ drop direct input)
                  mem')
          → Pushed none base
              (push_direct_rounds (suc fuel) checked (idle w) input)
              (symbols ++ input)
              mem
      direct_case w h e again =
          let now = take direct input in
          let later = drop direct input in
          let whole : (symbols ++ take direct input) ++ drop direct input ≡ symbols ++ input =
            unfold apply_all in parts none base direct symbols input in
          let all : Fits none base ((symbols ++ now) ++ later) =
            subst (Fits none base) (sym whole) v in
          let first =
            direct_block checked w symbols now mem h
              (Fits-front none base (symbols ++ now) later all)
              (omega (arith, length-take direct input)) (omega (arith, length-take direct input)) in
          subst (λ x. Pushed none base (push_direct_rounds (suc fuel) checked (idle w) input) x mem)
            whole
            (Pushed-along none base
              ((on_suffix w (decode_staging checked now) >>= λ n. pure (idle (w + n))) >>= λ x.
                push_direct_rounds fuel checked x later)
              (push_direct_rounds (suc fuel) checked (idle w) input) ((symbols ++ now) ++ later) mem
              (direct_step fuel checked w b rest mem e)
              (Pushed-bind none base
                (on_suffix w (decode_staging checked now) >>= λ n. pure (idle (w + n)))
                (λ x. push_direct_rounds fuel checked x later) (symbols ++ now)
                ((symbols ++ now) ++ later) mem first
                (again first.self first.memory first.holds first.short all)))
