-- ===== src/Bindings/Staging/Writer.antt =====
-- Symbols that go through the buffer of the staging writer of src/bindings/base64/staging.rs.
use hashcodecs_rs.Common.{
  ℕ, zero, suc, ◌+◌, ◌-◌, ◌%◌, ◌≤◌, ◌<◌, ◌≡◌, refl, ap, ◌∙◌, sym, subst, Option, Bool, List, [],
  ◌∷◌, ◌++◌, if◌then◌else◌, length, take, drop, arith, min, append_assoc, append-nil, length-append,
  length-take, length-drop, take-append-drop, Bool-cases, inl, inr,
}
use hashcodecs_rs.Base64.Output.{Memory, ok, Write, ◌>>=◌, pure, stored}
use hashcodecs_rs.Base64.Output.Laws.{run_value}
use hashcodecs_rs.Bindings.Translation.{Translation}
use hashcodecs_rs.Bindings.Staging.{
  configured_staging_capacity, StagingWriter, apply_all, is_full, extend_from_slice, flush,
  push_staged_rounds,
}
use hashcodecs_rs.Bindings.Staging.Blocks.{apply_all-append, length-apply_all}
use hashcodecs_rs.Bindings.Staging.Holds.{
  Valid, Valid-front, size, size_mono, apply_all-nil, Holds, flush-runs, all_flushed,
}

module _ (t : Option Translation) (base : Memory) where
  -- What a call that pushes more symbols leaves.
  pub record Pushed (m : Write StagingWriter) (symbols : List ℕ) (mem : Memory) : Type 0 where
    pub self : StagingWriter
    pub memory : Memory
    pub runs : m mem ≡ ok self memory
    pub holds : Holds t base self symbols memory
    pub short : length self.staging < configured_staging_capacity

  -- Symbols that go into the buffer, which may then be full.
  buffered :
      (checked : Bool) (self : StagingWriter) (symbols more : List ℕ) (mem : Memory)
      → Holds t base self symbols mem
      → length self.staging + length more ≤ configured_staging_capacity
      → Valid (symbols ++ apply_all t more)
      → size (length (symbols ++ apply_all t more)) ≤ length base
      → let self' : StagingWriter = record self { staging = self.staging ++ more } in
        Pushed
          (if is_full self'.staging then flush checked self' else pure self')
          (symbols ++ apply_all t more)
          mem
  buffered checked self symbols more mem h l v fits =
      let self' : StagingWriter = record self { staging = self.staging ++ more } in
      let split : symbols ++ apply_all t more ≡ h.flushed ++ apply_all t (self.staging ++ more) =
        ap (λ s. s ++ apply_all t more) h.split
        ∙ append_assoc h.flushed (apply_all t self.staging) (apply_all t more)
        ∙ ap (λ s. h.flushed ++ s) (sym (apply_all-append t self.staging more)) in
      let h' : Holds t base self' (symbols ++ apply_all t more) mem = record {
        flushed = h.flushed;
        bytes = h.bytes;
        same = h.same;
        split = split;
        whole = h.whole;
        decoded = h.decoded;
        memory = h.memory;
        count = h.count;
      } in
      let n : length (self.staging ++ more) ≡ length self.staging + length more =
        length-append self.staging more in
      elim (Bool-cases (is_full self'.staging)) [
        | inr open_ ↦ record {
          self = self';
          memory = mem;
          runs = rw open_ refl;
          holds = h';
          short = unfold is_full in ground arith;
        }
        | inl full ↦
            let size_full : length (self.staging ++ more) ≡ configured_staging_capacity =
              unfold is_full in ground arith in
            let groups : length (symbols ++ apply_all t more) % 4 ≡ 0 = omega (
              arith,
              ap length split,
              length-append h.flushed (apply_all t (self.staging ++ more)),
              length-apply_all t (self.staging ++ more),
              h.whole,
            ) in
            let (bytes, e, r) =
              flush-runs t base checked self' (symbols ++ apply_all t more) mem h' v
                (λ q. absurd (omega arith)) fits (omega arith) in
            record {
              self = record self' { written = length bytes; staging = [] };
              memory = stored 0 bytes base;
              runs = rw full r;
              holds =
                  all_flushed t base (record self' { written = length bytes; staging = [] })
                    (symbols ++ apply_all t more) bytes h.same refl groups e refl;
              short = omega arith;
            }
      ]

  pub Pushed-bind :
      (m : Write StagingWriter) (k : StagingWriter → Write StagingWriter) (xs ys : List ℕ)
      (mem : Memory) (p : Pushed m xs mem)
      → Pushed (k p.self) ys p.memory
      → Pushed (m >>= k) ys mem
  Pushed-bind m k xs ys mem p q = record {
    self = q.self;
    memory = q.memory;
    runs = run_value m k p.self mem p.memory p.runs ∙ q.runs;
    holds = q.holds;
    short = q.short;
  }

  pub Pushed-pure :
      (self : StagingWriter) (symbols : List ℕ) (mem : Memory)
      → Holds t base self symbols mem
      → length self.staging < configured_staging_capacity
      → Pushed (pure self) (symbols ++ apply_all t []) mem
  Pushed-pure self symbols mem h s =
      subst (λ x. Pushed (pure self) x mem)
        (sym (ap (λ x. symbols ++ x) (apply_all-nil t) ∙ append-nil symbols))
        (record { self = self; memory = mem; runs = refl; holds = h; short = s })

  -- The input in two parts.
  pub parts :
      (n : ℕ) (symbols input : List ℕ)
      → (symbols ++ apply_all t (take n input)) ++ apply_all t (drop n input)
        ≡ symbols ++ apply_all t input
  parts n symbols input =
      append_assoc symbols (apply_all t (take n input)) (apply_all t (drop n input))
      ∙ ap (λ x. symbols ++ x)
          (sym (apply_all-append t (take n input) (drop n input))
            ∙ ap (apply_all t) (take-append-drop n input))

  -- All symbols that are to come are valid and have room.
  abbrev pub Fits : List ℕ → Type 0
  Fits symbols = Valid symbols × (size (length symbols) ≤ length base)

  pub Fits-front : (xs ys : List ℕ) → Fits (xs ++ ys) → Fits xs
  Fits-front xs ys (v, fits) =
      let less = size_mono (length xs) (length (xs ++ ys)) (omega (arith, length-append xs ys)) in
      (Valid-front xs ys v, omega arith)

  -- The loop of `push_staged_symbols`.
  pub staged_rounds :
      (fuel : ℕ) (checked : Bool) (self : StagingWriter) (symbols input : List ℕ) (mem : Memory)
      → Holds t base self symbols mem
      → length self.staging < configured_staging_capacity
      → length input < fuel
      → Fits (symbols ++ apply_all t input)
      → Pushed (push_staged_rounds fuel checked self input) (symbols ++ apply_all t input) mem
  unfolding push_staged_rounds extend_from_slice
  staged_rounds zero checked self symbols input mem h s f v = absurd (omega arith)
  staged_rounds (suc fuel) checked self symbols [] mem h s f v = Pushed-pure self symbols mem h s
  staged_rounds (suc fuel) checked self symbols (b ∷ rest) mem h s f v =
      let input = b ∷ rest in
      let n = min (length input) (configured_staging_capacity - length self.staging) in
      let now = take n input in
      let later = drop n input in
      let whole = parts n symbols input in
      let all = subst Fits (sym whole) v in
      let front = Fits-front (symbols ++ apply_all t now) (apply_all t later) all in
      let first =
        buffered checked self symbols now mem h (omega (arith, length-take n input)) front.0
          front.1 in
      subst (λ x. Pushed (push_staged_rounds (suc fuel) checked self input) x mem) whole
        (Pushed-bind _ (λ self'. push_staged_rounds fuel checked self' later)
          (symbols ++ apply_all t now) ((symbols ++ apply_all t now) ++ apply_all t later) mem first
          (staged_rounds fuel checked first.self (symbols ++ apply_all t now) later first.memory
            first.holds first.short (omega (arith, length-drop n input)) all))
