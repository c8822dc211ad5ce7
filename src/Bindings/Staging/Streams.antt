-- ===== src/Bindings/Staging/Streams.antt =====
-- A stream of pieces through the staging writer of src/bindings/base64/staging.rs.
use hashcodecs_rs.Common.{
  ℕ, suc, ◌%◌, ◌≤◌, ◌<◌, ◌≡◌, ◌≢◌, refl, ap, ◌∙◌, sym, subst, Option, none, some, Bool, List, [],
  ◌∷◌, ◌++◌, ◌==◌, length, arith, length-append, Bool-cases, inl, inr, append-nil, append_assoc,
  concat,
}
use hashcodecs_rs.Base64.Alphabet.{standard_decode}
use hashcodecs_rs.Base64.Output.{Memory, ok, Write, ◌>>=◌, stored}
use hashcodecs_rs.Base64.Output.Laws.{run_value, stored-nil}
use hashcodecs_rs.Base64.Rfc4648.{decode_unpadded}
use hashcodecs_rs.Base64.Encode.{usize_mod}
use hashcodecs_rs.Bindings.Translation.{Translation}
use hashcodecs_rs.Bindings.Staging.{
  configured_staging_capacity, StagingWriter, apply_all, push_symbols, push_staged_symbols,
  push_direct_rounds, finish, new,
}
use hashcodecs_rs.Bindings.Staging.Blocks.{apply_all-append, length-apply_all}
use hashcodecs_rs.Bindings.Staging.Holds.{Valid, size, Holds, flush-runs, apply_all-nil}
use hashcodecs_rs.Bindings.Staging.Writer.{Pushed, Fits, Fits-front}
use hashcodecs_rs.Bindings.Staging.Direct.{staged, direct_rounds, Pushed-along}

route :
    (o : Option Translation) (checked : Bool) (self : StagingWriter) (input : List ℕ)
    → self.translation ≡ o
    → push_symbols checked self input ≡ elim o [
      | some translation ↦ push_staged_symbols checked self input
      | none ↦ push_direct_rounds (suc (length input)) checked self input
    ]
unfolding push_symbols
route o checked self input e =
    ap
      (λ (x : Option Translation). elim x as (λ y. Write StagingWriter) [
        | some translation ↦ push_staged_symbols checked self input
        | none ↦ push_direct_rounds (suc (length input)) checked self input
      ])
      e

-- For every translation, checked or not, if a staging writer holds some symbols (it has stored the
-- decoded bytes of whole quanta of them, and its buffer, translated, is the rest), has less than a
-- full buffer, and is pushed fewer bytes than usize allows, such that all symbols are of the
-- standard alphabet and the output has room for them, then push_symbols succeeds, and the writer
-- holds the symbols with the new ones behind, and has less than a full buffer.
pub push_symbols-Pushed :
    (t : Option Translation) (base : Memory) (checked : Bool) (self : StagingWriter)
    (symbols input : List ℕ) (mem : Memory)
    → Holds t base self symbols mem
    → length self.staging < configured_staging_capacity
    → length input < usize_mod
    → Fits t base (symbols ++ apply_all t input)
    → Pushed t base (push_symbols checked self input) (symbols ++ apply_all t input) mem
push_symbols-Pushed none base checked self symbols input mem h s c v =
    let room : Fits none base (symbols ++ input) = unfold apply_all in v in
    let rounds : Pushed none base (push_symbols checked self input) (symbols ++ input) mem =
      Pushed-along none base _ (push_symbols checked self input) (symbols ++ input) mem
        (ap (λ w. w mem) (route none checked self input h.same))
        (direct_rounds base (suc (length input)) checked self symbols input mem h s (omega arith) c
          room) in
    unfold apply_all in rounds
push_symbols-Pushed (some translation) base checked self symbols input mem h s c v =
    Pushed-along (some translation) base _ (push_symbols checked self input)
      (symbols ++ apply_all (some translation) input) mem
      (ap (λ w. w mem) (route (some translation) checked self input h.same))
      (staged (some translation) base checked self symbols input mem h s v)

finish-runs :
    (t : Option Translation) (base : Memory) (checked : Bool) (self : StagingWriter)
    (symbols : List ℕ) (mem : Memory)
    → Holds t base self symbols mem
    → length self.staging < configured_staging_capacity
    → Fits t base symbols
    → length symbols % 4 ≢ 1
    → (bytes : List ℕ) × (decode_unpadded standard_decode symbols ≡ some bytes)
      × (finish checked self mem ≡ ok (length bytes) (stored 0 bytes base))
unfolding finish
finish-runs t base checked self symbols mem h s v m = elim (Bool-cases (length self.staging == 0)) [
  | inl e ↦ (
    h.bytes,
    ap (decode_unpadded standard_decode) (all (ground arith)) ∙ h.decoded,
    rw (e, ◌>>=◌, h.memory, h.count) refl,
  )
  | inr e ↦
      let (bytes, d, r) = flush-runs t base checked self symbols mem h v.0 m v.1 (omega arith) in
      (bytes, d, rw (e, ◌>>=◌, r) refl)
]
  where
    empty : (xs : List ℕ) → length xs ≡ 0 → xs ≡ []
    empty [] e = refl
    empty (x ∷ xs) e = absurd (omega arith)

    all : length self.staging ≡ 0 → symbols ≡ h.flushed
    all e =
        h.split
        ∙ ap (λ x. h.flushed ++ apply_all t x) (empty self.staging e)
        ∙ ap (λ x. h.flushed ++ x) (apply_all-nil t)
        ∙ append-nil h.flushed

-- A client that pushes pieces one after the other.
unfoldable pub stream : Bool → StagingWriter → List (List ℕ) → Write ℕ
stream checked self [] = finish checked self
stream checked self (piece ∷ pieces) =
    push_symbols checked self piece >>= λ self'. stream checked self' pieces

stream_rest :
    (t : Option Translation) (base : Memory) (checked : Bool) (self : StagingWriter)
    (symbols : List ℕ) (pieces : List (List ℕ)) (mem : Memory)
    → Holds t base self symbols mem
    → length self.staging < configured_staging_capacity
    → Fits t base (symbols ++ apply_all t (concat pieces))
    → length (concat pieces) < usize_mod
    → length (symbols ++ apply_all t (concat pieces)) % 4 ≢ 1
    → (bytes : List ℕ) × (decode_unpadded standard_decode (symbols ++ apply_all t (concat pieces))
        ≡ some bytes)
      × (stream checked self pieces mem ≡ ok (length bytes) (stored 0 bytes base))
unfolding stream
stream_rest t base checked self symbols [] mem h s v c m =
    let e : symbols ≡ symbols ++ apply_all t [] =
      sym (ap (λ x. symbols ++ x) (apply_all-nil t) ∙ append-nil symbols) in
    finish-runs t base checked self (symbols ++ apply_all t []) mem
      (subst (λ x. Holds t base self x mem) e h) s v m
stream_rest t base checked self symbols (piece ∷ pieces) mem h s v c m =
    let e : (symbols ++ apply_all t piece) ++ apply_all t (concat pieces)
        ≡ symbols ++ apply_all t (piece ++ concat pieces) =
      append_assoc symbols (apply_all t piece) (apply_all t (concat pieces))
      ∙ ap (λ x. symbols ++ x) (sym (apply_all-append t piece (concat pieces))) in
    let all = subst (Fits t base) (sym e) v in
    let counted = length-append piece (concat pieces) in
    let first =
      push_symbols-Pushed t base checked self symbols piece mem h s (omega arith)
        (Fits-front t base (symbols ++ apply_all t piece) (apply_all t (concat pieces)) all) in
    let (bytes, d, r) =
      stream_rest t base checked first.self (symbols ++ apply_all t piece) pieces first.memory
        first.holds first.short all (omega arith) (subst (λ x. length x % 4 ≢ 1) (sym e) m) in
    (
      bytes,
      ap (decode_unpadded standard_decode) (sym e) ∙ d,
      run_value (push_symbols checked self piece) (λ x. stream checked x pieces) first.self mem
            first.memory first.runs
          ∙ r,
    )

pub new-Holds : (t : Option Translation) (mem : Memory) → Holds t mem (new t) [] mem
unfolding new decode_unpadded
new-Holds t mem = record {
  flushed = [];
  bytes = [];
  same = refl;
  split = sym (apply_all-nil t);
  whole = refl;
  decoded = refl;
  memory = sym (stored-nil 0 mem (omega arith));
  count = refl;
}

-- For every translation, checked or not, all pieces whose bytes together are fewer than usize
-- allows, do not leave 1 when their number is divided by four, and are symbols of the standard
-- alphabet after the translation, and an output with room for the decoded bytes: a new staging
-- writer into which the pieces are pushed one after another, and which is then finished, has
-- stored what RFC 4648 decodes the translated whole text to, kept the cells behind, and returns
-- the number of bytes.
pub stream-decode_unpadded :
    (t : Option Translation) (checked : Bool) (pieces : List (List ℕ)) (mem : Memory)
    → Valid (apply_all t (concat pieces))
    → length (concat pieces) % 4 ≢ 1
    → size (length (concat pieces)) ≤ length mem
    → length (concat pieces) < usize_mod
    → (bytes : List ℕ) × (decode_unpadded standard_decode (apply_all t (concat pieces))
        ≡ some bytes)
      × (stream checked (new t) pieces mem ≡ ok (length bytes) (stored 0 bytes mem))
unfolding new decode_unpadded
stream-decode_unpadded t checked pieces mem v m fits c =
    let n : length (concat pieces) ≡ length (apply_all t (concat pieces)) =
      sym (length-apply_all t (concat pieces)) in
    stream_rest t mem checked (new t) [] pieces mem (new-Holds t mem) (omega arith)
      (v, subst (λ k. size k ≤ length mem) n fits) c (subst (λ k. k % 4 ≢ 1) n m)
