-- ===== src/Bindings/Staging/Validation.antt =====
-- Pieces that StagingValidator of src/bindings/base64/staging.rs checks.
use hashcodecs_rs.Common.{
  ℕ, ◌>>=◌, Option, none, some, Bool, true, false, List, [], ◌∷◌, ◌++◌, ◌==◌, ◌||◌, ◌-◌, ◌%◌, ◌<◌,
  ◌≡◌, ◌≢◌, if◌then◌else◌, length, drop, take, zero, suc, arith, concat, min, refl, ap, sym, subst,
  ◌∙◌, Bool-cases, inl, inr, append_assoc, take-append-drop, length-append, length-take,
  length-drop, append-nil,
}
use hashcodecs_rs.Base64.Alphabet.{standard, standard_decode, table_of}
use hashcodecs_rs.Base64.Encode.{usize_mod}
use hashcodecs_rs.Base64.Rfc4648.{decode_unpadded}
use hashcodecs_rs.Base64.Unpadded.{any_invalid, validate_alphabet}
use hashcodecs_rs.Base64.Unpadded.Laws.{decode_unpadded_layout-good}
use hashcodecs_rs.Base64.Unpadded.Validated.{
  any_invalid-decode_unpadded, validate_alphabet-decode_unpadded, verdict,
}
use hashcodecs_rs.Bindings.Translation.{Translation}
use hashcodecs_rs.Bindings.Staging.{
  configured_staging_capacity, apply_all, is_full, extend_from_slice,
}
use hashcodecs_rs.Bindings.Staging.Blocks.{apply_all-append, length-apply_all}
use hashcodecs_rs.Bindings.Staging.Holds.{apply_all-nil}
use hashcodecs_rs.Bindings.Staging.Validator.{
  StagingValidator, new, flush, push_rounds, push, finish,
}

-- A client that checks pieces one after the other.
unfoldable pub checked : StagingValidator → List (List ℕ) → Option (Unit {0})
checked self [] = finish self
checked self (piece ∷ pieces) = push self piece >>= λ self'. checked self' pieces

abbrev pub accepted : Bool → Option (Unit {0})
accepted true = none
accepted false = some tt

any_invalid-append :
    (table xs ys : List ℕ)
    → any_invalid table (xs ++ ys) ≡ any_invalid table xs || any_invalid table ys
unfolding any_invalid
any_invalid-append table [] ys = refl
any_invalid-append table (x ∷ xs) ys = ground (arith, any_invalid-append table xs ys)

flush-any_invalid :
    (self : StagingValidator)
    → length self.staging % 4 ≢ 1
    → length self.staging < usize_mod
    → flush self ≡ (
        if any_invalid standard_decode (apply_all self.translation self.staging)
        then none
        else some (record self { staging = [] }))
unfolding flush
flush-any_invalid self m h =
    let block = apply_all self.translation self.staging in
    let n = length-apply_all self.translation self.staging in
    let q : length block % 4 ≢ 1 = λ e. m (omega arith) in
    let c : length block < usize_mod = omega arith in
    let v : validate_alphabet block standard ≡ verdict (decode_unpadded standard_decode block) =
      unfold table_of in validate_alphabet-decode_unpadded standard block q in
    let w = any_invalid-decode_unpadded standard_decode block q in
    elim (Bool-cases (any_invalid standard_decode block)) [
      | inl e ↦ rw (flush, decode_unpadded_layout-good block q c, v, sym w, e) refl
      | inr e ↦ rw (flush, decode_unpadded_layout-good block q c, v, sym w, e) refl
    ]

regroup : (n : ℕ) (xs ys zs : List ℕ) → (xs ++ take n ys) ++ (drop n ys ++ zs) ≡ xs ++ (ys ++ zs)
regroup n xs ys zs =
    append_assoc xs (take n ys) (drop n ys ++ zs)
    ∙ ap (λ w. xs ++ w)
        (sym (append_assoc (take n ys) (drop n ys) zs) ∙ ap (λ w. w ++ zs) (take-append-drop n ys))

module _ (t : Option Translation) (later : List ℕ) (k : StagingValidator → Option (Unit {0})) where
  abbrev Rest : Type 0
  Rest =
      (x : StagingValidator)
      → x.translation ≡ t
      → length x.staging < configured_staging_capacity
      → length (x.staging ++ later) % 4 ≢ 1
      → k x ≡ accepted (any_invalid standard_decode (apply_all t (x.staging ++ later)))

  rounds-any_invalid :
      (fuel : ℕ) (self : StagingValidator) (input : List ℕ)
      → self.translation ≡ t
      → length self.staging < configured_staging_capacity
      → length input < fuel
      → length (self.staging ++ (input ++ later)) % 4 ≢ 1
      → Rest
      → (push_rounds fuel self input >>= k)
        ≡ accepted (any_invalid standard_decode (apply_all t (self.staging ++ (input ++ later))))
  unfolding push_rounds extend_from_slice
  rounds-any_invalid zero self input s h f m rest = absurd (omega arith)
  rounds-any_invalid (suc fuel) self [] s h f m rest = rest self s h m
  rounds-any_invalid (suc fuel) self (b ∷ r) s h f m rest =
      let input = b ∷ r in
      let n = min (length input) (configured_staging_capacity - length self.staging) in
      let now = self.staging ++ take n input in
      let e : now ++ (drop n input ++ later) ≡ self.staging ++ (input ++ later) =
        regroup n self.staging input later in
      let self' : StagingValidator = record self { staging = now } in
      let size = length-append self.staging (take n input) in
      let cut = length-take n input in
      let left = length-drop n input in
      let m' : length (now ++ (drop n input ++ later)) % 4 ≢ 1 =
        subst (λ x. length x % 4 ≢ 1) (sym e) m in
      subst
        (λ x.
          (push_rounds (suc fuel) self input >>= k)
          ≡ accepted (any_invalid standard_decode (apply_all t x)))
        e
        (elim (Bool-cases (is_full now)) [
          | inr open_ ↦ rw open_ (
              rounds-any_invalid fuel self' (drop n input) s (unfold is_full in ground arith)
                (omega arith) m' rest)
          | inl full ↦
              let l : length now ≡ configured_staging_capacity = unfold is_full in ground arith in
              let whole = full_split now (drop n input ++ later) in
              let fl : flush self' ≡ (
                  if any_invalid standard_decode (apply_all t now)
                  then none
                  else some (record self' { staging = [] })) =
                flush-any_invalid self' (λ q. absurd (omega arith)) (omega arith)
                ∙ ap
                    (λ u.
                      if any_invalid standard_decode (apply_all u now)
                      then none
                      else some (record self' { staging = [] }))
                    s in
              elim (Bool-cases (any_invalid standard_decode (apply_all t now))) [
                | inl e ↦ rw (full, fl, e, whole) (rw e refl)
                | inr e ↦
                    rw (full, fl, e, whole)
                      (rw e (
                        rounds-any_invalid fuel (record self' { staging = [] }) (drop n input) s
                          (omega arith) (omega arith)
                          (λ q. m' (omega (arith, length-append now (drop n input ++ later))))
                          rest))
              ]
        ])
    where
      full_split :
          (xs ys : List ℕ)
          → any_invalid standard_decode (apply_all t (xs ++ ys))
            ≡ any_invalid standard_decode (apply_all t xs)
              || any_invalid standard_decode (apply_all t ys)
      full_split xs ys =
          ap (any_invalid standard_decode) (apply_all-append t xs ys)
          ∙ any_invalid-append standard_decode (apply_all t xs) (apply_all t ys)

none_left :
    (t : Option Translation) (xs : List ℕ)
    → length xs ≡ 0
    → any_invalid standard_decode (apply_all t xs) ≡ false
unfolding any_invalid
none_left t [] e = rw (apply_all-nil t) refl
none_left t (x ∷ xs) e = absurd (omega arith)

checked_rest :
    (t : Option Translation) (self : StagingValidator) (pieces : List (List ℕ))
    → self.translation ≡ t
    → length self.staging < configured_staging_capacity
    → length (self.staging ++ concat pieces) % 4 ≢ 1
    → checked self pieces
      ≡ accepted (any_invalid standard_decode (apply_all t (self.staging ++ concat pieces)))
unfolding checked push finish any_invalid
checked_rest t self [] s h m = elim (Bool-cases (length self.staging == 0)) [
  | inl e ↦
      let keep = append-nil self.staging in
      rw (finish, e, keep, none_left t self.staging (ground arith)) refl
  | inr e ↦
      let keep = append-nil self.staging in
      let m' : length self.staging % 4 ≢ 1 = subst (λ x. length x % 4 ≢ 1) keep m in
      let fl = flush-any_invalid self m' (omega arith) in
      rw (finish, e, keep, fl, s)
        (elim (Bool-cases (any_invalid standard_decode (apply_all t self.staging))) [
          | inl q ↦ rw q refl
          | inr q ↦ rw q refl
        ])
]
checked_rest t self (piece ∷ pieces) s h m =
    (rounds-any_invalid t (concat pieces) (λ x. checked x pieces) (suc (length piece)) self piece s
      h (omega arith) m (λ x. checked_rest t x pieces))

-- For every translation and all pieces whose bytes together do not leave 1 when their number is
-- divided by four, a new StagingValidator to which the pieces are pushed one after another, and
-- which is then finished, accepts them exactly when no byte of the translated whole text is
-- outside the standard alphabet.
pub checked-any_invalid :
    (t : Option Translation) (pieces : List (List ℕ))
    → length (concat pieces) % 4 ≢ 1
    → checked (new t) pieces ≡ accepted (any_invalid standard_decode (apply_all t (concat pieces)))
unfolding new
checked-any_invalid t pieces m = checked_rest t (new t) pieces refl (omega arith) m
