-- ===== src/Base64/Decode/Padding.antt =====
-- Padded text is full quanta and one last quantum: what this means for the layout of
-- base64/decode/api.rs and for the decoding of RFC 4648.
use hashcodecs_rs.Common.{
  ℕ, ◌%◌, ◌<◌, ◌≡◌, refl, ap, ◌∙◌, sym, some, List, [], ◌∷◌, ◌++◌, length, arith,
}
use hashcodecs_rs.Base64.Rfc4648.{quad, quads, decode, join}
use hashcodecs_rs.Base64.Decode.{padding_of}
use hashcodecs_rs.Base64.Decode.Loops.{join_assoc, nil-join}

abbrev pub last_four : ℕ → ℕ → ℕ → ℕ → List ℕ
last_four a b c d = a ∷ b ∷ c ∷ d ∷ []

-- A text of full groups, taken apart in front of the last one.
pub record Split (input : List ℕ) : Type 0 where
  pub front : List ℕ
  pub a : ℕ
  pub b : ℕ
  pub c : ℕ
  pub d : ℕ
  pub whole : input ≡ front ++ last_four a b c d
  pub groups : length front % 4 ≡ 0

pub split : (input : List ℕ) → length input % 4 ≡ 0 → 0 < length input → Split input
split [] m p = absurd (omega arith)
split (a ∷ []) m p = absurd (omega arith)
split (a ∷ b ∷ []) m p = absurd (omega arith)
split (a ∷ b ∷ c ∷ []) m p = absurd (omega arith)
split (a ∷ b ∷ c ∷ d ∷ []) m p = record {
  front = [];
  a = a;
  b = b;
  c = c;
  d = d;
  whole = refl;
  groups = refl;
}
split (a ∷ b ∷ c ∷ d ∷ e ∷ rest) m p =
    let s = split (e ∷ rest) (omega arith) (omega arith) in
    record {
      front = a ∷ b ∷ c ∷ d ∷ s.front;
      a = s.a;
      b = s.b;
      c = s.c;
      d = s.d;
      whole = ap (λ t. a ∷ b ∷ c ∷ d ∷ t) s.whole;
      groups = let g = s.groups in omega arith;
    }

pub padding_of-append :
    (front : List ℕ) (a b c d : ℕ)
    → padding_of (front ++ last_four a b c d) ≡ padding_of (last_four a b c d)
unfolding padding_of
padding_of-append [] a b c d = refl
padding_of-append (x ∷ []) a b c d = refl
padding_of-append (x ∷ y ∷ []) a b c d = refl
padding_of-append (x ∷ y ∷ z ∷ rest) a b c d = padding_of-append (y ∷ z ∷ rest) a b c d

pub decode-append :
    (table front : List ℕ) (a b c d : ℕ)
    → length front % 4 ≡ 0
    → decode table (front ++ last_four a b c d)
      ≡ join (quads table front) (decode table (last_four a b c d))
unfolding quads decode
decode-append table [] a b c d m = sym (nil-join (decode table (last_four a b c d)))
decode-append table (x ∷ []) a b c d m = absurd (omega arith)
decode-append table (x ∷ y ∷ []) a b c d m = absurd (omega arith)
decode-append table (x ∷ y ∷ z ∷ []) a b c d m = absurd (omega arith)
decode-append table (x ∷ y ∷ z ∷ w ∷ []) a b c d m =
    ap (join (quad table x y z w)) (sym (nil-join (decode table (last_four a b c d))))
    ∙ sym (join_assoc (quad table x y z w) (some []) (decode table (last_four a b c d)))
decode-append table (x ∷ y ∷ z ∷ w ∷ v ∷ rest) a b c d m =
    ap (join (quad table x y z w)) (decode-append table (v ∷ rest) a b c d (omega arith))
    ∙ sym (
        join_assoc (quad table x y z w) (quads table (v ∷ rest)) (decode table (last_four a b c d)))
