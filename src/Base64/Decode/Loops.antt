-- ===== src/Base64/Decode/Loops.antt =====
-- The two loops of `decode_to_ptr_with_layout_mode` in base64/decode/api.rs decode full quanta.
use hashcodecs_rs.Common.{
  ℕ, ◌+◌, ◌*◌, ◌/◌, ◌%◌, ◌≤◌, ◌<◌, ◌≡◌, refl, ap, ◌∙◌, sym, Option, none, some, List, [], ◌∷◌, ◌++◌,
  length, arith, All, append_assoc, subst, length-append,
}
use hashcodecs_rs.Word.{IsByte}
use hashcodecs_rs.Base64.Output.{
  Memory, Outcome, ok, err, fault, Write, ◌>>=◌, ◌>>◌, stored, invalid_input,
}
use hashcodecs_rs.Base64.Output.Laws.{length-stored, stored-stored, stored-nil}
use hashcodecs_rs.Base64.Rfc4648.{quad, quads, join}
use hashcodecs_rs.Base64.Decode.{decode_quad_ptr, decode_eight_ptr, decode_eights, decode_fours}
use hashcodecs_rs.Base64.Decode.Entries.{IsTable}
use hashcodecs_rs.Base64.Decode.Blocks.{block_outcome, quad-block, eight-block}

-- An outcome that follows the specification `o`: its bytes stored from cell `k` on, or the error
-- with at most `n` cells from `k` on overwritten.
abbrev pub Follows : {A : Type 0} → ℕ → ℕ → Memory → Option (List ℕ) → A → Outcome A → Type 0
Follows k n mem (some bytes) a outcome = outcome ≡ ok a (stored k bytes mem)
Follows k n mem none a outcome =
    (junk : List ℕ) × (outcome ≡ err invalid_input (stored k junk mem)) × (length junk ≤ n)

pub >>=_assoc :
    {A B C : Type 0} (m : Write A) (g : A → Write B) (f : B → Write C) (mem : Memory)
    → ((m >>= g) >>= f) mem ≡ (m >>= (λ x. g x >>= f)) mem
>>=_assoc {A} {B} {C} m g f mem = elim (m mem) as (λ o. Same o) [
  | ok a mem' ↦ refl
  | err e mem' ↦ refl
  | fault ↦ refl
]
  where
    const : Outcome A → Write A
    const o _ = o

    Same : Outcome A → Type 0
    Same o = ((const o >>= g) >>= f) mem ≡ (const o >>= (λ x. g x >>= f)) mem

pub join_assoc : (x y z : Option (List ℕ)) → join (join x y) z ≡ join x (join y z)
join_assoc none y z = refl
join_assoc (some xs) none z = refl
join_assoc (some xs) (some ys) none = refl
join_assoc (some xs) (some ys) (some zs) = ap some (append_assoc xs ys zs)

-- An action that follows its specification, and what follows it.
pub Follows-then :
    {A : Type 0} (k w n : ℕ) (mem : Memory) (o o' : Option (List ℕ)) (m : Write (Unit {0}))
    (m' : Write A) (a : A)
    → Follows k w mem o tt (m mem)
    → ((bytes : List ℕ) → o ≡ some bytes → length bytes ≡ w)
    → k + w ≤ length mem
    → ((mem' : Memory) → length mem' ≡ length mem → Follows (k + w) n mem' o' a (m' mem'))
    → Follows k (w + n) mem (join o o') a ((m >> m') mem)
Follows-then k w n mem none o' m m' a (junk, e, l) size fits next =
    rw (e, ◌>>◌, ◌>>=◌) (junk, refl, omega arith)
Follows-then k w n mem (some bytes) o' m m' a e size fits next =
    rw (e, ◌>>◌, ◌>>=◌)
      (combine o'
        (next (stored k bytes mem) (length-stored k bytes mem (omega (arith, size bytes refl)))))
  where
    len_bytes : length bytes ≡ w
    len_bytes = size bytes refl

    combine :
        (p : Option (List ℕ))
        → Follows (k + w) n (stored k bytes mem) p a (m' (stored k bytes mem))
        → Follows k (w + n) mem (join (some bytes) p) a (m' (stored k bytes mem))
    combine none (junk, e', l) =
        let l' : length bytes ≡ w = len_bytes in
        (
          bytes ++ junk,
          e'
              ∙ ap (err invalid_input)
                  (rw (← len_bytes) (stored-stored k bytes junk mem (omega arith))),
          omega (arith, length-append bytes junk),
        )
    combine (some more) e' =
        let l' : length bytes ≡ w = len_bytes in
        e' ∙ ap (ok a) (rw (← len_bytes) (stored-stored k bytes more mem (omega arith)))

-- A block with at most `n` bytes, as a follower of its specification.
pub block-Follows :
    (k n : ℕ) (mem : Memory) (o : Option (List ℕ)) (x : Outcome (Unit {0}))
    → k ≤ length mem
    → x ≡ block_outcome k mem o
    → Follows k n mem o tt x
block-Follows k n mem none x h e =
    ([], e ∙ ap (err invalid_input) (sym (stored-nil k mem h)), omega arith)
block-Follows k n mem (some bytes) x h e = e

-- A block of `w` bytes, and what follows it.
pub after_block :
    {A : Type 0} (k w n : ℕ) (mem : Memory) (o o' : Option (List ℕ)) (m : Write (Unit {0}))
    (m' : Write A) (a : A)
    → m mem ≡ block_outcome k mem o
    → ((bytes : List ℕ) → o ≡ some bytes → length bytes ≡ w)
    → k + w ≤ length mem
    → ((mem' : Memory) → length mem' ≡ length mem → Follows (k + w) n mem' o' a (m' mem'))
    → Follows k (w + n) mem (join o o') a ((m >> m') mem)
after_block k w n mem o o' m m' a e size fits next =
    Follows-then k w n mem o o' m m' a (block-Follows k w mem o (m mem) (omega arith) e) size fits
      next

-- A statement about an outcome, carried along equations.
pub Follows-along :
    {A : Type 0} (k : ℕ) (mem : Memory) (a : A) {n n' : ℕ} {o o' : Option (List ℕ)}
    {x x' : Outcome A}
    → n ≡ n'
    → o ≡ o'
    → x ≡ x'
    → Follows k n mem o a x
    → Follows k n' mem o' a x'
Follows-along k mem a {n} {n'} {o} {o'} {x} {x'} p q r h =
    subst (λ i. Follows k i mem o' a x') p
      (subst (λ i. Follows k n mem i a x') q (subst (λ i. Follows k n mem o a i) r h))

pub nil-join : (o : Option (List ℕ)) → join (some []) o ≡ o
nil-join none = refl
nil-join (some bytes) = refl

pub length-quad :
    (table : List ℕ) (a b c d : ℕ) (bytes : List ℕ)
    → quad table a b c d ≡ some bytes
    → length bytes ≡ 3
unfolding quad
length-quad table a b c d bytes e = ground arith

length-two_quads :
    (table : List ℕ) (a b c d e f g h : ℕ) (bytes : List ℕ)
    → join (quad table a b c d) (quad table e f g h) ≡ some bytes
    → length bytes ≡ 6
unfolding quad
length-two_quads table a b c d e f g h bytes p = ground arith

module _ (table : List ℕ) (t : IsTable table) {A : Type 0} (f : ℕ → Write A) (a : A) (n : ℕ)
    (o : Option (List ℕ)) where
  -- What follows the loops at their end.
  abbrev pub Continues : ℕ → Memory → Type 0
  Continues j mem = (mem' : Memory) → length mem' ≡ length mem → Follows j n mem' o a (f j mem')

  fours_nil : (k : ℕ) (mem : Memory) → f k mem ≡ (decode_fours table [] k >>= f) mem
  unfolding decode_fours
  fours_nil k mem = refl

  quads_nil : o ≡ join (quads table []) o
  unfolding quads
  quads_nil = sym (nil-join o)

  fours_four :
      (x y z w : ℕ) (rest : List ℕ) (k : ℕ) (mem : Memory)
      → (decode_quad_ptr (x ∷ y ∷ z ∷ w ∷ []) k 0 table >> (decode_fours table rest (k + 3) >>= f))
          mem
        ≡ (decode_fours table (x ∷ y ∷ z ∷ w ∷ rest) k >>= f) mem
  unfolding decode_fours
  fours_four x y z w rest k mem = sym (
      >>=_assoc (decode_quad_ptr (x ∷ y ∷ z ∷ w ∷ []) k 0 table)
        (λ _. decode_fours table rest (k + 3)) f mem)

  quads_four :
      (x y z w : ℕ) (rest : List ℕ)
      → join (quad table x y z w) (join (quads table rest) o)
        ≡ join (quads table (x ∷ y ∷ z ∷ w ∷ rest)) o
  unfolding quads
  quads_four x y z w rest = sym (join_assoc (quad table x y z w) (quads table rest) o)

  pub fours-Follows :
      (input : List ℕ) (k j : ℕ) (mem : Memory)
      → All IsByte input
      → length input % 4 ≡ 0
      → j ≡ k + length input / 4 * 3
      → j ≤ length mem
      → Continues j mem
      → Follows k
          (length input / 4 * 3 + n)
          mem
          (join (quads table input) o)
          a
          ((decode_fours table input k >>= f) mem)
  fours-Follows [] k j mem h m e fits next =
      let e' : j ≡ k = omega arith in
      Follows-along k mem a (omega arith) quads_nil (fours_nil k mem)
        (subst (λ i. Follows i n mem o a (f i mem)) e' (next mem refl))
  fours-Follows (x ∷ []) k j mem h m e fits next = absurd (omega arith)
  fours-Follows (x ∷ y ∷ []) k j mem h m e fits next = absurd (omega arith)
  fours-Follows (x ∷ y ∷ z ∷ []) k j mem h m e fits next = absurd (omega arith)
  fours-Follows (x ∷ y ∷ z ∷ w ∷ rest) k j mem (hx, (hy, (hz, (hw, h)))) m e fits next =
      let first = quad table x y z w in
      let here = decode_quad_ptr (x ∷ y ∷ z ∷ w ∷ []) k 0 table in
      let there = decode_fours table rest (k + 3) in
      Follows-along k mem a (omega arith) (quads_four x y z w rest) (fours_four x y z w rest k mem)
        (after_block k 3 (length rest / 4 * 3 + n) mem first (join (quads table rest) o) here
          (there >>= f) a (quad-block table t x y z w k mem hx hy hz hw (omega arith))
          (λ bytes p. length-quad table x y z w bytes p) (omega arith)
          (λ mem' l.
            fours-Follows rest (k + 3) j mem' h (omega arith) (omega arith) (omega arith)
              (λ mem'' l'. next mem'' (l' ∙ l))))

  -- Both loops.
  abbrev pub body : List ℕ → ℕ → Write A
  body input k = do
    (rest, destination) ← decode_eights table input k
    destination' ← decode_fours table rest destination
    f destination'

  quads_eight :
      (b c d e g h i l : ℕ) (rest : List ℕ)
      → quads table (b ∷ c ∷ d ∷ e ∷ g ∷ h ∷ i ∷ l ∷ rest)
        ≡ join (join (quad table b c d e) (quad table g h i l)) (quads table rest)
  unfolding quads
  quads_eight b c d e g h i l rest = sym (join_assoc _ _ _)

  pub body_eight :
      (b c d e g h i l : ℕ) (rest : List ℕ) (k : ℕ) (mem : Memory)
      → (decode_eight_ptr b c d e g h i l k table >> body rest (k + 6)) mem
        ≡ body (b ∷ c ∷ d ∷ e ∷ g ∷ h ∷ i ∷ l ∷ rest) k mem
  unfolding decode_eights
  body_eight b c d e g h i l rest k mem = sym (
      >>=_assoc (decode_eight_ptr b c d e g h i l k table) (λ _. decode_eights table rest (k + 6))
        (λ r. decode_fours table r.0 r.1 >>= f) mem)

  -- Fewer than eight symbols skip the first loop.
  pub body_short :
      (input : List ℕ) (k : ℕ) (mem : Memory)
      → length input < 8
      → (decode_fours table input k >>= f) mem ≡ body input k mem
  unfolding decode_eights
  body_short (b ∷ c ∷ d ∷ e ∷ g ∷ h ∷ i ∷ l ∷ rest) k mem s = absurd (omega arith)
  body_short _ k mem s = refl

  pub body-Follows :
      (input : List ℕ) (k j : ℕ) (mem : Memory)
      → All IsByte input
      → length input % 4 ≡ 0
      → j ≡ k + length input / 4 * 3
      → j ≤ length mem
      → Continues j mem
      → Follows k (length input / 4 * 3 + n) mem (join (quads table input) o) a (body input k mem)
  body-Follows (b ∷ c ∷ d ∷ e ∷ g ∷ h ∷ i ∷ l ∷ rest) k j mem
        (hb, (hc, (hd, (he, (hg, (hh, (hi, (hl, hr)))))))) m p fits next =
      let first = join (quad table b c d e) (quad table g h i l) in
      Follows-along k mem a (omega arith)
        (sym (join_assoc first (quads table rest) o)
          ∙ ap (λ q. join q o) (sym (quads_eight b c d e g h i l rest)))
        (body_eight b c d e g h i l rest k mem)
        (after_block k 6 (length rest / 4 * 3 + n) mem first (join (quads table rest) o)
          (decode_eight_ptr b c d e g h i l k table) (body rest (k + 6)) a
          (eight-block table t b c d e g h i l k mem
            (hb, (hc, (hd, (he, (hg, (hh, (hi, (hl, tt)))))))) (omega arith))
          (λ xs q. length-two_quads table b c d e g h i l xs q) (omega arith)
          (λ mem' l'.
            body-Follows rest (k + 6) j mem' hr (omega arith) (omega arith) (omega arith)
              (λ mem'' l''. next mem'' (l'' ∙ l'))))
  body-Follows input k j mem bytes m p fits next =
      subst (λ x. Follows k (length input / 4 * 3 + n) mem (join (quads table input) o) a x)
        (body_short input k mem (omega arith)) (fours-Follows input k j mem bytes m p fits next)
