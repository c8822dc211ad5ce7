-- ===== src/Bindings/Encoder/Cells.antt =====
-- Moving text up inside the output memory, as src/bindings/base64/encode.rs does.
use mathlib.Core.List.{map-append}
use native.Mathlib.Nat.{zero-add, suc-add}
use hashcodecs_rs.Common.{
  ℕ, zero, suc, ◌+◌, ◌≤◌, ◌≡◌, refl, ap, ◌∙◌, sym, some, List, [], ◌∷◌, ◌++◌, map, length, take,
  drop, subst, arith, append_assoc, length-append, length-take, length-drop, take-append-drop,
  length-map, take-append, drop-append,
}
use hashcodecs_rs.Base64.Output.{Memory, ok, write}
use hashcodecs_rs.Bindings.Encoder.{copy_to}

module _ {A : Type 0} where
  take_past : (xs ys : List A) (n : ℕ) → take (length xs + n) (xs ++ ys) ≡ xs ++ take n ys
  take_past [] ys n = rw zero-add refl
  take_past (x ∷ xs) ys n = rw suc-add (ap (λ t. x ∷ t) (take_past xs ys n))

  drop_past : (xs ys : List A) (n : ℕ) → drop (length xs + n) (xs ++ ys) ≡ drop n ys
  drop_past [] ys n = rw zero-add refl
  drop_past (x ∷ xs) ys n = rw suc-add (drop_past xs ys n)

-- A block `bs` is moved `q` cells up.
copy_to-up :
    (as_ bs cs : Memory) (q : ℕ)
    → q ≤ length cs
    → copy_to (length as_) (length as_ + q) (length bs) (as_ ++ (bs ++ cs))
      ≡ ok tt (as_ ++ (take q (bs ++ cs) ++ (bs ++ drop q cs)))
unfolding copy_to
copy_to-up as_ bs cs q h =
    let n : length (as_ ++ (bs ++ cs)) ≡ length as_ + (length bs + length cs) =
      length-append as_ (bs ++ cs) ∙ ap (λ m. length as_ + m) (length-append bs cs) in
    let e : drop (length as_ + q + length bs) (as_ ++ (bs ++ cs)) ≡ drop q cs =
      ap (λ m. drop m (as_ ++ (bs ++ cs))) (omega arith)
      ∙ drop_past as_ (bs ++ cs) (length bs + q)
      ∙ drop_past bs cs q in
    let f : take (length as_ + q) (as_ ++ (bs ++ cs)) ++ (bs ++ drop q cs)
        ≡ as_ ++ (take q (bs ++ cs) ++ (bs ++ drop q cs)) =
      ap (λ t. t ++ (bs ++ drop q cs)) (take_past as_ (bs ++ cs) q)
      ∙ append_assoc as_ (take q (bs ++ cs)) (bs ++ drop q cs) in
    ground (
      arith,
      e,
      f,
      drop-append as_ (bs ++ cs) (length as_) refl,
      take-append bs cs (length bs) refl,
    )

-- The cell in front of the moved block gets a byte.
take_short :
    (bs cs : Memory) (q : ℕ) → suc q ≤ length bs → take q (take (suc q) bs ++ cs) ≡ take q bs
take_short [] cs q h = absurd (omega arith)
take_short (b ∷ bs) cs zero h = refl
take_short (b ∷ bs) cs (suc q) h = ap (λ t. b ∷ t) (take_short bs cs q (omega arith))

pub write_gap :
    (as_ bs cs : Memory) (q c : ℕ)
    → suc q ≤ length bs
    → write (length as_ + q) (c ∷ []) (as_ ++ (take (suc q) bs ++ cs))
      ≡ ok tt (as_ ++ (take q bs ++ (some c ∷ cs)))
unfolding write
write_gap as_ bs cs q c h =
    let gap = take (suc q) bs in
    let g : length gap ≡ suc q = omega (arith, length-take (suc q) bs) in
    let n : length (as_ ++ (gap ++ cs)) ≡ length as_ + (length gap + length cs) =
      length-append as_ (gap ++ cs) ∙ ap (λ m. length as_ + m) (length-append gap cs) in
    let front : take (length as_ + q) (as_ ++ (gap ++ cs)) ≡ as_ ++ take q bs =
      take_past as_ (gap ++ cs) q ∙ ap (λ t. as_ ++ t) (take_short bs cs q h) in
    let back : drop (length as_ + q + 1) (as_ ++ (gap ++ cs)) ≡ cs =
      ap (λ m. drop m (as_ ++ (gap ++ cs))) (omega arith)
      ∙ drop_past as_ (gap ++ cs) (suc q)
      ∙ drop-append gap cs (suc q) g in
    ground (arith, front, back, append_assoc as_ (take q bs) (some c ∷ cs))

-- The end of text that stands in front of `rest`, moved up.
pub copy_to-text :
    (a l q : ℕ) (xs : List ℕ) (rest : Memory)
    → length xs ≡ a + l
    → q ≤ length rest
    → copy_to a (a + q) l (map some xs ++ rest)
      ≡ ok tt (
          map some (take a xs)
          ++ (take q (map some (drop a xs) ++ rest) ++ (map some (drop a xs) ++ drop q rest)))
copy_to-text a l q xs rest e h =
    let front : Memory = map some (take a xs) in
    let back : Memory = map some (drop a xs) in
    let n : length front ≡ a =
      length-map {0, 0} (λ (b : ℕ). some b) (take a xs) ∙ omega (arith, length-take a xs) in
    let m : length back ≡ l =
      length-map {0, 0} (λ (b : ℕ). some b) (drop a xs) ∙ omega (arith, length-drop a xs) in
    let whole : map some xs ++ rest ≡ front ++ (back ++ rest) =
      ap (λ t. map some t ++ rest) (sym (take-append-drop a xs))
      ∙ ap (λ t. t ++ rest) (map-append (λ (b : ℕ). some b) (take a xs) (drop a xs))
      ∙ append_assoc front back rest in
    ap (copy_to a (a + q) l) whole
    ∙ subst
        (λ i.
          copy_to i (i + q) l (front ++ (back ++ rest))
          ≡ ok tt (front ++ (take q (back ++ rest) ++ (back ++ drop q rest))))
        n
        (subst
          (λ j.
            copy_to (length front) (length front + q) j (front ++ (back ++ rest))
            ≡ ok tt (front ++ (take q (back ++ rest) ++ (back ++ drop q rest))))
          m (copy_to-up front back rest q h))
