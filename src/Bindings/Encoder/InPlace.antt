-- ===== src/Bindings/Encoder/InPlace.antt =====
-- Breaking encoded text into lines in place, from its end, in src/bindings/base64/encode.rs.
use mathlib.Core.List.{map-append}
use native.Mathlib.Nat.{zero-add, mod-eq_of_lt, mul-add-mod_self_right, div-eq_of_lt, mod_self}
use hashcodecs_rs.Common.{
  ℕ, zero, suc, ◌+◌, ◌-◌, ◌*◌, ◌/◌, ◌%◌, ◌≤◌, ◌<◌, ◌≡◌, refl, ap, ◌∙◌, sym, some, false, List, [],
  ◌∷◌, ◌++◌, map, leb, ◌==◌, if◌then◌else◌, length, take, drop, subst, arith, append_assoc,
  length-append, length-take, length-drop, take-append-drop, inl, inr, Bool-cases, length-map,
  drop-append,
}
use hashcodecs_rs.Base64.Output.{Memory, ok, write, ◌>>◌}
use hashcodecs_rs.Base64.Output.Laws.{run}
use hashcodecs_rs.Base64.Wrapped.Lines.{wrap, wrap_at_fits}
use hashcodecs_rs.Bindings.Encoder.{copy_to, move_lines, wrap_encoded_ptr}
use hashcodecs_rs.Bindings.Encoder.Cells.{copy_to-text, write_gap}
use hashcodecs_rs.Base64.Wrapped.Whole.{wrap_lines, line_breaks, length-wrap}

module _ (width : ℕ) (positive : 0 < width) where
  -- A line of `length` cells at the end of whole ones is what the loop finds.
  line_len :
      (q l : ℕ)
      → 0 < l
      → l ≤ width
      → (if (q * width + l) % width == 0 then width else (q * width + l) % width) ≡ l
  line_len q l p s = rw (mul-add-mod_self_right q width l) (elim (Bool-cases (l == width)) [
    | inl e ↦
        let same : l ≡ width = ground arith in
        let none_left : l % width ≡ 0 = rw same (mod_self width) in ground arith
    | inr e ↦
        let whole : l % width ≡ l = mod-eq_of_lt {n = l} {m = width} (ground arith) in ground arith
  ])

  wrapped_line :
      (q : ℕ) (xs : List ℕ) (rest : Memory)
      → length (take (suc q * width) xs) ≡ suc q * width
      → 0 < length (drop (suc q * width) xs)
      → length (drop (suc q * width) xs) ≤ width
      → map some (wrap width (take (suc q * width) xs))
          ++ (some b'\n' ∷ (map some (drop (suc q * width) xs) ++ rest))
        ≡ map some (wrap width xs) ++ rest
  wrapped_line q xs rest e p s =
      let a = suc q * width in
      let whole : wrap width xs ≡ wrap width (take a xs) ++ (b'\n' ∷ drop a xs) =
        ap (wrap width) (sym (take-append-drop a xs))
        ∙ wrap_lines width positive q (take a xs) (drop a xs) e p s in
      sym (
        ap (λ t. map some t ++ rest) whole
        ∙ ap (λ t. t ++ rest)
            (map-append (λ (b : ℕ). some b) (wrap width (take a xs)) (b'\n' ∷ drop a xs))
        ∙ append_assoc (map some (wrap width (take a xs))) _ rest)

  -- One round of the loop.
  move_lines_step :
      (fuel q l : ℕ) (mem : Memory)
      → 0 < l
      → l ≤ width
      → move_lines (suc fuel) width (q * width + l) (q * width + l + q) mem
        ≡ (copy_to (q * width) (q * width + q) l
              >> (if q * width == 0
                  then move_lines fuel width (q * width) (q * width + q)
                  else (write (q * width + q - 1) (b'\n' ∷ [])
                      >> move_lines fuel width (q * width) (q * width + q - 1))))
            mem
  unfolding move_lines
  move_lines_step fuel q l mem p s =
      let n : (q * width + l == 0) ≡ false = ground arith in
      let k : q * width + l - l ≡ q * width = omega arith in
      let d : q * width + l + q - l ≡ q * width + q = omega arith in
      rw (n, line_len q l p s, k, d) refl

  move_lines_done : (fuel : ℕ) (mem : Memory) → move_lines fuel width 0 0 mem ≡ ok 0 mem
  unfolding move_lines
  move_lines_done zero mem = refl
  move_lines_done (suc fuel) mem = refl

  -- The last line is alone.
  one_line :
      (l fuel : ℕ) (xs : List ℕ) (rest : Memory)
      → length xs ≡ l
      → 0 < l
      → l ≤ width
      → move_lines (suc fuel) width (0 * width + l) (0 * width + l + 0) (map some xs ++ rest)
        ≡ ok 0 (map some (wrap width xs) ++ rest)
  unfolding wrap
  one_line l fuel xs rest e p s =
      let z : 0 * width ≡ 0 = omega arith in
      let alone = (wrap_at_fits width width xs (omega arith)).0 in
      move_lines_step fuel 0 l (map some xs ++ rest) p s
      ∙ rw (z, zero-add)
          (run (copy_to 0 0 l) (move_lines fuel width 0 0) (map some xs ++ rest)
              (map some xs ++ rest) (copy_to-text 0 l 0 xs rest (omega arith) (omega arith))
            ∙ move_lines_done fuel (map some xs ++ rest)
            ∙ ap (λ t. ok 0 (map some t ++ rest)) (sym alone))

  -- The text in front of `rest` is broken into lines, and the cells that it takes off `rest` with it.
  move_lines-wrap :
      (q l fuel : ℕ) (xs : List ℕ) (rest : Memory)
      → length xs ≡ q * width + l
      → 0 < l
      → l ≤ width
      → q * width + l ≤ fuel
      → q ≤ length rest
      → move_lines fuel width (q * width + l) (q * width + l + q) (map some xs ++ rest)
        ≡ ok 0 (map some (wrap width xs) ++ drop q rest)
  move_lines-wrap q l zero xs rest e p s f h = absurd (omega arith)
  move_lines-wrap zero l (suc fuel) xs rest e p s f h = one_line l fuel xs rest (omega arith) p s
  move_lines-wrap (suc q) l (suc fuel) xs rest e p s f h =
      let a = suc q * width in
      let front : Memory = map some (take a xs) in
      let back : Memory = map some (drop a xs) in
      let gap = take q (back ++ rest) in
      let kept : Memory = back ++ drop (suc q) rest in
      let mem : Memory = map some xs ++ rest in
      let moved : Memory = front ++ (take (suc q) (back ++ rest) ++ kept) in
      let broken : Memory = front ++ (gap ++ (some b'\n' ∷ kept)) in
      let more = move_lines fuel width a (a + q) in
      let n : length front ≡ a =
        length-map {0, 0} (λ (b : ℕ). some b) (take a xs) ∙ omega (arith, length-take a xs) in
      let m : length (take a xs) ≡ a = omega (arith, length-take a xs) in
      let g : length gap ≡ q =
        omega (arith, length-take q (back ++ rest), length-append back rest) in
      let open_ : (a == 0) ≡ false = ground arith in
      let back_one : a + suc q - 1 ≡ a + q = omega arith in
      let same : q * width + width ≡ a = omega arith in
      let ih : more broken
          ≡ ok 0 (map some (wrap width (take a xs)) ++ drop q (gap ++ (some b'\n' ∷ kept))) =
        subst
          (λ i.
            move_lines fuel width i (i + q) broken
            ≡ ok 0 (map some (wrap width (take a xs)) ++ drop q (gap ++ (some b'\n' ∷ kept))))
          same
          (move_lines-wrap q width fuel (take a xs) (gap ++ (some b'\n' ∷ kept)) (omega arith)
            positive (omega arith) (omega arith)
            (omega (arith, length-append gap (some b'\n' ∷ kept)))) in
      let line : write (a + q) (b'\n' ∷ []) moved ≡ ok tt broken =
        subst (λ i. write (i + q) (b'\n' ∷ []) moved ≡ ok tt broken) n
          (write_gap front (back ++ rest) kept q b'\n' (omega (arith, length-append back rest))) in
      let end_ : map some (wrap width (take a xs)) ++ drop q (gap ++ (some b'\n' ∷ kept))
          ≡ map some (wrap width xs) ++ drop (suc q) rest =
        ap (λ t. map some (wrap width (take a xs)) ++ t) (drop-append gap (some b'\n' ∷ kept) q g)
        ∙ wrapped_line q xs (drop (suc q) rest) m (omega (arith, length-drop a xs))
            (omega (arith, length-drop a xs)) in
      move_lines_step fuel (suc q) l mem p s
      ∙ rw (open_, back_one)
          (run (copy_to a (a + suc q) l) (write (a + q) (b'\n' ∷ []) >> more) mem moved
              (copy_to-text a l (suc q) xs rest e h)
            ∙ run (write (a + q) (b'\n' ∷ [])) more moved broken line
            ∙ ih
            ∙ ap (ok 0) end_)

  -- For every positive width, every text at the start of the output, and room for its line breaks,
  -- wrap_encoded_ptr ends at destination 0 with the text broken into lines of the width, and keeps
  -- the cells behind: no byte is overwritten before it is moved, and a number of rounds equal to
  -- the length of the text is enough.
  pub wrap_encoded_ptr-wrap :
      (xs : List ℕ) (rest : Memory)
      → length (wrap width xs) ≤ length xs + length rest
      → wrap_encoded_ptr (length xs) width (map some xs ++ rest)
        ≡ ok 0 (map some (wrap width xs) ++ drop ((length xs - 1) / width) rest)
  unfolding wrap_encoded_ptr
  wrap_encoded_ptr-wrap xs rest fits = elim (Bool-cases (leb (length xs) width)) [
    | inl small ↦
        let none_full : (length xs - 1) / width ≡ 0 = div-eq_of_lt (ground arith) in
        let one : wrap width xs ≡ xs =
          unfold wrap in (wrap_at_fits width width xs (ground arith)).0 in
        rw (small, none_full, one) refl
    | inr large ↦
        let q = (length xs - 1) / width in
        let lines = line_breaks width positive (length xs) (ground arith) in
        let n : length (wrap width xs) ≡ length xs + q = length-wrap width positive xs in
        rw large (
          subst
            (λ i.
              move_lines (length xs) width i (i + q) (map some xs ++ rest)
              ≡ ok 0 (map some (wrap width xs) ++ drop q rest))
            (sym lines.1)
            (move_lines-wrap q lines.0 (length xs) xs rest lines.1 lines.2 lines.3 (omega arith)
              (omega arith)))
  ]
