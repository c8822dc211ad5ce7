-- ===== src/Base64/Wrapped/Whole.antt =====
-- Text of whole lines and a last one: its line breaks, and its length in lines.
use native.Mathlib.Nat.{zero-div, mod-lt, div-add-mod, mul_comm}
use hashcodecs_rs.Common.{
  ℕ, zero, suc, ◌+◌, ◌-◌, ◌*◌, ◌/◌, ◌%◌, ◌≤◌, ◌<◌, ◌≡◌, refl, ap, ◌∙◌, sym, List, [], ◌∷◌, ◌++◌,
  length, take, drop, arith, length-append, length-take, length-drop, take-append-drop,
}
use hashcodecs_rs.Base64.Wrapped.Lines.{
  wrap, wrap_at, room_after, wrap_at-append, room_after-append, wrap_at_fits, wrap_at_full,
}

module _ (width : ℕ) (positive : 0 < width) where
  room_after_zero :
      (xs : List ℕ) → 0 < length xs → room_after width 0 xs ≡ room_after width width xs
  unfolding room_after
  room_after_zero [] p = absurd (omega arith)
  room_after_zero (x ∷ xs) p = after_first width refl
    where
      after_first :
          (w : ℕ) → w ≡ width → room_after width (width - 1) xs ≡ room_after width w (x ∷ xs)
      after_first zero e = absurd (omega arith)
      after_first (suc w) e = ap (λ r. room_after width r xs) (omega arith)

  -- Whole lines leave no room.
  room_after_lines :
      (q : ℕ) (xs : List ℕ) → length xs ≡ suc q * width → room_after width width xs ≡ 0
  room_after_lines zero xs e = (wrap_at_fits width width xs (omega arith)).1 ∙ omega arith
  room_after_lines (suc q) xs e =
      let n : length xs ≡ width + suc q * width = e ∙ omega arith in
      let first = take width xs in
      let more = drop width xs in
      let l : length first ≡ width = omega (arith, length-take width xs) in
      let m : length more ≡ suc q * width = omega (arith, length-drop width xs) in
      let filled : room_after width width first ≡ 0 =
        (wrap_at_fits width width first (omega arith)).1 ∙ omega arith in
      ap (room_after width width) (sym (take-append-drop width xs))
      ∙ room_after-append width width first more
      ∙ ap (λ r. room_after width r more) filled
      ∙ room_after_zero more (omega arith)
      ∙ room_after_lines q more m

  wrap_at_line : (xs : List ℕ) → 0 < length xs → length xs ≤ width → wrap_at width 0 xs ≡ b'\n' ∷ xs
  wrap_at_line [] p s = absurd (omega arith)
  wrap_at_line (x ∷ xs) p s = (wrap_at_full width x xs s).0

  pub wrap_lines :
      (q : ℕ) (xs ys : List ℕ)
      → length xs ≡ suc q * width
      → 0 < length ys
      → length ys ≤ width
      → wrap width (xs ++ ys) ≡ wrap width xs ++ (b'\n' ∷ ys)
  unfolding wrap
  wrap_lines q xs ys e p s =
      wrap_at-append width width xs ys
      ∙ ap (λ t. wrap_at width width xs ++ t)
          (ap (λ r. wrap_at width r ys) (room_after_lines q xs e) ∙ wrap_at_line ys p s)

  -- The number of whole lines in front of the last one.
  pub line_breaks :
      (n : ℕ) → 0 < n → (l : ℕ) × (n ≡ (n - 1) / width * width + l) × (0 < l) × (l ≤ width)
  line_breaks n p =
      let r = (n - 1) % width in
      let e = div-add-mod (n - 1) width in
      let b = mod-lt (n - 1) positive in
      let c = mul_comm width ((n - 1) / width) in (suc r, omega arith, omega arith, omega arith)

  length-wrap_lines :
      (q : ℕ) (l : ℕ) (xs : List ℕ)
      → length xs ≡ q * width + l
      → 0 < l
      → l ≤ width
      → length (wrap width xs) ≡ length xs + q
  unfolding wrap
  length-wrap_lines zero l xs e p s =
      ap length (wrap_at_fits width width xs (omega arith)).0 ∙ omega arith
  length-wrap_lines (suc q) l xs e p s =
      let a = suc q * width in
      let n : length (take a xs) ≡ a = omega (arith, length-take a xs) in
      let m : length (drop a xs) ≡ l = omega (arith, length-drop a xs) in
      let ih = length-wrap_lines q width (take a xs) (omega arith) positive (omega arith) in
      ap (λ t. length (wrap width t)) (sym (take-append-drop a xs))
      ∙ ap length (wrap_lines q (take a xs) (drop a xs) n (omega arith) (omega arith))
      ∙ length-append (wrap width (take a xs)) (b'\n' ∷ drop a xs)
      ∙ omega arith

  pub length-wrap : (xs : List ℕ) → length (wrap width xs) ≡ length xs + (length xs - 1) / width
  length-wrap [] = unfold wrap wrap_at in sym (ap (λ q. 0 + q) (zero-div width))
  length-wrap (x ∷ xs) =
      let lines = line_breaks (length (x ∷ xs)) (omega arith) in
      length-wrap_lines ((length (x ∷ xs) - 1) / width) lines.0 (x ∷ xs) lines.1 lines.2 lines.3
