-- ===== src/Base64/Wrapped/Lines.antt =====
-- Text in lines of a fixed width, and how the writer of wrapped output in base64/encode/api.rs makes
-- it: it may start at any column that is a multiple of four.
use native.Mathlib.Nat.{add-zero}
use hashcodecs_rs.Common.{
  ℕ, zero, suc, ◌+◌, ◌-◌, ◌%◌, ◌≤◌, ◌≡◌, refl, ap, ap₂, ◌∙◌, sym, true, false, List, [], ◌∷◌, ◌++◌,
  ◌==◌, length, arith, length-append,
}
use hashcodecs_rs.Base64.Output.{Memory, Outcome, ok, ◌>>=◌, ◌>>◌, pure, write, stored}
use hashcodecs_rs.Base64.Decode.Loops.{>>=_assoc}
use hashcodecs_rs.Base64.Output.Laws.{length-stored, stored-stored, stored-nil, write-stored}
use hashcodecs_rs.Base64.Wrapped.{
  WrappedOutput, start_line, write_quad_ptr, write_quads, write_bytes,
}

-- Text after a position with `room` cells left on its line: `\n` only before a symbol that does not
-- fit, so that no line is empty and the last one has no end.
unfoldable pub wrap_at : ℕ → ℕ → List ℕ → List ℕ
wrap_at width room [] = []
wrap_at width zero (c ∷ text) = b'\n' ∷ c ∷ wrap_at width (width - 1) text
wrap_at width (suc room) (c ∷ text) = c ∷ wrap_at width room text

unfoldable pub wrap : ℕ → List ℕ → List ℕ
unfolding wrap_at
wrap width text = wrap_at width width text

-- The room behind the text.
unfoldable pub room_after : ℕ → ℕ → List ℕ → ℕ
room_after width room [] = room
room_after width zero (c ∷ text) = room_after width (width - 1) text
room_after width (suc room) (c ∷ text) = room_after width room text

pub wrap_at-append :
    (width room : ℕ) (xs ys : List ℕ)
    → wrap_at width room (xs ++ ys)
      ≡ wrap_at width room xs ++ wrap_at width (room_after width room xs) ys
unfolding wrap_at room_after
wrap_at-append width room [] ys = refl
wrap_at-append width zero (c ∷ xs) ys =
    ap (λ t. b'\n' ∷ c ∷ t) (wrap_at-append width (width - 1) xs ys)
wrap_at-append width (suc room) (c ∷ xs) ys = ap (λ t. c ∷ t) (wrap_at-append width room xs ys)

pub room_after-append :
    (width room : ℕ) (xs ys : List ℕ)
    → room_after width room (xs ++ ys) ≡ room_after width (room_after width room xs) ys
unfolding room_after
room_after-append width room [] ys = refl
room_after-append width zero (c ∷ xs) ys = room_after-append width (width - 1) xs ys
room_after-append width (suc room) (c ∷ xs) ys = room_after-append width room xs ys

-- The writer at cell `k`, with `room` cells left on the line.
abbrev pub position : ℕ → ℕ → ℕ → WrappedOutput
position k width room = record { output = k; width = width; column = width - room }

-- What the writer leaves: its position behind the text, and the text stored in lines.
abbrev pub written : ℕ → ℕ → ℕ → List ℕ → Memory → Outcome WrappedOutput
written k width room text mem =
    ok (position (k + length (wrap_at width room text)) width (room_after width room text))
      (stored k (wrap_at width room text) mem)

-- Two texts written one behind the other are one text.
pub written_parts :
    (k width room : ℕ) (xs ys : List ℕ) (mem : Memory)
    → k + length (wrap_at width room (xs ++ ys)) ≤ length mem
    → (k + length (wrap_at width room xs) + length (wrap_at width (room_after width room xs) ys)
        ≤ length (stored k (wrap_at width room xs) mem))
      × (k + length (wrap_at width room xs) ≤ length mem)
      × (written
            (k + length (wrap_at width room xs))
            width
            (room_after width room xs)
            ys
            (stored k (wrap_at width room xs) mem)
          ≡ written k width room (xs ++ ys) mem)
written_parts k width room xs ys mem fits =
    let first = wrap_at width room xs in
    let more = wrap_at width (room_after width room xs) ys in
    let e : wrap_at width room (xs ++ ys) ≡ first ++ more = wrap_at-append width room xs ys in
    let n : length (wrap_at width room (xs ++ ys)) ≡ length first + length more =
      ap length e ∙ length-append first more in
    let within : k + length first ≤ length mem = omega arith in
    let kept : length (stored k first mem) ≡ length mem = length-stored k first mem within in
    (
      omega arith,
      within,
      ap₂ (λ p m. ok p m)
          (ap₂ (λ i q. position i width q) (omega arith) (sym (room_after-append width room xs ys)))
          (stored-stored k first more mem within ∙ ap (λ t. stored k t mem) (sym e)),
    )

-- A run of symbols that fits its line.
pub wrap_at_fits :
    (width room : ℕ) (text : List ℕ)
    → length text ≤ room
    → (wrap_at width room text ≡ text) × (room_after width room text ≡ room - length text)
unfolding wrap_at room_after
wrap_at_fits width room [] h = (refl, omega arith)
wrap_at_fits width zero (c ∷ text) h = absurd (omega arith)
wrap_at_fits width (suc room) (c ∷ text) h =
    let ih = wrap_at_fits width room text (omega arith) in (ap (λ t. c ∷ t) ih.0, omega arith)

pub wrap_at_full :
    (width : ℕ) (c : ℕ) (text : List ℕ)
    → length (c ∷ text) ≤ width
    → (wrap_at width 0 (c ∷ text) ≡ b'\n' ∷ c ∷ text)
      × (room_after width 0 (c ∷ text) ≡ width - length (c ∷ text))
unfolding wrap_at room_after
wrap_at_full width c text h =
    let ih = wrap_at_fits width (width - 1) text (omega arith) in
    (ap (λ t. b'\n' ∷ c ∷ t) ih.0, omega arith)

module _ (width : ℕ) (wide : 4 ≤ width) (aligned : width % 4 ≡ 0) where
  -- A part of at most four symbols is not broken.
  part :
      (room k : ℕ) (c : ℕ) (text : List ℕ) (mem : Memory)
      → room ≤ width
      → room % 4 ≡ 0
      → length (c ∷ text) ≤ 4
      → k + length (wrap_at width room (c ∷ text)) ≤ length mem
      → (start_line (position k width room) >>= λ line.
            write line.output (c ∷ text)
            >> pure (record line {
              output = line.output + length (c ∷ text);
              column = line.column + length (c ∷ text);
            }))
          mem
        ≡ written k width room (c ∷ text) mem
  unfolding start_line
  part zero k c text mem h g l fits =
      let w = wrap_at_full width c text (omega arith) in
      let b : List ℕ = b'\n' ∷ [] in
      let n : length (wrap_at width 0 (c ∷ text)) ≡ suc (length (c ∷ text)) = ap length w.0 in
      let kept : length (stored k b mem) ≡ length mem = length-stored k b mem (omega arith) in
      let full : (width - 0 == width) ≡ true = ground arith in
      rw (w.0, w.1, full)
        (ground (
          arith,
          write-stored k b mem (omega arith),
          write-stored (k + 1) (c ∷ text) (stored k b mem) (omega arith),
          stored-stored k b (c ∷ text) mem (omega arith),
        ))
  part (suc room) k c text mem h g l fits =
      let w = wrap_at_fits width (suc room) (c ∷ text) (omega arith) in
      let n : length (wrap_at width (suc room) (c ∷ text)) ≡ length (c ∷ text) = ap length w.0 in
      let open_ : (width - suc room == width) ≡ false = ground arith in
      rw (w.0, w.1, open_) (ground (arith, write-stored k (c ∷ text) mem (omega arith)))

  quad_room :
      (room a b c d : ℕ)
      → room ≤ width
      → room % 4 ≡ 0
      → (room_after width room (a ∷ b ∷ c ∷ d ∷ []) ≤ width)
        × (room_after width room (a ∷ b ∷ c ∷ d ∷ []) % 4 ≡ 0)
  quad_room zero a b c d h g =
      let w = wrap_at_full width a (b ∷ c ∷ d ∷ []) (omega arith) in
      (omega (arith, w.1), omega (arith, w.1))
  quad_room (suc room) a b c d h g =
      let w = wrap_at_fits width (suc room) (a ∷ b ∷ c ∷ d ∷ []) (omega arith) in
      (omega (arith, w.1), omega (arith, w.1))

  write_bytes_step :
      (self : WrappedOutput) (a b c d : ℕ) (rest : List ℕ) (mem : Memory)
      → write_bytes self (a ∷ b ∷ c ∷ d ∷ rest) mem
        ≡ (write_quad_ptr self a b c d >>= λ self'. write_bytes self' rest) mem
  unfolding write_bytes write_quads
  write_bytes_step self a b c d rest mem =
      >>=_assoc (write_quad_ptr self a b c d) (λ self'. write_quads self' rest) _ mem

  -- Whole quads, then the rest, at any place of a line.
  pub write_bytes-wrap_at :
      (room k : ℕ) (text : List ℕ) (mem : Memory)
      → room ≤ width
      → room % 4 ≡ 0
      → k + length (wrap_at width room text) ≤ length mem
      → write_bytes (position k width room) text mem ≡ written k width room text mem
  write_bytes-wrap_at room k [] mem h g fits =
      unfold write_bytes write_quads wrap_at room_after in
      rw (stored-nil k mem (omega arith), add-zero) refl
  write_bytes-wrap_at room k (a ∷ []) mem h g fits =
      unfold write_bytes write_quads in part room k a [] mem h g (omega arith) fits
  write_bytes-wrap_at room k (a ∷ b ∷ []) mem h g fits =
      unfold write_bytes write_quads in part room k a (b ∷ []) mem h g (omega arith) fits
  write_bytes-wrap_at room k (a ∷ b ∷ c ∷ []) mem h g fits =
      unfold write_bytes write_quads in part room k a (b ∷ c ∷ []) mem h g (omega arith) fits
  write_bytes-wrap_at room k (a ∷ b ∷ c ∷ d ∷ rest) mem h g fits =
      let quad = a ∷ b ∷ c ∷ d ∷ [] in
      let first = wrap_at width room quad in
      let parts = written_parts k width room quad rest mem fits in
      let r = quad_room room a b c d h g in
      let one : write_quad_ptr (position k width room) a b c d mem ≡ written k width room quad mem =
        unfold write_quad_ptr in part room k a (b ∷ c ∷ d ∷ []) mem h g (omega arith) parts.1 in
      let next : write_bytes (position k width room) (a ∷ b ∷ c ∷ d ∷ rest) mem
          ≡ write_bytes (position (k + length first) width (room_after width room quad)) rest
              (stored k first mem) =
        rw (write_bytes_step (position k width room) a b c d rest mem, ◌>>=◌, one) refl in
      next
      ∙ write_bytes-wrap_at (room_after width room quad) (k + length first) rest
          (stored k first mem) r.0 r.1 parts.0
      ∙ parts.2

  -- Whole quads keep the room a multiple of four.
  pub quads_room :
      (room : ℕ) (text : List ℕ)
      → room ≤ width
      → room % 4 ≡ 0
      → length text % 4 ≡ 0
      → (room_after width room text ≤ width) × (room_after width room text % 4 ≡ 0)
  quads_room room [] h g l = unfold room_after in (h, g)
  quads_room room (a ∷ []) h g l = absurd (omega arith)
  quads_room room (a ∷ b ∷ []) h g l = absurd (omega arith)
  quads_room room (a ∷ b ∷ c ∷ []) h g l = absurd (omega arith)
  quads_room room (a ∷ b ∷ c ∷ d ∷ rest) h g l =
      let quad = a ∷ b ∷ c ∷ d ∷ [] in
      let r = quad_room room a b c d h g in
      rw (room_after-append width room quad rest)
        (quads_room (room_after width room quad) rest r.0 r.1 (omega arith))
