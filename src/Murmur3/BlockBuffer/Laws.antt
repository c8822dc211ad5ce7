-- ===== src/Murmur3/BlockBuffer/Laws.antt =====
-- What `consume` of murmur3/block_buffer.rs keeps: the state has mixed the full blocks of all bytes
-- so far, and the buffer holds the bytes behind them.
use native.Mathlib.Nat.{mod-add-div', mod-lt, add-mod, mul-mod_left, zero-mod, mod_self}
use hashcodecs_rs.Common.{
  ℕ, ◌+◌, ◌-◌, ◌*◌, ◌/◌, ◌%◌, ◌≤◌, ◌<◌, ◌≡◌, refl, ap, ◌∙◌, sym, subst, inl, inr, Bool-cases, some,
  true, false, List, [], ◌∷◌, ◌++◌, ◌>>=◌, ◌==◌, leb, ltb, if◌then◌else◌, min, arith, length, take,
  drop, take_all, drop_all, append-nil, append_assoc, length-append, length-take, length-drop,
  take-append-drop, take-append,
}
use hashcodecs_rs.Murmur3.BlockBuffer.{Mix, BlockBuffer, consume, consume_input}

-- A mixer of blocks of `n` bytes: it returns on whole blocks, one run after another.
pub record IsMixer {S : Type 0} (n : ℕ) (mix : Mix S) : Type 0 where
  pub nothing : (s : S) → mix [] s ≡ some s
  pub join : (xs ys : List ℕ) (s : S) → length xs % n ≡ 0 → mix (xs ++ ys) s ≡ (mix xs s >>= mix ys)
  pub total : (xs : List ℕ) (s : S) → length xs % n ≡ 0 → (s' : S) × (mix xs s ≡ some s')

pub record Holds {S : Type 0} (n : ℕ) (mix : Mix S) (start : S) (text : List ℕ)
    (p : S × BlockBuffer) : Type 0 where
  pub body : List ℕ
  pub rest : List ℕ
  pub whole : text ≡ body ++ rest
  pub blocks : length body % n ≡ 0
  pub short : length rest < n
  pub mixed : mix body start ≡ some p.0
  pub size : length p.1.bytes ≡ n
  pub len : p.1.len ≡ length rest
  pub kept : take (length rest) p.1.bytes ≡ rest

module _ (n : ℕ) (positive : 0 < n) {S : Type 0} (mix : Mix S) (m : IsMixer n mix) (start : S) where
  mixed_blocks : (xs : List ℕ) (s : S) → (if length xs == 0 then some s else mix xs s) ≡ mix xs s
  mixed_blocks [] s = sym (m.nothing s)
  mixed_blocks (x ∷ xs) s = ground arith

  whole_append :
      (xs ys : List ℕ) → length xs % n ≡ 0 → length ys % n ≡ 0 → length (xs ++ ys) % n ≡ 0
  whole_append xs ys hx hy =
      rw (length-append xs ys, add-mod (length xs) (length ys) n, hx, hy) (zero-mod n)

  -- The run of `consume_input` on a buffer of the right size.
  consume_input-runs :
      (input bytes : List ℕ) (s s' : S)
      → length bytes ≡ n
      → mix (take (length input / n * n) input) s ≡ some s'
      → let remaining = drop (length input / n * n) input in
        consume_input n input mix s bytes
        ≡ some (
          s',
          record { bytes = remaining ++ drop (length remaining) bytes; len = length remaining },
        )
  unfolding consume_input
  consume_input-runs input bytes s s' size mixed =
      let k = length input / n * n in
      let total = mod-add-div' (length input) n in
      let below = mod-lt (length input) positive in
      let not_zero : (n == 0) ≡ false = ground arith in
      let fits : leb (0 + length (drop k input)) (length bytes) ≡ true =
        ground (arith, length-drop k input) in
      rw (not_zero, mixed_blocks (take k input) s, mixed, fits) (ground arith)

  pub consume_input-Holds :
      (body input bytes : List ℕ) (s : S)
      → length body % n ≡ 0
      → mix body start ≡ some s
      → length bytes ≡ n
      → (p : S × BlockBuffer) × (consume_input n input mix s bytes ≡ some p)
        × Holds n mix start (body ++ input) p
  consume_input-Holds body input bytes s w e size =
      let k = length input / n * n in
      let blocks = take k input in
      let remaining = drop k input in
      let total = mod-add-div' (length input) n in
      let below = mod-lt (length input) positive in
      let blocks_size : length blocks ≡ k = omega (arith, length-take k input) in
      let short : length remaining < n = omega (arith, length-drop k input) in
      let whole : length blocks % n ≡ 0 =
        ap (λ i. i % n) blocks_size ∙ mul-mod_left (length input / n) n in
      let (s', mixed) = m.total blocks s whole in
      let bytes' = remaining ++ drop (length remaining) bytes in
      let kept = take-append remaining (drop (length remaining) bytes) (length remaining) refl in
      (
        (s', record { bytes = bytes'; len = length remaining }),
        consume_input-runs input bytes s s' size mixed,
        record {
          body = body ++ blocks;
          rest = remaining;
          whole =
              ap (λ t. body ++ t) (sym (take-append-drop k input))
              ∙ sym (append_assoc body blocks remaining);
          blocks = whole_append body blocks w whole;
          short = short;
          mixed = m.join body blocks start w ∙ rw e mixed;
          size = omega (
            arith,
            length-append remaining (drop (length remaining) bytes),
            length-drop (length remaining) bytes,
          );
          len = refl;
          kept = kept;
        },
      )

  -- What `consume` does with a block begun: it copies what fits.
  consume-copies :
      (bytes input : List ℕ) (len : ℕ) (s : S)
      → 0 < len
      → len < n
      → length bytes ≡ n
      → let copied = min (n - len) (length input) in
        let bytes' =
          take len bytes ++ (take copied input ++ drop (len + length (take copied input)) bytes) in
        consume n (record { bytes = bytes; len = len }) input mix s ≡ (
          if len + copied == n
          then (mix bytes' s >>= λ s'. consume_input n (drop copied input) mix s' bytes')
          else some (s, record { bytes = bytes'; len = len + copied }))
  unfolding consume
  consume-copies bytes input len s p short size =
      let copied = min (n - len) (length input) in
      let begun : (len == 0) ≡ false = ground arith in
      let below : leb len n ≡ true = ground arith in
      let fits : leb (len + length (take copied input)) (length bytes) ≡ true =
        ground (arith, length-take copied input) in
      rw (begun, below, fits) refl

  empty_buffer :
      (bytes input : List ℕ) (s : S)
      → consume n (record { bytes = bytes; len = 0 }) input mix s
        ≡ consume_input n input mix s bytes
  unfolding consume
  empty_buffer bytes input s = refl

  nil_of : (xs : List ℕ) → length xs ≡ 0 → xs ≡ []
  nil_of [] h = refl
  nil_of (x ∷ xs) h = absurd (omega arith)

  module _ (body rest input bytes : List ℕ) (s : S) (w : length body % n ≡ 0)
      (short : length rest < n) (e : mix body start ≡ some s) (size : length bytes ≡ n)
      (kept : take (length rest) bytes ≡ rest) where
    -- A buffer that is not yet full.
    filling :
        0 < length rest
        → length rest + length input < n
        → (p : S × BlockBuffer) × (consume n
              (record { bytes = bytes; len = length rest })
              input
              mix
              s
            ≡ some p)
          × Holds n mix start (body ++ (rest ++ input)) p
    filling b h =
        let all : min (n - length rest) (length input) ≡ length input = omega arith in
        let behind = drop (length rest + length input) bytes in
        let bytes' = rest ++ (input ++ behind) in
        let open_ : (length rest + length input == n) ≡ false = ground arith in
        let cells = append_assoc rest input behind in
        let n_rest = length-append rest input in
        (
          (s, record { bytes = bytes'; len = length rest + length input }),
          consume-copies bytes input (length rest) s b short size
              ∙ rw (all, take_all (length input) input (omega arith), kept, open_) refl,
          record {
            body = body;
            rest = rest ++ input;
            whole = refl;
            blocks = w;
            short = omega arith;
            mixed = e;
            size = omega (
              arith,
              length-append rest (input ++ behind),
              length-append input behind,
              length-drop (length rest + length input) bytes,
            );
            len = sym n_rest;
            kept =
                ap (take (length (rest ++ input))) (sym cells)
                ∙ take-append (rest ++ input) behind (length (rest ++ input)) refl;
          },
        )

    full-runs :
        0 < length rest
        → n ≤ length rest + length input
        → let needed = n - length rest in
          let block = rest ++ take needed input in
          consume n (record { bytes = bytes; len = length rest }) input mix s
          ≡ (mix block s >>= λ s'. consume_input n (drop needed input) mix s' block)
    full-runs b h =
        let needed = n - length rest in
        let first = take needed input in
        let all : min needed (length input) ≡ needed = omega arith in
        let none_left : drop (length rest + length first) bytes ≡ [] =
          drop_all (length rest + length first) bytes (omega (arith, length-take needed input)) in
        let closed : (length rest + needed == n) ≡ true = ground arith in
        consume-copies bytes input (length rest) s b short size
        ∙ rw (all, none_left, append-nil, kept, closed) refl

    full :
        0 < length rest
        → n ≤ length rest + length input
        → (p : S × BlockBuffer) × (consume n
              (record { bytes = bytes; len = length rest })
              input
              mix
              s
            ≡ some p)
          × Holds n mix start (body ++ (rest ++ input)) p
    full b h =
        let needed = n - length rest in
        let first = take needed input in
        let block = rest ++ first in
        let size_block : length block ≡ n =
          omega (arith, length-append rest first, length-take needed input) in
        let w' : length block % n ≡ 0 = ap (λ i. i % n) size_block ∙ mod_self n in
        let (s', mixed) = m.total block s w' in
        let (q, runs, holds) =
          consume_input-Holds (body ++ block) (drop needed input) block s'
            (whole_append body block w w') (m.join body block start w ∙ rw e mixed) size_block in
        let text : (body ++ block) ++ drop needed input ≡ body ++ (rest ++ input) =
          append_assoc body block (drop needed input)
          ∙ ap (λ t. body ++ t)
              (append_assoc rest first (drop needed input)
                ∙ ap (λ t. rest ++ t) (take-append-drop needed input)) in
        (q, full-runs b h ∙ (rw mixed runs), subst (λ t. Holds n mix start t q) text holds)

    -- Every case.
    consumed :
        (p : S × BlockBuffer) × (consume n (record { bytes = bytes; len = length rest }) input mix s
          ≡ some p)
        × Holds n mix start (body ++ (rest ++ input)) p
    consumed = elim (Bool-cases (length rest == 0)) [
      | inl z ↦
          let z' : length rest ≡ 0 = ground arith in
          let (q, runs, holds) = consume_input-Holds body input bytes s w e size in
          (
            q,
            ap (λ k. consume n (record { bytes = bytes; len = k }) input mix s) z'
                ∙ (empty_buffer bytes input s ∙ runs),
            subst (λ r. Holds n mix start (body ++ (r ++ input)) q) (sym (nil_of rest z')) holds,
          )
      | inr z ↦ elim (Bool-cases (ltb (length rest + length input) n)) [
        | inl h ↦ filling (ground arith) (ground arith)
        | inr h ↦ full (ground arith) (ground arith)
      ]
    ]

  -- `consume` adds its input to the text, whatever the buffer holds: it never panics.
  pub consume-Holds :
      (text input : List ℕ) (p : S × BlockBuffer)
      → Holds n mix start text p
      → (q : S × BlockBuffer) × (consume n p.1 input mix p.0 ≡ some q)
        × Holds n mix start (text ++ input) q
  consume-Holds text input p h =
      let run = consumed h.body h.rest input p.1.bytes p.0 h.blocks h.short h.mixed h.size h.kept in
      let (q, runs, holds) = run in
      (
        q,
        ap (λ k. consume n (record { bytes = p.1.bytes; len = k }) input mix p.0) h.len ∙ runs,
        subst (λ t. Holds n mix start t q)
            (sym (append_assoc h.body h.rest input) ∙ ap (λ t. t ++ input) (sym h.whole)) holds,
      )
