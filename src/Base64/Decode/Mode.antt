-- ===== src/Base64/Decode/Mode.antt =====
-- `decode_to_ptr_with_layout_mode` of base64/decode/api.rs decodes padded text.
use hashcodecs_rs.Common.{
  take_all, ℕ, zero, suc, ◌+◌, ◌-◌, ◌*◌, ◌/◌, ◌%◌, ◌≤◌, ◌≡◌, refl, ap, subst, ◌∙◌, sym, inl, inr,
  Option, none, some, Bool, false, List, [], ◌∷◌, ◌++◌, ltb, ◌==◌, length, arith, All,
  length-append, take-append, drop-append, Bool-cases, All-take, All-drop, append-nil,
}
use hashcodecs_rs.Word.{IsByte}
use hashcodecs_rs.Base64.Alphabet.{DecodeAlphabet, table_of}
use hashcodecs_rs.Base64.Output.{Memory, ok, Write, pure}
use hashcodecs_rs.Base64.Output.Laws.{stored-nil}
use hashcodecs_rs.Base64.Rfc4648.{quad, quads, short, decode, join}
use hashcodecs_rs.Base64.Decode.{
  DecodeLayout, ErrorWritePolicy, decode_to_ptr_with_layout_mode, decode_quad_ptr, padding_of,
}
use hashcodecs_rs.Base64.Decode.Blocks.{block_outcome, padded_two-block, padded_three-block}
use hashcodecs_rs.Base64.Decode.Entries.{IsTable}
use hashcodecs_rs.Base64.Decode.Loops.{block-Follows, Follows, Follows-along, body, body-Follows}
use hashcodecs_rs.Base64.Decode.Padding.{last_four, decode-append}

pub join-nil : (o : Option (List ℕ)) → join o (some []) ≡ o
join-nil none = refl
join-nil (some bytes) = ap some (append-nil bytes)

-- Without padding every group is a full quantum.
decode-quads :
    (table input : List ℕ)
    → length input % 4 ≡ 0
    → padding_of input ≡ 0
    → decode table input ≡ quads table input
unfolding decode quads padding_of
decode-quads table [] m p = refl
decode-quads table (a ∷ []) m p = absurd (omega arith)
decode-quads table (a ∷ b ∷ []) m p = absurd (omega arith)
decode-quads table (a ∷ b ∷ c ∷ []) m p = absurd (omega arith)
decode-quads table (a ∷ b ∷ c ∷ d ∷ []) m p =
    let e = sym (join-nil (quad table a b c d)) in ground (arith, e)
decode-quads table (a ∷ b ∷ c ∷ d ∷ e ∷ []) m p = absurd (omega arith)
decode-quads table (a ∷ b ∷ c ∷ d ∷ e ∷ f ∷ rest) m p =
    ap (join (quad table a b c d)) (decode-quads table (e ∷ f ∷ rest) (omega arith) p)

decode-last_three :
    (table : List ℕ) (a b c d : ℕ)
    → padding_of (last_four a b c d) ≡ 1
    → short table (a ∷ b ∷ c ∷ []) ≡ decode table (last_four a b c d)
unfolding decode padding_of
decode-last_three table a b c d e = ground arith

decode-last_two :
    (table : List ℕ) (a b c d : ℕ)
    → padding_of (last_four a b c d) ≡ 2
    → short table (a ∷ b ∷ []) ≡ decode table (last_four a b c d)
unfolding decode padding_of
decode-last_two table a b c d e = ground arith

pub padding-bound : (input : List ℕ) → padding_of input ≤ 2
unfolding padding_of
padding-bound [] = ground arith
padding-bound (a ∷ []) = ground arith
padding-bound (a ∷ b ∷ []) = ground arith
padding-bound (a ∷ b ∷ c ∷ rest) = padding-bound (b ∷ c ∷ rest)

module _ (alphabet : DecodeAlphabet) (slack : Bool) (policy : ErrorWritePolicy)
    (t : IsTable (table_of alphabet)) where
  abbrev table : List ℕ
  table = table_of alphabet

  abbrev mode : List ℕ → DecodeLayout → Write (Unit {0})
  mode input layout = decode_to_ptr_with_layout_mode input layout alphabet slack policy

  abbrev no_quad : ℕ → Write (Unit {0})
  no_quad destination = pure tt

  abbrev last_quad : List ℕ → ℕ → ℕ → Write (Unit {0})
  last_quad symbols padding destination = decode_quad_ptr symbols destination padding table

  mode_full :
      (input : List ℕ) (layout : DecodeLayout) (mem : Memory)
      → layout.padding ≡ 0
      → body table t no_quad tt 0 (some []) input 0 mem ≡ mode input layout mem
  unfolding decode_to_ptr_with_layout_mode
  mode_full input layout mem e =
      let whole = take_all (length input) input (omega arith) in
      elim (Bool-cases (ltb (length input) 16)) [
        | inl s ↦ rw (e, s, whole) refl
        | inr s ↦ rw (e, s, whole) refl
      ]

  mode_padded :
      (front : List ℕ) (a b c d p : ℕ) (layout : DecodeLayout) (mem : Memory)
      → layout.padding ≡ suc p
      → body table t (last_quad (last_four a b c d) (suc p)) tt 0 none front 0 mem
        ≡ mode (front ++ last_four a b c d) layout mem
  unfolding decode_to_ptr_with_layout_mode
  mode_padded front a b c d p layout mem e =
      let total = length-append front (last_four a b c d) in
      let rest : length (front ++ last_four a b c d) - 4 ≡ length front = omega (arith, total) in
      let head = take-append front (last_four a b c d) (length front) refl in
      let tail = drop-append front (last_four a b c d) (length front) refl in
      let test : (suc p == 0) ≡ false = ground arith in
      elim (Bool-cases (ltb (length front) 16)) [
        | inl s ↦ rw (e, test, rest, s, head, tail) refl
        | inr s ↦ rw (e, test, rest, s, head, tail) refl
      ]

  -- A layout without padding decodes full quanta, whatever the text ends in.
  pub quads-Follows :
      (input : List ℕ) (layout : DecodeLayout) (mem : Memory)
      → All IsByte input
      → length input % 4 ≡ 0
      → layout.padding ≡ 0
      → length input / 4 * 3 ≤ length mem
      → Follows 0 (length input / 4 * 3) mem (quads table input) tt (mode input layout mem)
  quads-Follows input layout mem h m q fits =
      Follows-along 0 mem tt (omega arith) (join-nil (quads table input))
        (mode_full input layout mem q)
        (body-Follows table t no_quad tt 0 (some []) input 0 (length input / 4 * 3) mem h m
          (omega arith) fits
          (λ mem' l. sym (ap (ok tt) (stored-nil (length input / 4 * 3) mem' (omega arith)))))

  pub full-Follows :
      (input : List ℕ) (layout : DecodeLayout) (mem : Memory)
      → All IsByte input
      → length input % 4 ≡ 0
      → padding_of input ≡ 0
      → layout.padding ≡ 0
      → length input / 4 * 3 ≤ length mem
      → Follows 0 (length input / 4 * 3) mem (decode table input) tt (mode input layout mem)
  full-Follows input layout mem h m p q fits =
      Follows-along 0 mem tt refl (sym (decode-quads table input m p)) refl
        (quads-Follows input layout mem h m q fits)

  -- The last quantum of padded text.
  last-Follows :
      (a b c d p k : ℕ) (mem : Memory)
      → All IsByte (last_four a b c d)
      → padding_of (last_four a b c d) ≡ suc p
      → k + (2 - p) ≤ length mem
      → Follows k
          (2 - p)
          mem
          (decode table (last_four a b c d))
          tt
          (last_quad (last_four a b c d) (suc p) k mem)
  last-Follows a b c d zero k mem (ha, (hb, (hc, (hd, _)))) e fits =
      block-Follows k 2 mem (decode table (last_four a b c d)) _ (omega arith) (
        padded_three-block table t a b c d k mem ha hb hc (omega arith)
        ∙ ap (block_outcome k mem) (decode-last_three table a b c d e))
  last-Follows a b c d (suc zero) k mem (ha, (hb, (hc, (hd, _)))) e fits =
      block-Follows k 1 mem (decode table (last_four a b c d)) _ (omega arith) (
        padded_two-block table t a b c d k mem ha hb (omega arith)
        ∙ ap (block_outcome k mem) (decode-last_two table a b c d e))
  last-Follows a b c d (suc (suc p)) k mem h e fits =
      absurd (omega (arith, padding-bound (last_four a b c d)))

  pub padded-Follows :
      (front : List ℕ) (a b c d p : ℕ) (layout : DecodeLayout) (mem : Memory)
      → All IsByte (front ++ last_four a b c d)
      → length front % 4 ≡ 0
      → padding_of (last_four a b c d) ≡ suc p
      → layout.padding ≡ suc p
      → length front / 4 * 3 + (2 - p) ≤ length mem
      → Follows 0
          (length front / 4 * 3 + (2 - p))
          mem
          (decode table (front ++ last_four a b c d))
          tt
          (mode (front ++ last_four a b c d) layout mem)
  padded-Follows front a b c d p layout mem h m e q fits =
      let j = length front / 4 * 3 in
      let n = length front in
      let whole = front ++ last_four a b c d in
      let hf : All IsByte front =
        subst (All IsByte) (take-append front (last_four a b c d) n refl)
          (All-take IsByte n whole h) in
      let hl : All IsByte (last_four a b c d) =
        subst (All IsByte) (drop-append front (last_four a b c d) n refl)
          (All-drop IsByte n whole h) in
      Follows-along 0 mem tt refl (sym (decode-append table front a b c d m))
        (mode_padded front a b c d p layout mem q)
        (body-Follows table t (last_quad (last_four a b c d) (suc p)) tt (2 - p)
          (decode table (last_four a b c d)) front 0 j mem hf m (omega arith) (omega arith)
          (λ mem' l. last-Follows a b c d p j mem' hl e (omega arith)))
