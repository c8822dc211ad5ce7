-- ===== src/Bindings/Staging/Holds.antt =====
-- What the staging writer of src/bindings/base64/staging.rs holds between its calls, and its `flush`.
use hashcodecs_rs.Common.{
  ℕ, ◌+◌, ◌*◌, ◌/◌, ◌%◌, ◌≤◌, ◌<◌, ◌≡◌, ◌≢◌, refl, ap, ap₂, ◌∙◌, sym, subst, Option, none, some,
  Bool, List, [], ◌∷◌, ◌++◌, length, drop, arith, All, append-nil, length-append, length-drop,
}
use hashcodecs_rs.Word.{IsByte}
use hashcodecs_rs.Base64.Alphabet.{standard_decode}
use hashcodecs_rs.Base64.Alphabet.Tables.{at}
use hashcodecs_rs.Base64.Output.{Memory, ok, ◌>>=◌, stored}
use hashcodecs_rs.Base64.Output.Laws.{length-stored, stored-stored}
use hashcodecs_rs.Base64.Rfc4648.{decode_unpadded, join}
use hashcodecs_rs.Base64.Encode.{usize_mod}
use hashcodecs_rs.Base64.Unpadded.Laws.{tail_bytes, unpadded_len, length-decode_unpadded}
use hashcodecs_rs.Base64.Unpadded.Blocks.{Symbols}
use hashcodecs_rs.Bindings.Scan.{translate}
use hashcodecs_rs.Bindings.Translation.{Translation, apply}
use hashcodecs_rs.Bindings.Staging.{StagingWriter, apply_all, decode_staging, flush}
use hashcodecs_rs.Bindings.Staging.Blocks.{
  decode_staging-runs, on_suffix-stored, decode_unpadded-append, length-apply_all,
}

pub apply_all-nil : (t : Option Translation) → apply_all t [] ≡ []
unfolding apply_all apply translate
apply_all-nil none = refl
apply_all-nil (some t) = refl

-- Symbols of the standard alphabet.
abbrev pub Valid : List ℕ → Type 0
Valid xs = All IsByte xs × Symbols standard_decode xs

-- The output of `n` symbols.
abbrev pub size : ℕ → ℕ
size n = n / 4 * 3 + tail_bytes (n % 4)

pub size_mono : (m n : ℕ) → m ≤ n → size m ≤ size n
size_mono m n h = ground arith

All-behind : (P : ℕ → Type 0) (xs ys : List ℕ) → All P (xs ++ ys) → All P ys
All-behind P [] ys h = h
All-behind P (x ∷ xs) ys h = All-behind P xs ys h.1

Valid-behind : (xs ys : List ℕ) → Valid (xs ++ ys) → Valid ys
Valid-behind xs ys v =
    (All-behind IsByte xs ys v.0, All-behind (λ c. at standard_decode c < 64) xs ys v.1)

All-front : (P : ℕ → Type 0) (xs ys : List ℕ) → All P (xs ++ ys) → All P xs
All-front P [] ys h = tt
All-front P (x ∷ xs) ys h = (h.0, All-front P xs ys h.1)

pub Valid-front : (xs ys : List ℕ) → Valid (xs ++ ys) → Valid xs
Valid-front xs ys v =
    (All-front IsByte xs ys v.0, All-front (λ c. at standard_decode c < 64) xs ys v.1)

whole_size : (xs : List ℕ) → length xs % 4 ≡ 0 → unpadded_len xs ≡ length xs / 4 * 3
whole_size xs e = ground arith

module _ (t : Option Translation) (base : Memory) where
  -- The writer has written the whole quanta of the symbols, and keeps the others.
  pub record Holds (self : StagingWriter) (symbols : List ℕ) (mem : Memory) : Type 0 where
    pub flushed : List ℕ
    pub bytes : List ℕ
    pub same : self.translation ≡ t
    pub split : symbols ≡ flushed ++ apply_all t self.staging
    pub whole : length flushed % 4 ≡ 0
    pub decoded : decode_unpadded standard_decode flushed ≡ some bytes
    pub memory : mem ≡ stored 0 bytes base
    pub count : self.written ≡ length bytes

  flush_block :
      (checked : Bool) (self : StagingWriter) (block front bytes : List ℕ)
      → apply_all self.translation self.staging ≡ block
      → self.written ≡ length front
      → length bytes ≡ unpadded_len block
      → length front + length bytes ≤ length base
      → decode_staging checked block (drop (length front) (stored 0 front base))
        ≡ ok (unpadded_len block) (stored 0 bytes (drop (length front) (stored 0 front base)))
      → flush checked self (stored 0 front base)
        ≡ ok
            (record self { written = length (front ++ bytes); staging = [] })
            (stored 0 (front ++ bytes) base)
  unfolding flush
  flush_block checked self block front bytes same count l fits r =
      let k = length front in
      let kept : length (stored 0 front base) ≡ length base =
        length-stored 0 front base (omega arith) in
      let place : self.written + unpadded_len block ≡ length (front ++ bytes) =
        omega (arith, length-append front bytes) in
      let both : stored k bytes (stored 0 front base) ≡ stored 0 (front ++ bytes) base =
        ap (λ i. stored i bytes (stored 0 front base)) (omega arith)
        ∙ stored-stored 0 front bytes base (omega arith) in
      rw (same, count, ◌>>=◌)
        (rw
          (
            on_suffix-stored k (decode_staging checked block) (unpadded_len block) bytes
                (stored 0 front base) (omega arith) r,
            place,
            both,
          )
          refl)

  pub flush-runs :
      (checked : Bool) (self : StagingWriter) (symbols : List ℕ) (mem : Memory)
      → Holds self symbols mem
      → Valid symbols
      → length symbols % 4 ≢ 1
      → size (length symbols) ≤ length base
      → length self.staging < usize_mod
      → (bytes : List ℕ) × (decode_unpadded standard_decode symbols ≡ some bytes)
        × (flush checked self mem
            ≡ ok (record self { written = length bytes; staging = [] }) (stored 0 bytes base))
  flush-runs checked self symbols mem h v m fits counted =
      let block = apply_all t self.staging in
      let k = length h.bytes in
      let n : length block ≡ length self.staging = length-apply_all t self.staging in
      let total : length symbols ≡ length h.flushed + length block =
        ap length h.split ∙ length-append h.flushed block in
      let front : k ≡ length h.flushed / 4 * 3 =
        length-decode_unpadded standard_decode h.flushed h.bytes h.decoded
        ∙ whole_size h.flushed h.whole in
      let rest : length symbols % 4 ≡ length block % 4 = omega (arith, h.whole) in
      let parts : size (length symbols) ≡ k + unpadded_len block =
        let same_tail : tail_bytes (length symbols % 4) ≡ tail_bytes (length block % 4) =
          ap tail_bytes rest in
        omega (arith, h.whole) in
      let inside : k ≤ length base = omega arith in
      let mem' = stored 0 h.bytes base in
      let kept : length mem' ≡ length base = length-stored 0 h.bytes base (omega arith) in
      let v' = Valid-behind h.flushed block (subst Valid h.split v) in
      conclude block (sym (ap (λ x. apply_all x self.staging) (sym h.same)))
        (decode_staging-runs block v'.0 v'.1 (λ q. m (omega arith)) checked (drop k mem')
          (omega (arith, length-drop k mem')) (omega arith))
        h.split (omega arith)
    where
      k : ℕ
      k = length h.bytes

      mem0 : Memory
      mem0 = stored 0 h.bytes base

      conclude :
          (block : List ℕ)
          → apply_all self.translation self.staging ≡ block
          → ((bytes : List ℕ) × (decode_unpadded standard_decode block ≡ some bytes)
              × (decode_staging checked block (drop k mem0)
                  ≡ ok (unpadded_len block) (stored 0 bytes (drop k mem0))))
          → symbols ≡ h.flushed ++ block
          → k + unpadded_len block ≤ length base
          → (bytes : List ℕ) × (decode_unpadded standard_decode symbols ≡ some bytes)
            × (flush checked self mem
                ≡ ok (record self { written = length bytes; staging = [] }) (stored 0 bytes base))
      conclude block same (bytes, e, r) split room =
          let l = length-decode_unpadded standard_decode block bytes e in
          (
            h.bytes ++ bytes,
            ap (decode_unpadded standard_decode) split
                ∙ decode_unpadded-append standard_decode h.flushed block h.whole
                ∙ ap₂ join h.decoded e,
            ap (flush checked self) h.memory
                ∙ flush_block checked self block h.bytes bytes same h.count l (omega arith) r,
          )

  -- Nothing is pending.
  pub all_flushed :
      (self : StagingWriter) (symbols bytes : List ℕ)
      → self.translation ≡ t
      → self.staging ≡ []
      → length symbols % 4 ≡ 0
      → decode_unpadded standard_decode symbols ≡ some bytes
      → self.written ≡ length bytes
      → Holds self symbols (stored 0 bytes base)
  all_flushed self symbols bytes same none_left whole decoded count = record {
    flushed = symbols;
    bytes = bytes;
    same = same;
    split = sym (
        ap (λ s. symbols ++ apply_all t s) none_left
        ∙ ap (λ s. symbols ++ s) (apply_all-nil t)
        ∙ append-nil symbols);
    whole = whole;
    decoded = decoded;
    memory = refl;
    count = count;
  }
