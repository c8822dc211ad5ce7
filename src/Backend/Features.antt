-- ===== src/Backend/Features.antt =====
-- The feature bits of backend.rs do not overlap: what is set from flags is what is read.
use hashcodecs_rs.Common.{
  ℕ, ◌<◌, ◌≡◌, refl, sym, ap, ◌∙◌, Bool, true, false, ◌&&◌, ◌||◌, not, List, [], ◌∷◌, ◌==◌, arith,
}
use hashcodecs_rs.Common.Tables.{passes_below, passes_below_at}
use hashcodecs_rs.Word.{bit_and, bit_or, bit_or-lt}
use hashcodecs_rs.Backend.{
  CpuFeature, neon, ssse3, sse41, avx2, avx512_f, avx512_bw, avx512_vbmi, bmi2, bit, supports,
  set_features, from_feature_flags,
}

abbrev all_features : List CpuFeature
all_features = neon ∷ ssse3 ∷ sse41 ∷ avx2 ∷ avx512_f ∷ avx512_bw ∷ avx512_vbmi ∷ bmi2 ∷ []

-- Equality of features, by their names.
abbrev pub same : CpuFeature → CpuFeature → Bool
same neon neon = true
same ssse3 ssse3 = true
same sse41 sse41 = true
same avx2 avx2 = true
same avx512_f avx512_f = true
same avx512_bw avx512_bw = true
same avx512_vbmi avx512_vbmi = true
same bmi2 bmi2 = true
same _ _ = false

-- Some flag of the list sets `g`.
abbrev pub sets : CpuFeature → List (CpuFeature × Bool) → Bool
sets g [] = false
sets g ((f, on) ∷ flags) = (on && same f g) || sets g flags

abbrev agree : Bool → Bool → Bool
agree true b = b
agree false b = not b

abbrev each : (CpuFeature → Bool) → Bool
each p =
    p neon
    && (p ssse3
        && (p sse41 && (p avx2 && (p avx512_f && (p avx512_bw && (p avx512_vbmi && p bmi2))))))

abbrev reads : ℕ → CpuFeature → Bool
reads x g = not (bit_and x (bit g) == 0)

abbrev table : ℕ → Bool
table x = each (λ f. each (λ g. agree (reads (bit_or x (bit f)) g) (same f g || reads x g)))

abbrev total : ℕ
total = 256

table_ok : passes_below table total ≡ true
unfolding passes_below bit
table_ok = refl

each-at : (p : CpuFeature → Bool) → each p ≡ true → (f : CpuFeature) → p f ≡ true
each-at p all neon = ground arith
each-at p all ssse3 = ground arith
each-at p all sse41 = ground arith
each-at p all avx2 = ground arith
each-at p all avx512_f = ground arith
each-at p all avx512_bw = ground arith
each-at p all avx512_vbmi = ground arith
each-at p all bmi2 = ground arith

agree-eq : (b c : Bool) → agree b c ≡ true → b ≡ c
agree-eq true c h = sym h
agree-eq false false h = refl
agree-eq false true h = h

reads-bit_or :
    (x : ℕ) → x < 256 → (f g : CpuFeature) → reads (bit_or x (bit f)) g ≡ (same f g || reads x g)
reads-bit_or x less f g = agree-eq (reads (bit_or x (bit f)) g) (same f g || reads x g) (
    each-at (λ g. agree (reads (bit_or x (bit f)) g) (same f g || reads x g))
      (each-at (λ f. each (λ g. agree (reads (bit_or x (bit f)) g) (same f g || reads x g)))
        (passes_below_at table total table_ok x less) f)
      g)

bit-lt : (f : CpuFeature) → bit f < 256
unfolding bit
bit-lt neon = omega arith
bit-lt ssse3 = omega arith
bit-lt sse41 = omega arith
bit-lt avx2 = omega arith
bit-lt avx512_f = omega arith
bit-lt avx512_bw = omega arith
bit-lt avx512_vbmi = omega arith
bit-lt bmi2 = omega arith

or_false : (b : Bool) → (b || false) ≡ b
or_false true = refl
or_false false = refl

shuffle : (a b c : Bool) → ((a || b) || c) ≡ (b || (a || c))
shuffle true true c = refl
shuffle true false c = refl
shuffle false b c = refl

reads-set_features :
    (flags : List (CpuFeature × Bool)) (x : ℕ)
    → x < 256
    → (g : CpuFeature) → reads (set_features x flags) g ≡ (reads x g || sets g flags)
unfolding set_features
reads-set_features [] x less g = sym (or_false (reads x g))
reads-set_features ((f, false) ∷ flags) x less g = reads-set_features flags x less g
reads-set_features ((f, true) ∷ flags) x less g =
    reads-set_features flags (bit_or x (bit f)) (bit_or-lt 8 x (bit f) less (bit-lt f)) g
    ∙ ap (λ b. b || sets g flags) (reads-bit_or x less f g)
    ∙ shuffle (same f g) (reads x g) (sets g flags)

reads-none : (g : CpuFeature) → reads 0 g ≡ false
unfolding bit
reads-none neon = refl
reads-none ssse3 = refl
reads-none sse41 = refl
reads-none avx2 = refl
reads-none avx512_f = refl
reads-none avx512_bw = refl
reads-none avx512_vbmi = refl
reads-none bmi2 = refl

-- For all flags and every feature, the capabilities made of the flags support the feature exactly
-- when some flag sets it.
pub supports-from_feature_flags :
    (flags : List (CpuFeature × Bool)) (feature : CpuFeature)
    → supports (from_feature_flags flags) feature ≡ sets feature flags
unfolding supports from_feature_flags
supports-from_feature_flags flags feature =
    reads-set_features flags 0 (omega arith) feature
    ∙ ap (λ b. b || sets feature flags) (reads-none feature)
