-- ===== src/Backend/Selection.antt =====
-- The selectors of backends: what they choose the processor supports, and nothing better is.
use hashcodecs_rs.Common.{ℕ, ◌≤◌, ◌≡◌, refl, some, Bool, true, false, arith, if◌then◌else◌}
use hashcodecs_rs.Backend.{
  avx2, sse41, ssse3, avx512_f, Capabilities, supports, Backend, scalar_backend, neon_backend,
  ssse3_backend, sse41_backend, avx2_backend, avx512_vbmi_backend, required, supports_all, find,
  supports_backend, select_backend, X86Backend, x86_scalar, x86_ssse3, x86_avx2, x86_avx512,
  x86_backend_supported, select_x86_backend, MurmurBackend, murmur_scalar, murmur_sse41,
  murmur_avx2, select_x86_32_backend, select_x86_128_backend, select_x64_128_backend,
}

-- The place of a backend in the order of preference.
abbrev pub rank : Backend → ℕ
rank scalar_backend = 0
rank neon_backend = 1
rank ssse3_backend = 2
rank sse41_backend = 3
rank avx2_backend = 4
rank avx512_vbmi_backend = 5

abbrev pub x86_rank : X86Backend → ℕ
x86_rank x86_scalar = 0
x86_rank x86_ssse3 = 1
x86_rank x86_avx2 = 2
x86_rank x86_avx512 = 3

supports_scalar : (cap : Capabilities) → supports_backend cap scalar_backend ≡ true
unfolding supports_backend required supports_all
supports_scalar cap = refl

abbrev NotBetter : Capabilities → Backend → Backend → Type 0
NotBetter cap selected backend = supports_backend cap backend ≡ true → rank backend ≤ rank selected

not_better : (cap : Capabilities) (backend : Backend) → NotBetter cap (select_backend cap) backend
unfolding select_backend find
not_better cap scalar_backend h = ground arith
not_better cap neon_backend h = ground arith
not_better cap ssse3_backend h = ground arith
not_better cap sse41_backend h = ground arith
not_better cap avx2_backend h = ground arith
not_better cap avx512_vbmi_backend h = ground arith

-- For all capabilities and every Base64 backend that they support, they support the selected
-- backend, and it is preferred at least as much.
pub select_backend_best :
    (cap : Capabilities) (backend : Backend)
    → supports_backend cap backend ≡ true
    → (supports_backend cap (select_backend cap) ≡ true)
      × (rank backend ≤ rank (select_backend cap))
unfolding select_backend find
select_backend_best cap backend h = (ground (arith, supports_scalar cap), not_better cap backend h)

-- What three tests choose.
first_backend :
    (avx512 avx2 ssse3 : Bool)
    → (selected : X86Backend) × ((if avx512
          then some x86_avx512
          else if avx2
          then some x86_avx2
          else if ssse3
          then some x86_ssse3
          else some x86_scalar)
        ≡ some selected)
first_backend true b c = (x86_avx512, refl)
first_backend false true c = (x86_avx2, refl)
first_backend false false true = (x86_ssse3, refl)
first_backend false false false = (x86_scalar, refl)

x86_supported :
    (cap : Capabilities) (selected : X86Backend)
    → select_x86_backend cap ≡ some selected
    → x86_backend_supported cap selected ≡ true
unfolding select_x86_backend find x86_backend_supported
x86_supported cap x86_scalar eq = refl
x86_supported cap x86_ssse3 eq = ground arith
x86_supported cap x86_avx2 eq = ground arith
x86_supported cap x86_avx512 eq = ground arith

x86_not_better :
    (cap : Capabilities) (selected backend : X86Backend)
    → select_x86_backend cap ≡ some selected
    → x86_backend_supported cap backend ≡ true
    → x86_rank backend ≤ x86_rank selected
unfolding select_x86_backend find x86_backend_supported
x86_not_better cap x86_scalar x86_scalar eq h = ground arith
x86_not_better cap x86_scalar x86_ssse3 eq h = ground arith
x86_not_better cap x86_scalar x86_avx2 eq h = ground arith
x86_not_better cap x86_scalar x86_avx512 eq h = ground arith
x86_not_better cap x86_ssse3 x86_scalar eq h = ground arith
x86_not_better cap x86_ssse3 x86_ssse3 eq h = ground arith
x86_not_better cap x86_ssse3 x86_avx2 eq h = ground arith
x86_not_better cap x86_ssse3 x86_avx512 eq h = ground arith
x86_not_better cap x86_avx2 x86_scalar eq h = ground arith
x86_not_better cap x86_avx2 x86_ssse3 eq h = ground arith
x86_not_better cap x86_avx2 x86_avx2 eq h = ground arith
x86_not_better cap x86_avx2 x86_avx512 eq h = ground arith
x86_not_better cap x86_avx512 x86_scalar eq h = ground arith
x86_not_better cap x86_avx512 x86_ssse3 eq h = ground arith
x86_not_better cap x86_avx512 x86_avx2 eq h = ground arith
x86_not_better cap x86_avx512 x86_avx512 eq h = ground arith

-- For all capabilities and every x86 backend of XXH3 that they support, the selector does not
-- panic, the capabilities support what it selects, and that is preferred at least as much.
pub select_x86_backend_best :
    (cap : Capabilities) (backend : X86Backend)
    → x86_backend_supported cap backend ≡ true
    → (selected : X86Backend) × (select_x86_backend cap ≡ some selected)
      × (x86_backend_supported cap selected ≡ true)
      × (x86_rank backend ≤ x86_rank selected)
unfolding select_x86_backend find x86_backend_supported
select_x86_backend_best cap backend h =
    let (selected, eq) : (selected : X86Backend) × (select_x86_backend cap ≡ some selected) =
      first_backend (supports cap avx512_f) (supports cap avx2) (supports cap ssse3) in
    (selected, eq, x86_supported cap selected eq, x86_not_better cap selected backend eq h)

-- The features that a MurmurHash3 backend needs.
abbrev pub available : Capabilities → MurmurBackend → Bool
available cap murmur_scalar = true
available cap murmur_sse41 = supports cap sse41
available cap murmur_avx2 = supports cap avx2

-- The length from which a backend is used, where SSE4.1 and AVX2 have the given ones.
abbrev pub least_length : ℕ → ℕ → MurmurBackend → ℕ
least_length sse41_min avx2_min murmur_scalar = 0
least_length sse41_min avx2_min murmur_sse41 = sse41_min
least_length sse41_min avx2_min murmur_avx2 = avx2_min

-- For every length and all capabilities, they support the three selected MurmurHash3 backends, and
-- the length is at least the one from which each is used.
pub murmur3_selectors_sound :
    (len : ℕ) (cap : Capabilities)
    → (available cap (select_x86_32_backend len cap) ≡ true)
      × (available cap (select_x86_128_backend len cap) ≡ true)
      × (available cap (select_x64_128_backend len cap) ≡ true)
      × (least_length 16 32 (select_x86_32_backend len cap) ≤ len)
      × (least_length 16777216 128 (select_x86_128_backend len cap) ≤ len)
      × (least_length 512 512 (select_x64_128_backend len cap) ≤ len)
unfolding select_x86_32_backend select_x86_128_backend select_x64_128_backend
murmur3_selectors_sound len cap =
    (ground arith, ground arith, ground arith, ground arith, ground arith, ground arith)
