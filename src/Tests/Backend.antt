-- ===== src/Tests/Backend.antt =====
-- Runs of the backend selectors, and examples of their theorems.
use hashcodecs_rs.Common.{◌≤◌, ◌≡◌, refl, some, true, false, [], ◌∷◌}
use hashcodecs_rs.Backend
use hashcodecs_rs.Backend.{
  CpuFeature, avx2, sse41, ssse3, neon, Capabilities, supports, from_feature_flags,
  x86_capabilities_from_feature_flags, supports_backend, select_backend, X86Backend, x86_avx2,
  x86_ssse3, x86_backend_supported, ssse3_backend, x86_ssse3, supports_backend, X86Backend,
  select_x86_32_backend, select_x86_128_backend, select_x64_128_backend, select_x86_backend,
  murmur_scalar, murmur_sse41, select_x86_32_backend, select_x86_128_backend,
  select_x64_128_backend, sse41_backend, avx2_backend,
}
use hashcodecs_rs.Backend.Features.{sets, supports-from_feature_flags}
use hashcodecs_rs.Backend.Selection.{
  rank, x86_rank, available, least_length, select_backend_best, select_x86_backend_best,
  murmur3_selectors_sound,
}

-- A processor with SSSE3, SSE4.1 and AVX2.
abbrev haswell : Capabilities
haswell = x86_capabilities_from_feature_flags false false false true true true true

backend_of_haswell : select_backend haswell ≡ avx2_backend
unfolding select_backend x86_capabilities_from_feature_flags Backend.find supports_backend
    Backend.supports_all Backend.required supports from_feature_flags Backend.set_features
    Backend.bit
backend_of_haswell = refl

x86_backend_of_haswell : select_x86_backend haswell ≡ some x86_avx2
unfolding select_x86_backend x86_capabilities_from_feature_flags Backend.find x86_backend_supported
    supports from_feature_flags Backend.set_features Backend.bit
x86_backend_of_haswell = refl

supports-from_feature_flags_example :
    supports (from_feature_flags ((avx2, true) ∷ (sse41, false) ∷ [])) sse41
    ≡ sets sse41 ((avx2, true) ∷ (sse41, false) ∷ [])
supports-from_feature_flags_example =
    supports-from_feature_flags ((avx2, true) ∷ (sse41, false) ∷ []) sse41

supports_backend-haswell : supports_backend haswell ssse3_backend ≡ true
unfolding supports_backend x86_capabilities_from_feature_flags Backend.supports_all Backend.required
    supports from_feature_flags Backend.set_features Backend.bit
supports_backend-haswell = refl

x86_backend_supported-haswell : x86_backend_supported haswell x86_ssse3 ≡ true
unfolding x86_backend_supported x86_capabilities_from_feature_flags supports from_feature_flags
    Backend.set_features Backend.bit
x86_backend_supported-haswell = refl

select_backend_best_example :
    (supports_backend haswell (select_backend haswell) ≡ true)
    × (rank ssse3_backend ≤ rank (select_backend haswell))
select_backend_best_example = select_backend_best haswell ssse3_backend supports_backend-haswell

select_x86_backend_best_example :
    (selected : X86Backend) × (select_x86_backend haswell ≡ some selected)
    × (x86_backend_supported haswell selected ≡ true)
    × (x86_rank x86_ssse3 ≤ x86_rank selected)
select_x86_backend_best_example =
    select_x86_backend_best haswell x86_ssse3 x86_backend_supported-haswell

murmur3_selectors_sound_example :
    (available haswell (select_x86_32_backend 20 haswell) ≡ true)
    × (available haswell (select_x86_128_backend 20 haswell) ≡ true)
    × (available haswell (select_x64_128_backend 20 haswell) ≡ true)
    × (least_length 16 32 (select_x86_32_backend 20 haswell) ≤ 20)
    × (least_length 16777216 128 (select_x86_128_backend 20 haswell) ≤ 20)
    × (least_length 512 512 (select_x64_128_backend 20 haswell) ≤ 20)
murmur3_selectors_sound_example = murmur3_selectors_sound 20 haswell
