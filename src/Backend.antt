-- ===== src/Backend.antt =====
-- backend.rs: CPU features as bits; and the backend selectors of base64/backend.rs,
-- murmur3/dispatch.rs and xxhash/long_inputs/long_engine.rs, which the builds for x86 and AArch64 ask.
pub mod Features
pub mod Selection
use hashcodecs_rs.Common.{
  ℕ, ◌^◌, Option, none, some, Bool, true, false, ◌&&◌, not, List, [], ◌∷◌, leb, ◌==◌, if◌then◌else◌,
}
use hashcodecs_rs.Word.{bit_and, bit_or}

pub data CpuFeature : Type 0 where
  neon ssse3 sse41 avx2 avx512_f avx512_bw avx512_vbmi bmi2 : CpuFeature

unfoldable pub bit : CpuFeature → ℕ
bit neon = 1
bit ssse3 = 2
bit sse41 = 4
bit avx2 = 8
bit avx512_f = 16
bit avx512_bw = 32
bit avx512_vbmi = 64
bit bmi2 = 128

-- `Capabilities`, a record of one `u16`.
pub record Capabilities : Type 0 where
  pub features : ℕ

unfoldable pub supports : Capabilities → CpuFeature → Bool
supports capabilities feature = not (bit_and capabilities.features (bit feature) == 0)

-- `iter().all(…)`
unfoldable pub supports_all : Capabilities → List CpuFeature → Bool
supports_all capabilities [] = true
supports_all capabilities (feature ∷ features) =
    supports capabilities feature && supports_all capabilities features

-- The loop over the flags.
unfoldable pub set_features : ℕ → List (CpuFeature × Bool) → ℕ
set_features features [] = features
set_features features ((feature, available) ∷ flags) =
    set_features (if available then bit_or features (bit feature) else features) flags

unfoldable pub from_feature_flags : List (CpuFeature × Bool) → Capabilities
from_feature_flags flags = record { features = set_features 0 flags }

unfoldable pub x86_capabilities_from_feature_flags : (vbmi bw f a2 s41 s3 b2 : Bool) → Capabilities
x86_capabilities_from_feature_flags vbmi bw f a2 s41 s3 b2 = from_feature_flags (
    (avx512_vbmi, vbmi)
    ∷ (avx512_bw, bw)
    ∷ (avx512_f, f)
    ∷ (avx2, a2)
    ∷ (sse41, s41)
    ∷ (ssse3, s3)
    ∷ (bmi2, b2)
    ∷ [])

unfoldable pub aarch64_capabilities_from_feature_flag : Bool → Capabilities
aarch64_capabilities_from_feature_flag on = from_feature_flags ((neon, on) ∷ [])

-- `find`
unfoldable pub find : {B : Type 0} → (B → Bool) → List B → Option B
find p [] = none
find p (b ∷ bs) = if p b then some b else find p bs

-- base64/backend.rs
pub data Backend : Type 0 where
  scalar_backend neon_backend ssse3_backend sse41_backend avx2_backend avx512_vbmi_backend : Backend

unfoldable pub required : Backend → List CpuFeature
required scalar_backend = []
required neon_backend = neon ∷ []
required ssse3_backend = ssse3 ∷ []
required sse41_backend = sse41 ∷ ssse3 ∷ []
required avx2_backend = avx2 ∷ ssse3 ∷ []
required avx512_vbmi_backend = avx512_f ∷ avx512_bw ∷ avx512_vbmi ∷ avx2 ∷ ssse3 ∷ []

unfoldable pub supports_backend : Capabilities → Backend → Bool
supports_backend capabilities backend = supports_all capabilities (required backend)

-- `unwrap_or`
abbrev pub unwrap_or : {B : Type 0} → Option B → B → B
unwrap_or none b = b
unwrap_or (some a) b = a

unfoldable pub select_backend : Capabilities → Backend
select_backend capabilities =
    unwrap_or
      (find (supports_backend capabilities)
        (avx512_vbmi_backend ∷ avx2_backend ∷ sse41_backend ∷ ssse3_backend ∷ neon_backend ∷ []))
      scalar_backend

-- murmur3/dispatch.rs
pub data MurmurBackend : Type 0 where
  murmur_scalar murmur_sse41 murmur_avx2 : MurmurBackend

unfoldable pub select_x86_32_backend : ℕ → Capabilities → MurmurBackend
select_x86_32_backend len capabilities =
    if supports capabilities avx2 && leb 32 len
    then murmur_avx2
    else if supports capabilities sse41 && leb 16 len
    then murmur_sse41
    else murmur_scalar

unfoldable pub select_x86_128_backend : ℕ → Capabilities → MurmurBackend
select_x86_128_backend len capabilities =
    if supports capabilities avx2 && leb 128 len
    then murmur_avx2
    else if supports capabilities sse41 && leb 16777216 len
    then murmur_sse41
    else murmur_scalar

unfoldable pub select_x64_128_backend : ℕ → Capabilities → MurmurBackend
select_x64_128_backend len capabilities =
    if supports capabilities avx2 && leb 512 len
    then murmur_avx2
    else if supports capabilities sse41 && (leb 512 len && leb len 8388608)
    then murmur_sse41
    else murmur_scalar

-- xxhash/long_inputs/long_engine.rs
pub data X86Backend : Type 0 where
  x86_scalar x86_ssse3 x86_avx2 x86_avx512 : X86Backend

unfoldable pub x86_backend_supported : Capabilities → X86Backend → Bool
x86_backend_supported capabilities x86_scalar = true
x86_backend_supported capabilities x86_ssse3 = supports capabilities ssse3
x86_backend_supported capabilities x86_avx2 = supports capabilities avx2
x86_backend_supported capabilities x86_avx512 = supports capabilities avx512_f

-- `expect`: `none` is its panic.
unfoldable pub select_x86_backend : Capabilities → Option X86Backend
select_x86_backend capabilities =
    find (x86_backend_supported capabilities) (x86_avx512 ∷ x86_avx2 ∷ x86_ssse3 ∷ x86_scalar ∷ [])
