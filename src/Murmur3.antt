-- ===== src/Murmur3.antt =====
-- murmur3: the three MurmurHash3 variants, incremental and in one call.
pub mod BlockBuffer
pub mod Primitives
pub mod Hasher
pub mod X86Hasher32
pub mod X64Hasher128
pub mod X86Hasher128
pub mod Bounds
