-- ===== src/Xxhash.antt =====
-- xxhash: XXH3 in 64 and 128 bits, in one call, with a prepared seed, and in batches.
pub mod Primitives
pub mod ShortInputs
pub mod LongInputs
pub mod OneShot
pub mod Batch
pub mod Prepared
