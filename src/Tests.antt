-- ===== src/Tests.antt =====
-- Runs of the model at concrete inputs, and examples of the theorems.
pub mod Base64
pub mod Wrapped
pub mod Bindings
pub mod Strict
pub mod Lenient
pub mod Murmur3
pub mod Xxhash
pub mod Backend
