-- ===== src/Bindings.antt =====
-- The Python bindings, src/bindings, so far as they compute: what surrounds them is Python's C API.
pub mod Encoder
pub mod Scan
pub mod Translation
pub mod Staging
pub mod Strict
pub mod Lenient

-- Python's exceptions, without their texts.
pub data PyError : Type 0 where
  value_error overflow_error memory_error : PyError

-- `undefined` is a panic or undefined behaviour.
pub data PyResult (A : Type 0) : Type 0 where
  returned : A → PyResult A
  raised : PyError → PyResult A
  undefined : PyResult A
