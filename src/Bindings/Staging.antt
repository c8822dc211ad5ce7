-- ===== src/Bindings/Staging.antt =====
-- src/bindings/base64/staging.rs: output objects, and decoding through a staging buffer.
pub mod Blocks
pub mod Holds
pub mod Writer
pub mod Direct
pub mod Streams
pub mod Validator
pub mod Validation
use hashcodecs_rs.Common.{
  ℕ, ◌+◌, ◌-◌, ◌*◌, ◌/◌, ◌%◌, ◌^◌, Option, none, some, Bool, true, false, List, [], ◌∷◌, ltb, leb,
  ◌==◌, if◌then◌else◌, length, drop, take, ◌&&◌, not, min, ◌++◌, zero, suc, ◌≡◌,
}
use hashcodecs_rs.Base64.Alphabet.{standard, standard_alphabet}
use hashcodecs_rs.Base64.Alphabet.Tables.{at}
use hashcodecs_rs.Base64.Output.{
  Memory, Outcome, ok, err, fault, Write, ◌>>=◌, ◌>>◌, pure, panic, initialized,
}
use hashcodecs_rs.Base64.Decode.{Result, good, bad, try}
use hashcodecs_rs.Base64.Unpadded.{
  decode_unpadded_layout, decode_to_ptr_with_unpadded_layout, decode_standard_validated_to_ptr,
  validate_alphabet,
}
use hashcodecs_rs.Bindings.Translation.{Translation, apply}
use hashcodecs_rs.Bindings.{PyError, PyResult, returned, raised, undefined, memory_error}

-- A `Py_ssize_t` is below this bound.
abbrev pub ssize_mod : ℕ
ssize_mod = 2 ^ 63

-- The answer of `PyBytes_FromStringAndSize` without a source: the payload of a new object, or the
-- exception that it raised.
pub data Payload : Type 0 where
  allocated : Memory → Payload
  refused : PyError → Payload

-- CPython's C API, so far as it is used here: a payload has the length that was asked for, and
-- nothing is known of its cells.
pub record BytesApi : Type 0 where
  pub from_string_and_size : ℕ → Payload
  pub sized : (n : ℕ) (mem : Memory) → from_string_and_size n ≡ allocated mem → length mem ≡ n

-- A payload that an action fills, or the error of the action, with which the object is dropped.
unfoldable pub initialize : Payload → Write (Unit {0}) → PyResult (Result (List ℕ))
initialize (refused e) init = raised e
initialize (allocated buffer) init = elim (init buffer) [
  | err e mem ↦ returned (bad e)
  | fault ↦ undefined
  | ok _ mem ↦ elim (initialized mem) [ none ↦ undefined | some bytes ↦ returned (good bytes) ]
]

unfoldable pub pybytes_with_len : BytesApi → ℕ → Write (Unit {0}) → PyResult (Result (List ℕ))
unfolding initialize
pybytes_with_len api n init =
    if ltb n ssize_mod then initialize (api.from_string_and_size n) init else raised memory_error

-- `output.add(n)`: an action on the memory from cell `n` on.
abbrev pub behind : {A : Type 0} → Memory → Outcome A → Outcome A
behind front (ok a mem) = ok a (front ++ mem)
behind front (err e mem) = err e (front ++ mem)
behind front fault = fault

unfoldable pub on_suffix : {A : Type 0} → ℕ → Write A → Write A
on_suffix n m mem = if leb n (length mem) then behind (take n mem) (m (drop n mem)) else fault

-- `None` is an error here.
unfoldable pub decode_staging : Bool → List ℕ → Write ℕ
decode_staging checked input =
    if checked
    then (try (decode_unpadded_layout input) >>= λ layout.
        decode_to_ptr_with_unpadded_layout input layout standard >> pure layout.output_len)
    else decode_standard_validated_to_ptr input

abbrev pub configured_staging_capacity : ℕ
configured_staging_capacity = 4096

-- The initialised bytes of the buffer.
abbrev pub StagingBuffer : Type 0
StagingBuffer = List ℕ

unfoldable pub is_full : StagingBuffer → Bool
is_full self = length self == configured_staging_capacity

unfoldable pub remaining_capacity : StagingBuffer → ℕ
remaining_capacity self = configured_staging_capacity - length self

-- The buffer, and the number of bytes copied.
unfoldable pub extend_from_slice : StagingBuffer → List ℕ → StagingBuffer × ℕ
extend_from_slice self input =
    let copied = min (length input) (configured_staging_capacity - length self) in
    (self ++ take copied input, copied)

-- A full buffer panics.
unfoldable pub push : StagingBuffer → ℕ → Write StagingBuffer
push self value =
    if ltb (length self) configured_staging_capacity then pure (self ++ (value ∷ [])) else panic

-- `output` is the start of the memory.
pub record StagingWriter : Type 0 where
  pub written : ℕ
  pub translation : Option Translation
  pub staging : StagingBuffer

unfoldable pub new : Option Translation → StagingWriter
new translation = record { written = 0; translation = translation; staging = [] }

unfoldable pub set_translation : StagingWriter → Option Translation → Write StagingWriter
set_translation self translation =
    if length self.staging == 0 then pure (record self { translation = translation }) else panic

unfoldable pub apply_all : Option Translation → List ℕ → List ℕ
apply_all none input = input
apply_all (some translation) input = apply translation input

unfoldable pub flush : Bool → StagingWriter → Write StagingWriter
unfolding apply_all
flush checked self = do
  let staging = apply_all self.translation self.staging
  n ← on_suffix self.written (decode_staging checked staging)
  pure (record self { written = self.written + n; staging = [] })

-- The buffer is not full between two calls, so that each round copies a byte: one more round than
-- bytes is enough.
unfoldable pub push_staged_rounds : ℕ → Bool → StagingWriter → List ℕ → Write StagingWriter
unfolding flush extend_from_slice is_full
push_staged_rounds zero checked self input = panic
push_staged_rounds (suc fuel) checked self [] = pure self
push_staged_rounds (suc fuel) checked self (byte ∷ rest) = do
  let input = byte ∷ rest
  let extended = extend_from_slice self.staging input
  let self' : StagingWriter = record self { staging = extended.0 }
  self'' ← (if is_full self'.staging then flush checked self' else pure self')
  push_staged_rounds fuel checked self'' (drop extended.1 input)

unfoldable pub push_staged_symbols : Bool → StagingWriter → List ℕ → Write StagingWriter
unfolding push_staged_rounds
push_staged_symbols checked self input = push_staged_rounds (suc (length input)) checked self input

-- Whole quanta are decoded without a copy while the buffer is empty.
unfoldable pub push_direct_rounds : ℕ → Bool → StagingWriter → List ℕ → Write StagingWriter
unfolding push_staged_symbols remaining_capacity
push_direct_rounds zero checked self input = panic
push_direct_rounds (suc fuel) checked self [] = pure self
push_direct_rounds (suc fuel) checked self (byte ∷ rest) =
    let input = byte ∷ rest in
    let direct = length input / 4 * 4 in
    let copied = min (length input) (remaining_capacity self.staging) in
    if (length self.staging == 0) && not (direct == 0)
    then (on_suffix self.written (decode_staging checked (take direct input)) >>= λ n.
        push_direct_rounds fuel checked (record self { written = self.written + n })
          (drop direct input))
    else (push_staged_symbols checked self (take copied input) >>= λ self'.
        push_direct_rounds fuel checked self' (drop copied input))

unfoldable pub push_symbols : Bool → StagingWriter → List ℕ → Write StagingWriter
unfolding push_direct_rounds
push_symbols checked self input = elim self.translation [
  | some translation ↦ push_staged_symbols checked self input
  | none ↦ push_direct_rounds (suc (length input)) checked self input
]

unfoldable pub push_value : Bool → StagingWriter → ℕ → Write StagingWriter
push_value checked self value = do
  staging ← push self.staging (at standard_alphabet value)
  let self' : StagingWriter = record self { staging = staging }
  if is_full self'.staging then flush checked self' else pure self'

unfoldable pub finish : Bool → StagingWriter → Write ℕ
finish checked self = do
  self' ← (if length self.staging == 0 then pure self else flush checked self)
  pure self'.written
