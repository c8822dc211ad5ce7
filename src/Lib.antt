-- ===== src/Lib.antt =====
-- A model of hashcodecs: Base64 codecs, MurmurHash3 and XXH3 in Rust, with a Python binding.
--
-- The parts, and where they are:
--   Common       lists, options, memory slices and tables that the parts share;
--   Word         machine words: bit operations and wrapping arithmetic on ℕ, with their laws;
--   Base64       src/base64: Alphabet (alphabet.rs: alphabets and decode tables), Output
--                (output_buffer.rs, error.rs), Encode and Wrapped (encode/api.rs; Wrapped has the
--                alphabets of the caller and output in lines), Decode and Unpadded (decode/api.rs;
--                Unpadded has text without padding and validated text), and Rfc4648, an encoder
--                and a decoder written from the RFC alone;
--   Bindings     src/bindings/base64: Encoder (encode.rs: the prepared encoder), Strict (strict.rs),
--                Staging (staging.rs; Staging/Validator has StagingValidator), Translation
--                (configured.rs: the characters of the caller), Scan (scan/scalar.rs), Lenient
--                (lenient.rs; Lenient/Machine has the machine that it is held to);
--   Murmur3      src/murmur3: BlockBuffer (block_buffer.rs), Primitives (primitives.rs), and one
--                module per hasher: X86Hasher32 (x86_32/murmur3_x86_hasher32.rs), X64Hasher128
--                (x64_128/murmur3_x64_hasher128.rs), X86Hasher128 (x86_128/murmur3_x86_hasher128.rs).
--                Hasher is the interface that the three fill: their streaming theorem is one proof;
--   Xxhash       src/xxhash: Primitives (primitives.rs), ShortInputs (short_inputs.rs; the
--                128-bit formulas in ShortInputs/Formulas128), LongInputs
--                (long_inputs/long_engine.rs, long_inputs/scalar.rs), OneShot (one_shot.rs), Batch
--                (batch.rs), Prepared (prepared.rs);
--   Backend      src/backend.rs, and the selectors of src/base64/backend.rs, src/murmur3/dispatch.rs
--                and src/xxhash/long_inputs/long_engine.rs;
--   Tests        runs of the model at known answers, and an example of each theorem.
-- A definition has the name of the function it models; a loop or a branch of a function that is a
-- definition of its own says so in its comment.
--
-- How the code interacts: the Base64 entry points choose an alphabet or a table, ask for the layout
-- of the text, and run the conversion on a destination, which is the caller's or a new uninitialised
-- vector. A MurmurHash3 hasher keeps lane states, the total length and a buffer of pending bytes;
-- `update` gives whole blocks to the body and keeps the rest, `digest` finishes a copy. The one-call
-- functions do the same on one slice. XXH3 selects a formula by the length of the input; inputs of
-- more than 240 bytes use the engine, with a secret derived from the seed; batches and prepared
-- seeds derive the secret once.
--
-- How it is modelled:
--   - numbers are ℕ; an operation that wraps has `% 2 ^ w`, a shift is a product or quotient by a
--     power of two, and usize has 64 bits. A byte is an ℕ, below 256 where a theorem asks for it;
--   - a slice is a list. A destination is a list of cells, each none until it is written, so that
--     reading an uninitialised byte is seen;
--   - a panic, an access out of bounds and a read of an uninitialised cell are `none`, or `fault` in
--     the Base64 results, which is apart from the errors that the code returns;
--   - a callback is a function on the state that it captures, and a loop that calls it passes that
--     state on; the batches that return a vector push on a list;
--   - a loop is structural recursion on the slice or on the number of rounds that the code computes.
--     The loop that breaks text into lines in place has fuel, the length of the text: a round takes
--     at least one byte off it, and running out is a fault, which its theorem excludes.
--     The loop of the lenient decoder, and the loops that fill the staging buffer, have one more
--     round than bytes: each round takes a byte at least, since a full buffer is emptied at once.
--     Running out is a fault, which the theorems exclude;
--   - a vector of more than isize::MAX bytes panics when it is allocated, which is `none`; that the
--     memory of the process is used up, which ends it, is not modelled;
--   - what other code answers is a parameter: PyBytes_FromStringAndSize returns a payload of the
--     length that was asked for, with cells of any kind, or an exception (BytesApi); memchr2 finds
--     the first of two characters (IsMemchr2); try_reserve_exact has memory or not. A new Python
--     `bytes` object is dropped with an error of the decoder; its length must be in Py_ssize_t,
--     below 2 ^ 63, else the call raises MemoryError.
--
-- The build that is modelled is the one without vector kernels: another processor than x86 or
-- AArch64, where each dispatch calls the scalar body. The selectors of vector kernels are modelled on
-- their own in Backend. Not modelled: the vector kernels and the probe of the cache size; batches that
-- group inputs for a vector kernel; Display and Debug; of the Python binding (src/bindings) what calls
-- the C API, its generated schema, the length of lenient decoding and the configured decoders
-- (base64/configured.rs) beyond their translation, and the bindings of the hashes.
pub mod Common
pub mod Word
pub mod Base64
pub mod Bindings
pub mod Murmur3
pub mod Xxhash
pub mod Backend
pub mod Tests
