-- ===== src/Base64/Output.antt =====
-- base64/output_buffer.rs and base64/error.rs: the output memory of the raw encoders and decoders,
-- and their outcomes. A cell is `none` until it is initialised.
pub mod Laws
use hashcodecs_rs.Common.{
  ltb, ◌^◌, ℕ, zero, suc, ◌+◌, ◌≤◌, ◌≡◌, refl, Option, none, some, List, [], ◌∷◌, ◌++◌, map, arith,
  leb, if◌then◌else◌, length, take, drop, replicate, length-append, take-append, drop-append,
}
use mathlib.Core.Option

pub data Base64Error : Type 0 where
  invalid_input : Base64Error
  output_too_small : (required provided : ℕ) → Base64Error

abbrev pub Memory : Type 0
Memory = List (Option ℕ)

-- `fault` is a panic, or an access that is undefined behaviour: out of bounds, or to an
-- uninitialised cell.
pub data Outcome (A : Type 0) : Type 0 where
  ok : A → Memory → Outcome A
  err : Base64Error → Memory → Outcome A
  fault : Outcome A

-- Code that writes through a raw pointer into one output allocation.
abbrev pub Write : Type 0 → Type 0
Write A = Memory → Outcome A

infixl 5 ◌>>=◌ ◌>>◌
abbrev pub ◌>>=◌ : {A B : Type 0} → Write A → (A → Write B) → Write B
◌>>=◌ m f mem = elim (m mem) [ ok a mem' ↦ f a mem' | err e mem' ↦ err e mem' | fault ↦ fault ]

abbrev pub ◌>>◌ : {B : Type 0} → Write (Unit {0}) → Write B → Write B
m >> k = m >>= λ _. k

abbrev pub pure : {A : Type 0} → A → Write A
pure a mem = ok a mem

abbrev pub fail : {A : Type 0} → Base64Error → Write A
fail e mem = err e mem

-- `ok_or(error)?`, and an index or a slice that panics.
abbrev pub ok_or : {A : Type 0} → Option A → Base64Error → Write A
ok_or (some a) e mem = ok a mem
ok_or none e mem = err e mem

abbrev pub or_fault : {A : Type 0} → Option A → Write A
or_fault (some a) mem = ok a mem
or_fault none mem = fault

abbrev pub panic : {A : Type 0} → Write A
panic mem = fault

-- The memory after `bytes` are stored from cell `k` on.
abbrev pub stored : ℕ → List ℕ → Memory → Memory
stored k bytes mem = take k mem ++ (map some bytes ++ drop (k + length bytes) mem)

-- `output.add(k).copy_from_nonoverlapping(…)`, or writes to consecutive cells from `k` on.
unfoldable pub write : ℕ → List ℕ → Write (Unit {0})
write k bytes mem =
    if leb (k + length bytes) (length mem) then ok tt (stored k bytes mem) else fault

-- `output.len()`
unfoldable pub len : Write ℕ
len mem = ok (length mem) mem

-- The rest of the memory is put back behind what an action leaves of `&mut output[..n]`.
abbrev pub put_back : {A : Type 0} → Memory → Outcome A → Outcome A
put_back rest (ok a mem) = ok a (mem ++ rest)
put_back rest (err e mem) = err e (mem ++ rest)
put_back rest fault = fault

-- An action on the subslice `&mut output[..n]`; the slice panics past the end.
unfoldable pub on_prefix : {A : Type 0} → ℕ → Write A → Write A
on_prefix n m mem = if leb n (length mem) then put_back (drop n mem) (m (take n mem)) else fault

unfoldable pub uninitialized : ℕ → Memory
uninitialized n = replicate n none

-- An allocation is at most `isize::MAX` bytes.
abbrev pub isize_mod : ℕ
isize_mod = 2 ^ 63

-- `none` is the panic of `new_uninit_slice` above `isize::MAX`.
unfoldable pub allocate_uninitialized_output : ℕ → Option Memory
unfolding uninitialized
allocate_uninitialized_output n = if ltb n isize_mod then some (uninitialized n) else none

-- The bytes of initialised cells.
unfoldable pub initialized : Memory → Option (List ℕ)
initialized [] = some []
initialized (none ∷ mem) = none
initialized (some b ∷ mem) = Option.map (λ bs. b ∷ bs) (initialized mem)

-- The first `n` cells as a vector.
unfoldable pub assume_output_initialized : Memory → ℕ → Option (List ℕ)
unfolding initialized
assume_output_initialized mem n = if leb n (length mem) then initialized (take n mem) else none
