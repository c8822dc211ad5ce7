-- ===== src/Common/Tables.antt =====
-- A test that every number below a bound passes, by running it on all of them.
use Prim.Native.Nat.{ℕ, zero, suc, ◌<◌}
use mathlib.Core.Path.{◌≡◌}
use mathlib.Core.Bool.{Bool, true, ◌&&◌}
use native.Mathlib.Omega.{arith}

unfoldable pub passes_below : (ℕ → Bool) → ℕ → Bool
passes_below test zero = true
passes_below test (suc bound) = passes_below test bound && test bound

pub passes_below_at :
    (test : ℕ → Bool) (bound : ℕ)
    → passes_below test bound ≡ true
    → (value : ℕ) → value < bound
    → test value ≡ true
unfolding passes_below
passes_below_at test zero passed value less = absurd (omega arith)
passes_below_at test (suc bound) passed value less =
    ground (arith, passes_below_at test bound (ground arith) value)
