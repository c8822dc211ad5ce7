-- ===== src/Common/Slices.antt =====
-- Slices and differences that panic out of range.
use Prim.Native.Nat.{ℕ, ◌+◌, ◌-◌}
use mathlib.Core.Option.{Option, none, some}
use mathlib.Core.List.{List, ◌++◌}
use hashcodecs_rs.Common.Tests.{leb, if◌then◌else◌}
use hashcodecs_rs.Common.Lists.{length, take, drop}

-- `target[offset..offset + source.len()].copy_from_slice(source)`
unfoldable pub copy_at : List ℕ → ℕ → List ℕ → Option (List ℕ)
copy_at target offset source =
    if leb (offset + length source) (length target)
    then some (take offset target ++ (source ++ drop (offset + length source) target))
    else none

-- `a - b`, which panics below zero.
unfoldable pub checked_sub : ℕ → ℕ → Option ℕ
checked_sub a b = if leb b a then some (a - b) else none
