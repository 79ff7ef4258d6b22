-- ===== src/Prelude/Bits.antt =====
-- Tables: a test that holds of all small numbers, by evaluation.
use Prim.Native.Nat.{ℕ, zero, suc, ◌<◌}
use mathlib.Core.Path.{◌≡◌}
use mathlib.Core.Bool.{Bool, true, false}
use native.Mathlib.Omega.{arith}
use ged2k.Prelude.Tests.{if◌then◌else◌}

-- `test` passes on every number that is less than the bound.
unfoldable pub passes_below : ℕ → (ℕ → Bool) → Bool
passes_below zero test = true
passes_below (suc bound) test =
    let lower = passes_below bound test in if test bound then lower else false

pub passes_below-at :
    (bound : ℕ) (test : ℕ → Bool) (i : ℕ)
    → passes_below bound test ≡ true
    → i < bound
    → test i ≡ true
unfolding passes_below
passes_below-at zero test i table below = absurd (omega arith)
passes_below-at (suc bound) test i table below = ground (arith, passes_below-at bound test i)
