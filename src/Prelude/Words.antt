-- ===== src/Prelude/Words.antt =====
-- Go's int of 64 bits is its bit pattern, a number below 2 ^ 64.
use Prim.Native.Nat.{ℕ, ◌+◌, ◌-◌, ◌*◌, ◌/◌, ◌%◌, ◌^◌}
use mathlib.Core.Bool.{Bool}
use ged2k.Prelude.Tests.{ltb, leb, if◌then◌else◌}

unfoldable pub add_int : ℕ → ℕ → ℕ
add_int a b = (a + b) % 2 ^ 64

unfoldable pub mul_int : ℕ → ℕ → ℕ
mul_int a b = a * b % 2 ^ 64

unfoldable pub is_negative : ℕ → Bool
is_negative a = leb (2 ^ 63) a

unfoldable pub negate_int : ℕ → ℕ
negate_int a = (2 ^ 64 - a) % 2 ^ 64

unfoldable pub magnitude : ℕ → ℕ
magnitude a = if is_negative a then negate_int a else a

-- `a / b`, which goes towards 0; `b` is not 0.
unfoldable pub div_int : ℕ → ℕ → ℕ
div_int a b =
    let q = magnitude a / magnitude b in
    if is_negative a
    then (if is_negative b then q else negate_int q)
    else (if is_negative b then negate_int q else q)

-- `a < b`
unfoldable pub ltb_int : ℕ → ℕ → Bool
ltb_int a b = ltb ((a + 2 ^ 63) % 2 ^ 64) ((b + 2 ^ 63) % 2 ^ 64)
