-- ===== src/Prelude/Int.antt =====
-- The signed counters of the source, over the native numbers. `negsuc n` is -(n + 1).
use Prim.Native.Nat.{◌+◌, ◌-◌, ℕ, zero, suc}
use mathlib.Core.Bool.{Bool, true, false}
use ged2k.Prelude.Tests.{ltb, if◌then◌else◌}

pub data ℤ : Type 0 where
  pos : ℕ → ℤ
  negsuc : ℕ → ℤ

abbrev pub inc : ℤ → ℤ
inc (pos n) = pos (suc n)
inc (negsuc zero) = pos 0
inc (negsuc (suc n)) = negsuc n

abbrev pub dec : ℤ → ℤ
dec (pos zero) = negsuc 0
dec (pos (suc n)) = pos n
dec (negsuc n) = negsuc (suc n)

abbrev pub is_zero : ℤ → Bool
is_zero (pos zero) = true
is_zero (pos (suc n)) = false
is_zero (negsuc n) = false

abbrev pub less_than : ℤ → ℕ → Bool
less_than (pos n) m = ltb n m
less_than (negsuc n) m = true

-- A natural number and an integer, added.
unfoldable pub plus : ℕ → ℤ → ℤ
plus n (pos m) = pos (n + m)
plus n (negsuc k) = if ltb k n then pos (n - suc k) else negsuc (k - n)

unfoldable pub plus_int : ℤ → ℤ → ℤ
unfolding plus
plus_int (pos n) z = plus n z
plus_int (negsuc n) (pos m) = plus m (negsuc n)
plus_int (negsuc n) (negsuc m) = negsuc (suc (n + m))
