-- ===== src/Prelude/Tally.antt =====
-- Counting the numbers below a bound that pass a test.
use Prim.Native.Nat.{ℕ, zero, suc, ◌+◌, ◌≤◌, ◌<◌}
use mathlib.Core.Path.{◌≡◌, refl}
use mathlib.Core.Bool.{Bool, true, false, ◌||◌}
use native.Mathlib.Decide.{ℕ_discrete}
use native.Mathlib.Omega.{arith}
use ged2k.Prelude.Tests.{◌==◌}

abbrev pub as_number : Bool → ℕ
as_number true = 1
as_number false = 0

unfoldable pub tally : (ℕ → Bool) → ℕ → ℕ
tally f zero = 0
tally f (suc n) = tally f n + as_number (f n)

pub tally-ext : (f g : ℕ → Bool) (n : ℕ) → ((k : ℕ) → k < n → f k ≡ g k) → tally f n ≡ tally g n
unfolding tally
tally-ext f g zero h = refl
tally-ext f g (suc n) h = rw (tally-ext f g n (λ k l. h k (omega arith)), h n (omega arith))

pub tally-split : (f : ℕ → Bool) (m n : ℕ) → tally f (m + n) ≡ tally f m + tally (λ k. f (m + k)) n
unfolding tally
tally-split f m zero = rw zero-side (omega arith)
  where
    zero-side : m + 0 ≡ m
    zero-side = omega arith
tally-split f m (suc n) = rw suc-side (omega (arith, tally-split f m n))
  where
    suc-side : m + suc n ≡ suc (m + n)
    suc-side = omega arith

pub tally_front :
    (f : ℕ → Bool) (n : ℕ) → tally f (suc n) ≡ as_number (f 0) + tally (λ k. f (suc k)) n
unfolding tally
tally_front f zero = omega arith
tally_front f (suc n) = omega (arith, tally_front f n)

pub tally-le : (f : ℕ → Bool) (n : ℕ) → tally f n ≤ n
unfolding tally
tally-le f zero = omega arith
tally-le f (suc n) = ground (arith, tally-le f n)

tally_full : (f : ℕ → Bool) (n : ℕ) → ((k : ℕ) → k < n → f k ≡ true) → tally f n ≡ n
unfolding tally
tally_full f zero h = refl
tally_full f (suc n) h =
    rw (tally_full f n (λ k l. h k (omega arith)), h n (omega arith)) (omega arith)

pub of_tally_full : (f : ℕ → Bool) (n k : ℕ) → tally f n ≡ n → k < n → f k ≡ true
unfolding tally
of_tally_full f zero k e h = absurd (omega arith)
of_tally_full f (suc n) k e h = elim (ℕ_discrete k n) [
  | yes p ↦ rw p (ground (arith, tally-le f n))
  | no q ↦ of_tally_full f n k (ground (arith, tally-le f n)) (omega arith)
]

tally_none : (f : ℕ → Bool) (n : ℕ) → ((k : ℕ) → k < n → f k ≡ false) → tally f n ≡ 0
unfolding tally
tally_none f zero h = refl
tally_none f (suc n) h =
    rw (tally_none f n (λ k l. h k (omega arith)), h n (omega arith)) (omega arith)

tally_add_above : (f : ℕ → Bool) (i n : ℕ) → n ≤ i → tally (λ k. i == k || f k) n ≡ tally f n
tally_add_above f i n h = tally-ext (λ k. i == k || f k) f n (λ k l. ground arith)

-- One more number passes.
pub tally_add :
    (f : ℕ → Bool) (i n : ℕ) → i < n → f i ≡ false → tally (λ k. i == k || f k) n ≡ suc (tally f n)
unfolding tally
tally_add f i zero h e = absurd (omega arith)
tally_add f i (suc n) h e = elim (ℕ_discrete i n) [
  | yes p ↦ ground (arith, tally_add_above f i n (omega arith))
  | no q ↦ ground (arith, tally_add f i n (omega arith) e)
]
