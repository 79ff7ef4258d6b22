-- ===== src/Stats/Settled.antt =====
-- statistics.go: how fast the averages come near to a rate that stays the same.
use ged2k.Prelude.{
  ℕ, suc, ◌+◌, ◌-◌, ◌*◌, ◌/◌, ◌%◌, ◌^◌, ◌<◌, ◌≤◌, ◌≡◌, refl, List, [], ◌∷◌, length, All, Outcome,
  ok, ◌>>=◌, arith,
}
use native.Mathlib.Nat.{pow-suc, mul-le-mul_left}
use ged2k.Stats.Ticks.{
  Count, Second, bytes_received, bytes_sent, count_all, IsAtRate, IsReady, after_tick,
  calc-after_tick, after_tick-IsReady, count_all_lem, ready-IsInt,
}
use ged2k.Stats.{StatChannel, Statistics, second_tick}

unfoldable pub pass_seconds : List Second → Statistics → Outcome Statistics
pass_seconds [] s = ok s
pass_seconds (t ∷ ts) s = second_tick (count_all t.counts s) t.milliseconds >>= pass_seconds ts

unfoldable pub bytes_over : (List Count → ℕ) → List Second → ℕ
bytes_over f [] = 0
bytes_over f (t ∷ ts) = f t.counts + bytes_over f ts

pub record IsSteady (down up : ℕ) (t : Second) : Type 0 where
  pub long : 0 < t.milliseconds
  pub short : t.milliseconds < 2 ^ 63
  pub receives : IsAtRate down (bytes_received t.counts) t.milliseconds
  pub sends : IsAtRate up (bytes_sent t.counts) t.milliseconds

-- How far an average is from the rate `x`, beyond the `slack` below it that rounding leaves.
abbrev pub excess : ℕ → ℕ → ℕ → ℕ
excess slack a x = (a - x) + (x - a - slack)

-- After `n` seconds at the rate `x`, with `bytes` in all.
pub record HasSettled (n x bytes : ℕ) (before after : StatChannel) : Type 0 where
  pub total : after.total_counter ≡ (before.total_counter + bytes) % 2 ^ 64
  pub average5 : 5 ^ n * excess 8 after.average5_sec x ≤ 4 ^ n * excess 8 before.average5_sec x
  pub average30 :
      30 ^ n * excess 58 after.average30_sec x ≤ 29 ^ n * excess 58 before.average30_sec x

-- One second brings both averages nearer.
shrinks5 : (a x : ℕ) → 5 * excess 8 (a * 4 / 5 + x / 5) x ≤ 4 * excess 8 a x
shrinks5 a x = omega arith

shrinks30 : (a x : ℕ) → 30 * excess 58 (a * 29 / 30 + x / 30) x ≤ 29 * excess 58 a x
shrinks30 a x = omega arith

-- A bound for `n` seconds, after one more.
one_more :
    (p q n after next before : ℕ)
    → p ^ n * after ≤ q ^ n * next
    → p * next ≤ q * before
    → p ^ suc n * after ≤ q ^ suc n * before
one_more p q n after next before h k =
    let scaled : p * (p ^ n * after) ≤ p * (q ^ n * next) = mul-le-mul_left p h in
    let onward : q ^ n * (p * next) ≤ q ^ n * (q * before) = mul-le-mul_left (q ^ n) k in
    rw (pow-suc p n, pow-suc q n) (grind (arith, scaled, onward))

HasSettled-suc :
    (n x m bytes : ℕ) (sc after : StatChannel)
    → HasSettled n x bytes (after_tick sc m x) after
    → HasSettled (suc n) x (m + bytes) sc after
HasSettled-suc n x m bytes sc after h = record {
  total = omega (arith, h.total);
  average5 =
      one_more 5 4 n (excess 8 after.average5_sec x) _ (excess 8 sc.average5_sec x) h.average5
        (shrinks5 sc.average5_sec x);
  average30 =
      one_more 30 29 n (excess 58 after.average30_sec x) _ (excess 58 sc.average30_sec x)
        h.average30 (shrinks30 sc.average30_sec x);
}

one_second :
    (down up : ℕ) (t : Second) (s : Statistics)
    → IsSteady down up t
    → down * 29 < 2 ^ 63
    → up * 29 < 2 ^ 63
    → IsReady s.download
    → IsReady s.upload
    → second_tick (count_all t.counts s) t.milliseconds
      ≡ ok (record {
        upload = after_tick s.upload (bytes_sent t.counts) up;
        download = after_tick s.download (bytes_received t.counts) down;
      })
unfolding second_tick
one_second down up t s v hd hu d u =
    rw
      (
        count_all_lem t.counts s (ready-IsInt s.upload u) (ready-IsInt s.download d),
        calc-after_tick s.upload (bytes_sent t.counts) up t.milliseconds u v.long v.short hu
            v.sends,
        calc-after_tick s.download (bytes_received t.counts) down t.milliseconds d v.long v.short hd
            v.receives,
      )
      refl

-- Let both channels have just been ticked, and let seconds of any positive length pass, in each of
-- which the session counts bytes in any order and pieces such that the samples, bytes for 1000
-- milliseconds rounded down, are always `down` for downloads and `up` for uploads. If the products
-- that are computed on the way fit an int, then nothing panics, the totals grow by the bytes of all the
-- seconds (modulo 2 ^ 64), and the averages come near to their rates: of its distance from the rate,
-- but for the last 8 bytes below the rate, the five-second average keeps at most 4/5 with each second,
-- and the other one, but for the last 58, at most 29/30.
pub pass_seconds-HasSettled :
    (down up : ℕ) (ts : List Second) (s : Statistics)
    → All (IsSteady down up) ts
    → down * 29 < 2 ^ 63
    → up * 29 < 2 ^ 63
    → IsReady s.download
    → IsReady s.upload
    → (after : Statistics) × (pass_seconds ts s ≡ ok after)
      × HasSettled (length ts) down (bytes_over bytes_received ts) s.download after.download
      × HasSettled (length ts) up (bytes_over bytes_sent ts) s.upload after.upload
unfolding pass_seconds bytes_over
pass_seconds-HasSettled down up [] s v hd hu d u =
    (s, refl, unchanged down s.download d, unchanged up s.upload u)
  where
    unchanged : (x : ℕ) (sc : StatChannel) → IsReady sc → HasSettled 0 x 0 sc sc
    unchanged x sc r = record {
      total = omega (arith, r.total_fits);
      average5 = omega arith;
      average30 = omega arith;
    }
pass_seconds-HasSettled down up (t ∷ ts) s v hd hu d u =
    let received_now = bytes_received t.counts in
    let sent_now = bytes_sent t.counts in
    let (after, runs, settled_down, settled_up) =
      pass_seconds-HasSettled down up ts
        (record {
          upload = after_tick s.upload sent_now up;
          download = after_tick s.download received_now down;
        })
        v.1 hd hu (after_tick-IsReady s.download received_now down d hd)
        (after_tick-IsReady s.upload sent_now up u hu) in
    (
      after,
      rw (one_second down up t s v.0 hd hu d u) runs,
      HasSettled-suc (length ts) down received_now _ s.download after.download settled_down,
      HasSettled-suc (length ts) up sent_now _ s.upload after.upload settled_up,
    )
