-- ===== src/Stats/Ticks.antt =====
-- statistics.go: what the bytes that are counted, and a tick after them, make of a channel.
use ged2k.Prelude.{
  ℕ, ◌+◌, ◌*◌, ◌/◌, ◌%◌, ◌^◌, ◌<◌, ◌≡◌, refl, ◌==◌, false, List, [], ◌∷◌, ok, arith,
}
use ged2k.Prelude.Words.{add_int, mul_int, div_int, is_negative, magnitude}
use ged2k.Stats.{StatChannel, Statistics, add, calc, receive_bytes, send_bytes}

-- What the session counts between two ticks, and the milliseconds to the second one.
pub data Count : Type 0 where
  received sent : ℕ → Count

pub record Second : Type 0 where
  pub counts : List Count
  pub milliseconds : ℕ

unfoldable pub bytes_received : List Count → ℕ
bytes_received [] = 0
bytes_received (received n ∷ cs) = n + bytes_received cs
bytes_received (sent n ∷ cs) = bytes_received cs

unfoldable pub bytes_sent : List Count → ℕ
bytes_sent [] = 0
bytes_sent (received n ∷ cs) = bytes_sent cs
bytes_sent (sent n ∷ cs) = n + bytes_sent cs

unfoldable pub count_all : List Count → Statistics → Statistics
count_all [] s = s
count_all (received n ∷ cs) s = count_all cs (receive_bytes s n)
count_all (sent n ∷ cs) s = count_all cs (send_bytes s n)

-- So many bytes in so many milliseconds make the rate `x`, and the product fits an int.
pub record IsAtRate (x bytes milliseconds : ℕ) : Type 0 where
  pub fits : bytes * 1000 < 2 ^ 63
  pub sample : bytes * 1000 / milliseconds ≡ x

-- A tick has just been, and the products in the next one fit an int.
pub record IsReady (sc : StatChannel) : Type 0 where
  pub started : sc.second_counter ≡ 0
  pub total_fits : sc.total_counter < 2 ^ 64
  pub average5_fits : sc.average5_sec * 4 < 2 ^ 63
  pub average30_fits : sc.average30_sec * 29 < 2 ^ 63

div_int-small : (a b : ℕ) → a < 2 ^ 63 → 0 < b → b < 2 ^ 63 → div_int a b ≡ a / b
unfolding div_int is_negative magnitude
div_int-small a b h k l = ground arith

mul_int-small : (a b : ℕ) → a * b < 2 ^ 63 → mul_int a b ≡ a * b
unfolding mul_int
mul_int-small a b h = omega arith

-- The channel after a second of `n` bytes at the rate `x`.
abbrev pub after_tick : StatChannel → ℕ → ℕ → StatChannel
after_tick sc n x = record {
  second_counter = 0;
  total_counter = (sc.total_counter + n) % 2 ^ 64;
  average5_sec = sc.average5_sec * 4 / 5 + x / 5;
  average30_sec = sc.average30_sec * 29 / 30 + x / 30;
}

abbrev pub after_counts : StatChannel → ℕ → StatChannel
after_counts sc n = record sc {
  second_counter = (sc.second_counter + n) % 2 ^ 64;
  total_counter = (sc.total_counter + n) % 2 ^ 64;
}

pub calc-after_tick :
    (sc : StatChannel) (n x ms : ℕ)
    → IsReady sc
    → 0 < ms
    → ms < 2 ^ 63
    → x * 29 < 2 ^ 63
    → IsAtRate x n ms
    → calc (after_counts sc n) ms ≡ ok (after_tick sc n x)
unfolding calc add_int
calc-after_tick sc n x ms r pos_ms low hx at =
    let nonzero : (ms == 0) ≡ false = ground arith in
    let second : (sc.second_counter + n) % 2 ^ 64 ≡ n = omega arith in
    let sum5 : (sc.average5_sec * 4 / 5 + x / 5) % 2 ^ 64 ≡ sc.average5_sec * 4 / 5 + x / 5 =
      omega arith in
    let sum30 : (sc.average30_sec * 29 / 30 + x / 30) % 2 ^ 64
        ≡ sc.average30_sec * 29 / 30 + x / 30 =
      omega arith in
    rw
      (
        nonzero,
        second,
        mul_int-small n 1000 at.fits,
        div_int-small (n * 1000) ms at.fits pos_ms low,
        at.sample,
        mul_int-small sc.average5_sec 4 r.average5_fits,
        mul_int-small sc.average30_sec 29 r.average30_fits,
        div_int-small (sc.average5_sec * 4) 5 r.average5_fits (omega arith) (omega arith),
        div_int-small (sc.average30_sec * 29) 30 r.average30_fits (omega arith) (omega arith),
        div_int-small x 5 (omega arith) (omega arith) (omega arith),
        div_int-small x 30 (omega arith) (omega arith) (omega arith),
        sum5,
        sum30,
      )
      refl

pub after_tick-IsReady :
    (sc : StatChannel) (n x : ℕ) → IsReady sc → x * 29 < 2 ^ 63 → IsReady (after_tick sc n x)
after_tick-IsReady sc n x r h = record {
  started = refl;
  total_fits = omega arith;
  average5_fits = omega arith;
  average30_fits = omega arith;
}

-- The counters are ints.
pub record IsInt (sc : StatChannel) : Type 0 where
  pub second_fits : sc.second_counter < 2 ^ 64
  pub total_fits : sc.total_counter < 2 ^ 64

after_counts_zero : (sc : StatChannel) → IsInt sc → after_counts sc 0 ≡ sc
after_counts_zero sc v =
    let second : (sc.second_counter + 0) % 2 ^ 64 ≡ sc.second_counter =
      omega (arith, v.second_fits) in
    let total : (sc.total_counter + 0) % 2 ^ 64 ≡ sc.total_counter = omega (arith, v.total_fits) in
    rw (second, total) refl

after_counts-add :
    (sc : StatChannel) (n m : ℕ) → after_counts (add sc n) m ≡ after_counts sc (n + m)
unfolding add add_int
after_counts-add sc n m =
    let second : ((sc.second_counter + n) % 2 ^ 64 + m) % 2 ^ 64
        ≡ (sc.second_counter + (n + m)) % 2 ^ 64 =
      omega arith in
    let total : ((sc.total_counter + n) % 2 ^ 64 + m) % 2 ^ 64
        ≡ (sc.total_counter + (n + m)) % 2 ^ 64 =
      omega arith in
    rw (second, total) refl

add-IsInt : (sc : StatChannel) (n : ℕ) → IsInt (add sc n)
unfolding add add_int
add-IsInt sc n = record { second_fits = omega arith; total_fits = omega arith }

pub count_all_lem :
    (cs : List Count) (s : Statistics)
    → IsInt s.upload
    → IsInt s.download
    → count_all cs s ≡ record {
      upload = after_counts s.upload (bytes_sent cs);
      download = after_counts s.download (bytes_received cs);
    }
unfolding count_all receive_bytes send_bytes bytes_sent bytes_received
count_all_lem [] s u d = rw (after_counts_zero s.upload u, after_counts_zero s.download d) refl
count_all_lem (received n ∷ cs) s u d =
    rw (← after_counts-add s.download n (bytes_received cs))
      (count_all_lem cs (receive_bytes s n) u (add-IsInt s.download n))
count_all_lem (sent n ∷ cs) s u d =
    rw (← after_counts-add s.upload n (bytes_sent cs))
      (count_all_lem cs (send_bytes s n) (add-IsInt s.upload n) d)

pub ready-IsInt : (sc : StatChannel) → IsReady sc → IsInt sc
ready-IsInt sc r = record { second_fits = omega (arith, r.started); total_fits = r.total_fits }
