-- ===== src/Checks/Rates.antt =====
-- statistics.go: two seconds with 2000 bytes received and 1000 bytes sent in each.
use ged2k.Prelude.{◌≡◌, refl, [], ◌∷◌, ok, arith}
use ged2k.Stats.{StatChannel, Statistics, empty_channel}
use ged2k.Stats.Ticks.{received, sent, Second, IsReady, bytes_received, bytes_sent}
use ged2k.Stats.Settled.{IsSteady, HasSettled, pass_seconds, bytes_over, pass_seconds-HasSettled}

abbrev quick : Second
quick = record { counts = received 2000 ∷ sent 1000 ∷ []; milliseconds = 1000 }

abbrev slow : Second
slow = record {
  counts = sent 500 ∷ received 1500 ∷ sent 1500 ∷ received 2500 ∷ [];
  milliseconds = 2000;
}

abbrev busy : StatChannel
busy = record {
  second_counter = 0;
  total_counter = 90000;
  average5_sec = 4000;
  average30_sec = 3000;
}

abbrev start : Statistics
start = record { upload = empty_channel; download = busy }

quick-IsSteady : IsSteady 2000 1000 quick
unfolding bytes_received bytes_sent
quick-IsSteady = record {
  long = omega arith;
  short = omega arith;
  receives = record { fits = omega arith; sample = refl };
  sends = record { fits = omega arith; sample = refl };
}

slow-IsSteady : IsSteady 2000 1000 slow
unfolding bytes_received bytes_sent
slow-IsSteady = record {
  long = omega arith;
  short = omega arith;
  receives = record { fits = omega arith; sample = refl };
  sends = record { fits = omega arith; sample = refl };
}

busy-IsReady : IsReady busy
busy-IsReady = record {
  started = refl;
  total_fits = omega arith;
  average5_fits = omega arith;
  average30_fits = omega arith;
}

empty-IsReady : IsReady empty_channel
empty-IsReady = record {
  started = refl;
  total_fits = omega arith;
  average5_fits = omega arith;
  average30_fits = omega arith;
}

pass_seconds-HasSettled_example :
    (after : Statistics) × (pass_seconds (quick ∷ slow ∷ []) start ≡ ok after)
    × HasSettled 2 2000 (bytes_over bytes_received (quick ∷ slow ∷ [])) busy after.download
    × HasSettled 2 1000 (bytes_over bytes_sent (quick ∷ slow ∷ [])) empty_channel after.upload
pass_seconds-HasSettled_example =
    pass_seconds-HasSettled 2000 1000 (quick ∷ slow ∷ []) start
      (quick-IsSteady, (slow-IsSteady, tt)) (omega arith) (omega arith) busy-IsReady empty-IsReady
