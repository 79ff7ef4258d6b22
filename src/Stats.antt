-- ===== src/Stats.antt =====
-- statistics.go: the rates of the two channels. All numbers are bit patterns of Go's int. `calc` takes
-- the milliseconds of its duration, and Go's division panics where they are 0.
pub mod Ticks
pub mod Settled
use ged2k.Prelude.{ℕ, ◌==◌, if◌then◌else◌, Outcome, ok, panic, ◌>>=◌}
use ged2k.Prelude.Words.{add_int, mul_int, div_int}

pub record StatChannel : Type 0 where
  pub second_counter : ℕ
  pub total_counter : ℕ
  pub average5_sec : ℕ
  pub average30_sec : ℕ

unfoldable pub add : StatChannel → ℕ → StatChannel
add sc count = record sc {
  second_counter = add_int sc.second_counter count;
  total_counter = add_int sc.total_counter count;
}

unfoldable pub add_channel : StatChannel → StatChannel → StatChannel
add_channel sc s = record sc {
  second_counter = add_int sc.second_counter s.second_counter;
  total_counter = add_int sc.total_counter s.total_counter;
}

unfoldable pub calc : StatChannel → ℕ → Outcome StatChannel
calc sc milliseconds =
    if milliseconds == 0
    then panic
    else (let sample = div_int (mul_int sc.second_counter 1000) milliseconds in
        ok (record sc {
          average5_sec = add_int (div_int (mul_int sc.average5_sec 4) 5) (div_int sample 5);
          average30_sec = add_int (div_int (mul_int sc.average30_sec 29) 30) (div_int sample 30);
          second_counter = 0;
        }))

-- The channels of uploads and of downloads.
pub record Statistics : Type 0 where
  pub upload : StatChannel
  pub download : StatChannel

abbrev pub empty_channel : StatChannel
empty_channel = record {
  second_counter = 0;
  total_counter = 0;
  average5_sec = 0;
  average30_sec = 0;
}

abbrev pub make_statistics : Statistics
make_statistics = record { upload = empty_channel; download = empty_channel }

unfoldable pub second_tick : Statistics → ℕ → Outcome Statistics
second_tick s milliseconds = do
  upload ← calc s.upload milliseconds
  download ← calc s.download milliseconds
  ok (record { upload = upload; download = download })

unfoldable pub receive_bytes : Statistics → ℕ → Statistics
receive_bytes s bytes = record s { download = add s.download bytes }

unfoldable pub send_bytes : Statistics → ℕ → Statistics
send_bytes s bytes = record s { upload = add s.upload bytes }

abbrev pub download_rate : Statistics → ℕ
download_rate s = s.download.average5_sec

abbrev pub upload_rate : Statistics → ℕ
upload_rate s = s.upload.average5_sec

abbrev pub download_low_pass_rate : Statistics → ℕ
download_low_pass_rate s = s.download.average30_sec

abbrev pub upload_low_pass_rate : Statistics → ℕ
upload_low_pass_rate s = s.upload.average30_sec
