-- ===== src/Checks/Servers.antt =====
-- server_connection.go: a server that sends nothing.
use ged2k.Prelude.{ℕ, true, some, List, [], Ensures}
use ged2k.Servers.{Network, start}
use ged2k.Servers.Ends.{EndsOnce, start-EndsOnce}
use ged2k.Checks.Frames.{from_bytes}

abbrev line : Network (List ℕ)
line = record { io = from_bytes; write = λ bytes s. (true, s) }

start-EndsOnce_example : Ensures EndsOnce (start line 5 3 (some []))
start-EndsOnce_example = start-EndsOnce line 5 3 (some [])
