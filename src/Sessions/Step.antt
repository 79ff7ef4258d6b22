-- ===== src/Sessions/Step.antt =====
-- session.go: the cases of the select in `Session.Tick`; the files and listeners of the session are
-- left out.
use ged2k.Prelude.{
  ℕ, ◌+◌, ◌*◌, ◌&&◌, ◌||◌, ◌==◌, Bool, true, false, if◌then◌else◌, Option, none, some, List, [],
  ◌∷◌, ◌++◌, same_bytes, Outcome, ok, panic, ◌>>=◌,
}
use ged2k.Proto.Basic.{Endpoint}
use ged2k.Proto.Server.{FoundFileSources}
use ged2k.Peers.{add_peer}
use ged2k.Stats.{receive_bytes, send_bytes}
use ged2k.Sessions.{
  Session, Server, new_server, Answer, Output, start_server, close_socket, find_key, set_flags,
  close_each, register_link, unregister_link, close_transfer, count_stat, nothing_left,
}
use ged2k.Sessions.Commands.{Command, on_command}
use ged2k.Sessions.Tick.{second, Limits, tick}

-- The packets of the server that the session looks at.
pub data Packet : Type 0 where
  discarded : Packet
  sources : FoundFileSources → Packet
  logged : Packet

pub data Message : Type 0 where
  server_closed server_connected exit : Message
  told : Command → Message
  server_packet : Packet → Message
  received bytes_sent : ℕ → ℕ → Message
  link_registered : ℕ → Message
  link_closed : ℕ → Bool → Message
  transfer_finished transfer_paused resume_data_read transfer_failed transfer_closed : ℕ → Message
  resume_data : Message
  timer : ℕ → Message

-- The server connection ends: the next one starts, unless the session has stopped.
unfoldable pub unregister_server : Session → Session × List Output
unregister_server s =
    if s.stopped && nothing_left s
    then (record s { server = none; execute = false }, [])
    else if s.candidate
    then (record s { server = some new_server; candidate = false }, start_server ∷ [])
    else (record s { server = none }, [])

-- The connection that registers is the one that the session holds. Its thirty seconds start later.
unfoldable pub register_server : ℕ → Option Server → Session → Answer
register_server now none s = if s.candidate then panic else ok (s, [])
register_server now (some sv) s = ok (
  record s {
    server = some (record sv { connected = true; last_received = some (now + 30 * second) });
  },
  if s.candidate || sv.disconnect_requested then close_socket ∷ [] else [],
)

module _ (limits : Limits) where
  unfoldable pub add_sources : ℕ → List Endpoint → Session → Outcome Session
  add_sources r [] s = ok s
  add_sources r (e ∷ rest) s = do
    added ← add_peer limits.order (s.jobs r).flags.policy (record {
      source_flag = 0x2;
      last_connected = 0;
      next_connection = 0;
      fail_count = 0;
      peer_connection = none;
      endpoint = e;
      speed = 0;
    })
    add_sources r rest (set_flags (λ fl. record fl { policy = added.0 }) r s)

  unfoldable pub on_packet : Packet → Session → Answer
  on_packet discarded s = ok (s, [])
  on_packet logged s = ok (s, [])
  on_packet (sources found) s = elim (find_key same_bytes found.hash s.transfers) [
    | none ↦ ok (s, [])
    | some r ↦ do added ← add_sources r found.sources s; ok (added, [])
  ]

  -- The log reads the time of the server connection, which must be there.
  unfoldable pub on_server_packet : ℕ → Packet → Option Server → Session → Answer
  on_server_packet now p none s = panic
  on_server_packet now p (some sv) s =
      on_packet p (record s { server = some (record sv { last_received = some now }) })

  -- One round of the loop at the time `now`. `none` is a timer whose loop ran out of fuel.
  unfoldable pub step : ℕ → Message → Session → Outcome (Option (Session × List Output))
  step now server_closed s = ok (some (unregister_server s))
  step now server_connected s = register_server now s.server s >>= λ r. ok (some r)
  step now exit s = ok (some (record s { execute = false }, []))
  step now (told c) s = on_command limits now c s >>= λ r. ok (some r)
  step now (server_packet p) s = on_server_packet now p s.server s >>= λ r. ok (some r)
  step now (received r n) s = ok (some (count_stat receive_bytes r n s, []))
  step now (bytes_sent r n) s = ok (some (count_stat send_bytes r n s, []))
  step now (link_registered r) s = register_link r s >>= λ a. ok (some a)
  step now (link_closed r failed) s = ok (some (unregister_link now r failed s))
  step now (transfer_finished r) s =
      close_each (λ l. elim l.transfer [ none ↦ false | some k ↦ k == r ]) s.connections
        (set_flags (λ fl. record fl { finished = true }) r s)
      >>= λ a. ok (some a)
  step now (transfer_paused r) s = ok (some (set_flags (λ fl. record fl { paused = true }) r s, []))
  step now (resume_data_read r) s =
      ok (some (set_flags (λ fl. record fl { reading_resume_data = false }) r s, []))
  step now (transfer_failed r) s =
      ok (some (set_flags (λ fl. record fl { last_error = true }) r s, []))
  step now (transfer_closed r) s = ok (some (close_transfer r s, []))
  step now resume_data s = ok (some (s, []))
  step now (timer fuel) s = tick limits now fuel s

  -- The loop over messages and their times, with all outputs.
  unfoldable pub run_all : List (ℕ × Message) → Session → Outcome (Option (Session × List Output))
  run_all [] s = ok (some (s, []))
  run_all ((now, m) ∷ ms) s =
      if s.execute
      then (step now m s >>= λ o. elim o [
        | none ↦ ok none
        | some (t, outputs) ↦ run_all ms t >>= λ p. elim p [
          | none ↦ ok none
          | some (u, more) ↦ ok (some (u, outputs ++ more))
        ]
      ])
      else ok (some (s, []))
