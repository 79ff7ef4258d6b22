-- ===== src/Sessions/Commands.antt =====
-- session.go: the commands of the case of `Session.Tick` for `comm`. A command comes as its words say,
-- with the texts and files already read.
use ged2k.Prelude.{
  ℕ, suc, ◌+◌, ◌*◌, ◌&&◌, not, Bool, true, false, if◌then◌else◌, Option, none, some, List, [], ◌∷◌,
  ◌++◌, same_bytes, Outcome, ok, ◌>>=◌,
}
use ged2k.Proto.Basic.{Ed2kHash, Endpoint}
use ged2k.Peers.{Peer, Policy, add_peer}
use ged2k.Stats.{make_statistics}
use ged2k.Sessions.{
  Session, Server, new_server, Job, Answer, Output, start_server, close_server, start_transfer,
  start_finished, close_link, search, server_list, set_key, update, is_none, set_flags, close_each,
  stop_all, nothing_left,
}
use ged2k.Sessions.Tick.{Limits}

pub data Command : Type 0 where
  stop hello disconnect search_for list_servers peer other : Command
  connect : Command
  load : List Ed2kHash → Command
  transfer_to : Ed2kHash → Command
  restore : Ed2kHash → Bool → Command
  unreadable : Command

abbrev max_peer_list_size : ℕ
max_peer_list_size = 100

-- 127.0.0.1, with its first number in the lowest byte.
abbrev local_peer : ℕ → Peer
local_peer port = record {
  source_flag = b'S';
  last_connected = 0;
  next_connection = 0;
  fail_count = 0;
  peer_connection = none;
  endpoint = record { ip = 127 + 256 * 256 * 256; port = port };
  speed = 0;
}

abbrev new_job : Ed2kHash → Policy → Job
new_job hash policy = record {
  hash = hash;
  flags = record {
    last_error = false;
    paused = false;
    finished = false;
    reading_resume_data = false;
    stopped = false;
    request_sources_next_time = none;
    policy = policy;
  };
  stat = make_statistics;
}

abbrev pub empty_policy : Policy
empty_policy = record { peers = []; max_peers = max_peer_list_size }

unfoldable pub mark_stopped : List (Ed2kHash × ℕ) → Session → Session
mark_stopped [] s = s
mark_stopped ((h, r) ∷ rest) s =
    mark_stopped rest (set_flags (λ fl. record fl { stopped = true }) r s)

unfoldable pub close_links : List (Endpoint × ℕ) → List Output
close_links [] = []
close_links ((e, r) ∷ rest) = close_link r ∷ close_links rest

unfoldable pub close_held : Option Server → List Output
close_held none = []
close_held (some sv) = close_server ∷ []

unfoldable pub on_stop : Session → Session × List Output
on_stop s = if nothing_left s then (record s { stopped = true; execute = false }, []) else (
  mark_stopped s.transfers (record s { stopped = true }),
  (if is_none s.connections then stop_all s.transfers else [])
      ++ (close_links s.connections ++ close_held s.server),
)

unfoldable pub on_connect : Option Server → Session → Session × List Output
on_connect none s = (record s { server = some new_server }, start_server ∷ [])
on_connect (some sv) s = (
  record s {
    candidate = true;
    server = some (if sv.connected then record sv { disconnect_requested = true } else sv);
  },
  if sv.connected && not sv.disconnect_requested then close_server ∷ [] else [],
)

unfoldable pub drop_server : Option Server → Session → Session × List Output
drop_server none s = (s, [])
drop_server (some sv) s = (
  record s { server = some (record sv { disconnect_requested = true }) },
  if sv.connected && not sv.disconnect_requested then close_server ∷ [] else [],
)

unfoldable pub on_disconnect : Session → Answer
on_disconnect s = do
  let (dropped, outputs) = drop_server s.server s
  closed ← close_each (λ l. true) dropped.connections dropped
  ok (closed.0, outputs ++ closed.1)

-- A packet to the server sets the time of the last one.
unfoldable pub to_server : ℕ → Output → Option Server → Session → Session × List Output
to_server now o none s = (s, [])
to_server now o (some sv) s =
    if sv.connected
    then (record s { server = some (record sv { last_sent = some now }) }, o ∷ [])
    else (s, [])

-- A new transfer, under a new reference.
unfoldable pub add_job : Ed2kHash → Policy → Session → Session
add_job hash policy s = record s {
  jobs = update s.jobs s.next_job (new_job hash policy);
  next_job = suc s.next_job;
}

-- The command that reads files of parameters, with the hashes of those that could be read.
unfoldable pub load_jobs : List Ed2kHash → Session → Session × List Output
load_jobs [] s = (s, [])
load_jobs (hash ∷ hashes) s =
    let rest = load_jobs hashes (add_job hash empty_policy s) in
    (rest.0, start_transfer s.next_job ∷ rest.1)

module _ (limits : Limits) where
  -- The two peers that a new transfer is given.
  unfoldable pub with_local_peers : Outcome Policy
  with_local_peers = do
    one ← add_peer limits.order empty_policy (local_peer 4662)
    two ← add_peer limits.order one.0 (local_peer 4663)
    ok two.0

  unfoldable pub start_job : Ed2kHash → Policy → Output → Session → Session × List Output
  start_job hash policy o s = (
    record (add_job hash policy s) { transfers = set_key same_bytes hash s.next_job s.transfers },
    o ∷ [],
  )

  unfoldable pub on_command : ℕ → Command → Session → Answer
  on_command now stop s = ok (on_stop s)
  on_command now hello s = ok (s, [])
  on_command now disconnect s = on_disconnect s
  on_command now search_for s = ok (to_server now search s.server s)
  on_command now list_servers s = ok (to_server now server_list s.server s)
  on_command now peer s = ok (s, [])
  on_command now other s = ok (s, [])
  on_command now connect s = ok (on_connect s.server s)
  on_command now (load hashes) s = ok (load_jobs hashes s)
  on_command now (transfer_to hash) s = do
    policy ← with_local_peers
    ok (start_job hash policy (start_transfer s.next_job) s)
  on_command now (restore hash true) s = do
    policy ← with_local_peers
    ok (start_job hash policy (start_transfer s.next_job) s)
  on_command now (restore hash false) s =
      ok (start_job hash empty_policy (start_finished s.next_job) s)
  on_command now unreadable s = ok (s, [])
