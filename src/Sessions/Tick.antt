-- ===== src/Sessions/Tick.antt =====
-- session.go: the case of `Tick` for its timer, with the loop that hands out connections. A map is
-- gone through in the order of its list; times are numbers of nanoseconds.
use ged2k.Prelude.{
  ℕ, zero, suc, ◌+◌, ◌-◌, ◌*◌, ◌/◌, ◌^◌, ◌&&◌, ◌||◌, not, ltb, Bool, true, false, if◌then◌else◌,
  Option, none, some, List, [], ◌∷◌, ◌++◌, length, Outcome, ok, ◌>>=◌,
}
use ged2k.Prelude.Int.{ℤ, pos, dec, is_zero}
use ged2k.Proto.Basic.{Ed2kHash, Endpoint}
use ged2k.Peers.{Peer, same_endpoint, find_connect_candidate}
use ged2k.Stats.{make_statistics, second_tick}
use ged2k.Transfers.{want_more_peers, want_more_sources}
use ged2k.Sessions.{
  Session, Server, Output, close_server, server_list, sources_request, start_link, find_key,
  set_key, update, is_none, change_link, change_job, change_peer_of, set_flags,
}

-- What the loop uses of the configuration, and the order in which a policy's map gives its peers.
pub record Limits : Type 0 where
  pub max_connects_per_second : ℕ
  pub max_connections : ℕ
  pub reconnect_timeout : ℕ
  pub order : List Peer → List Peer

abbrev pub second : ℕ
second = 1000000000

-- `Sub` of times: at most the longest duration. The clock does not go back.
abbrev pub elapsed : ℕ → ℕ → ℕ
elapsed now last = if ltb (now - last) (2 ^ 63) then now - last else 2 ^ 63 - 1

-- The variables of the loop that hands out connections.
pub record Round : Type 0 where
  pub session : Session
  pub reserve : ℤ
  pub steps : ℕ
  pub outputs : List Output

abbrev pub is_up : Option Server → Bool
is_up none = false
is_up (some sv) = sv.connected

-- A transfer that wants sources asks the server, and then not for a minute.
unfoldable pub ask_sources : ℕ → ℕ → Round → Round
ask_sources now r t =
    let flags = (t.session.jobs r).flags in
    if want_more_sources now flags && is_up t.session.server
    then record t {
      session =
          set_flags (λ fl. record fl { request_sources_next_time = some (now + 60 * second) }) r
            t.session;
      outputs = t.outputs ++ (sources_request (t.session.jobs r).hash ∷ []);
    }
    else t

-- A new connection to a peer, under a new reference.
unfoldable pub connect_peer : ℕ → ℕ → Endpoint → Round → Round
connect_peer now r e t =
    let s = t.session in
    let n = s.next_link in
    let linked =
      change_peer_of (λ p. record p { last_connected = now; peer_connection = some n }) r e s in
    record t {
      session = record linked {
        links = update s.links n (record {
          endpoint = e;
          transfer = some r;
          peer = some e;
          connected = false;
          disconnect_later = false;
          closed_by_request = false;
          dialed = false;
          stat = make_statistics;
        });
        next_link = suc n;
        connections = set_key same_endpoint e n s.connections;
      };
      reserve = dec t.reserve;
      steps = 0;
      outputs = t.outputs ++ (start_link n ∷ []);
    }

-- A peer that has a connection already is put off for fifteen seconds.
unfoldable pub put_off : ℕ → ℕ → Endpoint → Round → Round
put_off now r e t = record t {
  session = change_peer_of (λ p. record p { next_connection = now + 15 * second }) r e t.session;
}

unfoldable pub try_peer : ℕ → ℕ → Option Peer → Round → Round
try_peer now r none t = t
try_peer now r (some p) t = elim (find_key same_endpoint p.endpoint t.session.connections) [
  | none ↦ connect_peer now r p.endpoint t
  | some link ↦ put_off now r p.endpoint t
]

module _ (limits : Limits) (now : ℕ) where
  -- The body of the inner loop, for the transfer `r`.
  unfoldable pub visit : ℕ → Round → Outcome Round
  visit r t =
      let asked = ask_sources now r t in
      let flags = (asked.session.jobs r).flags in
      if want_more_peers flags
      then (do
        candidate ← find_connect_candidate limits.order flags.policy now
        ok (try_peer now r candidate asked))
      else ok asked

  unfoldable pub visit_all : List (Ed2kHash × ℕ) → Round → Outcome Round
  visit_all [] t = ok t
  visit_all ((h, r) ∷ rest) t = do t' ← visit r t; visit_all rest t'

  unfoldable pub is_over : List (Ed2kHash × ℕ) → Round → Bool
  is_over transfers t = ltb (length transfers * 2) t.steps || is_zero t.reserve

  -- The outer loop, on fuel: none if it runs out.
  unfoldable pub enumerate : List (Ed2kHash × ℕ) → ℕ → Round → Outcome (Option Round)
  enumerate transfers zero t = ok none
  enumerate transfers (suc fuel) t = visit_all transfers t >>= λ t'.
      let stepped = record t' { steps = suc t'.steps } in
      let again = enumerate transfers fuel stepped in
      if is_over transfers stepped then ok (some stepped) else again

  unfoldable pub hand_out : ℕ → Session → Outcome (Option (Session × List Output))
  hand_out fuel s =
      if not (is_none s.transfers) && ltb (length s.connections) limits.max_connections
      then (do
        r ← enumerate s.transfers fuel (record {
          session = s;
          reserve = pos limits.max_connects_per_second;
          steps = 0;
          outputs = [];
        })
        ok (elim r [ none ↦ none | some t ↦ some (t.session, t.outputs) ]))
      else ok (some (s, []))

  abbrev is_after : ℕ → Option ℕ → Bool
  is_after wait none = true
  is_after wait (some t) = ltb (t + wait) now

  -- A server from which nothing came for thirty seconds is asked for its list.
  unfoldable pub ping_server : Server → Server × List Output
  ping_server sv = elim sv.last_received [
    | none ↦ (sv, [])
    | some t ↦
        if ltb (t + 30 * second) now && is_after (30 * second) sv.last_sent
        then (record sv { last_sent = some now }, server_list ∷ [])
        else (sv, [])
  ]

  -- One from which nothing came for longer is given up for a new connection.
  unfoldable pub reconnects : Server → Bool
  reconnects sv = elim sv.last_received [
    | none ↦ false
    | some t ↦ ltb 0 limits.reconnect_timeout && ltb (t + limits.reconnect_timeout * second) now
  ]

  unfoldable pub watch_server : Option Server → Session → Session × List Output
  watch_server none s = (s, [])
  watch_server (some sv) s =
      let (pinged, outputs) = ping_server sv in
      if reconnects pinged
      then (
        record s {
          server = some (record pinged { disconnect_requested = true });
          candidate = true;
        },
        outputs ++ (close_server ∷ []),
      )
      else (record s { server = some pinged }, outputs)

  unfoldable pub tick_links : List (Endpoint × ℕ) → ℕ → Session → Outcome Session
  tick_links [] ms s = ok s
  tick_links ((e, r) ∷ rest) ms s = do
    stat ← second_tick (s.links r).stat ms
    tick_links rest ms (change_link (λ l. record l { stat = stat }) r s)

  unfoldable pub tick_jobs : List (Ed2kHash × ℕ) → ℕ → Session → Outcome Session
  tick_jobs [] ms s = ok s
  tick_jobs ((h, r) ∷ rest) ms s = do
    stat ← second_tick (s.jobs r).stat ms
    tick_jobs rest ms (change_job (λ j. record j { stat = stat }) r s)

  unfoldable pub tick_stats : ℕ → Session → Outcome Session
  tick_stats ms s = do
    linked ← tick_links s.connections ms s
    stat ← second_tick linked.stat ms
    tick_jobs linked.transfers ms (record linked { stat = stat })

  -- The whole case. `none` is a loop that ran out of fuel.
  unfoldable pub tick : ℕ → Session → Outcome (Option (Session × List Output))
  tick fuel s = hand_out fuel (watch_server s.server s).0 >>= λ handed. elim handed [
    | none ↦ ok none
    | some (t, outputs) ↦ do
      counted ← tick_stats (elapsed now t.last_tick / 1000000) t
      ok (some (record counted { last_tick = now }, (watch_server s.server s).1 ++ outputs))
  ]
