-- ===== src/Sessions.antt =====
-- session.go: the state of the loop `Session.Tick`, and what its cases do with connections and
-- transfers. Both are references, since the maps of the session, the transfers and the messages share
-- them. What the loop starts or sends is a list of outputs.
pub mod Tick
pub mod Commands
pub mod Greeting
pub mod Step
pub mod Quit
pub mod Ends
pub mod Free
pub mod Limit
use ged2k.Prelude.{
  ◌>>=◌, ℕ, ◌+◌, ◌==◌, ◌&&◌, not, Bool, true, false, if◌then◌else◌, Option, none, some, List, [],
  ◌∷◌, ◌++◌, same_bytes, Outcome, ok, panic,
}
use ged2k.Proto.Basic.{Ed2kHash, Endpoint}
use ged2k.Peers.{Peer, same_endpoint, change_peer}
use ged2k.Stats.{Statistics}
use ged2k.Transfers.{TransferFlags}

-- A map from keys, compared by `same`.
unfoldable pub find_key {ℓ} : {K V : Type ℓ} → (K → K → Bool) → K → List (K × V) → Option V
find_key same k [] = none
find_key same k ((j, v) ∷ rest) =
    let others = find_key same k rest in if same j k then some v else others

unfoldable pub set_key {ℓ} : {K V : Type ℓ} → (K → K → Bool) → K → V → List (K × V) → List (K × V)
set_key same k v [] = (k, v) ∷ []
set_key same k v ((j, w) ∷ rest) =
    let others = set_key same k v rest in if same j k then (k, v) ∷ rest else (j, w) ∷ others

unfoldable pub delete_key {ℓ} : {K V : Type ℓ} → (K → K → Bool) → K → List (K × V) → List (K × V)
delete_key same k [] = []
delete_key same k ((j, v) ∷ rest) =
    let others = delete_key same k rest in if same j k then others else (j, v) ∷ others

-- A store with one reference changed.
unfoldable pub update {ℓ} : {A : Type ℓ} → (ℕ → A) → ℕ → A → ℕ → A
update store r v k = if k == r then v else store k

unfoldable pub is_none {ℓ} : {A : Type ℓ} → List A → Bool
is_none [] = true
is_none (x ∷ xs) = false

-- What the session reads and writes of a `PeerConnection`. `peer` is the endpoint of its peer in the
-- policy of its transfer.
pub record Link : Type 0 where
  pub endpoint : Endpoint
  pub transfer : Option ℕ
  pub peer : Option Endpoint
  pub connected : Bool
  pub disconnect_later : Bool
  pub closed_by_request : Bool
  pub dialed : Bool
  pub stat : Statistics

-- The same of a `Transfer`.
pub record Job : Type 0 where
  pub hash : Ed2kHash
  pub flags : TransferFlags
  pub stat : Statistics

-- The times are numbers, none for the zero time.
pub record Server : Type 0 where
  pub connected : Bool
  pub disconnect_requested : Bool
  pub last_received : Option ℕ
  pub last_sent : Option ℕ

abbrev pub new_server : Server
new_server = record {
  connected = false;
  disconnect_requested = false;
  last_received = none;
  last_sent = none;
}

-- `next_link` and `next_job` are references not yet in use.
pub record Session : Type 0 where
  pub links : ℕ → Link
  pub jobs : ℕ → Job
  pub next_link : ℕ
  pub next_job : ℕ
  pub connections : List (Endpoint × ℕ)
  pub transfers : List (Ed2kHash × ℕ)
  pub server : Option Server
  pub candidate : Bool
  pub stopped : Bool
  pub execute : Bool
  pub stat : Statistics
  pub last_tick : ℕ

pub data Output : Type 0 where
  start_server close_server close_socket : Output
  stop_transfer start_transfer start_finished : ℕ → Output
  close_link close_dialed start_link : ℕ → Output
  search server_list : Output
  sources_request : Ed2kHash → Output

-- What a case of the select gives.
abbrev pub Answer : Type 0
Answer = Outcome (Session × List Output)

unfoldable pub nothing_left : Session → Bool
nothing_left s = is_none s.connections && is_none s.transfers

unfoldable pub change_link : (Link → Link) → ℕ → Session → Session
change_link f r s = record s { links = update s.links r (f (s.links r)) }

unfoldable pub change_job : (Job → Job) → ℕ → Session → Session
change_job f r s = record s { jobs = update s.jobs r (f (s.jobs r)) }

unfoldable pub set_flags : (TransferFlags → TransferFlags) → ℕ → Session → Session
set_flags f = change_job (λ j. record j { flags = f j.flags })

-- A change of a peer in the policy of a transfer.
unfoldable pub change_peer_of : (Peer → Peer) → ℕ → Endpoint → Session → Session
change_peer_of f r e =
    set_flags
      (λ fl. record fl { policy = record fl.policy { peers = change_peer f e fl.policy.peers } }) r

-- `PeerConnection.Close`, called in the loop itself.
unfoldable pub close : ℕ → Session → Answer
close r s =
    if (s.links r).connected
    then (if (s.links r).dialed then ok (s, close_dialed r ∷ []) else panic)
    else ok (change_link (λ l. record l { disconnect_later = true }) r s, [])

-- `Close` of the connections of the map that pass a test.
unfoldable pub close_each : (Link → Bool) → List (Endpoint × ℕ) → Session → Answer
close_each test [] s = ok (s, [])
close_each test ((e, r) ∷ rest) s = do
  closed ← if test (s.links r) then close r s else ok (s, [])
  others ← close_each test rest closed.0
  ok (others.0, closed.1 ++ others.1)

unfoldable pub stop_all : List (Ed2kHash × ℕ) → List Output
stop_all [] = []
stop_all ((h, r) ∷ rest) = stop_transfer r ∷ stop_all rest

-- A connection that the loop registers. It is closed first if that was asked for, and only then
-- marked as connected.
unfoldable pub register_link : ℕ → Session → Answer
register_link r s = do
  closed ← if (s.links r).disconnect_later then close r s else ok (s, [])
  let t = change_link (λ l. record l { connected = true }) r closed.0
  ok (
    record t { connections = set_key same_endpoint (t.links r).endpoint r t.connections },
    closed.1,
  )

-- The peer of a connection that has ended. A connection that has a peer has its transfer.
unfoldable pub forget_peer : ℕ → Bool → ℕ → Option ℕ → Option Endpoint → Session → Session
forget_peer now failed r (some job) (some e) s =
    change_peer_of
      (λ p. record p {
        peer_connection = none;
        last_connected = now;
        fail_count = p.fail_count + (if not (s.links r).closed_by_request && failed then 1 else 0);
      })
      job e s
forget_peer now failed r none (some e) s = s
forget_peer now failed r (some job) none s = s
forget_peer now failed r none none s = s

unfoldable pub quit_or_stop : Session → Session × List Output
quit_or_stop s =
    if s.stopped && is_none s.connections
    then (if is_none s.transfers
        then (record s { execute = false }, [])
        else (s, stop_all s.transfers))
    else (s, [])

unfoldable pub unregister_link : ℕ → ℕ → Bool → Session → Session × List Output
unregister_link now r failed s =
    let l = s.links r in
    let t = record s { connections = delete_key same_endpoint l.endpoint s.connections } in
    quit_or_stop (
      change_link (λ l. record l { transfer = none; peer = none }) r
        (forget_peer now failed r l.transfer l.peer t))

unfoldable pub close_transfer : ℕ → Session → Session
close_transfer r s =
    let t = record s { transfers = delete_key same_bytes (s.jobs r).hash s.transfers } in
    if t.stopped && nothing_left t then record t { execute = false } else t

unfoldable pub count_stat : (Statistics → ℕ → Statistics) → ℕ → ℕ → Session → Session
count_stat add r n s =
    let t =
      change_link (λ l. record l { stat = add l.stat n }) r (record s { stat = add s.stat n }) in
    elim (s.links r).transfer [
      | none ↦ t
      | some job ↦ change_job (λ j. record j { stat = add j.stat n }) job t
    ]
