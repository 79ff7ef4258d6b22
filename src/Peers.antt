-- ===== src/Peers.antt =====
-- policy.go: the peers of a transfer.
pub mod Limits
use ged2k.Prelude.{
  ℕ, ◌+◌, ◌-◌, ◌*◌, ◌/◌, ◌^◌, ◌==◌, ◌&&◌, ◌||◌, not, bit_and, bit_or, Bool, true, false, Option,
  none, some, List, [], ◌∷◌, ◌++◌, length, Outcome, ok, or_panic, ◌>>=◌, ltb, leb, if◌then◌else◌,
}
use ged2k.Proto.Basic.{Endpoint, empty_endpoint, endpoint_is_empty, is_local_address}

-- A time is a number of nanoseconds, and 0 is the zero time. A connection is a reference.
pub record Peer : Type 0 where
  pub source_flag : ℕ
  pub last_connected : ℕ
  pub next_connection : ℕ
  pub fail_count : ℕ
  pub peer_connection : Option ℕ
  pub endpoint : Endpoint
  pub speed : ℕ

abbrev pub is_connected : Peer → Bool
is_connected p = elim p.peer_connection [ none ↦ false | some c ↦ true ]

unfoldable pub is_connect_candidate : Peer → Bool
is_connect_candidate p = not (is_connected p || ltb 5 p.fail_count)

unfoldable pub is_erase_candidate : Peer → Bool
is_erase_candidate p =
    if is_connected p || is_connect_candidate p then false else ltb 0 p.fail_count

unfoldable pub from_resume_data : Peer → Bool
from_resume_data p = bit_and p.source_flag 0x8 == 0x8

-- The bits are different ones, so `|=` is a sum. The second test has the mask of the server, as in the
-- source, so it is never passed.
unfoldable pub source_rank : Peer → ℕ
source_rank p =
    (if bit_and p.source_flag 0x2 == 0x2 then 2 ^ 5 else 0)
    + (if bit_and p.source_flag 0x2 == 0x4 then 2 ^ 4 else 0)
    + (if bit_and p.source_flag 0x1 == 0x1 then 2 ^ 3 else 0)
    + (if bit_and p.source_flag 0x8 == 0x8 then 2 ^ 2 else 0)

unfoldable pub left_better_right_to_remove : Peer → Peer → Bool
unfolding from_resume_data
left_better_right_to_remove l r =
    if not (l.fail_count == r.fail_count)
    then ltb r.fail_count l.fail_count
    else if from_resume_data l && not (from_resume_data r)
        || from_resume_data r && not (from_resume_data l)
    then from_resume_data l
    else false

unfoldable pub left_better_right_to_connect : Peer → Peer → Bool
left_better_right_to_connect l r =
    if not (l.fail_count == r.fail_count)
    then ltb l.fail_count r.fail_count
    else if is_local_address l.endpoint && not (is_local_address r.endpoint)
        || is_local_address r.endpoint && not (is_local_address l.endpoint)
    then is_local_address l.endpoint
    else if not (l.last_connected == r.last_connected)
    then ltb l.last_connected r.last_connected
    else if not (l.next_connection == r.next_connection)
    then ltb l.next_connection r.next_connection
    else ltb (source_rank r) (source_rank l)

unfoldable pub same_endpoint : Endpoint → Endpoint → Bool
same_endpoint a b = a.ip == b.ip && a.port == b.port

-- The map from endpoints: a list in which a peer stands under its own endpoint.
pub record Policy : Type 0 where
  pub peers : List Peer
  pub max_peers : ℕ

unfoldable pub find_peer : Endpoint → List Peer → Option Peer
find_peer e [] = none
find_peer e (p ∷ ps) =
    let rest = find_peer e ps in if same_endpoint p.endpoint e then some p else rest

unfoldable pub delete_peer : Endpoint → List Peer → List Peer
delete_peer e [] = []
delete_peer e (p ∷ ps) =
    let rest = delete_peer e ps in if same_endpoint p.endpoint e then rest else p ∷ rest

-- A change of the peer that stands under an endpoint.
unfoldable pub change_peer : (Peer → Peer) → Endpoint → List Peer → List Peer
change_peer f e [] = []
change_peer f e (p ∷ ps) =
    let rest = change_peer f e ps in if same_endpoint p.endpoint e then f p ∷ rest else p ∷ rest

-- `policy.peers[candidate]` is dereferenced, so a missing peer is a panic.
unfoldable pub replaces : (Peer → Peer → Bool) → List Peer → Endpoint → Peer → Outcome Bool
replaces better peers candidate p =
    if endpoint_is_empty candidate
    then ok true
    else (do old ← or_panic (find_peer candidate peers); ok (not (better old p)))

-- The loop of `erasePeers`, over the peers in the order in which the map gives them. Nothing is
-- deleted in the loop, so its break is taken at once or never.
unfoldable pub choose_erase : List Peer → List Peer → Endpoint → Outcome Endpoint
choose_erase peers [] candidate = ok candidate
choose_erase peers (p ∷ ps) candidate = do
  better ←
      if is_erase_candidate p
      then replaces left_better_right_to_remove peers candidate p
      else ok false
  choose_erase peers ps (if better then p.endpoint else candidate)

-- For no peers at all the mark is -1 in the source and 0 here: no length is below either.
unfoldable pub low_watermark : ℕ → ℕ
low_watermark max_peers =
    if max_peers * 95 / 100 == max_peers then max_peers - 1 else max_peers * 95 / 100

-- `order` is the order of the map in this call.
unfoldable pub erase_peers : (List Peer → List Peer) → Policy → Outcome (Policy × Bool)
erase_peers order policy = if length policy.peers == 0 then ok (policy, false) else (do
  candidate ←
      if ltb (length policy.peers) (low_watermark policy.max_peers)
      then ok empty_endpoint
      else choose_erase policy.peers (order policy.peers) empty_endpoint
  let peers =
      if endpoint_is_empty candidate then policy.peers else delete_peer candidate policy.peers
  ok (record policy { peers = peers }, not (length policy.peers == length peers)))

-- The source flags are a byte.
unfoldable pub insert_peer : Policy → Peer → Policy × Bool
insert_peer policy p = elim (find_peer p.endpoint policy.peers) [
  | some old ↦ (
    record policy {
      peers =
          change_peer (λ q. record q { source_flag = bit_or q.source_flag p.source_flag })
            p.endpoint policy.peers;
    },
    false,
  )
  | none ↦ (record policy { peers = policy.peers ++ (p ∷ []) }, true)
]

unfoldable pub add_peer : (List Peer → List Peer) → Policy → Peer → Outcome (Policy × Bool)
add_peer order policy p =
    if leb policy.max_peers (length policy.peers)
    then (do
      erased ← erase_peers order policy
      ok (if erased.1 then insert_peer erased.0 p else (erased.0, false)))
    else ok (insert_peer policy p)

-- A new incoming connection, a reference to it and its endpoint.
unfoldable pub new_connection :
    (List Peer → List Peer) → Policy → ℕ → Endpoint → Outcome (Policy × Bool)
new_connection order policy connection endpoint = elim (find_peer endpoint policy.peers) [
  | some peer ↦
      if is_connected peer
      then ok (policy, false)
      else ok (
        record policy {
          peers =
              change_peer (λ q. record q { peer_connection = some connection }) endpoint
                policy.peers;
        },
        true,
      )
  | none ↦ add_peer order policy (record {
    source_flag = 0x1;
    last_connected = 0;
    next_connection = 0;
    fail_count = 0;
    peer_connection = some connection;
    endpoint = endpoint;
    speed = 0;
  })
]

unfoldable pub num_connect_candidates : List Peer → ℕ
num_connect_candidates [] = 0
num_connect_candidates (p ∷ ps) =
    (if is_connect_candidate p then 1 else 0) + num_connect_candidates ps

-- What `FindConnectCandidate` waits for: ten seconds for each failure, and the time of the next try.
unfoldable pub must_wait : ℕ → Peer → Bool
must_wait t p =
    not (p.last_connected == 0) && ltb t (p.last_connected + 1000000000 * (p.fail_count * 10))
    || not (p.next_connection == 0) && ltb t p.next_connection

-- One round of its loop: whether the peer becomes the candidate. The candidate is looked up only if
-- there is one.
unfoldable pub is_next_candidate : ℕ → List Peer → Endpoint → Peer → Outcome Bool
is_next_candidate t peers candidate p = if not (is_connect_candidate p) then ok false else (do
  better ← replaces left_better_right_to_connect peers candidate p
  ok (better && not (must_wait t p)))

unfoldable pub choose_connect : ℕ → List Peer → List Peer → Endpoint → Outcome Endpoint
choose_connect t peers [] candidate = ok candidate
choose_connect t peers (p ∷ ps) candidate = do
  next ← is_next_candidate t peers candidate p
  choose_connect t peers ps (if next then p.endpoint else candidate)

unfoldable pub find_connect_candidate : (List Peer → List Peer) → Policy → ℕ → Outcome (Option Peer)
find_connect_candidate order policy t = do
  candidate ← choose_connect t policy.peers (order policy.peers) empty_endpoint
  ok (find_peer candidate policy.peers)

-- A connection that has a peer is closed at the time `now`, with an error or without.
unfoldable pub peer_connection_closed : Policy → ℕ → Bool → Endpoint → Bool → Policy
peer_connection_closed policy now has_peer endpoint failed =
    if has_peer
    then record policy {
      peers =
          change_peer
            (λ p. record p {
              last_connected = now;
              peer_connection = none;
              fail_count = p.fail_count + (if failed then 1 else 0);
            })
            endpoint policy.peers;
    }
    else policy
