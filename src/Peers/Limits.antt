-- ===== src/Peers/Limits.antt =====
-- policy.go: `AddPeer` and what it calls.
use ged2k.Prelude.{
  ℕ, ◌&&◌, ◌+◌, ◌<◌, ◌≤◌, ◌≡◌, ◌⊎◌, refl, ◌∙◌, ◌==◌, not, bit_or, Bool, true, false, Option, none,
  some, List, [], ◌∷◌, ◌++◌, length, length-append, All, ok, ltb, leb, if◌then◌else◌, Bool-cases,
  inl, inr, arith,
}
use ged2k.Proto.Basic.{Endpoint, empty_endpoint, endpoint_is_empty}
use ged2k.Peers.{
  Peer, Policy, same_endpoint, find_peer, delete_peer, change_peer, replaces, is_erase_candidate,
  left_better_right_to_remove, choose_erase, low_watermark, erase_peers, insert_peer, add_peer,
  choose_connect, is_next_candidate, is_connect_candidate, left_better_right_to_connect, must_wait,
  find_connect_candidate,
}

abbrev pub IsKnown : List Peer → Endpoint → Type 0
IsKnown peers e = (p : Peer) × (find_peer e peers ≡ some p)

-- The map gives its own peers, in whatever order.
abbrev pub IsOrderOf : List Peer → List Peer → Type 0
IsOrderOf order peers = All (λ p. IsKnown peers p.endpoint) order

replaces_ok :
    (better : Peer → Peer → Bool) (peers : List Peer) (candidate : Endpoint) (p : Peer)
    → (endpoint_is_empty candidate ≡ true) ⊎ IsKnown peers candidate
    → (b : Bool) × (replaces better peers candidate p ≡ ok b)
unfolding replaces
replaces_ok better peers candidate p k = elim (Bool-cases (endpoint_is_empty candidate)) [
  | inl e ↦ (true, rw e)
  | inr e ↦ elim k [
    | inl f ↦ absurd (cc (e, f))
    | inr known ↦ (not (better known.0 p), rw (e, known.1))
  ]
]

-- The loop always ends with an endpoint.
choose_erase_ok :
    (peers order : List Peer) (candidate : Endpoint)
    → IsOrderOf order peers
    → (endpoint_is_empty candidate ≡ true) ⊎ IsKnown peers candidate
    → (e : Endpoint) × (choose_erase peers order candidate ≡ ok e)
unfolding choose_erase
choose_erase_ok peers [] candidate o k = (candidate, refl)
choose_erase_ok peers (p ∷ ps) candidate o k = elim (Bool-cases (is_erase_candidate p)) [
  | inr e ↦ rw e (choose_erase_ok peers ps candidate o.1 k)
  | inl e ↦
      let (b, f) = replaces_ok left_better_right_to_remove peers candidate p k in
      rw (e, f)
        (elim (Bool-cases b) [
          | inl g ↦ rw g (choose_erase_ok peers ps p.endpoint o.1 (inr o.0))
          | inr g ↦ rw g (choose_erase_ok peers ps candidate o.1 k)
        ])
]

-- The search for the best one ends with an endpoint too.
choose_connect_ok :
    (t : ℕ) (peers order : List Peer) (candidate : Endpoint)
    → IsOrderOf order peers
    → (endpoint_is_empty candidate ≡ true) ⊎ IsKnown peers candidate
    → (e : Endpoint) × (choose_connect t peers order candidate ≡ ok e)
unfolding choose_connect is_next_candidate
choose_connect_ok t peers [] candidate o k = (candidate, refl)
choose_connect_ok t peers (p ∷ ps) candidate o k = elim (Bool-cases (is_connect_candidate p)) [
  | inr e ↦ rw e (choose_connect_ok t peers ps candidate o.1 k)
  | inl e ↦
      let (b, f) = replaces_ok left_better_right_to_connect peers candidate p k in
      rw (e, f)
        (elim (Bool-cases (b && not (must_wait t p))) [
          | inl g ↦ rw g (choose_connect_ok t peers ps p.endpoint o.1 (inr o.0))
          | inr g ↦ rw g (choose_connect_ok t peers ps candidate o.1 k)
        ])
]

pub find_connect_candidate_ok :
    (order : List Peer → List Peer) (policy : Policy) (t : ℕ)
    → IsOrderOf (order policy.peers) policy.peers
    → (e : Endpoint) × (find_connect_candidate order policy t ≡ ok (find_peer e policy.peers))
unfolding find_connect_candidate endpoint_is_empty
find_connect_candidate_ok order policy t o =
    let (e, f) =
      choose_connect_ok t policy.peers (order policy.peers) empty_endpoint o (inl empty_is_empty) in
    (e, rw f refl)
  where
    empty_is_empty : endpoint_is_empty empty_endpoint ≡ true
    empty_is_empty = refl

delete_peer-le : (e : Endpoint) (ps : List Peer) → length (delete_peer e ps) ≤ length ps
unfolding delete_peer
delete_peer-le e [] = omega arith
delete_peer-le e (p ∷ ps) = ground (arith, delete_peer-le e ps)

length-change_peer :
    (f : Peer → Peer) (e : Endpoint) (ps : List Peer) → length (change_peer f e ps) ≡ length ps
unfolding change_peer
length-change_peer f e [] = refl
length-change_peer f e (p ∷ ps) = ground (arith, length-change_peer f e ps)

find_peer-append :
    (p : Peer) (ps : List Peer)
    → find_peer p.endpoint ps ≡ none
    → find_peer p.endpoint (ps ++ (p ∷ [])) ≡ some p
unfolding find_peer same_endpoint
find_peer-append p [] h = ground arith
find_peer-append p (q ∷ ps) h = ground (arith, find_peer-append p ps)

option_cases : (o : Option Peer) → ((p : Peer) × (o ≡ some p)) ⊎ (o ≡ none)
option_cases none = inr refl
option_cases (some p) = inl (p, refl)

-- The peers that are left when the loop has ended with `candidate`.
left_over : Endpoint → List Peer → List Peer
left_over candidate peers =
    if endpoint_is_empty candidate then peers else delete_peer candidate peers

left_over-le : (e : Endpoint) (ps : List Peer) → length (left_over e ps) ≤ length ps
unfolding left_over
left_over-le e ps = elim (Bool-cases (endpoint_is_empty e)) [
  | inl f ↦ rw f (omega arith)
  | inr f ↦ rw f (delete_peer-le e ps)
]

candidate_ok :
    (order : List Peer → List Peer) (policy : Policy)
    → IsOrderOf (order policy.peers) policy.peers
    → (e : Endpoint) × ((if ltb (length policy.peers) (low_watermark policy.max_peers)
          then ok empty_endpoint
          else choose_erase policy.peers (order policy.peers) empty_endpoint)
        ≡ ok e)
unfolding endpoint_is_empty
candidate_ok order policy o =
    let (e, f) = choose_erase_ok policy.peers (order policy.peers) empty_endpoint o (inl refl) in
    elim (Bool-cases (ltb (length policy.peers) (low_watermark policy.max_peers))) [
      | inl few ↦ (empty_endpoint, rw few)
      | inr many ↦ (e, rw many f)
    ]

-- What a call that erases gives: no peer more, and one less at least if it says so.
erase_peers_ok :
    (order : List Peer → List Peer) (policy : Policy)
    → IsOrderOf (order policy.peers) policy.peers
    → (after : Policy) × (erased : Bool) × (erase_peers order policy ≡ ok (after, erased))
      × (after.max_peers ≡ policy.max_peers)
      × (length after.peers ≤ length policy.peers)
      × (erased ≡ true → length after.peers < length policy.peers)
unfolding erase_peers
erase_peers_ok order policy o =
    let (e, chosen) = candidate_ok order policy o in
    let fewer : length (left_over e policy.peers) ≤ length policy.peers =
      left_over-le e policy.peers in
    elim (Bool-cases (length policy.peers == 0)) [
      | inl empty ↦ (policy, false, rw empty, refl, omega arith, λ p. ground arith)
      | inr some_there ↦ (
        record policy { peers = left_over e policy.peers },
        not (length policy.peers == length (left_over e policy.peers)),
        rw (some_there, chosen) (unfold left_over in refl),
        refl,
        fewer,
        λ p. ground (arith, fewer, p),
      )
    ]

insert_peer_lem :
    (policy : Policy) (p : Peer)
    → ((insert_peer policy p).0.max_peers ≡ policy.max_peers)
      × (length (insert_peer policy p).0.peers ≤ length policy.peers + 1)
      × ((insert_peer policy p).1 ≡ true
          → find_peer p.endpoint (insert_peer policy p).0.peers ≡ some p)
      × ((insert_peer policy p).1 ≡ false
          → length (insert_peer policy p).0.peers ≡ length policy.peers)
unfolding insert_peer
insert_peer_lem policy p = elim (option_cases (find_peer p.endpoint policy.peers)) [
  | inl found ↦
      let same =
        length-change_peer (λ q. record q { source_flag = bit_or q.source_flag p.source_flag })
          p.endpoint policy.peers in
      rw (found.1, insert_peer) (refl, omega (arith, same), λ e. ground arith, λ e. same)
  | inr missing ↦
      rw (missing, insert_peer)
        (
          refl,
          omega (arith, length-append policy.peers (p ∷ [])),
          λ e. find_peer-append p policy.peers missing,
          λ e. ground arith,
        )
]

-- With at most as many peers as the limit `AddPeer` does not panic, in whatever order the map gives
-- its peers. It leaves at most as many peers as the limit, and if it says that it added the peer
-- then the peer is there.
pub add_peer_ok :
    (order : List Peer → List Peer) (policy : Policy) (p : Peer)
    → IsOrderOf (order policy.peers) policy.peers
    → length policy.peers ≤ policy.max_peers
    → (after : Policy) × (added : Bool) × (add_peer order policy p ≡ ok (after, added))
      × (after.max_peers ≡ policy.max_peers)
      × (length after.peers ≤ policy.max_peers)
      × (added ≡ true → find_peer p.endpoint after.peers ≡ some p)
unfolding add_peer
add_peer_ok order policy p o h = elim (Bool-cases (leb policy.max_peers (length policy.peers))) [
  | inr room ↦
      let (same, few, there, kept) = insert_peer_lem policy p in
      let (after, added) = insert_peer policy p in
      (after, added, rw room, same, ground (arith, few), there)
  | inl full ↦
      let (rest, erased, e, same, le, lt) = erase_peers_ok order policy o in
      elim (Bool-cases erased) [
        | inr none_erased ↦
            (rest, false, rw (full, e, none_erased), same, omega arith, λ f. ground arith)
        | inl one_erased ↦
            let (same', few, there, kept) = insert_peer_lem rest p in
            (
              (insert_peer rest p).0,
              (insert_peer rest p).1,
              rw (full, e, one_erased),
              same' ∙ same,
              omega (arith, few, lt one_erased),
              there,
            )
      ]
]
