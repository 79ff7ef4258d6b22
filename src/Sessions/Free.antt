-- ===== src/Sessions/Free.antt =====
-- session.go: the peers that have no connection, of all transfers.
use ged2k.Prelude.{
  ℕ, ◌+◌, ◌≤◌, ◌<◌, ◌≡◌, ◌⊎◌, inl, inr, refl, ◌∙◌, ◌==◌, ◌||◌, Bool, true, false, Bool-cases,
  if◌then◌else◌, none, some, List, [], ◌∷◌, ==_iff, arith,
}
use mathlib.Core.Path.{sym, subst}
use ged2k.Proto.Basic.{Ed2kHash, Endpoint}
use ged2k.Peers.{Peer, same_endpoint, find_peer, change_peer}
use ged2k.Transfers.{TransferFlags}
use ged2k.Sessions.{Session, find_key, set_key, update, change_job, change_peer_of, set_flags}

-- Whether the map has a connection to an endpoint.
abbrev pub is_known : Endpoint → List (Endpoint × ℕ) → Bool
is_known e c = elim (find_key same_endpoint e c) [ none ↦ false | some n ↦ true ]

known-set_key :
    (e f : Endpoint) (n : ℕ) (c : List (Endpoint × ℕ))
    → is_known f (set_key same_endpoint e n c) ≡ (same_endpoint e f || is_known f c)
unfolding set_key find_key same_endpoint
known-set_key e f n [] = ground arith
known-set_key e f n ((g, m) ∷ c) = ground (arith, known-set_key e f n c)

-- How many of the peers have no connection.
pub unseen : List (Endpoint × ℕ) → List Peer → ℕ
unseen c [] = 0
unseen c (p ∷ ps) = (if is_known p.endpoint c then 0 else 1) + unseen c ps

pub unseen-change_peer :
    (f : Peer → Peer)
    → ((p : Peer) → (f p).endpoint ≡ p.endpoint)
    → (e : Endpoint) (c : List (Endpoint × ℕ)) (ps : List Peer)
    → unseen c (change_peer f e ps) ≡ unseen c ps
unfolding unseen change_peer
unseen-change_peer f same e c [] = refl
unseen-change_peer f same e c (p ∷ ps) = elim (Bool-cases (same_endpoint p.endpoint e)) [
  | inl h ↦ rw (h, change_peer, same p, unseen-change_peer f same e c ps) refl
  | inr h ↦ rw (h, change_peer, unseen-change_peer f same e c ps) refl
]

same_endpoint_self : (e : Endpoint) → same_endpoint e e ≡ true
unfolding same_endpoint
same_endpoint_self e = ground arith

-- A new connection: no peer more is without one, and the peer itself is one less.
unseen-set_key-le :
    (e : Endpoint) (n : ℕ) (c : List (Endpoint × ℕ)) (ps : List Peer)
    → unseen (set_key same_endpoint e n c) ps ≤ unseen c ps
unfolding unseen
unseen-set_key-le e n c [] = omega arith
unseen-set_key-le e n c (p ∷ ps) =
    ground (arith, known-set_key e p.endpoint n c, unseen-set_key-le e n c ps)

unseen-set_key-lt :
    (e : Endpoint) (n : ℕ) (c : List (Endpoint × ℕ)) (ps : List Peer) (p : Peer)
    → find_peer e ps ≡ some p
    → is_known p.endpoint c ≡ false
    → unseen (set_key same_endpoint p.endpoint n c) ps < unseen c ps
unfolding unseen find_peer
unseen-set_key-lt e n c [] p h k = cc
unseen-set_key-lt e n c (q ∷ ps) p h k = elim (Bool-cases (same_endpoint q.endpoint e)) [
  | inl f ↦
      let eq : q ≡ p = ground (arith, rw (f, find_peer) at h) in
      subst (λ r. unseen (set_key same_endpoint r.endpoint n c) (q ∷ ps) < unseen c (q ∷ ps)) eq
        (here q (subst (λ r. is_known r.endpoint c ≡ false) (sym eq) k))
  | inr f ↦ ground (
    arith,
    unseen-set_key-lt e n c ps p (rw (f, find_peer) at h) k,
    known-set_key p.endpoint q.endpoint n c,
  )
]
  where
    here :
        (q : Peer)
        → is_known q.endpoint c ≡ false
        → unseen (set_key same_endpoint q.endpoint n c) (q ∷ ps) < unseen c (q ∷ ps)
    here q k = ground (
      arith,
      known-set_key q.endpoint q.endpoint n c,
      same_endpoint_self q.endpoint,
      unseen-set_key-le q.endpoint n c ps,
    )

abbrev pub peers_of : Session → ℕ → List Peer
peers_of s r = (s.jobs r).flags.policy.peers

-- The transfers have peers with the same endpoints.
abbrev pub SamePeers : Session → Session → Type 0
SamePeers s t =
    (k : ℕ) (c : List (Endpoint × ℕ)) → unseen c (peers_of t k) ≡ unseen c (peers_of s k)

pub same_job :
    (f : TransferFlags → TransferFlags) (r : ℕ) (s : Session)
    → ((c : List (Endpoint × ℕ))
        → unseen c (f (s.jobs r).flags).policy.peers ≡ unseen c (peers_of s r))
    → SamePeers s (set_flags f r s)
unfolding set_flags change_job update
same_job f r s h k c = chosen (k == r) (==_iff k r).0
  where
    chosen :
        (b : Bool)
        → (b ≡ true → k ≡ r)
        → unseen c
            (if b
              then record (s.jobs r) { flags = f (s.jobs r).flags }
              else s.jobs k).flags.policy.peers
          ≡ unseen c (peers_of s k)
    chosen true e = h c ∙ rw (e refl) refl
    chosen false e = refl

pub change_peer_of-SamePeers :
    (f : Peer → Peer)
    → ((p : Peer) → (f p).endpoint ≡ p.endpoint)
    → (r : ℕ) (e : Endpoint) (s : Session) → SamePeers s (change_peer_of f r e s)
unfolding change_peer_of
change_peer_of-SamePeers f same r e s =
    same_job _ r s (λ c. unseen-change_peer f same e c (peers_of s r))

-- How many peers of the transfers have no connection.
pub free : List (Ed2kHash × ℕ) → Session → ℕ
free [] s = 0
free ((h, r) ∷ rest) s = unseen s.connections (peers_of s r) + free rest s

pub free-same :
    (ts : List (Ed2kHash × ℕ)) (s t : Session)
    → SamePeers s t
    → t.connections ≡ s.connections
    → free ts t ≡ free ts s
unfolding free
free-same [] s t h e = refl
free-same ((k, r) ∷ rest) s t h e = rw (free-same rest s t h e, e, h r s.connections) refl

unfoldable pub Listed : ℕ → List (Ed2kHash × ℕ) → Type 0
Listed r [] = ⊥
Listed r ((h, k) ∷ rest) = (k ≡ r) ⊎ Listed r rest

module _ (s t : Session) (p : Peer) (n : ℕ) (same : SamePeers s t)
    (added : t.connections ≡ set_key same_endpoint p.endpoint n s.connections) where
  unseen_after : (r : ℕ) → unseen t.connections (peers_of t r) ≤ unseen s.connections (peers_of s r)
  unseen_after r =
      rw (same r t.connections, added) (unseen-set_key-le p.endpoint n s.connections (peers_of s r))

  pub free-le : (ts : List (Ed2kHash × ℕ)) → free ts t ≤ free ts s
  unfolding free
  free-le [] = omega arith
  free-le ((h, r) ∷ rest) = omega (arith, unseen_after r, free-le rest)

  pub free-lt :
      (ts : List (Ed2kHash × ℕ)) (r : ℕ) (e : Endpoint)
      → Listed r ts
      → find_peer e (peers_of s r) ≡ some p
      → is_known p.endpoint s.connections ≡ false
      → free ts t < free ts s
  unfolding free Listed
  free-lt [] r e l f k = elim l [ ]
  free-lt ((h, r') ∷ rest) r e (inl q) f k =
      let one : unseen t.connections (peers_of t r) < unseen s.connections (peers_of s r) =
        rw (same r t.connections, added)
          (unseen-set_key-lt e n s.connections (peers_of s r) p f k) in
      rw q (omega (arith, one, free-le rest))
  free-lt ((h, r') ∷ rest) r e (inr l) f k = omega (arith, unseen_after r', free-lt rest r e l f k)
