-- ===== src/Sessions/Limit.antt =====
-- session.go: the loop that hands out connections ends.
use ged2k.Prelude.{
  ℕ, zero, suc, ◌+◌, ◌-◌, ◌*◌, ◌≤◌, ◌<◌, ◌≡◌, ◌⊎◌, inl, inr, refl, ◌∙◌, ◌&&◌, ◌||◌, ltb, false,
  Bool-cases, Option, none, some, Option-cases, List, [], ◌∷◌, length, All, Outcome, ok, panic,
  Gives, Gives-ok, not, Gives->>=, if_both, arith,
}
use mathlib.Core.Path.{sym}
use ged2k.Prelude.Int.{ℤ, pos, is_zero}
use ged2k.Proto.Basic.{Ed2kHash, Endpoint}
use ged2k.Peers.{Peer, same_endpoint, find_peer, find_connect_candidate, Policy}
use ged2k.Transfers.{want_more_peers, want_more_sources}
use ged2k.Sessions.{Session, Output, is_none, find_key, change_job, change_peer_of, set_flags}
use ged2k.Sessions.Tick.{
  Limits, Round, ask_sources, connect_peer, put_off, try_peer, second, is_up, visit, visit_all,
  is_over, enumerate, hand_out,
}
use ged2k.Peers.Limits.{IsOrderOf, find_connect_candidate_ok}
use ged2k.Sessions.Free.{
  is_known, peers_of, SamePeers, same_job, change_peer_of-SamePeers, free, free-same, Listed,
  free-le, free-lt,
}

-- What a visit does to the variables of the loop: there are not more peers without a connection, and
-- the number of steps stays unless there are fewer.
record Advances (ts : List (Ed2kHash × ℕ)) (t u : Round) : Type 0 where
  less : free ts u.session ≤ free ts t.session
  moved : (u.steps ≡ t.steps) ⊎ (free ts u.session < free ts t.session)

mul_mono : (a b k : ℕ) → a ≤ b → a * k ≤ b * k
mul_mono a b k h = grind arith

module _ (ts : List (Ed2kHash × ℕ)) where
  Advances-same :
      (t u : Round)
      → SamePeers t.session u.session
      → u.session.connections ≡ t.session.connections
      → u.steps ≡ t.steps
      → Advances ts t u
  Advances-same t u h e k =
      let f : free ts u.session ≡ free ts t.session = free-same ts t.session u.session h e in
      record { less = omega (arith, f); moved = inl k }

  ask_sources-Advances : (now r : ℕ) (t : Round) → Advances ts t (ask_sources now r t)
  unfolding ask_sources set_flags change_job
  ask_sources-Advances now r t =
      elim (Bool-cases (want_more_sources now (t.session.jobs r).flags && is_up t.session.server)) [
        | inl e ↦
            rw (e, ask_sources)
              (Advances-same t _
                (same_job (λ fl. record fl { request_sources_next_time = some (now + 60 * second) })
                  r t.session (λ c. refl))
                refl refl)
        | inr e ↦ rw (e, ask_sources) (Advances-same t t (λ k c. refl) refl refl)
      ]

  try_peer-Advances :
      (now r : ℕ) (e : Endpoint) (o : Option Peer) (t : Round)
      → Listed r ts
      → o ≡ find_peer e (peers_of t.session r)
      → Advances ts t (try_peer now r o t)
  unfolding try_peer connect_peer put_off change_peer_of set_flags change_job
  try_peer-Advances now r e none t l h = Advances-same t t (λ k c. refl) refl refl
  try_peer-Advances now r e (some p) t l h =
      elim (Option-cases (find_key same_endpoint p.endpoint t.session.connections)) [
        | inl f ↦
            rw (f, try_peer)
              (let after : Session = (connect_peer now r p.endpoint t).session in
                let same : SamePeers t.session after =
                  change_peer_of-SamePeers
                    (λ q. record q {
                      last_connected = now;
                      peer_connection = some t.session.next_link;
                    })
                    (λ q. refl) r p.endpoint t.session in
                record {
                  less = free-le t.session after p t.session.next_link same refl ts;
                  moved = inr (
                      free-lt t.session after p t.session.next_link same refl ts r e l (sym h)
                        (rw (f, is_known) refl));
                })
        | inr (link, f) ↦
            rw (f, try_peer)
              (Advances-same t _ (change_peer_of-SamePeers _ (λ q. refl) r p.endpoint t.session)
                refl refl)
      ]

  Advances-trans : (t u w : Round) → Advances ts t u → Advances ts u w → Advances ts t w
  Advances-trans t u w h k = record {
    less = omega (arith, h.less, k.less);
    moved = later h.moved k.moved;
  }
    where
      later :
          (u.steps ≡ t.steps) ⊎ (free ts u.session < free ts t.session)
          → (w.steps ≡ u.steps) ⊎ (free ts w.session < free ts u.session)
          → (w.steps ≡ t.steps) ⊎ (free ts w.session < free ts t.session)
      later (inl a) (inl b) = inl (b ∙ a)
      later (inr a) b = inr (omega (arith, a, k.less))
      later (inl a) (inr b) = inr (omega (arith, b, h.less))

  -- The policies' maps give their own peers, in whatever order.
  module _ (limits : Limits) (now : ℕ)
      (orders : (ps : List Peer) → IsOrderOf (limits.order ps) ps) where
    find_connect_candidate-found :
        (policy : Policy)
        → Gives
            (λ o. (e : Endpoint) × (o ≡ find_peer e policy.peers))
            (find_connect_candidate limits.order policy now)
    find_connect_candidate-found policy =
        let (e, f) = find_connect_candidate_ok limits.order policy now (orders policy.peers) in
        rw f (e, refl)

    visit-Advances :
        (r : ℕ) (t : Round) → Listed r ts → Gives (Advances ts t) (visit limits now r t)
    unfolding visit
    visit-Advances r t l =
        let u : Round = ask_sources now r t in
        let first : Advances ts t u = ask_sources-Advances now r t in
        if_both (Gives (Advances ts t)) (want_more_peers (u.session.jobs r).flags)
          (Gives->>= (λ o. (e : Endpoint) × (o ≡ find_peer e (peers_of u.session r)))
            (Advances ts t)
            (find_connect_candidate limits.order (u.session.jobs r).flags.policy now)
            (λ o. ok (try_peer now r o u))
            (find_connect_candidate-found (u.session.jobs r).flags.policy)
            (λ o (e, h). Advances-trans t u _ first (try_peer-Advances now r e o u l h)))
          first

    visit_all-Advances :
        (rest : List (Ed2kHash × ℕ)) (t : Round)
        → All (λ x. Listed x.1 ts) rest
        → Gives (Advances ts t) (visit_all limits now rest t)
    unfolding visit_all
    visit_all-Advances [] t l = Advances-same t t (λ k c. refl) refl refl
    visit_all-Advances ((h, r) ∷ rest) t l =
        Gives->>= (Advances ts t) (Advances ts t) (visit limits now r t) (visit_all limits now rest)
          (visit-Advances r t l.0) (λ u a. chained t u _ a (visit_all-Advances rest u l.1))
      where
        chained :
            (t u : Round) (m : Outcome Round)
            → Advances ts t u
            → Gives (Advances ts u) m
            → Gives (Advances ts t) m
        chained t u (ok w) a h = Advances-trans t u w a h
        chained t u panic a h = elim h [ ]

    abbrev rounds : ℕ
    rounds = length ts * 2

    still_going : (n steps : ℕ) (z : ℤ) → (ltb n steps || is_zero z) ≡ false → steps ≤ n
    still_going n steps z h = ground arith

    -- The measure falls: by a step, or with a peer that has a connection now.
    measure-lt :
        (k n f g m : ℕ)
        → g ≤ f
        → n < k
        → (m ≡ n) ⊎ (g < f)
        → g * (k + 1) + (k - suc m) < f * (k + 1) + (k - n)
    measure-lt k n f g m le small (inl e) = omega (arith, mul_mono g f (k + 1) le)
    measure-lt k n f g m le small (inr lt) = omega (arith, mul_mono (suc g) f (k + 1) lt)

    enumerate-ends :
        (fuel : ℕ) (t : Round)
        → All (λ x. Listed x.1 ts) ts
        → t.steps ≤ rounds
        → free ts t.session * (rounds + 2) + (rounds + 1 - t.steps) < fuel
        → Gives (λ o. (u : Round) × (o ≡ some u)) (enumerate limits now ts fuel t)
    unfolding enumerate is_over
    enumerate-ends zero t l s h = absurd (omega arith)
    enumerate-ends (suc fuel) t l s h =
        Gives->>= (Advances ts t) (λ o. (u : Round) × (o ≡ some u)) (visit_all limits now ts t) _
          (visit_all-Advances ts t l)
          (λ u a.
            let stepped : Round = record u { steps = suc u.steps } in
            elim (Bool-cases (ltb rounds (suc u.steps) || is_zero u.reserve)) [
              | inl e ↦ rw e (stepped, refl)
              | inr e ↦ rw e (
                  enumerate-ends fuel stepped l (still_going rounds (suc u.steps) u.reserve e) (
                    omega (
                      arith,
                      h,
                      measure-lt (rounds + 1) t.steps (free ts t.session) (free ts u.session)
                          u.steps a.less (omega arith) a.moved,
                    )))
            ])

Listed-more :
    (h : Ed2kHash) (k : ℕ) (ts rest : List (Ed2kHash × ℕ))
    → All (λ x. Listed x.1 ts) rest
    → All (λ x. Listed x.1 ((h, k) ∷ ts)) rest
unfolding Listed
Listed-more h k ts [] l = tt
Listed-more h k ts (x ∷ rest) l = (inr l.0, Listed-more h k ts rest l.1)

Listed-all : (ts : List (Ed2kHash × ℕ)) → All (λ x. Listed x.1 ts) ts
unfolding Listed
Listed-all [] = tt
Listed-all ((h, k) ∷ ts) = (inl refl, Listed-more h k ts ts (Listed-all ts))

-- The rounds that are enough: each peer without a connection can start the count of steps again.
pub enough : Session → ℕ
enough s = free s.transfers s * (length s.transfers * 2 + 2) + length s.transfers * 2 + 2

-- Where each policy's map gives its own peers, in whatever order, the loop that hands out connections
-- ends without a panic, after a number of rounds that depends only on the transfers, their peers and
-- the connections there are: at most 2 * n + 2, for n transfers, and as many again for each peer that
-- has no connection.
pub hand_out_ok :
    (limits : Limits) (now fuel : ℕ) (s : Session)
    → ((ps : List Peer) → IsOrderOf (limits.order ps) ps)
    → enough s ≤ fuel
    → (r : Session × List Output) × (hand_out limits now fuel s ≡ ok (some r))
unfolding hand_out enough
hand_out_ok limits now fuel s orders h =
    elim (Bool-cases
      (not (is_none s.transfers) && ltb (length s.connections) limits.max_connections)) [
        | inr e ↦ ((s, []), rw e)
        | inl e ↦
            let start : Round = record {
              session = s;
              reserve = pos limits.max_connects_per_second;
              steps = 0;
              outputs = [];
            } in
            let (o, run, (u, found)) = Gives-ok _ (enumerate limits now s.transfers fuel start) (
              enumerate-ends s.transfers limits now orders fuel start (Listed-all s.transfers)
                (omega arith) (omega arith)) in
            ((u.session, u.outputs), rw (e, run, found) refl)
      ]
