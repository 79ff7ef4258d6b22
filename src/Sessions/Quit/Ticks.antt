-- ===== src/Sessions/Quit/Ticks.antt =====
-- session.go: the timer leaves something behind whenever there was something.
use ged2k.Prelude.{
  ℕ, suc, ◌/◌, refl, ◌&&◌, not, zero, ltb, length, Bool-cases, if_both, Option, none, some,
  Option-cases, inl, inr, List, [], ◌∷◌, ◌++◌, ok, ◌>>=◌, Ensures, Ensures->>=, Ensures-any,
}
use ged2k.Prelude.Int.{pos}
use ged2k.Proto.Basic.{Ed2kHash, Endpoint}
use ged2k.Peers.{Peer, same_endpoint, find_connect_candidate}
use ged2k.Stats.{second_tick}
use ged2k.Transfers.{want_more_peers, want_more_sources}
use ged2k.Sessions.{
  find_key, is_none, Server, Session, Output, change_link, change_job, set_flags, change_peer_of,
}
use ged2k.Sessions.Tick.{
  elapsed, Limits, Round, is_up, ask_sources, connect_peer, put_off, try_peer, visit, visit_all,
  is_over, enumerate, hand_out, ping_server, reconnects, watch_server, tick_links, tick_jobs,
  tick_stats, tick,
}
use ged2k.Sessions.Quit.{Grows, Grows-same, Grows-trans, Grows-refl, Grows-connected}

ask_sources-Grows : (now r : ℕ) (t : Round) → Grows t.session (ask_sources now r t).session
unfolding ask_sources set_flags change_job
ask_sources-Grows now r t =
    elim (Bool-cases (want_more_sources now (t.session.jobs r).flags && is_up t.session.server)) [
      | inl e ↦ rw (e, ask_sources) (Grows-same t.session _ refl refl refl refl)
      | inr e ↦ rw (e, ask_sources) (Grows-refl t.session)
    ]

try_peer-Grows :
    (now r : ℕ) (o : Option Peer) (t : Round) → Grows t.session (try_peer now r o t).session
unfolding try_peer connect_peer put_off change_peer_of set_flags change_job
try_peer-Grows now r none t = Grows-refl t.session
try_peer-Grows now r (some p) t =
    elim (Option-cases (find_key same_endpoint p.endpoint t.session.connections)) [
      | inl e ↦
          rw (e, try_peer)
            (Grows-connected t.session _ p.endpoint t.session.next_link t.session.connections refl
              refl refl)
      | inr (link, e) ↦ rw (e, try_peer) (Grows-same t.session _ refl refl refl refl)
    ]

-- The same of a round.
abbrev GrowsRound : Session → Round → Type 0
GrowsRound s t = Grows s t.session

abbrev GrowsLeft : Session → Option Round → Type 0
GrowsLeft s none = Unit
GrowsLeft s (some t) = Grows s t.session

-- And of a whole case, if the loop did not run out of fuel.
abbrev pub GrowsIf : Session → Option (Session × List Output) → Type 0
GrowsIf s none = Unit
GrowsIf s (some r) = Grows s r.0

module _ (limits : Limits) (now : ℕ) where
  visit-Grows :
      (s : Session) (r : ℕ) (t : Round)
      → Grows s t.session
      → Ensures (GrowsRound s) (visit limits now r t)
  unfolding visit
  visit-Grows s r t g =
      let u : Round = ask_sources now r t in
      let first : Grows s u.session =
        Grows-trans s t.session u.session g (ask_sources-Grows now r t) in
      if_both (Ensures (GrowsRound s)) (want_more_peers (u.session.jobs r).flags)
        (Ensures->>= _ (GrowsRound s)
          (find_connect_candidate limits.order (u.session.jobs r).flags.policy now)
          (λ o. ok (try_peer now r o u))
          (Ensures-any (find_connect_candidate limits.order (u.session.jobs r).flags.policy now))
          (λ o v. Grows-trans s u.session _ first (try_peer-Grows now r o u)))
        first

  visit_all-Grows :
      (s : Session) (rest : List (Ed2kHash × ℕ)) (t : Round)
      → Grows s t.session
      → Ensures (GrowsRound s) (visit_all limits now rest t)
  unfolding visit_all
  visit_all-Grows s [] t g = g
  visit_all-Grows s ((h, r) ∷ rest) t g =
      Ensures->>= (GrowsRound s) (GrowsRound s) (visit limits now r t) (visit_all limits now rest)
        (visit-Grows s r t g) (λ u k. visit_all-Grows s rest u k)

  enumerate-Grows :
      (s : Session) (ts : List (Ed2kHash × ℕ)) (fuel : ℕ) (t : Round)
      → Grows s t.session
      → Ensures (GrowsLeft s) (enumerate limits now ts fuel t)
  unfolding enumerate
  enumerate-Grows s ts zero t g = tt
  enumerate-Grows s ts (suc fuel) t g =
      Ensures->>= (GrowsRound s) (GrowsLeft s) (visit_all limits now ts t) _
        (visit_all-Grows s ts t g)
        (λ u k.
          let stepped : Round = record u { steps = suc u.steps } in
          elim (Bool-cases (is_over limits now ts stepped)) [
            | inl e ↦ rw e k
            | inr e ↦ rw e (enumerate-Grows s ts fuel stepped k)
          ])

  hand_out-Grows : (fuel : ℕ) (s : Session) → Ensures (GrowsIf s) (hand_out limits now fuel s)
  unfolding hand_out
  hand_out-Grows fuel s =
      elim (Bool-cases
        (not (is_none s.transfers) && ltb (length s.connections) limits.max_connections)) [
          | inr e ↦ rw (e, hand_out) (Grows-refl s)
          | inl e ↦
              rw (e, hand_out)
                (let start : Round = record {
                  session = s;
                  reserve = pos limits.max_connects_per_second;
                  steps = 0;
                  outputs = [];
                } in
                  Ensures->>= (GrowsLeft s) (GrowsIf s)
                    (enumerate limits now s.transfers fuel start) _
                    (enumerate-Grows s s.transfers fuel start (Grows-refl s)) (λ o g. handed o g))
        ]
    where
      handed :
          (o : Option Round)
          → GrowsLeft s o
          → GrowsIf s (elim o [ none ↦ none | some t ↦ some (t.session, t.outputs) ])
      handed none g = tt
      handed (some t) g = g

  watch_server-Grows : (o : Option Server) (s : Session) → Grows s (watch_server limits now o s).0
  unfolding watch_server
  watch_server-Grows none s = Grows-refl s
  watch_server-Grows (some sv) s =
      elim (Bool-cases (reconnects limits now (ping_server limits now sv).0)) [
        | inl e ↦ rw (e, watch_server) (Grows-same s _ refl refl refl refl)
        | inr e ↦ rw (e, watch_server) (Grows-same s _ refl refl refl refl)
      ]

  tick_links-Grows :
      (c : List (Endpoint × ℕ)) (ms : ℕ) (s t : Session)
      → Grows s t
      → Ensures (Grows s) (tick_links limits now c ms t)
  unfolding tick_links change_link
  tick_links-Grows [] ms s t g = g
  tick_links-Grows ((e, r) ∷ rest) ms s t g =
      Ensures->>= _ (Grows s) (second_tick (t.links r).stat ms) _
        (Ensures-any (second_tick (t.links r).stat ms))
        (λ stat u.
          tick_links-Grows rest ms s _ (Grows-trans s t _ g (Grows-same t _ refl refl refl refl)))

  tick_jobs-Grows :
      (c : List (Ed2kHash × ℕ)) (ms : ℕ) (s t : Session)
      → Grows s t
      → Ensures (Grows s) (tick_jobs limits now c ms t)
  unfolding tick_jobs change_job
  tick_jobs-Grows [] ms s t g = g
  tick_jobs-Grows ((h, r) ∷ rest) ms s t g =
      Ensures->>= _ (Grows s) (second_tick (t.jobs r).stat ms) _
        (Ensures-any (second_tick (t.jobs r).stat ms))
        (λ stat u.
          tick_jobs-Grows rest ms s _ (Grows-trans s t _ g (Grows-same t _ refl refl refl refl)))

  tick_stats-Grows : (ms : ℕ) (s : Session) → Ensures (Grows s) (tick_stats limits now ms s)
  unfolding tick_stats
  tick_stats-Grows ms s =
      Ensures->>= (Grows s) (Grows s) (tick_links limits now s.connections ms s) _
        (tick_links-Grows s.connections ms s s (Grows-refl s))
        (λ t g.
          Ensures->>= _ (Grows s) (second_tick t.stat ms) _ (Ensures-any (second_tick t.stat ms))
            (λ stat u.
              tick_jobs-Grows t.transfers ms s _
                (Grows-trans s t _ g (Grows-same t _ refl refl refl refl))))

  pub tick-Grows : (fuel : ℕ) (s : Session) → Ensures (GrowsIf s) (tick limits now fuel s)
  unfolding tick
  tick-Grows fuel s =
      let w : Session = (watch_server limits now s.server s).0 in
      Ensures->>= (GrowsIf w) (GrowsIf s) (hand_out limits now fuel w) _ (hand_out-Grows fuel w)
        (λ o g. counted o g)
    where
      counted :
          (o : Option (Session × List Output))
          → GrowsIf (watch_server limits now s.server s).0 o
          → Ensures (GrowsIf s) (elim o [
            | none ↦ ok none
            | some (t, outputs) ↦ do
              counted ← tick_stats limits now (elapsed now t.last_tick / 1000000) t
              ok (
                  some (
                    record counted { last_tick = now },
                    (watch_server limits now s.server s).1 ++ outputs,
                  ))
          ])
      counted none g = tt
      counted (some (t, outputs)) g =
          Ensures->>= (Grows t) (GrowsIf s) (tick_stats limits now _ t) _ (tick_stats-Grows _ t)
            (λ u h.
              Grows-trans s (watch_server limits now s.server s).0 _ (watch_server-Grows s.server s)
                (Grows-trans _ t _ g (Grows-trans t u _ h (Grows-same u _ refl refl refl refl))))
