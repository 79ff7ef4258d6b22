-- ===== src/Sessions/Quit/Steps.antt =====
-- session.go: every message leaves a session that quits when it must.
use ged2k.Prelude.{
  ℕ, ◌≡◌, refl, ◌&&◌, ◌==◌, Bool, true, false, Bool-cases, if_both, if◌then◌else◌, Option, none,
  some, Option-cases, inl, inr, List, [], ◌∷◌, same_bytes, Outcome, ok, panic, Ensures, Ensures->>=,
  Ensures-any, Ensures_ok, arith,
}
use ged2k.Proto.Basic.{Endpoint}
use ged2k.Peers.{Policy}
use ged2k.Stats.{Statistics, receive_bytes, send_bytes}
use ged2k.Sessions.{
  find_key, delete_key, is_none, Server, new_server, Session, Output, Answer, nothing_left,
  change_link, change_job, set_flags, close, close_each, register_link, quit_or_stop,
  unregister_link, close_transfer, count_stat,
}
use ged2k.Sessions.Tick.{Limits, tick}
use ged2k.Sessions.Step.{
  Packet, Message, unregister_server, register_server, add_sources, on_packet, on_server_packet,
  step, discarded, sources, logged, server_closed, server_connected, exit, told, server_packet,
  received, bytes_sent, link_registered, link_closed, transfer_finished, transfer_paused,
  resume_data_read, transfer_failed, transfer_closed, resume_data, timer,
}
use ged2k.Sessions.Quit.{
  Quits, Grows, Grows-Quits, Grows-same, Grows-trans, Grows-refl, Grows-connected, GrowsTo,
  close-Grows, close_each-Grows,
}
use ged2k.Sessions.Quit.Commands.{QuitsIf, grown, set_flags-Grows, on_command-Quits}
use ged2k.Sessions.Quit.Ticks.{GrowsIf, tick-Grows}

-- The connection that ends, or the transfer.
spared : (s : Session) → (s.stopped && nothing_left s) ≡ false → Quits s
unfolding Quits
spared s e st n = absurd (ground (arith, e, st, n))

quit_or_stop-Quits : (s : Session) → Quits (quit_or_stop s).0
unfolding quit_or_stop Quits nothing_left
quit_or_stop-Quits s = elim (Bool-cases (s.stopped && is_none s.connections)) [
  | inr e ↦ rw (e, quit_or_stop) (λ st n. absurd (ground (arith, e, st, n)))
  | inl e ↦ elim (Bool-cases (is_none s.transfers)) [
    | inl f ↦ rw (e, f, quit_or_stop) (λ st n. refl)
    | inr f ↦ rw (e, f, quit_or_stop) (λ st n. absurd (ground (arith, f, n)))
  ]
]

pub unregister_link-Quits :
    (now r : ℕ) (failed : Bool) (s : Session) → Quits (unregister_link now r failed s).0
unfolding unregister_link
unregister_link-Quits now r failed s = quit_or_stop-Quits _

pub close_transfer-Quits : (r : ℕ) (s : Session) → Quits (close_transfer r s)
unfolding close_transfer
close_transfer-Quits r s =
    let t : Session = record s { transfers = delete_key same_bytes (s.jobs r).hash s.transfers } in
    elim (Bool-cases (t.stopped && nothing_left t)) [
      | inl e ↦ rw (e, close_transfer) (unfold Quits in λ st n. refl)
      | inr e ↦ rw (e, close_transfer) (spared t e)
    ]

unregister_server-Quits : (s : Session) → Quits (unregister_server s).0
unfolding unregister_server Quits nothing_left
unregister_server-Quits s = elim (Bool-cases (s.stopped && nothing_left s)) [
  | inl e ↦ rw (e, unregister_server) (λ st n. refl)
  | inr e ↦ elim (Bool-cases s.candidate) [
    | inl f ↦
        rw (e, f, unregister_server)
          (spared (record s { server = some new_server; candidate = false }) e)
    | inr f ↦ rw (e, f, unregister_server) (spared (record s { server = none }) e)
  ]
]

register_server-Grows :
    (now : ℕ) (o : Option Server) (s : Session) → Ensures (GrowsTo s) (register_server now o s)
unfolding register_server
register_server-Grows now none s = if_both (Ensures (GrowsTo s)) s.candidate tt (Grows-refl s)
register_server-Grows now (some sv) s = Grows-same s _ refl refl refl refl

register_link-Grows : (r : ℕ) (s : Session) → Ensures (GrowsTo s) (register_link r s)
unfolding register_link change_link
register_link-Grows r s =
    Ensures->>= (GrowsTo s) (GrowsTo s)
      (if (s.links r).disconnect_later then close r s else ok (s, [])) _
      (if_both (Ensures (GrowsTo s)) (s.links r).disconnect_later (close-Grows r s) (Grows-refl s))
      (λ t g. Grows-trans s t.0 _ g (Grows-connected t.0 _ _ r t.0.connections refl refl refl))

count_stat-Grows :
    (add : Statistics → ℕ → Statistics) (r n : ℕ) (s : Session) → Grows s (count_stat add r n s)
unfolding count_stat change_link change_job
count_stat-Grows add r n s = elim (Option-cases (s.links r).transfer) [
  | inl e ↦ rw (e, count_stat) (Grows-same s _ refl refl refl refl)
  | inr (job, e) ↦ rw (e, count_stat) (Grows-same s _ refl refl refl refl)
]

module _ (limits : Limits) where
  add_sources-Grows :
      (r : ℕ) (es : List Endpoint) (s : Session) → Ensures (Grows s) (add_sources limits r es s)
  unfolding add_sources
  add_sources-Grows r [] s = Grows-refl s
  add_sources-Grows r (e ∷ rest) s =
      Ensures->>= {A = Policy × Bool} (λ x. Unit {0}) (Grows s) _ _ (Ensures-any _)
        (λ added u.
          further s _ _ (set_flags-Grows _ r s)
            (add_sources-Grows r rest (set_flags (λ fl. record fl { policy = added.0 }) r s)))
    where
      further :
          (s t : Session) (m : Outcome Session)
          → Grows s t
          → Ensures (Grows t) m
          → Ensures (Grows s) m
      further s t (ok u) g h = Grows-trans s t u g h
      further s t panic g h = tt

  on_packet-Grows : (p : Packet) (s : Session) → Ensures (GrowsTo s) (on_packet limits p s)
  unfolding on_packet
  on_packet-Grows discarded s = Grows-refl s
  on_packet-Grows logged s = Grows-refl s
  on_packet-Grows (sources found) s =
      elim (Option-cases (find_key same_bytes found.hash s.transfers)) [
        | inl e ↦ rw (e, on_packet) (Grows-refl s)
        | inr (r, e) ↦
            rw (e, on_packet)
              (Ensures->>= (Grows s) (GrowsTo s) (add_sources limits r found.sources s) _
                (add_sources-Grows r found.sources s) (λ t g. g))
      ]

  on_server_packet-Grows :
      (now : ℕ) (p : Packet) (o : Option Server) (s : Session)
      → Ensures (GrowsTo s) (on_server_packet limits now p o s)
  unfolding on_server_packet
  on_server_packet-Grows now p none s = tt
  on_server_packet-Grows now p (some sv) s =
      let t : Session = record s { server = some (record sv { last_received = some now }) } in
      onward s t (on_packet limits p t) (Grows-same s t refl refl refl refl) (on_packet-Grows p t)
    where
      onward :
          (s t : Session) (m : Answer) → Grows s t → Ensures (GrowsTo t) m → Ensures (GrowsTo s) m
      onward s t (ok r) g h = Grows-trans s t r.0 g h
      onward s t panic g h = tt

  grown_if :
      (s : Session) (m : Outcome (Option (Session × List Output)))
      → Quits s
      → Ensures (GrowsIf s) m
      → Ensures QuitsIf m
  grown_if s (ok none) q g = tt
  grown_if s (ok (some r)) q g = Grows-Quits s r.0 g q
  grown_if s panic q g = tt

  pub step-QuitsIf :
      (now : ℕ) (m : Message) (s : Session) → Quits s → Ensures QuitsIf (step limits now m s)
  unfolding step
  step-QuitsIf now server_closed s q = unregister_server-Quits s
  step-QuitsIf now server_connected s q =
      grown s (register_server now s.server s) q (register_server-Grows now s.server s)
  step-QuitsIf now exit s q = unfold Quits in λ st n. refl
  step-QuitsIf now (told c) s q = on_command-Quits limits now c s q
  step-QuitsIf now (server_packet p) s q =
      grown s (on_server_packet limits now p s.server s) q (on_server_packet-Grows now p s.server s)
  step-QuitsIf now (received r n) s q = Grows-Quits s _ (count_stat-Grows receive_bytes r n s) q
  step-QuitsIf now (bytes_sent r n) s q = Grows-Quits s _ (count_stat-Grows send_bytes r n s) q
  step-QuitsIf now (link_registered r) s q = grown s (register_link r s) q (register_link-Grows r s)
  step-QuitsIf now (link_closed r failed) s q = unregister_link-Quits now r failed s
  step-QuitsIf now (transfer_finished r) s q =
      let t : Session = set_flags (λ fl. record fl { finished = true }) r s in
      grown t (close_each (λ l. elim l.transfer [ none ↦ false | some k ↦ k == r ]) s.connections t)
        (Grows-Quits s t (set_flags-Grows _ r s) q) (close_each-Grows _ s.connections t)
  step-QuitsIf now (transfer_paused r) s q = Grows-Quits s _ (set_flags-Grows _ r s) q
  step-QuitsIf now (resume_data_read r) s q = Grows-Quits s _ (set_flags-Grows _ r s) q
  step-QuitsIf now (transfer_failed r) s q = Grows-Quits s _ (set_flags-Grows _ r s) q
  step-QuitsIf now (transfer_closed r) s q = close_transfer-Quits r s
  step-QuitsIf now resume_data s q = q
  step-QuitsIf now (timer fuel) s q =
      grown_if s (tick limits now fuel s) q (tick-Grows limits now fuel s)

  -- Whatever message comes, a session that was stopped and then has neither connections nor transfers
  -- does not go on, if that held before the message; a step that panics or whose timer runs out of
  -- fuel gives no session.
  pub step-Quits :
      (now : ℕ) (m : Message) (s : Session) (r : Session × List Output)
      → Quits s
      → step limits now m s ≡ ok (some r)
      → Quits r.0
  step-Quits now m s r q h =
      Ensures_ok QuitsIf (step limits now m s) (some r) (step-QuitsIf now m s q) h
