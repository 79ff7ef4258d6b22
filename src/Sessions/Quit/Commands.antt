-- ===== src/Sessions/Quit/Commands.antt =====
-- session.go: every command leaves a session that quits when it must.
use ged2k.Prelude.{
  ℕ, refl, true, false, Bool-cases, Option, none, some, inl, inr, List, [], ◌∷◌, same_bytes, ok,
  panic, ◌>>=◌, Ensures, Ensures->>=, Ensures-any, arith,
}
use ged2k.Proto.Basic.{Ed2kHash}
use ged2k.Peers.{Policy}
use ged2k.Transfers.{TransferFlags}
use ged2k.Sessions.{
  Server, Session, Output, Answer, nothing_left, change_job, set_flags, close_each, search,
  server_list,
}
use ged2k.Sessions.Tick.{Limits}
use ged2k.Sessions.Commands.{
  Command, mark_stopped, on_stop, on_connect, drop_server, on_disconnect, to_server, add_job,
  load_jobs, empty_policy, with_local_peers, start_job, on_command, stop, hello, disconnect,
  search_for, list_servers, peer, other, connect, load, transfer_to, restore, unreadable,
}
use ged2k.Sessions.Quit.{
  Quits, Grows, Grows-Quits, Grows-same, Grows-trans, Grows-refl, GrowsTo, close_each-Grows,
  set_key-some,
}

pub set_flags-Grows :
    (f : TransferFlags → TransferFlags) (r : ℕ) (s : Session) → Grows s (set_flags f r s)
unfolding set_flags change_job
set_flags-Grows f r s = Grows-same s _ refl refl refl refl

mark_stopped-Grows : (ts : List (Ed2kHash × ℕ)) (s : Session) → Grows s (mark_stopped ts s)
unfolding mark_stopped
mark_stopped-Grows [] s = Grows-refl s
mark_stopped-Grows ((h, r) ∷ rest) s =
    Grows-trans s _ _ (set_flags-Grows _ r s) (mark_stopped-Grows rest (set_flags _ r s))

on_stop-Quits : (s : Session) → Quits (on_stop s).0
unfolding on_stop Quits nothing_left
on_stop-Quits s = elim (Bool-cases (nothing_left s)) [
  | inl e ↦ rw (e, on_stop) (λ st n. refl)
  | inr e ↦
      rw (e, on_stop)
        (let t : Session = record s { stopped = true } in
          λ st n. absurd (ground (arith, e, (mark_stopped-Grows s.transfers t).left n)))
]

-- What holds of a case, if the loop did not run out of fuel.
abbrev pub QuitsIf : Option (Session × List Output) → Type 0
QuitsIf none = Unit
QuitsIf (some r) = Quits r.0

pub grown :
    (s : Session) (m : Answer)
    → Quits s
    → Ensures (GrowsTo s) m
    → Ensures QuitsIf (m >>= λ r. ok (some r))
grown s (ok r) q g = Grows-Quits s r.0 g q
grown s panic q g = tt

on_connect-Grows : (o : Option Server) (s : Session) → Grows s (on_connect o s).0
unfolding on_connect
on_connect-Grows none s = Grows-same s _ refl refl refl refl
on_connect-Grows (some sv) s = Grows-same s _ refl refl refl refl

drop_server-Grows : (o : Option Server) (s : Session) → Grows s (drop_server o s).0
unfolding drop_server
drop_server-Grows none s = Grows-refl s
drop_server-Grows (some sv) s = Grows-same s _ refl refl refl refl

on_disconnect-Grows : (s : Session) → Ensures (GrowsTo s) (on_disconnect s)
unfolding on_disconnect
on_disconnect-Grows s =
    let t : Session = (drop_server s.server s).0 in
    Ensures->>= (GrowsTo t) (GrowsTo s) (close_each (λ l. true) t.connections t) _
      (close_each-Grows (λ l. true) t.connections t)
      (λ r g. Grows-trans s t r.0 (drop_server-Grows s.server s) g)

to_server-Grows :
    (now : ℕ) (out : Output) (o : Option Server) (s : Session) → Grows s (to_server now out o s).0
unfolding to_server
to_server-Grows now out none s = Grows-refl s
to_server-Grows now out (some sv) s = elim (Bool-cases sv.connected) [
  | inl f ↦ rw (f, to_server) (Grows-same s _ refl refl refl refl)
  | inr f ↦ rw (f, to_server) (Grows-refl s)
]

-- A map with one more entry.
start_job-Grows :
    (limits : Limits) (hash : Ed2kHash) (policy : Policy) (o : Output) (s : Session)
    → Grows s (start_job limits hash policy o s).0
unfolding start_job add_job nothing_left
start_job-Grows limits hash policy o s = record {
  stopped = refl;
  execute = refl;
  left = λ n. absurd (ground (arith, n, set_key-some same_bytes hash s.next_job s.transfers));
}

load_jobs-Grows : (hashes : List Ed2kHash) (s : Session) → Grows s (load_jobs hashes s).0
unfolding load_jobs add_job
load_jobs-Grows [] s = Grows-refl s
load_jobs-Grows (hash ∷ hashes) s =
    let t : Session = add_job hash empty_policy s in
    Grows-trans s t _ (Grows-same s t refl refl refl refl) (load_jobs-Grows hashes t)

module _ (limits : Limits) where
  with_policy :
      (s : Session) (f : Policy → Session × List Output)
      → ((p : Policy) → Grows s (f p).0)
      → Ensures (GrowsTo s) (with_local_peers limits >>= λ p. ok (f p))
  with_policy s f g =
      Ensures->>= _ (GrowsTo s) (with_local_peers limits) _ (Ensures-any (with_local_peers limits))
        (λ p u. g p)

  pub on_command-Quits :
      (now : ℕ) (c : Command) (s : Session)
      → Quits s
      → Ensures QuitsIf (on_command limits now c s >>= λ r. ok (some r))
  unfolding on_command add_job
  on_command-Quits now stop s q = on_stop-Quits s
  on_command-Quits now hello s q = q
  on_command-Quits now disconnect s q = grown s (on_disconnect s) q (on_disconnect-Grows s)
  on_command-Quits now search_for s q = Grows-Quits s _ (to_server-Grows now search s.server s) q
  on_command-Quits now list_servers s q =
      Grows-Quits s _ (to_server-Grows now server_list s.server s) q
  on_command-Quits now peer s q = q
  on_command-Quits now other s q = q
  on_command-Quits now connect s q = Grows-Quits s _ (on_connect-Grows s.server s) q
  on_command-Quits now (load hashes) s q = Grows-Quits s _ (load_jobs-Grows hashes s) q
  on_command-Quits now (transfer_to hash) s q =
      grown s _ q (with_policy s _ (λ p. start_job-Grows limits hash p _ s))
  on_command-Quits now (restore hash true) s q =
      grown s _ q (with_policy s _ (λ p. start_job-Grows limits hash p _ s))
  on_command-Quits now (restore hash false) s q =
      Grows-Quits s _ (start_job-Grows limits hash _ _ s) q
  on_command-Quits now unreadable s q = q
