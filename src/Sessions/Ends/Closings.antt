-- ===== src/Sessions/Ends/Closings.antt =====
-- session.go: what a session keeps when a connection ends or a transfer is closed.
use ged2k.Prelude.{
  ℕ, ◌≡◌, ◌∙◌, refl, ◌&&◌, ◌==◌, Bool, true, false, Bool-cases, if◌then◌else◌, Option, none, some,
  inl, inr, List, same_bytes, ==_iff,
}
use ged2k.Proto.Basic.{Ed2kHash, Endpoint}
use ged2k.Peers.{same_endpoint}
use ged2k.Sessions.{
  delete_key, update, is_none, Link, Job, Session, nothing_left, change_link, change_job, set_flags,
  change_peer_of, forget_peer, quit_or_stop, unregister_link, close_transfer,
}
use ged2k.Sessions.Ends.Keys.{Keeps}

-- A change of a reference that leaves a field.
update-field :
    {A B : Type 0} (field_of : A → B) (store : ℕ → A) (r : ℕ) (v : A)
    → field_of v ≡ field_of (store r)
    → (k : ℕ) → field_of (update store r v k) ≡ field_of (store k)
unfolding update
update-field field_of store r v e k = chosen (k == r) (==_iff k r).0
  where
    chosen :
        (b : Bool) → (b ≡ true → k ≡ r) → field_of (if b then v else store k) ≡ field_of (store k)
    chosen true h = e ∙ rw (h refl) refl
    chosen false h = refl

Keeps-refl : (s : Session) → Keeps s s
Keeps-refl s = record { stopped = refl; endpoints = λ k. refl; hashes = λ k. refl }

Keeps-trans : (s t u : Session) → Keeps s t → Keeps t u → Keeps s u
Keeps-trans s t u h k = record {
  stopped = k.stopped ∙ h.stopped;
  endpoints = λ n. k.endpoints n ∙ h.endpoints n;
  hashes = λ n. k.hashes n ∙ h.hashes n;
}

-- A session after a closing message: what it keeps, and its maps.
pub record Closes (s t : Session) (c : List (Endpoint × ℕ)) (ts : List (Ed2kHash × ℕ))
    : Type 0 where
  pub keeps : Keeps s t
  pub connections : t.connections ≡ c
  pub transfers : t.transfers ≡ ts

quit_or_stop-Closes : (s : Session) → Closes s (quit_or_stop s).0 s.connections s.transfers
unfolding quit_or_stop
quit_or_stop-Closes s = elim (Bool-cases (s.stopped && is_none s.connections)) [
  | inr e ↦
      rw (e, quit_or_stop) (record { keeps = Keeps-refl s; connections = refl; transfers = refl })
  | inl e ↦ elim (Bool-cases (is_none s.transfers)) [
    | inl f ↦
        rw (e, f, quit_or_stop)
          (record {
            keeps = record { stopped = refl; endpoints = λ k. refl; hashes = λ k. refl };
            connections = refl;
            transfers = refl;
          })
    | inr f ↦
        rw (e, f, quit_or_stop)
          (record { keeps = Keeps-refl s; connections = refl; transfers = refl })
  ]
]

forget_peer-Closes :
    (now : ℕ) (failed : Bool) (r : ℕ) (o : Option ℕ) (p : Option Endpoint) (s : Session)
    → Closes s (forget_peer now failed r o p s) s.connections s.transfers
unfolding forget_peer change_peer_of set_flags change_job
forget_peer-Closes now failed r (some job) (some e) s = record {
  keeps = record {
    stopped = refl;
    endpoints = λ k. refl;
    hashes = update-field (λ (j : Job). j.hash) s.jobs job _ refl;
  };
  connections = refl;
  transfers = refl;
}
forget_peer-Closes now failed r none (some e) s = record {
  keeps = Keeps-refl s;
  connections = refl;
  transfers = refl;
}
forget_peer-Closes now failed r (some job) none s = record {
  keeps = Keeps-refl s;
  connections = refl;
  transfers = refl;
}
forget_peer-Closes now failed r none none s = record {
  keeps = Keeps-refl s;
  connections = refl;
  transfers = refl;
}

pub unregister_link-Closes :
    (now r : ℕ) (failed : Bool) (s : Session)
    → Closes s
        (unregister_link now r failed s).0
        (delete_key same_endpoint (s.links r).endpoint s.connections)
        s.transfers
unfolding unregister_link change_link
unregister_link-Closes now r failed s =
    let a : Session = record s {
      connections = delete_key same_endpoint (s.links r).endpoint s.connections;
    } in
    let b : Session = forget_peer now failed r (s.links r).transfer (s.links r).peer a in
    let c : Session = change_link (λ l. record l { transfer = none; peer = none }) r b in
    let ab = forget_peer-Closes now failed r (s.links r).transfer (s.links r).peer a in
    let cd = quit_or_stop-Closes c in
    record {
      keeps =
          Keeps-trans s a _ (record { stopped = refl; endpoints = λ k. refl; hashes = λ k. refl })
            (Keeps-trans a b _ ab.keeps (
              Keeps-trans b c _
                (record {
                  stopped = refl;
                  endpoints = update-field (λ (l : Link). l.endpoint) b.links r _ refl;
                  hashes = λ k. refl;
                })
                cd.keeps));
      connections = cd.connections ∙ ab.connections;
      transfers = cd.transfers ∙ ab.transfers;
    }

pub close_transfer-Closes :
    (r : ℕ) (s : Session)
    → Closes s
        (close_transfer r s)
        s.connections
        (delete_key same_bytes (s.jobs r).hash s.transfers)
unfolding close_transfer
close_transfer-Closes r s =
    let t : Session = record s { transfers = delete_key same_bytes (s.jobs r).hash s.transfers } in
    elim (Bool-cases (t.stopped && nothing_left t)) [
      | inl e ↦
          rw (e, close_transfer)
            (record {
              keeps = record { stopped = refl; endpoints = λ k. refl; hashes = λ k. refl };
              connections = refl;
              transfers = refl;
            })
      | inr e ↦
          rw (e, close_transfer)
            (record {
              keeps = record { stopped = refl; endpoints = λ k. refl; hashes = λ k. refl };
              connections = refl;
              transfers = refl;
            })
    ]
