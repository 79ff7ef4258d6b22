-- ===== src/Sessions/Ends.antt =====
-- session.go: a session that was stopped ends when all it had is closed.
pub mod Keys
pub mod Closings
use ged2k.Prelude.{
  ℕ, ◌+◌, ◌-◌, ◌≡◌, ◌∙◌, refl, ◌&&◌, Bool, true, false, if◌then◌else◌, Option, none, some, List, [],
  ◌∷◌, ◌++◌, same_bytes, Outcome, ok, ◌>>=◌, All, arith,
}
use ged2k.Proto.Basic.{Ed2kHash, Endpoint}
use ged2k.Peers.{same_endpoint}
use ged2k.Sessions.{
  delete_key, is_none, Session, Output, nothing_left, unregister_link, close_transfer,
}
use ged2k.Sessions.Tick.{Limits}
use ged2k.Sessions.Step.{Message, step, run_all, link_closed, transfer_closed}
use ged2k.Sessions.Quit.{Quits}
use ged2k.Sessions.Quit.Steps.{unregister_link-Quits, close_transfer-Quits}
use ged2k.Sessions.Ends.Keys.{
  has, has-delete_key, none_left, same_endpoint_self, same_endpoint-euclid, same_bytes_self,
  same_bytes-euclid, is_closing, closes_link, closes_job, any_message, any_message-same,
  closes_link-same, closes_job-same,
}
use ged2k.Sessions.Ends.Closings.{Closes, unregister_link-Closes, close_transfer-Closes}

-- Each connection of a session is ended by one of the messages, and each transfer closed.
pub record AllClosed (s : Session) (ms : List (ℕ × Message)) : Type 0 where
  pub links :
      (e : Endpoint)
      → has same_endpoint e s.connections ≡ true
      → any_message (closes_link s e) ms ≡ true
  pub jobs :
      (h : Ed2kHash) → has same_bytes h s.transfers ≡ true → any_message (closes_job s h) ms ≡ true

-- After the first of the messages the others close what is left.
AllClosed-link :
    (s t : Session) (now r : ℕ) (failed : Bool) (ms : List (ℕ × Message))
    → Closes s t (delete_key same_endpoint (s.links r).endpoint s.connections) s.transfers
    → AllClosed s ((now, link_closed r failed) ∷ ms)
    → AllClosed t ms
unfolding any_message closes_link closes_job
AllClosed-link s t now r failed ms c a = record {
  links = λ e h.
      let (there, apart) =
        has-delete_key same_endpoint same_endpoint_self same_endpoint-euclid (s.links r).endpoint e
          s.connections (rw c.connections at h) in
      any_message-same _ _ (closes_link-same s t c.keeps e) ms ∙ (rw apart at (a.links e there));
  jobs = λ h k.
      any_message-same _ _ (closes_job-same s t c.keeps h) ms ∙ a.jobs h (rw c.transfers at k);
}

AllClosed-job :
    (s t : Session) (now r : ℕ) (ms : List (ℕ × Message))
    → Closes s t s.connections (delete_key same_bytes (s.jobs r).hash s.transfers)
    → AllClosed s ((now, transfer_closed r) ∷ ms)
    → AllClosed t ms
unfolding any_message closes_link closes_job
AllClosed-job s t now r ms c a = record {
  links = λ e h.
      any_message-same _ _ (closes_link-same s t c.keeps e) ms ∙ a.links e (rw c.connections at h);
  jobs = λ h k.
      let (there, apart) =
        has-delete_key same_bytes same_bytes_self same_bytes-euclid (s.jobs r).hash h s.transfers
          (rw c.transfers at k) in
      any_message-same _ _ (closes_job-same s t c.keeps h) ms ∙ (rw apart at (a.jobs h there));
}

-- The end of a run of the loop: it returns, and the loop does not go on.
abbrev EndsRun : Outcome (Option (Session × List Output)) → Type 0
EndsRun m = (r : Session × List Output) × (m ≡ ok (some r)) × (r.0.execute ≡ false)

module _ (limits : Limits) where
  after_first :
      (ms : List (ℕ × Message)) (t : Session) (outputs : List Output)
      → EndsRun (run_all limits ms t)
      → EndsRun (
          run_all limits ms t >>= λ p. elim p [
            | none ↦ ok none
            | some (u, more) ↦ ok (some (u, outputs ++ more))
          ])
  after_first ms t outputs ((u, more), e, f) = ((u, outputs ++ more), rw e refl, f)

  gated :
      (b : Bool) (x y : Outcome (Option (Session × List Output)))
      → (b ≡ false → EndsRun y)
      → (b ≡ true → EndsRun x)
      → EndsRun (if b then x else y)
  gated true x y h k = k refl
  gated false x y h k = h refl

  -- Messages come to a session that was stopped, and that quits when it has nothing. Each of them says
  -- that a connection has ended or that a transfer is closed. If every connection of the session is
  -- ended and every transfer closed by one of them, in any order, the loop takes them without a panic
  -- and ends.
  pub run_all-ends :
      (ms : List (ℕ × Message)) (s : Session)
      → Quits s
      → s.stopped ≡ true
      → All (λ x. is_closing x.1 ≡ true) ms
      → AllClosed s ms
      → EndsRun (run_all limits ms s)
  unfolding run_all any_message step is_closing nothing_left
  run_all-ends [] s q st c a = ((s, []), refl, q' st nothing)
    where
      q' : s.stopped ≡ true → nothing_left s ≡ true → s.execute ≡ false
      q' = unfold Quits in q

      nothing : nothing_left s ≡ true
      nothing =
          both (is_none s.connections) (is_none s.transfers)
            (none_left same_endpoint same_endpoint_self same_endpoint-euclid s.connections
              (λ e h. absurd (cc (a.links e h))))
            (none_left same_bytes same_bytes_self same_bytes-euclid s.transfers
              (λ h k. absurd (cc (a.jobs h k))))
        where
          both : (x y : Bool) → x ≡ true → y ≡ true → (x && y) ≡ true
          both x y h k = ground (arith, h, k)
  run_all-ends ((now, link_closed r failed) ∷ ms) s q st c a =
      let closed = unregister_link-Closes now r failed s in
      gated s.execute _ _ (λ e. ((s, []), refl, e))
        (λ e. after_first ms (unregister_link now r failed s).0 (unregister_link now r failed s).1 (
          run_all-ends ms (unregister_link now r failed s).0 (unregister_link-Quits now r failed s)
            (closed.keeps.stopped ∙ st) c.1 (AllClosed-link s _ now r failed ms closed a)))
  run_all-ends ((now, transfer_closed r) ∷ ms) s q st c a =
      let closed = close_transfer-Closes r s in
      gated s.execute _ _ (λ e. ((s, []), refl, e))
        (λ e. after_first ms (close_transfer r s) [] (
          run_all-ends ms (close_transfer r s) (close_transfer-Quits r s)
            (closed.keeps.stopped ∙ st) c.1 (AllClosed-job s _ now r ms closed a)))
  run_all-ends ((now, m) ∷ ms) s q st c a = absurd (ground (arith, c.0))
