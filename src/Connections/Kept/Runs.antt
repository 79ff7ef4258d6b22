-- ===== src/Connections/Kept/Runs.antt =====
-- peer_connection.go: the blocks that are requested, over every run of the loop.
use ged2k.Prelude.{
  ℕ, ◌+◌, ◌≡◌, refl, Bool-cases, Option-cases, inl, inr, if◌then◌else◌, List, [], ◌∷◌, ◌++◌, All,
  All-append, Outcome, ok, panic, Ensures, Ensures->>=, Ensures-any, Ensures_ok, arith,
}
use mathlib.Core.List.{append-nil}
use ged2k.Prelude.Tally.{as_number}
use ged2k.Proto.Geometry.{PieceBlock}
use ged2k.Proto.Packets.{HelloAnswer}
use ged2k.Proto.Combiner.{Combined, read_packet}
use ged2k.Pieces.Pending.{PendingBlock}
use ged2k.Connections.{Network, Connection, LinkError, unregistered}
use ged2k.Connections.Packets.{Turn, kind_of, on_packet, same_block}
use ged2k.Connections.Loop.{
  abort_all, unregister, ask, put_first, Event, packet_comes, asked, Run, after_read, turn,
  continue_with, run,
}
use ged2k.Connections.Totals.{total, total-append}
use ged2k.Connections.Kept.{passed_on, passed_on-append, IsComplete, IsKept, IsKept-stop}
use ged2k.Connections.Kept.Packets.{on_packet-IsKept}

-- The blocks that the transfer asks for.
abbrev pub asked_in : List Event → List PendingBlock
asked_in [] = []
asked_in (packet_comes ∷ es) = asked_in es
asked_in (asked pbs ∷ es) = pbs ++ asked_in es

-- The blocks that are still requested, of a loop that goes on.
abbrev pub still : {S : Type 0} → Run S → List PendingBlock
still r = if r.running then r.connection.requested else []

passed_on-abort_all : (xs : List PendingBlock) → passed_on (abort_all xs) ≡ xs
unfolding abort_all
passed_on-abort_all [] = refl
passed_on-abort_all (x ∷ xs) = rw (passed_on-abort_all xs)

abort_all-IsComplete : (xs : List PendingBlock) → All IsComplete (abort_all xs)
unfolding abort_all
abort_all-IsComplete [] = tt
abort_all-IsComplete (x ∷ xs) = (tt, abort_all-IsComplete xs)

passed_on-unregister : (xs : List PendingBlock) (e : LinkError) → passed_on (unregister xs e) ≡ xs
unfolding unregister
passed_on-unregister xs e =
    rw (passed_on-append (abort_all xs) (unregistered e ∷ []), passed_on-abort_all xs)
      (append-nil xs)

unregister-IsComplete : (xs : List PendingBlock) (e : LinkError) → All IsComplete (unregister xs e)
unfolding unregister
unregister-IsComplete xs e =
    All-append IsComplete (abort_all xs) (unregistered e ∷ []) (abort_all-IsComplete xs) (tt, tt)

-- What holds of a run that starts with `before` and has `es` to come.
record RunIsKept {S : Type 0} (v : PieceBlock → ℕ) (before : List PendingBlock) (es : List Event)
    (r : Run S) : Type 0 where
  kept :
      total v before + total v (asked_in es)
      ≡ total v (passed_on r.outputs) + total v (still r) + total v (asked_in r.later)
  complete : All IsComplete r.outputs

module _ {S Z : Type 0} (net : Network S Z) (me : HelloAnswer) (v : PieceBlock → ℕ) where
  after_read-IsKept :
      (c : Connection S) (p : Combined S) → Ensures (IsKept v c) (after_read net me c p)
  unfolding after_read put_first
  after_read-IsKept c p = elim (Bool-cases p.failed) [
    | inl e ↦ rw (e, after_read) (IsKept-stop v c _ _ refl)
    | inr e ↦
        rw (e, after_read)
          (let c' : Connection S = record c { buffer = p.buffer; rest = p.rest } in
            Ensures->>= (IsKept v c') (IsKept v c)
              (on_packet net me c' p.contents (kind_of p.header)) _
              (on_packet-IsKept net me v c' p.contents (kind_of p.header))
              (λ t h. record { kept = h.kept; complete = (tt, h.complete) }))
  ]

  turn-IsKept : (c : Connection S) → Ensures (IsKept v c) (turn net me c)
  unfolding turn
  turn-IsKept c =
      Ensures->>= _ (IsKept v c) (read_packet net.io c.buffer c.rest) _
        (Ensures-any (read_packet net.io c.buffer c.rest)) (λ p u. after_read-IsKept c p)

  continue_with-IsKept :
      (c : Connection S) (es : List Event) (t : Turn S)
      → IsKept v c t
      → ((c' : Connection S) → Ensures (RunIsKept v c'.requested es) (run net me es c'))
      → Ensures (RunIsKept v c.requested es) (continue_with net me (run net me es) es t)
  unfolding continue_with total
  continue_with-IsKept c es t h more = elim (Option-cases t.error) [
    | inl e ↦
        rw (e, continue_with)
          (Ensures->>= _ (RunIsKept v c.requested es) (run net me es t.connection) _
            (more t.connection)
            (λ r k. record {
              kept = rw (passed_on-append t.outputs r.outputs) (
                  omega (
                    arith,
                    total-append v (passed_on t.outputs) (passed_on r.outputs),
                    h.kept,
                    k.kept,
                  ));
              complete = All-append IsComplete t.outputs r.outputs h.complete k.complete;
            }))
    | inr (err, e) ↦
        rw (e, continue_with)
          (record {
            kept =
                rw
                  (
                    passed_on-append t.outputs (unregister t.connection.requested err),
                    passed_on-unregister t.connection.requested err,
                  )
                  (omega
                    (arith, total-append v (passed_on t.outputs) t.connection.requested, h.kept));
            complete =
                All-append IsComplete t.outputs (unregister t.connection.requested err) h.complete
                  (unregister-IsComplete t.connection.requested err);
          })
  ]

  run-IsKept :
      (es : List Event) (c : Connection S) → Ensures (RunIsKept v c.requested es) (run net me es c)
  unfolding run total ask
  run-IsKept [] c = record { kept = omega arith; complete = tt }
  run-IsKept (packet_comes ∷ es) c =
      Ensures->>= (IsKept v c) (RunIsKept v c.requested (packet_comes ∷ es)) (turn net me c) _
        (turn-IsKept c)
        (λ t h. same_events c es _ (continue_with-IsKept c es t h (λ c'. run-IsKept es c')))
    where
      same_events :
          (c : Connection S) (es : List Event) (m : Outcome (Run S))
          → Ensures (RunIsKept v c.requested es) m
          → Ensures (RunIsKept v c.requested (packet_comes ∷ es)) m
      same_events c es (ok r) h = record { kept = h.kept; complete = h.complete }
      same_events c es panic h = tt
  run-IsKept (asked pbs ∷ es) c = more_asked (run net me es (ask c pbs)) (run-IsKept es (ask c pbs))
    where
      more_asked :
          (m : Outcome (Run S))
          → Ensures (RunIsKept v (c.requested ++ pbs) es) m
          → Ensures (RunIsKept v c.requested (asked pbs ∷ es)) m
      more_asked (ok r) h = record {
        kept =
            omega (arith, total-append v c.requested pbs, total-append v pbs (asked_in es), h.kept);
        complete = h.complete;
      }
      more_asked panic h = tt

-- How often a block stands in a list.
pub times : PieceBlock → List PendingBlock → ℕ
times b = total (λ p. as_number (same_block p b))

module _ {S Z : Type 0} (net : Network S Z) (me : HelloAnswer) where
  -- In a run of the loop over any events that does not panic no request is lost and none is doubled:
  -- each block, as often as it was requested at the start or asked for by the transfer before the loop
  -- ended, is passed to the transfer or aborted, or is still requested by a loop that goes on.
  pub run_keeps :
      (es : List Event) (c : Connection S) (r : Run S) (b : PieceBlock)
      → run net me es c ≡ ok r
      → times b c.requested + times b (asked_in es)
        ≡ times b (passed_on r.outputs) + times b (still r) + times b (asked_in r.later)
  unfolding times
  run_keeps es c r b h = (Ensures_ok _ (run net me es c) r (run-IsKept net me _ es c) h).kept

  -- In a run of the loop over any events that does not panic every block that goes to the transfer has
  -- an empty region.
  pub run-IsComplete :
      (es : List Event) (c : Connection S) (r : Run S)
      → run net me es c ≡ ok r
      → All IsComplete r.outputs
  run-IsComplete es c r h =
      (Ensures_ok _ (run net me es c) r (run-IsKept net me (λ p. 0) es c) h).complete
