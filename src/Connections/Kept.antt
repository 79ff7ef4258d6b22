-- ===== src/Connections/Kept.antt =====
-- peer_connection.go: where the blocks that are requested go.
pub mod Blocks
pub mod Packets
pub mod Runs
use ged2k.Prelude.{
  ℕ, ◌+◌, ◌≡◌, refl, true, Option-cases, inl, inr, List, [], ◌∷◌, ◌++◌, All, Outcome, Ensures, ◌-◌,
  arith,
}
use mathlib.Core.List.{append_assoc}
use ged2k.Region.{is_empty}
use ged2k.Proto.Buffer.{Reader}
use ged2k.Proto.Geometry.{PieceBlock}
use ged2k.Pieces.Pending.{PendingBlock}
use ged2k.Connections.{
  Connection, Output, sent, counted_sent, counted_received, hash_set_out, block_out, ready,
  registered, aborted, unregistered, LinkError,
}
use ged2k.Connections.Packets.{Turn, go_on, stop, read_or_stop, open_buffer, ready_if_none}
use ged2k.Connections.Totals.{total}

-- The blocks that an output passes on: to the transfer, or as aborted.
abbrev pub passed : Output → List PendingBlock
passed (sent bytes) = []
passed (counted_sent n) = []
passed (counted_received n) = []
passed (hash_set_out hs) = []
passed (block_out x) = x ∷ []
passed ready = []
passed registered = []
passed (aborted x) = x ∷ []
passed (unregistered e) = []

abbrev pub passed_on : List Output → List PendingBlock
passed_on [] = []
passed_on (o ∷ os) = passed o ++ passed_on os

-- A block that goes to the transfer has no offset still to come.
abbrev pub IsComplete : Output → Type 0
IsComplete (sent bytes) = Unit
IsComplete (counted_sent n) = Unit
IsComplete (counted_received n) = Unit
IsComplete (hash_set_out hs) = Unit
IsComplete (block_out x) = is_empty x.region ≡ true
IsComplete ready = Unit
IsComplete registered = Unit
IsComplete (aborted x) = Unit
IsComplete (unregistered e) = Unit

module _ {S : Type 0} where
  -- Nothing is passed on, and the requests are the same.
  abbrev pub IsStill : Connection S → Connection S × List Output → Type 0
  IsStill c r = (r.0.requested ≡ c.requested) × (passed_on r.1 ≡ []) × All IsComplete r.1

  -- The blocks that were requested are passed on or still requested.
  pub record IsKept (v : PieceBlock → ℕ) (c : Connection S) (t : Turn S) : Type 0 where
    pub kept : total v c.requested ≡ total v (passed_on t.outputs) + total v t.connection.requested
    pub complete : All IsComplete t.outputs

module _ {S : Type 0} (v : PieceBlock → ℕ) where
  pub IsKept-stop :
      (c c' : Connection S) (e : LinkError) → c'.requested ≡ c.requested → IsKept v c (stop c' e)
  unfolding total
  IsKept-stop c c' e same = record { kept = rw same (omega arith); complete = tt }

  pub IsKept-go_on :
      (c : Connection S) (r : Connection S × List Output) → IsStill c r → IsKept v c (go_on r)
  unfolding total
  IsKept-go_on c r (same, none_passed, done) = record {
    kept = rw (same, none_passed) (omega arith);
    complete = done;
  }

  pub read_or_stop-IsKept :
      {A : Type 0} (c : Connection S) (bytes : List ℕ) (get : Reader A)
      (next : A → Outcome (Turn S))
      → ((a : A) → Ensures (IsKept v c) (next a))
      → Ensures (IsKept v c) (read_or_stop c bytes get next)
  unfolding read_or_stop
  read_or_stop-IsKept c bytes get next h = elim (Option-cases (get (open_buffer bytes)).1.err) [
    | inl e ↦ rw (e, read_or_stop) (h _)
    | inr (err, e) ↦ rw (e, read_or_stop) (IsKept-stop c c _ refl)
  ]

pub passed_on-append : (xs ys : List Output) → passed_on (xs ++ ys) ≡ passed_on xs ++ passed_on ys
passed_on-append [] ys = refl
passed_on-append (x ∷ xs) ys =
    rw (passed_on-append xs ys, append_assoc (passed x) (passed_on xs) (passed_on ys))

pub ready_if_none-passed : (xs : List PendingBlock) → passed_on (ready_if_none xs) ≡ []
unfolding ready_if_none
ready_if_none-passed [] = refl
ready_if_none-passed (x ∷ xs) = refl

pub ready_if_none-IsComplete : (xs : List PendingBlock) → All IsComplete (ready_if_none xs)
unfolding ready_if_none
ready_if_none-IsComplete [] = (tt, tt)
ready_if_none-IsComplete (x ∷ xs) = tt

-- What a read leaves of a block: its place.
