-- ===== src/Connections/Loop.antt =====
-- peer_connection.go: the loop of `PeerConnection.Start`, and what its transfer does meanwhile.
use ged2k.Prelude.{
  ◌+◌, if◌then◌else◌, Bool, true, false, Option, none, some, List, [], ◌∷◌, ◌++◌, length, Outcome,
  ok, panic, ◌>>=◌,
}
use ged2k.Proto.Packets.{Hello, HelloAnswer, size_hello, put_hello}
use ged2k.Proto.Combiner.{Combined, read_packet, op_edonkeyprot}
use ged2k.Proto.Opcodes.{op_hello}
use ged2k.Proto.Basic.{hash_len}
use ged2k.Pieces.Pending.{PendingBlock}
use ged2k.Connections.{
  Network, Connection, LinkError, read_failed, dial_failed, registered, send_packet, Output,
  counted_received, aborted, unregistered,
}
use ged2k.Connections.Packets.{Turn, stop, kind_of, on_packet}

abbrev pub greeting : HelloAnswer → Hello
greeting me = record { hash_length = hash_len; answer = me }

-- `unregister`
unfoldable pub abort_all : List PendingBlock → List Output
abort_all [] = []
abort_all (x ∷ xs) = aborted x ∷ abort_all xs

unfoldable pub unregister : List PendingBlock → LinkError → List Output
unregister requested e = abort_all requested ++ (unregistered e ∷ [])

-- The transfer appends blocks to `requestedBlocks` when it serves the peer.
unfoldable pub ask : {S : Type 0} → Connection S → List PendingBlock → Connection S
ask c pbs = record c { requested = c.requested ++ pbs }

unfoldable pub put_first : {S : Type 0} → Output → Turn S → Turn S
put_first o t = record t { outputs = o ∷ t.outputs }

pub data Event : Type 0 where
  packet_comes : Event
  asked : List PendingBlock → Event

-- `later` are the events after the end of the loop.
pub record Run (S : Type 0) : Type 0 where
  pub connection : Connection S
  pub outputs : List Output
  pub running : Bool
  pub later : List Event

module _ {S Z : Type 0} (net : Network S Z) (me : HelloAnswer) where
  -- What is counted is the packet and its header but for a byte.
  unfoldable pub after_read : Connection S → Combined S → Outcome (Turn S)
  after_read c p =
      if p.failed
      then ok (stop (record c { buffer = p.buffer; rest = p.rest }) read_failed)
      else (do
        t ←
            on_packet net me (record c { buffer = p.buffer; rest = p.rest }) p.contents
              (kind_of p.header)
        ok (put_first (counted_received (length p.contents + 5)) t))

  -- One round of the loop.
  unfoldable pub turn : Connection S → Outcome (Turn S)
  turn c = do p ← read_packet net.io c.buffer c.rest; after_read c p

  unfoldable pub continue_with :
      (Connection S → Outcome (Run S)) → List Event → Turn S → Outcome (Run S)
  continue_with more later t = elim t.error [
    | some e ↦ ok (record {
      connection = t.connection;
      outputs = t.outputs ++ unregister t.connection.requested e;
      running = false;
      later = later;
    })
    | none ↦ do r ← more t.connection; ok (record r { outputs = t.outputs ++ r.outputs })
  ]

  unfoldable pub run : List Event → Connection S → Outcome (Run S)
  run [] c = ok (record { connection = c; outputs = []; running = true; later = [] })
  run (packet_comes ∷ es) c = do t ← turn c; continue_with (run es) es t
  run (asked pbs ∷ es) c = run es (ask c pbs)

  -- `Start` dials if there is no socket yet. A connection that the listener accepted has no peer, whose
  -- endpoint the first line of `Start` asks for.
  unfoldable pub start : Bool → Option S → List Event → Connection S → Outcome (Run S)
  start false dial es c = panic
  start true dial es c = if c.dialed then run es c else (elim dial [
    | none ↦ ok (record {
      connection = c;
      outputs = unregister c.requested dial_failed;
      running = false;
      later = es;
    })
    | some s ↦ do
      greeted ←
          send_packet net op_edonkeyprot op_hello (size_hello (greeting me))
            (put_hello (greeting me)) (record c { dialed = true; rest = s })
      r ← run es greeted.0
      ok (record r { outputs = registered ∷ (greeted.1 ++ r.outputs) })
  ])
