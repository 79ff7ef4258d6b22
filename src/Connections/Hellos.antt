-- ===== src/Connections/Hellos.antt =====
-- peer_connection.go: a hello of the other side.
use ged2k.Prelude.{
  ℕ, ◌+◌, ◌≡◌, refl, false, some, Option-cases, inl, inr, List, [], ◌∷◌, length, ok, ==_iff,
}
use ged2k.Proto.Buffer.{Error, read}
use ged2k.Proto.Opcodes.{op_hello}
use ged2k.Proto.Basic.{PacketHeader}
use ged2k.Proto.Packets.{HelloAnswer, get_hello}
use ged2k.Proto.Packets.RoundTrip.{get_hello_fails}
use ged2k.Proto.Combiner.{Combined}
use ged2k.Connections.{Network, Connection, bad_packet, counted_received}
use ged2k.Connections.Packets.{kind_of, hello, empty_hello, open_buffer, read_or_stop, on_packet}
use ged2k.Connections.Loop.{after_read, put_first}

kind_of-hello : (ph : PacketHeader) → ph.packet ≡ op_hello → kind_of ph ≡ hello
unfolding kind_of
kind_of-hello ph e = rw ((==_iff ph.packet op_hello).1 e, kind_of)

-- Reading a hello ends in an error.
hello_error :
    (bytes : List ℕ)
    → (e : Error) × ((read get_hello empty_hello (open_buffer bytes)).1.err ≡ some e)
unfolding read
hello_error bytes = elim (Option-cases (get_hello empty_hello (open_buffer bytes)).1.err) [
  | inl e ↦ absurd ((get_hello_fails empty_hello (open_buffer bytes)).1 e)
  | inr found ↦ found
]

-- Whenever the other side says hello, whatever the bytes, the connection ends with an error: no answer
-- is sent, and only the bytes that came are counted.
pub after_read_hello :
    {S Z : Type 0} (net : Network S Z) (me : HelloAnswer) (c : Connection S) (p : Combined S)
    → p.failed ≡ false
    → p.header.packet ≡ op_hello
    → (e : Error) × (after_read net me c p
        ≡ ok (record {
          connection = record c { buffer = p.buffer; rest = p.rest };
          outputs = counted_received (length p.contents + 5) ∷ [];
          error = some (bad_packet e);
        }))
unfolding after_read on_packet read_or_stop put_first
after_read_hello net me c p came is_hello =
    let (e, fails) = hello_error p.contents in
    (e, rw (came, kind_of-hello p.header is_hello, on_packet, fails, read_or_stop) refl)
