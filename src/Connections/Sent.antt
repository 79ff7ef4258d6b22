-- ===== src/Connections/Sent.antt =====
-- peer_connection.go and proto/common.go: what `SendPacket` writes, `PacketCombiner.Read` takes.
use ged2k.Prelude.{
  ℕ, suc, ◌+◌, ◌%◌, ◌^◌, ◌≤◌, ◌<◌, ◌≡◌, ◌≢◌, refl, Bool, true, false, List, [], ◌∷◌, ◌++◌, length,
  take, take_all, replicate, ok, arith,
}
use ged2k.Prelude.Int.{pos}
use ged2k.Proto.Buffer.{StateBuffer, le_bytes, store}
use ged2k.Proto.Buffer.Wire.{Writes, Writes-fresh, le_value-le_bytes}
use ged2k.Proto.Basic.{PacketHeader, write_header, read_header}
use ged2k.Proto.Combiner.{Io, op_packedprot, ed2k_max_packet_size, read_packet}
use ged2k.Proto.Combiner.Frames.{IsPlain, Delivers, read_packet_ok}
use ged2k.Connections.{
  Network, Connection, sent, counted_sent, close_on_error, after_write, write_packet, send_packet,
}

abbrev pub header_for : ℕ → ℕ → List ℕ → PacketHeader
header_for protocol packet w = record {
  protocol = protocol;
  size = suc (length w);
  packet = packet;
}

abbrev pub head_bytes : PacketHeader → List ℕ
head_bytes ph = ph.protocol ∷ (le_bytes 4 ph.size ++ (ph.packet ∷ []))

write_header_fresh :
    (ph : PacketHeader) (w : List ℕ)
    → write_header ph (replicate 6 0 ++ w) ≡ ok (head_bytes ph ++ w)
unfolding write_header store le_bytes
write_header_fresh ph w = ground arith

take_whole :
    (ph : PacketHeader) (w : List ℕ) → take (length w + 6) (head_bytes ph ++ w) ≡ head_bytes ph ++ w
unfolding le_bytes
take_whole ph w = rw six (rw (take_all w))
  where
    six : length w + 6 ≡ suc (suc (suc (suc (suc (suc (length w))))))
    six = omega arith

read_header-head_bytes :
    (ph : PacketHeader) → ph.size < 2 ^ 32 → read_header (head_bytes ph) ≡ ok ph
unfolding read_header le_bytes
read_header-head_bytes ph h = rw (le_value-le_bytes 4 ph.size (omega arith)) refl

-- The bytes of a packet: its header, and what `Put` writes.
abbrev pub frame : ℕ → ℕ → List ℕ → List ℕ
frame protocol packet w = head_bytes (header_for protocol packet w) ++ w

module _ {S Z : Type 0} (net : Network S Z) where
  send_packet-sent :
      (c : Connection S) (protocol packet : ℕ) {put : StateBuffer → StateBuffer} (w : List ℕ)
      → Writes put w
      → length w ≤ ed2k_max_packet_size
      → (net.write (frame protocol packet w) c.rest).0 ≡ true
      → send_packet net protocol packet (pos (length w)) put c
        ≡ ok (
          record c { rest = (net.write (frame protocol packet w) c.rest).1 },
          sent (frame protocol packet w) ∷ counted_sent (length (frame protocol packet w)) ∷ [],
        )
  unfolding send_packet close_on_error write_packet after_write
  send_packet-sent c protocol packet w writes small good =
      rw
        (
          Writes-fresh writes,
          size_mod,
          write_header_fresh (header_for protocol packet w) w,
          take_whole (header_for protocol packet w) w,
        )
        (written (frame protocol packet w) (net.write (frame protocol packet w) c.rest) good)
    where
      size_mod : (length w + 1) % 2 ^ 32 ≡ suc (length w)
      size_mod = omega arith

      written :
          (bytes : List ℕ) (r : Bool × S)
          → r.0 ≡ true
          → after_write net bytes c r
            ≡ ok (record c { rest = r.1 }, sent bytes ∷ counted_sent (length bytes) ∷ [])
      written bytes (b, s) e = rw (e, after_write)

  -- A packet whose `Put` writes the bytes `w`, as many as its `Size` says and at most 125000, is sent
  -- over a socket that takes them; it is not packed and brings no part of a file. `SendPacket` writes
  -- its frame and counts its bytes. A `PacketCombiner` whose reader gives first the header and then the
  -- rest of this frame returns the protocol, the type and the bytes `w`, without an error.
  pub read_packet-send_packet :
      {R : Type 0} (reader : Io R) (c : Connection S) (protocol packet : ℕ)
      {put : StateBuffer → StateBuffer} (w old : List ℕ) (r r1 r2 : R)
      → Writes put w
      → length w ≤ ed2k_max_packet_size
      → (net.write (frame protocol packet w) c.rest).0 ≡ true
      → IsPlain (header_for protocol packet w)
      → protocol ≢ op_packedprot
      → Delivers reader r 6 (head_bytes (header_for protocol packet w)) r1
      → Delivers reader r1 (length w) w r2
      → (send_packet net protocol packet (pos (length w)) put c
          ≡ ok (
            record c { rest = (net.write (frame protocol packet w) c.rest).1 },
            sent (frame protocol packet w) ∷ counted_sent (length (frame protocol packet w)) ∷ [],
          ))
        × ((after : List ℕ) × (read_packet reader old r
              ≡ ok (record {
                header = header_for protocol packet w;
                contents = w;
                failed = false;
                buffer = after;
                rest = r2;
              })))
  read_packet-send_packet reader c protocol packet w old r r1 r2 writes small good plain unpacked
        head body =
      (
        send_packet-sent c protocol packet w writes small good,
        read_packet_ok reader old (head_bytes (header_for protocol packet w)) w r r1 r2
            (header_for protocol packet w) (length w) head
            (read_header-head_bytes (header_for protocol packet w) (omega arith)) plain unpacked
            refl small body,
      )
