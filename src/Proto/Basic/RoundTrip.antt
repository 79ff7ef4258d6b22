-- ===== src/Proto/Basic/RoundTrip.antt =====
-- proto/common.go: what each small type looks like on the wire, under `Put` and under `Get`.
use ged2k.Prelude.{
  ℕ, ◌%◌, ◌^◌, ◌<◌, ◌≤◌, ◌≡◌, ◌≢◌, refl, ap, none, some, List, [], ◌∷◌, ◌++◌, length, replicate,
  length-replicate, length-append, ok, ◌>>=◌ as ◌>>=ᵒ◌, arith,
}
use ged2k.Proto.Buffer.{
  invalid_type, le_bytes, make_buffer, reread, ◌>>=◌, read_slice, if_ok, commit, fail_with, store,
  le_value,
}
use ged2k.Proto.Buffer.Wire.{
  at, Reads, Writes, Reads->>=, Reads-map, Reads-if_ok, Reads-commit, Reads-read_num,
  Reads-read_uint, Reads-read_slice, Reads-Writes, Writes-write_slice, Writes-write_uint,
  Writes-then, Writes-cong, length-le_bytes,
}
use ged2k.Proto.Basic.{
  Ed2kHash, get_hash, put_hash, Endpoint, get_endpoint, put_endpoint, size_endpoint,
  size_byte_container, size_packet_header, ByteContainer, get_byte_container, put_byte_container,
  PacketHeader, get_packet_header, put_packet_header, read_header, write_header,
}

abbrev pub IsHash : Ed2kHash → Type 0
IsHash h = length h ≡ 16

pub record EndpointIsValid (e : Endpoint) : Type 0 where
  pub ip_fits : e.ip < 2 ^ 32
  pub port_fits : e.port < 2 ^ 16

pub endpoint_bytes : Endpoint → List ℕ
endpoint_bytes e = le_bytes 4 e.ip ++ le_bytes 2 e.port

pub byte_container_bytes : ByteContainer → List ℕ
byte_container_bytes bc = le_bytes 2 (length bc) ++ bc

pub record HeaderIsValid (ph : PacketHeader) : Type 0 where
  pub protocol_fits : ph.protocol < 2 ^ 8
  pub size_fits : ph.size < 2 ^ 32
  pub packet_fits : ph.packet < 2 ^ 8

pub header_bytes : PacketHeader → List ℕ
header_bytes ph = le_bytes 1 ph.protocol ++ (le_bytes 4 ph.size ++ le_bytes 1 ph.packet)

pub Reads-get_hash : (old h : Ed2kHash) → IsHash old → IsHash h → Reads (get_hash old) h h
unfolding get_hash
Reads-get_hash old h e k =
    Reads-read_slice old h (omega arith) (λ n. absurd (omega (arith, ap length n)))

pub Writes-put_hash : (h : Ed2kHash) → Writes (put_hash h) h
unfolding put_hash
Writes-put_hash h = Writes-write_slice h

pub Reads-get_endpoint :
    (old e : Endpoint) → EndpointIsValid e → Reads (get_endpoint old) (endpoint_bytes e) e
unfolding get_endpoint endpoint_bytes
Reads-get_endpoint old e v =
    Reads->>= _ _ (Reads-read_num 4 old.ip e.ip (omega arith))
      (Reads-map _ (Reads-read_num 2 old.port e.port (omega arith)))

pub Writes-put_endpoint : (e : Endpoint) → Writes (put_endpoint e) (endpoint_bytes e)
unfolding put_endpoint endpoint_bytes
Writes-put_endpoint e = Writes-then (Writes-write_uint 4 e.ip) (Writes-write_uint 2 e.port)

pub length-endpoint_bytes : (e : Endpoint) → length (endpoint_bytes e) ≡ size_endpoint
unfolding endpoint_bytes
length-endpoint_bytes e = rw (length-append, length-le_bytes, length-le_bytes)

pub Reads-get_byte_container :
    (old bc : ByteContainer)
    → bc ≢ []
    → length bc < 2 ^ 16
    → Reads (get_byte_container old) (byte_container_bytes bc) bc
unfolding get_byte_container byte_container_bytes
Reads-get_byte_container old bc ne h = Reads->>= _ _ (Reads-read_uint 2 (length bc) (omega arith)) (
    Reads-if_ok old (
      Reads-commit old
        (Reads-read_slice (replicate (length bc) 0) bc (length-replicate (length bc) 0) ne)))

pub Writes-put_byte_container :
    (bc : ByteContainer)
    → length bc < 2 ^ 16
    → Writes (put_byte_container bc) (byte_container_bytes bc)
unfolding put_byte_container byte_container_bytes
Writes-put_byte_container bc h =
    Writes-cong (rw (fits))
      (Writes-then (Writes-write_uint 2 (length bc % 2 ^ 16)) (Writes-write_slice bc))
  where
    fits : length bc % 2 ^ 16 ≡ length bc
    fits = omega arith

pub length-byte_container_bytes :
    (bc : ByteContainer) → length (byte_container_bytes bc) ≡ size_byte_container bc
unfolding byte_container_bytes
length-byte_container_bytes bc =
    omega (arith, length-append (le_bytes 2 (length bc)) bc, length-le_bytes 2 (length bc))

-- An endpoint whose fields fit their types, written to a buffer of its size, reads back, without an
-- error and to the end.
pub get_endpoint-put_endpoint :
    (old e : Endpoint)
    → EndpointIsValid e
    → get_endpoint old (reread (put_endpoint e (make_buffer size_endpoint)))
      ≡ (e, record { bytes = endpoint_bytes e; err = none; pos = size_endpoint })
get_endpoint-put_endpoint old e v =
    rw (length-endpoint_bytes e) at
      (Reads-Writes (Writes-put_endpoint e) (Reads-get_endpoint old e v))

-- A byte container that is not empty, and whose length fits 16 bits, reads back.
pub get_byte_container-put_byte_container :
    (old bc : ByteContainer)
    → bc ≢ []
    → length bc < 2 ^ 16
    → get_byte_container old (reread (put_byte_container bc (make_buffer (size_byte_container bc))))
      ≡ (bc, record { bytes = byte_container_bytes bc; err = none; pos = size_byte_container bc })
get_byte_container-put_byte_container old bc ne h =
    rw (length-byte_container_bytes bc) at
      (Reads-Writes (Writes-put_byte_container bc h) (Reads-get_byte_container old bc ne h))

-- Wherever the two zero bytes of an empty byte container stand in the input, `Get` takes them for a
-- type that it cannot read, and the value stays as it was.
pub get_byte_container_empty :
    (old : ByteContainer) (front back : List ℕ)
    → get_byte_container old (at front (le_bytes 2 0 ++ back)) ≡ (
      old,
      record {
        bytes = (front ++ le_bytes 2 0) ++ back;
        err = some invalid_type;
        pos = length (front ++ le_bytes 2 0);
      },
    )
unfolding get_byte_container ◌>>=◌ read_slice if_ok commit fail_with
get_byte_container_empty old front back =
    rw ((Reads-read_uint 2 0 (omega arith)).run front back)
      (ground (arith, length-append (front ++ le_bytes 2 0) back))

Reads-get_packet_header :
    (old ph : PacketHeader)
    → HeaderIsValid ph
    → Reads (get_packet_header old) (header_bytes ph) (record ph { protocol = old.protocol })
unfolding get_packet_header header_bytes
Reads-get_packet_header old ph v =
    Reads->>= _ _ (Reads-read_num 1 old.packet ph.protocol (omega arith)) (
      Reads->>= _ _ (Reads-read_num 4 old.size ph.size (omega arith))
        (Reads-map _ (Reads-read_num 1 ph.protocol ph.packet (omega arith))))

Writes-put_packet_header : (ph : PacketHeader) → Writes (put_packet_header ph) (header_bytes ph)
unfolding put_packet_header header_bytes
Writes-put_packet_header ph =
    Writes-then (Writes-write_uint 1 ph.protocol)
      (Writes-then (Writes-write_uint 4 ph.size) (Writes-write_uint 1 ph.packet))

length-header_bytes : (ph : PacketHeader) → length (header_bytes ph) ≡ size_packet_header
unfolding header_bytes le_bytes
length-header_bytes ph = refl

-- A packet header whose fields fit their types, written to a buffer of its size, reads back but for
-- `Protocol`, which `Get` leaves as it was.
pub get_packet_header-put_packet_header :
    (old ph : PacketHeader)
    → HeaderIsValid ph
    → get_packet_header old (reread (put_packet_header ph (make_buffer size_packet_header))) ≡ (
      record ph { protocol = old.protocol },
      record { bytes = header_bytes ph; err = none; pos = size_packet_header },
    )
get_packet_header-put_packet_header old ph v =
    rw (length-header_bytes ph) at
      (Reads-Writes (Writes-put_packet_header ph) (Reads-get_packet_header old ph v))

-- What the method `Write` put of a header with a 32-bit size over the first six bytes of a buffer
-- that has as many, the method `Read` gets back.
pub read_header-write_header :
    (ph : PacketHeader) (buffer : List ℕ)
    → ph.size < 2 ^ 32
    → 6 ≤ length buffer
    → (write_header ph buffer >>=ᵒ read_header) ≡ ok ph
unfolding write_header read_header store le_bytes le_value
read_header-write_header ph (b0 ∷ b1 ∷ b2 ∷ b3 ∷ b4 ∷ b5 ∷ rest) h n = ground arith
read_header-write_header ph buffer h n = absurd (omega arith)
