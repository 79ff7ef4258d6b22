-- ===== src/Proto/Basic.antt =====
-- proto/common.go: the small types that every packet is made of. A number field holds a value of
-- its Go type; a byte array or slice is a list of bytes.
pub mod RoundTrip
use ged2k.Prelude.{
  ℕ, ◌+◌, ◌%◌, ◌^◌, ◌==◌, ◌&&◌, ◌||◌, bit_and, Bool, List, [], ◌∷◌, length, replicate, Outcome, ok,
  panic, ltb, if◌then◌else◌, set,
}
use ged2k.Proto.Buffer.{
  StateBuffer, Reader, pure, ◌>>=◌, ◌|>◌, read_num, read_slice, read_uint16, read_uint32, if_ok,
  commit, write_slice, write_uint, le_bytes, le_value, store,
}

abbrev pub hash_len : ℕ
hash_len = 16

-- ED2KHash is an array of 16 bytes.
abbrev pub Ed2kHash : Type 0
Ed2kHash = List ℕ

abbrev pub zero_hash : Ed2kHash
zero_hash = replicate 16 0

unfoldable pub get_hash : Ed2kHash → Reader Ed2kHash
get_hash h = read_slice h

unfoldable pub put_hash : Ed2kHash → StateBuffer → StateBuffer
put_hash h sb = sb |> write_slice h

abbrev pub size_hash : ℕ
size_hash = 16

pub record Endpoint : Type 0 where
  pub ip : ℕ
  pub port : ℕ

abbrev pub empty_endpoint : Endpoint
empty_endpoint = record { ip = 0; port = 0 }

unfoldable pub get_endpoint : Endpoint → Reader Endpoint
get_endpoint i = do
  ip ← read_num 4 i.ip
  port ← read_num 2 i.port
  pure (record { ip = ip; port = port })

unfoldable pub put_endpoint : Endpoint → StateBuffer → StateBuffer
put_endpoint i sb = sb |> write_uint 4 i.ip |> write_uint 2 i.port

abbrev pub size_endpoint : ℕ
size_endpoint = 4 + 2

unfoldable pub endpoint_is_empty : Endpoint → Bool
endpoint_is_empty ep = ep.ip == 0 && ep.port == 0

-- The address is stored with its first number in the lowest byte.
unfoldable pub is_local_address : Endpoint → Bool
is_local_address ep =
    bit_and ep.ip 0x0000ff == 0x0000000a
    || bit_and ep.ip 0x0000f0ff == 0x000010ac
    || bit_and ep.ip 0x0000ffff == 0x0000a8c0
    || bit_and ep.ip 0x0000ffff == 0x0000fea9
    || bit_and ep.ip 0x000000ff == 0x0000007f

-- The type IP is a uint32.
unfoldable pub get_ip : Reader ℕ
get_ip = read_uint32

unfoldable pub put_ip : ℕ → StateBuffer → StateBuffer
put_ip ip sb = sb |> write_uint 4 ip

abbrev pub size_ip : ℕ
size_ip = 4

abbrev pub ByteContainer : Type 0
ByteContainer = List ℕ

unfoldable pub get_byte_container : ByteContainer → Reader ByteContainer
get_byte_container bc = do n ← read_uint16; if_ok bc (commit bc (read_slice (replicate n 0)))

unfoldable pub put_byte_container : ByteContainer → StateBuffer → StateBuffer
put_byte_container bc sb = sb |> write_uint 2 (length bc % 2 ^ 16) |> write_slice bc

abbrev pub size_byte_container : ByteContainer → ℕ
size_byte_container bc = 2 + length bc

pub record PacketHeader : Type 0 where
  pub protocol : ℕ
  pub size : ℕ
  pub packet : ℕ

abbrev pub empty_header : PacketHeader
empty_header = record { protocol = 0; size = 0; packet = 0 }

-- The first byte goes into `Packet`, as in the source, and is overwritten by the last.
unfoldable pub get_packet_header : PacketHeader → Reader PacketHeader
get_packet_header ph = do
  first ← read_num 1 ph.packet
  size ← read_num 4 ph.size
  packet ← read_num 1 first
  pure (record { protocol = ph.protocol; size = size; packet = packet })

unfoldable pub put_packet_header : PacketHeader → StateBuffer → StateBuffer
put_packet_header ph sb =
    sb |> write_uint 1 ph.protocol |> write_uint 4 ph.size |> write_uint 1 ph.packet

abbrev pub size_packet_header : ℕ
size_packet_header = 1 + 4 + 1

unfoldable pub header_is_empty : PacketHeader → Bool
header_is_empty ph = ph.protocol == 0 && ph.size == 0 && ph.packet == 0

-- The method `Read`: from six bytes, and a panic on fewer.
unfoldable pub read_header : List ℕ → Outcome PacketHeader
read_header (b0 ∷ b1 ∷ b2 ∷ b3 ∷ b4 ∷ b5 ∷ rest) =
    ok (record { protocol = b0; size = le_value (b1 ∷ b2 ∷ b3 ∷ b4 ∷ []); packet = b5 })
read_header buffer = panic

-- The method `Write`: over the first six bytes. On a shorter buffer it panics half way.
unfoldable pub write_header : PacketHeader → List ℕ → Outcome (List ℕ)
write_header ph buffer =
    if ltb (length buffer) 6
    then panic
    else ok (set (store (set buffer 0 ph.protocol) 1 (le_bytes 4 ph.size)) 5 ph.packet)
