-- ===== src/Proto/Packets.antt =====
-- proto/peer.go and proto/common.go: the packets of peers. Each `Get` runs on a value that is there.
pub mod RoundTrip
pub mod Hashes
use ged2k.Prelude.{ℕ, zero, suc, ◌+◌, ◌*◌, ◌%◌, ◌^◌, ltb, if◌then◌else◌, List, [], ◌∷◌, length}
use ged2k.Prelude.Int.{ℤ, pos, negsuc, plus}
use ged2k.Proto.Buffer.{
  StateBuffer, Reader, pure, ◌>>=◌, ◌>>◌, ◌|>◌, read, read_num, read_uint8, read_uint16,
  read_unreadable, fail_with, write, write_uint, too_many, invalid_type,
}
use ged2k.Proto.Basic.{
  Ed2kHash, zero_hash, get_hash, put_hash, size_hash, Endpoint, get_endpoint, put_endpoint,
  size_endpoint, ByteContainer, get_byte_container, put_byte_container, size_byte_container,
}
use ged2k.Proto.Tags.{TagCollection, max_elems, get_tags, put_tags, size_tags}
use ged2k.Proto.BitField.{BitField, get_bit_field, put_bit_field, size_bit_field}

-- The same as the server's `LoginRequest`.
pub record UsualPacket : Type 0 where
  pub hash : Ed2kHash
  pub point : Endpoint
  pub properties : TagCollection

unfoldable pub get_usual_packet : UsualPacket → Reader UsualPacket
get_usual_packet up = do
  hash ← read get_hash up.hash
  point ← read get_endpoint up.point
  properties ← read get_tags up.properties
  pure (record { hash = hash; point = point; properties = properties })

unfoldable pub put_usual_packet : UsualPacket → StateBuffer → StateBuffer
put_usual_packet up sb =
    sb
    |> write (put_hash up.hash)
    |> write (put_endpoint up.point)
    |> write (put_tags up.properties)

abbrev pub size_usual_packet : UsualPacket → ℤ
size_usual_packet up = plus (size_hash + size_endpoint) (size_tags up.properties)

pub record HelloAnswer : Type 0 where
  pub hash : Ed2kHash
  pub point : Endpoint
  pub properties : TagCollection
  pub server_point : Endpoint

unfoldable pub get_hello_answer : HelloAnswer → Reader HelloAnswer
get_hello_answer ha = do
  hash ← read get_hash ha.hash
  point ← read get_endpoint ha.point
  properties ← read get_tags ha.properties
  server_point ← read get_endpoint ha.server_point
  pure (record { hash = hash; point = point; properties = properties; server_point = server_point })

unfoldable pub put_hello_answer : HelloAnswer → StateBuffer → StateBuffer
put_hello_answer ha sb =
    sb
    |> write (put_hash ha.hash)
    |> write (put_endpoint ha.point)
    |> write (put_tags ha.properties)
    |> write (put_endpoint ha.server_point)

unfoldable pub size_hello_answer : HelloAnswer → ℤ
size_hello_answer ha = plus (size_hash + size_endpoint + size_endpoint) (size_tags ha.properties)

pub record Hello : Type 0 where
  pub hash_length : ℕ
  pub answer : HelloAnswer

-- `Read` of a value, not of a pointer to it, whose `Size` may be negative.
unfoldable pub read_by_value : {A : Type 0} → ℤ → A → Reader A
read_by_value (pos size) old sb = read_unreadable size old sb
read_by_value (negsuc size) old sb = read (λ a s. (a, fail_with invalid_type s)) old sb

unfoldable pub get_hello : Hello → Reader Hello
get_hello hello =
    read_uint8
    >> (read_by_value (size_hello_answer hello.answer) hello.answer >>= λ answer.
        pure (record hello { answer = answer }))

unfoldable pub put_hello : Hello → StateBuffer → StateBuffer
put_hello hello sb = sb |> write_uint 1 0x10 |> write (put_hello_answer hello.answer)

abbrev pub size_hello : Hello → ℤ
size_hello hello = plus 1 (size_hello_answer hello.answer)

pub record ExtHello : Type 0 where
  pub version : ℕ
  pub protocol_version : ℕ
  pub properties : TagCollection

unfoldable pub get_ext_hello : ExtHello → Reader ExtHello
get_ext_hello eh = do
  version ← read_num 1 eh.version
  protocol_version ← read_num 1 eh.protocol_version
  properties ← read get_tags eh.properties
  pure (record { version = version; protocol_version = protocol_version; properties = properties })

unfoldable pub put_ext_hello : ExtHello → StateBuffer → StateBuffer
put_ext_hello eh sb =
    sb
    |> write_uint 1 eh.version
    |> write_uint 1 eh.protocol_version
    |> write (put_tags eh.properties)

abbrev pub size_ext_hello : ExtHello → ℤ
size_ext_hello eh = plus (1 + 1) (size_tags eh.properties)

pub record FileAnswer : Type 0 where
  pub hash : Ed2kHash
  pub name : ByteContainer

unfoldable pub get_file_answer : FileAnswer → Reader FileAnswer
get_file_answer fa = do
  hash ← read get_hash fa.hash
  name ← read get_byte_container fa.name
  pure (record { hash = hash; name = name })

unfoldable pub put_file_answer : FileAnswer → StateBuffer → StateBuffer
put_file_answer fa sb = sb |> write (put_hash fa.hash) |> write (put_byte_container fa.name)

abbrev pub size_file_answer : FileAnswer → ℕ
size_file_answer fa = size_hash + size_byte_container fa.name

pub record FileStatusAnswer : Type 0 where
  pub hash : Ed2kHash
  pub bf : BitField

unfoldable pub get_file_status_answer : FileStatusAnswer → Reader FileStatusAnswer
get_file_status_answer fs = do
  hash ← read get_hash fs.hash
  bf ← read get_bit_field fs.bf
  pure (record { hash = hash; bf = bf })

unfoldable pub put_file_status_answer : FileStatusAnswer → StateBuffer → StateBuffer
put_file_status_answer fs sb = sb |> write (put_hash fs.hash) |> write (put_bit_field fs.bf)

abbrev pub size_file_status_answer : FileStatusAnswer → ℕ
size_file_status_answer fs = size_hash + size_bit_field fs.bf

pub record HashSet : Type 0 where
  pub hash : Ed2kHash
  pub piece_hashes : List Ed2kHash

-- The loop over a slice of `n` zero hashes.
unfoldable pub get_hashes : ℕ → Reader (List Ed2kHash)
get_hashes zero = pure []
get_hashes (suc n) = do h ← read get_hash zero_hash; rest ← get_hashes n; pure (h ∷ rest)

unfoldable pub too_many_hashes : HashSet → Reader HashSet
too_many_hashes hs sb = (hs, fail_with too_many sb)

unfoldable pub get_hash_set : HashSet → Reader HashSet
get_hash_set hs = do
  hash ← read get_hash hs.hash
  size ← read_uint16
  if ltb max_elems size
      then too_many_hashes (record hs { hash = hash })
      else (get_hashes size >>= λ hashes. pure (record { hash = hash; piece_hashes = hashes }))

unfoldable pub put_hashes : List Ed2kHash → StateBuffer → StateBuffer
put_hashes [] sb = sb
put_hashes (x ∷ xs) sb = put_hashes xs (sb |> write (put_hash x))

unfoldable pub put_hash_set : HashSet → StateBuffer → StateBuffer
put_hash_set hs sb =
    sb
    |> write (put_hash hs.hash)
    |> write_uint 2 (length hs.piece_hashes % 2 ^ 16)
    |> put_hashes hs.piece_hashes

abbrev pub size_hash_set : HashSet → ℕ
size_hash_set hs = size_hash + 2 + length hs.piece_hashes * size_hash

-- hash.Hash of the package md4: a parameter.
pub record Md4 (H : Type 0) : Type 0 where
  pub new : H
  pub write : H → List ℕ → H
  pub sum : H → Ed2kHash

unfoldable pub write_hashes : {H : Type 0} → Md4 H → H → List Ed2kHash → H
write_hashes md4 hasher [] = hasher
write_hashes md4 hasher (x ∷ rest) = write_hashes md4 (md4.write hasher x) rest

unfoldable pub result_hash : {H : Type 0} → Md4 H → List Ed2kHash → Ed2kHash
result_hash md4 [] = zero_hash
result_hash md4 (x ∷ []) = x
result_hash md4 (x ∷ y ∷ rest) = md4.sum (write_hashes md4 md4.new (x ∷ y ∷ rest))
