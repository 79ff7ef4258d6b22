-- ===== src/Servers.antt =====
-- server_connection.go: the connection to a server, as the session starts it. What it sends and what
-- it passes to the session is a list of outputs. The socket is a parameter.
pub mod Ends
use ged2k.Prelude.{
  ℕ, zero, suc, ◌+◌, ◌%◌, ◌^◌, ◌==◌, ltb, bit_or, if◌then◌else◌, Bool, true, false, Option, none,
  some, List, [], ◌∷◌, ◌++◌, take, replicate, Outcome, ok, panic, ◌>>=◌,
}
use ged2k.Prelude.Int.{ℤ, pos, negsuc}
use ged2k.Proto.Buffer.{Error, StateBuffer, Reader, make_buffer, offset, read, read_uint8}
use ged2k.Proto.Basic.{
  Ed2kHash, Endpoint, empty_endpoint, get_endpoint, ByteContainer, get_byte_container, zero_hash,
  write_header,
}
use ged2k.Proto.Tag.Create.{create_tag, uint32, string}
use ged2k.Proto.Packets.{UsualPacket, get_usual_packet, put_usual_packet, size_usual_packet}
use ged2k.Proto.Server.{
  IdChange, Status, get_id_change, get_status, put_server_list, size_server_list,
}
use ged2k.Proto.Search.{
  SearchRequest, put_search_request, size_search_request, put_search_more, size_search_more,
  GetFileSources, put_get_file_sources, size_get_file_sources, SearchResult, get_search_result,
}
use ged2k.Proto.Combiner.{Io, read_packet, op_edonkeyprot}
use ged2k.Proto.Opcodes.{
  op_loginrequest, op_getserverlist, op_searchrequest, op_getsources, op_query_more_result,
  op_serverlist, op_searchresult, op_serverstatus, op_servermessage, op_idchange, op_serverident,
}
use ged2k.Sessions.Greeting.{make_full_version}

-- The types of packet that `SendPacket` takes; on any other it panics.
pub data Request : Type 0 where
  login : UsualPacket → Request
  search : SearchRequest → Request
  search_more server_list : Request
  file_sources : GetFileSources → Request

pub data Passed : Type 0 where
  message : ByteContainer → Passed
  status : Status → Passed
  id_change : IdChange → Passed
  search_result : SearchResult → Passed

pub data Output : Type 0 where
  sent : List ℕ → Output
  passed : Passed → Output
  registered unregistered : Output

-- A `Write` says whether all bytes were written.
pub record Network (S : Type 0) : Type 0 where
  pub io : Io S
  pub write : List ℕ → S → Bool × S

-- `buffer` is the one of the packet combiner and `rest` the socket.
pub record ServerConnection (S : Type 0) : Type 0 where
  pub last_send_time : Option ℕ
  pub buffer : List ℕ
  pub rest : S

-- What a call of `SendPacket` gives: whether it failed comes last.
abbrev pub Sent : Type 0 → Type 0
Sent S = ServerConnection S × (List Output × Bool)

unfoldable pub packet_of : Request → ℕ
packet_of (login up) = op_loginrequest
packet_of (search sr) = op_searchrequest
packet_of search_more = op_query_more_result
packet_of server_list = op_getserverlist
packet_of (file_sources gfs) = op_getsources

unfoldable pub size_of : Request → Outcome ℤ
size_of (login up) = ok (size_usual_packet up)
size_of (search sr) = size_search_request sr >>= λ n. ok (pos n)
size_of search_more = ok (pos size_search_more)
size_of server_list = ok (pos size_server_list)
size_of (file_sources gfs) = ok (pos size_get_file_sources)

unfoldable pub put_of : Request → StateBuffer → Outcome StateBuffer
put_of (login up) sb = ok (put_usual_packet up sb)
put_of (search sr) sb = put_search_request sr sb
put_of search_more sb = ok (put_search_more sb)
put_of server_list sb = ok (put_server_list sb)
put_of (file_sources gfs) sb = ok (put_get_file_sources gfs sb)

module _ {S : Type 0} (net : Network S) where
  unfoldable pub after_write : List ℕ → ServerConnection S → Bool × S → Sent S
  after_write bytes c (true, s) = (record c { rest = s }, (sent bytes ∷ [], false))
  after_write bytes c (false, s) = (record c { rest = s }, ([], true))

  unfoldable pub write_packet : ℕ → ℕ → StateBuffer → ServerConnection S → Outcome (Sent S)
  write_packet now packet sb c = do
    b ←
        write_header
          (record { protocol = op_edonkeyprot; size = (offset sb + 1) % 2 ^ 32; packet = packet })
          (replicate 6 0 ++ sb.bytes)
    let bytes = take (offset sb + 6) b
    ok (after_write bytes (record c { last_send_time = some now }) (net.write bytes c.rest))

  -- A packet whose `Put` fails is not written. With a negative size the slice behind the header
  -- panics.
  unfoldable pub send_sized : ℕ → Request → ℤ → ServerConnection S → Outcome (Sent S)
  send_sized now r (negsuc size) c = panic
  send_sized now r (pos size) c = put_of r (make_buffer size) >>= λ sb. elim sb.err [
    | some e ↦ ok (c, ([], true))
    | none ↦ write_packet now (packet_of r) sb c
  ]

  unfoldable pub send_packet : ℕ → Request → ServerConnection S → Outcome (Sent S)
  send_packet now r c = size_of r >>= λ size. send_sized now r size c

-- A packet that was read without an error goes to the session.
unfoldable pub pass_on :
    {A : Type 0} → (A → List Passed) → A × StateBuffer → List Passed × Option Error
pass_on f (a, sb) = (elim sb.err [ none ↦ f a | some e ↦ [] ], sb.err)

unfoldable pub get_each : ℕ → Reader (List Endpoint)
get_each zero sb = ([], sb)
get_each (suc n) sb =
    let first = get_endpoint empty_endpoint sb in
    let others = get_each n first.1 in (first.0 ∷ others.0, others.1)

-- The servers of a list of fewer than 100 are read and dropped.
unfoldable pub read_list : StateBuffer → Option Error
read_list sb =
    let (elems, counted) = read_uint8 sb in
    elim counted.err [
      | some e ↦ some e
      | none ↦ if ltb elems 100 then (read (λ old. get_each elems) [] counted).1.err else none
    ]

-- The switch on the type of a packet, with the error of the buffer after it. All other packets are
-- ignored, the found sources too.
unfoldable pub on_packet : ℕ → StateBuffer → List Passed × Option Error
on_packet packet sb =
    if packet == op_serverlist
    then ([], read_list sb)
    else if packet == op_servermessage
    then pass_on (λ bc. message bc ∷ []) (get_byte_container [] sb)
    else if packet == op_serverstatus
    then pass_on (λ ss. status ss ∷ [])
        (get_status (record { users_count = 0; files_count = 0 }) sb)
    else if packet == op_idchange
    then pass_on (λ idc. id_change idc ∷ [])
        (get_id_change (record { client_id = 0; tcp_flags = 0; aux_port = 0 }) sb)
    else if packet == op_serverident
    then pass_on (λ up. [])
        (get_usual_packet (record { hash = zero_hash; point = empty_endpoint; properties = [] }) sb)
    else if packet == op_searchresult
    then pass_on (λ sr. search_result sr ∷ [])
        (get_search_result (record { items = []; more_results = 0 }) sb)
    else ([], none)

unfoldable pub pass_all : List Passed → List Output
pass_all [] = []
pass_all (p ∷ ps) = passed p ∷ pass_all ps

abbrev emule : Ed2kHash
emule =
    0x31 ∷ 0xd6 ∷ 0xcf ∷ 0xe0 ∷ 0xd1 ∷ 0x0e ∷ 0xe9 ∷ 0x31 ∷ 0xb7 ∷ 0x3c ∷ 0x59 ∷ 0xd7 ∷ 0xe0 ∷ 0xc0
    ∷ 0x6f ∷ 0xc0 ∷ []

-- Zlib, auxiliary port, new tags, Unicode and large files.
abbrev capability : ℕ
capability = bit_or (bit_or (bit_or (bit_or 0x0004 0x0008) 0x0010) 0x0100) 0x0001

abbrev pub login_packet : UsualPacket
login_packet = record {
  hash = emule;
  point = record { ip = 0; port = 20033 };
  properties =
      create_tag (uint32 0x3c) 0x11 []
      ∷ create_tag (uint32 capability) 0x20 []
      ∷ create_tag (string (b'g' ∷ b'e' ∷ b'd' ∷ b'2' ∷ b'k' ∷ [])) 0x01 []
      ∷ create_tag (uint32 (make_full_version 1 1 0 1)) 0xfb []
      ∷ [];
}

module _ {S : Type 0} (net : Network S) where
  -- The loop, for at most so many packets.
  unfoldable pub run : ℕ → ServerConnection S → Outcome (List Output)
  run zero c = ok []
  run (suc n) c = read_packet net.io c.buffer c.rest >>= λ p.
      let (ps, err) =
        on_packet p.header.packet (record { bytes = p.contents; err = none; pos = 0 }) in
      let rest = run n (record c { buffer = p.buffer; rest = p.rest }) in
      if p.failed then ok (unregistered ∷ []) else (elim err [
        | some e ↦ ok (pass_all ps ++ (unregistered ∷ []))
        | none ↦ do more ← rest; ok (pass_all ps ++ more)
      ])

  -- `Start`, with the socket that `Dial` gives.
  unfoldable pub start : ℕ → ℕ → Option S → Outcome (List Output)
  start now n none = ok (unregistered ∷ [])
  start now n (some s) =
      send_packet net now (login login_packet)
        (record { last_send_time = none; buffer = []; rest = s })
      >>= λ greeted.
          let rest = run n greeted.0 in
          if greeted.1.1
          then ok (registered ∷ unregistered ∷ [])
          else rest >>= λ outputs. ok (registered ∷ (greeted.1.0 ++ outputs))
