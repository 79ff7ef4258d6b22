-- ===== src/Connections/Packets.antt =====
-- peer_connection.go: what the loop of `PeerConnection.Start` does with each packet.
use ged2k.Prelude.{
  ℕ, suc, ◌+◌, ◌*◌, ◌==◌, ◌&&◌, ◌||◌, leb, if◌then◌else◌, Bool, Option, none, some, List, [], ◌∷◌,
  ◌++◌, length, set, Outcome, ok, or_panic, ◌>>=◌,
}
use ged2k.Prelude.Int.{pos}
use ged2k.Region.{is_empty}
use ged2k.Proto.Opcodes.{
  op_acceptuploadreq, op_canceltransfer, op_end_of_download, op_filereqansnofil, op_filestatus,
  op_hashsetanswer, op_hashsetrequest, op_hello, op_hello_answer, op_outofpartreqs,
  op_publicip_answer, op_publicip_req, op_queueranking, op_reqfilenameanswer, op_requestfilename,
  op_requestparts, op_requestparts_i64, op_setreqfileid, op_startuploadreq,
}
use ged2k.Proto.Buffer.{Reader, StateBuffer, read, read_uint16}
use ged2k.Proto.Basic.{
  Ed2kHash, zero_hash, empty_endpoint, PacketHeader, put_hash, size_hash, put_ip, size_ip,
}
use ged2k.Proto.Geometry.{PieceBlock, from_offset, piece_size}
use ged2k.Proto.Packets.{
  Hello, HelloAnswer, FileAnswer, FileStatusAnswer, HashSet, get_hello, get_hello_answer,
  put_hello_answer, size_hello_answer, get_file_answer, get_file_status_answer, get_hash_set,
}
use ged2k.Proto.Parts.{SendingPart, CompressedPart, get_sending_part, get_compressed_part}
use ged2k.Proto.Combiner.{
  filled, short, op_edonkeyprot, op_emuleprot, op_sendingpart, op_sendingpart_i64,
  op_compressedpart, op_compressedpart_i64,
}
use ged2k.Pieces.Pending.{
  PendingBlock, Received, read_into, receive, receive_to_eof, remove_pending_block,
}
use ged2k.Connections.{
  Network, Download, Connection, LinkError, no_file, out_of_parts, receive_failed, inflate_failed,
  unknown_block, end_of_download, queue_ranked, bad_packet, Output, counted_received, hash_set_out,
  block_out, ready, send_packet,
}

-- The cases of the switch. A later case for the cancelled transfer is never reached.
pub data Kind : Type 0 where
  hello hello_answer public_ip_request file_name_answer ignored file_status no_file_answer : Kind
  hash_set_answer accept_upload queue_ranking out_of_part_requests ended_download unknown : Kind
  sending_part compressed_part : Bool → Kind

unfoldable pub kind_of : PacketHeader → Kind
kind_of ph =
    if ph.packet == op_hello
    then hello
    else if ph.packet == op_hello_answer
    then hello_answer
    else if ph.packet == op_publicip_req && ph.protocol == op_emuleprot
    then public_ip_request
    else if ph.packet == op_requestfilename
    then ignored
    else if ph.packet == op_reqfilenameanswer
    then file_name_answer
    else if ph.packet == op_canceltransfer || ph.packet == op_setreqfileid
    then ignored
    else if ph.packet == op_filestatus
    then file_status
    else if ph.packet == op_filereqansnofil
    then no_file_answer
    else if ph.packet == op_hashsetrequest
    then ignored
    else if ph.packet == op_hashsetanswer
    then hash_set_answer
    else if ph.packet == op_startuploadreq
    then ignored
    else if ph.packet == op_acceptuploadreq
    then accept_upload
    else if ph.packet == op_queueranking
    then queue_ranking
    else if ph.packet == op_outofpartreqs
    then out_of_part_requests
    else if ph.packet == op_requestparts || ph.packet == op_requestparts_i64
    then ignored
    else if ph.packet == op_sendingpart || ph.packet == op_sendingpart_i64
    then sending_part (ph.packet == op_sendingpart_i64)
    else if ph.packet == op_compressedpart || ph.packet == op_compressedpart_i64
    then compressed_part (ph.packet == op_compressedpart_i64)
    else if ph.packet == op_end_of_download
    then ended_download
    else unknown

-- After a packet: the connection, the outputs and `lastError`.
pub record Turn (S : Type 0) : Type 0 where
  pub connection : Connection S
  pub outputs : List Output
  pub error : Option LinkError

abbrev pub stop : {S : Type 0} → Connection S → LinkError → Turn S
stop c e = record { connection = c; outputs = []; error = some e }

abbrev pub go_on : {S : Type 0} → Connection S × List Output → Turn S
go_on (c, outputs) = record { connection = c; outputs = outputs; error = none }

abbrev pub open_buffer : List ℕ → StateBuffer
open_buffer bytes = record { bytes = bytes; err = none; pos = 0 }

-- A packet is read into a value, or the connection stops.
unfoldable pub read_or_stop :
    {S A : Type 0} → Connection S → List ℕ → Reader A → (A → Outcome (Turn S)) → Outcome (Turn S)
read_or_stop c bytes get next =
    let (v, sb) = get (open_buffer bytes) in
    elim sb.err [ some e ↦ ok (stop c (bad_packet e)) | none ↦ next v ]

abbrev pub empty_answer : HelloAnswer
empty_answer = record {
  hash = zero_hash;
  point = empty_endpoint;
  properties = [];
  server_point = empty_endpoint;
}

abbrev pub empty_hello : Hello
empty_hello = record { hash_length = 0; answer = empty_answer }

abbrev empty_file_answer : FileAnswer
empty_file_answer = record { hash = zero_hash; name = [] }

abbrev empty_status : FileStatusAnswer
empty_status = record { hash = zero_hash; bf = record { bytes = []; bits = 0 } }

abbrev empty_hash_set : HashSet
empty_hash_set = record { hash = zero_hash; piece_hashes = [] }

abbrev empty_part : Bool → SendingPart
empty_part extended = record { hash = zero_hash; begin = 0; end = 0; extended = extended }

abbrev empty_compressed : Bool → CompressedPart
empty_compressed extended = record {
  hash = zero_hash;
  offset = 0;
  compressed_data_length = 0;
  extended = extended;
}

-- What FromString makes of the address 192.168.111.11.
abbrev public_ip : ℕ
public_ip = 192 + 168 * 256 + 111 * 65536 + 11 * 16777216

unfoldable pub same_block : PieceBlock → PieceBlock → Bool
same_block a b = a.piece_index == b.piece_index && a.block_index == b.block_index

-- The loop over `requestedBlocks`, at index `i`.
unfoldable pub find_request : PieceBlock → List PendingBlock → ℕ → Option (ℕ × PendingBlock)
find_request b [] i = none
find_request b (x ∷ xs) i =
    let rest = find_request b xs (suc i) in if same_block x.block b then some (i, x) else rest

unfoldable pub ready_if_none : List PendingBlock → List Output
ready_if_none [] = ready ∷ []
ready_if_none (x ∷ xs) = []

module _ {S : Type 0} where
  -- Bytes came into the block at index `i`: a block with an empty region goes to the transfer.
  unfoldable pub settle : Connection S → ℕ → PendingBlock → List Output → Outcome (Turn S)
  settle c i x outputs =
      if is_empty x.region
      then (do
        left ← remove_pending_block (set c.requested i x) i
        ok (go_on (record c { requested = left }, outputs ++ (block_out x ∷ ready_if_none left))))
      else ok (go_on (record c { requested = set c.requested i x }, outputs))

  -- `Receive` and `ReceiveToEof` change the block also where they fail.
  unfoldable pub after_receive :
      {R : Type 0} → Connection S → ℕ → List Output → List Output → Received R → Outcome (Turn S)
  after_receive c i before counted r =
      if r.failed
      then ok (record {
        connection = record c { requested = set c.requested i r.pending };
        outputs = before;
        error = some receive_failed;
      })
      else settle c i r.pending (before ++ counted)

module _ {S Z : Type 0} (net : Network S Z) (me : HelloAnswer) where
  unfoldable pub send_on : Connection S → ℕ → ℕ → ℕ → (StateBuffer → StateBuffer) → Outcome (Turn S)
  send_on c protocol packet size put =
      send_packet net protocol packet (pos size) put c >>= λ r. ok (go_on r)

  unfoldable pub send_hash : Connection S → ℕ → Ed2kHash → Outcome (Turn S)
  send_hash c packet hash = send_on c op_edonkeyprot packet size_hash (put_hash hash)

  unfoldable pub receive_part : Connection S → SendingPart → Outcome (Turn S)
  receive_part c sp = elim (find_request (from_offset sp.begin) c.requested 0) [
    | none ↦ ok (stop c unknown_block)
    | some (i, x) ↦ receive net.io x c.rest sp.begin sp.end >>= λ r.
        after_receive (record c { rest = r.rest }) i [] (counted_received r.count ∷ []) r
  ]

  unfoldable pub inflate_part :
      Connection S → ℕ → PendingBlock → ℕ → List ℕ → Option Z → Outcome (Turn S)
  inflate_part c i x offset bytes none = ok (record {
    connection = c;
    outputs = counted_received (length bytes) ∷ [];
    error = some inflate_failed;
  })
  inflate_part c i x offset bytes (some z) = receive_to_eof net.inflated x z offset >>= λ r.
      after_receive c i (counted_received (length bytes) ∷ []) [] r

  unfoldable pub receive_compressed : Connection S → CompressedPart → Outcome (Turn S)
  receive_compressed c cp = elim (find_request (from_offset cp.offset) c.requested 0) [
    | none ↦ ok (stop c unknown_block)
    | some (i, x) ↦ elim (read_into net.io cp.compressed_data_length c.rest) [
      | short bs s ↦ ok (stop (record c { rest = s }) receive_failed)
      | filled bs s ↦ inflate_part (record c { rest = s }) i x cp.offset bs (net.inflate bs)
    ]
  ]

  unfoldable pub pass_hash_set : Connection S → HashSet → Outcome (Turn S)
  pass_hash_set c hs = do
    t ← send_hash c op_startuploadreq hs.hash
    ok (record t { outputs = hash_set_out hs ∷ t.outputs })

  -- A file shorter than a piece has its own hash as the hash of its piece.
  unfoldable pub on_file_status : Connection S → Download → Outcome (Turn S)
  on_file_status c d =
      if leb piece_size d.size
      then send_hash c op_hashsetrequest d.hash
      else pass_hash_set c (record { hash = d.hash; piece_hashes = d.hash ∷ [] })

  unfoldable pub on_packet : Connection S → List ℕ → Kind → Outcome (Turn S)
  on_packet c bytes hello = read_or_stop c bytes (read get_hello empty_hello) (λ h.
      send_packet net op_edonkeyprot op_hello_answer (size_hello_answer me) (put_hello_answer me) c
      >>= λ r. ok (go_on r))
  on_packet c bytes hello_answer =
      read_or_stop c bytes (read get_hello_answer empty_answer)
        (λ a. do d ← or_panic c.transfer; send_hash c op_requestfilename d.hash)
  on_packet c bytes public_ip_request =
      send_on c op_emuleprot op_publicip_answer size_ip (put_ip public_ip)
  on_packet c bytes file_name_answer =
      read_or_stop c bytes (read get_file_answer empty_file_answer)
        (λ a. do d ← or_panic c.transfer; send_hash c op_setreqfileid d.hash)
  on_packet c bytes ignored = ok (go_on (c, []))
  on_packet c bytes file_status =
      read_or_stop c bytes (read get_file_status_answer empty_status)
        (λ a. do d ← or_panic c.transfer; on_file_status c d)
  on_packet c bytes no_file_answer = ok (stop c no_file)
  on_packet c bytes hash_set_answer =
      read_or_stop c bytes (read get_hash_set empty_hash_set)
        (λ hs. do d ← or_panic c.transfer; pass_hash_set c hs)
  on_packet c bytes accept_upload = do d ← or_panic c.transfer; ok (go_on (c, ready ∷ []))
  on_packet c bytes queue_ranking = ok (stop c (queue_ranked (read_uint16 (open_buffer bytes)).0))
  on_packet c bytes out_of_part_requests = ok (stop c out_of_parts)
  on_packet c bytes (sending_part extended) =
      read_or_stop c bytes (read get_sending_part (empty_part extended)) (receive_part c)
  on_packet c bytes (compressed_part extended) =
      read_or_stop c bytes (read get_compressed_part (empty_compressed extended))
        (receive_compressed c)
  on_packet c bytes ended_download = ok (stop c end_of_download)
  on_packet c bytes unknown = ok (go_on (c, []))
