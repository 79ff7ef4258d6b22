-- ===== src/Connections/Kept/Packets.antt =====
-- peer_connection.go: what each packet does to the blocks that are requested.
use ged2k.Prelude.{
  ℕ, ◌≡◌, refl, leb, Option, none, some, Option-cases, inl, inr, List, [], ◌∷◌, get_elem?, Outcome,
  ok, panic, or_panic, ◌>>=◌, Ensures, Ensures->>=, Ensures-any, if_both, length, arith,
}
use ged2k.Prelude.Int.{pos}
use ged2k.Proto.Buffer.{offset}
use ged2k.Proto.Basic.{Ed2kHash, size_hash, put_hash}
use ged2k.Proto.Geometry.{PieceBlock, piece_size, from_offset}
use ged2k.Proto.Packets.{HelloAnswer, HashSet, size_hello_answer, put_hello_answer}
use ged2k.Proto.Parts.{SendingPart, CompressedPart}
use ged2k.Pieces.Pending.{PendingBlock, read_into, receive, receive_to_eof}
use ged2k.Proto.Combiner.{ReadFull, filled, short, op_edonkeyprot}
use ged2k.Proto.Opcodes.{op_hello_answer}
use ged2k.Connections.{
  Network, Download, Connection, counted_received, ready, send_packet, receive_failed,
}
use ged2k.Connections.Packets.{
  Turn, go_on, stop, send_on, send_hash, receive_part, inflate_part, receive_compressed,
  pass_hash_set, on_file_status, on_packet, Kind, hello, hello_answer, public_ip_request,
  file_name_answer, ignored, file_status, no_file_answer, hash_set_answer, accept_upload,
  queue_ranking, out_of_part_requests, ended_download, unknown, sending_part, compressed_part,
  find_request,
}
use ged2k.Connections.Totals.{total, find_request_lem}
use ged2k.Connections.Kept.{IsStill, IsKept, IsKept-stop, IsKept-go_on, read_or_stop-IsKept}
use ged2k.Connections.Kept.Blocks.{
  receive-block, receive_to_eof-block, after_receive-IsKept, send_packet-IsStill,
}

module _ {S Z : Type 0} (net : Network S Z) (me : HelloAnswer) (v : PieceBlock → ℕ) where
  -- The same requests, with another socket.
  moved :
      (c : Connection S) (s : S) (m : Outcome (Turn S))
      → Ensures (IsKept v (record c { rest = s })) m
      → Ensures (IsKept v c) m
  moved c s (ok t) h = record { kept = h.kept; complete = h.complete }
  moved c s panic h = tt

  send_hash-IsKept :
      (c : Connection S) (packet : ℕ) (hash : Ed2kHash)
      → Ensures (IsKept v c) (send_hash net me c packet hash)
  unfolding send_hash send_on
  send_hash-IsKept c packet hash =
      Ensures->>= (IsStill c) (IsKept v c)
        (send_packet net _ packet (pos size_hash) (put_hash hash) c) _
        (send_packet-IsStill net _ packet (pos size_hash) (put_hash hash) c)
        (λ r h. IsKept-go_on v c r h)

  receive_part-IsKept :
      (c : Connection S) (sp : SendingPart) → Ensures (IsKept v c) (receive_part net me c sp)
  unfolding receive_part
  receive_part-IsKept c sp =
      elim (Option-cases (find_request (from_offset sp.begin) c.requested 0)) [
        | inl e ↦ rw (e, receive_part) (IsKept-stop v c c _ refl)
        | inr ((i, x), e) ↦
            rw (e, receive_part)
              (Ensures->>= _ (IsKept v c) (receive net.io x c.rest sp.begin sp.end) _
                (receive-block net.io x c.rest sp.begin sp.end)
                (λ r h. moved c r.rest _ (
                  after_receive-IsKept v (record c { rest = r.rest }) i x
                    (find_request_lem _ _ i x e) [] (counted_received r.count ∷ []) r h refl refl tt
                    (tt, tt))))
      ]

  inflate_part-IsKept :
      (c : Connection S) (i : ℕ) (x : PendingBlock) (offset : ℕ) (bytes : List ℕ) (z : Option Z)
      → get_elem? c.requested i ≡ some x
      → Ensures (IsKept v c) (inflate_part net me c i x offset bytes z)
  unfolding inflate_part total
  inflate_part-IsKept c i x offset bytes none found = record {
    kept = omega arith;
    complete = (tt, tt);
  }
  inflate_part-IsKept c i x offset bytes (some z) found =
      Ensures->>= _ (IsKept v c) (receive_to_eof net.inflated x z offset) _
        (receive_to_eof-block net.inflated x z offset)
        (λ r h.
          after_receive-IsKept v c i x found (counted_received (length bytes) ∷ []) [] r h refl refl
            (tt, tt) tt)

  receive_compressed-IsKept :
      (c : Connection S) (cp : CompressedPart)
      → Ensures (IsKept v c) (receive_compressed net me c cp)
  unfolding receive_compressed
  receive_compressed-IsKept c cp =
      elim (Option-cases (find_request (from_offset cp.offset) c.requested 0)) [
        | inl e ↦ rw (e, receive_compressed) (IsKept-stop v c c _ refl)
        | inr ((i, x), e) ↦
            rw (e, receive_compressed)
              (unpacked i x (find_request_lem _ _ i x e)
                (read_into net.io cp.compressed_data_length c.rest))
      ]
    where
      unpacked :
          (i : ℕ) (x : PendingBlock)
          → get_elem? c.requested i ≡ some x
          → (got : ReadFull S)
          → Ensures (IsKept v c) (elim got [
            | short bs s ↦ ok (stop (record c { rest = s }) receive_failed)
            | filled bs s ↦
                inflate_part net me (record c { rest = s }) i x cp.offset bs (net.inflate bs)
          ])
      unpacked i x found (short bs s) = IsKept-stop v c (record c { rest = s }) _ refl
      unpacked i x found (filled bs s) =
          moved c s _ (inflate_part-IsKept (record c { rest = s }) i x cp.offset bs _ found)

  pass_hash_set-IsKept :
      (c : Connection S) (hs : HashSet) → Ensures (IsKept v c) (pass_hash_set net me c hs)
  unfolding pass_hash_set
  pass_hash_set-IsKept c hs =
      Ensures->>= (IsKept v c) (IsKept v c) (send_hash net me c _ hs.hash) _
        (send_hash-IsKept c _ hs.hash)
        (λ t h. record { kept = h.kept; complete = (tt, h.complete) })

  on_file_status-IsKept :
      (c : Connection S) (d : Download) → Ensures (IsKept v c) (on_file_status net me c d)
  unfolding on_file_status
  on_file_status-IsKept c d =
      if_both (Ensures (IsKept v c)) (leb piece_size d.size) (send_hash-IsKept c _ d.hash)
        (pass_hash_set-IsKept c _)

  -- What follows a look at the transfer.
  with_transfer :
      (c : Connection S) (next : Download → Outcome (Turn S))
      → ((d : Download) → Ensures (IsKept v c) (next d))
      → Ensures (IsKept v c) (or_panic c.transfer >>= next)
  with_transfer c next h =
      Ensures->>= _ (IsKept v c) (or_panic c.transfer) next (Ensures-any (or_panic c.transfer))
        (λ d u. h d)

  greeted :
      (c : Connection S)
      → Ensures (IsKept v c) (
          send_packet net op_edonkeyprot op_hello_answer
            (size_hello_answer me)
            (put_hello_answer me)
            c
          >>= λ r. ok (go_on r))
  greeted c =
      Ensures->>= (IsStill c) (IsKept v c) (send_packet net _ _ _ _ c) _
        (send_packet-IsStill net _ _ _ _ c) (λ r h. IsKept-go_on v c r h)

  -- Every packet.
  pub on_packet-IsKept :
      (c : Connection S) (bytes : List ℕ) (k : Kind)
      → Ensures (IsKept v c) (on_packet net me c bytes k)
  unfolding on_packet send_on
  on_packet-IsKept c bytes hello = read_or_stop-IsKept v c bytes _ _ (λ h. greeted c)
  on_packet-IsKept c bytes hello_answer =
      read_or_stop-IsKept v c bytes _ _ (λ a. with_transfer c _ (λ d. send_hash-IsKept c _ d.hash))
  on_packet-IsKept c bytes public_ip_request =
      Ensures->>= (IsStill c) (IsKept v c) (send_packet net _ _ _ _ c) _
        (send_packet-IsStill net _ _ _ _ c) (λ r h. IsKept-go_on v c r h)
  on_packet-IsKept c bytes file_name_answer =
      read_or_stop-IsKept v c bytes _ _ (λ a. with_transfer c _ (λ d. send_hash-IsKept c _ d.hash))
  on_packet-IsKept c bytes ignored = IsKept-go_on v c (c, []) (refl, refl, tt)
  on_packet-IsKept c bytes file_status =
      read_or_stop-IsKept v c bytes _ _ (λ a. with_transfer c _ (λ d. on_file_status-IsKept c d))
  on_packet-IsKept c bytes no_file_answer = IsKept-stop v c c _ refl
  on_packet-IsKept c bytes hash_set_answer =
      read_or_stop-IsKept v c bytes _ _ (λ hs. with_transfer c _ (λ d. pass_hash_set-IsKept c hs))
  on_packet-IsKept c bytes accept_upload =
      with_transfer c _ (λ d. IsKept-go_on v c (c, ready ∷ []) (refl, refl, (tt, tt)))
  on_packet-IsKept c bytes queue_ranking = IsKept-stop v c c _ refl
  on_packet-IsKept c bytes out_of_part_requests = IsKept-stop v c c _ refl
  on_packet-IsKept c bytes (sending_part extended) =
      read_or_stop-IsKept v c bytes _ _ (λ sp. receive_part-IsKept c sp)
  on_packet-IsKept c bytes (compressed_part extended) =
      read_or_stop-IsKept v c bytes _ _ (λ cp. receive_compressed-IsKept c cp)
  on_packet-IsKept c bytes ended_download = IsKept-stop v c c _ refl
  on_packet-IsKept c bytes unknown = IsKept-go_on v c (c, []) (refl, refl, tt)
