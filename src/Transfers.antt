-- ===== src/Transfers.antt =====
-- transfer.go: the loop of `Transfer.Start`, one message at a time. What the loop sends on the
-- session's channels and to peers is a list of outputs; whether the three operations on the file
-- succeed comes with the message. The package md4 is a parameter.
pub mod Removal
pub mod Ends
pub mod Failed
pub mod Mismatch
use ged2k.Prelude.{
  ℕ, suc, ◌==◌, ◌&&◌, not, ltb, Bool, true, false, Option, none, some, List, [], ◌∷◌, length,
  get_elem?, set, replicate, same_bytes, Outcome, ok, panic, or_panic, ◌>>=◌, if◌then◌else◌,
}
use ged2k.Region.{Range, region_begin}
use ged2k.Proto.Basic.{Ed2kHash, ByteContainer}
use ged2k.Proto.Geometry.{PieceBlock, request_queue_size}
use ged2k.Proto.Packets.{HashSet, Md4}
use ged2k.Proto.Parts.{RequestParts}
use ged2k.Proto.Resume.{AddTransferParameters}
use ged2k.Peers.{Policy, num_connect_candidates}
use ged2k.Pieces.Downloading.{PeerRef, PeerStore}
use ged2k.Pieces.Pending.{PendingBlock, make_pending_block}
use ged2k.Pieces.Receiving.{ReceivingPiece, insert_block}
use ged2k.Pieces.Picker.{
  PiecePicker, blocks_in_piece, pick_pieces, abort_in, finish_in, remove_downloading_piece,
  set_have, is_finished,
}
use ged2k.Pieces.Picker.Resume.{get_pieces, get_downloaded_blocks}

-- The fields of `Transfer` that say whether it wants more. The time of the next request is zero, here
-- none, before the first.
pub record TransferFlags : Type 0 where
  pub last_error : Bool
  pub paused : Bool
  pub finished : Bool
  pub reading_resume_data : Bool
  pub stopped : Bool
  pub request_sources_next_time : Option ℕ
  pub policy : Policy

unfoldable pub is_active : TransferFlags → Bool
is_active t =
    not t.last_error && not t.paused && not t.finished && not t.reading_resume_data && not t.stopped

unfoldable pub want_more_peers : TransferFlags → Bool
want_more_peers t = is_active t && ltb 0 (num_connect_candidates t.policy.peers)

unfoldable pub is_due : ℕ → Option ℕ → Bool
is_due current_time none = true
is_due current_time (some t) = ltb t current_time

unfoldable pub want_more_sources : ℕ → TransferFlags → Bool
want_more_sources current_time t = is_active t && is_due current_time t.request_sources_next_time

-- What stays the same while the loop runs.
pub record Setup : Type 0 where
  pub hash : Ed2kHash
  pub size : ℕ
  pub filename : ByteContainer
  pub hashes : HashSet

-- The variables of the loop and the map `incomingPieces`.
pub record TransferState (H : Type 0) : Type 0 where
  pub picker : PiecePicker
  pub incoming : List (ℕ × ReceivingPiece H)
  pub hash_set : Option HashSet
  pub failed : Bool
  pub execute : Bool

-- What the cases of the select receive. The first is that the command channel is closed.
pub data Message : Type 0 where
  closed : Message
  command : Message
  hash_set_came : HashSet → Message
  abort_pending : PeerStore → PieceBlock → PeerRef → Message
  block_came : PendingBlock → Bool → Message
  peer_ready : PeerStore → PeerRef → Message

pub data Output : Type 0 where
  resume_data : AddTransferParameters → Output
  transfer_error : Output
  transfer_finished : Output
  close_peer : PeerRef → Output
  request_parts : PeerRef → RequestParts → List PendingBlock → Output

unfoldable pub find_incoming {ℓ} : {A : Type ℓ} → ℕ → List (ℕ × A) → Option A
find_incoming i [] = none
find_incoming i ((j, x) ∷ rest) =
    let others = find_incoming i rest in if j == i then some x else others

unfoldable pub put_incoming {ℓ} : {A : Type ℓ} → ℕ → A → List (ℕ × A) → List (ℕ × A)
put_incoming i v [] = (i, v) ∷ []
put_incoming i v ((j, x) ∷ rest) =
    let others = put_incoming i v rest in if j == i then (i, v) ∷ rest else (j, x) ∷ others

unfoldable pub delete_incoming {ℓ} : {A : Type ℓ} → ℕ → List (ℕ × A) → List (ℕ × A)
delete_incoming i [] = []
delete_incoming i ((j, x) ∷ rest) =
    let others = delete_incoming i rest in if j == i then others else (j, x) ∷ others

unfoldable pub save : Setup → PiecePicker → Output
save setup pp = resume_data (record {
  hashes = setup.hashes;
  filename = setup.filename;
  filesize = setup.size;
  pieces = get_pieces pp;
  downloaded_blocks = get_downloaded_blocks pp;
})

-- An array of three numbers.
unfoldable pub set_at : List ℕ → ℕ → ℕ → Outcome (List ℕ)
set_at xs i v = do old ← or_panic (get_elem? xs i); ok (set xs i v)

-- `region.Segments[0].End`
unfoldable pub first_end : List Range → Outcome ℕ
first_end [] = panic
first_end (r ∷ rest) = ok r.end

-- The loop over the blocks that were picked.
unfoldable pub fill_request :
    ℕ → ℕ → List PieceBlock → RequestParts → Outcome (RequestParts × List PendingBlock)
fill_request size i [] req = ok (req, [])
fill_request size i (x ∷ rest) req = do
  pb ← make_pending_block x size
  begin ← region_begin pb.region
  begins ← set_at req.begin_offset i begin
  end ← first_end pb.region.segments
  ends ← set_at req.end_offset i end
  filled ← fill_request size (suc i) rest (record req { begin_offset = begins; end_offset = ends })
  ok (filled.0, pb ∷ filled.1)

unfoldable pub mark_piece : PiecePicker → ℕ → Bool → Outcome PiecePicker
mark_piece pp i true = set_have pp i
mark_piece pp i false = remove_downloading_piece pp i >>= λ r. ok r.0

-- After the piece is marked `SetHave` is called for it, in either case.
unfoldable pub finish_marked : PiecePicker → ℕ → Outcome (PiecePicker × Bool)
finish_marked pp i = do
  was ← is_finished pp
  pp' ← set_have pp i
  now ← is_finished pp'
  ok (pp', not was && now)

unfoldable pub finished_output : Bool → List Output
finished_output true = transfer_finished ∷ []
finished_output false = []

unfoldable pub request_or_close : PeerRef → RequestParts × List PendingBlock → Output
request_or_close peer (req, []) = close_peer peer
request_or_close peer (req, pb ∷ pbs) = request_parts peer req (pb ∷ pbs)

module _ {H : Type 0} (md4 : Md4 H) (setup : Setup) where
  abbrev pub new_receiving_piece : ReceivingPiece H
  new_receiving_piece = record { hash = md4.new; blocks = []; hash_block_index = 0 }

  unfoldable pub add_incoming :
      List PieceBlock → List (ℕ × ReceivingPiece H) → List (ℕ × ReceivingPiece H)
  add_incoming [] incoming = incoming
  add_incoming (x ∷ rest) incoming =
      add_incoming rest (elim (find_incoming x.piece_index incoming) [
        | some rp ↦ incoming
        | none ↦ put_incoming x.piece_index new_receiving_piece incoming
      ])

  -- Whether the hash of the piece is the one of the hash set.
  unfoldable pub hash_matches : Option HashSet → ReceivingPiece H → ℕ → Outcome Bool
  hash_matches none rp i = panic
  hash_matches (some hs) rp i = do
    expected ← or_panic (get_elem? hs.piece_hashes i)
    ok (same_bytes (md4.sum rp.hash) expected)

  -- All blocks of piece `i` were received.
  unfoldable pub end_piece :
      TransferState H → ReceivingPiece H → ℕ → Outcome (TransferState H × List Output)
  end_piece t rp i = do
    matches ← hash_matches t.hash_set rp i
    marked ← mark_piece t.picker i matches
    done ← finish_marked marked i
    ok (
      record t { picker = done.0; incoming = delete_incoming i t.incoming },
      save setup marked ∷ finished_output done.1,
    )

  -- The block is in the file.
  unfoldable pub store_block :
      TransferState H → ReceivingPiece H → PieceBlock → Outcome (TransferState H × List Output)
  store_block t rp b = do
    pp ← finish_in t.picker b
    if length rp.blocks == blocks_in_piece pp b.piece_index
        then (do
          ended ← end_piece (record t { picker = pp }) rp b.piece_index
          ok (ended.0, save setup pp ∷ ended.1))
        else ok (record t { picker = pp }, save setup pp ∷ [])

  -- After `InsertBlock`. An error of the file is kept, and the block stays inserted.
  unfoldable pub after_insert :
      TransferState H
      → PendingBlock
      → Bool
      → ReceivingPiece H × Bool
      → Outcome (TransferState H × List Output)
  after_insert t pb written (rp, false) = ok (t, [])
  after_insert t pb written (rp, true) =
      let t' = record t { incoming = put_incoming pb.block.piece_index rp t.incoming } in
      if written
      then store_block t' rp pb.block
      else ok (record t' { failed = true }, transfer_error ∷ [])

  unfoldable pub receive_block :
      TransferState H → PendingBlock → Bool → Outcome (TransferState H × List Output)
  receive_block t pb written = elim (find_incoming pb.block.piece_index t.incoming) [
    | none ↦ ok (t, [])
    | some rp ↦ after_insert t pb written (insert_block md4.write rp pb)
  ]

  unfoldable pub serve_peer :
      TransferState H → PeerStore → PeerRef → Outcome (TransferState H × List Output)
  serve_peer t store peer = if t.failed then ok (t, close_peer peer ∷ []) else (do
    picked ← pick_pieces store request_queue_size peer t.picker
    filled ←
        fill_request setup.size 0 picked.1
          (record { hash = setup.hash; begin_offset = replicate 3 0; end_offset = replicate 3 0 })
    ok (
      record t { picker = picked.0; incoming = add_incoming picked.1 t.incoming },
      request_or_close peer filled ∷ [],
    ))

  -- One round of the loop.
  unfoldable pub step : TransferState H → Message → Outcome (TransferState H × List Output)
  step t closed = ok (record t { execute = false }, [])
  step t command = ok (t, [])
  step t (hash_set_came hs) = ok (record t { hash_set = some hs }, [])
  step t (abort_pending store b peer) =
      abort_in t.picker store b peer >>= λ r. ok (record t { picker = r.0 }, [])
  step t (block_came pb written) = receive_block t pb written
  step t (peer_ready store peer) = serve_peer t store peer
