-- ===== src/Transfers/Ends.antt =====
-- transfer.go: what the loop does when the last block of a piece has come.
use ged2k.Prelude.{
  ℕ, ◌≡◌, ◌≢◌, ◌==◌, not, Bool, true, false, Bool-cases, Option-cases, inl, inr, none, List, [],
  ◌∷◌, length, get_elem?, All, ok, or_panic, >>=-ok, if_panic-ok, ok_injective, arith,
}
use ged2k.Proto.BitField.{get_bit, clear_bit}
use ged2k.Proto.Geometry.{PieceBlock, request_queue_size}
use ged2k.Pieces.Downloading.{PeerRef, PeerStore, num_have, num_blocks}
use ged2k.Proto.Resume.{AddTransferParameters}
use ged2k.Pieces.Receiving.{ReceivingPiece, insert_block}
use ged2k.Pieces.Picker.{
  PiecePicker, blocks_in_piece, pick_pieces, position, swap_out, finish_in, abort_in, check_have,
  set_have, remove_downloading_piece, is_finished,
}
use ged2k.Proto.Packets.{Md4}
use ged2k.Transfers.{
  Setup, TransferState, Message, closed, command, hash_set_came, abort_pending, block_came,
  peer_ready, Output, transfer_finished, hash_matches, mark_piece, finish_marked, finished_output,
  end_piece, save, resume_data, transfer_error, store_block, after_insert, receive_block, step,
  serve_peer, find_incoming, request_or_close, fill_request,
}
use mathlib.Core.Path.{subst}
use ged2k.Proto.Parts.{RequestParts}
use ged2k.Pieces.Pending.{PendingBlock}
use ged2k.Transfers.Removal.{finish_in-Distinct, Distinct, position-swap_out}

-- No piece with the number is in progress.
abbrev pub Gone : ℕ → PiecePicker → Type 0
Gone i pp = position i pp.downloading_pieces ≡ none

set_have-Gone : (pp after : PiecePicker) (i : ℕ) → Gone i pp → set_have pp i ≡ ok after → after ≡ pp
unfolding set_have
set_have-Gone pp after i g h =
    let (taken, e, rest) = >>=-ok (get_bit pp.pieces i) _ after h in ground (arith, rest, g)

-- For a piece that is not in progress `SetHave` changes nothing, so the transfer does not end.
finish_marked-Gone :
    (pp : PiecePicker) (i : ℕ) (r : PiecePicker × Bool)
    → Gone i pp
    → finish_marked pp i ≡ ok r
    → r.1 ≡ false
unfolding finish_marked
finish_marked-Gone pp i r g h =
    let (was, e, h1) = >>=-ok (is_finished pp) _ r h in
    let (after, f, h2) = >>=-ok (set_have pp i) _ r h1 in
    let (now, k, h3) = >>=-ok (is_finished after) _ r h2 in
    ground (arith, e, k, h3, set_have-Gone pp after i g f)

Gone-set_have :
    (pp after : PiecePicker) (i : ℕ)
    → Distinct pp.downloading_pieces
    → set_have pp i ≡ ok after
    → Gone i after
unfolding set_have check_have
Gone-set_have pp after i d h =
    let (taken, e, h1) = >>=-ok (get_bit pp.pieces i) _ after h in
    let (is_taken, h2) = if_panic-ok (not taken) _ after h1 in
    elim (Option-cases (position i pp.downloading_pieces)) [
      | inl f ↦ rw (set_have-Gone pp after i f h) f
      | inr (k, f) ↦
          let (pieces, h3, h4) = >>=-ok (check_have k pp.downloading_pieces) _ after (rw f at h2) in
          let (x, here, h5) = >>=-ok (or_panic (get_elem? pp.downloading_pieces k)) _ pieces h3 in
          let (have, count, h6) = >>=-ok (num_have x) _ pieces h5 in
          let (complete, h7) = if_panic-ok (not (num_blocks x == have)) _ pieces h6 in
          cc (position-swap_out i k pp.downloading_pieces pieces d f h7, h4)
    ]

Gone-remove :
    (pp : PiecePicker) (r : PiecePicker × Bool) (i : ℕ)
    → Distinct pp.downloading_pieces
    → remove_downloading_piece pp i ≡ ok r
    → Gone i r.0
unfolding remove_downloading_piece
Gone-remove pp r i d h = elim (Option-cases (position i pp.downloading_pieces)) [
  | inl f ↦
      (let same : ok (pp, false) ≡ ok r = rw (f, remove_downloading_piece) at h in cc (f, same))
  | inr (k, f) ↦
      let (pieces, h1, h2) =
        >>=-ok (swap_out k pp.downloading_pieces) _ r (rw (f, remove_downloading_piece) at h) in
      let (left, h3, h4) = >>=-ok (clear_bit pp.pieces i) _ r h2 in
      cc (position-swap_out i k pp.downloading_pieces pieces d f h1, h4)
]

Gone-mark_piece :
    (pp after : PiecePicker) (i : ℕ) (matches : Bool)
    → Distinct pp.downloading_pieces
    → mark_piece pp i matches ≡ ok after
    → Gone i after
unfolding mark_piece
Gone-mark_piece pp after i true d h = Gone-set_have pp after i d h
Gone-mark_piece pp after i false d h =
    let (r, e, f) = >>=-ok (remove_downloading_piece pp i) _ after h in
    cc (Gone-remove pp r i d e, f)

-- None of the outputs says that the transfer is finished.
abbrev pub NoneFinished : List Output → Type 0
NoneFinished outputs = All (λ o. o ≢ transfer_finished) outputs

resume_data-ne : (atp : AddTransferParameters) → resume_data atp ≢ transfer_finished
resume_data-ne atp e = ground arith

transfer_error-ne : transfer_error ≢ transfer_finished
transfer_error-ne e = ground arith

finished_output-NoneFinished : (b : Bool) → b ≡ false → NoneFinished (finished_output b)
unfolding finished_output
finished_output-NoneFinished true e = absurd (ground (arith, e))
finished_output-NoneFinished false e = tt

-- What a call that returns gives out.
outputs_of :
    {H : Type 0} (r r' : TransferState H × List Output)
    → ok r ≡ ok r'
    → NoneFinished r.1
    → NoneFinished r'.1
outputs_of r r' e h = subst (λ x. NoneFinished x.1) (ok_injective r r' e) h

request_or_close-ne :
    (peer : PeerRef) (r : RequestParts × List PendingBlock)
    → request_or_close peer r ≢ transfer_finished
unfolding request_or_close
request_or_close-ne peer (req, []) e = ground arith
request_or_close-ne peer (req, pb ∷ pbs) e = ground arith

module _ {H : Type 0} (md4 : Md4 H) (setup : Setup) where
  end_piece-NoneFinished :
      (t after : TransferState H) (rp : ReceivingPiece H) (i : ℕ) (outputs : List Output)
      → Distinct t.picker.downloading_pieces
      → end_piece md4 setup t rp i ≡ ok (after, outputs)
      → NoneFinished outputs
  unfolding end_piece save finished_output
  end_piece-NoneFinished t after rp i outputs d h =
      let (matches, e, h1) = >>=-ok (hash_matches md4 setup t.hash_set rp i) _ _ h in
      let (marked, f, h2) = >>=-ok (mark_piece t.picker i matches) _ _ h1 in
      let (done, g, h3) = >>=-ok (finish_marked marked i) _ _ h2 in
      let ended : done.1 ≡ false =
        finish_marked-Gone marked i done (Gone-mark_piece t.picker marked i matches d f) g in
      outputs_of _ (after, outputs) h3 (resume_data-ne _, finished_output-NoneFinished done.1 ended)

  store_block-NoneFinished :
      (t after : TransferState H) (rp : ReceivingPiece H) (b : PieceBlock) (outputs : List Output)
      → Distinct t.picker.downloading_pieces
      → store_block md4 setup t rp b ≡ ok (after, outputs)
      → NoneFinished outputs
  unfolding store_block save
  store_block-NoneFinished t after rp b outputs d h =
      let (pp, e, h1) = >>=-ok (finish_in t.picker b) _ _ h in
      let d' : Distinct pp.downloading_pieces = finish_in-Distinct t.picker pp b d e in
      elim (Bool-cases (length rp.blocks == blocks_in_piece pp b.piece_index)) [
        | inl f ↦
            let (ended, g, h2) =
              >>=-ok (end_piece md4 setup (record t { picker = pp }) rp b.piece_index) _ _
                (rw f at h1) in
            outputs_of _ (after, outputs) h2
              (
                resume_data-ne _,
                end_piece-NoneFinished (record t { picker = pp }) ended.0 rp b.piece_index ended.1
                    d' g,
              )
        | inr f ↦ outputs_of _ (after, outputs) (rw f at h1) (resume_data-ne _, tt)
      ]

  after_insert-NoneFinished :
      (t after : TransferState H) (pb : PendingBlock) (written : Bool)
      (inserted : ReceivingPiece H × Bool) (outputs : List Output)
      → Distinct t.picker.downloading_pieces
      → after_insert md4 setup t pb written inserted ≡ ok (after, outputs)
      → NoneFinished outputs
  unfolding after_insert
  after_insert-NoneFinished t after pb written (rp, false) outputs d h =
      outputs_of _ (after, outputs) h tt
  after_insert-NoneFinished t after pb true (rp, true) outputs d h =
      store_block-NoneFinished _ after rp pb.block outputs d h
  after_insert-NoneFinished t after pb false (rp, true) outputs d h =
      outputs_of _ (after, outputs) h (transfer_error-ne, tt)

  receive_block-NoneFinished :
      (t after : TransferState H) (pb : PendingBlock) (written : Bool) (outputs : List Output)
      → Distinct t.picker.downloading_pieces
      → receive_block md4 setup t pb written ≡ ok (after, outputs)
      → NoneFinished outputs
  unfolding receive_block
  receive_block-NoneFinished t after pb written outputs d h =
      elim (Option-cases (find_incoming pb.block.piece_index t.incoming)) [
        | inl e ↦ outputs_of (t, []) (after, outputs) (rw (e, receive_block) at h) tt
        | inr (rp, e) ↦
            after_insert-NoneFinished t after pb written (insert_block md4.write rp pb) outputs d
              (rw (e, receive_block) at h)
      ]

  serve_peer-NoneFinished :
      (t after : TransferState H) (store : PeerStore) (peer : PeerRef) (outputs : List Output)
      → serve_peer md4 setup t store peer ≡ ok (after, outputs)
      → NoneFinished outputs
  unfolding serve_peer
  serve_peer-NoneFinished t after store peer outputs h = elim (Bool-cases t.failed) [
    | inl e ↦ outputs_of _ (after, outputs) (rw (e, serve_peer) at h) ((λ x. ground arith), tt)
    | inr e ↦
        let (picked, f, h1) =
          >>=-ok (pick_pieces store request_queue_size peer t.picker) _ (after, outputs)
            (rw (e, serve_peer) at h) in
        let (filled, g, h2) = >>=-ok (fill_request setup.size 0 picked.1 _) _ (after, outputs) h1 in
        outputs_of _ (after, outputs) h2 (request_or_close-ne peer filled, tt)
  ]

  -- From a state whose pieces in progress have different numbers, no message makes the loop say that
  -- the transfer is finished, whether the message carries the last block or not.
  pub step-NoneFinished :
      (t after : TransferState H) (m : Message) (outputs : List Output)
      → Distinct t.picker.downloading_pieces
      → step md4 setup t m ≡ ok (after, outputs)
      → NoneFinished outputs
  unfolding step
  step-NoneFinished t after closed outputs d h = outputs_of _ (after, outputs) h tt
  step-NoneFinished t after command outputs d h = outputs_of _ (after, outputs) h tt
  step-NoneFinished t after (hash_set_came hs) outputs d h = outputs_of _ (after, outputs) h tt
  step-NoneFinished t after (abort_pending store b peer) outputs d h =
      let (r, e, f) = >>=-ok (abort_in t.picker store b peer) _ (after, outputs) h in
      outputs_of _ (after, outputs) f tt
  step-NoneFinished t after (block_came pb written) outputs d h =
      receive_block-NoneFinished t after pb written outputs d h
  step-NoneFinished t after (peer_ready store peer) outputs d h =
      serve_peer-NoneFinished t after store peer outputs h
