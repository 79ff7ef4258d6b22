-- ===== src/Transfers/Failed.antt =====
-- transfer.go: the loop after an error of the file.
use ged2k.Prelude.{
  ℕ, ◌≡◌, refl, ◌==◌, Bool, true, false, Bool-cases, Option-cases, inl, inr, List, [], length, All,
  ok, >>=-ok, ok_injective,
}
use mathlib.Core.Path.{subst}
use ged2k.Proto.Packets.{Md4}
use ged2k.Proto.Geometry.{PieceBlock}
use ged2k.Pieces.Downloading.{PeerRef, PeerStore}
use ged2k.Pieces.Pending.{PendingBlock}
use ged2k.Pieces.Receiving.{ReceivingPiece, insert_block}
use ged2k.Pieces.Picker.{blocks_in_piece, abort_in, finish_in}
use ged2k.Transfers.{
  Setup, TransferState, Message, closed, command, hash_set_came, abort_pending, block_came,
  peer_ready, Output, resume_data, transfer_error, transfer_finished, close_peer, request_parts,
  save, find_incoming, hash_matches, mark_piece, finish_marked, finished_output, end_piece,
  store_block, after_insert, receive_block, serve_peer, step,
}

-- The output asks no peer for anything.
pub AsksNothing : Output → Type 0
AsksNothing (resume_data atp) = Unit
AsksNothing transfer_error = Unit
AsksNothing transfer_finished = Unit
AsksNothing (close_peer peer) = Unit
AsksNothing (request_parts peer req pbs) = ⊥

module _ {H : Type 0} where
  -- The state knows of an error, and no output asks a peer.
  pub Rests : TransferState H × List Output → Type 0
  Rests r = (r.0.failed ≡ true) × All AsksNothing r.1

  Rests-ok : (r r' : TransferState H × List Output) → ok r ≡ ok r' → Rests r → Rests r'
  Rests-ok r r' e h = subst Rests (ok_injective r r' e) h

finished_output-AsksNothing : (b : Bool) → All AsksNothing (finished_output b)
unfolding finished_output AsksNothing
finished_output-AsksNothing true = (tt, tt)
finished_output-AsksNothing false = tt

module _ {H : Type 0} (md4 : Md4 H) (setup : Setup) where
  end_piece-Rests :
      (t : TransferState H) (rp : ReceivingPiece H) (i : ℕ) (r : TransferState H × List Output)
      → t.failed ≡ true
      → end_piece md4 setup t rp i ≡ ok r
      → Rests r
  unfolding end_piece Rests AsksNothing save
  end_piece-Rests t rp i r f h =
      let (matches, e, h1) = >>=-ok (hash_matches md4 setup t.hash_set rp i) _ r h in
      let (marked, e1, h2) = >>=-ok (mark_piece t.picker i matches) _ r h1 in
      let (done, e2, h3) = >>=-ok (finish_marked marked i) _ r h2 in
      Rests-ok _ r h3 (f, (tt, finished_output-AsksNothing done.1))

  store_block-Rests :
      (t : TransferState H) (rp : ReceivingPiece H) (b : PieceBlock)
      (r : TransferState H × List Output)
      → t.failed ≡ true
      → store_block md4 setup t rp b ≡ ok r
      → Rests r
  unfolding store_block Rests AsksNothing save
  store_block-Rests t rp b r f h =
      let (pp, e, h1) = >>=-ok (finish_in t.picker b) _ r h in
      elim (Bool-cases (length rp.blocks == blocks_in_piece pp b.piece_index)) [
        | inl c ↦
            let (ended, g, h2) =
              >>=-ok (end_piece md4 setup (record t { picker = pp }) rp b.piece_index) _ r
                (rw c at h1) in
            let (still, rest) =
              end_piece-Rests (record t { picker = pp }) rp b.piece_index ended f g in
            Rests-ok _ r h2 (still, (tt, rest))
        | inr c ↦ Rests-ok _ r (rw c at h1) (f, (tt, tt))
      ]

  after_insert-Rests :
      (t : TransferState H) (pb : PendingBlock) (written : Bool)
      (inserted : ReceivingPiece H × Bool) (r : TransferState H × List Output)
      → t.failed ≡ true
      → after_insert md4 setup t pb written inserted ≡ ok r
      → Rests r
  unfolding after_insert Rests AsksNothing
  after_insert-Rests t pb written (rp, false) r f h = Rests-ok _ r h (f, tt)
  after_insert-Rests t pb true (rp, true) r f h = store_block-Rests _ rp pb.block r f h
  after_insert-Rests t pb false (rp, true) r f h = Rests-ok _ r h (refl, (tt, tt))

  receive_block-Rests :
      (t : TransferState H) (pb : PendingBlock) (written : Bool) (r : TransferState H × List Output)
      → t.failed ≡ true
      → receive_block md4 setup t pb written ≡ ok r
      → Rests r
  unfolding receive_block Rests
  receive_block-Rests t pb written r f h =
      elim (Option-cases (find_incoming pb.block.piece_index t.incoming)) [
        | inl e ↦ Rests-ok (t, []) r (rw (e, receive_block) at h) (f, tt)
        | inr (rp, e) ↦
            after_insert-Rests t pb written (insert_block md4.write rp pb) r f
              (rw (e, receive_block) at h)
      ]

  serve_peer-Rests :
      (t : TransferState H) (store : PeerStore) (peer : PeerRef) (r : TransferState H × List Output)
      → t.failed ≡ true
      → serve_peer md4 setup t store peer ≡ ok r
      → Rests r
  unfolding serve_peer Rests AsksNothing
  serve_peer-Rests t store peer r f h = Rests-ok _ r (rw (f, serve_peer) at h) (refl, (tt, tt))

  -- Once there was an error of the file, every message leaves it there, and no output of the loop asks
  -- a peer for a block.
  pub step-Rests :
      (t : TransferState H) (m : Message) (r : TransferState H × List Output)
      → t.failed ≡ true
      → step md4 setup t m ≡ ok r
      → Rests r
  unfolding step Rests
  step-Rests t closed r f h = Rests-ok _ r h (f, tt)
  step-Rests t command r f h = Rests-ok _ r h (f, tt)
  step-Rests t (hash_set_came hs) r f h = Rests-ok _ r h (f, tt)
  step-Rests t (abort_pending store b peer) r f h =
      let (aborted, e, h1) = >>=-ok (abort_in t.picker store b peer) _ r h in
      Rests-ok _ r h1 (f, tt)
  step-Rests t (block_came pb written) r f h = receive_block-Rests t pb written r f h
  step-Rests t (peer_ready store peer) r f h = serve_peer-Rests t store peer r f h
