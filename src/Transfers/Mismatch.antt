-- ===== src/Transfers/Mismatch.antt =====
-- transfer.go: a piece whose hash is not the expected one.
use ged2k.Prelude.{
  ℕ, ◌<◌, ◌≡◌, refl, sym, ap, ◌∙◌, ◌==◌, ◌&&◌, not, true, false, some, length, ok, panic, >>=-ok,
  >>=-panic, ok_injective, arith,
}
use mathlib.Core.Path.{subst}
use ged2k.Proto.BitField.{get_bit, clear_bit}
use ged2k.Proto.BitField.Bits.{
  BitFieldIsValid, bit_of, without_bit, clear_bit_ok, get_bit_ok, without_bit-IsValid,
  bits-without_bit, bit_of-without_bit,
}
use ged2k.Pieces.Pending.{PendingBlock}
use ged2k.Pieces.Receiving.{ReceivingPiece, insert_block}
use ged2k.Pieces.Picker.{
  PiecePicker, blocks_in_piece, position, swap_out, finish_in, set_have, remove_downloading_piece,
  is_finished,
}
use ged2k.Proto.Packets.{Md4}
use ged2k.Transfers.{
  Setup, TransferState, find_incoming, put_incoming, hash_matches, mark_piece, finish_marked,
  end_piece, store_block, after_insert, receive_block, block_came, step,
}

removed-pieces :
    (pp marked : PiecePicker) (i k : ℕ)
    → BitFieldIsValid pp.pieces
    → i < pp.pieces.bits
    → position i pp.downloading_pieces ≡ some k
    → mark_piece pp i false ≡ ok marked
    → without_bit pp.pieces i ≡ marked.pieces
unfolding mark_piece remove_downloading_piece
removed-pieces pp marked i k v l at_ h =
    let (r, e, f) = >>=-ok (remove_downloading_piece pp i) _ marked h in
    let (pieces, e1, f1) =
      >>=-ok (swap_out k pp.downloading_pieces) _ r (rw (at_, remove_downloading_piece) at e) in
    let (left, e2, f2) = >>=-ok (clear_bit pp.pieces i) _ r f1 in
    ok_injective _ left (sym (clear_bit_ok pp.pieces i v l) ∙ e2)
    ∙ ap (λ x. x.0.pieces) (ok_injective _ r f2)
    ∙ ap (λ x. x.pieces) (ok_injective _ marked f)

-- `SetHave` of a piece that is not taken.
set_have_untaken :
    (pp : PiecePicker) (i : ℕ) → get_bit pp.pieces i ≡ ok false → set_have pp i ≡ panic
unfolding set_have
set_have_untaken pp i h = rw h refl

cleared :
    (pp marked : PiecePicker) (i : ℕ)
    → BitFieldIsValid pp.pieces
    → i < pp.pieces.bits
    → without_bit pp.pieces i ≡ marked.pieces
    → get_bit marked.pieces i ≡ ok false
cleared pp marked i v l same =
    subst (λ bf. get_bit bf i ≡ ok false) same
      (get_bit_ok (without_bit pp.pieces i) i (without_bit-IsValid pp.pieces i v)
          (omega (arith, l, bits-without_bit pp.pieces i))
        ∙ ap ok (bit_of-without_bit pp.pieces i i v l ∙ itself))
  where
    itself : (not (i == i) && bit_of pp.pieces i) ≡ false
    itself = ground arith

module _ {H : Type 0} (md4 : Md4 H) (setup : Setup) where
  end_piece_mismatch :
      (t : TransferState H) (rp : ReceivingPiece H) (i k : ℕ)
      → hash_matches md4 setup t.hash_set rp i ≡ ok false
      → BitFieldIsValid t.picker.pieces
      → i < t.picker.pieces.bits
      → position i t.picker.downloading_pieces ≡ some k
      → end_piece md4 setup t rp i ≡ panic
  unfolding end_piece finish_marked
  end_piece_mismatch t rp i k wrong v l at_ =
      rw wrong (>>=-panic (mark_piece t.picker i false) _ (λ marked e. rw (broken marked e) refl))
    where
      broken :
          (marked : PiecePicker)
          → mark_piece t.picker i false ≡ ok marked
          → finish_marked marked i ≡ panic
      broken marked e = >>=-panic (is_finished marked) _ (λ was f.
          rw
            (set_have_untaken marked i
              (cleared t.picker marked i v l (removed-pieces t.picker marked i k v l at_ e)))
            refl)

  -- A new block of a piece that is received, in the file.
  received :
      (t : TransferState H) (pb : PendingBlock) (rp rp' : ReceivingPiece H)
      → find_incoming pb.block.piece_index t.incoming ≡ some rp
      → insert_block md4.write rp pb ≡ (rp', true)
      → receive_block md4 setup t pb true
        ≡ store_block md4 setup
            (record t { incoming = put_incoming pb.block.piece_index rp' t.incoming })
            rp'
            pb.block
  unfolding receive_block after_insert
  received t pb rp rp' known new = rw (known, receive_block, new) refl

  -- The last block of a piece in progress has come, it is new and in the file, and the hash of the
  -- piece is not the one of the hash set: then the loop panics, if the bit field of the pieces is well
  -- formed and the piece is in its range.
  pub step_mismatch :
      (t : TransferState H) (pb : PendingBlock) (rp rp' : ReceivingPiece H) (pp : PiecePicker)
      (k : ℕ)
      → find_incoming pb.block.piece_index t.incoming ≡ some rp
      → insert_block md4.write rp pb ≡ (rp', true)
      → finish_in t.picker pb.block ≡ ok pp
      → length rp'.blocks ≡ blocks_in_piece pp pb.block.piece_index
      → hash_matches md4 setup t.hash_set rp' pb.block.piece_index ≡ ok false
      → BitFieldIsValid pp.pieces
      → pb.block.piece_index < pp.pieces.bits
      → position pb.block.piece_index pp.downloading_pieces ≡ some k
      → step md4 setup t (block_came pb true) ≡ panic
  unfolding step store_block
  step_mismatch t pb rp rp' pp k known new finished full wrong v l at_ =
      rw
        (
          received t pb rp rp' known new,
          finished,
          is_full (length rp'.blocks) (blocks_in_piece pp pb.block.piece_index) full,
          end_piece_mismatch
              (record t {
                picker = pp;
                incoming = put_incoming pb.block.piece_index rp' t.incoming;
              })
              rp' pb.block.piece_index k wrong v l at_,
        )
        refl
    where
      is_full : (a b : ℕ) → a ≡ b → (a == b) ≡ true
      is_full a b e = ground arith
