-- ===== src/Pieces/Picker/Next.antt =====
-- piece_picker.go: `chooseNextPiece`.
use ged2k.Prelude.{
  ℕ, zero, suc, ◌+◌, ◌<◌, ◌≤◌, ◌≡◌, Bool, true, false, [], ◌∷◌, ◌++◌, length, Outcome, ok, arith,
  Bool-cases, inl, inr,
}
use native.Mathlib.Decide.{ℕ_discrete}
use ged2k.Proto.BitField.Bits.{BitFieldIsValid, bit_of, with_bit, get_bit_ok, set_bit_ok}
use ged2k.Pieces.Downloading.{DownloadingPiece}
use ged2k.Pieces.Downloading.Valid.{PieceIsValid, requested, new_downloading_piece_ok}
use ged2k.Pieces.Picker.{PiecePicker, blocks_in_piece, choose_piece, choose_from, choose_next_piece}

-- From `lo` on every piece is taken and nothing changes, or the first one that is not taken is marked
-- and comes last among the pieces in progress, with all its blocks and none of them requested.
pub data Chosen (pp : PiecePicker) (lo : ℕ) : Outcome (PiecePicker × Bool) → Type 0 where
  all_taken :
      ((j : ℕ) → lo ≤ j → j < pp.pieces.bits → bit_of pp.pieces j ≡ true)
      → Chosen pp lo (ok (pp, false))
  chosen :
      (i : ℕ) (dp : DownloadingPiece)
      → lo ≤ i
      → i < pp.pieces.bits
      → bit_of pp.pieces i ≡ false
      → ((j : ℕ) → lo ≤ j → j < i → bit_of pp.pieces j ≡ true)
      → PieceIsValid dp
      → dp.piece_index ≡ i
      → length dp.blocks ≡ blocks_in_piece pp i
      → ((j : ℕ) → requested dp j ≡ false)
      → Chosen pp lo (
          ok (
            record pp {
              downloading_pieces = pp.downloading_pieces ++ (dp ∷ []);
              pieces = with_bit pp.pieces i;
            },
            true,
          ))

choose_from_ok :
    (pp : PiecePicker) (n lo : ℕ)
    → BitFieldIsValid pp.pieces
    → lo + n ≡ pp.pieces.bits
    → Chosen pp lo (choose_from pp n lo)
unfolding choose_from choose_piece
choose_from_ok pp zero lo v e = all_taken (λ j h k. absurd (omega arith))
choose_from_ok pp (suc n) lo v e = elim (Bool-cases (bit_of pp.pieces lo)) [
  | inl taken ↦
      rw (get_bit_ok pp.pieces lo v (omega arith), taken)
        (later taken (choose_from pp n (suc lo)) (choose_from_ok pp n (suc lo) v (omega arith)))
  | inr open_ ↦
      let (dp, f, valid, index, size, none_yet) =
        new_downloading_piece_ok lo (blocks_in_piece pp lo) in
      rw
        (get_bit_ok pp.pieces lo v (omega arith), open_, f, set_bit_ok pp.pieces lo v (omega arith))
        (chosen lo dp (omega arith) (omega arith) open_ (λ j h k. absurd (omega arith)) valid index
          size (λ j. (none_yet j).0))
]
  where
    first :
        (j : ℕ)
        → bit_of pp.pieces lo ≡ true
        → lo ≤ j
        → (suc lo ≤ j → bit_of pp.pieces j ≡ true)
        → bit_of pp.pieces j ≡ true
    first j taken h rest = elim (ℕ_discrete lo j) [
      | yes p ↦ rw (← p) taken
      | no n ↦ rest (omega arith)
    ]

    later :
        bit_of pp.pieces lo ≡ true
        → (out : Outcome (PiecePicker × Bool)) → Chosen pp (suc lo) out
        → Chosen pp lo out
    later taken out (all_taken h) = all_taken (λ j a b. first j taken a (λ c. h j c b))
    later taken out (chosen i dp a b c d valid index size none_yet) =
        chosen i dp (omega arith) b c (λ j p q. first j taken p (λ r. d j r q)) valid index size
          none_yet

-- On a picker with a valid bit field `chooseNextPiece` does not panic. If every piece is taken it
-- answers false and changes nothing. Otherwise it takes the first piece that is not, which comes last
-- among those in progress, valid and with none of its blocks requested.
pub choose_next_piece_ok :
    (pp : PiecePicker) → BitFieldIsValid pp.pieces → Chosen pp 0 (choose_next_piece pp)
unfolding choose_next_piece
choose_next_piece_ok pp v = choose_from_ok pp pp.pieces.bits 0 v (omega arith)
