-- ===== src/Checks/Downloads.antt =====
-- downloading_piece.go: a piece of three blocks that had its first one, and of which the second is then
-- asked for.
use ged2k.Prelude.{
  ℕ, ◌≡◌, refl, List, [], ◌∷◌, map, length, true, ok, arith, none, not, ◌&&◌, ◌||◌, ◌==◌,
}
use ged2k.Prelude.Int.{dec, is_zero}
use ged2k.Proto.Basic.{empty_endpoint}
use ged2k.Proto.BitField.{BitField, bits_to_bytes, div_ceil_int, clone_bit_field}
use ged2k.Proto.BitField.Bits.{BitFieldIsValid, bit_at}
use ged2k.Proto.BitField.Bytes.{bit}
use ged2k.Pieces.Downloading.{
  PeerStore, DownloadingPiece, block_of, new_downloading_piece_params, pick_block, finish_block,
  abort_block,
}
use ged2k.Pieces.Downloading.Valid.{
  PieceIsValid, requested, finished, block_at, with_request, Requests, with_request-Requests,
  new_downloading_piece_params-IsValid,
}
use ged2k.Pieces.Downloading.Picks.{Picks}
use ged2k.Pieces.Downloading.Picked.{pick_block_ok}
use ged2k.Pieces.Downloading.Finish.{finish_block_ok, abort_block_ok}

abbrev slow_peers : PeerStore
slow_peers r = record {
  source_flag = 2;
  last_connected = 0;
  next_connection = 0;
  fail_count = 0;
  peer_connection = none;
  endpoint = empty_endpoint;
  speed = 0;
}

abbrev first_only : BitField
first_only = record { bytes = 0x80 ∷ []; bits = 3 }

first_only-IsValid : BitFieldIsValid first_only
unfolding bits_to_bytes div_ceil_int
first_only-IsValid = record { filled = refl; in_range = (omega arith, tt) }

abbrev resumed : DownloadingPiece
resumed = new_downloading_piece_params 4 first_only

resumed-IsValid : PieceIsValid resumed
resumed-IsValid = new_downloading_piece_params-IsValid 4 first_only first_only-IsValid

abbrev asked : DownloadingPiece
asked = with_request resumed 1 7

resumed-length : length resumed.blocks ≡ 3
unfolding new_downloading_piece_params
resumed-length = refl

asked-Requests : Requests resumed 1 asked
asked-Requests = with_request-Requests resumed 1 7 resumed-IsValid (omega (arith, resumed-length))

asked-IsValid : PieceIsValid asked
asked-IsValid = asked-Requests.valid

pick_block_ok_example :
    (after : DownloadingPiece) × (new : List ℕ) × (pick_block slow_peers 2 8 true asked
      ≡ ok (after, map (block_of asked) new))
    × Picks true 2 0 (length asked.blocks) asked after new
pick_block_ok_example = pick_block_ok slow_peers 2 8 true asked asked-IsValid

finish_block_ok_example :
    (after : DownloadingPiece) × (finish_block asked 1 ≡ ok after)
    × PieceIsValid after
    × (after.piece_index ≡ asked.piece_index)
    × (length after.blocks ≡ length asked.blocks)
    × ((j : ℕ)
        → (requested after j ≡ requested asked j)
          × (finished after j ≡ (1 == j || finished asked j)))
finish_block_ok_example =
    finish_block_ok asked 1 asked-IsValid
      (omega (arith, resumed-length, asked-Requests.same_length)) (asked-Requests.marked 1)

abort_block_ok_example :
    (after : DownloadingPiece) × (abort_block slow_peers asked 1 7 ≡ ok after)
    × PieceIsValid after
    × (after.piece_index ≡ asked.piece_index)
    × (length after.blocks ≡ length asked.blocks)
    × ((j : ℕ)
        → (requested after j ≡ (
            requested asked j
            && not (1 == j && is_zero (dec (block_at asked 1).downloaders_count))))
          × (finished after j ≡ finished asked j))
unfolding with_request new_downloading_piece_params clone_bit_field bit_at bit
abort_block_ok_example =
    abort_block_ok slow_peers asked 1 7 asked-IsValid
      (omega (arith, resumed-length, asked-Requests.same_length)) refl
