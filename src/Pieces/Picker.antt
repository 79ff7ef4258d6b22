-- ===== src/Pieces/Picker.antt =====
-- piece_picker.go: the pieces of a file and those of them that are being downloaded.
pub mod Next
pub mod Fills
pub mod Pieces
pub mod Resume
use ged2k.Prelude.{
  ℕ, zero, suc, ◌+◌, ◌-◌, ◌==◌, ◌&&◌, not, Bool, true, false, Option, none, some, get_elem?, set,
  take, List, [], ◌∷◌, ◌++◌, length, Outcome, ok, panic, or_panic, ◌>>=◌, ltb, if◌then◌else◌,
}
use ged2k.Proto.BitField.{BitField, create_bit_field, get_bit, set_bit, clear_bit, count}
use ged2k.Proto.Geometry.{PieceBlock, blocks_per_piece}
use ged2k.Pieces.Downloading.{
  PeerRef, PeerStore, DownloadingPiece, new_downloading_piece, pick_block, abort_block,
  finish_block, num_blocks, num_have,
}

pub record PiecePicker : Type 0 where
  pub blocks_in_last_piece : ℕ
  pub downloading_pieces : List DownloadingPiece
  pub pieces : BitField

unfoldable pub create_piece_picker : ℕ → ℕ → Outcome PiecePicker
create_piece_picker piece_count blocks_in_last_piece = do
  pieces ← create_bit_field piece_count
  ok (record {
    blocks_in_last_piece = blocks_in_last_piece;
    downloading_pieces = [];
    pieces = pieces;
  })

unfoldable pub blocks_in_piece : PiecePicker → ℕ → ℕ
blocks_in_piece pp piece_index =
    if piece_index + 1 == pp.pieces.bits then pp.blocks_in_last_piece else blocks_per_piece

unfoldable pub find_piece : ℕ → List DownloadingPiece → Option DownloadingPiece
find_piece piece_index [] = none
find_piece piece_index (x ∷ xs) =
    let rest = find_piece piece_index xs in if x.piece_index == piece_index then some x else rest

-- The first piece with the index is changed, and a change may panic.
unfoldable pub change_piece :
    (DownloadingPiece → Outcome DownloadingPiece)
    → ℕ
    → List DownloadingPiece
    → Outcome (List DownloadingPiece)
change_piece f piece_index [] = ok []
change_piece f piece_index (x ∷ xs) =
    let rest = change_piece f piece_index xs in
    if x.piece_index == piece_index
    then (f x >>= λ y. ok (y ∷ xs))
    else (rest >>= λ ys. ok (x ∷ ys))

-- The loop of `addDownloadingBlocks`: the pieces after it, and the blocks. `res` is what was picked
-- before, and the loop ends when it has the number required.
unfoldable pub add_each :
    PeerStore
    → ℕ
    → PeerRef
    → Bool
    → List DownloadingPiece
    → List PieceBlock
    → Outcome (List DownloadingPiece × List PieceBlock)
add_each store required peer end_game [] res = ok ([], res)
add_each store required peer end_game (dp ∷ dps) res = do
  picked ← pick_block store (required - length res) peer end_game dp
  let all = res ++ picked.1
  if length all == required
      then ok (picked.0 ∷ dps, all)
      else (do rest ← add_each store required peer end_game dps all; ok (picked.0 ∷ rest.0, rest.1))

unfoldable pub add_downloading_blocks :
    PeerStore → ℕ → PeerRef → Bool → PiecePicker → Outcome (PiecePicker × List PieceBlock)
add_downloading_blocks store required peer end_game pp = do
  added ← add_each store required peer end_game pp.downloading_pieces []
  ok (record pp { downloading_pieces = added.0 }, added.1)

unfoldable pub choose_piece : PiecePicker → ℕ → Outcome (PiecePicker × Bool)
choose_piece pp i = do
  dp ← new_downloading_piece i (blocks_in_piece pp i)
  pieces ← set_bit pp.pieces i
  ok (record pp { downloading_pieces = pp.downloading_pieces ++ (dp ∷ []); pieces = pieces }, true)

-- The loop from piece `i` on, with `n` pieces left.
unfoldable pub choose_from : PiecePicker → ℕ → ℕ → Outcome (PiecePicker × Bool)
choose_from pp zero i = ok (pp, false)
choose_from pp (suc n) i =
    let rest = choose_from pp n (suc i) in
    get_bit pp.pieces i >>= λ taken. if not taken then choose_piece pp i else rest

unfoldable pub choose_next_piece : PiecePicker → Outcome (PiecePicker × Bool)
choose_next_piece pp = choose_from pp pp.pieces.bits 0

abbrev pub peer_speed_slow : ℕ
peer_speed_slow = 0

abbrev pub is_end_game : Bool
is_end_game = true

-- The two passes over the pieces in progress. The second is for peers that are not slow.
unfoldable pub pick_twice :
    PeerStore → ℕ → PeerRef → PiecePicker → Outcome (PiecePicker × List PieceBlock)
pick_twice store required peer pp = do
  first ← add_downloading_blocks store required peer false pp
  if not ((store peer).speed == peer_speed_slow) && ltb (length first.1) required && is_end_game
      then (do
        again ← add_downloading_blocks store (required - length first.1) peer true first.0
        ok (again.0, first.1 ++ again.1))
      else ok first

-- What follows `chooseNextPiece`: `again` is the call that `PickPieces` makes of itself.
unfoldable pub pick_again_if :
    (PiecePicker → Outcome (PiecePicker × List PieceBlock))
    → List PieceBlock
    → PiecePicker × Bool
    → Outcome (PiecePicker × List PieceBlock)
pick_again_if again res (pp, false) = ok (pp, res)
pick_again_if again res (pp, true) = do more ← again pp; ok (more.0, res ++ more.1)

-- What follows the two passes.
unfoldable pub pick_rest :
    ℕ
    → (ℕ → PiecePicker → Outcome (PiecePicker × List PieceBlock))
    → PiecePicker × List PieceBlock
    → Outcome (PiecePicker × List PieceBlock)
pick_rest required again (pp, res) = elim (ltb (length res) required) [
  | false ↦ ok (pp, res)
  | true ↦ choose_next_piece pp >>= pick_again_if (again (required - length res)) res
]

-- `PickPieces` calls itself each time it has taken one more piece; `fuel` bounds the depth, and the
-- end of it counts as a panic, as the end of the stack would.
unfoldable pub pick_with :
    PeerStore → ℕ → ℕ → PeerRef → PiecePicker → Outcome (PiecePicker × List PieceBlock)
pick_with store zero required peer pp = panic
pick_with store (suc fuel) required peer pp =
    pick_twice store required peer pp
    >>= pick_rest required (λ n next. pick_with store fuel n peer next)

-- At most every piece is taken, one at a time.
unfoldable pub pick_pieces :
    PeerStore → ℕ → PeerRef → PiecePicker → Outcome (PiecePicker × List PieceBlock)
pick_pieces store required peer pp = pick_with store (suc pp.pieces.bits) required peer pp

unfoldable pub abort_in :
    PiecePicker → PeerStore → PieceBlock → PeerRef → Outcome (PiecePicker × Bool)
abort_in pp store block peer = elim (find_piece block.piece_index pp.downloading_pieces) [
  | none ↦ ok (pp, false)
  | some dp ↦ (do
    pieces ←
        change_piece (λ x. abort_block store x block.block_index peer) block.piece_index
          pp.downloading_pieces
    ok (record pp { downloading_pieces = pieces }, true))
]

unfoldable pub finish_in : PiecePicker → PieceBlock → Outcome PiecePicker
finish_in pp block = do
  pieces ←
      change_piece (λ x. finish_block x block.block_index) block.piece_index pp.downloading_pieces
  ok (record pp { downloading_pieces = pieces })

-- `remove(s, i)`: the last piece comes in the place of the one that is removed.
unfoldable pub swap_out : ℕ → List DownloadingPiece → Outcome (List DownloadingPiece)
swap_out i s = do
  last ← or_panic (get_elem? s (length s - 1))
  ok (take (length s - 1) (set s i last))

-- The number of the first piece with the index.
unfoldable pub position : ℕ → List DownloadingPiece → Option ℕ
position piece_index [] = none
position piece_index (x ∷ xs) =
    let rest = position piece_index xs in
    if x.piece_index == piece_index
    then some 0
    else (elim rest [ none ↦ none | some i ↦ some (suc i) ])

unfoldable pub remove_downloading_piece : PiecePicker → ℕ → Outcome (PiecePicker × Bool)
remove_downloading_piece pp piece_index = elim (position piece_index pp.downloading_pieces) [
  | none ↦ ok (pp, false)
  | some i ↦ (do
    pieces ← swap_out i pp.downloading_pieces
    left ← clear_bit pp.pieces piece_index
    ok (record pp { downloading_pieces = pieces; pieces = left }, true))
]

-- A piece is had when all its blocks are.
unfoldable pub check_have : ℕ → List DownloadingPiece → Outcome (List DownloadingPiece)
check_have i pieces = do
  x ← or_panic (get_elem? pieces i)
  have ← num_have x
  if not (num_blocks x == have) then panic else swap_out i pieces

unfoldable pub set_have : PiecePicker → ℕ → Outcome PiecePicker
set_have pp piece_index = do
  taken ← get_bit pp.pieces piece_index
  if not taken then panic else elim (position piece_index pp.downloading_pieces) [
    | none ↦ ok pp
    | some i ↦ (do
      pieces ← check_have i pp.downloading_pieces
      ok (record pp { downloading_pieces = pieces }))
  ]

unfoldable pub is_finished : PiecePicker → Outcome Bool
is_finished pp = do
  n ← count pp.pieces
  ok (n == pp.pieces.bits && length pp.downloading_pieces == 0)
