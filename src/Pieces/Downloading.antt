-- ===== src/Pieces/Downloading.antt =====
-- downloading_piece.go: a piece in progress. Peers are shared objects: a `PeerRef` is the address of
-- one, and the store says what stands there.
pub mod Valid
pub mod Pick
pub mod Picks
pub mod Picked
pub mod Finish
use ged2k.Prelude.{
  ℕ, zero, suc, ◌+◌, ◌-◌, ◌==◌, ◌&&◌, not, Bool, true, false, Option, none, some, List, [], ◌∷◌,
  ◌++◌, length, get_elem?, set, replicate, Outcome, ok, panic, or_panic, ◌>>=◌, ltb, if◌then◌else◌,
}
use ged2k.Prelude.Int.{ℤ, pos, inc, dec, is_zero, less_than}
use ged2k.Proto.BitField.{
  BitField, create_bit_field, clone_bit_field, get_bit, set_bit, clear_bit, count,
}
use ged2k.Proto.Geometry.{PieceBlock}
use ged2k.Peers.{Peer}

abbrev pub PeerRef : Type 0
PeerRef = ℕ

abbrev pub PeerStore : Type 0
PeerStore = PeerRef → Peer

pub record Block : Type 0 where
  pub downloaders_count : ℤ
  pub last_downloader : Option PeerRef

pub record DownloadingPiece : Type 0 where
  pub piece_index : ℕ
  pub blocks : List Block
  pub blocks_requested : BitField
  pub blocks_finished : BitField

abbrev pub new_block : Block
new_block = record { downloaders_count = pos 0; last_downloader = none }

unfoldable pub new_downloading_piece : ℕ → ℕ → Outcome DownloadingPiece
new_downloading_piece piece_index blocks_count = do
  requested ← create_bit_field blocks_count
  finished ← create_bit_field blocks_count
  ok (record {
    piece_index = piece_index;
    blocks = replicate blocks_count new_block;
    blocks_requested = requested;
    blocks_finished = finished;
  })

unfoldable pub new_downloading_piece_params : ℕ → BitField → DownloadingPiece
new_downloading_piece_params piece_index blocks_have = record {
  piece_index = piece_index;
  blocks = replicate blocks_have.bits new_block;
  blocks_requested = clone_bit_field blocks_have;
  blocks_finished = clone_bit_field blocks_have;
}

-- `Bits() - Count()`. The count is at most the number of bits, so the difference is not cut.
unfoldable pub free_blocks_count : DownloadingPiece → Outcome ℕ
free_blocks_count dp = do n ← count dp.blocks_requested; ok (dp.blocks_requested.bits - n)

unfoldable pub is_block_requested : DownloadingPiece → ℕ → Outcome Bool
is_block_requested dp i = get_bit dp.blocks_requested i

unfoldable pub is_block_finished : DownloadingPiece → ℕ → Outcome Bool
is_block_finished dp i = get_bit dp.blocks_finished i

unfoldable pub num_have : DownloadingPiece → Outcome ℕ
num_have dp = count dp.blocks_finished

unfoldable pub num_blocks : DownloadingPiece → ℕ
num_blocks dp = dp.blocks_finished.bits

abbrev pub block_of : DownloadingPiece → ℕ → PieceBlock
block_of dp i = record { piece_index = dp.piece_index; block_index = i }

-- `blocks[i] = f(blocks[i])`
unfoldable pub update_block : DownloadingPiece → ℕ → (Block → Block) → Outcome DownloadingPiece
update_block dp i f = do
  b ← or_panic (get_elem? dp.blocks i)
  ok (record dp { blocks = set dp.blocks i (f b) })

-- One more peer loads the block.
unfoldable pub request_block : DownloadingPiece → ℕ → PeerRef → Outcome DownloadingPiece
request_block dp i peer = do
  requested ← set_bit dp.blocks_requested i
  update_block (record dp { blocks_requested = requested }) i
      (λ b. record { downloaders_count = inc b.downloaders_count; last_downloader = some peer })

-- In the end game a block is asked for again if the new peer is faster than the previous one.
unfoldable pub is_better : PeerStore → Option PeerRef → PeerRef → Bool
is_better store none peer = true
is_better store (some last) peer = ltb (store last).speed (store peer).speed && not (peer == last)

unfoldable pub can_repeat : PeerStore → Block → PeerRef → Bool
unfolding is_better
can_repeat store b peer = less_than b.downloaders_count 2 && is_better store b.last_downloader peer

unfoldable pub repeat_block :
    PeerStore
    → DownloadingPiece
    → ℕ
    → PeerRef
    → List PieceBlock
    → Outcome (DownloadingPiece × List PieceBlock)
repeat_block store dp i peer res = do
  b ← or_panic (get_elem? dp.blocks i)
  if can_repeat store b peer
      then (do dp' ← request_block dp i peer; ok (dp', res ++ (block_of dp i ∷ [])))
      else ok (dp, res)

-- The second test of the loop's body.
unfoldable pub pick_again :
    PeerStore
    → Bool
    → PeerRef
    → ℕ
    → DownloadingPiece
    → List PieceBlock
    → Outcome (DownloadingPiece × List PieceBlock)
pick_again store false peer i dp res = ok (dp, res)
pick_again store true peer i dp res = do
  finished ← is_block_finished dp i
  if not finished then repeat_block store dp i peer res else ok (dp, res)

-- The body of the loop. That the block is requested is known in the second test.
unfoldable pub pick_step :
    PeerStore
    → Bool
    → PeerRef
    → ℕ
    → DownloadingPiece
    → List PieceBlock
    → Outcome (DownloadingPiece × List PieceBlock)
pick_step store end_game peer i dp res = do
  requested ← is_block_requested dp i
  if not requested
      then (do dp' ← request_block dp i peer; ok (dp', res ++ (block_of dp i ∷ [])))
      else pick_again store end_game peer i dp res

-- The loop from block `i` on, with `n` blocks left.
unfoldable pub pick_loop :
    PeerStore
    → Bool
    → PeerRef
    → ℕ
    → ℕ
    → ℕ
    → DownloadingPiece
    → List PieceBlock
    → Outcome (DownloadingPiece × List PieceBlock)
pick_loop store end_game peer required zero i dp res = ok (dp, res)
pick_loop store end_game peer required (suc n) i dp res =
    if ltb (length res) required
    then (pick_step store end_game peer i dp res >>= λ r.
        pick_loop store end_game peer required n (suc i) r.0 r.1)
    else ok (dp, res)

unfoldable pub pick_block :
    PeerStore → ℕ → PeerRef → Bool → DownloadingPiece → Outcome (DownloadingPiece × List PieceBlock)
pick_block store required peer end_game dp = do
  free ← if end_game then ok 1 else free_blocks_count dp
  if free == 0
      then ok (dp, [])
      else pick_loop store end_game peer required (length dp.blocks) 0 dp []

forget : PeerStore → PeerRef → Option PeerRef → Option PeerRef
forget store peer none = none
forget store peer (some last) =
    if (store last).endpoint.ip == (store peer).endpoint.ip
      && (store last).endpoint.port == (store peer).endpoint.port
    then none
    else some last

unfoldable pub abort_block : PeerStore → DownloadingPiece → ℕ → PeerRef → Outcome DownloadingPiece
unfolding forget
abort_block store dp i peer = if ltb (length dp.blocks) i then panic else (do
  finished ← is_block_finished dp i
  if finished then ok dp else (do
    b ← or_panic (get_elem? dp.blocks i)
    requested ←
        if is_zero (dec b.downloaders_count)
        then clear_bit dp.blocks_requested i
        else ok dp.blocks_requested
    ok (record dp {
      blocks = set dp.blocks i (record {
        downloaders_count = dec b.downloaders_count;
        last_downloader = forget store peer b.last_downloader;
      });
      blocks_requested = requested;
    })))

unfoldable pub finish_block : DownloadingPiece → ℕ → Outcome DownloadingPiece
finish_block dp i = do
  requested ← is_block_requested dp i
  if not requested then panic else (do
    finished ← set_bit dp.blocks_finished i
    update_block (record dp { blocks_finished = finished }) i
        (λ b. record { downloaders_count = dec b.downloaders_count; last_downloader = none }))
