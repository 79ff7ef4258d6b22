-- ===== src/Pieces/Downloading/Valid.antt =====
-- downloading_piece.go: what holds of every piece in progress, and how one request changes it.
use ged2k.Prelude.{
  ℕ, ◌<◌, ◌≡◌, refl, sym, ◌∙◌, Bool, true, false, ◌||◌, ◌==◌, some, List, length, set, get_or,
  get_elem?, get_elem?-get_or, length-set, length-replicate, replicate, ok, arith,
}
use ged2k.Prelude.Int.{inc}
use ged2k.Proto.BitField.{BitField}
use ged2k.Proto.BitField.Bits.{
  BitFieldIsValid, bit_of, with_bit, with_bit-IsValid, bits-with_bit, bit_of-with_bit, set_bit_ok,
  get_bit_ok,
}
use ged2k.Proto.BitField.Sizing.{create_bit_field_ok, clone_bit_field_lem}
use ged2k.Pieces.Downloading.{
  PeerRef, Block, DownloadingPiece, new_block, new_downloading_piece, new_downloading_piece_params,
  is_block_requested, is_block_finished, update_block, request_block,
}

abbrev pub requested : DownloadingPiece → ℕ → Bool
requested dp j = bit_of dp.blocks_requested j

abbrev pub finished : DownloadingPiece → ℕ → Bool
finished dp j = bit_of dp.blocks_finished j

-- Both bit fields have a bit for each block, and a finished block was requested.
pub record PieceIsValid (dp : DownloadingPiece) : Type 0 where
  pub requested_valid : BitFieldIsValid dp.blocks_requested
  pub finished_valid : BitFieldIsValid dp.blocks_finished
  pub requested_size : dp.blocks_requested.bits ≡ length dp.blocks
  pub finished_size : dp.blocks_finished.bits ≡ length dp.blocks
  pub was_requested : (j : ℕ) → finished dp j ≡ true → requested dp j ≡ true

-- A new piece has the number of blocks asked for, none of them requested or finished.
pub new_downloading_piece_ok :
    (index n : ℕ)
    → (dp : DownloadingPiece) × (new_downloading_piece index n ≡ ok dp)
      × PieceIsValid dp
      × (dp.piece_index ≡ index)
      × (length dp.blocks ≡ n)
      × ((j : ℕ) → (requested dp j ≡ false) × (finished dp j ≡ false))
unfolding new_downloading_piece
new_downloading_piece_ok index n =
    let (r, e, v, size, none_set) = create_bit_field_ok n in
    let blocks : List Block = replicate n new_block in
    let many : length blocks ≡ n = length-replicate n new_block in
    (
      record { piece_index = index; blocks = blocks; blocks_requested = r; blocks_finished = r },
      rw e,
      record {
        requested_valid = v;
        finished_valid = v;
        requested_size = size ∙ sym many;
        finished_size = size ∙ sym many;
        was_requested = λ j h. h;
      },
      refl,
      many,
      λ j. (none_set j, none_set j),
    )

-- A piece that is resumed has requested exactly what it has.
pub new_downloading_piece_params-IsValid :
    (index : ℕ) (have : BitField)
    → BitFieldIsValid have
    → PieceIsValid (new_downloading_piece_params index have)
unfolding new_downloading_piece_params
new_downloading_piece_params-IsValid index have v = record {
  requested_valid = rw (clone_bit_field_lem have) v;
  finished_valid = rw (clone_bit_field_lem have) v;
  requested_size = rw (clone_bit_field_lem have) (sym (length-replicate have.bits new_block));
  finished_size = rw (clone_bit_field_lem have) (sym (length-replicate have.bits new_block));
  was_requested = λ j h. h;
}

pub is_block_requested_ok :
    (dp : DownloadingPiece) (i : ℕ)
    → PieceIsValid dp
    → i < length dp.blocks
    → is_block_requested dp i ≡ ok (requested dp i)
unfolding is_block_requested
is_block_requested_ok dp i v h =
    get_bit_ok dp.blocks_requested i v.requested_valid (omega (arith, v.requested_size))

pub is_block_finished_ok :
    (dp : DownloadingPiece) (i : ℕ)
    → PieceIsValid dp
    → i < length dp.blocks
    → is_block_finished dp i ≡ ok (finished dp i)
unfolding is_block_finished
is_block_finished_ok dp i v h =
    get_bit_ok dp.blocks_finished i v.finished_valid (omega (arith, v.finished_size))

unfoldable pub block_at : DownloadingPiece → ℕ → Block
block_at dp i = get_or dp.blocks i new_block

pub get_block_ok :
    (dp : DownloadingPiece) (i : ℕ)
    → i < length dp.blocks
    → get_elem? dp.blocks i ≡ some (block_at dp i)
unfolding block_at
get_block_ok dp i h = get_elem?-get_or dp.blocks i new_block h

-- The piece after a request of block `i`.
unfoldable pub with_request : DownloadingPiece → ℕ → PeerRef → DownloadingPiece
with_request dp i peer = record dp {
  blocks = set dp.blocks i (record {
    downloaders_count = inc (block_at dp i).downloaders_count;
    last_downloader = some peer;
  });
  blocks_requested = with_bit dp.blocks_requested i;
}

pub request_block_ok :
    (dp : DownloadingPiece) (i : ℕ) (peer : PeerRef)
    → PieceIsValid dp
    → i < length dp.blocks
    → request_block dp i peer ≡ ok (with_request dp i peer)
unfolding request_block update_block with_request
request_block_ok dp i peer v h = rw (
  set_bit_ok dp.blocks_requested i v.requested_valid (omega (arith, v.requested_size)),
  get_block_ok dp i h,
)

-- What a request leaves: a valid piece, the same but for the block, which is now requested.
pub record Requests (dp : DownloadingPiece) (i : ℕ) (after : DownloadingPiece) : Type 0 where
  pub valid : PieceIsValid after
  pub same_index : after.piece_index ≡ dp.piece_index
  pub same_length : length after.blocks ≡ length dp.blocks
  pub same_finished : after.blocks_finished ≡ dp.blocks_finished
  pub marked : (j : ℕ) → requested after j ≡ (i == j || requested dp j)

pub with_request-Requests :
    (dp : DownloadingPiece) (i : ℕ) (peer : PeerRef)
    → PieceIsValid dp
    → i < length dp.blocks
    → Requests dp i (with_request dp i peer)
unfolding with_request
with_request-Requests dp i peer v h = record {
  valid = record {
    requested_valid = with_bit-IsValid dp.blocks_requested i v.requested_valid;
    finished_valid = v.finished_valid;
    requested_size =
        bits-with_bit dp.blocks_requested i ∙ v.requested_size ∙ sym (length-set dp.blocks i _);
    finished_size = v.finished_size ∙ sym (length-set dp.blocks i _);
    was_requested = λ j f. marked j ∙ or_true (i == j) (v.was_requested j f);
  };
  same_index = refl;
  same_length = length-set dp.blocks i _;
  same_finished = refl;
  marked = marked;
}
  where
    marked : (j : ℕ) → bit_of (with_bit dp.blocks_requested i) j ≡ (i == j || requested dp j)
    marked j =
        bit_of-with_bit dp.blocks_requested i j v.requested_valid (omega (arith, v.requested_size))

    or_true : (a : Bool) {b : Bool} → b ≡ true → (a || b) ≡ true
    or_true a e = ground arith
