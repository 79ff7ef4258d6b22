-- ===== src/Proto/Geometry.antt =====
-- proto/constants.go, proto/common.go and proto/transfer.go: files in pieces and pieces in blocks.
pub mod Blocks
use ged2k.Prelude.{ℕ, ◌+◌, ◌-◌, ◌*◌, ◌/◌, ◌%◌, ◌^◌, ◌==◌, if◌then◌else◌}
use ged2k.Proto.Buffer.{StateBuffer, Reader, pure, ◌>>=◌, ◌|>◌, read_uint32, write_uint}

abbrev pub piece_size : ℕ
piece_size = 9728000

abbrev pub block_size : ℕ
block_size = 190 * 1024

abbrev pub blocks_per_piece : ℕ
blocks_per_piece = piece_size / block_size

abbrev pub request_queue_size : ℕ
request_queue_size = 3

pub record PieceBlock : Type 0 where
  pub piece_index : ℕ
  pub block_index : ℕ

unfoldable pub in_block_offset : ℕ → ℕ
in_block_offset begin = begin % block_size

-- On uint64, where the sum wraps.
unfoldable pub div_ceil64 : ℕ → ℕ → ℕ
div_ceil64 a b = (a + b + 2 ^ 64 - 1) % 2 ^ 64 / b

unfoldable pub num_pieces_and_blocks : ℕ → ℕ × ℕ
unfolding div_ceil64
num_pieces_and_blocks offset =
    if offset == 0
    then (0, 0)
    else (let last = div_ceil64 (offset % piece_size) block_size in
        (div_ceil64 offset piece_size, if last == 0 then blocks_per_piece else last))

unfoldable pub from_offset : ℕ → PieceBlock
from_offset offset = record {
  piece_index = offset / piece_size;
  block_index = offset % piece_size / block_size;
}

-- On uint64.
unfoldable pub start : PieceBlock → ℕ
start pb = (pb.piece_index * piece_size + pb.block_index * block_size) % 2 ^ 64

-- PieceBlock on the wire: two numbers of 32 bits.
unfoldable pub get_piece_block : Reader PieceBlock
get_piece_block = do
  piece_index ← read_uint32
  block_index ← read_uint32
  pure (record { piece_index = piece_index; block_index = block_index })

unfoldable pub put_piece_block : PieceBlock → StateBuffer → StateBuffer
put_piece_block pb sb =
    sb |> write_uint 4 (pb.piece_index % 2 ^ 32) |> write_uint 4 (pb.block_index % 2 ^ 32)

abbrev pub size_piece_block : ℕ
size_piece_block = 4 + 4
