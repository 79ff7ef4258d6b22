-- ===== src/Proto/Geometry/Blocks.antt =====
-- proto/transfer.go and proto/common.go: offsets, pieces and blocks.
use ged2k.Prelude.{
  ℕ, ◌+◌, ◌-◌, ◌*◌, ◌/◌, ◌%◌, ◌^◌, ◌<◌, ◌≤◌, ◌≡◌, ◌==◌, refl, ap, arith, if◌then◌else◌,
}
use native.Mathlib.Decide.{ℕ_discrete}
use ged2k.Proto.Geometry.{
  piece_size, block_size, blocks_per_piece, PieceBlock, in_block_offset, div_ceil64,
  num_pieces_and_blocks, from_offset, start,
}

-- Fifty blocks fill a piece.
whole_blocks : ◌≡◌ {A = ℕ} (blocks_per_piece * block_size) piece_size
whole_blocks = refl

-- The block of a 64-bit offset starts at or before it, less than a block away, and the offset in the
-- block is that distance.
pub start-from_offset :
    (offset : ℕ)
    → offset < 2 ^ 64
    → (start (from_offset offset) + in_block_offset offset ≡ offset)
      × (in_block_offset offset < block_size)
      × ((from_offset offset).block_index < blocks_per_piece)
unfolding start from_offset in_block_offset
start-from_offset offset h = (omega arith, omega arith, omega arith)

-- Every 64-bit offset in a block of a piece leads back to the block.
pub from_offset-start :
    (pb : PieceBlock) (k : ℕ)
    → pb.block_index < blocks_per_piece
    → k < block_size
    → pb.piece_index * piece_size + pb.block_index * block_size + k < 2 ^ 64
    → from_offset (start pb + k) ≡ pb
unfolding start from_offset
from_offset-start pb k b h fits = ground arith

div_ceil64_exact : (a b : ℕ) → 0 < a + b → a + b ≤ 2 ^ 64 → div_ceil64 a b ≡ (a + b - 1) / b
unfolding div_ceil64
div_ceil64_exact a b h fits = ap (λ (t : ℕ). t / b) no_wrap
  where
    no_wrap : (a + b + 2 ^ 64 - 1) % 2 ^ 64 ≡ a + b - 1
    no_wrap = omega arith

-- The two numbers for a file of `n` whole pieces and `r` more bytes.
last_blocks : ℕ → ℕ
last_blocks r =
    if (r + block_size - 1) / block_size == 0
    then blocks_per_piece
    else (r + block_size - 1) / block_size

num_pieces_and_blocks_exact :
    (size : ℕ)
    → 0 < size
    → size + piece_size < 2 ^ 64
    → num_pieces_and_blocks size
      ≡ ((size + piece_size - 1) / piece_size, last_blocks (size % piece_size))
unfolding num_pieces_and_blocks last_blocks
num_pieces_and_blocks_exact size h fits = ground (
  arith,
  div_ceil64_exact (size % piece_size) block_size (omega arith) (omega arith),
  div_ceil64_exact size piece_size (omega arith) (omega arith),
)

last_blocks_lem :
    (r : ℕ)
    → r < piece_size
    → (0 < last_blocks r)
      × (last_blocks r ≤ blocks_per_piece)
      × (r ≡ 0 → last_blocks r ≡ blocks_per_piece)
      × (0 < r → (last_blocks r - 1) * block_size < r)
      × (r ≤ last_blocks r * block_size)
unfolding last_blocks
last_blocks_lem r h = ground arith

-- For a file of `size` bytes that is not empty, and more than a piece shorter than 2 ^ 64: the
-- pieces but the last are full, the blocks of the last piece but its last are full, and the end of
-- the file lies in the last block.
pub num_pieces_and_blocks_lem :
    (size : ℕ)
    → 0 < size
    → size + piece_size < 2 ^ 64
    → let (pieces, last) = num_pieces_and_blocks size in
      ((pieces - 1) * piece_size + (last - 1) * block_size < size)
      × (size ≤ (pieces - 1) * piece_size + last * block_size)
      × (0 < pieces)
      × (0 < last)
      × (last ≤ blocks_per_piece)
num_pieces_and_blocks_lem size h fits =
    let (a, b, c, d, e) = last_blocks_lem (size % piece_size) (omega arith) in
    rw (num_pieces_and_blocks_exact size h fits) (elim (ℕ_discrete (size % piece_size) 0) [
      | yes whole ↦ (omega (arith, c whole), omega (arith, c whole), omega arith, a, b)
      | no part ↦
          let before = d (omega arith) in
          (omega (arith, before), omega (arith, e), omega arith, a, b)
    ])
