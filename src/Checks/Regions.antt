-- ===== src/Checks/Regions.antt =====
-- data/region.go and the offsets of proto/transfer.go, on concrete files.
use ged2k.Prelude.{ℕ, ◌+◌, ◌*◌, ◌-◌, ◌<◌, ◌≤◌, ◌≡◌, [], ◌∷◌, true, ◌&&◌, not, ◌↔◌, arith}
use ged2k.Region.{Range, Region, region_sub, is_empty}
use ged2k.Region.Difference.{
  covers, in_range, region_sub_all, covers-region_sub, is_empty-region_sub_all,
}
use ged2k.Proto.Geometry.{
  PieceBlock, start, from_offset, in_block_offset, block_size, blocks_per_piece, piece_size,
  num_pieces_and_blocks,
}
use ged2k.Proto.Geometry.Blocks.{start-from_offset, num_pieces_and_blocks_lem}

abbrev two_segments : Region
two_segments = record {
  segments = record { begin = 10; end = 20 } ∷ record { begin = 30; end = 40 } ∷ [];
}

abbrev middle : Range
middle = record { begin = 15; end = 35 }

abbrev rest : Range
rest = record { begin = 5; end = 16 }

abbrev last : Range
last = record { begin = 34; end = 90 }

covers-region_sub_example :
    covers (region_sub two_segments middle).segments 36
    ≡ (covers two_segments.segments 36 && not (in_range middle 36))
covers-region_sub_example = covers-region_sub two_segments middle 36 (omega arith)

is_empty-region_sub_all_example :
    (is_empty (region_sub_all two_segments (last ∷ middle ∷ rest ∷ [])) ≡ true) ↔ (
      (x : ℕ) → covers two_segments.segments x ≡ true → covers (last ∷ middle ∷ rest ∷ []) x ≡ true)
is_empty-region_sub_all_example =
    is_empty-region_sub_all 7 two_segments (last ∷ middle ∷ rest ∷ [])
      (omega arith, (omega arith, (omega arith, tt)))
      (omega arith, omega arith, (omega arith, omega arith, tt))

start-from_offset_example :
    (start (from_offset 9923000) + in_block_offset 9923000 ≡ 9923000)
    × (in_block_offset 9923000 < block_size)
    × ((from_offset 9923000).block_index < blocks_per_piece)
start-from_offset_example = start-from_offset 9923000 (omega arith)

abbrev second : PieceBlock
second = record { piece_index = 1; block_index = 49 }

num_pieces_and_blocks_lem_example :
    let (pieces, last) = num_pieces_and_blocks 19456001 in
    ((pieces - 1) * piece_size + (last - 1) * block_size < 19456001)
    × (19456001 ≤ (pieces - 1) * piece_size + last * block_size)
    × (0 < pieces)
    × (0 < last)
    × (last ≤ blocks_per_piece)
num_pieces_and_blocks_lem_example = num_pieces_and_blocks_lem 19456001 (omega arith) (omega arith)
