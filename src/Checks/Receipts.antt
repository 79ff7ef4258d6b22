-- ===== src/Checks/Receipts.antt =====
-- piece_storage.go: three blocks, the last one first and the first one twice.
use ged2k.Prelude.{ℕ, ◌≡◌, refl, List, [], ◌∷◌, ◌++◌, true, false, arith, ◌⊎◌}
use ged2k.Pieces.Pending.{PendingBlock}
use ged2k.Pieces.Receiving.{
  ReceivingPiece, insert_block, insert_found, insert_at, skip_blocks, hash_blocks,
}
use ged2k.Pieces.Receiving.Sorted.{IsRisingFrom, has_index, insert}
use ged2k.Pieces.Receiving.Hashed.{
  IsHashedFrom, empty_piece, insert_all, write_all, insert_block_lem, insert_all-hash,
}

-- The bytes themselves stand for the hash of bytes.
append_bytes : List ℕ → List ℕ → List ℕ
append_bytes h bytes = h ++ bytes

abbrev received : ℕ → ℕ → PendingBlock
received i byte = record {
  block = record { piece_index = 0; block_index = i };
  contents = byte ∷ [];
  region = record { segments = [] };
}

abbrev arrivals : List PendingBlock
arrivals = received 2 30 ∷ received 0 10 ∷ received 0 10 ∷ received 1 20 ∷ []

insert_all-hash_example :
    IsRisingFrom 0 (insert_all append_bytes arrivals (empty_piece append_bytes [])).blocks
    × (((insert_all append_bytes arrivals (empty_piece append_bytes [])).hash
          ≡ write_all append_bytes []
              (insert_all append_bytes arrivals (empty_piece append_bytes [])).blocks)
        × ((insert_all append_bytes arrivals (empty_piece append_bytes [])).hash_block_index ≡ 3))
unfolding insert_all insert_block insert_found insert_at skip_blocks hash_blocks
insert_all-hash_example =
    insert_all-hash append_bytes arrivals 3 []
      (omega arith, (omega arith, (omega arith, (omega arith, tt)))) refl

abbrev two_blocks : ReceivingPiece (List ℕ)
two_blocks = record {
  hash = 10 ∷ [];
  blocks = received 0 10 ∷ received 2 30 ∷ [];
  hash_block_index = 1;
}

insert_block_lem_example :
    ((has_index 1 two_blocks.blocks ≡ true)
      × (insert_block append_bytes two_blocks (received 1 20) ≡ (two_blocks, false)))
    ⊎ ((has_index 1 two_blocks.blocks ≡ false)
        × (((insert_block append_bytes two_blocks (received 1 20)).1 ≡ true)
            × (((insert_block append_bytes two_blocks (received 1 20)).0.blocks
                  ≡ insert (received 1 20) two_blocks.blocks)
                × IsHashedFrom append_bytes []
                    (insert_block append_bytes two_blocks (received 1 20)).0)))
unfolding hash_blocks append_bytes
insert_block_lem_example =
    insert_block_lem append_bytes [] two_blocks (received 1 20)
      ((omega arith, (omega arith, tt)), refl)
