-- ===== src/Pieces/Receiving.antt =====
-- piece_storage.go: the received blocks of a piece, in order, hashed as far as they are complete.
-- The hash function of the package md4 is a parameter: a state, and how bytes change it.
pub mod Sorted
pub mod Hashed
use ged2k.Prelude.{
  ℕ, suc, ◌+◌, ◌==◌, Bool, true, false, Option, none, some, List, [], ◌∷◌, ◌++◌, length, take, drop,
  set, ltb, if◌then◌else◌,
}
use ged2k.Pieces.Pending.{PendingBlock}

pub record ReceivingPiece (H : Type 0) : Type 0 where
  pub hash : H
  pub blocks : List PendingBlock
  pub hash_block_index : ℕ

abbrev pub index_of : PendingBlock → ℕ
index_of pb = pb.block.block_index

-- The first loop of `InsertBlock`: how many blocks to skip, none if the block is there.
unfoldable pub skip_blocks : ℕ → List PendingBlock → ℕ → Option ℕ
skip_blocks index [] skip = some skip
skip_blocks index (x ∷ xs) skip =
    let further = skip_blocks index xs (suc skip) in
    if index_of x == index then none else if ltb (index_of x) index then further else some skip

-- The switch: in front, behind, or in the middle by a copy of the tail over itself.
unfoldable pub insert_at : ℕ → PendingBlock → List PendingBlock → List PendingBlock
insert_at skip pb blocks =
    if skip == 0
    then pb ∷ blocks
    else if skip == length blocks
    then blocks ++ (pb ∷ [])
    else set (take (skip + 1) blocks ++ drop skip blocks) skip pb

module _ {H : Type 0} (write : H → List ℕ → H) where
  -- The second loop.
  unfoldable pub hash_blocks : List PendingBlock → H → ℕ → H × ℕ
  hash_blocks [] h index = (h, index)
  hash_blocks (x ∷ xs) h index =
      let skip = hash_blocks xs h index in
      let next = hash_blocks xs (write h x.contents) (suc index) in
      if ltb (index_of x) index then skip else if index == index_of x then next else (h, index)

  unfoldable pub insert_found : Option ℕ → PendingBlock → ReceivingPiece H → ReceivingPiece H × Bool
  insert_found none pb rp = (rp, false)
  insert_found (some skip) pb rp =
      let blocks = insert_at skip pb rp.blocks in
      let (h, index) = hash_blocks blocks rp.hash rp.hash_block_index in
      (record { hash = h; blocks = blocks; hash_block_index = index }, true)

  unfoldable pub insert_block : ReceivingPiece H → PendingBlock → ReceivingPiece H × Bool
  unfolding insert_found
  insert_block rp pb = insert_found (skip_blocks (index_of pb) rp.blocks 0) pb rp
