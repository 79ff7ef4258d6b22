-- ===== src/Pieces/Pending.antt =====
-- peer_connection.go: a block that is asked for, its bytes, and the offsets still to come.
use ged2k.Proto.Combiner.{Io, ReadFull, filled, short}
use ged2k.Prelude.{
  Bool, true, false, ◌++◌, zero, suc, [], length, take, drop, set, get_elem?, or_panic, ◌>>=◌, ℕ,
  ◌+◌, ◌-◌, ◌%◌, ◌^◌, ltb, if◌then◌else◌, List, replicate, Outcome, ok, panic,
}
use ged2k.Proto.Geometry.{PieceBlock, start, block_size, in_block_offset}
use ged2k.Region.{Region, make, make_region, region_sub}

pub record PendingBlock : Type 0 where
  pub block : PieceBlock
  pub contents : List ℕ
  pub region : Region

unfoldable pub min64 : ℕ → ℕ → ℕ
min64 a b = if ltb a b then a else b

-- On uint64. `make` panics where the length is not in range, here where the end is before the begin.
unfoldable pub make_pending_block : PieceBlock → ℕ → Outcome PendingBlock
unfolding min64
make_pending_block b size =
    let begin = start b in
    let end = min64 ((start b + block_size) % 2 ^ 64) size in
    if ltb end begin
    then panic
    else ok (record {
      block = b;
      region = make_region (make begin end);
      contents = replicate (end - begin) 0;
    })

-- `RemovePendingBlock(s, i)`: the last block comes in the place of the one that is removed.
unfoldable pub remove_pending_block : List PendingBlock → ℕ → Outcome (List PendingBlock)
remove_pending_block s i = do
  last ← or_panic (get_elem? s (length s - 1))
  old ← or_panic (get_elem? s i)
  ok (take (length s - 1) (set s i last))

-- Bytes in the middle of the block.
unfoldable pub put_at : ℕ → List ℕ → List ℕ → List ℕ
put_at offset bs old = take offset old ++ (bs ++ drop (offset + length bs) old)

-- What a call returns: the block, the number of bytes, whether there was an error, and the reader.
pub record Received (S : Type 0) : Type 0 where
  pub pending : PendingBlock
  pub count : ℕ
  pub failed : Bool
  pub rest : S

module _ {S : Type 0} (io : Io S) where
  -- io.ReadFull. Asked for no bytes it does not call the reader.
  unfoldable pub read_into : ℕ → S → ReadFull S
  read_into zero s = filled [] s
  read_into (suc n) s = io.read_full (suc n) s

  -- What is read goes into the block, and if all of it came, out of the region.
  unfoldable pub keep_received : PendingBlock → ℕ → ℕ → ReadFull S → Received S
  keep_received pb offset begin (short bs s) = record {
    pending = record pb { contents = put_at offset bs pb.contents };
    count = length bs;
    failed = true;
    rest = s;
  }
  keep_received pb offset begin (filled bs s) = record {
    pending = record pb {
      contents = put_at offset bs pb.contents;
      region = region_sub pb.region (make begin ((begin + length bs) % 2 ^ 64));
    };
    count = length bs;
    failed = false;
    rest = s;
  }

  -- On uint64. A slice that is not in the block panics, and so does one of negative length: as a
  -- uint64 that length is above every length of a slice.
  unfoldable pub receive : PendingBlock → S → ℕ → ℕ → Outcome (Received S)
  receive pb s begin end =
      let chunk = (end + 2 ^ 64 - begin) % 2 ^ 64 in
      if ltb (length pb.contents) (in_block_offset begin + chunk)
      then panic
      else ok (keep_received pb (in_block_offset begin) begin (read_into chunk s))

  unfoldable pub receive_to_eof : PendingBlock → S → ℕ → Outcome (Received S)
  receive_to_eof pb s begin =
      if ltb (length pb.contents) (in_block_offset begin)
      then panic
      else ok (
          keep_received pb (in_block_offset begin) begin
            (read_into (length pb.contents - in_block_offset begin) s))
