-- ===== src/Proto/Resume.antt =====
-- proto/transfer.go: `AddTransferParameters`, what is stored of a transfer. A map is the list of its
-- entries in the order in which a loop over it gives them.
pub mod RoundTrip
use ged2k.Prelude.{
  ℕ, zero, suc, ◌+◌, ◌%◌, ◌^◌, ◌==◌, ◌||◌, not, ltb, if◌then◌else◌, Bool, false, List, [], ◌∷◌,
  length, Outcome, ok, ◌>>=◌ as ◌>>=ᵒ◌,
}
use ged2k.Proto.Buffer.{
  StateBuffer, Reader, pure, ◌>>=◌, ◌|>◌, read, read_num, read_uint16, read_uint32, fail_with,
  too_many, write, write_uint,
}
use ged2k.Proto.Basic.{
  Ed2kHash, ByteContainer, get_byte_container, put_byte_container, size_byte_container,
}
use ged2k.Proto.BitField.{
  BitField, get_bit_field, put_bit_field, size_bit_field, create_bit_field, count,
}
use ged2k.Proto.Tags.{max_elems}
use ged2k.Proto.Packets.{HashSet, get_hash_set, put_hash_set, size_hash_set}
use ged2k.Proto.Geometry.{num_pieces_and_blocks}

abbrev pub BlockMap : Type 0
BlockMap = List (ℕ × BitField)

pub record AddTransferParameters : Type 0 where
  pub hashes : HashSet
  pub filename : ByteContainer
  pub filesize : ℕ
  pub pieces : BitField
  pub downloaded_blocks : BlockMap

unfoldable pub has_key : ℕ → BlockMap → Bool
has_key i [] = false
has_key i ((j, x) ∷ rest) = j == i || has_key i rest

-- `m[i] = bf`
unfoldable pub assign_key : ℕ → BitField → BlockMap → BlockMap
assign_key i bf [] = (i, bf) ∷ []
assign_key i bf ((j, x) ∷ rest) =
    let others = assign_key i bf rest in if j == i then (i, bf) ∷ rest else (j, x) ∷ others

-- The loop of `Get`, which goes on after an error.
unfoldable pub get_blocks : ℕ → BlockMap → Reader BlockMap
get_blocks zero m = pure m
get_blocks (suc n) m = do
  piece_index ← read_uint32
  bf ← read get_bit_field (record { bytes = []; bits = 0 })
  get_blocks n (assign_key piece_index bf m)

unfoldable pub too_many_blocks : AddTransferParameters → Reader AddTransferParameters
too_many_blocks atp sb = (atp, fail_with too_many sb)

-- `DownloadedBlocks` is a new map in either case; a size after an error is 0.
unfoldable pub get_block_map : ℕ → AddTransferParameters → Reader AddTransferParameters
get_block_map size atp =
    if ltb max_elems size
    then too_many_blocks atp
    else (get_blocks size [] >>= λ m. pure (record atp { downloaded_blocks = m }))

unfoldable pub get_add_transfer : AddTransferParameters → Reader AddTransferParameters
get_add_transfer atp = do
  hashes ← read get_hash_set atp.hashes
  filename ← read get_byte_container atp.filename
  filesize ← read_num 8 atp.filesize
  pieces ← read get_bit_field atp.pieces
  size ← read_uint16
  get_block_map size (record {
    hashes = hashes;
    filename = filename;
    filesize = filesize;
    pieces = pieces;
    downloaded_blocks = [];
  })

unfoldable pub put_blocks : BlockMap → StateBuffer → StateBuffer
put_blocks [] sb = sb
put_blocks ((i, x) ∷ rest) sb =
    put_blocks rest (sb |> write_uint 4 (i % 2 ^ 32) |> write (put_bit_field x))

unfoldable pub put_add_transfer : AddTransferParameters → StateBuffer → StateBuffer
put_add_transfer atp sb =
    sb
    |> write (put_hash_set atp.hashes)
    |> write (put_byte_container atp.filename)
    |> write_uint 8 atp.filesize
    |> write (put_bit_field atp.pieces)
    |> write_uint 2 (length atp.downloaded_blocks % 2 ^ 16)
    |> put_blocks atp.downloaded_blocks

unfoldable pub size_blocks : BlockMap → ℕ
size_blocks [] = 0
size_blocks ((i, x) ∷ rest) = 4 + size_bit_field x + size_blocks rest

unfoldable pub size_add_transfer : AddTransferParameters → ℕ
size_add_transfer atp =
    size_hash_set atp.hashes
    + size_byte_container atp.filename
    + 8
    + size_bit_field atp.pieces
    + 2
    + size_blocks atp.downloaded_blocks

unfoldable pub want_more_data : AddTransferParameters → Outcome Bool
want_more_data atp = count atp.pieces >>=ᵒ λ have.
    ok (not (atp.pieces.bits == have) || ltb 0 (length atp.downloaded_blocks))

unfoldable pub create_add_transfer : Ed2kHash → ℕ → List ℕ → Outcome AddTransferParameters
create_add_transfer hash size filename =
    create_bit_field (num_pieces_and_blocks size).0 >>=ᵒ λ pieces. ok (record {
      hashes = record { hash = hash; piece_hashes = [] };
      filename = filename;
      filesize = size;
      pieces = pieces;
      downloaded_blocks = [];
    })
