-- ===== src/Proto/Parts.antt =====
-- proto/peer.go: the packets that ask for parts of a file and announce them.
pub mod RoundTrip
use ged2k.Prelude.{ℕ, zero, suc, ◌+◌, ◌*◌, ◌%◌, ◌^◌, if◌then◌else◌, Bool, List, [], ◌∷◌}
use ged2k.Proto.Buffer.{
  StateBuffer, Reader, pure, ◌>>=◌, ◌|>◌, read, read_num, read_uint, write, write_uint,
}
use ged2k.Proto.Basic.{Ed2kHash, get_hash, put_hash, size_hash}

-- The arrays of three offsets are lists.
pub record RequestParts : Type 0 where
  pub hash : Ed2kHash
  pub begin_offset : List ℕ
  pub end_offset : List ℕ

abbrev pub parts_in_request : ℕ
parts_in_request = 3

-- `n` numbers of `width` bytes.
unfoldable pub get_offsets : ℕ → ℕ → Reader (List ℕ)
get_offsets width zero = pure []
get_offsets width (suc n) = do x ← read_uint width; rest ← get_offsets width n; pure (x ∷ rest)

unfoldable pub put_offsets : ℕ → List ℕ → StateBuffer → StateBuffer
put_offsets width [] sb = sb
put_offsets width (x ∷ xs) sb = put_offsets width xs (sb |> write_uint width x)

-- RequestParts32 and RequestParts64 differ in the width of an offset.
unfoldable pub get_request_parts : ℕ → RequestParts → Reader RequestParts
get_request_parts width rp = do
  hash ← read get_hash rp.hash
  begins ← get_offsets width parts_in_request
  ends ← get_offsets width parts_in_request
  pure (record { hash = hash; begin_offset = begins; end_offset = ends })

unfoldable pub put_request_parts : ℕ → RequestParts → StateBuffer → StateBuffer
put_request_parts width rp sb =
    sb
    |> write (put_hash rp.hash)
    |> put_offsets width rp.begin_offset
    |> put_offsets width rp.end_offset

abbrev pub size_request_parts : ℕ → ℕ
size_request_parts width = size_hash + parts_in_request * width * 2

abbrev pub get_request_parts32 : RequestParts → Reader RequestParts
get_request_parts32 = get_request_parts 4

abbrev pub put_request_parts32 : RequestParts → StateBuffer → StateBuffer
put_request_parts32 = put_request_parts 4

abbrev pub get_request_parts64 : RequestParts → Reader RequestParts
get_request_parts64 = get_request_parts 8

abbrev pub put_request_parts64 : RequestParts → StateBuffer → StateBuffer
put_request_parts64 = put_request_parts 8

pub record SendingPart : Type 0 where
  pub hash : Ed2kHash
  pub begin : ℕ
  pub end : ℕ
  pub extended : Bool

unfoldable pub get_long_ends : SendingPart → Reader SendingPart
get_long_ends sp = do
  begin ← read_num 8 sp.begin
  end ← read_num 8 sp.end
  pure (record sp { begin = begin; end = end })

unfoldable pub get_short_ends : SendingPart → Reader SendingPart
get_short_ends sp = do
  begin ← read_uint 4
  end ← read_uint 4
  pure (record sp { begin = begin; end = end })

unfoldable pub get_sending_part : SendingPart → Reader SendingPart
unfolding get_long_ends get_short_ends
get_sending_part sp = do
  hash ← read get_hash sp.hash
  if sp.extended
      then get_long_ends (record sp { hash = hash })
      else get_short_ends (record sp { hash = hash })

unfoldable pub put_sending_part : SendingPart → StateBuffer → StateBuffer
put_sending_part sp sb =
    if sp.extended
    then (sb |> write (put_hash sp.hash) |> write_uint 8 sp.begin |> write_uint 8 sp.end)
    else (sb
        |> write (put_hash sp.hash)
        |> write_uint 4 (sp.begin % 2 ^ 32)
        |> write_uint 4 (sp.end % 2 ^ 32))

unfoldable pub size_sending_part : SendingPart → ℕ
size_sending_part sp = if sp.extended then 8 * 2 + size_hash else 8 + size_hash

pub record CompressedPart : Type 0 where
  pub hash : Ed2kHash
  pub offset : ℕ
  pub compressed_data_length : ℕ
  pub extended : Bool

unfoldable pub get_compressed_part : CompressedPart → Reader CompressedPart
get_compressed_part cp = do
  hash ← read get_hash cp.hash
  offset ← if cp.extended then read_num 8 cp.offset else read_uint 4
  n ← read_num 4 cp.compressed_data_length
  pure (record cp { hash = hash; offset = offset; compressed_data_length = n })

-- The offset is written in four bytes, whether the part is extended or not.
unfoldable pub put_compressed_part : CompressedPart → StateBuffer → StateBuffer
put_compressed_part cp sb =
    sb
    |> write (put_hash cp.hash)
    |> write_uint 4 (cp.offset % 2 ^ 32)
    |> write_uint 4 cp.compressed_data_length

unfoldable pub size_compressed_part : CompressedPart → ℕ
size_compressed_part cp = (if cp.extended then 8 else 4) + size_hash + 4
