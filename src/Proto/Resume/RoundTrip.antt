-- ===== src/Proto/Resume/RoundTrip.antt =====
-- proto/transfer.go: `AddTransferParameters` on the wire.
use ged2k.Prelude.{
  ℕ, ◌%◌, ◌^◌, ◌<◌, ◌≤◌, ◌≡◌, ◌≢◌, refl, ap, ◌||◌, none, false, List, [], ◌∷◌, ◌++◌, length,
  length-append, ltb, arith,
}
use mathlib.Core.List.{append_assoc, append-nil}
use ged2k.Proto.Buffer.{le_bytes, make_buffer, reread}
use ged2k.Proto.Buffer.Wire.{
  Reads, Writes, Reads->>=, Reads-map, Reads-by, Reads-pure, Reads-read, Reads-read_uint,
  Reads-read_num, Reads-Writes, Writes-write_uint, Writes-write, Writes-then, Writes-cong,
  Writes-none, length-le_bytes,
}
use ged2k.Proto.Basic.{get_byte_container}
use ged2k.Proto.Basic.RoundTrip.{
  byte_container_bytes, Reads-get_byte_container, Writes-put_byte_container,
  length-byte_container_bytes,
}
use ged2k.Proto.BitField.{BitField, get_bit_field}
use ged2k.Proto.BitField.Bits.{BitFieldIsValid}
use ged2k.Proto.BitField.RoundTrip.{
  empty_bit_field, bit_field_bytes, Reads-get_bit_field, Writes-put_bit_field,
  length-bit_field_bytes,
}
use ged2k.Proto.Tags.{max_elems}
use ged2k.Proto.Packets.{get_hash_set}
use ged2k.Proto.Packets.Hashes.{
  HashSetIsValid, empty_hash_set, hash_set_bytes, Reads-get_hash_set, Writes-put_hash_set,
  length-hash_set_bytes,
}
use ged2k.Proto.Resume.{
  BlockMap, AddTransferParameters, has_key, assign_key, get_blocks, get_block_map, get_add_transfer,
  put_blocks, put_add_transfer, size_blocks, size_add_transfer,
}

abbrev pub FieldFits : BitField → Type 0
FieldFits bf = BitFieldIsValid bf × (bf.bits < 2 ^ 16)

-- No key stands twice.
unfoldable pub DistinctKeys : BlockMap → Type 0
DistinctKeys [] = Unit
DistinctKeys ((i, x) ∷ rest) = (has_key i rest ≡ false) × DistinctKeys rest

unfoldable pub EntriesFit : BlockMap → Type 0
EntriesFit [] = Unit
EntriesFit ((i, x) ∷ rest) = (i < 2 ^ 32) × FieldFits x × EntriesFit rest

pub record ParametersAreValid (atp : AddTransferParameters) : Type 0 where
  pub hashes_valid : HashSetIsValid atp.hashes
  pub has_name : atp.filename ≢ []
  pub name_fits : length atp.filename < 2 ^ 16
  pub filesize_fits : atp.filesize < 2 ^ 64
  pub pieces_fit : FieldFits atp.pieces
  pub few : length atp.downloaded_blocks ≤ max_elems
  pub entries_fit : EntriesFit atp.downloaded_blocks
  pub distinct : DistinctKeys atp.downloaded_blocks

abbrev pub empty_parameters : AddTransferParameters
empty_parameters = record {
  hashes = empty_hash_set;
  filename = [];
  filesize = 0;
  pieces = empty_bit_field;
  downloaded_blocks = [];
}

blocks_bytes : BlockMap → List ℕ
blocks_bytes [] = []
blocks_bytes ((i, x) ∷ rest) = le_bytes 4 i ++ (bit_field_bytes x ++ blocks_bytes rest)

pub parameters_bytes : AddTransferParameters → List ℕ
parameters_bytes atp =
    hash_set_bytes atp.hashes
    ++ (byte_container_bytes atp.filename
        ++ (le_bytes 8 atp.filesize
            ++ (bit_field_bytes atp.pieces
                ++ (le_bytes 2 (length atp.downloaded_blocks)
                    ++ blocks_bytes atp.downloaded_blocks))))

pub assign_key_new :
    (i : ℕ) (bf : BitField) (m : BlockMap)
    → has_key i m ≡ false
    → assign_key i bf m ≡ m ++ ((i, bf) ∷ [])
unfolding has_key assign_key
assign_key_new i bf [] h = refl
assign_key_new i bf ((j, x) ∷ rest) h = ground (arith, assign_key_new i bf rest)

pub has_key-append :
    (j : ℕ) (m rest : BlockMap) → has_key j (m ++ rest) ≡ (has_key j m || has_key j rest)
unfolding has_key
has_key-append j [] rest = refl
has_key-append j ((k, x) ∷ m) rest = ground (arith, has_key-append j m rest)

-- The keys before an entry are others.
pub key_before :
    (i : ℕ) (bf : BitField) (m rest : BlockMap)
    → DistinctKeys (m ++ ((i, bf) ∷ rest))
    → has_key i m ≡ false
unfolding DistinctKeys has_key
key_before i bf [] rest d = refl
key_before i bf ((j, x) ∷ m) rest d =
    ground (arith, d.0, has_key-append j m ((i, bf) ∷ rest), key_before i bf m rest d.1)

Reads-get_blocks :
    (m bs : BlockMap)
    → EntriesFit bs
    → DistinctKeys (m ++ bs)
    → Reads (get_blocks (length bs) m) (blocks_bytes bs) (m ++ bs)
unfolding get_blocks blocks_bytes EntriesFit
Reads-get_blocks m [] v d = rw append-nil (Reads-pure m)
Reads-get_blocks m ((i, x) ∷ rest) (fits, field, v) d = Reads->>= _ _ (Reads-read_uint 4 i fits) (
    Reads->>= _ _ (Reads-read get_bit_field (Reads-get_bit_field x field.0 field.1)) (
      rw (assign_key_new i x m (key_before i x m rest d)) (
        Reads-by refl (append_assoc m ((i, x) ∷ []) rest) (
          Reads-get_blocks (m ++ ((i, x) ∷ [])) rest v
            (rw (append_assoc m ((i, x) ∷ []) rest) d)))))

Writes-put_blocks : (bs : BlockMap) → EntriesFit bs → Writes (put_blocks bs) (blocks_bytes bs)
unfolding put_blocks blocks_bytes EntriesFit
Writes-put_blocks [] v = Writes-none
Writes-put_blocks ((i, x) ∷ rest) (fits, field, v) =
    Writes-then
      (Writes-cong (ap (le_bytes 4) (omega (arith, fits))) (Writes-write_uint 4 (i % 2 ^ 32)))
      (Writes-then (Writes-write (Writes-put_bit_field x field.1)) (Writes-put_blocks rest v))

length-blocks_bytes : (bs : BlockMap) → length (blocks_bytes bs) ≡ size_blocks bs
unfolding blocks_bytes size_blocks
length-blocks_bytes [] = refl
length-blocks_bytes ((i, x) ∷ rest) = omega (
  arith,
  length-append (le_bytes 4 i) (bit_field_bytes x ++ blocks_bytes rest),
  length-append (bit_field_bytes x) (blocks_bytes rest),
  length-le_bytes 4 i,
  length-bit_field_bytes x,
  length-blocks_bytes rest,
)

Reads-get_block_map :
    (atp : AddTransferParameters)
    → ParametersAreValid atp
    → Reads
        (get_block_map (length atp.downloaded_blocks) (record atp { downloaded_blocks = [] }))
        (blocks_bytes atp.downloaded_blocks)
        atp
unfolding get_block_map
Reads-get_block_map atp v =
    let few : ltb max_elems (length atp.downloaded_blocks) ≡ false = ground (arith, v.few) in
    rw few (Reads-map _ (Reads-get_blocks [] atp.downloaded_blocks v.entries_fit v.distinct))

Reads-get_add_transfer :
    (atp : AddTransferParameters)
    → ParametersAreValid atp
    → Reads (get_add_transfer empty_parameters) (parameters_bytes atp) atp
unfolding get_add_transfer parameters_bytes
Reads-get_add_transfer atp v =
    Reads->>= _ _ (Reads-read get_hash_set (Reads-get_hash_set atp.hashes v.hashes_valid)) (
      Reads->>= _ _
        (Reads-read get_byte_container
          (Reads-get_byte_container [] atp.filename v.has_name v.name_fits))
        (Reads->>= _ _ (Reads-read_num 8 0 atp.filesize (omega (arith, v.filesize_fits))) (
          Reads->>= _ _
            (Reads-read get_bit_field
              (Reads-get_bit_field atp.pieces v.pieces_fit.0 v.pieces_fit.1))
            (Reads->>= _ _ (Reads-read_uint 2 (length atp.downloaded_blocks) (omega (arith, v.few)))
              (Reads-get_block_map atp v)))))

Writes-put_add_transfer :
    (atp : AddTransferParameters)
    → ParametersAreValid atp
    → Writes (put_add_transfer atp) (parameters_bytes atp)
unfolding put_add_transfer parameters_bytes
Writes-put_add_transfer atp v =
    Writes-then (Writes-write (Writes-put_hash_set atp.hashes v.hashes_valid)) (
      Writes-then (Writes-write (Writes-put_byte_container atp.filename v.name_fits)) (
        Writes-then (Writes-write_uint 8 atp.filesize) (
          Writes-then (Writes-write (Writes-put_bit_field atp.pieces v.pieces_fit.1)) (
            Writes-then
              (Writes-cong (ap (le_bytes 2) (omega (arith, v.few)))
                (Writes-write_uint 2 (length atp.downloaded_blocks % 2 ^ 16)))
              (Writes-put_blocks atp.downloaded_blocks v.entries_fit)))))

length-parameters_bytes :
    (atp : AddTransferParameters)
    → ParametersAreValid atp
    → length (parameters_bytes atp) ≡ size_add_transfer atp
unfolding parameters_bytes size_add_transfer
length-parameters_bytes atp v =
    let five : List ℕ =
      le_bytes 2 (length atp.downloaded_blocks) ++ blocks_bytes atp.downloaded_blocks in
    let four : List ℕ = bit_field_bytes atp.pieces ++ five in
    let three : List ℕ = le_bytes 8 atp.filesize ++ four in
    let two : List ℕ = byte_container_bytes atp.filename ++ three in
    omega (
      arith,
      length-append (hash_set_bytes atp.hashes) two,
      length-append (byte_container_bytes atp.filename) three,
      length-append (le_bytes 8 atp.filesize) four,
      length-append (bit_field_bytes atp.pieces) five,
      length-append (le_bytes 2 (length atp.downloaded_blocks))
          (blocks_bytes atp.downloaded_blocks),
      length-hash_set_bytes atp.hashes v.hashes_valid,
      length-byte_container_bytes atp.filename,
      length-le_bytes 8 atp.filesize,
      length-bit_field_bytes atp.pieces,
      length-le_bytes 2 (length atp.downloaded_blocks),
      length-blocks_bytes atp.downloaded_blocks,
    )

-- The parameters of a transfer, with a name that is not empty, valid hashes and bit fields, numbers in
-- the range of their fields, and at most 1000 pieces in progress under different numbers, written to a
-- buffer of their size, read back into empty ones, without an error and to the end.
pub get_add_transfer-put_add_transfer :
    (atp : AddTransferParameters)
    → ParametersAreValid atp
    → get_add_transfer empty_parameters
        (reread (put_add_transfer atp (make_buffer (size_add_transfer atp))))
      ≡ (atp, record { bytes = parameters_bytes atp; err = none; pos = size_add_transfer atp })
get_add_transfer-put_add_transfer atp v =
    rw (length-parameters_bytes atp v) at
      (Reads-Writes (Writes-put_add_transfer atp v) (Reads-get_add_transfer atp v))
