-- ===== src/Proto/Combiner.antt =====
-- proto/common.go: `PacketCombiner`, which takes packets from a reader. The reader and the package zlib
-- are parameters.
pub mod Frames
use ged2k.Prelude.{
  ℕ, zero, suc, ◌+◌, ◌*◌, ◌==◌, ◌&&◌, ltb, if◌then◌else◌, Bool, true, false, Option, none, some,
  List, [], ◌++◌, length, take, drop, replicate, Outcome, ok, panic, ◌>>=◌,
}
use ged2k.Prelude.Int.{ℤ, pos, negsuc, dec}
use ged2k.Proto.Basic.{PacketHeader, empty_header, read_header}
use ged2k.Proto.Parts.{size_sending_part, SendingPart, CompressedPart, size_compressed_part}
use ged2k.Proto.Basic.{zero_hash}

abbrev pub op_edonkeyprot : ℕ
op_edonkeyprot = 0xe3

abbrev pub op_packedprot : ℕ
op_packedprot = 0xd4

abbrev pub op_emuleprot : ℕ
op_emuleprot = 0xc5

abbrev pub op_sendingpart : ℕ
op_sendingpart = 0x46

abbrev pub op_sendingpart_i64 : ℕ
op_sendingpart_i64 = 0xa2

abbrev pub op_compressedpart : ℕ
op_compressedpart = 0x40

abbrev pub op_compressedpart_i64 : ℕ
op_compressedpart_i64 = 0xa1

abbrev pub ed2k_max_packet_size : ℕ
ed2k_max_packet_size = 125000

-- io.ReadFull into so many bytes: it fills them, or ends with an error after a part of them.
pub data ReadFull (S : Type 0) : Type 0 where
  filled : List ℕ → S → ReadFull S
  short : List ℕ → S → ReadFull S

pub record Io (S : Type 0) : Type 0 where
  pub read_full : ℕ → S → ReadFull S
  pub unzip : List ℕ → Option (List ℕ)

-- The three values that `Read` returns, the combiner's buffer and the reader after. A buffer that was
-- not made yet is empty.
pub record Combined (S : Type 0) : Type 0 where
  pub header : PacketHeader
  pub contents : List ℕ
  pub failed : Bool
  pub buffer : List ℕ
  pub rest : S

abbrev sending : Bool → SendingPart
sending extended = record { hash = zero_hash; begin = 0; end = 0; extended = extended }

abbrev compressed : Bool → CompressedPart
compressed extended = record {
  hash = zero_hash;
  offset = 0;
  compressed_data_length = 0;
  extended = extended;
}

-- How many bytes belong to the packet. The parts of files are read without their contents.
unfoldable pub bytes_to_read : PacketHeader → ℤ
bytes_to_read ph =
    if ph.protocol == op_edonkeyprot && ph.packet == op_sendingpart
    then pos (size_sending_part (sending false))
    else if ph.protocol == op_emuleprot && ph.packet == op_sendingpart_i64
    then pos (size_sending_part (sending true))
    else if ph.protocol == op_emuleprot && ph.packet == op_compressedpart
    then pos (size_compressed_part (compressed false))
    else if ph.protocol == op_emuleprot && ph.packet == op_compressedpart_i64
    then pos (size_compressed_part (compressed true))
    else dec (pos ph.size)

-- Bytes at the front of the buffer.
unfoldable pub overwrite : List ℕ → List ℕ → List ℕ
overwrite bs buffer = bs ++ drop (length bs) buffer

unfoldable pub make_data : List ℕ → List ℕ
make_data buffer = if length buffer == 0 then replicate 6 0 else buffer

unfoldable pub grow : ℕ → List ℕ → List ℕ
grow n buffer =
    if ltb (length buffer) n
    then (if ltb (length buffer * 2) n then replicate n 0 else replicate (length buffer * 2) 0)
    else buffer

module _ {S : Type 0} (io : Io S) where
  unfoldable pub fail : PacketHeader → List ℕ → S → Combined S
  fail ph buffer s = record {
    header = ph;
    contents = take 6 buffer;
    failed = true;
    buffer = buffer;
    rest = s;
  }

  -- A packed packet is replaced by its unpacked bytes. `contents` is the front of the buffer.
  unfoldable pub unpack : PacketHeader → List ℕ → List ℕ → S → Combined S
  unpack ph contents buffer s =
      if ph.protocol == op_packedprot
      then (elim (io.unzip contents) [
        | none ↦ fail ph buffer s
        | some unzipped ↦ record {
          header = record ph { size = length unzipped };
          contents = unzipped;
          failed = false;
          buffer = buffer;
          rest = s;
        }
      ])
      else record { header = ph; contents = contents; failed = false; buffer = buffer; rest = s }

  unfoldable pub read_contents : PacketHeader → ℕ → List ℕ → S → Combined S
  read_contents ph zero buffer s = unpack ph [] buffer s
  read_contents ph (suc n) buffer s = elim (io.read_full (suc n) s) [
    | short bs s' ↦ fail ph (overwrite bs buffer) s'
    | filled bs s' ↦ unpack ph (take (suc n) (overwrite bs buffer)) (overwrite bs buffer) s'
  ]

  -- A negative number of bytes cannot be sliced.
  unfoldable pub read_sized : PacketHeader → ℤ → List ℕ → S → Outcome (Combined S)
  read_sized ph (negsuc n) buffer s = panic
  read_sized ph (pos n) buffer s = ok (
      if ltb ed2k_max_packet_size n
      then fail empty_header buffer s
      else read_contents ph n (grow n buffer) s)

  unfoldable pub read_after_header : List ℕ → S → Outcome (Combined S)
  read_after_header buffer s = do
    ph ← read_header (take 6 buffer)
    read_sized ph (bytes_to_read ph) buffer s

  -- On a short read `Read` returns the whole buffer.
  unfoldable pub read_packet : List ℕ → S → Outcome (Combined S)
  read_packet old s =
      let buffer = make_data old in
      elim (io.read_full 6 s) [
        | short bs s' ↦ ok (record {
          header = empty_header;
          contents = overwrite bs buffer;
          failed = true;
          buffer = overwrite bs buffer;
          rest = s';
        })
        | filled bs s' ↦ read_after_header (overwrite bs buffer) s'
      ]
