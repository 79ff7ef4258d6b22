-- ===== src/Proto/Combiner/Frames.antt =====
-- proto/common.go: what `PacketCombiner.Read` takes from its reader.
use ged2k.Prelude.{
  ℕ, zero, suc, ◌≤◌, ◌≡◌, ◌≢◌, refl, ◌∙◌, ap, ◌==◌, ◌&&◌, Bool, List, [], length, take, drop,
  take_past, ltb, false, ok, panic, arith,
}
use ged2k.Prelude.Int.{pos, dec}
use ged2k.Proto.Basic.{PacketHeader, read_header}
use ged2k.Proto.Combiner.{
  Io, filled, op_packedprot, op_sendingpart, op_sendingpart_i64, op_compressedpart,
  op_compressedpart_i64, ed2k_max_packet_size, bytes_to_read, overwrite, make_data, grow, unpack,
  read_contents, read_sized, read_after_header, read_packet, op_edonkeyprot, op_emuleprot,
}

-- A packet that brings no part of a file.
pub record IsPlain (ph : PacketHeader) : Type 0 where
  pub no_sending : ph.packet ≢ op_sendingpart
  pub no_sending_i64 : ph.packet ≢ op_sendingpart_i64
  pub no_compressed : ph.packet ≢ op_compressedpart
  pub no_compressed_i64 : ph.packet ≢ op_compressedpart_i64

bytes_to_read-plain : (ph : PacketHeader) → IsPlain ph → bytes_to_read ph ≡ dec (pos ph.size)
unfolding bytes_to_read
bytes_to_read-plain ph p =
    rw
      (
        never (ph.protocol == op_edonkeyprot) ph.packet op_sendingpart p.no_sending,
        never (ph.protocol == op_emuleprot) ph.packet op_sendingpart_i64 p.no_sending_i64,
        never (ph.protocol == op_emuleprot) ph.packet op_compressedpart p.no_compressed,
        never (ph.protocol == op_emuleprot) ph.packet op_compressedpart_i64 p.no_compressed_i64,
      )
      refl
  where
    never : (t : Bool) (a b : ℕ) → a ≢ b → (t && (a == b)) ≡ false
    never t a b n = ground arith

-- What was read stands at the front of the buffer.
take-overwrite : (n : ℕ) (bs buffer : List ℕ) → length bs ≡ n → take n (overwrite bs buffer) ≡ bs
unfolding overwrite
take-overwrite n bs buffer e = rw (← e) (take_past bs (drop (length bs) buffer))

module _ {S : Type 0} (io : Io S) where
  -- The reader gives exactly `n` bytes; asked for none it is not called.
  unfoldable pub Delivers : S → ℕ → List ℕ → S → Type 0
  Delivers s zero bs after = (bs ≡ []) × (after ≡ s)
  Delivers s (suc n) bs after = (io.read_full (suc n) s ≡ filled bs after) × (length bs ≡ suc n)

  after_head :
      (old head : List ℕ) (s s1 : S) (ph : PacketHeader)
      → Delivers s 6 head s1
      → read_header head ≡ ok ph
      → read_packet io old s
        ≡ read_sized io ph (bytes_to_read ph) (overwrite head (make_data old)) s1
  unfolding Delivers read_packet read_after_header
  after_head old head s s1 ph d h =
      rw (d.0, read_packet) (rw (take-overwrite 6 head (make_data old) d.1, h) refl)

  -- The reader gives a header of a packet that brings no part of a file and whose size is 0: then
  -- `Read` panics, whatever the combiner has read before.
  pub read_packet_empty :
      (old head : List ℕ) (s s1 : S) (ph : PacketHeader)
      → Delivers s 6 head s1
      → read_header head ≡ ok ph
      → IsPlain ph
      → ph.size ≡ 0
      → read_packet io old s ≡ panic
  unfolding read_sized
  read_packet_empty old head s s1 ph d h p z =
      after_head old head s s1 ph d h ∙ rw (bytes_to_read-plain ph p, z) refl

  read_contents_ok :
      (ph : PacketHeader) (n : ℕ) (body buffer : List ℕ) (s1 s2 : S)
      → ph.protocol ≢ op_packedprot
      → Delivers s1 n body s2
      → (after : List ℕ) × (read_contents io ph n buffer s1
          ≡ record { header = ph; contents = body; failed = false; buffer = after; rest = s2 })
  unfolding Delivers read_contents unpack
  read_contents_ok ph zero body buffer s1 s2 u d =
      (buffer, rw (unpacked ph.protocol op_packedprot u, d.0, d.1) refl)
    where
      unpacked : (a b : ℕ) → a ≢ b → (a == b) ≡ false
      unpacked a b n = ground arith
  read_contents_ok ph (suc n) body buffer s1 s2 u d = (
    overwrite body buffer,
    rw
        (
          d.0,
          read_contents,
          unpacked ph.protocol op_packedprot u,
          take-overwrite (suc n) body buffer d.1,
        )
        refl,
  )
    where
      unpacked : (a b : ℕ) → a ≢ b → (a == b) ≡ false
      unpacked a b n = ground arith

  -- The reader gives the header of a packet that is not packed and brings no part of a file, with a
  -- size of at least 1 and at most 125001, and then one byte less than the size. `Read` returns this
  -- header and exactly these bytes, without an error, and the reader stands behind them.
  pub read_packet_ok :
      (old head body : List ℕ) (s s1 s2 : S) (ph : PacketHeader) (n : ℕ)
      → Delivers s 6 head s1
      → read_header head ≡ ok ph
      → IsPlain ph
      → ph.protocol ≢ op_packedprot
      → ph.size ≡ suc n
      → n ≤ ed2k_max_packet_size
      → Delivers s1 n body s2
      → (after : List ℕ) × (read_packet io old s
          ≡ ok (record { header = ph; contents = body; failed = false; buffer = after; rest = s2 }))
  unfolding read_sized
  read_packet_ok old head body s s1 s2 ph n d h p u z small e =
      let (after, run) =
        read_contents_ok ph n body (grow n (overwrite head (make_data old))) s1 s2 u e in
      (
        after,
        after_head old head s s1 ph d h ∙ rw (asked, fits ed2k_max_packet_size n small, run) refl,
      )
    where
      asked : bytes_to_read ph ≡ pos n
      asked = bytes_to_read-plain ph p ∙ ap (λ k. dec (pos k)) z

      fits : (a b : ℕ) → b ≤ a → ltb a b ≡ false
      fits a b l = ground arith
