-- ===== src/Proto/BitField/RoundTrip.antt =====
-- proto/bitfield.go: `Get` and `Put`.
use ged2k.Prelude.{
  ℕ, zero, suc, ◌%◌, ◌^◌, ◌<◌, ◌≡◌, refl, sym, ◌∙◌, none, List, [], ◌∷◌, ◌++◌, length, replicate,
  length-replicate, length-append, arith, lt→ltb,
}
use ged2k.Proto.Buffer.{pure, ◌>>=◌, le_bytes, make_buffer, reread, read_slice}
use ged2k.Proto.Buffer.Wire.{
  Reads, Writes, Reads->>=, Reads-map, Reads-by, Reads-pure, Reads-if_ok, Reads-read_uint,
  Reads-read_slice, Reads-Writes, Writes-write_slice, Writes-write_uint, Writes-then, Writes-cong,
  length-le_bytes,
}
use ged2k.Proto.BitField.{
  BitField, bits_to_bytes, get_payload, get_bit_field, put_bit_field, size_bit_field,
}
use ged2k.Proto.BitField.Bits.{BitFieldIsValid}

abbrev pub empty_bit_field : BitField
empty_bit_field = record { bytes = []; bits = 0 }

pub bit_field_bytes : BitField → List ℕ
bit_field_bytes bf = le_bytes 2 bf.bits ++ bf.bytes

get_payload_some :
    (n : ℕ)
    → 0 < n
    → get_payload n empty_bit_field ≡ (
        read_slice (replicate (bits_to_bytes n) 0) >>= λ bytes.
        pure (record { bytes = bytes; bits = n }))
unfolding get_payload
get_payload_some n h = rw (lt→ltb 0 n h)

Reads-get_payload :
    (n : ℕ) (bytes : List ℕ)
    → length bytes ≡ bits_to_bytes n
    → Reads (get_payload n empty_bit_field) bytes (record { bytes = bytes; bits = n })
Reads-get_payload zero [] h = unfold get_payload in Reads-pure (record { bytes = []; bits = 0 })
Reads-get_payload zero (b ∷ bs) h = unfold bits_to_bytes in absurd (omega arith)
Reads-get_payload (suc n) [] h = unfold bits_to_bytes in absurd (omega arith)
Reads-get_payload (suc n) (b ∷ bs) h = Reads-by (get_payload_some (suc n) (omega arith)) refl (
    Reads-map _ (
      Reads-read_slice (replicate (bits_to_bytes (suc n)) 0) (b ∷ bs)
        (length-replicate (bits_to_bytes (suc n)) 0 ∙ sym h) (λ e. cc)))

pub Reads-get_bit_field :
    (bf : BitField)
    → BitFieldIsValid bf
    → bf.bits < 2 ^ 16
    → Reads (get_bit_field empty_bit_field) (bit_field_bytes bf) bf
unfolding get_bit_field bit_field_bytes
Reads-get_bit_field bf v h =
    Reads->>= _ _ (Reads-read_uint 2 bf.bits (omega arith))
      (Reads-if_ok empty_bit_field (Reads-get_payload bf.bits bf.bytes v.filled))

pub Writes-put_bit_field :
    (bf : BitField) → bf.bits < 2 ^ 16 → Writes (put_bit_field bf) (bit_field_bytes bf)
unfolding put_bit_field bit_field_bytes
Writes-put_bit_field bf h =
    Writes-cong (rw fits)
      (Writes-then (Writes-write_uint 2 (bf.bits % 2 ^ 16)) (Writes-write_slice bf.bytes))
  where
    fits : bf.bits % 2 ^ 16 ≡ bf.bits
    fits = omega arith

pub length-bit_field_bytes : (bf : BitField) → length (bit_field_bytes bf) ≡ size_bit_field bf
unfolding bit_field_bytes
length-bit_field_bytes bf =
    omega (arith, length-append (le_bytes 2 bf.bits) bf.bytes, length-le_bytes 2 bf.bits)

-- A well-formed bit field of less than 65536 bits, written to a buffer of its size, reads back into
-- an empty one, without an error and to the end of the buffer.
pub get_bit_field-put_bit_field :
    (bf : BitField)
    → BitFieldIsValid bf
    → bf.bits < 2 ^ 16
    → get_bit_field empty_bit_field (reread (put_bit_field bf (make_buffer (size_bit_field bf))))
      ≡ (bf, record { bytes = bit_field_bytes bf; err = none; pos = size_bit_field bf })
get_bit_field-put_bit_field bf v h =
    rw (length-bit_field_bytes bf) at
      (Reads-Writes (Writes-put_bit_field bf h) (Reads-get_bit_field bf v h))
