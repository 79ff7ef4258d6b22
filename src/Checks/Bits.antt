-- ===== src/Checks/Bits.antt =====
-- proto/bitfield.go on ten bits.
use ged2k.Prelude.{ℕ, ◌≡◌, refl, [], ◌∷◌, ok, ◌&&◌, ltb, arith}
use ged2k.Prelude.Tally.{tally}
use ged2k.Proto.BitField.{BitField, count, resize, bits_to_bytes, div_ceil_int}
use ged2k.Proto.BitField.Bits.{BitFieldIsValid, bit_of}
use ged2k.Proto.BitField.Counting.{count_ok}
use ged2k.Proto.BitField.Sizing.{resize_ok}

abbrev ten_bits : BitField
ten_bits = record { bytes = 0xa5 ∷ 0x40 ∷ []; bits = 10 }

ten_bits-IsValid : BitFieldIsValid ten_bits
unfolding bits_to_bytes div_ceil_int
ten_bits-IsValid = record { filled = refl; in_range = (omega arith, (omega arith, tt)) }

count_ok_example : count ten_bits ≡ ok (tally (bit_of ten_bits) 10)
count_ok_example = count_ok ten_bits ten_bits-IsValid

resize_ok_example :
    (r : BitField) × (resize ten_bits 3 ≡ ok r)
    × BitFieldIsValid r
    × (r.bits ≡ 3)
    × ((j : ℕ) → bit_of r j ≡ (ltb j 3 && bit_of ten_bits j))
resize_ok_example = resize_ok ten_bits 3 (omega arith, (omega arith, tt))
