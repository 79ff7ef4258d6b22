-- ===== src/Proto/BitField.antt =====
-- proto/bitfield.go: a bit set in bytes, the highest bit of a byte first. An index expression out of
-- range panics. `x & 7` is the remainder by 8, and a byte shifted left is cut to 8 bits.
pub mod Bytes
pub mod Bits
pub mod Counting
pub mod Trailing
pub mod Sizing
pub mod RoundTrip
use ged2k.Prelude.{
  ℕ, zero, suc, ◌+◌, ◌-◌, ◌*◌, ◌/◌, ◌%◌, ◌^◌, ◌==◌, bit_and, bit_or, Bool, not, List, [], ◌∷◌, ◌++◌,
  length, take, drop, set, get_elem?, get_or, replicate, Outcome, ok, panic, or_panic, ◌>>=◌, ltb,
  leb, if◌then◌else◌, ◌&&◌,
}
use ged2k.Proto.Buffer
use ged2k.Proto.Buffer.{
  StateBuffer, Reader, pure, ◌|>◌, read_uint16, read_slice, if_ok, write_uint, write_slice,
}

pub record BitField : Type 0 where
  pub bytes : List ℕ
  pub bits : ℕ

unfoldable pub div_ceil_int : ℕ → ℕ → ℕ
div_ceil_int a b = (a + b - 1) / b

unfoldable pub bits_to_bytes : ℕ → ℕ
unfolding div_ceil_int
bits_to_bytes count = div_ceil_int count 8

-- `copy`: as many bytes as both hold.
abbrev pub copy_into : List ℕ → List ℕ → List ℕ
copy_into dst src = take (length dst) src ++ drop (length src) dst

-- `bytes[i] = f(bytes[i])`
unfoldable pub update_byte : List ℕ → ℕ → (ℕ → ℕ) → Outcome (List ℕ)
update_byte bytes i f = do b ← or_panic (get_elem? bytes i); ok (set bytes i (f b))

get_payload : ℕ → BitField → Reader BitField
get_payload sz bf =
    if ltb 0 sz
    then Buffer.◌>>=◌ (read_slice (replicate (bits_to_bytes sz) 0))
        (λ bytes. pure (record { bytes = bytes; bits = sz }))
    else pure (record bf { bits = sz })

unfoldable pub get_bit_field : BitField → Reader BitField
unfolding get_payload
get_bit_field bf = Buffer.◌>>=◌ read_uint16 (λ sz. if_ok bf (get_payload sz bf))

unfoldable pub put_bit_field : BitField → StateBuffer → StateBuffer
put_bit_field bf sb = sb |> write_uint 2 (bf.bits % 2 ^ 16) |> write_slice bf.bytes

abbrev pub size_bit_field : BitField → ℕ
size_bit_field bf = 2 + length bf.bytes

-- Clears the tail bits in the last byte.
unfoldable pub clear_trailing_bits : BitField → Outcome BitField
clear_trailing_bits bf =
    if not (bf.bits % 8 == 0)
    then (do
      bytes ←
          update_byte bf.bytes (bits_to_bytes bf.bits - 1)
            (λ b. bit_and b (0xff * 2 ^ (8 - bf.bits % 8) % 256))
      ok (record bf { bytes = bytes }))
    else ok bf

unfoldable pub resize : BitField → ℕ → Outcome BitField
resize bf bits =
    let fresh : List ℕ = replicate (bits_to_bytes bits) 0 in
    clear_trailing_bits (record { bytes = copy_into fresh bf.bytes; bits = bits })

-- `for i := from; i < to; i++ { bytes[i] = v }`, for `n` rounds.
unfoldable pub fill : ℕ → ℕ → ℕ → List ℕ → Outcome (List ℕ)
fill zero from v bytes = ok bytes
fill (suc n) from v bytes = update_byte bytes from (λ b. v) >>= fill n (suc from) v

-- The bits behind the old size in its last byte.
unfoldable pub fill_last : ℕ → ℕ → List ℕ → Outcome (List ℕ)
fill_last old_size b bytes =
    if not (old_size == 0) && not (b == 0)
    then update_byte bytes (old_size - 1) (λ x. bit_or x (0xff / 2 ^ b))
    else ok bytes

unfoldable pub resize_val : BitField → ℕ → Bool → Outcome BitField
resize_val bf bits val = do
  r ← resize bf bits
  let old_size = bits_to_bytes bf.bits
  let new_size = bits_to_bytes r.bits
  if leb r.bits bf.bits
      then ok r
      else if val
      then (do
        bytes ← fill_last old_size (bf.bits % 8) r.bytes
        more ← fill (new_size - old_size) old_size 0xff bytes
        clear_trailing_bits (record r { bytes = more }))
      else (do
        bytes ← fill (new_size - old_size) old_size 0x00 r.bytes
        ok (record r { bytes = bytes }))

unfoldable pub set_all : BitField → Outcome BitField
set_all bf = clear_trailing_bits (record bf { bytes = replicate (length bf.bytes) 0xff })

unfoldable pub clear_all : BitField → BitField
clear_all bf = record bf { bytes = replicate (length bf.bytes) 0x00 }

-- The slice expression `b[:n]` panics past the capacity, here taken to be the length.
unfoldable pub assign : BitField → List ℕ → ℕ → Outcome BitField
assign bf b c = do
  r ← resize bf c
  if ltb (length b) (bits_to_bytes c)
      then panic
      else clear_trailing_bits (record r { bytes = copy_into r.bytes (take (bits_to_bytes c) b) })

unfoldable pub get_bit : BitField → ℕ → Outcome Bool
get_bit bf index = do
  b ← or_panic (get_elem? bf.bytes (index / 8))
  ok (not (bit_and b (0x80 / 2 ^ (index % 8)) == 0))

unfoldable pub clear_bit : BitField → ℕ → Outcome BitField
clear_bit bf index = do
  bytes ← update_byte bf.bytes (index / 8) (λ b. bit_and b (0xff - 0x80 / 2 ^ (index % 8)))
  ok (record bf { bytes = bytes })

unfoldable pub set_bit : BitField → ℕ → Outcome BitField
set_bit bf index = do
  bytes ← update_byte bf.bytes (index / 8) (λ b. bit_or b (0x80 / 2 ^ (index % 8)))
  ok (record bf { bytes = bytes })

abbrev pub num_bits : List ℕ
num_bits = 0 ∷ 1 ∷ 1 ∷ 2 ∷ 1 ∷ 2 ∷ 2 ∷ 3 ∷ 1 ∷ 2 ∷ 2 ∷ 3 ∷ 2 ∷ 3 ∷ 3 ∷ 4 ∷ []

-- The second loop of `Count`, over the first `rest` bits of a byte.
unfoldable pub count_rest : ℕ → ℕ → ℕ → ℕ
count_rest zero i b = 0
count_rest (suc rest) i b = b / 2 ^ (7 - i) % 2 + count_rest rest (suc i) b

unfoldable pub count_last : ℕ → List ℕ → Outcome ℕ
count_last zero bytes = ok 0
count_last (suc rest) [] = panic
count_last (suc rest) (b ∷ bytes) = ok (count_rest (suc rest) 0 b)

-- The first loop, over the whole bytes; then the bits that are left.
unfoldable pub count_bytes : ℕ → ℕ → List ℕ → Outcome ℕ
count_bytes zero rest bytes = count_last rest bytes
count_bytes (suc n) rest [] = panic
count_bytes (suc n) rest (b ∷ bytes) = do
  more ← count_bytes n rest bytes
  ok (get_or num_bits (bit_and b 0xf) 0 + get_or num_bits (b / 2 ^ 4) 0 + more)

unfoldable pub count : BitField → Outcome ℕ
count bf = count_bytes (bf.bits / 8) (bf.bits - bf.bits / 8 * 8) bf.bytes

unfoldable pub create_bit_field : ℕ → Outcome BitField
create_bit_field bits_count =
    clear_trailing_bits
      (record { bytes = replicate (bits_to_bytes bits_count) 0; bits = bits_count })

-- Values are not shared in the model, so a clone is the value.
unfoldable pub clone_bit_field : BitField → BitField
clone_bit_field src = record {
  bytes = copy_into (replicate (length src.bytes) 0) src.bytes;
  bits = src.bits;
}
