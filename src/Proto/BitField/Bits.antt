-- ===== src/Proto/BitField/Bits.antt =====
-- proto/bitfield.go: `GetBit`, `SetBit` and `ClearBit` as operations on a sequence of bits.
use ged2k.Prelude.{
  ℕ, ◌-◌, ◌/◌, ◌%◌, ◌^◌, ◌<◌, ◌≡◌, ◌≢◌, refl, sym, ap, ◌∙◌, bit_and, bit_or, Bool, false, not, ◌&&◌,
  ◌||◌, ◌==◌, List, length, get_or, set, All, All-get_or, All-set, length-set, get_or-set_self,
  get_or-set_ne, get_elem?-get_or, ok, ◌>>=◌, arith,
}
use native.Mathlib.Decide.{ℕ_discrete}
use ged2k.Proto.BitField.{BitField, bits_to_bytes, update_byte, get_bit, set_bit, clear_bit}
use ged2k.Proto.BitField.Bytes.{bit, masks}

abbrev pub IsByte : ℕ → Type 0
IsByte b = b < 256

-- As many bytes as the bits need.
pub record BitFieldIsValid (bf : BitField) : Type 0 where
  pub filled : length bf.bytes ≡ bits_to_bytes bf.bits
  pub in_range : All IsByte bf.bytes

-- The bit at a position, false behind the last byte.
unfoldable pub bit_at : List ℕ → ℕ → Bool
bit_at bytes i = bit (get_or bytes (i / 8) 0) (i % 8)

abbrev pub bit_of : BitField → ℕ → Bool
bit_of bf i = bit_at bf.bytes i

byte_of : (bf : BitField) (i : ℕ) → BitFieldIsValid bf → i < bf.bits → i / 8 < length bf.bytes
unfolding bits_to_bytes
byte_of bf i v h = omega (arith, v.filled)

pub byte-IsByte : (bytes : List ℕ) (i : ℕ) → All IsByte bytes → get_or bytes i 0 < 256
byte-IsByte bytes i h = All-get_or IsByte bytes i 0 h (omega arith)

-- `bytes[i] = f(bytes[i])` where the index is in range.
pub update_byte_ok :
    (bytes : List ℕ) (i : ℕ) (f : ℕ → ℕ)
    → i < length bytes
    → update_byte bytes i f ≡ ok (set bytes i (f (get_or bytes i 0)))
unfolding update_byte
update_byte_ok bytes i f h = rw (get_elem?-get_or bytes i 0 h)

pub get_bit_ok :
    (bf : BitField) (i : ℕ) → BitFieldIsValid bf → i < bf.bits → get_bit bf i ≡ ok (bit_of bf i)
unfolding get_bit bit_at
get_bit_ok bf i v h = rw (get_elem?-get_or bf.bytes (i / 8) 0 (byte_of bf i v h)) (
    ap ok
      (masks (get_or bf.bytes (i / 8) 0) (i % 8) 0 (byte-IsByte bf.bytes (i / 8) v.in_range)
        (omega arith) (omega arith)).0)

-- The bit fields that `SetBit` and `ClearBit` leave.
unfoldable pub with_bit : BitField → ℕ → BitField
with_bit bf i = record bf {
  bytes = set bf.bytes (i / 8) (bit_or (get_or bf.bytes (i / 8) 0) (0x80 / 2 ^ (i % 8)));
}

unfoldable pub without_bit : BitField → ℕ → BitField
without_bit bf i = record bf {
  bytes = set bf.bytes (i / 8) (bit_and (get_or bf.bytes (i / 8) 0) (0xff - 0x80 / 2 ^ (i % 8)));
}

pub set_bit_ok :
    (bf : BitField) (i : ℕ) → BitFieldIsValid bf → i < bf.bits → set_bit bf i ≡ ok (with_bit bf i)
unfolding set_bit with_bit
set_bit_ok bf i v h = rw (update_byte_ok bf.bytes (i / 8) _ (byte_of bf i v h))

pub clear_bit_ok :
    (bf : BitField) (i : ℕ)
    → BitFieldIsValid bf
    → i < bf.bits
    → clear_bit bf i ≡ ok (without_bit bf i)
unfolding clear_bit without_bit
clear_bit_ok bf i v h = rw (update_byte_ok bf.bytes (i / 8) _ (byte_of bf i v h))

same_byte : (i j : ℕ) → i / 8 ≡ j / 8 → (i % 8 == j % 8) ≡ (i == j)
same_byte i j p = ground arith

other_byte : (i j : ℕ) → i / 8 ≢ j / 8 → (i == j) ≡ false
other_byte i j n = ground arith

-- What a write of one byte does to the bits, if it changes bit `i % 8` by `f` and no other.
bit_at-set :
    (bytes : List ℕ) (i j v : ℕ) (f : Bool → Bool → Bool)
    → i / 8 < length bytes
    → (bit v (j % 8) ≡ f (i % 8 == j % 8) (bit (get_or bytes (i / 8) 0) (j % 8)))
    → ((x : Bool) → f false x ≡ x)
    → bit_at (set bytes (i / 8) v) j ≡ f (i == j) (bit_at bytes j)
unfolding bit_at
bit_at-set bytes i j v f h e keep = elim (ℕ_discrete (i / 8) (j / 8)) [
  | yes p ↦ rw (← p, get_or-set_self bytes (i / 8) v 0 h, e, same_byte i j p)
  | no n ↦
      rw (get_or-set_ne bytes (i / 8) (j / 8) v 0 n, other_byte i j n)
        (sym (keep (bit (get_or bytes (j / 8) 0) (j % 8))))
]

pub bit_of-with_bit :
    (bf : BitField) (i j : ℕ)
    → BitFieldIsValid bf
    → i < bf.bits
    → bit_of (with_bit bf i) j ≡ (i == j || bit_of bf j)
unfolding with_bit
bit_of-with_bit bf i j v h =
    bit_at-set bf.bytes i j _ ◌||◌ (byte_of bf i v h)
      (masks (get_or bf.bytes (i / 8) 0) (i % 8) (j % 8) (byte-IsByte bf.bytes (i / 8) v.in_range)
        (omega arith) (omega arith)).1
      (λ x. refl)

pub bit_of-without_bit :
    (bf : BitField) (i j : ℕ)
    → BitFieldIsValid bf
    → i < bf.bits
    → bit_of (without_bit bf i) j ≡ (not (i == j) && bit_of bf j)
unfolding without_bit
bit_of-without_bit bf i j v h =
    bit_at-set bf.bytes i j _ (λ x y. not x && y) (byte_of bf i v h)
      (masks (get_or bf.bytes (i / 8) 0) (i % 8) (j % 8) (byte-IsByte bf.bytes (i / 8) v.in_range)
        (omega arith) (omega arith)).2
      (λ x. refl)

pub with_bit-IsValid :
    (bf : BitField) (i : ℕ) → BitFieldIsValid bf → BitFieldIsValid (with_bit bf i)
unfolding with_bit
with_bit-IsValid bf i v = record {
  filled = length-set bf.bytes (i / 8) _ ∙ v.filled;
  in_range =
      All-set IsByte bf.bytes (i / 8) _ v.in_range
        (masks (get_or bf.bytes (i / 8) 0) (i % 8) 0 (byte-IsByte bf.bytes (i / 8) v.in_range)
          (omega arith) (omega arith)).3;
}

pub without_bit-IsValid :
    (bf : BitField) (i : ℕ) → BitFieldIsValid bf → BitFieldIsValid (without_bit bf i)
unfolding without_bit
without_bit-IsValid bf i v = record {
  filled = length-set bf.bytes (i / 8) _ ∙ v.filled;
  in_range =
      All-set IsByte bf.bytes (i / 8) _ v.in_range
        (masks (get_or bf.bytes (i / 8) 0) (i % 8) 0 (byte-IsByte bf.bytes (i / 8) v.in_range)
          (omega arith) (omega arith)).4;
}

pub bits-with_bit : (bf : BitField) (i : ℕ) → (with_bit bf i).bits ≡ bf.bits
unfolding with_bit
bits-with_bit bf i = refl

pub bits-without_bit : (bf : BitField) (i : ℕ) → (without_bit bf i).bits ≡ bf.bits
unfolding without_bit
bits-without_bit bf i = refl

-- After `SetBit` at a position in range every `GetBit` in range returns, and answers true at that
-- position and what it answered before at every other.
pub get_bit-set_bit :
    (bf : BitField) (i j : ℕ)
    → BitFieldIsValid bf
    → i < bf.bits
    → j < bf.bits
    → (set_bit bf i >>= λ r. get_bit r j) ≡ (get_bit bf j >>= λ old. ok (i == j || old))
get_bit-set_bit bf i j v h k = rw (
  set_bit_ok bf i v h,
  get_bit_ok bf j v k,
  get_bit_ok (with_bit bf i) j (with_bit-IsValid bf i v) (unfold with_bit in k),
  bit_of-with_bit bf i j v h,
)

-- After `ClearBit` at a position in range every `GetBit` in range returns, and answers false at that
-- position and what it answered before at every other.
pub get_bit-clear_bit :
    (bf : BitField) (i j : ℕ)
    → BitFieldIsValid bf
    → i < bf.bits
    → j < bf.bits
    → (clear_bit bf i >>= λ r. get_bit r j) ≡ (get_bit bf j >>= λ old. ok (not (i == j) && old))
get_bit-clear_bit bf i j v h k = rw (
  clear_bit_ok bf i v h,
  get_bit_ok bf j v k,
  get_bit_ok (without_bit bf i) j (without_bit-IsValid bf i v) (unfold without_bit in k),
  bit_of-without_bit bf i j v h,
)
