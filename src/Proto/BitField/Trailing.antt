-- ===== src/Proto/BitField/Trailing.antt =====
-- proto/bitfield.go: `ClearTrailingBits`.
use ged2k.Prelude.{
  ℕ, ◌-◌, ◌*◌, ◌/◌, ◌%◌, ◌^◌, ◌<◌, ◌≤◌, ◌≡◌, ◌≢◌, ◌∙◌, false, ◌&&◌, ◌==◌, ltb, List, length, get_or,
  set, All-set, length-set, get_or-set_self, get_or-set_ne, get_or_beyond, ==_iff, ok, arith,
  bit_and, Bool-cases, inl, inr, if◌then◌else◌,
}
use native.Mathlib.Decide.{ℕ_discrete}
use ged2k.Proto.BitField.{BitField, bits_to_bytes, clear_trailing_bits}
use ged2k.Proto.BitField.Bytes.{bit, tails, bit-zero}
use ged2k.Proto.BitField.Bits.{IsByte, BitFieldIsValid, bit_at, bit_of, byte-IsByte, update_byte_ok}

abbrev last_mask : ℕ → ℕ
last_mask r = 0xff * 2 ^ (8 - r) % 256

pub trim : BitField → BitField
trim bf = if bf.bits % 8 == 0 then bf else record bf {
  bytes =
      set bf.bytes (bf.bits / 8)
        (bit_and (get_or bf.bytes (bf.bits / 8) 0) (last_mask (bf.bits % 8)));
}

last_byte : (n : ℕ) → n % 8 ≢ 0 → bits_to_bytes n - 1 ≡ n / 8
unfolding bits_to_bytes
last_byte n h = omega arith

last_in_range :
    (bf : BitField) → BitFieldIsValid bf → bf.bits % 8 ≢ 0 → bf.bits / 8 < length bf.bytes
unfolding bits_to_bytes
last_in_range bf v h = omega (arith, v.filled)

pub clear_trailing_bits_ok :
    (bf : BitField) → BitFieldIsValid bf → clear_trailing_bits bf ≡ ok (trim bf)
unfolding clear_trailing_bits trim
clear_trailing_bits_ok bf v = elim (ℕ_discrete (bf.bits % 8) 0) [
  | yes p ↦ ground arith
  | no n ↦ ground (
    arith,
    last_byte bf.bits n,
    update_byte_ok bf.bytes (bf.bits / 8) (λ b. bit_and b (last_mask (bf.bits % 8)))
        (last_in_range bf v n),
  )
]

trim_whole : (bf : BitField) → bf.bits % 8 ≡ 0 → trim bf ≡ bf
unfolding trim
trim_whole bf e = rw ((==_iff (bf.bits % 8) 0).1 e)

cut_last : BitField → List ℕ
cut_last bf =
    set bf.bytes (bf.bits / 8) (bit_and (get_or bf.bytes (bf.bits / 8) 0) (last_mask (bf.bits % 8)))

trim_cut : (bf : BitField) → bf.bits % 8 ≢ 0 → trim bf ≡ record bf { bytes = cut_last bf }
unfolding trim cut_last
trim_cut bf n = ground arith

last_tail :
    (bf : BitField) (j : ℕ)
    → BitFieldIsValid bf
    → j < 8
    → let b = get_or bf.bytes (bf.bits / 8) 0 in
      (bit (bit_and b (last_mask (bf.bits % 8))) j ≡ (ltb j (bf.bits % 8) && bit b j))
      × (bit_and b (last_mask (bf.bits % 8)) < 256)
last_tail bf j v h =
    let (here, _, fits, _) =
      tails (get_or bf.bytes (bf.bits / 8) 0) (bf.bits % 8) j
        (byte-IsByte bf.bytes (bf.bits / 8) v.in_range) (omega arith) h in
    (here, fits)

pub trim-IsValid : (bf : BitField) → BitFieldIsValid bf → BitFieldIsValid (trim bf)
trim-IsValid bf v = elim (ℕ_discrete (bf.bits % 8) 0) [
  | yes p ↦ rw (trim_whole bf p) v
  | no n ↦ rw (trim_cut bf n) (
      unfold cut_last in
      record {
        filled = length-set bf.bytes (bf.bits / 8) _ ∙ v.filled;
        in_range =
            All-set IsByte bf.bytes (bf.bits / 8) _ v.in_range (last_tail bf 0 v (omega arith)).1;
      })
]

pub bits-trim : (bf : BitField) → (trim bf).bits ≡ bf.bits
unfolding trim
bits-trim bf = ground arith

bit_at_beyond : (bytes : List ℕ) (j : ℕ) → length bytes ≤ j / 8 → bit_at bytes j ≡ false
unfolding bit_at
bit_at_beyond bytes j h = rw (get_or_beyond bytes (j / 8) 0 h) (bit-zero (j % 8))

same_test : (i j : ℕ) → i / 8 ≡ j / 8 → ltb (j % 8) (i % 8) ≡ ltb j i
same_test i j p = ground arith

untouched :
    (bf : BitField) (j : ℕ)
    → (bf.bits ≤ j → length bf.bytes ≤ j / 8)
    → bit_of bf j ≡ (ltb j bf.bits && bit_of bf j)
untouched bf j h = elim (Bool-cases (ltb j bf.bits)) [
  | inl e ↦ rw e
  | inr e ↦ rw e (bit_at_beyond bf.bytes j (h (ground arith)))
]

whole_size : (n j : ℕ) → n % 8 ≡ 0 → n ≤ j → bits_to_bytes n ≤ j / 8
unfolding bits_to_bytes
whole_size n j p h = omega arith

cut_size : (n j : ℕ) → n / 8 ≢ j / 8 → n ≤ j → bits_to_bytes n ≤ j / 8
unfolding bits_to_bytes
cut_size n j q h = omega arith

bit_at-cut_last :
    (bf : BitField) (j : ℕ)
    → BitFieldIsValid bf
    → bf.bits % 8 ≢ 0
    → bit_at (cut_last bf) j ≡ (ltb j bf.bits && bit_of bf j)
unfolding cut_last bit_at
bit_at-cut_last bf j v n =
    let cut : ℕ = bit_and (get_or bf.bytes (bf.bits / 8) 0) (last_mask (bf.bits % 8)) in
    elim (ℕ_discrete (bf.bits / 8) (j / 8)) [
      | yes p ↦ rw (
        ← p,
        get_or-set_self bf.bytes (bf.bits / 8) cut 0 (last_in_range bf v n),
        (last_tail bf (j % 8) v (omega arith)).0,
        same_test bf.bits j p,
      )
      | no q ↦
          rw (get_or-set_ne bf.bytes (bf.bits / 8) (j / 8) cut 0 q)
            (untouched bf j (λ h. omega (arith, v.filled, cut_size bf.bits j q h)))
    ]

-- `ClearTrailingBits` keeps the bits below the size and no others.
pub bit_of-trim :
    (bf : BitField) (j : ℕ)
    → BitFieldIsValid bf
    → bit_of (trim bf) j ≡ (ltb j bf.bits && bit_of bf j)
bit_of-trim bf j v = elim (ℕ_discrete (bf.bits % 8) 0) [
  | yes p ↦
      rw (trim_whole bf p) (untouched bf j (λ h. omega (arith, v.filled, whole_size bf.bits j p h)))
  | no n ↦ rw (trim_cut bf n) (bit_at-cut_last bf j v n)
]
