-- ===== src/Proto/BitField/Counting.antt =====
-- proto/bitfield.go: `Count`.
use ged2k.Prelude.{
  ℕ, zero, suc, ◌+◌, ◌-◌, ◌*◌, ◌/◌, ◌%◌, ◌<◌, ◌≤◌, ◌≡◌, refl, ap, ◌∙◌, sym, false, List, [], ◌∷◌,
  length, All, ok, ◌>>=◌, arith,
}
use ged2k.Proto.BitField.{BitField, bits_to_bytes, count, count_bytes, count_last, get_bit, set_bit}
use ged2k.Proto.BitField.Bytes.{bit, nibbles, count_rest-tally}
use ged2k.Proto.BitField.Bits.{
  IsByte, BitFieldIsValid, bit_at, bit_of, with_bit, bit_of-with_bit, with_bit-IsValid,
  bits-with_bit, set_bit_ok, get_bit_ok,
}
use ged2k.Prelude.Tally.{tally, tally-ext, tally-split, tally_add}
use mathlib.Core.Path.{ap₂}

bit_at_first : (b : ℕ) (bs : List ℕ) (k : ℕ) → k < 8 → bit_at (b ∷ bs) k ≡ bit b k
unfolding bit_at
bit_at_first b bs k h = rw (byte, place)
  where
    byte : k / 8 ≡ 0
    byte = omega arith

    place : k % 8 ≡ k
    place = omega arith

bit_at_later : (b : ℕ) (bs : List ℕ) (k : ℕ) → bit_at (b ∷ bs) (8 + k) ≡ bit_at bs k
unfolding bit_at
bit_at_later b bs k = rw (byte, place)
  where
    byte : (8 + k) / 8 ≡ suc (k / 8)
    byte = omega arith

    place : (8 + k) % 8 ≡ k % 8
    place = omega arith

tally-bit_at :
    (b : ℕ) (bs : List ℕ) (n : ℕ)
    → tally (bit_at (b ∷ bs)) (8 + n) ≡ tally (bit b) 8 + tally (bit_at bs) n
tally-bit_at b bs n =
    tally-split (bit_at (b ∷ bs)) 8 n
    ∙ ap₂ ◌+◌ (tally-ext _ _ 8 (λ k l. bit_at_first b bs k l))
        (tally-ext _ _ n (λ k l. bit_at_later b bs k))

count_last_ok :
    (rest : ℕ) (bytes : List ℕ)
    → rest < 8
    → rest ≤ 8 * length bytes
    → count_last rest bytes ≡ ok (tally (bit_at bytes) rest)
unfolding count_last
count_last_ok zero bytes h k = unfold tally in refl
count_last_ok (suc rest) [] h k = absurd (omega arith)
count_last_ok (suc rest) (b ∷ bs) h k = ap ok (
    count_rest-tally (suc rest) 0 b
    ∙ tally-ext _ _ (suc rest)
        (λ i l. rw (bit_at_first b bs i (omega arith)) (ap (bit b) (omega arith))))

count_bytes_ok :
    (n rest : ℕ) (bytes : List ℕ)
    → rest < 8
    → 8 * n + rest ≤ 8 * length bytes
    → All IsByte bytes
    → count_bytes n rest bytes ≡ ok (tally (bit_at bytes) (8 * n + rest))
unfolding count_bytes
count_bytes_ok zero rest bytes h k v =
    rw (count_last_ok rest bytes h (omega arith)) (ap ok (ap (tally (bit_at bytes)) (omega arith)))
count_bytes_ok (suc n) rest [] h k v = absurd (omega arith)
count_bytes_ok (suc n) rest (b ∷ bs) h k v =
    rw (count_bytes_ok n rest bs h (omega arith) v.1, nibbles b v.0, regroup)
      (ap ok (sym (tally-bit_at b bs (8 * n + rest))))
  where
    regroup : 8 * suc n + rest ≡ 8 + (8 * n + rest)
    regroup = omega arith

-- `Count` of a well-formed bit field returns, and it is the number of positions below `bits` that
-- are set.
pub count_ok : (bf : BitField) → BitFieldIsValid bf → count bf ≡ ok (tally (bit_of bf) bf.bits)
unfolding count bits_to_bytes
count_ok bf v =
    count_bytes_ok (bf.bits / 8) (bf.bits - bf.bits / 8 * 8) bf.bytes (omega arith)
      (omega (arith, v.filled)) v.in_range
    ∙ ap ok (ap (tally (bit_of bf)) (omega arith))

-- In a well-formed bit field, setting a bit in range that was not set raises the count by one.
pub count-set_bit :
    (bf : BitField) (i : ℕ)
    → BitFieldIsValid bf
    → i < bf.bits
    → get_bit bf i ≡ ok false
    → (set_bit bf i >>= count) ≡ (count bf >>= λ n. ok (suc n))
count-set_bit bf i v h e =
    rw
      (
        set_bit_ok bf i v h,
        count_ok (with_bit bf i) (with_bit-IsValid bf i v),
        count_ok bf v,
        bits-with_bit bf i,
      )
      (ap ok (
        tally-ext _ _ bf.bits (λ k l. bit_of-with_bit bf i k v h)
        ∙ tally_add (bit_of bf) i bf.bits h (cc (get_bit_ok bf i v h, e))))
