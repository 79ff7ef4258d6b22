-- ===== src/Proto/BitField/Sizing.antt =====
-- proto/bitfield.go: `Resize`, `SetAll`, `CreateBitField` and `CloneBitField`.
use ged2k.Prelude.{
  ℕ, zero, suc, ◌-◌, ◌/◌, ◌%◌, ◌<◌, ◌≡◌, refl, sym, ap, ◌∙◌, Bool, true, false, ◌&&◌, ltb, List, [],
  ◌∷◌, ◌++◌, length, get_or, take, drop, replicate, All, All-replicate, All-append, ltb→lt, lt→ltb,
  length-replicate, get_or-replicate, take_all, drop_all, length-append, length-take, length-drop,
  ok, arith, Bool-cases, inl, inr, if◌then◌else◌,
}
use mathlib.Core.List.{append-nil}
use ged2k.Proto.BitField.{
  BitField, bits_to_bytes, resize, set_all, copy_into, create_bit_field, clone_bit_field,
}
use ged2k.Proto.BitField.Bytes.{bit-zero, bit_ones}
use ged2k.Proto.BitField.Trailing.{
  trim, clear_trailing_bits_ok, trim-IsValid, bits-trim, bit_of-trim,
}
use ged2k.Proto.BitField.Bits.{IsByte, BitFieldIsValid, bit_at, bit_of}

abbrev zeros : ℕ → List ℕ
zeros n = replicate n 0

length-zeros : (n : ℕ) → length (zeros n) ≡ n
length-zeros n = length-replicate n 0

copied : ℕ → List ℕ → List ℕ
copied n src = copy_into (zeros n) src

get_or-take :
    (n i : ℕ) (xs : List ℕ) → get_or (take n xs) i 0 ≡ (if ltb i n then get_or xs i 0 else 0)
get_or-take zero i xs = ground arith
get_or-take (suc n) i [] = ground arith
get_or-take (suc n) zero (x ∷ xs) = ground arith
get_or-take (suc n) (suc i) (x ∷ xs) = ground (arith, get_or-take n i xs)

get_or_pad : (m i : ℕ) (xs : List ℕ) → get_or (xs ++ replicate m 0) i 0 ≡ get_or xs i 0
get_or_pad m i [] = get_or-replicate m i 0
get_or_pad m zero (x ∷ xs) = refl
get_or_pad m (suc i) (x ∷ xs) = get_or_pad m i xs

drop-replicate : (k n : ℕ) → drop k (zeros n) ≡ zeros (n - k)
drop-replicate zero n = ap zeros n-zero
  where
    n-zero : n ≡ n - 0
    n-zero = omega arith
drop-replicate (suc k) zero = ap zeros none-left
  where
    none-left : zero ≡ 0 - suc k
    none-left = omega arith
drop-replicate (suc k) (suc n) = drop-replicate k n ∙ ap zeros one-less
  where
    one-less : n - k ≡ suc n - suc k
    one-less = omega arith

get_or-copied :
    (n i : ℕ) (src : List ℕ) → get_or (copied n src) i 0 ≡ (if ltb i n then get_or src i 0 else 0)
unfolding copied
get_or-copied n i src =
    rw (length-zeros n, drop-replicate (length src) n)
      (get_or_pad (n - length src) i (take n src) ∙ get_or-take n i src)

length-copied : (n : ℕ) (src : List ℕ) → length (copied n src) ≡ n
unfolding copied
length-copied n src = omega (
  arith,
  length-append (take (length (zeros n)) src) (drop (length src) (zeros n)),
  length-take (length (zeros n)) src,
  length-drop (length src) (zeros n),
  length-zeros n,
)

All-take : (n : ℕ) (xs : List ℕ) → All IsByte xs → All IsByte (take n xs)
All-take zero xs h = tt
All-take (suc n) [] h = tt
All-take (suc n) (x ∷ xs) h = (h.0, All-take n xs h.1)

All-copied : (n : ℕ) (src : List ℕ) → All IsByte src → All IsByte (copied n src)
unfolding copied
All-copied n src h =
    All-append IsByte (take (length (zeros n)) src) (drop (length src) (zeros n)) (All-take _ src h)
      (rw (drop-replicate (length src) n) (All-replicate IsByte (n - length src) 0 (omega arith)))

resized : BitField → ℕ → BitField
resized bf n = trim (record { bytes = copied (bits_to_bytes n) bf.bytes; bits = n })

copied-IsValid :
    (bf : BitField) (n : ℕ)
    → All IsByte bf.bytes
    → BitFieldIsValid (record { bytes = copied (bits_to_bytes n) bf.bytes; bits = n })
copied-IsValid bf n h = record {
  filled = length-copied (bits_to_bytes n) bf.bytes;
  in_range = All-copied (bits_to_bytes n) bf.bytes h;
}

bit_at-copied :
    (n j : ℕ) (src : List ℕ) → j < n → bit_at (copied (bits_to_bytes n) src) j ≡ bit_at src j
unfolding bit_at bits_to_bytes
bit_at-copied n j src h =
    rw (get_or-copied (bits_to_bytes n) (j / 8) src, lt→ltb (j / 8) (bits_to_bytes n) (omega arith))

-- `Resize` of any bit field, well formed or not, returns a well-formed one of the new size. It keeps
-- the bits below both the new size and the end of the old bytes, and every other bit is clear.
pub resize_ok :
    (bf : BitField) (n : ℕ)
    → All IsByte bf.bytes
    → (r : BitField) × (resize bf n ≡ ok r)
      × BitFieldIsValid r
      × (r.bits ≡ n)
      × ((j : ℕ) → bit_of r j ≡ (ltb j n && bit_of bf j))
unfolding resize
resize_ok bf n h =
    let v = copied-IsValid bf n h in
    (
      resized bf n,
      unfold resized copied in clear_trailing_bits_ok _ v,
      unfold resized in trim-IsValid _ v,
      unfold resized in bits-trim _,
      λ j. unfold resized in bit_of-trim _ j v ∙ kept j,
    )
  where
    kept :
        (j : ℕ)
        → (ltb j n && bit_at (copied (bits_to_bytes n) bf.bytes) j) ≡ (ltb j n && bit_of bf j)
    kept j = elim (Bool-cases (ltb j n)) [
      | inl e ↦ rw e (bit_at-copied n j bf.bytes (ltb→lt j n e))
      | inr e ↦ rw e
    ]

blank : ℕ → BitField
blank n = record { bytes = zeros (bits_to_bytes n); bits = n }

blank-IsValid : (n : ℕ) → BitFieldIsValid (blank n)
unfolding blank
blank-IsValid n = record {
  filled = length-zeros (bits_to_bytes n);
  in_range = All-replicate IsByte (bits_to_bytes n) 0 (omega arith);
}

bit_of-blank : (n j : ℕ) → bit_of (blank n) j ≡ false
unfolding blank bit_at
bit_of-blank n j = rw (get_or-replicate {A = ℕ} (bits_to_bytes n) (j / 8) 0) (bit-zero (j % 8))

-- A new bit field is well formed, has the size asked for, and no bit set.
pub create_bit_field_ok :
    (n : ℕ)
    → (r : BitField) × (create_bit_field n ≡ ok r)
      × BitFieldIsValid r
      × (r.bits ≡ n)
      × ((j : ℕ) → bit_of r j ≡ false)
unfolding create_bit_field
create_bit_field_ok n =
    let v = blank-IsValid n in
    (
      trim (blank n),
      unfold blank in clear_trailing_bits_ok (blank n) v,
      trim-IsValid (blank n) v,
      unfold blank in bits-trim (blank n),
      λ j. bit_of-trim (blank n) j v ∙ rw (bit_of-blank n j) (and_false (ltb j (blank n).bits)),
    )
  where
    and_false : (b : Bool) → (b && false) ≡ false
    and_false true = refl
    and_false false = refl

filled_with_ones : BitField → BitField
filled_with_ones bf = record bf { bytes = replicate (length bf.bytes) 0xff }

ones-IsValid : (bf : BitField) → BitFieldIsValid bf → BitFieldIsValid (filled_with_ones bf)
unfolding filled_with_ones
ones-IsValid bf v = record {
  filled = length-replicate (length bf.bytes) 0xff ∙ v.filled;
  in_range = All-replicate IsByte (length bf.bytes) 0xff (omega arith);
}

get_or_ones : (n i : ℕ) → i < n → get_or {A = ℕ} (replicate n 0xff) i 0 ≡ 0xff
get_or_ones zero i h = absurd (omega arith)
get_or_ones (suc n) zero h = refl
get_or_ones (suc n) (suc i) h = get_or_ones n i (omega arith)

bit_of_ones :
    (bf : BitField) (j : ℕ)
    → BitFieldIsValid bf
    → j < bf.bits
    → bit_of (filled_with_ones bf) j ≡ true
unfolding filled_with_ones bit_at bits_to_bytes
bit_of_ones bf j v h =
    rw (get_or_ones (length bf.bytes) (j / 8) (omega (arith, v.filled)))
      (bit_ones (j % 8) (omega arith))

-- `SetAll` on a well-formed bit field sets exactly the bits below the size.
pub set_all_ok :
    (bf : BitField)
    → BitFieldIsValid bf
    → (r : BitField) × (set_all bf ≡ ok r)
      × BitFieldIsValid r
      × (r.bits ≡ bf.bits)
      × ((j : ℕ) → bit_of r j ≡ ltb j bf.bits)
unfolding set_all
set_all_ok bf v =
    let full = filled_with_ones bf in
    let w = ones-IsValid bf v in
    (
      trim full,
      unfold filled_with_ones in clear_trailing_bits_ok full w,
      trim-IsValid full w,
      unfold filled_with_ones in bits-trim full,
      λ j. bit_of-trim full j w ∙ below j,
    )
  where
    below :
        (j : ℕ)
        → (ltb j (filled_with_ones bf).bits && bit_of (filled_with_ones bf) j) ≡ ltb j bf.bits
    below j = elim (Bool-cases (ltb j bf.bits)) [
      | inl e ↦ unfold filled_with_ones in rw (e, bit_of_ones bf j v (ltb→lt j bf.bits e))
      | inr e ↦ unfold filled_with_ones in rw e
    ]

-- A clone is the same bit field.
pub clone_bit_field_lem : (bf : BitField) → clone_bit_field bf ≡ bf
unfolding clone_bit_field
clone_bit_field_lem bf = rw (
  length-zeros (length bf.bytes),
  take_all bf.bytes,
  drop_all bf.bytes (zeros (length bf.bytes)) (sym (length-zeros (length bf.bytes))),
  append-nil,
)
