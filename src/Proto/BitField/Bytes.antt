-- ===== src/Proto/BitField/Bytes.antt =====
-- The bits of one byte under the masks of proto/bitfield.go, checked over all bytes.
use ged2k.Prelude.{
  ℕ, zero, suc, ◌+◌, ◌-◌, ◌*◌, ◌/◌, ◌%◌, ◌^◌, ◌<◌, ◌≡◌, refl, bit_and, bit_or, Bool, true, false,
  not, ◌&&◌, ◌||◌, ◌==◌, ltb, leb, get_or, arith, ltb→lt, ==_iff,
}
use mathlib.Core.Path.{ap, ap₂}
use ged2k.Prelude.Tally.{tally, as_number, tally_front, tally-ext}
use ged2k.Prelude.Bits.{passes_below, passes_below-at}
use ged2k.Proto.BitField.{num_bits, count_rest}

-- Bit `k` of a byte, counted from the highest.
unfoldable pub bit : ℕ → ℕ → Bool
bit b k = b / 2 ^ (7 - k) % 2 == 1

same : Bool → Bool → Bool
same true true = true
same false false = true
same x y = false

same→eq : (x y : Bool) → same x y ≡ true → x ≡ y
unfolding same
same→eq true true h = refl
same→eq false false h = refl
same→eq true false h = cc
same→eq false true h = cc

and_four :
    {w x y z : Bool} → (w && x && y && z) ≡ true → (w ≡ true) × (x ≡ true) × (y ≡ true) × (z ≡ true)
and_four h = ground arith

and_five :
    {v w x y z : Bool}
    → (v && w && x && y && z) ≡ true
    → (v ≡ true) × (w ≡ true) × (x ≡ true) × (y ≡ true) × (z ≡ true)
and_five h = ground arith

-- A statement about a byte and two positions in it.
table : (ℕ → ℕ → ℕ → Bool) → Bool
table p = passes_below 256 (λ b. passes_below 8 (λ k. passes_below 8 (λ j. p b k j)))

table_sound :
    (p : ℕ → ℕ → ℕ → Bool) (b k j : ℕ) → table p ≡ true → b < 256 → k < 8 → j < 8 → p b k j ≡ true
unfolding table
table_sound p b k j h hb hk hj =
    passes_below-at 8 _ j (passes_below-at 8 _ k (passes_below-at 256 _ b h hb) hk) hj

masks_table :
    table (λ b k j.
      same (not (bit_and b (0x80 / 2 ^ k) == 0)) (bit b k)
      && same (bit (bit_or b (0x80 / 2 ^ k)) j) (k == j || bit b j)
      && same (bit (bit_and b (0xff - 0x80 / 2 ^ k)) j) (not (k == j) && bit b j)
      && ltb (bit_or b (0x80 / 2 ^ k)) 256
      && ltb (bit_and b (0xff - 0x80 / 2 ^ k)) 256)
    ≡ true
unfolding table passes_below same bit
masks_table = refl

-- Reading, setting and clearing one bit.
pub masks :
    (b k j : ℕ)
    → b < 256
    → k < 8
    → j < 8
    → (not (bit_and b (0x80 / 2 ^ k) == 0) ≡ bit b k)
      × (bit (bit_or b (0x80 / 2 ^ k)) j ≡ (k == j || bit b j))
      × (bit (bit_and b (0xff - 0x80 / 2 ^ k)) j ≡ (not (k == j) && bit b j))
      × (bit_or b (0x80 / 2 ^ k) < 256)
      × (bit_and b (0xff - 0x80 / 2 ^ k) < 256)
masks b k j hb hk hj =
    let (e1, e2, e3, e4, e5) = and_five (table_sound _ b k j masks_table hb hk hj) in
    (same→eq _ _ e1, same→eq _ _ e2, same→eq _ _ e3, ltb→lt _ _ e4, ltb→lt _ _ e5)

tails_table :
    passes_below 256 (λ b. passes_below 9 (λ r. passes_below 8 (λ j.
      same (bit (bit_and b (0xff * 2 ^ (8 - r) % 256)) j) (ltb j r && bit b j)
      && same (bit (bit_or b (0xff / 2 ^ r)) j) (leb r j || bit b j)
      && ltb (bit_and b (0xff * 2 ^ (8 - r) % 256)) 256
      && ltb (bit_or b (0xff / 2 ^ r)) 256)))
    ≡ true
unfolding passes_below same bit
tails_table = refl

-- The bits before a position, and the bits from it on.
pub tails :
    (b r j : ℕ)
    → b < 256
    → r < 9
    → j < 8
    → (bit (bit_and b (0xff * 2 ^ (8 - r) % 256)) j ≡ (ltb j r && bit b j))
      × (bit (bit_or b (0xff / 2 ^ r)) j ≡ (leb r j || bit b j))
      × (bit_and b (0xff * 2 ^ (8 - r) % 256) < 256)
      × (bit_or b (0xff / 2 ^ r) < 256)
tails b r j hb hr hj =
    let (e1, e2, e3, e4) = and_four (
      passes_below-at 8 _ j (passes_below-at 9 _ r (passes_below-at 256 _ b tails_table hb) hr)
        hj) in
    (same→eq _ _ e1, same→eq _ _ e2, ltb→lt _ _ e3, ltb→lt _ _ e4)

pub bit-zero : (j : ℕ) → bit 0 j ≡ false
unfolding bit
bit-zero j = ground arith

ones_table : passes_below 8 (λ j. bit 0xff j) ≡ true
unfolding passes_below bit
ones_table = refl

pub bit_ones : (j : ℕ) → j < 8 → bit 0xff j ≡ true
bit_ones j h = passes_below-at 8 _ j ones_table h

nibbles_table :
    passes_below 256
      (λ b. get_or num_bits (bit_and b 0xf) 0 + get_or num_bits (b / 2 ^ 4) 0 == tally (bit b) 8)
    ≡ true
unfolding passes_below tally bit
nibbles_table = refl

-- The two lookups of `Count` add up to the set bits of a byte.
pub nibbles :
    (b : ℕ)
    → b < 256
    → get_or num_bits (bit_and b 0xf) 0 + get_or num_bits (b / 2 ^ 4) 0 ≡ tally (bit b) 8
nibbles b h = (==_iff _ _).0 (passes_below-at 256 _ b nibbles_table h)

pub count_rest-tally : (n i b : ℕ) → count_rest n i b ≡ tally (λ k. bit b (i + k)) n
unfolding count_rest
count_rest-tally zero i b = unfold tally in refl
count_rest-tally (suc n) i b =
    rw (tally_front (λ k. bit b (i + k)) n, count_rest-tally n (suc i) b)
      (ap₂ ◌+◌ (here i) (tally-ext _ _ n (λ k l. ap (bit b) (omega arith))))
  where
    here : (i : ℕ) → b / 2 ^ (7 - i) % 2 ≡ as_number (bit b (i + 0))
    here i = rw same_place (unfold bit in ground arith)
      where
        same_place : i + 0 ≡ i
        same_place = omega arith
