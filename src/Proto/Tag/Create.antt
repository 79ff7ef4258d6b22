-- ===== src/Proto/Tag/Create.antt =====
-- proto/tag.go: tags made from Go values by `CreateTag`, and the accessors that read them back.
use ged2k.Prelude.{
  ℕ, zero, suc, ◌+◌, ◌-◌, ◌*◌, ◌/◌, ◌%◌, ◌^◌, ◌<◌, ◌≤◌, ◌≡◌, ◌↔◌, refl, ap, List, [], ◌∷◌, ◌++◌,
  length, Outcome, ok, panic, Bool, false, ◌&&◌, ◌||◌, ◌==◌, leb, ltb, not, if◌then◌else◌, arith,
  Bool-cases, inl, inr, ◌>>=◌,
}
use ged2k.Prelude.Int.{ℤ, pos, negsuc}
use ged2k.Proto.Buffer.{le_bytes, le_value}
use ged2k.Proto.Buffer.Wire.{length-le_bytes, le_value-le_bytes}
use ged2k.Proto.Basic.{Ed2kHash}
use ged2k.Proto.Tag.{Tag, TagType, class, fixed, is_short_string}
use ged2k.Proto.Tag.Valid.{TagIsValid, KeyFits, ValueFits, fixed_size}

-- The Go values that `CreateTag` tells apart. A float32 is its bit pattern.
pub data TagData : Type 0 where
  uint8 uint16 uint32 uint64 float32 : ℕ → TagData
  string : List ℕ → TagData
  bool : Bool → TagData
  blob : List ℕ → TagData
  hash : Ed2kHash → TagData
  other : TagData

abbrev make_tag : TagType → ℕ → List ℕ → List ℕ → Tag
make_tag type id name value = record { type = type; id = id; name = name; value = value }

string_type : ℕ → TagType
string_type n = if ltb 0 n && leb n 16 then (0x11 + n - 1) % 256 else 0x02

unfoldable pub create_tag : TagData → ℕ → List ℕ → Tag
unfolding string_type
create_tag (uint8 v) id name = make_tag 0x09 id name (v ∷ [])
create_tag (uint16 v) id name = make_tag 0x08 id name ((v % 256) ∷ (v / 256) ∷ [])
create_tag (uint32 v) id name =
    make_tag 0x03 id name
      ((v % 256) ∷ (v / 2 ^ 8 % 256) ∷ (v / 2 ^ 16 % 256) ∷ (v / 2 ^ 24 % 256) ∷ [])
create_tag (uint64 v) id name = make_tag 0x0b id name (le_bytes 8 v)
create_tag (float32 v) id name =
    make_tag 0x04 id name
      ((v % 256) ∷ (v / 2 ^ 8 % 256) ∷ (v / 2 ^ 16 % 256) ∷ (v / 2 ^ 24 % 256) ∷ [])
create_tag (string v) id name = make_tag (string_type (length v)) id name v
create_tag (bool data_) id name = make_tag 0x05 id name ((if data_ then 1 else 0) ∷ [])
create_tag (blob v) id name = make_tag 0x07 id name v
create_tag (hash h) id name = make_tag 0x01 id name h
create_tag other id name = make_tag 0x00 0x00 [] []

-- binary.LittleEndian and binary.BigEndian, on the front of a slice. Too short a slice panics.
first_le : ℕ → List ℕ → List ℕ → Outcome ℕ
first_le zero v seen = ok (le_value seen)
first_le (suc n) [] seen = panic
first_le (suc n) (b ∷ v) seen = first_le n v (seen ++ (b ∷ []))

first_be : ℕ → List ℕ → ℕ → Outcome ℕ
first_be zero v acc = ok acc
first_be (suc n) [] acc = panic
first_be (suc n) (b ∷ v) acc = first_be n v (acc * 256 + b)

pub as_byte : Tag → Outcome ℕ
unfolding first_le
as_byte t = first_le 1 t.value []

pub as_uint16 : Tag → Outcome ℕ
unfolding first_le
as_uint16 t = first_le 2 t.value []

pub as_uint32 : Tag → Outcome ℕ
unfolding first_be
as_uint32 t = first_be 4 t.value 0

pub as_uint64 : Tag → Outcome ℕ
unfolding first_le
as_uint64 t = first_le 8 t.value []

pub is_string : Tag → Bool
is_string t = is_short_string t.type || t.type == 0x02

pub is_byte : Tag → Bool
is_byte t = t.type == 0x09

pub is_uint16 : Tag → Bool
is_uint16 t = t.type == 0x08

pub is_uint32 : Tag → Bool
is_uint32 t = t.type == 0x03

pub is_uint64 : Tag → Bool
is_uint64 t = t.type == 0x0b

pub is_bool : Tag → Bool
is_bool t = t.type == 0x05

-- `value[0] != 0x00`
pub as_bool : Tag → Outcome Bool
unfolding first_le
as_bool t = do b ← first_le 1 t.value []; ok (not (b == 0))

pub is_blob : Tag → Bool
is_blob t = t.type == 0x07

pub is_hash : Tag → Bool
is_hash t = t.type == 0x01

pub is_float : Tag → Bool
is_float t = t.type == 0x04

-- The bit pattern of the float.
pub as_float : Tag → Outcome ℕ
unfolding first_le
as_float t = first_le 4 t.value []

-- A 64-bit value gives -1, a value of another type -2.
pub as_int : Tag → Outcome ℤ
as_int t =
    if is_byte t
    then (as_byte t >>= λ n. ok (pos n))
    else if is_uint16 t
    then (as_uint16 t >>= λ n. ok (pos n))
    else if is_uint32 t
    then (as_uint32 t >>= λ n. ok (pos n))
    else if is_uint64 t
    then ok (negsuc 0)
    else ok (negsuc 1)

-- What a Go value must satisfy for its tag to fit the wire format.
abbrev pub DataFits : TagData → Type 0
DataFits (uint8 v) = v < 2 ^ 8
DataFits (uint16 v) = v < 2 ^ 16
DataFits (uint32 v) = v < 2 ^ 32
DataFits (uint64 v) = v < 2 ^ 64
DataFits (float32 v) = v < 2 ^ 32
DataFits (string v) = length v < 2 ^ 16
DataFits (bool b) = Unit {0}
DataFits (blob v) = length v < 100000
DataFits (hash h) = length h ≡ 16
DataFits other = ⊥

string_type_short :
    (n : ℕ)
    → 0 < n
    → n ≤ 16
    → (string_type n ≡ n + 16) × (class (n + 16) ≡ fixed) × (n ≡ fixed_size (n + 16))
unfolding string_type class fixed_size
string_type_short n h k = (ground arith, ground arith, ground arith)

string_type_long : (n : ℕ) → (ltb 0 n && leb n 16) ≡ false → string_type n ≡ 0x02
unfolding string_type
string_type_long n h = rw h

string_type-fits :
    (n : ℕ)
    → n < 2 ^ 16
    → (string_type n < 2 ^ 7) × ValueFits (class (string_type n)) (string_type n) n
unfolding class
string_type-fits n h = elim (Bool-cases (ltb 0 n && leb n 16)) [
  | inl e ↦
      let (type, c, size) = string_type_short n (ground arith) (ground arith) in
      let low : n ≤ 16 = ground arith in rw (type, c) (omega arith, size)
  | inr e ↦ rw (string_type_long n e) (omega arith, omega arith)
]

-- Every tag made from a value of its range, under a number or under a name of at least two bytes,
-- fits the wire format.
pub create_tag-TagIsValid :
    (d : TagData) (id : ℕ) (name : List ℕ)
    → DataFits d
    → KeyFits id name
    → TagIsValid (create_tag d id name)
unfolding create_tag class fixed_size
create_tag-TagIsValid (uint8 v) id name h k = record {
  type_fits = omega arith;
  key_fits = k;
  value_fits = refl;
}
create_tag-TagIsValid (uint16 v) id name h k = record {
  type_fits = omega arith;
  key_fits = k;
  value_fits = refl;
}
create_tag-TagIsValid (uint32 v) id name h k = record {
  type_fits = omega arith;
  key_fits = k;
  value_fits = refl;
}
create_tag-TagIsValid (uint64 v) id name h k = record {
  type_fits = omega arith;
  key_fits = k;
  value_fits = length-le_bytes 8 v;
}
create_tag-TagIsValid (float32 v) id name h k = record {
  type_fits = omega arith;
  key_fits = k;
  value_fits = refl;
}
create_tag-TagIsValid (string v) id name h k =
    let (low, fits) = string_type-fits (length v) h in
    record { type_fits = low; key_fits = k; value_fits = fits }
create_tag-TagIsValid (bool b) id name h k = record {
  type_fits = omega arith;
  key_fits = k;
  value_fits = refl;
}
create_tag-TagIsValid (blob v) id name h k = record {
  type_fits = omega arith;
  key_fits = k;
  value_fits = (omega arith, h);
}
create_tag-TagIsValid (hash v) id name h k = record {
  type_fits = omega arith;
  key_fits = k;
  value_fits = h;
}
create_tag-TagIsValid other id name h k = absurd h

-- `AsByte`, `AsUint16` and `AsUint64` give back what `CreateTag` stored of a number that fits the type.
pub as_uint-create_tag :
    (id : ℕ) (name : List ℕ) (v : ℕ)
    → (v < 2 ^ 8 → as_byte (create_tag (uint8 v) id name) ≡ ok v)
      × (v < 2 ^ 16 → as_uint16 (create_tag (uint16 v) id name) ≡ ok v)
      × (v < 2 ^ 64 → as_uint64 (create_tag (uint64 v) id name) ≡ ok v)
unfolding create_tag as_byte as_uint16 as_uint64 le_bytes le_value
as_uint-create_tag id name v =
    (λ h. ground arith, λ h. ground arith, λ h. ap ok (le_value-le_bytes 8 v (omega arith)))

-- `AsUint32` reads the bytes in the other order: it gives back a 32-bit value exactly when the bytes
-- of the value read the same from both ends.
pub as_uint32-create_tag :
    (id : ℕ) (name : List ℕ) (v : ℕ)
    → v < 2 ^ 32
    → (as_uint32 (create_tag (uint32 v) id name) ≡ ok v)
      ↔ ((v % 256 ≡ v / 2 ^ 24) × (v / 2 ^ 8 % 256 ≡ v / 2 ^ 16 % 256))
unfolding create_tag as_uint32
as_uint32-create_tag id name v h = (λ e. (ground arith, ground arith), λ e. ground arith)
