-- ===== src/Proto/Tag/Valid.antt =====
-- proto/tag.go: which tags fit the wire format, and their bytes.
use ged2k.Prelude.{
  ℕ, ◌+◌, ◌-◌, ◌^◌, ◌<◌, ◌≡◌, ◌≢◌, List, [], ◌∷◌, ◌++◌, length, ◌==◌, if◌then◌else◌, ◌||◌,
}
use ged2k.Proto.Buffer.{le_bytes}
use ged2k.Proto.Tag.{Tag, TagType, Class, fixed, counted, unknown, class}

-- The length of a value whose type fixes it.
unfoldable pub fixed_size : TagType → ℕ
fixed_size type =
    if type == 0x09 || type == 0x05
    then 1
    else if type == 0x08
    then 2
    else if type == 0x03 || type == 0x04
    then 4
    else if type == 0x0b
    then 8
    else if type == 0x01
    then 16
    else type - 0x10

-- A value has the length that its type fixes, or one that its counter can hold. `Get` skips a value
-- of 100000 bytes or more.
abbrev pub ValueFits : Class → TagType → ℕ → Type 0
ValueFits fixed type n = n ≡ fixed_size type
ValueFits (counted width) type n = (n < 256 ^ width) × (n < 100000)
ValueFits unknown type n = ⊥

-- The key is a number, or a name of at least two bytes.
abbrev pub KeyFits : ℕ → List ℕ → Type 0
KeyFits id [] = id < 2 ^ 8
KeyFits id (c ∷ cs) = (id ≡ 0) × (cs ≢ []) × (length (c ∷ cs) < 2 ^ 16)

pub record TagIsValid (t : Tag) : Type 0 where
  pub type_fits : t.type < 2 ^ 7
  pub key_fits : KeyFits t.id t.name
  pub value_fits : ValueFits (class t.type) t.type (length t.value)

unfoldable pub key_bytes : TagType → ℕ → List ℕ → List ℕ
key_bytes type id [] = le_bytes 1 (type + 128) ++ le_bytes 1 id
key_bytes type id (c ∷ cs) = le_bytes 1 type ++ (le_bytes 2 (length (c ∷ cs)) ++ (c ∷ cs))

unfoldable pub counter_bytes : Class → ℕ → List ℕ
counter_bytes fixed n = []
counter_bytes (counted width) n = le_bytes width n
counter_bytes unknown n = []

unfoldable pub tag_bytes : Tag → List ℕ
tag_bytes t =
    key_bytes t.type t.id t.name ++ (counter_bytes (class t.type) (length t.value) ++ t.value)
