-- ===== src/Proto/Tag.antt =====
-- proto/tag.go: tagged values. A tag has a number or a name for its key, and a value whose length
-- follows from its type or is written before it.
pub mod Create
pub mod Valid
pub mod RoundTrip
use ged2k.Prelude.{
  ℕ, ◌+◌, ◌-◌, ◌%◌, ◌^◌, ◌==◌, ◌&&◌, ◌||◌, bit_and, bit_or, Bool, not, Option, none, some, List, [],
  ◌∷◌, length, replicate, ltb, leb, if◌then◌else◌, get_or,
}
use ged2k.Proto.Buffer.{
  StateBuffer, unknown_tag, Reader, pure, ◌>>=◌, ◌|>◌, read_num, read_slice, if_ok, write_slice,
  write_uint, write, fail_with,
}

abbrev pub TagType : Type 0
TagType = ℕ

abbrev pub tagtype_undefined : TagType
tagtype_undefined = 0x00

abbrev pub tagtype_hash16 : TagType
tagtype_hash16 = 0x01

abbrev pub tagtype_string : TagType
tagtype_string = 0x02

abbrev pub tagtype_uint32 : TagType
tagtype_uint32 = 0x03

abbrev pub tagtype_float32 : TagType
tagtype_float32 = 0x04

abbrev pub tagtype_bool : TagType
tagtype_bool = 0x05

abbrev pub tagtype_boolarray : TagType
tagtype_boolarray = 0x06

abbrev pub tagtype_blob : TagType
tagtype_blob = 0x07

abbrev pub tagtype_uint16 : TagType
tagtype_uint16 = 0x08

abbrev pub tagtype_uint8 : TagType
tagtype_uint8 = 0x09

abbrev pub tagtype_bsob : TagType
tagtype_bsob = 0x0a

abbrev pub tagtype_uint64 : TagType
tagtype_uint64 = 0x0b

abbrev pub tagtype_str1 : TagType
tagtype_str1 = 0x11

abbrev pub tagtype_str16 : TagType
tagtype_str16 = 0x20

-- `Name` is a string, here its bytes.
pub record Tag : Type 0 where
  pub type : ℕ
  pub id : ℕ
  pub name : List ℕ
  pub value : List ℕ

abbrev pub empty_tag : Tag
empty_tag = record { type = 0; id = 0; name = []; value = [] }

-- A name of one byte is a number.
unfoldable pub set_key : Tag → List ℕ → Tag
set_key t bc = if length bc == 1 then record t { id = get_or bc 0 0 } else record t { name = bc }

-- The 16-bit length is below 100500, so the source's test of it always passes.
unfoldable pub get_name : Tag → Reader Tag
unfolding set_key
get_name t = do l ← read_num 2 0; if_ok t do bc ← read_slice (replicate l 0); pure (set_key t bc)

unfoldable pub get_id : Tag → Reader Tag
get_id t = do id ← read_num 1 t.id; pure (record t { id = id })

unfoldable pub get_key : Tag → Reader Tag
unfolding get_id get_name
get_key t =
    if not (bit_and t.type 0x80 == 0)
    then get_id (record t { type = bit_and t.type 0x7f })
    else get_name t

unfoldable pub get_head : Tag → Reader Tag
unfolding get_key
get_head t = do
  type ← read_num 1 t.type
  if_ok (record t { type = type }) (get_key (record t { type = type }))

abbrev pub is_short_string : TagType → Bool
is_short_string type = leb tagtype_str1 type && leb type tagtype_str16

-- The length of a value that is written before it, in `width` bytes.
unfoldable pub get_length : ℕ → Reader (Option ℕ)
get_length width = do v ← read_num width 0; pure (some v)

unfoldable pub unknown_type : Reader (Option ℕ)
unknown_type sb = (none, fail_with unknown_tag sb)

-- The switch of `Get`: how many bytes the value has, none for an unknown type.
unfoldable pub get_size : TagType → Reader (Option ℕ)
get_size type =
    if type == tagtype_uint8
    then pure (some 1)
    else if type == tagtype_uint16
    then pure (some 2)
    else if type == tagtype_uint32
    then pure (some 4)
    else if type == tagtype_uint64
    then pure (some 8)
    else if type == tagtype_float32
    then pure (some 4)
    else if type == tagtype_bool
    then pure (some 1)
    else if is_short_string type
    then pure (some (type - tagtype_str1 + 1))
    else if type == tagtype_string
    then get_length 2
    else if type == tagtype_blob
    then get_length 4
    else if type == tagtype_bsob
    then get_length 1
    else if type == tagtype_boolarray
    then get_length 2
    else if type == tagtype_hash16
    then pure (some 16)
    else unknown_type

-- A value of 100000 bytes or more is not read, and that is no error.
unfoldable pub get_value : Tag → Option ℕ → Reader Tag
get_value t none = pure t
get_value t (some bc) = if_ok t (
    if ltb 0 bc && ltb bc 100000
    then (read_slice (replicate bc 0) >>= λ v. pure (record t { value = v }))
    else pure t)

unfoldable pub get_tag : Tag → Reader Tag
get_tag old = do t ← get_head old; size ← get_size t.type; get_value t size

-- The cases of the switch in `Put` and in `Size`: a value of known length, one behind a length of
-- so many bytes, and an unknown type.
pub data Class : Type 0 where
  fixed : Class
  counted : ℕ → Class
  unknown : Class

unfoldable pub class : TagType → Class
class type =
    if type == tagtype_uint8
      || type == tagtype_uint16
      || type == tagtype_uint32
      || type == tagtype_uint64
      || type == tagtype_float32
      || type == tagtype_bool
      || type == tagtype_hash16
      || is_short_string type
    then fixed
    else if type == tagtype_string || type == tagtype_boolarray
    then counted 2
    else if type == tagtype_bsob
    then counted 1
    else if type == tagtype_blob
    then counted 4
    else unknown

unfoldable pub put_key : Tag → List ℕ → StateBuffer → StateBuffer
put_key t [] sw = sw |> write_uint 1 (bit_or t.type 0x80) |> write_uint 1 t.id
put_key t (c ∷ cs) sw =
    sw |> write_uint 1 t.type |> write_uint 2 (length (c ∷ cs) % 2 ^ 16) |> write_slice (c ∷ cs)

unfoldable pub put_value : Tag → Class → StateBuffer → StateBuffer
put_value t fixed sw = sw |> write_slice t.value
put_value t (counted width) sw =
    sw |> write_uint width (length t.value % 256 ^ width) |> write_slice t.value
put_value t unknown sw = fail_with unknown_tag sw

unfoldable pub put_tag : Tag → StateBuffer → StateBuffer
put_tag t sw = sw |> write (λ s. s |> put_key t t.name |> put_value t (class t.type))

unfoldable pub size_key : List ℕ → ℕ
size_key [] = 1 + 1
size_key (c ∷ cs) = 1 + 2 + length (c ∷ cs)

-- An unknown type has the size -1 in the source, here none.
unfoldable pub size_with : ℕ → ℕ → Class → Option ℕ
size_with key n fixed = some (key + n)
size_with key n (counted width) = some (key + (width + n))
size_with key n unknown = none

unfoldable pub size_tag : Tag → Option ℕ
size_tag t = size_with (size_key t.name) (length t.value) (class t.type)
