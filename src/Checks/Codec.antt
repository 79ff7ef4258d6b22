-- ===== src/Checks/Codec.antt =====
-- The wire format of proto/common.go and proto/tag.go on concrete values.
use ged2k.Prelude.{
  ℕ, ◌/◌, ◌%◌, ◌^◌, ◌≡◌, ◌≢◌, ◌↔◌, refl, ap, List, [], ◌∷◌, length, none, ok, arith,
}
use ged2k.Proto.Buffer.{make_buffer, reread}
use ged2k.Proto.Basic.{Endpoint, PacketHeader}
use ged2k.Proto.Tag.{Tag, empty_tag, get_tag, put_tag, size_tag, class, size_key, size_with}
use ged2k.Proto.Tag.Valid.{TagIsValid, tag_bytes}
use ged2k.Proto.Tag.RoundTrip.{get_tag-put_tag}
use ged2k.Proto.Tag.Create.{
  string, create_tag, uint32, as_uint32, create_tag-TagIsValid, as_uint32-create_tag,
}

abbrev a_peer : Endpoint
a_peer = record { ip = 0x0100007f; port = 4662 }

abbrev three_bytes : List ℕ
three_bytes = 1 ∷ 2 ∷ 255 ∷ []

three_bytes-nonempty : three_bytes ≢ []
three_bytes-nonempty e = absurd (omega (arith, ap length e))

abbrev a_header : PacketHeader
a_header = record { protocol = 0xe3; size = 70000; packet = 0x46 }

-- The name "ged2k" under the number 1.
abbrev name_tag : Tag
name_tag = create_tag (string (103 ∷ 101 ∷ 100 ∷ 50 ∷ 107 ∷ [])) 1 []

create_tag-TagIsValid_example : TagIsValid name_tag
create_tag-TagIsValid_example =
    create_tag-TagIsValid (string (103 ∷ 101 ∷ 100 ∷ 50 ∷ 107 ∷ [])) 1 [] (omega arith)
      (omega arith)

name_tag-IsValid : TagIsValid name_tag
name_tag-IsValid =
    create_tag-TagIsValid (string (103 ∷ 101 ∷ 100 ∷ 50 ∷ 107 ∷ [])) 1 [] (omega arith)
      (omega arith)

get_tag-put_tag_example :
    get_tag empty_tag (reread (put_tag name_tag (make_buffer 7)))
    ≡ (name_tag, record { bytes = tag_bytes name_tag; err = none; pos = 7 })
unfolding size_tag create_tag class size_key size_with
get_tag-put_tag_example = get_tag-put_tag name_tag 7 name_tag-IsValid refl

as_uint32-create_tag_example :
    (as_uint32 (create_tag (uint32 258) 3 []) ≡ ok 258)
    ↔ ((258 % 256 ≡ 258 / 2 ^ 24) × (258 / 2 ^ 8 % 256 ≡ 258 / 2 ^ 16 % 256))
as_uint32-create_tag_example = as_uint32-create_tag 3 [] 258 (omega arith)
