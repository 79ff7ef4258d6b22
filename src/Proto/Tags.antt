-- ===== src/Proto/Tags.antt =====
-- proto/common.go: `TagCollection`, tags behind their number.
pub mod RoundTrip
use ged2k.Prelude.{
  ℕ, zero, suc, ◌+◌, ◌%◌, ◌^◌, ltb, if◌then◌else◌, Option, none, some, List, [], ◌∷◌, ◌++◌, length,
}
use ged2k.Prelude.Int.{ℤ, pos, dec, plus}
use ged2k.Proto.Buffer.{
  StateBuffer, Reader, pure, ◌>>=◌, ◌|>◌, read, read_uint32, if_ok, fail_with, write_uint, too_many,
}
use ged2k.Proto.Tag.{Tag, empty_tag, get_tag, put_tag, size_tag}

abbrev pub max_elems : ℕ
max_elems = 1000

abbrev pub TagCollection : Type 0
TagCollection = List Tag

-- The loop of `Get` with `n` tags to come: it appends to `c`, and stops at an error.
unfoldable pub get_each_tag : ℕ → TagCollection → Reader TagCollection
get_each_tag zero c = pure c
get_each_tag (suc n) c =
    read get_tag empty_tag >>= λ t. if_ok (c ++ (t ∷ [])) (get_each_tag n (c ++ (t ∷ [])))

unfoldable pub refuse : TagCollection → Reader TagCollection
refuse c sb = (c, fail_with too_many sb)

unfoldable pub get_tags : TagCollection → Reader TagCollection
get_tags c = do sz ← read_uint32; if_ok c (if ltb max_elems sz then refuse c else get_each_tag sz c)

unfoldable pub put_each_tag : TagCollection → StateBuffer → StateBuffer
put_each_tag [] sb = sb
put_each_tag (t ∷ ts) sb = put_each_tag ts (put_tag t sb)

unfoldable pub put_tags : TagCollection → StateBuffer → StateBuffer
put_tags c sb = sb |> write_uint 4 (length c % 2 ^ 32) |> put_each_tag c

-- A tag of an unknown type counts as -1.
unfoldable pub add_size : Option ℕ → ℤ → ℤ
add_size none total = dec total
add_size (some n) total = plus n total

unfoldable pub size_tags : TagCollection → ℤ
size_tags [] = pos 4
size_tags (t ∷ ts) = add_size (size_tag t) (size_tags ts)
