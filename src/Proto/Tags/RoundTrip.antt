-- ===== src/Proto/Tags/RoundTrip.antt =====
-- proto/common.go: `TagCollection` on the wire.
use ged2k.Prelude.{
  ℕ, ◌+◌, ◌%◌, ◌^◌, ◌≤◌, ◌≡◌, refl, ap, ◌∙◌, ltb, List, [], ◌∷◌, ◌++◌, length, length-append, All,
  arith, false,
}
use mathlib.Core.List.{append-nil, append_assoc}
use ged2k.Prelude.Int.{pos, plus}
use ged2k.Proto.Buffer.{le_bytes}
use ged2k.Proto.Buffer.Wire.{
  Reads, Writes, Reads->>=, Reads-pure, Reads-by, Reads-if_ok, Reads-read, Reads-read_uint,
  Writes-write_uint, Writes-then, Writes-cong, Writes-none, length-le_bytes,
}
use ged2k.Proto.Tag.{get_tag}
use ged2k.Proto.Tag.Valid.{TagIsValid, tag_bytes}
use ged2k.Proto.Tag.RoundTrip.{Reads-get_tag, Writes-put_tag, size_tag-tag_bytes}
use ged2k.Proto.Tags.{
  max_elems, TagCollection, get_each_tag, get_tags, put_each_tag, put_tags, add_size, size_tags,
}

pub record TagsAreValid (c : TagCollection) : Type 0 where
  pub few : length c ≤ max_elems
  pub each : All TagIsValid c

each_tag_bytes : TagCollection → List ℕ
each_tag_bytes [] = []
each_tag_bytes (t ∷ ts) = tag_bytes t ++ each_tag_bytes ts

pub tags_bytes : TagCollection → List ℕ
tags_bytes c = le_bytes 4 (length c) ++ each_tag_bytes c

Reads-get_each_tag :
    (ts c : TagCollection)
    → All TagIsValid ts
    → Reads (get_each_tag (length ts) c) (each_tag_bytes ts) (c ++ ts)
unfolding get_each_tag each_tag_bytes
Reads-get_each_tag [] c v = rw (append-nil c) (Reads-pure c)
Reads-get_each_tag (t ∷ ts) c v = Reads->>= _ _ (Reads-read get_tag (Reads-get_tag t v.0)) (
    Reads-if_ok (c ++ (t ∷ []))
      (Reads-by refl (append_assoc c (t ∷ []) ts) (Reads-get_each_tag ts (c ++ (t ∷ [])) v.1)))

pub Reads-get_tags : (c : TagCollection) → TagsAreValid c → Reads (get_tags []) (tags_bytes c) c
unfolding get_tags tags_bytes
Reads-get_tags c v =
    let few : ltb max_elems (length c) ≡ false = ground (arith, v.few) in
    Reads->>= _ _ (Reads-read_uint 4 (length c) (omega (arith, v.few)))
      (Reads-if_ok [] (rw few (Reads-get_each_tag c [] v.each)))

Writes-put_each_tag :
    (ts : TagCollection) → All TagIsValid ts → Writes (put_each_tag ts) (each_tag_bytes ts)
unfolding put_each_tag each_tag_bytes
Writes-put_each_tag [] v = Writes-none
Writes-put_each_tag (t ∷ ts) v = Writes-then (Writes-put_tag t v.0) (Writes-put_each_tag ts v.1)

pub Writes-put_tags : (c : TagCollection) → TagsAreValid c → Writes (put_tags c) (tags_bytes c)
unfolding put_tags tags_bytes
Writes-put_tags c v =
    Writes-then
      (Writes-cong (ap (le_bytes 4) (omega (arith, v.few)))
        (Writes-write_uint 4 (length c % 2 ^ 32)))
      (Writes-put_each_tag c v.each)

size_each :
    (ts : TagCollection) → All TagIsValid ts → size_tags ts ≡ pos (4 + length (each_tag_bytes ts))
unfolding size_tags add_size each_tag_bytes plus
size_each [] v = refl
size_each (t ∷ ts) v =
    rw (size_tag-tag_bytes t v.0, size_each ts v.1)
      (ap pos (omega (arith, length-append (tag_bytes t) (each_tag_bytes ts))))

pub size_tags-tags_bytes :
    (c : TagCollection) → TagsAreValid c → size_tags c ≡ pos (length (tags_bytes c))
unfolding tags_bytes
size_tags-tags_bytes c v =
    size_each c v.each
    ∙ ap pos (
        omega (
          arith,
          length-append (le_bytes 4 (length c)) (each_tag_bytes c),
          length-le_bytes 4 (length c),
        ))
