-- ===== src/Proto/Tag/RoundTrip.antt =====
-- proto/tag.go: `Get`, `Put` and `Size` on tags that fit the wire format.
use ged2k.Prelude.{
  ℕ, suc, ◌+◌, ◌%◌, ◌^◌, ◌<◌, ◌≡◌, ◌≢◌, refl, sym, ap, ◌∙◌, none, some, List, [], ◌∷◌, ◌++◌, length,
  replicate, length-replicate, length-append, bit_and, bit_or, true, ◌==◌, lt→ltb, arith, not, ◌&&◌,
}
use ged2k.Prelude.Bits.{passes_below, passes_below-at}
use ged2k.Proto.Buffer.{pure, ◌>>=◌, le_bytes, make_buffer, reread, read_slice, if_ok}
use ged2k.Proto.Buffer.Wire.{
  Reads, Writes, Reads->>=, Reads-map, Reads-pure, Reads-by, Reads-if_ok, Reads-read_num,
  Reads-read_slice, Reads-Writes, Writes-write_slice, Writes-write_uint, Writes-write, Writes-then,
  Writes-cong, length-le_bytes,
}
use ged2k.Proto.Tag.{
  Tag, TagType, empty_tag, set_key, get_name, get_id, get_key, get_head, get_length, get_size,
  get_value, get_tag, Class, fixed, counted, unknown, class, put_key, put_value, put_tag, size_key,
  size_with, size_tag,
}
use ged2k.Proto.Tag.Valid.{
  fixed_size, ValueFits, KeyFits, TagIsValid, key_bytes, counter_bytes, tag_bytes,
}
use native.Mathlib.Nat.{mod-eq_of_lt}

top_bit_table :
    passes_below 128 (λ x.
      bit_or x 0x80 == x + 128
      && not (bit_and (x + 128) 0x80 == 0)
      && bit_and (x + 128) 0x7f == x
      && bit_and x 0x80 == 0)
    ≡ true
unfolding passes_below
top_bit_table = refl

top_bit :
    (x : ℕ)
    → x < 128
    → (bit_or x 0x80 ≡ x + 128)
      × (bit_and (x + 128) 0x80 ≢ 0)
      × (bit_and (x + 128) 0x7f ≡ x)
      × (bit_and x 0x80 ≡ 0)
top_bit x h = ground (arith, passes_below-at 128 _ x top_bit_table h)

Reads-get_key_id :
    (t : Tag) (id : ℕ) → id < 2 ^ 8 → Reads (get_id t) (le_bytes 1 id) (record t { id = id })
unfolding get_id
Reads-get_key_id t id h = Reads-map _ (Reads-read_num 1 t.id id (omega arith))

set_key-name :
    (t : Tag) (name : List ℕ) → length name ≢ 1 → set_key t name ≡ record t { name = name }
unfolding set_key
set_key-name t name one = ground arith

Reads-get_name :
    (t : Tag) (name : List ℕ)
    → name ≢ []
    → length name ≢ 1
    → length name < 2 ^ 16
    → Reads (get_name t) (le_bytes 2 (length name) ++ name) (record t { name = name })
unfolding get_name
Reads-get_name t name ne one h = Reads->>= _ _ (Reads-read_num 2 0 (length name) (omega arith)) (
    Reads-if_ok t (
      Reads-by refl (set_key-name t name one) (
        Reads-map (set_key t) (
          Reads-read_slice (replicate (length name) 0) name (length-replicate (length name) 0)
            ne))))

get_key_id :
    (t : Tag) (type : ℕ)
    → type < 2 ^ 7
    → t.type ≡ type + 128
    → get_key t ≡ get_id (record t { type = type })
unfolding get_key
get_key_id t type h e = ground (arith, top_bit type h)

get_key_name : (t : Tag) → t.type < 2 ^ 7 → get_key t ≡ get_name t
unfolding get_key
get_key_name t h = ground (arith, top_bit t.type h)

Reads-get_head :
    (type id : ℕ) (name : List ℕ)
    → type < 2 ^ 7
    → KeyFits id name
    → Reads
        (get_head empty_tag)
        (key_bytes type id name)
        (record { type = type; id = id; name = name; value = [] })
unfolding get_head key_bytes
Reads-get_head type id [] h k =
    Reads->>= _ _ (Reads-read_num 1 0 (type + 128) (omega arith)) (
      Reads-if_ok _
        (Reads-by (get_key_id _ type h refl) refl (Reads-get_key_id _ id (omega arith))))
Reads-get_head type id (c ∷ []) h k = absurd (k.1 refl)
Reads-get_head type id (c ∷ d ∷ cs) h k = Reads->>= _ _ (Reads-read_num 1 0 type (omega arith)) (
    Reads-if_ok _ (
      Reads-by (get_key_name _ (omega arith)) (ground (arith, k.0))
        (Reads-get_name _ (c ∷ d ∷ cs) (λ e. cc) (λ e. absurd (omega arith)) k.2)))

get_size_fixed :
    (type : TagType) → class type ≡ fixed → get_size type ≡ pure (some (fixed_size type))
unfolding class get_size fixed_size
get_size_fixed type h = ground arith

get_size_counted : (type width : ℕ) → class type ≡ counted width → get_size type ≡ get_length width
unfolding class get_size
get_size_counted type width h = ground arith

-- The switch finds the length of a value that the format can hold.
Reads-get_size :
    (type n : ℕ) (c : Class)
    → class type ≡ c
    → ValueFits c type n
    → Reads (get_size type) (counter_bytes c n) (some n)
unfolding counter_bytes get_length
Reads-get_size type n fixed e h =
    Reads-by (get_size_fixed type e) (ap some (sym h)) (Reads-pure (some (fixed_size type)))
Reads-get_size type n (counted width) e h =
    Reads-by (get_size_counted type width e) refl (Reads-map some (Reads-read_num width 0 n h.0))
Reads-get_size type n unknown e h = absurd h

fixed_size-pos : (type : ℕ) → class type ≡ fixed → (0 < fixed_size type) × (fixed_size type < 100)
unfolding class fixed_size
fixed_size-pos type h = ground arith

ValueFits-lt : (type n : ℕ) (c : Class) → class type ≡ c → ValueFits c type n → n < 100000
ValueFits-lt type n fixed e h = omega (arith, fixed_size-pos type e)
ValueFits-lt type n (counted width) e h = h.1
ValueFits-lt type n unknown e h = absurd h

get_value_full :
    (t : Tag) (n : ℕ)
    → suc n < 100000
    → get_value t (some (suc n))
      ≡ if_ok t (read_slice (replicate (suc n) 0) >>= λ v. pure (record t { value = v }))
unfolding get_value
get_value_full t n h = rw (lt→ltb 0 (suc n) (omega arith), lt→ltb (suc n) 100000 h)

Reads-get_value :
    (t : Tag) (v : List ℕ)
    → length v < 100000
    → t.value ≡ []
    → Reads (get_value t (some (length v))) v (record t { value = v })
Reads-get_value t [] h e =
    unfold get_value in Reads-if_ok t (Reads-by refl (ground arith) (Reads-pure t))
Reads-get_value t (b ∷ bs) h e = Reads-by (get_value_full t (length bs) h) refl (
    Reads-if_ok t (
      Reads-map _ (
        Reads-read_slice (replicate (length (b ∷ bs)) 0) (b ∷ bs) (length-replicate _ 0)
          (λ e. cc))))

pub Reads-get_tag : (t : Tag) → TagIsValid t → Reads (get_tag empty_tag) (tag_bytes t) t
unfolding get_tag tag_bytes
Reads-get_tag t v = Reads->>= _ _ (Reads-get_head t.type t.id t.name v.type_fits v.key_fits) (
    Reads->>= _ _ (Reads-get_size t.type (length t.value) (class t.type) refl v.value_fits) (
      Reads-get_value _ t.value
        (ValueFits-lt t.type (length t.value) (class t.type) refl v.value_fits) refl))

Writes-put_key :
    (t : Tag) (name : List ℕ)
    → t.type < 2 ^ 7
    → length name < 2 ^ 16
    → Writes (put_key t name) (key_bytes t.type t.id name)
unfolding put_key key_bytes
Writes-put_key t [] h k =
    Writes-cong (rw (top_bit t.type h).0)
      (Writes-then (Writes-write_uint 1 (bit_or t.type 0x80)) (Writes-write_uint 1 t.id))
Writes-put_key t (c ∷ cs) h k =
    let fits : length (c ∷ cs) % 2 ^ 16 ≡ length (c ∷ cs) = omega arith in
    Writes-cong (rw fits) (
      Writes-then (Writes-write_uint 1 t.type) (
        Writes-then (Writes-write_uint 2 (length (c ∷ cs) % 2 ^ 16)) (Writes-write_slice (c ∷ cs))))

Writes-put_value :
    (t : Tag) (c : Class)
    → ValueFits c t.type (length t.value)
    → Writes (put_value t c) (counter_bytes c (length t.value) ++ t.value)
unfolding put_value counter_bytes
Writes-put_value t fixed h = Writes-write_slice t.value
Writes-put_value t (counted width) h = Writes-cong (rw (mod-eq_of_lt h.0)) (
    Writes-then (Writes-write_uint width (length t.value % 256 ^ width))
      (Writes-write_slice t.value))
Writes-put_value t unknown h = absurd h

KeyFits-length : (id : ℕ) (name : List ℕ) → KeyFits id name → length name < 2 ^ 16
KeyFits-length id [] h = omega arith
KeyFits-length id (c ∷ cs) h = h.2

pub Writes-put_tag : (t : Tag) → TagIsValid t → Writes (put_tag t) (tag_bytes t)
unfolding put_tag tag_bytes
Writes-put_tag t v = Writes-write (
    Writes-then (Writes-put_key t t.name v.type_fits (KeyFits-length t.id t.name v.key_fits))
      (Writes-put_value t (class t.type) v.value_fits))

length-key_bytes : (type id : ℕ) (name : List ℕ) → length (key_bytes type id name) ≡ size_key name
unfolding key_bytes size_key
length-key_bytes type id [] = omega (
  arith,
  length-append (le_bytes 1 (type + 128)) (le_bytes 1 id),
  length-le_bytes 1 (type + 128),
  length-le_bytes 1 id,
)
length-key_bytes type id (c ∷ cs) = omega (
  arith,
  length-append (le_bytes 1 type) (le_bytes 2 (length (c ∷ cs)) ++ (c ∷ cs)),
  length-append (le_bytes 2 (length (c ∷ cs))) (c ∷ cs),
  length-le_bytes 1 type,
  length-le_bytes 2 (length (c ∷ cs)),
)

length-value_bytes :
    (key : ℕ) (type : ℕ) (v : List ℕ) (c : Class)
    → ValueFits c type (length v)
    → size_with key (length v) c ≡ some (key + length (counter_bytes c (length v) ++ v))
unfolding size_with counter_bytes
length-value_bytes key type v fixed h = refl
length-value_bytes key type v (counted width) h =
    ap some
      (omega (arith, length-append (le_bytes width (length v)) v, length-le_bytes width (length v)))
length-value_bytes key type v unknown h = absurd h

-- The `Size` of a valid tag is the number of bytes that stand for it on the wire.
pub size_tag-tag_bytes : (t : Tag) → TagIsValid t → size_tag t ≡ some (length (tag_bytes t))
unfolding size_tag tag_bytes
size_tag-tag_bytes t v =
    length-value_bytes (size_key t.name) t.type t.value (class t.type) v.value_fits
    ∙ ap some (
        omega (
          arith,
          length-append (key_bytes t.type t.id t.name)
              (counter_bytes (class t.type) (length t.value) ++ t.value),
          length-key_bytes t.type t.id t.name,
        ))

-- A valid tag, written to a buffer of its `Size`, reads back into an empty tag, without an error and
-- to the end of the buffer.
pub get_tag-put_tag :
    (t : Tag) (n : ℕ)
    → TagIsValid t
    → size_tag t ≡ some n
    → get_tag empty_tag (reread (put_tag t (make_buffer n)))
      ≡ (t, record { bytes = tag_bytes t; err = none; pos = n })
get_tag-put_tag t n v e =
    let size : length (tag_bytes t) ≡ n = cc (size_tag-tag_bytes t v, e) in
    rw size at (Reads-Writes (Writes-put_tag t v) (Reads-get_tag t v))
