-- ===== src/Proto/Packets/RoundTrip.antt =====
-- proto/peer.go: `HelloAnswer`, `Hello` and `FileStatusAnswer` on the wire.
use ged2k.Prelude.{
  ℕ, ◌+◌, ◌^◌, ◌<◌, ◌≡◌, ◌≢◌, refl, ap, none, some, List, [], ◌++◌, length, length-append, arith,
  ltb, Bool-cases, inl, inr, Option,
}
use ged2k.Prelude.Int.{ℤ, pos, negsuc, plus}
use ged2k.Proto.Buffer.{
  StateBuffer, Error, invalid_type, eof, ◌>>=◌, ◌>>◌, pure, make_buffer, reread, read, read_uint8,
  read_unreadable, fail_with,
}
use ged2k.Proto.Buffer.Wire.{
  Reads, Writes, Reads->>=, Reads-map, Reads-read, Reads-Writes, Writes-write, Writes-then,
}
use ged2k.Proto.Basic.{zero_hash, get_hash, get_endpoint, empty_endpoint}
use ged2k.Proto.Basic.RoundTrip.{
  IsHash, EndpointIsValid, endpoint_bytes, Reads-get_hash, Writes-put_hash, Reads-get_endpoint,
  Writes-put_endpoint, length-endpoint_bytes,
}
use ged2k.Proto.Tags.{get_tags}
use ged2k.Proto.Tags.RoundTrip.{
  TagsAreValid, tags_bytes, Reads-get_tags, Writes-put_tags, size_tags-tags_bytes,
}
use ged2k.Proto.BitField.{get_bit_field}
use ged2k.Proto.BitField.Bits.{BitFieldIsValid}
use ged2k.Proto.BitField.RoundTrip.{
  empty_bit_field, bit_field_bytes, Reads-get_bit_field, Writes-put_bit_field,
  length-bit_field_bytes,
}
use ged2k.Proto.Packets.{
  HelloAnswer, get_hello_answer, put_hello_answer, size_hello_answer, Hello, get_hello,
  read_by_value, FileStatusAnswer, get_file_status_answer, put_file_status_answer,
  size_file_status_answer,
}

pub record HelloAnswerIsValid (ha : HelloAnswer) : Type 0 where
  pub hash_fits : IsHash ha.hash
  pub point_fits : EndpointIsValid ha.point
  pub properties_fit : TagsAreValid ha.properties
  pub server_point_fits : EndpointIsValid ha.server_point

abbrev pub empty_hello_answer : HelloAnswer
empty_hello_answer = record {
  hash = zero_hash;
  point = empty_endpoint;
  properties = [];
  server_point = empty_endpoint;
}

pub hello_answer_bytes : HelloAnswer → List ℕ
hello_answer_bytes ha =
    ha.hash
    ++ (endpoint_bytes ha.point ++ (tags_bytes ha.properties ++ endpoint_bytes ha.server_point))

Reads-get_hello_answer :
    (ha : HelloAnswer)
    → HelloAnswerIsValid ha
    → Reads (get_hello_answer empty_hello_answer) (hello_answer_bytes ha) ha
unfolding get_hello_answer hello_answer_bytes
Reads-get_hello_answer ha v =
    Reads->>= _ _ (Reads-read get_hash (Reads-get_hash zero_hash ha.hash refl v.hash_fits)) (
      Reads->>= _ _
        (Reads-read get_endpoint (Reads-get_endpoint empty_endpoint ha.point v.point_fits))
        (Reads->>= _ _ (Reads-read get_tags (Reads-get_tags ha.properties v.properties_fit)) (
          Reads-map _ (
            Reads-read get_endpoint
              (Reads-get_endpoint empty_endpoint ha.server_point v.server_point_fits)))))

Writes-put_hello_answer :
    (ha : HelloAnswer)
    → HelloAnswerIsValid ha
    → Writes (put_hello_answer ha) (hello_answer_bytes ha)
unfolding put_hello_answer hello_answer_bytes
Writes-put_hello_answer ha v = Writes-then (Writes-write (Writes-put_hash ha.hash)) (
    Writes-then (Writes-write (Writes-put_endpoint ha.point)) (
      Writes-then (Writes-write (Writes-put_tags ha.properties v.properties_fit))
        (Writes-write (Writes-put_endpoint ha.server_point))))

size_hello_answer-bytes :
    (ha : HelloAnswer)
    → HelloAnswerIsValid ha
    → size_hello_answer ha ≡ pos (length (hello_answer_bytes ha))
unfolding size_hello_answer hello_answer_bytes plus
size_hello_answer-bytes ha v = rw (size_tags-tags_bytes ha.properties v.properties_fit) (
    ap pos (
      omega (
        arith,
        v.hash_fits,
        length-append ha.hash (
            endpoint_bytes ha.point
            ++ (tags_bytes ha.properties ++ endpoint_bytes ha.server_point)),
        length-append (endpoint_bytes ha.point)
            (tags_bytes ha.properties ++ endpoint_bytes ha.server_point),
        length-append (tags_bytes ha.properties) (endpoint_bytes ha.server_point),
        length-endpoint_bytes ha.point,
        length-endpoint_bytes ha.server_point,
      )))

-- A valid answer to a hello, with at most 1000 valid tags, has a `Size` that is not negative. Written
-- to a buffer of that size it reads back into an empty one, without an error and to the end.
pub get_hello_answer-put_hello_answer :
    (ha : HelloAnswer)
    → HelloAnswerIsValid ha
    → (n : ℕ) × (size_hello_answer ha ≡ pos n)
      × (get_hello_answer empty_hello_answer (reread (put_hello_answer ha (make_buffer n)))
          ≡ (ha, record { bytes = hello_answer_bytes ha; err = none; pos = n }))
get_hello_answer-put_hello_answer ha v = (
  length (hello_answer_bytes ha),
  size_hello_answer-bytes ha v,
  Reads-Writes (Writes-put_hello_answer ha v) (Reads-get_hello_answer ha v),
)

some_error : (e : Error) → ◌≢◌ {A = Option Error} (some e) none
some_error e p = ground arith

read_unreadable_fails :
    {A : Type 0} (size : ℕ) (a : A) (bytes : List ℕ) (err : Option Error) (at_ : ℕ)
    → ((read_unreadable size a (record { bytes = bytes; err = err; pos = at_ })).0 ≡ a)
      × ((read_unreadable size a (record { bytes = bytes; err = err; pos = at_ })).1.err ≢ none)
unfolding read_unreadable fail_with
read_unreadable_fails size a bytes (some e) at_ = (refl, some_error e)
read_unreadable_fails size a bytes none at_ = elim (Bool-cases (ltb (length bytes) (size + at_))) [
  | inl e ↦ rw e (refl, some_error eof)
  | inr e ↦ rw e (refl, some_error invalid_type)
]

read_by_value_fails :
    {A : Type 0} (size : ℤ) (a : A) (bytes : List ℕ) (err : Option Error) (at_ : ℕ)
    → ((read_by_value size a (record { bytes = bytes; err = err; pos = at_ })).0 ≡ a)
      × ((read_by_value size a (record { bytes = bytes; err = err; pos = at_ })).1.err ≢ none)
unfolding read_by_value read fail_with
read_by_value_fails (pos size) a bytes err at_ = read_unreadable_fails size a bytes err at_
read_by_value_fails (negsuc size) a bytes (some e) at_ = (refl, some_error e)
read_by_value_fails (negsuc size) a bytes none at_ = (refl, some_error invalid_type)

-- `Hello.Get` reads the answer by value: on every buffer it ends in an error and leaves the hello as
-- it was.
pub get_hello_fails :
    (hello : Hello) (sb : StateBuffer)
    → ((get_hello hello sb).0 ≡ hello) × ((get_hello hello sb).1.err ≢ none)
unfolding get_hello ◌>>◌ ◌>>=◌ read_by_value read_unreadable pure fail_with
get_hello_fails hello sb =
    let after : StateBuffer = (read_uint8 sb).1 in
    let (same, failed) =
      read_by_value_fails (size_hello_answer hello.answer) hello.answer after.bytes after.err
        after.pos in
    (ap (λ a. record hello { answer = a }) same, failed)

pub record FileStatusIsValid (fs : FileStatusAnswer) : Type 0 where
  pub hash_fits : IsHash fs.hash
  pub bf_valid : BitFieldIsValid fs.bf
  pub bf_fits : fs.bf.bits < 2 ^ 16

pub file_status_bytes : FileStatusAnswer → List ℕ
file_status_bytes fs = fs.hash ++ bit_field_bytes fs.bf

abbrev pub empty_file_status : FileStatusAnswer
empty_file_status = record { hash = zero_hash; bf = empty_bit_field }

Reads-get_file_status_answer :
    (fs : FileStatusAnswer)
    → FileStatusIsValid fs
    → Reads (get_file_status_answer empty_file_status) (file_status_bytes fs) fs
unfolding get_file_status_answer file_status_bytes
Reads-get_file_status_answer fs v =
    Reads->>= _ _ (Reads-read get_hash (Reads-get_hash zero_hash fs.hash refl v.hash_fits))
      (Reads-map _ (Reads-read get_bit_field (Reads-get_bit_field fs.bf v.bf_valid v.bf_fits)))

Writes-put_file_status_answer :
    (fs : FileStatusAnswer)
    → FileStatusIsValid fs
    → Writes (put_file_status_answer fs) (file_status_bytes fs)
unfolding put_file_status_answer file_status_bytes
Writes-put_file_status_answer fs v =
    Writes-then (Writes-write (Writes-put_hash fs.hash))
      (Writes-write (Writes-put_bit_field fs.bf v.bf_fits))

length-file_status_bytes :
    (fs : FileStatusAnswer)
    → FileStatusIsValid fs
    → length (file_status_bytes fs) ≡ size_file_status_answer fs
unfolding file_status_bytes
length-file_status_bytes fs v = omega (
  arith,
  v.hash_fits,
  length-append fs.hash (bit_field_bytes fs.bf),
  length-bit_field_bytes fs.bf,
)

-- A file status with a valid bit field of less than 65536 bits, written to a buffer of its size, reads
-- back into an empty one, without an error and to the end.
pub get_file_status_answer-put_file_status_answer :
    (fs : FileStatusAnswer)
    → FileStatusIsValid fs
    → get_file_status_answer empty_file_status
        (reread (put_file_status_answer fs (make_buffer (size_file_status_answer fs))))
      ≡ (fs, record { bytes = file_status_bytes fs; err = none; pos = size_file_status_answer fs })
get_file_status_answer-put_file_status_answer fs v =
    rw (length-file_status_bytes fs v) at
      (Reads-Writes (Writes-put_file_status_answer fs v) (Reads-get_file_status_answer fs v))
