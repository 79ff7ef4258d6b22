-- ===== src/Proto/Parts/RoundTrip.antt =====
-- proto/peer.go: `RequestParts32`, `RequestParts64` and `SendingPart` on the wire.
use ged2k.Prelude.{
  ℕ, zero, suc, ◌*◌, ◌%◌, ◌^◌, ◌<◌, ◌≡◌, refl, ap, none, List, [], ◌∷◌, ◌++◌, length, length-append,
  All, arith, Bool, true, false, if◌then◌else◌,
}
use ged2k.Proto.Buffer.{le_bytes, make_buffer, reread}
use ged2k.Proto.Buffer.Wire.{
  Reads, Writes, Reads->>=, Reads-map, Reads-pure, Reads-read, Reads-read_uint, Reads-read_num,
  Reads-Writes, Writes-write_uint, Writes-write, Writes-then, Writes-cong, Writes-none,
  length-le_bytes,
}
use ged2k.Proto.Basic.{Ed2kHash, zero_hash, get_hash}
use ged2k.Proto.Basic.RoundTrip.{IsHash, Reads-get_hash, Writes-put_hash}
use ged2k.Proto.Parts.{
  RequestParts, parts_in_request, get_offsets, put_offsets, get_request_parts, put_request_parts,
  size_request_parts, SendingPart, get_long_ends, get_short_ends, get_sending_part,
  put_sending_part, size_sending_part,
}

abbrev pub Fits : ℕ → List ℕ → Type 0
Fits width xs = All (λ x. x < 256 ^ width) xs

-- Three offsets to begin and three to end with, each of the width of the request.
pub record RequestIsValid (width : ℕ) (rp : RequestParts) : Type 0 where
  pub hash_fits : IsHash rp.hash
  pub begins : length rp.begin_offset ≡ parts_in_request
  pub ends : length rp.end_offset ≡ parts_in_request
  pub begins_fit : Fits width rp.begin_offset
  pub ends_fit : Fits width rp.end_offset

abbrev pub empty_request : RequestParts
empty_request = record {
  hash = zero_hash;
  begin_offset = 0 ∷ 0 ∷ 0 ∷ [];
  end_offset = 0 ∷ 0 ∷ 0 ∷ [];
}

offsets_bytes : ℕ → List ℕ → List ℕ
offsets_bytes width [] = []
offsets_bytes width (x ∷ xs) = le_bytes width x ++ offsets_bytes width xs

pub request_bytes : ℕ → RequestParts → List ℕ
request_bytes width rp =
    rp.hash ++ (offsets_bytes width rp.begin_offset ++ offsets_bytes width rp.end_offset)

Reads-get_offsets :
    (width n : ℕ) (xs : List ℕ)
    → length xs ≡ n
    → Fits width xs
    → Reads (get_offsets width n) (offsets_bytes width xs) xs
unfolding get_offsets offsets_bytes
Reads-get_offsets width zero [] e v = Reads-pure []
Reads-get_offsets width (suc n) [] e v = absurd (omega arith)
Reads-get_offsets width zero (x ∷ xs) e v = absurd (omega arith)
Reads-get_offsets width (suc n) (x ∷ xs) e v =
    Reads->>= _ _ (Reads-read_uint width x v.0)
      (Reads-map _ (Reads-get_offsets width n xs (omega arith) v.1))

Writes-put_offsets :
    (width : ℕ) (xs : List ℕ) → Writes (put_offsets width xs) (offsets_bytes width xs)
unfolding put_offsets offsets_bytes
Writes-put_offsets width [] = Writes-none
Writes-put_offsets width (x ∷ xs) =
    Writes-then (Writes-write_uint width x) (Writes-put_offsets width xs)

length-offsets_bytes :
    (width : ℕ) (xs : List ℕ) → length (offsets_bytes width xs) ≡ length xs * width
unfolding offsets_bytes
length-offsets_bytes width [] = ground arith
length-offsets_bytes width (x ∷ xs) = ground (
  arith,
  length-append (le_bytes width x) (offsets_bytes width xs),
  length-le_bytes width x,
  length-offsets_bytes width xs,
)

Reads-get_request_parts :
    (width : ℕ) (rp : RequestParts)
    → RequestIsValid width rp
    → Reads (get_request_parts width empty_request) (request_bytes width rp) rp
unfolding get_request_parts request_bytes
Reads-get_request_parts width rp v =
    Reads->>= _ _ (Reads-read get_hash (Reads-get_hash zero_hash rp.hash refl v.hash_fits)) (
      Reads->>= _ _ (Reads-get_offsets width 3 rp.begin_offset v.begins v.begins_fit)
        (Reads-map _ (Reads-get_offsets width 3 rp.end_offset v.ends v.ends_fit)))

Writes-put_request_parts :
    (width : ℕ) (rp : RequestParts) → Writes (put_request_parts width rp) (request_bytes width rp)
unfolding put_request_parts request_bytes
Writes-put_request_parts width rp = Writes-then (Writes-write (Writes-put_hash rp.hash)) (
    Writes-then (Writes-put_offsets width rp.begin_offset) (Writes-put_offsets width rp.end_offset))

length-request_bytes :
    (width : ℕ) (rp : RequestParts)
    → RequestIsValid width rp
    → length (request_bytes width rp) ≡ size_request_parts width
unfolding request_bytes
length-request_bytes width rp v = ground (
  arith,
  v.hash_fits,
  v.begins,
  v.ends,
  length-append rp.hash (offsets_bytes width rp.begin_offset ++ offsets_bytes width rp.end_offset),
  length-append (offsets_bytes width rp.begin_offset) (offsets_bytes width rp.end_offset),
  length-offsets_bytes width rp.begin_offset,
  length-offsets_bytes width rp.end_offset,
)

-- A request for three parts, with a hash of 16 bytes and offsets that fit `width` bytes, written to
-- a buffer of its size, reads back into an empty one, without an error and to the end.
pub get_request_parts-put_request_parts :
    (width : ℕ) (rp : RequestParts)
    → RequestIsValid width rp
    → get_request_parts width empty_request
        (reread (put_request_parts width rp (make_buffer (size_request_parts width))))
      ≡ (rp, record { bytes = request_bytes width rp; err = none; pos = size_request_parts width })
get_request_parts-put_request_parts width rp v =
    rw (length-request_bytes width rp v) at
      (Reads-Writes (Writes-put_request_parts width rp) (Reads-get_request_parts width rp v))

pub record SendingIsValid (sp : SendingPart) : Type 0 where
  pub hash_fits : IsHash sp.hash
  pub begin_fits : sp.begin < (if sp.extended then 2 ^ 64 else 2 ^ 32)
  pub end_fits : sp.end < (if sp.extended then 2 ^ 64 else 2 ^ 32)

-- The width of an offset of a part.
abbrev pub width_of : Bool → ℕ
width_of extended = if extended then 8 else 4

pub sending_bytes : SendingPart → List ℕ
sending_bytes sp =
    sp.hash ++ (le_bytes (width_of sp.extended) sp.begin ++ le_bytes (width_of sp.extended) sp.end)

abbrev pub empty_sending : Bool → SendingPart
empty_sending extended = record { hash = zero_hash; begin = 0; end = 0; extended = extended }

Reads-get_sending_part :
    (hash : Ed2kHash) (begin end : ℕ) (extended : Bool)
    → SendingIsValid (record { hash = hash; begin = begin; end = end; extended = extended })
    → Reads
        (get_sending_part (empty_sending extended))
        (sending_bytes (record { hash = hash; begin = begin; end = end; extended = extended }))
        (record { hash = hash; begin = begin; end = end; extended = extended })
unfolding get_sending_part sending_bytes get_long_ends get_short_ends
Reads-get_sending_part hash begin end true v =
    Reads->>= _ _ (Reads-read get_hash (Reads-get_hash zero_hash hash refl v.hash_fits)) (
      Reads->>= _ _ (Reads-read_num 8 0 begin (omega (arith, v.begin_fits)))
        (Reads-map _ (Reads-read_num 8 0 end (omega (arith, v.end_fits)))))
Reads-get_sending_part hash begin end false v =
    Reads->>= _ _ (Reads-read get_hash (Reads-get_hash zero_hash hash refl v.hash_fits)) (
      Reads->>= _ _ (Reads-read_uint 4 begin (omega (arith, v.begin_fits)))
        (Reads-map _ (Reads-read_uint 4 end (omega (arith, v.end_fits)))))

Writes-put_sending_part :
    (hash : Ed2kHash) (begin end : ℕ) (extended : Bool)
    → SendingIsValid (record { hash = hash; begin = begin; end = end; extended = extended })
    → Writes
        (put_sending_part (record { hash = hash; begin = begin; end = end; extended = extended }))
        (sending_bytes (record { hash = hash; begin = begin; end = end; extended = extended }))
unfolding put_sending_part sending_bytes
Writes-put_sending_part hash begin end true v =
    Writes-then (Writes-write (Writes-put_hash hash))
      (Writes-then (Writes-write_uint 8 begin) (Writes-write_uint 8 end))
Writes-put_sending_part hash begin end false v = Writes-then (Writes-write (Writes-put_hash hash)) (
    Writes-then
      (Writes-cong (ap (le_bytes 4) (omega (arith, v.begin_fits)))
        (Writes-write_uint 4 (begin % 2 ^ 32)))
      (Writes-cong (ap (le_bytes 4) (omega (arith, v.end_fits)))
        (Writes-write_uint 4 (end % 2 ^ 32))))

length-sending_bytes :
    (hash : Ed2kHash) (begin end : ℕ) (extended : Bool)
    → IsHash hash
    → length (sending_bytes (record { hash = hash; begin = begin; end = end; extended = extended }))
      ≡ size_sending_part (record { hash = hash; begin = begin; end = end; extended = extended })
unfolding sending_bytes size_sending_part le_bytes
length-sending_bytes hash begin end true v =
    omega (arith, v, length-append hash (le_bytes 8 begin ++ le_bytes 8 end))
length-sending_bytes hash begin end false v =
    omega (arith, v, length-append hash (le_bytes 4 begin ++ le_bytes 4 end))

-- The announcement of a part, extended or not, whose offsets fit its width, reads back from a buffer of
-- its size into an empty one that is extended as it is.
pub get_sending_part-put_sending_part :
    (sp : SendingPart)
    → SendingIsValid sp
    → get_sending_part
        (empty_sending sp.extended)
        (reread (put_sending_part sp (make_buffer (size_sending_part sp))))
      ≡ (sp, record { bytes = sending_bytes sp; err = none; pos = size_sending_part sp })
get_sending_part-put_sending_part sp v =
    rw (length-sending_bytes sp.hash sp.begin sp.end sp.extended v.hash_fits) at (
      Reads-Writes (Writes-put_sending_part sp.hash sp.begin sp.end sp.extended v)
        (Reads-get_sending_part sp.hash sp.begin sp.end sp.extended v))
