-- ===== src/Proto/Packets/Hashes.antt =====
-- proto/peer.go: `HashSet` on the wire.
use ged2k.Prelude.{
  ℕ, ◌*◌, ◌%◌, ◌^◌, ◌≤◌, ◌≡◌, refl, ap, none, List, [], ◌∷◌, ◌++◌, length, length-append, All,
  arith, ltb, false,
}
use ged2k.Proto.Buffer.{le_bytes, make_buffer, reread}
use ged2k.Proto.Buffer.Wire.{
  Reads, Writes, Reads->>=, Reads-map, Reads-pure, Reads-read, Reads-read_uint, Reads-Writes,
  Writes-write_uint, Writes-write, Writes-then, Writes-cong, Writes-none, length-le_bytes,
}
use ged2k.Proto.Basic.{Ed2kHash, zero_hash, get_hash}
use ged2k.Proto.Basic.RoundTrip.{IsHash, Reads-get_hash, Writes-put_hash}
use ged2k.Proto.Tags.{max_elems}
use ged2k.Proto.Packets.{HashSet, get_hashes, get_hash_set, put_hashes, put_hash_set, size_hash_set}

pub record HashSetIsValid (hs : HashSet) : Type 0 where
  pub hash_fits : IsHash hs.hash
  pub hashes_fit : All IsHash hs.piece_hashes
  pub few : length hs.piece_hashes ≤ max_elems

abbrev pub empty_hash_set : HashSet
empty_hash_set = record { hash = zero_hash; piece_hashes = [] }

hashes_bytes : List Ed2kHash → List ℕ
hashes_bytes [] = []
hashes_bytes (h ∷ hs) = h ++ hashes_bytes hs

pub hash_set_bytes : HashSet → List ℕ
hash_set_bytes hs = hs.hash ++ (le_bytes 2 (length hs.piece_hashes) ++ hashes_bytes hs.piece_hashes)

Reads-get_hashes :
    (hs : List Ed2kHash) → All IsHash hs → Reads (get_hashes (length hs)) (hashes_bytes hs) hs
unfolding get_hashes hashes_bytes
Reads-get_hashes [] v = Reads-pure []
Reads-get_hashes (h ∷ hs) v =
    Reads->>= _ _ (Reads-read get_hash (Reads-get_hash zero_hash h refl v.0))
      (Reads-map _ (Reads-get_hashes hs v.1))

Writes-put_hashes : (hs : List Ed2kHash) → Writes (put_hashes hs) (hashes_bytes hs)
unfolding put_hashes hashes_bytes
Writes-put_hashes [] = Writes-none
Writes-put_hashes (h ∷ hs) = Writes-then (Writes-write (Writes-put_hash h)) (Writes-put_hashes hs)

length-hashes_bytes :
    (hs : List Ed2kHash) → All IsHash hs → length (hashes_bytes hs) ≡ length hs * 16
unfolding hashes_bytes
length-hashes_bytes [] v = omega arith
length-hashes_bytes (h ∷ hs) v =
    omega (arith, v.0, length-append h (hashes_bytes hs), length-hashes_bytes hs v.1)

pub Reads-get_hash_set :
    (hs : HashSet) → HashSetIsValid hs → Reads (get_hash_set empty_hash_set) (hash_set_bytes hs) hs
unfolding get_hash_set hash_set_bytes
Reads-get_hash_set hs v =
    let few : ltb max_elems (length hs.piece_hashes) ≡ false = ground (arith, v.few) in
    Reads->>= _ _ (Reads-read get_hash (Reads-get_hash zero_hash hs.hash refl v.hash_fits)) (
      Reads->>= _ _ (Reads-read_uint 2 (length hs.piece_hashes) (omega (arith, v.few)))
        (rw few (Reads-map _ (Reads-get_hashes hs.piece_hashes v.hashes_fit))))

pub Writes-put_hash_set :
    (hs : HashSet) → HashSetIsValid hs → Writes (put_hash_set hs) (hash_set_bytes hs)
unfolding put_hash_set hash_set_bytes
Writes-put_hash_set hs v = Writes-then (Writes-write (Writes-put_hash hs.hash)) (
    Writes-then
      (Writes-cong (ap (le_bytes 2) (omega (arith, v.few)))
        (Writes-write_uint 2 (length hs.piece_hashes % 2 ^ 16)))
      (Writes-put_hashes hs.piece_hashes))

pub length-hash_set_bytes :
    (hs : HashSet) → HashSetIsValid hs → length (hash_set_bytes hs) ≡ size_hash_set hs
unfolding hash_set_bytes
length-hash_set_bytes hs v = omega (
  arith,
  v.hash_fits,
  length-append hs.hash (le_bytes 2 (length hs.piece_hashes) ++ hashes_bytes hs.piece_hashes),
  length-append (le_bytes 2 (length hs.piece_hashes)) (hashes_bytes hs.piece_hashes),
  length-le_bytes 2 (length hs.piece_hashes),
  length-hashes_bytes hs.piece_hashes v.hashes_fit,
)

-- A hash set of at most 1000 pieces, each hash of 16 bytes, written to a buffer of its size, reads back
-- into an empty one, without an error and to the end.
pub get_hash_set-put_hash_set :
    (hs : HashSet)
    → HashSetIsValid hs
    → get_hash_set empty_hash_set (reread (put_hash_set hs (make_buffer (size_hash_set hs))))
      ≡ (hs, record { bytes = hash_set_bytes hs; err = none; pos = size_hash_set hs })
get_hash_set-put_hash_set hs v =
    rw (length-hash_set_bytes hs v) at
      (Reads-Writes (Writes-put_hash_set hs v) (Reads-get_hash_set hs v))
