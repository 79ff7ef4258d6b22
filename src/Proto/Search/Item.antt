-- ===== src/Proto/Search/Item.antt =====
-- proto/search.go: `ToSearchItem`, the found file that a packet of a search result describes.
use ged2k.Prelude.{ℕ, ◌==◌, if◌then◌else◌, List, [], ◌∷◌, Outcome, ok, ◌>>=◌}
use ged2k.Prelude.Int.{ℤ, pos}
use ged2k.Proto.Basic.{Ed2kHash, Endpoint}
use ged2k.Proto.Tag.{Tag}
use ged2k.Proto.Tag.Create.{as_int, as_uint32, as_uint64, is_uint32, is_uint64}
use ged2k.Proto.Packets.{UsualPacket}
use ged2k.Proto.Search.Build.{
  ft_filesize, ft_sources, ft_complete_sources, ft_media_bitrate, ft_media_length, ft_media_codec,
}

abbrev ft_filename : ℕ
ft_filename = 0x01

pub record SearchItem : Type 0 where
  pub h : Ed2kHash
  pub point : Endpoint
  pub filename : List ℕ
  pub filesize : ℕ
  pub sources : ℤ
  pub complete_sources : ℤ
  pub bitrate : ℤ
  pub media_length : ℤ
  pub codec : List ℕ

-- A size of another type is left out.
unfoldable pub read_filesize : Tag → SearchItem → Outcome SearchItem
read_filesize x res =
    if is_uint32 x
    then (as_uint32 x >>= λ n. ok (record res { filesize = n }))
    else if is_uint64 x
    then (as_uint64 x >>= λ n. ok (record res { filesize = n }))
    else ok res

-- The switch. An accessor may panic.
unfoldable pub read_property : Tag → SearchItem → Outcome SearchItem
read_property x res =
    if x.id == ft_filename
    then ok (record res { filename = x.value })
    else if x.id == ft_filesize
    then read_filesize x res
    else if x.id == ft_sources
    then (as_int x >>= λ n. ok (record res { sources = n }))
    else if x.id == ft_complete_sources
    then (as_int x >>= λ n. ok (record res { complete_sources = n }))
    else if x.id == ft_media_bitrate
    then (as_int x >>= λ n. ok (record res { bitrate = n }))
    else if x.id == ft_media_length
    then (as_int x >>= λ n. ok (record res { media_length = n }))
    else if x.id == ft_media_codec
    then ok (record res { codec = x.value })
    else ok res

unfoldable pub read_properties : List Tag → SearchItem → Outcome SearchItem
read_properties [] res = ok res
read_properties (x ∷ rest) res = read_property x res >>= read_properties rest

unfoldable pub to_search_item : UsualPacket → Outcome SearchItem
to_search_item up = read_properties up.properties (record {
  h = up.hash;
  point = up.point;
  filename = [];
  filesize = 0;
  sources = pos 0;
  complete_sources = pos 0;
  bitrate = pos 0;
  media_length = pos 0;
  codec = [];
})
