-- ===== src/Proto/Search.antt =====
-- proto/search.go: the entries of a search request, the packets around it and the search result.
-- A string is the list of its bytes.
pub mod Pack
pub mod Build
pub mod Scan
pub mod Item
pub mod Joined
pub mod Balance
pub mod Infix
pub mod Meaning
pub mod Written
use ged2k.Prelude.{
  ℕ, zero, suc, ◌+◌, ◌-◌, ◌^◌, ◌==◌, ◌||◌, ltb, if◌then◌else◌, Bool, Option, none, some, List, [],
  ◌∷◌, replicate, Outcome, ok, panic, ◌>>=◌,
}
use ged2k.Prelude.Int.{plus_int, ℤ, plus, pos}
use ged2k.Proto.Buffer.{
  StateBuffer, Reader, ◌|>◌, read_uint32, read_uint8, write, write_uint, fail_with, too_many,
  remain,
}
use ged2k.Proto.Basic.{
  ByteContainer, put_byte_container, size_byte_container, Ed2kHash, put_hash, size_hash, zero_hash,
  empty_endpoint,
}
use ged2k.Proto.Packets.{UsualPacket, get_usual_packet, size_usual_packet}

abbrev pub search_type_bool : ℕ
search_type_bool = 0x00

abbrev pub search_type_str : ℕ
search_type_str = 0x01

abbrev pub search_type_str_tag : ℕ
search_type_str_tag = 0x02

abbrev pub oper_and : ℕ
oper_and = 0x00

abbrev pub oper_or : ℕ
oper_or = 0x01

abbrev pub oper_not : ℕ
oper_not = 0x02

abbrev pub open_paren : ℕ
open_paren = 40

abbrev pub close_paren : ℕ
close_paren = 41

abbrev pub max_uint32 : ℕ
max_uint32 = 2 ^ 32 - 1

pub record NumericEntry : Type 0 where
  pub value : ℕ
  pub operator : ℕ
  pub tag : ByteContainer

-- A tag may be nil.
pub record StringEntry : Type 0 where
  pub value : ByteContainer
  pub tag : Option ByteContainer

-- The values of `Serializable` that a request is made of. An operator and a paren are bytes.
pub data Entry : Type 0 where
  numeric_entry : NumericEntry → Entry
  string_entry : StringEntry → Entry
  operator_entry : ℕ → Entry
  paren_entry : ℕ → Entry

abbrev pub create_numeric_entry : ℕ → ℕ → ℕ → Entry
create_numeric_entry val id op =
    numeric_entry (record { value = val; operator = op; tag = id ∷ [] })

abbrev pub create_string_entry : List ℕ → ℕ → Entry
create_string_entry val id = string_entry (record { value = val; tag = some (id ∷ []) })

abbrev pub create_string_entry_no_tag : List ℕ → Entry
create_string_entry_no_tag val = string_entry (record { value = val; tag = none })

abbrev pub create_and : Entry
create_and = operator_entry oper_and

abbrev pub create_or : Entry
create_or = operator_entry oper_or

abbrev pub create_not : Entry
create_not = operator_entry oper_not

abbrev pub create_close_paren : Entry
create_close_paren = paren_entry close_paren

abbrev pub create_open_paren : Entry
create_open_paren = paren_entry open_paren

-- No byte for the type of the number is written.
unfoldable pub put_numeric_entry : NumericEntry → StateBuffer → StateBuffer
put_numeric_entry entry sb =
    (if ltb entry.value max_uint32
      then (sb |> write_uint 4 entry.value)
      else (sb |> write_uint 8 entry.value))
    |> write_uint 1 entry.operator
    |> write (put_byte_container entry.tag)

unfoldable pub size_numeric_entry : NumericEntry → ℕ
size_numeric_entry entry =
    (if ltb entry.value max_uint32 then 4 else 8) + 1 + size_byte_container entry.tag

unfoldable pub put_string : ByteContainer → Option ByteContainer → StateBuffer → StateBuffer
put_string value none sb = sb |> write_uint 1 search_type_str |> write (put_byte_container value)
put_string value (some tag) sb =
    sb
    |> write_uint 1 search_type_str_tag
    |> write (put_byte_container value)
    |> write (put_byte_container tag)

unfoldable pub put_string_entry : StringEntry → StateBuffer → StateBuffer
unfolding put_string
put_string_entry entry sb = put_string entry.value entry.tag sb

unfoldable pub size_string : ByteContainer → Option ByteContainer → ℕ
size_string value none = 1 + size_byte_container value
size_string value (some tag) = 1 + size_byte_container value + size_byte_container tag

unfoldable pub size_string_entry : StringEntry → ℕ
unfolding size_string
size_string_entry entry = size_string entry.value entry.tag

-- Whatever the operator is.
unfoldable pub put_operator_entry : ℕ → StateBuffer → StateBuffer
put_operator_entry entry sb = sb |> write_uint 1 search_type_bool |> write_uint 1 0

abbrev pub size_operator_entry : ℕ
size_operator_entry = 1 + 1

unfoldable pub put_entry : Entry → StateBuffer → Outcome StateBuffer
put_entry (numeric_entry entry) sb = ok (put_numeric_entry entry sb)
put_entry (string_entry entry) sb = ok (put_string_entry entry sb)
put_entry (operator_entry entry) sb = ok (put_operator_entry entry sb)
put_entry (paren_entry entry) sb = panic

-- `Size` of a paren gives another type of number, so that `DataSize` panics before it is called.
unfoldable pub size_entry : Entry → Outcome ℕ
size_entry (numeric_entry entry) = ok (size_numeric_entry entry)
size_entry (string_entry entry) = ok (size_string_entry entry)
size_entry (operator_entry entry) = ok size_operator_entry
size_entry (paren_entry entry) = panic

unfoldable pub is_boolean : ℕ → Bool
is_boolean o = o == oper_and || o == oper_or || o == oper_not

abbrev pub SearchRequest : Type 0
SearchRequest = List Entry

unfoldable pub put_search_request : SearchRequest → StateBuffer → Outcome StateBuffer
put_search_request [] sb = ok sb
put_search_request (s ∷ rest) sb = put_entry s sb >>= put_search_request rest

unfoldable pub size_search_request : SearchRequest → Outcome ℕ
size_search_request [] = ok 0
size_search_request (s ∷ rest) = do n ← size_entry s; m ← size_search_request rest; ok (n + m)

abbrev pub put_search_more : StateBuffer → StateBuffer
put_search_more sb = sb

abbrev pub size_search_more : ℕ
size_search_more = 0

pub record GetFileSources : Type 0 where
  pub hash : Ed2kHash
  pub low_part : ℕ
  pub hi_part : ℕ

unfoldable pub put_get_file_sources : GetFileSources → StateBuffer → StateBuffer
put_get_file_sources gfs sb =
    sb |> write (put_hash gfs.hash) |> write_uint 4 gfs.low_part |> write_uint 4 gfs.hi_part

abbrev pub size_get_file_sources : ℕ
size_get_file_sources = size_hash + 4 + 4

pub record SearchResult : Type 0 where
  pub items : List UsualPacket
  pub more_results : ℕ

abbrev empty_packet : UsualPacket
empty_packet = record { hash = zero_hash; point = empty_endpoint; properties = [] }

-- The loop over a slice of `n` packets: after an error the rest of them stays empty.
unfoldable pub get_items : ℕ → Reader (List UsualPacket)
get_items zero sb = ([], sb)
get_items (suc n) sb =
    let (item, after) = get_usual_packet empty_packet sb in
    let (rest, end) = get_items n after in
    elim after.err [ some e ↦ (item ∷ replicate n empty_packet, after) | none ↦ (item ∷ rest, end) ]

unfoldable pub get_more : SearchResult → Reader SearchResult
get_more sr sb = elim sb.err [
  | some e ↦ (sr, sb)
  | none ↦
      if ltb 0 (remain sb)
      then (let (b, after) = read_uint8 sb in (record sr { more_results = b }, after))
      else (sr, sb)
]

unfoldable pub get_search_result : SearchResult → Reader SearchResult
get_search_result sr sb =
    let (count, counted) = read_uint32 sb in
    elim counted.err [
      | some e ↦ (sr, counted)
      | none ↦
          if ltb count 1024
          then (let (items, after) = get_items count counted in
              get_more (record sr { items = items }) after)
          else (sr, fail_with too_many counted)
    ]

unfoldable pub size_items : List UsualPacket → ℤ
size_items [] = pos 0
size_items (up ∷ rest) = plus_int (size_usual_packet up) (size_items rest)

unfoldable pub size_search_result : SearchResult → ℤ
size_search_result sr = plus 1 (size_items sr.items)
