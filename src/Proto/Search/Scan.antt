-- ===== src/Proto/Search/Scan.antt =====
-- proto/search.go: `BuildEntries`, from the text of a search to entries in infix order. Texts are valid
-- UTF-8: the characters that the loop tests are single bytes.
use ged2k.Prelude.{
  ℕ, ◌-◌, ◌==◌, ◌||◌, ltb, not, if◌then◌else◌, Bool, false, Option, none, some, List, [], ◌∷◌, ◌++◌,
  length, get_elem?, same_bytes,
}
use ged2k.Proto.Search.{
  Entry, open_paren, close_paren, create_string_entry_no_tag, create_and, create_or, create_not,
  create_close_paren, create_open_paren,
}
use ged2k.Proto.Search.Build.{is_operator, add_operand, Query, add_filters}

abbrev search_req_elem_length : ℕ
search_req_elem_length = 20

abbrev search_req_query_length : ℕ
search_req_query_length = 450

pub data BuildError : Type 0 where
  file_type_too_long file_ext_too_long codec_too_long request_too_long request_empty : BuildError
  operator_first two_operators unclosed_quote operator_last : BuildError

-- The two values that `BuildEntries` returns.
pub record Built : Type 0 where
  pub entries : List Entry
  pub err : Option BuildError

-- The variables of the loop over the text.
pub record Scan : Type 0 where
  pub entries : List Entry
  pub item : List ℕ
  pub verbatim : Bool

-- The loop goes on, or the function returns.
pub data Scanned : Type 0 where
  scanned : Scan → Scanned
  refused : List Entry → BuildError → Scanned

-- The words "AND", "OR" and "NOT".
unfoldable pub operator_named : List ℕ → Option Entry
operator_named item =
    if same_bytes item (65 ∷ 78 ∷ 68 ∷ [])
    then some create_and
    else if same_bytes item (79 ∷ 82 ∷ [])
    then some create_or
    else if same_bytes item (78 ∷ 79 ∷ 84 ∷ [])
    then some create_not
    else none

unfoldable pub is_operator_at : Option Entry → Bool
is_operator_at none = false
is_operator_at (some e) = is_operator e

-- After an operator was added, the entries are two at least where the entry before it is tested.
unfoldable pub check_operator : List Entry → Scanned
check_operator entries =
    if length entries == 1
    then refused entries operator_first
    else if is_operator_at (get_elem? entries (length entries - 2))
    then refused entries two_operators
    else scanned (record { entries = entries; item = []; verbatim = false })

unfoldable pub end_item : List Entry → List ℕ → Scanned
end_item entries item = elim (operator_named item) [
  | some op ↦ check_operator (add_operand entries op)
  | none ↦ scanned (record {
    entries = add_operand entries (create_string_entry_no_tag item);
    item = [];
    verbatim = false;
  })
]

unfoldable pub add_paren : ℕ → List Entry → List Entry
add_paren c entries =
    if c == open_paren
    then add_operand entries create_open_paren
    else if c == close_paren
    then add_operand entries create_close_paren
    else entries

unfoldable pub then_paren : ℕ → Scanned → Scanned
then_paren c (scanned s) = scanned (record s { entries = add_paren c s.entries })
then_paren c (refused entries e) = refused entries e

-- A space or a paren. Between quotes a paren is taken into the item and added as an entry too.
unfoldable pub scan_delimiter : ℕ → Scan → Scanned
scan_delimiter c s =
    if s.verbatim
    then then_paren c (scanned (record s { item = s.item ++ (c ∷ []) }))
    else if length s.item == 0
    then then_paren c (scanned s)
    else then_paren c (end_item s.entries s.item)

unfoldable pub scan_char : ℕ → Scan → Scanned
scan_char c s =
    if c == 32 || c == open_paren || c == close_paren
    then scan_delimiter c s
    else if c == 34
    then scanned (record s { verbatim = not s.verbatim })
    else scanned (record s { item = s.item ++ (c ∷ []) })

unfoldable pub scan : List ℕ → Scan → Scanned
scan [] s = scanned s
scan (c ∷ rest) s = elim (scan_char c s) [
  | scanned t ↦ scan rest t
  | refused entries e ↦ refused entries e
]

unfoldable pub last_item : Scan → Built
last_item s =
    if s.verbatim
    then record { entries = s.entries; err = some unclosed_quote }
    else if length s.item == 0
    then record { entries = s.entries; err = none }
    else elim (operator_named s.item) [
      | some op ↦ record { entries = s.entries; err = some operator_last }
      | none ↦ record {
        entries = add_operand s.entries (create_string_entry_no_tag s.item);
        err = none;
      }
    ]

unfoldable pub end_scan : Scanned → Built
end_scan (scanned s) = last_item s
end_scan (refused entries e) = record { entries = entries; err = some e }

unfoldable pub refuse_query : BuildError → Built
refuse_query e = record { entries = []; err = some e }

unfoldable pub build_entries : Query → Built
build_entries q =
    if ltb search_req_elem_length (length q.file_type)
    then refuse_query file_type_too_long
    else if ltb search_req_elem_length (length q.file_extension)
    then refuse_query file_ext_too_long
    else if ltb search_req_elem_length (length q.codec)
    then refuse_query codec_too_long
    else if ltb search_req_query_length (length q.value)
    then refuse_query request_too_long
    else if length q.value == 0
    then refuse_query request_empty
    else end_scan (scan q.value (record { entries = add_filters q; item = []; verbatim = false }))
