-- ===== src/Checks/Search.antt =====
-- proto/search.go on concrete texts and expressions.
use ged2k.Prelude.{ℕ, ◌+◌, ◌≤◌, ◌≡◌, refl, none, some, List, [], ◌∷◌, ◌++◌, length, ok, arith}
use ged2k.Proto.Buffer.{make_buffer}
use ged2k.Proto.Search.{
  Entry, StringEntry, string_entry, create_and, create_string_entry_no_tag, create_open_paren,
  create_close_paren, SearchRequest, put_search_request, size_search_request, is_boolean,
}
use ged2k.Proto.Search.Build.{
  Query, add_filters, add_file_type, add_text, add_number, add_parameters, add_operand, is_operator,
  is_paren, is_open_paren, is_other_paren, needs_and, last,
}
use ged2k.Proto.Search.Scan.{
  build_entries, scan, scan_char, scan_delimiter, then_paren, end_item, add_paren, check_operator,
  operator_named, last_item, end_scan, is_operator_at,
}
use ged2k.Proto.Search.Joined.{IsJoined}
use ged2k.Proto.Search.Joined.Whole.{build_entries-IsJoined}
use ged2k.Proto.Search.Pack.{
  pack_request, pack_entries, pack_next, pack_entry, pack_operator, pack_open, unroll, pack_end,
  pack_bottom, bottom, is_close_paren, is_boolean_operator,
}
use ged2k.Proto.Search.Infix.{
  Expr, just_term, binary, text, parens, conj, disj, infix_order, prefix_order,
  pack_request-infix_order,
}
use ged2k.Proto.Search.Meaning.{Reading, value, read_prefix, read_prefix-pack_request}
use ged2k.Proto.Search.Balance.{opens, closes, pack_request-opens}
use ged2k.Proto.Search.Written.{EntryFits, TagFits, put_search_request_ok}

-- One letter.
abbrev letter : ℕ → StringEntry
letter c = record { value = c ∷ []; tag = none }

-- The expression `a AND (b OR c)`.
abbrev an_expr : Expr
an_expr =
    binary (text (letter 97)) conj
      (just_term (parens (binary (text (letter 98)) disj (just_term (text (letter 99))))))

pack_request-infix_order_example :
    pack_request (infix_order an_expr) ≡ record { request = prefix_order an_expr; err = none }
pack_request-infix_order_example = pack_request-infix_order an_expr

-- A text counts as its length, a number as itself, and an operator adds.
abbrev a_reading : Reading ℕ
a_reading = record {
  of_text = λ s. length s.value;
  of_number = λ n. n.value;
  apply = λ o a b. a + b + o;
}

read_prefix-pack_request_example :
    read_prefix a_reading (pack_request (infix_order an_expr)).request
    ≡ some (value a_reading an_expr ∷ [])
read_prefix-pack_request_example = read_prefix-pack_request a_reading an_expr

abbrev in_parens : List Entry
in_parens = create_open_paren ∷ string_entry (letter 97) ∷ create_close_paren ∷ []

in_parens_packed : (pack_request ((create_and ∷ []) ++ in_parens)).err ≡ none
unfolding pack_request pack_entries pack_next pack_entry pack_operator pack_open unroll pack_end
    pack_bottom bottom is_close_paren is_boolean_operator is_boolean
in_parens_packed = refl

pack_request-opens_example : opens in_parens ≤ closes in_parens
pack_request-opens_example = pack_request-opens (create_and ∷ []) in_parens in_parens_packed

-- A close paren behind an operator has no partner, and the request is accepted.
unmatched_close :
    pack_request
      (string_entry (letter 97) ∷ create_close_paren ∷ create_and ∷ string_entry (letter 98) ∷ [])
    ≡ record {
      request = create_and ∷ string_entry (letter 97) ∷ string_entry (letter 98) ∷ [];
      err = none;
    }
unfolding pack_request pack_entries pack_next pack_entry pack_operator pack_open unroll pack_end
    pack_bottom bottom is_close_paren is_boolean_operator is_boolean
unmatched_close = refl

abbrev a_request : SearchRequest
a_request = create_and ∷ string_entry (letter 97) ∷ string_entry (letter 98) ∷ []

a_request_fits :
    (EntryFits create_and × EntryFits (string_entry (letter 97)))
    × EntryFits (string_entry (letter 98))
unfolding EntryFits TagFits
a_request_fits = ((tt, (omega arith, tt)), (omega arith, tt))

put_search_request_ok_example :
    (n : ℕ) × (size_search_request a_request ≡ ok n)
    × ((bytes : List ℕ) × (length bytes ≡ n)
        × (put_search_request a_request (make_buffer n)
            ≡ ok (record { bytes = bytes; err = none; pos = n })))
put_search_request_ok_example =
    put_search_request_ok a_request
      (a_request_fits.0.0, (a_request_fits.0.1, (a_request_fits.1, tt)))

-- The text `a b AND c`, of files of type `Pro`.
abbrev a_query : Query
a_query = record {
  min_size = 0;
  max_size = 700;
  sources_count = 0;
  complete_sources_count = 0;
  file_type = 80 ∷ 114 ∷ 111 ∷ [];
  file_extension = [];
  codec = [];
  media_length = 0;
  media_bitrate = 0;
  value = 97 ∷ 32 ∷ 98 ∷ 32 ∷ 65 ∷ 78 ∷ 68 ∷ 32 ∷ 99 ∷ [];
}

a_query_built : (build_entries a_query).err ≡ none
unfolding build_entries add_filters add_file_type add_text add_number add_parameters scan scan_char
    scan_delimiter then_paren end_item add_paren check_operator operator_named last_item end_scan
    add_operand is_operator is_paren is_open_paren is_other_paren needs_and last is_operator_at
a_query_built = refl

build_entries-IsJoined_example : IsJoined (build_entries a_query).entries
build_entries-IsJoined_example = build_entries-IsJoined a_query a_query_built

-- The text `a AND ` ends with an operator and a space, which is no error.
abbrev an_open_query : Query
an_open_query = record a_query {
  max_size = 0;
  file_type = [];
  value = 97 ∷ 32 ∷ 65 ∷ 78 ∷ 68 ∷ 32 ∷ [];
}

operator_at_the_end :
    build_entries an_open_query
    ≡ record { entries = create_string_entry_no_tag (97 ∷ []) ∷ create_and ∷ []; err = none }
unfolding build_entries add_filters add_file_type add_text add_number add_parameters scan scan_char
    scan_delimiter then_paren end_item add_paren check_operator operator_named last_item end_scan
    add_operand is_operator is_paren is_open_paren is_other_paren needs_and last is_operator_at
operator_at_the_end = refl

-- The text `"(a"`: the quoted paren is in the item and an entry too.
abbrev a_quoted_query : Query
a_quoted_query = record an_open_query { value = 34 ∷ 40 ∷ 97 ∷ 34 ∷ [] }

quoted_paren : build_entries a_quoted_query ≡ record {
  entries = create_open_paren ∷ create_string_entry_no_tag (40 ∷ 97 ∷ []) ∷ [];
  err = none;
}
unfolding build_entries add_filters add_file_type add_text add_number add_parameters scan scan_char
    scan_delimiter then_paren end_item add_paren check_operator operator_named last_item end_scan
    add_operand is_operator is_paren is_open_paren is_other_paren needs_and last is_operator_at
quoted_paren = refl
