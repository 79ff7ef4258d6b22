-- ===== src/Proto/Search/Build.antt =====
-- proto/search.go: `addOperand`, and what `BuildEntries` makes of the parameters of a search.
use ged2k.Prelude.{
  ℕ, ◌==◌, ◌&&◌, ◌||◌, not, if◌then◌else◌, Bool, true, false, Option, none, some, List, [], ◌∷◌,
  ◌++◌, length, same_bytes,
}
use ged2k.Proto.Search.{
  Entry, numeric_entry, string_entry, operator_entry, paren_entry, open_paren, create_numeric_entry,
  create_string_entry, create_string_entry_no_tag, create_and, create_not, create_close_paren,
  create_open_paren,
}

abbrev pub ft_filesize : ℕ
ft_filesize = 0x02

abbrev ft_filetype : ℕ
ft_filetype = 0x03

abbrev ft_fileformat : ℕ
ft_fileformat = 0x04

abbrev pub ft_sources : ℕ
ft_sources = 0x15

abbrev pub ft_complete_sources : ℕ
ft_complete_sources = 0x30

abbrev pub ft_media_length : ℕ
ft_media_length = 0xd3

abbrev pub ft_media_bitrate : ℕ
ft_media_bitrate = 0xd4

abbrev pub ft_media_codec : ℕ
ft_media_codec = 0xd5

abbrev search_op_greater : ℕ
search_op_greater = 1

abbrev search_op_less : ℕ
search_op_less = 2

abbrev search_op_greater_equal : ℕ
search_op_greater_equal = 3

-- "Pro", "Arc", "Iso", "EmuleCollection" and "Folder".
abbrev type_program : List ℕ
type_program = 80 ∷ 114 ∷ 111 ∷ []

abbrev pub type_archive : List ℕ
type_archive = 65 ∷ 114 ∷ 99 ∷ []

abbrev pub type_cdimage : List ℕ
type_cdimage = 73 ∷ 115 ∷ 111 ∷ []

abbrev pub type_emule_collection : List ℕ
type_emule_collection =
    69 ∷ 109 ∷ 117 ∷ 108 ∷ 101 ∷ 67 ∷ 111 ∷ 108 ∷ 108 ∷ 101 ∷ 99 ∷ 116 ∷ 105 ∷ 111 ∷ 110 ∷ []

abbrev pub type_folder : List ℕ
type_folder = 70 ∷ 111 ∷ 108 ∷ 100 ∷ 101 ∷ 114 ∷ []

-- The text `ED2K:\`.
abbrev link_prefix : List ℕ
link_prefix = 69 ∷ 68 ∷ 50 ∷ 75 ∷ 58 ∷ 92 ∷ []

unfoldable pub is_operator : Entry → Bool
is_operator (operator_entry o) = true
is_operator (paren_entry c) = false
is_operator (numeric_entry e) = false
is_operator (string_entry e) = false

unfoldable pub is_paren : Entry → Bool
is_paren (paren_entry c) = true
is_paren (operator_entry o) = false
is_paren (numeric_entry e) = false
is_paren (string_entry e) = false

unfoldable pub is_open_paren : Entry → Bool
is_open_paren (paren_entry c) = c == open_paren
is_open_paren (operator_entry o) = false
is_open_paren (numeric_entry e) = false
is_open_paren (string_entry e) = false

-- Any other paren counts as one that closes.
unfoldable pub is_other_paren : Entry → Bool
is_other_paren (paren_entry c) = not (c == open_paren)
is_other_paren (operator_entry o) = false
is_other_paren (numeric_entry e) = false
is_other_paren (string_entry e) = false

-- The four cases `xxx xxx`, `xxx (`, `) xxx` and `) (`.
unfoldable pub needs_and : Entry → Entry → Bool
needs_and top op =
    not (is_paren top) && not (is_operator top) && not (is_paren op) && not (is_operator op)
    || not (is_paren top) && not (is_operator top) && is_open_paren op
    || is_other_paren top && not (is_paren op) && not (is_operator op)
    || is_other_paren top && is_open_paren op

-- The entry at `len(dst)-1`.
unfoldable pub last : List Entry → Option Entry
last [] = none
last (x ∷ []) = some x
last (x ∷ y ∷ rest) = last (y ∷ rest)

-- `() ` is only logged.
unfoldable pub add_operand : List Entry → Entry → List Entry
add_operand dst op = if is_operator op then dst ++ (op ∷ []) else elim (last dst) [
  | none ↦ dst ++ (op ∷ [])
  | some top ↦
      if needs_and top op then (dst ++ (create_and ∷ [])) ++ (op ∷ []) else dst ++ (op ∷ [])
]

-- The parameters of `BuildEntries`.
pub record Query : Type 0 where
  pub min_size : ℕ
  pub max_size : ℕ
  pub sources_count : ℕ
  pub complete_sources_count : ℕ
  pub file_type : List ℕ
  pub file_extension : List ℕ
  pub codec : List ℕ
  pub media_length : ℕ
  pub media_bitrate : ℕ
  pub value : List ℕ

unfoldable pub add_number : ℕ → ℕ → ℕ → List Entry → List Entry
add_number v id op dst = if v == 0 then dst else add_operand dst (create_numeric_entry v id op)

unfoldable pub add_text : List ℕ → ℕ → List Entry → List Entry
add_text v id dst = if length v == 0 then dst else add_operand dst (create_string_entry v id)

unfoldable pub add_folder : List Entry
add_folder =
    let one = add_operand [] create_open_paren in
    let two = add_operand one (create_string_entry type_emule_collection ft_filetype) in
    let three = add_operand two create_not in
    let four = add_operand three (create_string_entry_no_tag link_prefix) in
    add_operand four create_close_paren

unfoldable pub add_file_type : List ℕ → List Entry
add_file_type file_type =
    if same_bytes file_type type_archive || same_bytes file_type type_cdimage
    then add_text type_program ft_filetype []
    else add_text file_type ft_filetype []

unfoldable pub add_parameters : Query → List Entry → List Entry
add_parameters q r0 =
    let r1 = add_number q.min_size ft_filesize search_op_greater r0 in
    let r2 = add_number q.max_size ft_filesize search_op_less r1 in
    let r3 = add_number q.sources_count ft_sources search_op_greater r2 in
    let r4 = add_number q.complete_sources_count ft_complete_sources search_op_greater r3 in
    let r5 = add_text q.file_extension ft_fileformat r4 in
    let r6 = add_text q.codec ft_media_codec r5 in
    let r7 = add_number q.media_length ft_media_length search_op_greater_equal r6 in
    add_number q.media_bitrate ft_media_bitrate search_op_greater_equal r7

unfoldable pub add_filters : Query → List Entry
add_filters q =
    if same_bytes q.file_type type_folder
    then add_folder
    else if same_bytes q.file_type type_emule_collection
    then add_file_type q.file_type
    else add_parameters q (add_file_type q.file_type)
