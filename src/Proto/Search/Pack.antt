-- ===== src/Proto/Search/Pack.antt =====
-- proto/search.go: `PackRequest`, which turns entries in infix order into prefix order.
use ged2k.Prelude.{◌==◌, ◌&&◌, ◌||◌, if◌then◌else◌, Bool, false, Option, none, some, List, [], ◌∷◌}
use ged2k.Proto.Search.{
  Entry, numeric_entry, string_entry, operator_entry, paren_entry, is_boolean, open_paren,
  close_paren, SearchRequest,
}

-- The messages "incorrect parents count", "… 2" and "… 3".
pub data PackError : Type 0 where
  parents_count parents_count_2 parents_count_3 : PackError

-- The two values that `PackRequest` returns.
pub record Packed : Type 0 where
  pub request : SearchRequest
  pub err : Option PackError

-- Inside the loop: the stack, its top first, and the result; or an early return.
pub data Packing : Type 0 where
  packing : List Entry → SearchRequest → Packing
  stopped : SearchRequest → PackError → Packing

unfoldable pub is_close_paren : Entry → Bool
is_close_paren (paren_entry c) = c == close_paren
is_close_paren (numeric_entry e) = false
is_close_paren (string_entry e) = false
is_close_paren (operator_entry o) = false

unfoldable pub is_boolean_operator : Entry → Bool
is_boolean_operator (operator_entry o) = is_boolean o
is_boolean_operator (paren_entry c) = false
is_boolean_operator (numeric_entry e) = false
is_boolean_operator (string_entry e) = false

-- The loop `A`: everything above the close paren moves to the result.
unfoldable pub unroll : List Entry → SearchRequest → Packing
unroll [] result = stopped result parents_count_2
unroll (top ∷ rest) result =
    let further = unroll rest (top ∷ result) in
    if is_close_paren top then packing rest result else further

unfoldable pub pack_operator : Entry → List Entry → SearchRequest → Packing
pack_operator entry [] result = packing (entry ∷ []) result
pack_operator entry (top ∷ rest) result =
    if is_boolean_operator entry && is_boolean_operator top
    then packing (entry ∷ rest) (top ∷ result)
    else packing (entry ∷ top ∷ rest) result

unfoldable pub pack_open : List Entry → SearchRequest → Packing
pack_open [] result = stopped result parents_count
pack_open (top ∷ rest) result = unroll (top ∷ rest) result

-- The body of the loop.
unfoldable pub pack_entry : Entry → List Entry → SearchRequest → Packing
pack_entry (string_entry e) stack result = packing stack (string_entry e ∷ result)
pack_entry (numeric_entry e) stack result = packing stack (numeric_entry e ∷ result)
pack_entry (operator_entry o) stack result = pack_operator (operator_entry o) stack result
pack_entry (paren_entry c) stack result =
    if c == open_paren then pack_open stack result else packing (paren_entry c ∷ stack) result

unfoldable pub pack_next : Entry → Packing → Packing
pack_next entry (packing stack result) = pack_entry entry stack result
pack_next entry (stopped result e) = stopped result e

-- The loop runs from the last entry to the first.
unfoldable pub pack_entries : List Entry → Packing
pack_entries [] = packing [] []
pack_entries (entry ∷ source) = pack_next entry (pack_entries source)

-- The bottom of the stack, `operators_stack[0]`.
unfoldable pub bottom : Entry → List Entry → Entry
bottom top [] = top
bottom top (next ∷ rest) = bottom next rest

unfoldable pub pack_bottom : Entry → SearchRequest → Packed
pack_bottom (string_entry e) result = record { request = string_entry e ∷ result; err = none }
pack_bottom (numeric_entry e) result = record { request = numeric_entry e ∷ result; err = none }
pack_bottom (operator_entry o) result = record { request = operator_entry o ∷ result; err = none }
pack_bottom (paren_entry c) result =
    if c == open_paren || c == close_paren
    then record { request = result; err = some parents_count_3 }
    else record { request = result; err = none }

unfoldable pub pack_end : Packing → Packed
pack_end (stopped result e) = record { request = result; err = some e }
pack_end (packing [] result) = record { request = result; err = none }
pack_end (packing (top ∷ rest) result) = pack_bottom (bottom top rest) result

unfoldable pub pack_request : List Entry → Packed
pack_request source = pack_end (pack_entries source)
