-- ===== src/Proto/Search/Joined/Whole.antt =====
-- proto/search.go: neighbours in the entries through the whole of `BuildEntries`.
use ged2k.Prelude.{
  same_bytes, if_both, ℕ, ◌-◌, ◌≡◌, sym, refl, ap, ◌==◌, ◌||◌, ltb, true, false, Bool-cases,
  Option-cases, inl, inr, Option, none, some, List, [], ◌∷◌, ◌++◌, length, length-append, get_elem?,
  arith,
}
use ged2k.Proto.Search.{
  Entry, open_paren, close_paren, create_open_paren, create_close_paren, create_numeric_entry,
  create_string_entry, create_string_entry_no_tag,
}
use ged2k.Proto.Search.Build.{
  type_archive, type_cdimage, type_folder, type_emule_collection, is_operator, last, add_operand,
  Query, add_number, add_text, add_file_type, add_parameters, add_filters,
}
use ged2k.Proto.Search.Scan.{
  BuildError, Built, Scan, Scanned, scanned, refused, operator_named, is_operator_at,
  check_operator, end_item, add_paren, then_paren, scan_delimiter, scan_char, scan, last_item,
  end_scan, refuse_query, build_entries,
}
use ged2k.Proto.Search.Joined.{
  IsJoined, snoc-IsJoined, add_operand-IsJoined, operator_follows, none-IsJoined,
  add_folder-IsJoined,
}

add_number-IsJoined :
    (v id op : ℕ) (dst : List Entry) → IsJoined dst → IsJoined (add_number v id op dst)
unfolding add_number is_operator
add_number-IsJoined v id op dst h =
    if_both IsJoined (v == 0) h (add_operand-IsJoined dst (create_numeric_entry v id op) h refl)

add_text-IsJoined :
    (v : List ℕ) (id : ℕ) (dst : List Entry) → IsJoined dst → IsJoined (add_text v id dst)
unfolding add_text is_operator
add_text-IsJoined v id dst h =
    if_both IsJoined (length v == 0) h (add_operand-IsJoined dst (create_string_entry v id) h refl)

add_file_type-IsJoined : (t : List ℕ) → IsJoined (add_file_type t)
unfolding add_file_type
add_file_type-IsJoined t =
    if_both IsJoined (same_bytes t type_archive || same_bytes t type_cdimage)
      (add_text-IsJoined _ _ [] none-IsJoined) (add_text-IsJoined t _ [] none-IsJoined)

add_parameters-IsJoined :
    (q : Query) (dst : List Entry) → IsJoined dst → IsJoined (add_parameters q dst)
unfolding add_parameters
add_parameters-IsJoined q dst h = add_number-IsJoined _ _ _ _ (
    add_number-IsJoined _ _ _ _ (
      add_text-IsJoined _ _ _ (
        add_text-IsJoined _ _ _ (
          add_number-IsJoined _ _ _ _ (
            add_number-IsJoined _ _ _ _
              (add_number-IsJoined _ _ _ _ (add_number-IsJoined _ _ _ _ h)))))))

add_filters-IsJoined : (q : Query) → IsJoined (add_filters q)
unfolding add_filters
add_filters-IsJoined q = if_both IsJoined (same_bytes q.file_type type_folder) add_folder-IsJoined (
    if_both IsJoined (same_bytes q.file_type type_emule_collection)
      (add_file_type-IsJoined q.file_type)
      (add_parameters-IsJoined q _ (add_file_type-IsJoined q.file_type)))

-- What a step of the loop leaves, when the loop goes on.
IsJoinedStill : Scanned → Type 0
IsJoinedStill (scanned s) = IsJoined s.entries
IsJoinedStill (refused entries e) = Unit

add_paren-IsJoined : (c : ℕ) (dst : List Entry) → IsJoined dst → IsJoined (add_paren c dst)
unfolding add_paren is_operator
add_paren-IsJoined c dst h =
    if_both IsJoined (c == open_paren) (add_operand-IsJoined dst create_open_paren h refl)
      (if_both IsJoined (c == close_paren) (add_operand-IsJoined dst create_close_paren h refl) h)

then_paren-IsJoined : (c : ℕ) (s : Scanned) → IsJoinedStill s → IsJoinedStill (then_paren c s)
unfolding IsJoinedStill then_paren
then_paren-IsJoined c (scanned s) h = add_paren-IsJoined c s.entries h
then_paren-IsJoined c (refused entries e) h = tt

-- The entry before the last.
get_elem?-last :
    (x : Entry) (xs ys : List Entry) → get_elem? ((x ∷ xs) ++ ys) (length xs) ≡ last (x ∷ xs)
unfolding last
get_elem?-last x [] ys = refl
get_elem?-last x (y ∷ rest) ys = get_elem?-last y rest ys

before_last :
    (x : Entry) (xs : List Entry) (e : Entry)
    → get_elem? ((x ∷ xs) ++ (e ∷ [])) (length ((x ∷ xs) ++ (e ∷ [])) - 2) ≡ last (x ∷ xs)
before_last x xs e = rw index (get_elem?-last x xs (e ∷ []))
  where
    index : length ((x ∷ xs) ++ (e ∷ [])) - 2 ≡ length xs
    index = omega (arith, length-append (x ∷ xs) (e ∷ []))

-- An operator that passes the test stands behind an entry that is none.
passed :
    (x : Entry) (xs : List Entry) (op : Entry)
    → IsJoined (x ∷ xs)
    → is_operator op ≡ true
    → is_operator_at (get_elem? ((x ∷ xs) ++ (op ∷ [])) (length ((x ∷ xs) ++ (op ∷ [])) - 2))
      ≡ false
    → IsJoined ((x ∷ xs) ++ (op ∷ []))
unfolding is_operator_at
passed x xs op h o f =
    snoc-IsJoined (x ∷ xs) op h (λ a k. operator_follows a op (rw (before_last x xs op, k) at f) o)
      (λ e. absurd (ground (arith, e)))

check_operator-IsJoined :
    (dst : List Entry) (op : Entry)
    → IsJoined dst
    → is_operator op ≡ true
    → IsJoinedStill (check_operator (add_operand dst op))
unfolding IsJoinedStill check_operator add_operand
check_operator-IsJoined [] op h o = rw o tt
check_operator-IsJoined (x ∷ xs) op h o = rw o (
    if_both IsJoinedStill (length ((x ∷ xs) ++ (op ∷ [])) == 1) tt
      (elim (Bool-cases
        (is_operator_at (get_elem? ((x ∷ xs) ++ (op ∷ [])) (length ((x ∷ xs) ++ (op ∷ [])) - 2)))) [
          | inl f ↦ rw f tt
          | inr f ↦ rw f (passed x xs op h o f)
        ]))

operator_named_ok :
    (item : List ℕ) (op : Entry) → operator_named item ≡ some op → is_operator op ≡ true
unfolding operator_named is_operator is_operator_at
operator_named_ok item op h =
    if_both IsOperator (same_bytes item _) (λ e. sym (ap is_operator_at e))
      (if_both IsOperator (same_bytes item _) (λ e. sym (ap is_operator_at e))
        (if_both IsOperator (same_bytes item _) (λ e. sym (ap is_operator_at e))
          (λ e. absurd (ground (arith, e)))))
      h
  where
    IsOperator : Option Entry → Type 0
    IsOperator o = o ≡ some op → is_operator op ≡ true

end_item-IsJoined :
    (dst : List Entry) (item : List ℕ) → IsJoined dst → IsJoinedStill (end_item dst item)
unfolding end_item IsJoinedStill is_operator
end_item-IsJoined dst item h = elim (Option-cases (operator_named item)) [
  | inl e ↦
      rw (e, IsJoinedStill) (add_operand-IsJoined dst (create_string_entry_no_tag item) h refl)
  | inr (op, e) ↦
      rw (e, IsJoinedStill) (check_operator-IsJoined dst op h (operator_named_ok item op e))
]

scan_delimiter-IsJoined :
    (c : ℕ) (s : Scan) → IsJoined s.entries → IsJoinedStill (scan_delimiter c s)
unfolding scan_delimiter IsJoinedStill
scan_delimiter-IsJoined c s h =
    if_both IsJoinedStill s.verbatim
      (then_paren-IsJoined c (scanned (record s { item = s.item ++ (c ∷ []) })) h)
      (if_both IsJoinedStill (length s.item == 0) (then_paren-IsJoined c (scanned s) h)
        (then_paren-IsJoined c (end_item s.entries s.item) (end_item-IsJoined s.entries s.item h)))

scan_char-IsJoined : (c : ℕ) (s : Scan) → IsJoined s.entries → IsJoinedStill (scan_char c s)
unfolding scan_char IsJoinedStill
scan_char-IsJoined c s h =
    if_both IsJoinedStill (c == 32 || c == open_paren || c == close_paren)
      (scan_delimiter-IsJoined c s h) (if_both IsJoinedStill (c == 34) h h)

scan-IsJoined : (text : List ℕ) (s : Scan) → IsJoined s.entries → IsJoinedStill (scan text s)
unfolding scan IsJoinedStill
scan-IsJoined [] s h = h
scan-IsJoined (c ∷ rest) s h =
    after (scan_char c s) (scan rest) (scan_char-IsJoined c s h) (λ u k. scan-IsJoined rest u k)
  where
    after :
        (t : Scanned) (next : Scan → Scanned)
        → IsJoinedStill t
        → ((u : Scan) → IsJoined u.entries → IsJoinedStill (next u))
        → IsJoinedStill (elim t [ scanned u ↦ next u | refused entries e ↦ refused entries e ])
    after (scanned u) next k n = n u k
    after (refused entries e) next k n = tt

-- What a call that gives no error returns.
IsJoinedAtEnd : Built → Type 0
IsJoinedAtEnd b = b.err ≡ none → IsJoined b.entries

last_item-IsJoined : (s : Scan) → IsJoined s.entries → IsJoinedAtEnd (last_item s)
unfolding last_item IsJoinedAtEnd is_operator
last_item-IsJoined s h =
    if_both IsJoinedAtEnd s.verbatim (λ e. h)
      (if_both IsJoinedAtEnd (length s.item == 0) (λ e. h)
        (elim (Option-cases (operator_named s.item)) [
          | inl e ↦
              rw e (λ f. add_operand-IsJoined s.entries (create_string_entry_no_tag s.item) h refl)
          | inr (op, e) ↦ rw e (λ f. h)
        ]))

end_scan-IsJoined : (s : Scanned) → IsJoinedStill s → IsJoinedAtEnd (end_scan s)
unfolding end_scan IsJoinedStill IsJoinedAtEnd
end_scan-IsJoined (scanned s) h = last_item-IsJoined s h
end_scan-IsJoined (refused entries e) h = λ f. absurd (ground (arith, f))

refuse_query-IsJoined : (e : BuildError) → IsJoinedAtEnd (refuse_query e)
unfolding refuse_query IsJoinedAtEnd
refuse_query-IsJoined e f = none-IsJoined

-- Where `BuildEntries` gives no error, its entries do not start with an operator, no operator stands
-- right behind another, and between an operand or a paren that closes and an operand or a paren that
-- opens there is an operator.
pub build_entries-IsJoined :
    (q : Query) → (build_entries q).err ≡ none → IsJoined (build_entries q).entries
unfolding build_entries IsJoinedAtEnd
build_entries-IsJoined q =
    if_both IsJoinedAtEnd (ltb 20 (length q.file_type)) (refuse_query-IsJoined _) (
      if_both IsJoinedAtEnd (ltb 20 (length q.file_extension)) (refuse_query-IsJoined _) (
        if_both IsJoinedAtEnd (ltb 20 (length q.codec)) (refuse_query-IsJoined _) (
          if_both IsJoinedAtEnd (ltb 450 (length q.value)) (refuse_query-IsJoined _) (
            if_both IsJoinedAtEnd (length q.value == 0) (refuse_query-IsJoined _) (
              end_scan-IsJoined (scan q.value _)
                (scan-IsJoined q.value _ (add_filters-IsJoined q)))))))
