-- ===== src/Proto/Search/Balance.antt =====
-- proto/search.go: the parens of a request that `PackRequest` accepts.
use ged2k.Prelude.{
  ℕ, suc, ◌+◌, ◌≤◌, ◌≡◌, refl, ◌==◌, true, false, Bool-cases, inl, inr, none, List, [], ◌∷◌, ◌++◌,
  arith,
}
use ged2k.Prelude.Tally.{as_number}
use ged2k.Proto.Search.{Entry, numeric_entry, string_entry, operator_entry, paren_entry, open_paren}
use ged2k.Proto.Search.Build.{is_open_paren}
use ged2k.Proto.Search.Pack.{
  Packing, packing, stopped, is_close_paren, is_boolean_operator, unroll, pack_operator, pack_open,
  pack_entry, pack_next, pack_entries, pack_end, pack_request,
}

unfoldable pub opens : List Entry → ℕ
opens [] = 0
opens (e ∷ rest) = as_number (is_open_paren e) + opens rest

unfoldable pub closes : List Entry → ℕ
closes [] = 0
closes (e ∷ rest) = as_number (is_close_paren e) + closes rest

-- As many close parens wait on the stack as have no partner yet.
Balanced : List Entry → Packing → Type 0
Balanced source (packing stack result) = opens source + closes stack ≡ closes source
Balanced source (stopped result e) = Unit

-- One close paren less than there were on `stack`.
OneLess : List Entry → Packing → Type 0
OneLess stack (packing rest result) = suc (closes rest) ≡ closes stack
OneLess stack (stopped result e) = Unit

below :
    (top : Entry) (rest : List Entry) (p : Packing)
    → is_close_paren top ≡ false
    → OneLess rest p
    → OneLess (top ∷ rest) p
unfolding OneLess closes
below top rest (packing stack result) e h = ground arith
below top rest (stopped result f) e h = tt

unroll_lem : (stack result : List Entry) → OneLess stack (unroll stack result)
unfolding OneLess unroll closes
unroll_lem [] result = tt
unroll_lem (top ∷ rest) result = elim (Bool-cases (is_close_paren top)) [
  | inl e ↦ rw (e, e) (omega arith)
  | inr e ↦ rw e (below top rest _ e (unroll_lem rest (top ∷ result)))
]

opened :
    (source stack : List Entry) (c : ℕ) (p : Packing)
    → (c == open_paren) ≡ true
    → opens source + closes stack ≡ closes source
    → OneLess stack p
    → Balanced (paren_entry c ∷ source) p
unfolding OneLess Balanced opens closes is_open_paren is_close_paren
opened source stack c (packing rest result) e h less = ground arith
opened source stack c (stopped result f) e h less = tt

pack_operator_lem :
    (source stack result : List Entry) (o : ℕ)
    → opens source + closes stack ≡ closes source
    → Balanced (operator_entry o ∷ source) (pack_operator (operator_entry o) stack result)
unfolding Balanced pack_operator is_boolean_operator opens closes is_open_paren is_close_paren
pack_operator_lem source [] result o h = omega (arith, h)
pack_operator_lem source (numeric_entry n ∷ rest) result o h = ground arith
pack_operator_lem source (string_entry n ∷ rest) result o h = ground arith
pack_operator_lem source (operator_entry n ∷ rest) result o h = ground arith
pack_operator_lem source (paren_entry n ∷ rest) result o h = ground arith

pack_entry_lem :
    (source stack result : List Entry) (e : Entry)
    → opens source + closes stack ≡ closes source
    → Balanced (e ∷ source) (pack_entry e stack result)
unfolding Balanced pack_entry pack_open opens closes is_open_paren is_close_paren
pack_entry_lem source stack result (numeric_entry n) h = omega (arith, h)
pack_entry_lem source stack result (string_entry s) h = omega (arith, h)
pack_entry_lem source stack result (operator_entry o) h = pack_operator_lem source stack result o h
pack_entry_lem source [] result (paren_entry c) h = elim (Bool-cases (c == open_paren)) [
  | inl e ↦ rw e tt
  | inr e ↦ rw (e, e) (omega (arith, h))
]
pack_entry_lem source (top ∷ rest) result (paren_entry c) h = elim (Bool-cases (c == open_paren)) [
  | inl e ↦ rw e (opened source (top ∷ rest) c _ e h (unroll_lem (top ∷ rest) result))
  | inr e ↦ rw (e, e) (omega (arith, h))
]

pack_next_lem :
    (source : List Entry) (e : Entry) (p : Packing)
    → Balanced source p
    → Balanced (e ∷ source) (pack_next e p)
unfolding Balanced pack_next
pack_next_lem source e (packing stack result) h = pack_entry_lem source stack result e h
pack_next_lem source e (stopped result f) h = tt

pack_entries_lem : (source : List Entry) → Balanced source (pack_entries source)
unfolding Balanced pack_entries opens closes
pack_entries_lem [] = refl
pack_entries_lem (e ∷ source) = pack_next_lem source e _ (pack_entries_lem source)

GoesOn : Packing → Type 0
GoesOn (packing stack result) = Unit
GoesOn (stopped result e) = ⊥

pack_next-GoesOn : (e : Entry) (p : Packing) → GoesOn (pack_next e p) → GoesOn p
unfolding GoesOn pack_next
pack_next-GoesOn e (packing stack result) h = tt
pack_next-GoesOn e (stopped result f) h = h

pack_entries-GoesOn :
    (front rest : List Entry) → GoesOn (pack_entries (front ++ rest)) → GoesOn (pack_entries rest)
unfolding pack_entries
pack_entries-GoesOn [] rest h = h
pack_entries-GoesOn (e ∷ front) rest h =
    pack_entries-GoesOn front rest (pack_next-GoesOn e (pack_entries (front ++ rest)) h)

pack_end-GoesOn : (p : Packing) → (pack_end p).err ≡ none → GoesOn p
unfolding GoesOn pack_end
pack_end-GoesOn (packing stack result) h = tt
pack_end-GoesOn (stopped result e) h = ground arith

bounded :
    (source : List Entry) (p : Packing)
    → Balanced source p
    → GoesOn p
    → opens source ≤ closes source
unfolding Balanced GoesOn
bounded source (packing stack result) h g = omega (arith, h)
bounded source (stopped result e) h g = absurd g

-- In a request that `PackRequest` accepts, at most as many parens open as close, from any entry to
-- the end.
pub pack_request-opens :
    (front rest : List Entry) → (pack_request (front ++ rest)).err ≡ none → opens rest ≤ closes rest
unfolding pack_request
pack_request-opens front rest h =
    bounded rest (pack_entries rest) (pack_entries_lem rest)
      (pack_entries-GoesOn front rest (pack_end-GoesOn (pack_entries (front ++ rest)) h))
