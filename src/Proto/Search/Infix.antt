-- ===== src/Proto/Search/Infix.antt =====
-- proto/search.go: what `PackRequest` makes of an expression that is written out with its parens.
use ged2k.Prelude.{◌≡◌, refl, ◌∙◌, none, List, [], ◌∷◌, ◌++◌, true, false}
use mathlib.Core.List.{append_assoc, append-nil}
use ged2k.Proto.Search.{
  Entry, NumericEntry, StringEntry, numeric_entry, string_entry, operator_entry, is_boolean,
  oper_and, oper_or, oper_not, create_open_paren, create_close_paren,
}
use ged2k.Proto.Search.Pack.{
  packing, is_close_paren, is_boolean_operator, unroll, pack_operator, pack_open, pack_entry,
  pack_next, pack_entries, bottom, pack_bottom, pack_end, pack_request,
}

pub data Operator : Type 0 where
  conj disj diff : Operator

-- An expression: operands and expressions in parens, with operators between them.
mutual
  pub data Expr : Type 0 where
    just_term : Term → Expr
    binary : Term → Operator → Expr → Expr

  pub data Term : Type 0 where
    text : StringEntry → Term
    number : NumericEntry → Term
    parens : Expr → Term

unfoldable pub operator_of : Operator → Entry
operator_of conj = operator_entry oper_and
operator_of disj = operator_entry oper_or
operator_of diff = operator_entry oper_not

unfoldable mutual
  -- In the order of the text.
  pub infix_order : Expr → List Entry
  infix_order (just_term t) = infix_term t
  infix_order (binary t o e) = infix_term t ++ (operator_of o ∷ infix_order e)

  pub infix_term : Term → List Entry
  infix_term (text s) = string_entry s ∷ []
  infix_term (number n) = numeric_entry n ∷ []
  infix_term (parens e) = create_open_paren ∷ (infix_order e ++ (create_close_paren ∷ []))

unfoldable mutual
  -- Each operator before its two sides, without parens.
  pub prefix_order : Expr → List Entry
  prefix_order (just_term t) = prefix_term t
  prefix_order (binary t o e) = operator_of o ∷ (prefix_term t ++ prefix_order e)

  pub prefix_term : Term → List Entry
  prefix_term (text s) = string_entry s ∷ []
  prefix_term (number n) = numeric_entry n ∷ []
  prefix_term (parens e) = prefix_order e

-- The operator that stays on the stack, and what is in the result by then.
unfoldable waiting : Expr → List Entry
waiting (just_term t) = []
waiting (binary t o e) = operator_of o ∷ []

unfoldable emitted : Expr → List Entry
emitted (just_term t) = prefix_term t
emitted (binary t o e) = prefix_term t ++ prefix_order e

-- No boolean operator is on top.
abbrev NoOperator : List Entry → Type 0
NoOperator [] = Unit
NoOperator (top ∷ rest) = is_boolean_operator top ≡ false

operator_of-boolean : (o : Operator) → is_boolean_operator (operator_of o) ≡ true
unfolding is_boolean_operator operator_of is_boolean
operator_of-boolean conj = refl
operator_of-boolean disj = refl
operator_of-boolean diff = refl

pack_entry-operator_of :
    (o : Operator) (stack result : List Entry)
    → pack_entry (operator_of o) stack result ≡ pack_operator (operator_of o) stack result
unfolding pack_entry operator_of
pack_entry-operator_of conj stack result = refl
pack_entry-operator_of disj stack result = refl
pack_entry-operator_of diff stack result = refl

-- An operator takes the place of the one that waits.
pack_operator_ok :
    (o : Operator) (e : Expr) (stack result : List Entry)
    → NoOperator stack
    → pack_entry (operator_of o) (waiting e ++ stack) (emitted e ++ result)
      ≡ packing (operator_of o ∷ stack) (prefix_order e ++ result)
unfolding waiting emitted prefix_order pack_operator
pack_operator_ok o (just_term t) [] result h = pack_entry-operator_of o [] (prefix_term t ++ result)
pack_operator_ok o (just_term t) (top ∷ rest) result h =
    pack_entry-operator_of o (top ∷ rest) (prefix_term t ++ result) ∙ rw (operator_of-boolean o, h)
pack_operator_ok o (binary t p e) stack result h =
    pack_entry-operator_of o (operator_of p ∷ stack) ((prefix_term t ++ prefix_order e) ++ result)
    ∙ rw (operator_of-boolean o, operator_of-boolean p)

operator_of-close : (o : Operator) → is_close_paren (operator_of o) ≡ false
unfolding operator_of is_close_paren
operator_of-close conj = refl
operator_of-close disj = refl
operator_of-close diff = refl

unroll_ok :
    (e : Expr) (stack result : List Entry)
    → unroll (waiting e ++ (create_close_paren ∷ stack)) (emitted e ++ result)
      ≡ packing stack (prefix_order e ++ result)
unfolding waiting emitted prefix_order unroll is_close_paren
unroll_ok (just_term t) stack result = refl
unroll_ok (binary t o e) stack result = rw (operator_of-close o)

pack_open_ok :
    (e : Expr) (stack result : List Entry)
    → pack_open (waiting e ++ (create_close_paren ∷ stack)) (emitted e ++ result)
      ≡ packing stack (prefix_order e ++ result)
unfolding waiting pack_open
pack_open_ok (just_term t) stack result = unroll_ok (just_term t) stack result
pack_open_ok (binary t o e) stack result = unroll_ok (binary t o e) stack result

mutual
  unfolding infix_order prefix_order waiting emitted pack_entries pack_next pack_entry
      is_boolean_operator

  expr_ok :
      (e : Expr) (source stack result : List Entry)
      → pack_entries source ≡ packing stack result
      → NoOperator stack
      → pack_entries (infix_order e ++ source) ≡ packing (waiting e ++ stack) (emitted e ++ result)
  expr_ok (just_term t) source stack result h n = term_ok t source stack result h
  expr_ok (binary t o e) source stack result h n =
      rw (append_assoc (infix_term t) (operator_of o ∷ infix_order e) source) (
        term_ok t (operator_of o ∷ (infix_order e ++ source)) (operator_of o ∷ stack)
          (prefix_order e ++ result)
          (rw (expr_ok e source stack result h n) (pack_operator_ok o e stack result n))
        ∙ rw (append_assoc (prefix_term t) (prefix_order e) result))

  term_ok :
      (t : Term) (source stack result : List Entry)
      → pack_entries source ≡ packing stack result
      → pack_entries (infix_term t ++ source) ≡ packing stack (prefix_term t ++ result)
  term_ok (text s) source stack result h = rw h
  term_ok (number x) source stack result h = rw h
  term_ok (parens e) source stack result h =
      let closed : pack_entries (create_close_paren ∷ source)
          ≡ packing (create_close_paren ∷ stack) result =
        rw h in
      rw
        (
          append_assoc (infix_order e) (create_close_paren ∷ []) source,
          expr_ok e (create_close_paren ∷ source) (create_close_paren ∷ stack) result closed refl,
        )
        (pack_open_ok e stack result)

pack_end_ok :
    (e : Expr)
    → pack_end (packing (waiting e) (emitted e)) ≡ record { request = prefix_order e; err = none }
unfolding pack_end pack_bottom bottom waiting emitted prefix_order operator_of
pack_end_ok (just_term t) = refl
pack_end_ok (binary t conj e) = refl
pack_end_ok (binary t disj e) = refl
pack_end_ok (binary t diff e) = refl

-- `PackRequest` accepts every expression that is written out with its parens and gives it in prefix
-- order, without parens, where operators in a row group to the right.
pub pack_request-infix_order :
    (e : Expr) → pack_request (infix_order e) ≡ record { request = prefix_order e; err = none }
unfolding pack_request pack_entries
pack_request-infix_order e =
    let packed : pack_entries (infix_order e) ≡ packing (waiting e) (emitted e) =
      rw (append-nil, append-nil, append-nil) at (expr_ok e [] [] [] refl tt) in
    rw packed (pack_end_ok e)
