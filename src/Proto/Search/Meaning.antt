-- ===== src/Proto/Search/Meaning.antt =====
-- proto/search.go: what a server understands of a request that `PackRequest` gives.
use ged2k.Prelude.{ℕ, ◌≡◌, refl, Option, none, some, List, [], ◌∷◌, ◌++◌}
use mathlib.Core.List.{append_assoc, append-nil}
use ged2k.Proto.Search.{
  Entry, NumericEntry, StringEntry, numeric_entry, string_entry, operator_entry, paren_entry,
  oper_and, oper_or, oper_not,
}
use ged2k.Proto.Search.Pack.{pack_request}
use ged2k.Proto.Search.Infix.{
  Operator, conj, disj, diff, Expr, just_term, binary, Term, text, number, parens, operator_of,
  infix_order, prefix_order, prefix_term, pack_request-infix_order,
}

-- A reading: the values of the operands, and what an operator's byte does to two values.
pub record Reading (A : Type 0) : Type 0 where
  pub of_text : StringEntry → A
  pub of_number : NumericEntry → A
  pub apply : ℕ → A → A → A

abbrev pub code_of : Operator → ℕ
code_of conj = oper_and
code_of disj = oper_or
code_of diff = oper_not

module _ {A : Type 0} (reading : Reading A) where
  -- The value of an expression, operators in a row grouped to the right.
  unfoldable mutual
    pub value : Expr → A
    value (just_term t) = value_term t
    value (binary t o e) = reading.apply (code_of o) (value_term t) (value e)

    pub value_term : Term → A
    value_term (text s) = reading.of_text s
    value_term (number n) = reading.of_number n
    value_term (parens e) = value e

  unfoldable pub apply_operator : ℕ → Option (List A) → Option (List A)
  apply_operator o (some (a ∷ b ∷ rest)) = some (reading.apply o a b ∷ rest)
  apply_operator o (some (a ∷ [])) = none
  apply_operator o (some []) = none
  apply_operator o none = none

  unfoldable pub push : A → Option (List A) → Option (List A)
  push a (some rest) = some (a ∷ rest)
  push a none = none

  -- The values of a request in prefix order, read from its end.
  unfoldable pub read_prefix : List Entry → Option (List A)
  read_prefix [] = some []
  read_prefix (string_entry s ∷ rest) = push (reading.of_text s) (read_prefix rest)
  read_prefix (numeric_entry n ∷ rest) = push (reading.of_number n) (read_prefix rest)
  read_prefix (operator_entry o ∷ rest) = apply_operator o (read_prefix rest)
  read_prefix (paren_entry c ∷ rest) = none

  read_prefix-operator_of :
      (o : Operator) (rest : List Entry)
      → read_prefix (operator_of o ∷ rest) ≡ apply_operator (code_of o) (read_prefix rest)
  unfolding read_prefix operator_of
  read_prefix-operator_of conj rest = refl
  read_prefix-operator_of disj rest = refl
  read_prefix-operator_of diff rest = refl

  mutual
    unfolding prefix_order value read_prefix push apply_operator

    read_prefix-expr :
        (e : Expr) (rest : List Entry) (values : List A)
        → read_prefix rest ≡ some values
        → read_prefix (prefix_order e ++ rest) ≡ some (value e ∷ values)
    read_prefix-expr (just_term t) rest values h = read_prefix-term t rest values h
    read_prefix-expr (binary t o e) rest values h = rw (
      read_prefix-operator_of o ((prefix_term t ++ prefix_order e) ++ rest),
      append_assoc (prefix_term t) (prefix_order e) rest,
      read_prefix-term t (prefix_order e ++ rest) (value e ∷ values)
          (read_prefix-expr e rest values h),
    )

    read_prefix-term :
        (t : Term) (rest : List Entry) (values : List A)
        → read_prefix rest ≡ some values
        → read_prefix (prefix_term t ++ rest) ≡ some (value_term t ∷ values)
    read_prefix-term (text s) rest values h = rw h
    read_prefix-term (number n) rest values h = rw h
    read_prefix-term (parens e) rest values h = read_prefix-expr e rest values h

  -- For every reading of operands and operators, an expression that is packed by `PackRequest` and
  -- read as prefix order has one value, that of the expression with operators in a row grouped to the
  -- right.
  pub read_prefix-pack_request :
      (e : Expr) → read_prefix (pack_request (infix_order e)).request ≡ some (value e ∷ [])
  unfolding read_prefix
  read_prefix-pack_request e =
      rw (pack_request-infix_order e) (rw append-nil at (read_prefix-expr e [] [] refl))
