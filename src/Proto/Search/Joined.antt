-- ===== src/Proto/Search/Joined.antt =====
-- proto/search.go: neighbours in the entries that `BuildEntries` gives.
pub mod Whole
use ged2k.Prelude.{
  ◌+◌, ◌-◌, ◌≡◌, refl, ◌==◌, ◌&&◌, not, Bool, true, false, Bool-cases, Option-cases, inl, inr, some,
  List, [], ◌∷◌, ◌++◌, arith,
}
use ged2k.Proto.Search.{
  Entry, numeric_entry, string_entry, operator_entry, paren_entry, open_paren, create_and,
}
use ged2k.Proto.Search.Build.{
  is_operator, is_paren, is_open_paren, is_other_paren, needs_and, last, add_operand, add_folder,
  add_folder,
}

-- An entry that can end, or start, an operand.
ends_operand : Entry → Bool
ends_operand (numeric_entry e) = true
ends_operand (string_entry e) = true
ends_operand (operator_entry o) = false
ends_operand (paren_entry c) = not (c == open_paren)

starts_operand : Entry → Bool
starts_operand (numeric_entry e) = true
starts_operand (string_entry e) = true
starts_operand (operator_entry o) = false
starts_operand (paren_entry c) = c == open_paren

-- No operand right behind an operand, and no operator right behind an operator.
pub may_follow : Entry → Entry → Bool
may_follow a b = not (ends_operand a && starts_operand b) && not (is_operator a && is_operator b)

pub Chain : List Entry → Type 0
Chain [] = Unit
Chain (x ∷ []) = Unit
Chain (x ∷ y ∷ rest) = (may_follow x y ≡ true) × Chain (y ∷ rest)

-- The first entry is no operator.
pub StartsWell : List Entry → Type 0
StartsWell [] = Unit
StartsWell (x ∷ rest) = is_operator x ≡ false

pub record IsJoined (entries : List Entry) : Type 0 where
  pub starts : StartsWell entries
  pub chain : Chain entries

Chain-snoc :
    (xs : List Entry) (e : Entry)
    → Chain xs
    → ((a : Entry) → last xs ≡ some a → may_follow a e ≡ true)
    → Chain (xs ++ (e ∷ []))
unfolding Chain last
Chain-snoc [] e h k = tt
Chain-snoc (x ∷ []) e h k = (k x refl, tt)
Chain-snoc (x ∷ y ∷ rest) e h k = (h.0, Chain-snoc (y ∷ rest) e h.1 k)

pub last-snoc : (xs : List Entry) (e : Entry) → last (xs ++ (e ∷ [])) ≡ some e
unfolding last
last-snoc [] e = refl
last-snoc (x ∷ []) e = refl
last-snoc (x ∷ y ∷ rest) e = last-snoc (y ∷ rest) e

StartsWell-snoc :
    (xs : List Entry) (e : Entry)
    → StartsWell xs
    → (xs ≡ [] → is_operator e ≡ false)
    → StartsWell (xs ++ (e ∷ []))
unfolding StartsWell
StartsWell-snoc [] e h k = k refl
StartsWell-snoc (x ∷ rest) e h k = h

follows_and : (e : Entry) → is_operator e ≡ false → may_follow create_and e ≡ true
unfolding may_follow ends_operand starts_operand is_operator
follows_and (numeric_entry n) h = refl
follows_and (string_entry s) h = refl
follows_and (operator_entry o) h = ground arith
follows_and (paren_entry c) h = refl

and_follows : (top e : Entry) → needs_and top e ≡ true → may_follow top create_and ≡ true
unfolding may_follow ends_operand starts_operand is_operator needs_and is_paren is_other_paren
and_follows (numeric_entry n) e h = refl
and_follows (string_entry s) e h = refl
and_follows (operator_entry o) e h = ground arith
and_follows (paren_entry c) e h = ground arith

-- Where no operator is put between.
joins : (top e : Entry) → needs_and top e ≡ false → is_operator e ≡ false → may_follow top e ≡ true
unfolding may_follow ends_operand starts_operand is_operator needs_and is_paren is_other_paren
    is_open_paren
joins (numeric_entry n) (numeric_entry m) h k = ground arith
joins (numeric_entry n) (string_entry m) h k = ground arith
joins (numeric_entry n) (operator_entry m) h k = ground arith
joins (numeric_entry n) (paren_entry m) h k = ground arith
joins (string_entry n) (numeric_entry m) h k = ground arith
joins (string_entry n) (string_entry m) h k = ground arith
joins (string_entry n) (operator_entry m) h k = ground arith
joins (string_entry n) (paren_entry m) h k = ground arith
joins (operator_entry n) (numeric_entry m) h k = refl
joins (operator_entry n) (string_entry m) h k = refl
joins (operator_entry n) (operator_entry m) h k = ground arith
joins (operator_entry n) (paren_entry m) h k = refl
joins (paren_entry n) (numeric_entry m) h k = ground arith
joins (paren_entry n) (string_entry m) h k = ground arith
joins (paren_entry n) (operator_entry m) h k = ground arith
joins (paren_entry n) (paren_entry m) h k = ground arith

pub operator_follows :
    (top e : Entry) → is_operator top ≡ false → is_operator e ≡ true → may_follow top e ≡ true
unfolding may_follow ends_operand starts_operand is_operator
operator_follows (numeric_entry n) (operator_entry o) h k = refl
operator_follows (string_entry n) (operator_entry o) h k = refl
operator_follows (operator_entry n) (operator_entry o) h k = ground arith
operator_follows (paren_entry n) (operator_entry o) h k = ground arith
operator_follows top (numeric_entry o) h k = ground arith
operator_follows top (string_entry o) h k = ground arith
operator_follows top (paren_entry o) h k = ground arith

pub not_empty : (xs : List Entry) (a : Entry) → last xs ≡ some a → xs ≡ [] → ⊥
unfolding last
not_empty [] a h e = ground arith
not_empty (x ∷ xs) a h e = ground arith

pub snoc-IsJoined :
    (xs : List Entry) (e : Entry)
    → IsJoined xs
    → ((a : Entry) → last xs ≡ some a → may_follow a e ≡ true)
    → (xs ≡ [] → is_operator e ≡ false)
    → IsJoined (xs ++ (e ∷ []))
snoc-IsJoined xs e h k n = record {
  starts = StartsWell-snoc xs e h.starts n;
  chain = Chain-snoc xs e h.chain k;
}

-- Where `last` is known.
only_follows :
    (xs : List Entry) (top e : Entry)
    → last xs ≡ some top
    → may_follow top e ≡ true
    → (a : Entry) → last xs ≡ some a
    → may_follow a e ≡ true
only_follows xs top e l m a k = cc (l, m, k)

-- An operand or a paren may always be added.
pub add_operand-IsJoined :
    (dst : List Entry) (op : Entry)
    → IsJoined dst
    → is_operator op ≡ false
    → IsJoined (add_operand dst op)
unfolding add_operand
add_operand-IsJoined dst op h n = rw n (elim (Option-cases (last dst)) [
  | inl e ↦ rw e (snoc-IsJoined dst op h (λ a k. absurd (ground (arith, e, k))) (λ x. n))
  | inr (top, e) ↦ rw e (elim (Bool-cases (needs_and top op)) [
    | inl f ↦ rw f (
        snoc-IsJoined (dst ++ (create_and ∷ [])) op
          (snoc-IsJoined dst create_and h (only_follows dst top create_and e (and_follows top op f))
            (λ x. absurd (not_empty dst top e x)))
          (only_follows (dst ++ (create_and ∷ [])) create_and op (last-snoc dst create_and)
            (follows_and op n))
          (λ x. n))
    | inr f ↦ rw f (snoc-IsJoined dst op h (only_follows dst top op e (joins top op f n)) (λ x. n))
  ])
])

-- An operator may be added behind an entry that is none.
pub add_operator-IsJoined :
    (dst : List Entry) (op top : Entry)
    → IsJoined dst
    → is_operator op ≡ true
    → last dst ≡ some top
    → is_operator top ≡ false
    → IsJoined (add_operand dst op)
unfolding add_operand
add_operator-IsJoined dst op top h o e n = rw o (
    snoc-IsJoined dst op h (only_follows dst top op e (operator_follows top op n o))
      (λ x. absurd (not_empty dst top e x)))

pub none-IsJoined : IsJoined []
unfolding StartsWell Chain
none-IsJoined = record { starts = tt; chain = tt }

pub add_folder-IsJoined : IsJoined add_folder
unfolding add_folder add_operand is_operator needs_and last is_paren is_open_paren is_other_paren
    StartsWell Chain may_follow ends_operand starts_operand
add_folder-IsJoined = record { starts = refl; chain = (refl, (refl, (refl, (refl, tt)))) }
