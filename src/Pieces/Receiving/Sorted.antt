-- ===== src/Pieces/Receiving/Sorted.antt =====
-- piece_storage.go: the place at which `InsertBlock` inserts.
use ged2k.Prelude.{
  ℕ, zero, suc, ◌+◌, ◌<◌, ◌≤◌, ◌≡◌, refl, sym, ◌∙◌, ap, ◌==◌, Bool, false, ◌||◌, none, some, List,
  [], ◌∷◌, ◌++◌, length, take, drop, set, arith, ltb, if◌then◌else◌, Bool-cases, inl, inr,
}
use ged2k.Pieces.Pending.{PendingBlock}
use ged2k.Pieces.Receiving.{index_of, skip_blocks, insert_at}

-- Each block has a higher number than the one before it, and at least `lo`.
abbrev pub IsRisingFrom : ℕ → List PendingBlock → Type 0
IsRisingFrom lo [] = Unit {0}
IsRisingFrom lo (x ∷ xs) = (lo ≤ index_of x) × IsRisingFrom (suc (index_of x)) xs

abbrev pub has_index : ℕ → List PendingBlock → Bool
has_index i [] = false
has_index i (x ∷ xs) = index_of x == i || has_index i xs

-- Insertion into a list in order.
unfoldable pub insert : PendingBlock → List PendingBlock → List PendingBlock
insert pb [] = pb ∷ []
insert pb (x ∷ xs) = if ltb (index_of x) (index_of pb) then x ∷ insert pb xs else pb ∷ x ∷ xs

-- How many blocks stand before the place of a number.
pub before : ℕ → List PendingBlock → ℕ
before i [] = 0
before i (x ∷ xs) = if ltb (index_of x) i then suc (before i xs) else 0

above : (lo i : ℕ) (xs : List PendingBlock) → IsRisingFrom lo xs → i < lo → has_index i xs ≡ false
above lo i [] s h = refl
above lo i (x ∷ xs) s h = ground (arith, above (suc (index_of x)) i xs s.1)

skip_blocks-before :
    (lo i skip : ℕ) (xs : List PendingBlock)
    → IsRisingFrom lo xs
    → skip_blocks i xs skip ≡ (if has_index i xs then none else some (skip + before i xs))
unfolding skip_blocks before
skip_blocks-before lo i skip [] s = ground arith
skip_blocks-before lo i skip (x ∷ xs) s = ground (
  arith,
  skip_blocks-before (suc (index_of x)) i (suc skip) xs s.1,
  above (suc (index_of x)) i xs s.1,
)

before-le : (i : ℕ) (xs : List PendingBlock) → before i xs ≤ length xs
unfolding before
before-le i [] = omega arith
before-le i (x ∷ xs) = ground (arith, before-le i xs)

insert-split :
    (pb : PendingBlock) (xs : List PendingBlock)
    → insert pb xs ≡ take (before (index_of pb) xs) xs ++ (pb ∷ drop (before (index_of pb) xs) xs)
unfolding insert before
insert-split pb [] = refl
insert-split pb (x ∷ xs) = elim (Bool-cases (ltb (index_of x) (index_of pb))) [
  | inl e ↦ rw (e, insert-split pb xs)
  | inr e ↦ rw e
]

-- `append(s[:k+1], s[k:]...)` with element `k` written over, for `k` below the length.
overwrite :
    (k : ℕ) (pb : PendingBlock) (xs : List PendingBlock)
    → k < length xs
    → set (take (suc k) xs ++ drop k xs) k pb ≡ take k xs ++ (pb ∷ drop k xs)
overwrite k pb [] h = absurd (omega arith)
overwrite zero pb (x ∷ xs) h = refl
overwrite (suc k) pb (x ∷ xs) h = ap (◌∷◌ x) (overwrite k pb xs (omega arith))

take_whole : (xs : List PendingBlock) → (take (length xs) xs ≡ xs) × (drop (length xs) xs ≡ [])
take_whole [] = (refl, refl)
take_whole (x ∷ xs) = (ap (◌∷◌ x) (take_whole xs).0, (take_whole xs).1)

insert_last :
    (n : ℕ) (pb : PendingBlock) (xs : List PendingBlock)
    → n ≡ length xs
    → take n xs ++ (pb ∷ drop n xs) ≡ xs ++ (pb ∷ [])
insert_last n pb xs e = rw (e, (take_whole xs).0, (take_whole xs).1)

insert_at-split :
    (k : ℕ) (pb : PendingBlock) (xs : List PendingBlock)
    → k ≤ length xs
    → insert_at k pb xs ≡ take k xs ++ (pb ∷ drop k xs)
unfolding insert_at
insert_at-split zero pb xs h = refl
insert_at-split (suc k) pb xs h =
    let nonzero : (suc k == 0) ≡ false = ground arith in
    elim (Bool-cases (suc k == length xs)) [
      | inl e ↦ rw (nonzero, e) (sym (insert_last (suc k) pb xs (ground arith)))
      | inr e ↦
          let one_more : suc k + 1 ≡ suc (suc k) = omega arith in
          rw (nonzero, e, one_more) (overwrite (suc k) pb xs (ground arith))
    ]

-- On blocks in order the switch of `InsertBlock` puts the block in its place.
pub insert_at-insert :
    (pb : PendingBlock) (xs : List PendingBlock)
    → insert_at (before (index_of pb) xs) pb xs ≡ insert pb xs
insert_at-insert pb xs =
    insert_at-split (before (index_of pb) xs) pb xs (before-le (index_of pb) xs)
    ∙ sym (insert-split pb xs)

pub skip_blocks_found :
    (pb : PendingBlock) (xs : List PendingBlock)
    → IsRisingFrom 0 xs
    → skip_blocks (index_of pb) xs 0
      ≡ (if has_index (index_of pb) xs then none else some (before (index_of pb) xs))
skip_blocks_found pb xs s = ground (arith, skip_blocks-before 0 (index_of pb) 0 xs s)

pub insert-IsRising :
    (lo : ℕ) (pb : PendingBlock) (xs : List PendingBlock)
    → IsRisingFrom lo xs
    → lo ≤ index_of pb
    → has_index (index_of pb) xs ≡ false
    → IsRisingFrom lo (insert pb xs)
unfolding insert
insert-IsRising lo pb [] s h n = (h, tt)
insert-IsRising lo pb (x ∷ xs) s h n = elim (Bool-cases (ltb (index_of x) (index_of pb))) [
  | inl e ↦ rw e (s.0, insert-IsRising (suc (index_of x)) pb xs s.1 (ground arith) (ground arith))
  | inr e ↦ rw e (h, (ground arith, s.1))
]
