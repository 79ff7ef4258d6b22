-- ===== src/Pieces/Receiving/Hashed.antt =====
-- piece_storage.go: the loop of `InsertBlock` that hashes, and arrivals of many blocks.
use ged2k.Prelude.{
  ℕ, suc, ◌+◌, ◌<◌, ◌≤◌, ◌≡◌, ◌⊎◌, refl, sym, ◌∙◌, ap, ◌==◌, true, false, List, [], ◌∷◌, length,
  arith, ltb, Bool-cases, inl, inr,
}
use ged2k.Pieces.Pending.{PendingBlock}
use ged2k.Pieces.Receiving.{ReceivingPiece, index_of, hash_blocks, insert_found, insert_block}
use ged2k.Pieces.Receiving.Sorted.{
  IsRisingFrom, has_index, insert, insert_at-insert, skip_blocks_found, insert-IsRising,
}

-- Every block's number is below `n`.
abbrev pub AllBelow : ℕ → List PendingBlock → Type 0
AllBelow n [] = Unit {0}
AllBelow n (x ∷ xs) = (index_of x < n) × AllBelow n xs

rising-length :
    (lo n : ℕ) (xs : List PendingBlock)
    → IsRisingFrom lo xs
    → AllBelow n xs
    → lo ≤ n
    → lo + length xs ≤ n
rising-length lo n [] s b l = omega arith
rising-length lo n (x ∷ xs) s b l =
    let rest : suc (index_of x) + length xs ≤ n =
      rising-length (suc (index_of x)) n xs s.1 b.1 (omega (arith, b.0)) in
    omega (arith, rest, s.0)

insert-AllBelow :
    (n : ℕ) (pb : PendingBlock) (xs : List PendingBlock)
    → AllBelow n xs
    → index_of pb < n
    → AllBelow n (insert pb xs)
unfolding insert
insert-AllBelow n pb [] b h = (h, tt)
insert-AllBelow n pb (x ∷ xs) b h = elim (Bool-cases (ltb (index_of x) (index_of pb))) [
  | inl e ↦ rw e (b.0, insert-AllBelow n pb xs b.1 h)
  | inr e ↦ rw e (h, b)
]

rising_lower :
    (lo lo' : ℕ) (xs : List PendingBlock) → IsRisingFrom lo xs → lo' ≤ lo → IsRisingFrom lo' xs
rising_lower lo lo' [] s l = tt
rising_lower lo lo' (x ∷ xs) s l = (omega (arith, s.0), s.1)

module _ {H : Type 0} (write : H → List ℕ → H) where
  -- The hash of the contents of some blocks, one after the other.
  abbrev pub write_all : H → List PendingBlock → H
  write_all h [] = h
  write_all h (x ∷ xs) = write_all (write h x.contents) xs

  hash_blocks-le : (xs : List PendingBlock) (h : H) (k : ℕ) → k ≤ (hash_blocks write xs h k).1
  unfolding hash_blocks
  hash_blocks-le [] h k = omega arith
  hash_blocks-le (x ∷ xs) h k = elim (Bool-cases (ltb (index_of x) k)) [
    | inl e ↦ rw e (hash_blocks-le xs h k)
    | inr e ↦ rw e (elim (Bool-cases (k == index_of x)) [
      | inl e' ↦
          let rest : suc k ≤ (hash_blocks write xs (write h x.contents) (suc k)).1 =
            hash_blocks-le xs (write h x.contents) (suc k) in
          rw e' (omega (arith, rest))
      | inr e' ↦ rw e' (omega arith)
    ])
  ]

  -- Going on after an insertion hashes what hashing it all again would.
  hash_blocks-insert :
      (pb : PendingBlock) (xs : List PendingBlock) (h : H) (i : ℕ)
      → IsRisingFrom i xs
      → i ≤ index_of pb
      → has_index (index_of pb) xs ≡ false
      → hash_blocks write (insert pb xs) (hash_blocks write xs h i).0 (hash_blocks write xs h i).1
        ≡ hash_blocks write (insert pb xs) h i
  unfolding hash_blocks insert
  hash_blocks-insert pb [] h i s l n = refl
  hash_blocks-insert pb (x ∷ xs) h i s l n = elim (Bool-cases (i == index_of x)) [
    | inl e ↦
        let same : (ltb (index_of x) i ≡ false) × (ltb (index_of x) (index_of pb) ≡ true) =
          ground arith in
        let k : ℕ = (hash_blocks write xs (write h x.contents) (suc i)).1 in
        let later : suc i ≤ k = hash_blocks-le xs (write h x.contents) (suc i) in
        let passed : ltb (index_of x) k ≡ true = ground arith in
        let rest =
          hash_blocks-insert pb xs (write h x.contents) (suc i) (ground arith) (ground arith)
            (ground arith) in
        rw (same.0, same.1, e, passed, same.0) rest
    | inr e ↦ let gap : ltb (index_of x) i ≡ false = ground arith in rw (gap, e)
  ]

  hash_blocks_all :
      (xs : List PendingBlock) (h : H) (i : ℕ)
      → IsRisingFrom i xs
      → (n : ℕ) → i + length xs ≡ n
      → AllBelow n xs
      → hash_blocks write xs h i ≡ (write_all h xs, n)
  unfolding hash_blocks
  hash_blocks_all [] h i s n e b = ap (λ m. (h, m)) (omega (arith, e))
  hash_blocks_all (x ∷ xs) h i s n e b =
      let rest : suc (index_of x) + length xs ≤ n =
        rising-length (suc (index_of x)) n xs s.1 b.1 b.0 in
      let same : (ltb (index_of x) i ≡ false) × (i == index_of x ≡ true) = ground (arith, s.0) in
      let lower = rising_lower (suc (index_of x)) (suc i) xs s.1 (omega (arith, s.0)) in
      rw (same.0, same.1)
        (hash_blocks_all xs (write h x.contents) (suc i) lower n (omega (arith, e)) b.1)

  -- What is kept of a piece whose hash was `h` at first: rising blocks, those without a gap hashed.
  abbrev pub IsHashedFrom : H → ReceivingPiece H → Type 0
  IsHashedFrom h rp =
      IsRisingFrom 0 rp.blocks × (hash_blocks write rp.blocks h 0 ≡ (rp.hash, rp.hash_block_index))

  with_block : ReceivingPiece H → PendingBlock → ReceivingPiece H
  with_block rp pb =
      let blocks = insert pb rp.blocks in
      let hashed = hash_blocks write blocks rp.hash rp.hash_block_index in
      record { hash = hashed.0; blocks = blocks; hash_block_index = hashed.1 }

  insert_block_new :
      (h : H) (rp : ReceivingPiece H) (pb : PendingBlock)
      → IsHashedFrom h rp
      → has_index (index_of pb) rp.blocks ≡ false
      → insert_block write rp pb ≡ (with_block rp pb, true)
  unfolding insert_block insert_found with_block
  insert_block_new h rp pb v e =
      rw (skip_blocks_found pb rp.blocks v.0, e, insert_at-insert pb rp.blocks)

  with_block-IsHashed :
      (h : H) (rp : ReceivingPiece H) (pb : PendingBlock)
      → IsHashedFrom h rp
      → has_index (index_of pb) rp.blocks ≡ false
      → IsHashedFrom h (with_block rp pb)
  unfolding with_block
  with_block-IsHashed h rp pb v e =
      let again = hash_blocks-insert pb rp.blocks h 0 v.0 (omega arith) e in
      let kept = ap (λ s. hash_blocks write (insert pb rp.blocks) s.0 s.1) v.1 in
      (insert-IsRising 0 pb rp.blocks v.0 (omega arith) e, sym again ∙ kept)

  -- On a piece in order and hashed up to its first gap: a block that is already there is refused;
  -- any other takes its place in the order, and the hash then is that of all the blocks up to the
  -- first gap, each written once and in order.
  pub insert_block_lem :
      (h : H) (rp : ReceivingPiece H) (pb : PendingBlock)
      → IsHashedFrom h rp
      → ((has_index (index_of pb) rp.blocks ≡ true) × (insert_block write rp pb ≡ (rp, false)))
        ⊎ ((has_index (index_of pb) rp.blocks ≡ false)
            × (((insert_block write rp pb).1 ≡ true)
                × (((insert_block write rp pb).0.blocks ≡ insert pb rp.blocks)
                    × IsHashedFrom h (insert_block write rp pb).0)))
  unfolding insert_block insert_found with_block
  insert_block_lem h rp pb v = elim (Bool-cases (has_index (index_of pb) rp.blocks)) [
    | inl e ↦ inl (e, rw (skip_blocks_found pb rp.blocks v.0, e))
    | inr e ↦
        let new = insert_block_new h rp pb v e in
        inr (e, rw new (refl, (refl, with_block-IsHashed h rp pb v e)))
  ]

  -- Blocks received one after the other.
  unfoldable pub insert_all : List PendingBlock → ReceivingPiece H → ReceivingPiece H
  insert_all [] rp = rp
  insert_all (pb ∷ pbs) rp = insert_all pbs (insert_block write rp pb).0

  insert_all-IsHashed :
      (pbs : List PendingBlock) (n : ℕ) (h : H) (rp : ReceivingPiece H)
      → IsHashedFrom h rp
      → AllBelow n rp.blocks
      → AllBelow n pbs
      → IsHashedFrom h (insert_all pbs rp) × AllBelow n (insert_all pbs rp).blocks
  unfolding insert_all
  insert_all-IsHashed [] n h rp v b bs = (v, b)
  insert_all-IsHashed (pb ∷ pbs) n h rp v b bs = elim (insert_block_lem h rp pb v) [
    | inl e ↦ rw (e.1, insert_all) (insert_all-IsHashed pbs n h rp v b bs.1)
    | inr e ↦
        let below : AllBelow n (insert_block write rp pb).0.blocks =
          rw e.1.1.0 (insert-AllBelow n pb rp.blocks b bs.0) in
        insert_all-IsHashed pbs n h (insert_block write rp pb).0 e.1.1.1 below bs.1
  ]

  abbrev pub empty_piece : H → ReceivingPiece H
  empty_piece h = record { hash = h; blocks = []; hash_block_index = 0 }

  -- Blocks numbered below `n` are received in any order, some of them perhaps more than once.
  -- Once `n` different ones are there, they stand in order and the hash is that of their contents.
  pub insert_all-hash :
      (pbs : List PendingBlock) (n : ℕ) (h : H)
      → AllBelow n pbs
      → length (insert_all pbs (empty_piece h)).blocks ≡ n
      → IsRisingFrom 0 (insert_all pbs (empty_piece h)).blocks
        × (((insert_all pbs (empty_piece h)).hash
              ≡ write_all h (insert_all pbs (empty_piece h)).blocks)
            × ((insert_all pbs (empty_piece h)).hash_block_index ≡ n))
  unfolding hash_blocks
  insert_all-hash pbs n h b full =
      let (v, below) = insert_all-IsHashed pbs n h (empty_piece h) (tt, refl) tt b in
      let all =
        hash_blocks_all (insert_all pbs (empty_piece h)).blocks h 0 v.0 n (omega (arith, full))
          below in
      let same = sym v.1 ∙ all in (v.0, (ap (λ s. s.0) same, ap (λ s. s.1) same))
