-- ===== src/Connections/Totals.antt =====
-- peer_connection.go: sums over the blocks that are requested, under the changes that the loop makes.
use ged2k.Prelude.{
  ℕ, zero, suc, ◌+◌, ◌-◌, ◌≡◌, refl, ap, some, List, [], ◌∷◌, ◌++◌, length, length-set, take, set,
  get_elem?, Bool-cases, Option-cases, inl, inr, Ensures, arith,
}
use mathlib.Core.Path.{subst}
use ged2k.Proto.Geometry.{PieceBlock}
use ged2k.Pieces.Pending.{PendingBlock, remove_pending_block}
use ged2k.Connections.Packets.{same_block, find_request}

-- The sum of the weights of the blocks.
unfoldable pub total : (PieceBlock → ℕ) → List PendingBlock → ℕ
total v [] = 0
total v (x ∷ xs) = v x.block + total v xs

module _ (v : PieceBlock → ℕ) where
  pub total-append : (xs ys : List PendingBlock) → total v (xs ++ ys) ≡ total v xs + total v ys
  unfolding total
  total-append [] ys = omega arith
  total-append (x ∷ xs) ys = omega (arith, total-append xs ys)

  pub total-set :
      (s : List PendingBlock) (i : ℕ) (old x : PendingBlock)
      → get_elem? s i ≡ some old
      → total v (set s i x) + v old.block ≡ total v s + v x.block
  unfolding total
  total-set [] i old x h = cc
  total-set (y ∷ ys) zero old x h = ground (arith, h)
  total-set (y ∷ ys) (suc i) old x h = omega (arith, total-set ys i old x h)

  total-take :
      (n : ℕ) (s : List PendingBlock) (last : PendingBlock)
      → length s ≡ suc n
      → get_elem? s n ≡ some last
      → total v (take n s) + v last.block ≡ total v s
  unfolding total
  total-take n [] last e h = cc
  total-take zero (y ∷ []) last e h = ground (arith, h)
  total-take zero (y ∷ z ∷ zs) last e h = absurd (omega arith)
  total-take (suc n) (y ∷ ys) last e h = omega (arith, total-take n ys last (omega arith) h)

  total-take_last :
      (s : List PendingBlock) (last : PendingBlock)
      → get_elem? s (length s - 1) ≡ some last
      → total v (take (length s - 1) s) + v last.block ≡ total v s
  total-take_last [] last h = cc
  total-take_last (y ∷ ys) last h = total-take (length (y ∷ ys) - 1) (y ∷ ys) last (omega arith) h

  get_elem?-set :
      (s : List PendingBlock) (i j : ℕ) (old x : PendingBlock)
      → get_elem? s i ≡ some old
      → get_elem? s j ≡ some x
      → get_elem? (set s i x) j ≡ some x
  get_elem?-set [] i j old x h k = k
  get_elem?-set (y ∷ ys) zero zero old x h k = refl
  get_elem?-set (y ∷ ys) zero (suc j) old x h k = k
  get_elem?-set (y ∷ ys) (suc i) zero old x h k = k
  get_elem?-set (y ∷ ys) (suc i) (suc j) old x h k = get_elem?-set ys i j old x h k

  -- A removal takes away the block at its index.
  pub total-remove_pending_block :
      (s : List PendingBlock) (i : ℕ) (x : PendingBlock)
      → get_elem? s i ≡ some x
      → Ensures (λ left. total v left + v x.block ≡ total v s) (remove_pending_block s i)
  unfolding remove_pending_block
  total-remove_pending_block s i x h = elim (Option-cases (get_elem? s (length s - 1))) [
    | inl e ↦ rw (e, remove_pending_block) tt
    | inr (last, e) ↦
        rw (e, h)
          (omega (
            arith,
            total-set s i x last h,
            rw (length-set s i last) at (
                total-take_last (set s i last) last
                  (rw (length-set s i last) (get_elem?-set s i (length s - 1) x last h e))),
          ))
  ]

  -- A block that changes otherwise, at its index.
  pub total-set_same :
      (s : List PendingBlock) (i : ℕ) (old x : PendingBlock)
      → get_elem? s i ≡ some old
      → x.block ≡ old.block
      → total v (set s i x) ≡ total v s
  total-set_same s i old x h e = omega (arith, total-set s i old x h, ap v e)

pub get_elem?-set_self :
    (s : List PendingBlock) (i : ℕ) (old x : PendingBlock)
    → get_elem? s i ≡ some old
    → get_elem? (set s i x) i ≡ some x
get_elem?-set_self [] i old x h = cc
get_elem?-set_self (y ∷ ys) zero old x h = refl
get_elem?-set_self (y ∷ ys) (suc i) old x h = get_elem?-set_self ys i old x h

-- What the search finds stands at its index.
find_request-at :
    (b : PieceBlock) (s : List PendingBlock) (k i : ℕ) (x : PendingBlock)
    → find_request b s k ≡ some (i, x)
    → (j : ℕ) × (i ≡ k + j) × (get_elem? s j ≡ some x)
unfolding find_request
find_request-at b [] k i x h = cc
find_request-at b (y ∷ ys) k i x h = elim (Bool-cases (same_block y.block b)) [
  | inl e ↦ let f = rw (e, find_request) at h in (0, ground (arith, f), ground (arith, f))
  | inr e ↦
      let (j, p, q) = find_request-at b ys (suc k) i x (rw (e, find_request) at h) in
      (suc j, omega arith, q)
]

pub find_request_lem :
    (b : PieceBlock) (s : List PendingBlock) (i : ℕ) (x : PendingBlock)
    → find_request b s 0 ≡ some (i, x)
    → get_elem? s i ≡ some x
find_request_lem b s i x h =
    let (j, p, q) = find_request-at b s 0 i x h in
    let same : j ≡ i = omega arith in subst (λ n. get_elem? s n ≡ some x) same q
