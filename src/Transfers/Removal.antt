-- ===== src/Transfers/Removal.antt =====
-- piece_picker.go: `remove` and `SetHave` on pieces with different numbers.
use ged2k.Prelude.{
  ℕ, zero, suc, ◌-◌, ◌<◌, ◌≡◌, ◌≢◌, ◌⊎◌, refl, sym, ap, ◌∙◌, ◌==◌, Bool-cases, Option-cases, inl,
  inr, none, some, List, [], ◌∷◌, length, get_elem?, set, take, Outcome, ok, or_panic, >>=-ok,
  if_panic-ok, ok_injective, not, arith, ==_iff,
}
use ged2k.Pieces.Downloading.{
  DownloadingPiece, Block, update_block, finish_block, is_block_requested,
}
use ged2k.Proto.BitField.{set_bit}
use ged2k.Proto.Geometry.{PieceBlock}
use ged2k.Pieces.Picker.{PiecePicker, position, swap_out, change_piece, finish_in}

-- Two pieces in progress with one number are one.
unfoldable pub Distinct : List DownloadingPiece → Type 0
Distinct s =
    (j k : ℕ) (x y : DownloadingPiece)
    → get_elem? s j ≡ some x
    → get_elem? s k ≡ some y
    → x.piece_index ≡ y.piece_index
    → j ≡ k

pub position-some :
    (p : ℕ) (s : List DownloadingPiece) (i : ℕ)
    → position p s ≡ some i
    → (x : DownloadingPiece) × (get_elem? s i ≡ some x) × (x.piece_index ≡ p)
unfolding position
position-some p [] i h = absurd (ground (arith, h))
position-some p (x ∷ xs) zero h = elim (Bool-cases (x.piece_index == p)) [
  | inl e ↦ (x, refl, (==_iff x.piece_index p).0 e)
  | inr e ↦ elim (Option-cases (position p xs)) [
    | inl f ↦ absurd (ground (arith, h, e, f))
    | inr (k, f) ↦ absurd (ground (arith, h, e, f))
  ]
]
position-some p (x ∷ xs) (suc i) h = elim (Bool-cases (x.piece_index == p)) [
  | inl e ↦ absurd (ground (arith, h, e))
  | inr e ↦ elim (Option-cases (position p xs)) [
    | inl f ↦ absurd (ground (arith, h, e, f))
    | inr (k, f) ↦ position-some p xs i (ground (arith, h, e, f))
  ]
]

get_elem?-take :
    (n : ℕ) (s : List DownloadingPiece) (j : ℕ) (x : DownloadingPiece)
    → get_elem? (take n s) j ≡ some x
    → (j < n) × (get_elem? s j ≡ some x)
get_elem?-take zero s j x h = absurd (ground (arith, h))
get_elem?-take (suc n) [] j x h = absurd (ground (arith, h))
get_elem?-take (suc n) (y ∷ ys) zero x h = (omega arith, h)
get_elem?-take (suc n) (y ∷ ys) (suc j) x h =
    let (l, e) = get_elem?-take n ys j x h in (omega arith, e)

get_elem?-set :
    (s : List DownloadingPiece) (i j : ℕ) (v x : DownloadingPiece)
    → get_elem? (set s i v) j ≡ some x
    → ((j ≡ i) × (x ≡ v)) ⊎ ((j ≢ i) × (get_elem? s j ≡ some x))
get_elem?-set [] i j v x h = absurd (ground (arith, h))
get_elem?-set (y ∷ ys) zero zero v x h = inl (refl, cc)
get_elem?-set (y ∷ ys) zero (suc j) v x h = inr (omega arith, h)
get_elem?-set (y ∷ ys) (suc i) zero v x h = inr (omega arith, h)
get_elem?-set (y ∷ ys) (suc i) (suc j) v x h = elim (get_elem?-set ys i j v x h) [
  | inl e ↦ inl (ap suc e.0, e.1)
  | inr e ↦ inr ((λ f. e.0 (omega arith)), e.1)
]

get_elem?-below :
    (s : List DownloadingPiece) (j : ℕ) (x : DownloadingPiece)
    → get_elem? s j ≡ some x
    → j < length s
get_elem?-below [] j x h = absurd (ground (arith, h))
get_elem?-below (y ∷ ys) zero x h = omega arith
get_elem?-below (y ∷ ys) (suc j) x h = omega (arith, get_elem?-below ys j x h)

swap_out-some :
    (i : ℕ) (s : List DownloadingPiece) (last : DownloadingPiece)
    → get_elem? s (length s - 1) ≡ some last
    → swap_out i s ≡ ok (take (length s - 1) (set s i last))
unfolding swap_out
swap_out-some i s last f = rw f refl

-- What `remove` leaves stood at another place before.
swap_out-from :
    (i : ℕ) (s rest : List DownloadingPiece) (j : ℕ) (x : DownloadingPiece)
    → swap_out i s ≡ ok rest
    → get_elem? rest j ≡ some x
    → (k : ℕ) × (k ≢ i) × (get_elem? s k ≡ some x)
unfolding swap_out
swap_out-from i s rest j x e h = elim (Option-cases (get_elem? s (length s - 1))) [
  | inl f ↦ absurd (ground (arith, e, f))
  | inr (last, f) ↦
      let (below, g) =
        get_elem?-take (length s - 1) (set s i last) j x (cc (e, h, swap_out-some i s last f)) in
      elim (get_elem?-set s i j last x g) [
        | inl (here, is_last) ↦
            (length s - 1, (λ k. omega (arith, below, here, k)), cc (f, is_last))
        | inr (other, was) ↦ (j, other, was)
      ]
]

-- After a piece is removed its number is gone.
pub position-swap_out :
    (p i : ℕ) (s rest : List DownloadingPiece)
    → Distinct s
    → position p s ≡ some i
    → swap_out i s ≡ ok rest
    → position p rest ≡ none
unfolding Distinct
position-swap_out p i s rest d at_ e = elim (Option-cases (position p rest)) [
  | inl f ↦ f
  | inr (j, f) ↦
      let (x, g, x_is) = position-some p rest j f in
      let (k, other, was) = swap_out-from i s rest j x e g in
      let (y, here, y_is) = position-some p s i at_ in
      absurd (other (d k i x y was here (x_is ∙ sym y_is)))
]

-- Element `j` of a list is, up to a change, element `j` of the other.
abbrev ComesFrom : List DownloadingPiece → ℕ → DownloadingPiece → Type 0
ComesFrom s j y =
    (x : DownloadingPiece) × (get_elem? s j ≡ some x) × (y.piece_index ≡ x.piece_index)

some_index : (x y : DownloadingPiece) → some x ≡ some y → y.piece_index ≡ x.piece_index
some_index x y h = cc

changed_front :
    (x z : DownloadingPiece) (xs : List DownloadingPiece) (j : ℕ) (y : DownloadingPiece)
    → z.piece_index ≡ x.piece_index
    → get_elem? (z ∷ xs) j ≡ some y
    → ComesFrom (x ∷ xs) j y
changed_front x z xs zero y e h = (x, refl, some_index z y h ∙ e)
changed_front x z xs (suc j) y e h = (y, h, refl)

changed_behind :
    (x : DownloadingPiece) (xs zs : List DownloadingPiece) (j : ℕ) (y : DownloadingPiece)
    → get_elem? (x ∷ zs) j ≡ some y
    → ((k : ℕ) → get_elem? zs k ≡ some y → ComesFrom xs k y)
    → ComesFrom (x ∷ xs) j y
changed_behind x xs zs zero y h back = (x, refl, some_index x y h)
changed_behind x xs zs (suc j) y h back = back j h

-- A change that keeps the number of its piece keeps all numbers in place.
change_piece-from :
    (f : DownloadingPiece → Outcome DownloadingPiece) (p : ℕ) (s rest : List DownloadingPiece)
    (j : ℕ) (y : DownloadingPiece)
    → ((x z : DownloadingPiece) → f x ≡ ok z → z.piece_index ≡ x.piece_index)
    → change_piece f p s ≡ ok rest
    → get_elem? rest j ≡ some y
    → ComesFrom s j y
unfolding change_piece
change_piece-from f p [] rest j y keep e h = absurd (no_element rest (ok_injective [] rest e) j h)
  where
    no_element : (r : List DownloadingPiece) → [] ≡ r → (k : ℕ) → get_elem? r k ≡ some y → ⊥
    no_element [] q k g = ground (arith, g)
    no_element (z ∷ zs) q k g = ground (arith, q)
change_piece-from f p (x ∷ xs) rest j y keep e h = elim (Bool-cases (x.piece_index == p)) [
  | inl t ↦
      let (z, fz, e1) = >>=-ok (f x) _ rest (rw (t, change_piece) at e) in
      changed_front x z xs j y (keep x z fz)
        (ap (λ r. get_elem? r j) (ok_injective (z ∷ xs) rest e1) ∙ h)
  | inr t ↦
      let (zs, ez, e1) = >>=-ok (change_piece f p xs) _ rest (rw (t, change_piece) at e) in
      changed_behind x xs zs j y (ap (λ r. get_elem? r j) (ok_injective (x ∷ zs) rest e1) ∙ h)
        (λ k g. change_piece-from f p xs zs k y keep ez g)
]

update_block-index :
    (dp after : DownloadingPiece) (i : ℕ) (g : Block → Block)
    → update_block dp i g ≡ ok after
    → after.piece_index ≡ dp.piece_index
unfolding update_block
update_block-index dp after i g h =
    let (b, e, f) = >>=-ok (or_panic (get_elem? dp.blocks i)) _ after h in
    sym (ap (λ x. x.piece_index) (ok_injective _ after f))

finish_block-index :
    (dp after : DownloadingPiece) (i : ℕ)
    → finish_block dp i ≡ ok after
    → after.piece_index ≡ dp.piece_index
unfolding finish_block
finish_block-index dp after i h =
    let (r, e, h1) = >>=-ok (is_block_requested dp i) _ after h in
    let (was, h2) = if_panic-ok (not r) _ after h1 in
    let (finished, f, h3) = >>=-ok (set_bit dp.blocks_finished i) _ after h2 in
    update_block-index _ after i _ h3

pub finish_in-Distinct :
    (pp after : PiecePicker) (b : PieceBlock)
    → Distinct pp.downloading_pieces
    → finish_in pp b ≡ ok after
    → Distinct after.downloading_pieces
unfolding finish_in Distinct
finish_in-Distinct pp after b d h j k x y hx hy same =
    let (pieces, e, f) = >>=-ok (change_piece _ b.piece_index pp.downloading_pieces) _ after h in
    let is : pieces ≡ after.downloading_pieces =
      ap (λ p. p.downloading_pieces) (ok_injective _ after f) in
    let (x', ex, ix) =
      change_piece-from _ b.piece_index pp.downloading_pieces pieces j x
        (λ u v g. finish_block-index u v b.block_index g) e (rw is hx) in
    let (y', ey, iy) =
      change_piece-from _ b.piece_index pp.downloading_pieces pieces k y
        (λ u v g. finish_block-index u v b.block_index g) e (rw is hy) in
    d j k x' y' ex ey (sym ix ∙ same ∙ iy)
