-- ===== src/Pieces/Picker/Fills.antt =====
-- piece_picker.go: the two passes of `PickPieces` over the pieces in progress.
use ged2k.Prelude.{
  ℕ, suc, ◌+◌, ◌-◌, ◌<◌, ◌≤◌, ◌≡◌, ◌≢◌, ◌⊎◌, inl, inr, refl, ap, Bool, true, false, ◌==◌, not, ◌&&◌,
  List, [], ◌∷◌, ◌++◌, map, length, length-append, All, ok, arith, Bool-cases, ltb,
}
use native.Mathlib.Decide.{ℕ_discrete}
use ged2k.Proto.Geometry.{PieceBlock}
use ged2k.Proto.BitField.Bits.{BitFieldIsValid}
use ged2k.Pieces.Downloading.{PeerRef, PeerStore, DownloadingPiece, block_of}
use ged2k.Pieces.Downloading.Valid.{requested, PieceIsValid}
use ged2k.Pieces.Downloading.Picked.{pick_block_ok}
use ged2k.Pieces.Downloading.Picks.{Picks}
use ged2k.Pieces.Picker.{PiecePicker, add_each, add_downloading_blocks, pick_twice, peer_speed_slow}

-- The bit field of the pieces and every piece in progress are well formed.
pub record PickerIsValid (pp : PiecePicker) : Type 0 where
  pub pieces_valid : BitFieldIsValid pp.pieces
  pub each_valid : All PieceIsValid pp.downloading_pieces

-- Every block of the piece is requested.
pub AllRequested : DownloadingPiece → Type 0
AllRequested dp = (j : ℕ) → j < length dp.blocks → requested dp j ≡ true

-- What was picked with room for `required` blocks.
pub record Fills (required : ℕ) (after : List DownloadingPiece) (blocks : List PieceBlock)
    : Type 0 where
  pub each_valid : All PieceIsValid after
  pub few : length blocks ≤ required
  pub enough : (length blocks ≡ required) ⊎ All AllRequested after

length-map : (f : ℕ → PieceBlock) (xs : List ℕ) → length (map f xs) ≡ length xs
length-map f [] = refl
length-map f (x ∷ xs) = ap suc (length-map f xs)

length-picked :
    (res : List PieceBlock) (f : ℕ → PieceBlock) (new : List ℕ)
    → length (res ++ map f new) ≡ length res + length new
length-picked res f new = omega (arith, length-append res (map f new), length-map f new)

add_each_ok :
    (store : PeerStore) (required : ℕ) (peer : PeerRef) (end_game : Bool)
    (dps : List DownloadingPiece) (res : List PieceBlock)
    → All PieceIsValid dps
    → length res ≤ required
    → (after : List DownloadingPiece) × (all : List PieceBlock) × (add_each store required peer
          end_game dps res
        ≡ ok (after, all))
      × Fills required after all
unfolding add_each AllRequested
add_each_ok store required peer end_game [] res v h =
    ([], res, refl, record { each_valid = tt; few = h; enough = inr tt })
add_each_ok store required peer end_game (dp ∷ dps) res v h =
    let (next, new, e, p) = pick_block_ok store (required - length res) peer end_game dp v.0 in
    let all : List PieceBlock = res ++ map (block_of dp) new in
    let size : length all ≡ length res + length new = length-picked res (block_of dp) new in
    elim (ℕ_discrete (length all) required) [
      | yes full ↦ (
        next ∷ dps,
        all,
        rw (e, ==_yes (length all) required full),
        record { each_valid = (p.valid, v.1); few = omega (arith, full); enough = inl full },
      )
      | no more ↦
          let (after, blocks, f, fills) =
            add_each_ok store required peer end_game dps all v.1
              (omega (arith, size, p.within, h)) in
          (
            next ∷ after,
            blocks,
            rw (e, ==_no (length all) required more, f),
            record {
              each_valid = (p.valid, fills.each_valid);
              few = fills.few;
              enough =
                  with_next next after blocks
                    (done next new p (λ x. more (omega (arith, size, x, h)))) fills.enough;
            },
          )
    ]
  where
    ==_yes : (a b : ℕ) → a ≡ b → (a == b) ≡ true
    ==_yes a b x = ground arith

    ==_no : (a b : ℕ) → a ≢ b → (a == b) ≡ false
    ==_no a b x = ground arith

    done :
        (next : DownloadingPiece) (new : List ℕ)
        → Picks end_game (required - length res) 0 (length dp.blocks) dp next new
        → length new ≢ required - length res
        → AllRequested next
    done next new p x j l = elim p.enough [
      | inl y ↦ absurd (x y)
      | inr y ↦ y j (omega arith) (omega (arith, p.same_length))
    ]

    with_next :
        (next : DownloadingPiece) (after : List DownloadingPiece) (blocks : List PieceBlock)
        → AllRequested next
        → (length blocks ≡ required) ⊎ All AllRequested after
        → (length blocks ≡ required) ⊎ All AllRequested (next ∷ after)
    with_next next after blocks a (inl x) = inl x
    with_next next after blocks a (inr x) = inr (a, x)

add_downloading_blocks_ok :
    (store : PeerStore) (required : ℕ) (peer : PeerRef) (end_game : Bool) (pp : PiecePicker)
    → All PieceIsValid pp.downloading_pieces
    → (dps : List DownloadingPiece) × (blocks : List PieceBlock) × (add_downloading_blocks store
          required peer end_game pp
        ≡ ok (record pp { downloading_pieces = dps }, blocks))
      × Fills required dps blocks
unfolding add_downloading_blocks
add_downloading_blocks_ok store required peer end_game pp v =
    let (dps, blocks, e, fills) =
      add_each_ok store required peer end_game pp.downloading_pieces [] v (omega arith) in
    (dps, blocks, rw e, fills)

-- A second call with room for what the first left open.
Fills-append :
    (required : ℕ) (dps : List DownloadingPiece) (first again : List PieceBlock)
    → length first ≤ required
    → Fills (required - length first) dps again
    → Fills required dps (first ++ again)
Fills-append required dps first again h f = record {
  each_valid = f.each_valid;
  few = omega (arith, length-append first again, f.few);
  enough = elim f.enough [ inl e ↦ inl (omega (arith, length-append first again)) | inr e ↦ inr e ];
}

pub pick_twice_ok :
    (store : PeerStore) (required : ℕ) (peer : PeerRef) (pp : PiecePicker)
    → All PieceIsValid pp.downloading_pieces
    → (dps : List DownloadingPiece) × (blocks : List PieceBlock) × (pick_twice store required peer
          pp
        ≡ ok (record pp { downloading_pieces = dps }, blocks))
      × Fills required dps blocks
unfolding pick_twice
pick_twice_ok store required peer pp v =
    let (dps, first, e, fills) = add_downloading_blocks_ok store required peer false pp v in
    let (dps', again, e', fills') =
      add_downloading_blocks_ok store (required - length first) peer true
        (record pp { downloading_pieces = dps }) fills.each_valid in
    elim (Bool-cases
      (not ((store peer).speed == peer_speed_slow) && ltb (length first) required && true)) [
        | inl t ↦ (
          dps',
          first ++ again,
          rw (e, t, e'),
          Fills-append required dps' first again fills.few fills',
        )
        | inr t ↦ (dps, first, rw (e, t), fills)
      ]
