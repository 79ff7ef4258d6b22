-- ===== src/Pieces/Picker/Pieces.antt =====
-- piece_picker.go: `PickPieces`.
use ged2k.Prelude.{
  ℕ, zero, suc, ◌-◌, ◌<◌, ◌≤◌, ◌≡◌, ◌⊎◌, inl, inr, refl, ◌∙◌, Bool, true, false, ◌||◌, ◌==◌, List,
  [], ◌∷◌, ◌++◌, length, length-append, All, All-append, Outcome, ok, ◌>>=◌, arith, Bool-cases, ltb,
  ltb→lt,
}
use ged2k.Prelude.Tally.{tally, tally-le, tally-ext, tally_add}
use ged2k.Proto.Geometry.{PieceBlock}
use ged2k.Proto.BitField.Bits.{
  BitFieldIsValid, bit_of, with_bit, with_bit-IsValid, bits-with_bit, bit_of-with_bit,
}
use ged2k.Pieces.Downloading.{PeerRef, PeerStore, DownloadingPiece}
use ged2k.Pieces.Downloading.Valid.{PieceIsValid}
use ged2k.Pieces.Picker.{
  PiecePicker, pick_again_if, pick_rest, choose_next_piece, pick_with, pick_pieces,
}
use ged2k.Pieces.Picker.Next.{Chosen, all_taken, chosen, choose_next_piece_ok}
use ged2k.Pieces.Picker.Fills.{PickerIsValid, AllRequested, Fills, pick_twice_ok}

-- How many pieces are not taken.
untaken : PiecePicker → ℕ
untaken pp = pp.pieces.bits - tally (bit_of pp.pieces) pp.pieces.bits

-- Every piece is taken.
pub AllTaken : PiecePicker → Type 0
AllTaken pp = (j : ℕ) → j < pp.pieces.bits → bit_of pp.pieces j ≡ true

-- The result of `PickPieces`.
pub record PicksPieces (required : ℕ) (pp after : PiecePicker) (blocks : List PieceBlock)
    : Type 0 where
  pub valid : PickerIsValid after
  pub same_count : after.pieces.bits ≡ pp.pieces.bits
  pub within : length blocks ≤ required
  pub enough :
      (length blocks ≡ required) ⊎ (AllTaken after × All AllRequested after.downloading_pieces)

Returns : ℕ → PiecePicker → Outcome (PiecePicker × List PieceBlock) → Type 0
Returns required pp out =
    (after : PiecePicker) × (blocks : List PieceBlock) × (out ≡ ok (after, blocks))
    × PicksPieces required pp after blocks

-- A piece that is taken leaves fewer.
untaken-with_bit :
    (pp : PiecePicker) (dps : List DownloadingPiece) (i : ℕ)
    → BitFieldIsValid pp.pieces
    → i < pp.pieces.bits
    → bit_of pp.pieces i ≡ false
    → suc (untaken (record pp { downloading_pieces = dps; pieces = with_bit pp.pieces i }))
      ≡ untaken pp
unfolding untaken
untaken-with_bit pp dps i v h e = rw (bits-with_bit pp.pieces i) (
    omega (
      arith,
      tally-ext (bit_of (with_bit pp.pieces i)) (λ k. i == k || bit_of pp.pieces k) pp.pieces.bits
          (λ k l. bit_of-with_bit pp.pieces i k v h),
      tally_add (bit_of pp.pieces) i pp.pieces.bits h e,
      tally-le (λ k. i == k || bit_of pp.pieces k) pp.pieces.bits,
    ))

-- After the choice: `again` is right on every picker with fewer pieces that are not taken.
pick_again_if_ok :
    (required : ℕ) (pp : PiecePicker) (blocks : List PieceBlock)
    (again : PiecePicker → Outcome (PiecePicker × List PieceBlock))
    → BitFieldIsValid pp.pieces
    → Fills required pp.downloading_pieces blocks
    → length blocks < required
    → ((next : PiecePicker)
        → PickerIsValid next
        → untaken next < untaken pp
        → Returns (required - length blocks) next (again next))
    → (out : Outcome (PiecePicker × Bool)) → Chosen pp 0 out
    → Returns required pp (out >>= pick_again_if again blocks)
unfolding Returns pick_again_if AllTaken
pick_again_if_ok required pp blocks again v fills more ih out (all_taken h) = (
  pp,
  blocks,
  refl,
  record {
    valid = record { pieces_valid = v; each_valid = fills.each_valid };
    same_count = refl;
    within = fills.few;
    enough = inr ((λ j l. h j (omega arith) l), requested_all fills.enough);
  },
)
  where
    requested_all :
        (length blocks ≡ required) ⊎ All AllRequested pp.downloading_pieces
        → All AllRequested pp.downloading_pieces
    requested_all (inl e) = absurd (omega arith)
    requested_all (inr a) = a
pick_again_if_ok required pp blocks again v fills more ih out
      (chosen i dp lo hi open_ before valid index size none_yet) =
    let next : PiecePicker = record pp {
      downloading_pieces = pp.downloading_pieces ++ (dp ∷ []);
      pieces = with_bit pp.pieces i;
    } in
    let next_valid : PickerIsValid next = record {
      pieces_valid = with_bit-IsValid pp.pieces i v;
      each_valid =
          All-append PieceIsValid pp.downloading_pieces (dp ∷ []) fills.each_valid (valid, tt);
    } in
    let (after, rest, e, p) =
      ih next next_valid (omega (arith, untaken-with_bit pp _ i v hi open_)) in
    (
      after,
      blocks ++ rest,
      rw e,
      record {
        valid = p.valid;
        same_count = p.same_count ∙ bits-with_bit pp.pieces i;
        within = omega (arith, length-append blocks rest, p.within);
        enough = elim p.enough [
          | inl f ↦ inl (omega (arith, length-append blocks rest))
          | inr f ↦ inr f
        ];
      },
    )

pick_rest_ok :
    (required : ℕ) (pp : PiecePicker) (blocks : List PieceBlock)
    (again : ℕ → PiecePicker → Outcome (PiecePicker × List PieceBlock))
    → BitFieldIsValid pp.pieces
    → Fills required pp.downloading_pieces blocks
    → ((n : ℕ) (next : PiecePicker)
        → PickerIsValid next
        → untaken next < untaken pp
        → Returns n next (again n next))
    → Returns required pp (pick_rest required again (pp, blocks))
unfolding Returns pick_rest
pick_rest_ok required pp blocks again v fills ih =
    elim (Bool-cases (ltb (length blocks) required)) [
      | inr f ↦ (
        pp,
        blocks,
        rw (f, pick_rest),
        record {
          valid = record { pieces_valid = v; each_valid = fills.each_valid };
          same_count = refl;
          within = fills.few;
          enough = inl (ground (arith, fills.few));
        },
      )
      | inl t ↦
          rw (t, pick_rest)
            (pick_again_if_ok required pp blocks (again (required - length blocks)) v fills
              (ltb→lt (length blocks) required t) (ih (required - length blocks))
              (choose_next_piece pp) (choose_next_piece_ok pp v))
    ]

same_picker :
    (pp : PiecePicker) (dps : List DownloadingPiece) (required : ℕ)
    (out : Outcome (PiecePicker × List PieceBlock))
    → Returns required (record pp { downloading_pieces = dps }) out
    → Returns required pp out
unfolding Returns
same_picker pp dps required out (after, blocks, e, p) = (
  after,
  blocks,
  e,
  record { valid = p.valid; same_count = p.same_count; within = p.within; enough = p.enough },
)

pick_with_ok :
    (store : PeerStore) (fuel required : ℕ) (peer : PeerRef) (pp : PiecePicker)
    → PickerIsValid pp
    → untaken pp < fuel
    → Returns required pp (pick_with store fuel required peer pp)
unfolding pick_with untaken
pick_with_ok store zero required peer pp v h = absurd (omega arith)
pick_with_ok store (suc fuel) required peer pp v h =
    let (dps, blocks, e, fills) = pick_twice_ok store required peer pp v.each_valid in
    rw e (
      same_picker pp dps required _ (
        pick_rest_ok required (record pp { downloading_pieces = dps }) blocks _ v.pieces_valid fills
          (λ n next w l. pick_with_ok store fuel n peer next w (lower l))))
  where
    lower : {m : ℕ} → m < untaken pp → m < fuel
    lower l = omega arith

-- On a valid picker `PickPieces` ends, at a depth of at most one more than the number of pieces, and
-- does not panic. It leaves a valid picker of as many pieces and gives at most the number of blocks
-- asked for. It gives fewer only if every piece is taken and every block of those in progress is
-- requested.
pub pick_pieces_ok :
    (store : PeerStore) (required : ℕ) (peer : PeerRef) (pp : PiecePicker)
    → PickerIsValid pp
    → (after : PiecePicker) × (blocks : List PieceBlock) × (pick_pieces store required peer pp
        ≡ ok (after, blocks))
      × PicksPieces required pp after blocks
unfolding pick_pieces Returns untaken
pick_pieces_ok store required peer pp v =
    pick_with_ok store (suc pp.pieces.bits) required peer pp v (omega arith)
