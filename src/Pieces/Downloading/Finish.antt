-- ===== src/Pieces/Downloading/Finish.antt =====
-- downloading_piece.go: `AbortBlock` and `FinishBlock`.
use ged2k.Prelude.{
  ℕ, ◌<◌, ◌≡◌, refl, sym, ◌∙◌, Bool, true, false, not, ◌&&◌, ◌||◌, ◌==◌, none, length, set,
  length-set, ok, panic, arith, Bool-cases, inl, inr, if◌then◌else◌, ltb,
}
use ged2k.Prelude.Int.{dec, is_zero}
use native.Mathlib.Decide.{ℕ_discrete}
use ged2k.Proto.BitField.{clear_bit}
use ged2k.Proto.BitField.Bits.{
  BitFieldIsValid, bit_of, with_bit, with_bit-IsValid, bits-with_bit, bit_of-with_bit, set_bit_ok,
  without_bit, without_bit-IsValid, bits-without_bit, bit_of-without_bit, clear_bit_ok,
}
use ged2k.Pieces.Downloading.{
  PeerRef, PeerStore, DownloadingPiece, abort_block, finish_block, update_block, forget,
}
use ged2k.Pieces.Downloading.Valid.{
  requested, finished, PieceIsValid, is_block_requested_ok, is_block_finished_ok, block_at,
  get_block_ok,
}

finished_piece : DownloadingPiece → ℕ → DownloadingPiece
finished_piece dp i = record dp {
  blocks = set dp.blocks i (record {
    downloaders_count = dec (block_at dp i).downloaders_count;
    last_downloader = none;
  });
  blocks_finished = with_bit dp.blocks_finished i;
}

-- On a valid piece `FinishBlock` of a requested block leaves a valid piece in which that block too is
-- finished, and no other; what is requested stays.
pub finish_block_ok :
    (dp : DownloadingPiece) (i : ℕ)
    → PieceIsValid dp
    → i < length dp.blocks
    → requested dp i ≡ true
    → (after : DownloadingPiece) × (finish_block dp i ≡ ok after)
      × PieceIsValid after
      × (after.piece_index ≡ dp.piece_index)
      × (length after.blocks ≡ length dp.blocks)
      × ((j : ℕ)
          → (requested after j ≡ requested dp j) × (finished after j ≡ (i == j || finished dp j)))
unfolding finish_block update_block
finish_block_ok dp i v h e = (
  finished_piece dp i,
  unfold finished_piece in
      rw (
        is_block_requested_ok dp i v h,
        e,
        set_bit_ok dp.blocks_finished i v.finished_valid (omega (arith, v.finished_size)),
        get_block_ok dp i h,
      ),
  unfold finished_piece in
      record {
        requested_valid = v.requested_valid;
        finished_valid = with_bit-IsValid dp.blocks_finished i v.finished_valid;
        requested_size = v.requested_size ∙ sym (length-set dp.blocks i _);
        finished_size =
            bits-with_bit dp.blocks_finished i ∙ v.finished_size ∙ sym (length-set dp.blocks i _);
        was_requested = λ j f. known j (cc (marked j, f));
      },
  unfold finished_piece in refl,
  unfold finished_piece in length-set dp.blocks i _,
  λ j. unfold finished_piece in (refl, marked j),
)
  where
    marked : (j : ℕ) → bit_of (with_bit dp.blocks_finished i) j ≡ (i == j || finished dp j)
    marked j =
        bit_of-with_bit dp.blocks_finished i j v.finished_valid (omega (arith, v.finished_size))

    known : (j : ℕ) → (i == j || finished dp j) ≡ true → requested dp j ≡ true
    known j f = elim (ℕ_discrete i j) [
      | yes p ↦ rw (← p) e
      | no n ↦ v.was_requested j (ground arith)
    ]

-- `FinishBlock` of a block that was not requested panics.
finish_block_panics :
    (dp : DownloadingPiece) (i : ℕ)
    → PieceIsValid dp
    → i < length dp.blocks
    → requested dp i ≡ false
    → finish_block dp i ≡ panic
unfolding finish_block
finish_block_panics dp i v h e = rw (is_block_requested_ok dp i v h, e)

aborted_piece : PeerStore → DownloadingPiece → ℕ → PeerRef → DownloadingPiece
aborted_piece store dp i peer = record dp {
  blocks = set dp.blocks i (record {
    downloaders_count = dec (block_at dp i).downloaders_count;
    last_downloader = forget store peer (block_at dp i).last_downloader;
  });
  blocks_requested =
      if is_zero (dec (block_at dp i).downloaders_count)
      then without_bit dp.blocks_requested i
      else dp.blocks_requested;
}

-- The last peer that loads the block gives it up.
abbrev is_last : DownloadingPiece → ℕ → Bool
is_last dp i = is_zero (dec (block_at dp i).downloaders_count)

requested-aborted :
    (dp : DownloadingPiece) (i j : ℕ)
    → PieceIsValid dp
    → i < length dp.blocks
    → bit_of (if is_last dp i then without_bit dp.blocks_requested i else dp.blocks_requested) j
      ≡ (requested dp j && not (i == j && is_last dp i))
requested-aborted dp i j v h = elim (Bool-cases (is_last dp i)) [
  | inl e ↦
      rw
        (
          e,
          bit_of-without_bit dp.blocks_requested i j v.requested_valid
              (omega (arith, v.requested_size)),
        )
        (ground arith)
  | inr e ↦ rw e (ground arith)
]

requested_field-aborted :
    (dp : DownloadingPiece) (i : ℕ)
    → PieceIsValid dp
    → let field = if is_last dp i then without_bit dp.blocks_requested i else dp.blocks_requested in
      BitFieldIsValid field × (field.bits ≡ length dp.blocks)
requested_field-aborted dp i v = elim (Bool-cases (is_last dp i)) [
  | inl e ↦ rw e (
    without_bit-IsValid dp.blocks_requested i v.requested_valid,
    bits-without_bit dp.blocks_requested i ∙ v.requested_size,
  )
  | inr e ↦ rw e (v.requested_valid, v.requested_size)
]

clear_last :
    (dp : DownloadingPiece) (i : ℕ)
    → PieceIsValid dp
    → i < length dp.blocks
    → (if is_last dp i then clear_bit dp.blocks_requested i else ok dp.blocks_requested)
      ≡ ok (if is_last dp i then without_bit dp.blocks_requested i else dp.blocks_requested)
clear_last dp i v h = elim (Bool-cases (is_last dp i)) [
  | inl e ↦
      rw (e, clear_bit_ok dp.blocks_requested i v.requested_valid (omega (arith, v.requested_size)))
  | inr e ↦ rw e
]

-- On a valid piece `AbortBlock` of an unfinished block returns a valid piece. The block is no longer
-- requested if this peer was its last, and that is all that changes of what is requested or finished.
pub abort_block_ok :
    (store : PeerStore) (dp : DownloadingPiece) (i : ℕ) (peer : PeerRef)
    → PieceIsValid dp
    → i < length dp.blocks
    → finished dp i ≡ false
    → (after : DownloadingPiece) × (abort_block store dp i peer ≡ ok after)
      × PieceIsValid after
      × (after.piece_index ≡ dp.piece_index)
      × (length after.blocks ≡ length dp.blocks)
      × ((j : ℕ)
          → (requested after j
              ≡ (requested dp j && not (i == j && is_zero (dec (block_at dp i).downloaders_count))))
            × (finished after j ≡ finished dp j))
unfolding abort_block
abort_block_ok store dp i peer v h e = (
  aborted_piece store dp i peer,
  rw (not_above, is_block_finished_ok dp i v h, e, get_block_ok dp i h, clear_last dp i v h)
      (unfold aborted_piece in refl),
  unfold aborted_piece in
      record {
        requested_valid = (requested_field-aborted dp i v).0;
        finished_valid = v.finished_valid;
        requested_size = (requested_field-aborted dp i v).1 ∙ sym (length-set dp.blocks i _);
        finished_size = v.finished_size ∙ sym (length-set dp.blocks i _);
        was_requested = λ j f. requested-aborted dp i j v h ∙ kept j f;
      },
  unfold aborted_piece in refl,
  unfold aborted_piece in length-set dp.blocks i _,
  λ j. unfold aborted_piece in (requested-aborted dp i j v h, refl),
)
  where
    not_above : ltb (length dp.blocks) i ≡ false
    not_above = ground arith

    kept :
        (j : ℕ)
        → finished dp j ≡ true
        → (requested dp j && not (i == j && is_zero (dec (block_at dp i).downloaders_count))) ≡ true
    kept j f = elim (ℕ_discrete i j) [
      | yes p ↦ cc (e, rw (← p) at f)
      | no n ↦ ground (arith, v.was_requested j f)
    ]

-- A finished block is not aborted.
abort_block_done :
    (store : PeerStore) (dp : DownloadingPiece) (i : ℕ) (peer : PeerRef)
    → PieceIsValid dp
    → i < length dp.blocks
    → finished dp i ≡ true
    → abort_block store dp i peer ≡ ok dp
unfolding abort_block
abort_block_done store dp i peer v h e = rw (not_above, is_block_finished_ok dp i v h, e)
  where
    not_above : ltb (length dp.blocks) i ≡ false
    not_above = ground arith
