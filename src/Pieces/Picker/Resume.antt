-- ===== src/Pieces/Picker/Resume.antt =====
-- piece_picker.go: `FromResumeData`, and what is saved of a picker.
use ged2k.Prelude.{
  ℕ, ◌≡◌, refl, ◌∙◌, false, none, some, List, [], ◌∷◌, ◌++◌, Outcome, ok, panic, ◌>>=◌, arith,
}
use mathlib.Core.List.{append_assoc, append-nil}
use ged2k.Proto.BitField.{BitField, clone_bit_field}
use ged2k.Proto.BitField.Sizing.{clone_bit_field_lem}
use ged2k.Proto.Resume.{BlockMap, AddTransferParameters, has_key, assign_key}
use ged2k.Proto.Resume.RoundTrip.{DistinctKeys, assign_key_new, key_before}
use ged2k.Pieces.Downloading.{DownloadingPiece, new_downloading_piece_params}
use ged2k.Pieces.Picker.{PiecePicker, find_piece}

-- The loop over `DownloadedBlocks`.
unfoldable pub resume_each : BlockMap → List DownloadingPiece → Outcome (List DownloadingPiece)
resume_each [] dps = ok dps
resume_each ((piece_index, x) ∷ rest) dps = elim (find_piece piece_index dps) [
  | none ↦ resume_each rest (dps ++ (new_downloading_piece_params piece_index x ∷ []))
  | some dp ↦ panic
]

-- `BlocksInLastPiece` is not set.
unfoldable pub resume_picker : AddTransferParameters → Outcome PiecePicker
resume_picker atp = do
  dps ← resume_each atp.downloaded_blocks []
  ok (record {
    blocks_in_last_piece = 0;
    downloading_pieces = dps;
    pieces = clone_bit_field atp.pieces;
  })

unfoldable pub get_pieces : PiecePicker → BitField
get_pieces pp = clone_bit_field pp.pieces

unfoldable pub save_each : List DownloadingPiece → BlockMap → BlockMap
save_each [] res = res
save_each (x ∷ rest) res =
    save_each rest (assign_key x.piece_index (clone_bit_field x.blocks_finished) res)

unfoldable pub get_downloaded_blocks : PiecePicker → BlockMap
get_downloaded_blocks pp = save_each pp.downloading_pieces []

-- The pieces in progress that `FromResumeData` makes.
resumed : BlockMap → List DownloadingPiece
resumed [] = []
resumed ((i, x) ∷ rest) = new_downloading_piece_params i x ∷ resumed rest

resumed-append : (m rest : BlockMap) → resumed (m ++ rest) ≡ resumed m ++ resumed rest
unfolding resumed
resumed-append [] rest = refl
resumed-append ((i, x) ∷ m) rest = rw (resumed-append m rest)

find_piece-resumed : (i : ℕ) (m : BlockMap) → has_key i m ≡ false → find_piece i (resumed m) ≡ none
unfolding resumed find_piece has_key new_downloading_piece_params
find_piece-resumed i [] h = refl
find_piece-resumed i ((j, x) ∷ m) h = ground (arith, find_piece-resumed i m)

resume_each_ok :
    (m bs : BlockMap) → DistinctKeys (m ++ bs) → resume_each bs (resumed m) ≡ ok (resumed (m ++ bs))
unfolding resume_each
resume_each_ok m [] d = rw append-nil
resume_each_ok m ((i, x) ∷ rest) d =
    rw (find_piece-resumed i m (key_before i x m rest d), resume_each, ← grown)
      (resume_each_ok (m ++ ((i, x) ∷ [])) rest (rw (append_assoc m ((i, x) ∷ []) rest) d)
        ∙ rw (append_assoc m ((i, x) ∷ []) rest))
  where
    grown : resumed (m ++ ((i, x) ∷ [])) ≡ resumed m ++ (new_downloading_piece_params i x ∷ [])
    grown = unfold resumed in resumed-append m ((i, x) ∷ [])

save_each_ok : (m bs : BlockMap) → DistinctKeys (m ++ bs) → save_each (resumed bs) m ≡ m ++ bs
unfolding save_each resumed new_downloading_piece_params
save_each_ok m [] d = rw append-nil
save_each_ok m ((i, x) ∷ rest) d =
    rw
      (clone_bit_field_lem x, clone_bit_field_lem x, assign_key_new i x m (key_before i x m rest d))
      (save_each_ok (m ++ ((i, x) ∷ [])) rest (rw (append_assoc m ((i, x) ∷ []) rest) d)
        ∙ append_assoc m ((i, x) ∷ []) rest)

-- Resuming from parameters whose pieces in progress have different numbers does not panic, and the
-- picker gives back the bit field of the pieces and, piece by piece, the blocks that were stored. The
-- number of blocks in the last piece is 0.
pub resume_picker_ok :
    (atp : AddTransferParameters)
    → DistinctKeys atp.downloaded_blocks
    → (pp : PiecePicker) × (resume_picker atp ≡ ok pp)
      × (get_pieces pp ≡ atp.pieces)
      × (get_downloaded_blocks pp ≡ atp.downloaded_blocks)
      × (pp.blocks_in_last_piece ≡ 0)
unfolding resume_picker get_pieces get_downloaded_blocks resumed
resume_picker_ok atp d = (
  record {
    blocks_in_last_piece = 0;
    downloading_pieces = resumed atp.downloaded_blocks;
    pieces = clone_bit_field atp.pieces;
  },
  rw (resume_each_ok [] atp.downloaded_blocks d),
  rw (clone_bit_field_lem atp.pieces, clone_bit_field_lem atp.pieces),
  save_each_ok [] atp.downloaded_blocks d,
  refl,
)
