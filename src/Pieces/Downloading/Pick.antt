-- ===== src/Pieces/Downloading/Pick.antt =====
-- downloading_piece.go: one round of the loop of `PickBlock`.
use ged2k.Prelude.{
  ℕ, ◌<◌, ◌≡◌, inl, inr, Bool, true, false, List, [], ◌∷◌, ◌++◌, map, length, ok, arith, Bool-cases,
  if◌then◌else◌,
}
use mathlib.Core.List.{append-nil}
use ged2k.Proto.Geometry.{PieceBlock}
use ged2k.Pieces.Downloading.{
  PeerRef, PeerStore, DownloadingPiece, block_of, can_repeat, repeat_block, pick_again, pick_step,
}
use ged2k.Pieces.Downloading.Valid.{
  requested, finished, PieceIsValid, is_block_requested_ok, is_block_finished_ok, block_at,
  get_block_ok, with_request, request_block_ok, Requests, with_request-Requests,
}

-- A round leaves a piece whose block is requested, or asks for a block that is not finished. Without
-- the end game it asks only for a block that was not requested.
pub data Round (end_game : Bool) (dp : DownloadingPiece) (i : ℕ)
    : DownloadingPiece → List ℕ → Type 0 where
  skip : requested dp i ≡ true → Round end_game dp i dp []
  ask :
      (after : DownloadingPiece)
      → Requests dp i after
      → finished dp i ≡ false
      → (end_game ≡ false → requested dp i ≡ false)
      → Round end_game dp i after (i ∷ [])

repeat_block_ok :
    (store : PeerStore) (dp : DownloadingPiece) (i : ℕ) (peer : PeerRef) (res : List PieceBlock)
    → PieceIsValid dp
    → i < length dp.blocks
    → repeat_block store dp i peer res
      ≡ ok (
          if can_repeat store (block_at dp i) peer
          then (with_request dp i peer, res ++ (block_of dp i ∷ []))
          else (dp, res))
unfolding repeat_block
repeat_block_ok store dp i peer res v h =
    rw (get_block_ok dp i h, request_block_ok dp i peer v h) (ground arith)

not_finished :
    (dp : DownloadingPiece) (i : ℕ)
    → PieceIsValid dp
    → requested dp i ≡ false
    → finished dp i ≡ false
not_finished dp i v e = elim (Bool-cases (finished dp i)) [
  | inl f ↦ cc (v.was_requested i f, e)
  | inr f ↦ f
]

pick_again_ok :
    (store : PeerStore) (end_game : Bool) (peer : PeerRef) (i : ℕ) (dp : DownloadingPiece)
    (res : List PieceBlock)
    → PieceIsValid dp
    → i < length dp.blocks
    → requested dp i ≡ true
    → (after : DownloadingPiece) × (new : List ℕ) × (pick_again store end_game peer i dp res
        ≡ ok (after, res ++ map (block_of dp) new))
      × Round end_game dp i after new
unfolding pick_again
pick_again_ok store false peer i dp res v h e = (dp, [], rw append-nil, skip e)
pick_again_ok store true peer i dp res v h e = elim (Bool-cases (finished dp i)) [
  | inl f ↦ (dp, [], rw (is_block_finished_ok dp i v h, f, append-nil), skip e)
  | inr f ↦ elim (Bool-cases (can_repeat store (block_at dp i) peer)) [
    | inl c ↦ (
      with_request dp i peer,
      i ∷ [],
      rw (is_block_finished_ok dp i v h, f, repeat_block_ok store dp i peer res v h, c),
      ask _ (with_request-Requests dp i peer v h) f (λ g. cc),
    )
    | inr c ↦ (
      dp,
      [],
      rw (is_block_finished_ok dp i v h, f, repeat_block_ok store dp i peer res v h, c, append-nil),
      skip e,
    )
  ]
]

pub pick_step_ok :
    (store : PeerStore) (end_game : Bool) (peer : PeerRef) (i : ℕ) (dp : DownloadingPiece)
    (res : List PieceBlock)
    → PieceIsValid dp
    → i < length dp.blocks
    → (after : DownloadingPiece) × (new : List ℕ) × (pick_step store end_game peer i dp res
        ≡ ok (after, res ++ map (block_of dp) new))
      × Round end_game dp i after new
unfolding pick_step
pick_step_ok store end_game peer i dp res v h = elim (Bool-cases (requested dp i)) [
  | inr e ↦ (
    with_request dp i peer,
    i ∷ [],
    rw (is_block_requested_ok dp i v h, e, request_block_ok dp i peer v h),
    ask _ (with_request-Requests dp i peer v h) (not_finished dp i v e) (λ _. e),
  )
  | inl e ↦
      rw (is_block_requested_ok dp i v h, e) (pick_again_ok store end_game peer i dp res v h e)
]
