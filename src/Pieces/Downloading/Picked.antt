-- ===== src/Pieces/Downloading/Picked.antt =====
-- downloading_piece.go: what `PickBlock` picks.
use ged2k.Prelude.{
  ℕ, zero, suc, ◌+◌, ◌-◌, ◌<◌, ◌≤◌, ◌≡◌, ◌≢◌, inl, inr, refl, ◌∙◌, Bool, true, false, ◌==◌, List,
  [], ◌∷◌, ◌++◌, map, length, length-append, Outcome, ok, arith, Bool-cases, ltb, ltb→lt,
}
use mathlib.Core.List.{append-nil, append_assoc}
use mathlib.Core.Path.{fun_ext}
use ged2k.Prelude.Tally.{tally, tally-le, of_tally_full}
use ged2k.Proto.BitField.Counting.{count_ok}
use native.Mathlib.Decide.{ℕ_discrete}
use ged2k.Proto.Geometry.{PieceBlock}
use ged2k.Pieces.Downloading.{
  PeerRef, PeerStore, DownloadingPiece, block_of, pick_loop, pick_block, free_blocks_count,
}
use ged2k.Pieces.Downloading.Valid.{requested, PieceIsValid}
use ged2k.Pieces.Downloading.Pick.{Round, skip, ask, pick_step_ok}
use ged2k.Pieces.Downloading.Picks.{Picks, Picks-none, Picks-full, Picks-skip, Picks-ask}

-- What a loop over the rest of the piece gives, from the result of its first round.
abbrev Outcomes :
    Bool
    → ℕ
    → ℕ
    → ℕ
    → DownloadingPiece
    → List PieceBlock
    → Outcome (DownloadingPiece × List PieceBlock)
    → Type 0
Outcomes end_game room lo hi dp res out =
    (after : DownloadingPiece) × (new : List ℕ) × (out ≡ ok (after, res ++ map (block_of dp) new))
    × Picks end_game room lo hi dp after new

same_block :
    (mid dp : DownloadingPiece) → mid.piece_index ≡ dp.piece_index → block_of mid ≡ block_of dp
same_block mid dp e = fun_ext (λ i. ground arith)

step_then_rest :
    (end_game : Bool) (required lo hi : ℕ) (dp : DownloadingPiece) (res : List PieceBlock)
    (out : Outcome (DownloadingPiece × List PieceBlock)) {mid : DownloadingPiece} {new : List ℕ}
    → lo < hi
    → length res < required
    → Round end_game dp lo mid new
    → Outcomes end_game
        (required - length (res ++ map (block_of dp) new))
        (suc lo)
        hi
        mid
        (res ++ map (block_of dp) new)
        out
    → Outcomes end_game (required - length res) lo hi dp res out
step_then_rest end_game required lo hi dp res out below more (skip e) (after, new, f, p) = (
  after,
  new,
  rw append-nil at f,
  Picks-skip end_game _ lo hi dp after new e (rw append-nil at p),
)
step_then_rest end_game required lo hi dp res out below more (ask mid r open_ was)
      (after, new, f, p) =
    (
      after,
      lo ∷ new,
      f
          ∙ rw (
            same_block mid dp r.same_index,
            append_assoc res (block_of dp lo ∷ []) (map (block_of dp) new),
          ),
      rw room (Picks-ask end_game _ lo hi dp mid after new below r open_ was p),
    )
  where
    room : required - length res ≡ suc (required - length (res ++ (block_of dp lo ∷ [])))
    room = omega (arith, length-append res (block_of dp lo ∷ []))

Round-valid :
    {end_game : Bool} {dp mid : DownloadingPiece} {i : ℕ} {new : List ℕ}
    → PieceIsValid dp
    → Round end_game dp i mid new
    → PieceIsValid mid × (length mid.blocks ≡ length dp.blocks)
Round-valid v (skip e) = (v, refl)
Round-valid v (ask mid r open_ was) = (r.valid, r.same_length)

no_room :
    (end_game : Bool) (required lo hi : ℕ) (dp : DownloadingPiece) (res : List PieceBlock)
    → PieceIsValid dp
    → required ≤ length res
    → Outcomes end_game (required - length res) lo hi dp res (ok (dp, res))
no_room end_game required lo hi dp res v h =
    (dp, [], rw append-nil, rw none_left (Picks-full end_game lo hi dp v))
  where
    none_left : required - length res ≡ 0
    none_left = omega arith

pick_loop_ok :
    (store : PeerStore) (end_game : Bool) (peer : PeerRef) (required n lo : ℕ)
    (dp : DownloadingPiece) (res : List PieceBlock)
    → PieceIsValid dp
    → lo + n ≡ length dp.blocks
    → Outcomes end_game
        (required - length res)
        lo
        (length dp.blocks)
        dp
        res
        (pick_loop store end_game peer required n lo dp res)
unfolding pick_loop
pick_loop_ok store end_game peer required zero lo dp res v h =
    (dp, [], rw append-nil, rw here (Picks-none end_game _ lo dp v))
  where
    here : length dp.blocks ≡ lo
    here = omega arith
pick_loop_ok store end_game peer required (suc n) lo dp res v h =
    elim (Bool-cases (ltb (length res) required)) [
      | inr full ↦ rw full (no_room end_game required lo (length dp.blocks) dp res v (ground arith))
      | inl more ↦
          let (mid, new, e, round) = pick_step_ok store end_game peer lo dp res v (omega arith) in
          let (mid_valid, same) = Round-valid v round in
          let rest =
            pick_loop_ok store end_game peer required n (suc lo) mid (res ++ map (block_of dp) new)
              mid_valid (omega arith) in
          rw (more, e)
            (step_then_rest end_game required lo (length dp.blocks) dp res _ (omega arith)
              (ltb→lt (length res) required more) round (rw same at rest))
    ]

pub free : DownloadingPiece → ℕ
free dp = length dp.blocks - tally (requested dp) (length dp.blocks)

free_blocks_count_ok :
    (dp : DownloadingPiece) → PieceIsValid dp → free_blocks_count dp ≡ ok (free dp)
unfolding free_blocks_count free
free_blocks_count_ok dp v = rw (count_ok dp.blocks_requested v.requested_valid, v.requested_size)

Picks-exhausted :
    (end_game : Bool) (room : ℕ) (dp : DownloadingPiece)
    → PieceIsValid dp
    → free dp ≡ 0
    → Picks end_game room 0 (length dp.blocks) dp dp []
unfolding free
Picks-exhausted end_game room dp v h = record {
  valid = v;
  same_index = refl;
  same_length = refl;
  same_finished = refl;
  marked = λ j. refl;
  rising = tt;
  unfinished = tt;
  fresh = λ e. tt;
  within = omega arith;
  enough = inr (λ j l k.
      of_tally_full (requested dp) (length dp.blocks) j
        (omega (arith, tally-le (requested dp) (length dp.blocks))) k);
}

pick_from_start :
    (store : PeerStore) (end_game : Bool) (peer : PeerRef) (required : ℕ) (dp : DownloadingPiece)
    → PieceIsValid dp
    → Outcomes end_game required 0
        (length dp.blocks)
        dp
        []
        (pick_loop store end_game peer required (length dp.blocks) 0 dp [])
pick_from_start store end_game peer required dp v =
    rw all_room at
      (pick_loop_ok store end_game peer required (length dp.blocks) 0 dp [] v (omega arith))
  where
    all_room : required - length {A = PieceBlock} [] ≡ required
    all_room = omega arith

-- On a valid piece `PickBlock` does not panic. It gives rising block numbers of the piece, at most as
-- many as asked for, none of them finished, and without the end game none of them requested before.
-- After it exactly these blocks and those requested before are requested, and the finished ones stay.
-- If it gives fewer than asked for, then every block of the piece is requested.
pub pick_block_ok :
    (store : PeerStore) (required : ℕ) (peer : PeerRef) (end_game : Bool) (dp : DownloadingPiece)
    → PieceIsValid dp
    → (after : DownloadingPiece) × (new : List ℕ) × (pick_block store required peer end_game dp
        ≡ ok (after, map (block_of dp) new))
      × Picks end_game required 0 (length dp.blocks) dp after new
unfolding pick_block
pick_block_ok store required peer true dp v = pick_from_start store true peer required dp v
pick_block_ok store required peer false dp v = elim (ℕ_discrete (free dp) 0) [
  | yes none_free ↦ (
    dp,
    [],
    rw (free_blocks_count_ok dp v, none_free),
    Picks-exhausted false required dp v none_free,
  )
  | no some_free ↦
      rw (free_blocks_count_ok dp v, other_zero (free dp) some_free)
        (pick_from_start store false peer required dp v)
]
  where
    other_zero : (n : ℕ) → n ≢ 0 → (n == 0) ≡ false
    other_zero n h = ground arith
