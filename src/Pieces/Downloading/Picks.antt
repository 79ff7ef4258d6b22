-- ===== src/Pieces/Downloading/Picks.antt =====
-- downloading_piece.go: how a round of `PickBlock` extends what the later rounds pick.
use ged2k.Prelude.{
  ℕ, suc, ◌<◌, ◌≤◌, ◌≡◌, ◌⊎◌, inl, inr, refl, ◌∙◌, ap, Bool, true, false, ◌||◌, ◌==◌, List, [], ◌∷◌,
  length, All, arith,
}
use native.Mathlib.Decide.{ℕ_discrete}
use ged2k.Pieces.Downloading.{DownloadingPiece}
use ged2k.Pieces.Downloading.Valid.{requested, finished, PieceIsValid, Requests}

abbrev pub occurs : ℕ → List ℕ → Bool
occurs j [] = false
occurs j (x ∷ xs) = x == j || occurs j xs

-- Rising numbers from `lo` on and below `hi`: each occurs once.
abbrev pub IsRising : ℕ → ℕ → List ℕ → Type 0
IsRising lo hi [] = Unit {0}
IsRising lo hi (x ∷ xs) = (lo ≤ x) × (x < hi) × IsRising (suc x) hi xs

-- The blocks `new` were picked from `dp`, among those from `lo` on and below `hi`; `room` is how many
-- may be picked.
pub record Picks (end_game : Bool) (room lo hi : ℕ) (dp after : DownloadingPiece) (new : List ℕ)
    : Type 0 where
  pub valid : PieceIsValid after
  pub same_index : after.piece_index ≡ dp.piece_index
  pub same_length : length after.blocks ≡ length dp.blocks
  pub same_finished : after.blocks_finished ≡ dp.blocks_finished
  pub marked : (j : ℕ) → requested after j ≡ (occurs j new || requested dp j)
  pub rising : IsRising lo hi new
  pub unfinished : All (λ j. finished dp j ≡ false) new
  pub fresh : end_game ≡ false → All (λ j. requested dp j ≡ false) new
  pub within : length new ≤ room
  pub enough : (length new ≡ room) ⊎ ((j : ℕ) → lo ≤ j → j < hi → requested after j ≡ true)

pub Picks-none :
    (end_game : Bool) (room lo : ℕ) (dp : DownloadingPiece)
    → PieceIsValid dp
    → Picks end_game room lo lo dp dp []
Picks-none end_game room lo dp v = record {
  valid = v;
  same_index = refl;
  same_length = refl;
  same_finished = refl;
  marked = λ j. refl;
  rising = tt;
  unfinished = tt;
  fresh = λ e. tt;
  within = omega arith;
  enough = inr (λ j h k. absurd (omega arith));
}

pub Picks-full :
    (end_game : Bool) (lo hi : ℕ) (dp : DownloadingPiece)
    → PieceIsValid dp
    → Picks end_game 0 lo hi dp dp []
Picks-full end_game lo hi dp v = record {
  valid = v;
  same_index = refl;
  same_length = refl;
  same_finished = refl;
  marked = λ j. refl;
  rising = tt;
  unfinished = tt;
  fresh = λ e. tt;
  within = omega arith;
  enough = inl refl;
}

IsRising-weaken : (lo hi : ℕ) (xs : List ℕ) → IsRising (suc lo) hi xs → IsRising lo hi xs
IsRising-weaken lo hi [] h = tt
IsRising-weaken lo hi (x ∷ xs) h = (omega arith, h.1, h.2)

All-imp {ℓ κ} :
    {P : ℕ → Type ℓ} {Q : ℕ → Type κ} (xs : List ℕ) → ((j : ℕ) → P j → Q j) → All P xs → All Q xs
All-imp [] f h = tt
All-imp (x ∷ xs) f h = (f x h.0, All-imp xs f h.1)

marked_first :
    (lo j : ℕ) (was : Bool) (new : List ℕ)
    → (occurs j new || (lo == j || was)) ≡ (occurs j (lo ∷ new) || was)
marked_first lo j was new = ground arith

pub Picks-skip :
    (end_game : Bool) (room lo hi : ℕ) (dp after : DownloadingPiece) (new : List ℕ)
    → requested dp lo ≡ true
    → Picks end_game room (suc lo) hi dp after new
    → Picks end_game room lo hi dp after new
Picks-skip end_game room lo hi dp after new e p = record {
  valid = p.valid;
  same_index = p.same_index;
  same_length = p.same_length;
  same_finished = p.same_finished;
  marked = p.marked;
  unfinished = p.unfinished;
  fresh = p.fresh;
  within = p.within;
  rising = IsRising-weaken lo hi new p.rising;
  enough = elim p.enough [ inl full ↦ inl full | inr rest ↦ inr (λ j h k. first j h (rest j) k) ];
}
  where
    first :
        (j : ℕ)
        → lo ≤ j
        → (suc lo ≤ j → j < hi → requested after j ≡ true)
        → j < hi
        → requested after j ≡ true
    first j h later k = elim (ℕ_discrete lo j) [
      | yes same ↦ p.marked j ∙ ground (arith, same)
      | no other ↦ later (omega arith) k
    ]

pub Picks-ask :
    (end_game : Bool) (room lo hi : ℕ) (dp mid after : DownloadingPiece) (new : List ℕ)
    → lo < hi
    → Requests dp lo mid
    → finished dp lo ≡ false
    → (end_game ≡ false → requested dp lo ≡ false)
    → Picks end_game room (suc lo) hi mid after new
    → Picks end_game (suc room) lo hi dp after (lo ∷ new)
Picks-ask end_game room lo hi dp mid after new below r open_ was p = record {
  valid = p.valid;
  same_index = p.same_index ∙ r.same_index;
  same_length = p.same_length ∙ r.same_length;
  same_finished = p.same_finished ∙ r.same_finished;
  marked = marked;
  rising = (omega arith, below, p.rising);
  unfinished = (open_, All-imp new (λ j f. rw r.same_finished at f) p.unfinished);
  fresh = λ e. (was e, All-imp new (λ j f. ground (arith, r.marked j)) (p.fresh e));
  within = omega (arith, p.within);
  enough = elim p.enough [
    | inl full ↦ inl (ap suc full)
    | inr rest ↦ inr (λ j h k. first j h (rest j) k)
  ];
}
  where
    marked : (j : ℕ) → requested after j ≡ (occurs j (lo ∷ new) || requested dp j)
    marked j = p.marked j ∙ rw (r.marked j) (marked_first lo j (requested dp j) new)

    first :
        (j : ℕ)
        → lo ≤ j
        → (suc lo ≤ j → j < hi → requested after j ≡ true)
        → j < hi
        → requested after j ≡ true
    first j h later k = elim (ℕ_discrete lo j) [
      | yes same ↦ marked j ∙ ground (arith, same)
      | no other ↦ later (omega arith) k
    ]
