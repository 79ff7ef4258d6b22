-- ===== src/Region.antt =====
-- data/region.go: half-open ranges of file offsets, and regions as lists of ranges.
pub mod Difference
use ged2k.Prelude.{
  ℕ, ◌+◌, ◌%◌, ◌^◌, ◌&&◌, ◌||◌, ltb, leb, if◌then◌else◌, List, [], ◌∷◌, ◌++◌, Outcome, ok, panic,
  Bool, true, false, ◌>>=◌,
}

pub record Range : Type 0 where
  pub begin : ℕ
  pub end : ℕ

pub record Region : Type 0 where
  pub segments : List Range

abbrev pub make : ℕ → ℕ → Range
make begin end = record { begin = begin; end = end }

pub make_region : Range → Region
make_region r = record { segments = r ∷ [] }

-- `Sub` of two ranges: what of the first is not in the second.
unfoldable pub sub : Range → Range → List Range
sub seg1 seg2 =
    if ltb seg1.begin seg2.begin && ltb seg2.end seg1.end
    then make seg1.begin seg2.begin ∷ make seg2.end seg1.end ∷ []
    else if leb seg1.end seg2.begin || leb seg2.end seg1.begin
    then seg1 ∷ []
    else if ltb seg1.begin seg2.begin && ltb seg2.begin seg1.end
    then make seg1.begin seg2.begin ∷ []
    else if ltb seg1.begin seg2.end && ltb seg2.end seg1.end
    then make seg2.end seg1.end ∷ []
    else []

unfoldable pub sub_segments : List Range → Range → List Range
sub_segments [] seg = []
sub_segments (x ∷ xs) seg = sub x seg ++ sub_segments xs seg

-- The method `Sub`: every segment is cut.
unfoldable pub region_sub : Region → Range → Region
region_sub region seg = record { segments = sub_segments region.segments seg }

-- The sum is of two uint64.
shrink_segments : List Range → ℕ → Outcome (List Range)
shrink_segments [] size = panic
shrink_segments (x ∷ xs) size = ok (record x { end = (x.begin + size) % 2 ^ 64 } ∷ xs)

pub shrink_end : Region → ℕ → Outcome Region
unfolding shrink_segments
shrink_end region size = do
  segments ← shrink_segments region.segments size
  ok (record { segments = segments })

no_segments : List Range → Bool
no_segments [] = true
no_segments (x ∷ xs) = false

unfoldable pub is_empty : Region → Bool
unfolding no_segments
is_empty region = no_segments region.segments

first_begin : List Range → Outcome ℕ
first_begin [] = panic
first_begin (x ∷ xs) = ok x.begin

pub region_begin : Region → Outcome ℕ
unfolding first_begin
region_begin region = first_begin region.segments
