-- ===== src/Region/Difference.antt =====
-- data/region.go: regions as sets of offsets, and `Sub` on them.
use ged2k.Prelude.{
  ℕ, ◌≤◌, ◌<◌, ◌≡◌, refl, ◌∙◌, Bool, true, false, not, ◌&&◌, ◌||◌, ltb, leb, List, [], ◌∷◌, ◌++◌,
  arith, All, ◌↔◌,
}
use ged2k.Region.{Range, Region, sub, sub_segments, region_sub, is_empty, no_segments}

abbrev pub in_range : Range → ℕ → Bool
in_range r x = leb r.begin x && ltb x r.end

abbrev pub covers : List Range → ℕ → Bool
covers [] x = false
covers (r ∷ rs) x = in_range r x || covers rs x

abbrev pub IsForward : Range → Type 0
IsForward r = r.begin ≤ r.end

-- Nonempty segments in rising order, the first at or after `lo`.
abbrev pub IsSortedFrom : ℕ → List Range → Type 0
IsSortedFrom lo [] = Unit {0}
IsSortedFrom lo (r ∷ rs) = (lo ≤ r.begin) × (r.begin < r.end) × IsSortedFrom r.end rs

covers-append : (xs ys : List Range) (x : ℕ) → covers (xs ++ ys) x ≡ (covers xs x || covers ys x)
covers-append [] ys x = refl
covers-append (r ∷ rs) ys x = ground (arith, covers-append rs ys x)

covers-sub :
    (s t : Range) (x : ℕ) → IsForward t → covers (sub s t) x ≡ (in_range s x && not (in_range t x))
unfolding sub
covers-sub s t x h = ground arith

covers-sub_segments :
    (rs : List Range) (t : Range) (x : ℕ)
    → IsForward t
    → covers (sub_segments rs t) x ≡ (covers rs x && not (in_range t x))
unfolding sub_segments
covers-sub_segments [] t x h = refl
covers-sub_segments (r ∷ rs) t x h =
    covers-append (sub r t) (sub_segments rs t) x
    ∙ ground (arith, covers-sub r t x h, covers-sub_segments rs t x h)

-- After `Sub` a region holds exactly the offsets that it held and that lie outside the range taken
-- away, for every range whose begin is at most its end.
pub covers-region_sub :
    (g : Region) (t : Range) (x : ℕ)
    → IsForward t
    → covers (region_sub g t).segments x ≡ (covers g.segments x && not (in_range t x))
unfolding region_sub
covers-region_sub g t x h = covers-sub_segments g.segments t x h

sorted_weaken : (lo hi : ℕ) (rs : List Range) → lo ≤ hi → IsSortedFrom hi rs → IsSortedFrom lo rs
sorted_weaken lo hi [] h s = tt
sorted_weaken lo hi (r ∷ rs) h s = (omega arith, s.1, s.2)

-- The pieces of one segment end where it ends, so the segments behind it stay in order.
sub-append-IsSorted :
    (lo : ℕ) (s t : Range) (rest : List Range)
    → IsForward t
    → lo ≤ s.begin
    → s.begin < s.end
    → IsSortedFrom s.end rest
    → IsSortedFrom lo (sub s t ++ rest)
unfolding sub
sub-append-IsSorted lo s t rest ft h k sorted =
    ground (arith, sorted_weaken lo s.end rest, sorted_weaken t.begin s.end rest)

sub_segments-IsSorted :
    (lo : ℕ) (rs : List Range) (t : Range)
    → IsForward t
    → IsSortedFrom lo rs
    → IsSortedFrom lo (sub_segments rs t)
unfolding sub_segments
sub_segments-IsSorted lo [] t h s = tt
sub_segments-IsSorted lo (r ∷ rs) t h s =
    sub-append-IsSorted lo r t (sub_segments rs t) h s.0 s.1
      (sub_segments-IsSorted r.end rs t h s.2)

-- Segments that are nonempty, disjoint and in rising order stay so under `Sub` of a range whose
-- begin is at most its end.
pub region_sub-IsSorted :
    (lo : ℕ) (g : Region) (t : Range)
    → IsForward t
    → IsSortedFrom lo g.segments
    → IsSortedFrom lo (region_sub g t).segments
unfolding region_sub
region_sub-IsSorted lo g t h s = sub_segments-IsSorted lo g.segments t h s

pub region_sub_all : Region → List Range → Region
region_sub_all g [] = g
region_sub_all g (t ∷ ts) = region_sub_all (region_sub g t) ts

region_sub_all-IsSorted :
    (lo : ℕ) (g : Region) (ts : List Range)
    → All IsForward ts
    → IsSortedFrom lo g.segments
    → IsSortedFrom lo (region_sub_all g ts).segments
unfolding region_sub_all
region_sub_all-IsSorted lo g [] h s = s
region_sub_all-IsSorted lo g (t ∷ ts) h s =
    region_sub_all-IsSorted lo (region_sub g t) ts h.1 (region_sub-IsSorted lo g t h.0 s)

covers-region_sub_all :
    (g : Region) (ts : List Range) (x : ℕ)
    → All IsForward ts
    → covers (region_sub_all g ts).segments x ≡ (covers g.segments x && not (covers ts x))
unfolding region_sub_all
covers-region_sub_all g [] x h = ground arith
covers-region_sub_all g (t ∷ ts) x h =
    ground (arith, covers-region_sub g t x h.0, covers-region_sub_all (region_sub g t) ts x h.1)

is_empty-covers :
    (lo : ℕ) (g : List Range)
    → IsSortedFrom lo g
    → ((x : ℕ) → covers g x ≡ false)
    → no_segments g ≡ true
unfolding no_segments
is_empty-covers lo [] s h = refl
is_empty-covers lo (r ∷ rs) s h = ground (arith, h r.begin)

no_segments-covers : (g : List Range) (x : ℕ) → no_segments g ≡ true → covers g x ≡ false
unfolding no_segments
no_segments-covers [] x h = refl
no_segments-covers (r ∷ rs) x h = cc

-- A sorted region from which ranges, none with its end before its begin, were taken away, in any
-- order and with any overlaps, is empty exactly when every offset that it had lies in one of those
-- ranges.
pub is_empty-region_sub_all :
    (lo : ℕ) (g : Region) (ts : List Range)
    → All IsForward ts
    → IsSortedFrom lo g.segments
    → (is_empty (region_sub_all g ts) ≡ true)
      ↔ ((x : ℕ) → covers g.segments x ≡ true → covers ts x ≡ true)
unfolding is_empty
is_empty-region_sub_all lo g ts h s = (
  λ e x c. ground (
    arith,
    no_segments-covers (region_sub_all g ts).segments x e,
    covers-region_sub_all g ts x h,
  ),
  λ all.
      is_empty-covers lo (region_sub_all g ts).segments (region_sub_all-IsSorted lo g ts h s)
        (λ x. ground (arith, covers-region_sub_all g ts x h, all x)),
)
