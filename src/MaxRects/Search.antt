-- ===== src/MaxRects/Search.antt =====
-- Sheets, options, scores and the search for a candidate of 2d/maxrects-algorithm.ts.
use nestra.Prelude.{
  ℕ, ◌+◌, ◌-◌, ◌*◌, String, Bool, true, false, ◌&&◌, List, [], ◌∷◌, Option, none, some, leb, ◌==◌,
  if◌then◌else◌,
}
use nestra.Prelude.Int.{ℤ, pos, sub_ℕ, lt_int}
use nestra.Geometry.{Rectangle, Orientation}
use nestra.Sheets.{Placement}
use nestra.FreeRects.{min}
use nestra.Grained.{GrainedPiece, orientations_of}

pub record MaxRectsSheet : Type 0 where
  pub stock_id : String
  pub width : ℕ
  pub height : ℕ
  pub free_rects : List Rectangle
  pub placements : List Placement

pub data MaxRectsHeuristic : Type 0 where
  bssf baf blsf bl cp best : MaxRectsHeuristic

pub record MaxRectsOptions : Type 0 where
  pub kerf : ℕ
  pub allow_rotation : Bool
  pub respect_grain_direction : Bool
  pub heuristic : Option MaxRectsHeuristic

pub record PlacementCandidate : Type 0 where
  pub rect_index : ℕ
  pub x : ℕ
  pub y : ℕ
  pub width : ℕ
  pub height : ℕ
  pub rotated : Bool
  pub score : ℤ

abbrev pub max : ℕ → ℕ → ℕ
max a b = if leb a b then b else a

-- The differences are those of an orientation that fits, so none is negative.
unfoldable pub score_bssf : Rectangle → Orientation → ℕ
score_bssf rect o = min (rect.width - o.width) (rect.height - o.height)

unfoldable pub score_baf : Rectangle → Orientation → ℕ
score_baf rect o = rect.width * rect.height - o.width * o.height

unfoldable pub score_blsf : Rectangle → Orientation → ℕ
score_blsf rect o = max (rect.width - o.width) (rect.height - o.height)

unfoldable pub score_bl : Rectangle → ℕ
score_bl rect = rect.y * 10000 + rect.x

abbrev pub add_if : Bool → ℕ → ℕ
add_if test n = if test then n else 0

unfoldable pub score_cp : Rectangle → Orientation → ℕ → ℕ → ℤ
score_cp rect o sheet_width sheet_height = sub_ℕ 0 (
    add_if (rect.x == 0) o.height
    + add_if (rect.y == 0) o.width
    + add_if (rect.x + o.width == sheet_width) o.height
    + add_if (rect.y + o.height == sheet_height) o.width)

-- The weights 0.5, 0.3 and 0.0001 of `BEST` are 5000, 3000 and 1 here: its scores, which are compared
-- with one another only, are 10000 times those of the source.
unfoldable pub score_of : MaxRectsHeuristic → MaxRectsSheet → Rectangle → Orientation → ℤ
unfolding score_bssf score_baf score_blsf score_bl score_cp
score_of MaxRectsHeuristic.bssf sheet rect o = pos (score_bssf rect o)
score_of MaxRectsHeuristic.baf sheet rect o = pos (score_baf rect o)
score_of MaxRectsHeuristic.blsf sheet rect o = pos (score_blsf rect o)
score_of MaxRectsHeuristic.bl sheet rect o = pos (score_bl rect)
score_of MaxRectsHeuristic.cp sheet rect o = score_cp rect o sheet.width sheet.height
score_of MaxRectsHeuristic.best sheet rect o =
    pos (score_bssf rect o * 5000 + score_baf rect o * 3000 + score_bl rect)

abbrev pub heuristic_or_default : Option MaxRectsHeuristic → MaxRectsHeuristic
heuristic_or_default none = MaxRectsHeuristic.bssf
heuristic_or_default (some h) = h

-- `!best || score < best.score`
abbrev pub improves : ℤ → Option PlacementCandidate → Bool
improves score none = true
improves score (some c) = lt_int score c.score

abbrev pub candidate_at :
    MaxRectsHeuristic → MaxRectsSheet → ℕ → Rectangle → Orientation → PlacementCandidate
candidate_at h sheet i rect o = record {
  rect_index = i;
  x = rect.x;
  y = rect.y;
  width = o.width;
  height = o.height;
  rotated = o.rotated;
  score = score_of h sheet rect o;
}

module _ (h : MaxRectsHeuristic) (sheet : MaxRectsSheet) where
  -- The body of the inner loop.
  unfoldable pub consider :
      Rectangle → ℕ → Orientation → Option PlacementCandidate → Option PlacementCandidate
  consider rect i o found =
      if leb o.width rect.width && leb o.height rect.height
      then (if improves (score_of h sheet rect o) found
          then some (candidate_at h sheet i rect o)
          else found)
      else found

  unfoldable pub consider_all :
      Rectangle → ℕ → List Orientation → Option PlacementCandidate → Option PlacementCandidate
  unfolding consider
  consider_all rect i [] found = found
  consider_all rect i (o ∷ os) found = consider_all rect i os (consider rect i o found)

  unfoldable pub search_rects :
      List Orientation → List Rectangle → ℕ → Option PlacementCandidate → Option PlacementCandidate
  unfolding consider_all
  search_rects os [] i found = found
  search_rects os (rect ∷ rects) i found =
      search_rects os rects (i + 1) (consider_all rect i os found)

abbrev pub orientations_for : GrainedPiece → MaxRectsOptions → List Orientation
orientations_for p o = orientations_of p o.allow_rotation o.respect_grain_direction

unfoldable pub find_best_placement :
    MaxRectsSheet → GrainedPiece → MaxRectsOptions → Option PlacementCandidate
unfolding search_rects orientations_of
find_best_placement sheet p o =
    search_rects (heuristic_or_default o.heuristic) sheet (orientations_for p o) sheet.free_rects 0
      none

-- `candidate && (!overallBest || candidate.score < overallBest.score)`
unfoldable pub better_of :
    Option PlacementCandidate → Option PlacementCandidate → Option PlacementCandidate
better_of none overall = overall
better_of (some c) overall = if improves c.score overall then some c else overall

unfoldable pub over_heuristics :
    MaxRectsSheet
    → GrainedPiece
    → MaxRectsOptions
    → List MaxRectsHeuristic
    → Option PlacementCandidate
    → Option PlacementCandidate
unfolding find_best_placement better_of
over_heuristics sheet p o [] overall = overall
over_heuristics sheet p o (h ∷ hs) overall =
    over_heuristics sheet p o hs
      (better_of (find_best_placement sheet p (record o { heuristic = some h })) overall)

abbrev pub all_heuristics : List MaxRectsHeuristic
all_heuristics =
    MaxRectsHeuristic.bssf ∷ MaxRectsHeuristic.baf ∷ MaxRectsHeuristic.blsf ∷ MaxRectsHeuristic.bl
    ∷ MaxRectsHeuristic.cp ∷ []

unfoldable pub find_best_placement_all_heuristics :
    MaxRectsSheet → GrainedPiece → MaxRectsOptions → Option PlacementCandidate
unfolding over_heuristics
find_best_placement_all_heuristics sheet p o = over_heuristics sheet p o all_heuristics none

-- `options.heuristic === 'BEST'`
abbrev pub is_best : Option MaxRectsHeuristic → Bool
is_best (some MaxRectsHeuristic.best) = true
is_best _ = false

-- The conditional that two functions of the source share.
unfoldable pub candidate_for :
    MaxRectsSheet → GrainedPiece → MaxRectsOptions → Option PlacementCandidate
unfolding find_best_placement find_best_placement_all_heuristics
candidate_for sheet p o =
    if is_best o.heuristic
    then find_best_placement_all_heuristics sheet p o
    else find_best_placement sheet p o
