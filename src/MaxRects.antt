-- ===== src/MaxRects.antt =====
-- backend/src/algorithms/2d/maxrects-algorithm.ts: maximal free rectangles with placement
-- heuristics. A function that writes to its sheet returns the written sheet.
mod Search
pub mod Choice
pub mod Candidate
pub mod Clearance
pub mod Sheet
unfoldable pub use Search.*
use nestra.Prelude.{
  ℕ, ◌+◌, ◌-◌, ◌*◌, String, Bool, true, false, ◌&&◌, ◌||◌, List, [], ◌∷◌, ◌++◌, Option, none, some,
  ltb, leb, ◌==◌, sum_by, if◌then◌else◌,
}
use nestra.Prelude.Int.{ℤ, pos, pos_part, neg_part, sub_ℕ, lt_int}
use nestra.Geometry.{Rectangle, Orientation}
use nestra.Sheets.{Placement, placement_at}
use nestra.FreeRects.{min, merge_free_rectangles, remove_redundant_rects, split_rect_maximal}
use nestra.Grained.{GrainedPiece, orientations_of}

abbrev pub area_taken : PlacementCandidate → Rectangle
area_taken c = record { x = c.x; y = c.y; width = c.width; height = c.height }

-- The "no intersection" test.
abbrev pub misses : Rectangle → PlacementCandidate → ℕ → Bool
misses rect c kerf =
    leb (rect.x + rect.width) c.x
    || leb (c.x + c.width + kerf) rect.x
    || leb (rect.y + rect.height) c.y
    || leb (c.y + c.height + kerf) rect.y

abbrev pub clamped : Rectangle → PlacementCandidate → Rectangle
clamped rect c = record {
  x = max c.x rect.x;
  y = max c.y rect.y;
  width = c.width;
  height = c.height;
}

unfoldable pub cut_rects : PlacementCandidate → ℕ → List Rectangle → List Rectangle
cut_rects c kerf [] = []
cut_rects c kerf (rect ∷ rects) =
    (if misses rect c kerf then rect ∷ [] else split_rect_maximal rect (clamped rect c) kerf)
    ++ cut_rects c kerf rects

unfoldable pub place_piece_max_rects :
    MaxRectsSheet → GrainedPiece → PlacementCandidate → ℕ → MaxRectsSheet
unfolding cut_rects
place_piece_max_rects sheet p c kerf = record sheet {
  placements = sheet.placements ++ placement_at p.piece c.x c.y c.width c.height c.rotated ∷ [];
  free_rects = remove_redundant_rects (merge_free_rectangles (cut_rects c kerf sheet.free_rects));
}

unfoldable pub create_max_rects_sheet : String → ℕ → ℕ → MaxRectsSheet
create_max_rects_sheet stock_id width height = record {
  stock_id = stock_id;
  width = width;
  height = height;
  free_rects = record { x = 0; y = 0; width = width; height = height } ∷ [];
  placements = [];
}

abbrev pub corner_candidate : GrainedPiece → Bool → PlacementCandidate
corner_candidate p rotated = record {
  rect_index = 0;
  x = 0;
  y = 0;
  width = if rotated then p.piece.height else p.piece.width;
  height = if rotated then p.piece.width else p.piece.height;
  rotated = rotated;
  score = pos 0;
}

unfoldable pub initialize_max_rects_sheet : String → ℕ → ℕ → GrainedPiece → Bool → ℕ → MaxRectsSheet
unfolding place_piece_max_rects create_max_rects_sheet
initialize_max_rects_sheet stock_id width height p rotated kerf =
    place_piece_max_rects (create_max_rects_sheet stock_id width height) p
      (corner_candidate p rotated) kerf

unfoldable pub try_place_in_sheet :
    MaxRectsSheet → GrainedPiece → MaxRectsOptions → Option MaxRectsSheet
unfolding candidate_for place_piece_max_rects
try_place_in_sheet sheet p o = elim (candidate_for sheet p o) [
  | none ↦ none
  | some c ↦ some (place_piece_max_rects sheet p c o.kerf)
]

-- The best sheet so far, by its index, with `wasteScore` as the quotient `waste / total`.
pub record BestSheet : Type 0 where
  pub index : ℕ
  pub candidate : PlacementCandidate
  pub waste : ℤ
  pub total : ℕ

-- `waste / total < best.waste / best.total`, multiplied out. Where both sides are 0, as for a sheet
-- without area, it is false, as a comparison with `NaN` is.
abbrev pub less_waste : ℤ → ℕ → Option BestSheet → Bool
less_waste waste total none = true
less_waste waste total (some b) =
    ltb (pos_part waste * b.total + neg_part b.waste * total)
      (pos_part b.waste * total + neg_part waste * b.total)

unfoldable pub weigh_sheet :
    MaxRectsSheet → ℕ → Option PlacementCandidate → Option BestSheet → Option BestSheet
weigh_sheet sheet i none found = found
weigh_sheet sheet i (some c) found =
    let total = sheet.width * sheet.height in
    let used = sum_by (λ p. p.width * p.height) sheet.placements in
    let waste = sub_ℕ total (used + c.width * c.height) in
    if less_waste waste total found
    then some (record { index = i; candidate = c; waste = waste; total = total })
    else found

unfoldable pub search_sheets :
    GrainedPiece → MaxRectsOptions → List MaxRectsSheet → ℕ → Option BestSheet → Option BestSheet
unfolding weigh_sheet candidate_for
search_sheets p o [] i found = found
search_sheets p o (sheet ∷ sheets) i found =
    search_sheets p o sheets (i + 1) (weigh_sheet sheet i (candidate_for sheet p o) found)

unfoldable pub select_best_sheet :
    List MaxRectsSheet → GrainedPiece → MaxRectsOptions → Option (ℕ × PlacementCandidate)
unfolding search_sheets
select_best_sheet sheets p o = elim (search_sheets p o sheets 0 none) [
  | none ↦ none
  | some b ↦ some (b.index, b.candidate)
]
