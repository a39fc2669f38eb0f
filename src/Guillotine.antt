-- ===== src/Guillotine.antt =====
-- The guillotine half of backend/src/algorithms/2d/sheet-manager.ts: sheets with free rectangles.
-- The early return on an empty list of them is the case of no best fit.
pub mod Regions
pub mod BestFit
pub mod Layout
use nestra.Prelude.{
  ℕ, zero, suc, ◌+◌, ◌-◌, String, Bool, true, false, ◌&&◌, List, [], ◌∷◌, ◌++◌, Option, none, some,
  ltb, leb, if◌then◌else◌, get_elem?,
}
use nestra.Pieces.{Piece2d}
use nestra.Geometry.{Rectangle, Orientation, get_orientations}
use nestra.Sheets.{
  ActiveSheet, Options2d, placement_at, placed_width, placed_height, create_active_sheet,
}

unfoldable pub split_free_rectangle : Rectangle → ℕ → ℕ → ℕ → List Rectangle
split_free_rectangle rect placed_width placed_height kerf =
    let right =
      if ltb (placed_width + kerf) rect.width
      then record {
        x = rect.x + placed_width + kerf;
        y = rect.y;
        width = rect.width - placed_width - kerf;
        height = rect.height;
      }
        ∷ []
      else [] in
    let top =
      if ltb (placed_height + kerf) rect.height
      then record {
        x = rect.x;
        y = rect.y + placed_height + kerf;
        width = placed_width;
        height = rect.height - placed_height - kerf;
      }
        ∷ []
      else [] in
    right ++ top

-- The two tests at the creation of a sheet, written out again in the source.
unfoldable pub first_free_rects : ℕ → ℕ → ℕ → ℕ → ℕ → List Rectangle
first_free_rects width height stock_width stock_height kerf =
    let right =
      if ltb (width + kerf) stock_width
      then record {
        x = width + kerf;
        y = 0;
        width = stock_width - width - kerf;
        height = stock_height;
      }
        ∷ []
      else [] in
    let top =
      if ltb (height + kerf) stock_height
      then record { x = 0; y = height + kerf; width = width; height = stock_height - height - kerf }
        ∷ []
      else [] in
    right ++ top

unfoldable pub create_guillotine_sheet : String → ℕ → ℕ → Piece2d → Bool → ℕ → ActiveSheet
unfolding create_active_sheet first_free_rects
create_guillotine_sheet stock_id stock_width stock_height piece rotated kerf =
    record (create_active_sheet stock_id stock_width stock_height piece rotated) {
      free_rects = some (
          first_free_rects (placed_width piece rotated) (placed_height piece rotated) stock_width
            stock_height kerf);
    }

pub record GuillotineFit : Type 0 where
  pub index : ℕ
  pub width : ℕ
  pub height : ℕ
  pub rotated : Bool

-- `bestScore` with the four other variables; `none` is `Infinity` with the index -1.
abbrev pub BestScore : Type 0
BestScore = Option (ℕ × GuillotineFit)

abbrev pub min : ℕ → ℕ → ℕ
min a b = if leb a b then a else b

-- "Best short side fit score"
abbrev pub short_side : Rectangle → Orientation → ℕ
short_side rect orient = min (rect.width - orient.width) (rect.height - orient.height)

abbrev pub beats : ℕ → BestScore → Bool
beats score none = true
beats score (some (best_score, fit)) = ltb score best_score

-- One pass of the inner loop's body.
unfoldable pub consider : Rectangle → ℕ → Orientation → BestScore → BestScore
consider rect i orient best =
    if leb orient.width rect.width && leb orient.height rect.height
    then (if beats (short_side rect orient) best
        then some (
          short_side rect orient,
          record {
            index = i;
            width = orient.width;
            height = orient.height;
            rotated = orient.rotated;
          },
        )
        else best)
    else best

unfoldable pub consider_all : Rectangle → ℕ → List Orientation → BestScore → BestScore
unfolding consider
consider_all rect i [] best = best
consider_all rect i (orient ∷ orients) best =
    consider_all rect i orients (consider rect i orient best)

unfoldable pub best_from : List Rectangle → ℕ → List Orientation → BestScore → BestScore
unfolding consider_all
best_from [] i orients best = best
best_from (rect ∷ rects) i orients best =
    best_from rects (i + 1) orients (consider_all rect i orients best)

abbrev pub fit_of : BestScore → Option GuillotineFit
fit_of none = none
fit_of (some (score, fit)) = some fit

unfoldable pub find_best_guillotine_fit :
    List Rectangle → ℕ → ℕ → Bool → Bool → Option GuillotineFit
unfolding best_from get_orientations
find_best_guillotine_fit free_rects width height can_rotate allow_rotation = fit_of (
    best_from free_rects 0 (get_orientations width height can_rotate allow_rotation none false)
      none)

-- `freeRects.filter((_, i) => i !== index)`
abbrev pub remove_at {ℓ} : {A : Type ℓ} → List A → ℕ → List A
remove_at [] i = []
remove_at (x ∷ xs) zero = xs
remove_at (x ∷ xs) (suc i) = x ∷ remove_at xs i

-- The placement and the new free rectangles, once the free rectangle is chosen.
unfoldable pub cut_from :
    ActiveSheet → Piece2d → ℕ → List Rectangle → GuillotineFit → Rectangle → ActiveSheet
unfolding split_free_rectangle
cut_from sheet piece kerf free_rects fit rect = record sheet {
  placements =
      sheet.placements ++ placement_at piece rect.x rect.y fit.width fit.height fit.rotated ∷ [];
  free_rects =
      some (remove_at free_rects fit.index ++ split_free_rectangle rect fit.width fit.height kerf);
}

-- An index out of range does not occur (`find_best_guillotine_fit` counts the list itself).
unfoldable pub try_place_guillotine : ActiveSheet → Piece2d → Options2d → Option ActiveSheet
unfolding find_best_guillotine_fit cut_from
try_place_guillotine sheet piece o = elim sheet.free_rects [
  | none ↦ none
  | some free_rects ↦
      elim (find_best_guillotine_fit free_rects piece.width piece.height piece.can_rotate
        o.allow_rotation) [
          | none ↦ none
          | some fit ↦ elim (get_elem? free_rects fit.index) [
            | none ↦ none
            | some rect ↦ some (cut_from sheet piece o.kerf free_rects fit rect)
          ]
        ]
]
