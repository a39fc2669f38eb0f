-- ===== src/Cutting2d/Placing.antt =====
-- What 2d/cutting2d.ts writes out for itself to place a piece in a sheet in use: the overlap and
-- collision tests, the candidate positions, the first splits of a sheet, and the guillotine
-- fit with the cut that it makes.
use nestra.Prelude.{
  ℕ, ◌+◌, ◌-◌, Bool, true, false, not, ◌&&◌, ◌||◌, List, [], ◌∷◌, ◌++◌, Option, none, some, ltb,
  leb, ◌==◌, get_elem?, if◌then◌else◌,
}
use nestra.Prelude.Sorting.{sort_by}
use nestra.Geometry.{Rectangle, Position, Orientation}
use nestra.Sheets.{ActiveSheet, Placement, Options2d, placement_at, add_placement}
use nestra.Stock.{StockInput2d}
use nestra.Guillotine.{min, remove_at}
use nestra.Grained.{GrainedPiece, orientations_of}

unfoldable pub rectangles_overlap : Rectangle → Rectangle → Bool
rectangles_overlap r1 r2 = not (
    leb (r1.x + r1.width) r2.x
    || leb (r2.x + r2.width) r1.x
    || leb (r1.y + r1.height) r2.y
    || leb (r2.y + r2.height) r1.y)

-- The loop of `canPlace`; the first argument is `newRectWithKerf`.
unfoldable pub clear_of_placements : Rectangle → ℕ → List Placement → Bool
unfolding rectangles_overlap
clear_of_placements new_rect_with_kerf kerf [] = true
clear_of_placements new_rect_with_kerf kerf (p ∷ ps) =
    let existing_rect : Rectangle = record {
      x = p.x;
      y = p.y;
      width = p.width + kerf;
      height = p.height + kerf;
    } in
    if rectangles_overlap new_rect_with_kerf existing_rect
    then false
    else clear_of_placements new_rect_with_kerf kerf ps

-- The second and third arguments are the `width` and `height` of `sheetDims`.
unfoldable pub can_place : Rectangle → ℕ → ℕ → List Placement → ℕ → Bool
unfolding clear_of_placements
can_place rect width height placements kerf =
    if ltb width (rect.x + rect.width) || ltb height (rect.y + rect.height)
    then false
    else clear_of_placements
        (record { x = rect.x; y = rect.y; width = rect.width + kerf; height = rect.height + kerf })
        kerf placements

-- What `initializeGuillotineSheet` pushes to the empty list of free rectangles.
unfoldable pub initial_splits : StockInput2d → Orientation → ℕ → List Rectangle
initial_splits stock orient kerf =
    let right =
      if ltb (orient.width + kerf) stock.width
      then record {
        x = orient.width + kerf;
        y = 0;
        width = stock.width - orient.width - kerf;
        height = stock.height;
      }
        ∷ []
      else [] in
    if ltb (orient.height + kerf) stock.height
    then right
      ++ record {
        x = 0;
        y = orient.height + kerf;
        width = orient.width;
        height = stock.height - orient.height - kerf;
      }
        ∷ []
    else right

-- What the loop over the placements pushes.
unfoldable pub corners_of : ℕ → List Placement → List Position
corners_of kerf [] = []
corners_of kerf (p ∷ ps) =
    record { x = p.x + p.width + kerf; y = p.y }
    ∷ record { x = p.x; y = p.y + p.height + kerf }
    ∷ record { x = p.x + p.width + kerf; y = p.y + p.height + kerf }
    ∷ corners_of kerf ps

-- The comparator is at most 0.
abbrev pub lower_or_left : Position → Position → Bool
lower_or_left a b = if not (a.y == b.y) then leb a.y b.y else leb a.x b.x

-- The loop over the candidates.
unfoldable pub first_position : ActiveSheet → Orientation → ℕ → List Position → Option Position
unfolding can_place
first_position sheet dims kerf [] = none
first_position sheet dims kerf (pos ∷ candidates) =
    if can_place (record { x = pos.x; y = pos.y; width = dims.width; height = dims.height })
      sheet.width sheet.height sheet.placements kerf
    then some pos
    else first_position sheet dims kerf candidates

unfoldable pub find_bottom_left_position : ActiveSheet → Orientation → ℕ → Option Position
unfolding first_position corners_of sort_by
find_bottom_left_position sheet dims kerf =
    first_position sheet dims kerf
      (sort_by lower_or_left (record { x = 0; y = 0 } ∷ corners_of kerf sheet.placements))

-- The loop over the orientations, for one sheet.
unfoldable pub place_in_sheet :
    ActiveSheet → GrainedPiece → ℕ → List Orientation → Option ActiveSheet
unfolding find_bottom_left_position add_placement
place_in_sheet sheet p kerf [] = none
place_in_sheet sheet p kerf (orient ∷ orients) =
    elim (find_bottom_left_position sheet orient kerf) [
      | none ↦ place_in_sheet sheet p kerf orients
      | some pos ↦ some (
          add_placement sheet
            (placement_at p.piece pos.x pos.y orient.width orient.height orient.rotated))
    ]

-- The five variables of `tryPlaceGuillotineInSheet`; the index -1 and the score `Infinity` are
-- `none`.
pub record BestFit : Type 0 where
  pub best_fit_index : Option ℕ
  pub best_fit_score : Option ℕ
  pub best_rotated : Bool
  pub best_width : ℕ
  pub best_height : ℕ

abbrev pub no_fit : BestFit
no_fit = record {
  best_fit_index = none;
  best_fit_score = none;
  best_rotated = false;
  best_width = 0;
  best_height = 0;
}

abbrev pub is_below : ℕ → Option ℕ → Bool
is_below score none = true
is_below score (some best) = ltb score best

-- The body of the inner loop.
unfoldable pub weigh : Rectangle → ℕ → Orientation → BestFit → BestFit
weigh rect i orient best =
    let score = min (rect.width - orient.width) (rect.height - orient.height) in
    if leb orient.width rect.width && leb orient.height rect.height
    then (if is_below score best.best_fit_score
        then record {
          best_fit_index = some i;
          best_fit_score = some score;
          best_rotated = orient.rotated;
          best_width = orient.width;
          best_height = orient.height;
        }
        else best)
    else best

unfoldable pub weigh_all : Rectangle → ℕ → List Orientation → BestFit → BestFit
unfolding weigh
weigh_all rect i [] best = best
weigh_all rect i (orient ∷ orients) best = weigh_all rect i orients (weigh rect i orient best)

unfoldable pub weigh_rects : GrainedPiece → Bool → List Rectangle → ℕ → BestFit → BestFit
unfolding weigh_all orientations_of
weigh_rects p allow_rotation [] i best = best
weigh_rects p allow_rotation (rect ∷ rects) i best =
    weigh_rects p allow_rotation rects (i + 1)
      (weigh_all rect i (orientations_of p allow_rotation false) best)

-- The two splits that are pushed to `newFreeRects`, which is the first argument.
unfoldable pub push_splits : List Rectangle → Rectangle → BestFit → ℕ → List Rectangle
push_splits new_free_rects rect best kerf =
    let with_right =
      if ltb (best.best_width + kerf) rect.width
      then new_free_rects
        ++ record {
          x = rect.x + best.best_width + kerf;
          y = rect.y;
          width = rect.width - best.best_width - kerf;
          height = rect.height;
        }
          ∷ []
      else new_free_rects in
    if ltb (best.best_height + kerf) rect.height
    then with_right
      ++ record {
        x = rect.x;
        y = rect.y + best.best_height + kerf;
        width = best.best_width;
        height = rect.height - best.best_height - kerf;
      }
        ∷ []
    else with_right

-- What follows the loops. The index is one of the list.
unfoldable pub place_fit :
    Options2d → GrainedPiece → ActiveSheet → List Rectangle → BestFit → Option ActiveSheet
unfolding push_splits
place_fit o p sheet free_rects best = elim best.best_fit_index [
  | none ↦ none
  | some index ↦ elim (get_elem? free_rects index) [
    | none ↦ none
    | some rect ↦ some (record sheet {
      placements =
          sheet.placements
          ++ placement_at p.piece rect.x rect.y best.best_width best.best_height best.best_rotated
            ∷ [];
      free_rects = some (push_splits (remove_at free_rects index) rect best o.kerf);
    })
  ]
]

unfoldable pub try_place_guillotine_in_sheet :
    Options2d → GrainedPiece → ActiveSheet → Option ActiveSheet
unfolding weigh_rects place_fit
try_place_guillotine_in_sheet o p sheet = elim sheet.free_rects [
  | none ↦ none
  | some free_rects ↦
      place_fit o p sheet free_rects (weigh_rects p o.allow_rotation free_rects 0 no_fit)
]
