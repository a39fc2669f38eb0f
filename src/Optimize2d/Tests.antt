-- ===== src/Optimize2d/Tests.antt =====
-- Runs of the 2D optimiser and of its parts, and their theorems at concrete inputs.
use nestra.Prelude.{
  some, Memᴰ, ◌≤◌, ℕ, ◌+◌, ◌*◌, ◌<◌, ◌↔◌, none, sum_by, ◌≡◌, refl, true, false, [], ◌∷◌, All, arith,
}
use nestra.Prelude.Sorting.{sort_by}
use nestra.Prelude.Dict.{lookup, insert}
use nestra.Pieces.{PieceInput2d, units_2d, expand_2d_pieces, sort_2d_by_area_desc}
use nestra.Stock.{
  StockInput2d, new_stock_2d, init_usage_2d, find_available_stock_2d, find_in_2d, remaining_of,
  consume_stock_2d, decrement,
}
use nestra.Sheets.{
  Options2d, try_place_bottom_left, place_oriented, find_bottom_left_position, first_place,
  can_place_at, clear_of, add_placement, create_active_sheet,
}
use nestra.Unplaced2d.{get_all}
use nestra.Fill2d.{
  start_2d, fill_2d, place_2d, try_sheets, bottom_left, open_new_sheet, open_oriented,
}
use nestra.Optimize2d.{
  bottom_left_type, guillotine_type, optimize_2d, bottom_left_fill, finish_2d, packed_2d,
  build_result,
}
use nestra.Optimize2d.Layout.{IsApartResult, IsInsideResult, optimize_2d_apart, optimize_2d_inside}
use nestra.Optimize2d.Totals.{
  HasAllItems, placements_weight, only, optimize_2d_items, optimize_2d_demand,
}
use nestra.Geometry.{
  Rectangle, rectangles_overlap, is_within_bounds, generate_candidate_positions, candidates_from,
  get_orientations,
}
use nestra.Geometry.Separation.{Pairwise}
use nestra.Geometry.Overlap.{HasCell, rectangles_overlap_lem}
use nestra.FreeRects.{merge_free_rectangles, split_rect_maximal, remove_redundant_rects}
use nestra.FreeRects.Merging.{
  covers, ShareSide, merge_free_rectangles-covers, merge_free_rectangles-merged,
}
use nestra.FreeRects.Splitting.{IsRest, split_rect_maximal-IsRest, remove_redundant_rects-twins}
use nestra.Optimize2d.Supply.{IsResultFrom, results_of, optimize_2d_stock}
use nestra.Guillotine.{GuillotineFit, consider, consider_all, best_from, find_best_guillotine_fit}
use nestra.Guillotine.BestFit.{
  IsLeast, Fits, find_best_guillotine_fit_lem, find_best_guillotine_fit-none,
}
use nestra.Optimize2d.Turning.{IsPermitted, units_of, optimize_2d-IsPermitted}
use nestra.Optimize2d.Sideways.{optimize_2d_sideways}

abbrev panel : PieceInput2d
panel = record {
  id = "panel";
  width = 30;
  height = 20;
  quantity = 3;
  order_item_id = "o1";
  can_rotate = true;
}

abbrev shelf : PieceInput2d
shelf = record {
  id = "shelf";
  width = 10;
  height = 10;
  quantity = 4;
  order_item_id = "o2";
  can_rotate = false;
}

abbrev board : StockInput2d
board = record { id = "board"; width = 64; height = 42; available = 2 }

abbrev options : Options2d
options = record { kerf = 2; allow_rotation = true }

optimize_2d_apart_example :
    All
      (IsApartResult 2)
      (optimize_2d guillotine_type (panel ∷ shelf ∷ []) (board ∷ []) options).sheets
optimize_2d_apart_example =
    optimize_2d_apart guillotine_type (panel ∷ shelf ∷ []) (board ∷ []) options

optimize_2d_inside_example :
    All IsInsideResult
      (optimize_2d bottom_left_type (panel ∷ shelf ∷ []) (board ∷ []) options).sheets
optimize_2d_inside_example =
    optimize_2d_inside bottom_left_type (panel ∷ shelf ∷ []) (board ∷ []) options
      (((λ _. (omega arith, omega arith)), tt), (((λ _. (omega arith, omega arith)), tt), tt))

abbrev plank : PieceInput2d
plank = record {
  id = "plank";
  width = 20;
  height = 10;
  quantity = 1;
  order_item_id = "o3";
  can_rotate = true;
}

abbrev strip : StockInput2d
strip = record { id = "strip"; width = 10; height = 20; available = 1 }

optimize_2d_sideways_example :
    ¬ All IsInsideResult (optimize_2d guillotine_type (plank ∷ []) (strip ∷ []) options).sheets
optimize_2d_sideways_example =
    optimize_2d_sideways guillotine_type plank strip options refl (omega arith) (omega arith)
      (omega arith) (omega arith)

optimize_2d_items_example :
    HasAllItems
      (panel ∷ shelf ∷ [])
      (optimize_2d guillotine_type (panel ∷ shelf ∷ []) (board ∷ []) options)
optimize_2d_items_example =
    optimize_2d_items guillotine_type (panel ∷ shelf ∷ []) (board ∷ []) options

optimize_2d_demand_example :
    let r = optimize_2d guillotine_type (panel ∷ shelf ∷ []) (board ∷ []) options in
    placements_weight (only "shelf") r.sheets
      + sum_by (λ q. only "shelf" q.id * q.quantity) r.unplaced_pieces
    ≡ 4
optimize_2d_demand_example =
    optimize_2d_demand guillotine_type (panel ∷ shelf ∷ []) (board ∷ []) options "shelf"

shelf_placed : (optimize_2d bottom_left_type (shelf ∷ []) (board ∷ []) options).success ≡ true
unfolding optimize_2d bottom_left_fill finish_2d packed_2d build_result sort_2d_by_area_desc
    expand_2d_pieces units_2d new_stock_2d init_usage_2d sort_by start_2d fill_2d place_2d
    try_sheets bottom_left try_place_bottom_left place_oriented find_bottom_left_position
    first_place can_place_at clear_of is_within_bounds rectangles_overlap
    generate_candidate_positions candidates_from add_placement get_orientations open_new_sheet
    open_oriented find_available_stock_2d find_in_2d remaining_of consume_stock_2d decrement
    create_active_sheet lookup insert get_all
shelf_placed = refl

abbrev rect_a : Rectangle
rect_a = record { x = 0; y = 0; width = 30; height = 20 }

abbrev rect_b : Rectangle
rect_b = record { x = 30; y = 0; width = 12; height = 20 }

abbrev rect_c : Rectangle
rect_c = record { x = 10; y = 5; width = 40; height = 40 }

rectangles_overlap_example :
    (rectangles_overlap rect_a rect_c ≡ true)
    ↔ ((x : ℕ) × (y : ℕ) × HasCell rect_a x y × HasCell rect_c x y)
rectangles_overlap_example =
    rectangles_overlap_lem rect_a rect_c (omega arith) (omega arith) (omega arith) (omega arith)

merge_free_rectangles-covers_example :
    sum_by (covers 31 3) (merge_free_rectangles (rect_a ∷ rect_b ∷ rect_c ∷ [])) ≡ 1
merge_free_rectangles-covers_example =
    merge_free_rectangles-covers 31 3 (rect_a ∷ rect_b ∷ rect_c ∷ [])

merge_free_rectangles-merged_example :
    Pairwise (λ r s. ¬ ShareSide r s) (merge_free_rectangles (rect_a ∷ rect_b ∷ rect_c ∷ []))
merge_free_rectangles-merged_example =
    merge_free_rectangles-merged (rect_a ∷ rect_b ∷ rect_c ∷ []) (omega arith)

abbrev whole : Rectangle
whole = record { x = 0; y = 0; width = 100; height = 80 }

split_rect_maximal-IsRest_example :
    All
      (λ r. IsRest 2 whole rect_c r × ((10 < r.width) × (10 < r.height)))
      (split_rect_maximal whole rect_c 2)
split_rect_maximal-IsRest_example = split_rect_maximal-IsRest whole rect_c 2 (record {
  from_left = omega arith;
  from_below = omega arith;
  from_right = omega arith;
  from_above = omega arith;
})

remove_redundant_rects-twins_example :
    ¬ Memᴰ rect_a (remove_redundant_rects (rect_c ∷ rect_a ∷ rect_b ∷ rect_a ∷ []))
remove_redundant_rects-twins_example =
    remove_redundant_rects-twins rect_a (rect_c ∷ []) (rect_b ∷ []) []

optimize_2d_stock_example :
    let r = optimize_2d guillotine_type (panel ∷ shelf ∷ []) (board ∷ []) options in
    (results_of "board" r.sheets ≤ 2) × All (IsResultFrom (board ∷ [])) r.sheets
optimize_2d_stock_example =
    optimize_2d_stock guillotine_type (panel ∷ shelf ∷ []) (board ∷ []) options "board"

abbrev snug : GuillotineFit
snug = record { index = 1; width = 30; height = 38; rotated = false }

snug_found : find_best_guillotine_fit (whole ∷ rect_c ∷ []) 30 38 true true ≡ some snug
unfolding find_best_guillotine_fit best_from consider_all consider get_orientations
snug_found = refl

find_best_guillotine_fit_example :
    IsLeast 30 38 true true (whole ∷ rect_c ∷ []) (get_orientations 30 38 true true none false) snug
find_best_guillotine_fit_example =
    find_best_guillotine_fit_lem (whole ∷ rect_c ∷ []) 30 38 true true snug snug_found

nothing_found : find_best_guillotine_fit (rect_a ∷ rect_b ∷ []) 25 21 true false ≡ none
unfolding find_best_guillotine_fit best_from consider_all consider get_orientations
nothing_found = refl

find_best_guillotine_fit-none_example :
    All
      (λ r. All (λ o. ¬ Fits r o) (get_orientations 25 21 true false none false))
      (rect_a ∷ rect_b ∷ [])
find_best_guillotine_fit-none_example =
    find_best_guillotine_fit-none (rect_a ∷ rect_b ∷ []) 25 21 true false nothing_found

optimize_2d-IsPermitted_example :
    All
      (λ r. All (IsPermitted true (units_of (panel ∷ shelf ∷ []))) r.placements)
      (optimize_2d bottom_left_type (panel ∷ shelf ∷ []) (board ∷ []) options).sheets
optimize_2d-IsPermitted_example =
    optimize_2d-IsPermitted bottom_left_type (panel ∷ shelf ∷ []) (board ∷ []) options
