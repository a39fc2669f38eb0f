-- ===== src/Enhanced/Tests.antt =====
-- The theorems on cutting2d.ts and the enhanced optimiser at concrete inputs.
use nestra.Prelude.{◌≡◌, refl, inl, inr, true, false, [], ◌∷◌, map, none, some, All, arith}
use nestra.Pieces.{horizontal}
use nestra.Geometry.{as_given}
use nestra.Stock.{StockInput2d}
use nestra.Sheets.{ActiveSheet, Options2d, try_place_bottom_left}
use nestra.Guillotine.{try_place_guillotine}
use nestra.Optimize2d.Layout.{IsApartResult, IsInsideResult}
use nestra.Grained.{GrainedInput, unit_of, orientations_of}
use nestra.Packing.{write_first}
use nestra.Cutting2d.{
  bottom_left_fill, guillotine_cutting, place_in_sheet, try_place_guillotine_in_sheet,
}
use nestra.Cutting2d.Agreement.{in_sheet_agreement}
use nestra.Cutting2d.Places.{IsLaidOut, strategies-IsLaidOut}
use nestra.Cutting2d.Results.{IsSettled, strategies-IsSettled}
use nestra.MaxRects.{
  MaxRectsSheet, MaxRectsOptions, MaxRectsHeuristic, score_of, find_best_placement,
  orientations_for, select_best_sheet, search_sheets, weigh_sheet, candidate_for, search_rects,
  consider_all, consider, try_place_in_sheet,
}
use nestra.MaxRects.Choice.{AllReal, ScoredBy, Fits, NoBetter, find_best_placement_lem}
use nestra.MaxRects.Sheet.Selection.{select_best_sheet_complete}
use nestra.Enhanced.{
  before_underscore, EnhancedOptions, maxrects_best, PartialOptions, CuttingOptions, maxrects_type,
  optimize_2d, optimize_enhanced_2d, optimize_2d_enhanced,
}
use nestra.Enhanced.Places.{optimize_2d_enhanced_layout}
use nestra.Enhanced.Totals.{IsPlain}
use nestra.Enhanced.Contract.{IsCuttingPlan, optimize_2d-IsCuttingPlan}
use nestra.Enhanced.Faults.{optimize_enhanced_2d_overlooked, optimize_enhanced_2d_against_grain}

abbrev door : GrainedInput
door = record {
  input = record {
    id = "door";
    width = 30;
    height = 20;
    quantity = 3;
    order_item_id = "o1";
    can_rotate = true;
  };
  grain = some horizontal;
}

abbrev tile : GrainedInput
tile = record {
  input = record {
    id = "tile";
    width = 11;
    height = 12;
    quantity = 4;
    order_item_id = "o2";
    can_rotate = false;
  };
  grain = none;
}

abbrev board : StockInput2d
board = record { id = "board"; width = 64; height = 42; available = 2 }

abbrev saw : Options2d
saw = record { kerf = 2; allow_rotation = true }

abbrev board_sheet : ActiveSheet
board_sheet = record {
  stock_id = "board";
  width = 64;
  height = 42;
  placements = [];
  free_rects = some (record { x = 0; y = 0; width = 64; height = 42 } ∷ []);
}

in_sheet_agreement_example :
    (place_in_sheet board_sheet (unit_of door 0) 2 (orientations_of (unit_of door 0) true false)
      ≡ try_place_bottom_left board_sheet (unit_of door 0).piece saw)
    × (try_place_guillotine_in_sheet saw (unit_of door 0) board_sheet
        ≡ try_place_guillotine board_sheet (unit_of door 0).piece saw)
in_sheet_agreement_example = in_sheet_agreement saw (unit_of door 0) board_sheet

strategies-IsLaidOut_example :
    All (IsLaidOut 2) (bottom_left_fill (door ∷ tile ∷ []) (board ∷ []) saw).sheets
    × All (IsLaidOut 2) (guillotine_cutting (door ∷ tile ∷ []) (board ∷ []) saw).sheets
strategies-IsLaidOut_example = strategies-IsLaidOut (door ∷ tile ∷ []) (board ∷ []) saw

strategies-IsSettled_example :
    IsSettled (door ∷ tile ∷ []) (board ∷ []) (bottom_left_fill (door ∷ tile ∷ []) (board ∷ []) saw)
    × IsSettled
        (door ∷ tile ∷ [])
        (board ∷ [])
        (guillotine_cutting (door ∷ tile ∷ []) (board ∷ []) saw)
strategies-IsSettled_example = strategies-IsSettled (door ∷ tile ∷ []) (board ∷ []) saw

abbrev free_board : MaxRectsSheet
free_board = record {
  stock_id = "board";
  width = 64;
  height = 42;
  free_rects = record { x = 0; y = 0; width = 64; height = 42 } ∷ [];
  placements = [];
}

abbrev contact : MaxRectsOptions
contact = record {
  kerf = 2;
  allow_rotation = true;
  respect_grain_direction = false;
  heuristic = some MaxRectsHeuristic.cp;
}

find_best_placement_example :
    AllReal
      (ScoredBy MaxRectsHeuristic.cp free_board)
      free_board.free_rects
      (orientations_for (unit_of door 0) contact)
      (find_best_placement free_board (unit_of door 0) contact)
    × All
        (λ r.
          All
            (λ t.
              Fits r t
              → NoBetter
                  (score_of MaxRectsHeuristic.cp free_board r t)
                  (find_best_placement free_board (unit_of door 0) contact))
            (orientations_for (unit_of door 0) contact))
        free_board.free_rects
find_best_placement_example = find_best_placement_lem free_board (unit_of door 0) contact

abbrev scrap : MaxRectsSheet
scrap = record {
  stock_id = "scrap";
  width = 15;
  height = 15;
  free_rects = record { x = 0; y = 0; width = 15; height = 15 } ∷ [];
  placements = [];
}

no_room : select_best_sheet (scrap ∷ []) (unit_of door 0) contact ≡ none
unfolding select_best_sheet search_sheets weigh_sheet candidate_for find_best_placement search_rects
    consider_all consider orientations_of
no_room = refl

select_best_sheet_complete_example :
    write_first (λ s. try_place_in_sheet s (unit_of door 0) contact) (scrap ∷ []) ≡ none
select_best_sheet_complete_example =
    select_best_sheet_complete (scrap ∷ []) (unit_of door 0) contact no_room

abbrev defaults : PartialOptions
defaults = record {
  algorithm = none;
  kerf = none;
  allow_rotation = none;
  respect_grain_direction = none;
  heuristic = none;
  sort_strategy = none;
}

IsPlain-door : IsPlain "door"
unfolding before_underscore
IsPlain-door = refl

IsPlain-tile : IsPlain "tile"
unfolding before_underscore
IsPlain-tile = refl

optimize_2d_enhanced_layout_example :
    All
      (λ r. IsApartResult 0 r × IsInsideResult r)
      (optimize_2d_enhanced (door ∷ tile ∷ []) (board ∷ []) defaults).sheets
optimize_2d_enhanced_layout_example =
    optimize_2d_enhanced_layout (door ∷ tile ∷ []) (board ∷ []) defaults
      ((omega arith, omega arith), ((omega arith, omega arith), tt))

abbrev by_maxrects : CuttingOptions
by_maxrects = record {
  algorithm = maxrects_type;
  kerf = 3;
  allow_rotation = true;
  respect_grain_direction = none;
}

optimize_2d-IsCuttingPlan_example :
    IsCuttingPlan
      (door ∷ tile ∷ [])
      (board ∷ [])
      (optimize_2d (door ∷ tile ∷ []) (board ∷ []) by_maxrects)
optimize_2d-IsCuttingPlan_example =
    optimize_2d-IsCuttingPlan (door ∷ tile ∷ []) (board ∷ []) by_maxrects
      ((omega arith, omega arith), ((omega arith, omega arith), tt))
      (IsPlain-door, (IsPlain-tile, tt))

abbrev beam : GrainedInput
beam = record {
  input = record {
    id = "old_beam";
    width = 100;
    height = 10;
    quantity = 1;
    order_item_id = "o3";
    can_rotate = true;
  };
  grain = some horizontal;
}

abbrev square_sheet : StockInput2d
square_sheet = record { id = "square"; width = 90; height = 90; available = 1 }

abbrev long_sheet : StockInput2d
long_sheet = record { id = "long"; width = 120; height = 20; available = 1 }

abbrev tall_sheet : StockInput2d
tall_sheet = record { id = "tall"; width = 20; height = 120; available = 1 }

abbrev along_grain : EnhancedOptions
along_grain = record {
  algorithm = maxrects_best;
  kerf = 3;
  allow_rotation = true;
  respect_grain_direction = true;
  heuristic = none;
  sort_strategy = none;
}

optimize_enhanced_2d_overlooked_example :
    let r = optimize_enhanced_2d (beam ∷ []) (square_sheet ∷ long_sheet ∷ []) along_grain in
    (r.success ≡ false) × (r.sheets ≡ [])
optimize_enhanced_2d_overlooked_example =
    optimize_enhanced_2d_overlooked beam square_sheet long_sheet along_grain refl (omega arith)
      (omega arith) (omega arith) (omega arith) (omega arith) (inl (omega arith), inr (omega arith))

optimize_enhanced_2d_against_grain_example :
    (orientations_of (unit_of beam 0) true true ≡ as_given 100 10 ∷ [])
    × (map
          (λ r. map (λ c. c.rotated) r.placements)
          (optimize_enhanced_2d (beam ∷ []) (tall_sheet ∷ []) along_grain).sheets
        ≡ (true ∷ []) ∷ [])
optimize_enhanced_2d_against_grain_example =
    optimize_enhanced_2d_against_grain beam tall_sheet along_grain refl refl refl refl refl
      (omega arith) (omega arith) (omega arith) (omega arith)
