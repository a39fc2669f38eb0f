-- ===== src/Enhanced.antt =====
-- backend/src/algorithms/2d/enhanced-optimizer.ts, and `optimize2D` of 2d/cutting2d.ts, which calls
-- it for MAXRECTS. The block under `multiPass` moves no piece ("not implemented" in the source), so
-- the option is not read here.
mod Orders
pub mod Places
pub mod Totals
pub mod Faults
pub mod Contract
mod Tests
unfoldable pub use Orders.*
use Prim.Native.Char.{code}
use nestra.Prelude.{
  ℕ, ◌+◌, ◌-◌, ◌*◌, String, Bool, true, false, ◌&&◌, List, [], ◌∷◌, map, Option, none, some, leb,
  ◌==◌, modify, if◌then◌else◌,
}
use nestra.Prelude.Sorting.{sort_by}
use nestra.Prelude.Dict.{insert}
use nestra.Geometry.{Orientation, as_given, turned}
use nestra.Stock.{StockInput2d, Usage, remaining_of, init_usage_2d, find_in_2d}
use nestra.Sheets.{ActiveSheet, Options2d}
use nestra.FreeRects.{min}
use nestra.Grained.{GrainedInput, GrainedPiece, expand_pieces}
use nestra.Packing.{Packer, PackState, write_first, pack}
use nestra.Cutting2d.{
  fitting, piece_area, PackingResult, build_results, bottom_left_fill, guillotine_cutting,
}
use nestra.MaxRects.{
  MaxRectsSheet, MaxRectsHeuristic, MaxRectsOptions, heuristic_or_default, max,
  place_piece_max_rects, initialize_max_rects_sheet, try_place_in_sheet, select_best_sheet,
}

abbrev pub uses_best : EnhancedAlgorithm → Bool
uses_best maxrects_best = true
uses_best _ = false

abbrev pub max_rects_options : EnhancedOptions → MaxRectsOptions
max_rects_options o = record {
  kerf = o.kerf;
  allow_rotation = o.allow_rotation;
  respect_grain_direction = o.respect_grain_direction;
  heuristic =
      some (
        if uses_best o.algorithm then MaxRectsHeuristic.best else heuristic_or_default o.heuristic);
}

-- Strategies 1 and 2. The source writes to the chosen sheet by reference, here by its index.
unfoldable pub try_active_sheets :
    EnhancedOptions → List MaxRectsSheet → GrainedPiece → Option (List MaxRectsSheet)
unfolding write_first
try_active_sheets o sheets p = elim (select_best_sheet sheets p (max_rects_options o)) [
  | some (i, c) ↦ some (modify (λ s. place_piece_max_rects s p c o.kerf) sheets i)
  | none ↦ write_first (λ s. try_place_in_sheet s p (max_rects_options o)) sheets
]

abbrev pub shorter_side : GrainedPiece → ℕ
shorter_side p = min p.piece.width p.piece.height

-- The orientations of strategy 3, which read neither the grain nor whether the piece is square.
abbrev pub opening_orientations : EnhancedOptions → GrainedPiece → List Orientation
opening_orientations o p =
    as_given p.piece.width p.piece.height
    ∷ (if o.allow_rotation && p.piece.can_rotate
        then turned p.piece.width p.piece.height ∷ []
        else [])

-- Strategy 3.
unfoldable pub open_new_sheet :
    List StockInput2d → EnhancedOptions → Usage → GrainedPiece → Option (MaxRectsSheet × Usage)
unfolding find_available fitting consume
open_new_sheet stocks o u p = elim (find_available stocks u (shorter_side p) (shorter_side p)) [
  | none ↦ none
  | some s ↦ elim (fitting s (opening_orientations o p)) [
    | none ↦ none
    | some orient ↦
        some
          (initialize_max_rects_sheet s.id s.width s.height p orient.rotated o.kerf, consume u s.id)
  ]
]

unfoldable pub calls : List StockInput2d → EnhancedOptions → Packer MaxRectsSheet Usage
calls stocks o = record {
  try_existing = try_active_sheets o;
  open_new = open_new_sheet stocks o;
  entry_of = entry_of;
}

unfoldable pub ordered_pieces : List GrainedInput → EnhancedOptions → List GrainedPiece
unfolding sort_pieces expand_pieces
ordered_pieces pieces o = sort_pieces (expand_pieces pieces) (order_or_default o.sort_strategy)

-- The usage is filled from the stock as given, the search runs over the sorted stock.
unfoldable pub packed_enhanced :
    List GrainedInput → List StockInput2d → EnhancedOptions → PackState MaxRectsSheet Usage
unfolding pack calls ordered_pieces sorted_stocks
packed_enhanced pieces stock o =
    pack (calls (sorted_stocks stock) o)
      (record { active_sheets = []; usage = init_usage_2d stock []; unplaced = [] })
      (ordered_pieces pieces o)

-- The fields of a sheet that `buildResults` reads. Its body is that of cutting2d.ts.
abbrev pub as_active : MaxRectsSheet → ActiveSheet
as_active s = record {
  stock_id = s.stock_id;
  width = s.width;
  height = s.height;
  placements = s.placements;
  free_rects = none;
}

unfoldable pub optimize_enhanced_2d :
    List GrainedInput → List StockInput2d → EnhancedOptions → PackingResult
unfolding packed_enhanced build_results
optimize_enhanced_2d pieces stock o =
    let f = packed_enhanced pieces stock o in
    build_results (map as_active f.active_sheets) (ordered_pieces pieces o) f.unplaced

-- `Partial<IEnhanced2DOptions>`
pub record PartialOptions : Type 0 where
  pub algorithm : Option EnhancedAlgorithm
  pub kerf : Option ℕ
  pub allow_rotation : Option Bool
  pub respect_grain_direction : Option Bool
  pub heuristic : Option MaxRectsHeuristic
  pub sort_strategy : Option PieceOrder

abbrev pub or_default {ℓ} : {A : Type ℓ} → A → Option A → A
or_default d none = d
or_default d (some x) = x

-- `{ ...defaultOptions, ...options }`
abbrev pub with_defaults : PartialOptions → EnhancedOptions
with_defaults o = record {
  algorithm = or_default maxrects_best o.algorithm;
  kerf = or_default 3 o.kerf;
  allow_rotation = or_default true o.allow_rotation;
  respect_grain_direction = or_default false o.respect_grain_direction;
  heuristic = some (or_default MaxRectsHeuristic.best o.heuristic);
  sort_strategy = some (or_default area_desc o.sort_strategy);
}

unfoldable pub optimize_2d_enhanced :
    List GrainedInput → List StockInput2d → PartialOptions → PackingResult
unfolding optimize_enhanced_2d
optimize_2d_enhanced pieces stock o = optimize_enhanced_2d pieces stock (with_defaults o)

-- The options of cutting2d.ts; `guillotineOnly` is not read.
pub data CuttingAlgorithm : Type 0 where
  bottom_left_type guillotine_type maxrects_type other_type : CuttingAlgorithm

pub record CuttingOptions : Type 0 where
  pub algorithm : CuttingAlgorithm
  pub kerf : ℕ
  pub allow_rotation : Bool
  pub respect_grain_direction : Option Bool

abbrev pub sheet_options : CuttingOptions → Options2d
sheet_options o = record { kerf = o.kerf; allow_rotation = o.allow_rotation }

-- What the dispatcher passes on. A `respectGrainDirection` that is `undefined` counts as `false`, as
-- the default does.
abbrev pub enhanced_options : CuttingOptions → PartialOptions
enhanced_options o = record {
  algorithm = some maxrects_best;
  kerf = some o.kerf;
  allow_rotation = some o.allow_rotation;
  respect_grain_direction = o.respect_grain_direction;
  heuristic = some MaxRectsHeuristic.best;
  sort_strategy = none;
}

unfoldable pub dispatch :
    CuttingAlgorithm → List GrainedInput → List StockInput2d → CuttingOptions → PackingResult
dispatch bottom_left_type pieces stock o = bottom_left_fill pieces stock (sheet_options o)
dispatch guillotine_type pieces stock o = guillotine_cutting pieces stock (sheet_options o)
dispatch maxrects_type pieces stock o = optimize_2d_enhanced pieces stock (enhanced_options o)
dispatch other_type pieces stock o = bottom_left_fill pieces stock (sheet_options o)

unfoldable pub optimize_2d : List GrainedInput → List StockInput2d → CuttingOptions → PackingResult
unfolding dispatch
optimize_2d pieces stock o = dispatch o.algorithm pieces stock o
