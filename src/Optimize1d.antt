-- ===== src/Optimize1d.antt =====
-- backend/src/algorithms/1d/result-builder.ts, the entry points of ffd-algorithm.ts and
-- bfd-algorithm.ts, and the dispatcher optimizer.ts.
pub mod Safety
pub mod Supply
pub mod Report
mod Tests
pub mod Totals
use nestra.Prelude.{
  ℕ, ◌-◌, String, Bool, true, false, List, [], ◌∷◌, Option, none, some, map, length, sum_by,
}
use nestra.Pieces.{Piece1d, PieceInput1d, expand_1d_pieces, sort_1d_by_length_desc}
use nestra.Stock.{StockInput1d, SortStrategy, desc, asc, new_stock_1d}
use nestra.Bars.{
  Bar, Cut, Options1d, WasteSegment, calculate_usable_waste, find_first_fit_bar, find_best_fit_bar,
}
use nestra.Statistics.{
  Percentage, BarWaste, calculate_bar_waste, Statistics1d, calculate_1d_statistics,
}
use nestra.Unplaced1d.{get_all}
use nestra.Fill1d.{Filling, Chooser, start, fill_1d}

pub record BarCuttingResult : Type 0 where
  pub stock_id : String
  pub stock_length : ℕ
  pub cuts : List Cut
  pub waste : ℕ
  pub waste_percentage : Percentage
  pub usable_waste : Option WasteSegment

pub record ResultStatistics1d : Type 0 where
  pub total_pieces : ℕ
  pub total_stock_length : ℕ
  pub total_used_length : ℕ
  pub efficiency : Percentage

pub record OptimizationResult1d : Type 0 where
  pub success : Bool
  pub bars : List BarCuttingResult
  pub total_waste : ℕ
  pub total_waste_percentage : Percentage
  pub stock_used_count : ℕ
  pub unplaced_pieces : List PieceInput1d
  pub statistics : ResultStatistics1d

unfoldable pub bar_result : Options1d → Bar → BarCuttingResult
bar_result o bar =
    let w = calculate_bar_waste bar in
    record {
      stock_id = bar.stock_id;
      stock_length = bar.stock_length;
      cuts = bar.cuts;
      waste = w.waste;
      waste_percentage = w.waste_percentage;
      usable_waste = calculate_usable_waste bar o;
    }

abbrev pub is_nil {ℓ} : {A : Type ℓ} → List A → Bool
is_nil [] = true
is_nil (x ∷ xs) = false

unfoldable pub build_result : List Bar → List PieceInput1d → ℕ → Options1d → OptimizationResult1d
unfolding bar_result
build_result bars unplaced total_expanded o =
    let results = map (bar_result o) bars in
    let unplaced_count = sum_by (λ p. p.quantity) unplaced in
    let stats = calculate_1d_statistics bars (total_expanded - unplaced_count) in
    record {
      success = is_nil unplaced;
      bars = results;
      total_waste = stats.total_waste;
      total_waste_percentage = stats.waste_percentage;
      stock_used_count = length results;
      unplaced_pieces = unplaced;
      statistics = record {
        total_pieces = stats.total_pieces;
        total_stock_length = stats.total_stock_length;
        total_used_length = stats.total_used_length;
        efficiency = stats.efficiency;
      };
    }

-- The state at the end of the loop, over the sorted demand.
unfoldable pub packed :
    Chooser → SortStrategy → List PieceInput1d → List StockInput1d → Options1d → Filling
packed choose strategy pieces stock o =
    fill_1d choose o.kerf (start (new_stock_1d stock strategy))
      (sort_1d_by_length_desc (expand_1d_pieces pieces))

unfoldable pub finish :
    Chooser
    → SortStrategy
    → List PieceInput1d
    → List StockInput1d
    → Options1d
    → OptimizationResult1d
finish choose strategy pieces stock o =
    let f = packed choose strategy pieces stock o in
    build_result f.active_bars (get_all f.unplaced)
      (length (sort_1d_by_length_desc (expand_1d_pieces pieces))) o

unfoldable pub first_fit_decreasing :
    List PieceInput1d → List StockInput1d → Options1d → OptimizationResult1d
first_fit_decreasing = finish find_first_fit_bar desc

unfoldable pub best_fit_decreasing :
    List PieceInput1d → List StockInput1d → Options1d → OptimizationResult1d
best_fit_decreasing = finish find_best_fit_bar asc

pub data Algorithm1d : Type 0 where
  ffd bfd branch_bound other : Algorithm1d

-- `other` is any text that the `switch` does not name.
unfoldable pub optimize_1d :
    Algorithm1d → List PieceInput1d → List StockInput1d → Options1d → OptimizationResult1d
optimize_1d ffd = first_fit_decreasing
optimize_1d bfd = best_fit_decreasing
optimize_1d branch_bound = best_fit_decreasing
optimize_1d other = first_fit_decreasing
