-- ===== src/Optimize2d.antt =====
-- backend/src/algorithms/2d/result-builder.ts and optimizer.ts, the entry points of
-- bottom-left-algorithm.ts and guillotine-algorithm.ts, and the sheet half of
-- core/statistics-calculator.ts.
pub mod Layout
pub mod Sideways
pub mod Turning
pub mod Supply
pub mod Totals
mod Tests
use nestra.Prelude.{
  ℕ, ◌+◌, ◌-◌, ◌*◌, String, Bool, true, false, List, [], ◌∷◌, map, length, sum_by, ltb,
  if◌then◌else◌,
}
use nestra.Prelude.Int.{ℤ, sub_ℕ}
use nestra.Pieces.{PieceInput2d, expand_2d_pieces, sort_2d_by_area_desc}
use nestra.Stock.{StockInput2d, new_stock_2d}
use nestra.Statistics.{Percentage, percentage}
use nestra.Sheets.{ActiveSheet, Placement, Options2d}
use nestra.Unplaced2d.{get_all}
use nestra.Fill2d.{Filling2d, Method, bottom_left, guillotine, start_2d, fill_2d}

-- A share of the stock that can be negative: a sheet's placements can exceed its area.
pub data WastePercentage : Type 0 where
  no_stock : WastePercentage
  waste_ratio : ℤ → ℕ → WastePercentage

abbrev pub waste_percentage_of : ℤ → ℕ → WastePercentage
waste_percentage_of part whole = if ltb 0 whole then waste_ratio part whole else no_stock

abbrev pub used_area_of : ActiveSheet → ℕ
used_area_of sheet = sum_by (λ p. p.width * p.height) sheet.placements

pub record SheetWaste : Type 0 where
  pub waste_area : ℤ
  pub waste_percentage : WastePercentage
  pub used_area : ℕ

unfoldable pub calculate_sheet_waste : ActiveSheet → SheetWaste
calculate_sheet_waste sheet =
    let stock_area = sheet.width * sheet.height in
    let waste_area = sub_ℕ stock_area (used_area_of sheet) in
    record {
      waste_area = waste_area;
      waste_percentage = waste_percentage_of waste_area stock_area;
      used_area = used_area_of sheet;
    }

pub record Statistics2d : Type 0 where
  pub total_pieces : ℕ
  pub total_stock_area : ℕ
  pub total_used_area : ℕ
  pub efficiency : Percentage
  pub total_waste_area : ℤ
  pub waste_percentage : WastePercentage

-- The loop's two sums, `(totalStockArea, totalUsedArea)`.
unfoldable pub sheet_sums : ℕ → ℕ → List ActiveSheet → ℕ × ℕ
sheet_sums stock used [] = (stock, used)
sheet_sums stock used (sheet ∷ sheets) =
    sheet_sums (stock + sheet.width * sheet.height) (used + used_area_of sheet) sheets

unfoldable pub calculate_2d_statistics : List ActiveSheet → ℕ → Statistics2d
unfolding sheet_sums
calculate_2d_statistics sheets placed =
    let (stock, used) = sheet_sums 0 0 sheets in
    let waste = sub_ℕ stock used in
    record {
      total_pieces = placed;
      total_stock_area = stock;
      total_used_area = used;
      efficiency = percentage used stock;
      total_waste_area = waste;
      waste_percentage = waste_percentage_of waste stock;
    }

pub record SheetCuttingResult : Type 0 where
  pub stock_id : String
  pub stock_width : ℕ
  pub stock_height : ℕ
  pub placements : List Placement
  pub waste_area : ℤ
  pub waste_percentage : WastePercentage
  pub used_area : ℕ

pub record ResultStatistics2d : Type 0 where
  pub total_pieces : ℕ
  pub total_stock_area : ℕ
  pub total_used_area : ℕ
  pub efficiency : Percentage

pub record OptimizationResult2d : Type 0 where
  pub success : Bool
  pub sheets : List SheetCuttingResult
  pub total_waste_area : ℤ
  pub total_waste_percentage : WastePercentage
  pub stock_used_count : ℕ
  pub unplaced_pieces : List PieceInput2d
  pub statistics : ResultStatistics2d

unfoldable pub sheet_result : ActiveSheet → SheetCuttingResult
unfolding calculate_sheet_waste
sheet_result sheet =
    let w = calculate_sheet_waste sheet in
    record {
      stock_id = sheet.stock_id;
      stock_width = sheet.width;
      stock_height = sheet.height;
      placements = sheet.placements;
      waste_area = w.waste_area;
      waste_percentage = w.waste_percentage;
      used_area = w.used_area;
    }

abbrev pub is_nil {ℓ} : {A : Type ℓ} → List A → Bool
is_nil [] = true
is_nil (x ∷ xs) = false

unfoldable pub build_result : List ActiveSheet → List PieceInput2d → ℕ → OptimizationResult2d
unfolding sheet_result calculate_2d_statistics
build_result sheets unplaced total_expanded =
    let results = map sheet_result sheets in
    let unplaced_count = sum_by (λ p. p.quantity) unplaced in
    let stats = calculate_2d_statistics sheets (total_expanded - unplaced_count) in
    record {
      success = is_nil unplaced;
      sheets = results;
      total_waste_area = stats.total_waste_area;
      total_waste_percentage = stats.waste_percentage;
      stock_used_count = length results;
      unplaced_pieces = unplaced;
      statistics = record {
        total_pieces = stats.total_pieces;
        total_stock_area = stats.total_stock_area;
        total_used_area = stats.total_used_area;
        efficiency = stats.efficiency;
      };
    }

-- The state at the end of the loop, over the sorted demand.
unfoldable pub packed_2d :
    (Options2d → Method) → List PieceInput2d → List StockInput2d → Options2d → Filling2d
packed_2d method pieces stock o =
    fill_2d (method o) o (start_2d (new_stock_2d stock))
      (sort_2d_by_area_desc (expand_2d_pieces pieces))

unfoldable pub finish_2d :
    (Options2d → Method) → List PieceInput2d → List StockInput2d → Options2d → OptimizationResult2d
finish_2d method pieces stock o =
    let f = packed_2d method pieces stock o in
    build_result f.active_sheets (get_all f.unplaced)
      (length (sort_2d_by_area_desc (expand_2d_pieces pieces)))

unfoldable pub bottom_left_fill :
    List PieceInput2d → List StockInput2d → Options2d → OptimizationResult2d
bottom_left_fill = finish_2d bottom_left

unfoldable pub guillotine_cutting :
    List PieceInput2d → List StockInput2d → Options2d → OptimizationResult2d
guillotine_cutting = finish_2d guillotine

pub data Algorithm2d : Type 0 where
  bottom_left_type guillotine_type maxrects_type other_type : Algorithm2d

-- `other_type` is any text that the `switch` does not name; `guillotineOnly` is not read.
unfoldable pub optimize_2d :
    Algorithm2d → List PieceInput2d → List StockInput2d → Options2d → OptimizationResult2d
optimize_2d bottom_left_type = bottom_left_fill
optimize_2d guillotine_type = guillotine_cutting
optimize_2d maxrects_type = guillotine_cutting
optimize_2d other_type = bottom_left_fill
