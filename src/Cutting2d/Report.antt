-- ===== src/Cutting2d/Report.antt =====
-- buildResults of 2d/cutting2d.ts, whose body that of 2d/enhanced-optimizer.ts repeats.
use nestra.Prelude.{ℕ, ◌+◌, ◌-◌, ◌*◌, Bool, List, [], ◌∷◌, map, length, sum_by}
use nestra.Prelude.Int.{ℤ, sub_ℕ, ◌+ℤ◌}
use nestra.Statistics.{percentage}
use nestra.Sheets.{ActiveSheet}
use nestra.Optimize2d.{
  SheetCuttingResult, WastePercentage, waste_ratio, ResultStatistics2d, is_nil, used_area_of,
  waste_percentage_of,
}
use nestra.Grained.{GrainedInput, GrainedPiece}

pub record PackingResult : Type 0 where
  pub success : Bool
  pub sheets : List SheetCuttingResult
  pub total_waste_area : ℤ
  pub total_waste_percentage : WastePercentage
  pub stock_used_count : ℕ
  pub unplaced_pieces : List GrainedInput
  pub statistics : ResultStatistics2d

-- `wasteArea / stockArea` is not guarded here.
unfoldable pub sheet_entry : ActiveSheet → SheetCuttingResult
sheet_entry sheet =
    let stock_area = sheet.width * sheet.height in
    let waste_area = sub_ℕ stock_area (used_area_of sheet) in
    record {
      stock_id = sheet.stock_id;
      stock_width = sheet.width;
      stock_height = sheet.height;
      placements = sheet.placements;
      waste_area = waste_area;
      waste_percentage = waste_ratio waste_area stock_area;
      used_area = used_area_of sheet;
    }

pub record Sums : Type 0 where
  pub total_waste_area : ℤ
  pub total_stock_area : ℕ
  pub total_used_area : ℕ

-- The three sums of the loop of `buildResults`.
unfoldable pub add_sheets : Sums → List ActiveSheet → Sums
unfolding sheet_entry
add_sheets acc [] = acc
add_sheets acc (sheet ∷ sheets) =
    add_sheets
      (record {
        total_waste_area = acc.total_waste_area +ℤ (sheet_entry sheet).waste_area;
        total_stock_area = acc.total_stock_area + sheet.width * sheet.height;
        total_used_area = acc.total_used_area + used_area_of sheet;
      })
      sheets

unfoldable pub build_results :
    List ActiveSheet → List GrainedPiece → List GrainedInput → PackingResult
unfolding add_sheets sheet_entry
build_results sheets expanded unplaced =
    let sums =
      add_sheets (record { total_waste_area = ℤ.pos 0; total_stock_area = 0; total_used_area = 0 })
        sheets in
    let results = map sheet_entry sheets in
    record {
      success = is_nil unplaced;
      sheets = results;
      total_waste_area = sums.total_waste_area;
      total_waste_percentage = waste_percentage_of sums.total_waste_area sums.total_stock_area;
      stock_used_count = length results;
      unplaced_pieces = unplaced;
      statistics = record {
        total_pieces = length expanded - sum_by (λ p. p.input.quantity) unplaced;
        total_stock_area = sums.total_stock_area;
        total_used_area = sums.total_used_area;
        efficiency = percentage sums.total_used_area sums.total_stock_area;
      };
    }
