-- ===== src/Cutting2d/Balance.antt =====
-- The totals of buildResults of 2d/cutting2d.ts.

use nestra.Prelude.{
  ◌+◌, ◌*◌, ◌≡◌, refl, ◌∙◌, List, [], ◌∷◌, map, length, length-eq-sum_by, sum_by, true, ◌↔◌, All,
  All-map, All-any, All-of_map, arith,
}
use nestra.Prelude.Int.{pos, sub_ℕ, sub_ℕ_add, ◌+ℤ◌}
use nestra.Sheets.{ActiveSheet}
use nestra.Optimize2d.{SheetCuttingResult, used_area_of, is_nil}
use nestra.Optimize2d.Totals.{placements_weight}
use nestra.Grained.{GrainedInput, GrainedPiece}
use nestra.Cutting2d.{sheet_entry, add_sheets, Sums, PackingResult, build_results}

-- The three sums, from any start whose waste is the difference of the other two.
add_sheets_lem :
    (sheets : List ActiveSheet) (acc : Sums)
    → acc.total_waste_area ≡ sub_ℕ acc.total_stock_area acc.total_used_area
    → let r = add_sheets acc sheets in
      (r.total_waste_area ≡ sub_ℕ r.total_stock_area r.total_used_area)
      × (r.total_stock_area ≡ acc.total_stock_area + sum_by (λ s. s.width * s.height) sheets)
      × (r.total_used_area ≡ acc.total_used_area + sum_by used_area_of sheets)
unfolding add_sheets
add_sheets_lem [] acc h = (h, omega arith, omega arith)
add_sheets_lem (s ∷ sheets) acc h =
    let next : acc.total_waste_area +ℤ (sheet_entry s).waste_area
        ≡ sub_ℕ (acc.total_stock_area + s.width * s.height) (acc.total_used_area + used_area_of s) =
      unfold sheet_entry in
      (rw h (
        sub_ℕ_add acc.total_stock_area acc.total_used_area (s.width * s.height)
          (used_area_of s))) in
    let (a, b, c) =
      add_sheets_lem sheets
        (record {
          total_waste_area = acc.total_waste_area +ℤ (sheet_entry s).waste_area;
          total_stock_area = acc.total_stock_area + s.width * s.height;
          total_used_area = acc.total_used_area + used_area_of s;
        })
        next in
    (a, omega arith, omega arith)

-- The areas of a sheet's result are those of its sheet and of its placements.
pub record IsMeasured (s : SheetCuttingResult) : Type 0 where
  pub used : s.used_area ≡ sum_by (λ p. p.width * p.height) s.placements
  pub wasted : s.waste_area ≡ sub_ℕ (s.stock_width * s.stock_height) s.used_area

-- The totals of a result agree with its sheets and with one another, and the areas of each sheet
-- with its placements.
pub record IsBalanced (r : PackingResult) : Type 0 where
  pub pieces : r.statistics.total_pieces ≡ sum_by (λ s. length s.placements) r.sheets
  pub stock_area :
      r.statistics.total_stock_area ≡ sum_by (λ s. s.stock_width * s.stock_height) r.sheets
  pub used_area : r.statistics.total_used_area ≡ sum_by (λ s. s.used_area) r.sheets
  pub waste : r.total_waste_area ≡ sub_ℕ r.statistics.total_stock_area r.statistics.total_used_area
  pub count : r.stock_used_count ≡ length r.sheets
  pub success : (r.success ≡ true) ↔ (r.unplaced_pieces ≡ [])
  pub measured : All IsMeasured r.sheets

pub build_results-IsBalanced :
    (sheets : List ActiveSheet) (expanded : List GrainedPiece) (unplaced : List GrainedInput)
    → (build_results sheets expanded unplaced).statistics.total_pieces
      ≡ placements_weight (λ _. 1) (map sheet_entry sheets)
    → IsBalanced (build_results sheets expanded unplaced)
unfolding build_results
build_results-IsBalanced sheets expanded unplaced h =
    let (waste, stock, used) =
      add_sheets_lem sheets
        (record { total_waste_area = pos 0; total_stock_area = 0; total_used_area = 0 }) refl in
    record {
      pieces = h ∙ counts (map sheet_entry sheets);
      stock_area = omega (arith, stock, areas sheets);
      used_area = omega (arith, used, uses sheets);
      waste = waste;
      count = refl;
      success = nothing_left unplaced;
      measured = All-of_map IsMeasured sheet_entry sheets (
          All-map (λ s _. unfold sheet_entry in (record { used = refl; wasted = refl })) sheets
            (All-any sheets));
    }
  where
    nothing_left : (qs : List GrainedInput) → (is_nil qs ≡ true) ↔ (qs ≡ [])
    nothing_left [] = ((λ _. refl), (λ _. refl))
    nothing_left (q ∷ qs) = ((λ h. absurd (cc)), (λ h. absurd (cc)))

    counts :
        (rs : List SheetCuttingResult)
        → placements_weight (λ _. 1) rs ≡ sum_by (λ s. length s.placements) rs
    counts [] = refl
    counts (r ∷ rs) = omega (arith, counts rs, length-eq-sum_by r.placements)

    areas :
        (sheets : List ActiveSheet)
        → sum_by (λ r. r.stock_width * r.stock_height) (map sheet_entry sheets)
          ≡ sum_by (λ s. s.width * s.height) sheets
    areas [] = refl
    areas (s ∷ sheets) = unfold sheet_entry in omega (arith, areas sheets)

    uses :
        (sheets : List ActiveSheet)
        → sum_by (λ r. r.used_area) (map sheet_entry sheets) ≡ sum_by used_area_of sheets
    uses [] = refl
    uses (s ∷ sheets) = unfold sheet_entry in omega (arith, uses sheets)
