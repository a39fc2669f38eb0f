-- ===== src/Optimize2d/Supply.antt =====
-- The result of optimize2D (2d/optimizer.ts) and the stock it was given.
use text.Mathlib.Text.{◌==◌ as str_eq}
use nestra.Prelude.{
  Anything, All-any, All-of_map, ℕ, ◌≤◌, ◌≡◌, refl, String, List, [], ◌∷◌, map, All, All-Mem, arith,
  Memᴰ, sum_by, if◌then◌else◌,
}
use nestra.Pieces.{PieceInput2d, expand_2d_pieces, sort_2d_by_area_desc}
use nestra.Stock.{StockInput2d, new_stock_2d}
use nestra.Stock.SheetBudget.{sheet_supply, new_stock_2d-le-supply}
use nestra.Sheets.{
  ActiveSheet, Options2d, create_active_sheet, add_placement, try_place_bottom_left,
}
use nestra.Sheets.BottomLeft.{place_oriented-keeps}
use nestra.Guillotine.{create_guillotine_sheet, cut_from}
use nestra.Guillotine.Layout.{try_place_guillotine-keeps}
use nestra.Fill2d.{Method, bottom_left, guillotine, start_2d}
use nestra.Fill2d.Invariant.{fill_2d-Keeps}
use nestra.Fill2d.Budgets.{
  IsLabelled, bottom_left-IsLabelled, guillotine-IsLabelled, sheets_of, fill_2d-spent,
}
use nestra.Optimize2d.{
  SheetCuttingResult, sheet_result, build_result, packed_2d, finish_2d, bottom_left_fill,
  guillotine_cutting, Algorithm2d, bottom_left_type, guillotine_type, maxrects_type, other_type,
  optimize_2d,
}
use nestra.Optimize2d.Layout.{sorted_stock-All}

-- A sheet has the id and the dimensions of a stock item.
abbrev pub IsFromStock : List StockInput2d → ActiveSheet → Type 0
IsFromStock stock b =
    (s : StockInput2d) × Memᴰ s stock
    × (b.stock_id ≡ s.id)
    × (b.width ≡ s.width)
    × (b.height ≡ s.height)

abbrev pub IsResultFrom : List StockInput2d → SheetCuttingResult → Type 0
IsResultFrom stock r =
    (s : StockInput2d) × Memᴰ s stock
    × (r.stock_id ≡ s.id)
    × (r.stock_width ≡ s.width)
    × (r.stock_height ≡ s.height)

-- Result sheets that were cut from the stock item with this id.
abbrev pub results_of : String → List SheetCuttingResult → ℕ
results_of k = sum_by (λ r. if str_eq r.stock_id k then 1 else 0)

results_of-map :
    (k : String) (sheets : List ActiveSheet)
    → results_of k (map sheet_result sheets) ≡ sheets_of k sheets
unfolding sheet_result
results_of-map k [] = refl
results_of-map k (s ∷ sheets) = omega (arith, results_of-map k sheets)

module _ (pieces : List PieceInput2d) (stock : List StockInput2d) (o : Options2d) where
  finish_2d-le-supply :
      (method : Options2d → Method)
      → IsLabelled (method o)
      → (k : String) → results_of k (finish_2d method pieces stock o).sheets ≤ sheet_supply k stock
  unfolding finish_2d build_result packed_2d start_2d
  finish_2d-le-supply method lawful k = omega (
    arith,
    results_of-map k (packed_2d method pieces stock o).active_sheets,
    fill_2d-spent (method o) lawful k o (start_2d (new_stock_2d stock))
        (sort_2d_by_area_desc (expand_2d_pieces pieces)),
    new_stock_2d-le-supply k stock,
  )

  bottom_left_fill-IsResultFrom : All (IsResultFrom stock) (bottom_left_fill pieces stock o).sheets
  unfolding bottom_left_fill finish_2d packed_2d build_result bottom_left start_2d sheet_result
      try_place_bottom_left add_placement create_active_sheet
  bottom_left_fill-IsResultFrom =
      All-of_map (IsResultFrom stock) sheet_result _
        (fill_2d-Keeps (bottom_left o) (IsFromStock stock) Anything (λ s. Memᴰ s stock)
          (λ s t p _ h e.
            place_oriented-keeps o.kerf (IsFromStock stock) (λ _ _ _ _ _ h. h) s t p _ h e)
          (λ s p _ m _. (s, m, refl, refl, refl)) o _ _ (All-any _)
          (record {
            sheets = tt;
            stock = sorted_stock-All (λ s. Memᴰ s stock) stock (All-Mem stock);
          })).sheets

  guillotine_cutting-IsResultFrom :
      All (IsResultFrom stock) (guillotine_cutting pieces stock o).sheets
  unfolding guillotine_cutting finish_2d packed_2d build_result guillotine start_2d sheet_result
      cut_from create_guillotine_sheet create_active_sheet
  guillotine_cutting-IsResultFrom =
      All-of_map (IsResultFrom stock) sheet_result _
        (fill_2d-Keeps (guillotine o) (IsFromStock stock) Anything (λ s. Memᴰ s stock)
          (λ s t p _ h e.
            try_place_guillotine-keeps o (IsFromStock stock) (λ _ _ _ _ _ _ h. h) s t p h e)
          (λ s p _ m _. (s, m, refl, refl, refl)) o _ _ (All-any _)
          (record {
            sheets = tt;
            stock = sorted_stock-All (λ s. Memᴰ s stock) stock (All-Mem stock);
          })).sheets

  -- The two halves, for each of the two ways of packing.
  bottom_left_fill_stock :
      (k : String)
      → (results_of k (bottom_left_fill pieces stock o).sheets ≤ sheet_supply k stock)
        × All (IsResultFrom stock) (bottom_left_fill pieces stock o).sheets
  bottom_left_fill_stock k = (
    unfold bottom_left_fill in finish_2d-le-supply bottom_left (bottom_left-IsLabelled o) k,
    bottom_left_fill-IsResultFrom,
  )

  guillotine_cutting_stock :
      (k : String)
      → (results_of k (guillotine_cutting pieces stock o).sheets ≤ sheet_supply k stock)
        × All (IsResultFrom stock) (guillotine_cutting pieces stock o).sheets
  guillotine_cutting_stock k = (
    unfold guillotine_cutting in finish_2d-le-supply guillotine (guillotine-IsLabelled o) k,
    guillotine_cutting-IsResultFrom,
  )

-- Whatever the algorithm, the result takes no more sheets of a stock id than the stock has units, and
-- every sheet has the id and the dimensions of a stock item.
pub optimize_2d_stock :
    (a : Algorithm2d) (pieces : List PieceInput2d) (stock : List StockInput2d) (o : Options2d)
    (k : String)
    → (results_of k (optimize_2d a pieces stock o).sheets ≤ sheet_supply k stock)
      × All (IsResultFrom stock) (optimize_2d a pieces stock o).sheets
unfolding optimize_2d
optimize_2d_stock bottom_left_type = bottom_left_fill_stock
optimize_2d_stock guillotine_type = guillotine_cutting_stock
optimize_2d_stock maxrects_type = guillotine_cutting_stock
optimize_2d_stock other_type = bottom_left_fill_stock
