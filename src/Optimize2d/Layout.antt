-- ===== src/Optimize2d/Layout.antt =====
-- The places of the pieces in a result of optimize2D (2d/optimizer.ts).
use nestra.Prelude.{
  ℕ, zero, suc, ◌+◌, ◌≤◌, ◌≡◌, true, false, List, [], ◌∷◌, All, All-map, All-append, All-of_map,
  Anything, All-any, All-select, All-Mem, All-of_Mem, Memᴰ,
}
use nestra.Prelude.Sorting.{All-sort_by}
use nestra.Pieces.{PieceInput2d, Piece2d, expand_2d_pieces, unit_2d, units_2d, sort_2d_by_area_desc}
use nestra.Stock.{StockInput2d, new_stock_2d, fits_either_way}
use nestra.Geometry.Separation.{Apart, IsInside, area_of, Pairwise}
use nestra.Sheets.{Options2d, rect_of}
use nestra.Sheets.BottomLeft.{
  IsSpread, IsContained, try_place_bottom_left-IsSpread, try_place_bottom_left-IsContained,
  create_active_sheet-IsSpread, create_active_sheet-IsContained,
}
use nestra.Guillotine.Layout.{
  IsParted, IsHeld, try_place_guillotine-IsParted, try_place_guillotine-IsHeld,
  create_guillotine_sheet-IsParted, create_guillotine_sheet-IsHeld,
}
use nestra.Fill2d.{bottom_left, guillotine, start_2d}
use nestra.Fill2d.Invariant.{fill_2d-Keeps}
use nestra.Optimize2d.{
  SheetCuttingResult, sheet_result, build_result, packed_2d, finish_2d, bottom_left_fill,
  guillotine_cutting, Algorithm2d, bottom_left_type, guillotine_type, maxrects_type, other_type,
  optimize_2d,
}

-- Sheets of a result: its placements are apart, and inside the sheet.
abbrev pub IsApartResult : ℕ → SheetCuttingResult → Type 0
IsApartResult kerf r = Pairwise (λ a b. Apart kerf (rect_of a) (rect_of b)) r.placements

abbrev pub IsInsideResult : SheetCuttingResult → Type 0
IsInsideResult r =
    All (λ p. IsInside (rect_of p) (area_of r.stock_width r.stock_height)) r.placements

units_2d-All {κ} :
    (P : Piece2d → Type κ) (p : PieceInput2d) (i n : ℕ)
    → ((j : ℕ) → P (unit_2d p j))
    → All P (units_2d p i n)
unfolding units_2d
units_2d-All P p i zero h = tt
units_2d-All P p i (suc n) h = (h i, units_2d-All P p (i + 1) n h)

-- What every unit of every demand has, the sorted units have.
sorted_units-All {κ} :
    (P : Piece2d → Type κ) (ps : List PieceInput2d)
    → All (λ p. (j : ℕ) → P (unit_2d p j)) ps
    → All P (sort_2d_by_area_desc (expand_2d_pieces ps))
unfolding sort_2d_by_area_desc expand_2d_pieces
sorted_units-All P ps h = All-sort_by _ P (expand_2d_pieces ps) (expanded ps h)
  where
    expanded :
        (ps : List PieceInput2d)
        → All (λ p. (j : ℕ) → P (unit_2d p j)) ps
        → All P (expand_2d_pieces ps)
    expanded [] h = tt
    expanded (p ∷ ps) h =
        All-append P (units_2d p 0 p.quantity) _ (units_2d-All P p 0 p.quantity h.0)
          (expanded ps h.1)

pub sorted_stock-All {κ} :
    (P : StockInput2d → Type κ) (stock : List StockInput2d)
    → All P stock
    → All P (new_stock_2d stock).sorted_stock
unfolding new_stock_2d
sorted_stock-All P stock h = All-sort_by _ P _ (All-select P _ stock h)

module _ (pieces : List PieceInput2d) (stock : List StockInput2d) (o : Options2d) where
  bottom_left_fill_apart : All (IsApartResult o.kerf) (bottom_left_fill pieces stock o).sheets
  unfolding bottom_left_fill finish_2d packed_2d build_result bottom_left start_2d sheet_result
  bottom_left_fill_apart =
      All-of_map (IsApartResult o.kerf) sheet_result _
        (fill_2d-Keeps (bottom_left o) (IsSpread o.kerf) Anything Anything
          (λ s t p _ h e. try_place_bottom_left-IsSpread o s t p h e)
          (λ s p _ _ _. create_active_sheet-IsSpread o.kerf s.id s.width s.height p false) o _ _
          (All-any _) (record { sheets = tt; stock = All-any _ })).sheets

  guillotine_cutting_apart : All (IsApartResult o.kerf) (guillotine_cutting pieces stock o).sheets
  unfolding guillotine_cutting finish_2d packed_2d build_result guillotine start_2d sheet_result
  guillotine_cutting_apart = All-of_map (IsApartResult o.kerf) sheet_result _ (
      All-map (λ s p. p.spread) _
        (fill_2d-Keeps (guillotine o) (IsParted o.kerf) Anything Anything
          (λ s t p _ h e. try_place_guillotine-IsParted o s t p h e)
          (λ s p _ _ _. create_guillotine_sheet-IsParted o.kerf s.id s.width s.height p false) o _ _
          (All-any _) (record { sheets = tt; stock = All-any _ })).sheets)

-- Whatever the algorithm, a blade as wide as the kerf can part any two placements of a sheet: on one
-- of the axes one of them ends, with a kerf to spare, before the other begins.
pub optimize_2d_apart :
    (a : Algorithm2d) (pieces : List PieceInput2d) (stock : List StockInput2d) (o : Options2d)
    → All (IsApartResult o.kerf) (optimize_2d a pieces stock o).sheets
unfolding optimize_2d
optimize_2d_apart bottom_left_type = bottom_left_fill_apart
optimize_2d_apart guillotine_type = guillotine_cutting_apart
optimize_2d_apart maxrects_type = guillotine_cutting_apart
optimize_2d_apart other_type = bottom_left_fill_apart

-- A stock item that takes the piece at all takes it as given.
abbrev pub IsUpright : PieceInput2d → StockInput2d → Type 0
IsUpright p s =
    fits_either_way s p.width p.height ≡ true → (p.width ≤ s.width) × (p.height ≤ s.height)

-- The same of an expanded unit and all the stock.
abbrev pub IsUprightUnit : List StockInput2d → Piece2d → Type 0
IsUprightUnit stock q =
    All
      (λ s. fits_either_way s q.width q.height ≡ true → (q.width ≤ s.width) × (q.height ≤ s.height))
      stock

units_fit :
    (pieces : List PieceInput2d) (stock : List StockInput2d)
    → All (λ p. All (IsUpright p) stock) pieces
    → All (IsUprightUnit stock) (sort_2d_by_area_desc (expand_2d_pieces pieces))
units_fit pieces stock h =
    sorted_units-All (IsUprightUnit stock) pieces (All-map (λ p u j. u) pieces h)

module _ (pieces : List PieceInput2d) (stock : List StockInput2d) (o : Options2d)
    (upright : All (λ p. All (IsUpright p) stock) pieces) where
  bottom_left_fill_inside : All IsInsideResult (bottom_left_fill pieces stock o).sheets
  unfolding bottom_left_fill finish_2d packed_2d build_result bottom_left start_2d sheet_result
  bottom_left_fill_inside =
      All-of_map IsInsideResult sheet_result _
        (fill_2d-Keeps (bottom_left o) IsContained (IsUprightUnit stock) (λ s. Memᴰ s stock)
          (λ s t p _ h e. try_place_bottom_left-IsContained o s t p h e)
          (λ s p u m e.
            let (narrow, low) =
              All-of_Mem
                (λ s.
                  fits_either_way s p.width p.height ≡ true
                  → (p.width ≤ s.width) × (p.height ≤ s.height))
                stock u m e in
            create_active_sheet-IsContained s.id s.width s.height p narrow low)
          o _ _ (units_fit pieces stock upright)
          (record {
            sheets = tt;
            stock = sorted_stock-All (λ s. Memᴰ s stock) stock (All-Mem stock);
          })).sheets

  guillotine_cutting_inside : All IsInsideResult (guillotine_cutting pieces stock o).sheets
  unfolding guillotine_cutting finish_2d packed_2d build_result guillotine start_2d sheet_result
  guillotine_cutting_inside = All-of_map IsInsideResult sheet_result _ (
      All-map (λ s p. p.placed) _
        (fill_2d-Keeps (guillotine o) IsHeld (IsUprightUnit stock) (λ s. Memᴰ s stock)
          (λ s t p _ h e. try_place_guillotine-IsHeld o s t p h e)
          (λ s p u m e.
            let (narrow, low) =
              All-of_Mem
                (λ s.
                  fits_either_way s p.width p.height ≡ true
                  → (p.width ≤ s.width) × (p.height ≤ s.height))
                stock u m e in
            create_guillotine_sheet-IsHeld o.kerf s.id s.width s.height p narrow low)
          o _ _ (units_fit pieces stock upright)
          (record {
            sheets = tt;
            stock = sorted_stock-All (λ s. Memᴰ s stock) stock (All-Mem stock);
          })).sheets)

-- Whatever the algorithm, if each stock item that takes a piece either way round takes it as given,
-- every placement lies inside its sheet.
pub optimize_2d_inside :
    (a : Algorithm2d) (pieces : List PieceInput2d) (stock : List StockInput2d) (o : Options2d)
    → All (λ p. All (IsUpright p) stock) pieces
    → All IsInsideResult (optimize_2d a pieces stock o).sheets
unfolding optimize_2d
optimize_2d_inside bottom_left_type = bottom_left_fill_inside
optimize_2d_inside guillotine_type = guillotine_cutting_inside
optimize_2d_inside maxrects_type = guillotine_cutting_inside
optimize_2d_inside other_type = bottom_left_fill_inside
