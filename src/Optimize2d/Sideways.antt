-- ===== src/Optimize2d/Sideways.antt =====
-- optimize2D (2d/optimizer.ts) on a piece that fits its sheet only on its side: the stock manager
-- is asked whether a sheet takes the piece either way round, and the caller does not ask which
-- way it was.
use text.Mathlib.TextEquality.{eq_iff}
use nestra.Prelude.{All, ◌≤◌, ◌<◌, ◌≡◌, refl, false, List, [], ◌∷◌, some, arith, lt→ltb}
use nestra.Prelude.Dict.{lookup, insert}
use nestra.Prelude.Sorting.{sort_by}
use nestra.Pieces.{PieceInput2d, unit_2d, units_2d, expand_2d_pieces, sort_2d_by_area_desc}
use nestra.Stock.{
  StockInput2d, new_stock_2d, init_usage_2d, remaining_of, find_in_2d, find_available_stock_2d,
}
use nestra.Sheets.{Options2d, create_active_sheet}
use nestra.Guillotine.{create_guillotine_sheet}
use nestra.Fill2d.{bottom_left, guillotine, start_2d, fill_2d, place_2d, try_sheets, open_new_sheet}
use nestra.Fill2d.Invariant.{open_oriented_lem}
use nestra.Optimize2d.Layout.{IsInsideResult}
use nestra.Optimize2d.{
  SheetCuttingResult, sheet_result, build_result, packed_2d, finish_2d, bottom_left_fill,
  guillotine_cutting, Algorithm2d, bottom_left_type, guillotine_type, maxrects_type, other_type,
  optimize_2d,
}

module _ (p : PieceInput2d) (s : StockInput2d) (o : Options2d) (one : p.quantity ≡ 1)
    (left : 0 < s.available) (narrow : p.height ≤ s.width) (low : p.width ≤ s.height) where
  one_unit : sort_2d_by_area_desc (expand_2d_pieces (p ∷ [])) ≡ unit_2d p 0 ∷ []
  unfolding sort_2d_by_area_desc expand_2d_pieces units_2d sort_by
  one_unit = rw one refl

  one_sheet : find_available_stock_2d (new_stock_2d (s ∷ [])) p.width p.height ≡ some s
  unfolding find_available_stock_2d find_in_2d new_stock_2d init_usage_2d remaining_of sort_by
      lookup insert
  one_sheet = rw (lt→ltb 0 s.available left) (ground (arith, eq_iff s.id s.id))

  -- The one sheet of the run has one placement.
  abbrev one_result : List SheetCuttingResult
  one_result = sheet_result (create_active_sheet s.id s.width s.height (unit_2d p 0) false) ∷ []

  bottom_left_fill_sideways : (bottom_left_fill (p ∷ []) (s ∷ []) o).sheets ≡ one_result
  unfolding bottom_left_fill finish_2d packed_2d build_result sheet_result bottom_left start_2d
      fill_2d place_2d try_sheets open_new_sheet create_active_sheet
  bottom_left_fill_sideways =
      rw
        (
          one_unit,
          fill_2d,
          place_2d,
          open_new_sheet,
          open_oriented_lem (bottom_left o) (new_stock_2d (s ∷ [])) (unit_2d p 0) o.allow_rotation,
          one_sheet,
        )
        refl

  guillotine_cutting_sideways : (guillotine_cutting (p ∷ []) (s ∷ []) o).sheets ≡ one_result
  unfolding guillotine_cutting finish_2d packed_2d build_result sheet_result guillotine start_2d
      fill_2d place_2d try_sheets open_new_sheet create_active_sheet create_guillotine_sheet
  guillotine_cutting_sideways =
      rw
        (
          one_unit,
          fill_2d,
          place_2d,
          open_new_sheet,
          open_oriented_lem (guillotine o) (new_stock_2d (s ∷ [])) (unit_2d p 0) o.allow_rotation,
          one_sheet,
        )
        refl

-- The one placement of `one_result` is not inside.
one_result-outside :
    (p : PieceInput2d) (s : StockInput2d)
    → s.width < p.width
    → ¬ All IsInsideResult
        (sheet_result (create_active_sheet s.id s.width s.height (unit_2d p 0) false) ∷ [])
unfolding sheet_result create_active_sheet
one_result-outside p s wide h = absurd (omega (arith, h.0.0.right))

-- Whatever the algorithm, and whether or not the piece may be turned: a single piece that is wider
-- than the only stock item but fits in it on its side is laid as given, and the result has a
-- placement that is not inside its sheet.
pub optimize_2d_sideways :
    (a : Algorithm2d) (p : PieceInput2d) (s : StockInput2d) (o : Options2d)
    → p.quantity ≡ 1
    → 0 < s.available
    → p.height ≤ s.width
    → p.width ≤ s.height
    → s.width < p.width
    → ¬ All IsInsideResult (optimize_2d a (p ∷ []) (s ∷ []) o).sheets
unfolding optimize_2d
optimize_2d_sideways bottom_left_type p s o one left narrow low wide =
    rw (bottom_left_fill_sideways p s o one left narrow low) (one_result-outside p s wide)
optimize_2d_sideways guillotine_type p s o one left narrow low wide =
    rw (guillotine_cutting_sideways p s o one left narrow low) (one_result-outside p s wide)
optimize_2d_sideways maxrects_type p s o one left narrow low wide =
    rw (guillotine_cutting_sideways p s o one left narrow low) (one_result-outside p s wide)
optimize_2d_sideways other_type p s o one left narrow low wide =
    rw (bottom_left_fill_sideways p s o one left narrow low) (one_result-outside p s wide)
