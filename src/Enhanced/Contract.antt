-- ===== src/Enhanced/Contract.antt =====
-- What a caller of `optimize2D` of 2d/cutting2d.ts relies on, whichever algorithm it names.
use nestra.Prelude.{ℕ, List, All, All-map, arith}
use nestra.Geometry.Separation.{Pairwise-map}
use nestra.Stock.{StockInput2d}
use nestra.Optimize2d.{SheetCuttingResult}
use nestra.Optimize2d.Layout.{IsApartResult, IsInsideResult}
use nestra.Grained.{GrainedInput}
use nestra.Cutting2d.{PackingResult}
use nestra.Cutting2d.Places.{IsLaidOut, strategies-IsLaidOut}
use nestra.Cutting2d.Results.{IsSettled, strategies-IsSettled}
use nestra.Enhanced.{
  CuttingAlgorithm, CuttingOptions, bottom_left_type, guillotine_type, maxrects_type, other_type,
  sheet_options, enhanced_options, dispatch, optimize_2d,
}
use nestra.Enhanced.Places.{HasAreaInput, optimize_2d_enhanced_layout}
use nestra.Enhanced.Totals.{IsPlain, optimize_2d_enhanced-IsSettled}

-- A cutting plan: pieces that do not overlap and lie in their sheets, in the amounts asked for, from
-- the stock at hand.
pub record IsCuttingPlan (pieces : List GrainedInput) (stock : List StockInput2d)
    (r : PackingResult) : Type 0 where
  pub placed : All (λ s. IsApartResult 0 s × IsInsideResult s) r.sheets
  pub settled : IsSettled pieces stock r

-- With a kerf to spare, rectangles are apart.
without_kerf :
    (kerf : ℕ) (rs : List SheetCuttingResult)
    → All (IsLaidOut kerf) rs
    → All (λ s. IsApartResult 0 s × IsInsideResult s) rs
without_kerf kerf = All-map (λ s h. (Pairwise-map (λ a b k. ground arith) s.placements h.0, h.1))

dispatch-IsCuttingPlan :
    (a : CuttingAlgorithm) (pieces : List GrainedInput) (stock : List StockInput2d)
    (o : CuttingOptions)
    → All HasAreaInput pieces
    → All (λ p. IsPlain p.input.id) pieces
    → IsCuttingPlan pieces stock (dispatch a pieces stock o)
unfolding dispatch
dispatch-IsCuttingPlan bottom_left_type pieces stock o h k = record {
  placed = without_kerf o.kerf _ (strategies-IsLaidOut pieces stock (sheet_options o)).0;
  settled = (strategies-IsSettled pieces stock (sheet_options o)).0;
}
dispatch-IsCuttingPlan guillotine_type pieces stock o h k = record {
  placed = without_kerf o.kerf _ (strategies-IsLaidOut pieces stock (sheet_options o)).1;
  settled = (strategies-IsSettled pieces stock (sheet_options o)).1;
}
dispatch-IsCuttingPlan maxrects_type pieces stock o h k = record {
  placed = optimize_2d_enhanced_layout pieces stock (enhanced_options o) h;
  settled = optimize_2d_enhanced-IsSettled pieces stock (enhanced_options o) k;
}
dispatch-IsCuttingPlan other_type pieces stock o h k = record {
  placed = without_kerf o.kerf _ (strategies-IsLaidOut pieces stock (sheet_options o)).0;
  settled = (strategies-IsSettled pieces stock (sheet_options o)).0;
}

-- If every piece asked for has an area and no id has an underscore in it, then whichever algorithm
-- the options name, the result is a cutting plan: no two placements of a sheet overlap, each lies
-- inside its sheet, for every id the placements and the unplaced units add up to the quantity asked
-- for, the sheets taken of a stock id are at most its units, and the totals agree with the sheets.
pub optimize_2d-IsCuttingPlan :
    (pieces : List GrainedInput) (stock : List StockInput2d) (o : CuttingOptions)
    → All HasAreaInput pieces
    → All (λ p. IsPlain p.input.id) pieces
    → IsCuttingPlan pieces stock (optimize_2d pieces stock o)
unfolding optimize_2d
optimize_2d-IsCuttingPlan pieces stock o h k = dispatch-IsCuttingPlan o.algorithm pieces stock o h k
