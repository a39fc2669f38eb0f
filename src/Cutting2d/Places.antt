-- ===== src/Cutting2d/Places.antt =====
-- The places of the pieces in a result of 2d/cutting2d.ts.
use nestra.Prelude.{
  ℕ, ◌≤◌, ◌≡◌, subst, List, All, All-map, All-of_map, Anything, All-any, arith, some, false,
}
use nestra.Geometry.{Orientation}
use nestra.Geometry.Separation.{area_of}
use nestra.Stock.{StockInput2d}
use nestra.Sheets.{ActiveSheet, Options2d}
use nestra.Sheets.BottomLeft.{
  IsSpread, IsContained, add_placement-IsSpread, add_placement-IsContained,
}
use nestra.Guillotine.Regions.{split-Pairwise, split-Apart, split-IsInside}
use nestra.Guillotine.Layout.{IsParted, IsHeld, cut_from-IsParted, cut_from-IsHeld}
use nestra.Optimize2d.{SheetCuttingResult}
use nestra.Optimize2d.Layout.{IsApartResult, IsInsideResult}
use nestra.Grained.{GrainedInput, GrainedPiece, orientations_of}
use nestra.Packing.Invariant.{pack-keeps}
use nestra.Cutting2d.Agreement.{initial_splits-eq}
use nestra.Cutting2d.{
  new_sheet_bl, initialize_guillotine_sheet, bottom_left_calls, guillotine_calls,
  try_create_new_sheet_bl, try_create_new_sheet_guillotine, sheet_entry, build_results, packed,
  sort_available, sorted_pieces, finish, bottom_left_fill, guillotine_cutting,
}
use nestra.Cutting2d.Sheet.{open_from-IsOpened, bottom_left_calls-keeps, guillotine_calls-keeps}

module _ (p : GrainedPiece) (s : StockInput2d) (o : Orientation) where
  new_sheet_bl-IsContained :
      o.width ≤ s.width → o.height ≤ s.height → IsContained (new_sheet_bl p s o)
  unfolding new_sheet_bl
  new_sheet_bl-IsContained narrow low = (
    record { left = omega arith; bottom = omega arith; right = omega arith; top = omega arith },
    tt,
  )

  initialize_guillotine_sheet-IsParted :
      (kerf : ℕ) → IsParted kerf (initialize_guillotine_sheet kerf p s o)
  unfolding initialize_guillotine_sheet new_sheet_bl
  initialize_guillotine_sheet-IsParted kerf =
      let e = initial_splits-eq s o kerf in
      record {
        spread = (tt, tt);
        free = rw e (split-Pairwise (area_of s.width s.height) o.width o.height kerf);
        cross = rw e (split-Apart (area_of s.width s.height) o.width o.height kerf, tt);
      }

  initialize_guillotine_sheet-IsHeld :
      (kerf : ℕ)
      → o.width ≤ s.width
      → o.height ≤ s.height
      → IsHeld (initialize_guillotine_sheet kerf p s o)
  unfolding initialize_guillotine_sheet new_sheet_bl
  initialize_guillotine_sheet-IsHeld kerf narrow low = record {
    placed = (
      record { left = omega arith; bottom = omega arith; right = omega arith; top = omega arith },
      tt,
    );
    free =
        rw (initial_splits-eq s o kerf)
          (split-IsInside (area_of s.width s.height) o.width o.height kerf narrow low);
  }

-- What a new sheet has, and what the loops keep, all sheets of the result have.
module _ {κ} (o : Options2d) (P : ActiveSheet → Type κ) (pieces : List GrainedInput)
    (stock : List StockInput2d) where
  bottom_left_fill-All :
      ((sheets written : List ActiveSheet) (p : GrainedPiece)
        → All P sheets
        → (bottom_left_calls (sort_available stock) o).try_existing sheets p ≡ some written
        → All P written)
      → ((p : GrainedPiece) (s : StockInput2d) (r : Orientation)
          → r.width ≤ s.width
          → r.height ≤ s.height
          → P (new_sheet_bl p s r))
      → All P (packed bottom_left_calls pieces stock o).active_sheets
  unfolding packed bottom_left_calls try_create_new_sheet_bl
  bottom_left_fill-All keep new =
      pack-keeps (bottom_left_calls (sort_available stock) o) P Anything Anything
        (λ sheets written p _ h e. keep sheets written p h e)
        (λ u v p s _ _ e.
          let i =
            open_from-IsOpened (new_sheet_bl p) u (orientations_of p o.allow_rotation false)
              (sort_available stock) s v e in
          (subst P i.made (new p i.item i.orient i.narrow i.low), tt))
        _ (sorted_pieces pieces) (All-any (sorted_pieces pieces)) tt tt

  guillotine_cutting-All :
      ((sheets written : List ActiveSheet) (p : GrainedPiece)
        → All P sheets
        → (guillotine_calls (sort_available stock) o).try_existing sheets p ≡ some written
        → All P written)
      → ((p : GrainedPiece) (s : StockInput2d) (r : Orientation)
          → r.width ≤ s.width
          → r.height ≤ s.height
          → P (initialize_guillotine_sheet o.kerf p s r))
      → All P (packed guillotine_calls pieces stock o).active_sheets
  unfolding packed guillotine_calls try_create_new_sheet_guillotine
  guillotine_cutting-All keep new =
      pack-keeps (guillotine_calls (sort_available stock) o) P Anything Anything
        (λ sheets written p _ h e. keep sheets written p h e)
        (λ u v p s _ _ e.
          let i =
            open_from-IsOpened (initialize_guillotine_sheet o.kerf p) u
              (orientations_of p o.allow_rotation false) (sort_available stock) s v e in
          (subst P i.made (new p i.item i.orient i.narrow i.low), tt))
        _ (sorted_pieces pieces) (All-any (sorted_pieces pieces)) tt tt

-- Both of the result's bounds, for one sheet.
abbrev pub IsLaidOut : ℕ → SheetCuttingResult → Type 0
IsLaidOut kerf r = IsApartResult kerf r × IsInsideResult r

-- In a result of the bottom-left and of the guillotine strategy every placement lies inside its
-- sheet, with no condition on the stock, and a blade as wide as the kerf can part any two
-- placements of a sheet.
pub strategies-IsLaidOut :
    (pieces : List GrainedInput) (stock : List StockInput2d) (o : Options2d)
    → All (IsLaidOut o.kerf) (bottom_left_fill pieces stock o).sheets
      × All (IsLaidOut o.kerf) (guillotine_cutting pieces stock o).sheets
unfolding bottom_left_fill guillotine_cutting finish build_results sheet_entry
strategies-IsLaidOut pieces stock o = (
  All-of_map (IsLaidOut o.kerf) sheet_entry _ (
      bottom_left_fill-All o (λ s. IsSpread o.kerf s × IsContained s) pieces stock
        (bottom_left_calls-keeps (sort_available stock) o (λ s. IsSpread o.kerf s × IsContained s)
          (λ s p pos r e h. (
            add_placement-IsSpread o.kerf s p pos r e h.0,
            add_placement-IsContained o.kerf s p pos r e h.1,
          )))
        (λ p s r narrow low.
          (unfold new_sheet_bl in (tt, tt), new_sheet_bl-IsContained p s r narrow low))),
  All-of_map (IsLaidOut o.kerf) sheet_entry _ (
      All-map (λ s h. (h.0.spread, h.1.placed)) _
        (guillotine_cutting-All o (λ s. IsParted o.kerf s × IsHeld s) pieces stock
          (guillotine_calls-keeps (sort_available stock) o (λ s. IsParted o.kerf s × IsHeld s)
            (λ s p rs f r a h.
              (cut_from-IsParted o s p rs f r a h.0, cut_from-IsHeld o s p rs f r a h.1)))
          (λ p s r narrow low. (
            initialize_guillotine_sheet-IsParted p s r o.kerf,
            initialize_guillotine_sheet-IsHeld p s r o.kerf narrow low,
          )))),
)
