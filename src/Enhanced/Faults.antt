-- ===== src/Enhanced/Faults.antt =====
-- Inputs on which 2d/enhanced-optimizer.ts does not do what it means to.

use text.Mathlib.TextEquality.{eq_iff}
use nestra.Prelude.{
  ◌*◌, ◌<◌, ◌≤◌, ◌≡◌, ◌⊎◌, refl, inl, inr, true, false, ◌&&◌, [], ◌∷◌, map, none, some, arith,
  Bool-cases,
}
use nestra.Prelude.Sorting.{sort_by, insert_by}
use nestra.Prelude.Dict.{insert}
use nestra.Geometry.{as_given, turned, get_orientations, has_grain}
use nestra.Stock.{StockInput2d, remaining_of, init_usage_2d, find_in_2d}
use nestra.Stock.Budget.{remaining_of-insert}
use nestra.FreeRects.{min}
use nestra.Grained.{
  GrainedInput, GrainedPiece, unit_of, units_of, expand_pieces, orientations_of, add_unplaced,
}
use nestra.Packing.{pack, place, write_first}
use nestra.Cutting2d.{fitting, sheet_entry, build_results}
use nestra.MaxRects.{
  select_best_sheet, search_sheets, initialize_max_rects_sheet, place_piece_max_rects,
  create_max_rects_sheet,
}
use nestra.Enhanced.{
  EnhancedOptions, sort_pieces, ordered_pieces, sorted_stocks, find_available, shorter_side,
  opening_orientations, try_active_sheets, open_new_sheet, calls, packed_enhanced,
  optimize_enhanced_2d, entry_of, before_underscore,
}
use nestra.Enhanced.Totals.{IsPlain}
use nestra.Optimize2d.Totals.{only}
use nestra.Cutting2d.Results.{unplaced_weight}

one_unit :
    (p : GrainedInput) (o : EnhancedOptions)
    → p.input.quantity ≡ 1
    → ordered_pieces (p ∷ []) o ≡ unit_of p 0 ∷ []
unfolding ordered_pieces sort_pieces expand_pieces units_of sort_by
one_unit p o one = rw one refl

-- The first piece finds no sheet in use.
no_sheets : (o : EnhancedOptions) (p : GrainedPiece) → try_active_sheets o [] p ≡ none
unfolding try_active_sheets select_best_sheet search_sheets write_first
no_sheets o p = refl

-- The piece fits in the item neither way round.
abbrev pub IsTooLong : GrainedInput → StockInput2d → Type 0
IsTooLong p s =
    ((s.width < p.input.width) ⊎ (s.height < p.input.height))
    × ((s.width < p.input.height) ⊎ (s.height < p.input.width))

fitting-IsTooLong :
    (p : GrainedInput) (s : StockInput2d) (o : EnhancedOptions)
    → IsTooLong p s
    → fitting s (opening_orientations o (unit_of p 0)) ≡ none
unfolding fitting
fitting-IsTooLong p s o (h, k) = elim (Bool-cases (o.allow_rotation && p.input.can_rotate)) [
  | inl e ↦ rw e (ground arith)
  | inr e ↦ rw e (ground arith)
]

module _ (p : GrainedInput) (s t : StockInput2d) (o : EnhancedOptions) (left : 0 < s.available)
    (other : 0 < t.available) (larger : t.width * t.height ≤ s.width * s.height)
    (narrow : min p.input.width p.input.height ≤ s.width)
    (low : min p.input.width p.input.height ≤ s.height) where
  both_left : 0 < remaining_of (init_usage_2d (s ∷ t ∷ []) []) s.id
  unfolding init_usage_2d
  both_left = ground (
    arith,
    remaining_of-insert (insert s.id s.available []) t.id s.id t.available,
    remaining_of-insert [] s.id s.id s.available,
    eq_iff s.id s.id,
  )

  first_found :
      find_available
        (sorted_stocks (s ∷ t ∷ []))
        (init_usage_2d (s ∷ t ∷ []) [])
        (shorter_side (unit_of p 0))
        (shorter_side (unit_of p 0))
      ≡ some s
  unfolding find_available find_in_2d sorted_stocks sort_by insert_by
  first_found = ground (arith, both_left, larger, narrow, low)

-- The search for a sheet asks for room for a square of the shorter side. If the larger of two stock
-- items has that room and the piece itself does not fit in it, the piece stays unplaced, whatever the
-- other item is.
pub optimize_enhanced_2d_overlooked :
    (p : GrainedInput) (s t : StockInput2d) (o : EnhancedOptions)
    → p.input.quantity ≡ 1
    → 0 < s.available
    → 0 < t.available
    → t.width * t.height ≤ s.width * s.height
    → min p.input.width p.input.height ≤ s.width
    → min p.input.width p.input.height ≤ s.height
    → IsTooLong p s
    → ((optimize_enhanced_2d (p ∷ []) (s ∷ t ∷ []) o).success ≡ false)
      × ((optimize_enhanced_2d (p ∷ []) (s ∷ t ∷ []) o).sheets ≡ [])
unfolding optimize_enhanced_2d packed_enhanced calls pack place open_new_sheet add_unplaced
    build_results
optimize_enhanced_2d_overlooked p s t o one left other larger narrow low long =
    rw
      (
        one_unit p o one,
        pack,
        place,
        no_sheets o (unit_of p 0),
        open_new_sheet,
        first_found p s t o left other larger narrow low,
        fitting-IsTooLong p s o long,
      )
      (refl, refl)

module _ (p : GrainedInput) (s : StockInput2d) (o : EnhancedOptions) (left : 0 < s.available)
    (narrow : p.input.height ≤ s.width) (low : p.input.width ≤ s.height)
    (wide : s.width < p.input.width) where
  only_found :
      find_available
        (sorted_stocks (s ∷ []))
        (init_usage_2d (s ∷ []) [])
        (shorter_side (unit_of p 0))
        (shorter_side (unit_of p 0))
      ≡ some s
  unfolding find_available find_in_2d sorted_stocks sort_by init_usage_2d
  only_found =
      ground
        (arith, remaining_of-insert [] s.id s.id s.available, eq_iff s.id s.id, left, narrow, low)

  fitting_turned :
      o.allow_rotation ≡ true
      → p.input.can_rotate ≡ true
      → fitting s (opening_orientations o (unit_of p 0))
        ≡ some (turned p.input.width p.input.height)
  unfolding fitting
  fitting_turned a c = rw (a, c) (ground arith)

-- Where the grain is to be respected and a piece has a grain, `getOrientations` allows the piece as
-- given only; yet if the piece fits in the only stock item on its side, not as given, then the
-- result has one sheet with one placement, which is turned.
pub optimize_enhanced_2d_against_grain :
    (p : GrainedInput) (s : StockInput2d) (o : EnhancedOptions)
    → p.input.quantity ≡ 1
    → p.input.can_rotate ≡ true
    → has_grain p.grain ≡ true
    → o.allow_rotation ≡ true
    → o.respect_grain_direction ≡ true
    → 0 < s.available
    → p.input.height ≤ s.width
    → p.input.width ≤ s.height
    → s.width < p.input.width
    → (orientations_of (unit_of p 0) o.allow_rotation o.respect_grain_direction
        ≡ as_given p.input.width p.input.height ∷ [])
      × (map
            (λ r. map (λ c. c.rotated) r.placements)
            (optimize_enhanced_2d (p ∷ []) (s ∷ []) o).sheets
          ≡ (true ∷ []) ∷ [])
unfolding orientations_of get_orientations optimize_enhanced_2d packed_enhanced calls pack place
    open_new_sheet build_results sheet_entry initialize_max_rects_sheet create_max_rects_sheet
    place_piece_max_rects
optimize_enhanced_2d_against_grain p s o one c g a r left narrow low wide = (
  rw (r, g) (ground arith),
  rw
      (
        one_unit p o one,
        pack,
        place,
        no_sheets o (unit_of p 0),
        open_new_sheet,
        only_found p s o left narrow low wide,
        fitting_turned p s o left narrow low wide a c,
      )
      refl,
)

-- With no stock, the unplaced report of a demand whose id has an underscore in it has no unit of
-- that id.
pub optimize_enhanced_2d_misnamed :
    (p : GrainedInput) (o : EnhancedOptions)
    → p.input.quantity ≡ 1
    → ¬ IsPlain p.input.id
    → unplaced_weight (only p.input.id) (optimize_enhanced_2d (p ∷ []) [] o).unplaced_pieces ≡ 0
unfolding optimize_enhanced_2d packed_enhanced calls pack place open_new_sheet add_unplaced
    build_results entry_of find_available find_in_2d sorted_stocks sort_by
optimize_enhanced_2d_misnamed p o one other =
    rw (one_unit p o one, pack, place, no_sheets o (unit_of p 0), open_new_sheet)
      (ground (arith, eq_iff (before_underscore p.input.id) p.input.id, other))
