-- ===== src/Enhanced/Places.antt =====
-- The places of the pieces in a result of 2d/enhanced-optimizer.ts.
use nestra.Prelude.{
  ℕ, ◌≤◌, ◌<◌, ◌≡◌, refl, inl, inr, Bool, true, false, ◌&&◌, List, some, some-injective, subst, ap,
  modify, All, All-map, All-modify, All-of_map, All-of_Mem, Memᴰ, arith, Anything, All-get,
  get_elem?, Bool-cases, Option-cases,
}
use nestra.Prelude.Sorting.{All-sort_by}
use nestra.Geometry.{Orientation}
use nestra.Stock.{StockInput2d, Usage}
use nestra.Optimize2d.Layout.{IsApartResult, IsInsideResult}
use nestra.Grained.{GrainedInput, GrainedPiece, expand_pieces}
use nestra.Grained.Totals.{expand_pieces-All}
use nestra.Packing.Invariant.{pack-keeps}
use nestra.Cutting2d.{fitting, sheet_entry, build_results}
use nestra.Cutting2d.Sheet.{fitting_lem}
use nestra.MaxRects.{
  MaxRectsSheet, PlacementCandidate, candidate_for, corner_candidate, place_piece_max_rects,
  initialize_max_rects_sheet, select_best_sheet,
}
use nestra.MaxRects.Sheet.{
  IsPacked, HasAreaPiece, initialize_max_rects_sheet-IsPacked, candidate_for-IsPacked,
}
use nestra.MaxRects.Sheet.Selection.{select_best_sheet-IsChosen, select_best_sheet_complete}
use nestra.Enhanced.{
  EnhancedOptions, max_rects_options, shorter_side, opening_orientations, find_available, consume,
  try_active_sheets, open_new_sheet, calls, ordered_pieces, sort_pieces, sorted_stocks, as_active,
  packed_enhanced, optimize_enhanced_2d, PartialOptions, with_defaults, optimize_2d_enhanced,
}

-- The sheet that strategies 1 and 2 write to is the one that was selected.
pub record IsWritten (o : EnhancedOptions) (p : GrainedPiece) (sheets written : List MaxRectsSheet)
    : Type 0 where
  pub index : ℕ
  pub sheet : MaxRectsSheet
  pub candidate : PlacementCandidate
  pub at_index : get_elem? sheets index ≡ some sheet
  pub chosen : candidate_for sheet p (max_rects_options o) ≡ some candidate
  pub result : modify (λ s. place_piece_max_rects s p candidate o.kerf) sheets index ≡ written

pub try_active_sheets-IsWritten :
    (o : EnhancedOptions) (p : GrainedPiece) (sheets written : List MaxRectsSheet)
    → try_active_sheets o sheets p ≡ some written
    → IsWritten o p sheets written
unfolding try_active_sheets
try_active_sheets-IsWritten o p sheets written e =
    elim (Option-cases (select_best_sheet sheets p (max_rects_options o))) [
      | inl f ↦
          let none_written = select_best_sheet_complete sheets p (max_rects_options o) f in
          absurd (ground (arith, rw (f, try_active_sheets) at e, none_written))
      | inr ((i, c), f) ↦
          let (s, g, h) = select_best_sheet-IsChosen sheets p (max_rects_options o) i c f in
          record {
            index = i;
            sheet = s;
            candidate = c;
            at_index = g;
            chosen = h;
            result = some-injective _ _ (rw (f, try_active_sheets) at e);
          }
    ]

-- How strategy 3 makes a sheet.
pub record IsOpening (stocks : List StockInput2d) (o : EnhancedOptions) (u v : Usage)
    (p : GrainedPiece) (sheet : MaxRectsSheet) : Type 0 where
  pub item : StockInput2d
  pub orient : Orientation
  pub found : find_available stocks u (shorter_side p) (shorter_side p) ≡ some item
  pub permitted : Memᴰ orient (opening_orientations o p)
  pub narrow : orient.width ≤ item.width
  pub low : orient.height ≤ item.height
  pub made :
      initialize_max_rects_sheet item.id item.width item.height p orient.rotated o.kerf ≡ sheet
  pub taken : consume u item.id ≡ v

pub open_new_sheet-IsOpening :
    (stocks : List StockInput2d) (o : EnhancedOptions) (u v : Usage) (p : GrainedPiece)
    (sheet : MaxRectsSheet)
    → open_new_sheet stocks o u p ≡ some (sheet, v)
    → IsOpening stocks o u v p sheet
unfolding open_new_sheet
open_new_sheet-IsOpening stocks o u v p sheet e =
    elim (Option-cases (find_available stocks u (shorter_side p) (shorter_side p))) [
      | inl f ↦ absurd (ground arith)
      | inr (s, f) ↦ elim (Option-cases (fitting s (opening_orientations o p))) [
        | inl g ↦ absurd (ground (arith, rw (f, open_new_sheet, g) at e))
        | inr (r, g) ↦
            let (m, narrow, low) = fitting_lem s (opening_orientations o p) r g in
            let pair = some-injective _ _ (rw (f, open_new_sheet, g) at e) in
            record {
              item = s;
              orient = r;
              found = f;
              permitted = m;
              narrow = narrow;
              low = low;
              made = ap (λ z. z.0) pair;
              taken = ap (λ z. z.1) pair;
            }
      ]
    ]

-- The first candidate of a sheet has the dimensions of the orientation, whichever it is.
pub IsOpening-corner :
    (o : EnhancedOptions) (p : GrainedPiece)
    → All
        (λ r.
          ((corner_candidate p r.rotated).width ≡ r.width)
          × ((corner_candidate p r.rotated).height ≡ r.height))
        (opening_orientations o p)
IsOpening-corner o p = elim (Bool-cases (o.allow_rotation && p.piece.can_rotate)) [
  | inl e ↦ rw e ((refl, refl), ((refl, refl), tt))
  | inr e ↦ rw e ((refl, refl), tt)
]

corner-HasArea :
    (p : GrainedPiece) (rotated : Bool)
    → HasAreaPiece p
    → (0 < (corner_candidate p rotated).width) × (0 < (corner_candidate p rotated).height)
corner-HasArea p true (w, h) = (h, w)
corner-HasArea p false (w, h) = (w, h)

module _ (stocks : List StockInput2d) (o : EnhancedOptions) where
  try_active_sheets-IsPacked :
      (sheets written : List MaxRectsSheet) (p : GrainedPiece)
      → HasAreaPiece p
      → All (IsPacked o.kerf) sheets
      → try_active_sheets o sheets p ≡ some written
      → All (IsPacked o.kerf) written
  try_active_sheets-IsPacked sheets written p a h e =
      let w = try_active_sheets-IsWritten o p sheets written e in
      subst (All (IsPacked o.kerf)) w.result (
        All-modify (IsPacked o.kerf) (λ s. place_piece_max_rects s p w.candidate o.kerf) sheets
          w.index w.sheet w.at_index
          (candidate_for-IsPacked (max_rects_options o) w.sheet p w.candidate a w.chosen
            (All-get (IsPacked o.kerf) sheets w.index h w.at_index))
          h)

  open_new_sheet-IsPacked :
      (u v : Usage) (p : GrainedPiece) (s : MaxRectsSheet)
      → HasAreaPiece p
      → open_new_sheet stocks o u p ≡ some (s, v)
      → IsPacked o.kerf s
  open_new_sheet-IsPacked u v p s a e =
      let i = open_new_sheet-IsOpening stocks o u v p s e in
      let (w, h) = All-of_Mem _ (opening_orientations o p) (IsOpening-corner o p) i.permitted in
      subst (IsPacked o.kerf) i.made (
        initialize_max_rects_sheet-IsPacked o.kerf i.item.id i.item.width i.item.height p
          i.orient.rotated (corner-HasArea p i.orient.rotated a) (omega (arith, w, i.narrow))
          (omega (arith, h, i.low)))

-- A demand for pieces that have an area.
abbrev pub HasAreaInput : GrainedInput → Type 0
HasAreaInput p = (0 < p.input.width) × (0 < p.input.height)

ordered_pieces-HasArea :
    (pieces : List GrainedInput) (o : EnhancedOptions)
    → All HasAreaInput pieces
    → All HasAreaPiece (ordered_pieces pieces o)
unfolding ordered_pieces sort_pieces
ordered_pieces-HasArea pieces o h =
    All-sort_by _ HasAreaPiece (expand_pieces pieces)
      (expand_pieces-All HasAreaPiece pieces (All-map (λ p a j. a) pieces h))

packed_enhanced-IsPacked :
    (pieces : List GrainedInput) (stock : List StockInput2d) (o : EnhancedOptions)
    → All HasAreaInput pieces
    → All (IsPacked o.kerf) (packed_enhanced pieces stock o).active_sheets
unfolding packed_enhanced calls
packed_enhanced-IsPacked pieces stock o h =
    pack-keeps (calls (sorted_stocks stock) o) (IsPacked o.kerf) Anything HasAreaPiece
      (λ sheets written p a k e.
        try_active_sheets-IsPacked (sorted_stocks stock) o sheets written p a k e)
      (λ u v p s a _ e. (open_new_sheet-IsPacked (sorted_stocks stock) o u v p s a e, tt)) _
      (ordered_pieces pieces o) (ordered_pieces-HasArea pieces o h) tt tt

-- If every piece asked for has an area, then whatever the heuristic, the order of the pieces and the
-- other options, no two placements of a sheet overlap and every placement lies inside its sheet.
pub optimize_2d_enhanced_layout :
    (pieces : List GrainedInput) (stock : List StockInput2d) (o : PartialOptions)
    → All HasAreaInput pieces
    → All (λ r. IsApartResult 0 r × IsInsideResult r) (optimize_2d_enhanced pieces stock o).sheets
unfolding optimize_2d_enhanced optimize_enhanced_2d build_results sheet_entry
optimize_2d_enhanced_layout pieces stock o h =
    All-of_map (λ r. IsApartResult 0 r × IsInsideResult r) sheet_entry _
      (All-of_map (λ s. IsApartResult 0 (sheet_entry s) × IsInsideResult (sheet_entry s)) as_active
        _
        (All-map (λ s k. (k.spread, k.inside)) _
          (packed_enhanced-IsPacked pieces stock (with_defaults o) h)))
