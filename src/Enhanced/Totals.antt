-- ===== src/Enhanced/Totals.antt =====
-- A result of 2d/enhanced-optimizer.ts, the demand and the stock that it was given.
use text.Mathlib.Text.{◌==◌ as str_eq}
use text.Mathlib.TextEquality.{eq_iff}
use nestra.Prelude.{
  ℕ, ◌+◌, ◌-◌, ◌*◌, ◌<◌, ◌≤◌, ◌≡◌, refl, sym, ap, subst, ◌∙◌, String, Bool, List, [], ◌∷◌, map,
  some, length-eq-sum_by, All, All-map, Anything, All-any, sum_by, sum_by-append, sum_by-perm,
  sum_by-modify, sum_by-zero, arith, leb, if◌then◌else◌,
}
use nestra.Prelude.Sorting.{sort_by-perm, All-sort_by}
use nestra.Stock.{StockInput2d, Usage, remaining_of, init_usage_2d}
use nestra.Stock.Budget.{remaining_of-insert}
use nestra.Stock.Sheets.{find_in_2d-All}
use nestra.Stock.SheetBudget.{sheet_supply, init_usage_2d-le-supply}
use nestra.Optimize2d.Totals.{placements_weight, only}
use nestra.Optimize2d.Supply.{results_of}
use nestra.Grained.{GrainedInput, GrainedPiece, expand_pieces}
use nestra.Grained.Totals.{
  expand_pieces_weight, expand_pieces-IsUnit, expand_pieces-All, add_unplaced_weight,
}
use nestra.Packing.Totals.{pack-total}
use nestra.Cutting2d.{sheet_entry, build_results}
use nestra.Cutting2d.Balance.{IsBalanced, build_results-IsBalanced}
use nestra.Cutting2d.Results.{unplaced_weight, units_weight, IsSettled}
use nestra.MaxRects.{
  MaxRectsSheet, PlacementCandidate, place_piece_max_rects, create_max_rects_sheet,
  initialize_max_rects_sheet, corner_candidate,
}
use nestra.Enhanced.{
  EnhancedOptions, find_available, consume, before_underscore, entry_of, try_active_sheets,
  open_new_sheet, calls, ordered_pieces, sort_pieces, sort_key, order_or_default, sorted_stocks,
  as_active, packed_enhanced, optimize_enhanced_2d, PartialOptions, with_defaults,
  optimize_2d_enhanced,
}
use nestra.Enhanced.Places.{try_active_sheets-IsWritten, open_new_sheet-IsOpening}

abbrev placed_weight : (String → ℕ) → MaxRectsSheet → ℕ
placed_weight w s = sum_by (λ c. w c.piece_id.base) s.placements

place_weight :
    (w : String → ℕ) (s : MaxRectsSheet) (p : GrainedPiece) (c : PlacementCandidate) (kerf : ℕ)
    → placed_weight w (place_piece_max_rects s p c kerf) ≡ placed_weight w s + w p.piece.id.base
unfolding place_piece_max_rects
place_weight w s p c kerf = sum_by-append (λ q. w q.piece_id.base) s.placements _ ∙ omega arith

try_active_sheets_weight :
    (w : String → ℕ) (o : EnhancedOptions) (sheets written : List MaxRectsSheet) (p : GrainedPiece)
    → try_active_sheets o sheets p ≡ some written
    → sum_by (placed_weight w) written ≡ sum_by (placed_weight w) sheets + w p.piece.id.base
try_active_sheets_weight w o sheets written p e =
    let i = try_active_sheets-IsWritten o p sheets written e in
    rw (← i.result) (
      omega (
        arith,
        sum_by-modify (placed_weight w) (λ s. place_piece_max_rects s p i.candidate o.kerf) sheets
            i.index i.sheet i.at_index,
        place_weight w i.sheet p i.candidate o.kerf,
      ))

open_new_sheet_weight :
    (w : String → ℕ) (stocks : List StockInput2d) (o : EnhancedOptions) (u v : Usage)
    (p : GrainedPiece) (s : MaxRectsSheet)
    → open_new_sheet stocks o u p ≡ some (s, v)
    → placed_weight w s ≡ w p.piece.id.base
unfolding initialize_max_rects_sheet create_max_rects_sheet
open_new_sheet_weight w stocks o u v p s e =
    let i = open_new_sheet-IsOpening stocks o u v p s e in
    subst (λ z. placed_weight w z ≡ w p.piece.id.base) i.made
      (place_weight w (create_max_rects_sheet i.item.id i.item.width i.item.height) p
          (corner_candidate p i.orient.rotated) o.kerf
        ∙ omega arith)

-- 1 for a sheet of the stock id.
abbrev labelled : String → MaxRectsSheet → ℕ
labelled k s = if str_eq s.stock_id k then 1 else 0

try_active_sheets-labelled :
    (k : String) (o : EnhancedOptions) (sheets written : List MaxRectsSheet) (p : GrainedPiece)
    → try_active_sheets o sheets p ≡ some written
    → sum_by (labelled k) written ≡ sum_by (labelled k) sheets
unfolding place_piece_max_rects
try_active_sheets-labelled k o sheets written p e =
    let i = try_active_sheets-IsWritten o p sheets written e in
    rw (← i.result) (
      omega (
        arith,
        sum_by-modify (labelled k) (λ s. place_piece_max_rects s p i.candidate o.kerf) sheets
            i.index i.sheet i.at_index,
      ))

open_new_sheet-labelled :
    (k : String) (stocks : List StockInput2d) (o : EnhancedOptions) (u v : Usage) (p : GrainedPiece)
    (s : MaxRectsSheet)
    → open_new_sheet stocks o u p ≡ some (s, v)
    → labelled k s + remaining_of v k ≡ remaining_of u k
unfolding initialize_max_rects_sheet create_max_rects_sheet place_piece_max_rects find_available
    consume
open_new_sheet-labelled k stocks o u v p s e =
    let i = open_new_sheet-IsOpening stocks o u v p s e in
    let (_, _, left) = find_in_2d-All Anything u _ _ stocks (All-any stocks) i.found in
    let label : s.stock_id ≡ i.item.id = rw (← i.made) refl in
    rw (label, ← i.taken)
      (ground (
        arith,
        remaining_of-insert u i.item.id k (remaining_of u i.item.id - 1),
        eq_iff i.item.id k,
        left,
      ))

-- The id is reported as it is.
abbrev pub IsPlain : String → Type 0
IsPlain id = before_underscore id ≡ id

module _ (pieces : List GrainedInput) (stock : List StockInput2d) (o : EnhancedOptions) where
  ordered_weight :
      (w : String → ℕ)
      → sum_by (λ p. w p.piece.id.base) (ordered_pieces pieces o) ≡ unplaced_weight w pieces
  unfolding ordered_pieces sort_pieces
  ordered_weight w =
      let units = expand_pieces pieces in
      sum_by-perm (λ (p : GrainedPiece). w p.piece.id.base)
        (sort_by-perm
          (λ (a : GrainedPiece) b.
            leb (sort_key (order_or_default o.sort_strategy) b)
              (sort_key (order_or_default o.sort_strategy) a))
          units)
      ∙ units_weight w units (expand_pieces-IsUnit pieces)
      ∙ expand_pieces_weight w pieces

  -- Where the weight does not tell the reported id from the demand's.
  packed_weight :
      (w : String → ℕ)
      → All
          (λ p. w (before_underscore p.piece.id.base) ≡ w p.piece.id.base)
          (ordered_pieces pieces o)
      → sum_by (placed_weight w) (packed_enhanced pieces stock o).active_sheets
          + unplaced_weight w (packed_enhanced pieces stock o).unplaced
        ≡ unplaced_weight w pieces
  unfolding packed_enhanced calls entry_of
  packed_weight w h = omega (
    arith,
    pack-total (calls (sorted_stocks stock) o)
        (λ p. w (before_underscore p.piece.id.base) ≡ w p.piece.id.base) (placed_weight w) (λ _. 0)
        (unplaced_weight w) (λ p. w p.piece.id.base)
        (λ sheets written p _ e. try_active_sheets_weight w o sheets written p e)
        (λ u v p s _ e. omega (arith, open_new_sheet_weight w (sorted_stocks stock) o u v p s e))
        (λ p qs k. add_unplaced_weight w (entry_of p) qs refl ∙ omega arith)
        (record { active_sheets = []; usage = init_usage_2d stock []; unplaced = [] })
        (ordered_pieces pieces o) h,
    ordered_weight w,
  )

  packed_supply :
      (k : String)
      → sum_by (labelled k) (packed_enhanced pieces stock o).active_sheets ≤ sheet_supply k stock
  unfolding packed_enhanced calls
  packed_supply k =
      let empty : remaining_of [] k ≡ 0 =
        unfold remaining_of in (unfold nestra.Prelude.Dict.lookup in refl) in
      omega (
        arith,
        pack-total (calls (sorted_stocks stock) o) Anything (labelled k) (λ u. remaining_of u k)
            (λ _. 0) (λ _. 0)
            (λ sheets written p _ e.
              try_active_sheets-labelled k o sheets written p e ∙ omega arith)
            (λ u v p s _ e.
              omega (arith, open_new_sheet-labelled k (sorted_stocks stock) o u v p s e))
            (λ _ _ _. omega arith)
            (record { active_sheets = []; usage = init_usage_2d stock []; unplaced = [] })
            (ordered_pieces pieces o) (All-any (ordered_pieces pieces o)),
        sum_by-zero (ordered_pieces pieces o),
        init_usage_2d-le-supply k stock [],
        empty,
      )

entries_weight :
    (w : String → ℕ) (sheets : List MaxRectsSheet)
    → placements_weight w (map sheet_entry (map as_active sheets)) ≡ sum_by (placed_weight w) sheets
unfolding sheet_entry
entries_weight w [] = refl
entries_weight w (s ∷ sheets) = omega (arith, entries_weight w sheets)

entries-labelled :
    (k : String) (sheets : List MaxRectsSheet)
    → results_of k (map sheet_entry (map as_active sheets)) ≡ sum_by (labelled k) sheets
unfolding sheet_entry
entries-labelled k [] = refl
entries-labelled k (s ∷ sheets) = omega (arith, entries-labelled k sheets)

ones : (qs : List GrainedInput) → unplaced_weight (λ _. 1) qs ≡ sum_by (λ p. p.input.quantity) qs
ones [] = refl
ones (q ∷ qs) = omega (arith, ones qs)

optimize_enhanced_2d-IsBalanced :
    (pieces : List GrainedInput) (stock : List StockInput2d) (o : EnhancedOptions)
    → IsBalanced (optimize_enhanced_2d pieces stock o)
unfolding optimize_enhanced_2d
optimize_enhanced_2d-IsBalanced pieces stock o =
    let f = packed_enhanced pieces stock o in
    build_results-IsBalanced (map as_active f.active_sheets) (ordered_pieces pieces o) f.unplaced (
      unfold build_results in
      omega (
        arith,
        packed_weight pieces stock o (λ _. 1) (same (ordered_pieces pieces o)),
        ordered_weight pieces stock o (λ _. 1),
        length-eq-sum_by (ordered_pieces pieces o),
        ones f.unplaced,
        entries_weight (λ _. 1) f.active_sheets,
      ))
  where
    same : (ps : List GrainedPiece) → All (λ p. ◌≡◌ {A = ℕ} 1 1) ps
    same [] = tt
    same (p ∷ ps) = (refl, same ps)

pub optimize_2d_enhanced-IsSettled :
    (pieces : List GrainedInput) (stock : List StockInput2d) (o : PartialOptions)
    → All (λ p. IsPlain p.input.id) pieces
    → IsSettled pieces stock (optimize_2d_enhanced pieces stock o)
unfolding optimize_2d_enhanced optimize_enhanced_2d
optimize_2d_enhanced-IsSettled pieces stock o h =
    let e = with_defaults o in
    let f = packed_enhanced pieces stock e in
    let plain : All (λ p. IsPlain p.piece.id.base) (ordered_pieces pieces e) =
      unfold ordered_pieces in
      (unfold sort_pieces in
        All-sort_by _ (λ p. IsPlain p.piece.id.base) (expand_pieces pieces)
          (expand_pieces-All (λ p. IsPlain p.piece.id.base) pieces
            (All-map (λ p k j. k) pieces h))) in
    record {
      demand = λ k.
          unfold build_results in
          omega (
            arith,
            entries_weight (only k) f.active_sheets,
            packed_weight pieces stock e (only k)
                (All-map (λ p g. ap (only k) g) (ordered_pieces pieces e) plain),
          );
      supply = λ k.
          unfold build_results in
          omega (arith, entries-labelled k f.active_sheets, packed_supply pieces stock e k);
      balanced = unfold optimize_enhanced_2d in optimize_enhanced_2d-IsBalanced pieces stock e;
    }
