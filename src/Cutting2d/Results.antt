-- ===== src/Cutting2d/Results.antt =====
-- The results of bottomLeftFill and guillotineCutting of 2d/cutting2d.ts against their input.
use text.Mathlib.Text.{◌==◌ as str_eq}
use nestra.Prelude.{
  ℕ, ◌+◌, ◌-◌, ◌*◌, ◌≤◌, ◌≡◌, refl, sym, ap, ◌∙◌, String, Bool, List, [], ◌∷◌, map, length,
  length-eq-sum_by, All, Anything, All-any, sum_by, sum_by-append, sum_by-map, sum_by-perm,
  sum_by-zero, arith, leb, ltb, select, if◌then◌else◌,
}
use nestra.Prelude.Sorting.{sort_by-perm, All-sort_by}
use nestra.Stock.{StockInput2d, Usage, remaining_of, init_usage_2d}
use nestra.Stock.SheetBudget.{sheet_supply, init_usage_2d-le-supply, sheet_supply-select}
use nestra.Sheets.{ActiveSheet, Options2d}
use nestra.Fill2d.Accounts.{Item, items_on, item_of_placement}
use nestra.Fill2d.Budgets.{sheets_of}
use nestra.Optimize2d.Totals.{placements_weight, only}
use nestra.Optimize2d.Supply.{results_of}
use nestra.Grained.{GrainedInput, GrainedPiece, expand_pieces}
use nestra.Grained.Totals.{IsUnit, expand_pieces_weight, expand_pieces-IsUnit, add_unplaced_weight}
use nestra.Packing.{Packer}
use nestra.Packing.Totals.{pack-total}
use nestra.Cutting2d.{
  bottom_left_calls, guillotine_calls, sheet_entry, PackingResult, build_results, packed,
  sort_available, sorted_pieces, piece_area, finish, bottom_left_fill, guillotine_cutting,
}
use nestra.Cutting2d.Balance.{IsBalanced, build_results-IsBalanced}
use nestra.Cutting2d.Totals.{IsCounting, bottom_left_calls-IsCounting, guillotine_calls-IsCounting}

abbrev pub Calls : Type 0
Calls = List StockInput2d → Options2d → Packer ActiveSheet Usage

-- Units among the unplaced, weighted by id.
abbrev pub unplaced_weight : (String → ℕ) → List GrainedInput → ℕ
unplaced_weight w = sum_by (λ q. w q.input.id * q.input.quantity)

sorted_pieces-IsUnit : (pieces : List GrainedInput) → All IsUnit (sorted_pieces pieces)
unfolding sorted_pieces
sorted_pieces-IsUnit pieces =
    All-sort_by _ IsUnit (expand_pieces pieces) (expand_pieces-IsUnit pieces)

sorted_pieces_weight :
    (w : String → ℕ) (pieces : List GrainedInput)
    → sum_by (λ p. w p.piece.original_id) (sorted_pieces pieces) ≡ unplaced_weight w pieces
unfolding sorted_pieces
sorted_pieces_weight w pieces =
    sum_by-perm (λ (p : GrainedPiece). w p.piece.original_id)
      (sort_by-perm (λ (a : GrainedPiece) b. leb (piece_area b) (piece_area a))
        (expand_pieces pieces))
    ∙ expand_pieces_weight w pieces

pub units_weight :
    (w : String → ℕ) (ps : List GrainedPiece)
    → All IsUnit ps
    → sum_by (λ p. w p.piece.id.base) ps ≡ sum_by (λ p. w p.piece.original_id) ps
units_weight w [] h = refl
units_weight w (p ∷ ps) h = omega (arith, ap w h.0, units_weight w ps h.1)

sheets_weight :
    (w : String → ℕ) (sheets : List ActiveSheet)
    → placements_weight w (map sheet_entry sheets)
      ≡ sum_by (λ s. sum_by (λ i. w i.piece_id.base) (items_on s)) sheets
unfolding sheet_entry
sheets_weight w [] = refl
sheets_weight w (s ∷ sheets) = omega (
  arith,
  sum_by-map (λ (i : Item). w i.piece_id.base) item_of_placement s.placements,
  sheets_weight w sheets,
)

module _ (calls : Calls)
    (lawful : (stock : List StockInput2d) (o : Options2d) → IsCounting (calls stock o))
    (pieces : List GrainedInput) (stock : List StockInput2d) (o : Options2d) where
  finish_demand :
      (w : String → ℕ)
      → let r = finish calls pieces stock o in
        placements_weight w r.sheets + unplaced_weight w r.unplaced_pieces
        ≡ unplaced_weight w pieces
  unfolding finish build_results packed
  finish_demand w =
      let c = lawful (sort_available stock) o in
      omega (
        arith,
        sheets_weight w (packed calls pieces stock o).active_sheets,
        pack-total (calls (sort_available stock) o) IsUnit
            (λ s. sum_by (λ i. w i.piece_id.base) (items_on s)) (λ _. 0) (unplaced_weight w)
            (λ p. w p.piece.id.base)
            (λ sheets written p _ e. c.adds (λ i. w i.piece_id.base) sheets written p e)
            (λ u v p s _ e. omega (arith, c.opens (λ i. w i.piece_id.base) u v p s e))
            (λ p qs h.
              add_unplaced_weight w ((calls (sort_available stock) o).entry_of p) qs (c.entries p).1
              ∙ ap (λ k. unplaced_weight w qs + w k) ((c.entries p).0 ∙ sym h))
            (record {
              active_sheets = [];
              usage = init_usage_2d (sort_available stock) [];
              unplaced = [];
            })
            (sorted_pieces pieces) (sorted_pieces-IsUnit pieces),
        units_weight w (sorted_pieces pieces) (sorted_pieces-IsUnit pieces),
        sorted_pieces_weight w pieces,
      )

  finish_stock :
      (k : String) → results_of k (finish calls pieces stock o).sheets ≤ sheet_supply k stock
  unfolding finish build_results packed sort_available
  finish_stock k =
      let usable = select (λ s. ltb 0 s.available) stock in
      let empty : remaining_of [] k ≡ 0 =
        unfold remaining_of in (unfold nestra.Prelude.Dict.lookup in refl) in
      let c = lawful (sort_available stock) o in
      omega (
        arith,
        results_of-map k (packed calls pieces stock o).active_sheets,
        pack-total (calls (sort_available stock) o) Anything
            (λ s. if str_eq s.stock_id k then 1 else 0) (λ u. remaining_of u k) (λ _. 0) (λ _. 0)
            (λ sheets written p _ e. c.labels k sheets written p e ∙ omega arith)
            (λ u v p s _ e. omega (arith, c.takes k u v p s e)) (λ _ _ _. omega arith)
            (record {
              active_sheets = [];
              usage = init_usage_2d (sort_available stock) [];
              unplaced = [];
            })
            (sorted_pieces pieces) (All-any (sorted_pieces pieces)),
        sum_by-zero (sorted_pieces pieces),
        init_usage_2d-le-supply k (sort_available stock) [],
        sum_by-perm (λ (s : StockInput2d). if str_eq s.id k then s.available else 0)
            (sort_by-perm (λ (a : StockInput2d) b. leb (b.width * b.height) (a.width * a.height))
              usable),
        sheet_supply-select k (λ s. ltb 0 s.available) stock,
        empty,
      )
    where
      results_of-map :
          (k : String) (sheets : List ActiveSheet)
          → results_of k (map sheet_entry sheets) ≡ sheets_of k sheets
      results_of-map k [] = refl
      results_of-map k (s ∷ sheets) = unfold sheet_entry in omega (arith, results_of-map k sheets)

  finish_total_pieces :
      (finish calls pieces stock o).statistics.total_pieces
      ≡ placements_weight (λ _. 1) (finish calls pieces stock o).sheets
  unfolding finish build_results
  finish_total_pieces = omega (
    arith,
    finish_demand (λ _. 1),
    sorted_pieces_weight (λ _. 1) pieces,
    length-eq-sum_by (sorted_pieces pieces),
    ones (packed calls pieces stock o).unplaced,
  )
    where
      ones :
          (qs : List GrainedInput) → unplaced_weight (λ _. 1) qs ≡ sum_by (λ p. p.input.quantity) qs
      ones [] = refl
      ones (q ∷ qs) = omega (arith, ones qs)

-- What a result owes to its demand, its stock and itself.
pub record IsSettled (pieces : List GrainedInput) (stock : List StockInput2d) (r : PackingResult)
    : Type 0 where
  pub demand :
      (k : String)
      → placements_weight (only k) r.sheets + unplaced_weight (only k) r.unplaced_pieces
        ≡ unplaced_weight (only k) pieces
  pub supply : (k : String) → results_of k r.sheets ≤ sheet_supply k stock
  pub balanced : IsBalanced r

finish-IsSettled :
    (calls : Calls)
    → ((stock : List StockInput2d) (o : Options2d) → IsCounting (calls stock o))
    → (pieces : List GrainedInput) (stock : List StockInput2d) (o : Options2d)
    → IsSettled pieces stock (finish calls pieces stock o)
unfolding finish
finish-IsSettled calls lawful pieces stock o = record {
  demand = λ k. unfold finish in finish_demand calls lawful pieces stock o (only k);
  supply = λ k. unfold finish in finish_stock calls lawful pieces stock o k;
  balanced =
      build_results-IsBalanced (packed calls pieces stock o).active_sheets (sorted_pieces pieces)
        (packed calls pieces stock o).unplaced
        (unfold finish in
          (unfold build_results in finish_total_pieces calls lawful pieces stock o));
}

-- Under the bottom-left and under the guillotine strategy, for every id the placements made for it
-- and its unplaced units add up to the quantity asked for, the sheets taken of a stock id are at most
-- its units, the reported number of pieces is that of the placements and the reported number of
-- sheets is theirs, success is reported exactly if nothing is unplaced, the used area of each sheet
-- is the sum of the areas of its placements, and the reported areas are the sums over the sheets
-- with the waste as their difference.
pub strategies-IsSettled :
    (pieces : List GrainedInput) (stock : List StockInput2d) (o : Options2d)
    → IsSettled pieces stock (bottom_left_fill pieces stock o)
      × IsSettled pieces stock (guillotine_cutting pieces stock o)
unfolding bottom_left_fill guillotine_cutting
strategies-IsSettled pieces stock o = (
  finish-IsSettled bottom_left_calls bottom_left_calls-IsCounting pieces stock o,
  finish-IsSettled guillotine_calls guillotine_calls-IsCounting pieces stock o,
)
