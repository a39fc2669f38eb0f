-- ===== src/Optimize1d/Supply.antt =====
-- The result of optimize1D (1d/optimizer.ts) and the stock it was given.

use nestra.Prelude.{
  ℕ, ◌+◌, ◌≤◌, ◌<◌, ◌≡◌, String, false, List, map, All, All-map, arith, Memᴰ, All-zip, subst,
  lt→ltb,
}
use nestra.Pieces.{PieceInput1d}
use nestra.Stock.{StockInput1d, SortStrategy, new_stock_1d, get_remaining}
use nestra.Stock.Budget.{supply, DistinctIds}
use nestra.Stock.Setup.{All-of_new_stock_1d, new_stock_1d_lem, new_stock_1d-le-supply}
use nestra.Bars.{Bar, Options1d, can_fit_in_bar}
use nestra.Bars.Plan.{IsValidBar}
use nestra.Bars.Choice.{IsChooser}
use nestra.Unplaced1d.{with_count}
use nestra.Fill1d.{Filling, Chooser}
use nestra.Fill1d.Budgets.{IsFromStock}
use nestra.Fill1d.Leftovers.{NoRoom, IsShort}
use nestra.Optimize1d.{
  BarCuttingResult, bar_result, build_result, packed, finish, Algorithm1d, optimize_1d,
}
use nestra.Optimize1d.Safety.{
  optimize_1d-IsPacking, All-results, All-get_all, results_of, results_of-map, packed-AreValid,
  packed-IsWithinBudget, packed-AreLeftovers,
}

-- A result bar has the id and the length of a stock item.
abbrev pub IsResultFrom : List StockInput1d → BarCuttingResult → Type 0
IsResultFrom stock r =
    (s : StockInput1d) × Memᴰ s stock × (r.stock_id ≡ s.id) × (r.stock_length ≡ s.length)

bar_result-IsResultFrom :
    (o : Options1d) (stock : List StockInput1d) (b : Bar)
    → IsFromStock stock b
    → IsResultFrom stock (bar_result o b)
unfolding bar_result
bar_result-IsResultFrom o stock b h = h

-- An unplaced piece fits behind no result bar's cuts, nor in an item of which units are left.
abbrev pub HasNoPlace :
    List StockInput1d → Options1d → List BarCuttingResult → PieceInput1d → Type 0
HasNoPlace stock o bars u =
    All (λ r. r.waste < u.length + o.kerf) bars
    × All (λ s. results_of s.id bars < s.available → s.length < u.length) stock

full-waste :
    (o : Options1d) (b : Bar) (n : ℕ)
    → IsValidBar o.kerf b
    → can_fit_in_bar b n o.kerf ≡ false
    → (bar_result o b).waste < n + o.kerf
unfolding bar_result nestra.Statistics.calculate_bar_waste can_fit_in_bar
full-waste o b n v h = ground (arith, v.nonempty)

module _ (choose : Chooser) (lawful : IsChooser choose) (t : SortStrategy)
    (pieces : List PieceInput1d) (stock : List StockInput1d) (o : Options1d) where
  abbrev final : Filling
  final = packed choose t pieces stock o

  finish_stock :
      (k : String)
      → (results_of k (finish choose t pieces stock o).bars ≤ supply k stock)
        × All (IsResultFrom stock) (finish choose t pieces stock o).bars
  unfolding finish build_result
  finish_stock k =
      let budget = packed-IsWithinBudget choose lawful t pieces stock o in
      (
        omega (
          arith,
          results_of-map k o final.active_bars,
          budget.spent k,
          new_stock_1d-le-supply k t stock,
        ),
        All-results (IsResultFrom stock) o final.active_bars
            (All-map (λ b h. bar_result-IsResultFrom o stock b h) final.active_bars budget.real),
      )

  -- The final count of an item's bars decides whether a unit of it is left.
  finish-HasNoPlace :
      DistinctIds stock
      → (u : PieceInput1d) → NoRoom o.kerf final u.length
      → HasNoPlace stock o (finish choose t pieces stock o).bars u
  unfolding finish build_result get_remaining
  finish-HasNoPlace distinct u r =
      let budget = packed-IsWithinBudget choose lawful t pieces stock o in
      let m = new_stock_1d stock t in
      let short = subst (IsShort final.stock_manager.usage u.length) budget.fixed r.stock_short in
      let left = new_stock_1d_lem t stock distinct in
      (
        All-results (λ r. r.waste < u.length + o.kerf) o final.active_bars
            (All-zip (λ b v full. full-waste o b u.length v full) final.active_bars
              (packed-AreValid choose lawful t pieces stock o) r.bars_full),
        All-map (λ s h unused. h (lt→ltb 0 s.available (omega (arith, unused))) unused) stock
            (All-of_new_stock_1d
              (λ s.
                results_of s.id (map (bar_result o) final.active_bars) < s.available
                → s.length < u.length)
              t stock
              (All-zip
                (λ s e low unused. low (
                  omega
                    (arith, budget.spent s.id, results_of-map s.id o final.active_bars, e, unused)))
                m.sorted_stock left short)),
      )

  finish-maximal :
      DistinctIds stock
      → All
          (HasNoPlace stock o (finish choose t pieces stock o).bars)
          (finish choose t pieces stock o).unplaced_pieces
  unfolding finish build_result
  finish-maximal distinct =
      All-get_all (HasNoPlace stock o (map (bar_result o) final.active_bars)) final.unplaced (
        All-map (λ e r. unfold finish build_result in (finish-HasNoPlace distinct (with_count e) r))
          final.unplaced (packed-AreLeftovers choose lawful t pieces stock o))

-- Whatever the algorithm, the result has no more bars of a stock id than the stock holds units of
-- it, and each bar has the id and the length of an item of the stock.
pub optimize_1d_stock :
    (a : Algorithm1d) (pieces : List PieceInput1d) (stock : List StockInput1d) (o : Options1d)
    (k : String)
    → (results_of k (optimize_1d a pieces stock o).bars ≤ supply k stock)
      × All (IsResultFrom stock) (optimize_1d a pieces stock o).bars
optimize_1d_stock a pieces stock o k =
    let p = optimize_1d-IsPacking a in
    rw p.runs (finish_stock p.choose p.lawful p.strategy pieces stock o k)

-- Where the stock items have distinct ids, a piece is reported as unplaced only if no bar of the
-- result has room for it and a kerf, and every stock item of which the result leaves a unit is
-- shorter than the piece.
pub optimize_1d_maximal :
    (a : Algorithm1d) (pieces : List PieceInput1d) (stock : List StockInput1d) (o : Options1d)
    → DistinctIds stock
    → All
        (HasNoPlace stock o (optimize_1d a pieces stock o).bars)
        (optimize_1d a pieces stock o).unplaced_pieces
optimize_1d_maximal a pieces stock o distinct =
    let p = optimize_1d-IsPacking a in
    rw p.runs (finish-maximal p.choose p.lawful p.strategy pieces stock o distinct)
