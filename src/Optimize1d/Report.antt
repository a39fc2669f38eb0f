-- ===== src/Optimize1d/Report.antt =====
-- The figures that `buildResult` of 1d/result-builder.ts reports.
use nestra.Prelude.{
  ◌+◌, ◌-◌, ◌*◌, ◌≡◌, refl, List, [], ◌∷◌, map, arith, All-map, length, length-eq-sum_by, sum_by,
  sum_by-perm,
}
use nestra.Pieces.{PieceInput1d, Piece1d, expand_1d_pieces, sort_1d_by_length_desc}
use nestra.Pieces.Expansion.{expand_1d_weight, sort_1d-perm}
use nestra.Stock.{StockInput1d, SortStrategy}
use nestra.Bars.{Bar, Options1d}
use nestra.Bars.Choice.{IsChooser}
use nestra.Statistics.{calculate_bar_waste}
use nestra.Statistics.Balance.{calculate_1d_statistics_lem}
use nestra.Unplaced1d.{get_all}
use nestra.Fill1d.{Filling, Chooser}
use nestra.Optimize1d.{
  BarCuttingResult, OptimizationResult1d, bar_result, build_result, packed, finish, Algorithm1d,
  optimize_1d,
}
use nestra.Optimize1d.Safety.{optimize_1d-IsPacking, packed-AreValid}
use nestra.Optimize1d.Totals.{cuts_weight, HasAllItems-weight, finish-HasAllItems}

-- The report agrees with the bars that it stands beside.
pub record IsHonest (r : OptimizationResult1d) : Type 0 where
  pub pieces : r.statistics.total_pieces ≡ sum_by (λ b. length b.cuts) r.bars
  pub stock : r.statistics.total_stock_length ≡ sum_by (λ b. b.stock_length) r.bars
  pub waste : r.total_waste ≡ sum_by (λ b. b.waste) r.bars
  pub balance : r.statistics.total_used_length + r.total_waste ≡ r.statistics.total_stock_length
  pub count : r.stock_used_count ≡ length r.bars

sum-stock :
    (o : Options1d) (bars : List Bar)
    → sum_by (λ b. b.stock_length) (map (bar_result o) bars) ≡ sum_by (λ b. b.stock_length) bars
unfolding bar_result
sum-stock o [] = refl
sum-stock o (b ∷ bars) = omega (arith, sum-stock o bars)

sum-waste :
    (o : Options1d) (bars : List Bar)
    → sum_by (λ b. b.waste) (map (bar_result o) bars) ≡ sum_by (λ b. b.remaining_length) bars
unfolding bar_result calculate_bar_waste
sum-waste o [] = refl
sum-waste o (b ∷ bars) = omega (arith, sum-waste o bars)

cuts_weight_one :
    (rs : List BarCuttingResult) → cuts_weight (λ _. 1) rs ≡ sum_by (λ r. length r.cuts) rs
cuts_weight_one [] = refl
cuts_weight_one (r ∷ rs) = omega (arith, cuts_weight_one rs, length-eq-sum_by r.cuts)

sum_ones : (ps : List PieceInput1d) → sum_by (λ q. 1 * q.quantity) ps ≡ sum_by (λ q. q.quantity) ps
sum_ones [] = refl
sum_ones (p ∷ ps) = omega (arith, sum_ones ps)

expanded_count :
    (ps : List PieceInput1d)
    → length (sort_1d_by_length_desc (expand_1d_pieces ps)) ≡ sum_by (λ q. 1 * q.quantity) ps
expanded_count ps = omega (
  arith,
  length-eq-sum_by (sort_1d_by_length_desc (expand_1d_pieces ps)),
  sum_by-perm (λ (q : Piece1d). 1) (sort_1d-perm (expand_1d_pieces ps)),
  expand_1d_weight (λ _. 1) ps,
)

module _ (choose : Chooser) (lawful : IsChooser choose) (t : SortStrategy)
    (pieces : List PieceInput1d) (stock : List StockInput1d) (o : Options1d) where
  abbrev final : Filling
  final = packed choose t pieces stock o

  placed_count :
      length (sort_1d_by_length_desc (expand_1d_pieces pieces))
        - sum_by (λ q. q.quantity) (get_all final.unplaced)
      ≡ sum_by (λ b. length b.cuts) (map (bar_result o) final.active_bars)
  unfolding finish build_result
  placed_count = omega (
    arith,
    HasAllItems-weight (λ _. 1) pieces (finish choose t pieces stock o)
        (finish-HasAllItems choose lawful t pieces stock o),
    expanded_count pieces,
    cuts_weight_one (map (bar_result o) final.active_bars),
    sum_ones (get_all final.unplaced),
  )

  finish-IsHonest : IsHonest (finish choose t pieces stock o)
  unfolding finish build_result
  finish-IsHonest =
      let n =
        length (sort_1d_by_length_desc (expand_1d_pieces pieces))
        - sum_by (λ (q : PieceInput1d). q.quantity) (get_all final.unplaced) in
      let (total, s, w, b) = calculate_1d_statistics_lem final.active_bars n (
        All-map (λ b v. omega (arith, v.balance)) final.active_bars
          (packed-AreValid choose lawful t pieces stock o)) in
      record {
        pieces = omega (arith, total, placed_count);
        stock = omega (arith, s, sum-stock o final.active_bars);
        waste = omega (arith, w, sum-waste o final.active_bars);
        balance = b;
        count = refl;
      }

-- Whatever the algorithm, the reported number of pieces is that of the cuts, the stock length and
-- the waste are the totals of the bars, used and waste make up the stock, and `stockUsedCount` is
-- the number of bars.
pub optimize_1d-IsHonest :
    (a : Algorithm1d) (pieces : List PieceInput1d) (stock : List StockInput1d) (o : Options1d)
    → IsHonest (optimize_1d a pieces stock o)
optimize_1d-IsHonest a pieces stock o =
    let p = optimize_1d-IsPacking a in
    rw p.runs (finish-IsHonest p.choose p.lawful p.strategy pieces stock o)
