-- ===== src/Cutting1d/Plans.antt =====
-- The results of the two 1D optimisers, field by field.
use mathlib.Core.List.{append-nil, append_assoc}
use nestra.Prelude.{
  ℕ, ◌+◌, ◌-◌, ◌≤◌, ◌≡◌, refl, ap, String, List, [], ◌∷◌, ◌++◌, map, arith, All, All-map, length,
  sum_by,
}
use nestra.Pieces.{PieceInput1d, Piece1d, expand_1d_pieces, sort_1d_by_length_desc}
use nestra.Stock.{StockInput1d, SortStrategy, desc, asc, sort_stock, new_stock_1d}
use nestra.Bars.{Bar, Cut, Options1d}
use nestra.Bars
use nestra.Bars.Choice.{IsChooser, first_fit-IsChooser, best_fit-IsChooser}
use nestra.Statistics.{calculate_bar_waste, calculate_1d_statistics}
use nestra.Statistics.Balance.{bar_sums_lem, waste-le}
use nestra.Unplaced1d.{get_all}
use nestra.Fill1d.{Filling, Chooser, start}
use nestra.Optimize1d.{
  BarCuttingResult, ResultStatistics1d, OptimizationResult1d, is_nil, packed, finish, build_result,
  Algorithm1d, ffd, bfd, branch_bound, other,
}
use nestra.Optimize1d
use nestra.Optimize1d.Safety.{packed-AreValid}
use nestra.Cutting1d.{
  BarResult, Built, Optimization1dResult, bar_result, build_loop, build_results, report, run,
  find_first_fit_bar, find_best_fit_bar, first_fit_decreasing, best_fit_decreasing, optimize_1d,
}
use nestra.Cutting1d.Agreement.{
  expand_pieces-eq, find_first_fit_bar-eq, find_best_fit_bar-eq, fill_usage-eq, progress_of,
  rounds-eq,
}

-- What a bar's result says but for the percentage and the offcut.
pub record Plan : Type 0 where
  pub stock_id : String
  pub stock_length : ℕ
  pub cuts : List Cut
  pub waste : ℕ

abbrev pub plan_of_legacy : BarResult → Plan
plan_of_legacy r = record {
  stock_id = r.stock_id;
  stock_length = r.stock_length;
  cuts = r.cuts;
  waste = r.waste;
}

abbrev pub plan_of : BarCuttingResult → Plan
plan_of r = record {
  stock_id = r.stock_id;
  stock_length = r.stock_length;
  cuts = r.cuts;
  waste = r.waste;
}

pub record Agrees (l : Optimization1dResult) (r : OptimizationResult1d) : Type 0 where
  pub success : l.success ≡ r.success
  pub bars : map plan_of_legacy l.bars ≡ map plan_of r.bars
  pub total_waste : l.total_waste ≡ r.total_waste
  pub total_waste_percentage : l.total_waste_percentage ≡ r.total_waste_percentage
  pub stock_used_count : l.stock_used_count ≡ r.stock_used_count
  pub unplaced_pieces : l.unplaced_pieces ≡ r.unplaced_pieces
  pub statistics : l.statistics ≡ r.statistics

pub build_loop_lem :
    (m kerf : ℕ) (b : Built) (bars : List Bar)
    → build_loop m kerf b bars ≡ record {
      results = b.results ++ map (bar_result m kerf) bars;
      total_waste = b.total_waste + sum_by (λ x. x.remaining_length) bars;
      total_stock_length = b.total_stock_length + sum_by (λ x. x.stock_length) bars;
      total_used_length =
          b.total_used_length + sum_by (λ x. x.stock_length - x.remaining_length) bars;
    }
unfolding build_loop
build_loop_lem m kerf b [] = ground (arith, append-nil b.results)
build_loop_lem m kerf b (x ∷ bars) = ground (
  arith,
  build_loop_lem m kerf
      (record {
        results = b.results ++ bar_result m kerf x ∷ [];
        total_waste = b.total_waste + x.remaining_length;
        total_stock_length = b.total_stock_length + x.stock_length;
        total_used_length = b.total_used_length + (x.stock_length - x.remaining_length);
      })
      bars,
  append_assoc b.results (bar_result m kerf x ∷ []) (map (bar_result m kerf) bars),
)

plans-eq :
    (o : Options1d) (bars : List Bar)
    → map plan_of_legacy (map (bar_result o.min_usable_waste o.kerf) bars)
      ≡ map plan_of (map (Optimize1d.bar_result o) bars)
unfolding bar_result Optimize1d.bar_result calculate_bar_waste
plans-eq o [] = refl
plans-eq o (b ∷ bars) =
    ap
      (◌∷◌ (record {
        stock_id = b.stock_id;
        stock_length = b.stock_length;
        cuts = b.cuts;
        waste = b.remaining_length;
      }))
      (plans-eq o bars)

used-eq :
    (bars : List Bar)
    → All (λ b. b.remaining_length ≤ b.stock_length) bars
    → sum_by (λ b. b.stock_length - b.remaining_length) bars
      ≡ sum_by (λ b. b.stock_length) bars - sum_by (λ b. b.remaining_length) bars
used-eq [] h = refl
used-eq (b ∷ bars) h = omega (arith, used-eq bars h.1, waste-le bars h.1, h.0)

length-map-eq {ℓ κ μ} :
    {A : Type ℓ} {B : Type κ} {C : Type μ} (f : A → B) (g : A → C) (xs : List A)
    → length (map f xs) ≡ length (map g xs)
length-map-eq f g [] = refl
length-map-eq f g (x ∷ xs) = omega (arith, length-map-eq f g xs)

-- The result that the workers' optimiser builds from a state of the loop.
built :
    (pieces : List PieceInput1d) (o : Options1d) (expanded : List Piece1d) (f : Filling)
    → All (λ b. b.remaining_length ≤ b.stock_length) f.active_bars
    → let b = build_results f.active_bars o.min_usable_waste o.kerf in
      let r = build_result f.active_bars (get_all f.unplaced) (length expanded) o in
      (map plan_of_legacy b.results ≡ map plan_of r.bars)
      × (b.total_waste ≡ r.total_waste)
      × (b.total_stock_length ≡ r.statistics.total_stock_length)
      × (b.total_used_length ≡ r.statistics.total_used_length)
      × (length b.results ≡ r.stock_used_count)
unfolding build_results build_result calculate_1d_statistics
built pieces o expanded f h =
    rw (build_loop_lem o.min_usable_waste o.kerf _ f.active_bars, bar_sums_lem 0 0 f.active_bars)
      (
        plans-eq o f.active_bars,
        refl,
        refl,
        omega (arith, used-eq f.active_bars h),
        length-map-eq (bar_result o.min_usable_waste o.kerf) (Optimize1d.bar_result o)
            f.active_bars,
      )

report-Agrees :
    (pieces : List PieceInput1d) (o : Options1d) (expanded : List Piece1d) (f : Filling)
    → All (λ b. b.remaining_length ≤ b.stock_length) f.active_bars
    → Agrees
        (report (length expanded) (progress_of f) o)
        (build_result f.active_bars (get_all f.unplaced) (length expanded) o)
unfolding report build_result calculate_1d_statistics
report-Agrees pieces o expanded f h =
    let (bars, waste, stock, used, count) = built pieces o expanded f h in
    record {
      success = refl;
      bars = bars;
      total_waste = waste;
      total_waste_percentage = ground (arith, waste, stock);
      stock_used_count = count;
      unplaced_pieces = refl;
      statistics = ground (arith, stock, used);
    }

module _ (ours : Chooser) (theirs : Chooser)
    (same : (bars : List Bar) (n kerf : ℕ) → ours bars n kerf ≡ theirs bars n kerf)
    (lawful : IsChooser theirs) (t : SortStrategy) (pieces : List PieceInput1d)
    (stock : List StockInput1d) (o : Options1d) where
  pub run-eq :
      run ours (new_stock_1d stock t).sorted_stock pieces o
      ≡ report
          (length (sort_1d_by_length_desc (expand_1d_pieces pieces)))
          (progress_of (packed theirs t pieces stock o))
          o
  unfolding run packed start new_stock_1d get_all sort_1d_by_length_desc
  run-eq =
      let m = new_stock_1d stock t in
      rw (expand_pieces-eq pieces, fill_usage-eq m.sorted_stock [])
        (ap (λ g. report (length (sort_1d_by_length_desc (expand_1d_pieces pieces))) g o)
          (rounds-eq ours theirs same o.kerf m.sorted_stock (start m)
            (sort_1d_by_length_desc (expand_1d_pieces pieces)) refl tt))

  run-Agrees :
      Agrees
        (run ours (new_stock_1d stock t).sorted_stock pieces o)
        (finish theirs t pieces stock o)
  unfolding finish
  run-Agrees = rw run-eq (
      report-Agrees pieces o (sort_1d_by_length_desc (expand_1d_pieces pieces))
        (packed theirs t pieces stock o)
        (All-map (λ b v. omega (arith, v.balance)) (packed theirs t pieces stock o).active_bars
          (packed-AreValid theirs lawful t pieces stock o)))

-- The optimiser that the workers run and the modular one return the same result for every algorithm
-- and input, up to each bar's waste percentage and usable offcut.
pub optimize_1d-Agrees :
    (a : Algorithm1d) (pieces : List PieceInput1d) (stock : List StockInput1d) (o : Options1d)
    → Agrees (optimize_1d a pieces stock o) (Optimize1d.optimize_1d a pieces stock o)
unfolding optimize_1d first_fit_decreasing best_fit_decreasing Optimize1d.optimize_1d
    Optimize1d.first_fit_decreasing Optimize1d.best_fit_decreasing new_stock_1d sort_stock
optimize_1d-Agrees ffd =
    run-Agrees find_first_fit_bar Bars.find_first_fit_bar find_first_fit_bar-eq first_fit-IsChooser
      desc
optimize_1d-Agrees bfd =
    run-Agrees find_best_fit_bar Bars.find_best_fit_bar find_best_fit_bar-eq best_fit-IsChooser asc
optimize_1d-Agrees branch_bound =
    run-Agrees find_best_fit_bar Bars.find_best_fit_bar find_best_fit_bar-eq best_fit-IsChooser asc
optimize_1d-Agrees other =
    run-Agrees find_first_fit_bar Bars.find_first_fit_bar find_first_fit_bar-eq first_fit-IsChooser
      desc
