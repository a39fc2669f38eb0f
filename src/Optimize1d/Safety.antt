-- ===== src/Optimize1d/Safety.antt =====
-- The bars of a result of optimize1D (1d/optimizer.ts), and the final state of the packing loop.
use text.Mathlib.Text.{◌==◌ as str_eq}
use nestra.Prelude.{
  ℕ, ◌+◌, ◌*◌, ◌≤◌, ◌<◌, ◌≡◌, refl, String, List, [], ◌∷◌, some, map, All, All-map, All-Mem, length,
  sum_by, arith, if◌then◌else◌, Memᴰ,
}
use nestra.Pieces.{PieceInput1d}
use nestra.Stock.{StockInput1d, SortStrategy, desc, asc, new_stock_1d}
use nestra.Stock.Setup.{new_stock_1d-All}
use nestra.Bars.{Bar, Options1d, WasteSegment, find_first_fit_bar, find_best_fit_bar}
use nestra.Bars.Plan.{Spaced, total_length, IsValidBar, calculate_usable_waste_lem}
use nestra.Bars.Choice.{IsChooser, first_fit-IsChooser, best_fit-IsChooser}
use nestra.Statistics.{calculate_bar_waste}
use nestra.Unplaced1d.{UnplacedCollector1d, get_all, with_count}
use nestra.Fill1d.{Chooser, start}
use nestra.Fill1d.Plans.{AreValid, fill_1d-AreValid}
use nestra.Fill1d.Budgets.{bars_of, IsWithinBudget, fill_1d-IsWithinBudget}
use nestra.Fill1d.Leftovers.{AreLeftovers, fill_1d-AreLeftovers}
use nestra.Optimize1d.{
  BarCuttingResult, OptimizationResult1d, bar_result, build_result, packed, finish,
  first_fit_decreasing, best_fit_decreasing, Algorithm1d, ffd, bfd, branch_bound, other,
  optimize_1d,
}

-- Each algorithm is the packing loop with a lawful choice of a bar.
pub record IsPacking
    (run : List PieceInput1d → List StockInput1d → Options1d → OptimizationResult1d) : Type 0 where
  pub choose : Chooser
  pub strategy : SortStrategy
  pub lawful : IsChooser choose
  pub runs : run ≡ finish choose strategy

pub optimize_1d-IsPacking : (a : Algorithm1d) → IsPacking (optimize_1d a)
unfolding optimize_1d first_fit_decreasing best_fit_decreasing
optimize_1d-IsPacking ffd = record {
  choose = find_first_fit_bar;
  strategy = desc;
  lawful = first_fit-IsChooser;
  runs = refl;
}
optimize_1d-IsPacking bfd = record {
  choose = find_best_fit_bar;
  strategy = asc;
  lawful = best_fit-IsChooser;
  runs = refl;
}
optimize_1d-IsPacking branch_bound = record {
  choose = find_best_fit_bar;
  strategy = asc;
  lawful = best_fit-IsChooser;
  runs = refl;
}
optimize_1d-IsPacking other = record {
  choose = find_first_fit_bar;
  strategy = desc;
  lawful = first_fit-IsChooser;
  runs = refl;
}

-- A bar of the result can be cut as it says.
pub record IsCutPlan (o : Options1d) (r : BarCuttingResult) : Type 0 where
  pub spaced : Spaced o.kerf r.cuts
  pub inside : All (λ c. c.position + c.length ≤ r.stock_length) r.cuts
  pub accounted : total_length r.cuts + o.kerf * length r.cuts + r.waste ≡ r.stock_length + o.kerf
  pub nonempty : 0 < length r.cuts
  pub offcut :
      (w : WasteSegment)
      → r.usable_waste ≡ some w
      → (o.min_usable_waste ≤ w.length)
        × (w.position + w.length ≡ r.stock_length)
        × All (λ c. c.position + c.length + o.kerf ≤ w.position) r.cuts

bar_result-IsCutPlan :
    (o : Options1d) (b : Bar) → IsValidBar o.kerf b → IsCutPlan o (bar_result o b)
unfolding bar_result calculate_bar_waste
bar_result-IsCutPlan o b v = record {
  spaced = v.spaced;
  inside = All-map (λ c h. omega (arith, v.balance)) b.cuts v.ends;
  accounted = omega (arith, v.used, v.balance);
  nonempty = v.nonempty;
  offcut = λ w e. calculate_usable_waste_lem b o w v e;
}

pub All-results {κ} :
    (P : BarCuttingResult → Type κ) (o : Options1d) (bars : List Bar)
    → All (λ b. P (bar_result o b)) bars
    → All P (map (bar_result o) bars)
All-results P o [] h = tt
All-results P o (b ∷ bars) h = (h.0, All-results P o bars h.1)

pub All-get_all {κ} :
    (P : PieceInput1d → Type κ) (u : UnplacedCollector1d)
    → All (λ e. P (with_count e)) u
    → All P (get_all u)
unfolding get_all
All-get_all P [] h = tt
All-get_all P (e ∷ u) h = (h.0, All-get_all P u h.1)

-- Results that were cut from the stock item with this id.
abbrev pub results_of : String → List BarCuttingResult → ℕ
results_of k = sum_by (λ r. if str_eq r.stock_id k then 1 else 0)

pub results_of-map :
    (k : String) (o : Options1d) (bars : List Bar)
    → results_of k (map (bar_result o) bars) ≡ bars_of k bars
unfolding bar_result
results_of-map k o [] = refl
results_of-map k o (b ∷ bars) = omega (arith, results_of-map k o bars)

module _ (choose : Chooser) (lawful : IsChooser choose) (t : SortStrategy)
    (pieces : List PieceInput1d) (stock : List StockInput1d) (o : Options1d) where
  pub packed-AreValid : AreValid o.kerf (packed choose t pieces stock o)
  unfolding packed start
  packed-AreValid = fill_1d-AreValid choose o.kerf _ _ lawful tt

  pub packed-IsWithinBudget :
      IsWithinBudget stock (new_stock_1d stock t) (packed choose t pieces stock o)
  unfolding packed start
  packed-IsWithinBudget = fill_1d-IsWithinBudget stock _ choose o.kerf _ _ lawful (record {
    fixed = refl;
    sorted = new_stock_1d-All (λ s. Memᴰ s stock) t stock (All-Mem stock);
    real = tt;
    spent = λ k. omega arith;
  })

  pub packed-AreLeftovers :
      AreLeftovers o.kerf (packed choose t pieces stock o) (packed choose t pieces stock o).unplaced
  unfolding packed start
  packed-AreLeftovers = fill_1d-AreLeftovers choose o.kerf _ _ lawful tt

  finish-cut_plans : All (IsCutPlan o) (finish choose t pieces stock o).bars
  unfolding finish build_result
  finish-cut_plans = All-results (IsCutPlan o) o (packed choose t pieces stock o).active_bars (
      All-map (λ b v. bar_result-IsCutPlan o b v) (packed choose t pieces stock o).active_bars
        packed-AreValid)

-- Whatever the algorithm, each bar of the result has its cuts in order with a kerf between
-- neighbours and none beyond the stock, its pieces, kerfs and waste fill the stock exactly, and an
-- offcut that is reported as usable has the minimum length, lies behind the last cut and a kerf,
-- and ends with the bar.
pub optimize_1d-cut_plans :
    (a : Algorithm1d) (pieces : List PieceInput1d) (stock : List StockInput1d) (o : Options1d)
    → All (IsCutPlan o) (optimize_1d a pieces stock o).bars
optimize_1d-cut_plans a pieces stock o =
    let p = optimize_1d-IsPacking a in
    rw p.runs (finish-cut_plans p.choose p.lawful p.strategy pieces stock o)
