-- ===== src/Statistics/Balance.antt =====
-- The sums of calculate1DStatistics (core/statistics-calculator.ts).
use nestra.Prelude.{ℕ, ◌+◌, ◌≤◌, ◌≡◌, refl, List, [], ◌∷◌, arith, sum_by, All}
use nestra.Bars.{Bar}
use nestra.Statistics.{bar_sums, calculate_1d_statistics}

pub bar_sums_lem :
    (s w : ℕ) (bars : List Bar)
    → bar_sums s w bars
      ≡ (s + sum_by (λ b. b.stock_length) bars, w + sum_by (λ b. b.remaining_length) bars)
unfolding bar_sums
bar_sums_lem s w [] = ground arith
bar_sums_lem s w (b ∷ bars) =
    ground (arith, bar_sums_lem (s + b.stock_length) (w + b.remaining_length) bars)

pub waste-le :
    (bars : List Bar)
    → All (λ b. b.remaining_length ≤ b.stock_length) bars
    → sum_by (λ b. b.remaining_length) bars ≤ sum_by (λ b. b.stock_length) bars
waste-le [] h = omega arith
waste-le (b ∷ bars) h = omega (arith, h.0, waste-le bars h.1)

-- Stock and waste are the bars' totals, and what is used is the difference.
pub calculate_1d_statistics_lem :
    (bars : List Bar) (n : ℕ)
    → All (λ b. b.remaining_length ≤ b.stock_length) bars
    → let s = calculate_1d_statistics bars n in
      (s.total_pieces ≡ n)
      × (s.total_stock_length ≡ sum_by (λ b. b.stock_length) bars)
      × (s.total_waste ≡ sum_by (λ b. b.remaining_length) bars)
      × (s.total_used_length + s.total_waste ≡ s.total_stock_length)
unfolding calculate_1d_statistics
calculate_1d_statistics_lem bars n h =
    rw (bar_sums_lem 0 0 bars) (refl, omega arith, omega arith, omega (arith, waste-le bars h))
