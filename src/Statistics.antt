-- ===== src/Statistics.antt =====
-- backend/src/algorithms/core/statistics-calculator.ts, for bars. Percentages are floating-point
-- quotients in the source; here `ratio part whole` stands for `(part / whole) * 100`, unrounded.
pub mod Balance
use nestra.Prelude.{ℕ, ◌+◌, ◌-◌, List, [], ◌∷◌, ltb, if◌then◌else◌}
use nestra.Bars.{Bar}

pub data Percentage : Type 0 where
  zero_percent : Percentage
  ratio : ℕ → ℕ → Percentage

-- `whole > 0 ? (part / whole) * 100 : 0`
abbrev pub percentage : ℕ → ℕ → Percentage
percentage part whole = if ltb 0 whole then ratio part whole else zero_percent

pub record Statistics1d : Type 0 where
  pub total_pieces : ℕ
  pub total_stock_length : ℕ
  pub total_used_length : ℕ
  pub efficiency : Percentage
  pub total_waste : ℕ
  pub waste_percentage : Percentage

-- The loop's two sums, `(totalStockLength, totalWaste)`.
unfoldable pub bar_sums : ℕ → ℕ → List Bar → ℕ × ℕ
bar_sums stock waste [] = (stock, waste)
bar_sums stock waste (bar ∷ bars) =
    bar_sums (stock + bar.stock_length) (waste + bar.remaining_length) bars

unfoldable pub calculate_1d_statistics : List Bar → ℕ → Statistics1d
unfolding bar_sums
calculate_1d_statistics bars placed =
    let (stock, waste) = bar_sums 0 0 bars in
    let used = stock - waste in
    record {
      total_pieces = placed;
      total_stock_length = stock;
      total_used_length = used;
      efficiency = percentage used stock;
      total_waste = waste;
      waste_percentage = percentage waste stock;
    }

pub record BarWaste : Type 0 where
  pub waste : ℕ
  pub waste_percentage : Percentage

unfoldable pub calculate_bar_waste : Bar → BarWaste
calculate_bar_waste bar = record {
  waste = bar.remaining_length;
  waste_percentage = percentage bar.remaining_length bar.stock_length;
}
