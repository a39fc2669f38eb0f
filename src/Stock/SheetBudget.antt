-- ===== src/Stock/SheetBudget.antt =====
-- The units that `Stock2DManager` starts with.
use text.Mathlib.Text.{◌==◌ as str_eq}
use nestra.Prelude.{
  ℕ, ◌+◌, ◌*◌, ◌≤◌, ◌≡◌, refl, String, Bool, List, [], ◌∷◌, arith, ltb, leb, select, sum_by,
  sum_by-perm, if◌then◌else◌,
}
use nestra.Prelude.Dict.{insert}
use nestra.Prelude.Sorting.{sort_by-perm}
use nestra.Stock.{StockInput2d, Usage, remaining_of, init_usage_2d, new_stock_2d}
use nestra.Stock.Budget.{remaining_of-insert}

-- The units of an id that a list of sheets holds.
abbrev pub sheet_supply : String → List StockInput2d → ℕ
sheet_supply k = sum_by (λ s. if str_eq s.id k then s.available else 0)

pub init_usage_2d-le-supply :
    (k : String) (ss : List StockInput2d) (u : Usage)
    → remaining_of (init_usage_2d ss u) k ≤ remaining_of u k + sheet_supply k ss
unfolding init_usage_2d
init_usage_2d-le-supply k [] u = omega arith
init_usage_2d-le-supply k (s ∷ ss) u = ground (
  arith,
  init_usage_2d-le-supply k ss (insert s.id s.available u),
  remaining_of-insert u s.id k s.available,
)

pub sheet_supply-select :
    (k : String) (p : StockInput2d → Bool) (ss : List StockInput2d)
    → sheet_supply k (select p ss) ≤ sheet_supply k ss
sheet_supply-select k p [] = omega arith
sheet_supply-select k p (s ∷ ss) = ground (arith, sheet_supply-select k p ss)

-- The manager never starts with more units of an id than the stock holds.
pub new_stock_2d-le-supply :
    (k : String) (stock : List StockInput2d)
    → remaining_of (new_stock_2d stock).usage k ≤ sheet_supply k stock
unfolding new_stock_2d
new_stock_2d-le-supply k stock =
    let usable = select (λ s. ltb 0 s.available) stock in
    let empty : remaining_of [] k ≡ 0 =
      unfold remaining_of in (unfold nestra.Prelude.Dict.lookup in refl) in
    omega (
      arith,
      init_usage_2d-le-supply k (new_stock_2d stock).sorted_stock [],
      sum_by-perm (λ (s : StockInput2d). if str_eq s.id k then s.available else 0)
          (sort_by-perm (λ (a : StockInput2d) b. leb (b.width * b.height) (a.width * a.height))
            usable),
      sheet_supply-select k (λ s. ltb 0 s.available) stock,
      empty,
    )
