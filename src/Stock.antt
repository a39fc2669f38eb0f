-- ===== src/Stock.antt =====
-- backend/src/algorithms/core/stock-manager.ts: which stock is left, and what fits. The optional
-- `unitPrice` is read nowhere in this code and is left out.
use nestra.Prelude.{
  ℕ, ◌*◌, ◌-◌, String, Bool, true, false, ◌&&◌, ◌||◌, List, [], ◌∷◌, Option, none, some, leb, ltb,
  select, if◌then◌else◌,
}
use nestra.Prelude.Dict.{lookup, insert}
use nestra.Prelude.Sorting.{sort_by}
pub mod Budget
pub mod Setup
pub mod Sheets
pub mod SheetBudget

pub record StockInput1d : Type 0 where
  pub id : String
  pub length : ℕ
  pub available : ℕ

pub record StockInput2d : Type 0 where
  pub id : String
  pub width : ℕ
  pub height : ℕ
  pub available : ℕ

pub data SortStrategy : Type 0 where
  desc asc : SortStrategy

-- `usage` maps a stock id to its `remaining` count.
abbrev pub Usage : Type 0
Usage = List (String × ℕ)

pub record Stock1dManager : Type 0 where
  pub sorted_stock : List StockInput1d
  pub usage : Usage

pub record Stock2dManager : Type 0 where
  pub sorted_stock : List StockInput2d
  pub usage : Usage

unfoldable pub sort_stock : SortStrategy → List StockInput1d → List StockInput1d
unfolding sort_by
sort_stock desc = sort_by (λ a b. leb b.length a.length)
sort_stock asc = sort_by (λ a b. leb a.length b.length)

-- The constructor's loop that fills the map.
unfoldable pub init_usage_1d : List StockInput1d → Usage → Usage
init_usage_1d [] u = u
init_usage_1d (s ∷ ss) u = init_usage_1d ss (insert s.id s.available u)

unfoldable pub new_stock_1d : List StockInput1d → SortStrategy → Stock1dManager
unfolding sort_stock init_usage_1d
new_stock_1d stock strategy =
    let sorted = sort_stock strategy (select (λ s. ltb 0 s.available) stock) in
    record { sorted_stock = sorted; usage = init_usage_1d sorted [] }

-- `this.usage.get(id)?.remaining ?? 0`; it is also what the tests `entry && entry.remaining > 0`
-- compare with 0.
unfoldable pub remaining_of : Usage → String → ℕ
remaining_of u id = elim (lookup id u) [ none ↦ 0 | some r ↦ r ]

unfoldable pub get_remaining : Stock1dManager → String → ℕ
unfolding remaining_of
get_remaining m id = remaining_of m.usage id

unfoldable pub find_in : Usage → ℕ → List StockInput1d → Option StockInput1d
unfolding remaining_of
find_in u required [] = none
find_in u required (s ∷ ss) =
    if ltb 0 (remaining_of u s.id) && leb required s.length then some s else find_in u required ss

unfoldable pub find_available_stock_1d : Stock1dManager → ℕ → Option StockInput1d
unfolding find_in
find_available_stock_1d m required = find_in m.usage required m.sorted_stock

-- `if (entry && entry.remaining > 0) entry.remaining--`
unfoldable pub decrement : Usage → String → Usage
decrement u id = elim (lookup id u) [
  | none ↦ u
  | some r ↦ if ltb 0 r then insert id (r - 1) u else u
]

unfoldable pub consume_stock_1d : Stock1dManager → String → Stock1dManager
unfolding decrement
consume_stock_1d m id = record m { usage = decrement m.usage id }

unfoldable pub init_usage_2d : List StockInput2d → Usage → Usage
init_usage_2d [] u = u
init_usage_2d (s ∷ ss) u = init_usage_2d ss (insert s.id s.available u)

unfoldable pub new_stock_2d : List StockInput2d → Stock2dManager
unfolding sort_by init_usage_2d
new_stock_2d stock =
    let sorted =
      sort_by (λ a b. leb (b.width * b.height) (a.width * a.height))
        (select (λ s. ltb 0 s.available) stock) in
    record { sorted_stock = sorted; usage = init_usage_2d sorted [] }

-- The test of `Stock2DManager.findAvailableStock`: either way round.
abbrev pub fits_either_way : StockInput2d → ℕ → ℕ → Bool
fits_either_way s width height =
    (leb width s.width && leb height s.height) || (leb height s.width && leb width s.height)

unfoldable pub find_in_2d : Usage → ℕ → ℕ → List StockInput2d → Option StockInput2d
unfolding remaining_of
find_in_2d u width height [] = none
find_in_2d u width height (s ∷ ss) =
    if ltb 0 (remaining_of u s.id) && fits_either_way s width height
    then some s
    else find_in_2d u width height ss

unfoldable pub find_available_stock_2d : Stock2dManager → ℕ → ℕ → Option StockInput2d
unfolding find_in_2d
find_available_stock_2d m width height = find_in_2d m.usage width height m.sorted_stock

unfoldable pub consume_stock_2d : Stock2dManager → String → Stock2dManager
unfolding decrement
consume_stock_2d m id = record m { usage = decrement m.usage id }

unfoldable pub get_available_stock_2d : Stock2dManager → List StockInput2d
unfolding remaining_of
get_available_stock_2d m = select (λ s. ltb 0 (remaining_of m.usage s.id)) m.sorted_stock
