-- ===== src/Cutting1d.antt =====
-- backend/src/algorithms/1d/cutting1d.ts, the single-file optimiser that the workers call
-- (backend/src/workers/optimization). Its interfaces have the fields of those of core/types.ts and
-- share their records here; its functions are written out again, as in the source.
pub mod Agreement
pub mod Plans
pub mod Offcuts
mod Tests
use text.Mathlib.Text.{◌==◌ as str_eq}
use nestra.Prelude.{
  ℕ, zero, suc, ◌+◌, ◌-◌, String, Bool, true, false, ◌&&◌, List, [], ◌∷◌, ◌++◌, Option, none, some,
  leb, ltb, length, select, modify, sum_by, if◌then◌else◌,
}
use nestra.Prelude.Dict.{lookup, insert}
use nestra.Prelude.Int.{ℤ, sub_ℕ}
use nestra.Prelude.Sorting.{sort_by}
use nestra.Pieces.{PieceInput1d, Piece1d, unit_1d}
use nestra.Stock.{StockInput1d, Usage}
use nestra.Bars.{Bar, Cut, Options1d, Best, improves, best_index, cut_at}
use nestra.Statistics.{Percentage, ratio, percentage}
use nestra.Optimize1d.{ResultStatistics1d, is_nil, Algorithm1d, ffd, bfd, branch_bound, other}

unfoldable pub expand_units : PieceInput1d → ℕ → ℕ → List Piece1d
expand_units p i zero = []
expand_units p i (suc n) = unit_1d p i ∷ expand_units p (i + 1) n

unfoldable pub expand_pieces : List PieceInput1d → List Piece1d
unfolding expand_units
expand_pieces [] = []
expand_pieces (p ∷ ps) = expand_units p 0 p.quantity ++ expand_pieces ps

-- `pieceLength + (bar.cuts.length > 0 ? kerf : 0)`
abbrev pub required : Bar → ℕ → ℕ → ℕ
required bar piece_length kerf = piece_length + (if ltb 0 (length bar.cuts) then kerf else 0)

-- `activeBars.find(...)`, from the index `i` on.
unfoldable pub find_fit_from : List Bar → ℕ → ℕ → ℕ → Option ℕ
find_fit_from [] piece_length kerf i = none
find_fit_from (bar ∷ bars) piece_length kerf i =
    if leb (required bar piece_length kerf) bar.remaining_length
    then some i
    else find_fit_from bars piece_length kerf (i + 1)

unfoldable pub find_first_fit_bar : List Bar → ℕ → ℕ → Option ℕ
unfolding find_fit_from
find_first_fit_bar bars piece_length kerf = find_fit_from bars piece_length kerf 0

unfoldable pub find_best_from : List Bar → ℕ → ℕ → ℕ → Best → Best
find_best_from [] piece_length kerf i best = best
find_best_from (bar ∷ bars) piece_length kerf i best =
    let remaining = bar.remaining_length - required bar piece_length kerf in
    find_best_from bars piece_length kerf (i + 1) (
      if leb (required bar piece_length kerf) bar.remaining_length
      then (if improves remaining best then some (i, remaining) else best)
      else best)

unfoldable pub find_best_fit_bar : List Bar → ℕ → ℕ → Option ℕ
unfolding find_best_from
find_best_fit_bar bars piece_length kerf = best_index (find_best_from bars piece_length kerf 0 none)

unfoldable pub place_piece : Bar → Piece1d → ℕ → Bar
place_piece bar piece kerf =
    let position = bar.current_position + (if ltb 0 (length bar.cuts) then kerf else 0) in
    record bar {
      cuts = bar.cuts ++ cut_at piece position ∷ [];
      current_position = position + piece.length;
      remaining_length = bar.remaining_length - required bar piece.length kerf;
    }

-- `usage && usage.remaining > 0`
abbrev pub has_unit : Option ℕ → Bool
has_unit none = false
has_unit (some r) = ltb 0 r

-- The reference to the usage entry is the id of the stock that is found.
unfoldable pub find_available_stock : List StockInput1d → Usage → ℕ → Option StockInput1d
find_available_stock [] usage piece_length = none
find_available_stock (s ∷ ss) usage piece_length =
    if has_unit (lookup s.id usage) && leb piece_length s.length
    then some s
    else find_available_stock ss usage piece_length

-- `stockInfo.usage.remaining--`, made only after the test that it is above 0.
unfoldable pub take_unit : Usage → String → Usage
take_unit usage id = elim (lookup id usage) [ none ↦ usage | some r ↦ insert id (r - 1) usage ]

unfoldable pub create_active_bar : StockInput1d → Piece1d → Bar
create_active_bar stock piece = record {
  stock_id = stock.id;
  stock_length = stock.length;
  remaining_length = stock.length - piece.length;
  current_position = piece.length;
  cuts = cut_at piece 0 ∷ [];
}

-- `find` by id and `quantity++`, or `push`.
unfoldable pub add_unplaced_piece : List PieceInput1d → Piece1d → List PieceInput1d
add_unplaced_piece [] piece =
    record {
      id = piece.original_id;
      length = piece.length;
      quantity = 1;
      order_item_id = piece.order_item_id;
    }
    ∷ []
add_unplaced_piece (q ∷ qs) piece =
    if str_eq q.id piece.original_id
    then record q { quantity = q.quantity + 1 } ∷ qs
    else q ∷ add_unplaced_piece qs piece

-- `waste - kerf` may be negative here.
pub record Offcut : Type 0 where
  pub position : ℕ
  pub length : ℤ

pub record BarResult : Type 0 where
  pub stock_id : String
  pub stock_length : ℕ
  pub cuts : List Cut
  pub waste : ℕ
  pub waste_percentage : Percentage
  pub usable_waste : Option Offcut

unfoldable pub bar_result : ℕ → ℕ → Bar → BarResult
bar_result min_usable_waste kerf bar = record {
  stock_id = bar.stock_id;
  stock_length = bar.stock_length;
  cuts = bar.cuts;
  waste = bar.remaining_length;
  waste_percentage = ratio bar.remaining_length bar.stock_length;
  usable_waste =
      if leb min_usable_waste bar.remaining_length
      then some (record {
        position = bar.current_position + kerf;
        length = sub_ℕ bar.remaining_length kerf;
      })
      else none;
}

pub record Built : Type 0 where
  pub results : List BarResult
  pub total_waste : ℕ
  pub total_stock_length : ℕ
  pub total_used_length : ℕ

unfoldable pub build_loop : ℕ → ℕ → Built → List Bar → Built
unfolding bar_result
build_loop min_usable_waste kerf b [] = b
build_loop min_usable_waste kerf b (bar ∷ bars) =
    build_loop min_usable_waste kerf
      (record {
        results = b.results ++ bar_result min_usable_waste kerf bar ∷ [];
        total_waste = b.total_waste + bar.remaining_length;
        total_stock_length = b.total_stock_length + bar.stock_length;
        total_used_length = b.total_used_length + (bar.stock_length - bar.remaining_length);
      })
      bars

unfoldable pub build_results : List Bar → ℕ → ℕ → Built
unfolding build_loop
build_results bars min_usable_waste kerf =
    build_loop min_usable_waste kerf
      (record { results = []; total_waste = 0; total_stock_length = 0; total_used_length = 0 }) bars

pub record Optimization1dResult : Type 0 where
  pub success : Bool
  pub bars : List BarResult
  pub total_waste : ℕ
  pub total_waste_percentage : Percentage
  pub stock_used_count : ℕ
  pub unplaced_pieces : List PieceInput1d
  pub statistics : ResultStatistics1d

pub record Progress : Type 0 where
  pub active_bars : List Bar
  pub stock_usage : Usage
  pub unplaced_pieces : List PieceInput1d

unfoldable pub open_bar : List StockInput1d → Progress → Piece1d → Progress
unfolding create_active_bar take_unit
open_bar sorted g piece = elim (find_available_stock sorted g.stock_usage piece.length) [
  | none ↦ record g { unplaced_pieces = add_unplaced_piece g.unplaced_pieces piece }
  | some stock ↦ record g {
    active_bars = g.active_bars ++ create_active_bar stock piece ∷ [];
    stock_usage = take_unit g.stock_usage stock.id;
  }
]

-- One round of the loop; `choose` is `findFirstFitBar` or `findBestFitBar`.
unfoldable pub round :
    (List Bar → ℕ → ℕ → Option ℕ) → ℕ → List StockInput1d → Progress → Piece1d → Progress
unfolding open_bar place_piece
round choose kerf sorted g piece = elim (choose g.active_bars piece.length kerf) [
  | none ↦ open_bar sorted g piece
  | some i ↦ record g { active_bars = modify (λ bar. place_piece bar piece kerf) g.active_bars i }
]

unfoldable pub rounds :
    (List Bar → ℕ → ℕ → Option ℕ) → ℕ → List StockInput1d → Progress → List Piece1d → Progress
unfolding round
rounds choose kerf sorted g [] = g
rounds choose kerf sorted g (p ∷ ps) = rounds choose kerf sorted (round choose kerf sorted g p) ps

unfoldable pub fill_usage : List StockInput1d → Usage → Usage
fill_usage [] u = u
fill_usage (s ∷ ss) u = fill_usage ss (insert s.id s.available u)

-- The tail of both algorithms: the results and the literal that is returned.
unfoldable pub report : ℕ → Progress → Options1d → Optimization1dResult
unfolding build_results
report expanded g o =
    let b = build_results g.active_bars o.min_usable_waste o.kerf in
    record {
      success = is_nil g.unplaced_pieces;
      bars = b.results;
      total_waste = b.total_waste;
      total_waste_percentage = percentage b.total_waste b.total_stock_length;
      stock_used_count = length b.results;
      unplaced_pieces = g.unplaced_pieces;
      statistics = record {
        total_pieces = expanded - sum_by (λ q. q.quantity) g.unplaced_pieces;
        total_stock_length = b.total_stock_length;
        total_used_length = b.total_used_length;
        efficiency = percentage b.total_used_length b.total_stock_length;
      };
    }

-- The body that both algorithms share, from the sorted stock on.
unfoldable pub run :
    (List Bar → ℕ → ℕ → Option ℕ)
    → List StockInput1d
    → List PieceInput1d
    → Options1d
    → Optimization1dResult
unfolding rounds report expand_pieces
run choose sorted pieces o =
    let expanded = sort_by (λ (a : Piece1d) b. leb b.length a.length) (expand_pieces pieces) in
    report (length expanded)
      (rounds choose o.kerf sorted
        (record { active_bars = []; stock_usage = fill_usage sorted []; unplaced_pieces = [] })
        expanded)
      o

unfoldable pub first_fit_decreasing :
    List PieceInput1d → List StockInput1d → Options1d → Optimization1dResult
first_fit_decreasing pieces stock_bars o =
    run find_first_fit_bar
      (sort_by (λ (a : StockInput1d) b. leb b.length a.length)
        (select (λ s. ltb 0 s.available) stock_bars))
      pieces o

unfoldable pub best_fit_decreasing :
    List PieceInput1d → List StockInput1d → Options1d → Optimization1dResult
best_fit_decreasing pieces stock_bars o =
    run find_best_fit_bar
      (sort_by (λ (a : StockInput1d) b. leb a.length b.length)
        (select (λ s. ltb 0 s.available) stock_bars))
      pieces o

unfoldable pub optimize_1d :
    Algorithm1d → List PieceInput1d → List StockInput1d → Options1d → Optimization1dResult
optimize_1d ffd = first_fit_decreasing
optimize_1d bfd = best_fit_decreasing
optimize_1d branch_bound = best_fit_decreasing
optimize_1d other = first_fit_decreasing
