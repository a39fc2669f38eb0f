-- ===== src/Cutting1d/Tests.antt =====
-- Theorems about cutting1d.ts at concrete bars.
use nestra.Prelude.Int.{negsuc}
use nestra.Prelude.{map, refl, ◌≡◌, List, [], ◌∷◌, some}
use nestra.Pieces.{PieceInput1d}
use nestra.Stock.{StockInput1d}
use nestra.Bars.{Options1d}
use nestra.Optimize1d.{bfd}
use nestra.Optimize1d
use nestra.Prelude.Sorting.{sort_by}
use nestra.Prelude.Dict.{lookup, insert}
use nestra.Cutting1d.{
  best_fit_decreasing, run, find_best_fit_bar, find_available_stock, fill_usage, optimize_1d,
}
use nestra.Cutting1d.Plans.{Agrees, optimize_1d-Agrees}
use nestra.Cutting1d.Offcuts.{ComparesBars, optimize_1d_offcuts}

abbrev thick_saw : Options1d
thick_saw = record { kerf = 4; min_usable_waste = 2 }

abbrev orders : List PieceInput1d
orders = record { id = "leg"; length = 40; quantity = 3; order_item_id = "o1" } ∷ []

abbrev rack : List StockInput1d
rack = record { id = "short"; length = 100; available = 2 } ∷ []

optimize_1d-Agrees_example :
    Agrees
      (optimize_1d bfd orders rack thick_saw)
      (Optimize1d.optimize_1d bfd orders rack thick_saw)
optimize_1d-Agrees_example = optimize_1d-Agrees bfd orders rack thick_saw

abbrev long_leg : List PieceInput1d
long_leg = record { id = "leg"; length = 97; quantity = 1; order_item_id = "o1" } ∷ []

-- Of 100 a piece of 97 leaves 3, which is above the minimum of 2 but not after a cut of 4.
short_offcut :
    map (λ b. b.usable_waste) (optimize_1d bfd long_leg rack thick_saw).bars
    ≡ some (record { position = 101; length = negsuc 0 }) ∷ []
unfolding optimize_1d best_fit_decreasing run sort_by find_best_fit_bar find_available_stock lookup
    fill_usage insert
short_offcut = refl

optimize_1d_offcuts_example :
    ComparesBars 2
      (optimize_1d bfd long_leg rack thick_saw).bars
      (Optimize1d.optimize_1d bfd long_leg rack thick_saw).bars
optimize_1d_offcuts_example = optimize_1d_offcuts bfd long_leg rack thick_saw
