-- ===== src/Optimize1d/Tests.antt =====
-- Runs of the 1D optimiser, and its theorems at a concrete demand.
use nestra.Prelude.{
  ◌*◌, ◌+◌, ◌≤◌, ◌<◌, ◌≡◌, refl, true, false, List, [], ◌∷◌, some, All, sum_by, arith, get_elem?,
}
use nestra.Prelude.Dict.{lookup, insert}
use nestra.Pieces.{PieceInput1d, Piece1d, unit_1d, expand_1d_pieces, sort_1d_by_length_desc}
use nestra.Stock.{StockInput1d, new_stock_1d, find_available_stock_1d, consume_stock_1d}
use nestra.Stock.Budget.{supply, DistinctIds}
use nestra.Bars.{
  Bar, Options1d, create_active_bar, can_fit_in_bar, place_piece_in_bar, find_first_fit_bar,
  find_best_fit_bar,
}
use nestra.Bars.Plan.{IsValidBar, create_active_bar-IsValidBar, place_piece_in_bar-IsValidBar}
use nestra.Bars.Choice.{
  AllBefore, NoneBelow, leftover, find_first_fit_bar_lem, find_best_fit_bar_lem,
}
use nestra.Statistics.{calculate_1d_statistics}
use nestra.Unplaced1d.{add, get_all}
use nestra.Fill1d.{start, fill_1d}
use nestra.Optimize1d.{
  optimize_1d, first_fit_decreasing, best_fit_decreasing, finish, packed, build_result, ffd, bfd,
}
use nestra.Optimize1d.Safety.{IsCutPlan, optimize_1d-cut_plans, results_of}
use nestra.Optimize1d.Supply.{IsResultFrom, HasNoPlace, optimize_1d_stock, optimize_1d_maximal}
use nestra.Optimize1d.Totals.{HasAllItems, optimize_1d_items, optimize_1d_demand, cuts_weight, only}
use nestra.Optimize1d.Report.{IsHonest, optimize_1d-IsHonest}

abbrev demand : List PieceInput1d
demand =
    record { id = "leg"; length = 40; quantity = 3; order_item_id = "o1" }
    ∷ record { id = "rail"; length = 55; quantity = 2; order_item_id = "o2" }
    ∷ record { id = "beam"; length = 140; quantity = 2; order_item_id = "o3" }
    ∷ []

abbrev shelf : List StockInput1d
shelf =
    record { id = "short"; length = 100; available = 2 }
    ∷ record { id = "long"; length = 150; available = 1 }
    ∷ record { id = "gone"; length = 300; available = 0 }
    ∷ []

abbrev saw : Options1d
saw = record { kerf = 3; min_usable_waste = 10 }

shelf_distinct : DistinctIds shelf
shelf_distinct = ((refl, (refl, tt)), ((refl, tt), (tt, tt)))

ffd_waste : (optimize_1d ffd demand shelf saw).total_waste ≡ 14
unfolding optimize_1d first_fit_decreasing finish packed build_result expand_1d_pieces
    sort_1d_by_length_desc new_stock_1d start fill_1d find_available_stock_1d consume_stock_1d
    lookup insert find_first_fit_bar create_active_bar place_piece_in_bar add get_all
    calculate_1d_statistics
ffd_waste = refl

abbrev legs : List PieceInput1d
legs = record { id = "leg"; length = 40; quantity = 3; order_item_id = "o1" } ∷ []

legs_success : (optimize_1d bfd legs shelf saw).success ≡ true
unfolding optimize_1d best_fit_decreasing finish packed build_result expand_1d_pieces
    sort_1d_by_length_desc new_stock_1d start fill_1d find_available_stock_1d consume_stock_1d
    lookup insert find_best_fit_bar create_active_bar place_piece_in_bar add get_all
    calculate_1d_statistics
legs_success = refl

abbrev leg : Piece1d
leg = unit_1d (record { id = "leg"; length = 40; quantity = 3; order_item_id = "o1" }) 0

abbrev started : Bar
started = create_active_bar "short" 100 leg

abbrev longer : Bar
longer = create_active_bar "long" 150 leg

find_first_fit_bar_example :
    (bar : Bar) × (get_elem? (started ∷ longer ∷ []) 1 ≡ some bar)
    × (can_fit_in_bar bar 90 3 ≡ true)
    × AllBefore (λ b. can_fit_in_bar b 90 3 ≡ false) (started ∷ longer ∷ []) 1
unfolding find_first_fit_bar create_active_bar
find_first_fit_bar_example = find_first_fit_bar_lem (started ∷ longer ∷ []) 90 3 1 refl

find_best_fit_bar_example :
    (bar : Bar) × (get_elem? (longer ∷ started ∷ []) 1 ≡ some bar)
    × (can_fit_in_bar bar 50 3 ≡ true)
    × NoneBelow (leftover bar 50 3) (longer ∷ started ∷ []) 50 3
    × AllBefore
        (λ b. can_fit_in_bar b 50 3 ≡ true → leftover bar 50 3 < leftover b 50 3)
        (longer ∷ started ∷ [])
        1
unfolding find_best_fit_bar create_active_bar
find_best_fit_bar_example = find_best_fit_bar_lem (longer ∷ started ∷ []) 50 3 1 refl

place_piece_in_bar-IsValidBar_example : IsValidBar 3 (place_piece_in_bar started leg 3)
unfolding can_fit_in_bar create_active_bar
place_piece_in_bar-IsValidBar_example =
    place_piece_in_bar-IsValidBar 3 started leg
      (create_active_bar-IsValidBar 3 "short" 100 leg (omega arith)) refl

optimize_1d-cut_plans_example : All (IsCutPlan saw) (optimize_1d bfd demand shelf saw).bars
optimize_1d-cut_plans_example = optimize_1d-cut_plans bfd demand shelf saw

optimize_1d_stock_example :
    (results_of "short" (optimize_1d bfd demand shelf saw).bars ≤ supply "short" shelf)
    × All (IsResultFrom shelf) (optimize_1d bfd demand shelf saw).bars
optimize_1d_stock_example = optimize_1d_stock bfd demand shelf saw "short"

optimize_1d_maximal_example :
    All
      (HasNoPlace shelf saw (optimize_1d ffd demand shelf saw).bars)
      (optimize_1d ffd demand shelf saw).unplaced_pieces
optimize_1d_maximal_example = optimize_1d_maximal ffd demand shelf saw shelf_distinct

optimize_1d_items_example : HasAllItems demand (optimize_1d ffd demand shelf saw)
optimize_1d_items_example = optimize_1d_items ffd demand shelf saw

optimize_1d_demand_example :
    let r = optimize_1d ffd demand shelf saw in
    cuts_weight (only "leg") r.bars + sum_by (λ q. only "leg" q.id * q.quantity) r.unplaced_pieces
    ≡ 3
optimize_1d_demand_example = optimize_1d_demand ffd demand shelf saw "leg"

optimize_1d-IsHonest_example : IsHonest (optimize_1d bfd demand shelf saw)
optimize_1d-IsHonest_example = optimize_1d-IsHonest bfd demand shelf saw
