-- ===== src/Cutting2d.antt =====
-- backend/src/algorithms/2d/cutting2d.ts, the 2D optimiser that the worker threads call. What it
-- writes out again of 2d/geometry.ts and 2d/sheet-manager.ts is modelled by definitions of its own.
mod Report
mod Placing
pub mod Agreement
pub mod Sheet
pub mod Totals
pub mod Places
pub mod Balance
pub mod Results
unfoldable pub use Report.*
unfoldable pub use Placing.*
use nestra.Prelude.{
  ℕ, ◌-◌, ◌*◌, false, ◌&&◌, List, [], ◌∷◌, Option, none, some, ltb, leb, select, if◌then◌else◌,
}
use nestra.Prelude.Sorting.{sort_by}
use nestra.Prelude.Dict.{insert}
use nestra.Geometry.{Orientation}
use nestra.Stock.{StockInput2d, Usage, remaining_of, init_usage_2d}
use nestra.Sheets.{ActiveSheet, Options2d, placement_at}
use nestra.Grained.{GrainedInput, GrainedPiece, expand_pieces, orientations_of}
use nestra.Packing.{Packer, PackState, write_first, pack}

unfoldable pub try_place_in_active_sheets_bl :
    Options2d → List ActiveSheet → GrainedPiece → Option (List ActiveSheet)
unfolding write_first place_in_sheet orientations_of
try_place_in_active_sheets_bl o sheets p =
    write_first (λ s. place_in_sheet s p o.kerf (orientations_of p o.allow_rotation false)) sheets

-- The first orientation that fits in the stock item.
unfoldable pub fitting : StockInput2d → List Orientation → Option Orientation
fitting s [] = none
fitting s (orient ∷ orients) =
    if leb orient.width s.width && leb orient.height s.height
    then some orient
    else fitting s orients

-- The loop over the stock. `usage.get(id)!` is at most 0 in the test where there is no entry, as
-- `remaining_of` is.
unfoldable pub open_from :
    (StockInput2d → Orientation → ActiveSheet)
    → Usage
    → List Orientation
    → List StockInput2d
    → Option (ActiveSheet × Usage)
unfolding fitting remaining_of
open_from make u orients [] = none
open_from make u orients (s ∷ ss) =
    let rest = open_from make u orients ss in
    if ltb 0 (remaining_of u s.id)
    then elim (fitting s orients) [
      | some orient ↦ some (make s orient, insert s.id (remaining_of u s.id - 1) u)
      | none ↦ rest
    ]
    else rest

unfoldable pub new_sheet_bl : GrainedPiece → StockInput2d → Orientation → ActiveSheet
new_sheet_bl p s orient = record {
  stock_id = s.id;
  width = s.width;
  height = s.height;
  placements = placement_at p.piece 0 0 orient.width orient.height orient.rotated ∷ [];
  free_rects = none;
}

unfoldable pub try_create_new_sheet_bl :
    List StockInput2d → Options2d → Usage → GrainedPiece → Option (ActiveSheet × Usage)
unfolding open_from new_sheet_bl orientations_of
try_create_new_sheet_bl stock o u p =
    open_from (new_sheet_bl p) u (orientations_of p o.allow_rotation false) stock

unfoldable pub initialize_guillotine_sheet :
    ℕ → GrainedPiece → StockInput2d → Orientation → ActiveSheet
unfolding initial_splits new_sheet_bl
initialize_guillotine_sheet kerf p s orient = record (new_sheet_bl p s orient) {
  free_rects = some (initial_splits s orient kerf);
}

unfoldable pub try_create_new_sheet_guillotine :
    List StockInput2d → Options2d → Usage → GrainedPiece → Option (ActiveSheet × Usage)
unfolding open_from initialize_guillotine_sheet orientations_of
try_create_new_sheet_guillotine stock o u p =
    open_from (initialize_guillotine_sheet o.kerf p) u (orientations_of p o.allow_rotation false)
      stock

-- The new entry of the unplaced list leaves `grainDirection` out.
unfoldable pub entry_of : GrainedPiece → GrainedInput
entry_of p = record {
  input = record {
    id = p.piece.original_id;
    width = p.piece.width;
    height = p.piece.height;
    quantity = 1;
    order_item_id = p.piece.order_item_id;
    can_rotate = p.piece.can_rotate;
  };
  grain = none;
}

-- What the two loops call.
unfoldable pub bottom_left_calls : List StockInput2d → Options2d → Packer ActiveSheet Usage
bottom_left_calls stock o = record {
  try_existing = try_place_in_active_sheets_bl o;
  open_new = try_create_new_sheet_bl stock o;
  entry_of = entry_of;
}

unfoldable pub guillotine_calls : List StockInput2d → Options2d → Packer ActiveSheet Usage
guillotine_calls stock o = record {
  try_existing = λ sheets p. write_first (try_place_guillotine_in_sheet o p) sheets;
  open_new = try_create_new_sheet_guillotine stock o;
  entry_of = entry_of;
}

abbrev pub piece_area : GrainedPiece → ℕ
piece_area p = p.piece.width * p.piece.height

unfoldable pub sorted_pieces : List GrainedInput → List GrainedPiece
unfolding sort_by expand_pieces
sorted_pieces pieces = sort_by (λ a b. leb (piece_area b) (piece_area a)) (expand_pieces pieces)

unfoldable pub sort_available : List StockInput2d → List StockInput2d
unfolding sort_by
sort_available stock =
    sort_by (λ a b. leb (b.width * b.height) (a.width * a.height))
      (select (λ s. ltb 0 s.available) stock)

-- The state at the end of the loop over the pieces.
unfoldable pub packed :
    (List StockInput2d → Options2d → Packer ActiveSheet Usage)
    → List GrainedInput
    → List StockInput2d
    → Options2d
    → PackState ActiveSheet Usage
unfolding pack sorted_pieces sort_available
packed calls pieces stock o =
    let sorted_stock = sort_available stock in
    pack (calls sorted_stock o)
      (record { active_sheets = []; usage = init_usage_2d sorted_stock []; unplaced = [] })
      (sorted_pieces pieces)

unfoldable pub finish :
    (List StockInput2d → Options2d → Packer ActiveSheet Usage)
    → List GrainedInput
    → List StockInput2d
    → Options2d
    → PackingResult
finish calls pieces stock o =
    let f = packed calls pieces stock o in
    build_results f.active_sheets (sorted_pieces pieces) f.unplaced

unfoldable pub bottom_left_fill : List GrainedInput → List StockInput2d → Options2d → PackingResult
bottom_left_fill = finish bottom_left_calls

unfoldable pub guillotine_cutting :
    List GrainedInput → List StockInput2d → Options2d → PackingResult
guillotine_cutting = finish guillotine_calls
