-- ===== src/Fill2d.antt =====
-- The packing loop of backend/src/algorithms/2d/bottom-left-algorithm.ts and
-- guillotine-algorithm.ts. The two bodies differ only in the call that places a piece in a sheet
-- and in the call that makes a sheet, which are the parameter `method`.
pub mod Invariant
pub mod Accounts
pub mod Budgets
use nestra.Prelude.{String, ℕ, Bool, false, List, [], ◌∷◌, ◌++◌, Option, none, some}
use nestra.Pieces.{Piece2d}
use nestra.Stock.{StockInput2d, Stock2dManager, find_available_stock_2d, consume_stock_2d}
use nestra.Geometry.{Orientation, get_orientations}
use nestra.Sheets.{ActiveSheet, Options2d, try_place_bottom_left, create_active_sheet}
use nestra.Guillotine.{try_place_guillotine, create_guillotine_sheet}
use nestra.Unplaced2d.{UnplacedCollector2d, add}

pub record Method : Type 0 where
  pub try_place : ActiveSheet → Piece2d → Option ActiveSheet
  pub create : StockInput2d → Piece2d → Bool → ActiveSheet

unfoldable pub bottom_left : Options2d → Method
bottom_left o = record {
  try_place = λ sheet piece. try_place_bottom_left sheet piece o;
  create = λ s piece rotated. create_active_sheet s.id s.width s.height piece rotated;
}

unfoldable pub guillotine : Options2d → Method
guillotine o = record {
  try_place = λ sheet piece. try_place_guillotine sheet piece o;
  create = λ s piece rotated. create_guillotine_sheet s.id s.width s.height piece rotated o.kerf;
}

pub record Filling2d : Type 0 where
  pub active_sheets : List ActiveSheet
  pub stock_manager : Stock2dManager
  pub unplaced : UnplacedCollector2d

unfoldable pub start_2d : Stock2dManager → Filling2d
start_2d m = record { active_sheets = []; stock_manager = m; unplaced = [] }

abbrev pub cons_to : ActiveSheet → Option (List ActiveSheet) → Option (List ActiveSheet)
cons_to sheet none = none
cons_to sheet (some sheets) = some (sheet ∷ sheets)

-- "Try existing sheets": the first sheet that takes the piece is written to.
unfoldable pub try_sheets : Method → Piece2d → List ActiveSheet → Option (List ActiveSheet)
try_sheets method piece [] = none
try_sheets method piece (sheet ∷ sheets) = elim (method.try_place sheet piece) [
  | some written ↦ some (written ∷ sheets)
  | none ↦ cons_to sheet (try_sheets method piece sheets)
]

-- "Try new sheet": the loop over the orientations.
unfoldable pub open_oriented :
    Method → Stock2dManager → Piece2d → List Orientation → Option (ActiveSheet × Stock2dManager)
open_oriented method m piece [] = none
open_oriented method m piece (orient ∷ orients) =
    elim (find_available_stock_2d m orient.width orient.height) [
      | some s ↦ some (method.create s piece orient.rotated, consume_stock_2d m s.id)
      | none ↦ open_oriented method m piece orients
    ]

unfoldable pub open_new_sheet : Method → Options2d → Filling2d → Piece2d → Filling2d
unfolding open_oriented get_orientations
open_new_sheet method o f piece =
    elim (open_oriented method f.stock_manager piece
      (get_orientations piece.width piece.height piece.can_rotate o.allow_rotation none false)) [
        | some (sheet, m) ↦ record f {
          active_sheets = f.active_sheets ++ sheet ∷ [];
          stock_manager = m;
        }
        | none ↦ record f { unplaced = add f.unplaced piece }
      ]

unfoldable pub place_2d : Method → Options2d → Filling2d → Piece2d → Filling2d
unfolding try_sheets open_new_sheet
place_2d method o f piece = elim (try_sheets method piece f.active_sheets) [
  | some sheets ↦ record f { active_sheets = sheets }
  | none ↦ open_new_sheet method o f piece
]

unfoldable pub fill_2d : Method → Options2d → Filling2d → List Piece2d → Filling2d
unfolding place_2d
fill_2d method o f [] = f
fill_2d method o f (piece ∷ pieces) = fill_2d method o (place_2d method o f piece) pieces
