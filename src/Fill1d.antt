-- ===== src/Fill1d.antt =====
-- The packing loop of backend/src/algorithms/1d/ffd-algorithm.ts and bfd-algorithm.ts. The two
-- bodies differ only in the call that chooses a bar and in the order of the stock; the choice is
-- the parameter `choose`.
pub mod Accounts
pub mod Plans
pub mod Budgets
pub mod Leftovers
use nestra.Prelude.{ℕ, List, [], ◌∷◌, ◌++◌, Option, none, some, modify}
use nestra.Pieces.{Piece1d}
use nestra.Stock.{Stock1dManager, find_available_stock_1d, consume_stock_1d}
use nestra.Bars.{Bar, create_active_bar, place_piece_in_bar}
use nestra.Unplaced1d.{UnplacedCollector1d, add}

pub record Filling : Type 0 where
  pub active_bars : List Bar
  pub stock_manager : Stock1dManager
  pub unplaced : UnplacedCollector1d

abbrev pub Chooser : Type 0
Chooser = List Bar → ℕ → ℕ → Option ℕ

unfoldable pub start : Stock1dManager → Filling
start m = record { active_bars = []; stock_manager = m; unplaced = [] }

-- "If not placed, try to get new bar from stock", and "Track unplaced pieces".
unfoldable pub open_new_bar : Filling → Piece1d → Filling
open_new_bar f piece = elim (find_available_stock_1d f.stock_manager piece.length) [
  | none ↦ record f { unplaced = add f.unplaced piece }
  | some stock ↦ record f {
    active_bars = f.active_bars ++ create_active_bar stock.id stock.length piece ∷ [];
    stock_manager = consume_stock_1d f.stock_manager stock.id;
  }
]

-- One round: `placePieceInBar` writes through the chosen reference.
unfoldable pub place_1d : Chooser → ℕ → Filling → Piece1d → Filling
unfolding open_new_bar
place_1d choose kerf f piece = elim (choose f.active_bars piece.length kerf) [
  | none ↦ open_new_bar f piece
  | some i ↦ record f {
    active_bars = modify (λ bar. place_piece_in_bar bar piece kerf) f.active_bars i;
  }
]

unfoldable pub fill_1d : Chooser → ℕ → Filling → List Piece1d → Filling
unfolding place_1d
fill_1d choose kerf f [] = f
fill_1d choose kerf f (piece ∷ pieces) = fill_1d choose kerf (place_1d choose kerf f piece) pieces
