-- ===== src/Unplaced2d.antt =====
-- backend/src/algorithms/2d/unplaced-collector.ts: sheet pieces that could not be placed, grouped by
-- the id of the demand that they come from.
pub mod Totals
use nestra.Prelude.{
  ℕ, ◌+◌, String, Bool, true, false, List, [], ◌∷◌, Option, none, some, map, sum_by,
}
use nestra.Prelude.Dict.{lookup, insert}
use nestra.Pieces.{Piece2d, PieceInput2d}

pub record Entry : Type 0 where
  pub piece : PieceInput2d
  pub count : ℕ

abbrev pub UnplacedCollector2d : Type 0
UnplacedCollector2d = List (String × Entry)

abbrev first_entry : Piece2d → Entry
first_entry piece = record {
  piece = record {
    id = piece.original_id;
    width = piece.width;
    height = piece.height;
    quantity = 1;
    order_item_id = piece.order_item_id;
    can_rotate = piece.can_rotate;
  };
  count = 1;
}

unfoldable pub add : UnplacedCollector2d → Piece2d → UnplacedCollector2d
add u piece = elim (lookup piece.original_id u) [
  | none ↦ insert piece.original_id (first_entry piece) u
  | some e ↦ insert piece.original_id (record e { count = e.count + 1 }) u
]

-- `{ ...entry.piece, quantity: entry.count }`
abbrev pub with_count : String × Entry → PieceInput2d
with_count (k, e) = record (e.piece) { quantity = e.count }

unfoldable pub get_all : UnplacedCollector2d → List PieceInput2d
get_all u = map with_count u

unfoldable pub get_count : UnplacedCollector2d → ℕ
get_count u = sum_by (λ e. e.1.count) u

unfoldable pub is_empty : UnplacedCollector2d → Bool
is_empty [] = true
is_empty (e ∷ u) = false
