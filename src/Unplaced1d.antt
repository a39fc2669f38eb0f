-- ===== src/Unplaced1d.antt =====
-- backend/src/algorithms/1d/unplaced-collector.ts: pieces that could not be placed, grouped by the
-- id of the demand that they come from.
pub mod Totals
use nestra.Prelude.{
  ℕ, ◌+◌, String, Bool, true, false, List, [], ◌∷◌, Option, none, some, map, sum_by,
}
use nestra.Prelude.Dict.{lookup, insert}
use nestra.Pieces.{Piece1d, PieceInput1d}

pub record Entry : Type 0 where
  pub piece : PieceInput1d
  pub count : ℕ

abbrev pub UnplacedCollector1d : Type 0
UnplacedCollector1d = List (String × Entry)

abbrev first_entry : Piece1d → Entry
first_entry piece = record {
  piece = record {
    id = piece.original_id;
    length = piece.length;
    quantity = 1;
    order_item_id = piece.order_item_id;
  };
  count = 1;
}

unfoldable pub add : UnplacedCollector1d → Piece1d → UnplacedCollector1d
add u piece = elim (lookup piece.original_id u) [
  | none ↦ insert piece.original_id (first_entry piece) u
  | some e ↦ insert piece.original_id (record e { count = e.count + 1 }) u
]

-- `{ ...entry.piece, quantity: entry.count }`
abbrev pub with_count : String × Entry → PieceInput1d
with_count (k, e) = record {
  id = e.piece.id;
  length = e.piece.length;
  quantity = e.count;
  order_item_id = e.piece.order_item_id;
}

unfoldable pub get_all : UnplacedCollector1d → List PieceInput1d
get_all u = map with_count u

unfoldable pub get_count : UnplacedCollector1d → ℕ
get_count u = sum_by (λ e. e.1.count) u

unfoldable pub is_empty : UnplacedCollector1d → Bool
is_empty [] = true
is_empty (e ∷ u) = false
