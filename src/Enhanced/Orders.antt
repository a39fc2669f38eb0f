-- ===== src/Enhanced/Orders.antt =====
-- Options, piece orders, stock and the unplaced entry of 2d/enhanced-optimizer.ts.
use Prim.Native.Char.{code}
use nestra.Prelude.{
  ℕ, ◌+◌, ◌-◌, ◌*◌, String, Bool, List, Option, none, some, leb, ◌==◌, if◌then◌else◌,
}
use nestra.Prelude.Sorting.{sort_by}
use nestra.Prelude.Dict.{insert}
use nestra.Stock.{StockInput2d, Usage, remaining_of, find_in_2d}
use nestra.FreeRects.{min}
use nestra.Grained.{GrainedInput, GrainedPiece}
use nestra.Cutting2d.{piece_area}
use nestra.MaxRects.{MaxRectsHeuristic, max}

pub data EnhancedAlgorithm : Type 0 where
  maxrects maxrects_best guillotine bottom_left : EnhancedAlgorithm

pub data PieceOrder : Type 0 where
  area_desc short_side long_side perimeter difference : PieceOrder

pub record EnhancedOptions : Type 0 where
  pub algorithm : EnhancedAlgorithm
  pub kerf : ℕ
  pub allow_rotation : Bool
  pub respect_grain_direction : Bool
  pub heuristic : Option MaxRectsHeuristic
  pub sort_strategy : Option PieceOrder

-- What a strategy sorts by, the largest first.
abbrev pub sort_key : PieceOrder → GrainedPiece → ℕ
sort_key area_desc p = piece_area p
sort_key short_side p = min p.piece.width p.piece.height
sort_key long_side p = max p.piece.width p.piece.height
sort_key perimeter p = 2 * p.piece.width + 2 * p.piece.height
sort_key difference p = max p.piece.width p.piece.height - min p.piece.width p.piece.height

unfoldable pub sort_pieces : List GrainedPiece → PieceOrder → List GrainedPiece
unfolding sort_by
sort_pieces pieces strategy =
    sort_by (λ a b. leb (sort_key strategy b) (sort_key strategy a)) pieces

abbrev pub order_or_default : Option PieceOrder → PieceOrder
order_or_default none = area_desc
order_or_default (some s) = s

unfoldable pub sorted_stocks : List StockInput2d → List StockInput2d
unfolding sort_by
sorted_stocks = sort_by (λ a b. leb (b.width * b.height) (a.width * a.height))

-- The tests of `findAvailable` are those of `Stock2DManager`.
unfoldable pub find_available : List StockInput2d → Usage → ℕ → ℕ → Option StockInput2d
unfolding find_in_2d
find_available stocks u min_width min_height = find_in_2d u min_width min_height stocks

-- Called only for an id of which a unit is left, so the difference is not negative.
unfoldable pub consume : Usage → String → Usage
unfolding remaining_of
consume u id = insert id (remaining_of u id - 1) u

-- The text before the first underscore.
unfoldable pub before_underscore : String → String
before_underscore String.[] = String.[]
before_underscore (String.◌∷◌ c s) =
    if code c == 95 then String.[] else String.◌∷◌ c (before_underscore s)

-- `piece.id.split('_')[0]` is taken from the base of the id, which an underscore follows.
unfoldable pub entry_of : GrainedPiece → GrainedInput
unfolding before_underscore
entry_of p = record {
  input = record {
    id = before_underscore p.piece.id.base;
    width = p.piece.width;
    height = p.piece.height;
    quantity = 1;
    order_item_id = p.piece.order_item_id;
    can_rotate = p.piece.can_rotate;
  };
  grain = p.grain;
}
