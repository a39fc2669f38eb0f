-- ===== src/Pieces.antt =====
-- backend/src/algorithms/core/piece-expander.ts and the piece types of core/types.ts: demand with
-- quantities, expanded into single units and sorted. Lengths are natural numbers (of a fixed unit).
pub mod Expansion
pub mod Panels
use nestra.Prelude.{ℕ, zero, suc, ◌+◌, ◌*◌, String, Bool, List, [], ◌∷◌, ◌++◌, Option, leb}
use nestra.Prelude.Sorting.{sort_by}

-- The text `${piece.id}_${i}`. Its last underscore parts the two fields, since the decimal numeral
-- of `i` has none, so the pair and the text determine each other.
pub record PieceId : Type 0 where
  pub base : String
  pub unit : ℕ

pub data GrainDirection : Type 0 where
  horizontal vertical none_grain : GrainDirection

pub record PieceInput1d : Type 0 where
  pub id : String
  pub length : ℕ
  pub quantity : ℕ
  pub order_item_id : String

pub record Piece1d : Type 0 where
  pub id : PieceId
  pub original_id : String
  pub order_item_id : String
  pub length : ℕ

pub record PieceInput2d : Type 0 where
  pub id : String
  pub width : ℕ
  pub height : ℕ
  pub quantity : ℕ
  pub order_item_id : String
  pub can_rotate : Bool

-- The expander leaves out the optional `grainDirection`.
pub record Piece2d : Type 0 where
  pub id : PieceId
  pub original_id : String
  pub order_item_id : String
  pub width : ℕ
  pub height : ℕ
  pub can_rotate : Bool

abbrev pub unit_1d : PieceInput1d → ℕ → Piece1d
unit_1d p i = record {
  id = record { base = p.id; unit = i };
  original_id = p.id;
  order_item_id = p.order_item_id;
  length = p.length;
}

-- The inner loop, from `i` on with `n` rounds left.
unfoldable pub units_1d : PieceInput1d → ℕ → ℕ → List Piece1d
units_1d p i zero = []
units_1d p i (suc n) = unit_1d p i ∷ units_1d p (i + 1) n

unfoldable pub expand_1d_pieces : List PieceInput1d → List Piece1d
unfolding units_1d
expand_1d_pieces [] = []
expand_1d_pieces (p ∷ ps) = units_1d p 0 p.quantity ++ expand_1d_pieces ps

abbrev pub unit_2d : PieceInput2d → ℕ → Piece2d
unit_2d p i = record {
  id = record { base = p.id; unit = i };
  original_id = p.id;
  order_item_id = p.order_item_id;
  width = p.width;
  height = p.height;
  can_rotate = p.can_rotate;
}

unfoldable pub units_2d : PieceInput2d → ℕ → ℕ → List Piece2d
units_2d p i zero = []
units_2d p i (suc n) = unit_2d p i ∷ units_2d p (i + 1) n

unfoldable pub expand_2d_pieces : List PieceInput2d → List Piece2d
unfolding units_2d
expand_2d_pieces [] = []
expand_2d_pieces (p ∷ ps) = units_2d p 0 p.quantity ++ expand_2d_pieces ps

unfoldable pub sort_1d_by_length_desc : List Piece1d → List Piece1d
unfolding sort_by
sort_1d_by_length_desc = sort_by (λ a b. leb b.length a.length)

unfoldable pub sort_2d_by_area_desc : List Piece2d → List Piece2d
unfolding sort_by
sort_2d_by_area_desc = sort_by (λ a b. leb (b.width * b.height) (a.width * a.height))
