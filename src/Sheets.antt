-- ===== src/Sheets.antt =====
-- backend/src/algorithms/2d/sheet-manager.ts and the sheet types of core/types.ts. A function that
-- writes to its sheet and returns a Boolean returns the written sheet here, or `none` for `false`.
pub mod BottomLeft
use nestra.Prelude.{
  ℕ, zero, suc, ◌+◌, ◌-◌, String, Bool, true, false, not, ◌&&◌, List, [], ◌∷◌, ◌++◌, map, Option,
  none, some, ltb, leb, if◌then◌else◌, get_elem?,
}
use nestra.Pieces.{PieceId, Piece2d}
use nestra.Geometry.{
  Rectangle, Position, Orientation, rectangles_overlap, is_within_bounds, create_rectangle,
  expand_rectangle, get_orientations, generate_candidate_positions,
}

pub record Placement : Type 0 where
  pub piece_id : PieceId
  pub order_item_id : String
  pub x : ℕ
  pub y : ℕ
  pub width : ℕ
  pub height : ℕ
  pub rotated : Bool

-- `free_rects` is `none` where the field is absent.
pub record ActiveSheet : Type 0 where
  pub stock_id : String
  pub width : ℕ
  pub height : ℕ
  pub placements : List Placement
  pub free_rects : Option (List Rectangle)

-- The optional `respectGrainDirection` is not read.
pub record Options2d : Type 0 where
  pub kerf : ℕ
  pub allow_rotation : Bool

abbrev pub rect_of : Placement → Rectangle
rect_of p = record { x = p.x; y = p.y; width = p.width; height = p.height }

abbrev pub placement_at : Piece2d → ℕ → ℕ → ℕ → ℕ → Bool → Placement
placement_at piece x y width height rotated = record {
  piece_id = piece.id;
  order_item_id = piece.order_item_id;
  x = x;
  y = y;
  width = width;
  height = height;
  rotated = rotated;
}

-- `rotated ? piece.height : piece.width`, and the other way for the height.
abbrev pub placed_width : Piece2d → Bool → ℕ
placed_width piece rotated = if rotated then piece.height else piece.width

abbrev pub placed_height : Piece2d → Bool → ℕ
placed_height piece rotated = if rotated then piece.width else piece.height

unfoldable pub create_active_sheet : String → ℕ → ℕ → Piece2d → Bool → ActiveSheet
create_active_sheet stock_id stock_width stock_height piece rotated = record {
  stock_id = stock_id;
  width = stock_width;
  height = stock_height;
  placements =
      placement_at piece 0 0 (placed_width piece rotated) (placed_height piece rotated) rotated
      ∷ [];
  free_rects = none;
}

-- The loop of `canPlaceAt` over the placements.
unfoldable pub clear_of : Rectangle → ℕ → List Placement → Bool
unfolding rectangles_overlap
clear_of new_rect kerf [] = true
clear_of new_rect kerf (p ∷ ps) =
    if rectangles_overlap (expand_rectangle new_rect kerf) (expand_rectangle (rect_of p) kerf)
    then false
    else clear_of new_rect kerf ps

unfoldable pub can_place_at : ActiveSheet → Position → ℕ → ℕ → ℕ → Bool
unfolding clear_of is_within_bounds
can_place_at sheet pos width height kerf =
    if not (is_within_bounds (create_rectangle pos width height) sheet.width sheet.height)
    then false
    else clear_of (create_rectangle pos width height) kerf sheet.placements

-- The loop of `findBottomLeftPosition` over the candidates.
unfoldable pub first_place : ActiveSheet → ℕ → ℕ → ℕ → List Position → Option Position
unfolding can_place_at
first_place sheet width height kerf [] = none
first_place sheet width height kerf (pos ∷ candidates) =
    if can_place_at sheet pos width height kerf
    then some pos
    else first_place sheet width height kerf candidates

unfoldable pub find_bottom_left_position : ActiveSheet → ℕ → ℕ → ℕ → Option Position
unfolding first_place generate_candidate_positions
find_bottom_left_position sheet width height kerf =
    first_place sheet width height kerf
      (generate_candidate_positions (map rect_of sheet.placements) kerf)

unfoldable pub add_placement : ActiveSheet → Placement → ActiveSheet
add_placement sheet p = record sheet { placements = sheet.placements ++ p ∷ [] }

-- The loop of `tryPlaceBottomLeft` over the orientations.
unfoldable pub place_oriented : ActiveSheet → Piece2d → ℕ → List Orientation → Option ActiveSheet
unfolding find_bottom_left_position add_placement
place_oriented sheet piece kerf [] = none
place_oriented sheet piece kerf (orient ∷ orients) =
    elim (find_bottom_left_position sheet orient.width orient.height kerf) [
      | none ↦ place_oriented sheet piece kerf orients
      | some pos ↦ some (
          add_placement sheet
            (placement_at piece pos.x pos.y orient.width orient.height orient.rotated))
    ]

unfoldable pub try_place_bottom_left : ActiveSheet → Piece2d → Options2d → Option ActiveSheet
unfolding place_oriented get_orientations
try_place_bottom_left sheet piece o =
    place_oriented sheet piece o.kerf
      (get_orientations piece.width piece.height piece.can_rotate o.allow_rotation none false)
