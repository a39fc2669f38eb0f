-- ===== src/Geometry.antt =====
-- backend/src/algorithms/2d/geometry.ts: rectangles, orientations and candidate positions. The
-- coordinates are natural numbers: the code starts at the origin and only adds to them.
pub mod Separation
pub mod Turns
pub mod Overlap
use nestra.Prelude.{
  ℕ, ◌+◌, ◌*◌, Bool, true, false, not, ◌&&◌, ◌||◌, List, [], ◌∷◌, Option, none, some, ltb, leb,
  ◌==◌, if◌then◌else◌,
}
use nestra.Prelude.Sorting.{sort_by}
use nestra.Pieces.{PieceId, GrainDirection, none_grain}

pub record Rectangle : Type 0 where
  pub x : ℕ
  pub y : ℕ
  pub width : ℕ
  pub height : ℕ

pub record Position : Type 0 where
  pub x : ℕ
  pub y : ℕ

pub record Orientation : Type 0 where
  pub width : ℕ
  pub height : ℕ
  pub rotated : Bool

unfoldable pub rectangles_overlap : Rectangle → Rectangle → Bool
rectangles_overlap r1 r2 = not (
    leb (r1.x + r1.width) r2.x
    || leb (r2.x + r2.width) r1.x
    || leb (r1.y + r1.height) r2.y
    || leb (r2.y + r2.height) r1.y)

-- The second and third arguments are the `width` and `height` of `bounds`.
unfoldable pub is_within_bounds : Rectangle → ℕ → ℕ → Bool
is_within_bounds rect width height =
    leb (rect.x + rect.width) width
    && leb (rect.y + rect.height) height
    && leb 0 rect.x
    && leb 0 rect.y

abbrev pub create_rectangle : Position → ℕ → ℕ → Rectangle
create_rectangle pos width height = record { x = pos.x; y = pos.y; width = width; height = height }

abbrev pub expand_rectangle : Rectangle → ℕ → Rectangle
expand_rectangle rect expansion = record rect {
  width = rect.width + expansion;
  height = rect.height + expansion;
}

abbrev pub calculate_area : Rectangle → ℕ
calculate_area rect = rect.width * rect.height

-- `grainDirection && grainDirection !== 'NONE'`
abbrev pub has_grain : Option GrainDirection → Bool
has_grain none = false
has_grain (some GrainDirection.horizontal) = true
has_grain (some GrainDirection.vertical) = true
has_grain (some GrainDirection.none_grain) = false

abbrev pub as_given : ℕ → ℕ → Orientation
as_given width height = record { width = width; height = height; rotated = false }

abbrev pub turned : ℕ → ℕ → Orientation
turned width height = record { width = height; height = width; rotated = true }

-- An argument `respectGrainDirection` that is left out counts as `false`.
unfoldable pub get_orientations :
    ℕ → ℕ → Bool → Bool → Option GrainDirection → Bool → List Orientation
get_orientations width height can_rotate allow_rotation grain respect =
    if not allow_rotation || not can_rotate || width == height
    then as_given width height ∷ []
    else if respect && has_grain grain
    then as_given width height ∷ []
    else as_given width height ∷ turned width height ∷ []

-- For each placement: its right side, its top side and the diagonal corner.
unfoldable pub candidates_from : ℕ → List Rectangle → List Position
candidates_from kerf [] = []
candidates_from kerf (p ∷ ps) =
    record { x = p.x + p.width + kerf; y = p.y }
    ∷ record { x = p.x; y = p.y + p.height + kerf }
    ∷ record { x = p.x + p.width + kerf; y = p.y + p.height + kerf }
    ∷ candidates_from kerf ps

-- The comparator is at most 0: lower, or as low and not further right.
abbrev pub bottom_left_before : Position → Position → Bool
bottom_left_before a b = if a.y == b.y then leb a.x b.x else ltb a.y b.y

unfoldable pub generate_candidate_positions : List Rectangle → ℕ → List Position
unfolding sort_by candidates_from
generate_candidate_positions placements kerf =
    sort_by bottom_left_before (record { x = 0; y = 0 } ∷ candidates_from kerf placements)
