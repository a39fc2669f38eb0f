-- ===== src/MaxRects/Sheet.antt =====
-- The sheets of placePieceMaxRects, initializeMaxRectsSheet and tryPlaceInSheet
-- (2d/maxrects-algorithm.ts).
pub mod Selection
use nestra.Prelude.{
  ℕ, ◌+◌, ◌≤◌, ◌<◌, ◌≡◌, refl, inl, inr, Bool, true, false, not, ◌||◌, ◌&&◌, String, List, [], ◌∷◌,
  ◌++◌, some, none, All, All-append, All-map, All-of_Mem, some-injective, subst, arith, Bool-cases,
  Option-cases, ◌==◌,
}
use nestra.Geometry.{Rectangle, Orientation, get_orientations, has_grain, as_given, turned}
use nestra.Geometry.Separation.{Apart, IsInside, IsInside-trans, area_of, Pairwise, Pairwise-append}
use nestra.Sheets.{Placement, rect_of, placement_at}
use nestra.FreeRects.{merge_pair, merge_free_rectangles}
use nestra.Grained.{GrainedPiece, orientations_of}
use nestra.MaxRects.{
  MaxRectsSheet, MaxRectsOptions, PlacementCandidate, candidate_for, orientations_for, area_taken,
  cut_rects, place_piece_max_rects, create_max_rects_sheet, corner_candidate,
  initialize_max_rects_sheet, try_place_in_sheet,
}
use nestra.MaxRects.Choice.{IsReal}
use nestra.MaxRects.Candidate.{candidate_for-IsReal}
use nestra.MaxRects.Clearance.{
  IsClear, HasArea, IsMergeable, IsInside-IsMergeable, IsClear-IsMergeable,
  merge_free_rectangles-All, remove_redundant_rects-All, cut_rects-All,
}

abbrev pub IsFree : ℕ → Rectangle → List Placement → Rectangle → Type 0
IsFree kerf area ps r = IsInside r area × All (λ p. IsClear kerf (rect_of p) r) ps

-- The placements do not overlap, lie in the sheet and have an area, and each free rectangle lies in
-- the sheet and clear of them.
pub record IsPacked (kerf : ℕ) (s : MaxRectsSheet) : Type 0 where
  pub spread : Pairwise (λ a b. Apart 0 (rect_of a) (rect_of b)) s.placements
  pub inside : All (λ p. IsInside (rect_of p) (area_of s.width s.height)) s.placements
  pub solid : All (λ p. HasArea (rect_of p)) s.placements
  pub free : All (IsFree kerf (area_of s.width s.height) s.placements) s.free_rects

IsClear-IsMergeable-All :
    (kerf : ℕ) (ps : List Placement)
    → All (λ p. HasArea (rect_of p)) ps
    → IsMergeable (λ r. All (λ p. IsClear kerf (rect_of p) r) ps)
IsClear-IsMergeable-All kerf [] h a b m e ha hb = tt
IsClear-IsMergeable-All kerf (p ∷ ps) h a b m e ha hb = (
  IsClear-IsMergeable kerf (rect_of p) h.0 a b m e ha.0 hb.0,
  IsClear-IsMergeable-All kerf ps h.1 a b m e ha.1 hb.1,
)

IsFree-IsMergeable :
    (kerf : ℕ) (area : Rectangle) (ps : List Placement)
    → All (λ p. HasArea (rect_of p)) ps
    → IsMergeable (IsFree kerf area ps)
IsFree-IsMergeable kerf area ps h a b m e ha hb = (
  IsInside-IsMergeable area a b m e ha.0 hb.0,
  IsClear-IsMergeable-All kerf ps h a b m e ha.1 hb.1,
)

IsFree-part :
    (kerf : ℕ) (area : Rectangle) (ps : List Placement) (q r : Rectangle)
    → IsInside q r
    → IsFree kerf area ps r
    → IsFree kerf area ps q
IsFree-part kerf area ps q r i h = (
  IsInside-trans q r area i h.0,
  All-map (λ p c. ground (arith, i.left, i.bottom, i.right, i.top)) ps h.1,
)

-- The candidate lies in the lower left corner of the rectangle, with room, and has an area.
pub record IsCorner (rect : Rectangle) (c : PlacementCandidate) : Type 0 where
  pub at_x : c.x ≡ rect.x
  pub at_y : c.y ≡ rect.y
  pub narrow : c.width ≤ rect.width
  pub low : c.height ≤ rect.height
  pub solid : HasArea (area_taken c)

corner-IsInside :
    (rect : Rectangle) (c : PlacementCandidate) → IsCorner rect c → IsInside (area_taken c) rect
corner-IsInside rect c k = record {
  left = omega (arith, k.at_x);
  bottom = omega (arith, k.at_y);
  right = omega (arith, k.at_x, k.narrow);
  top = omega (arith, k.at_y, k.low);
}

corner-Apart :
    (kerf : ℕ) (rect p : Rectangle) (c : PlacementCandidate)
    → IsCorner rect c
    → IsClear kerf p rect
    → Apart 0 p (area_taken c)
corner-Apart kerf rect p c k h = ground (arith, k.at_x, k.at_y, k.narrow, k.low)

pub place_piece_max_rects-IsPacked :
    (kerf : ℕ) (s : MaxRectsSheet) (p : GrainedPiece) (c : PlacementCandidate) (rect : Rectangle)
    → IsCorner rect c
    → IsFree kerf (area_of s.width s.height) s.placements rect
    → IsPacked kerf s
    → IsPacked kerf (place_piece_max_rects s p c kerf)
unfolding place_piece_max_rects
place_piece_max_rects-IsPacked kerf s p c rect k f h =
    let area = area_of s.width s.height in
    let added = placement_at p.piece c.x c.y c.width c.height c.rotated ∷ [] in
    let solid : All (λ q. HasArea (rect_of q)) (s.placements ++ added) =
      All-append (λ q. HasArea (rect_of q)) s.placements added h.solid (k.solid, tt) in
    record {
      spread =
          Pairwise-append (λ a b. Apart 0 (rect_of a) (rect_of b)) s.placements added h.spread
            (tt, tt)
            (All-map (λ q e. (corner-Apart kerf rect (rect_of q) c k e, tt)) s.placements f.1);
      inside =
          All-append (λ q. IsInside (rect_of q) area) s.placements added h.inside
            (IsInside-trans (area_taken c) rect area (corner-IsInside rect c k) f.0, tt);
      solid = solid;
      free = remove_redundant_rects-All (IsFree kerf area (s.placements ++ added)) _ (
          merge_free_rectangles-All (IsFree kerf area (s.placements ++ added))
            (IsFree-IsMergeable kerf area (s.placements ++ added) solid) _
            (All-map
              (λ q e. (
                e.0.0,
                All-append (λ z. IsClear kerf (rect_of z) q) s.placements added e.0.1 (e.1, tt),
              ))
              (cut_rects c kerf s.free_rects)
              (cut_rects-All c kerf (IsFree kerf area s.placements)
                (IsFree-part kerf area s.placements) s.free_rects h.free)));
    }

pub initialize_max_rects_sheet-IsPacked :
    (kerf : ℕ) (id : String) (width height : ℕ) (p : GrainedPiece) (rotated : Bool)
    → HasArea (area_taken (corner_candidate p rotated))
    → (corner_candidate p rotated).width ≤ width
    → (corner_candidate p rotated).height ≤ height
    → IsPacked kerf (initialize_max_rects_sheet id width height p rotated kerf)
unfolding initialize_max_rects_sheet create_max_rects_sheet
initialize_max_rects_sheet-IsPacked kerf id width height p rotated a w h =
    let whole : IsInside (area_of width height) (area_of width height) = record {
      left = omega arith;
      bottom = omega arith;
      right = omega arith;
      top = omega arith;
    } in
    place_piece_max_rects-IsPacked kerf (create_max_rects_sheet id width height) p
      (corner_candidate p rotated) (area_of width height)
      (record { at_x = refl; at_y = refl; narrow = w; low = h; solid = a }) (whole, tt)
      (record { spread = tt; inside = tt; solid = tt; free = ((whole, tt), tt) })

abbrev pub HasAreaPiece : GrainedPiece → Type 0
HasAreaPiece p = (0 < p.piece.width) × (0 < p.piece.height)

orientations_of-solid :
    (p : GrainedPiece) (allow respect : Bool)
    → HasAreaPiece p
    → All (λ o. (0 < o.width) × (0 < o.height)) (orientations_of p allow respect)
unfolding orientations_of get_orientations
orientations_of-solid p allow respect (w, h) =
    elim (Bool-cases (not allow || not p.piece.can_rotate || p.piece.width == p.piece.height)) [
      | inl e ↦ rw e ((w, h), tt)
      | inr e ↦ elim (Bool-cases (respect && has_grain p.grain)) [
        | inl f ↦ rw (e, f) ((w, h), tt)
        | inr f ↦ rw (e, f) ((w, h), ((h, w), tt))
      ]
    ]

-- A candidate that the search returned lies in the corner of a free rectangle.
pub candidate_for-IsPacked :
    (o : MaxRectsOptions) (s : MaxRectsSheet) (p : GrainedPiece) (c : PlacementCandidate)
    → HasAreaPiece p
    → candidate_for s p o ≡ some c
    → IsPacked o.kerf s
    → IsPacked o.kerf (place_piece_max_rects s p c o.kerf)
candidate_for-IsPacked o s p c a e h =
    let r = candidate_for-IsReal s p o c e in
    let (w, t) =
      All-of_Mem (λ z. (0 < z.width) × (0 < z.height)) (orientations_for p o)
        (orientations_of-solid p o.allow_rotation o.respect_grain_direction a) r.of_orients in
    place_piece_max_rects-IsPacked o.kerf s p c r.rect
      (record {
        at_x = r.at_x;
        at_y = r.at_y;
        narrow = omega (arith, r.wide, r.fits.0);
        low = omega (arith, r.high, r.fits.1);
        solid = (omega (arith, r.wide), omega (arith, r.high));
      })
      (All-of_Mem (IsFree o.kerf (area_of s.width s.height) s.placements) s.free_rects h.free
        r.of_rects)
      h
