-- ===== src/Cutting2d/Agreement.antt =====
-- cutting2d.ts and 2d/sheet-manager.ts, both of which place a piece in a sheet in use.
use mathlib.Core.List.{append-nil, append_assoc}
use nestra.Prelude.{
  ℕ, ◌+◌, ◌≡◌, refl, ltb, sym, ap, ◌∙◌, Bool, false, inl, inr, List, [], ◌∷◌, ◌++◌, none, some,
  arith, map, get_elem?, Option-cases, Bool-cases,
}
use nestra.Prelude.Sorting.{sort_by}
use nestra.Geometry
use nestra.Geometry.{
  Rectangle, Position, Orientation, create_rectangle, is_within_bounds, get_orientations,
  candidates_from, generate_candidate_positions, bottom_left_before,
}
use nestra.Sheets.{
  ActiveSheet, Placement, Options2d, rect_of, clear_of, can_place_at, first_place, place_oriented,
  try_place_bottom_left,
}
use nestra.Sheets
use nestra.Guillotine.{
  BestScore, consider, consider_all, best_from, fit_of, split_free_rectangle, cut_from,
  find_best_guillotine_fit, try_place_guillotine,
}
use nestra.Geometry.Separation.{area_of}
use nestra.Stock.{StockInput2d}
use nestra.Grained.{GrainedPiece, orientations_of}
use nestra.Cutting2d.{
  rectangles_overlap, clear_of_placements, can_place, corners_of, lower_or_left, first_position,
  find_bottom_left_position, place_in_sheet, BestFit, no_fit, weigh, weigh_all, weigh_rects,
  initial_splits, push_splits, place_fit, try_place_guillotine_in_sheet,
}

clear_of_placements-eq :
    (r : Rectangle) (kerf : ℕ) (ps : List Placement)
    → clear_of_placements (Geometry.expand_rectangle r kerf) kerf ps ≡ clear_of r kerf ps
unfolding clear_of_placements clear_of rectangles_overlap Geometry.rectangles_overlap
clear_of_placements-eq r kerf [] = refl
clear_of_placements-eq r kerf (p ∷ ps) = ground (arith, clear_of_placements-eq r kerf ps)

can_place-eq :
    (s : ActiveSheet) (pos : Position) (w h kerf : ℕ)
    → can_place (create_rectangle pos w h) s.width s.height s.placements kerf
      ≡ can_place_at s pos w h kerf
unfolding can_place can_place_at is_within_bounds
can_place-eq s pos w h kerf =
    ground (arith, clear_of_placements-eq (create_rectangle pos w h) kerf s.placements)

first_position-eq :
    (s : ActiveSheet) (o : Orientation) (kerf : ℕ) (cs : List Position)
    → first_position s o kerf cs ≡ first_place s o.width o.height kerf cs
unfolding first_position first_place
first_position-eq s o kerf [] = refl
first_position-eq s o kerf (c ∷ cs) =
    rw (can_place-eq s c o.width o.height kerf, first_position-eq s o kerf cs) refl

corners_of-eq :
    (kerf : ℕ) (ps : List Placement) → corners_of kerf ps ≡ candidates_from kerf (map rect_of ps)
unfolding corners_of candidates_from
corners_of-eq kerf [] = refl
corners_of-eq kerf (p ∷ ps) = rw (corners_of-eq kerf ps) refl

lower_or_left-eq : (a b : Position) → lower_or_left a b ≡ bottom_left_before a b
lower_or_left-eq a b = ground arith

find_position-eq :
    (s : ActiveSheet) (o : Orientation) (kerf : ℕ)
    → find_bottom_left_position s o kerf ≡ Sheets.find_bottom_left_position s o.width o.height kerf
unfolding find_bottom_left_position Sheets.find_bottom_left_position generate_candidate_positions
find_position-eq s o kerf =
    let same : lower_or_left ≡ bottom_left_before = λ i a b. lower_or_left-eq a b i in
    ap
      (λ before.
        first_position s o kerf
          (sort_by before (record { x = 0; y = 0 } ∷ corners_of kerf s.placements)))
      same
    ∙ rw (corners_of-eq kerf s.placements)
        (first_position-eq s o kerf (generate_candidate_positions (map rect_of s.placements) kerf))

pub place_in_sheet-eq :
    (s : ActiveSheet) (p : GrainedPiece) (kerf : ℕ) (os : List Orientation)
    → place_in_sheet s p kerf os ≡ place_oriented s p.piece kerf os
unfolding place_in_sheet place_oriented
place_in_sheet-eq s p kerf [] = refl
place_in_sheet-eq s p kerf (o ∷ os) =
    ground (arith, find_position-eq s o kerf, place_in_sheet-eq s p kerf os)

-- `getOrientations` is called without its third argument, so the grain is not read.
pub orientations_of-eq :
    (p : GrainedPiece) (allow : Bool)
    → orientations_of p allow false
      ≡ get_orientations p.piece.width p.piece.height p.piece.can_rotate allow none false
unfolding orientations_of get_orientations
orientations_of-eq p allow = refl

-- The five variables that stand for the best score so far.
abbrev variables_of : BestScore → BestFit
variables_of none = no_fit
variables_of (some (score, fit)) = record {
  best_fit_index = some fit.index;
  best_fit_score = some score;
  best_rotated = fit.rotated;
  best_width = fit.width;
  best_height = fit.height;
}

weigh-eq :
    (r : Rectangle) (i : ℕ) (o : Orientation) (b : BestScore)
    → weigh r i o (variables_of b) ≡ variables_of (consider r i o b)
unfolding weigh consider
weigh-eq r i o none = ground arith
weigh-eq r i o (some (score, fit)) = ground arith

weigh_all-eq :
    (r : Rectangle) (i : ℕ) (os : List Orientation) (b : BestScore)
    → weigh_all r i os (variables_of b) ≡ variables_of (consider_all r i os b)
unfolding weigh_all consider_all
weigh_all-eq r i [] b = refl
weigh_all-eq r i (o ∷ os) b =
    ap (weigh_all r i os) (weigh-eq r i o b) ∙ weigh_all-eq r i os (consider r i o b)

weigh_rects-eq :
    (p : GrainedPiece) (allow : Bool) (rs : List Rectangle) (i : ℕ) (b : BestScore)
    → weigh_rects p allow rs i (variables_of b)
      ≡ variables_of (best_from rs i (orientations_of p allow false) b)
unfolding weigh_rects best_from
weigh_rects-eq p allow [] i b = refl
weigh_rects-eq p allow (r ∷ rs) i b =
    let os = orientations_of p allow false in
    ap (weigh_rects p allow rs (i + 1)) (weigh_all-eq r i os b)
    ∙ weigh_rects-eq p allow rs (i + 1) (consider_all r i os b)

push_splits-eq :
    (kept : List Rectangle) (r : Rectangle) (best : BestFit) (kerf : ℕ)
    → push_splits kept r best kerf
      ≡ kept ++ split_free_rectangle r best.best_width best.best_height kerf
unfolding push_splits split_free_rectangle
push_splits-eq kept r best kerf = elim (Bool-cases (ltb (best.best_width + kerf) r.width)) [
  | inl e ↦ elim (Bool-cases (ltb (best.best_height + kerf) r.height)) [
    | inl f ↦ rw (e, f) (append_assoc kept _ _)
    | inr f ↦ rw (e, f) refl
  ]
  | inr e ↦ elim (Bool-cases (ltb (best.best_height + kerf) r.height)) [
    | inl f ↦ rw (e, f) refl
    | inr f ↦ rw (e, f) (sym (append-nil kept))
  ]
]

-- What follows the loops in both.
place_fit-eq :
    (o : Options2d) (p : GrainedPiece) (s : ActiveSheet) (rs : List Rectangle) (b : BestScore)
    → s.free_rects ≡ some rs
    → find_best_guillotine_fit rs p.piece.width p.piece.height p.piece.can_rotate o.allow_rotation
      ≡ fit_of b
    → place_fit o p s rs (variables_of b) ≡ try_place_guillotine s p.piece o
unfolding place_fit try_place_guillotine cut_from
place_fit-eq o p s rs none e f = simp (e, f, try_place_guillotine) refl
place_fit-eq o p s rs (some (score, fit)) e f = elim (Option-cases (get_elem? rs fit.index)) [
  | inl g ↦ simp (e, f, try_place_guillotine) (rw (g, place_fit) refl)
  | inr (r, g) ↦
      simp (e, f, try_place_guillotine)
        (rw (g, place_fit, push_splits-eq _ r (variables_of (some (score, fit))) o.kerf) refl)
]

pub try_place_guillotine_in_sheet-eq :
    (o : Options2d) (p : GrainedPiece) (s : ActiveSheet)
    → try_place_guillotine_in_sheet o p s ≡ try_place_guillotine s p.piece o
unfolding try_place_guillotine_in_sheet find_best_guillotine_fit orientations_of get_orientations
try_place_guillotine_in_sheet-eq o p s = elim (Option-cases s.free_rects) [
  | inl e ↦
      unfold try_place_guillotine in
      simp (e, try_place_guillotine_in_sheet) (simp (e, try_place_guillotine) refl)
  | inr (rs, e) ↦
      simp (e, try_place_guillotine_in_sheet)
        (ap (place_fit o p s rs) (weigh_rects-eq p o.allow_rotation rs 0 none)
          ∙ place_fit-eq o p s rs (best_from rs 0 (orientations_of p o.allow_rotation false) none) e
              refl)
]

-- The free rectangles of a new sheet are the two that are left of it.
pub initial_splits-eq :
    (s : StockInput2d) (o : Orientation) (kerf : ℕ)
    → initial_splits s o kerf
      ≡ split_free_rectangle (area_of s.width s.height) o.width o.height kerf
unfolding initial_splits split_free_rectangle
initial_splits-eq s o kerf = ground arith

-- In a sheet in use the two optimisers place a piece alike, whichever the strategy: the same sheet
-- is written, or both find no place.
pub in_sheet_agreement :
    (o : Options2d) (p : GrainedPiece) (s : ActiveSheet)
    → (place_in_sheet s p o.kerf (orientations_of p o.allow_rotation false)
        ≡ try_place_bottom_left s p.piece o)
      × (try_place_guillotine_in_sheet o p s ≡ try_place_guillotine s p.piece o)
unfolding try_place_bottom_left orientations_of
in_sheet_agreement o p s = (
  place_in_sheet-eq s p o.kerf (orientations_of p o.allow_rotation false),
  try_place_guillotine_in_sheet-eq o p s,
)
