-- ===== src/Sheets/BottomLeft.antt =====
-- The sheets of tryPlaceBottomLeft (2d/sheet-manager.ts): distances and bounds.
use nestra.Prelude.{
  ℕ, String, ◌≤◌, ◌≡◌, inl, inr, Bool, true, false, List, [], ◌∷◌, some, some-injective, subst, All,
  All-append, All-map, Bool-cases, Option-cases, arith,
}
use nestra.Pieces.{Piece2d}
use nestra.Geometry.{
  Rectangle, Position, Orientation, rectangles_overlap, is_within_bounds, create_rectangle,
  expand_rectangle,
}
use nestra.Geometry.Separation.{
  Apart, Apart-sym, rectangles_overlap-Apart, IsInside, area_of, is_within_bounds-IsInside,
  Pairwise, Pairwise-append,
}
use nestra.Sheets.{
  Placement, ActiveSheet, Options2d, rect_of, placement_at, create_active_sheet, clear_of,
  can_place_at, first_place, find_bottom_left_position, add_placement, place_oriented,
  try_place_bottom_left,
}

-- A blade of width `kerf` parts any two placements.
abbrev pub IsSpread : ℕ → ActiveSheet → Type 0
IsSpread kerf s = Pairwise (λ a b. Apart kerf (rect_of a) (rect_of b)) s.placements

abbrev pub IsContained : ActiveSheet → Type 0
IsContained s = All (λ p. IsInside (rect_of p) (area_of s.width s.height)) s.placements

clear_of-Apart :
    (r : Rectangle) (kerf : ℕ) (ps : List Placement)
    → clear_of r kerf ps ≡ true
    → All (λ p. Apart kerf (rect_of p) r) ps
unfolding clear_of
clear_of-Apart r kerf [] h = tt
clear_of-Apart r kerf (p ∷ ps) h =
    elim (Bool-cases
      (rectangles_overlap (expand_rectangle r kerf) (expand_rectangle (rect_of p) kerf))) [
        | inl e ↦ absurd (cc)
        | inr e ↦ (
          Apart-sym kerf r (rect_of p) (rectangles_overlap-Apart kerf r (rect_of p) e),
          clear_of-Apart r kerf ps (rw (e, clear_of) at h),
        )
      ]

-- What a position that passes the test gives.
pub can_place_at_lem :
    (s : ActiveSheet) (pos : Position) (w h kerf : ℕ)
    → can_place_at s pos w h kerf ≡ true
    → IsInside (create_rectangle pos w h) (area_of s.width s.height)
      × All (λ p. Apart kerf (rect_of p) (create_rectangle pos w h)) s.placements
unfolding can_place_at
can_place_at_lem s pos w h kerf e =
    elim (Bool-cases (is_within_bounds (create_rectangle pos w h) s.width s.height)) [
      | inl t ↦ (
        is_within_bounds-IsInside (create_rectangle pos w h) s.width s.height t,
        clear_of-Apart (create_rectangle pos w h) kerf s.placements (rw (t, can_place_at) at e),
      )
      | inr t ↦ absurd (cc)
    ]

first_place_lem :
    (s : ActiveSheet) (w h kerf : ℕ) (candidates : List Position) {pos : Position}
    → first_place s w h kerf candidates ≡ some pos
    → can_place_at s pos w h kerf ≡ true
unfolding first_place
first_place_lem s w h kerf [] e = absurd (cc)
first_place_lem s w h kerf (c ∷ cs) {pos} e = elim (Bool-cases (can_place_at s c w h kerf)) [
  | inl t ↦
      subst (λ z. can_place_at s z w h kerf ≡ true) (some-injective _ _ (rw (t, first_place) at e))
        t
  | inr t ↦ first_place_lem s w h kerf cs (rw (t, first_place) at e)
]

-- A property of sheets that each admissible placement keeps is kept by the strategy.
module _ {κ} (kerf : ℕ) (P : ActiveSheet → Type κ)
    (step : (s : ActiveSheet) (p : Piece2d) (pos : Position) (o : Orientation)
      → can_place_at s pos o.width o.height kerf ≡ true
      → P s
      → P (add_placement s (placement_at p pos.x pos.y o.width o.height o.rotated))) where
  pub place_oriented-keeps :
      (s t : ActiveSheet) (p : Piece2d) (os : List Orientation)
      → P s
      → place_oriented s p kerf os ≡ some t
      → P t
  unfolding place_oriented find_bottom_left_position
  place_oriented-keeps s t p [] h e = absurd (cc)
  place_oriented-keeps s t p (o ∷ os) h e =
      elim (Option-cases (find_bottom_left_position s o.width o.height kerf)) [
        | inl f ↦ place_oriented-keeps s t p os h (rw (f, place_oriented) at e)
        | inr (pos, f) ↦
            subst P (some-injective _ _ (rw (f, place_oriented) at e))
              (step s p pos o (first_place_lem s o.width o.height kerf _ f) h)
      ]

pub add_placement-IsSpread :
    (kerf : ℕ) (s : ActiveSheet) (p : Piece2d) (pos : Position) (r : Orientation)
    → can_place_at s pos r.width r.height kerf ≡ true
    → IsSpread kerf s
    → IsSpread kerf (add_placement s (placement_at p pos.x pos.y r.width r.height r.rotated))
unfolding add_placement
add_placement-IsSpread kerf s p pos r e h =
    Pairwise-append (λ a b. Apart kerf (rect_of a) (rect_of b)) s.placements _ h (tt, tt)
      (All-map (λ q a. (a, tt)) s.placements (can_place_at_lem s pos r.width r.height kerf e).1)

pub add_placement-IsContained :
    (kerf : ℕ) (s : ActiveSheet) (p : Piece2d) (pos : Position) (r : Orientation)
    → can_place_at s pos r.width r.height kerf ≡ true
    → IsContained s
    → IsContained (add_placement s (placement_at p pos.x pos.y r.width r.height r.rotated))
unfolding add_placement
add_placement-IsContained kerf s p pos r e h =
    All-append (λ q. IsInside (rect_of q) (area_of s.width s.height)) s.placements _ h
      ((can_place_at_lem s pos r.width r.height kerf e).0, tt)

pub try_place_bottom_left-IsSpread :
    (o : Options2d) (s t : ActiveSheet) (p : Piece2d)
    → IsSpread o.kerf s
    → try_place_bottom_left s p o ≡ some t
    → IsSpread o.kerf t
unfolding try_place_bottom_left
try_place_bottom_left-IsSpread o s t p =
    place_oriented-keeps o.kerf (IsSpread o.kerf) (add_placement-IsSpread o.kerf) s t p _

pub try_place_bottom_left-IsContained :
    (o : Options2d) (s t : ActiveSheet) (p : Piece2d)
    → IsContained s
    → try_place_bottom_left s p o ≡ some t
    → IsContained t
unfolding try_place_bottom_left
try_place_bottom_left-IsContained o s t p =
    place_oriented-keeps o.kerf IsContained (add_placement-IsContained o.kerf) s t p _

pub create_active_sheet-IsSpread :
    (kerf : ℕ) (id : String) (w h : ℕ) (p : Piece2d) (rotated : Bool)
    → IsSpread kerf (create_active_sheet id w h p rotated)
unfolding create_active_sheet
create_active_sheet-IsSpread kerf id w h p rotated = (tt, tt)

-- Only where the piece as given fits is the first placement inside.
pub create_active_sheet-IsContained :
    (id : String) (w h : ℕ) (p : Piece2d)
    → p.width ≤ w
    → p.height ≤ h
    → IsContained (create_active_sheet id w h p false)
unfolding create_active_sheet
create_active_sheet-IsContained id w h p hw hh = (
  record { left = omega arith; bottom = omega arith; right = omega arith; top = omega arith },
  tt,
)
