-- ===== src/Optimize2d/Turning.antt =====
-- The turned placements in a result of optimize2D (2d/optimizer.ts).
use nestra.Prelude.{
  Anything, All-any, All-of_map, false, ℕ, ◌≡◌, refl, inl, inr, ◌⊎◌, Bool, true, List, [], ◌∷◌,
  some, some-injective, subst, All, All-append, All-Mem, Memᴰ, Option-cases, arith,
}
use nestra.Pieces.{PieceInput2d, Piece2d, expand_2d_pieces, sort_2d_by_area_desc}
use nestra.Stock.{StockInput2d}
use nestra.Geometry.{Orientation}
use nestra.Geometry.Turns.{IsTurn, get_orientations-IsTurn}
use nestra.Sheets.{
  Placement, ActiveSheet, Options2d, placement_at, create_active_sheet, add_placement,
  find_bottom_left_position, place_oriented, try_place_bottom_left,
}
use nestra.Guillotine.{
  create_guillotine_sheet, find_best_guillotine_fit, cut_from, try_place_guillotine,
}
use nestra.Guillotine.BestFit.{find_best_guillotine_fit-IsReal}
use nestra.Fill2d.{bottom_left, guillotine, start_2d}
use nestra.Fill2d.Invariant.{fill_2d-Keeps}
use nestra.Optimize2d.{
  sheet_result, build_result, packed_2d, finish_2d, bottom_left_fill, guillotine_cutting,
  Algorithm2d, bottom_left_type, guillotine_type, maxrects_type, other_type, optimize_2d,
}

-- A placement is as given, or its piece may be turned and turning is on.
abbrev pub IsPermitted : Bool → List Piece2d → Placement → Type 0
IsPermitted allow units q =
    (q.rotated ≡ false)
    ⊎ ((p : Piece2d) × Memᴰ p units × (p.id ≡ q.piece_id) × (p.can_rotate ≡ true) × (allow ≡ true))

module _ (units : List Piece2d) (o : Options2d) where
  abbrev ArePermitted : ActiveSheet → Type 0
  ArePermitted s = All (IsPermitted o.allow_rotation units) s.placements

  placement_at-IsPermitted :
      (p : Piece2d) (x y w h : ℕ) (rotated : Bool)
      → Memᴰ p units
      → IsTurn p.width p.height p.can_rotate o.allow_rotation
          (record { width = w; height = h; rotated = rotated })
      → IsPermitted o.allow_rotation units (placement_at p x y w h rotated)
  placement_at-IsPermitted p x y w h rotated m (inl (e, _)) = inl e
  placement_at-IsPermitted p x y w h rotated m (inr ((e, (c, a)), _)) = inr (p, m, refl, c, a)

  place_oriented-ArePermitted :
      (s t : ActiveSheet) (p : Piece2d) (os : List Orientation)
      → Memᴰ p units
      → All (IsTurn p.width p.height p.can_rotate o.allow_rotation) os
      → ArePermitted s
      → place_oriented s p o.kerf os ≡ some t
      → ArePermitted t
  unfolding place_oriented add_placement
  place_oriented-ArePermitted s t p [] m h a e = absurd (cc)
  place_oriented-ArePermitted s t p (r ∷ os) m h a e =
      elim (Option-cases (find_bottom_left_position s r.width r.height o.kerf)) [
        | inl f ↦ place_oriented-ArePermitted s t p os m h.1 a (rw (f, place_oriented) at e)
        | inr (pos, f) ↦ subst ArePermitted (some-injective _ _ (rw (f, place_oriented) at e)) (
            All-append (IsPermitted o.allow_rotation units) s.placements _ a
              (placement_at-IsPermitted p pos.x pos.y r.width r.height r.rotated m h.0, tt))
      ]

  try_place_guillotine-ArePermitted :
      (s t : ActiveSheet) (p : Piece2d)
      → Memᴰ p units
      → ArePermitted s
      → try_place_guillotine s p o ≡ some t
      → ArePermitted t
  unfolding try_place_guillotine cut_from
  try_place_guillotine-ArePermitted s t p m h e = elim (Option-cases s.free_rects) [
    | inl a ↦ absurd (ground arith)
    | inr (rs, a) ↦
        elim (Option-cases
          (find_best_guillotine_fit rs p.width p.height p.can_rotate o.allow_rotation)) [
            | inl b ↦ absurd (ground arith)
            | inr (f, b) ↦
                let r =
                  find_best_guillotine_fit-IsReal rs p.width p.height p.can_rotate o.allow_rotation
                    f b in
                subst ArePermitted
                  (some-injective _ _ (rw (a, b, r.found, try_place_guillotine) at e))
                  (All-append (IsPermitted o.allow_rotation units) s.placements _ h (
                    placement_at-IsPermitted p r.rect.x r.rect.y f.width f.height f.rotated m
                        r.turn,
                    tt,
                  ))
          ]
  ]

abbrev pub units_of : List PieceInput2d → List Piece2d
units_of pieces = sort_2d_by_area_desc (expand_2d_pieces pieces)

module _ (pieces : List PieceInput2d) (stock : List StockInput2d) (o : Options2d) where
  bottom_left_fill-IsPermitted :
      All
        (λ r. All (IsPermitted o.allow_rotation (units_of pieces)) r.placements)
        (bottom_left_fill pieces stock o).sheets
  unfolding bottom_left_fill finish_2d packed_2d build_result bottom_left start_2d sheet_result
      try_place_bottom_left create_active_sheet
  bottom_left_fill-IsPermitted =
      All-of_map _ sheet_result _
        (fill_2d-Keeps (bottom_left o) (ArePermitted (units_of pieces) o)
          (λ p. Memᴰ p (units_of pieces)) Anything
          (λ s t p m h e.
            place_oriented-ArePermitted (units_of pieces) o s t p _ m
              (get_orientations-IsTurn p.width p.height p.can_rotate o.allow_rotation) h e)
          (λ s p _ _ _. (inl refl, tt)) o _ _ (All-Mem _)
          (record { sheets = tt; stock = All-any _ })).sheets

  guillotine_cutting-IsPermitted :
      All
        (λ r. All (IsPermitted o.allow_rotation (units_of pieces)) r.placements)
        (guillotine_cutting pieces stock o).sheets
  unfolding guillotine_cutting finish_2d packed_2d build_result guillotine start_2d sheet_result
      create_guillotine_sheet create_active_sheet
  guillotine_cutting-IsPermitted =
      All-of_map _ sheet_result _
        (fill_2d-Keeps (guillotine o) (ArePermitted (units_of pieces) o)
          (λ p. Memᴰ p (units_of pieces)) Anything
          (λ s t p m h e. try_place_guillotine-ArePermitted (units_of pieces) o s t p m h e)
          (λ s p _ _ _. (inl refl, tt)) o _ _ (All-Mem _)
          (record { sheets = tt; stock = All-any _ })).sheets

-- Whatever the algorithm, a placement of the result is turned only where turning is on and a unit of
-- the demand with the placement's id may be turned.
pub optimize_2d-IsPermitted :
    (a : Algorithm2d) (pieces : List PieceInput2d) (stock : List StockInput2d) (o : Options2d)
    → All
        (λ r. All (IsPermitted o.allow_rotation (units_of pieces)) r.placements)
        (optimize_2d a pieces stock o).sheets
unfolding optimize_2d
optimize_2d-IsPermitted bottom_left_type = bottom_left_fill-IsPermitted
optimize_2d-IsPermitted guillotine_type = guillotine_cutting-IsPermitted
optimize_2d-IsPermitted maxrects_type = guillotine_cutting-IsPermitted
optimize_2d-IsPermitted other_type = bottom_left_fill-IsPermitted
