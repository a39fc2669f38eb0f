-- ===== src/Guillotine/Layout.antt =====
-- The sheets of tryPlaceGuillotine (2d/sheet-manager.ts): distances and bounds.
use nestra.Prelude.{
  ℕ, String, ◌≤◌, ◌≡◌, inl, inr, Bool, false, List, [], Option, none, some, some-injective, subst,
  All, All-append, All-get, All-map, Option-cases, arith,
}
use nestra.Pieces.{Piece2d}
use nestra.Geometry.{Rectangle}
use nestra.Geometry.Separation.{
  Apart, Apart-inside, IsInside, IsInside-trans, area_of, Pairwise, Pairwise-append,
}
use nestra.Sheets.{
  ActiveSheet, Options2d, rect_of, placed_width, placed_height, create_active_sheet,
}
use nestra.Sheets.BottomLeft.{IsSpread, IsContained, create_active_sheet-IsContained}
use nestra.Guillotine.{
  GuillotineFit, split_free_rectangle, first_free_rects, create_guillotine_sheet,
  find_best_guillotine_fit, cut_from, try_place_guillotine,
}
use nestra.Guillotine.Regions.{
  piece_in-IsInside, split-Pairwise, split-Apart, split-IsInside, cut-Pairwise, cut-Apart_piece,
  cut-Apart_old, cut-IsInside,
}
use nestra.Guillotine.BestFit.{IsReal, find_best_guillotine_fit-IsReal}

abbrev pub regions_of : Option (List Rectangle) → List Rectangle
regions_of none = []
regions_of (some rs) = rs

-- A blade parts any two of the placements and free rectangles.
pub record IsParted (kerf : ℕ) (s : ActiveSheet) : Type 0 where
  pub spread : IsSpread kerf s
  pub free : Pairwise (Apart kerf) (regions_of s.free_rects)
  pub cross : All (λ p. All (Apart kerf (rect_of p)) (regions_of s.free_rects)) s.placements

-- None of them leaves the sheet.
pub record IsHeld (s : ActiveSheet) : Type 0 where
  pub placed : IsContained s
  pub free : All (λ r. IsInside r (area_of s.width s.height)) (regions_of s.free_rects)

-- A property of sheets that each admissible cut keeps is kept by the strategy.
module _ {κ} (o : Options2d) (P : ActiveSheet → Type κ)
    (step : (s : ActiveSheet) (p : Piece2d) (rs : List Rectangle) (f : GuillotineFit)
        (r : IsReal p.width p.height p.can_rotate o.allow_rotation rs f)
      → s.free_rects ≡ some rs
      → P s
      → P (cut_from s p o.kerf rs f r.rect)) where
  pub try_place_guillotine-keeps :
      (s t : ActiveSheet) (p : Piece2d) → P s → try_place_guillotine s p o ≡ some t → P t
  unfolding try_place_guillotine
  try_place_guillotine-keeps s t p h e = elim (Option-cases s.free_rects) [
    | inl a ↦ absurd (ground arith)
    | inr (rs, a) ↦
        elim (Option-cases
          (find_best_guillotine_fit rs p.width p.height p.can_rotate o.allow_rotation)) [
            | inl b ↦ absurd (ground arith)
            | inr (f, b) ↦
                let r =
                  find_best_guillotine_fit-IsReal rs p.width p.height p.can_rotate o.allow_rotation
                    f b in
                subst P (some-injective _ _ (rw (a, b, r.found, try_place_guillotine) at e))
                  (step s p rs f r a h)
          ]
  ]

pub cut_from-IsParted :
    (o : Options2d) (s : ActiveSheet) (p : Piece2d) (rs : List Rectangle) (f : GuillotineFit)
    (r : IsReal p.width p.height p.can_rotate o.allow_rotation rs f)
    → s.free_rects ≡ some rs
    → IsParted o.kerf s
    → IsParted o.kerf (cut_from s p o.kerf rs f r.rect)
unfolding cut_from
cut_from-IsParted o s p rs f r a h =
    let free : Pairwise (Apart o.kerf) rs =
      subst (λ z. Pairwise (Apart o.kerf) (regions_of z)) a h.free in
    let cross : All (λ q. All (Apart o.kerf (rect_of q)) rs) s.placements =
      subst (λ z. All (λ q. All (Apart o.kerf (rect_of q)) (regions_of z)) s.placements) a
        h.cross in
    record {
      spread =
          Pairwise-append (λ q z. Apart o.kerf (rect_of q) (rect_of z)) s.placements _ h.spread
            (tt, tt)
            (All-map
              (λ q c. (
                Apart-inside o.kerf (rect_of q) _ r.rect
                    (piece_in-IsInside r.rect f.width f.height r.narrow r.low)
                    (All-get (Apart o.kerf (rect_of q)) rs f.index c r.found),
                tt,
              ))
              s.placements cross);
      free = cut-Pairwise o.kerf rs f.index f.width f.height r.found r.narrow r.low free;
      cross =
          All-append (λ q. All (Apart o.kerf (rect_of q)) _) s.placements _
            (All-map
              (λ q c.
                cut-Apart_old o.kerf rs f.index f.width f.height r.found r.narrow r.low (rect_of q)
                  c)
              s.placements cross)
            (cut-Apart_piece o.kerf rs f.index f.width f.height r.found r.narrow r.low free, tt);
    }

pub cut_from-IsHeld :
    (o : Options2d) (s : ActiveSheet) (p : Piece2d) (rs : List Rectangle) (f : GuillotineFit)
    (r : IsReal p.width p.height p.can_rotate o.allow_rotation rs f)
    → s.free_rects ≡ some rs
    → IsHeld s
    → IsHeld (cut_from s p o.kerf rs f r.rect)
unfolding cut_from
cut_from-IsHeld o s p rs f r a h =
    let area = area_of s.width s.height in
    let free : All (λ x. IsInside x area) rs =
      subst (λ z. All (λ x. IsInside x area) (regions_of z)) a h.free in
    record {
      placed =
          All-append (λ q. IsInside (rect_of q) area) s.placements _ h.placed
            (
              IsInside-trans _ r.rect area
                  (piece_in-IsInside r.rect f.width f.height r.narrow r.low)
                  (All-get (λ x. IsInside x area) rs f.index free r.found),
              tt,
            );
      free = cut-IsInside o.kerf rs f.index f.width f.height r.found r.narrow r.low area free;
    }

pub try_place_guillotine-IsParted :
    (o : Options2d) (s t : ActiveSheet) (p : Piece2d)
    → IsParted o.kerf s
    → try_place_guillotine s p o ≡ some t
    → IsParted o.kerf t
try_place_guillotine-IsParted o =
    try_place_guillotine-keeps o (IsParted o.kerf) (cut_from-IsParted o)

pub try_place_guillotine-IsHeld :
    (o : Options2d) (s t : ActiveSheet) (p : Piece2d)
    → IsHeld s
    → try_place_guillotine s p o ≡ some t
    → IsHeld t
try_place_guillotine-IsHeld o = try_place_guillotine-keeps o IsHeld (cut_from-IsHeld o)

-- The first two free rectangles are those of a cut from the whole sheet.
pub first_free_rects-eq :
    (w h width height kerf : ℕ)
    → first_free_rects w h width height kerf ≡ split_free_rectangle (area_of width height) w h kerf
unfolding first_free_rects split_free_rectangle
first_free_rects-eq w h width height kerf = ground arith

pub create_guillotine_sheet-IsParted :
    (kerf : ℕ) (id : String) (width height : ℕ) (p : Piece2d) (rotated : Bool)
    → IsParted kerf (create_guillotine_sheet id width height p rotated kerf)
unfolding create_guillotine_sheet create_active_sheet
create_guillotine_sheet-IsParted kerf id width height p rotated =
    let w = placed_width p rotated in
    let h = placed_height p rotated in
    record {
      spread = (tt, tt);
      free =
          rw (first_free_rects-eq w h width height kerf)
            (split-Pairwise (area_of width height) w h kerf);
      cross =
          rw (first_free_rects-eq w h width height kerf)
            (split-Apart (area_of width height) w h kerf, tt);
    }

pub create_guillotine_sheet-IsHeld :
    (kerf : ℕ) (id : String) (width height : ℕ) (p : Piece2d)
    → p.width ≤ width
    → p.height ≤ height
    → IsHeld (create_guillotine_sheet id width height p false kerf)
unfolding create_guillotine_sheet
create_guillotine_sheet-IsHeld kerf id width height p narrow low = record {
  placed = create_active_sheet-IsContained id width height p narrow low;
  free =
      rw (first_free_rects-eq p.width p.height width height kerf)
        (split-IsInside (area_of width height) p.width p.height kerf narrow low);
}
