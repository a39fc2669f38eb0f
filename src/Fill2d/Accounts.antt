-- ===== src/Fill2d/Accounts.antt =====
-- The pieces that the packing loop of the 2D algorithms places and rejects.
use mathlib.Core.List.{
  Perm, perm_middle, append_assoc, append-nil, map-append, perm_append_singleton,
}
use mathlib.Core.List.Perm
use nestra.Prelude.{
  ℕ, String, Bool, true, false, if◌then◌else◌, arith, ◌≡◌, refl, sym, ap, ◌∙◌, subst, List, [], ◌∷◌,
  ◌++◌, map, some, some-injective, inl, inr, Option-cases, All, All-append, All-append_left,
  All-append_right,
}
use nestra.Pieces.{PieceId, Piece2d}
use nestra.Pieces.Panels.{IsUnit2d}
use nestra.Stock.{StockInput2d, Stock2dManager, find_available_stock_2d}
use nestra.Geometry.{Orientation}
use nestra.Geometry.Turns.{IsTurn, get_orientations-IsTurn}
use nestra.Guillotine.BestFit.{find_best_guillotine_fit-IsReal}
use nestra.Sheets.{
  placement_at, Placement, ActiveSheet, Options2d, create_active_sheet, add_placement,
  find_bottom_left_position, place_oriented, try_place_bottom_left,
}
use nestra.Guillotine.{
  create_guillotine_sheet, find_best_guillotine_fit, cut_from, try_place_guillotine,
}
use nestra.Unplaced2d.{add}
use nestra.Unplaced2d.Totals.{add_all, add_all-nil, add_all-append}
use nestra.Fill2d.{
  Method, bottom_left, guillotine, Filling2d, start_2d, try_sheets, open_new_sheet, place_2d,
  fill_2d,
}
use nestra.Fill2d.Invariant.{open_oriented_lem}

-- What a placement and the piece that it was made for have in common: the dimensions are those of
-- the piece, also where the placement is turned.
pub record Item : Type 0 where
  pub piece_id : PieceId
  pub order_item_id : String
  pub width : ℕ
  pub height : ℕ

abbrev pub item_of_piece : Piece2d → Item
item_of_piece p = record {
  piece_id = p.id;
  order_item_id = p.order_item_id;
  width = p.width;
  height = p.height;
}

abbrev pub item_of_placement : Placement → Item
item_of_placement p = record {
  piece_id = p.piece_id;
  order_item_id = p.order_item_id;
  width = if p.rotated then p.height else p.width;
  height = if p.rotated then p.width else p.height;
}

item_of_placement-turn :
    (p : Piece2d) (x y w h : ℕ) (rotated allow : Bool)
    → IsTurn p.width p.height p.can_rotate allow
        (record { width = w; height = h; rotated = rotated })
    → item_of_placement (placement_at p x y w h rotated) ≡ item_of_piece p
item_of_placement-turn p x y w h rotated allow (inl (e, (f, g))) = rw (e, f, g) refl
item_of_placement-turn p x y w h rotated allow (inr ((e, _), (f, g))) = rw (e, f, g) refl

pub placed-items :
    (ps : List Placement) (p : Piece2d) (x y w h : ℕ) (rotated allow : Bool)
    → IsTurn p.width p.height p.can_rotate allow
        (record { width = w; height = h; rotated = rotated })
    → map item_of_placement (ps ++ placement_at p x y w h rotated ∷ [])
      ≡ map item_of_placement ps ++ item_of_piece p ∷ []
placed-items ps p x y w h rotated allow t =
    map-append item_of_placement ps (placement_at p x y w h rotated ∷ [])
    ∙ ap (λ i. map item_of_placement ps ++ i ∷ [])
        (item_of_placement-turn p x y w h rotated allow t)

abbrev pub items_on : ActiveSheet → List Item
items_on s = map item_of_placement s.placements

abbrev pub items_in : List ActiveSheet → List Item
items_in [] = []
items_in (s ∷ ss) = items_on s ++ items_in ss

-- A way of packing that adds the piece it is given, and no other.
pub record IsAccountable (method : Method) : Type 0 where
  pub adds :
      (s t : ActiveSheet) (p : Piece2d)
      → method.try_place s p ≡ some t
      → items_on t ≡ items_on s ++ item_of_piece p ∷ []
  pub opens :
      (s : StockInput2d) (p : Piece2d) (rotated : Bool)
      → items_on (method.create s p rotated) ≡ item_of_piece p ∷ []

place_oriented-items :
    (s t : ActiveSheet) (p : Piece2d) (kerf : ℕ) (allow : Bool) (os : List Orientation)
    → All (IsTurn p.width p.height p.can_rotate allow) os
    → place_oriented s p kerf os ≡ some t
    → items_on t ≡ items_on s ++ item_of_piece p ∷ []
unfolding place_oriented add_placement
place_oriented-items s t p kerf allow [] h e = absurd (cc)
place_oriented-items s t p kerf allow (o ∷ os) h e =
    elim (Option-cases (find_bottom_left_position s o.width o.height kerf)) [
      | inl f ↦ place_oriented-items s t p kerf allow os h.1 (rw (f, place_oriented) at e)
      | inr (pos, f) ↦
          subst (λ z. items_on z ≡ items_on s ++ item_of_piece p ∷ [])
            (some-injective _ _ (rw (f, place_oriented) at e))
            (placed-items s.placements p pos.x pos.y o.width o.height o.rotated allow h.0)
    ]

pub bottom_left-IsAccountable : (o : Options2d) → IsAccountable (bottom_left o)
unfolding bottom_left try_place_bottom_left create_active_sheet
bottom_left-IsAccountable o = record {
  adds = λ s t p e.
      place_oriented-items s t p o.kerf o.allow_rotation _
        (get_orientations-IsTurn p.width p.height p.can_rotate o.allow_rotation) e;
  opens = opened;
}
  where
    opened :
        (s : StockInput2d) (p : Piece2d) (rotated : Bool)
        → items_on (create_active_sheet s.id s.width s.height p rotated) ≡ item_of_piece p ∷ []
    opened s p true = refl
    opened s p false = refl

try_place_guillotine-items :
    (o : Options2d) (s t : ActiveSheet) (p : Piece2d)
    → try_place_guillotine s p o ≡ some t
    → items_on t ≡ items_on s ++ item_of_piece p ∷ []
unfolding try_place_guillotine cut_from
try_place_guillotine-items o s t p e = elim (Option-cases s.free_rects) [
  | inl a ↦ absurd (ground arith)
  | inr (rs, a) ↦
      elim (Option-cases
        (find_best_guillotine_fit rs p.width p.height p.can_rotate o.allow_rotation)) [
          | inl b ↦ absurd (ground arith)
          | inr (f, b) ↦
              let r =
                find_best_guillotine_fit-IsReal rs p.width p.height p.can_rotate o.allow_rotation f
                  b in
              subst (λ z. items_on z ≡ items_on s ++ item_of_piece p ∷ [])
                (some-injective _ _ (rw (a, b, r.found, try_place_guillotine) at e))
                (placed-items s.placements p r.rect.x r.rect.y f.width f.height f.rotated
                  o.allow_rotation r.turn)
        ]
]

pub guillotine-IsAccountable : (o : Options2d) → IsAccountable (guillotine o)
unfolding guillotine create_guillotine_sheet create_active_sheet
guillotine-IsAccountable o = record {
  adds = λ s t p e. try_place_guillotine-items o s t p e;
  opens = opened;
}
  where
    opened :
        (s : StockInput2d) (p : Piece2d) (rotated : Bool)
        → items_on (create_guillotine_sheet s.id s.width s.height p rotated o.kerf)
          ≡ item_of_piece p ∷ []
    opened s p true = refl
    opened s p false = refl

-- After the pieces `earlier`, the placements and the rejected pieces are a rearrangement of them, and the
-- collector holds the rejected ones.
pub record Accounts (f : Filling2d) (earlier : List Piece2d) : Type 0 where
  pub rejected : List Piece2d
  pub placed_or_rejected :
      Perm (items_in f.active_sheets ++ map item_of_piece rejected) (map item_of_piece earlier)
  pub collected : f.unplaced ≡ add_all [] rejected
  pub genuine : All IsUnit2d earlier → All IsUnit2d rejected

map-snoc :
    (earlier : List Piece2d) (p : Piece2d)
    → Perm (item_of_piece p ∷ map item_of_piece earlier) (map item_of_piece (earlier ++ p ∷ []))
map-snoc earlier p =
    rw (map-append item_of_piece earlier (p ∷ []))
      (Perm.symm (perm_append_singleton (item_of_piece p) (map item_of_piece earlier)))

-- One more piece among the placements.
Accounts-placed :
    (f g : Filling2d) (earlier : List Piece2d) (p : Piece2d)
    → Accounts f earlier
    → g.unplaced ≡ f.unplaced
    → Perm (items_in g.active_sheets) (item_of_piece p ∷ items_in f.active_sheets)
    → Accounts g (earlier ++ p ∷ [])
Accounts-placed f g earlier p a e h = record {
  rejected = a.rejected;
  placed_or_rejected =
      Perm.trans (Perm.append_right (map item_of_piece a.rejected) h)
        (Perm.trans (Perm.cons (item_of_piece p) a.placed_or_rejected) (map-snoc earlier p));
  collected = e ∙ a.collected;
  genuine = λ h. a.genuine (All-append_left IsUnit2d earlier (p ∷ []) h);
}

-- One more rejected piece.
Accounts-rejected :
    (f : Filling2d) (earlier : List Piece2d) (p : Piece2d)
    → Accounts f earlier
    → Accounts (record f { unplaced = add f.unplaced p }) (earlier ++ p ∷ [])
Accounts-rejected f earlier p a = record {
  rejected = a.rejected ++ p ∷ [];
  placed_or_rejected =
      rw (map-append item_of_piece a.rejected (p ∷ []), ← append_assoc)
        (rw (map-append item_of_piece earlier (p ∷ []))
          (Perm.append_right (item_of_piece p ∷ []) a.placed_or_rejected));
  collected = ap (λ u. add u p) a.collected ∙ sym (add_all-append [] a.rejected p);
  genuine = λ h.
      All-append IsUnit2d a.rejected (p ∷ [])
        (a.genuine (All-append_left IsUnit2d earlier (p ∷ []) h))
        (All-append_right IsUnit2d earlier (p ∷ []) h);
}

module _ (method : Method) (lawful : IsAccountable method) where
  items_in-new :
      (sheets : List ActiveSheet) (s : StockInput2d) (p : Piece2d) (rotated : Bool)
      → Perm
          (items_in (sheets ++ method.create s p rotated ∷ []))
          (item_of_piece p ∷ items_in sheets)
  items_in-new [] s p rotated = rw (lawful.opens s p rotated) Perm.rfl
  items_in-new (t ∷ sheets) s p rotated =
      Perm.trans (Perm.append_left (items_on t) (items_in-new sheets s p rotated))
        (perm_middle (items_on t) (items_in sheets))

  items_in-placed :
      (sheets written : List ActiveSheet) (p : Piece2d)
      → try_sheets method p sheets ≡ some written
      → Perm (items_in written) (item_of_piece p ∷ items_in sheets)
  unfolding try_sheets
  items_in-placed [] written p e = absurd (cc)
  items_in-placed (s ∷ sheets) written p e = elim (Option-cases (method.try_place s p)) [
    | inr (t, f) ↦
        subst (λ z. Perm (items_in z) (item_of_piece p ∷ items_on s ++ items_in sheets))
          (some-injective _ _ (rw (f, try_sheets) at e))
          (rw (lawful.adds s t p f, append_assoc) (perm_middle (items_on s) (items_in sheets)))
    | inl f ↦ elim (Option-cases (try_sheets method p sheets)) [
      | inl g ↦ absurd (cc)
      | inr (rest, g) ↦
          subst (λ z. Perm (items_in z) (item_of_piece p ∷ items_on s ++ items_in sheets))
            (some-injective _ _ (rw (f, try_sheets, g) at e))
            (Perm.trans (Perm.append_left (items_on s) (items_in-placed sheets rest p g))
              (perm_middle (items_on s) (items_in sheets)))
    ]
  ]

  open_new_sheet-Accounts :
      (o : Options2d) (f : Filling2d) (earlier : List Piece2d) (p : Piece2d)
      → Accounts f earlier
      → Accounts (open_new_sheet method o f p) (earlier ++ p ∷ [])
  unfolding open_new_sheet
  open_new_sheet-Accounts o f earlier p a =
      elim (Option-cases (find_available_stock_2d f.stock_manager p.width p.height)) [
        | inl e ↦
            rw (open_new_sheet, open_oriented_lem method f.stock_manager p o.allow_rotation, e)
              (Accounts-rejected f earlier p a)
        | inr (s, e) ↦
            rw (open_new_sheet, open_oriented_lem method f.stock_manager p o.allow_rotation, e)
              (Accounts-placed f _ earlier p a refl (items_in-new f.active_sheets s p false))
      ]

  place_2d-Accounts :
      (o : Options2d) (f : Filling2d) (earlier : List Piece2d) (p : Piece2d)
      → Accounts f earlier
      → Accounts (place_2d method o f p) (earlier ++ p ∷ [])
  unfolding place_2d
  place_2d-Accounts o f earlier p a = elim (Option-cases (try_sheets method p f.active_sheets)) [
    | inl e ↦ rw (e, place_2d) (open_new_sheet-Accounts o f earlier p a)
    | inr (sheets, e) ↦
        rw (e, place_2d)
          (Accounts-placed f _ earlier p a refl (items_in-placed f.active_sheets sheets p e))
  ]

  pub fill_2d-Accounts :
      (o : Options2d) (f : Filling2d) (earlier ps : List Piece2d)
      → Accounts f earlier
      → Accounts (fill_2d method o f ps) (earlier ++ ps)
  unfolding fill_2d
  fill_2d-Accounts o f earlier [] a = rw (append-nil earlier) a
  fill_2d-Accounts o f earlier (p ∷ ps) a =
      subst (Accounts (fill_2d method o (place_2d method o f p) ps))
        (append_assoc earlier (p ∷ []) ps)
        (fill_2d-Accounts o (place_2d method o f p) (earlier ++ p ∷ []) ps
          (place_2d-Accounts o f earlier p a))

-- Before the first piece.
pub start_2d-Accounts : (m : Stock2dManager) → Accounts (start_2d m) []
unfolding start_2d
start_2d-Accounts m = record {
  rejected = [];
  placed_or_rejected = Perm.nil;
  collected = sym add_all-nil;
  genuine = λ h. h;
}
