-- ===== src/Cutting2d/Sheet.antt =====
-- The sheets that tryCreateNewSheetBL and tryCreateNewSheetGuillotine of 2d/cutting2d.ts make, and
-- what is kept by writing to a sheet in use.
use nestra.Prelude.{
  ◌-◌, ◌<◌, ◌≤◌, ◌≡◌, refl, inl, inr, true, false, List, [], ◌∷◌, some, some-injective, ap, sym,
  subst, ◌∙◌, ◌&&◌, All, Memᴰ, arith, ltb, leb, Bool-cases, Option-cases,
}
use nestra.Prelude.Dict.{insert}
use nestra.Geometry.{Rectangle, Position, Orientation}
use nestra.Pieces.{Piece2d}
use nestra.Stock.{StockInput2d, Usage, remaining_of}
use nestra.Sheets.{ActiveSheet, Options2d, can_place_at, add_placement, placement_at}
use nestra.Sheets.BottomLeft.{place_oriented-keeps}
use nestra.Guillotine.{GuillotineFit, cut_from}
use nestra.Guillotine.BestFit.{IsReal}
use nestra.Guillotine.Layout.{try_place_guillotine-keeps}
use nestra.Grained.{GrainedPiece, orientations_of}
use nestra.Packing.Written.{write_first-All}
use nestra.Cutting2d.{
  fitting, open_from, bottom_left_calls, guillotine_calls, try_place_in_active_sheets_bl,
}
use nestra.Cutting2d.Agreement.{place_in_sheet-eq, try_place_guillotine_in_sheet-eq}

-- How a new sheet was made.
pub record IsOpened (make : StockInput2d → Orientation → ActiveSheet) (u v : Usage)
    (os : List Orientation) (ss : List StockInput2d) (sheet : ActiveSheet) : Type 0 where
  pub item : StockInput2d
  pub orient : Orientation
  pub of_stock : Memᴰ item ss
  pub permitted : Memᴰ orient os
  pub narrow : orient.width ≤ item.width
  pub low : orient.height ≤ item.height
  pub left : 0 < remaining_of u item.id
  pub made : make item orient ≡ sheet
  pub taken : insert item.id (remaining_of u item.id - 1) u ≡ v

pub fitting_lem :
    (s : StockInput2d) (os : List Orientation) (o : Orientation)
    → fitting s os ≡ some o
    → Memᴰ o os × (o.width ≤ s.width) × (o.height ≤ s.height)
unfolding fitting
fitting_lem s [] o e = absurd (cc)
fitting_lem s (x ∷ os) o e = elim (Bool-cases (leb x.width s.width && leb x.height s.height)) [
  | inl t ↦
      subst (λ z. Memᴰ z (x ∷ os) × (z.width ≤ s.width) × (z.height ≤ s.height))
        (some-injective _ _ (rw (t, fitting) at e)) (Memᴰ.head refl, ground arith, ground arith)
  | inr t ↦ let (m, a, b) = fitting_lem s os o (rw (t, fitting) at e) in (Memᴰ.tail m, a, b)
]

module _ (make : StockInput2d → Orientation → ActiveSheet) (u : Usage) (os : List Orientation) where
  later :
      {v : Usage} {sheet : ActiveSheet} (s : StockInput2d) (ss : List StockInput2d)
      → IsOpened make u v os ss sheet
      → IsOpened make u v os (s ∷ ss) sheet
  later s ss h = record {
    item = h.item;
    orient = h.orient;
    of_stock = Memᴰ.tail h.of_stock;
    permitted = h.permitted;
    narrow = h.narrow;
    low = h.low;
    left = h.left;
    made = h.made;
    taken = h.taken;
  }

  pub open_from-IsOpened :
      (ss : List StockInput2d) (sheet : ActiveSheet) (v : Usage)
      → open_from make u os ss ≡ some (sheet, v)
      → IsOpened make u v os ss sheet
  unfolding open_from
  open_from-IsOpened [] sheet v e = absurd (cc)
  open_from-IsOpened (s ∷ ss) sheet v e = elim (Bool-cases (ltb 0 (remaining_of u s.id))) [
    | inr t ↦ later s ss (open_from-IsOpened ss sheet v (rw (t, open_from) at e))
    | inl t ↦ elim (Option-cases (fitting s os)) [
      | inl f ↦ later s ss (open_from-IsOpened ss sheet v (rw (t, open_from, f) at e))
      | inr (o, f) ↦
          let (m, narrow, low) = fitting_lem s os o f in
          let pair = some-injective _ _ (rw (t, open_from, f) at e) in
          record {
            item = s;
            orient = o;
            of_stock = Memᴰ.head refl;
            permitted = m;
            narrow = narrow;
            low = low;
            left = ground arith;
            made = ap (λ z. z.0) pair;
            taken = ap (λ z. z.1) pair;
          }
    ]
  ]

-- A property of sheets that each admissible placement keeps, the loop over the sheets keeps.
module _ {κ} (stock : List StockInput2d) (o : Options2d) (P : ActiveSheet → Type κ) where
  pub bottom_left_calls-keeps :
      ((s : ActiveSheet) (p : Piece2d) (pos : Position) (r : Orientation)
        → can_place_at s pos r.width r.height o.kerf ≡ true
        → P s
        → P (add_placement s (placement_at p pos.x pos.y r.width r.height r.rotated)))
      → (sheets written : List ActiveSheet) (p : GrainedPiece) → All P sheets
      → (bottom_left_calls stock o).try_existing sheets p ≡ some written
      → All P written
  unfolding bottom_left_calls try_place_in_active_sheets_bl
  bottom_left_calls-keeps step sheets written p h e =
      write_first-All _ P
        (λ s t k f.
          place_oriented-keeps o.kerf P step s t p.piece (orientations_of p o.allow_rotation false)
            k (sym (place_in_sheet-eq s p o.kerf (orientations_of p o.allow_rotation false)) ∙ f))
        sheets written h e

  pub guillotine_calls-keeps :
      ((s : ActiveSheet) (p : Piece2d) (rs : List Rectangle) (f : GuillotineFit)
          (r : IsReal p.width p.height p.can_rotate o.allow_rotation rs f)
        → s.free_rects ≡ some rs
        → P s
        → P (cut_from s p o.kerf rs f r.rect))
      → (sheets written : List ActiveSheet) (p : GrainedPiece) → All P sheets
      → (guillotine_calls stock o).try_existing sheets p ≡ some written
      → All P written
  unfolding guillotine_calls
  guillotine_calls-keeps step sheets written p h e =
      write_first-All _ P
        (λ s t k f.
          try_place_guillotine-keeps o P step s t p.piece k
            (sym (try_place_guillotine_in_sheet-eq o p s) ∙ f))
        sheets written h e
