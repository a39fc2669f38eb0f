-- ===== src/Fill2d/Invariant.antt =====
-- Invariants of the sheets that the packing loop of the 2D algorithms holds, in general.
use nestra.Prelude.{
  ◌≡◌, refl, inl, inr, Bool, true, false, List, [], ◌∷◌, Option, none, some, some-injective, subst,
  All, All-append, Option-cases,
}
use nestra.Pieces.{Piece2d}
use nestra.Stock.{
  StockInput2d, Stock2dManager, fits_either_way, find_available_stock_2d, consume_stock_2d,
}
use nestra.Stock.Sheets.{find_in_2d-All, find_available_stock_2d_comm}
use nestra.Geometry.{get_orientations}
use nestra.Geometry.Turns.{get_orientations-cases}
use nestra.Sheets.{ActiveSheet, Options2d}
use nestra.Fill2d.{Method, Filling2d, try_sheets, open_oriented, open_new_sheet, place_2d, fill_2d}

-- A sheet for a piece that is laid as given.
abbrev pub Opened : Type 0
Opened = Option (ActiveSheet × Stock2dManager)

abbrev pub as_given_sheet : Method → Stock2dManager → Piece2d → Option StockInput2d → Opened
as_given_sheet method m p none = none
as_given_sheet method m p (some s) = some (method.create s p false, consume_stock_2d m s.id)

-- Whether or not a piece may be turned, a new sheet starts with the piece as given: the turned
-- orientation is tried only after the stock manager has found nothing either way round.
pub open_oriented_lem :
    (method : Method) (m : Stock2dManager) (p : Piece2d) (allow : Bool)
    → open_oriented method m p (get_orientations p.width p.height p.can_rotate allow none false)
      ≡ as_given_sheet method m p (find_available_stock_2d m p.width p.height)
unfolding open_oriented
open_oriented_lem method m p allow =
    elim (get_orientations-cases p.width p.height p.can_rotate allow) [
      | inl t ↦ elim (Option-cases (find_available_stock_2d m p.width p.height)) [
        | inl e ↦ rw (t, open_oriented, e) refl
        | inr (s, e) ↦ rw (t, open_oriented, e) refl
      ]
      | inr (t, _) ↦ elim (Option-cases (find_available_stock_2d m p.width p.height)) [
        | inl e ↦
            rw (t, open_oriented, e, ← find_available_stock_2d_comm m p.width p.height, e) refl
        | inr (s, e) ↦ rw (t, open_oriented, e) refl
      ]
    ]

-- What each sheet keeps, what each piece of the demand has, and what each item of the stock has.
module _ {κ μ ν} (method : Method) (P : ActiveSheet → Type κ) (Q : Piece2d → Type μ)
    (R : StockInput2d → Type ν)
    (keep : (s t : ActiveSheet) (p : Piece2d) → Q p → P s → method.try_place s p ≡ some t → P t)
    (new : (s : StockInput2d) (p : Piece2d)
      → Q p
      → R s
      → fits_either_way s p.width p.height ≡ true
      → P (method.create s p false)) where
  try_sheets-All :
      (p : Piece2d) (sheets : List ActiveSheet) {written : List ActiveSheet}
      → Q p
      → All P sheets
      → try_sheets method p sheets ≡ some written
      → All P written
  unfolding try_sheets
  try_sheets-All p [] q h e = absurd (cc)
  try_sheets-All p (s ∷ sheets) q h e = elim (Option-cases (method.try_place s p)) [
    | inr (t, f) ↦
        subst (All P) (some-injective _ _ (rw (f, try_sheets) at e)) (keep s t p q h.0 f, h.1)
    | inl f ↦ elim (Option-cases (try_sheets method p sheets)) [
      | inl g ↦ absurd (cc)
      | inr (rest, g) ↦
          subst (All P) (some-injective _ _ (rw (f, g, try_sheets) at e))
            (h.0, try_sheets-All p sheets q h.1 g)
    ]
  ]

  -- The state's half of the invariant.
  pub record Keeps (f : Filling2d) : Type (κ ⊔ ν) where
    pub sheets : All P f.active_sheets
    pub stock : All R f.stock_manager.sorted_stock

  open_new_sheet-Keeps :
      (o : Options2d) (f : Filling2d) (p : Piece2d)
      → Q p
      → Keeps f
      → Keeps (open_new_sheet method o f p)
  unfolding open_new_sheet find_available_stock_2d consume_stock_2d
  open_new_sheet-Keeps o f p q k =
      let m = f.stock_manager in
      elim (Option-cases (find_available_stock_2d m p.width p.height)) [
        | inl e ↦
            rw (open_new_sheet, open_oriented_lem method m p o.allow_rotation, e)
              (record { sheets = k.sheets; stock = k.stock })
        | inr (s, e) ↦
            let (r, fits, _) = find_in_2d-All R m.usage p.width p.height m.sorted_stock k.stock e in
            rw (open_new_sheet, open_oriented_lem method m p o.allow_rotation, e)
              (record {
                sheets = All-append P f.active_sheets _ k.sheets (new s p q r fits, tt);
                stock = k.stock;
              })
      ]

  place_2d-Keeps :
      (o : Options2d) (f : Filling2d) (p : Piece2d) → Q p → Keeps f → Keeps (place_2d method o f p)
  unfolding place_2d
  place_2d-Keeps o f p q k = elim (Option-cases (try_sheets method p f.active_sheets)) [
    | inl e ↦ rw (e, place_2d) (open_new_sheet-Keeps o f p q k)
    | inr (sheets, e) ↦
        rw (e, place_2d)
          (record { sheets = try_sheets-All p f.active_sheets q k.sheets e; stock = k.stock })
  ]

  pub fill_2d-Keeps :
      (o : Options2d) (f : Filling2d) (ps : List Piece2d)
      → All Q ps
      → Keeps f
      → Keeps (fill_2d method o f ps)
  unfolding fill_2d
  fill_2d-Keeps o f [] q k = k
  fill_2d-Keeps o f (p ∷ ps) q k =
      fill_2d-Keeps o (place_2d method o f p) ps q.1 (place_2d-Keeps o f p q.0 k)
