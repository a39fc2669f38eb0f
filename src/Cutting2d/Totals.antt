-- ===== src/Cutting2d/Totals.antt =====
-- A result of 2d/cutting2d.ts, the demand and the stock that it was given.
use text.Mathlib.Text.{◌==◌ as str_eq}
use text.Mathlib.TextEquality.{eq_iff}
use nestra.Prelude.{
  ℕ, ◌+◌, ◌-◌, ◌≡◌, refl, sym, ap, ◌∙◌, String, Bool, false, List, [], ◌∷◌, ◌++◌, some, All-of_Mem,
  sum_by, sum_by-append, arith, if◌then◌else◌,
}
use nestra.Geometry.{Orientation}
use nestra.Geometry.Turns.{IsTurn, get_orientations-IsTurn}
use nestra.Stock.{StockInput2d, Usage, remaining_of}
use nestra.Stock.Budget.{remaining_of-insert}
use nestra.Sheets.{ActiveSheet, Options2d, placement_at}
use nestra.Fill2d.{bottom_left, guillotine}
use nestra.Fill2d.Accounts.{
  Item, item_of_piece, items_on, placed-items, bottom_left-IsAccountable, guillotine-IsAccountable,
}
use nestra.Fill2d.Budgets.{sheets_of, bottom_left-IsLabelled, guillotine-IsLabelled}
use nestra.Grained.{GrainedPiece, orientations_of}
use nestra.Packing.{Packer}
use nestra.Packing.Written.{write_first-sum}
use nestra.Cutting2d.{
  new_sheet_bl, initialize_guillotine_sheet, bottom_left_calls, guillotine_calls,
  try_place_in_active_sheets_bl, try_create_new_sheet_bl, try_create_new_sheet_guillotine, entry_of,
}
use nestra.Cutting2d.Agreement.{in_sheet_agreement, orientations_of-eq}
use nestra.Cutting2d.Sheet.{IsOpened, open_from-IsOpened}

-- A way of packing that puts down the piece it is given and no other, leaves the sheets' labels,
-- and takes the stock unit of the sheet it opens.
pub record IsCounting (calls : Packer ActiveSheet Usage) : Type 0 where
  pub adds :
      (W : Item → ℕ) (sheets written : List ActiveSheet) (p : GrainedPiece)
      → calls.try_existing sheets p ≡ some written
      → sum_by (λ s. sum_by W (items_on s)) written
        ≡ sum_by (λ s. sum_by W (items_on s)) sheets + W (item_of_piece p.piece)
  pub labels :
      (k : String) (sheets written : List ActiveSheet) (p : GrainedPiece)
      → calls.try_existing sheets p ≡ some written
      → sheets_of k written ≡ sheets_of k sheets
  pub opens :
      (W : Item → ℕ) (u v : Usage) (p : GrainedPiece) (s : ActiveSheet)
      → calls.open_new u p ≡ some (s, v)
      → sum_by W (items_on s) ≡ W (item_of_piece p.piece)
  pub takes :
      (k : String) (u v : Usage) (p : GrainedPiece) (s : ActiveSheet)
      → calls.open_new u p ≡ some (s, v)
      → (if str_eq s.stock_id k then 1 else 0) + remaining_of v k ≡ remaining_of u k
  pub entries :
      (p : GrainedPiece)
      → ((calls.entry_of p).input.id ≡ p.piece.original_id)
        × ((calls.entry_of p).input.quantity ≡ 1)

-- For a sheet in use.
items_grow :
    (W : Item → ℕ) (s t : ActiveSheet) (p : GrainedPiece)
    → items_on t ≡ items_on s ++ item_of_piece p.piece ∷ []
    → sum_by W (items_on t) ≡ sum_by W (items_on s) + W (item_of_piece p.piece)
items_grow W s t p e =
    rw e (omega (arith, sum_by-append W (items_on s) (item_of_piece p.piece ∷ [])))

-- For a new sheet with one placement at the origin.
module _ (make : GrainedPiece → StockInput2d → Orientation → ActiveSheet)
    (first : (p : GrainedPiece) (s : StockInput2d) (o : Orientation)
      → ((make p s o).placements ≡ placement_at p.piece 0 0 o.width o.height o.rotated ∷ [])
        × ((make p s o).stock_id ≡ s.id))
    (allow : Bool) (stock : List StockInput2d) (u v : Usage) (p : GrainedPiece) (s : ActiveSheet)
    (i : IsOpened (make p) u v (orientations_of p allow false) stock s) where
  new_items : (W : Item → ℕ) → sum_by W (items_on s) ≡ W (item_of_piece p.piece)
  new_items W =
      let turn =
        All-of_Mem (IsTurn p.piece.width p.piece.height p.piece.can_rotate allow)
          (orientations_of p allow false)
          (rw (orientations_of-eq p allow)
            (get_orientations-IsTurn p.piece.width p.piece.height p.piece.can_rotate allow))
          i.permitted in
      rw (← i.made, (first p i.item i.orient).0)
        (ap (sum_by W)
            (placed-items [] p.piece 0 0 i.orient.width i.orient.height i.orient.rotated allow turn)
          ∙ omega arith)

  new_taken :
      (k : String) → (if str_eq s.stock_id k then 1 else 0) + remaining_of v k ≡ remaining_of u k
  new_taken k =
      rw (← i.made, ← i.taken, (first p i.item i.orient).1)
        (ground (
          arith,
          remaining_of-insert u i.item.id k (remaining_of u i.item.id - 1),
          eq_iff i.item.id k,
          i.left,
        ))

pub bottom_left_calls-IsCounting :
    (stock : List StockInput2d) (o : Options2d) → IsCounting (bottom_left_calls stock o)
unfolding bottom_left_calls try_place_in_active_sheets_bl try_create_new_sheet_bl entry_of
    bottom_left
bottom_left_calls-IsCounting stock o = record {
  adds = λ W sheets written p e.
      write_first-sum _ (λ s. sum_by W (items_on s)) (W (item_of_piece p.piece))
        (λ s t f.
          items_grow W s t p
            ((bottom_left-IsAccountable o).adds s t p.piece (sym (in_sheet_agreement o p s).0 ∙ f)))
        sheets written e;
  labels = λ k sheets written p e.
      write_first-sum _ (λ (s : ActiveSheet). if str_eq s.stock_id k then 1 else 0) 0
        (λ s t f.
          rw ((bottom_left-IsLabelled o).keeps s t p.piece (sym (in_sheet_agreement o p s).0 ∙ f))
            (omega arith))
        sheets written e
      ∙ omega arith;
  opens = λ W u v p s e.
      new_items new_sheet_bl first o.allow_rotation stock u v p s
        (open_from-IsOpened (new_sheet_bl p) u _ stock s v e) W;
  takes = λ k u v p s e.
      new_taken new_sheet_bl first o.allow_rotation stock u v p s
        (open_from-IsOpened (new_sheet_bl p) u _ stock s v e) k;
  entries = λ p. (refl, refl);
}
  where
    first :
        (p : GrainedPiece) (s : StockInput2d) (o : Orientation)
        → ((new_sheet_bl p s o).placements
            ≡ placement_at p.piece 0 0 o.width o.height o.rotated ∷ [])
          × ((new_sheet_bl p s o).stock_id ≡ s.id)
    first p s o = unfold new_sheet_bl in (refl, refl)

pub guillotine_calls-IsCounting :
    (stock : List StockInput2d) (o : Options2d) → IsCounting (guillotine_calls stock o)
unfolding guillotine_calls try_create_new_sheet_guillotine entry_of guillotine
guillotine_calls-IsCounting stock o = record {
  adds = λ W sheets written p e.
      write_first-sum _ (λ s. sum_by W (items_on s)) (W (item_of_piece p.piece))
        (λ s t f.
          items_grow W s t p
            ((guillotine-IsAccountable o).adds s t p.piece (sym (in_sheet_agreement o p s).1 ∙ f)))
        sheets written e;
  labels = λ k sheets written p e.
      write_first-sum _ (λ (s : ActiveSheet). if str_eq s.stock_id k then 1 else 0) 0
        (λ s t f.
          rw ((guillotine-IsLabelled o).keeps s t p.piece (sym (in_sheet_agreement o p s).1 ∙ f))
            (omega arith))
        sheets written e
      ∙ omega arith;
  opens = λ W u v p s e.
      new_items (initialize_guillotine_sheet o.kerf) first o.allow_rotation stock u v p s
        (open_from-IsOpened (initialize_guillotine_sheet o.kerf p) u _ stock s v e) W;
  takes = λ k u v p s e.
      new_taken (initialize_guillotine_sheet o.kerf) first o.allow_rotation stock u v p s
        (open_from-IsOpened (initialize_guillotine_sheet o.kerf p) u _ stock s v e) k;
  entries = λ p. (refl, refl);
}
  where
    first :
        (p : GrainedPiece) (s : StockInput2d) (r : Orientation)
        → ((initialize_guillotine_sheet o.kerf p s r).placements
            ≡ placement_at p.piece 0 0 r.width r.height r.rotated ∷ [])
          × ((initialize_guillotine_sheet o.kerf p s r).stock_id ≡ s.id)
    first p s r = unfold initialize_guillotine_sheet in (unfold new_sheet_bl in (refl, refl))
