-- ===== src/Fill2d/Budgets.antt =====
-- The stock that the packing loop of the 2D algorithms takes.
use text.Mathlib.Text.{◌==◌ as str_eq}
use text.Mathlib.TextEquality.{eq_iff}
use nestra.Prelude.{
  ℕ, ◌+◌, ◌<◌, ◌≡◌, refl, String, Bool, false, List, [], ◌∷◌, some, some-injective, inl, inr,
  Option-cases, All, arith, subst, sum_by, sum_by-append, if◌then◌else◌,
}
use nestra.Pieces.{Piece2d}
use nestra.Stock.{StockInput2d, remaining_of, find_available_stock_2d, consume_stock_2d}
use nestra.Stock.Budget.{remaining_of-decrement}
use nestra.Stock.Sheets.{find_in_2d-All}
use nestra.Guillotine.{create_guillotine_sheet}
use nestra.Guillotine.Layout.{try_place_guillotine-keeps}
use nestra.Sheets.{ActiveSheet, Options2d, create_active_sheet}
use nestra.Sheets.BottomLeft.{place_oriented-keeps}
use nestra.Fill2d.{
  Method, bottom_left, guillotine, Filling2d, try_sheets, open_new_sheet, place_2d, fill_2d,
}
use nestra.Fill2d.Invariant.{open_oriented_lem}

-- The sheets that were cut from the stock item with this id.
abbrev pub sheets_of : String → List ActiveSheet → ℕ
sheets_of k = sum_by (λ s. if str_eq s.stock_id k then 1 else 0)

-- A way of packing that gives a new sheet its stock item's id, and leaves it there.
pub record IsLabelled (method : Method) : Type 0 where
  pub keeps :
      (s t : ActiveSheet) (p : Piece2d) → method.try_place s p ≡ some t → t.stock_id ≡ s.stock_id
  pub labels :
      (s : StockInput2d) (p : Piece2d) (rotated : Bool)
      → (method.create s p rotated).stock_id ≡ s.id

pub bottom_left-IsLabelled : (o : Options2d) → IsLabelled (bottom_left o)
unfolding bottom_left nestra.Sheets.try_place_bottom_left nestra.Sheets.add_placement
    create_active_sheet
bottom_left-IsLabelled o = record {
  keeps = λ s t p.
      place_oriented-keeps o.kerf (λ z. z.stock_id ≡ s.stock_id) (λ _ _ _ _ _ h. h) s t p _ refl;
  labels = λ s p rotated. refl;
}

pub guillotine-IsLabelled : (o : Options2d) → IsLabelled (guillotine o)
unfolding guillotine nestra.Guillotine.cut_from create_guillotine_sheet create_active_sheet
guillotine-IsLabelled o = record {
  keeps = λ s t p.
      try_place_guillotine-keeps o (λ z. z.stock_id ≡ s.stock_id) (λ _ _ _ _ _ _ h. h) s t p refl;
  labels = λ s p rotated. refl;
}

module _ (method : Method) (lawful : IsLabelled method) (k : String) where
  try_sheets-sheets_of :
      (p : Piece2d) (sheets written : List ActiveSheet)
      → try_sheets method p sheets ≡ some written
      → sheets_of k written ≡ sheets_of k sheets
  unfolding try_sheets
  try_sheets-sheets_of p [] written e = absurd (cc)
  try_sheets-sheets_of p (s ∷ sheets) written e = elim (Option-cases (method.try_place s p)) [
    | inr (t, f) ↦
        subst (λ z. sheets_of k z ≡ sheets_of k (s ∷ sheets))
          (some-injective _ _ (rw (f, try_sheets) at e)) (rw (lawful.keeps s t p f) refl)
    | inl f ↦ elim (Option-cases (try_sheets method p sheets)) [
      | inl g ↦ absurd (cc)
      | inr (rest, g) ↦
          subst (λ z. sheets_of k z ≡ sheets_of k (s ∷ sheets))
            (some-injective _ _ (rw (f, try_sheets, g) at e))
            (omega (arith, try_sheets-sheets_of p sheets rest g))
    ]
  ]

  -- The sheets of the id that are in use and the units that are left.
  abbrev pub spent : Filling2d → ℕ
  spent f = sheets_of k f.active_sheets + remaining_of f.stock_manager.usage k

  open_new_sheet-spent :
      (o : Options2d) (f : Filling2d) (p : Piece2d) → spent (open_new_sheet method o f p) ≡ spent f
  unfolding open_new_sheet find_available_stock_2d consume_stock_2d
  open_new_sheet-spent o f p =
      let m = f.stock_manager in
      elim (Option-cases (find_available_stock_2d m p.width p.height)) [
        | inl e ↦ rw (open_new_sheet, open_oriented_lem method m p o.allow_rotation, e) refl
        | inr (s, e) ↦
            let (_, _, left) =
              find_in_2d-All (λ _. 0 < 1) m.usage p.width p.height m.sorted_stock (any _) e in
            rw (open_new_sheet, open_oriented_lem method m p o.allow_rotation, e)
              (ground (
                arith,
                sum_by-append (λ (b : ActiveSheet). if str_eq b.stock_id k then 1 else 0)
                    f.active_sheets (method.create s p false ∷ []),
                lawful.labels s p false,
                remaining_of-decrement m.usage s.id k,
                eq_iff s.id k,
                left,
              ))
      ]
    where
      any : (xs : List StockInput2d) → All (λ _. 0 < 1) xs
      any [] = tt
      any (x ∷ xs) = (omega arith, any xs)

  place_2d-spent :
      (o : Options2d) (f : Filling2d) (p : Piece2d) → spent (place_2d method o f p) ≡ spent f
  unfolding place_2d
  place_2d-spent o f p = elim (Option-cases (try_sheets method p f.active_sheets)) [
    | inl e ↦ rw (e, place_2d) (open_new_sheet-spent o f p)
    | inr (sheets, e) ↦
        rw (e, place_2d) (omega (arith, try_sheets-sheets_of p f.active_sheets sheets e))
  ]

  -- Every unit that is gone from the manager is a sheet in use.
  pub fill_2d-spent :
      (o : Options2d) (f : Filling2d) (ps : List Piece2d) → spent (fill_2d method o f ps) ≡ spent f
  unfolding fill_2d
  fill_2d-spent o f [] = refl
  fill_2d-spent o f (p ∷ ps) =
      omega (arith, fill_2d-spent o (place_2d method o f p) ps, place_2d-spent o f p)
