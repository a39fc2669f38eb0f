-- ===== src/Fill1d/Plans.antt =====
-- The bars that the packing loop of 1d/ffd-algorithm.ts and 1d/bfd-algorithm.ts holds.
use nestra.Prelude.{ℕ, List, [], ◌∷◌, All, All-append, All-get, All-modify, inl, inr, Option-cases}
use nestra.Pieces.{Piece1d}
use nestra.Stock.{find_available_stock_1d}
use nestra.Stock.Budget.{find_in_lem}
use nestra.Bars.{place_piece_in_bar}
use nestra.Bars.Plan.{IsValidBar, create_active_bar-IsValidBar, place_piece_in_bar-IsValidBar}
use nestra.Bars.Choice.{IsChooser}
use nestra.Fill1d.{Filling, Chooser, open_new_bar, place_1d, fill_1d}

abbrev pub AreValid : ℕ → Filling → Type 0
AreValid kerf f = All (IsValidBar kerf) f.active_bars

open_new_bar-AreValid :
    (kerf : ℕ) (f : Filling) (p : Piece1d) → AreValid kerf f → AreValid kerf (open_new_bar f p)
unfolding open_new_bar find_available_stock_1d
open_new_bar-AreValid kerf f p v =
    elim (Option-cases (find_available_stock_1d f.stock_manager p.length)) [
      | inl e ↦ rw (e, open_new_bar) v
      | inr (s, e) ↦
          let (_, long) =
            find_in_lem f.stock_manager.usage p.length f.stock_manager.sorted_stock e in
          rw (e, open_new_bar)
            (All-append (IsValidBar kerf) f.active_bars _ v
              (create_active_bar-IsValidBar kerf s.id s.length p long, tt))
    ]

place_1d-AreValid :
    (choose : Chooser) (kerf : ℕ) (f : Filling) (p : Piece1d)
    → IsChooser choose
    → AreValid kerf f
    → AreValid kerf (place_1d choose kerf f p)
unfolding place_1d
place_1d-AreValid choose kerf f p c v = elim (Option-cases (choose f.active_bars p.length kerf)) [
  | inl e ↦ rw (e, place_1d) (open_new_bar-AreValid kerf f p v)
  | inr (i, e) ↦
      let (b, found, fit) = c.fits f.active_bars p.length kerf i e in
      let old = All-get (IsValidBar kerf) f.active_bars i v found in
      rw (e, place_1d)
        (All-modify (IsValidBar kerf) (λ c. place_piece_in_bar c p kerf) f.active_bars i b found
          (place_piece_in_bar-IsValidBar kerf b p old fit) v)
]

pub fill_1d-AreValid :
    (choose : Chooser) (kerf : ℕ) (f : Filling) (ps : List Piece1d)
    → IsChooser choose
    → AreValid kerf f
    → AreValid kerf (fill_1d choose kerf f ps)
unfolding fill_1d
fill_1d-AreValid choose kerf f [] c v = v
fill_1d-AreValid choose kerf f (p ∷ ps) c v =
    fill_1d-AreValid choose kerf (place_1d choose kerf f p) ps c
      (place_1d-AreValid choose kerf f p c v)
