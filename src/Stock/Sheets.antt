-- ===== src/Stock/Sheets.antt =====
-- findAvailableStock of Stock2DManager (core/stock-manager.ts).
use nestra.Prelude.{
  ℕ, ◌<◌, ◌≡◌, refl, inl, inr, true, ◌&&◌, List, [], ◌∷◌, some, some-injective, arith, subst, ltb,
  All, Bool-cases,
}
use nestra.Stock.{
  StockInput2d, Stock2dManager, Usage, remaining_of, fits_either_way, find_in_2d,
  find_available_stock_2d,
}

-- A sheet that is found is left and fits one way or the other.
pub find_in_2d-All {κ} :
    (P : StockInput2d → Type κ) (u : Usage) (w h : ℕ) (ss : List StockInput2d) {s : StockInput2d}
    → All P ss
    → find_in_2d u w h ss ≡ some s
    → P s × (fits_either_way s w h ≡ true) × (0 < remaining_of u s.id)
unfolding find_in_2d
find_in_2d-All P u w h [] a e = absurd (cc)
find_in_2d-All P u w h (x ∷ ss) {s} a e =
    elim (Bool-cases (ltb 0 (remaining_of u x.id) && fits_either_way x w h)) [
      | inl t ↦
          subst (λ s. P s × (fits_either_way s w h ≡ true) × (0 < remaining_of u s.id))
            (some-injective _ _ (rw (t, find_in_2d) at e)) (a.0, ground arith, ground arith)
      | inr t ↦ find_in_2d-All P u w h ss a.1 (rw (t, find_in_2d) at e)
    ]

fits_either_way_comm : (s : StockInput2d) (w h : ℕ) → fits_either_way s w h ≡ fits_either_way s h w
fits_either_way_comm s w h = ground arith

pub find_in_2d_comm :
    (u : Usage) (w h : ℕ) (ss : List StockInput2d) → find_in_2d u w h ss ≡ find_in_2d u h w ss
unfolding find_in_2d
find_in_2d_comm u w h [] = refl
find_in_2d_comm u w h (s ∷ ss) =
    ground (arith, fits_either_way_comm s w h, find_in_2d_comm u w h ss)

-- The manager gives the same answer for a piece and for the piece turned.
pub find_available_stock_2d_comm :
    (m : Stock2dManager) (w h : ℕ) → find_available_stock_2d m w h ≡ find_available_stock_2d m h w
unfolding find_available_stock_2d
find_available_stock_2d_comm m w h = find_in_2d_comm m.usage w h m.sorted_stock
