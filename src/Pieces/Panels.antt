-- ===== src/Pieces/Panels.antt =====
-- expand2DPieces and sort2DByAreaDesc of core/piece-expander.ts: counts and rearrangement.
use mathlib.Core.List.{Perm}
use nestra.Prelude.{
  ℕ, zero, suc, ◌+◌, ◌*◌, ◌≡◌, refl, String, List, [], ◌∷◌, arith, sum_by, sum_by-append, All,
  All-append,
}
use nestra.Prelude.Sorting.{sort_by-perm, All-sort_by}
use nestra.Pieces.{PieceInput2d, Piece2d, units_2d, expand_2d_pieces, sort_2d_by_area_desc}

units_2d_weight :
    (w : String → ℕ) (p : PieceInput2d) (i n : ℕ)
    → sum_by (λ q. w q.original_id) (units_2d p i n) ≡ w p.id * n
unfolding units_2d
units_2d_weight w p i zero = omega arith
units_2d_weight w p i (suc n) = omega (arith, units_2d_weight w p (i + 1) n)

-- Weighted by any function of the demand's id, the units count as their demands' quantities.
pub expand_2d_weight :
    (w : String → ℕ) (ps : List PieceInput2d)
    → sum_by (λ q. w q.original_id) (expand_2d_pieces ps) ≡ sum_by (λ p. w p.id * p.quantity) ps
unfolding expand_2d_pieces
expand_2d_weight w [] = refl
expand_2d_weight w (p ∷ ps) = omega (
  arith,
  sum_by-append (λ (q : Piece2d). w q.original_id) (units_2d p 0 p.quantity) (expand_2d_pieces ps),
  units_2d_weight w p 0 p.quantity,
  expand_2d_weight w ps,
)

-- A unit's id starts with its demand's id.
abbrev pub IsUnit2d : Piece2d → Type 0
IsUnit2d p = p.id.base ≡ p.original_id

units_2d-IsUnit2d : (p : PieceInput2d) (i n : ℕ) → All IsUnit2d (units_2d p i n)
unfolding units_2d
units_2d-IsUnit2d p i zero = tt
units_2d-IsUnit2d p i (suc n) = (refl, units_2d-IsUnit2d p (i + 1) n)

pub expand_2d-IsUnit2d : (ps : List PieceInput2d) → All IsUnit2d (expand_2d_pieces ps)
unfolding expand_2d_pieces
expand_2d-IsUnit2d [] = tt
expand_2d-IsUnit2d (p ∷ ps) =
    All-append IsUnit2d (units_2d p 0 p.quantity) (expand_2d_pieces ps)
      (units_2d-IsUnit2d p 0 p.quantity) (expand_2d-IsUnit2d ps)

pub sort_2d-perm : (ps : List Piece2d) → Perm (sort_2d_by_area_desc ps) ps
unfolding sort_2d_by_area_desc
sort_2d-perm ps = sort_by-perm _ ps

pub sort_2d-All {κ} :
    (P : Piece2d → Type κ) (ps : List Piece2d) → All P ps → All P (sort_2d_by_area_desc ps)
unfolding sort_2d_by_area_desc
sort_2d-All P ps h = All-sort_by _ P ps h
