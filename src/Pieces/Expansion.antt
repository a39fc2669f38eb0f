-- ===== src/Pieces/Expansion.antt =====
-- expand1DPieces and sort1DByLengthDesc of core/piece-expander.ts: counts and rearrangement.
use mathlib.Core.List.{Perm}
use nestra.Prelude.{
  ℕ, zero, suc, ◌+◌, ◌*◌, ◌≡◌, refl, String, List, [], ◌∷◌, arith, leb, sum_by, sum_by-append, All,
  All-append,
}
use nestra.Prelude.Sorting.{sort_by-perm, sort_by-IsSorted, IsSorted, All-sort_by}
use nestra.Pieces.{PieceInput1d, Piece1d, units_1d, expand_1d_pieces, sort_1d_by_length_desc}

units_1d_weight :
    (w : String → ℕ) (p : PieceInput1d) (i n : ℕ)
    → sum_by (λ q. w q.original_id) (units_1d p i n) ≡ w p.id * n
unfolding units_1d
units_1d_weight w p i zero = omega arith
units_1d_weight w p i (suc n) = omega (arith, units_1d_weight w p (i + 1) n)

-- Weighted by any function of the demand's id, the units count as their demands' quantities.
pub expand_1d_weight :
    (w : String → ℕ) (ps : List PieceInput1d)
    → sum_by (λ q. w q.original_id) (expand_1d_pieces ps) ≡ sum_by (λ p. w p.id * p.quantity) ps
unfolding expand_1d_pieces
expand_1d_weight w [] = refl
expand_1d_weight w (p ∷ ps) = omega (
  arith,
  sum_by-append (λ (q : Piece1d). w q.original_id) (units_1d p 0 p.quantity) (expand_1d_pieces ps),
  units_1d_weight w p 0 p.quantity,
  expand_1d_weight w ps,
)

-- A unit's id starts with its demand's id.
abbrev pub IsUnit : Piece1d → Type 0
IsUnit p = p.id.base ≡ p.original_id

units_1d-IsUnit : (p : PieceInput1d) (i n : ℕ) → All IsUnit (units_1d p i n)
unfolding units_1d
units_1d-IsUnit p i zero = tt
units_1d-IsUnit p i (suc n) = (refl, units_1d-IsUnit p (i + 1) n)

pub expand_1d-IsUnit : (ps : List PieceInput1d) → All IsUnit (expand_1d_pieces ps)
unfolding expand_1d_pieces
expand_1d-IsUnit [] = tt
expand_1d-IsUnit (p ∷ ps) =
    All-append IsUnit (units_1d p 0 p.quantity) (expand_1d_pieces ps)
      (units_1d-IsUnit p 0 p.quantity) (expand_1d-IsUnit ps)

pub sort_1d-perm : (ps : List Piece1d) → Perm (sort_1d_by_length_desc ps) ps
unfolding sort_1d_by_length_desc
sort_1d-perm ps = sort_by-perm _ ps

pub sort_1d-All {κ} :
    (P : Piece1d → Type κ) (ps : List Piece1d) → All P ps → All P (sort_1d_by_length_desc ps)
unfolding sort_1d_by_length_desc
sort_1d-All P ps h = All-sort_by _ P ps h

-- The pieces are taken longest first.
pub sort_1d-IsSorted :
    (ps : List Piece1d)
    → IsSorted (λ (a : Piece1d) b. leb b.length a.length) (sort_1d_by_length_desc ps)
unfolding sort_1d_by_length_desc
sort_1d-IsSorted ps = sort_by-IsSorted _ (λ a b c h k. ground arith) (λ a b h. ground arith) ps
