-- ===== src/Grained/Totals.antt =====
-- Expansion and the list of the unplaced (2d/cutting2d.ts, 2d/enhanced-optimizer.ts): counts.
use text.Mathlib.Text.{◌==◌ as str_eq}
use text.Mathlib.TextEquality.{eq_iff}
use nestra.Prelude.{
  ℕ, zero, suc, ◌+◌, ◌*◌, ◌≡◌, refl, ap, String, inl, inr, List, [], ◌∷◌, arith, All, All-append,
  sum_by, sum_by-append, Bool-cases,
}
use nestra.Grained.{GrainedInput, GrainedPiece, unit_of, units_of, expand_pieces, add_unplaced}

module _ (w : String → ℕ) where
  units_of_weight :
      (p : GrainedInput) (i n : ℕ)
      → sum_by (λ q. w q.piece.original_id) (units_of p i n) ≡ w p.input.id * n
  unfolding units_of
  units_of_weight p i zero = omega arith
  units_of_weight p i (suc n) = omega (arith, units_of_weight p (i + 1) n)

  -- Weighted by any function of the demand's id, the units count as their demands' quantities.
  pub expand_pieces_weight :
      (ps : List GrainedInput)
      → sum_by (λ q. w q.piece.original_id) (expand_pieces ps)
        ≡ sum_by (λ p. w p.input.id * p.input.quantity) ps
  unfolding expand_pieces
  expand_pieces_weight [] = refl
  expand_pieces_weight (p ∷ ps) = omega (
    arith,
    sum_by-append (λ (q : GrainedPiece). w q.piece.original_id) (units_of p 0 p.input.quantity)
        (expand_pieces ps),
    units_of_weight p 0 p.input.quantity,
    expand_pieces_weight ps,
  )

  -- One more unplaced unit of the entry's id.
  pub add_unplaced_weight :
      (e : GrainedInput) (qs : List GrainedInput)
      → e.input.quantity ≡ 1
      → sum_by (λ q. w q.input.id * q.input.quantity) (add_unplaced e qs)
        ≡ sum_by (λ q. w q.input.id * q.input.quantity) qs + w e.input.id
  unfolding add_unplaced
  add_unplaced_weight e [] h = rw h (omega arith)
  add_unplaced_weight e (q ∷ qs) h = elim (Bool-cases (str_eq q.input.id e.input.id)) [
    | inl t ↦
        rw (t, add_unplaced) (omega (arith, ap (λ k. w k) ((eq_iff q.input.id e.input.id).0 t)))
    | inr t ↦ rw (t, add_unplaced) (omega (arith, add_unplaced_weight e qs h))
  ]

-- What every unit of every demand has, the expanded units have.
units_of-All {κ} :
    (P : GrainedPiece → Type κ) (p : GrainedInput) (i n : ℕ)
    → ((j : ℕ) → P (unit_of p j))
    → All P (units_of p i n)
unfolding units_of
units_of-All P p i zero h = tt
units_of-All P p i (suc n) h = (h i, units_of-All P p (i + 1) n h)

pub expand_pieces-All {κ} :
    (P : GrainedPiece → Type κ) (ps : List GrainedInput)
    → All (λ p. (j : ℕ) → P (unit_of p j)) ps
    → All P (expand_pieces ps)
unfolding expand_pieces
expand_pieces-All P [] h = tt
expand_pieces-All P (p ∷ ps) h =
    All-append P (units_of p 0 p.input.quantity) _ (units_of-All P p 0 p.input.quantity h.0)
      (expand_pieces-All P ps h.1)

-- A unit's id starts with its demand's id.
abbrev pub IsUnit : GrainedPiece → Type 0
IsUnit p = p.piece.id.base ≡ p.piece.original_id

pub expand_pieces-IsUnit : (ps : List GrainedInput) → All IsUnit (expand_pieces ps)
expand_pieces-IsUnit ps = expand_pieces-All IsUnit ps (units ps)
  where
    units : (ps : List GrainedInput) → All (λ p. (j : ℕ) → IsUnit (unit_of p j)) ps
    units [] = tt
    units (p ∷ ps) = ((λ j. refl), units ps)
