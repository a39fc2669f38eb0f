-- ===== src/Grained.antt =====
-- The pieces of backend/src/algorithms/2d/cutting2d.ts and 2d/enhanced-optimizer.ts: those of the
-- modular optimiser with the optional `grainDirection`; their expansion and the list of the unplaced.
pub mod Totals
use text.Mathlib.Text.{◌==◌ as str_eq}
use nestra.Prelude.{ℕ, zero, suc, ◌+◌, Bool, List, [], ◌∷◌, ◌++◌, Option, if◌then◌else◌}
use nestra.Pieces.{PieceInput2d, Piece2d, GrainDirection, unit_2d}
use nestra.Geometry.{Orientation, get_orientations}

pub record GrainedInput : Type 0 where
  pub input : PieceInput2d
  pub grain : Option GrainDirection

-- The piece of the enhanced optimiser has no `originalId`, and that code does not read the field.
pub record GrainedPiece : Type 0 where
  pub piece : Piece2d
  pub grain : Option GrainDirection

abbrev pub unit_of : GrainedInput → ℕ → GrainedPiece
unit_of p i = record { piece = unit_2d p.input i; grain = p.grain }

-- The inner loop, from `i` on with `n` rounds left.
unfoldable pub units_of : GrainedInput → ℕ → ℕ → List GrainedPiece
units_of p i zero = []
units_of p i (suc n) = unit_of p i ∷ units_of p (i + 1) n

unfoldable pub expand_pieces : List GrainedInput → List GrainedPiece
unfolding units_of
expand_pieces [] = []
expand_pieces (p ∷ ps) = units_of p 0 p.input.quantity ++ expand_pieces ps

-- The tests of both files are those of `get_orientations`, in the same order.
unfoldable pub orientations_of : GrainedPiece → Bool → Bool → List Orientation
unfolding get_orientations
orientations_of p allow_rotation respect =
    get_orientations p.piece.width p.piece.height p.piece.can_rotate allow_rotation p.grain respect

abbrev pub one_more : GrainedInput → GrainedInput
one_more q = record q { input = record (q.input) { quantity = q.input.quantity + 1 } }

-- `find` by id and `quantity++`, or `push` of the entry.
unfoldable pub add_unplaced : GrainedInput → List GrainedInput → List GrainedInput
add_unplaced entry [] = entry ∷ []
add_unplaced entry (q ∷ qs) =
    if str_eq q.input.id entry.input.id then one_more q ∷ qs else q ∷ add_unplaced entry qs
