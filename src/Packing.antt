-- ===== src/Packing.antt =====
-- The loop that bottomLeftFill and guillotineCutting of backend/src/algorithms/2d/cutting2d.ts and
-- optimizeEnhanced2D of 2d/enhanced-optimizer.ts share: a piece goes to a sheet in use, or to a new
-- sheet, or to the list of the unplaced. The three calls are the parameter `packer`.
pub mod Invariant
pub mod Totals
pub mod Written
use nestra.Prelude.{List, [], ◌∷◌, ◌++◌, Option, none, some}
use nestra.Grained.{GrainedInput, GrainedPiece, add_unplaced}

pub record Packer (S U : Type 0) : Type 0 where
  pub try_existing : List S → GrainedPiece → Option (List S)
  pub open_new : U → GrainedPiece → Option (S × U)
  pub entry_of : GrainedPiece → GrainedInput

pub record PackState (S U : Type 0) : Type 0 where
  pub active_sheets : List S
  pub usage : U
  pub unplaced : List GrainedInput

abbrev pub cons_to {ℓ} : {S : Type ℓ} → S → Option (List S) → Option (List S)
cons_to s none = none
cons_to s (some sheets) = some (s ∷ sheets)

-- A loop over the sheets that ends at the first one that is written to.
unfoldable pub write_first {ℓ} : {S : Type ℓ} → (S → Option S) → List S → Option (List S)
write_first try [] = none
write_first try (s ∷ sheets) = elim (try s) [
  | some written ↦ some (written ∷ sheets)
  | none ↦ cons_to s (write_first try sheets)
]

module _ {S U : Type 0} (packer : Packer S U) where
  unfoldable pub place : PackState S U → GrainedPiece → PackState S U
  place f p = elim (packer.try_existing f.active_sheets p) [
    | some sheets ↦ record f { active_sheets = sheets }
    | none ↦ elim (packer.open_new f.usage p) [
      | some (sheet, u) ↦ record f { active_sheets = f.active_sheets ++ sheet ∷ []; usage = u }
      | none ↦ record f { unplaced = add_unplaced (packer.entry_of p) f.unplaced }
    ]
  ]

  unfoldable pub pack : PackState S U → List GrainedPiece → PackState S U
  unfolding place
  pack f [] = f
  pack f (p ∷ ps) = pack (place f p) ps
