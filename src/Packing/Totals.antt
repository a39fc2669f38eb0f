-- ===== src/Packing/Totals.antt =====
-- Totals over the state of the packing loop of 2d/cutting2d.ts and 2d/enhanced-optimizer.ts.
use nestra.Prelude.{
  ℕ, ◌+◌, ◌≡◌, inl, inr, List, [], ◌∷◌, some, All, Option-cases, sum_by, sum_by-append, arith,
}
use nestra.Grained.{GrainedInput, GrainedPiece, add_unplaced}
use nestra.Packing.{Packer, PackState, place, pack}

-- Measures of a sheet, of the usage and of the unplaced, and what each piece adds to their total.
module _ {μ} {S U : Type 0} (packer : Packer S U) (Q : GrainedPiece → Type μ) (m : S → ℕ)
    (n : U → ℕ) (l : List GrainedInput → ℕ) (w : GrainedPiece → ℕ)
    (keep : (sheets written : List S) (p : GrainedPiece)
      → Q p
      → packer.try_existing sheets p ≡ some written
      → sum_by m written ≡ sum_by m sheets + w p)
    (new : (u v : U) (p : GrainedPiece) (s : S)
      → Q p
      → packer.open_new u p ≡ some (s, v)
      → m s + n v ≡ n u + w p)
    (reject : (p : GrainedPiece) (qs : List GrainedInput)
      → Q p
      → l (add_unplaced (packer.entry_of p) qs) ≡ l qs + w p) where
  abbrev pub total : PackState S U → ℕ
  total f = sum_by m f.active_sheets + n f.usage + l f.unplaced

  place-total :
      (f : PackState S U) (p : GrainedPiece) → Q p → total (place packer f p) ≡ total f + w p
  unfolding place
  place-total f p q = elim (Option-cases (packer.try_existing f.active_sheets p)) [
    | inr (sheets, e) ↦ rw (e, place) (omega (arith, keep f.active_sheets sheets p q e))
    | inl e ↦ elim (Option-cases (packer.open_new f.usage p)) [
      | inl g ↦ rw (e, g, place) (omega (arith, reject p f.unplaced q))
      | inr ((s, v), g) ↦
          rw (e, g, place)
            (omega (arith, new f.usage v p s q g, sum_by-append m f.active_sheets (s ∷ [])))
    ]
  ]

  pub pack-total :
      (f : PackState S U) (ps : List GrainedPiece)
      → All Q ps
      → total (pack packer f ps) ≡ total f + sum_by w ps
  unfolding pack
  pack-total f [] q = omega arith
  pack-total f (p ∷ ps) q = omega (arith, pack-total (place packer f p) ps q.1, place-total f p q.0)
