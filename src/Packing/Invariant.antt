-- ===== src/Packing/Invariant.antt =====
-- Invariants of the sheets of the packing loop of 2d/cutting2d.ts and 2d/enhanced-optimizer.ts.
use nestra.Prelude.{◌≡◌, inl, inr, List, [], ◌∷◌, some, All, All-append, Option-cases}
use nestra.Grained.{GrainedPiece}
use nestra.Packing.{Packer, PackState, place, pack}

-- What each sheet keeps, what the usage keeps, and what each piece of the demand has.
module _ {κ μ ν} {S U : Type 0} (packer : Packer S U) (P : S → Type κ) (R : U → Type ν)
    (Q : GrainedPiece → Type μ)
    (keep : (sheets written : List S) (p : GrainedPiece)
      → Q p
      → All P sheets
      → packer.try_existing sheets p ≡ some written
      → All P written)
    (new : (u v : U) (p : GrainedPiece) (s : S)
      → Q p
      → R u
      → packer.open_new u p ≡ some (s, v)
      → P s × R v) where
  place-keeps :
      (f : PackState S U) (p : GrainedPiece)
      → Q p
      → All P f.active_sheets
      → R f.usage
      → All P (place packer f p).active_sheets × R (place packer f p).usage
  unfolding place
  place-keeps f p q h r = elim (Option-cases (packer.try_existing f.active_sheets p)) [
    | inr (sheets, e) ↦ rw (e, place) (keep f.active_sheets sheets p q h e, r)
    | inl e ↦ elim (Option-cases (packer.open_new f.usage p)) [
      | inl g ↦ rw (e, g, place) (h, r)
      | inr ((s, v), g) ↦
          let (a, b) = new f.usage v p s q r g in
          rw (e, g, place) (All-append P f.active_sheets _ h (a, tt), b)
    ]
  ]

  pub pack-keeps :
      (f : PackState S U) (ps : List GrainedPiece)
      → All Q ps
      → All P f.active_sheets
      → R f.usage
      → All P (pack packer f ps).active_sheets
  unfolding pack
  pack-keeps f [] q h r = h
  pack-keeps f (p ∷ ps) q h r =
      let (a, b) = place-keeps f p q.0 h r in pack-keeps (place packer f p) ps q.1 a b
