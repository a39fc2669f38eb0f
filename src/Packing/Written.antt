-- ===== src/Packing/Written.antt =====
-- The loop over the sheets in use of 2d/cutting2d.ts: what writing to one of them changes.
use nestra.Prelude.{
  ℕ, ◌+◌, ◌≡◌, refl, inl, inr, List, [], ◌∷◌, Option, none, some, some-injective, subst, All,
  sum_by, Option-cases, arith,
}
use nestra.Packing.{write_first}

module _ {ℓ} {S : Type ℓ} (try : S → Option S) where
  pub write_first-All {κ} :
      (P : S → Type κ)
      → ((s t : S) → P s → try s ≡ some t → P t)
      → (sheets written : List S) → All P sheets
      → write_first try sheets ≡ some written
      → All P written
  unfolding write_first
  write_first-All P keep [] written h e = absurd (cc)
  write_first-All P keep (s ∷ sheets) written h e = elim (Option-cases (try s)) [
    | inr (t, f) ↦
        subst (All P) (some-injective _ _ (rw (f, write_first) at e)) (keep s t h.0 f, h.1)
    | inl f ↦ elim (Option-cases (write_first try sheets)) [
      | inl g ↦ absurd (cc)
      | inr (rest, g) ↦
          subst (All P) (some-injective _ _ (rw (f, g, write_first) at e))
            (h.0, write_first-All P keep sheets rest h.1 g)
    ]
  ]

  -- A measure that grows by `d` where a sheet is written to grows by `d` in all.
  pub write_first-sum :
      (m : S → ℕ) (d : ℕ)
      → ((s t : S) → try s ≡ some t → m t ≡ m s + d)
      → (sheets written : List S) → write_first try sheets ≡ some written
      → sum_by m written ≡ sum_by m sheets + d
  unfolding write_first
  write_first-sum m d grow [] written e = absurd (cc)
  write_first-sum m d grow (s ∷ sheets) written e = elim (Option-cases (try s)) [
    | inr (t, f) ↦
        subst (λ z. sum_by m z ≡ sum_by m (s ∷ sheets) + d)
          (some-injective _ _ (rw (f, write_first) at e)) (omega (arith, grow s t f))
    | inl f ↦ elim (Option-cases (write_first try sheets)) [
      | inl g ↦ absurd (cc)
      | inr (rest, g) ↦
          subst (λ z. sum_by m z ≡ sum_by m (s ∷ sheets) + d)
            (some-injective _ _ (rw (f, g, write_first) at e))
            (omega (arith, write_first-sum m d grow sheets rest g))
    ]
  ]

  pub write_first-none :
      (sheets : List S) → All (λ s. try s ≡ none) sheets → write_first try sheets ≡ none
  unfolding write_first
  write_first-none [] h = refl
  write_first-none (s ∷ sheets) h =
      rw (h.0, write_first) (rw (write_first-none sheets h.1, write_first) refl)
