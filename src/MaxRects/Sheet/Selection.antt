-- ===== src/MaxRects/Sheet/Selection.antt =====
-- selectBestSheet (2d/maxrects-algorithm.ts): the sheet that it returns, and when it returns none.
use nestra.Prelude.{
  ℕ, suc, zero, ◌+◌, ◌*◌, ◌≡◌, refl, ap, inl, inr, List, [], ◌∷◌, Option, none, some,
  some-injective, subst, All, All-map, get_elem?, sum_by, arith, Bool-cases, Option-cases,
}
use nestra.Prelude.Int.{sub_ℕ}
use nestra.Grained.{GrainedPiece}
use nestra.Packing.{write_first}
use nestra.Packing.Written.{write_first-none}
use nestra.MaxRects.{
  MaxRectsSheet, MaxRectsOptions, PlacementCandidate, candidate_for, BestSheet, less_waste,
  weigh_sheet, search_sheets, select_best_sheet, try_place_in_sheet,
}

-- The index is that of a sheet whose candidate this is.
abbrev pub IsChosen :
    GrainedPiece → MaxRectsOptions → List MaxRectsSheet → ℕ → PlacementCandidate → Type 0
IsChosen p o sheets i c =
    (s : MaxRectsSheet) × (get_elem? sheets i ≡ some s) × (candidate_for s p o ≡ some c)

module _ (p : GrainedPiece) (o : MaxRectsOptions) (all : List MaxRectsSheet) where
  abbrev Chosen : Option BestSheet → Type 0
  Chosen none = Unit
  Chosen (some b) = IsChosen p o all b.index b.candidate

  weigh_sheet-Chosen :
      (s : MaxRectsSheet) (i : ℕ) (found : Option BestSheet)
      → get_elem? all i ≡ some s
      → Chosen found
      → Chosen (weigh_sheet s i (candidate_for s p o) found)
  weigh_sheet-Chosen s i found g k = elim (Option-cases (candidate_for s p o)) [
    | inl e ↦ unfold weigh_sheet in rw (e, weigh_sheet) k
    | inr (c, e) ↦
        unfold weigh_sheet in
        elim (Bool-cases (
          less_waste
            (sub_ℕ (s.width * s.height)
              (sum_by (λ q. q.width * q.height) s.placements + c.width * c.height))
            (s.width * s.height) found)) [
              | inl f ↦ rw (e, f, weigh_sheet) (s, g, e)
              | inr f ↦ rw (e, f, weigh_sheet) k
            ]
  ]

  search_sheets-Chosen :
      (sheets : List MaxRectsSheet) (i : ℕ) (found : Option BestSheet)
      → ((j : ℕ) (s : MaxRectsSheet) → get_elem? sheets j ≡ some s → get_elem? all (j + i) ≡ some s)
      → Chosen found
      → Chosen (search_sheets p o sheets i found)
  unfolding search_sheets
  search_sheets-Chosen [] i found at k = k
  search_sheets-Chosen (s ∷ sheets) i found at k =
      search_sheets-Chosen sheets (i + 1) _
        (λ j t e.
          let same : suc j + i ≡ j + (i + 1) = omega arith in
          subst (λ z. get_elem? all z ≡ some t) same (at (suc j) t e))
        (weigh_sheet-Chosen s i found
          (let same : zero + i ≡ i = omega arith in
            subst (λ z. get_elem? all z ≡ some s) same (at zero s refl))
          k)

pub select_best_sheet-IsChosen :
    (sheets : List MaxRectsSheet) (p : GrainedPiece) (o : MaxRectsOptions) (i : ℕ)
    (c : PlacementCandidate)
    → select_best_sheet sheets p o ≡ some (i, c)
    → IsChosen p o sheets i c
unfolding select_best_sheet
select_best_sheet-IsChosen sheets p o i c e =
    elim (Option-cases (search_sheets p o sheets 0 none)) [
      | inl f ↦ absurd (ground arith)
      | inr (b, f) ↦
          let same = some-injective _ _ (rw (f, select_best_sheet) at e) in
          let chosen : IsChosen p o sheets b.index b.candidate = subst (Chosen p o sheets) f (
            search_sheets-Chosen p o sheets sheets 0 none
              (λ j s g.
                let eq : j ≡ j + 0 = omega arith in subst (λ z. get_elem? sheets z ≡ some s) eq g)
              tt) in
          subst (λ z. IsChosen p o sheets z c) (ap (λ z. z.0) same)
            (subst (λ z. IsChosen p o sheets b.index z) (ap (λ z. z.1) same) chosen)
    ]

-- Once a sheet is found, one is found in the end.
search_sheets-some :
    (p : GrainedPiece) (o : MaxRectsOptions) (sheets : List MaxRectsSheet) (i : ℕ) (b : BestSheet)
    → (d : BestSheet) × (search_sheets p o sheets i (some b) ≡ some d)
unfolding search_sheets weigh_sheet
search_sheets-some p o [] i b = (b, refl)
search_sheets-some p o (s ∷ sheets) i b = elim (Option-cases (candidate_for s p o)) [
  | inl e ↦
      let (d, f) = search_sheets-some p o sheets (i + 1) b in
      (d, rw (e, weigh_sheet, search_sheets) f)
  | inr (c, e) ↦
      let total = s.width * s.height in
      let waste =
        sub_ℕ total (sum_by (λ q. q.width * q.height) s.placements + c.width * c.height) in
      elim (Bool-cases (less_waste waste total (some b))) [
        | inl f ↦
            let next : BestSheet = record {
              index = i;
              candidate = c;
              waste = waste;
              total = total;
            } in
            let (d, g) = search_sheets-some p o sheets (i + 1) next in
            (d, rw (e, f, weigh_sheet, search_sheets) g)
        | inr f ↦
            let (d, g) = search_sheets-some p o sheets (i + 1) b in
            (d, rw (e, f, weigh_sheet, search_sheets) g)
      ]
]

search_sheets-none :
    (p : GrainedPiece) (o : MaxRectsOptions) (sheets : List MaxRectsSheet) (i : ℕ)
    → search_sheets p o sheets i none ≡ none
    → All (λ s. candidate_for s p o ≡ none) sheets
unfolding search_sheets weigh_sheet
search_sheets-none p o [] i e = tt
search_sheets-none p o (s ∷ sheets) i e = elim (Option-cases (candidate_for s p o)) [
  | inl f ↦ (f, search_sheets-none p o sheets (i + 1) (rw (f, weigh_sheet, search_sheets) at e))
  | inr (c, f) ↦
      let total = s.width * s.height in
      let waste =
        sub_ℕ total (sum_by (λ q. q.width * q.height) s.placements + c.width * c.height) in
      let b : BestSheet = record { index = i; candidate = c; waste = waste; total = total } in
      let (d, g) = search_sheets-some p o sheets (i + 1) b in
      absurd (ground (arith, rw (f, weigh_sheet, search_sheets) at e, g))
]

pub select_best_sheet-none :
    (sheets : List MaxRectsSheet) (p : GrainedPiece) (o : MaxRectsOptions)
    → select_best_sheet sheets p o ≡ none
    → All (λ s. candidate_for s p o ≡ none) sheets
unfolding select_best_sheet
select_best_sheet-none sheets p o e = elim (Option-cases (search_sheets p o sheets 0 none)) [
  | inl f ↦ search_sheets-none p o sheets 0 f
  | inr (b, f) ↦ absurd (ground arith)
]

try_place_in_sheet-none :
    (s : MaxRectsSheet) (p : GrainedPiece) (o : MaxRectsOptions)
    → candidate_for s p o ≡ none
    → try_place_in_sheet s p o ≡ none
unfolding try_place_in_sheet
try_place_in_sheet-none s p o e = ground (arith, e)

-- Where `selectBestSheet` returns none, `tryPlaceInSheet` has no success in any of the sheets, so
-- that the loop of strategy 2 changes nothing.
pub select_best_sheet_complete :
    (sheets : List MaxRectsSheet) (p : GrainedPiece) (o : MaxRectsOptions)
    → select_best_sheet sheets p o ≡ none
    → write_first (λ s. try_place_in_sheet s p o) sheets ≡ none
select_best_sheet_complete sheets p o e =
    write_first-none (λ s. try_place_in_sheet s p o) sheets
      (All-map (λ s h. try_place_in_sheet-none s p o h) sheets
        (select_best_sheet-none sheets p o e))
