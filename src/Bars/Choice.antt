-- ===== src/Bars/Choice.antt =====
-- findFirstFitBar and findBestFitBar of 1d/bin-manager.ts, and the contract that their callers
-- rely on.
use nestra.Prelude.{
  ℕ, zero, suc, ◌+◌, ◌-◌, ◌≤◌, ◌<◌, ◌≡◌, refl, subst, ◌⊎◌, inl, inr, true, false, List, [], ◌∷◌,
  Option, none, some, arith, get_elem?, All, Bool-cases,
}
use nestra.Bars.{
  Bar, Best, improves, best_index, calculate_required_length, can_fit_in_bar, first_fit_from,
  find_first_fit_bar, best_fit_from, find_best_fit_bar,
}

-- The contract of `findFirstFitBar` and `findBestFitBar`: the index is that of a bar in which the
-- piece fits, and no index means that it fits in none.
pub record IsChooser (choose : List Bar → ℕ → ℕ → Option ℕ) : Type 0 where
  pub fits :
      (bars : List Bar) (n kerf i : ℕ)
      → choose bars n kerf ≡ some i
      → (bar : Bar) × (get_elem? bars i ≡ some bar) × (can_fit_in_bar bar n kerf ≡ true)
  pub exhausts :
      (bars : List Bar) (n kerf : ℕ)
      → choose bars n kerf ≡ none
      → All (λ bar. can_fit_in_bar bar n kerf ≡ false) bars

-- The bars before an index.
abbrev pub AllBefore {ℓ κ} : {A : Type ℓ} → (A → Type κ) → List A → ℕ → Type κ
AllBefore P [] i = Unit
AllBefore P (x ∷ xs) zero = Unit
AllBefore P (x ∷ xs) (suc i) = P x × AllBefore P xs i

abbrev IsFirst : List Bar → ℕ → ℕ → ℕ → Type 0
IsFirst bars n kerf k =
    (bar : Bar) × (get_elem? bars k ≡ some bar)
    × (can_fit_in_bar bar n kerf ≡ true)
    × AllBefore (λ b. can_fit_in_bar b n kerf ≡ false) bars k

first_fit_from_lem :
    (bars : List Bar) (n kerf i j : ℕ)
    → first_fit_from bars n kerf i ≡ some j
    → (k : ℕ) × (j ≡ i + k) × IsFirst bars n kerf k
unfolding first_fit_from
first_fit_from_lem [] n kerf i j h = cc
first_fit_from_lem (bar ∷ bars) n kerf i j h = elim (Bool-cases (can_fit_in_bar bar n kerf)) [
  | inl e ↦ (0, ground arith, (bar, refl, e, tt))
  | inr e ↦
      let (k, at, (b, found, fit, before)) =
        first_fit_from_lem bars n kerf (i + 1) j (rw (e, first_fit_from) at h) in
      (suc k, omega (arith, at), (b, found, fit, (e, before)))
]

first_fit_from-none :
    (bars : List Bar) (n kerf i : ℕ)
    → first_fit_from bars n kerf i ≡ none
    → All (λ b. can_fit_in_bar b n kerf ≡ false) bars
unfolding first_fit_from
first_fit_from-none [] n kerf i h = tt
first_fit_from-none (bar ∷ bars) n kerf i h = elim (Bool-cases (can_fit_in_bar bar n kerf)) [
  | inl e ↦ absurd (ground arith)
  | inr e ↦ (e, first_fit_from-none bars n kerf (i + 1) (rw (e, first_fit_from) at h))
]

-- `findFirstFitBar` returns the first bar in which the piece fits.
pub find_first_fit_bar_lem :
    (bars : List Bar) (n kerf i : ℕ)
    → find_first_fit_bar bars n kerf ≡ some i
    → (bar : Bar) × (get_elem? bars i ≡ some bar)
      × (can_fit_in_bar bar n kerf ≡ true)
      × AllBefore (λ b. can_fit_in_bar b n kerf ≡ false) bars i
unfolding find_first_fit_bar
find_first_fit_bar_lem bars n kerf i h =
    let (k, at, first) = first_fit_from_lem bars n kerf 0 i h in
    subst (IsFirst bars n kerf) (omega (arith, at)) first

pub first_fit-IsChooser : IsChooser find_first_fit_bar
unfolding find_first_fit_bar
first_fit-IsChooser = record {
  fits = λ bars n kerf i h.
      let (bar, found, fit, _) = find_first_fit_bar_lem bars n kerf i h in (bar, found, fit);
  exhausts = λ bars n kerf h. first_fit_from-none bars n kerf 0 h;
}

-- What a bar would have left after the cut.
abbrev pub leftover : Bar → ℕ → ℕ → ℕ
leftover bar n kerf = bar.remaining_length - calculate_required_length bar n kerf

-- Every bar in which the piece fits would have at least `r` left.
abbrev pub NoneBelow : ℕ → List Bar → ℕ → ℕ → Type 0
NoneBelow r bars n kerf = All (λ b. can_fit_in_bar b n kerf ≡ true → r ≤ leftover b n kerf) bars

-- The bar at `k` fits, would have `r` left, and each fitting bar before it would have more.
abbrev IsBest : ℕ → List Bar → ℕ → ℕ → ℕ → Type 0
IsBest r bars n kerf k =
    (bar : Bar) × (get_elem? bars k ≡ some bar)
    × (can_fit_in_bar bar n kerf ≡ true)
    × (r ≡ leftover bar n kerf)
    × AllBefore (λ b. can_fit_in_bar b n kerf ≡ true → r < leftover b n kerf) bars k

abbrev BoundedBy : ℕ → Best → Type 0
BoundedBy r none = Unit
BoundedBy r (some (i, m)) = r ≤ m

-- What the rest of the loop makes of the best bar so far.
record Outcome (bars : List Bar) (n kerf i : ℕ) (best : Best) (j r : ℕ) : Type 0 where
  chosen :
      (best ≡ some (j, r))
      ⊎ ((improves r best ≡ true) × ((k : ℕ) × (j ≡ i + k) × IsBest r bars n kerf k))
  least : NoneBelow r bars n kerf
  bound : BoundedBy r best

Outcome-skip :
    (bar : Bar) (bars : List Bar) (n kerf i : ℕ) (best : Best) (j r : ℕ)
    → (can_fit_in_bar bar n kerf ≡ true → improves r best ≡ true → r < leftover bar n kerf)
    → (can_fit_in_bar bar n kerf ≡ true → r ≤ leftover bar n kerf)
    → Outcome bars n kerf (i + 1) best j r
    → Outcome (bar ∷ bars) n kerf i best j r
Outcome-skip bar bars n kerf i best j r strict low o = record {
  chosen = elim o.chosen [
    | inl old ↦ inl old
    | inr (better, (k, at, (b, found, fit, left, before))) ↦ inr (
      better,
      (suc k, omega (arith, at), (b, found, fit, left, ((λ f. strict f better), before))),
    )
  ];
  least = (low, o.least);
  bound = o.bound;
}

Outcome-take :
    (bar : Bar) (bars : List Bar) (n kerf i : ℕ) (best : Best) (j r : ℕ)
    → can_fit_in_bar bar n kerf ≡ true
    → improves (leftover bar n kerf) best ≡ true
    → Outcome bars n kerf (i + 1) (some (i, leftover bar n kerf)) j r
    → Outcome (bar ∷ bars) n kerf i best j r
Outcome-take bar bars n kerf i best j r fit better o = record {
  chosen = elim o.chosen [
    | inl now ↦ inr (improved, (0, ground arith, (bar, refl, fit, ground arith, tt)))
    | inr (less, (k, at, (b, found, fit', left, before))) ↦ inr (
      improved,
      (suc k, omega (arith, at), (b, found, fit', left, ((λ _. ground arith), before))),
    )
  ];
  least = ((λ _. o.bound), o.least);
  bound = bound;
}
  where
    improved : improves r best ≡ true
    improved = ground (arith, o.bound)

    bound : BoundedBy r best
    bound = ground (arith, o.bound)

best_fit_from_lem :
    (bars : List Bar) (n kerf i : ℕ) (best : Best) (j r : ℕ)
    → best_fit_from bars n kerf i best ≡ some (j, r)
    → Outcome bars n kerf i best j r
unfolding best_fit_from
best_fit_from_lem [] n kerf i best j r h = record {
  chosen = inl h;
  least = tt;
  bound = ground arith;
}
best_fit_from_lem (bar ∷ bars) n kerf i best j r h = elim (Bool-cases (can_fit_in_bar bar n kerf)) [
  | inr e ↦
      Outcome-skip bar bars n kerf i best j r (λ f. absurd (ground arith))
        (λ f. absurd (ground arith))
        (best_fit_from_lem bars n kerf (i + 1) best j r (rw (e, best_fit_from) at h))
  | inl e ↦ elim (Bool-cases (improves (leftover bar n kerf) best)) [
    | inl b ↦ Outcome-take bar bars n kerf i best j r e b (
        best_fit_from_lem bars n kerf (i + 1) (some (i, leftover bar n kerf)) j r
          (rw (e, b, best_fit_from) at h))
    | inr b ↦
        let o = best_fit_from_lem bars n kerf (i + 1) best j r (rw (e, b, best_fit_from) at h) in
        Outcome-skip bar bars n kerf i best j r (λ f m. ground (arith, o.bound))
          (λ f. ground (arith, o.bound)) o
  ]
]

best_fit_from-none :
    (bars : List Bar) (n kerf i : ℕ) (best : Best)
    → best_fit_from bars n kerf i best ≡ none
    → (best ≡ none) × All (λ b. can_fit_in_bar b n kerf ≡ false) bars
unfolding best_fit_from
best_fit_from-none [] n kerf i best h = (h, tt)
best_fit_from-none (bar ∷ bars) n kerf i best h = elim (Bool-cases (can_fit_in_bar bar n kerf)) [
  | inr e ↦
      let (empty, rest) =
        best_fit_from-none bars n kerf (i + 1) best (rw (e, best_fit_from) at h) in
      (empty, (e, rest))
  | inl e ↦ elim (Bool-cases (improves (leftover bar n kerf) best)) [
    | inl b ↦
        let (absent, _) =
          best_fit_from-none bars n kerf (i + 1) (some (i, leftover bar n kerf))
            (rw (e, b, best_fit_from) at h) in
        absurd (ground arith)
    | inr b ↦
        let (empty, _) =
          best_fit_from-none bars n kerf (i + 1) best (rw (e, b, best_fit_from) at h) in
        absurd (ground arith)
  ]
]

-- `findBestFitBar` returns a bar in which the piece fits and that would have the least left of all
-- the fitting bars; it is the first of these.
pub find_best_fit_bar_lem :
    (bars : List Bar) (n kerf i : ℕ)
    → find_best_fit_bar bars n kerf ≡ some i
    → (bar : Bar) × (get_elem? bars i ≡ some bar)
      × (can_fit_in_bar bar n kerf ≡ true)
      × NoneBelow (leftover bar n kerf) bars n kerf
      × AllBefore
          (λ b. can_fit_in_bar b n kerf ≡ true → leftover bar n kerf < leftover b n kerf)
          bars
          i
unfolding find_best_fit_bar
find_best_fit_bar_lem bars n kerf i h = go (best_fit_from bars n kerf 0 none) refl h
  where
    of_outcome :
        (r : ℕ)
        → Outcome bars n kerf 0 none i r
        → (bar : Bar) × (get_elem? bars i ≡ some bar)
          × (can_fit_in_bar bar n kerf ≡ true)
          × NoneBelow (leftover bar n kerf) bars n kerf
          × AllBefore
              (λ b. can_fit_in_bar b n kerf ≡ true → leftover bar n kerf < leftover b n kerf)
              bars
              i
    of_outcome r o = elim o.chosen [
      | inl e ↦ absurd (ground arith)
      | inr (_, (k, at, (b, found, fit, left, before))) ↦
          let same : k ≡ i = omega (arith, at) in
          (
            b,
            subst (λ m. get_elem? bars m ≡ some b) same found,
            fit,
            subst (λ m. NoneBelow m bars n kerf) left o.least,
            subst
                (λ m.
                  AllBefore
                    (λ c. can_fit_in_bar c n kerf ≡ true → leftover b n kerf < leftover c n kerf)
                    bars m)
                same
                (subst
                  (λ m.
                    AllBefore (λ c. can_fit_in_bar c n kerf ≡ true → m < leftover c n kerf) bars k)
                  left before),
          )
    ]

    go :
        (best : Best)
        → best_fit_from bars n kerf 0 none ≡ best
        → best_index best ≡ some i
        → (bar : Bar) × (get_elem? bars i ≡ some bar)
          × (can_fit_in_bar bar n kerf ≡ true)
          × NoneBelow (leftover bar n kerf) bars n kerf
          × AllBefore
              (λ b. can_fit_in_bar b n kerf ≡ true → leftover bar n kerf < leftover b n kerf)
              bars
              i
    go none e h = absurd (cc)
    go (some (j, r)) e h = of_outcome r (best_fit_from_lem bars n kerf 0 none i r (rw e (cc)))

best_index-none : (best : Best) → best_index best ≡ none → best ≡ none
best_index-none none h = refl
best_index-none (some (i, r)) h = absurd (cc)

pub best_fit-IsChooser : IsChooser find_best_fit_bar
unfolding find_best_fit_bar
best_fit-IsChooser = record {
  fits = λ bars n kerf i h.
      let (bar, found, fit, _, _) = find_best_fit_bar_lem bars n kerf i h in (bar, found, fit);
  exhausts = λ bars n kerf h.
      (best_fit_from-none bars n kerf 0 none
        (best_index-none (best_fit_from bars n kerf 0 none) h)).1;
}
