-- ===== src/FreeRects/Merging.antt =====
-- mergeFreeRectangles of 2d/free-rect-manager.ts: the cells that its rectangles cover, and its
-- loop.
use nestra.Prelude.{
  ℕ, zero, suc, ◌+◌, ◌≤◌, ◌<◌, ◌≡◌, refl, inl, inr, ◌⊎◌, All, ◌&&◌, List, [], ◌∷◌, none, some,
  some-injective, ltb, ltb→lt, leb, if◌then◌else◌, length, length-append, sum_by, sum_by-append,
  Bool-cases, Option-cases, arith, ap,
}
use nestra.Geometry.{Rectangle}
use nestra.Geometry.Separation.{Pairwise}
use nestra.FreeRects.{
  can_merge_horizontal, can_merge_vertical, merge_pair, merge_with, merge_once, merge_loop,
  max_iterations, merge_free_rectangles,
}

-- 1 if the cell with the lower left corner `(x, y)` lies in the rectangle.
abbrev pub covers : ℕ → ℕ → Rectangle → ℕ
covers x y r =
    if leb r.x x && ltb x (r.x + r.width) && leb r.y y && ltb y (r.y + r.height) then 1 else 0

module _ (x y : ℕ) where
  merge_pair-covers :
      (r1 r2 m : Rectangle)
      → merge_pair r1 r2 ≡ some m
      → covers x y m ≡ covers x y r1 + covers x y r2
  unfolding merge_pair
  merge_pair-covers r1 r2 m h = elim (Bool-cases (can_merge_horizontal r1 r2)) [
    | inl e ↦ rw (← some-injective _ _ (rw (e, merge_pair) at h)) (ground arith)
    | inr e ↦ elim (Bool-cases (can_merge_vertical r1 r2)) [
      | inl f ↦ rw (← some-injective _ _ (rw (e, f, merge_pair) at h)) (ground arith)
      | inr f ↦ absurd (ground arith)
    ]
  ]

  merge_with-covers :
      (r : Rectangle) (rs rest : List Rectangle) (m : Rectangle)
      → merge_with r rs ≡ some (m, rest)
      → sum_by (covers x y) rest + covers x y m ≡ covers x y r + sum_by (covers x y) rs
  unfolding merge_with
  merge_with-covers r [] rest m h = absurd (cc)
  merge_with-covers r (s ∷ rs) rest m h = elim (Option-cases (merge_pair r s)) [
    | inr (n, e) ↦
        let same = some-injective _ _ (rw (e, merge_with) at h) in
        rw (← ap (λ z. z.0) same, ← ap (λ z. z.1) same) (omega (arith, merge_pair-covers r s n e))
    | inl e ↦ elim (Option-cases (merge_with r rs)) [
      | inl f ↦ absurd (cc)
      | inr ((n, kept), f) ↦
          let same = some-injective _ _ (rw (e, merge_with, f) at h) in
          rw (← ap (λ z. z.0) same, ← ap (λ z. z.1) same)
            (omega (arith, merge_with-covers r rs kept n f))
    ]
  ]

  merge_once-covers :
      (rs merged : List Rectangle)
      → merge_once rs ≡ some merged
      → sum_by (covers x y) merged ≡ sum_by (covers x y) rs
  unfolding merge_once
  merge_once-covers [] merged h = absurd (cc)
  merge_once-covers (r ∷ rs) merged h = elim (Option-cases (merge_with r rs)) [
    | inr ((m, rest), e) ↦
        rw (← some-injective _ _ (rw (e, merge_once) at h))
          (omega (arith, merge_with-covers r rs rest m e, sum_by-append (covers x y) rest (m ∷ [])))
    | inl e ↦ elim (Option-cases (merge_once rs)) [
      | inl f ↦ absurd (cc)
      | inr (kept, f) ↦
          rw (← some-injective _ _ (rw (e, merge_once, f) at h))
            (omega (arith, merge_once-covers rs kept f))
    ]
  ]

  merge_loop-covers :
      (n : ℕ) (rs : List Rectangle) → sum_by (covers x y) (merge_loop n rs) ≡ sum_by (covers x y) rs
  unfolding merge_loop
  merge_loop-covers zero rs = refl
  merge_loop-covers (suc n) rs = elim (Option-cases (merge_once rs)) [
    | inl e ↦ rw (e, merge_loop) refl
    | inr (merged, e) ↦
        rw (e, merge_loop)
          (omega (arith, merge_loop-covers n merged, merge_once-covers rs merged e))
  ]

-- After merging each cell of the sheet lies in as many of the rectangles as before.
pub merge_free_rectangles-covers :
    (x y : ℕ) (rects : List Rectangle)
    → sum_by (covers x y) (merge_free_rectangles rects) ≡ sum_by (covers x y) rects
unfolding merge_free_rectangles
merge_free_rectangles-covers x y rects = elim (Bool-cases (ltb (length rects) 2)) [
  | inl e ↦ rw e refl
  | inr e ↦ rw e (merge_loop-covers x y max_iterations rects)
]

merge_with-length :
    (r : Rectangle) (rs rest : List Rectangle) (m : Rectangle)
    → merge_with r rs ≡ some (m, rest)
    → length rest + 1 ≡ length rs
unfolding merge_with
merge_with-length r [] rest m h = absurd (cc)
merge_with-length r (s ∷ rs) rest m h = elim (Option-cases (merge_pair r s)) [
  | inr (n, e) ↦ rw (← ap (λ z. z.1) (some-injective _ _ (rw (e, merge_with) at h))) (omega arith)
  | inl e ↦ elim (Option-cases (merge_with r rs)) [
    | inl f ↦ absurd (cc)
    | inr ((n, kept), f) ↦
        rw (← ap (λ z. z.1) (some-injective _ _ (rw (e, merge_with, f) at h)))
          (omega (arith, merge_with-length r rs kept n f))
  ]
]

merge_once-length :
    (rs merged : List Rectangle) → merge_once rs ≡ some merged → length merged + 1 ≡ length rs
unfolding merge_once
merge_once-length [] merged h = absurd (cc)
merge_once-length (r ∷ rs) merged h = elim (Option-cases (merge_with r rs)) [
  | inr ((m, rest), e) ↦
      rw (← some-injective _ _ (rw (e, merge_once) at h))
        (omega (arith, merge_with-length r rs rest m e, length-append rest (m ∷ [])))
  | inl e ↦ elim (Option-cases (merge_once rs)) [
    | inl f ↦ absurd (cc)
    | inr (kept, f) ↦
        rw (← some-injective _ _ (rw (e, merge_once, f) at h))
          (omega (arith, merge_once-length rs kept f))
  ]
]

merge_once-short : (rs : List Rectangle) → length rs < 2 → merge_once rs ≡ none
unfolding merge_once merge_with
merge_once-short [] h = refl
merge_once-short (r ∷ []) h = refl
merge_once-short (r ∷ s ∷ rs) h = absurd (omega arith)

merge_loop-merged :
    (n : ℕ) (rs : List Rectangle) → length rs ≤ n + 1 → merge_once (merge_loop n rs) ≡ none
unfolding merge_loop
merge_loop-merged zero rs h = merge_once-short rs (omega arith)
merge_loop-merged (suc n) rs h = elim (Option-cases (merge_once rs)) [
  | inl e ↦ rw (e, merge_loop) e
  | inr (merged, e) ↦
      rw (e, merge_loop) (merge_loop-merged n merged (omega (arith, merge_once-length rs merged e)))
]

-- Two rectangles that share a whole side: side by side at the same height, or one on the other at
-- the same width.
abbrev pub ShareSide : Rectangle → Rectangle → Type 0
ShareSide r s =
    ((r.y ≡ s.y) × (r.height ≡ s.height) × ((r.x + r.width ≡ s.x) ⊎ (s.x + s.width ≡ r.x)))
    ⊎ ((r.x ≡ s.x) × (r.width ≡ s.width) × ((r.y + r.height ≡ s.y) ⊎ (s.y + s.height ≡ r.y)))

merge_pair-none : (r s : Rectangle) → merge_pair r s ≡ none → ¬ ShareSide r s
unfolding merge_pair
merge_pair-none r s h k = ground arith

merge_with-none :
    (r : Rectangle) (rs : List Rectangle) → merge_with r rs ≡ none → All (λ s. ¬ ShareSide r s) rs
unfolding merge_with
merge_with-none r [] h = tt
merge_with-none r (s ∷ rs) h = elim (Option-cases (merge_pair r s)) [
  | inr (m, e) ↦ absurd (ground arith)
  | inl e ↦ elim (Option-cases (merge_with r rs)) [
    | inr ((m, kept), f) ↦ absurd (ground arith)
    | inl f ↦ (merge_pair-none r s e, merge_with-none r rs f)
  ]
]

merge_once-none :
    (rs : List Rectangle) → merge_once rs ≡ none → Pairwise (λ r s. ¬ ShareSide r s) rs
unfolding merge_once
merge_once-none [] h = tt
merge_once-none (r ∷ rs) h = elim (Option-cases (merge_with r rs)) [
  | inr ((m, rest), e) ↦ absurd (ground arith)
  | inl e ↦ elim (Option-cases (merge_once rs)) [
    | inr (kept, f) ↦ absurd (ground arith)
    | inl f ↦ (merge_with-none r rs e, merge_once-none rs f)
  ]
]

-- For up to 101 rectangles the 100 iterations are enough: of the rectangles that are left no two
-- share a whole side.
pub merge_free_rectangles-merged :
    (rects : List Rectangle)
    → length rects ≤ 101
    → Pairwise (λ r s. ¬ ShareSide r s) (merge_free_rectangles rects)
unfolding merge_free_rectangles
merge_free_rectangles-merged rects h =
    merge_once-none (merge_free_rectangles rects) (elim (Bool-cases (ltb (length rects) 2)) [
      | inl e ↦ rw e (merge_once-short rects (ltb→lt _ _ e))
      | inr e ↦ rw e (merge_loop-merged max_iterations rects h)
    ])
