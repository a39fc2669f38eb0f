-- ===== src/MaxRects/Clearance.antt =====
-- The free rectangles of a MAXRECTS sheet (2d/maxrects-algorithm.ts, 2d/free-rect-manager.ts) and
-- the placements: what cutting, merging and pruning keep.
use nestra.Prelude.{
  ℕ, ◌+◌, ◌≤◌, ◌<◌, ◌≡◌, ◌⊎◌, inl, inr, true, false, List, [], ◌∷◌, some, zero, suc, some-injective,
  ap, ltb, All, All-append, All-map, Bool-cases, Option-cases, arith, length, subst,
}
use nestra.Geometry.{Rectangle}
use nestra.Geometry.Separation.{IsInside}
use nestra.FreeRects.{
  can_merge_horizontal, can_merge_vertical, merge_pair, merge_with, merge_once, merge_loop,
  max_iterations, merge_free_rectangles, contained_elsewhere, keep_from, remove_redundant_rects,
  split_rect_maximal,
}
use nestra.FreeRects.Splitting.{IsRest, Meets, split_rect_maximal-IsRest}
use nestra.MaxRects.{PlacementCandidate, area_taken, misses, clamped, cut_rects}

-- The free rectangle `r` begins a kerf after the placement `p` ends, or ends before it begins.
abbrev pub IsClear : ℕ → Rectangle → Rectangle → Type 0
IsClear kerf p r =
    (p.x + p.width + kerf ≤ r.x)
    ⊎ (p.y + p.height + kerf ≤ r.y)
    ⊎ (r.x + r.width ≤ p.x)
    ⊎ (r.y + r.height ≤ p.y)

abbrev pub HasArea : Rectangle → Type 0
HasArea p = (0 < p.width) × (0 < p.height)

-- A property that a merged rectangle has from its two parts.
abbrev pub IsMergeable {κ} : (Rectangle → Type κ) → Type κ
IsMergeable D = (a b m : Rectangle) → merge_pair a b ≡ some m → D a → D b → D m

module _ {κ} (D : Rectangle → Type κ) where
  module _ (joins : IsMergeable D) where
    merge_with-All :
        (r : Rectangle) (rs rest : List Rectangle) (m : Rectangle)
        → D r
        → All D rs
        → merge_with r rs ≡ some (m, rest)
        → D m × All D rest
    unfolding merge_with
    merge_with-All r [] rest m d h e = absurd (cc)
    merge_with-All r (s ∷ rs) rest m d h e = elim (Option-cases (merge_pair r s)) [
      | inr (n, f) ↦
          let same = some-injective _ _ (rw (f, merge_with) at e) in
          rw (← ap (λ z. z.0) same, ← ap (λ z. z.1) same) (joins r s n f d h.0, h.1)
      | inl f ↦ elim (Option-cases (merge_with r rs)) [
        | inl g ↦ absurd (cc)
        | inr ((n, kept), g) ↦
            let same = some-injective _ _ (rw (f, merge_with, g) at e) in
            let (a, b) = merge_with-All r rs kept n d h.1 g in
            rw (← ap (λ z. z.0) same, ← ap (λ z. z.1) same) (a, (h.0, b))
      ]
    ]

    merge_once-All :
        (rs merged : List Rectangle) → All D rs → merge_once rs ≡ some merged → All D merged
    unfolding merge_once
    merge_once-All [] merged h e = absurd (cc)
    merge_once-All (r ∷ rs) merged h e = elim (Option-cases (merge_with r rs)) [
      | inr ((m, rest), f) ↦
          let (a, b) = merge_with-All r rs rest m h.0 h.1 f in
          subst (All D) (some-injective _ _ (rw (f, merge_once) at e))
            (All-append D rest (m ∷ []) b (a, tt))
      | inl f ↦ elim (Option-cases (merge_once rs)) [
        | inl g ↦ absurd (cc)
        | inr (kept, g) ↦
            subst (All D) (some-injective _ _ (rw (f, merge_once, g) at e))
              (h.0, merge_once-All rs kept h.1 g)
      ]
    ]

    merge_loop-All : (n : ℕ) (rs : List Rectangle) → All D rs → All D (merge_loop n rs)
    unfolding merge_loop
    merge_loop-All zero rs h = h
    merge_loop-All (suc n) rs h = elim (Option-cases (merge_once rs)) [
      | inl e ↦ rw (e, merge_loop) h
      | inr (merged, e) ↦
          rw (e, merge_loop) (merge_loop-All n merged (merge_once-All rs merged h e))
    ]

    pub merge_free_rectangles-All :
        (rs : List Rectangle) → All D rs → All D (merge_free_rectangles rs)
    unfolding merge_free_rectangles
    merge_free_rectangles-All rs h = elim (Bool-cases (ltb (length rs) 2)) [
      | inl e ↦ rw e h
      | inr e ↦ rw e (merge_loop-All max_iterations rs h)
    ]

  keep_from-All : (all rs : List Rectangle) (i : ℕ) → All D rs → All D (keep_from all rs i)
  unfolding keep_from
  keep_from-All all [] i h = tt
  keep_from-All all (r ∷ rs) i h = elim (Bool-cases (contained_elsewhere r i all 0)) [
    | inl e ↦ rw (e, keep_from) (keep_from-All all rs (i + 1) h.1)
    | inr e ↦ rw (e, keep_from) (h.0, keep_from-All all rs (i + 1) h.1)
  ]

  pub remove_redundant_rects-All :
      (rs : List Rectangle) → All D rs → All D (remove_redundant_rects rs)
  unfolding remove_redundant_rects
  remove_redundant_rects-All rs h = keep_from-All rs rs 0 h

pub IsInside-IsMergeable : (area : Rectangle) → IsMergeable (λ r. IsInside r area)
unfolding merge_pair
IsInside-IsMergeable area a b m e ha hb = elim (Bool-cases (can_merge_horizontal a b)) [
  | inl f ↦ rw (← some-injective _ _ (rw (f, merge_pair) at e)) (record {
    left = ground (arith, ha.left, hb.left);
    bottom = ground (arith, ha.bottom, hb.bottom);
    right = ground (arith, ha.right, hb.right);
    top = ground (arith, ha.top, hb.top);
  })
  | inr f ↦ elim (Bool-cases (can_merge_vertical a b)) [
    | inl g ↦ rw (← some-injective _ _ (rw (f, g, merge_pair) at e)) (record {
      left = ground (arith, ha.left, hb.left);
      bottom = ground (arith, ha.bottom, hb.bottom);
      right = ground (arith, ha.right, hb.right);
      top = ground (arith, ha.top, hb.top);
    })
    | inr g ↦ absurd (ground arith)
  ]
]

pub IsClear-IsMergeable : (kerf : ℕ) (p : Rectangle) → HasArea p → IsMergeable (IsClear kerf p)
unfolding merge_pair
IsClear-IsMergeable kerf p (w, h) a b m e ha hb = elim (Bool-cases (can_merge_horizontal a b)) [
  | inl f ↦ rw (← some-injective _ _ (rw (f, merge_pair) at e)) (ground arith)
  | inr f ↦ elim (Bool-cases (can_merge_vertical a b)) [
    | inl g ↦ rw (← some-injective _ _ (rw (f, g, merge_pair) at e)) (ground arith)
    | inr g ↦ absurd (ground arith)
  ]
]

module _ (c : PlacementCandidate) (kerf : ℕ) where
  misses-IsClear : (r : Rectangle) → misses r c kerf ≡ true → IsClear kerf (area_taken c) r
  misses-IsClear r h = ground arith

  clamped-Meets : (r : Rectangle) → misses r c kerf ≡ false → Meets kerf r (clamped r c)
  clamped-Meets r h = record {
    from_left = ground arith;
    from_below = ground arith;
    from_right = ground arith;
    from_above = ground arith;
  }

  rest-IsClear :
      (r q : Rectangle)
      → misses r c kerf ≡ false
      → IsRest kerf r (clamped r c) q
      → (10 < q.width) × (10 < q.height)
      → IsClear kerf (area_taken c) q
  rest-IsClear r q h i big =
      ground (arith, i.apart, i.inside.left, i.inside.bottom, i.inside.right, i.inside.top)

  -- Every rectangle that is left is clear of the new placement, and a part of one that was there.
  pub cut_rects-All {κ} :
      (D : Rectangle → Type κ)
      → ((q r : Rectangle) → IsInside q r → D r → D q)
      → (rects : List Rectangle) → All D rects
      → All (λ q. D q × IsClear kerf (area_taken c) q) (cut_rects c kerf rects)
  unfolding cut_rects
  cut_rects-All D part [] h = tt
  cut_rects-All D part (r ∷ rects) h = elim (Bool-cases (misses r c kerf)) [
    | inl e ↦ rw (e, cut_rects) ((h.0, misses-IsClear r e), cut_rects-All D part rects h.1)
    | inr e ↦
        rw (e, cut_rects)
          (All-append (λ q. D q × IsClear kerf (area_taken c) q)
            (split_rect_maximal r (clamped r c) kerf) _
            (All-map (λ q k. (part q r k.0.inside h.0, rest-IsClear r q e k.0 k.1))
              (split_rect_maximal r (clamped r c) kerf)
              (split_rect_maximal-IsRest r (clamped r c) kerf (clamped-Meets r e)))
            (cut_rects-All D part rects h.1))
  ]
