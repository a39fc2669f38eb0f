-- ===== src/FreeRects/Splitting.antt =====
-- splitRectMaximal and removeRedundantRects of 2d/free-rect-manager.ts.
use nestra.Prelude.{
  ℕ, ◌+◌, ◌-◌, ◌≤◌, ◌<◌, ◌≡◌, ◌≢◌, inl, inr, Bool, true, false, ◌&&◌, Memᴰ, All-of_Mem, subst,
  length, List, [], ◌∷◌, ◌++◌, ltb, All, All-append, select, Bool-cases, arith,
}
use native.Mathlib.Decide.{ℕ_discrete}
use nestra.Geometry.{Rectangle}
use nestra.Geometry.Separation.{Apart, IsInside}
use nestra.FreeRects.{
  left_split, right_split, bottom_split, top_split, maximal_splits, split_rect_maximal,
  remove_redundant_rects, keep_from, contained_elsewhere,
}

-- A rectangle that is left is a part of `rect` from which a blade can part the placed piece.
pub record IsRest (kerf : ℕ) (rect placed r : Rectangle) : Type 0 where
  pub inside : IsInside r rect
  pub apart : Apart kerf placed r

-- What holds of a list, and what the filter's test gives, hold of the filtered list.
select-with {ℓ κ μ} :
    {A : Type ℓ} (P : A → Type κ) (test : A → Bool) (Q : A → Type μ)
    → ((x : A) → test x ≡ true → Q x)
    → (xs : List A) → All P xs
    → All (λ x. P x × Q x) (select test xs)
select-with P test Q imp [] h = tt
select-with P test Q imp (x ∷ xs) h = elim (Bool-cases (test x)) [
  | inl e ↦ rw e ((h.0, imp x e), select-with P test Q imp xs h.1)
  | inr e ↦ rw e (select-with P test Q imp xs h.1)
]

module _ (rect placed : Rectangle) (kerf : ℕ) where
  left_split-IsRest :
      placed.x ≤ rect.x + rect.width + kerf
      → All (IsRest kerf rect placed) (left_split rect placed kerf)
  left_split-IsRest h =
      elim (Bool-cases (ltb (rect.x + kerf) placed.x && ltb 0 (placed.x - rect.x - kerf))) [
        | inr e ↦ rw e tt
        | inl e ↦ rw e (
          record {
            inside = record {
              left = ground arith;
              bottom = ground arith;
              right = ground arith;
              top = ground arith;
            };
            apart = ground arith;
          },
          tt,
        )
      ]

  right_split-IsRest :
      rect.x ≤ placed.x + placed.width + kerf
      → All (IsRest kerf rect placed) (right_split rect placed kerf)
  right_split-IsRest h =
      elim (Bool-cases (
        ltb (placed.x + placed.width + kerf) (rect.x + rect.width)
        && ltb 0 (rect.x + rect.width - (placed.x + placed.width + kerf)))) [
          | inr e ↦ rw e tt
          | inl e ↦ rw e (
            record {
              inside = record {
                left = ground arith;
                bottom = ground arith;
                right = ground arith;
                top = ground arith;
              };
              apart = ground arith;
            },
            tt,
          )
        ]

  bottom_split-IsRest :
      placed.y ≤ rect.y + rect.height + kerf
      → All (IsRest kerf rect placed) (bottom_split rect placed kerf)
  bottom_split-IsRest h =
      elim (Bool-cases (ltb (rect.y + kerf) placed.y && ltb 0 (placed.y - rect.y - kerf))) [
        | inr e ↦ rw e tt
        | inl e ↦ rw e (
          record {
            inside = record {
              left = ground arith;
              bottom = ground arith;
              right = ground arith;
              top = ground arith;
            };
            apart = ground arith;
          },
          tt,
        )
      ]

  top_split-IsRest :
      rect.y ≤ placed.y + placed.height + kerf
      → All (IsRest kerf rect placed) (top_split rect placed kerf)
  top_split-IsRest h =
      elim (Bool-cases (
        ltb (placed.y + placed.height + kerf) (rect.y + rect.height)
        && ltb 0 (rect.y + rect.height - (placed.y + placed.height + kerf)))) [
          | inr e ↦ rw e tt
          | inl e ↦ rw e (
            record {
              inside = record {
                left = ground arith;
                bottom = ground arith;
                right = ground arith;
                top = ground arith;
              };
              apart = ground arith;
            },
            tt,
          )
        ]

-- The piece, with a kerf around it, touches the rectangle.
pub record Meets (kerf : ℕ) (rect placed : Rectangle) : Type 0 where
  pub from_left : placed.x ≤ rect.x + rect.width + kerf
  pub from_below : placed.y ≤ rect.y + rect.height + kerf
  pub from_right : rect.x ≤ placed.x + placed.width + kerf
  pub from_above : rect.y ≤ placed.y + placed.height + kerf

maximal_splits-IsRest :
    (rect placed : Rectangle) (kerf : ℕ)
    → Meets kerf rect placed
    → All (IsRest kerf rect placed) (maximal_splits rect placed kerf)
unfolding maximal_splits
maximal_splits-IsRest rect placed kerf m =
    let P = IsRest kerf rect placed in
    All-append P
      (left_split rect placed kerf ++ right_split rect placed kerf ++ bottom_split rect placed kerf)
      _
      (All-append P (left_split rect placed kerf ++ right_split rect placed kerf) _
        (All-append P (left_split rect placed kerf) _
          (left_split-IsRest rect placed kerf m.from_left)
          (right_split-IsRest rect placed kerf m.from_right))
        (bottom_split-IsRest rect placed kerf m.from_below))
      (top_split-IsRest rect placed kerf m.from_above)

-- If the piece with a kerf around it touches the rectangle, every rectangle that `splitRectMaximal`
-- leaves is inside it, a blade can part it from the piece, and it is more than 10 wide and high.
pub split_rect_maximal-IsRest :
    (rect placed : Rectangle) (kerf : ℕ)
    → Meets kerf rect placed
    → All
        (λ r. IsRest kerf rect placed r × ((10 < r.width) × (10 < r.height)))
        (split_rect_maximal rect placed kerf)
unfolding split_rect_maximal
split_rect_maximal-IsRest rect placed kerf m =
    select-with (IsRest kerf rect placed) (λ r. ltb 10 r.width && ltb 10 r.height)
      (λ r. (10 < r.width) × (10 < r.height)) (λ r e. (ground arith, ground arith))
      (maximal_splits rect placed kerf) (maximal_splits-IsRest rect placed kerf m)

contained_elsewhere-append :
    (r : Rectangle) (i : ℕ) (xs ys : List Rectangle) (j : ℕ)
    → contained_elsewhere r i ys (j + length xs) ≡ true
    → contained_elsewhere r i (xs ++ ys) j ≡ true
unfolding contained_elsewhere
contained_elsewhere-append r i [] ys j h = ground (arith, h)
contained_elsewhere-append r i (x ∷ xs) ys j h =
    let moved : contained_elsewhere r i ys ((j + 1) + length xs) ≡ true =
      subst (λ n. contained_elsewhere r i ys n ≡ true) (omega arith) h in
    ground (arith, contained_elsewhere-append r i xs ys (j + 1) moved)

-- A copy at another index contains the rectangle.
contained_elsewhere_copy :
    (r : Rectangle) (i : ℕ) (before after : List Rectangle) (j : ℕ)
    → i ≢ j + length before
    → contained_elsewhere r i (before ++ r ∷ after) j ≡ true
unfolding contained_elsewhere
contained_elsewhere_copy r i before after j h =
    contained_elsewhere-append r i before (r ∷ after) j (ground arith)

-- Nothing else contains a rectangle that is kept.
abbrev IsKept : List Rectangle → Rectangle → Type 0
IsKept all r = (k : ℕ) × (contained_elsewhere r k all 0 ≡ false)

keep_from-IsKept : (all rs : List Rectangle) (i : ℕ) → All (IsKept all) (keep_from all rs i)
unfolding keep_from
keep_from-IsKept all [] i = tt
keep_from-IsKept all (x ∷ rs) i = elim (Bool-cases (contained_elsewhere x i all 0)) [
  | inl e ↦ rw (e, keep_from) (keep_from-IsKept all rs (i + 1))
  | inr e ↦ rw (e, keep_from) ((i, e), keep_from-IsKept all rs (i + 1))
]

-- Of a rectangle that stands at two places of the list, whatever the other rectangles are,
-- `removeRedundantRects` keeps no copy.
pub remove_redundant_rects-twins :
    (r : Rectangle) (before between after : List Rectangle)
    → ¬ Memᴰ r (remove_redundant_rects (before ++ (r ∷ between ++ (r ∷ after))))
unfolding remove_redundant_rects
remove_redundant_rects-twins r before between after m =
    let all = before ++ (r ∷ between ++ (r ∷ after)) in
    let (k, kept) =
      All-of_Mem (IsKept all) (remove_redundant_rects all) (keep_from-IsKept all all 0) m in
    elim (ℕ_discrete k (length before)) [
      | no other ↦ cc (
        contained_elsewhere_copy r k before (between ++ (r ∷ after)) 0
            (λ e. other (omega (arith, e))),
        kept,
      )
      | yes same ↦ cc (
        contained_elsewhere-append r k before (r ∷ between ++ (r ∷ after)) 0 (
            contained_elsewhere-append r k (r ∷ between) (r ∷ after) (0 + length before)
              (unfold contained_elsewhere in ground arith)),
        kept,
      )
    ]
