-- ===== src/FreeRects.antt =====
-- backend/src/algorithms/2d/free-rect-manager.ts: merging, pruning and splitting of the free
-- rectangles of a sheet. `IFreeRect` is the rectangle of Geometry.
pub mod Merging
pub mod Splitting
use nestra.Prelude.{
  ℕ, zero, suc, ◌+◌, ◌-◌, ◌*◌, Bool, false, not, ◌&&◌, ◌||◌, List, [], ◌∷◌, ◌++◌, Option, none,
  some, ltb, leb, ◌==◌, if◌then◌else◌, length, sum_by, select,
}
use nestra.Prelude.Sorting.{sort_by}
use nestra.Geometry.{Rectangle}

abbrev pub can_merge_horizontal : Rectangle → Rectangle → Bool
can_merge_horizontal r1 r2 =
    r1.y == r2.y && r1.height == r2.height && (r1.x + r1.width == r2.x || r2.x + r2.width == r1.x)

abbrev pub can_merge_vertical : Rectangle → Rectangle → Bool
can_merge_vertical r1 r2 =
    r1.x == r2.x && r1.width == r2.width && (r1.y + r1.height == r2.y || r2.y + r2.height == r1.y)

abbrev pub min : ℕ → ℕ → ℕ
min a b = if leb a b then a else b

abbrev pub merge_horizontal : Rectangle → Rectangle → Rectangle
merge_horizontal r1 r2 = record {
  x = min r1.x r2.x;
  y = r1.y;
  width = r1.width + r2.width;
  height = r1.height;
}

abbrev pub merge_vertical : Rectangle → Rectangle → Rectangle
merge_vertical r1 r2 = record {
  x = r1.x;
  y = min r1.y r2.y;
  width = r1.width;
  height = r1.height + r2.height;
}

-- The two tests of the inner loop's body.
unfoldable pub merge_pair : Rectangle → Rectangle → Option Rectangle
merge_pair r1 r2 =
    if can_merge_horizontal r1 r2
    then some (merge_horizontal r1 r2)
    else if can_merge_vertical r1 r2
    then some (merge_vertical r1 r2)
    else none

abbrev pub keep_beside :
    Rectangle → Option (Rectangle × List Rectangle) → Option (Rectangle × List Rectangle)
keep_beside r none = none
keep_beside r (some (merged, rest)) = some (merged, r ∷ rest)

-- The loop on `j`: the first later rectangle that merges with `r1`, and the later ones without it.
unfoldable pub merge_with : Rectangle → List Rectangle → Option (Rectangle × List Rectangle)
unfolding merge_pair
merge_with r1 [] = none
merge_with r1 (r2 ∷ rs) = elim (merge_pair r1 r2) [
  | some merged ↦ some (merged, rs)
  | none ↦ keep_beside r2 (merge_with r1 rs)
]

abbrev pub keep_before : Rectangle → Option (List Rectangle) → Option (List Rectangle)
keep_before r none = none
keep_before r (some rs) = some (r ∷ rs)

-- The loop on `i`: both rectangles of the first pair that merges leave the list, and the merged one
-- goes to its end. `none` is `merged === false`.
unfoldable pub merge_once : List Rectangle → Option (List Rectangle)
unfolding merge_with
merge_once [] = none
merge_once (r ∷ rs) = elim (merge_with r rs) [
  | some (merged, rest) ↦ some (rest ++ merged ∷ [])
  | none ↦ keep_before r (merge_once rs)
]

-- The outer loop, with the iterations that are left.
unfoldable pub merge_loop : ℕ → List Rectangle → List Rectangle
unfolding merge_once
merge_loop zero rects = rects
merge_loop (suc n) rects = elim (merge_once rects) [
  | none ↦ rects
  | some merged ↦ merge_loop n merged
]

abbrev pub max_iterations : ℕ
max_iterations = 100

unfoldable pub merge_free_rectangles : List Rectangle → List Rectangle
unfolding merge_loop
merge_free_rectangles rects =
    if ltb (length rects) 2 then rects else merge_loop max_iterations rects

abbrev pub is_contained : Rectangle → Rectangle → Bool
is_contained r1 r2 =
    leb r2.x r1.x
    && leb r2.y r1.y
    && leb (r1.x + r1.width) (r2.x + r2.width)
    && leb (r1.y + r1.height) (r2.y + r2.height)

-- `rects.some((r2, j) => i !== j && isContained(r1, r2))`, from the index `j` on.
unfoldable pub contained_elsewhere : Rectangle → ℕ → List Rectangle → ℕ → Bool
contained_elsewhere r1 i [] j = false
contained_elsewhere r1 i (r2 ∷ rs) j =
    not (i == j) && is_contained r1 r2 || contained_elsewhere r1 i rs (j + 1)

unfoldable pub keep_from : List Rectangle → List Rectangle → ℕ → List Rectangle
unfolding contained_elsewhere
keep_from all [] i = []
keep_from all (r ∷ rs) i =
    let rest = keep_from all rs (i + 1) in
    if not (contained_elsewhere r i all 0) then r ∷ rest else rest

unfoldable pub remove_redundant_rects : List Rectangle → List Rectangle
unfolding keep_from
remove_redundant_rects rects = keep_from rects rects 0

-- A rectangle that is pushed under a test, or nothing.
abbrev pub when : Bool → Rectangle → List Rectangle
when test r = if test then r ∷ [] else []

-- The four splits and the tests that they are under. The first argument is `rect`, the second the
-- placed piece.
abbrev pub left_split : Rectangle → Rectangle → ℕ → List Rectangle
left_split rect placed kerf =
    when (ltb (rect.x + kerf) placed.x && ltb 0 (placed.x - rect.x - kerf))
      (record { x = rect.x; y = rect.y; width = placed.x - rect.x - kerf; height = rect.height })

abbrev pub right_split : Rectangle → Rectangle → ℕ → List Rectangle
right_split rect placed kerf =
    let p_right = placed.x + placed.width + kerf in
    let right_width = rect.x + rect.width - p_right in
    when (ltb p_right (rect.x + rect.width) && ltb 0 right_width)
      (record { x = p_right; y = rect.y; width = right_width; height = rect.height })

abbrev pub bottom_split : Rectangle → Rectangle → ℕ → List Rectangle
bottom_split rect placed kerf =
    when (ltb (rect.y + kerf) placed.y && ltb 0 (placed.y - rect.y - kerf))
      (record { x = rect.x; y = rect.y; width = rect.width; height = placed.y - rect.y - kerf })

abbrev pub top_split : Rectangle → Rectangle → ℕ → List Rectangle
top_split rect placed kerf =
    let p_top = placed.y + placed.height + kerf in
    let top_height = rect.y + rect.height - p_top in
    when (ltb p_top (rect.y + rect.height) && ltb 0 top_height)
      (record { x = rect.x; y = p_top; width = rect.width; height = top_height })

-- The list before the filter.
unfoldable pub maximal_splits : Rectangle → Rectangle → ℕ → List Rectangle
maximal_splits rect placed kerf =
    left_split rect placed kerf
    ++ right_split rect placed kerf
    ++ bottom_split rect placed kerf
    ++ top_split rect placed kerf

unfoldable pub split_rect_maximal : Rectangle → Rectangle → ℕ → List Rectangle
unfolding maximal_splits
split_rect_maximal rect placed kerf =
    select (λ r. ltb 10 r.width && ltb 10 r.height) (maximal_splits rect placed kerf)

unfoldable pub guillotine_splits : Rectangle → ℕ → ℕ → ℕ → Bool → List Rectangle
guillotine_splits rect placed_width placed_height kerf split_horizontally =
    let right = ltb (placed_width + kerf) rect.width in
    let top = ltb (placed_height + kerf) rect.height in
    let right_x = rect.x + placed_width + kerf in
    let right_width = rect.width - placed_width - kerf in
    let top_y = rect.y + placed_height + kerf in
    let top_height = rect.height - placed_height - kerf in
    if split_horizontally
    then when right (record { x = right_x; y = rect.y; width = right_width; height = rect.height })
      ++ when top (record { x = rect.x; y = top_y; width = placed_width; height = top_height })
    else when top (record { x = rect.x; y = top_y; width = rect.width; height = top_height })
      ++ when right
          (record { x = right_x; y = rect.y; width = right_width; height = placed_height })

unfoldable pub split_rect_guillotine : Rectangle → ℕ → ℕ → ℕ → Bool → List Rectangle
unfolding guillotine_splits
split_rect_guillotine rect placed_width placed_height kerf split_horizontally =
    select (λ r. ltb 0 r.width && ltb 0 r.height)
      (guillotine_splits rect placed_width placed_height kerf split_horizontally)

unfoldable pub get_total_free_area : List Rectangle → ℕ
get_total_free_area rects = sum_by (λ r. r.width * r.height) rects

unfoldable pub sort_by_area_desc : List Rectangle → List Rectangle
unfolding sort_by
sort_by_area_desc = sort_by (λ a b. leb (b.width * b.height) (a.width * a.height))

unfoldable pub sort_by_position : List Rectangle → List Rectangle
unfolding sort_by
sort_by_position = sort_by (λ a b. if a.y == b.y then leb a.x b.x else ltb a.y b.y)
