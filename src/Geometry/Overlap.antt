-- ===== src/Geometry/Overlap.antt =====
-- rectanglesOverlap of 2d/geometry.ts and the cells of a rectangle.
use nestra.Prelude.{ℕ, ◌+◌, ◌≤◌, ◌<◌, ◌≡◌, ◌↔◌, true, leb, if◌then◌else◌, arith}
use nestra.Geometry.{Rectangle, rectangles_overlap}

-- The cell with the lower left corner `(x, y)` lies in the rectangle.
pub record HasCell (r : Rectangle) (x y : ℕ) : Type 0 where
  pub from_left : r.x ≤ x
  pub to_right : x < r.x + r.width
  pub from_below : r.y ≤ y
  pub to_top : y < r.y + r.height

abbrev larger : ℕ → ℕ → ℕ
larger a b = if leb a b then b else a

-- Two rectangles of positive size overlap, by the test, exactly where they have a cell in common.
pub rectangles_overlap_lem :
    (a b : Rectangle)
    → 0 < a.width
    → 0 < a.height
    → 0 < b.width
    → 0 < b.height
    → (rectangles_overlap a b ≡ true) ↔ ((x : ℕ) × (y : ℕ) × HasCell a x y × HasCell b x y)
unfolding rectangles_overlap
rectangles_overlap_lem a b aw ah bw bh = (
  (λ e. (
    larger a.x b.x,
    larger a.y b.y,
    record {
      from_left = ground arith;
      to_right = ground arith;
      from_below = ground arith;
      to_top = ground arith;
    },
    record {
      from_left = ground arith;
      to_right = ground arith;
      from_below = ground arith;
      to_top = ground arith;
    },
  )),
  (λ (x, y, p, q). ground (
    arith, p.from_left, p.to_right, p.from_below, p.to_top, q.from_left, q.to_right, q.from_below,
    q.to_top,
  )),
)
