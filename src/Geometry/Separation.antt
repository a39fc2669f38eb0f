-- ===== src/Geometry/Separation.antt =====
-- Rectangles that a blade can part, for rectanglesOverlap and isWithinBounds of 2d/geometry.ts.
use nestra.Prelude.{
  ℕ, ◌+◌, ◌≤◌, ◌≡◌, ◌⊎◌, true, false, List, [], ◌∷◌, ◌++◌, All, All-append, All-map, arith,
}
use nestra.Geometry.{Rectangle, rectangles_overlap, is_within_bounds, expand_rectangle}

-- One of the two ends, with a kerf to spare, before the other begins, on one of the axes.
abbrev pub Apart : ℕ → Rectangle → Rectangle → Type 0
Apart kerf a b =
    (a.x + a.width + kerf ≤ b.x)
    ⊎ (b.x + b.width + kerf ≤ a.x)
    ⊎ (a.y + a.height + kerf ≤ b.y)
    ⊎ (b.y + b.height + kerf ≤ a.y)

pub rectangles_overlap-Apart :
    (kerf : ℕ) (a b : Rectangle)
    → rectangles_overlap (expand_rectangle a kerf) (expand_rectangle b kerf) ≡ false
    → Apart kerf a b
unfolding rectangles_overlap
rectangles_overlap-Apart kerf a b h = ground arith

pub Apart-sym : (kerf : ℕ) (a b : Rectangle) → Apart kerf a b → Apart kerf b a
Apart-sym kerf a b h = ground arith

-- The first lies in the second.
pub record IsInside (a b : Rectangle) : Type 0 where
  pub left : b.x ≤ a.x
  pub bottom : b.y ≤ a.y
  pub right : a.x + a.width ≤ b.x + b.width
  pub top : a.y + a.height ≤ b.y + b.height

pub Apart-inside : (kerf : ℕ) (a b c : Rectangle) → IsInside b c → Apart kerf a c → Apart kerf a b
Apart-inside kerf a b c i h = ground (arith, i.left, i.bottom, i.right, i.top)

pub IsInside-trans : (a b c : Rectangle) → IsInside a b → IsInside b c → IsInside a c
IsInside-trans a b c h k = record {
  left = omega (arith, h.left, k.left);
  bottom = omega (arith, h.bottom, k.bottom);
  right = omega (arith, h.right, k.right);
  top = omega (arith, h.top, k.top);
}

-- A sheet as a rectangle at the origin.
abbrev pub area_of : ℕ → ℕ → Rectangle
area_of width height = record { x = 0; y = 0; width = width; height = height }

pub is_within_bounds-IsInside :
    (r : Rectangle) (width height : ℕ)
    → is_within_bounds r width height ≡ true
    → IsInside r (area_of width height)
unfolding is_within_bounds
is_within_bounds-IsInside r width height h = record {
  left = omega arith;
  bottom = omega arith;
  right = ground arith;
  top = ground arith;
}

-- A relation between each element and those after it.
module _ {ℓ κ} {A : Type ℓ} (R : A → A → Type κ) where
  abbrev pub Pairwise : List A → Type κ
  Pairwise [] = Unit
  Pairwise (x ∷ xs) = All (R x) xs × Pairwise xs

  pub Pairwise-append :
      (xs ys : List A)
      → Pairwise xs
      → Pairwise ys
      → All (λ x. All (R x) ys) xs
      → Pairwise (xs ++ ys)
  Pairwise-append [] ys hx hy h = hy
  Pairwise-append (x ∷ xs) ys hx hy h =
      (All-append (R x) xs ys hx.0 h.0, Pairwise-append xs ys hx.1 hy h.1)

pub Pairwise-map {ℓ κ μ} :
    {A : Type ℓ} {R : A → A → Type κ} {T : A → A → Type μ}
    → ((x y : A) → R x y → T x y)
    → (xs : List A) → Pairwise R xs
    → Pairwise T xs
Pairwise-map imp [] h = tt
Pairwise-map imp (x ∷ xs) h = (All-map (imp x) xs h.0, Pairwise-map imp xs h.1)
