-- ===== src/Guillotine/Regions.antt =====
-- splitFreeRectangle of 2d/sheet-manager.ts: the free rectangles before and after a cut.
use nestra.Prelude.{
  ℕ, zero, suc, ◌+◌, ◌-◌, ◌≤◌, ◌<◌, ◌≡◌, inl, inr, List, [], ◌∷◌, ◌++◌, some, some-injective, ltb,
  ltb→lt, get_elem?, subst, All, All-append, All-get, All-map, Bool-cases, arith,
}
use nestra.Geometry.{Rectangle}
use nestra.Geometry.Separation.{
  Apart, Apart-sym, Apart-inside, IsInside, IsInside-trans, Pairwise, Pairwise-append,
}
use nestra.Guillotine.{split_free_rectangle, remove_at}

-- What is left to the right of the piece, and above it.
abbrev pub right_of : Rectangle → ℕ → ℕ → Rectangle
right_of r w kerf = record {
  x = r.x + w + kerf;
  y = r.y;
  width = r.width - w - kerf;
  height = r.height;
}

abbrev pub above : Rectangle → ℕ → ℕ → ℕ → Rectangle
above r w h kerf = record { x = r.x; y = r.y + h + kerf; width = w; height = r.height - h - kerf }

abbrev pub piece_in : Rectangle → ℕ → ℕ → Rectangle
piece_in r w h = record { x = r.x; y = r.y; width = w; height = h }

module _ (r : Rectangle) (w h kerf : ℕ) where
  pub split-All {κ} :
      (P : Rectangle → Type κ)
      → (w + kerf < r.width → P (right_of r w kerf))
      → (h + kerf < r.height → P (above r w h kerf))
      → All P (split_free_rectangle r w h kerf)
  unfolding split_free_rectangle
  split-All P a b = elim (Bool-cases (ltb (w + kerf) r.width)) [
    | inl e ↦ elim (Bool-cases (ltb (h + kerf) r.height)) [
      | inl f ↦ rw (e, f) (a (ltb→lt _ _ e), (b (ltb→lt _ _ f), tt))
      | inr f ↦ rw (e, f) (a (ltb→lt _ _ e), tt)
    ]
    | inr e ↦ elim (Bool-cases (ltb (h + kerf) r.height)) [
      | inl f ↦ rw (e, f) (b (ltb→lt _ _ f), tt)
      | inr f ↦ rw (e, f) tt
    ]
  ]

  pub split-Pairwise : Pairwise (Apart kerf) (split_free_rectangle r w h kerf)
  unfolding split_free_rectangle
  split-Pairwise = elim (Bool-cases (ltb (w + kerf) r.width)) [
    | inl e ↦ elim (Bool-cases (ltb (h + kerf) r.height)) [
      | inl f ↦ rw (e, f) ((ground arith, tt), (tt, tt))
      | inr f ↦ rw (e, f) (tt, tt)
    ]
    | inr e ↦ elim (Bool-cases (ltb (h + kerf) r.height)) [
      | inl f ↦ rw (e, f) (tt, tt)
      | inr f ↦ rw (e, f) tt
    ]
  ]

  pub split-Apart : All (Apart kerf (piece_in r w h)) (split_free_rectangle r w h kerf)
  split-Apart = split-All (Apart kerf (piece_in r w h)) (λ _. ground arith) (λ _. ground arith)

  pub split-IsInside :
      w ≤ r.width → h ≤ r.height → All (λ s. IsInside s r) (split_free_rectangle r w h kerf)
  split-IsInside hw hh =
      split-All (λ s. IsInside s r)
        (λ fits. record {
          left = omega (arith, fits);
          bottom = omega (arith, fits);
          right = omega (arith, fits);
          top = omega (arith, fits);
        })
        (λ fits. record {
          left = omega (arith, fits);
          bottom = omega (arith, fits);
          right = omega (arith, fits);
          top = omega (arith, fits);
        })

pub piece_in-IsInside :
    (r : Rectangle) (w h : ℕ) → w ≤ r.width → h ≤ r.height → IsInside (piece_in r w h) r
piece_in-IsInside r w h hw hh = record {
  left = omega arith;
  bottom = omega arith;
  right = omega arith;
  top = omega arith;
}

module _ {ℓ κ} {A : Type ℓ} (P : A → Type κ) where
  pub All-remove_at : (xs : List A) (i : ℕ) → All P xs → All P (remove_at xs i)
  All-remove_at [] i h = tt
  All-remove_at (x ∷ xs) zero h = h.1
  All-remove_at (x ∷ xs) (suc i) h = (h.0, All-remove_at xs i h.1)

module _ {ℓ κ} {A : Type ℓ} (R : A → A → Type κ) where
  pub Pairwise-remove_at : (xs : List A) (i : ℕ) → Pairwise R xs → Pairwise R (remove_at xs i)
  Pairwise-remove_at [] i h = tt
  Pairwise-remove_at (x ∷ xs) zero h = h.1
  Pairwise-remove_at (x ∷ xs) (suc i) h =
      (All-remove_at (R x) xs i h.0, Pairwise-remove_at xs i h.1)

-- A chosen rectangle is apart from those that stay.
pub remove_at-Apart :
    (kerf : ℕ) (rs : List Rectangle) (i : ℕ) {r : Rectangle}
    → Pairwise (Apart kerf) rs
    → get_elem? rs i ≡ some r
    → All (λ s. Apart kerf s r) (remove_at rs i)
remove_at-Apart kerf [] i h e = absurd (cc)
remove_at-Apart kerf (x ∷ rs) zero h e =
    subst (λ z. All (λ s. Apart kerf s z) rs) (some-injective _ _ e)
      (All-map (λ s a. Apart-sym kerf x s a) rs h.0)
remove_at-Apart kerf (x ∷ rs) (suc i) h e =
    (All-get (Apart kerf x) rs i h.0 e, remove_at-Apart kerf rs i h.1 e)

-- The free rectangles after a piece is cut from the one at `i`.
module _ (kerf : ℕ) (rs : List Rectangle) (i w h : ℕ) {r : Rectangle}
    (chosen : get_elem? rs i ≡ some r) (narrow : w ≤ r.width) (low : h ≤ r.height) where
  pub cut-Pairwise :
      Pairwise (Apart kerf) rs
      → Pairwise (Apart kerf) (remove_at rs i ++ split_free_rectangle r w h kerf)
  cut-Pairwise p =
      Pairwise-append (Apart kerf) (remove_at rs i) _ (Pairwise-remove_at (Apart kerf) rs i p)
        (split-Pairwise r w h kerf)
        (All-map
          (λ s a.
            All-map (λ t j. Apart-inside kerf s t r j a) (split_free_rectangle r w h kerf)
              (split-IsInside r w h kerf narrow low))
          (remove_at rs i) (remove_at-Apart kerf rs i p chosen))

  -- From the piece itself.
  pub cut-Apart_piece :
      Pairwise (Apart kerf) rs
      → All (Apart kerf (piece_in r w h)) (remove_at rs i ++ split_free_rectangle r w h kerf)
  cut-Apart_piece p =
      All-append (Apart kerf (piece_in r w h)) (remove_at rs i) _
        (All-map
          (λ s a.
            Apart-sym kerf s (piece_in r w h)
              (Apart-inside kerf s (piece_in r w h) r (piece_in-IsInside r w h narrow low) a))
          (remove_at rs i) (remove_at-Apart kerf rs i p chosen))
        (split-Apart r w h kerf)

  -- From whatever was apart from all the free rectangles before.
  pub cut-Apart_old :
      (q : Rectangle)
      → All (Apart kerf q) rs
      → All (Apart kerf q) (remove_at rs i ++ split_free_rectangle r w h kerf)
  cut-Apart_old q a =
      All-append (Apart kerf q) (remove_at rs i) _ (All-remove_at (Apart kerf q) rs i a) (
        All-map (λ t j. Apart-inside kerf q t r j (All-get (Apart kerf q) rs i a chosen))
          (split_free_rectangle r w h kerf) (split-IsInside r w h kerf narrow low))

  pub cut-IsInside :
      (area : Rectangle)
      → All (λ s. IsInside s area) rs
      → All (λ s. IsInside s area) (remove_at rs i ++ split_free_rectangle r w h kerf)
  cut-IsInside area a =
      All-append (λ s. IsInside s area) (remove_at rs i) _
        (All-remove_at (λ s. IsInside s area) rs i a)
        (All-map (λ t j. IsInside-trans t r area j (All-get (λ s. IsInside s area) rs i a chosen))
          (split_free_rectangle r w h kerf) (split-IsInside r w h kerf narrow low))
