-- ===== src/Geometry/Turns.antt =====
-- The lists of getOrientations (2d/geometry.ts).
use nestra.Prelude.{
  arith, ℕ, ◌≡◌, ◌⊎◌, refl, inl, inr, Bool, true, false, not, ◌||◌, ◌==◌, [], ◌∷◌, none, All,
  Bool-cases,
}
use nestra.Geometry.{Orientation, as_given, turned, get_orientations}

-- The orientation lays a piece of these dimensions as given or, if the piece may be turned and
-- turning is on, the other way round.
abbrev pub IsTurn : ℕ → ℕ → Bool → Bool → Orientation → Type 0
IsTurn w h can allow o =
    ((o.rotated ≡ false) × ((o.width ≡ w) × (o.height ≡ h)))
    ⊎ (((o.rotated ≡ true) × ((can ≡ true) × (allow ≡ true))) × ((o.width ≡ h) × (o.height ≡ w)))

pub get_orientations-cases :
    (w h : ℕ) (can allow : Bool)
    → (get_orientations w h can allow none false ≡ as_given w h ∷ [])
      ⊎ ((get_orientations w h can allow none false ≡ as_given w h ∷ turned w h ∷ [])
          × ((can ≡ true) × (allow ≡ true)))
unfolding get_orientations
get_orientations-cases w h can allow = elim (Bool-cases (not allow || not can || w == h)) [
  | inl t ↦ inl (rw t refl)
  | inr t ↦ inr (rw t refl, (ground arith, ground arith))
]

pub get_orientations-IsTurn :
    (w h : ℕ) (can allow : Bool)
    → All (IsTurn w h can allow) (get_orientations w h can allow none false)
get_orientations-IsTurn w h can allow = elim (get_orientations-cases w h can allow) [
  | inl e ↦ rw e (inl (refl, (refl, refl)), tt)
  | inr (e, (c, a)) ↦ rw e (inl (refl, (refl, refl)), (inr ((refl, (c, a)), (refl, refl)), tt))
]
