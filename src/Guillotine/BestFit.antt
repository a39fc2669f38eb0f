-- ===== src/Guillotine/BestFit.antt =====
-- findBestGuillotineFit of 2d/sheet-manager.ts: the free rectangle to cut from.
use nestra.Prelude.{
  refl, All-map, ◌<◌, All, ℕ, suc, ◌+◌, ◌≤◌, ◌≡◌, ap, sym, inl, inr, false, ◌&&◌, List, [], ◌∷◌,
  none, some, some-injective, leb, get_elem?, subst, Bool, Bool-cases, arith,
}
use nestra.Geometry.{Rectangle, Orientation, get_orientations}
use nestra.Geometry.Turns.{IsTurn, get_orientations-IsTurn}
use nestra.Guillotine.{
  GuillotineFit, BestScore, short_side, beats, consider, consider_all, best_from, fit_of,
  find_best_guillotine_fit,
}

-- An orientation of the piece fits in a rectangle.
abbrev pub Fits : Rectangle → Orientation → Type 0
Fits r o = (o.width ≤ r.width) × (o.height ≤ r.height)

-- How a fit lays the piece.
abbrev pub laid : GuillotineFit → Orientation
laid f = record { width = f.width; height = f.height; rotated = f.rotated }

-- The fit is a rectangle of the list with room for the piece, laid a permitted way.
pub record IsReal (w h : ℕ) (can allow : Bool) (all : List Rectangle) (f : GuillotineFit)
    : Type 0 where
  pub rect : Rectangle
  pub found : get_elem? all f.index ≡ some rect
  pub narrow : f.width ≤ rect.width
  pub low : f.height ≤ rect.height
  pub turn :
      IsTurn w h can allow (record { width = f.width; height = f.height; rotated = f.rotated })

abbrev pub AllReal : ℕ → ℕ → Bool → Bool → List Rectangle → BestScore → Type 0
AllReal w h can allow all none = Unit
AllReal w h can allow all (some (s, f)) =
    (r : IsReal w h can allow all f) × (s ≡ short_side r.rect (laid f))

module _ (w h : ℕ) (can allow : Bool) (all : List Rectangle) (rect : Rectangle) (i : ℕ)
    (at_i : get_elem? all i ≡ some rect) where
  consider-AllReal :
      (o : Orientation) (best : BestScore)
      → IsTurn w h can allow o
      → AllReal w h can allow all best
      → AllReal w h can allow all (consider rect i o best)
  unfolding consider
  consider-AllReal o best t r =
      elim (Bool-cases (leb o.width rect.width && leb o.height rect.height)) [
        | inr e ↦ rw (e, consider) r
        | inl e ↦ elim (Bool-cases (beats (short_side rect o) best)) [
          | inr f ↦ rw (e, f, consider) r
          | inl f ↦
              rw (e, f, consider)
                (
                  record {
                    rect = rect;
                    found = at_i;
                    narrow = ground arith;
                    low = ground arith;
                    turn = t;
                  },
                  refl,
                )
        ]
      ]

  consider_all-AllReal :
      (os : List Orientation) (best : BestScore)
      → All (IsTurn w h can allow) os
      → AllReal w h can allow all best
      → AllReal w h can allow all (consider_all rect i os best)
  unfolding consider_all
  consider_all-AllReal [] best t r = r
  consider_all-AllReal (o ∷ os) best t r =
      consider_all-AllReal os (consider rect i o best) t.1 (consider-AllReal o best t.0 r)

best_from-AllReal :
    (w h : ℕ) (can allow : Bool) (all rects : List Rectangle) (i : ℕ) (os : List Orientation)
    (best : BestScore)
    → ((k : ℕ) → get_elem? rects k ≡ get_elem? all (i + k))
    → All (IsTurn w h can allow) os
    → AllReal w h can allow all best
    → AllReal w h can allow all (best_from rects i os best)
unfolding best_from
best_from-AllReal w h can allow all [] i os best same t r = r
best_from-AllReal w h can allow all (r ∷ rects) i os best same t old =
    best_from-AllReal w h can allow all rects (i + 1) os (consider_all r i os best) shifted t
      (consider_all-AllReal w h can allow all r i at_i os best t old)
  where
    at_i : get_elem? all i ≡ some r
    at_i = subst (λ j. get_elem? all j ≡ some r) (omega arith) (sym (same 0))

    shifted : (k : ℕ) → get_elem? rects k ≡ get_elem? all (i + 1 + k)
    shifted k = subst (λ j. get_elem? rects k ≡ get_elem? all j) (omega arith) (same (suc k))

-- The best score is no more than this.
abbrev pub IsAtMost : ℕ → BestScore → Type 0
IsAtMost n none = 0 < 0
IsAtMost n (some (s, f)) = s ≤ n

-- Each orientation that fits in the rectangle has at least the best score.
abbrev pub BeatsAll : BestScore → List Orientation → Rectangle → Type 0
BeatsAll best os r = All (λ o. Fits r o → IsAtMost (short_side r o) best) os

module _ (r : Rectangle) (i : ℕ) where
  consider-IsAtMost :
      (n : ℕ) (o : Orientation) (best : BestScore)
      → IsAtMost n best
      → IsAtMost n (consider r i o best)
  unfolding consider
  consider-IsAtMost n o none a = absurd (omega arith)
  consider-IsAtMost n o (some (s, f)) a =
      elim (Bool-cases (leb o.width r.width && leb o.height r.height)) [
        | inr e ↦ rw (e, consider) a
        | inl e ↦ elim (Bool-cases (beats (short_side r o) (some (s, f)))) [
          | inr g ↦ rw (e, g, consider) a
          | inl g ↦ rw (e, g, consider) (ground arith)
        ]
      ]

  consider-Fits :
      (o : Orientation) (best : BestScore)
      → Fits r o
      → IsAtMost (short_side r o) (consider r i o best)
  unfolding consider
  consider-Fits o none f = ground (arith, f.0, f.1)
  consider-Fits o (some (s, g)) f =
      elim (Bool-cases (leb o.width r.width && leb o.height r.height)) [
        | inr e ↦ absurd (ground (arith, f.0, f.1))
        | inl e ↦ elim (Bool-cases (beats (short_side r o) (some (s, g)))) [
          | inr k ↦ rw (e, k, consider) (ground arith)
          | inl k ↦ rw (e, k, consider) (omega arith)
        ]
      ]

  consider_all-IsAtMost :
      (n : ℕ) (os : List Orientation) (best : BestScore)
      → IsAtMost n best
      → IsAtMost n (consider_all r i os best)
  unfolding consider_all
  consider_all-IsAtMost n [] best a = a
  consider_all-IsAtMost n (o ∷ os) best a =
      consider_all-IsAtMost n os (consider r i o best) (consider-IsAtMost n o best a)

  consider_all-BeatsAll :
      (os : List Orientation) (best : BestScore) → BeatsAll (consider_all r i os best) os r
  unfolding consider_all
  consider_all-BeatsAll [] best = tt
  consider_all-BeatsAll (o ∷ os) best = (
    (λ f. consider_all-IsAtMost (short_side r o) os (consider r i o best) (consider-Fits o best f)),
    consider_all-BeatsAll os (consider r i o best),
  )

best_from-IsAtMost :
    (n : ℕ) (rects : List Rectangle) (i : ℕ) (os : List Orientation) (best : BestScore)
    → IsAtMost n best
    → IsAtMost n (best_from rects i os best)
unfolding best_from
best_from-IsAtMost n [] i os best a = a
best_from-IsAtMost n (r ∷ rects) i os best a =
    best_from-IsAtMost n rects (i + 1) os (consider_all r i os best)
      (consider_all-IsAtMost r i n os best a)

best_from-BeatsAll :
    (rects : List Rectangle) (i : ℕ) (os : List Orientation) (best : BestScore)
    → All (BeatsAll (best_from rects i os best) os) rects
unfolding best_from
best_from-BeatsAll [] i os best = tt
best_from-BeatsAll (r ∷ rects) i os best = (
  All-map (λ o k f. best_from-IsAtMost _ rects (i + 1) os (consider_all r i os best) (k f)) os
      (consider_all-BeatsAll r i os best),
  best_from-BeatsAll rects (i + 1) os (consider_all r i os best),
)

-- The fit is one of the list, and no rectangle of the list has an orientation that leaves less on
-- its short side.
pub record IsLeast (w h : ℕ) (can allow : Bool) (rects : List Rectangle) (os : List Orientation)
    (f : GuillotineFit) : Type 0 where
  pub real : IsReal w h can allow rects f
  pub least :
      All (λ r. All (λ o. Fits r o → short_side real.rect (laid f) ≤ short_side r o) os) rects

fit_of-IsLeast :
    (w h : ℕ) (can allow : Bool) (rects : List Rectangle) (os : List Orientation) (best : BestScore)
    (f : GuillotineFit)
    → AllReal w h can allow rects best
    → All (BeatsAll best os) rects
    → fit_of best ≡ some f
    → IsLeast w h can allow rects os f
fit_of-IsLeast w h can allow rects os none f r b e = absurd (cc)
fit_of-IsLeast w h can allow rects os (some (s, g)) f r b e =
    subst (IsLeast w h can allow rects os) (some-injective _ _ e) (record {
      real = r.0;
      least = All-map (λ x a. All-map (λ o k fits. omega (arith, r.1, k fits)) os a) rects b;
    })

-- A fit that is returned is a free rectangle of the list that has room for the piece, laid as
-- given or, if the piece may be turned and turning is on, the other way round, and none of the
-- rectangles and of the ways of laying the piece that are allowed leaves less on the short side.
pub find_best_guillotine_fit_lem :
    (rects : List Rectangle) (w h : ℕ) (can allow : Bool) (f : GuillotineFit)
    → find_best_guillotine_fit rects w h can allow ≡ some f
    → IsLeast w h can allow rects (get_orientations w h can allow none false) f
unfolding find_best_guillotine_fit
find_best_guillotine_fit_lem rects w h can allow f =
    let os = get_orientations w h can allow none false in
    fit_of-IsLeast w h can allow rects os (best_from rects 0 os none) f
      (best_from-AllReal w h can allow rects rects 0 os none
        (λ k. ap (get_elem? rects) (omega arith)) (get_orientations-IsTurn w h can allow) tt)
      (best_from-BeatsAll rects 0 os none)

pub find_best_guillotine_fit-IsReal :
    (rects : List Rectangle) (w h : ℕ) (can allow : Bool) (f : GuillotineFit)
    → find_best_guillotine_fit rects w h can allow ≡ some f
    → IsReal w h can allow rects f
find_best_guillotine_fit-IsReal rects w h can allow f e =
    (find_best_guillotine_fit_lem rects w h can allow f e).real

fit_of-none :
    (rects : List Rectangle) (os : List Orientation) (best : BestScore)
    → All (BeatsAll best os) rects
    → fit_of best ≡ none
    → All (λ r. All (λ o. ¬ Fits r o) os) rects
fit_of-none rects os none b e =
    All-map (λ r a. All-map (λ o k fits. absurd (omega (arith, k fits))) os a) rects b
fit_of-none rects os (some (s, f)) b e = absurd (cc)

-- No fit is returned only if no allowed way of laying the piece fits in any of the rectangles.
pub find_best_guillotine_fit-none :
    (rects : List Rectangle) (w h : ℕ) (can allow : Bool)
    → find_best_guillotine_fit rects w h can allow ≡ none
    → All (λ r. All (λ o. ¬ Fits r o) (get_orientations w h can allow none false)) rects
unfolding find_best_guillotine_fit
find_best_guillotine_fit-none rects w h can allow =
    let os = get_orientations w h can allow none false in
    fit_of-none rects os (best_from rects 0 os none) (best_from-BeatsAll rects 0 os none)
