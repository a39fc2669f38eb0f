-- ===== src/MaxRects/Choice.antt =====
-- findBestPlacement (2d/maxrects-algorithm.ts): which candidate it returns.
use nestra.Prelude.{
  ℕ, ◌+◌, ◌≤◌, ◌≡◌, refl, inl, inr, true, false, ◌&&◌, List, [], ◌∷◌, Option, none, some, All,
  All-map, All-Mem, Memᴰ, arith, leb, Bool-cases,
}
use nestra.Prelude.Int.{ℤ, lt_int}
use nestra.Geometry.{Rectangle, Orientation}
use nestra.Grained.{GrainedPiece}
use nestra.MaxRects.{
  MaxRectsSheet, MaxRectsHeuristic, MaxRectsOptions, PlacementCandidate, score_of, improves,
  heuristic_or_default, orientations_for, consider, consider_all, search_rects, find_best_placement,
}

abbrev pub Fits : Rectangle → Orientation → Type 0
Fits r o = (o.width ≤ r.width) × (o.height ≤ r.height)

-- What a score may be for a rectangle and a way of laying the piece.
abbrev pub Scoring : Type 1
Scoring = Rectangle → Orientation → ℤ → Type 0

-- The score is that of a heuristic.
abbrev pub ScoredBy : MaxRectsHeuristic → MaxRectsSheet → Scoring
ScoredBy h sheet r o score = score ≡ score_of h sheet r o

-- The score is that of one of the heuristics.
abbrev pub ScoredByAny : MaxRectsSheet → Scoring
ScoredByAny sheet r o score = (h : MaxRectsHeuristic) × ScoredBy h sheet r o score

-- The candidate lays the piece in the corner of a free rectangle that has room for it, and has the
-- score of this very place.
pub record IsReal (S : Scoring) (rects : List Rectangle) (os : List Orientation)
    (c : PlacementCandidate) : Type 0 where
  pub rect : Rectangle
  pub orient : Orientation
  pub of_rects : Memᴰ rect rects
  pub of_orients : Memᴰ orient os
  pub fits : Fits rect orient
  pub at_x : c.x ≡ rect.x
  pub at_y : c.y ≡ rect.y
  pub wide : c.width ≡ orient.width
  pub high : c.height ≡ orient.height
  pub turned : c.rotated ≡ orient.rotated
  pub scored : S rect orient c.score

abbrev pub AllReal :
    Scoring → List Rectangle → List Orientation → Option PlacementCandidate → Type 0
AllReal S rects os none = Unit
AllReal S rects os (some c) = IsReal S rects os c

pub AllReal-weaken :
    (S T : Scoring) (rects : List Rectangle) (os : List Orientation) (c : Option PlacementCandidate)
    → ((r : Rectangle) (o : Orientation) (score : ℤ) → S r o score → T r o score)
    → AllReal S rects os c
    → AllReal T rects os c
AllReal-weaken S T rects os none imp h = tt
AllReal-weaken S T rects os (some c) imp h = record {
  rect = h.rect;
  orient = h.orient;
  of_rects = h.of_rects;
  of_orients = h.of_orients;
  fits = h.fits;
  at_x = h.at_x;
  at_y = h.at_y;
  wide = h.wide;
  high = h.high;
  turned = h.turned;
  scored = imp h.rect h.orient c.score h.scored;
}

-- There is a candidate, and the score is not below its score.
abbrev pub NoBetter : ℤ → Option PlacementCandidate → Type 0
NoBetter s none = ⊥
NoBetter s (some c) = lt_int s c.score ≡ false

lt_int_trans : (a b c : ℤ) → lt_int a b ≡ false → lt_int c b ≡ true → lt_int a c ≡ false
unfolding lt_int
lt_int_trans a b c h k = ground arith

lt_int_irrefl : (a : ℤ) → lt_int a a ≡ false
unfolding lt_int
lt_int_irrefl a = ground arith

module _ (h : MaxRectsHeuristic) (sheet : MaxRectsSheet) where
  consider-AllReal :
      (rects : List Rectangle) (os : List Orientation) (rect : Rectangle) (i : ℕ) (o : Orientation)
      (found : Option PlacementCandidate)
      → Memᴰ rect rects
      → Memᴰ o os
      → AllReal (ScoredBy h sheet) rects os found
      → AllReal (ScoredBy h sheet) rects os (consider h sheet rect i o found)
  unfolding consider
  consider-AllReal rects os rect i o found m n k =
      elim (Bool-cases (leb o.width rect.width && leb o.height rect.height)) [
        | inr e ↦ rw (e, consider) k
        | inl e ↦ elim (Bool-cases (improves (score_of h sheet rect o) found)) [
          | inr f ↦ rw (e, f, consider) k
          | inl f ↦
              rw (e, f, consider)
                (record {
                  rect = rect;
                  orient = o;
                  of_rects = m;
                  of_orients = n;
                  fits = (ground arith, ground arith);
                  at_x = refl;
                  at_y = refl;
                  wide = refl;
                  high = refl;
                  turned = refl;
                  scored = refl;
                })
        ]
      ]

  consider-keeps :
      (s : ℤ) (rect : Rectangle) (i : ℕ) (o : Orientation) (found : Option PlacementCandidate)
      → NoBetter s found
      → NoBetter s (consider h sheet rect i o found)
  unfolding consider
  consider-keeps s rect i o none k = absurd k
  consider-keeps s rect i o (some c) k =
      elim (Bool-cases (leb o.width rect.width && leb o.height rect.height)) [
        | inr e ↦ rw (e, consider) k
        | inl e ↦ elim (Bool-cases (lt_int (score_of h sheet rect o) c.score)) [
          | inr f ↦ rw (e, f, consider) k
          | inl f ↦ rw (e, f, consider) (lt_int_trans s c.score (score_of h sheet rect o) k f)
        ]
      ]

  consider_new :
      (rect : Rectangle) (i : ℕ) (o : Orientation) (found : Option PlacementCandidate)
      → Fits rect o
      → NoBetter (score_of h sheet rect o) (consider h sheet rect i o found)
  unfolding consider
  consider_new rect i o none k =
      let e : (leb o.width rect.width && leb o.height rect.height) ≡ true = ground arith in
      rw (e, consider) (lt_int_irrefl (score_of h sheet rect o))
  consider_new rect i o (some c) k =
      let e : (leb o.width rect.width && leb o.height rect.height) ≡ true = ground arith in
      elim (Bool-cases (lt_int (score_of h sheet rect o) c.score)) [
        | inr f ↦ rw (e, f, consider) f
        | inl f ↦ rw (e, f, consider) (lt_int_irrefl (score_of h sheet rect o))
      ]

  consider_all-AllReal :
      (rects : List Rectangle) (all : List Orientation) (rect : Rectangle) (i : ℕ)
      (os : List Orientation) (found : Option PlacementCandidate)
      → Memᴰ rect rects
      → All (λ o. Memᴰ o all) os
      → AllReal (ScoredBy h sheet) rects all found
      → AllReal (ScoredBy h sheet) rects all (consider_all h sheet rect i os found)
  unfolding consider_all
  consider_all-AllReal rects all rect i [] found m n k = k
  consider_all-AllReal rects all rect i (o ∷ os) found m n k =
      consider_all-AllReal rects all rect i os (consider h sheet rect i o found) m n.1
        (consider-AllReal rects all rect i o found m n.0 k)

  consider_all-keeps :
      (s : ℤ) (rect : Rectangle) (i : ℕ) (os : List Orientation) (found : Option PlacementCandidate)
      → NoBetter s found
      → NoBetter s (consider_all h sheet rect i os found)
  unfolding consider_all
  consider_all-keeps s rect i [] found k = k
  consider_all-keeps s rect i (o ∷ os) found k =
      consider_all-keeps s rect i os (consider h sheet rect i o found)
        (consider-keeps s rect i o found k)

  consider_all_new :
      (rect : Rectangle) (i : ℕ) (os : List Orientation) (found : Option PlacementCandidate)
      → All
          (λ o.
            Fits rect o → NoBetter (score_of h sheet rect o) (consider_all h sheet rect i os found))
          os
  unfolding consider_all
  consider_all_new rect i [] found = tt
  consider_all_new rect i (o ∷ os) found = (
    (λ k.
        consider_all-keeps (score_of h sheet rect o) rect i os (consider h sheet rect i o found)
          (consider_new rect i o found k)),
    consider_all_new rect i os (consider h sheet rect i o found),
  )

  search_rects-AllReal :
      (all : List Rectangle) (os : List Orientation) (rects : List Rectangle) (i : ℕ)
      (found : Option PlacementCandidate)
      → All (λ r. Memᴰ r all) rects
      → AllReal (ScoredBy h sheet) all os found
      → AllReal (ScoredBy h sheet) all os (search_rects h sheet os rects i found)
  unfolding search_rects
  search_rects-AllReal all os [] i found m k = k
  search_rects-AllReal all os (r ∷ rects) i found m k =
      search_rects-AllReal all os rects (i + 1) (consider_all h sheet r i os found) m.1
        (consider_all-AllReal all os r i os found m.0 (All-Mem os) k)

  search_rects-keeps :
      (s : ℤ) (os : List Orientation) (rects : List Rectangle) (i : ℕ)
      (found : Option PlacementCandidate)
      → NoBetter s found
      → NoBetter s (search_rects h sheet os rects i found)
  unfolding search_rects
  search_rects-keeps s os [] i found k = k
  search_rects-keeps s os (r ∷ rects) i found k =
      search_rects-keeps s os rects (i + 1) (consider_all h sheet r i os found)
        (consider_all-keeps s r i os found k)

  search_rects_new :
      (os : List Orientation) (rects : List Rectangle) (i : ℕ) (found : Option PlacementCandidate)
      → All
          (λ r.
            All
              (λ o.
                Fits r o → NoBetter (score_of h sheet r o) (search_rects h sheet os rects i found))
              os)
          rects
  unfolding search_rects
  search_rects_new os [] i found = tt
  search_rects_new os (r ∷ rects) i found = (
    All-map
        (λ o k f.
          search_rects-keeps (score_of h sheet r o) os rects (i + 1)
            (consider_all h sheet r i os found) (k f))
        os (consider_all_new r i os found),
    search_rects_new os rects (i + 1) (consider_all h sheet r i os found),
  )

pub find_best_placement-AllReal :
    (sheet : MaxRectsSheet) (p : GrainedPiece) (o : MaxRectsOptions)
    → AllReal
        (ScoredBy (heuristic_or_default o.heuristic) sheet)
        sheet.free_rects
        (orientations_for p o)
        (find_best_placement sheet p o)
unfolding find_best_placement
find_best_placement-AllReal sheet p o =
    search_rects-AllReal (heuristic_or_default o.heuristic) sheet sheet.free_rects
      (orientations_for p o) sheet.free_rects 0 none (All-Mem sheet.free_rects) tt

-- The candidate that `findBestPlacement` returns lies in the corner of a free rectangle that has room
-- for the piece as it is laid, its score is the heuristic's score of this rectangle and way of laying
-- the piece, and no free rectangle and way of laying the piece that fit have a lower score; where it
-- returns none, no way of laying the piece fits in any of the rectangles.
pub find_best_placement_lem :
    (sheet : MaxRectsSheet) (p : GrainedPiece) (o : MaxRectsOptions)
    → AllReal
        (ScoredBy (heuristic_or_default o.heuristic) sheet)
        sheet.free_rects
        (orientations_for p o)
        (find_best_placement sheet p o)
      × All
          (λ r.
            All
              (λ t.
                Fits r t
                → NoBetter
                    (score_of (heuristic_or_default o.heuristic) sheet r t)
                    (find_best_placement sheet p o))
              (orientations_for p o))
          sheet.free_rects
unfolding find_best_placement
find_best_placement_lem sheet p o = (
  find_best_placement-AllReal sheet p o,
  search_rects_new (heuristic_or_default o.heuristic) sheet (orientations_for p o) sheet.free_rects
      0 none,
)
