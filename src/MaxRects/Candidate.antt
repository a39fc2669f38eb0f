-- ===== src/MaxRects/Candidate.antt =====
-- The candidate that tryPlaceInSheet of 2d/maxrects-algorithm.ts lays, which is that of one heuristic
-- or the best of all.
use nestra.Prelude.{◌≡◌, inl, inr, List, [], ◌∷◌, Option, none, some, subst, Bool-cases}
use nestra.Geometry.{Rectangle, Orientation}
use nestra.Grained.{GrainedPiece}
use nestra.MaxRects.{
  MaxRectsSheet, MaxRectsHeuristic, MaxRectsOptions, PlacementCandidate, improves,
  heuristic_or_default, orientations_for, find_best_placement, better_of, over_heuristics,
  all_heuristics, find_best_placement_all_heuristics, candidate_for, is_best,
}
use nestra.MaxRects.Choice.{
  Scoring, ScoredBy, ScoredByAny, IsReal, AllReal, AllReal-weaken, find_best_placement-AllReal,
}

find_best_placement-Any :
    (sheet : MaxRectsSheet) (p : GrainedPiece) (o : MaxRectsOptions)
    → AllReal
        (ScoredByAny sheet)
        sheet.free_rects
        (orientations_for p o)
        (find_best_placement sheet p o)
find_best_placement-Any sheet p o =
    let h = heuristic_or_default o.heuristic in
    AllReal-weaken (ScoredBy h sheet) (ScoredByAny sheet) sheet.free_rects (orientations_for p o)
      (find_best_placement sheet p o) (λ _ _ _ e. (h, e)) (find_best_placement-AllReal sheet p o)

better_of-AllReal :
    (S : Scoring) (rects : List Rectangle) (os : List Orientation)
    (found overall : Option PlacementCandidate)
    → AllReal S rects os found
    → AllReal S rects os overall
    → AllReal S rects os (better_of found overall)
unfolding better_of
better_of-AllReal S rects os none overall h k = k
better_of-AllReal S rects os (some c) overall h k = elim (Bool-cases (improves c.score overall)) [
  | inl e ↦ rw (e, better_of) h
  | inr e ↦ rw (e, better_of) k
]

over_heuristics-AllReal :
    (sheet : MaxRectsSheet) (p : GrainedPiece) (o : MaxRectsOptions) (hs : List MaxRectsHeuristic)
    (overall : Option PlacementCandidate)
    → AllReal (ScoredByAny sheet) sheet.free_rects (orientations_for p o) overall
    → AllReal
        (ScoredByAny sheet)
        sheet.free_rects
        (orientations_for p o)
        (over_heuristics sheet p o hs overall)
unfolding over_heuristics
over_heuristics-AllReal sheet p o [] overall k = k
over_heuristics-AllReal sheet p o (h ∷ hs) overall k = over_heuristics-AllReal sheet p o hs _ (
    better_of-AllReal (ScoredByAny sheet) sheet.free_rects (orientations_for p o) _ overall
      (find_best_placement-Any sheet p (record o { heuristic = some h })) k)

candidate_for-AllReal :
    (sheet : MaxRectsSheet) (p : GrainedPiece) (o : MaxRectsOptions)
    → AllReal (ScoredByAny sheet) sheet.free_rects (orientations_for p o) (candidate_for sheet p o)
unfolding candidate_for find_best_placement_all_heuristics
candidate_for-AllReal sheet p o = elim (Bool-cases (is_best o.heuristic)) [
  | inl e ↦ rw (e, candidate_for) (over_heuristics-AllReal sheet p o all_heuristics none tt)
  | inr e ↦ rw (e, candidate_for) (find_best_placement-Any sheet p o)
]

pub candidate_for-IsReal :
    (sheet : MaxRectsSheet) (p : GrainedPiece) (o : MaxRectsOptions) (c : PlacementCandidate)
    → candidate_for sheet p o ≡ some c
    → IsReal (ScoredByAny sheet) sheet.free_rects (orientations_for p o) c
candidate_for-IsReal sheet p o c e =
    subst (AllReal (ScoredByAny sheet) sheet.free_rects (orientations_for p o)) e
      (candidate_for-AllReal sheet p o)
