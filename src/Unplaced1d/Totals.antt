-- ===== src/Unplaced1d/Totals.antt =====
-- The totals over the entries of the collector of 1d/unplaced-collector.ts.
use nestra.Prelude.{
  ℕ, ◌+◌, ◌*◌, ◌≡◌, refl, String, inl, inr, List, [], ◌∷◌, ◌++◌, arith, sum_by, All, Option-cases,
  ap,
}
use nestra.Prelude.Dict.{lookup, sum_by-insert_new, sum_by-insert_old, All-insert, All-lookup}
use nestra.Pieces.{Piece1d}
use nestra.Unplaced1d.{Entry, UnplacedCollector1d, add, get_all}

-- The calls of `add` that one run makes, in order.
pub add_all : UnplacedCollector1d → List Piece1d → UnplacedCollector1d
add_all u [] = u
add_all u (p ∷ ps) = add_all (add u p) ps

pub add_all-nil : {u : UnplacedCollector1d} → add_all u [] ≡ u
unfolding add_all
add_all-nil = refl

pub add_all-append :
    (u : UnplacedCollector1d) (ps : List Piece1d) (p : Piece1d)
    → add_all u (ps ++ p ∷ []) ≡ add (add_all u ps) p
unfolding add_all
add_all-append u [] p = refl
add_all-append u (q ∷ ps) p = add_all-append (add u q) ps p

-- An entry's piece has the key's id.
abbrev pub IsKeyed : UnplacedCollector1d → Type 0
IsKeyed = All (λ e. e.1.piece.id ≡ e.0)

pub add-IsKeyed : (u : UnplacedCollector1d) (p : Piece1d) → IsKeyed u → IsKeyed (add u p)
unfolding add
add-IsKeyed u p h = elim (Option-cases (lookup p.original_id u)) [
  | inl e ↦ rw (e, add) (All-insert (λ e. e.1.piece.id ≡ e.0) p.original_id _ u refl h)
  | inr (x, e) ↦
      rw (e, add)
        (All-insert (λ e. e.1.piece.id ≡ e.0) p.original_id _ u
          (All-lookup (λ e. e.1.piece.id ≡ e.0) p.original_id u h e) h)
]

pub add_all-IsKeyed :
    (u : UnplacedCollector1d) (ps : List Piece1d) → IsKeyed u → IsKeyed (add_all u ps)
unfolding add_all
add_all-IsKeyed u [] h = h
add_all-IsKeyed u (p ∷ ps) h = add_all-IsKeyed (add u p) ps (add-IsKeyed u p h)

-- Units, weighted by the id of their demand.
module _ (weight : String → ℕ) where
  abbrev pub entry_weight : String × Entry → ℕ
  entry_weight e = weight e.0 * e.1.count

  add_weight :
      (u : UnplacedCollector1d) (p : Piece1d)
      → sum_by entry_weight (add u p) ≡ sum_by entry_weight u + weight p.original_id
  unfolding add
  add_weight u p = elim (Option-cases (lookup p.original_id u)) [
    | inl e ↦ rw (e, add) (omega (arith, sum_by-insert_new entry_weight p.original_id _ u e))
    | inr (x, e) ↦
        rw (e, add)
          (omega (
            arith,
            sum_by-insert_old entry_weight p.original_id x (record x { count = x.count + 1 }) u e,
          ))
  ]

  pub add_all_weight :
      (u : UnplacedCollector1d) (ps : List Piece1d)
      → sum_by entry_weight (add_all u ps)
        ≡ sum_by entry_weight u + sum_by (λ p. weight p.original_id) ps
  unfolding add_all
  add_all_weight u [] = omega arith
  add_all_weight u (p ∷ ps) = omega (arith, add_all_weight (add u p) ps, add_weight u p)

  pub get_all_weight :
      (u : UnplacedCollector1d)
      → IsKeyed u
      → sum_by (λ q. weight q.id * q.quantity) (get_all u) ≡ sum_by entry_weight u
  unfolding get_all
  get_all_weight [] h = refl
  get_all_weight ((k, e) ∷ u) h =
      omega (arith, ap (λ i. weight i * e.count) h.0, get_all_weight u h.1)
