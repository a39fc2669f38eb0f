-- ===== src/Prelude/Sorting.antt =====
-- JavaScript's stable `Array.prototype.sort`, by the test "`a` may stand before `b`", that is, the
-- comparator's value at `(a, b)` is at most 0.
use mathlib.Core.List.{Perm}
use mathlib.Core.List.Perm
use nestra.Prelude.{
  ◌≡◌, List, [], ◌∷◌, Bool, true, false, All, All-map, Bool-cases, inl, inr, if◌then◌else◌,
}

module _ {ℓ} {A : Type ℓ} (before : A → A → Bool) where
  unfoldable pub insert_by : A → List A → List A
  insert_by x [] = x ∷ []
  insert_by x (y ∷ ys) = if before x y then x ∷ y ∷ ys else y ∷ insert_by x ys

  unfoldable pub sort_by : List A → List A
  unfolding insert_by
  sort_by [] = []
  sort_by (x ∷ xs) = insert_by x (sort_by xs)

  insert_by-perm : (x : A) (ys : List A) → Perm (insert_by x ys) (x ∷ ys)
  unfolding insert_by
  insert_by-perm x [] = Perm.rfl
  insert_by-perm x (y ∷ ys) = elim (Bool-cases (before x y)) [
    | inl e ↦ rw (e, insert_by) Perm.rfl
    | inr e ↦ rw (e, insert_by) (Perm.trans (Perm.cons y (insert_by-perm x ys)) (Perm.swap x y ys))
  ]

  pub sort_by-perm : (xs : List A) → Perm (sort_by xs) xs
  unfolding sort_by
  sort_by-perm [] = Perm.rfl
  sort_by-perm (x ∷ xs) = Perm.trans (insert_by-perm x (sort_by xs)) (Perm.cons x (sort_by-perm xs))

  -- Each element may stand before all that follow it.
  abbrev pub IsSorted : List A → Type ℓ
  IsSorted [] = Unit
  IsSorted (x ∷ xs) = All (λ y. before x y ≡ true) xs × IsSorted xs

  module _ {κ} (P : A → Type κ) where
    pub All-insert_by : (x : A) (ys : List A) → P x → All P ys → All P (insert_by x ys)
    unfolding insert_by
    All-insert_by x [] p h = (p, tt)
    All-insert_by x (y ∷ ys) p h = elim (Bool-cases (before x y)) [
      | inl e ↦ rw (e, insert_by) (p, h)
      | inr e ↦ rw (e, insert_by) (h.0, All-insert_by x ys p h.1)
    ]

    pub All-sort_by : (xs : List A) → All P xs → All P (sort_by xs)
    unfolding sort_by
    All-sort_by [] h = tt
    All-sort_by (x ∷ xs) h = All-insert_by x (sort_by xs) h.0 (All-sort_by xs h.1)

  -- For a total and transitive order the result is sorted.
  module _ (trans : (a b c : A) → before a b ≡ true → before b c ≡ true → before a c ≡ true)
      (total : (a b : A) → before a b ≡ false → before b a ≡ true) where
    insert_by-IsSorted : (x : A) (ys : List A) → IsSorted ys → IsSorted (insert_by x ys)
    unfolding insert_by
    insert_by-IsSorted x [] s = (tt, tt)
    insert_by-IsSorted x (y ∷ ys) s = elim (Bool-cases (before x y)) [
      | inl e ↦ rw (e, insert_by) ((e, All-map (λ z h. trans x y z e h) ys s.0), s)
      | inr e ↦
          rw (e, insert_by)
            (
              All-insert_by (λ z. before y z ≡ true) x ys (total x y e) s.0,
              insert_by-IsSorted x ys s.1,
            )
    ]

    pub sort_by-IsSorted : (xs : List A) → IsSorted (sort_by xs)
    unfolding sort_by
    sort_by-IsSorted [] = tt
    sort_by-IsSorted (x ∷ xs) = insert_by-IsSorted x (sort_by xs) (sort_by-IsSorted xs)

-- What holds of a sorted list's elements holds of the list's.
module _ {ℓ κ} {A : Type ℓ} (before : A → A → Bool) (P : A → Type κ) where
  insert_by-All : (x : A) (ys : List A) → All P (insert_by before x ys) → P x × All P ys
  unfolding insert_by
  insert_by-All x [] h = h
  insert_by-All x (y ∷ ys) h = elim (Bool-cases (before x y)) [
    | inl e ↦ rw (e, insert_by) at h
    | inr e ↦
        let h' : P y × All P (insert_by before x ys) = rw (e, insert_by) at h in
        let (p, rest) = insert_by-All x ys h'.1 in (p, (h'.0, rest))
  ]

  pub sort_by-All : (xs : List A) → All P (sort_by before xs) → All P xs
  unfolding sort_by
  sort_by-All [] h = tt
  sort_by-All (x ∷ xs) h =
      let (p, rest) = insert_by-All x (sort_by before xs) h in (p, sort_by-All xs rest)
