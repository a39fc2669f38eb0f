-- ===== src/Prelude/Dict.antt =====
-- JavaScript's `Map` with text keys as an association list in insertion order.
use text.Mathlib.Text.{◌==◌ as str_eq}
use text.Mathlib.TextEquality.{eq_iff}
use nestra.Prelude.{
  ℕ, ◌+◌, String, ◌≡◌, refl, subst, inl, inr, List, [], ◌∷◌, Option, none, some, some-injective,
  arith, if◌then◌else◌, All, sum_by, Bool-cases,
}

-- `map.get(k)`, with `none` for `undefined`.
unfoldable pub lookup {ℓ} : {V : Type ℓ} → String → List (String × V) → Option V
lookup k [] = none
lookup k ((j, v) ∷ m) = if str_eq j k then some v else lookup k m

-- `map.set(k, v)`: a new key goes to the end, a known one keeps its place.
unfoldable pub insert {ℓ} : {V : Type ℓ} → String → V → List (String × V) → List (String × V)
insert k v [] = (k, v) ∷ []
insert k v ((j, w) ∷ m) = if str_eq j k then (k, v) ∷ m else (j, w) ∷ insert k v m

-- How a total over the entries changes when an entry is added or replaced.
module _ {ℓ} {V : Type ℓ} (weight : String × V → ℕ) where
  pub sum_by-insert_new :
      (k : String) (v : V) (m : List (String × V))
      → lookup k m ≡ none
      → sum_by weight (insert k v m) ≡ sum_by weight m + weight (k, v)
  unfolding lookup insert
  sum_by-insert_new k v [] h = omega arith
  sum_by-insert_new k v ((j, w) ∷ m) h = elim (Bool-cases (str_eq j k)) [
    | inl e ↦ absurd (ground arith)
    | inr e ↦ rw (e, insert) (omega (arith, sum_by-insert_new k v m (rw (e, lookup) at h)))
  ]

  pub sum_by-insert_old :
      (k : String) (v w : V) (m : List (String × V))
      → lookup k m ≡ some v
      → sum_by weight (insert k w m) + weight (k, v) ≡ sum_by weight m + weight (k, w)
  unfolding lookup insert
  sum_by-insert_old k v w [] h = absurd (cc)
  sum_by-insert_old k v w ((j, x) ∷ m) h = elim (Bool-cases (str_eq j k)) [
    | inl e ↦
        let same : j ≡ k = (eq_iff j k).0 e in
        let value : x ≡ v = some-injective _ _ (rw (e, lookup) at h) in
        rw (e, insert, same, value) (omega arith)
    | inr e ↦ rw (e, insert) (omega (arith, sum_by-insert_old k v w m (rw (e, lookup) at h)))
  ]

module _ {ℓ κ} {V : Type ℓ} (P : String × V → Type κ) where
  pub All-insert :
      (k : String) (v : V) (m : List (String × V)) → P (k, v) → All P m → All P (insert k v m)
  unfolding insert
  All-insert k v [] p h = (p, tt)
  All-insert k v ((j, w) ∷ m) p h = elim (Bool-cases (str_eq j k)) [
    | inl e ↦ rw (e, insert) (p, h.1)
    | inr e ↦ rw (e, insert) (h.0, All-insert k v m p h.1)
  ]

  pub All-lookup :
      (k : String) (m : List (String × V)) {v : V} → All P m → lookup k m ≡ some v → P (k, v)
  unfolding lookup
  All-lookup k [] h e = absurd (cc)
  All-lookup k ((j, w) ∷ m) {v} h e = elim (Bool-cases (str_eq j k)) [
    | inl t ↦
        let same : j ≡ k = (eq_iff j k).0 t in
        let value : w ≡ v = some-injective _ _ (rw (t, lookup) at e) in
        subst (λ z. P (k, z)) value (subst (λ z. P (z, w)) same h.0)
    | inr t ↦ All-lookup k m h.1 (rw (t, lookup) at e)
  ]

-- Reading after writing.
pub lookup-insert {ℓ} :
    {V : Type ℓ} (k j : String) (v : V) (entries : List (String × V))
    → lookup j (insert k v entries) ≡ (if str_eq k j then some v else lookup j entries)
unfolding lookup insert
lookup-insert k j v [] = refl
lookup-insert k j v ((i, w) ∷ entries) =
    ground (arith, eq_iff k j, eq_iff i k, eq_iff i j, lookup-insert k j v entries)
