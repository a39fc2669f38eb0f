-- ===== src/Prelude/Lists.antt =====
-- Lists measured and indexed by native numbers; predicates over all elements; sums.
use Prim.Native.Nat.{ℕ, zero, suc, ◌+◌}
use mathlib.Core.Path.{◌≡◌, refl, sym, subst, ap, ◌∙◌}
use mathlib.Core.List.{List, [], ◌∷◌, ◌++◌, map, Memᴰ, Perm, Permᴰ}
use mathlib.Core.Bool.{Bool, true}
use mathlib.Core.Option.{Option, none, some, some-injective}
use native.Mathlib.Omega.{arith}
use native.Mathlib.Nat.{ℕ_set}
use mathlib.Core.Logic.{inl, inr, ∥∥₁_elim}
use nestra.Prelude.Tests.{if◌then◌else◌, Bool-cases}

-- A predicate of every element.
abbrev pub All {ℓ κ} : {A : Type ℓ} → (A → Type κ) → List A → Type κ
All P [] = Unit
All P (x ∷ xs) = P x × All P xs

module _ {ℓ} {A : Type ℓ} where
  abbrev pub length : List A → ℕ
  length [] = 0
  length (x ∷ xs) = suc (length xs)

  abbrev pub get_elem? : List A → ℕ → Option A
  get_elem? [] i = none
  get_elem? (x ∷ xs) zero = some x
  get_elem? (x ∷ xs) (suc i) = get_elem? xs i

  -- A write through a reference to the element at an index.
  abbrev pub modify : (A → A) → List A → ℕ → List A
  modify f [] i = []
  modify f (x ∷ xs) zero = f x ∷ xs
  modify f (x ∷ xs) (suc i) = x ∷ modify f xs i

  -- The total weight of a list: the source's `reduce((sum, x) => sum + w(x), 0)`.
  abbrev pub sum_by : (A → ℕ) → List A → ℕ
  sum_by w [] = 0
  sum_by w (x ∷ xs) = w x + sum_by w xs

  abbrev pub select : (A → Bool) → List A → List A
  select p [] = []
  select p (x ∷ xs) = if p x then x ∷ select p xs else select p xs

  pub length-append : (xs ys : List A) → length (xs ++ ys) ≡ length xs + length ys
  length-append [] ys = omega arith
  length-append (x ∷ xs) ys = omega (arith, length-append xs ys)

  pub sum_by-append : (w : A → ℕ) (xs ys : List A) → sum_by w (xs ++ ys) ≡ sum_by w xs + sum_by w ys
  sum_by-append w [] ys = omega arith
  sum_by-append w (x ∷ xs) ys = omega (arith, sum_by-append w xs ys)

module _ {ℓ κ} {A : Type ℓ} (P : A → Type κ) where
  pub All-append : (xs ys : List A) → All P xs → All P ys → All P (xs ++ ys)
  All-append [] ys hx hy = hy
  All-append (x ∷ xs) ys hx hy = (hx.0, All-append xs ys hx.1 hy)

  pub All-append_left : (xs ys : List A) → All P (xs ++ ys) → All P xs
  All-append_left [] ys h = tt
  All-append_left (x ∷ xs) ys h = (h.0, All-append_left xs ys h.1)

  pub All-append_right : (xs ys : List A) → All P (xs ++ ys) → All P ys
  All-append_right [] ys h = h
  All-append_right (x ∷ xs) ys h = All-append_right xs ys h.1

  pub All-get : (xs : List A) (i : ℕ) {x : A} → All P xs → get_elem? xs i ≡ some x → P x
  All-get [] i h e = cc
  All-get (x ∷ xs) zero h e = subst P (some-injective _ _ e) h.0
  All-get (x ∷ xs) (suc i) h e = All-get xs i h.1 e

  pub All-modify :
      (f : A → A) (xs : List A) (i : ℕ) (x : A)
      → get_elem? xs i ≡ some x
      → P (f x)
      → All P xs
      → All P (modify f xs i)
  All-modify f [] i x e p h = tt
  All-modify f (x ∷ xs) zero y e p h = (subst (λ z. P (f z)) (sym (some-injective _ _ e)) p, h.1)
  All-modify f (x ∷ xs) (suc i) y e p h = (h.0, All-modify f xs i y e p h.1)

module _ {ℓ κ μ} {A : Type ℓ} {P : A → Type κ} {Q : A → Type μ} where
  pub All-map : (imp : (x : A) → P x → Q x) (xs : List A) → All P xs → All Q xs
  All-map imp [] h = tt
  All-map imp (x ∷ xs) h = (imp x h.0, All-map imp xs h.1)

module _ {ℓ κ} {A : Type ℓ} (P : A → Type κ) where
  pub All-select : (p : A → Bool) (xs : List A) → All P xs → All P (select p xs)
  All-select p [] h = tt
  All-select p (x ∷ xs) h = elim (Bool-cases (p x)) [
    | inl e ↦ rw e (h.0, All-select p xs h.1)
    | inr e ↦ rw e (All-select p xs h.1)
  ]

-- Every element of a list is one of its members.
pub All-Mem {ℓ} : {A : Type ℓ} (xs : List A) → All (λ x. Memᴰ x xs) xs
All-Mem [] = tt
All-Mem (x ∷ xs) = (Memᴰ.head refl, All-map (λ y m. Memᴰ.tail m) xs (All-Mem xs))

pub All-of_Mem {ℓ κ} :
    {A : Type ℓ} (P : A → Type κ) (xs : List A) {x : A} → All P xs → Memᴰ x xs → P x
All-of_Mem P [] h m = elim m [ ]
All-of_Mem P (x ∷ xs) h (Memᴰ.head e) = subst P (sym e) h.0
All-of_Mem P (x ∷ xs) h (Memᴰ.tail m) = All-of_Mem P xs h.1 m

pub select-All {ℓ κ} :
    {A : Type ℓ} (P : A → Type κ) (p : A → Bool) (xs : List A)
    → All P (select p xs)
    → All (λ x. p x ≡ true → P x) xs
select-All P p [] h = tt
select-All P p (x ∷ xs) h = elim (Bool-cases (p x)) [
  | inl e ↦ let h' : P x × All P (select p xs) = rw e at h in ((λ _. h'.0), select-All P p xs h'.1)
  | inr e ↦ ((λ t. absurd (ground arith)), select-All P p xs (rw e at h))
]

-- Rearranged lists have the same totals.
pub sum_by-perm {ℓ} :
    {A : Type ℓ} (w : A → ℕ) {xs ys : List A} → Perm xs ys → sum_by w xs ≡ sum_by w ys
sum_by-perm {A} w p = ∥∥₁_elim p (ℕ_set _ _) go
  where
    go : {xs ys : List A} → Permᴰ xs ys → sum_by w xs ≡ sum_by w ys
    go Permᴰ.nil = refl
    go (Permᴰ.cons e q) = omega (arith, ap w e, go q)
    go (Permᴰ.swap e f) = omega (arith, ap w e, ap w f)
    go (Permᴰ.trans q r) = go q ∙ go r

module _ {ℓ κ μ ν} {A : Type ℓ} {P : A → Type κ} {Q : A → Type μ} {R : A → Type ν} where
  pub All-zip : (both : (x : A) → P x → Q x → R x) (xs : List A) → All P xs → All Q xs → All R xs
  All-zip both [] h k = tt
  All-zip both (x ∷ xs) h k = (both x h.0 k.0, All-zip both xs h.1 k.1)

pub sum_by-map {ℓ κ} :
    {A : Type ℓ} {B : Type κ} (w : B → ℕ) (f : A → B) (xs : List A)
    → sum_by w (map f xs) ≡ sum_by (λ x. w (f x)) xs
sum_by-map w f [] = refl
sum_by-map w f (x ∷ xs) = ap (◌+◌ (w (f x))) (sum_by-map w f xs)

pub length-eq-sum_by {ℓ} : {A : Type ℓ} (xs : List A) → length xs ≡ sum_by (λ _. 1) xs
length-eq-sum_by [] = refl
length-eq-sum_by (x ∷ xs) = omega (arith, length-eq-sum_by xs)

pub All-of_map {ℓ κ μ} :
    {A : Type ℓ} {B : Type κ} (P : B → Type μ) (f : A → B) (xs : List A)
    → All (λ x. P (f x)) xs
    → All P (map f xs)
All-of_map P f [] h = tt
All-of_map P f (x ∷ xs) h = (h.0, All-of_map P f xs h.1)

abbrev pub Anything {ℓ} : {A : Type ℓ} → A → Type 0
Anything x = Unit

pub All-any {ℓ} : {A : Type ℓ} (xs : List A) → All Anything xs
All-any [] = tt
All-any (x ∷ xs) = (tt, All-any xs)

-- A write to one element changes a total by what it changes there.
pub sum_by-modify {ℓ} :
    {A : Type ℓ} (w : A → ℕ) (f : A → A) (xs : List A) (i : ℕ) (x : A)
    → get_elem? xs i ≡ some x
    → sum_by w (modify f xs i) + w x ≡ sum_by w xs + w (f x)
sum_by-modify w f [] i x e = absurd (cc)
sum_by-modify w f (y ∷ xs) zero x e = rw (some-injective _ _ e) (omega arith)
sum_by-modify w f (y ∷ xs) (suc i) x e = omega (arith, sum_by-modify w f xs i x e)

pub sum_by-zero {ℓ} : {A : Type ℓ} (xs : List A) → sum_by (λ _. 0) xs ≡ 0
sum_by-zero [] = refl
sum_by-zero (x ∷ xs) = omega (arith, sum_by-zero xs)
