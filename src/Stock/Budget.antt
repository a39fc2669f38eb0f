-- ===== src/Stock/Budget.antt =====
-- findAvailableStock, consumeStock and getRemaining of core/stock-manager.ts: lemmas on the
-- counts.
use text.Mathlib.Text.{◌==◌ as str_eq}
use text.Mathlib.TextEquality.{eq_iff}
use nestra.Prelude.{
  ℕ, ◌+◌, ◌-◌, ◌≤◌, ◌<◌, String, ◌≡◌, refl, inl, inr, false, ◌&&◌, List, [], ◌∷◌, none, some,
  some-injective, arith, subst, ltb, leb, All, Bool-cases, sum_by, if◌then◌else◌,
}
use nestra.Prelude.Dict.{insert, lookup-insert}
use nestra.Stock.{StockInput1d, Usage, remaining_of, find_in, decrement, init_usage_1d}

pub remaining_of-insert :
    (u : Usage) (id k : String) (r : ℕ)
    → remaining_of (insert id r u) k ≡ (if str_eq id k then r else remaining_of u k)
unfolding remaining_of
remaining_of-insert u id k r = ground (arith, lookup-insert id k r u)

-- `consumeStock` takes one unit of the given id and leaves the others.
pub remaining_of-decrement :
    (u : Usage) (id k : String)
    → remaining_of (decrement u id) k
      ≡ (if str_eq id k then remaining_of u id - 1 else remaining_of u k)
unfolding decrement remaining_of
remaining_of-decrement u id k =
    ground (arith, lookup-insert id k (remaining_of u id - 1) u, eq_iff id k)

-- A stock item that is found is left and long enough.
pub find_in_lem :
    (u : Usage) (n : ℕ) (ss : List StockInput1d) {s : StockInput1d}
    → find_in u n ss ≡ some s
    → (0 < remaining_of u s.id) × (n ≤ s.length)
unfolding find_in
find_in_lem u n [] h = absurd (cc)
find_in_lem u n (x ∷ ss) {s} h = ground (arith, find_in_lem u n ss {s = s})

pub find_in-All {κ} :
    (P : StockInput1d → Type κ) (u : Usage) (n : ℕ) (ss : List StockInput1d) {s : StockInput1d}
    → All P ss
    → find_in u n ss ≡ some s
    → P s
unfolding find_in
find_in-All P u n [] h e = absurd (cc)
find_in-All P u n (x ∷ ss) h e = elim (Bool-cases (ltb 0 (remaining_of u x.id) && leb n x.length)) [
  | inl t ↦ subst P (some-injective _ _ (rw (t, find_in) at e)) h.0
  | inr t ↦ find_in-All P u n ss h.1 (rw (t, find_in) at e)
]

-- Nothing is found only if every item that is left is too short.
pub find_in-none :
    (u : Usage) (n : ℕ) (ss : List StockInput1d)
    → find_in u n ss ≡ none
    → All (λ s. 0 < remaining_of u s.id → s.length < n) ss
unfolding find_in
find_in-none u n [] h = tt
find_in-none u n (x ∷ ss) h = elim (Bool-cases (ltb 0 (remaining_of u x.id) && leb n x.length)) [
  | inl t ↦ absurd (ground arith)
  | inr t ↦ ((λ r. ground arith), find_in-none u n ss (rw (t, find_in) at h))
]

-- The units of an id that a list of stock holds.
abbrev pub supply : String → List StockInput1d → ℕ
supply k = sum_by (λ s. if str_eq s.id k then s.available else 0)

-- The constructor's map counts no more units of an id than the stock list holds.
pub init_usage_1d-le-supply :
    (k : String) (ss : List StockInput1d) (u : Usage)
    → remaining_of (init_usage_1d ss u) k ≤ remaining_of u k + supply k ss
unfolding init_usage_1d
init_usage_1d-le-supply k [] u = omega arith
init_usage_1d-le-supply k (s ∷ ss) u = ground (
  arith,
  init_usage_1d-le-supply k ss (insert s.id s.available u),
  remaining_of-insert u s.id k s.available,
)

abbrev pub Absent : String → List StockInput1d → Type 0
Absent k = All (λ s. str_eq s.id k ≡ false)

abbrev pub DistinctIds : List StockInput1d → Type 0
DistinctIds [] = Unit
DistinctIds (s ∷ ss) = Absent s.id ss × DistinctIds ss

init_usage_1d-Absent :
    (k : String) (ss : List StockInput1d) (u : Usage)
    → Absent k ss
    → remaining_of (init_usage_1d ss u) k ≡ remaining_of u k
unfolding init_usage_1d
init_usage_1d-Absent k [] u h = refl
init_usage_1d-Absent k (s ∷ ss) u h = ground (
  arith,
  init_usage_1d-Absent k ss (insert s.id s.available u) h.1,
  remaining_of-insert u s.id k s.available,
  h.0,
)

-- With distinct ids the map holds each item's own count.
pub init_usage_1d_lem :
    (ss : List StockInput1d) (u : Usage)
    → DistinctIds ss
    → All (λ s. remaining_of (init_usage_1d ss u) s.id ≡ s.available) ss
unfolding init_usage_1d
init_usage_1d_lem [] u h = tt
init_usage_1d_lem (s ∷ ss) u h = (
  ground (
    arith,
    init_usage_1d-Absent s.id ss (insert s.id s.available u) h.0,
    remaining_of-insert u s.id s.id s.available,
    eq_iff s.id s.id,
  ),
  init_usage_1d_lem ss (insert s.id s.available u) h.1,
)
