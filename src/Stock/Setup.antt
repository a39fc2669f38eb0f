-- ===== src/Stock/Setup.antt =====
-- What the constructor of `Stock1DManager` sets up.
use text.Mathlib.Text.{◌==◌ as str_eq}
use text.Mathlib.TextEquality.{eq_iff}
use nestra.Prelude.{
  ℕ, ◌+◌, ◌≤◌, ◌<◌, ◌≡◌, refl, String, Bool, true, false, List, [], ◌∷◌, All, All-select, All-map,
  select-All, arith, ltb, leb, select, inl, inr, Bool-cases, sum_by-perm,
}
use nestra.Prelude.Sorting.{
  insert_by, sort_by, All-insert_by, All-sort_by, sort_by-All, sort_by-perm,
}
use nestra.Stock.{
  StockInput1d, SortStrategy, desc, asc, sort_stock, new_stock_1d, remaining_of, get_remaining,
}
use nestra.Stock.Budget.{supply, Absent, DistinctIds, init_usage_1d-le-supply, init_usage_1d_lem}

DistinctIds-insert_by :
    (before : StockInput1d → StockInput1d → Bool) (s : StockInput1d) (ss : List StockInput1d)
    → Absent s.id ss
    → DistinctIds ss
    → DistinctIds (insert_by before s ss)
unfolding insert_by
DistinctIds-insert_by before s [] a d = (tt, tt)
DistinctIds-insert_by before s (x ∷ ss) a d = elim (Bool-cases (before s x)) [
  | inl e ↦ rw (e, insert_by) (a, d)
  | inr e ↦
      rw (e, insert_by)
        (
          All-insert_by before (λ z. str_eq z.id x.id ≡ false) s ss
              (ground (arith, a.0, eq_iff x.id s.id, eq_iff s.id x.id)) d.0,
          DistinctIds-insert_by before s ss a.1 d.1,
        )
]

DistinctIds-sort_by :
    (before : StockInput1d → StockInput1d → Bool) (ss : List StockInput1d)
    → DistinctIds ss
    → DistinctIds (sort_by before ss)
unfolding sort_by
DistinctIds-sort_by before [] d = tt
DistinctIds-sort_by before (s ∷ ss) d =
    DistinctIds-insert_by before s (sort_by before ss)
      (All-sort_by before (λ z. str_eq z.id s.id ≡ false) ss d.0)
      (DistinctIds-sort_by before ss d.1)

DistinctIds-select :
    (p : StockInput1d → Bool) (ss : List StockInput1d) → DistinctIds ss → DistinctIds (select p ss)
DistinctIds-select p [] d = tt
DistinctIds-select p (s ∷ ss) d = elim (Bool-cases (p s)) [
  | inl e ↦ rw e (All-select (λ z. str_eq z.id s.id ≡ false) p ss d.0, DistinctIds-select p ss d.1)
  | inr e ↦ rw e (DistinctIds-select p ss d.1)
]

DistinctIds-sort_stock :
    (t : SortStrategy) (ss : List StockInput1d) → DistinctIds ss → DistinctIds (sort_stock t ss)
unfolding sort_stock
DistinctIds-sort_stock desc ss d = DistinctIds-sort_by _ ss d
DistinctIds-sort_stock asc ss d = DistinctIds-sort_by _ ss d

pub All-sort_stock {κ} :
    (P : StockInput1d → Type κ) (t : SortStrategy) (ss : List StockInput1d)
    → All P ss
    → All P (sort_stock t ss)
unfolding sort_stock
All-sort_stock P desc ss h = All-sort_by _ P ss h
All-sort_stock P asc ss h = All-sort_by _ P ss h

pub sort_stock-All {κ} :
    (P : StockInput1d → Type κ) (t : SortStrategy) (ss : List StockInput1d)
    → All P (sort_stock t ss)
    → All P ss
unfolding sort_stock
sort_stock-All P desc ss h = sort_by-All _ P ss h
sort_stock-All P asc ss h = sort_by-All _ P ss h

-- The items that a manager holds are those of the input that are available.
pub new_stock_1d-All {κ} :
    (P : StockInput1d → Type κ) (t : SortStrategy) (stock : List StockInput1d)
    → All P stock
    → All P (new_stock_1d stock t).sorted_stock
unfolding new_stock_1d
new_stock_1d-All P t stock h = All-sort_stock P t _ (All-select P (λ s. ltb 0 s.available) stock h)

pub All-of_new_stock_1d {κ} :
    (P : StockInput1d → Type κ) (t : SortStrategy) (stock : List StockInput1d)
    → All P (new_stock_1d stock t).sorted_stock
    → All (λ s. ltb 0 s.available ≡ true → P s) stock
unfolding new_stock_1d
All-of_new_stock_1d P t stock h =
    select-All P (λ s. ltb 0 s.available) stock (sort_stock-All P t _ h)

-- With distinct ids the manager starts with each item's available count.
pub new_stock_1d_lem :
    (t : SortStrategy) (stock : List StockInput1d)
    → DistinctIds stock
    → let m = new_stock_1d stock t in All (λ s. get_remaining m s.id ≡ s.available) m.sorted_stock
unfolding new_stock_1d get_remaining
new_stock_1d_lem t stock d =
    init_usage_1d_lem _ []
      (DistinctIds-sort_stock t _ (DistinctIds-select (λ s. ltb 0 s.available) stock d))

supply-select :
    (k : String) (p : StockInput1d → Bool) (ss : List StockInput1d)
    → supply k (select p ss) ≤ supply k ss
supply-select k p [] = omega arith
supply-select k p (s ∷ ss) = ground (arith, supply-select k p ss)

supply-sort_stock :
    (k : String) (t : SortStrategy) (ss : List StockInput1d)
    → supply k (sort_stock t ss) ≡ supply k ss
unfolding sort_stock
supply-sort_stock k desc ss = sum_by-perm _ (sort_by-perm _ ss)
supply-sort_stock k asc ss = sum_by-perm _ (sort_by-perm _ ss)

-- The manager never starts with more units of an id than the stock holds.
pub new_stock_1d-le-supply :
    (k : String) (t : SortStrategy) (stock : List StockInput1d)
    → get_remaining (new_stock_1d stock t) k ≤ supply k stock
unfolding new_stock_1d get_remaining
new_stock_1d-le-supply k t stock =
    let usable = select (λ s. ltb 0 s.available) stock in
    let empty : remaining_of [] k ≡ 0 =
      unfold remaining_of in (unfold nestra.Prelude.Dict.lookup in refl) in
    omega (
      arith,
      init_usage_1d-le-supply k (sort_stock t usable) [],
      supply-sort_stock k t usable,
      supply-select k (λ s. ltb 0 s.available) stock,
      empty,
    )
