-- ===== src/Cutting1d/Offcuts.antt =====
-- The usable offcuts that cutting1d.ts reports, against those of bin-manager.ts.
use nestra.Prelude.{
  ℕ, ◌+◌, ◌≤◌, ◌<◌, ◌≡◌, refl, inl, inr, List, [], ◌∷◌, map, Option, none, some, arith, leb, true,
  Bool-cases,
}
use nestra.Prelude.Int.{ℤ, pos, negsuc}
use nestra.Pieces.{PieceInput1d}
use nestra.Stock.{StockInput1d, SortStrategy, desc, asc, new_stock_1d, sort_stock}
use nestra.Statistics.{calculate_bar_waste}
use nestra.Bars
use nestra.Bars.{Bar, Options1d, WasteSegment, calculate_usable_waste}
use nestra.Bars.Choice.{IsChooser, first_fit-IsChooser, best_fit-IsChooser}
use nestra.Fill1d.{Chooser}
use nestra.Optimize1d
use nestra.Optimize1d.{
  BarCuttingResult, packed, finish, build_result, Algorithm1d, ffd, bfd, branch_bound, other,
}
use nestra.Cutting1d.{
  Offcut, BarResult, bar_result, build_results, report, run, find_first_fit_bar, find_best_fit_bar,
  first_fit_decreasing, best_fit_decreasing, optimize_1d,
}
use nestra.Cutting1d.Agreement.{find_first_fit_bar-eq, find_best_fit_bar-eq}
use nestra.Cutting1d.Plans.{build_loop_lem, run-eq}

-- An integer below a natural number.
abbrev pub IsBelow : ℤ → ℕ → Type 0
IsBelow (pos n) m = n < m
IsBelow (negsuc n) m = Unit

-- What the offcut reported by cutting1d.ts and the one reported by bin-manager.ts have to do with
-- one another in a bar with that much waste, where `m` is the minimum.
abbrev pub Compares : ℕ → ℕ → Option Offcut → Option WasteSegment → Type 0
Compares m waste none none = waste < m
Compares m waste none (some v) = ⊥
Compares m waste (some w) none = (m ≤ waste) × IsBelow w.length m
Compares m waste (some w) (some v) =
    (w.position ≡ v.position) × (w.length ≡ pos v.length) × (m ≤ v.length)

-- The lists are equally long, and the relation holds at each place.
abbrev pub Pointwise {ℓ κ} : {A : Type ℓ} {B : Type κ} → (A → B → Type 0) → List A → List B → Type 0
Pointwise R [] [] = Unit
Pointwise R [] (y ∷ ys) = ⊥
Pointwise R (x ∷ xs) [] = ⊥
Pointwise R (x ∷ xs) (y ∷ ys) = R x y × Pointwise R xs ys

abbrev pub ComparesBars : ℕ → List BarResult → List BarCuttingResult → Type 0
ComparesBars m = Pointwise (λ l r. Compares m l.waste l.usable_waste r.usable_waste)

bars_compare :
    (o : Options1d) (bars : List Bar)
    → ComparesBars o.min_usable_waste
        (map (bar_result o.min_usable_waste o.kerf) bars)
        (map (Optimize1d.bar_result o) bars)
unfolding bar_result Optimize1d.bar_result calculate_usable_waste calculate_bar_waste
bars_compare o [] = tt
bars_compare o (b ∷ bars) =
    elim (Bool-cases (leb (o.min_usable_waste + o.kerf) b.remaining_length)) [
      | inl e ↦
          let f : leb o.min_usable_waste b.remaining_length ≡ true = ground arith in
          rw (e, f) ((refl, ground arith, ground arith), bars_compare o bars)
      | inr e ↦ elim (Bool-cases (leb o.min_usable_waste b.remaining_length)) [
        | inl f ↦ rw (e, f) ((ground arith, ground arith), bars_compare o bars)
        | inr f ↦ rw (e, f) (ground arith, bars_compare o bars)
      ]
    ]

run-ComparesBars :
    (ours theirs : Chooser)
    → ((bars : List Bar) (n kerf : ℕ) → ours bars n kerf ≡ theirs bars n kerf)
    → IsChooser theirs
    → (t : SortStrategy) (pieces : List PieceInput1d) (stock : List StockInput1d) (o : Options1d)
    → ComparesBars o.min_usable_waste
        (run ours (new_stock_1d stock t).sorted_stock pieces o).bars
        (finish theirs t pieces stock o).bars
unfolding report build_results finish build_result
run-ComparesBars ours theirs same lawful t pieces stock o =
    let bars = (packed theirs t pieces stock o).active_bars in
    rw
      (
        run-eq ours theirs same lawful t pieces stock o,
        build_loop_lem o.min_usable_waste o.kerf
            (record {
              results = [];
              total_waste = 0;
              total_stock_length = 0;
              total_used_length = 0;
            })
            bars,
      )
      (bars_compare o bars)

-- Whatever the algorithm and the input, the bars of the optimiser that the workers run and those of
-- the modular one correspond in order, and for the usable offcuts that the two report of a bar one
-- of three holds: both report the same one, and it is at least the minimum; both report none, and the
-- bar's waste is below the minimum; or the waste is at least the minimum, the workers' one reports an
-- offcut shorter than the minimum, and the modular one reports none.
pub optimize_1d_offcuts :
    (a : Algorithm1d) (pieces : List PieceInput1d) (stock : List StockInput1d) (o : Options1d)
    → ComparesBars o.min_usable_waste
        (optimize_1d a pieces stock o).bars
        (Optimize1d.optimize_1d a pieces stock o).bars
unfolding optimize_1d first_fit_decreasing best_fit_decreasing Optimize1d.optimize_1d
    Optimize1d.first_fit_decreasing Optimize1d.best_fit_decreasing new_stock_1d sort_stock
optimize_1d_offcuts ffd =
    run-ComparesBars find_first_fit_bar Bars.find_first_fit_bar find_first_fit_bar-eq
      first_fit-IsChooser desc
optimize_1d_offcuts bfd =
    run-ComparesBars find_best_fit_bar Bars.find_best_fit_bar find_best_fit_bar-eq
      best_fit-IsChooser asc
optimize_1d_offcuts branch_bound =
    run-ComparesBars find_best_fit_bar Bars.find_best_fit_bar find_best_fit_bar-eq
      best_fit-IsChooser asc
optimize_1d_offcuts other =
    run-ComparesBars find_first_fit_bar Bars.find_first_fit_bar find_first_fit_bar-eq
      first_fit-IsChooser desc
