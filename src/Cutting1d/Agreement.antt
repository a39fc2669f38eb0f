-- ===== src/Cutting1d/Agreement.antt =====
-- The packing loop of 1d/cutting1d.ts next to that of the modular 1D optimiser
-- (1d/ffd-algorithm.ts and 1d/bfd-algorithm.ts): lemmas on how their states correspond.

use nestra.Prelude.{
  ℕ, zero, suc, ◌+◌, ◌<◌, ◌≡◌, refl, ap, subst, ◌∙◌, String, List, [], ◌∷◌, none, arith, inl, inr,
  Option-cases,
}
use nestra.Prelude.Dict.{lookup, insert}
use nestra.Pieces.{PieceInput1d, Piece1d, units_1d, expand_1d_pieces}
use nestra.Stock.{
  StockInput1d, Usage, remaining_of, find_in, find_available_stock_1d, decrement, consume_stock_1d,
  init_usage_1d,
}
use nestra.Stock.Budget.{find_in_lem}
use nestra.Bars.{Bar, Cut, Options1d, Best, first_fit_from, best_fit_from, place_piece_in_bar}
use nestra.Bars
use nestra.Unplaced1d.{UnplacedCollector1d, add, get_all}
use nestra.Unplaced1d.Totals.{IsKeyed, add-IsKeyed}
use nestra.Fill1d.{Filling, Chooser, open_new_bar, place_1d, fill_1d}
use nestra.Cutting1d.{
  Progress, expand_units, expand_pieces, find_fit_from, find_best_from, find_first_fit_bar,
  find_best_fit_bar, place_piece, find_available_stock, take_unit, create_active_bar,
  add_unplaced_piece, open_bar, round, rounds, fill_usage,
}

expand_units-eq : (p : PieceInput1d) (i n : ℕ) → expand_units p i n ≡ units_1d p i n
unfolding expand_units units_1d
expand_units-eq p i zero = refl
expand_units-eq p i (suc n) = rw (expand_units-eq p (i + 1) n)

pub expand_pieces-eq : (ps : List PieceInput1d) → expand_pieces ps ≡ expand_1d_pieces ps
unfolding expand_pieces expand_1d_pieces
expand_pieces-eq [] = refl
expand_pieces-eq (p ∷ ps) = rw (expand_units-eq p 0 p.quantity, expand_pieces-eq ps)

find_fit_from-eq :
    (bars : List Bar) (n kerf i : ℕ) → find_fit_from bars n kerf i ≡ first_fit_from bars n kerf i
unfolding find_fit_from first_fit_from
find_fit_from-eq [] n kerf i = refl
find_fit_from-eq (b ∷ bars) n kerf i = rw (find_fit_from-eq bars n kerf (i + 1))

pub find_first_fit_bar-eq :
    (bars : List Bar) (n kerf : ℕ)
    → find_first_fit_bar bars n kerf ≡ Bars.find_first_fit_bar bars n kerf
unfolding find_first_fit_bar Bars.find_first_fit_bar
find_first_fit_bar-eq bars n kerf = find_fit_from-eq bars n kerf 0

find_best_from-eq :
    (bars : List Bar) (n kerf i : ℕ) (best : Best)
    → find_best_from bars n kerf i best ≡ best_fit_from bars n kerf i best
unfolding find_best_from best_fit_from
find_best_from-eq [] n kerf i best = refl
find_best_from-eq (b ∷ bars) n kerf i best = find_best_from-eq bars n kerf (i + 1) _

pub find_best_fit_bar-eq :
    (bars : List Bar) (n kerf : ℕ)
    → find_best_fit_bar bars n kerf ≡ Bars.find_best_fit_bar bars n kerf
unfolding find_best_fit_bar Bars.find_best_fit_bar
find_best_fit_bar-eq bars n kerf = rw (find_best_from-eq bars n kerf 0 none)

find_available_stock-eq :
    (u : Usage) (n : ℕ) (ss : List StockInput1d) → find_available_stock ss u n ≡ find_in u n ss
unfolding find_available_stock find_in remaining_of
find_available_stock-eq u n [] = refl
find_available_stock-eq u n (s ∷ ss) = ground (arith, find_available_stock-eq u n ss)

take_unit-eq : (u : Usage) (id : String) → 0 < remaining_of u id → take_unit u id ≡ decrement u id
unfolding take_unit decrement remaining_of
take_unit-eq u id h = ground arith

pub fill_usage-eq : (ss : List StockInput1d) (u : Usage) → fill_usage ss u ≡ init_usage_1d ss u
unfolding fill_usage init_usage_1d
fill_usage-eq [] u = refl
fill_usage-eq (s ∷ ss) u = fill_usage-eq ss (insert s.id s.available u)

-- Grouping as one goes gives the list that the collector gives at the end.
add_unplaced_piece-get_all :
    (u : UnplacedCollector1d) (p : Piece1d)
    → IsKeyed u
    → add_unplaced_piece (get_all u) p ≡ get_all (add u p)
unfolding add_unplaced_piece get_all add lookup insert
add_unplaced_piece-get_all [] p h = refl
add_unplaced_piece-get_all ((k, e) ∷ u) p h =
    ground (arith, h.0, add_unplaced_piece-get_all u p h.1)

-- The state of one optimiser as the state of the other.
abbrev pub progress_of : Filling → Progress
progress_of f = record {
  active_bars = f.active_bars;
  stock_usage = f.stock_manager.usage;
  unplaced_pieces = get_all f.unplaced;
}

open_bar-eq :
    (f : Filling) (p : Piece1d)
    → IsKeyed f.unplaced
    → open_bar f.stock_manager.sorted_stock (progress_of f) p ≡ progress_of (open_new_bar f p)
unfolding open_bar open_new_bar find_available_stock_1d create_active_bar Bars.create_active_bar
    consume_stock_1d
open_bar-eq f p h =
    let m = f.stock_manager in
    elim (Option-cases (find_in m.usage p.length m.sorted_stock)) [
      | inl e ↦ ground (
        arith,
        e,
        find_available_stock-eq m.usage p.length m.sorted_stock,
        add_unplaced_piece-get_all f.unplaced p h,
      )
      | inr (s, e) ↦ ground (
        arith,
        e,
        find_available_stock-eq m.usage p.length m.sorted_stock,
        take_unit-eq m.usage s.id (find_in_lem m.usage p.length m.sorted_stock e).0,
      )
    ]

module _ (ours : Chooser) (theirs : Chooser)
    (same : (bars : List Bar) (n kerf : ℕ) → ours bars n kerf ≡ theirs bars n kerf) (kerf : ℕ) where
  round-eq :
      (f : Filling) (p : Piece1d)
      → IsKeyed f.unplaced
      → round ours kerf f.stock_manager.sorted_stock (progress_of f) p
        ≡ progress_of (place_1d theirs kerf f p)
  unfolding round place_1d place_piece place_piece_in_bar Bars.calculate_required_length
  round-eq f p h = elim (Option-cases (theirs f.active_bars p.length kerf)) [
    | inl e ↦ ground (arith, e, same f.active_bars p.length kerf, open_bar-eq f p h)
    | inr (i, e) ↦ ground (arith, e, same f.active_bars p.length kerf)
  ]

  place_1d-keeps :
      (f : Filling) (p : Piece1d)
      → IsKeyed f.unplaced
      → IsKeyed (place_1d theirs kerf f p).unplaced
        × ((place_1d theirs kerf f p).stock_manager.sorted_stock ≡ f.stock_manager.sorted_stock)
  unfolding place_1d open_new_bar consume_stock_1d
  place_1d-keeps f p h = elim (Option-cases (theirs f.active_bars p.length kerf)) [
    | inr (i, e) ↦ rw (e, place_1d) (h, refl)
    | inl e ↦ elim (Option-cases (find_available_stock_1d f.stock_manager p.length)) [
      | inl t ↦ rw (e, place_1d, t, open_new_bar) (add-IsKeyed f.unplaced p h, refl)
      | inr (s, t) ↦ rw (e, place_1d, t, open_new_bar) (h, refl)
    ]
  ]

  -- The whole loop: `sorted` is the stock list, which no round changes.
  pub rounds-eq :
      (sorted : List StockInput1d) (f : Filling) (ps : List Piece1d)
      → f.stock_manager.sorted_stock ≡ sorted
      → IsKeyed f.unplaced
      → rounds ours kerf sorted (progress_of f) ps ≡ progress_of (fill_1d theirs kerf f ps)
  unfolding rounds fill_1d
  rounds-eq sorted f [] e h = refl
  rounds-eq sorted f (p ∷ ps) e h =
      let (keyed, fixed) = place_1d-keeps f p h in
      ap (λ g. rounds ours kerf sorted g ps)
        (subst (λ l. round ours kerf l (progress_of f) p ≡ progress_of (place_1d theirs kerf f p)) e
          (round-eq f p h))
      ∙ rounds-eq sorted (place_1d theirs kerf f p) ps (fixed ∙ e) keyed
