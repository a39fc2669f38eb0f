-- ===== src/Fill1d/Leftovers.antt =====
-- The pieces that the packing loop of 1d/ffd-algorithm.ts and 1d/bfd-algorithm.ts rejects.

use nestra.Prelude.{
  ℕ, ◌+◌, ◌<◌, ◌≡◌, String, false, List, [], ◌∷◌, ◌++◌, some, get_elem?, modify, All, All-append,
  All-get, All-modify, All-map, inl, inr, Option-cases, arith, length-append,
}
use nestra.Prelude.Dict.{lookup, All-insert, All-lookup}
use nestra.Pieces.{Piece1d}
use nestra.Stock.{
  StockInput1d, Usage, find_available_stock_1d, consume_stock_1d, remaining_of, decrement,
}
use nestra.Stock.Budget.{find_in_lem, find_in-All, find_in-none, remaining_of-decrement}
use nestra.Bars.{Bar, cut_at, create_active_bar, can_fit_in_bar, place_piece_in_bar}
use nestra.Bars.Choice.{IsChooser}
use nestra.Unplaced1d.{UnplacedCollector1d, add}
use nestra.Fill1d.{Filling, Chooser, open_new_bar, place_1d, fill_1d}

-- No stock item that is left is `n` long.
abbrev pub IsShort : Usage → ℕ → List StockInput1d → Type 0
IsShort u n = All (λ s. 0 < remaining_of u s.id → s.length < n)

-- A piece of length `n` fits nowhere.
pub record NoRoom (kerf : ℕ) (f : Filling) (n : ℕ) : Type 0 where
  pub bars_full : All (λ b. can_fit_in_bar b n kerf ≡ false) f.active_bars
  pub stock_short : IsShort f.stock_manager.usage n f.stock_manager.sorted_stock

abbrev pub AreLeftovers : ℕ → Filling → UnplacedCollector1d → Type 0
AreLeftovers kerf f = All (λ e. NoRoom kerf f e.1.piece.length)

place-full :
    (b : Bar) (p : Piece1d) (kerf n : ℕ)
    → can_fit_in_bar b n kerf ≡ false
    → can_fit_in_bar (place_piece_in_bar b p kerf) n kerf ≡ false
unfolding can_fit_in_bar place_piece_in_bar
place-full b p kerf n h = ground (
  arith,
  length-append b.cuts (cut_at p (b.current_position + kerf) ∷ []),
  length-append b.cuts (cut_at p (b.current_position + 0) ∷ []),
)

new-full :
    (id : String) (m : ℕ) (p : Piece1d) (kerf n : ℕ)
    → m < n
    → can_fit_in_bar (create_active_bar id m p) n kerf ≡ false
unfolding can_fit_in_bar create_active_bar
new-full id m p kerf n h = ground arith

IsShort-decrement :
    (u : Usage) (id : String) (n : ℕ) (ss : List StockInput1d)
    → IsShort u n ss
    → IsShort (decrement u id) n ss
IsShort-decrement u id n ss h =
    All-map
      (λ s short left. short (
        ground (arith, remaining_of-decrement u id s.id, text.Mathlib.TextEquality.eq_iff id s.id)))
      ss h

NoRoom-new :
    (kerf : ℕ) (f : Filling) (p : Piece1d) (s : StockInput1d) (n : ℕ)
    → find_available_stock_1d f.stock_manager p.length ≡ some s
    → NoRoom kerf f n
    → NoRoom kerf
        (record f {
          active_bars = f.active_bars ++ create_active_bar s.id s.length p ∷ [];
          stock_manager = consume_stock_1d f.stock_manager s.id;
        })
        n
unfolding find_available_stock_1d consume_stock_1d
NoRoom-new kerf f p s n e r =
    let m = f.stock_manager in
    let (remains, _) = find_in_lem m.usage p.length m.sorted_stock e in
    let short =
      find_in-All (λ x. 0 < remaining_of m.usage x.id → x.length < n) m.usage p.length
        m.sorted_stock r.stock_short e in
    record {
      bars_full =
          All-append (λ b. can_fit_in_bar b n kerf ≡ false) f.active_bars _ r.bars_full
            (new-full s.id s.length p kerf n (short remains), tt);
      stock_short = IsShort-decrement m.usage s.id n m.sorted_stock r.stock_short;
    }

NoRoom-rejected :
    (kerf : ℕ) (f : Filling) (u : UnplacedCollector1d) (n : ℕ)
    → NoRoom kerf f n
    → NoRoom kerf (record f { unplaced = u }) n
NoRoom-rejected kerf f u n r = record { bars_full = r.bars_full; stock_short = r.stock_short }

add-AreLeftovers :
    (kerf : ℕ) (f : Filling) (u : UnplacedCollector1d) (p : Piece1d)
    → NoRoom kerf f p.length
    → AreLeftovers kerf f u
    → AreLeftovers kerf f (add u p)
unfolding add
add-AreLeftovers kerf f u p r h = elim (Option-cases (lookup p.original_id u)) [
  | inl e ↦ rw (e, add) (All-insert (λ e. NoRoom kerf f e.1.piece.length) p.original_id _ u r h)
  | inr (x, e) ↦
      rw (e, add)
        (All-insert (λ e. NoRoom kerf f e.1.piece.length) p.original_id _ u
          (All-lookup (λ e. NoRoom kerf f e.1.piece.length) p.original_id u h e) h)
]

open_new_bar-AreLeftovers :
    (kerf : ℕ) (f : Filling) (p : Piece1d)
    → All (λ b. can_fit_in_bar b p.length kerf ≡ false) f.active_bars
    → AreLeftovers kerf f f.unplaced
    → AreLeftovers kerf (open_new_bar f p) (open_new_bar f p).unplaced
unfolding open_new_bar find_available_stock_1d
open_new_bar-AreLeftovers kerf f p full h =
    elim (Option-cases (find_available_stock_1d f.stock_manager p.length)) [
      | inl e ↦
          let m = f.stock_manager in
          let room : NoRoom kerf f p.length = record {
            bars_full = full;
            stock_short = find_in-none m.usage p.length m.sorted_stock e;
          } in
          rw (e, open_new_bar)
            (All-map (λ x r. NoRoom-rejected kerf f (add f.unplaced p) x.1.piece.length r)
              (add f.unplaced p) (add-AreLeftovers kerf f f.unplaced p room h))
      | inr (s, e) ↦
          rw (e, open_new_bar)
            (All-map (λ x r. NoRoom-new kerf f p s x.1.piece.length e r) f.unplaced h)
    ]

place_1d-AreLeftovers :
    (choose : Chooser) (kerf : ℕ) (f : Filling) (p : Piece1d)
    → IsChooser choose
    → AreLeftovers kerf f f.unplaced
    → AreLeftovers kerf (place_1d choose kerf f p) (place_1d choose kerf f p).unplaced
unfolding place_1d
place_1d-AreLeftovers choose kerf f p c h =
    elim (Option-cases (choose f.active_bars p.length kerf)) [
      | inl e ↦
          rw (e, place_1d)
            (open_new_bar-AreLeftovers kerf f p (c.exhausts f.active_bars p.length kerf e) h)
      | inr (i, e) ↦
          let (b, found, _) = c.fits f.active_bars p.length kerf i e in
          rw (e, place_1d) (All-map (λ x r. kept i b found x.1.piece.length r) f.unplaced h)
    ]
  where
    kept :
        (i : ℕ) (b : Bar)
        → get_elem? f.active_bars i ≡ some b
        → (n : ℕ) → NoRoom kerf f n
        → NoRoom kerf
            (record f { active_bars = modify (λ c. place_piece_in_bar c p kerf) f.active_bars i })
            n
    kept i b found n r = record {
      bars_full =
          All-modify (λ c. can_fit_in_bar c n kerf ≡ false) (λ c. place_piece_in_bar c p kerf)
            f.active_bars i b found
            (place-full b p kerf n
              (All-get (λ c. can_fit_in_bar c n kerf ≡ false) f.active_bars i r.bars_full found))
            r.bars_full;
      stock_short = r.stock_short;
    }

pub fill_1d-AreLeftovers :
    (choose : Chooser) (kerf : ℕ) (f : Filling) (ps : List Piece1d)
    → IsChooser choose
    → AreLeftovers kerf f f.unplaced
    → let g = fill_1d choose kerf f ps in AreLeftovers kerf g g.unplaced
unfolding fill_1d
fill_1d-AreLeftovers choose kerf f [] c h = h
fill_1d-AreLeftovers choose kerf f (p ∷ ps) c h =
    fill_1d-AreLeftovers choose kerf (place_1d choose kerf f p) ps c
      (place_1d-AreLeftovers choose kerf f p c h)
