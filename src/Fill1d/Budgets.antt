-- ===== src/Fill1d/Budgets.antt =====
-- The stock that the packing loop of 1d/ffd-algorithm.ts and 1d/bfd-algorithm.ts takes.
use text.Mathlib.Text.{◌==◌ as str_eq}
use nestra.Prelude.{
  ℕ, zero, suc, ◌+◌, ◌<◌, ◌≡◌, refl, String, List, [], ◌∷◌, ◌++◌, modify, All, All-append, All-get,
  All-modify, inl, inr, Option-cases, arith, sum_by, sum_by-append, if◌then◌else◌, Memᴰ,
}
use nestra.Pieces.{Piece1d}
use nestra.Stock.{
  StockInput1d, Stock1dManager, find_available_stock_1d, consume_stock_1d, remaining_of,
  get_remaining,
}
use nestra.Stock.Budget.{find_in_lem, find_in-All, remaining_of-decrement}
use nestra.Bars.{Bar, create_active_bar, place_piece_in_bar}
use nestra.Bars.Choice.{IsChooser}
use nestra.Fill1d.{Filling, Chooser, open_new_bar, place_1d, fill_1d}

-- The bars that were cut from the stock item with this id.
abbrev pub bars_of : String → List Bar → ℕ
bars_of k = sum_by (λ b. if str_eq b.stock_id k then 1 else 0)

-- A bar of a stock item has that item's length.
abbrev pub IsFromStock : List StockInput1d → Bar → Type 0
IsFromStock stock b =
    (s : StockInput1d) × Memᴰ s stock × (b.stock_id ≡ s.id) × (b.stock_length ≡ s.length)

-- `m` is the manager at the start.
pub record IsWithinBudget (stock : List StockInput1d) (m : Stock1dManager) (f : Filling)
    : Type 0 where
  pub fixed : f.stock_manager.sorted_stock ≡ m.sorted_stock
  pub sorted : All (λ s. Memᴰ s stock) f.stock_manager.sorted_stock
  pub real : All (IsFromStock stock) f.active_bars
  pub spent :
      (k : String) → bars_of k f.active_bars + get_remaining f.stock_manager k ≡ get_remaining m k

bars_of-place :
    (k : String) (bars : List Bar) (i kerf : ℕ) (p : Piece1d)
    → bars_of k (modify (λ b. place_piece_in_bar b p kerf) bars i) ≡ bars_of k bars
unfolding place_piece_in_bar
bars_of-place k [] i kerf p = refl
bars_of-place k (b ∷ bars) zero kerf p = refl
bars_of-place k (b ∷ bars) (suc i) kerf p = omega (arith, bars_of-place k bars i kerf p)

place-IsFromStock :
    (stock : List StockInput1d) (b : Bar) (p : Piece1d) (kerf : ℕ)
    → IsFromStock stock b
    → IsFromStock stock (place_piece_in_bar b p kerf)
unfolding place_piece_in_bar
place-IsFromStock stock b p kerf h = h

module _ (stock : List StockInput1d) (m : Stock1dManager) where
  new_bar_spent :
      (f : Filling) (p : Piece1d) (s : StockInput1d) (k : String)
      → 0 < remaining_of f.stock_manager.usage s.id
      → bars_of k f.active_bars + get_remaining f.stock_manager k ≡ get_remaining m k
      → bars_of k (f.active_bars ++ create_active_bar s.id s.length p ∷ [])
          + get_remaining (consume_stock_1d f.stock_manager s.id) k
        ≡ get_remaining m k
  unfolding create_active_bar get_remaining consume_stock_1d
  new_bar_spent f p s k h e = ground (
    arith,
    sum_by-append (λ (b : Bar). if str_eq b.stock_id k then 1 else 0) f.active_bars
        (create_active_bar s.id s.length p ∷ []),
    remaining_of-decrement f.stock_manager.usage s.id k,
    text.Mathlib.TextEquality.eq_iff s.id k,
  )

  open_new_bar-IsWithinBudget :
      (f : Filling) (p : Piece1d)
      → IsWithinBudget stock m f
      → IsWithinBudget stock m (open_new_bar f p)
  unfolding open_new_bar find_available_stock_1d consume_stock_1d
  open_new_bar-IsWithinBudget f p v =
      elim (Option-cases (find_available_stock_1d f.stock_manager p.length)) [
        | inl e ↦
            rw (e, open_new_bar)
              (record { fixed = v.fixed; sorted = v.sorted; real = v.real; spent = v.spent })
        | inr (s, e) ↦
            let n = f.stock_manager in
            let (remains, _) = find_in_lem n.usage p.length n.sorted_stock e in
            let known =
              find_in-All (λ x. Memᴰ x stock) n.usage p.length n.sorted_stock v.sorted e in
            rw (e, open_new_bar)
              (record {
                fixed = v.fixed;
                sorted = v.sorted;
                real =
                    All-append (IsFromStock stock) f.active_bars _ v.real
                      ((s, known, created_id s, created_length s), tt);
                spent = λ k. new_bar_spent f p s k remains (v.spent k);
              })
      ]
    where
      created_id : (s : StockInput1d) → (create_active_bar s.id s.length p).stock_id ≡ s.id
      created_id s = unfold create_active_bar in refl

      created_length :
          (s : StockInput1d) → (create_active_bar s.id s.length p).stock_length ≡ s.length
      created_length s = unfold create_active_bar in refl

  place_1d-IsWithinBudget :
      (choose : Chooser) (kerf : ℕ) (f : Filling) (p : Piece1d)
      → IsChooser choose
      → IsWithinBudget stock m f
      → IsWithinBudget stock m (place_1d choose kerf f p)
  unfolding place_1d
  place_1d-IsWithinBudget choose kerf f p c v =
      elim (Option-cases (choose f.active_bars p.length kerf)) [
        | inl e ↦ rw (e, place_1d) (open_new_bar-IsWithinBudget f p v)
        | inr (i, e) ↦
            let (b, found, _) = c.fits f.active_bars p.length kerf i e in
            let old = All-get (IsFromStock stock) f.active_bars i v.real found in
            rw (e, place_1d)
              (record {
                fixed = v.fixed;
                sorted = v.sorted;
                real =
                    All-modify (IsFromStock stock) (λ c. place_piece_in_bar c p kerf) f.active_bars
                      i b found (place-IsFromStock stock b p kerf old) v.real;
                spent = λ k. rw (bars_of-place k f.active_bars i kerf p) (v.spent k);
              })
      ]

  pub fill_1d-IsWithinBudget :
      (choose : Chooser) (kerf : ℕ) (f : Filling) (ps : List Piece1d)
      → IsChooser choose
      → IsWithinBudget stock m f
      → IsWithinBudget stock m (fill_1d choose kerf f ps)
  unfolding fill_1d
  fill_1d-IsWithinBudget choose kerf f [] c v = v
  fill_1d-IsWithinBudget choose kerf f (p ∷ ps) c v =
      fill_1d-IsWithinBudget choose kerf (place_1d choose kerf f p) ps c
        (place_1d-IsWithinBudget choose kerf f p c v)
