-- ===== src/Optimize1d/Totals.antt =====
-- The result of optimize1D (1d/optimizer.ts) and the demand it was given.
use text.Mathlib.Text.{◌==◌ as str_eq}
use mathlib.Core.List.{Perm}
use mathlib.Core.List.Perm
use nestra.Prelude.{
  ℕ, ◌+◌, ◌*◌, ◌≡◌, refl, sym, ap, ◌∙◌, String, true, List, [], ◌∷◌, ◌++◌, map, arith, All, sum_by,
  sum_by-append, sum_by-map, sum_by-perm, if◌then◌else◌,
}
use nestra.Pieces.{PieceInput1d, Piece1d, expand_1d_pieces, sort_1d_by_length_desc}
use nestra.Pieces.Expansion.{IsUnit, expand_1d_weight, expand_1d-IsUnit, sort_1d-perm, sort_1d-All}
use nestra.Stock.{StockInput1d, SortStrategy, new_stock_1d}
use nestra.Bars.{Bar, Options1d}
use nestra.Bars.Choice.{IsChooser}
use nestra.Unplaced1d.{get_all}
use nestra.Unplaced1d.Totals.{add_all, add_all-IsKeyed, add_all_weight, get_all_weight}
use nestra.Fill1d.{Chooser}
use nestra.Fill1d.Accounts.{
  Item, item_of_piece, item_of_cut, items_in, Accounts, start-Accounts, fill_1d-Accounts,
}
use nestra.Optimize1d.{
  BarCuttingResult, OptimizationResult1d, bar_result, build_result, is_nil, packed, finish,
  Algorithm1d, optimize_1d,
}
use nestra.Optimize1d.Safety.{optimize_1d-IsPacking}

abbrev pub result_items : List BarCuttingResult → List Item
result_items [] = []
result_items (r ∷ rs) = map item_of_cut r.cuts ++ result_items rs

result_items-map :
    (o : Options1d) (bars : List Bar) → result_items (map (bar_result o) bars) ≡ items_in bars
unfolding bar_result
result_items-map o [] = refl
result_items-map o (b ∷ bars) = ap (◌++◌ (map item_of_cut b.cuts)) (result_items-map o bars)

-- The result's cuts and some rejected pieces are together the expanded demand, and the reported
-- pieces are the rejected ones, grouped.
pub record HasAllItems (pieces : List PieceInput1d) (r : OptimizationResult1d) : Type 0 where
  pub rejected : List Piece1d
  pub all_items :
      Perm
        (result_items r.bars ++ map item_of_piece rejected)
        (map item_of_piece (expand_1d_pieces pieces))
  pub reported : r.unplaced_pieces ≡ get_all (add_all [] rejected)
  pub genuine : All IsUnit rejected

sorted_units :
    (pieces : List PieceInput1d) → All IsUnit (sort_1d_by_length_desc (expand_1d_pieces pieces))
sorted_units pieces = sort_1d-All IsUnit (expand_1d_pieces pieces) (expand_1d-IsUnit pieces)

module _ (choose : Chooser) (lawful : IsChooser choose) (t : SortStrategy)
    (pieces : List PieceInput1d) (stock : List StockInput1d) (o : Options1d) where
  packed-Accounts :
      Accounts (packed choose t pieces stock o) (sort_1d_by_length_desc (expand_1d_pieces pieces))
  unfolding packed
  packed-Accounts =
      fill_1d-Accounts choose o.kerf _ [] _ lawful (start-Accounts (new_stock_1d stock t))

  pub finish-HasAllItems : HasAllItems pieces (finish choose t pieces stock o)
  unfolding finish build_result
  finish-HasAllItems =
      let a = packed-Accounts in
      record {
        rejected = a.rejected;
        all_items = rw (result_items-map o (packed choose t pieces stock o).active_bars) (
            Perm.trans a.placed_or_rejected
              (Perm.map item_of_piece (sort_1d-perm (expand_1d_pieces pieces))));
        reported = ap get_all a.collected;
        genuine = a.genuine (sorted_units pieces);
      }

-- Whatever the algorithm, the cuts of the result and the rejected pieces are a rearrangement of the
-- expanded demand (id, order item and length), and `unplacedPieces` is the rejected pieces, grouped
-- by demand.
pub optimize_1d_items :
    (a : Algorithm1d) (pieces : List PieceInput1d) (stock : List StockInput1d) (o : Options1d)
    → HasAllItems pieces (optimize_1d a pieces stock o)
optimize_1d_items a pieces stock o =
    let p = optimize_1d-IsPacking a in
    rw p.runs (finish-HasAllItems p.choose p.lawful p.strategy pieces stock o)

-- Cuts, weighted by the id of the demand that they serve.
abbrev pub cuts_weight : (String → ℕ) → List BarCuttingResult → ℕ
cuts_weight w = sum_by (λ r. sum_by (λ c. w c.piece_id.base) r.cuts)

result_items_weight :
    (w : String → ℕ) (rs : List BarCuttingResult)
    → sum_by (λ i. w i.piece_id.base) (result_items rs) ≡ cuts_weight w rs
result_items_weight w [] = refl
result_items_weight w (r ∷ rs) = omega (
  arith,
  sum_by-append (λ (i : Item). w i.piece_id.base) (map item_of_cut r.cuts) (result_items rs),
  sum_by-map (λ (i : Item). w i.piece_id.base) item_of_cut r.cuts,
  result_items_weight w rs,
)

items_weight :
    (w : String → ℕ) (ps : List Piece1d)
    → All IsUnit ps
    → sum_by (λ i. w i.piece_id.base) (map item_of_piece ps) ≡ sum_by (λ p. w p.original_id) ps
items_weight w [] h = refl
items_weight w (p ∷ ps) h = omega (arith, ap w h.0, items_weight w ps h.1)

rejected_weight :
    (w : String → ℕ) (rejected : List Piece1d)
    → sum_by (λ q. w q.id * q.quantity) (get_all (add_all [] rejected))
      ≡ sum_by (λ p. w p.original_id) rejected
rejected_weight w rejected = omega (
  arith,
  get_all_weight w (add_all [] rejected) (add_all-IsKeyed [] rejected tt),
  add_all_weight w [] rejected,
)

pub HasAllItems-weight :
    (w : String → ℕ) (pieces : List PieceInput1d) (r : OptimizationResult1d)
    → HasAllItems pieces r
    → cuts_weight w r.bars + sum_by (λ q. w q.id * q.quantity) r.unplaced_pieces
      ≡ sum_by (λ p. w p.id * p.quantity) pieces
HasAllItems-weight w pieces r h =
    rw (h.reported, rejected_weight w h.rejected)
      (omega (
        arith,
        sum_by-perm (λ (i : Item). w i.piece_id.base) h.all_items,
        sum_by-append (λ (i : Item). w i.piece_id.base) (result_items r.bars)
            (map item_of_piece h.rejected),
        result_items_weight w r.bars,
        items_weight w h.rejected h.genuine,
        items_weight w (expand_1d_pieces pieces) (expand_1d-IsUnit pieces),
        expand_1d_weight w pieces,
      ))

-- 1 for the given id and 0 for any other.
abbrev pub only : String → String → ℕ
only k id = if str_eq id k then 1 else 0

-- Whatever the algorithm, for every demand id the cuts made for it and its units among
-- `unplacedPieces` add up to the quantity asked for.
pub optimize_1d_demand :
    (a : Algorithm1d) (pieces : List PieceInput1d) (stock : List StockInput1d) (o : Options1d)
    (k : String)
    → let r = optimize_1d a pieces stock o in
      cuts_weight (only k) r.bars + sum_by (λ q. only k q.id * q.quantity) r.unplaced_pieces
      ≡ sum_by (λ p. only k p.id * p.quantity) pieces
optimize_1d_demand a pieces stock o k =
    HasAllItems-weight (only k) pieces (optimize_1d a pieces stock o)
      (optimize_1d_items a pieces stock o)

is_nil-nil {ℓ} : {A : Type ℓ} (xs : List A) → is_nil xs ≡ true → xs ≡ []
is_nil-nil [] h = refl
is_nil-nil (x ∷ xs) h = absurd (cc)

finish_success :
    (choose : Chooser) (t : SortStrategy) (pieces : List PieceInput1d) (stock : List StockInput1d)
    (o : Options1d)
    → let r = finish choose t pieces stock o in r.success ≡ is_nil r.unplaced_pieces
unfolding finish build_result
finish_success choose t pieces stock o = refl

nil_of_success :
    (r : OptimizationResult1d)
    → r.success ≡ is_nil r.unplaced_pieces
    → r.success ≡ true
    → r.unplaced_pieces ≡ []
nil_of_success r e h = is_nil-nil r.unplaced_pieces (sym e ∙ h)

-- Where `success` is true, every demand is met in full.
pub optimize_1d_success :
    (a : Algorithm1d) (pieces : List PieceInput1d) (stock : List StockInput1d) (o : Options1d)
    (k : String)
    → (optimize_1d a pieces stock o).success ≡ true
    → cuts_weight (only k) (optimize_1d a pieces stock o).bars
      ≡ sum_by (λ p. only k p.id * p.quantity) pieces
optimize_1d_success a pieces stock o k h =
    let p = optimize_1d-IsPacking a in
    omega (
      arith,
      optimize_1d_demand a pieces stock o k,
      ap (sum_by (λ (q : PieceInput1d). only k q.id * q.quantity)) (
          nil_of_success (optimize_1d a pieces stock o)
            (rw p.runs (finish_success p.choose p.strategy pieces stock o)) h),
    )
