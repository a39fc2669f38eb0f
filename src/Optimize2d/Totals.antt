-- ===== src/Optimize2d/Totals.antt =====
-- The result of optimize2D (2d/optimizer.ts) and the demand it was given.
use text.Mathlib.Text.{◌==◌ as str_eq}
use mathlib.Core.List.{Perm}
use mathlib.Core.List.Perm
use nestra.Prelude.{
  ℕ, ◌+◌, ◌*◌, ◌≡◌, refl, sym, ap, ◌∙◌, String, true, List, [], ◌∷◌, ◌++◌, map, arith, All, sum_by,
  sum_by-append, sum_by-map, sum_by-perm, if◌then◌else◌,
}
use nestra.Pieces.{PieceInput2d, Piece2d, expand_2d_pieces, sort_2d_by_area_desc}
use nestra.Pieces.Panels.{IsUnit2d, expand_2d_weight, expand_2d-IsUnit2d, sort_2d-perm, sort_2d-All}
use nestra.Stock.{StockInput2d, new_stock_2d}
use nestra.Sheets.{ActiveSheet, Options2d}
use nestra.Unplaced2d.{get_all}
use nestra.Unplaced2d.Totals.{add_all, add_all-IsKeyed, add_all_weight, get_all_weight}
use nestra.Fill2d.{Method, bottom_left, guillotine}
use nestra.Fill2d.Accounts.{
  Item, item_of_piece, item_of_placement, items_in, IsAccountable, bottom_left-IsAccountable,
  guillotine-IsAccountable, Accounts, start_2d-Accounts, fill_2d-Accounts,
}
use nestra.Optimize2d.{
  SheetCuttingResult, OptimizationResult2d, sheet_result, build_result, is_nil, packed_2d,
  finish_2d, bottom_left_fill, guillotine_cutting, Algorithm2d, bottom_left_type, guillotine_type,
  maxrects_type, other_type, optimize_2d,
}

abbrev pub result_items : List SheetCuttingResult → List Item
result_items [] = []
result_items (r ∷ rs) = map item_of_placement r.placements ++ result_items rs

result_items-map :
    (sheets : List ActiveSheet) → result_items (map sheet_result sheets) ≡ items_in sheets
unfolding sheet_result
result_items-map [] = refl
result_items-map (b ∷ sheets) =
    ap (◌++◌ (map item_of_placement b.placements)) (result_items-map sheets)

-- The result's placements and some rejected pieces are together the expanded demand, and the reported
-- pieces are the rejected ones, grouped.
pub record HasAllItems (pieces : List PieceInput2d) (r : OptimizationResult2d) : Type 0 where
  pub rejected : List Piece2d
  pub all_items :
      Perm
        (result_items r.sheets ++ map item_of_piece rejected)
        (map item_of_piece (expand_2d_pieces pieces))
  pub reported : r.unplaced_pieces ≡ get_all (add_all [] rejected)
  pub genuine : All IsUnit2d rejected

sorted_units :
    (pieces : List PieceInput2d) → All IsUnit2d (sort_2d_by_area_desc (expand_2d_pieces pieces))
sorted_units pieces = sort_2d-All IsUnit2d (expand_2d_pieces pieces) (expand_2d-IsUnit2d pieces)

module _ (method : Options2d → Method) (lawful : (o : Options2d) → IsAccountable (method o))
    (pieces : List PieceInput2d) (stock : List StockInput2d) (o : Options2d) where
  packed_2d-Accounts :
      Accounts (packed_2d method pieces stock o) (sort_2d_by_area_desc (expand_2d_pieces pieces))
  unfolding packed_2d
  packed_2d-Accounts =
      fill_2d-Accounts (method o) (lawful o) o _ [] _ (start_2d-Accounts (new_stock_2d stock))

  finish_2d-HasAllItems : HasAllItems pieces (finish_2d method pieces stock o)
  unfolding finish_2d build_result
  finish_2d-HasAllItems =
      let a = packed_2d-Accounts in
      record {
        rejected = a.rejected;
        all_items = rw (result_items-map (packed_2d method pieces stock o).active_sheets) (
            Perm.trans a.placed_or_rejected
              (Perm.map item_of_piece (sort_2d-perm (expand_2d_pieces pieces))));
        reported = ap get_all a.collected;
        genuine = a.genuine (sorted_units pieces);
      }

  -- The report says `success` exactly where nothing is unplaced.
  finish_2d_success :
      let r = finish_2d method pieces stock o in r.success ≡ is_nil r.unplaced_pieces
  unfolding finish_2d build_result
  finish_2d_success = refl

-- Whatever the algorithm, the placements of the result and the rejected pieces are a rearrangement of
-- the expanded demand (id, order item and the dimensions as asked for, a turned placement turned
-- back), and `unplacedPieces` is the rejected pieces, grouped by demand.
pub optimize_2d_items :
    (a : Algorithm2d) (pieces : List PieceInput2d) (stock : List StockInput2d) (o : Options2d)
    → HasAllItems pieces (optimize_2d a pieces stock o)
unfolding optimize_2d bottom_left_fill guillotine_cutting
optimize_2d_items bottom_left_type = finish_2d-HasAllItems bottom_left bottom_left-IsAccountable
optimize_2d_items guillotine_type = finish_2d-HasAllItems guillotine guillotine-IsAccountable
optimize_2d_items maxrects_type = finish_2d-HasAllItems guillotine guillotine-IsAccountable
optimize_2d_items other_type = finish_2d-HasAllItems bottom_left bottom_left-IsAccountable

optimize_2d-success-is_nil :
    (a : Algorithm2d) (pieces : List PieceInput2d) (stock : List StockInput2d) (o : Options2d)
    → let r = optimize_2d a pieces stock o in r.success ≡ is_nil r.unplaced_pieces
unfolding optimize_2d bottom_left_fill guillotine_cutting
optimize_2d-success-is_nil bottom_left_type =
    finish_2d_success bottom_left bottom_left-IsAccountable
optimize_2d-success-is_nil guillotine_type = finish_2d_success guillotine guillotine-IsAccountable
optimize_2d-success-is_nil maxrects_type = finish_2d_success guillotine guillotine-IsAccountable
optimize_2d-success-is_nil other_type = finish_2d_success bottom_left bottom_left-IsAccountable

-- Placements, weighted by the id of the demand that they serve.
abbrev pub placements_weight : (String → ℕ) → List SheetCuttingResult → ℕ
placements_weight w = sum_by (λ r. sum_by (λ c. w c.piece_id.base) r.placements)

result_items_weight :
    (w : String → ℕ) (rs : List SheetCuttingResult)
    → sum_by (λ i. w i.piece_id.base) (result_items rs) ≡ placements_weight w rs
result_items_weight w [] = refl
result_items_weight w (r ∷ rs) = omega (
  arith,
  sum_by-append (λ (i : Item). w i.piece_id.base) (map item_of_placement r.placements)
      (result_items rs),
  sum_by-map (λ (i : Item). w i.piece_id.base) item_of_placement r.placements,
  result_items_weight w rs,
)

items_weight :
    (w : String → ℕ) (ps : List Piece2d)
    → All IsUnit2d ps
    → sum_by (λ i. w i.piece_id.base) (map item_of_piece ps) ≡ sum_by (λ p. w p.original_id) ps
items_weight w [] h = refl
items_weight w (p ∷ ps) h = omega (arith, ap w h.0, items_weight w ps h.1)

rejected_weight :
    (w : String → ℕ) (rejected : List Piece2d)
    → sum_by (λ q. w q.id * q.quantity) (get_all (add_all [] rejected))
      ≡ sum_by (λ p. w p.original_id) rejected
rejected_weight w rejected = omega (
  arith,
  get_all_weight w (add_all [] rejected) (add_all-IsKeyed [] rejected tt),
  add_all_weight w [] rejected,
)

pub HasAllItems-weight :
    (w : String → ℕ) (pieces : List PieceInput2d) (r : OptimizationResult2d)
    → HasAllItems pieces r
    → placements_weight w r.sheets + sum_by (λ q. w q.id * q.quantity) r.unplaced_pieces
      ≡ sum_by (λ p. w p.id * p.quantity) pieces
HasAllItems-weight w pieces r h =
    rw (h.reported, rejected_weight w h.rejected)
      (omega (
        arith,
        sum_by-perm (λ (i : Item). w i.piece_id.base) h.all_items,
        sum_by-append (λ (i : Item). w i.piece_id.base) (result_items r.sheets)
            (map item_of_piece h.rejected),
        result_items_weight w r.sheets,
        items_weight w h.rejected h.genuine,
        items_weight w (expand_2d_pieces pieces) (expand_2d-IsUnit2d pieces),
        expand_2d_weight w pieces,
      ))

-- 1 for the given id and 0 for any other.
abbrev pub only : String → String → ℕ
only k id = if str_eq id k then 1 else 0

-- Whatever the algorithm, for every demand id the placements made for it and its units among
-- `unplacedPieces` add up to the quantity asked for.
pub optimize_2d_demand :
    (a : Algorithm2d) (pieces : List PieceInput2d) (stock : List StockInput2d) (o : Options2d)
    (k : String)
    → let r = optimize_2d a pieces stock o in
      placements_weight (only k) r.sheets + sum_by (λ q. only k q.id * q.quantity) r.unplaced_pieces
      ≡ sum_by (λ p. only k p.id * p.quantity) pieces
optimize_2d_demand a pieces stock o k =
    HasAllItems-weight (only k) pieces (optimize_2d a pieces stock o)
      (optimize_2d_items a pieces stock o)

is_nil-nil {ℓ} : {A : Type ℓ} (xs : List A) → is_nil xs ≡ true → xs ≡ []
is_nil-nil [] h = refl
is_nil-nil (x ∷ xs) h = absurd (cc)

nil_of_success :
    (r : OptimizationResult2d)
    → r.success ≡ is_nil r.unplaced_pieces
    → r.success ≡ true
    → r.unplaced_pieces ≡ []
nil_of_success r e h = is_nil-nil r.unplaced_pieces (sym e ∙ h)

-- Where `success` is true, every demand is met in full.
pub optimize_2d_success :
    (a : Algorithm2d) (pieces : List PieceInput2d) (stock : List StockInput2d) (o : Options2d)
    (k : String)
    → (optimize_2d a pieces stock o).success ≡ true
    → placements_weight (only k) (optimize_2d a pieces stock o).sheets
      ≡ sum_by (λ p. only k p.id * p.quantity) pieces
optimize_2d_success a pieces stock o k h = omega (
  arith,
  optimize_2d_demand a pieces stock o k,
  ap (sum_by (λ (q : PieceInput2d). only k q.id * q.quantity)) (
      nil_of_success (optimize_2d a pieces stock o) (optimize_2d-success-is_nil a pieces stock o)
        h),
)
