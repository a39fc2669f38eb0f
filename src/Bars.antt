-- ===== src/Bars.antt =====
-- backend/src/algorithms/1d/bin-manager.ts and the bar types of core/types.ts: one bar, its cuts,
-- and the choice of a bar for a piece. A reference to a bar of a list is its index.
pub mod Plan
pub mod Choice
use nestra.Prelude.{
  ℕ, zero, suc, ◌+◌, ◌-◌, String, Bool, List, [], ◌∷◌, ◌++◌, Option, none, some, leb, ltb, length,
  if◌then◌else◌,
}
use nestra.Pieces.{PieceId, Piece1d}

pub record Cut : Type 0 where
  pub piece_id : PieceId
  pub order_item_id : String
  pub position : ℕ
  pub length : ℕ

pub record Bar : Type 0 where
  pub stock_id : String
  pub stock_length : ℕ
  pub remaining_length : ℕ
  pub current_position : ℕ
  pub cuts : List Cut

pub record Options1d : Type 0 where
  pub kerf : ℕ
  pub min_usable_waste : ℕ

abbrev pub cut_at : Piece1d → ℕ → Cut
cut_at piece position = record {
  piece_id = piece.id;
  order_item_id = piece.order_item_id;
  position = position;
  length = piece.length;
}

unfoldable pub create_active_bar : String → ℕ → Piece1d → Bar
create_active_bar stock_id stock_length piece = record {
  stock_id = stock_id;
  stock_length = stock_length;
  remaining_length = stock_length - piece.length;
  current_position = piece.length;
  cuts = cut_at piece 0 ∷ [];
}

-- `bar.cuts.length > 0 ? kerf : 0`
abbrev pub kerf_needed : Bar → ℕ → ℕ
kerf_needed bar kerf = if ltb 0 (length bar.cuts) then kerf else 0

unfoldable pub calculate_required_length : Bar → ℕ → ℕ → ℕ
calculate_required_length bar piece_length kerf = piece_length + kerf_needed bar kerf

unfoldable pub can_fit_in_bar : Bar → ℕ → ℕ → Bool
unfolding calculate_required_length
can_fit_in_bar bar piece_length kerf =
    leb (calculate_required_length bar piece_length kerf) bar.remaining_length

unfoldable pub place_piece_in_bar : Bar → Piece1d → ℕ → Bar
unfolding calculate_required_length
place_piece_in_bar bar piece kerf =
    let position = bar.current_position + kerf_needed bar kerf in
    record bar {
      cuts = bar.cuts ++ cut_at piece position ∷ [];
      current_position = position + piece.length;
      remaining_length = bar.remaining_length - calculate_required_length bar piece.length kerf;
    }

-- The loop from the index `i` on.
unfoldable pub first_fit_from : List Bar → ℕ → ℕ → ℕ → Option ℕ
unfolding can_fit_in_bar
first_fit_from [] piece_length kerf i = none
first_fit_from (bar ∷ bars) piece_length kerf i =
    if can_fit_in_bar bar piece_length kerf
    then some i
    else first_fit_from bars piece_length kerf (i + 1)

unfoldable pub find_first_fit_bar : List Bar → ℕ → ℕ → Option ℕ
unfolding first_fit_from
find_first_fit_bar bars piece_length kerf = first_fit_from bars piece_length kerf 0

-- `bestBar` with `minRemaining`; `none` is `null` with `Infinity`.
abbrev pub Best : Type 0
Best = Option (ℕ × ℕ)

abbrev pub improves : ℕ → Best → Bool
improves remaining none = Bool.true
improves remaining (some (i, min_remaining)) = ltb remaining min_remaining

unfoldable pub best_fit_from : List Bar → ℕ → ℕ → ℕ → Best → Best
unfolding can_fit_in_bar calculate_required_length
best_fit_from [] piece_length kerf i best = best
best_fit_from (bar ∷ bars) piece_length kerf i best =
    let remaining = bar.remaining_length - calculate_required_length bar piece_length kerf in
    best_fit_from bars piece_length kerf (i + 1) (
      if can_fit_in_bar bar piece_length kerf
      then (if improves remaining best then some (i, remaining) else best)
      else best)

abbrev pub best_index : Best → Option ℕ
best_index none = none
best_index (some (i, r)) = some i

unfoldable pub find_best_fit_bar : List Bar → ℕ → ℕ → Option ℕ
unfolding best_fit_from
find_best_fit_bar bars piece_length kerf = best_index (best_fit_from bars piece_length kerf 0 none)

pub record WasteSegment : Type 0 where
  pub position : ℕ
  pub length : ℕ

-- `remainingLength - kerf >= minUsableWaste` over the integers, with the kerf on the other side.
unfoldable pub calculate_usable_waste : Bar → Options1d → Option WasteSegment
calculate_usable_waste bar o =
    if leb (o.min_usable_waste + o.kerf) bar.remaining_length
    then some (record {
      position = bar.current_position + o.kerf;
      length = bar.remaining_length - o.kerf;
    })
    else none
