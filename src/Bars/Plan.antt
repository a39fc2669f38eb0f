-- ===== src/Bars/Plan.antt =====
-- The well-formedness of a bar under the operations of 1d/bin-manager.ts.
use nestra.Prelude.{
  ℕ, ◌+◌, ◌-◌, ◌*◌, ◌≤◌, ◌<◌, ◌≡◌, String, true, List, [], ◌∷◌, ◌++◌, some, arith, length, sum_by,
  length-append, sum_by-append, All, All-append, All-map,
}
use nestra.Pieces.{Piece1d}
use nestra.Bars.{
  Bar, Cut, Options1d, WasteSegment, cut_at, create_active_bar, can_fit_in_bar, place_piece_in_bar,
  calculate_usable_waste,
}

-- Every cut ends at least a kerf before each later one.
abbrev pub Spaced : ℕ → List Cut → Type 0
Spaced kerf [] = Unit
Spaced kerf (c ∷ cs) = All (λ d. c.position + c.length + kerf ≤ d.position) cs × Spaced kerf cs

abbrev pub total_length : List Cut → ℕ
total_length = sum_by (λ c. c.length)

-- `used` says that the pieces and one kerf between neighbours fill the bar up to
-- `current_position`.
pub record IsValidBar (kerf : ℕ) (bar : Bar) : Type 0 where
  pub spaced : Spaced kerf bar.cuts
  pub ends : All (λ c. c.position + c.length ≤ bar.current_position) bar.cuts
  pub used : total_length bar.cuts + kerf * length bar.cuts ≡ bar.current_position + kerf
  pub balance : bar.current_position + bar.remaining_length ≡ bar.stock_length
  pub nonempty : 0 < length bar.cuts

Spaced-append :
    (kerf : ℕ) (cs : List Cut) (d : Cut)
    → Spaced kerf cs
    → All (λ c. c.position + c.length + kerf ≤ d.position) cs
    → Spaced kerf (cs ++ d ∷ [])
Spaced-append kerf [] d s h = (tt, tt)
Spaced-append kerf (c ∷ cs) d s h = (
  All-append (λ e. c.position + c.length + kerf ≤ e.position) cs (d ∷ []) s.0 (h.0, tt),
  Spaced-append kerf cs d s.1 h.1,
)

-- A new bar holds its first piece at 0, if the stock is long enough.
pub create_active_bar-IsValidBar :
    (kerf : ℕ) (id : String) (stock_length : ℕ) (piece : Piece1d)
    → piece.length ≤ stock_length
    → IsValidBar kerf (create_active_bar id stock_length piece)
unfolding create_active_bar
create_active_bar-IsValidBar kerf id stock_length piece h = record {
  spaced = (tt, tt);
  ends = (omega arith, tt);
  used = omega arith;
  balance = omega arith;
  nonempty = omega arith;
}

fit-le :
    (kerf : ℕ) (bar : Bar) (n : ℕ)
    → 0 < length bar.cuts
    → can_fit_in_bar bar n kerf ≡ true
    → n + kerf ≤ bar.remaining_length
unfolding can_fit_in_bar
fit-le kerf bar n p h = ground arith

place_piece_in_bar_lem :
    (kerf : ℕ) (bar : Bar) (piece : Piece1d)
    → 0 < length bar.cuts
    → place_piece_in_bar bar piece kerf ≡ record bar {
      cuts = bar.cuts ++ cut_at piece (bar.current_position + kerf) ∷ [];
      current_position = bar.current_position + kerf + piece.length;
      remaining_length = bar.remaining_length - (piece.length + kerf);
    }
unfolding place_piece_in_bar
place_piece_in_bar_lem kerf bar piece h = ground arith

-- A piece that fits, placed in a valid bar, leaves a valid bar.
pub place_piece_in_bar-IsValidBar :
    (kerf : ℕ) (bar : Bar) (piece : Piece1d)
    → IsValidBar kerf bar
    → can_fit_in_bar bar piece.length kerf ≡ true
    → IsValidBar kerf (place_piece_in_bar bar piece kerf)
place_piece_in_bar-IsValidBar kerf bar piece v h =
    let room = fit-le kerf bar piece.length v.nonempty h in
    let new = cut_at piece (bar.current_position + kerf) in
    rw (place_piece_in_bar_lem kerf bar piece v.nonempty) (record {
      spaced =
          Spaced-append kerf bar.cuts new v.spaced (All-map (λ c e. omega arith) bar.cuts v.ends);
      ends =
          All-append (λ c. c.position + c.length ≤ bar.current_position + kerf + piece.length)
            bar.cuts (new ∷ []) (All-map (λ c e. omega arith) bar.cuts v.ends) (omega arith, tt);
      used = used;
      balance = omega (arith, v.balance);
      nonempty = omega (arith, length-append bar.cuts (new ∷ []));
    })
  where
    used :
        total_length (bar.cuts ++ cut_at piece (bar.current_position + kerf) ∷ [])
          + kerf * length (bar.cuts ++ cut_at piece (bar.current_position + kerf) ∷ [])
        ≡ bar.current_position + kerf + piece.length + kerf
    used =
        rw
          (
            length-append bar.cuts (cut_at piece (bar.current_position + kerf) ∷ []),
            sum_by-append (λ c. c.length) bar.cuts
                (cut_at piece (bar.current_position + kerf) ∷ []),
          )
          (omega (arith, v.used))

-- The offcut that is reported as usable starts a kerf after the last piece, ends where the bar
-- ends, and is at least the configured minimum; the source's subtraction is exact.
pub calculate_usable_waste_lem :
    (bar : Bar) (o : Options1d) (w : WasteSegment)
    → IsValidBar o.kerf bar
    → calculate_usable_waste bar o ≡ some w
    → (o.min_usable_waste ≤ w.length)
      × (w.position + w.length ≡ bar.stock_length)
      × All (λ c. c.position + c.length + o.kerf ≤ w.position) bar.cuts
unfolding calculate_usable_waste
calculate_usable_waste_lem bar o w v h = (
  ground (arith, v.balance),
  ground (arith, v.balance),
  All-map (λ c e. omega (arith, position)) bar.cuts v.ends,
)
  where
    position : w.position ≡ bar.current_position + o.kerf
    position = ground arith
