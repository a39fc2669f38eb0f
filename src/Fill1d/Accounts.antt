-- ===== src/Fill1d/Accounts.antt =====
-- The pieces that the packing loop of 1d/ffd-algorithm.ts and 1d/bfd-algorithm.ts places and
-- rejects.
use mathlib.Core.List.{
  Perm, perm_middle, append_assoc, append-nil, map-append, perm_append_singleton,
}
use mathlib.Core.List.Perm
use nestra.Prelude.{
  ℕ, zero, suc, String, ◌≡◌, refl, sym, ap, ◌∙◌, subst, List, [], ◌∷◌, ◌++◌, map, some, modify,
  get_elem?, inl, inr, Option-cases, All, All-append, All-append_left, All-append_right,
}
use nestra.Pieces.{PieceId, Piece1d}
use nestra.Pieces.Expansion.{IsUnit}
use nestra.Stock.{Stock1dManager, find_available_stock_1d}
use nestra.Bars.{Bar, Cut, create_active_bar, place_piece_in_bar}
use nestra.Bars.Choice.{IsChooser}
use nestra.Unplaced1d.{add}
use nestra.Unplaced1d.Totals.{add_all, add_all-nil, add_all-append}
use nestra.Fill1d.{Filling, Chooser, start, open_new_bar, place_1d, fill_1d}

-- What a cut and the piece that it was made for have in common.
pub record Item : Type 0 where
  pub piece_id : PieceId
  pub order_item_id : String
  pub length : ℕ

abbrev pub item_of_piece : Piece1d → Item
item_of_piece p = record { piece_id = p.id; order_item_id = p.order_item_id; length = p.length }

abbrev pub item_of_cut : Cut → Item
item_of_cut c = record { piece_id = c.piece_id; order_item_id = c.order_item_id; length = c.length }

abbrev pub items_in : List Bar → List Item
items_in [] = []
items_in (b ∷ bs) = map item_of_cut b.cuts ++ items_in bs

items_in-new :
    (bars : List Bar) (id : String) (n : ℕ) (p : Piece1d)
    → Perm (items_in (bars ++ create_active_bar id n p ∷ [])) (item_of_piece p ∷ items_in bars)
unfolding create_active_bar
items_in-new [] id n p = Perm.rfl
items_in-new (b ∷ bars) id n p =
    Perm.trans (Perm.append_left (map item_of_cut b.cuts) (items_in-new bars id n p))
      (perm_middle (map item_of_cut b.cuts) (items_in bars))

place-cuts :
    (b : Bar) (p : Piece1d) (kerf : ℕ)
    → map item_of_cut (place_piece_in_bar b p kerf).cuts
      ≡ map item_of_cut b.cuts ++ item_of_piece p ∷ []
unfolding place_piece_in_bar
place-cuts b p kerf = map-append item_of_cut b.cuts _

items_in-place :
    (bars : List Bar) (i kerf : ℕ) (p : Piece1d) {b : Bar}
    → get_elem? bars i ≡ some b
    → Perm
        (items_in (modify (λ c. place_piece_in_bar c p kerf) bars i))
        (item_of_piece p ∷ items_in bars)
items_in-place [] i kerf p h = absurd (cc)
items_in-place (b ∷ bars) zero kerf p h =
    rw (place-cuts b p kerf, append_assoc) (perm_middle (map item_of_cut b.cuts) (items_in bars))
items_in-place (b ∷ bars) (suc i) kerf p h =
    Perm.trans (Perm.append_left (map item_of_cut b.cuts) (items_in-place bars i kerf p h))
      (perm_middle (map item_of_cut b.cuts) (items_in bars))

-- After the pieces `done`, the cuts and the rejected pieces are a rearrangement of them, and the
-- collector holds the rejected ones.
pub record Accounts (f : Filling) (done : List Piece1d) : Type 0 where
  pub rejected : List Piece1d
  pub placed_or_rejected :
      Perm (items_in f.active_bars ++ map item_of_piece rejected) (map item_of_piece done)
  pub collected : f.unplaced ≡ add_all [] rejected
  pub genuine : All IsUnit done → All IsUnit rejected

map-snoc :
    (done : List Piece1d) (p : Piece1d)
    → Perm (item_of_piece p ∷ map item_of_piece done) (map item_of_piece (done ++ p ∷ []))
map-snoc done p =
    rw (map-append item_of_piece done (p ∷ []))
      (Perm.symm (perm_append_singleton (item_of_piece p) (map item_of_piece done)))

-- One more piece among the cuts.
Accounts-placed :
    (f g : Filling) (done : List Piece1d) (p : Piece1d)
    → Accounts f done
    → g.unplaced ≡ f.unplaced
    → Perm (items_in g.active_bars) (item_of_piece p ∷ items_in f.active_bars)
    → Accounts g (done ++ p ∷ [])
Accounts-placed f g done p a e h = record {
  rejected = a.rejected;
  placed_or_rejected =
      Perm.trans (Perm.append_right (map item_of_piece a.rejected) h)
        (Perm.trans (Perm.cons (item_of_piece p) a.placed_or_rejected) (map-snoc done p));
  collected = e ∙ a.collected;
  genuine = λ h. a.genuine (All-append_left IsUnit done (p ∷ []) h);
}

-- One more rejected piece.
Accounts-rejected :
    (f : Filling) (done : List Piece1d) (p : Piece1d)
    → Accounts f done
    → Accounts (record f { unplaced = add f.unplaced p }) (done ++ p ∷ [])
Accounts-rejected f done p a = record {
  rejected = a.rejected ++ p ∷ [];
  placed_or_rejected =
      rw (map-append item_of_piece a.rejected (p ∷ []), ← append_assoc)
        (rw (map-append item_of_piece done (p ∷ []))
          (Perm.append_right (item_of_piece p ∷ []) a.placed_or_rejected));
  collected = ap (λ u. add u p) a.collected ∙ sym (add_all-append [] a.rejected p);
  genuine = λ h.
      All-append IsUnit a.rejected (p ∷ []) (a.genuine (All-append_left IsUnit done (p ∷ []) h))
        (All-append_right IsUnit done (p ∷ []) h);
}

open_new_bar-Accounts :
    (f : Filling) (done : List Piece1d) (p : Piece1d)
    → Accounts f done
    → Accounts (open_new_bar f p) (done ++ p ∷ [])
unfolding open_new_bar
open_new_bar-Accounts f done p a =
    elim (Option-cases (find_available_stock_1d f.stock_manager p.length)) [
      | inl e ↦ rw (e, open_new_bar) (Accounts-rejected f done p a)
      | inr (s, e) ↦
          rw (e, open_new_bar)
            (Accounts-placed f _ done p a refl (items_in-new f.active_bars s.id s.length p))
    ]

place_1d-Accounts :
    (choose : Chooser) (kerf : ℕ) (f : Filling) (done : List Piece1d) (p : Piece1d)
    → IsChooser choose
    → Accounts f done
    → Accounts (place_1d choose kerf f p) (done ++ p ∷ [])
unfolding place_1d
place_1d-Accounts choose kerf f done p c a =
    elim (Option-cases (choose f.active_bars p.length kerf)) [
      | inl e ↦ rw (e, place_1d) (open_new_bar-Accounts f done p a)
      | inr (i, e) ↦
          let (b, found, _) = c.fits f.active_bars p.length kerf i e in
          rw (e, place_1d)
            (Accounts-placed f _ done p a refl (items_in-place f.active_bars i kerf p found))
    ]

pub fill_1d-Accounts :
    (choose : Chooser) (kerf : ℕ) (f : Filling) (done ps : List Piece1d)
    → IsChooser choose
    → Accounts f done
    → Accounts (fill_1d choose kerf f ps) (done ++ ps)
unfolding fill_1d
fill_1d-Accounts choose kerf f done [] c a = rw (append-nil done) a
fill_1d-Accounts choose kerf f done (p ∷ ps) c a =
    subst (Accounts (fill_1d choose kerf (place_1d choose kerf f p) ps))
      (append_assoc done (p ∷ []) ps)
      (fill_1d-Accounts choose kerf (place_1d choose kerf f p) (done ++ p ∷ []) ps c
        (place_1d-Accounts choose kerf f done p c a))

-- Before the first piece.
pub start-Accounts : (m : Stock1dManager) → Accounts (start m) []
unfolding start
start-Accounts m = record {
  rejected = [];
  placed_or_rejected = Perm.nil;
  collected = sym add_all-nil;
  genuine = λ h. h;
}
