-- ===== src/Engine/Invariant/Keep.antt =====
-- How ownership and distinctness survive a change of seat_holds.
use transity_terminal_resv_c.Common.{
  ◌≡◌, refl, ap, Bool, true, false, Text, text_eq, text_eq_iff, List, [], ◌∷◌, Option, none, some,
  arith, inl, inr, Bool-cases,
}
use transity_terminal_resv_c.Engine.Database.{InventoryRow, HoldRow}
use transity_terminal_resv_c.Engine.Database.Sql.{find_where, update_where, delete_where}
use transity_terminal_resv_c.Engine.Database.Sql.Find.{
  find_where-delete_where-none, find_where-update_where-none,
}
use transity_terminal_resv_c.Engine.Database.Where.{has_ref, is_active}
use transity_terminal_resv_c.Engine.Invariant.{Owner, OwnedAt, IsOwned, HasDistinctRefs}

-- An owner stays one if its hold is still found and not changed.
Owner-keep :
    (holds holds' : List HoldRow) (r : InventoryRow) (hold_ref : Text) (o : Owner holds r hold_ref)
    → find_where (has_ref hold_ref) holds' ≡ some o.row
    → Owner holds' r hold_ref
Owner-keep holds holds' r hold_ref o e = record {
  row = o.row;
  found = e;
  active = o.active;
  covers = o.covers;
  unbooked = o.unbooked;
}

-- Rows that carry no ref, or a ref whose hold is kept, stay owned.
pub IsOwned-keep :
    (holds holds' : List HoldRow) (r : InventoryRow)
    → ((hold_ref : Text) (row : HoldRow)
        → r.hold_ref ≡ some hold_ref
        → find_where (has_ref hold_ref) holds ≡ some row
        → is_active row ≡ true
        → find_where (has_ref hold_ref) holds' ≡ some row)
    → IsOwned holds r
    → IsOwned holds' r
IsOwned-keep holds holds' r keep o = go r.hold_ref refl o
  where
    go : (h : Option Text) → r.hold_ref ≡ h → OwnedAt holds r h → OwnedAt holds' r h
    go none e o = tt
    go (some hold_ref) e o =
        Owner-keep holds holds' r hold_ref o (keep hold_ref o.row e o.found o.active)

pub HasDistinctRefs-delete_where :
    (p : HoldRow → Bool) (hs : List HoldRow)
    → HasDistinctRefs hs
    → HasDistinctRefs (delete_where p hs)
unfolding delete_where
HasDistinctRefs-delete_where p [] d = tt
HasDistinctRefs-delete_where p (h ∷ hs) d = ground (
  arith,
  HasDistinctRefs-delete_where p hs d.1,
  find_where-delete_where-none (has_ref h.hold_ref) p hs d.0,
)

pub HasDistinctRefs-update_where :
    (p : HoldRow → Bool) (f : HoldRow → HoldRow)
    → ((h : HoldRow) → (f h).hold_ref ≡ h.hold_ref)
    → (hs : List HoldRow) → HasDistinctRefs hs
    → HasDistinctRefs (update_where p f hs)
unfolding update_where has_ref
HasDistinctRefs-update_where p f same [] d = tt
HasDistinctRefs-update_where p f same (h ∷ hs) d = elim (Bool-cases (p h)) [
  | inl e ↦ rw (e, same h) (rest, HasDistinctRefs-update_where p f same hs d.1)
  | inr e ↦ rw e (rest, HasDistinctRefs-update_where p f same hs d.1)
]
  where
    rest : find_where (has_ref h.hold_ref) (update_where p f hs) ≡ none
    rest =
        find_where-update_where-none (has_ref h.hold_ref) p f
          (λ x. ap (λ r. text_eq r h.hold_ref) (same x)) hs d.0

-- Two refs that are told apart.
pub has_ref-ne :
    (g h : Text) (row : HoldRow)
    → text_eq g h ≡ false
    → has_ref g row ≡ true
    → has_ref h row ≡ false
unfolding has_ref
has_ref-ne g h row ne e =
    ground (arith, text_eq_iff row.hold_ref g, text_eq_iff row.hold_ref h, text_eq_iff g h)

pub has_ref-eq : (g : Text) (h : HoldRow) → has_ref g h ≡ true → h.hold_ref ≡ g
unfolding has_ref
has_ref-eq g h e = (text_eq_iff h.hold_ref g).0 e
