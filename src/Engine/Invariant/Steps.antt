-- ===== src/Engine/Invariant/Steps.antt =====
-- Each change of the tables keeps them consistent.
use transity_terminal_resv_c.Common.{
  ℤ, ◌≡◌, refl, true, false, Text, text_eq, text_eq_refl, List, ◌∷◌, none, some, arith, inl, inr,
  ap, Bool-cases,
}
use transity_terminal_resv_c.Engine.Types.{Uuid, Instant}
use transity_terminal_resv_c.Engine.Database.{InventoryRow, HoldRow, Tables}
use transity_terminal_resv_c.Engine.Database.Sql.{find_where, update_where, delete_where}
use transity_terminal_resv_c.Engine.Database.Sql.Laws.{All-update_where, find_where_sound}
use transity_terminal_resv_c.Engine.Database.Sql.Find.{
  find_where-delete_where, find_where-update_where, All-both,
}
use transity_terminal_resv_c.Engine.Database.Where.{at_seat, held_by, has_ref, is_active}
use transity_terminal_resv_c.Engine.Hold.{is_taken, mark_inventory, new_hold}
use transity_terminal_resv_c.Engine.Hold.Outcome.{held_tables, HoldAllowed, untaken_rows}
use transity_terminal_resv_c.Engine.Confirm.{book_inventory, consume_hold}
use transity_terminal_resv_c.Engine.Confirm.Outcome.{confirmed_tables}
use transity_terminal_resv_c.Engine.Cancel.{free_seat}
use transity_terminal_resv_c.Engine.Release.{unmark_inventory, delete_hold_row}
use transity_terminal_resv_c.Engine.Release.Outcome.{released_tables}
use transity_terminal_resv_c.Engine.Invariant.{IsOwned, IsConsistent}
use transity_terminal_resv_c.Engine.Invariant.Keep.{
  IsOwned-keep, HasDistinctRefs-delete_where, HasDistinctRefs-update_where, has_ref-ne, has_ref-eq,
}

-- hold
module _ (trip_id : Uuid) (seat_no : Text) (legs : List ℤ) (operator_id ttl_class hold_ref : Text)
    (expires_at : Instant) where
  abbrev pub row : HoldRow
  row = new_hold trip_id seat_no legs operator_id ttl_class hold_ref expires_at

  hold-hit :
      (holds : List HoldRow) (r : InventoryRow)
      → at_seat trip_id seat_no legs r ≡ true
      → is_taken r ≡ false
      → IsOwned (row ∷ holds) (record r { hold_ref = some hold_ref })
  unfolding is_taken new_hold find_where has_ref at_seat is_active
  hold-hit holds r e free = record {
    row = row;
    found = rw text_eq_refl;
    active = refl;
    covers = e;
    unbooked = ground arith;
  }

  hold-miss :
      (holds : List HoldRow) (r : InventoryRow)
      → find_where (has_ref hold_ref) holds ≡ none
      → IsOwned holds r
      → IsOwned (row ∷ holds) r
  unfolding find_where new_hold
  hold-miss holds r fresh = IsOwned-keep holds (row ∷ holds) r λ g x _ e _.
      elim (Bool-cases (has_ref g row)) [
        | inl same ↦ cc (ap (λ h. find_where (has_ref h) holds) (has_ref-eq g row same))
        | inr other ↦ rw other e
      ]

  pub hold-IsConsistent :
      (t : Tables)
      → HoldAllowed trip_id seat_no legs operator_id ttl_class hold_ref expires_at t
      → IsConsistent t
      → IsConsistent (held_tables trip_id seat_no legs operator_id ttl_class hold_ref expires_at t)
  unfolding mark_inventory new_hold
  hold-IsConsistent t ok c = record {
    distinct = (ok.fresh, c.distinct);
    owned =
        All-update_where
          (λ r. IsOwned t.holds r × (at_seat trip_id seat_no legs r ≡ true → is_taken r ≡ false))
          (IsOwned (row ∷ t.holds)) (at_seat trip_id seat_no legs)
          (λ r. record r { hold_ref = some hold_ref }) (λ r e h. hold-hit t.holds r e (h.1 e))
          (λ r e h. hold-miss t.holds r ok.fresh h.0) t.inventory
          (All-both _ _ t.inventory c.owned
            (untaken_rows trip_id seat_no legs operator_id ttl_class hold_ref expires_at t ok));
  }

-- The rows that carry another ref keep their hold through a change of the holds with this one.
other_ref :
    (hold_ref g : Text) (r : InventoryRow)
    → held_by hold_ref r ≡ false
    → r.hold_ref ≡ some g
    → text_eq g hold_ref ≡ false
unfolding held_by
other_ref hold_ref g r miss e = ground arith

-- confirm
pub confirm-IsConsistent :
    (hold_ref booking_id : Text) (t : Tables)
    → IsConsistent t
    → IsConsistent (confirmed_tables hold_ref booking_id t)
unfolding book_inventory consume_hold
confirm-IsConsistent hold_ref booking_id t c = record {
  distinct =
      HasDistinctRefs-update_where (has_ref hold_ref) consumed (λ h. refl) t.holds c.distinct;
  owned =
      All-update_where (IsOwned t.holds)
        (IsOwned (update_where (has_ref hold_ref) consumed t.holds)) (held_by hold_ref)
        (λ r. record r { booked = true; hold_ref = none }) (λ r e h. tt)
        (λ r miss h.
          IsOwned-keep t.holds _ r
            (λ g x carried e active.
              find_where-update_where (has_ref g) (has_ref hold_ref) consumed
                (λ y. unfold has_ref in refl) t.holds x e
                (has_ref-ne g hold_ref x (other_ref hold_ref g r miss carried)
                  (find_where_sound (has_ref g) t.holds x e)))
            h)
        t.inventory c.owned;
}
  where
    consumed : HoldRow → HoldRow
    consumed h = record h { booking_id = some booking_id }

-- release
pub release-IsConsistent :
    (hold_ref : Text) (t : Tables) → IsConsistent t → IsConsistent (released_tables hold_ref t)
unfolding unmark_inventory delete_hold_row
release-IsConsistent hold_ref t c = record {
  distinct = HasDistinctRefs-delete_where (has_ref hold_ref) t.holds c.distinct;
  owned =
      All-update_where (IsOwned t.holds) (IsOwned (delete_where (has_ref hold_ref) t.holds))
        (held_by hold_ref) (λ r. record r { hold_ref = none }) (λ r e h. tt)
        (λ r miss h.
          IsOwned-keep t.holds _ r
            (λ g x carried e active.
              find_where-delete_where (has_ref g) (has_ref hold_ref) t.holds x e (
                has_ref-ne g hold_ref x (other_ref hold_ref g r miss carried)
                  (find_where_sound (has_ref g) t.holds x e)))
            h)
        t.inventory c.owned;
}

-- cancel
pub cancel-IsConsistent :
    (trip_id : Uuid) (seat_no : Text) (legs : List ℤ) (t : Tables)
    → IsConsistent t
    → IsConsistent (free_seat trip_id seat_no legs t)
unfolding free_seat
cancel-IsConsistent trip_id seat_no legs t c = record {
  distinct = c.distinct;
  owned =
      All-update_where (IsOwned t.holds) (IsOwned t.holds) (at_seat trip_id seat_no legs)
        (λ r. record r { booked = false; hold_ref = none }) (λ r e h. tt) (λ r e h. h) t.inventory
        c.owned;
}
