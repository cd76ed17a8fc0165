-- ===== src/Engine/Backing.antt =====
-- A second invariant: every row that an unconsumed hold covers carries the ref of that hold.
pub mod Reaped
use transity_terminal_resv_c.Common.{
  ℤ, ◌≡◌, refl, ap, Bool, true, false, not, ◌&&◌, ◌||◌, Text, text_eq, text_eq_iff, text_eq_refl,
  List, [], ◌∷◌, map, Option, none, some, arith, any, All, All-mono, All-of, is_some, is_none,
  Result, ok, err, inl, inr, ◌-ℤ◌, Bool-cases, text_eq-false, ◌≢◌,
}
use transity_terminal_resv_c.Engine.Types.{Uuid, Instant, SqlxError, days}
use transity_terminal_resv_c.Engine.Database.{InventoryRow, HoldRow, Tables, Env}
use transity_terminal_resv_c.Engine.Database.Sql.{update_where, delete_where}
use transity_terminal_resv_c.Engine.Database.Sql.Laws.{All-update_where, All-delete_where}
use transity_terminal_resv_c.Engine.Database.Sql.Find.{All-both}
use transity_terminal_resv_c.Engine.Database.Where.{at_seat, held_by, has_ref, is_active}
use transity_terminal_resv_c.Engine.Hold.{is_taken, mark_inventory, new_hold}
use transity_terminal_resv_c.Engine.Hold.Outcome.{held_tables, HoldAllowed, untaken_rows}
use transity_terminal_resv_c.Engine.Confirm.{book_inventory, consume_hold}
use transity_terminal_resv_c.Engine.Confirm.Outcome.{confirmed_tables}
use transity_terminal_resv_c.Engine.Release.{unmark_inventory, delete_hold_row}
use transity_terminal_resv_c.Engine.Release.Outcome.{released_tables}

abbrev pub covered : HoldRow → InventoryRow → Bool
covered h = at_seat h.trip_id h.seat_no h.leg_indexes

-- The row carries the ref of `h` if `h` covers it.
abbrev pub Carries : HoldRow → InventoryRow → Type 0
Carries h r = covered h r ≡ true → r.hold_ref ≡ some h.hold_ref

abbrev pub Backs : List InventoryRow → HoldRow → Type 0
Backs rows h = is_active h ≡ true → All (Carries h) rows

abbrev pub IsBacked : Tables → Type 0
IsBacked t = All (Backs t.inventory) t.holds

-- An update of the rows that leaves alone what `h` holds, and does not change which seat a row is of.
pub Carries-update_where :
    (h : HoldRow) (p : InventoryRow → Bool) (f : InventoryRow → InventoryRow)
    → ((r : InventoryRow) → covered h (f r) ≡ covered h r)
    → (rows : List InventoryRow)
    → All (λ r. Carries h r × (p r ≡ true → r.hold_ref ≢ some h.hold_ref)) rows
    → All (Carries h) (update_where p f rows)
Carries-update_where h p f same rows k =
    All-update_where _ (Carries h) p f (λ r e c covers. absurd (c.1 e (c.0 (rw (← same r) covers))))
      (λ r e c. c.0) rows k

held_by-ne :
    (hold_ref : Text) (h : HoldRow) (r : InventoryRow)
    → has_ref hold_ref h ≡ false
    → held_by hold_ref r ≡ true
    → r.hold_ref ≢ some h.hold_ref
unfolding held_by has_ref
held_by-ne hold_ref h r ne e same = ground arith

pub covered_same_seat :
    (h : HoldRow) (r : InventoryRow) (booked : Bool) (o : Option Text)
    → covered h (record r { booked = booked; hold_ref = o }) ≡ covered h r
unfolding at_seat
covered_same_seat h r booked o = refl

-- The rows of other refs, in an update of the rows that carry this one.
Backs-unmark :
    (hold_ref : Text) (f : InventoryRow → InventoryRow) (h : HoldRow) (rows : List InventoryRow)
    → ((r : InventoryRow) → covered h (f r) ≡ covered h r)
    → has_ref hold_ref h ≡ false
    → Backs rows h
    → Backs (update_where (held_by hold_ref) f rows) h
Backs-unmark hold_ref f h rows same ne b active =
    Carries-update_where h (held_by hold_ref) f same rows
      (All-mono (Carries h) _ rows (λ r c. (c, held_by-ne hold_ref h r ne)) (b active))

-- release
pub release-IsBacked :
    (hold_ref : Text) (t : Tables) → IsBacked t → IsBacked (released_tables hold_ref t)
unfolding unmark_inventory delete_hold_row
release-IsBacked hold_ref t b =
    All-delete_where (Backs t.inventory) (Backs (released_tables hold_ref t).inventory)
      (has_ref hold_ref)
      (λ h spared.
        Backs-unmark hold_ref _ h t.inventory (λ r. covered_same_seat h r r.booked none) spared)
      t.holds b

-- confirm
consumed_inactive :
    (h : HoldRow) (booking_id : Text) (rows : List InventoryRow)
    → Backs rows (record h { booking_id = some booking_id })
unfolding is_active
consumed_inactive h booking_id rows active = cc

pub confirm-IsBacked :
    (hold_ref booking_id : Text) (t : Tables)
    → IsBacked t
    → IsBacked (confirmed_tables hold_ref booking_id t)
unfolding book_inventory consume_hold
confirm-IsBacked hold_ref booking_id t b =
    All-update_where (Backs t.inventory) (Backs (confirmed_tables hold_ref booking_id t).inventory)
      (has_ref hold_ref) _ (λ h e _. consumed_inactive h booking_id _)
      (λ h other.
        Backs-unmark hold_ref _ h t.inventory (λ r. covered_same_seat h r true none) other)
      t.holds b

-- hold
untaken_not_held : (r : InventoryRow) (o : Text) → is_taken r ≡ false → r.hold_ref ≢ some o
unfolding is_taken
untaken_not_held r o e same = ground arith

module _ (trip_id : Uuid) (seat_no : Text) (legs : List ℤ) (operator_id ttl_class hold_ref : Text)
    (expires_at : Instant) where
  new_row_backed :
      (rows : List InventoryRow)
      → Backs
          (update_where
            (at_seat trip_id seat_no legs)
            (λ r. record r { hold_ref = some hold_ref })
            rows)
          (new_hold trip_id seat_no legs operator_id ttl_class hold_ref expires_at)
  unfolding new_hold at_seat
  new_row_backed rows active =
      All-update_where (λ _. Unit {0})
        (Carries (new_hold trip_id seat_no legs operator_id ttl_class hold_ref expires_at))
        (at_seat trip_id seat_no legs) _ (λ r e _ covers. refl) (λ r e _ covers. cc) rows
        (All-of _ (λ r. tt) rows)

  pub hold-IsBacked :
      (t : Tables)
      → HoldAllowed trip_id seat_no legs operator_id ttl_class hold_ref expires_at t
      → IsBacked t
      → IsBacked (held_tables trip_id seat_no legs operator_id ttl_class hold_ref expires_at t)
  unfolding mark_inventory
  hold-IsBacked t allowed b =
      (new_row_backed t.inventory, All-mono (Backs t.inventory) _ t.holds (λ h. old h) b)
    where
      old :
          (h : HoldRow)
          → Backs t.inventory h
          → Backs
              (update_where
                (at_seat trip_id seat_no legs)
                (λ r. record r { hold_ref = some hold_ref })
                t.inventory)
              h
      old h backs active =
          Carries-update_where h (at_seat trip_id seat_no legs) _
            (λ r. covered_same_seat h r r.booked (some hold_ref)) t.inventory
            (All-both (Carries h) _ t.inventory (backs active) (
              All-mono _ _ t.inventory (λ r untaken e. untaken_not_held r h.hold_ref (untaken e))
                (untaken_rows trip_id seat_no legs operator_id ttl_class hold_ref expires_at t
                  allowed)))
