-- ===== src/Engine/Lifecycle/CancelConfirm.antt =====
-- A cancellation of a seat that is only held, and a confirmation of its hold.
use transity_terminal_resv_c.Common.{
  ℤ, ◌≡◌, refl, ap, ◌∙◌, true, false, Text, text_eq_iff, List, Option, none, some, arith, All,
  All-of, ok,
}
use transity_terminal_resv_c.Engine.Types.{Uuid, Instant}
use transity_terminal_resv_c.Engine.Events.{Publisher}
use transity_terminal_resv_c.Engine.Database.{
  InventoryRow, HoldRow, Tables, Call, Env, World, Database, begin, commit, select_hold, lock_rows,
  update_inventory, update_hold,
}
use transity_terminal_resv_c.Engine.Database.Sql.{find_where}
use transity_terminal_resv_c.Engine.Database.Sql.Laws.{All-update_where}
use transity_terminal_resv_c.Engine.Database.Sql.Find.{find_where-and}
use transity_terminal_resv_c.Engine.Database.Sql.Any.{update_where_unreached}
use transity_terminal_resv_c.Engine.Database.Where.{held_by, has_ref, is_live}
use transity_terminal_resv_c.Engine.Confirm.{
  live_hold, book_inventory, consume_hold, confirm_txn, confirm_booking,
}
use transity_terminal_resv_c.Engine.Confirm.Outcome.{
  confirmed_tables, confirmed_reply, confirm_reply,
}
use transity_terminal_resv_c.Engine.Cancel.{free_seat, cancel_txn, cancel_booking_seats}
use transity_terminal_resv_c.Engine.Invariant.{IsOwned, OwnedAt, IsConsistent}
use transity_terminal_resv_c.Engine.Backing.{covered}

cleared_unheld :
    (r : InventoryRow) (hold_ref : Text)
    → held_by hold_ref (record r { booked = false; hold_ref = none }) ≡ false
unfolding held_by
cleared_unheld r hold_ref = refl

module _ (t : Tables) (hold_ref : Text) (h : HoldRow)
    (found : find_where (has_ref hold_ref) t.holds ≡ some h) where
  -- What the cancelled seat's other rows carry is not this ref.
  uncovered_unheld :
      (r : InventoryRow) → covered h r ≡ false → IsOwned t.holds r → held_by hold_ref r ≡ false
  unfolding held_by
  uncovered_unheld r miss o = go r.hold_ref refl o
    where
      go : (o : Option Text) → r.hold_ref ≡ o → OwnedAt t.holds r o → held_by hold_ref r ≡ false
      go none e o = rw e refl
      go (some g) e o = ground (
        arith,
        text_eq_iff g hold_ref,
        λ (same : g ≡ hold_ref). ap (λ x. find_where (has_ref x) t.holds) same,
        o.found,
        found,
        o.covers,
        λ (same : o.row ≡ h). ap (λ x. covered x r) same,
      )

  freed_unheld :
      IsConsistent t
      → All
          (λ r. held_by hold_ref r ≡ false)
          (free_seat h.trip_id h.seat_no h.leg_indexes t).inventory
  unfolding free_seat
  freed_unheld c =
      All-update_where (IsOwned t.holds) (λ r. held_by hold_ref r ≡ false) (covered h)
        (λ r. record r { booked = false; hold_ref = none }) (λ r e _. cleared_unheld r hold_ref)
        uncovered_unheld t.inventory c.owned

freed_unbooked :
    (t : Tables) (h : HoldRow)
    → All
        (λ r. covered h r ≡ true → r.booked ≡ false)
        (free_seat h.trip_id h.seat_no h.leg_indexes t).inventory
unfolding free_seat
freed_unbooked t h =
    All-update_where (λ _. Unit {0}) (λ r. covered h r ≡ true → r.booked ≡ false) (covered h)
      (λ r. record r { booked = false; hold_ref = none }) (λ r e _ _. refl) (λ r e _ covers. cc)
      t.inventory (All-of _ (λ r. tt) t.inventory)

live_after_cancel :
    (now : Instant) (hold_ref : Text) (t : Tables) (h : HoldRow)
    → find_where (has_ref hold_ref) t.holds ≡ some h
    → is_live now h ≡ true
    → live_hold hold_ref now (free_seat h.trip_id h.seat_no h.leg_indexes t) ≡ some h
unfolding live_hold free_seat
live_after_cancel now hold_ref t h found live =
    find_where-and (has_ref hold_ref) (is_live now) t.holds h found live

-- A confirmation of a ref that no row carries changes no row.
confirmed_nothing :
    (hold_ref booking_id : Text) (t : Tables)
    → All (λ r. held_by hold_ref r ≡ false) t.inventory
    → (confirmed_tables hold_ref booking_id t).inventory ≡ t.inventory
unfolding book_inventory consume_hold
confirmed_nothing hold_ref booking_id t h =
    update_where_unreached (λ r. held_by hold_ref r ≡ false) (held_by hold_ref) _ (λ r e. e)
      t.inventory h

-- With no failing call a live hold that is not consumed is confirmed.
pub confirm_txn_quiet :
    (env : Env) (hold_ref booking_id : Text) (d : Database) (row : HoldRow)
    → ((c : Call) → env.fails c ≡ false)
    → live_hold hold_ref env.db_now d.committed ≡ some row
    → row.booking_id ≡ none
    → let (r, d') = confirm_txn env hold_ref booking_id d in
      (r ≡ ok (ok row)) × (d'.committed ≡ confirmed_tables hold_ref booking_id d.committed)
unfolding confirm_txn
confirm_txn_quiet env hold_ref booking_id d row quiet found unconsumed = ground (
  arith,
  quiet begin,
  quiet select_hold,
  quiet lock_rows,
  quiet update_inventory,
  quiet update_hold,
  quiet commit,
)

cancel_quiet :
    {S : Type 0} (publisher : Publisher S) (env : Env) (trip_id : Uuid) (seat_no : Text)
    (legs : List ℤ) (w : World S)
    → ((c : Call) → env.fails c ≡ false)
    → (cancel_booking_seats env publisher trip_id seat_no legs w).1.database.committed
      ≡ free_seat trip_id seat_no legs w.database.committed
unfolding cancel_booking_seats cancel_txn
cancel_quiet publisher env trip_id seat_no legs w quiet =
    ground (arith, quiet begin, quiet update_inventory, quiet commit)

module _ {S : Type 0} (publisher : Publisher S) (env later : Env) (hold_ref booking_id : Text)
    (h : HoldRow) (w : World S) where
  -- In consistent tables, after a cancellation of exactly the legs of an unconsumed hold, a
  -- confirmation of that hold before its expiry, with no failing call, reports success; but it
  -- changes no row of the inventory, and every row that the hold covers is not booked.
  pub confirm_booking-cancel_booking_seats :
      IsConsistent w.database.committed
      → find_where (has_ref hold_ref) w.database.committed.holds ≡ some h
      → h.booking_id ≡ none
      → is_live later.db_now h ≡ true
      → ((c : Call) → env.fails c ≡ false)
      → ((c : Call) → later.fails c ≡ false)
      → let w1 = (cancel_booking_seats env publisher h.trip_id h.seat_no h.leg_indexes w).1 in
        let (r, w2) = confirm_booking later publisher hold_ref booking_id w1 in
        (r ≡ confirmed_reply)
        × (w2.database.committed.inventory ≡ w1.database.committed.inventory)
        × All (λ r. covered h r ≡ true → r.booked ≡ false) w2.database.committed.inventory
  unfolding confirm_booking
  confirm_booking-cancel_booking_seats c found unconsumed live quiet quiet' =
      confirm_freed (cancel_booking_seats env publisher h.trip_id h.seat_no h.leg_indexes w).1
        (cancel_quiet publisher env h.trip_id h.seat_no h.leg_indexes w quiet)
    where
      t : Tables
      t = w.database.committed

      confirm_freed :
          (w1 : World S)
          → w1.database.committed ≡ free_seat h.trip_id h.seat_no h.leg_indexes t
          → let (r, w2) = confirm_booking later publisher hold_ref booking_id w1 in
            (r ≡ confirmed_reply)
            × (w2.database.committed.inventory ≡ w1.database.committed.inventory)
            × All (λ r. covered h r ≡ true → r.booked ≡ false) w2.database.committed.inventory
      confirm_freed w1 e =
          let live_now =
            ap (live_hold hold_ref later.db_now) e
            ∙ live_after_cancel later.db_now hold_ref t h found live in
          let (done, changed) =
            confirm_txn_quiet later hold_ref booking_id w1.database h quiet' live_now unconsumed in
          let same =
            ap (λ (x : Tables). x.inventory) changed
            ∙ confirmed_nothing hold_ref booking_id w1.database.committed
                (rw e (freed_unheld t hold_ref h found c)) in
          (
            confirm_reply publisher later hold_ref booking_id w1 h done,
            same,
            rw same (rw e (freed_unbooked t h)),
          )
