-- ===== src/Engine/System/Backed.antt =====
-- The second invariant over histories, and what it gives a confirmation.
use transity_terminal_resv_c.Common.{
  ◌≡◌, ◌≢◌, refl, ℤ, Text, List, [], ◌∷◌, true, ◌&&◌, none, some, All, arith, ok, err, Result,
}
use transity_terminal_resv_c.Engine.Types.{Uuid, ConfirmResult, SqlxError}
use transity_terminal_resv_c.Engine.Events.{Publisher}
use transity_terminal_resv_c.Engine.Database.{InventoryRow, HoldRow, Tables, Env, World}
use transity_terminal_resv_c.Engine.Database.Sql.Laws.{All-update_where, find_where_sound}
use transity_terminal_resv_c.Engine.Database.Sql.Find.{All-find_where}
use transity_terminal_resv_c.Engine.Database.Where.{held_by, has_ref, is_live, is_active}
use transity_terminal_resv_c.Engine.Confirm.{
  live_hold, book_inventory, consume_hold, confirm_txn, confirm_booking,
}
use transity_terminal_resv_c.Engine.Confirm.Outcome.{
  confirmed_tables, Confirmable, Confirms, confirm_txn_cases, confirmed_reply, HasRow,
  confirm_success,
}
use transity_terminal_resv_c.Engine.Backing.{
  covered, Carries, Backs, IsBacked, hold-IsBacked, confirm-IsBacked, release-IsBacked,
}
use transity_terminal_resv_c.Engine.Backing.Reaped.{Reaps-IsBacked}
use transity_terminal_resv_c.Engine.System.{Operation, cancel, perform, perform_all}
use transity_terminal_resv_c.Engine.System.Committed.{
  Commits, unchanged, held, confirmed, freed, released, reaped, perform-Commits,
}

abbrev pub NotCancel : Operation → Type 0
NotCancel (cancel _ _ _) = ⊥
NotCancel _ = Unit

abbrev pub NoCancel : List (Env × Operation) → Type 0
NoCancel ops = All (λ (e : Env × Operation). NotCancel e.1) ops

not_cancel :
    (op : Operation) (trip_id : Uuid) (seat_no : Text) (legs : List ℤ)
    → NotCancel op
    → op ≢ cancel trip_id seat_no legs
not_cancel (cancel _ _ _) trip_id seat_no legs n e = n
not_cancel op trip_id seat_no legs n e = cc

Commits-IsBacked :
    {env : Env} {op : Operation} {t t' : Tables}
    → NotCancel op
    → Commits env op t t'
    → IsBacked t
    → IsBacked t'
Commits-IsBacked n unchanged b = b
Commits-IsBacked {t} n (held trip_id seat_no legs operator_id ttl_class hold_ref expires_at allowed)
      b =
    hold-IsBacked trip_id seat_no legs operator_id ttl_class hold_ref expires_at t allowed b
Commits-IsBacked {t} n (confirmed hold_ref booking_id row _) b =
    confirm-IsBacked hold_ref booking_id t b
Commits-IsBacked {op} n (freed trip_id seat_no legs e) b =
    absurd (not_cancel op trip_id seat_no legs n e)
Commits-IsBacked {t} n (released hold_ref row _) b = release-IsBacked hold_ref t b
Commits-IsBacked {env} {t} n (reaped retention_days r t' h) b =
    Reaps-IsBacked env retention_days t t' r h b

-- In a history without cancellations, whatever fails, every row that an unconsumed hold covers
-- goes on to carry the ref of that hold.
pub perform_all-IsBacked :
    {S : Type 0} (publisher : Publisher S) (ops : List (Env × Operation)) (w : World S)
    → NoCancel ops
    → IsBacked w.database.committed
    → IsBacked (perform_all publisher ops w).database.committed
unfolding perform_all
perform_all-IsBacked publisher [] w n b = b
perform_all-IsBacked publisher ((env, op) ∷ ops) w n b =
    perform_all-IsBacked publisher ops (perform publisher env op w) n.1
      (Commits-IsBacked n.0 (perform-Commits publisher env op w) b)

-- Every row that the hold covers is booked, and carries no ref.
abbrev pub IsBooked : HoldRow → Tables → Type 0
IsBooked h t = All (λ r. covered h r ≡ true → (r.booked ≡ true) × (r.hold_ref ≡ none)) t.inventory

held_by_carried :
    (hold_ref : Text) (h : HoldRow) (r : InventoryRow)
    → has_ref hold_ref h ≡ true
    → r.hold_ref ≡ some h.hold_ref
    → held_by hold_ref r ≡ true
unfolding held_by has_ref
held_by_carried hold_ref h r e carried = ground arith

live_has_ref :
    (env : Env) (hold_ref : Text) (t : Tables) (h : HoldRow)
    → live_hold hold_ref env.db_now t ≡ some h
    → has_ref hold_ref h ≡ true
unfolding live_hold
live_has_ref env hold_ref t h e =
    let both = find_where_sound (λ x. has_ref hold_ref x && is_live env.db_now x) t.holds h e in
    ground arith

unconsumed_active : (h : HoldRow) → h.booking_id ≡ none → is_active h ≡ true
unfolding is_active
unconsumed_active h e = ground arith

confirmed-IsBooked :
    (env : Env) (hold_ref booking_id : Text) (t : Tables) (h : HoldRow)
    → IsBacked t
    → Confirmable env hold_ref t h
    → IsBooked h (confirmed_tables hold_ref booking_id t)
unfolding book_inventory consume_hold live_hold
confirmed-IsBooked env hold_ref booking_id t h b c =
    All-update_where (Carries h) _ (held_by hold_ref)
      (λ r. record r { booked = true; hold_ref = none }) (λ r e _ covers. (refl, refl))
      (λ r miss carries covers.
        cc (held_by_carried hold_ref h r (live_has_ref env hold_ref t h c.live) (carries covers)))
      t.inventory
      (All-find_where (Backs t.inventory) (λ x. has_ref hold_ref x && is_live env.db_now x) t.holds
        h b c.live (unconsumed_active h c.unconsumed))

module _ {S : Type 0} (publisher : Publisher S) (env : Env) (hold_ref booking_id : Text)
    (h : HoldRow) (w : World S) where
  -- Where every unconsumed hold has its rows, a confirmation that reports success has booked every
  -- row that the hold covers.
  pub confirm_booking-IsBooked :
      IsBacked w.database.committed
      → live_hold hold_ref env.db_now w.database.committed ≡ some h
      → (confirm_booking env publisher hold_ref booking_id w).0 ≡ confirmed_reply
      → IsBooked h (confirm_booking env publisher hold_ref booking_id w).1.database.committed
  unfolding confirm_booking
  confirm_booking-IsBooked b live e =
      go (confirm_txn env hold_ref booking_id w.database).0
        (confirm_success publisher env hold_ref booking_id w e)
        (confirm_txn_cases env hold_ref booking_id w.database)
    where
      t' : Tables
      t' = (confirm_txn env hold_ref booking_id w.database).1.committed

      go :
          (r : Result SqlxError (Result ConfirmResult HoldRow))
          → HasRow r
          → Confirms env hold_ref booking_id w.database.committed t' r
          → IsBooked h t'
      go (ok (ok row)) _ (c, changed) =
          let same : h ≡ row = ground (arith, live, c.live) in
          rw (changed, same)
            (confirmed-IsBooked env hold_ref booking_id w.database.committed row b c)
      go (ok (err early)) h c = absurd h
      go (err x) h c = absurd h
