-- ===== src/Engine/Confirm/Outcome.antt =====
-- What the transaction of `confirm_booking` leaves behind, on every branch.
use transity_terminal_resv_c.Common.{
  ◌≡◌, refl, ap, true, false, Result, Text, none, some, arith, ok, err,
}
use transity_terminal_resv_c.Engine.Types.{ConfirmResult, SqlxError, EngineError}
use transity_terminal_resv_c.Engine.Events.{Publisher}
use transity_terminal_resv_c.Engine.Database.{
  HoldRow, Tables, Database, Env, World, begin, select_hold,
}
use transity_terminal_resv_c.Engine.Confirm.{
  refused, live_hold, book_inventory, consume_hold, confirm_txn, finish_confirm, confirm_booking,
}

-- The tables after a confirmation.
abbrev pub confirmed_tables : Text → Text → Tables → Tables
confirmed_tables hold_ref booking_id t =
    consume_hold hold_ref booking_id (book_inventory hold_ref t)

-- The hold that a confirmation consumes.
pub record Confirmable (env : Env) (hold_ref : Text) (t : Tables) (row : HoldRow) : Type 0 where
  pub live : live_hold hold_ref env.db_now t ≡ some row
  pub unconsumed : row.booking_id ≡ none

-- The committed tables after the transaction, by its result.
abbrev pub Confirms :
    Env → Text → Text → Tables → Tables → Result SqlxError (Result ConfirmResult HoldRow) → Type 0
Confirms env hold_ref booking_id t t' (ok (ok row)) =
    Confirmable env hold_ref t row × (t' ≡ confirmed_tables hold_ref booking_id t)
Confirms env hold_ref booking_id t t' (ok (err _)) = t' ≡ t
Confirms env hold_ref booking_id t t' (err _) = t' ≡ t

pub confirm_txn_cases :
    (env : Env) (hold_ref booking_id : Text) (d : Database)
    → let (r, d') = confirm_txn env hold_ref booking_id d in
      Confirms env hold_ref booking_id d.committed d'.committed r
unfolding confirm_txn
confirm_txn_cases env hold_ref booking_id d = ground arith

abbrev pub confirmed_reply : Result EngineError ConfirmResult
confirmed_reply = ok (record { success = true; conflict = none })

abbrev pub HasRow : Result SqlxError (Result ConfirmResult HoldRow) → Type 0
HasRow (ok (ok _)) = Unit
HasRow (ok (err _)) = ⊥
HasRow (err _) = ⊥

-- The early returns of the transaction are refusals.
pub confirm_txn_refuses :
    (env : Env) (hold_ref booking_id : Text) (d : Database) (early : ConfirmResult)
    → (confirm_txn env hold_ref booking_id d).0 ≡ ok (err early)
    → early.success ≡ false
unfolding confirm_txn
confirm_txn_refuses env hold_ref booking_id d early e = ground arith

module _ {S : Type 0} (publisher : Publisher S) (env : Env) (hold_ref booking_id : Text)
    (w : World S) where
  -- A call that reports success has committed.
  pub confirm_success :
      (confirm_booking env publisher hold_ref booking_id w).0 ≡ confirmed_reply
      → HasRow (confirm_txn env hold_ref booking_id w.database).0
  unfolding confirm_booking finish_confirm
  confirm_success e = go (confirm_txn env hold_ref booking_id w.database).0 refl e
    where
      go :
          (r : Result SqlxError (Result ConfirmResult HoldRow))
          → (confirm_txn env hold_ref booking_id w.database).0 ≡ r
          → (finish_confirm env publisher r w.bus).0 ≡ confirmed_reply
          → HasRow r
      go (ok (ok row)) same e = tt
      go (ok (err early)) same e =
          ground (arith, confirm_txn_refuses env hold_ref booking_id w.database early same)
      go (err x) same e = cc

  pub confirm_reply :
      (row : HoldRow)
      → (confirm_txn env hold_ref booking_id w.database).0 ≡ ok (ok row)
      → (confirm_booking env publisher hold_ref booking_id w).0 ≡ confirmed_reply
  unfolding confirm_booking finish_confirm
  confirm_reply row e = ap (λ x. (finish_confirm env publisher x w.bus).0) e

  -- Without a live hold that is not consumed nothing is changed or published.
  pub confirm_miss :
      env.fails begin ≡ false
      → env.fails select_hold ≡ false
      → live_hold hold_ref env.db_now w.database.committed ≡ none
      → let (r, w') = confirm_booking env publisher hold_ref booking_id w in
        (r ≡ ok (refused "HOLD_EXPIRED_OR_MISSING"))
        × (w'.database.committed ≡ w.database.committed)
        × (w'.bus ≡ w.bus)
  unfolding confirm_booking finish_confirm confirm_txn
  confirm_miss begun selected missing = ground arith

  pub confirm_consumed :
      (h : HoldRow) (old : Text)
      → env.fails begin ≡ false
      → env.fails select_hold ≡ false
      → live_hold hold_ref env.db_now w.database.committed ≡ some h
      → h.booking_id ≡ some old
      → let (r, w') = confirm_booking env publisher hold_ref booking_id w in
        (r ≡ ok (refused "HOLD_ALREADY_CONSUMED"))
        × (w'.database.committed ≡ w.database.committed)
        × (w'.bus ≡ w.bus)
  unfolding confirm_booking finish_confirm confirm_txn
  confirm_consumed h old begun selected found consumed = ground arith
