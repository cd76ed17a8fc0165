-- ===== src/Engine/Confirm.antt =====
-- confirm.rs: `confirm_booking`.
pub mod Outcome
use transity_terminal_resv_c.Common.{
  String, true, false, ◌&&◌, Text, codes, Option, none, some, Result, ok, err, Action, pure, ◌>>=◌,
  ◌>>◌, branch, is_some,
}
use transity_terminal_resv_c.Engine.Types.{Instant, ConfirmResult, SqlxError, EngineError, db}
use transity_terminal_resv_c.Engine.Events.{Publisher, publish_best_effort, inventory_updated}
use transity_terminal_resv_c.Engine.Database.{
  InventoryRow, HoldRow, Tables, Database, Env, World, select_hold, lock_rows, update_inventory,
  update_hold, fetch, execute, begin_txn, commit_txn,
}
use transity_terminal_resv_c.Engine.Database.Sql.{select_where, find_where, update_where}
use transity_terminal_resv_c.Engine.Database.Where.{held_by, has_ref, is_live}

abbrev pub refused : String → ConfirmResult
refused reason = record { success = false; conflict = some (codes reason) }

-- SELECT … FROM seat_holds WHERE hold_ref = $1 AND expires_at > now()
unfoldable pub live_hold : Text → Instant → Tables → Option HoldRow
live_hold hold_ref now t = find_where (λ h. has_ref hold_ref h && is_live now h) t.holds

-- UPDATE seat_inventory SET booked = true, hold_ref = NULL WHERE hold_ref = $1
unfoldable pub book_inventory : Text → Tables → Tables
book_inventory hold_ref t = record t {
  inventory =
      update_where (held_by hold_ref) (λ r. record r { booked = true; hold_ref = none })
        t.inventory;
}

-- UPDATE seat_holds SET booking_id = $2 WHERE hold_ref = $1
unfoldable pub consume_hold : Text → Text → Tables → Tables
consume_hold hold_ref booking_id t = record t {
  holds = update_where (has_ref hold_ref) (λ h. record h { booking_id = some booking_id }) t.holds;
}

module _ (env : Env) where
  -- The writes of the transaction, once the hold is found and not consumed.
  consume : Text → Text → HoldRow → Action SqlxError Database (Result ConfirmResult HoldRow)
  unfolding fetch execute commit_txn
  consume hold_ref booking_id row = do
    fetch env lock_rows (λ t. select_where (held_by hold_ref) t.inventory)
    execute env update_inventory (book_inventory hold_ref)
    execute env update_hold (consume_hold hold_ref booking_id)
    commit_txn env
    pure (ok row)

  -- The checks on the row that was found; `err` is a return before the commit.
  check_hold :
      Text → Text → Option HoldRow → Action SqlxError Database (Result ConfirmResult HoldRow)
  unfolding consume
  check_hold hold_ref booking_id none = pure (err (refused "HOLD_EXPIRED_OR_MISSING"))
  check_hold hold_ref booking_id (some row) =
      branch (is_some row.booking_id) (pure (err (refused "HOLD_ALREADY_CONSUMED")))
        (consume hold_ref booking_id row)

  -- The transaction, up to its commit.
  unfoldable pub confirm_txn :
      Text → Text → Action SqlxError Database (Result ConfirmResult HoldRow)
  unfolding check_hold begin_txn fetch
  confirm_txn hold_ref booking_id = do
    begin_txn env
    hold ← fetch env select_hold (live_hold hold_ref env.db_now)
    check_hold hold_ref booking_id hold

  module _ {S : Type 0} (publisher : Publisher S) where
    unfoldable pub finish_confirm :
        Result SqlxError (Result ConfirmResult HoldRow) → S → Result EngineError ConfirmResult × S
    unfolding publish_best_effort
    finish_confirm (ok (ok row)) bus = (
      ok (record { success = true; conflict = none }),
      publish_best_effort publisher
          (inventory_updated row.trip_id row.seat_no row.leg_indexes env.event_now) bus,
    )
    finish_confirm (ok (err early)) bus = (ok early, bus)
    finish_confirm (err e) bus = (err (db e), bus)

    unfoldable pub confirm_booking : Text → Text → Action EngineError (World S) ConfirmResult
    unfolding finish_confirm
    confirm_booking hold_ref booking_id w =
        let (result, database) = confirm_txn hold_ref booking_id w.database in
        let (reply, bus) = finish_confirm result w.bus in
        (reply, record w { database = database; bus = bus })
