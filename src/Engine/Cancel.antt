-- ===== src/Engine/Cancel.antt =====
-- cancel.rs: `cancel_booking_seats`.
pub mod Outcome
use transity_terminal_resv_c.Common.{
  ℤ, true, false, Text, List, none, Result, ok, err, Action, pure, ◌>>=◌, ◌>>◌,
}
use transity_terminal_resv_c.Engine.Types.{Uuid, CancelResult, SqlxError, EngineError, db}
use transity_terminal_resv_c.Engine.Events.{Publisher, publish_best_effort, inventory_updated}
use transity_terminal_resv_c.Engine.Database.{
  InventoryRow, Tables, Database, Env, World, update_inventory, execute, begin_txn, commit_txn,
}
use transity_terminal_resv_c.Engine.Database.Sql.{update_where}
use transity_terminal_resv_c.Engine.Database.Where.{at_seat}

-- UPDATE seat_inventory SET booked = false, hold_ref = NULL
unfoldable pub free_seat : Uuid → Text → List ℤ → Tables → Tables
free_seat trip_id seat_no leg_indexes t = record t {
  inventory =
      update_where (at_seat trip_id seat_no leg_indexes)
        (λ r. record r { booked = false; hold_ref = none }) t.inventory;
}

module _ (env : Env) where
  unfoldable pub cancel_txn : Uuid → Text → List ℤ → Action SqlxError Database (Unit {0})
  unfolding begin_txn execute commit_txn
  cancel_txn trip_id seat_no leg_indexes = do
    begin_txn env
    execute env update_inventory (free_seat trip_id seat_no leg_indexes)
    commit_txn env

  module _ {S : Type 0} (publisher : Publisher S) where
    unfoldable pub finish_cancel :
        Uuid → Text → List ℤ → Result SqlxError (Unit {0}) → S → Result EngineError CancelResult × S
    unfolding publish_best_effort
    finish_cancel trip_id seat_no leg_indexes (ok _) bus = (
      ok (record { success = true }),
      publish_best_effort publisher (inventory_updated trip_id seat_no leg_indexes env.event_now)
          bus,
    )
    finish_cancel trip_id seat_no leg_indexes (err e) bus = (err (db e), bus)

    unfoldable pub cancel_booking_seats :
        Uuid → Text → List ℤ → Action EngineError (World S) CancelResult
    unfolding finish_cancel
    cancel_booking_seats trip_id seat_no leg_indexes w =
        let (result, database) = cancel_txn trip_id seat_no leg_indexes w.database in
        let (reply, bus) = finish_cancel trip_id seat_no leg_indexes result w.bus in
        (reply, record w { database = database; bus = bus })
