-- ===== src/Engine/Release.antt =====
-- release.rs: `release_hold_by_ref`.
pub mod Outcome
use transity_terminal_resv_c.Common.{
  true, false, ◌&&◌, Text, Option, none, some, Result, ok, err, Action, pure, ◌>>=◌, ◌>>◌,
}
use transity_terminal_resv_c.Engine.Types.{ReleaseResult, SqlxError, EngineError, db}
use transity_terminal_resv_c.Engine.Events.{Publisher, emit_release_pair}
use transity_terminal_resv_c.Engine.Database.{
  InventoryRow, HoldRow, Tables, Database, Env, World, select_hold, update_inventory, delete_hold,
  fetch, execute, begin_txn, commit_txn,
}
use transity_terminal_resv_c.Engine.Database.Sql.{find_where, update_where, delete_where}
use transity_terminal_resv_c.Engine.Database.Where.{held_by, has_ref, is_active}

-- SELECT … FROM seat_holds WHERE hold_ref = $1 AND booking_id IS NULL
unfoldable pub active_hold : Text → Tables → Option HoldRow
active_hold hold_ref t = find_where (λ h. has_ref hold_ref h && is_active h) t.holds

-- UPDATE seat_inventory SET hold_ref = NULL WHERE hold_ref = $1
unfoldable pub unmark_inventory : Text → Tables → Tables
unmark_inventory hold_ref t = record t {
  inventory = update_where (held_by hold_ref) (λ r. record r { hold_ref = none }) t.inventory;
}

-- DELETE FROM seat_holds WHERE hold_ref = $1
unfoldable pub delete_hold_row : Text → Tables → Tables
delete_hold_row hold_ref t = record t { holds = delete_where (has_ref hold_ref) t.holds }

module _ (env : Env) where
  -- The writes, if an active hold was found.
  release_row : Text → Option HoldRow → Action SqlxError Database (Option HoldRow)
  unfolding execute commit_txn
  release_row hold_ref none = pure none
  release_row hold_ref (some row) = do
    execute env update_inventory (unmark_inventory hold_ref)
    execute env delete_hold (delete_hold_row hold_ref)
    commit_txn env
    pure (some row)

  -- The transaction; `none` is the return without an active hold.
  unfoldable pub release_txn : Text → Action SqlxError Database (Option HoldRow)
  unfolding begin_txn fetch release_row
  release_txn hold_ref = do
    begin_txn env
    hold ← fetch env select_hold (active_hold hold_ref)
    release_row hold_ref hold

  module _ {S : Type 0} (publisher : Publisher S) where
    unfoldable pub finish_release :
        Result SqlxError (Option HoldRow) → S → Result EngineError ReleaseResult × S
    unfolding emit_release_pair
    finish_release (ok (some row)) bus = (
      ok (record { success = true }),
      (emit_release_pair publisher row.trip_id row.seat_no row.leg_indexes env.event_now bus).1,
    )
    finish_release (ok none) bus = (ok (record { success = false }), bus)
    finish_release (err e) bus = (err (db e), bus)

    unfoldable pub release_hold_by_ref : Text → Action EngineError (World S) ReleaseResult
    unfolding finish_release
    release_hold_by_ref hold_ref w =
        let (result, database) = release_txn hold_ref w.database in
        let (reply, bus) = finish_release result w.bus in
        (reply, record w { database = database; bus = bus })
