-- ===== src/Engine/Hold.antt =====
-- hold.rs: `atomic_hold` and its transaction.
pub mod Outcome
pub mod Race
use transity_terminal_resv_c.Common.{
  ℤ, ◌+ℤ◌, leb_ℤ, Bool, true, false, ◌||◌, Text, List, [], ◌∷◌, Option, none, some, length, any,
  ◌==◌, is_some, Result, ok, err, Action, pure, ◌>>=◌, ◌>>◌, branch, not,
}
use transity_terminal_resv_c.Engine.Types.{
  Uuid, Instant, seconds, as_str, SeatHoldRequest, HoldFailureReason, incomplete_inventory,
  seat_conflict, transaction_error, AtomicHoldResult, new_success, new_failure, SqlxError,
  unique_violation, EngineError,
}
use transity_terminal_resv_c.Engine.Events.{Publisher, publish_best_effort, inventory_updated}
use transity_terminal_resv_c.Engine.Database.{
  InventoryRow, HoldRow, Tables, Database, Env, World, select_rows, update_inventory, insert_hold,
  fetch, execute, execute_checked, begin_txn, commit_txn,
}
use transity_terminal_resv_c.Engine.Database.Sql.{select_where, find_where, update_where, order_by}
use transity_terminal_resv_c.Engine.Database.Where.{at_seat, has_ref}

unfoldable pub leg_order : InventoryRow → InventoryRow → Bool
leg_order r s = leb_ℤ r.leg_index s.leg_index

-- SELECT booked, hold_ref … ORDER BY leg_index FOR UPDATE
unfoldable pub inventory_rows : Uuid → Text → List ℤ → Tables → List InventoryRow
unfolding leg_order
inventory_rows trip_id seat_no leg_indexes t =
    order_by leg_order (select_where (at_seat trip_id seat_no leg_indexes) t.inventory)

-- The test of the conflict loop.
unfoldable pub is_taken : InventoryRow → Bool
is_taken r = r.booked || is_some r.hold_ref

-- UPDATE seat_inventory SET hold_ref = $4
unfoldable pub mark_inventory : Uuid → Text → List ℤ → Text → Tables → Tables
mark_inventory trip_id seat_no leg_indexes hold_ref t = record t {
  inventory =
      update_where (at_seat trip_id seat_no leg_indexes)
        (λ r. record r { hold_ref = some hold_ref }) t.inventory;
}

-- INSERT INTO seat_holds, whose hold_ref is UNIQUE.
unfoldable pub insert_hold_row : HoldRow → Tables → Result SqlxError Tables
insert_hold_row h t = elim (find_where (has_ref h.hold_ref) t.holds) [
  | none ↦ ok (record t { holds = h ∷ t.holds })
  | some _ ↦ err unique_violation
]

unfoldable pub new_hold : Uuid → Text → List ℤ → Text → Text → Text → Instant → HoldRow
new_hold trip_id seat_no leg_indexes operator_id ttl_class hold_ref expires_at = record {
  hold_ref = hold_ref;
  trip_id = trip_id;
  seat_no = seat_no;
  leg_indexes = leg_indexes;
  ttl_class = ttl_class;
  operator_id = operator_id;
  booking_id = none;
  expires_at = expires_at;
}

module _ (env : Env) where
  unfoldable pub run_hold_txn :
      Uuid
      → Text
      → List ℤ
      → Text
      → Text
      → Text
      → Instant
      → Action SqlxError Database (Result HoldFailureReason (Unit {0}))
  unfolding fetch execute execute_checked begin_txn commit_txn insert_hold_row new_hold
  run_hold_txn trip_id seat_no leg_indexes operator_id ttl_class hold_ref expires_at = do
    begin_txn env
    rows ← fetch env select_rows (inventory_rows trip_id seat_no leg_indexes)
    branch (not (length rows == length leg_indexes)) (pure (err incomplete_inventory)) (
        branch (any is_taken rows) (pure (err seat_conflict)) do
          execute env update_inventory (mark_inventory trip_id seat_no leg_indexes hold_ref)
          execute_checked env insert_hold (
              insert_hold_row
                (new_hold trip_id seat_no leg_indexes operator_id ttl_class hold_ref expires_at))
          commit_txn env
          pure (ok tt))

  module _ {S : Type 0} (publisher : Publisher S) where
    -- The `match result` of `atomic_hold`.
    unfoldable pub finish_hold :
        SeatHoldRequest
        → Instant
        → Result SqlxError (Result HoldFailureReason (Unit {0}))
        → S
        → Result EngineError AtomicHoldResult × S
    unfolding publish_best_effort new_success new_failure
    finish_hold req expires_at (ok (ok _)) bus = (
      ok (new_success env.new_uuid expires_at),
      publish_best_effort publisher
          (inventory_updated req.trip_id req.seat_no req.leg_indexes env.event_now) bus,
    )
    finish_hold req expires_at (ok (err reason)) bus =
        (ok (new_failure reason (req.seat_no ∷ [])), bus)
    finish_hold req expires_at (err e) bus =
        (ok (new_failure transaction_error (req.seat_no ∷ [])), bus)

    unfoldable pub atomic_hold : SeatHoldRequest → ℤ → Action EngineError (World S) AtomicHoldResult
    unfolding finish_hold seconds as_str
    atomic_hold req ttl_seconds w =
        let hold_ref_str = env.uuid_string env.new_uuid in
        let expires_at = env.app_now +ℤ seconds ttl_seconds in
        let (result, database) =
          run_hold_txn req.trip_id req.seat_no req.leg_indexes req.operator_id
            (as_str req.ttl_class) hold_ref_str expires_at w.database in
        let (reply, bus) = finish_hold req expires_at result w.bus in
        (reply, record w { database = database; bus = bus })
