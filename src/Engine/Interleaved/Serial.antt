-- ===== src/Engine/Interleaved/Serial.antt =====
-- Interleaved transactions behave as if each were made by itself at its commit.
use mathlib.Core.Path.{subst}
use transity_terminal_resv_c.Common.{ℤ, ◌≡◌, refl, sym, Text, false, List, All, arith, ◌+ℤ◌}
use transity_terminal_resv_c.Engine.Types.{SeatHoldRequest, as_str, seconds}
use transity_terminal_resv_c.Engine.Events.{Publisher}
use transity_terminal_resv_c.Engine.Database.{
  HoldRow, Tables, Database, Call, Env, World, unlocked, begin, commit, select_rows, select_hold,
  lock_rows, update_inventory, update_hold, insert_hold,
}
use transity_terminal_resv_c.Engine.Hold.{run_hold_txn, atomic_hold, mark_inventory}
use transity_terminal_resv_c.Engine.Confirm.{confirm_txn, confirm_booking}
use transity_terminal_resv_c.Engine.Confirm.Outcome.{confirmed_tables, Confirmable}
use transity_terminal_resv_c.Engine.Release.{release_hold_by_ref}
use transity_terminal_resv_c.Engine.Lifecycle.HoldRelease.{release_txn_quiet}
use transity_terminal_resv_c.Engine.Invariant.{IsConsistent}
use transity_terminal_resv_c.Engine.System.{
  Operation, hold, confirm, cancel, release, expire, perform,
}
use transity_terminal_resv_c.Engine.System.Committed.{perform-Commits}
use transity_terminal_resv_c.Engine.System.Consistency.{Commits-IsConsistent}
use transity_terminal_resv_c.Engine.Interleaved.{
  Txn, HoldChecked, IsChecked, IsFresh, effect, Shared, locks, rolls_back, commits, alone,
  Reachable, started, then_step, SerialRun, begun, then_run,
}
use transity_terminal_resv_c.Engine.Interleaved.Select.{All-split}
use transity_terminal_resv_c.Engine.Interleaved.Safe.{Reachable-IsSafe}

abbrev IsQuiet : Env → Type 0
IsQuiet env = (c : Call) → env.fails c ≡ false

-- With no failing call the transaction of a hold makes its writes.
run_hold_txn_quiet :
    (env : Env) (req : SeatHoldRequest) (ttl : ℤ) (d : Database)
    → IsQuiet env
    → HoldChecked d.committed req
    → IsFresh d.committed (env, hold req ttl)
    → (run_hold_txn env req.trip_id req.seat_no req.leg_indexes req.operator_id
        (as_str req.ttl_class)
        (env.uuid_string env.new_uuid)
        (env.app_now +ℤ seconds ttl)
        d).1.committed
      ≡ effect (env, hold req ttl) d.committed
unfolding run_hold_txn mark_inventory
run_hold_txn_quiet env req ttl d quiet c fresh = ground (
  arith,
  c.complete,
  c.untaken,
  quiet begin,
  quiet select_rows,
  quiet update_inventory,
  quiet insert_hold,
  quiet commit,
)

confirm_txn_quiet :
    (env : Env) (hold_ref booking_id : Text) (d : Database) (row : HoldRow)
    → IsQuiet env
    → Confirmable env hold_ref d.committed row
    → (confirm_txn env hold_ref booking_id d).1.committed
      ≡ confirmed_tables hold_ref booking_id d.committed
unfolding confirm_txn
confirm_txn_quiet env hold_ref booking_id d row quiet c = ground (
  arith,
  c.live,
  c.unconsumed,
  quiet begin,
  quiet select_hold,
  quiet lock_rows,
  quiet update_inventory,
  quiet update_hold,
  quiet commit,
)

module _ {S : Type 0} (publisher : Publisher S) where
  -- The writes of a transaction are those of its operation, run by itself.
  perform-effect :
      (env : Env) (op : Operation) (w : World S)
      → IsQuiet env
      → IsChecked w.database.committed (env, op)
      → IsFresh w.database.committed (env, op)
      → (perform publisher env op w).database.committed ≡ effect (env, op) w.database.committed
  unfolding perform atomic_hold confirm_booking release_hold_by_ref
  perform-effect env (hold req ttl) w quiet c fresh =
      run_hold_txn_quiet env req ttl w.database quiet c fresh
  perform-effect env (confirm hold_ref booking_id) w quiet (row, c) fresh =
      confirm_txn_quiet env hold_ref booking_id w.database row quiet c
  perform-effect env (release hold_ref) w quiet (row, c) fresh =
      (release_txn_quiet env hold_ref w.database row quiet c).1
  perform-effect env (cancel _ _ _) w quiet c fresh = absurd c
  perform-effect env (expire _) w quiet c fresh = absurd c

module _ {S : Type 0} (publisher : Publisher S) where
  -- A world in which an operation starts by itself.
  abbrev world_of : S → Tables → World S
  world_of bus t = record {
    database = record { committed = t; working = t; reaper_lock = unlocked };
    bus = bus;
  }

  -- In whatever order transactions of holds, confirmations and releases take their locks, roll back
  -- and commit, with other operations in between that leave locked rows alone, the tables are those
  -- that the committed operations leave when each is run by itself, in the order of their commits.
  pub Reachable-SerialRun :
      (start : Tables) (s : Shared) (bus : S)
      → Reachable publisher start s
      → SerialRun publisher start s.log s.tables
  Reachable-SerialRun start _ bus started = begun
  Reachable-SerialRun start _ bus (then_step _ _ r (locks t holders log x apart c)) =
      Reachable-SerialRun start _ bus r
  Reachable-SerialRun start _ bus (then_step _ _ r (rolls_back t before after log x)) =
      Reachable-SerialRun start _ bus r
  Reachable-SerialRun start _ bus
        (then_step s _ r (commits t before after log (env, op) quiet fresh)) =
      let own =
        (All-split (IsChecked t) before after (env, op)
          (Reachable-IsSafe publisher start s r).checked).0 in
      then_run t _ log env op (world_of bus t) (Reachable-SerialRun start _ bus r) refl
        (perform-effect publisher env op (world_of bus t) quiet own fresh)
  Reachable-SerialRun start _ bus (then_step _ _ r (alone t t' holders log env op w e e' _)) =
      then_run t t' log env op w (Reachable-SerialRun start _ bus r) e e'

  SerialRun-IsConsistent :
      (start t : Tables) (log : List Txn)
      → SerialRun publisher start log t
      → IsConsistent start
      → IsConsistent t
  SerialRun-IsConsistent start _ _ begun c = c
  SerialRun-IsConsistent start _ _ (then_run t t' log env op w r e e') c = subst IsConsistent e' (
      Commits-IsConsistent (perform-Commits publisher env op w)
        (subst IsConsistent (sym e) (SerialRun-IsConsistent start t log r c)))

  -- So tables that start consistent stay consistent; and a transaction that has its locks finds at any
  -- later moment what it checked when it took them: the legs of a hold are all there, and none is
  -- booked or held; the hold of a confirmation is live and not consumed, that of a release is active.
  pub Reachable-IsConsistent :
      (start : Tables) (s : Shared) (bus : S)
      → Reachable publisher start s
      → IsConsistent start
      → IsConsistent s.tables × All (IsChecked s.tables) s.holders
  Reachable-IsConsistent start s bus r c = (
    SerialRun-IsConsistent start s.tables s.log (Reachable-SerialRun start s bus r) c,
    (Reachable-IsSafe publisher start s r).checked,
  )
