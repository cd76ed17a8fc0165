-- ===== src/Engine/System/Committed.antt =====
-- The change that each operation commits, as one step of the tables.
use transity_terminal_resv_c.Common.{
  ℤ, ◌≡◌, refl, ◌⊎◌, inl, inr, Text, List, ◌+ℤ◌, Result, ok, err, Option, none, some, arith,
}
use transity_terminal_resv_c.Engine.Types.{
  Uuid, Instant, SeatHoldRequest, ConfirmResult, SqlxError, as_str, seconds,
}
use transity_terminal_resv_c.Engine.Events.{Publisher}
use transity_terminal_resv_c.Engine.Database.{HoldRow, Tables, Database, Env, World}
use transity_terminal_resv_c.Engine.Hold.{atomic_hold}
use transity_terminal_resv_c.Engine.Hold.Outcome.{held_tables, HoldAllowed, run_hold_txn_cases}
use transity_terminal_resv_c.Engine.Confirm.{confirm_txn, confirm_booking}
use transity_terminal_resv_c.Engine.Confirm.Outcome.{
  confirmed_tables, Confirmable, Confirms, confirm_txn_cases,
}
use transity_terminal_resv_c.Engine.Cancel.{free_seat, cancel_booking_seats}
use transity_terminal_resv_c.Engine.Cancel.Outcome.{cancel_txn_cases}
use transity_terminal_resv_c.Engine.Release.{active_hold, release_txn, release_hold_by_ref}
use transity_terminal_resv_c.Engine.Release.Outcome.{released_tables, Releases, release_txn_cases}
use transity_terminal_resv_c.Engine.Reaper.{take_lock, run_reaper, expire_holds_db, expire_holds}
use transity_terminal_resv_c.Engine.Reaper.Outcome.{Reaps, run_reaper_cases}
use transity_terminal_resv_c.Engine.System.{
  Operation, hold, confirm, cancel, release, expire, perform,
}

-- A step of the committed tables that the operation `op` makes.
pub data Commits (env : Env) (op : Operation) (t : Tables) : Tables → Type 0 where
  unchanged : Commits env op t t
  held :
      (trip_id : Uuid) (seat_no : Text) (legs : List ℤ) (operator_id ttl_class hold_ref : Text)
      (expires_at : Instant)
      → HoldAllowed trip_id seat_no legs operator_id ttl_class hold_ref expires_at t
      → Commits env op t
          (held_tables trip_id seat_no legs operator_id ttl_class hold_ref expires_at t)
  confirmed :
      (hold_ref booking_id : Text) (row : HoldRow)
      → Confirmable env hold_ref t row
      → Commits env op t (confirmed_tables hold_ref booking_id t)
  freed :
      (trip_id : Uuid) (seat_no : Text) (legs : List ℤ)
      → op ≡ cancel trip_id seat_no legs
      → Commits env op t (free_seat trip_id seat_no legs t)
  released :
      (hold_ref : Text) (row : HoldRow)
      → active_hold hold_ref t ≡ some row
      → Commits env op t (released_tables hold_ref t)
  reaped :
      (retention_days : ℤ) (r : Result SqlxError (List HoldRow)) (t' : Tables)
      → Reaps env retention_days t t' r
      → Commits env op t t'

Commits-eq :
    {env : Env} {op : Operation} {t u v : Tables} → v ≡ u → Commits env op t u → Commits env op t v
Commits-eq e c = rw e c

module _ {S : Type 0} (publisher : Publisher S) where
  hold-Commits :
      (env : Env) (req : SeatHoldRequest) (ttl : ℤ) (w : World S)
      → Commits env
          (hold req ttl)
          w.database.committed
          (perform publisher env (hold req ttl) w).database.committed
  unfolding perform atomic_hold
  hold-Commits env req ttl w =
      elim (run_hold_txn_cases req.trip_id req.seat_no req.leg_indexes req.operator_id
        (as_str req.ttl_class) (env.uuid_string env.new_uuid) (env.app_now +ℤ seconds ttl) env
        w.database) [
          | inl (_, e) ↦ Commits-eq e unchanged
          | inr (_, allowed, e) ↦ Commits-eq e (held _ _ _ _ _ _ _ allowed)
        ]

  confirm-Commits :
      (env : Env) (hold_ref booking_id : Text) (w : World S)
      → Commits env
          (confirm hold_ref booking_id)
          w.database.committed
          (perform publisher env (confirm hold_ref booking_id) w).database.committed
  unfolding perform confirm_booking
  confirm-Commits env hold_ref booking_id w =
      go (confirm_txn env hold_ref booking_id w.database).0
        (confirm_txn_cases env hold_ref booking_id w.database)
    where
      go :
          (r : Result SqlxError (Result ConfirmResult HoldRow))
          → Confirms env hold_ref booking_id w.database.committed
              (confirm_txn env hold_ref booking_id w.database).1.committed
              r
          → Commits env
              (confirm hold_ref booking_id)
              w.database.committed
              (confirm_txn env hold_ref booking_id w.database).1.committed
      go (ok (ok row)) (c, e) = Commits-eq e (confirmed hold_ref booking_id row c)
      go (ok (err _)) e = Commits-eq e unchanged
      go (err _) e = Commits-eq e unchanged

  cancel-Commits :
      (env : Env) (trip_id : Uuid) (seat_no : Text) (legs : List ℤ) (w : World S)
      → Commits env
          (cancel trip_id seat_no legs)
          w.database.committed
          (perform publisher env (cancel trip_id seat_no legs) w).database.committed
  unfolding perform cancel_booking_seats
  cancel-Commits env trip_id seat_no legs w =
      elim (cancel_txn_cases env trip_id seat_no legs w.database) [
        | inl (_, e) ↦ Commits-eq e unchanged
        | inr (_, e) ↦ Commits-eq e (freed trip_id seat_no legs refl)
      ]

  release-Commits :
      (env : Env) (hold_ref : Text) (w : World S)
      → Commits env
          (release hold_ref)
          w.database.committed
          (perform publisher env (release hold_ref) w).database.committed
  unfolding perform release_hold_by_ref
  release-Commits env hold_ref w =
      go (release_txn env hold_ref w.database).0 (release_txn_cases env hold_ref w.database)
    where
      go :
          (r : Result SqlxError (Option HoldRow))
          → Releases hold_ref w.database.committed
              (release_txn env hold_ref w.database).1.committed
              r
          → Commits env
              (release hold_ref)
              w.database.committed
              (release_txn env hold_ref w.database).1.committed
      go (ok (some row)) (c, e) = Commits-eq e (released hold_ref row c)
      go (ok none) e = Commits-eq e unchanged
      go (err _) e = Commits-eq e unchanged

-- The database that the reaper runs on.
abbrev pub with_lock : Env → Database → Database
with_lock env d = record d { reaper_lock = (take_lock env.session d.reaper_lock).1 }

-- The reaper runs on the committed tables, or does not run.
pub expire_holds_db-committed :
    (env : Env) (retention_days : ℤ) (d : Database)
    → let d' = (expire_holds_db env retention_days d).1 in
      (d'.committed ≡ d.committed)
      ⊎ (d'.committed ≡ (run_reaper env retention_days (with_lock env d)).1.committed)
unfolding expire_holds_db
expire_holds_db-committed env retention_days d = ground arith

module _ {S : Type 0} (publisher : Publisher S) where
  expire-Commits :
      (env : Env) (retention_days : ℤ) (w : World S)
      → Commits env
          (expire retention_days)
          w.database.committed
          (perform publisher env (expire retention_days) w).database.committed
  unfolding perform expire_holds
  expire-Commits env retention_days w =
      elim (expire_holds_db-committed env retention_days w.database) [
        | inl e ↦ Commits-eq e unchanged
        | inr e ↦ Commits-eq e (
            reaped retention_days (run_reaper env retention_days (with_lock env w.database)).0 _
              (run_reaper_cases env retention_days (with_lock env w.database)))
      ]

  -- Whatever fails, an operation commits one of these steps.
  pub perform-Commits :
      (env : Env) (op : Operation) (w : World S)
      → Commits env op w.database.committed (perform publisher env op w).database.committed
  perform-Commits env (hold req ttl) w = hold-Commits publisher env req ttl w
  perform-Commits env (confirm hold_ref booking_id) w =
      confirm-Commits publisher env hold_ref booking_id w
  perform-Commits env (cancel trip_id seat_no legs) w =
      cancel-Commits publisher env trip_id seat_no legs w
  perform-Commits env (release hold_ref) w = release-Commits publisher env hold_ref w
  perform-Commits env (expire retention_days) w = expire-Commits env retention_days w
