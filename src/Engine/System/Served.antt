-- ===== src/Engine/System/Served.antt =====
-- The abstract effect of each operation, the events that announce it, and what may become of both.
pub mod Each
pub mod Perform
use mathlib.Core.List.{append-nil, append_assoc}
use transity_terminal_resv_c.Common.{
  ℤ, ◌≡◌, ◌≢◌, refl, sym, ◌∙◌, ap, ◌⊎◌, inl, inr, Text, List, [], ◌∷◌, ◌++◌, map, ◌+ℤ◌, Result, ok,
  err, Option, none, some, arith,
}
use transity_terminal_resv_c.Engine.Types.{
  Uuid, Instant, SeatHoldRequest, HoldFailureReason, ConfirmResult, SqlxError, as_str, seconds,
}
use transity_terminal_resv_c.Engine.Events.{
  ReservationEvent, inventory_updated, holds_released, recording_publisher, publish_best_effort,
  emit_release_pair,
}
use transity_terminal_resv_c.Engine.Database.{HoldRow, Tables, Database, Env, World}
use transity_terminal_resv_c.Engine.Hold.{finish_hold, run_hold_txn, atomic_hold}
use transity_terminal_resv_c.Engine.Hold.Outcome.{held_tables, run_hold_txn_cases}
use transity_terminal_resv_c.Engine.Confirm.{
  live_hold, confirm_txn, finish_confirm, confirm_booking,
}
use transity_terminal_resv_c.Engine.Confirm.Outcome.{confirmed_tables, Confirms, confirm_txn_cases}
use transity_terminal_resv_c.Engine.Cancel.{
  free_seat, cancel_txn, finish_cancel, cancel_booking_seats,
}
use transity_terminal_resv_c.Engine.Cancel.Outcome.{cancel_txn_cases}
use transity_terminal_resv_c.Engine.Release.{
  active_hold, release_txn, finish_release, release_hold_by_ref,
}
use transity_terminal_resv_c.Engine.Release.Outcome.{released_tables, Releases, release_txn_cases}
use transity_terminal_resv_c.Engine.Reaper.{
  expired_rows, run_reaper, expire_holds_db, publish_released, finish_reaper, expire_holds,
}
use transity_terminal_resv_c.Engine.Reaper.Outcome.{
  purged_tables, reaped_tables, Reaps, run_reaper_cases,
}
use transity_terminal_resv_c.Engine.System.{
  Operation, hold, confirm, cancel, release, expire, perform,
}
use transity_terminal_resv_c.Engine.System.Committed.{with_lock}

-- What an operation is meant to do to the tables.
pub effect : Env → Operation → Tables → Tables
effect env (hold req ttl) t =
    held_tables req.trip_id req.seat_no req.leg_indexes req.operator_id (as_str req.ttl_class)
      (env.uuid_string env.new_uuid) (env.app_now +ℤ seconds ttl) t
effect env (confirm hold_ref booking_id) t = confirmed_tables hold_ref booking_id t
effect env (cancel trip_id seat_no legs) t = free_seat trip_id seat_no legs t
effect env (release hold_ref) t = released_tables hold_ref t
effect env (expire retention_days) t =
    let purged = purged_tables env retention_days t in
    reaped_tables (expired_rows env purged) purged

abbrev pub updated_of : Env → HoldRow → ReservationEvent
updated_of env h = inventory_updated h.trip_id h.seat_no h.leg_indexes env.event_now

abbrev pub released_of : Env → HoldRow → ReservationEvent
released_of env h = holds_released h.trip_id (h.seat_no ∷ []) env.event_now

abbrev pub of_hold : (HoldRow → List ReservationEvent) → Option HoldRow → List ReservationEvent
of_hold f none = []
of_hold f (some h) = f h

-- The events that announce it, in their order.
pub announced : Env → Operation → Tables → List ReservationEvent
announced env (hold req ttl) t =
    inventory_updated req.trip_id req.seat_no req.leg_indexes env.event_now ∷ []
announced env (confirm hold_ref booking_id) t =
    of_hold (λ h. updated_of env h ∷ []) (live_hold hold_ref env.db_now t)
announced env (cancel trip_id seat_no legs) t =
    inventory_updated trip_id seat_no legs env.event_now ∷ []
announced env (release hold_ref) t =
    of_hold (λ h. updated_of env h ∷ released_of env h ∷ []) (active_hold hold_ref t)
announced env (expire retention_days) t =
    map (released_of env) (expired_rows env (purged_tables env retention_days t))

-- What may become of the committed tables and of the published events.
pub data Serves (env : Env) (op : Operation) (t : Tables) (bus : List ReservationEvent)
    : Tables → List ReservationEvent → Type 0 where
  refused : Serves env op t bus t bus
  purged_only :
      (retention_days : ℤ)
      → op ≡ expire retention_days
      → Serves env op t bus (purged_tables env retention_days t) bus
  served : Serves env op t bus (effect env op t) (bus ++ announced env op t)

pub Serves-eq :
    {env : Env} {op : Operation} {t u v : Tables} {a b c : List ReservationEvent}
    → v ≡ u
    → c ≡ b
    → Serves env op t a u b
    → Serves env op t a v c
Serves-eq e f s = rw (e, f) s
