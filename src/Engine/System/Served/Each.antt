-- ===== src/Engine/System/Served/Each.antt =====
-- The refinement for a hold, a cancellation, a confirmation and a release.
use mathlib.Core.List.{append_assoc}
use transity_terminal_resv_c.Common.{
  ℤ, ◌≡◌, ◌≢◌, refl, sym, ◌∙◌, ap, inl, inr, Text, List, [], ◌∷◌, ◌++◌, ◌+ℤ◌, Result, ok, err,
  Option, none, some,
}
use transity_terminal_resv_c.Engine.Types.{
  Uuid, Instant, SeatHoldRequest, HoldFailureReason, ConfirmResult, SqlxError, as_str, seconds,
}
use transity_terminal_resv_c.Engine.Events.{
  ReservationEvent, recording_publisher, publish_best_effort, emit_release_pair,
}
use transity_terminal_resv_c.Engine.Database.{HoldRow, Tables, Env, World}
use transity_terminal_resv_c.Engine.Hold.{finish_hold, run_hold_txn, atomic_hold}
use transity_terminal_resv_c.Engine.Hold.Outcome.{run_hold_txn_cases}
use transity_terminal_resv_c.Engine.Confirm.{confirm_txn, finish_confirm, confirm_booking}
use transity_terminal_resv_c.Engine.Confirm.Outcome.{Confirms, confirm_txn_cases}
use transity_terminal_resv_c.Engine.Cancel.{finish_cancel, cancel_booking_seats}
use transity_terminal_resv_c.Engine.Cancel.Outcome.{cancel_txn_cases}
use transity_terminal_resv_c.Engine.Release.{release_txn, finish_release, release_hold_by_ref}
use transity_terminal_resv_c.Engine.Release.Outcome.{Releases, release_txn_cases}
use transity_terminal_resv_c.Engine.System.{hold, confirm, cancel, release, perform}
use transity_terminal_resv_c.Engine.System.Served.{
  effect, announced, updated_of, released_of, of_hold, Serves, refused, served, Serves-eq,
}

-- hold
finish_hold-failed :
    (env : Env) (req : SeatHoldRequest) (expires_at : Instant)
    (r : Result SqlxError (Result HoldFailureReason (Unit {0}))) (bus : List ReservationEvent)
    → r ≢ ok (ok tt)
    → (finish_hold env recording_publisher req expires_at r bus).1 ≡ bus
unfolding finish_hold
finish_hold-failed env req expires_at (ok (ok u)) bus h = absurd (h refl)
finish_hold-failed env req expires_at (ok (err reason)) bus h = refl
finish_hold-failed env req expires_at (err e) bus h = refl

pub hold-Serves :
    (env : Env) (req : SeatHoldRequest) (ttl : ℤ) (w : World (List ReservationEvent))
    → let w' = perform recording_publisher env (hold req ttl) w in
      Serves env (hold req ttl) w.database.committed w.bus w'.database.committed w'.bus
unfolding perform atomic_hold effect announced
hold-Serves env req ttl w =
    let expires_at = env.app_now +ℤ seconds ttl in
    let r =
      (run_hold_txn env req.trip_id req.seat_no req.leg_indexes req.operator_id
        (as_str req.ttl_class) (env.uuid_string env.new_uuid) expires_at w.database).0 in
    elim (run_hold_txn_cases req.trip_id req.seat_no req.leg_indexes req.operator_id
      (as_str req.ttl_class) (env.uuid_string env.new_uuid) expires_at env w.database) [
        | inl (failed, e) ↦
            Serves-eq e (finish_hold-failed env req expires_at r w.bus failed) refused
        | inr (done, _, e) ↦
            Serves-eq e
              (ap (λ x. (finish_hold env recording_publisher req expires_at x w.bus).1) done
                ∙ unfold finish_hold publish_best_effort in refl)
              served
      ]

-- cancel
finish_cancel-failed :
    (env : Env) (trip_id : Uuid) (seat_no : Text) (legs : List ℤ) (r : Result SqlxError (Unit {0}))
    (bus : List ReservationEvent)
    → r ≢ ok tt
    → (finish_cancel env recording_publisher trip_id seat_no legs r bus).1 ≡ bus
unfolding finish_cancel
finish_cancel-failed env trip_id seat_no legs (ok u) bus h = absurd (h refl)
finish_cancel-failed env trip_id seat_no legs (err e) bus h = refl

pub cancel-Serves :
    (env : Env) (trip_id : Uuid) (seat_no : Text) (legs : List ℤ)
    (w : World (List ReservationEvent))
    → let w' = perform recording_publisher env (cancel trip_id seat_no legs) w in
      Serves env
        (cancel trip_id seat_no legs)
        w.database.committed
        w.bus
        w'.database.committed
        w'.bus
unfolding perform cancel_booking_seats effect announced
cancel-Serves env trip_id seat_no legs w =
    elim (cancel_txn_cases env trip_id seat_no legs w.database) [
      | inl (failed, e) ↦
          Serves-eq e (finish_cancel-failed env trip_id seat_no legs _ w.bus failed) refused
      | inr (done, e) ↦
          Serves-eq e
            (ap (λ x. (finish_cancel env recording_publisher trip_id seat_no legs x w.bus).1) done
              ∙ unfold finish_cancel publish_best_effort in refl)
            served
    ]

-- confirm
pub confirm-Serves :
    (env : Env) (hold_ref booking_id : Text) (w : World (List ReservationEvent))
    → let w' = perform recording_publisher env (confirm hold_ref booking_id) w in
      Serves env
        (confirm hold_ref booking_id)
        w.database.committed
        w.bus
        w'.database.committed
        w'.bus
unfolding perform confirm_booking effect announced finish_confirm publish_best_effort
confirm-Serves env hold_ref booking_id w =
    go (confirm_txn env hold_ref booking_id w.database).0
      (confirm_txn_cases env hold_ref booking_id w.database)
  where
    t' : Tables
    t' = (confirm_txn env hold_ref booking_id w.database).1.committed

    go :
        (r : Result SqlxError (Result ConfirmResult HoldRow))
        → Confirms env hold_ref booking_id w.database.committed t' r
        → Serves env
            (confirm hold_ref booking_id)
            w.database.committed
            w.bus
            t'
            (finish_confirm env recording_publisher r w.bus).1
    go (ok (ok row)) (c, e) =
        Serves-eq e (ap (λ o. w.bus ++ of_hold (λ h. updated_of env h ∷ []) o) (sym c.live)) served
    go (ok (err _)) e = Serves-eq e refl refused
    go (err _) e = Serves-eq e refl refused

-- release
pub release-Serves :
    (env : Env) (hold_ref : Text) (w : World (List ReservationEvent))
    → let w' = perform recording_publisher env (release hold_ref) w in
      Serves env (release hold_ref) w.database.committed w.bus w'.database.committed w'.bus
unfolding perform release_hold_by_ref effect announced finish_release emit_release_pair
release-Serves env hold_ref w =
    go (release_txn env hold_ref w.database).0 (release_txn_cases env hold_ref w.database)
  where
    t' : Tables
    t' = (release_txn env hold_ref w.database).1.committed

    go :
        (r : Result SqlxError (Option HoldRow))
        → Releases hold_ref w.database.committed t' r
        → Serves env
            (release hold_ref)
            w.database.committed
            w.bus
            t'
            (finish_release env recording_publisher r w.bus).1
    go (ok (some row)) (c, e) =
        Serves-eq e
          (append_assoc w.bus (updated_of env row ∷ []) (released_of env row ∷ [])
            ∙ ap (λ o. w.bus ++ of_hold (λ h. updated_of env h ∷ released_of env h ∷ []) o) (sym c))
          served
    go (ok none) e = Serves-eq e refl refused
    go (err _) e = Serves-eq e refl refused
