-- ===== src/Server/Routes.antt =====
-- routes.rs: the handlers.
pub mod Laws
use transity_terminal_resv_c.Common.{
  ℕ, ℤ, Bool, true, false, ◌&&◌, Text, codes, text_eq, List, [], ◌∷◌, is_empty, Option, none, some,
  Result, ok, err, Action, if◌then◌else◌, branch, raise,
}
use transity_terminal_resv_c.Common.Std.{trim}
use transity_terminal_resv_c.Engine.Types.{
  Uuid, TtlClass, short, long, SeatHoldRequest, HoldFailureReason, incomplete_inventory,
  seat_conflict, transaction_error, AtomicHoldResult, success, failure, ReleaseResult,
  ConfirmResult, CancelResult, InventorySnapshot, EngineError,
}
use transity_terminal_resv_c.Engine.Events.{Publisher}
use transity_terminal_resv_c.Engine.Database.{Database, Env, World}
use transity_terminal_resv_c.Engine.Hold.{atomic_hold}
use transity_terminal_resv_c.Engine.Confirm.{confirm_booking}
use transity_terminal_resv_c.Engine.Cancel.{cancel_booking_seats}
use transity_terminal_resv_c.Engine.Release.{release_hold_by_ref}
use transity_terminal_resv_c.Engine.Snapshot.{get_inventory_snapshot}
use transity_terminal_resv_c.Server.Http.{Libs, ApiError, bad_request, from_engine_error}
use transity_terminal_resv_c.Server.State.{AppState}

pub record ConfirmBody : Type 0 where
  pub booking_id : Text

pub record CancelBody : Type 0 where
  pub trip_id : Uuid
  pub seat_no : Text
  pub leg_indexes : List ℤ

-- The bodies of the replies, before they are written as JSON.
pub data Reply : Type 0 where
  health : Reply
  hold_result : AtomicHoldResult → Reply
  release_result : Bool → Reply
  confirmed : Text → Text → Reply
  not_confirmed : Text → Reply
  cancel_result : Bool → Reply
  snapshot : InventorySnapshot → Reply

unfoldable pub ttl_of : AppState → TtlClass → ℤ
ttl_of state short = state.ttl_short_secs
ttl_of state long = state.ttl_long_secs

unfoldable pub failure_status : HoldFailureReason → ℕ
failure_status incomplete_inventory = 422
failure_status seat_conflict = 409
failure_status transaction_error = 500

unfoldable pub hold_status : AtomicHoldResult → ℕ
unfolding failure_status
hold_status (success _ _ _) = 201
hold_status (failure _ reason _) = failure_status reason

abbrev pub or_missing : Option Text → Text
or_missing none = codes "HOLD_EXPIRED_OR_MISSING"
or_missing (some reason) = reason

abbrev pub healthz : ℕ × Reply
healthz = (200, health)

unfoldable pub confirm_reply_of : Text → Text → ConfirmResult → ℕ × Reply
confirm_reply_of hold_ref booking_id r =
    if r.success
    then (200, confirmed hold_ref booking_id)
    else (409, not_confirmed (or_missing r.conflict))

module _ (libs : Libs) where
  -- The `?` on the result of the engine, and the reply to it.
  unfoldable pub reply_to :
      {A : Type 0} → (A → ℕ × Reply) → Result EngineError A → Result ApiError (ℕ × Reply)
  reply_to f (ok a) = ok (f a)
  reply_to f (err e) = err (from_engine_error libs e)

  module _ {S : Type 0} (state : AppState) (env : Env) (publisher : Publisher S) where
    unfoldable pub hold_checked : SeatHoldRequest → Action ApiError (World S) (ℕ × Reply)
    unfolding reply_to hold_status ttl_of
    hold_checked req w =
        let (r, w') = atomic_hold env publisher req (ttl_of state req.ttl_class) w in
        (reply_to (λ a. (hold_status a, hold_result a)) r, w')

    unfoldable pub post_hold : SeatHoldRequest → Action ApiError (World S) (ℕ × Reply)
    unfolding hold_checked bad_request
    post_hold req =
        branch (is_empty req.leg_indexes)
          (raise (bad_request (codes "leg_indexes must not be empty")))
          (branch (is_empty (trim req.seat_no)) (raise (bad_request (codes "seat_no required")))
            (hold_checked req))

    unfoldable pub delete_hold : Text → Action ApiError (World S) (ℕ × Reply)
    unfolding reply_to
    delete_hold hold_ref w =
        let (r, w') = release_hold_by_ref env publisher hold_ref w in
        (reply_to (λ (a : ReleaseResult). (200, release_result a.success)) r, w')

    unfoldable pub post_confirm : Text → ConfirmBody → Action ApiError (World S) (ℕ × Reply)
    unfolding reply_to confirm_reply_of
    post_confirm hold_ref body w =
        let (r, w') = confirm_booking env publisher hold_ref body.booking_id w in
        (reply_to (confirm_reply_of hold_ref body.booking_id) r, w')

    unfoldable pub post_cancel_seats : CancelBody → Action ApiError (World S) (ℕ × Reply)
    unfolding reply_to
    post_cancel_seats body w =
        let (r, w') =
          cancel_booking_seats env publisher body.trip_id body.seat_no body.leg_indexes w in
        (reply_to (λ (a : CancelResult). (200, cancel_result a.success)) r, w')

    unfoldable pub get_snapshot :
        (Text → Text → Bool) → Uuid → Action ApiError (World S) (ℕ × Reply)
    unfolding reply_to
    get_snapshot collate trip_id w =
        let (r, database) = get_inventory_snapshot env collate trip_id w.database in
        (reply_to (λ a. (200, snapshot a)) r, record w { database = database })
