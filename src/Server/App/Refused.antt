-- ===== src/Server/App/Refused.antt =====
-- What a request leaves behind that is not answered with success.
use transity_terminal_resv_c.Common.{
  ℕ, ◌≡◌, ◌≢◌, ◌⊎◌, Bool, Text, Result, ok, err, Action, arith, ◌+ℤ◌,
}
use transity_terminal_resv_c.Engine.Types.{
  Uuid, SeatHoldRequest, SqlxError, HoldFailureReason, as_str, seconds, Instant,
}
use transity_terminal_resv_c.Engine.Events.{Publisher}
use transity_terminal_resv_c.Engine.Database.{Env, World}
use transity_terminal_resv_c.Engine.Hold.{atomic_hold, run_hold_txn, finish_hold}
use transity_terminal_resv_c.Engine.Hold.Outcome.{run_hold_txn_cases}
use transity_terminal_resv_c.Engine.Confirm.{finish_confirm, confirm_booking}
use transity_terminal_resv_c.Engine.Confirm.Outcome.{confirm_txn_cases}
use transity_terminal_resv_c.Engine.Cancel.{finish_cancel, cancel_booking_seats}
use transity_terminal_resv_c.Engine.Cancel.Outcome.{cancel_txn_cases}
use transity_terminal_resv_c.Engine.Release.{finish_release, release_hold_by_ref}
use transity_terminal_resv_c.Engine.Release.Outcome.{release_txn_cases}
use transity_terminal_resv_c.Engine.Snapshot.{get_inventory_snapshot}
use transity_terminal_resv_c.Server.Http.{Request, Response, Libs, ApiError, into_response}
use transity_terminal_resv_c.Server.State.{AppState}
use transity_terminal_resv_c.Server.Routes.{
  Reply, hold_result, ttl_of, ConfirmBody, CancelBody, hold_status, reply_to, confirm_reply_of,
  hold_checked, post_hold, post_confirm, post_cancel_seats, delete_hold, get_snapshot,
}
use transity_terminal_resv_c.Server.Routes.Laws.{status_of_reply}
use transity_terminal_resv_c.Server.App.{
  Codec, Route, to_healthz, to_holds, to_hold, to_confirm, to_cancel_seats, to_inventory, unrouted,
  render, extracted, confirm_at, for_method, dispatch,
}

-- The committed tables and the published events are as they were.
abbrev pub Kept : {S : Type 0} → World S → World S → Type 0
Kept w w' = (w'.database.committed ≡ w.database.committed) × (w'.bus ≡ w.bus)

-- Other statuses than 200 and 201 come with nothing changed.
abbrev KeptUnless : {S : Type 0} → ℕ → World S → World S → Type 0
KeptUnless n w w' = n ≢ 200 → n ≢ 201 → Kept w w'

module _ {S : Type 0} (libs : Libs) (state : AppState) (env : Env) (publisher : Publisher S) where
  -- Only a committed hold is announced, and it is answered 201.
  finish_hold-Kept :
      (req : SeatHoldRequest) (expires_at : Instant)
      (r : Result SqlxError (Result HoldFailureReason (Unit {0}))) (bus : S)
      → let (reply, bus') = finish_hold env publisher req expires_at r bus in
        ((r ≡ ok (ok tt))
          × (status_of_reply (reply_to libs (λ a. (hold_status a, hold_result a)) reply) ≡ 201))
        ⊎ ((r ≢ ok (ok tt)) × (bus' ≡ bus))
  unfolding finish_hold reply_to hold_status
  finish_hold-Kept req expires_at r bus = ground arith

  hold_checked-Kept :
      (req : SeatHoldRequest) (w : World S)
      → let (r, w') = hold_checked libs state env publisher req w in
        KeptUnless (status_of_reply r) w w'
  unfolding hold_checked atomic_hold
  hold_checked-Kept req w =
      let expires_at = env.app_now +ℤ seconds (ttl_of state req.ttl_class) in
      let ref = env.uuid_string env.new_uuid in
      ground (
        arith,
        finish_hold-Kept req expires_at
            (run_hold_txn env req.trip_id req.seat_no req.leg_indexes req.operator_id
              (as_str req.ttl_class) ref expires_at w.database).0
            w.bus,
        run_hold_txn_cases req.trip_id req.seat_no req.leg_indexes req.operator_id
            (as_str req.ttl_class) ref expires_at env w.database,
      )

  post_hold-Kept :
      (req : SeatHoldRequest) (w : World S)
      → let (r, w') = post_hold libs state env publisher req w in
        KeptUnless (status_of_reply r) w w'
  unfolding post_hold
  post_hold-Kept req w = ground (arith, hold_checked-Kept req w)

  delete_hold-Kept :
      (hold_ref : Text) (w : World S)
      → let (r, w') = delete_hold libs state env publisher hold_ref w in
        KeptUnless (status_of_reply r) w w'
  unfolding delete_hold release_hold_by_ref reply_to finish_release
  delete_hold-Kept hold_ref w = ground (arith, release_txn_cases env hold_ref w.database)

  post_confirm-Kept :
      (hold_ref : Text) (body : ConfirmBody) (w : World S)
      → let (r, w') = post_confirm libs state env publisher hold_ref body w in
        KeptUnless (status_of_reply r) w w'
  unfolding post_confirm confirm_booking finish_confirm reply_to confirm_reply_of
  post_confirm-Kept hold_ref body w =
      ground (arith, confirm_txn_cases env hold_ref body.booking_id w.database)

  post_cancel_seats-Kept :
      (body : CancelBody) (w : World S)
      → let (r, w') = post_cancel_seats libs state env publisher body w in
        KeptUnless (status_of_reply r) w w'
  unfolding post_cancel_seats cancel_booking_seats finish_cancel reply_to
  post_cancel_seats-Kept body w =
      ground (arith, cancel_txn_cases env body.trip_id body.seat_no body.leg_indexes w.database)

  module _ (codec : Codec) (collate : Text → Text → Bool) where
    get_snapshot-Kept :
        (trip_id : Uuid) (w : World S)
        → Kept w (get_snapshot libs state env publisher collate trip_id w).1
    unfolding get_snapshot get_inventory_snapshot
    get_snapshot-Kept trip_id w = ground arith

    extracted-Kept :
        {A : Type 0} (f : A → Action ApiError (World S) (ℕ × Reply)) (r : Result Response A)
        (w : World S)
        → ((a : A) → KeptUnless (status_of_reply (f a w).0) w (f a w).1)
        → KeptUnless (extracted libs codec f r w).0.status w (extracted libs codec f r w).1
    unfolding render into_response
    extracted-Kept f (ok a) w kept = ground (arith, kept a)
    extracted-Kept f (err rejection) w kept = ground arith

    confirm_at-Kept :
        (req : Request) (r : Result Response Text) (w : World S)
        → KeptUnless
            (confirm_at libs codec state env publisher collate req r w).0.status
            w
            (confirm_at libs codec state env publisher collate req r w).1
    unfolding confirm_at
    confirm_at-Kept req (ok hold_ref) w =
        extracted-Kept (post_confirm libs state env publisher hold_ref) (codec.confirm_body req) w
          (λ body. post_confirm-Kept hold_ref body w)
    confirm_at-Kept req (err rejection) w = ground arith

    -- Whatever fails, and whatever the route, method and body: a request that a handler or an
    -- extractor answers with another status than 200 or 201 has changed no row of the committed
    -- tables and published nothing.
    pub dispatch-Kept :
        (req : Request) (r : Route) (w : World S)
        → (dispatch libs codec state env publisher collate req r w).0.status ≢ 200
        → (dispatch libs codec state env publisher collate req r w).0.status ≢ 201
        → Kept w (dispatch libs codec state env publisher collate req r w).1
    unfolding dispatch for_method
    dispatch-Kept req to_healthz w = ground arith
    dispatch-Kept req to_holds w = ground (
      arith,
      extracted-Kept (post_hold libs state env publisher) (codec.hold_body req) w
          (λ a. post_hold-Kept a w),
    )
    dispatch-Kept req (to_hold segment) w = ground (
      arith,
      extracted-Kept (delete_hold libs state env publisher) (codec.path_string segment) w
          (λ a. delete_hold-Kept a w),
    )
    dispatch-Kept req (to_confirm segment) w =
        ground (arith, confirm_at-Kept req (codec.path_string segment) w)
    dispatch-Kept req to_cancel_seats w = ground (
      arith,
      extracted-Kept (post_cancel_seats libs state env publisher) (codec.cancel_body req) w
          (λ a. post_cancel_seats-Kept a w),
    )
    dispatch-Kept req (to_inventory segment) w = ground (
      arith,
      extracted-Kept (get_snapshot libs state env publisher collate) (codec.path_uuid segment) w
          (λ a _ _. get_snapshot-Kept a w),
    )
    dispatch-Kept req unrouted w = ground arith
