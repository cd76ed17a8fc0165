-- ===== src/Server/Routes/Laws.antt =====
-- What the status of a reply tells of the database.
use transity_terminal_resv_c.Common.{
  ℕ, ◌≡◌, ◌≢◌, ◌⊎◌, refl, pos, ◌+ℤ◌, ◌*ℤ◌, true, false, Text, is_empty, Result, ok, err, arith, inl,
  inr, Bool-cases,
}
use transity_terminal_resv_c.Common.Std.{trim}
use transity_terminal_resv_c.Engine.Types.{
  SeatHoldRequest, TtlClass, short, long, Instant, AtomicHoldResult, success, failure,
  HoldFailureReason, ConfirmResult, EngineError, SqlxError, db, seconds, is_success,
}
use transity_terminal_resv_c.Engine.Events.{Publisher}
use transity_terminal_resv_c.Engine.Database.{HoldRow, Tables, Env, World}
use transity_terminal_resv_c.Engine.Hold.{atomic_hold}
use transity_terminal_resv_c.Engine.Hold.Outcome.{
  succeeded, Allowed, held_by_request, atomic_hold_cases,
}
use transity_terminal_resv_c.Engine.Confirm.{confirm_txn, finish_confirm, confirm_booking}
use transity_terminal_resv_c.Engine.Confirm.Outcome.{
  confirmed_tables, Confirmable, Confirms, confirm_txn_cases, confirm_txn_refuses,
}
use transity_terminal_resv_c.Server.Http.{
  Libs, ApiError, bad_request, internal_error, from_engine_error,
}
use transity_terminal_resv_c.Server.State.{AppState}
use transity_terminal_resv_c.Server.Routes.{
  Reply, hold_result, ConfirmBody, ttl_of, failure_status, hold_status, reply_to, confirm_reply_of,
  hold_checked, post_hold, post_confirm,
}

-- The status that a handler's result is answered with.
abbrev pub status_of_reply : Result ApiError (ℕ × Reply) → ℕ
status_of_reply (ok r) = r.0
status_of_reply (err e) = e.status

-- When a hold of a class expires: the configured seconds of its class after the clock.
pub data Expires (state : AppState) (env : Env) : TtlClass → Instant → Type 0 where
  after_short : Expires state env short (env.app_now +ℤ state.ttl_short_secs *ℤ pos 1_000_000)
  after_long : Expires state env long (env.app_now +ℤ state.ttl_long_secs *ℤ pos 1_000_000)

ttl_of-Expires :
    (state : AppState) (env : Env) (class : TtlClass)
    → Expires state env class (env.app_now +ℤ seconds (ttl_of state class))
unfolding seconds ttl_of
ttl_of-Expires state env short = after_short
ttl_of-Expires state env long = after_long

module _ (libs : Libs) where
  engine_error_status :
      (e : EngineError)
      → ((from_engine_error libs e).status ≡ 409) ⊎ ((from_engine_error libs e).status ≡ 500)
  unfolding from_engine_error internal_error
  engine_error_status e = ground arith

  failure_not_created : (reason : HoldFailureReason) → failure_status reason ≢ 201
  unfolding failure_status
  failure_not_created reason = ground arith

  hold_created :
      (r : Result EngineError AtomicHoldResult)
      → (succeeded r ≡ true
          → status_of_reply (reply_to libs (λ a. (hold_status a, hold_result a)) r) ≡ 201)
        × (succeeded r ≡ false
            → status_of_reply (reply_to libs (λ a. (hold_status a, hold_result a)) r) ≢ 201)
  unfolding hold_status reply_to is_success
  hold_created (ok (success _ _ _)) = ground arith
  hold_created (ok (failure _ reason _)) = ground (arith, failure_not_created reason)
  hold_created (err e) = ground (arith, engine_error_status e)

  module _ {S : Type 0} (state : AppState) (env : Env) (publisher : Publisher S) where
    checked_cases :
        (req : SeatHoldRequest) (w : World S)
        → let (r, w') = hold_checked libs state env publisher req w in
          let expires_at = env.app_now +ℤ seconds (ttl_of state req.ttl_class) in
          ((status_of_reply r ≢ 201) × (w'.database.committed ≡ w.database.committed))
          ⊎ ((status_of_reply r ≡ 201)
              × Allowed publisher env req expires_at w.database.committed
              × (w'.database.committed
                  ≡ held_by_request publisher env req expires_at w.database.committed))
    unfolding hold_checked
    checked_cases req w =
        let r = (atomic_hold env publisher req (ttl_of state req.ttl_class) w).0 in
        elim (atomic_hold_cases publisher env req (ttl_of state req.ttl_class) w) [
          | inl (failed, e) ↦ inl ((hold_created r).1 failed, e)
          | inr (won, allowed, e) ↦ inr ((hold_created r).0 won, allowed, e)
        ]

    -- Whatever fails, a hold request is answered 201 exactly if it names a leg and a seat and the
    -- hold is committed: all its legs were there and free, and are marked now, and it expires
    -- ttl_short_secs after the clock if its class is short, and ttl_long_secs if it is long. With any
    -- other status the committed tables are as they were.
    pub post_hold_cases :
        (req : SeatHoldRequest) (w : World S)
        → let (r, w') = post_hold libs state env publisher req w in
          ((status_of_reply r ≢ 201) × (w'.database.committed ≡ w.database.committed))
          ⊎ ((status_of_reply r ≡ 201)
              × (is_empty req.leg_indexes ≡ false)
              × (is_empty (trim req.seat_no) ≡ false)
              × ((expires_at : Instant) × Expires state env req.ttl_class expires_at
                  × Allowed publisher env req expires_at w.database.committed
                  × (w'.database.committed
                      ≡ held_by_request publisher env req expires_at w.database.committed)))
    unfolding post_hold bad_request
    post_hold_cases req w = elim (Bool-cases (is_empty req.leg_indexes)) [
      | inl no_legs ↦ rw no_legs (inl ((λ e. omega arith), refl))
      | inr legs ↦ elim (Bool-cases (is_empty (trim req.seat_no))) [
        | inl no_seat ↦ rw (legs, no_seat) (inl ((λ e. omega arith), refl))
        | inr seat ↦
            rw (legs, seat)
              (elim (checked_cases req w) [
                | inl h ↦ inl h
                | inr (a, b, c) ↦
                    inr (a, refl, refl, (_, ttl_of-Expires state env req.ttl_class, b, c))
              ])
      ]
    ]

    -- Whatever fails, a confirmation is answered 200 exactly if it is committed: the hold was live
    -- and not consumed. With any other status the committed tables are as they were.
    pub post_confirm_cases :
        (hold_ref : Text) (body : ConfirmBody) (w : World S)
        → let (r, w') = post_confirm libs state env publisher hold_ref body w in
          ((status_of_reply r ≢ 200) × (w'.database.committed ≡ w.database.committed))
          ⊎ ((status_of_reply r ≡ 200)
              × ((row : HoldRow) × Confirmable env hold_ref w.database.committed row
                  × (w'.database.committed
                      ≡ confirmed_tables hold_ref body.booking_id w.database.committed)))
    unfolding post_confirm confirm_booking finish_confirm reply_to confirm_reply_of
    post_confirm_cases hold_ref body w =
        go (confirm_txn env hold_ref body.booking_id w.database).0 refl
          (confirm_txn_cases env hold_ref body.booking_id w.database)
      where
        t' : Tables
        t' = (confirm_txn env hold_ref body.booking_id w.database).1.committed

        status_after : Result SqlxError (Result ConfirmResult HoldRow) → ℕ
        status_after r = status_of_reply (
            reply_to libs (confirm_reply_of hold_ref body.booking_id)
              (finish_confirm env publisher r w.bus).0)

        go :
            (r : Result SqlxError (Result ConfirmResult HoldRow))
            → (confirm_txn env hold_ref body.booking_id w.database).0 ≡ r
            → Confirms env hold_ref body.booking_id w.database.committed t' r
            → ((status_after r ≢ 200) × (t' ≡ w.database.committed))
              ⊎ ((status_after r ≡ 200)
                  × ((row : HoldRow) × Confirmable env hold_ref w.database.committed row
                      × (t' ≡ confirmed_tables hold_ref body.booking_id w.database.committed)))
        go (ok (ok row)) same (c, e) = inr (refl, (row, c, e))
        go (ok (err early)) same e = inl (
          ground (arith, confirm_txn_refuses env hold_ref body.booking_id w.database early same),
          e,
        )
        go (err x) same e = inl (ground (arith, engine_error_status (db x)), e)
