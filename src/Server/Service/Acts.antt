-- ===== src/Server/Service/Acts.antt =====
-- A request is at most one operation of the engine.
use transity_terminal_resv_c.Common.{
  ℕ, ◌≡◌, Bool, Text, text_eq, is_empty, codes, Result, ok, err, Action, arith, inl, inr,
  Bool-cases,
}
use transity_terminal_resv_c.Common.Std.{trim}
use transity_terminal_resv_c.Engine.Types.{Uuid, SeatHoldRequest}
use transity_terminal_resv_c.Engine.Events.{Publisher}
use transity_terminal_resv_c.Engine.Database.{Env, World}
use transity_terminal_resv_c.Engine.Snapshot.{get_inventory_snapshot}
use transity_terminal_resv_c.Engine.System.{Operation, hold, confirm, cancel, release, perform}
use transity_terminal_resv_c.Server.Http.{Request, Response, Libs, ApiError}
use transity_terminal_resv_c.Server.State.{AppState}
use transity_terminal_resv_c.Server.Routes.{
  Reply, ttl_of, hold_checked, post_hold, delete_hold, post_confirm, post_cancel_seats,
  get_snapshot,
}
use transity_terminal_resv_c.Server.App.{
  Codec, Route, to_healthz, to_holds, to_hold, to_confirm, to_cancel_seats, to_inventory, unrouted,
  is_get, extracted, confirm_at, dispatch,
}

module _ {S : Type 0} (publisher : Publisher S) (env : Env) (w : World S) where
  -- Nothing, or one operation.
  pub data Acts : World S → Type 0 where
    idle : Acts w
    acted : (op : Operation) → Acts (perform publisher env op w)

  Acts-eq : (w' : World S) → w' ≡ w → Acts w'
  Acts-eq w' e = rw e idle

  module _ (libs : Libs) (state : AppState) where
    post_hold-Acts : (req : SeatHoldRequest) → Acts (post_hold libs state env publisher req w).1
    unfolding post_hold hold_checked perform
    post_hold-Acts req = elim (Bool-cases (is_empty req.leg_indexes)) [
      | inl e ↦ rw e idle
      | inr e ↦ elim (Bool-cases (is_empty (trim req.seat_no))) [
        | inl f ↦ rw (e, f) idle
        | inr f ↦ rw (e, f) (acted (hold req (ttl_of state req.ttl_class)))
      ]
    ]

    extracted-Acts :
        (codec : Codec) {A : Type 0} (f : A → Action ApiError (World S) (ℕ × Reply))
        → ((a : A) → Acts (f a w).1)
        → (r : Result Response A) → Acts (extracted libs codec f r w).1
    extracted-Acts codec f acts (ok a) = acts a
    extracted-Acts codec f acts (err e) = idle

    get_snapshot-same :
        (collate : Text → Text → Bool) (trip_id : Uuid)
        → (get_snapshot libs state env publisher collate trip_id w).1 ≡ w
    unfolding get_snapshot get_inventory_snapshot
    get_snapshot-same collate trip_id = ground arith

    module _ (codec : Codec) (collate : Text → Text → Bool) where
      confirm_at-Acts :
          (req : Request) (r : Result Response Text)
          → Acts (confirm_at libs codec state env publisher collate req r w).1
      unfolding confirm_at post_confirm perform
      confirm_at-Acts req (ok hold_ref) =
          extracted-Acts codec (post_confirm libs state env publisher hold_ref)
            (λ body. acted (confirm hold_ref body.booking_id)) (codec.confirm_body req)
      confirm_at-Acts req (err e) = idle

      pub dispatch-Acts :
          (req : Request) (r : Route)
          → Acts (dispatch libs codec state env publisher collate req r w).1
      unfolding dispatch delete_hold post_cancel_seats perform
      dispatch-Acts req to_healthz = elim (Bool-cases (is_get req.method)) [
        | inl e ↦ rw e idle
        | inr e ↦ rw e idle
      ]
      dispatch-Acts req to_holds = elim (Bool-cases (text_eq req.method (codes "POST"))) [
        | inl e ↦ rw e (
            extracted-Acts codec (post_hold libs state env publisher) post_hold-Acts
              (codec.hold_body req))
        | inr e ↦ rw e idle
      ]
      dispatch-Acts req (to_hold segment) =
          elim (Bool-cases (text_eq req.method (codes "DELETE"))) [
            | inl e ↦ rw e (
                extracted-Acts codec (delete_hold libs state env publisher)
                  (λ hold_ref. acted (release hold_ref)) (codec.path_string segment))
            | inr e ↦ rw e idle
          ]
      dispatch-Acts req (to_confirm segment) =
          elim (Bool-cases (text_eq req.method (codes "POST"))) [
            | inl e ↦ rw e (confirm_at-Acts req (codec.path_string segment))
            | inr e ↦ rw e idle
          ]
      dispatch-Acts req to_cancel_seats = elim (Bool-cases (text_eq req.method (codes "POST"))) [
        | inl e ↦ rw e (
            extracted-Acts codec (post_cancel_seats libs state env publisher)
              (λ body. acted (cancel body.trip_id body.seat_no body.leg_indexes))
              (codec.cancel_body req))
        | inr e ↦ rw e idle
      ]
      dispatch-Acts req (to_inventory segment) = elim (Bool-cases (is_get req.method)) [
        | inl e ↦ rw e (
            extracted-Acts codec (get_snapshot libs state env publisher collate)
              (λ trip_id. Acts-eq _ (get_snapshot-same collate trip_id)) (codec.path_uuid segment))
        | inr e ↦ rw e idle
      ]
      dispatch-Acts req unrouted = idle
