-- ===== src/Loadtest/Network/Hold.antt =====
-- The hold and the release of the load test, in the server's handlers.
use transity_terminal_resv_c.Common.{
  ℤ, ◌≡◌, refl, ap, ◌∙◌, ◌+ℤ◌, Bool, true, false, Text, codes, text_eq, text_eq_iff, [], ◌∷◌, none,
  is_empty, Result, ok, err, arith, All, ◌≢◌,
}
use transity_terminal_resv_c.Common.Std.{trim}
use transity_terminal_resv_c.Engine.Types.{
  SeatHoldRequest, new_success, is_success, seconds, HoldFailureReason, SqlxError,
}
use transity_terminal_resv_c.Engine.Events.{Publisher}
use transity_terminal_resv_c.Engine.Database.{Env, World}
use transity_terminal_resv_c.Engine.Hold.{atomic_hold, finish_hold}
use transity_terminal_resv_c.Engine.Hold.Outcome.{succeeded}
use transity_terminal_resv_c.Engine.Release.{release_hold_by_ref}
use transity_terminal_resv_c.Server.Http.{Request, Libs}
use transity_terminal_resv_c.Server.State.{AppState}
use transity_terminal_resv_c.Server.Routes.{
  hold_result, release_result, ttl_of, post_hold, delete_hold,
}
use transity_terminal_resv_c.Server.App.{
  Codec, to_holds, to_hold, route, split_segment, dispatch, handle, strip_prefix, extracted, render,
}
use transity_terminal_resv_c.Loadtest.{holds_path, hold_path}

module _ {S : Type 0} (publisher : Publisher S) (env : Env) (req : SeatHoldRequest) where
  success-finish :
      (expires_at : ℤ) (r : Result SqlxError (Result HoldFailureReason (Unit {0}))) (bus : S)
      → succeeded (finish_hold env publisher req expires_at r bus).0 ≡ true
      → (finish_hold env publisher req expires_at r bus).0
        ≡ ok (new_success env.new_uuid expires_at)
  unfolding finish_hold is_success
  success-finish expires_at (ok (ok u)) bus h = refl
  success-finish expires_at (ok (err reason)) bus h = cc
  success-finish expires_at (err e) bus h = cc

  -- What a successful hold replies.
  pub atomic_hold-success :
      (ttl : ℤ) (w : World S)
      → succeeded (atomic_hold env publisher req ttl w).0 ≡ true
      → (atomic_hold env publisher req ttl w).0
        ≡ ok (new_success env.new_uuid (env.app_now +ℤ seconds ttl))
  unfolding atomic_hold
  atomic_hold-success ttl w h = success-finish (env.app_now +ℤ seconds ttl) _ w.bus h

route-holds_path : route holds_path ≡ to_holds
unfolding route text_eq
route-holds_path = refl

-- No slash, and not empty.
abbrev pub IsSegment : Text → Type 0
IsSegment s = (is_empty s ≡ false) × All (λ c. c ≢ 47) s

split_segment-IsSegment : (s : Text) → All (λ c. c ≢ 47) s → split_segment s ≡ (s, none)
unfolding split_segment
split_segment-IsSegment [] h = refl
split_segment-IsSegment (c ∷ s) h = ground (arith, split_segment-IsSegment s h.1)

route-hold_path : (s : Text) → IsSegment s → route (hold_path s) ≡ to_hold s
unfolding route text_eq strip_prefix
route-hold_path s h = rw (split_segment-IsSegment s h.1, h.0) refl

module _ {S : Type 0} (libs : Libs) (codec : Codec) (state : AppState) (env : Env)
    (publisher : Publisher S) (collate : Text → Text → Bool) (w : World S) where
  handle_lem :
      (r : Request)
      → handle libs codec state env publisher collate r w
        ≡ dispatch libs codec state env publisher collate r (route r.path) w
  unfolding handle
  handle_lem r = refl

  dispatch-to_holds :
      (r : Request) (req : SeatHoldRequest)
      → r.method ≡ codes "POST"
      → codec.hold_body r ≡ ok req
      → dispatch libs codec state env publisher collate r to_holds w
        ≡ extracted libs codec (post_hold libs state env publisher) (ok req) w
  unfolding dispatch
  dispatch-to_holds r req posted parsed =
      let is_post = (text_eq_iff r.method (codes "POST")).1 posted in rw (is_post, parsed) refl

  post_hold-success :
      (req : SeatHoldRequest)
      → is_empty req.leg_indexes ≡ false
      → is_empty (trim req.seat_no) ≡ false
      → let ttl = ttl_of state req.ttl_class in
        succeeded (atomic_hold env publisher req ttl w).0 ≡ true
        → post_hold libs state env publisher req w ≡ (
          ok (201, hold_result (new_success env.new_uuid (env.app_now +ℤ seconds ttl))),
          (atomic_hold env publisher req ttl w).1,
        )
  unfolding post_hold new_success
  post_hold-success req legs seat won =
      let replied = atomic_hold-success publisher env req (ttl_of state req.ttl_class) w won in
      ground (arith, legs, seat, replied)

  pub handle-hold :
      (r : Request) (req : SeatHoldRequest)
      → r.method ≡ codes "POST"
      → r.path ≡ holds_path
      → codec.hold_body r ≡ ok req
      → is_empty req.leg_indexes ≡ false
      → is_empty (trim req.seat_no) ≡ false
      → let ttl = ttl_of state req.ttl_class in
        succeeded (atomic_hold env publisher req ttl w).0 ≡ true
        → let (resp, w') = handle libs codec state env publisher collate r w in
          (resp.status ≡ 201)
          × (resp.body
              ≡ codec.to_json (hold_result (new_success env.new_uuid (env.app_now +ℤ seconds ttl))))
          × (w' ≡ (atomic_hold env publisher req ttl w).1)
  unfolding render
  handle-hold r req posted path parsed legs seat won =
      let routed =
        handle_lem r
        ∙ ap (λ x. dispatch libs codec state env publisher collate r x w)
            (ap route path ∙ route-holds_path)
        ∙ dispatch-to_holds r req posted parsed in
      rw (routed, post_hold-success req legs seat won) (refl, refl, refl)

  dispatch-to_hold :
      (r : Request) (hold_ref : Text)
      → r.method ≡ codes "DELETE"
      → codec.path_string hold_ref ≡ ok hold_ref
      → dispatch libs codec state env publisher collate r (to_hold hold_ref) w
        ≡ extracted libs codec (delete_hold libs state env publisher) (ok hold_ref) w
  unfolding dispatch text_eq
  dispatch-to_hold r hold_ref deleted parsed = rw (deleted, parsed) refl

  delete_hold-success :
      (hold_ref : Text)
      → (release_hold_by_ref env publisher hold_ref w).0 ≡ ok (record { success = true })
      → delete_hold libs state env publisher hold_ref w
        ≡ (ok (200, release_result true), (release_hold_by_ref env publisher hold_ref w).1)
  unfolding delete_hold
  delete_hold-success hold_ref released = rw released refl

  pub handle-release :
      (r : Request) (hold_ref : Text)
      → r.method ≡ codes "DELETE"
      → r.path ≡ hold_path hold_ref
      → IsSegment hold_ref
      → codec.path_string hold_ref ≡ ok hold_ref
      → (release_hold_by_ref env publisher hold_ref w).0 ≡ ok (record { success = true })
      → let (resp, w') = handle libs codec state env publisher collate r w in
        (resp.status ≡ 200) × (w' ≡ (release_hold_by_ref env publisher hold_ref w).1)
  unfolding render
  handle-release r hold_ref deleted path segment parsed released =
      let routed =
        handle_lem r
        ∙ ap (λ x. dispatch libs codec state env publisher collate r x w)
            (ap route path ∙ route-hold_path hold_ref segment)
        ∙ dispatch-to_hold r hold_ref deleted parsed in
      rw (routed, delete_hold-success hold_ref released) (refl, refl)
