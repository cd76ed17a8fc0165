-- ===== src/Server/App.antt =====
-- routes.rs: `router`, with the two middlewares around the handlers.
pub mod Guard
pub mod Once
pub mod Refused
pub mod Answered
use transity_terminal_resv_c.Common.{
  ℕ, ℤ, Bool, true, false, ◌&&◌, ◌||◌, not, ◌==◌, Text, codes, text_eq, List, [], ◌∷◌, is_empty,
  Option, none, some, Result, ok, err, Action, if◌then◌else◌,
}
use transity_terminal_resv_c.Engine.Types.{Uuid, SeatHoldRequest}
use transity_terminal_resv_c.Engine.Events.{Publisher}
use transity_terminal_resv_c.Engine.Database.{Env, World}
use transity_terminal_resv_c.Server.Http.{Request, Response, Libs, ApiError, into_response}
use transity_terminal_resv_c.Server.State.{AppState}
use transity_terminal_resv_c.Server.Layer.{layer}
use transity_terminal_resv_c.Server.Hmac.{verify}
use transity_terminal_resv_c.Server.Routes.{
  Reply, ConfirmBody, CancelBody, healthz, post_hold, delete_hold, post_confirm, post_cancel_seats,
  get_snapshot,
}

-- The extractors of axum with their rejections, the JSON of a reply, and the replies to a path or a
-- method that no route has.
pub record Codec : Type 0 where
  pub hold_body : Request → Result Response SeatHoldRequest
  pub confirm_body : Request → Result Response ConfirmBody
  pub cancel_body : Request → Result Response CancelBody
  pub path_string : Text → Result Response Text
  pub path_uuid : Text → Result Response Uuid
  pub to_json : Reply → List ℕ
  pub not_found : Response
  pub method_not_allowed : Response

-- The routes, with what stands for their parameter in the path.
pub data Route : Type 0 where
  to_healthz to_holds to_cancel_seats unrouted : Route
  to_hold to_confirm to_inventory : Text → Route

unfoldable pub strip_prefix : Text → Text → Option Text
strip_prefix [] s = some s
strip_prefix (c ∷ p) [] = none
strip_prefix (c ∷ p) (d ∷ s) = let rest = strip_prefix p s in if c == d then rest else none

-- The text before the first slash, and the text after it.
unfoldable pub split_segment : Text → Text × Option Text
split_segment [] = ([], none)
split_segment (c ∷ s) =
    let (segment, rest) = split_segment s in if c == 47 then ([], some s) else (c ∷ segment, rest)

abbrev under_holds : Text × Option Text → Route
under_holds (segment, none) = if is_empty segment then unrouted else to_hold segment
under_holds (segment, some rest) =
    if text_eq rest (codes "confirm") && not (is_empty segment)
    then to_confirm segment
    else unrouted

abbrev under_inventory : Text × Option Text → Route
under_inventory (segment, none) = if is_empty segment then unrouted else to_inventory segment
under_inventory (segment, some rest) = unrouted

abbrev or_inventory : Option Text → Route
or_inventory none = unrouted
or_inventory (some rest) = under_inventory (split_segment rest)

abbrev or_holds : Text → Option Text → Route
or_holds path none = or_inventory (strip_prefix (codes "/api/v1/inventory/") path)
or_holds path (some rest) = under_holds (split_segment rest)

unfoldable pub route : Text → Route
unfolding split_segment
route path =
    if text_eq path (codes "/api/v1/healthz")
    then to_healthz
    else if text_eq path (codes "/api/v1/holds")
    then to_holds
    else if text_eq path (codes "/api/v1/cancel-seats")
    then to_cancel_seats
    else or_holds path (strip_prefix (codes "/api/v1/holds/") path)

-- `get` also answers HEAD.
unfoldable pub is_get : Text → Bool
is_get m = text_eq m (codes "GET") || text_eq m (codes "HEAD")

-- axum leaves out the body of an answer to HEAD.
unfoldable pub for_method : Text → Response → Response
for_method m r = if text_eq m (codes "HEAD") then record r { body = [] } else r

module _ (libs : Libs) (codec : Codec) where
  -- `into_response` of a handler's result.
  unfoldable pub render : Result ApiError (ℕ × Reply) → Response
  render (ok (status, reply)) = record {
    status = status;
    headers = (codes "content-type", codes "application/json") ∷ [];
    body = codec.to_json reply;
  }
  render (err e) = into_response libs e

  module _ {S : Type 0} where
    -- A handler behind an extractor that may reject the request.
    abbrev pub extracted :
        {A : Type 0}
        → (A → Action ApiError (World S) (ℕ × Reply))
        → Result Response A
        → World S
        → Response × World S
    extracted f (ok a) w = let (r, w') = f a w in (render r, w')
    extracted f (err rejection) w = (rejection, w)

    module _ (state : AppState) (env : Env) (publisher : Publisher S)
        (collate : Text → Text → Bool) where
      -- With both a path parameter and a body.
      unfoldable pub confirm_at : Request → Result Response Text → World S → Response × World S
      unfolding render post_confirm
      confirm_at req (ok hold_ref) w =
          extracted (post_confirm libs state env publisher hold_ref) (codec.confirm_body req) w
      confirm_at req (err rejection) w = (rejection, w)

      unfoldable pub dispatch : Request → Route → World S → Response × World S
      unfolding render confirm_at for_method is_get
      dispatch req to_healthz w =
          if is_get req.method
          then (for_method req.method (render (ok healthz)), w)
          else (codec.method_not_allowed, w)
      dispatch req to_holds w =
          if text_eq req.method (codes "POST")
          then extracted (post_hold libs state env publisher) (codec.hold_body req) w
          else (codec.method_not_allowed, w)
      dispatch req (to_hold segment) w =
          if text_eq req.method (codes "DELETE")
          then extracted (delete_hold libs state env publisher) (codec.path_string segment) w
          else (codec.method_not_allowed, w)
      dispatch req (to_confirm segment) w =
          if text_eq req.method (codes "POST")
          then confirm_at req (codec.path_string segment) w
          else (codec.method_not_allowed, w)
      dispatch req to_cancel_seats w =
          if text_eq req.method (codes "POST")
          then extracted (post_cancel_seats libs state env publisher) (codec.cancel_body req) w
          else (codec.method_not_allowed, w)
      dispatch req (to_inventory segment) w =
          if is_get req.method
          then (let (r, w') =
                extracted (get_snapshot libs state env publisher collate) (codec.path_uuid segment)
                  w in
              (for_method req.method r, w'))
          else (codec.method_not_allowed, w)
      dispatch req unrouted w = (codec.not_found, w)

      unfoldable pub handle : Request → World S → Response × World S
      unfolding dispatch route
      handle req w = dispatch req (route req.path) w

-- Both outcomes of a middleware are responses.
abbrev pub either : Result Response Response → Response
either (ok r) = r
either (err r) = r

module _ {S : Type 0} (libs : Libs) (codec : Codec) (state : AppState) (now : ℤ)
    (get_env env put_env : Env) (publisher : Publisher S) (collate : Text → Text → Bool) where
  -- `next` of `verify`: the idempotency layer around the handlers.
  unfoldable pub cached : Request → World S → Response × World S
  unfolding layer handle
  cached req w =
      let (r, w') =
        layer libs get_env put_env (handle libs codec state env publisher collate) req w in
      (either r, w')

  unfoldable pub router : Request → World S → Response × World S
  unfolding verify cached
  router req w = let (r, w') = verify libs state now cached req w in (either r, w')
