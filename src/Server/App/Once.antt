-- ===== src/Server/App/Once.antt =====
-- The handlers behind the idempotency layer.
use transity_terminal_resv_c.Common.{
  ℕ, ◌<◌, ◌^◌, ◌≡◌, refl, ◌+ℤ◌, ◌≤ℤ◌, ◌<ℤ◌, Bool, true, false, Text, text_eq, List, none, some,
  is_empty, Result, Action, ok, err, arith, Bool-cases, inl, inr,
}
use transity_terminal_resv_c.Common.Std.{trim}
use transity_terminal_resv_c.Engine.Types.{Uuid, SeatHoldRequest, seconds}
use transity_terminal_resv_c.Engine.Events.{Publisher}
use transity_terminal_resv_c.Engine.Database.{CacheRow, Env, World, cache_get, cache_put}
use transity_terminal_resv_c.Engine.Snapshot.{get_inventory_snapshot}
use transity_terminal_resv_c.Engine.System.{hold, confirm, cancel, release, perform}
use transity_terminal_resv_c.Engine.System.Keys.{perform-cache}
use transity_terminal_resv_c.Server.Http.{Request, Response, Libs, ApiError, max_body_bytes}
use transity_terminal_resv_c.Server.State.{AppState}
use transity_terminal_resv_c.Server.Store.{idempotency_ttl, lookup}
use transity_terminal_resv_c.Server.Store.Laws.{HasDistinctKeys}
use transity_terminal_resv_c.Server.Layer.{
  is_write, get_idempotency_key, is_cacheable, body_hash_of, layer,
}
use transity_terminal_resv_c.Server.Layer.Replay.{
  cache_key, first_response, retry_reply, layer-layer,
}
use transity_terminal_resv_c.Server.Routes.{
  Reply, ConfirmBody, CancelBody, ttl_of, hold_checked, post_hold, delete_hold, post_confirm,
  post_cancel_seats, get_snapshot,
}
use transity_terminal_resv_c.Server.App.{
  Codec, Route, to_healthz, to_holds, to_cancel_seats, unrouted, to_hold, to_confirm, to_inventory,
  route, extracted, confirm_at, dispatch, handle,
}

abbrev cache_of : {S : Type 0} → World S → List CacheRow
cache_of w = w.database.committed.cache

module _ {S : Type 0} (libs : Libs) (codec : Codec) (state : AppState) (env : Env)
    (publisher : Publisher S) (collate : Text → Text → Bool) where
  post_hold-cache :
      (req : SeatHoldRequest) (w : World S)
      → cache_of (post_hold libs state env publisher req w).1 ≡ cache_of w
  unfolding post_hold
  post_hold-cache req w = elim (Bool-cases (is_empty req.leg_indexes)) [
    | inl e ↦ rw e refl
    | inr e ↦ elim (Bool-cases (is_empty (trim req.seat_no))) [
      | inl f ↦ rw (e, f) refl
      | inr f ↦ rw (e, f) (checked req)
    ]
  ]
    where
      checked :
          (r : SeatHoldRequest)
          → cache_of (hold_checked libs state env publisher r w).1 ≡ cache_of w
      checked r =
          unfold hold_checked perform in
          perform-cache publisher env (hold r (ttl_of state r.ttl_class)) w

  delete_hold-cache :
      (hold_ref : Text) (w : World S)
      → cache_of (delete_hold libs state env publisher hold_ref w).1 ≡ cache_of w
  unfolding delete_hold perform
  delete_hold-cache hold_ref w = perform-cache publisher env (release hold_ref) w

  post_confirm-cache :
      (hold_ref : Text) (body : ConfirmBody) (w : World S)
      → cache_of (post_confirm libs state env publisher hold_ref body w).1 ≡ cache_of w
  unfolding post_confirm perform
  post_confirm-cache hold_ref body w =
      perform-cache publisher env (confirm hold_ref body.booking_id) w

  post_cancel_seats-cache :
      (body : CancelBody) (w : World S)
      → cache_of (post_cancel_seats libs state env publisher body w).1 ≡ cache_of w
  unfolding post_cancel_seats perform
  post_cancel_seats-cache body w =
      perform-cache publisher env (cancel body.trip_id body.seat_no body.leg_indexes) w

  get_snapshot-cache :
      (trip_id : Uuid) (w : World S)
      → cache_of (get_snapshot libs state env publisher collate trip_id w).1 ≡ cache_of w
  unfolding get_snapshot get_inventory_snapshot
  get_snapshot-cache trip_id w = ground arith

  extracted-cache :
      {A : Type 0} (f : A → Action ApiError (World S) (ℕ × Reply))
      → ((a : A) (w : World S) → cache_of (f a w).1 ≡ cache_of w)
      → (r : Result Response A) (w : World S) → cache_of (extracted libs codec f r w).1 ≡ cache_of w
  extracted-cache f keeps (ok a) w = keeps a w
  extracted-cache f keeps (err e) w = refl

  confirm_at-cache :
      (req : Request) (r : Result Response Text) (w : World S)
      → cache_of (confirm_at libs codec state env publisher collate req r w).1 ≡ cache_of w
  unfolding confirm_at
  confirm_at-cache req (ok hold_ref) w =
      extracted-cache (post_confirm libs state env publisher hold_ref) (post_confirm-cache hold_ref)
        (codec.confirm_body req) w
  confirm_at-cache req (err e) w = refl

  dispatch-cache :
      (req : Request) (r : Route) (w : World S)
      → cache_of (dispatch libs codec state env publisher collate req r w).1 ≡ cache_of w
  unfolding dispatch
  dispatch-cache req to_healthz w = ground arith
  dispatch-cache req to_holds w = ground (
    arith,
    extracted-cache (post_hold libs state env publisher) post_hold-cache (codec.hold_body req) w,
  )
  dispatch-cache req (to_hold segment) w = ground (
    arith,
    extracted-cache (delete_hold libs state env publisher) delete_hold-cache
        (codec.path_string segment) w,
  )
  dispatch-cache req (to_confirm segment) w =
      ground (arith, confirm_at-cache req (codec.path_string segment) w)
  dispatch-cache req to_cancel_seats w = ground (
    arith,
    extracted-cache (post_cancel_seats libs state env publisher) post_cancel_seats-cache
        (codec.cancel_body req) w,
  )
  dispatch-cache req (to_inventory segment) w = ground (
    arith,
    extracted-cache (get_snapshot libs state env publisher collate) get_snapshot-cache
        (codec.path_uuid segment) w,
  )
  dispatch-cache req unrouted w = refl

  pub handle-cache :
      (req : Request) (w : World S)
      → cache_of (handle libs codec state env publisher collate req w).1 ≡ cache_of w
  unfolding handle
  handle-cache req w = dispatch-cache req (route req.path) w

module _ {S : Type 0} (libs : Libs) (codec : Codec) (state : AppState)
    (get_env env put_env get_env' env' put_env' : Env) (publisher : Publisher S)
    (collate : Text → Text → Bool) (req req' : Request) (raw_key raw_key' : Text)
    (bytes bytes' resp_bytes : List ℕ) (w : World S) where
  -- A write request whose key has no entry and whose answer is cacheable is handled once: a second
  -- write request with the same cache key, read within the time to live, gets the same status and
  -- body, or a conflict if its body has another digest, and changes neither the database nor the
  -- published events. The clock must not go back, and the calls on the cache must not fail.
  pub handle_once :
      is_write req.method ≡ true
      → is_write req'.method ≡ true
      → get_idempotency_key req ≡ some raw_key
      → get_idempotency_key req' ≡ some raw_key'
      → cache_key libs req' raw_key' ≡ cache_key libs req raw_key
      → libs.to_bytes max_body_bytes req.body ≡ some bytes
      → libs.to_bytes max_body_bytes req'.body ≡ some bytes'
      → get_env.fails cache_get ≡ false
      → put_env.fails cache_put ≡ false
      → get_env'.fails cache_get ≡ false
      → get_env.db_now ≤ℤ put_env.db_now
      → get_env'.db_now <ℤ (put_env.app_now +ℤ seconds idempotency_ttl)
      → HasDistinctKeys w.database.committed.cache
      → lookup (cache_key libs req raw_key) get_env.db_now w.database.committed.cache ≡ none
      → let resp =
          (handle libs codec state env publisher collate (record req { body = bytes }) w).0 in
        libs.to_bytes max_body_bytes resp.body ≡ some resp_bytes
        → is_cacheable resp.status ≡ true
        → resp.status < 2 ^ 16
        → libs.status_from_u16 resp.status ≡ some resp.status
        → let (r, w2) =
            layer libs get_env put_env (handle libs codec state env publisher collate) req w in
          let (r', w3) =
            layer libs get_env' put_env' (handle libs codec state env' publisher collate) req' w2 in
          (r ≡ ok (first_response resp resp_bytes))
          × (r'
              ≡ retry_reply libs
                  (text_eq (body_hash_of libs bytes) (body_hash_of libs bytes'))
                  resp.status
                  resp_bytes)
          × (w3 ≡ w2)
  handle_once written written' keyed keyed' same_key buffered buffered' read put_done read' in_order
        in_time distinct absent answered cacheable bounded valid =
      layer-layer libs get_env put_env get_env' put_env'
        (handle libs codec state env publisher collate)
        (handle libs codec state env' publisher collate) req req' raw_key raw_key' bytes bytes'
        resp_bytes w written written' keyed keyed' same_key buffered buffered' read put_done read'
        in_order in_time distinct absent answered cacheable bounded valid
        (handle-cache libs codec state env publisher collate (record req { body = bytes }) w)
