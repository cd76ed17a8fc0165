-- ===== src/Server/Layer.antt =====
-- idempotency.rs: the middleware `layer`, around the handler `next`.
pub mod Key
pub mod Replay
pub mod Overlap
use transity_terminal_resv_c.Common.{
  ℕ, leb, ◌==◌, Bool, true, false, ◌&&◌, ◌||◌, not, Text, codes, text_eq, List, [], ◌∷◌, ◌++◌,
  is_empty, Option, none, some, Result, ok, err, Action, if◌then◌else◌,
}
use transity_terminal_resv_c.Common.Std.{trim}
use transity_terminal_resv_c.Engine.Types.{SqlxError}
use transity_terminal_resv_c.Engine.Database.{Database, Env, World}
use transity_terminal_resv_c.Server.Http.{
  Request, Response, Libs, insert_header, max_body_bytes, ApiError, conflict, internal_error,
  body_too_large, into_response,
}
use transity_terminal_resv_c.Server.Store.{CachedResponse, get, put}
use transity_terminal_resv_c.Server.Layer.Key.{scoped_idempotency_key}

unfoldable pub is_write : Text → Bool
is_write m =
    text_eq m (codes "POST")
    || (text_eq m (codes "PUT") || (text_eq m (codes "PATCH") || text_eq m (codes "DELETE")))

abbrev pub non_empty : Option Text → Option Text
non_empty none = none
non_empty (some s) = if is_empty (trim s) then none else some (trim s)

unfoldable pub get_idempotency_key : Request → Option Text
get_idempotency_key req = non_empty (req.header (codes "idempotency-key"))

abbrev pub or_anonymous : Option Text → Text
or_anonymous none = codes "anonymous"
or_anonymous (some s) = s

-- 2xx, 409 and 422.
unfoldable pub is_cacheable : ℕ → Bool
is_cacheable status = leb 200 status && leb status 299 || (status == 409 || status == 422)

abbrev pub or_ok : Option ℕ → ℕ
or_ok none = 200
or_ok (some s) = s

module _ (libs : Libs) where
  unfoldable pub body_hash_of : List ℕ → Text
  body_hash_of bytes = libs.hex_encode (libs.sha256 bytes)

  -- The reply to a request whose key has an entry.
  unfoldable pub serve_cached : Text → CachedResponse → Result Response Response
  unfolding conflict
  serve_cached body_hash cached =
      if not (text_eq cached.body_hash body_hash)
      then err (into_response libs (conflict (codes "idempotency key reused with different body")))
      else ok (record {
        status = or_ok (libs.status_from_u16 cached.status);
        headers =
            insert_header (codes "x-idempotent-replayed") (codes "true")
              (insert_header (codes "content-type") (codes "application/json") []);
        body = cached.body;
      })

  module _ {S : Type 0} (get_env put_env : Env)
      (next : Request → World S → Response × World S) where
    -- The best-effort write: its result is dropped.
    unfoldable pub cache_response : Text → Text → ℕ → List ℕ → World S → World S
    unfolding put
    cache_response key body_hash status bytes w =
        if is_cacheable status
        then record w {
          database =
              (put put_env key (record { status = status; body = bytes; body_hash = body_hash })
                w.database).1;
        }
        else w

    -- The response of the handler, once its body is buffered.
    unfoldable pub emit :
        Text → Text → Response → Option (List ℕ) → World S → Result Response Response × World S
    unfolding cache_response internal_error
    emit key body_hash resp none w =
        (err (into_response libs (internal_error (codes "response body too large to cache"))), w)
    emit key body_hash resp (some bytes) w = (
      ok (record resp {
        headers = insert_header (codes "x-idempotent-replayed") (codes "false") resp.headers;
        body = bytes;
      }),
      cache_response key body_hash resp.status bytes w,
    )

    -- What the lookup of the key leads to.
    unfoldable pub after_lookup :
        Text
        → Text
        → Request
        → Result SqlxError (Option CachedResponse)
        → World S
        → Result Response Response × World S
    unfolding emit serve_cached internal_error
    after_lookup key body_hash req (err e) w = (
      err (
          into_response libs
            (internal_error (codes "idempotency lookup failed: " ++ libs.sqlx_text e))),
      w,
    )
    after_lookup key body_hash req (ok (some cached)) w = (serve_cached body_hash cached, w)
    after_lookup key body_hash req (ok none) w =
        let (resp, w') = next req w in
        emit key body_hash resp (libs.to_bytes max_body_bytes resp.body) w'

    -- With the request's body buffered.
    unfoldable pub with_body :
        Text → Request → Option (List ℕ) → World S → Result Response Response × World S
    unfolding after_lookup get body_hash_of
    with_body key req none w = (err (into_response libs body_too_large), w)
    with_body key req (some body_bytes) w =
        let (cached, database) = get get_env key w.database in
        after_lookup key (body_hash_of body_bytes) (record req { body = body_bytes }) cached
          (record w { database = database })

    unfoldable pub with_key : Request → Option Text → World S → Result Response Response × World S
    unfolding with_body scoped_idempotency_key
    with_key req none w = let (resp, w') = next req w in (ok resp, w')
    with_key req (some raw_key) w =
        let key =
          scoped_idempotency_key libs (or_anonymous req.service) req.method req.path raw_key in
        with_body key req (libs.to_bytes max_body_bytes req.body) w

    unfoldable pub layer : Request → Action Response (World S) Response
    unfolding with_key
    layer req w =
        if not (is_write req.method)
        then (let (resp, w') = next req w in (ok resp, w'))
        else with_key req (get_idempotency_key req) w
