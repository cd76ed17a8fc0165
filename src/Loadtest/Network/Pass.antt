-- ===== src/Loadtest/Network/Pass.antt =====
-- A request that the client signs passes the middlewares.
use transity_terminal_resv_c.Common.{
  ℕ, ℤ, pos, ◌<◌, ◌^◌, ◌≡◌, refl, ap, Bool, true, false, Text, codes, text_eq, List, Option, none,
  some, Result, ok, arith,
}
use transity_terminal_resv_c.Common.Std.{as_bytes}
use transity_terminal_resv_c.Engine.Events.{Publisher}
use transity_terminal_resv_c.Engine.Database.{Database, Env, World, cache_get}
use transity_terminal_resv_c.Server.Http.{Request, Response, Libs, max_body_bytes}
use transity_terminal_resv_c.Server.State.{AppState}
use transity_terminal_resv_c.Server.Hmac.{skew_exceeded, is_allowed, authenticate, verify}
use transity_terminal_resv_c.Server.Hmac.Sign.{sign, signed_request, authenticate-sign}
use transity_terminal_resv_c.Server.Store.{CachedResponse, lookup, put}
use transity_terminal_resv_c.Server.Layer.{
  is_write, get_idempotency_key, is_cacheable, body_hash_of, layer,
}
use transity_terminal_resv_c.Server.Layer.Replay.{cache_key, layer_miss, get_absent}
use transity_terminal_resv_c.Server.App.{Codec, handle, cached, router, either}
use transity_terminal_resv_c.Loadtest.Network.{Serving, answer}

-- The request as it reaches the handler.
abbrev pub arrived : Text → Text → Text → Text × Text × Text → (Text → Option Text) → Request
arrived method path body headers extra = record (signed_request method path body headers extra) {
  service = some (codes "loadtest");
}

-- What the client and the server have to agree on for a request to be let through.
pub record Trusted (libs : Libs) (state : AppState) (v : Serving) (now : ℕ) : Type 0 where
  pub in_range : now < 2 ^ 63
  pub recent : skew_exceeded v.now (pos now) state.hmac_skew_secs ≡ false
  pub allowed : is_allowed state.allowed_service_ids (codes "loadtest") ≡ true
  pub hex : (x : List ℕ) → libs.hex_decode (libs.hex_encode x) ≡ some x

-- The buffering of a body that is short enough.
abbrev pub IsShort : Libs → List ℕ → Type 0
IsShort libs bytes = libs.to_bytes max_body_bytes bytes ≡ some bytes

put-committed :
    (env : Env) (key : Text) (value : CachedResponse) (d : Database)
    → let t = (put env key value d).1.committed in t ≡ record d.committed { cache = t.cache }
unfolding put
put-committed env key value d = ground arith

module _ {S : Type 0} (libs : Libs) (state : AppState) (now : ℤ)
    (next : Request → World S → Response × World S) (w : World S) where
  verify_ok :
      (req req' : Request)
      → text_eq req.path (codes "/api/v1/healthz") ≡ false
      → authenticate libs state now req ≡ ok req'
      → verify libs state now next req w ≡ (ok (next req' w).0, (next req' w).1)
  unfolding verify
  verify_ok req req' guarded authentic = rw (guarded, authentic) refl

module _ {S : Type 0} (libs : Libs) (codec : Codec) (state : AppState) (publisher : Publisher S)
    (collate : Text → Text → Bool) (v : Serving) (now : ℕ) (method path body : Text)
    (headers : Text × Text × Text) (extra : Text → Option Text) (w : World S) where
  -- It is authentic, so it reaches the idempotency layer.
  pub answer-cached :
      Trusted libs state v now
      → sign libs (pos now) method path body state.hmac_secret ≡ some headers
      → IsShort libs (as_bytes body)
      → text_eq path (codes "/api/v1/healthz") ≡ false
      → answer libs codec state publisher collate v
          (signed_request method path body headers extra)
          w
        ≡ cached libs codec state v.now v.get_env v.env v.put_env publisher collate
            (arrived method path body headers extra)
            w
  unfolding router
  answer-cached trusted signed short guarded =
      ap (λ (x : Result Response Response × World S). (either x.0, x.1))
        (verify_ok libs state v.now
          (cached libs codec state v.now v.get_env v.env v.put_env publisher collate) w _ _ guarded
          (authenticate-sign libs state v.now now method path body headers extra signed
            trusted.in_range trusted.recent short trusted.allowed trusted.hex))

  -- What the handler answers, and leaves.
  abbrev handled : Response × World S
  handled =
      handle libs codec state v.env publisher collate (arrived method path body headers extra) w

  -- Without an idempotency key the handler answers.
  pub cached-handle :
      get_idempotency_key (arrived method path body headers extra) ≡ none
      → cached libs codec state v.now v.get_env v.env v.put_env publisher collate
          (arrived method path body headers extra)
          w
        ≡ handled
  unfolding cached layer
  cached-handle unkeyed = ground (arith, unkeyed)

  -- With a key that has no entry the handler answers too, and the cache is written.
  pub cached-miss :
      (raw_key : Text) (bytes : List ℕ)
      → is_write method ≡ true
      → get_idempotency_key (arrived method path body headers extra) ≡ some raw_key
      → IsShort libs (as_bytes body)
      → v.get_env.fails cache_get ≡ false
      → lookup
          (cache_key libs (arrived method path body headers extra) raw_key)
          v.get_env.db_now
          w.database.committed.cache
        ≡ none
      → handled.0.body ≡ bytes
      → IsShort libs bytes
      → is_cacheable handled.0.status ≡ true
      → let (r, w') =
          cached libs codec state v.now v.get_env v.env v.put_env publisher collate
            (arrived method path body headers extra)
            w in
        (r.status ≡ handled.0.status)
        × (r.body ≡ bytes)
        × (w'.database.committed
            ≡ record handled.1.database.committed { cache = w'.database.committed.cache })
  unfolding cached
  cached-miss raw_key bytes written keyed short read absent same fits cacheable =
      let key = cache_key libs (arrived method path body headers extra) raw_key in
      let value : CachedResponse = record {
        status = handled.0.status;
        body = bytes;
        body_hash = body_hash_of libs (as_bytes body);
      } in
      rw
        (layer_miss libs v.get_env v.put_env (handle libs codec state v.env publisher collate)
          (arrived method path body headers extra) raw_key (as_bytes body) w written keyed short
          bytes (get_absent v.get_env key w.database read absent) (rw same fits) cacheable)
        (refl, refl, put-committed v.put_env key value handled.1.database)
