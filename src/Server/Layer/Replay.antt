-- ===== src/Server/Layer/Replay.antt =====
-- A request that comes again under its key.
use transity_terminal_resv_c.Common.{
  ℕ, ◌<◌, ◌^◌, ◌≡◌, refl, ap, ◌∙◌, ◌+ℤ◌, ◌≤ℤ◌, ◌<ℤ◌, Bool, true, false, Text, codes, text_eq, List,
  [], ◌∷◌, none, some, is_none, Result, ok, err, arith, if◌then◌else◌,
}
use transity_terminal_resv_c.Engine.Types.{Instant, seconds}
use transity_terminal_resv_c.Engine.Database.{CacheRow, Database, Env, World, cache_get, cache_put}
use transity_terminal_resv_c.Engine.Database.Sql.{find_where}
use transity_terminal_resv_c.Server.Http.{
  Request, Response, Libs, insert_header, max_body_bytes, conflict, into_response,
}
use transity_terminal_resv_c.Server.Store.{
  idempotency_ttl, CachedResponse, is_fresh, lookup, get, put,
}
use transity_terminal_resv_c.Server.Store.Laws.{HasDistinctKeys, get-put}
use transity_terminal_resv_c.Server.Layer.{
  is_write, get_idempotency_key, or_anonymous, is_cacheable, body_hash_of, serve_cached,
  cache_response, emit, after_lookup, with_body, with_key, layer,
}
use transity_terminal_resv_c.Server.Layer.Key.{scoped_idempotency_key}

-- The key of a request in the cache.
abbrev pub cache_key : Libs → Request → Text → Text
cache_key libs req raw_key =
    scoped_idempotency_key libs (or_anonymous req.service) req.method req.path raw_key

still_stale :
    (now later : Instant) (r : CacheRow)
    → now ≤ℤ later
    → is_fresh now r ≡ false
    → is_fresh later r ≡ false
unfolding is_fresh
still_stale now later r h e = ground arith

lookup_later :
    (key : Text) (now later : Instant) (rows : List CacheRow)
    → now ≤ℤ later
    → lookup key now rows ≡ none
    → lookup key later rows ≡ none
unfolding lookup find_where
lookup_later key now later [] h e = refl
lookup_later key now later (r ∷ rs) h e =
    ground (arith, still_stale now later r h, lookup_later key now later rs h)

pub get_absent :
    (env : Env) (key : Text) (d : Database)
    → env.fails cache_get ≡ false
    → lookup key env.db_now d.committed.cache ≡ none
    → (get env key d).0 ≡ ok none
unfolding get
get_absent env key d read absent = ground (arith, read, absent)

-- A response as it is given out, and as it is given out again.
abbrev pub first_response : Response → List ℕ → Response
first_response resp bytes = record resp {
  headers = insert_header (codes "x-idempotent-replayed") (codes "false") resp.headers;
  body = bytes;
}

abbrev pub replayed_response : ℕ → List ℕ → Response
replayed_response status bytes = record {
  status = status;
  headers =
      insert_header (codes "x-idempotent-replayed") (codes "true")
        (insert_header (codes "content-type") (codes "application/json") []);
  body = bytes;
}

module _ {S : Type 0} (libs : Libs) (get_env put_env : Env)
    (next : Request → World S → Response × World S) (req : Request) (raw_key : Text)
    (bytes : List ℕ) (w : World S) (written : is_write req.method ≡ true)
    (keyed : get_idempotency_key req ≡ some raw_key)
    (buffered : libs.to_bytes max_body_bytes req.body ≡ some bytes) where
  -- The reply to a key that has an entry depends on the entry and the body only.
  layer_hit :
      (cached : CachedResponse)
      → (get get_env (cache_key libs req raw_key) w.database).0 ≡ ok (some cached)
      → layer libs get_env put_env next req w
        ≡ (serve_cached libs (body_hash_of libs bytes) cached, w)
  unfolding layer with_key with_body after_lookup get
  layer_hit cached found = ground (arith, written, keyed, buffered, found)

  -- Without an entry the handler runs, and what it answers is cached.
  pub layer_miss :
      (resp_bytes : List ℕ)
      → (get get_env (cache_key libs req raw_key) w.database).0 ≡ ok none
      → let (resp, w1) = next (record req { body = bytes }) w in
        libs.to_bytes max_body_bytes resp.body ≡ some resp_bytes
        → is_cacheable resp.status ≡ true
        → layer libs get_env put_env next req w ≡ (
          ok (first_response resp resp_bytes),
          record w1 {
            database =
                (put put_env
                  (cache_key libs req raw_key)
                  (record {
                    status = resp.status;
                    body = resp_bytes;
                    body_hash = body_hash_of libs bytes;
                  })
                  w1.database).1;
          },
        )
  unfolding layer with_key with_body after_lookup get emit cache_response
  layer_miss resp_bytes absent answered cacheable =
      ground (arith, written, keyed, buffered, absent, answered, cacheable)

-- What a retry is told: the first answer again, or a conflict if its body is another one.
abbrev pub retry_reply : Libs → Bool → ℕ → List ℕ → Result Response Response
retry_reply libs true status bytes = ok (replayed_response status bytes)
retry_reply libs false status bytes =
    err (into_response libs (conflict (codes "idempotency key reused with different body")))

serve_cached-retry :
    (libs : Libs) (body_hash : Text) (status : ℕ) (bytes : List ℕ) (first_hash : Text)
    → libs.status_from_u16 status ≡ some status
    → serve_cached libs body_hash (record { status = status; body = bytes; body_hash = first_hash })
      ≡ retry_reply libs (text_eq first_hash body_hash) status bytes
unfolding serve_cached
serve_cached-retry libs body_hash status bytes first_hash valid = ground (arith, valid)

module _ {S : Type 0} (libs : Libs) (get_env put_env get_env' put_env' : Env)
    (next next' : Request → World S → Response × World S) (req req' : Request)
    (raw_key raw_key' : Text) (bytes bytes' resp_bytes : List ℕ) (w : World S) where
  -- A write request whose key has no entry, and whose answer is cacheable, runs its handler once: a
  -- second write request with the same cache key, read within the time to live, gets the same status
  -- and body, or a conflict if its body has another digest, and changes nothing. The handler has to
  -- leave the cache alone, the clock not to go back, and the calls on the cache not to fail.
  pub layer-layer :
      is_write req.method ≡ true
      → is_write req'.method ≡ true
      → get_idempotency_key req ≡ some raw_key
      → get_idempotency_key req' ≡ some raw_key'
      → cache_key libs req' raw_key' ≡ cache_key libs req raw_key
      → libs.to_bytes max_body_bytes req.body ≡ some bytes
      → libs.to_bytes max_body_bytes req'.body ≡ some bytes'
      → get_env.fails cache_get ≡ false
      → put_env.fails cache_put ≡ false
      → get_env'.fails cache_get ≡ false
      → get_env.db_now ≤ℤ put_env.db_now
      → get_env'.db_now <ℤ (put_env.app_now +ℤ seconds idempotency_ttl)
      → HasDistinctKeys w.database.committed.cache
      → lookup (cache_key libs req raw_key) get_env.db_now w.database.committed.cache ≡ none
      → let (resp, w1) = next (record req { body = bytes }) w in
        libs.to_bytes max_body_bytes resp.body ≡ some resp_bytes
        → is_cacheable resp.status ≡ true
        → resp.status < 2 ^ 16
        → libs.status_from_u16 resp.status ≡ some resp.status
        → w1.database.committed.cache ≡ w.database.committed.cache
        → let (r, w2) = layer libs get_env put_env next req w in
          let (r', w3) = layer libs get_env' put_env' next' req' w2 in
          (r ≡ ok (first_response resp resp_bytes))
          × (r'
              ≡ retry_reply libs
                  (text_eq (body_hash_of libs bytes) (body_hash_of libs bytes'))
                  resp.status
                  resp_bytes)
          × (w3 ≡ w2)
  layer-layer written written' keyed keyed' same_key buffered buffered' read put_done read' in_order
        in_time distinct absent answered cacheable bounded valid alone =
      let key = cache_key libs req raw_key in
      let (resp, w1) = next (record req { body = bytes }) w in
      let value : CachedResponse = record {
        status = resp.status;
        body = resp_bytes;
        body_hash = body_hash_of libs bytes;
      } in
      let first =
        layer_miss libs get_env put_env next req raw_key bytes w written keyed buffered resp_bytes
          (get_absent get_env key w.database read absent) answered cacheable in
      let gone =
        ap (λ c. lookup key put_env.db_now c) alone
        ∙ lookup_later key get_env.db_now put_env.db_now w.database.committed.cache in_order
            absent in
      let (_, found) =
        get-put put_env get_env' key value w1.database (rw alone distinct) put_done read' bounded
          in_time in
      let w2 : World S = record w1 { database = (put put_env key value w1.database).1 } in
      let entry : (get get_env' key w2.database).0 ≡ ok (some value) =
        found
        ∙ ap (λ o. if is_none o then ok (some value) else (get get_env' key w1.database).0) gone in
      let again =
        layer_hit libs get_env' put_env' next' req' raw_key' bytes' w2 written' keyed' buffered'
          value (ap (λ k. (get get_env' k w2.database).0) same_key ∙ entry) in
      let told =
        serve_cached-retry libs (body_hash_of libs bytes') resp.status resp_bytes
          (body_hash_of libs bytes) valid in
      rw first (refl, ap (λ x. x.0) again ∙ told, ap (λ x. x.1) again)
