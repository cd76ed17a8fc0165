-- ===== src/Server/Layer/Overlap.antt =====
-- Two requests with one key that overlap in time.
use transity_terminal_resv_c.Common.{
  ℕ, ◌<◌, ◌^◌, ◌≡◌, ap, ◌∙◌, ◌+ℤ◌, ◌<ℤ◌, true, false, Text, List, none, some, is_none, ok, arith,
}
use transity_terminal_resv_c.Engine.Types.{seconds}
use transity_terminal_resv_c.Engine.Database.{Database, Env, World, cache_get, cache_put}
use transity_terminal_resv_c.Server.Http.{Request, Response, Libs, max_body_bytes}
use transity_terminal_resv_c.Server.Store.{idempotency_ttl, CachedResponse, lookup, get, put}
use transity_terminal_resv_c.Server.Store.Laws.{HasDistinctKeys, get-put}
use transity_terminal_resv_c.Server.Layer.{is_cacheable, cache_response, emit, after_lookup}
use transity_terminal_resv_c.Server.Layer.Replay.{first_response}
use transity_terminal_resv_c.Server.Service.Keys.{put-HasDistinctKeys}

-- What `get` finds tells whether there is a fresh entry.
found_not_none :
    (env : Env) (key : Text) (d : Database) (value : CachedResponse)
    → env.fails cache_get ≡ false
    → (get env key d).0 ≡ ok (some value)
    → is_none (lookup key env.db_now d.committed.cache) ≡ false
unfolding get
found_not_none env key d value read e = ground (arith, read, e)

-- What `get` finds depends on the cache only.
get_cache :
    (env : Env) (key : Text) (d d' : Database)
    → d'.committed.cache ≡ d.committed.cache
    → (get env key d').0 ≡ (get env key d).0
unfolding get
get_cache env key d d' e = ground (arith, ap (λ c. lookup key env.db_now c) e)

module _ (put_env get_env : Env) (key : Text) (value : CachedResponse) (d : Database) where
  -- A write under a key without a fresh entry.
  put_absent :
      HasDistinctKeys d.committed.cache
      → put_env.fails cache_put ≡ false
      → get_env.fails cache_get ≡ false
      → value.status < 2 ^ 16
      → get_env.db_now <ℤ (put_env.app_now +ℤ seconds idempotency_ttl)
      → lookup key put_env.db_now d.committed.cache ≡ none
      → (get get_env key (put put_env key value d).1).0 ≡ ok (some value)
  put_absent distinct written read bounded in_time absent =
      let (_, found) = get-put put_env get_env key value d distinct written read bounded in_time in
      ground (arith, found, absent)

  -- A write under a key with a fresh entry.
  put_present :
      HasDistinctKeys d.committed.cache
      → put_env.fails cache_put ≡ false
      → get_env.fails cache_get ≡ false
      → value.status < 2 ^ 16
      → get_env.db_now <ℤ (put_env.app_now +ℤ seconds idempotency_ttl)
      → is_none (lookup key put_env.db_now d.committed.cache) ≡ false
      → (get get_env key (put put_env key value d).1).0 ≡ (get get_env key d).0
  put_present distinct written read bounded in_time present =
      let (_, found) = get-put put_env get_env key value d distinct written read bounded in_time in
      ground (arith, found, present)

module _ {S : Type 0} (libs : Libs) (get_env put_env : Env)
    (next : Request → World S → Response × World S) (key body_hash : Text) (req : Request)
    (resp_bytes : List ℕ) (w : World S) where
  -- After a lookup that found nothing.
  after_miss :
      let (resp, w1) = next req w in
      libs.to_bytes max_body_bytes resp.body ≡ some resp_bytes
      → is_cacheable resp.status ≡ true
      → after_lookup libs get_env put_env next key body_hash req (ok none) w ≡ (
        ok (first_response resp resp_bytes),
        record w1 {
          database =
              (put put_env key
                (record { status = resp.status; body = resp_bytes; body_hash = body_hash })
                w1.database).1;
        },
      )
  unfolding after_lookup emit cache_response
  after_miss answered cacheable = ground (arith, answered, cacheable)

module _ {S : Type 0} (libs : Libs) (get_env put_env get_env' put_env' later_env : Env)
    (next next' : Request → World S → Response × World S) (key body_hash body_hash' : Text)
    (req req' : Request) (resp_bytes resp_bytes' : List ℕ) (w : World S) where
  -- If two requests with one key have both looked it up in vain, then both are handled, one after the
  -- other, and both get their handler's answer, whatever their bodies. The cache keeps the answer of
  -- the one that is first to write, and gives it to later requests within the time to live. Both
  -- answers must be cacheable and fit, the handlers leave the cache alone, and the calls on it not fail.
  pub after_lookup-after_lookup :
      let (resp, w1) = next req w in
      libs.to_bytes max_body_bytes resp.body ≡ some resp_bytes
      → is_cacheable resp.status ≡ true
      → resp.status < 2 ^ 16
      → w1.database.committed.cache ≡ w.database.committed.cache
      → HasDistinctKeys w.database.committed.cache
      → lookup key put_env.db_now w.database.committed.cache ≡ none
      → let (r, w2) = after_lookup libs get_env put_env next key body_hash req (ok none) w in
        let (resp', w3) = next' req' w2 in
        libs.to_bytes max_body_bytes resp'.body ≡ some resp_bytes'
        → is_cacheable resp'.status ≡ true
        → resp'.status < 2 ^ 16
        → w3.database.committed.cache ≡ w2.database.committed.cache
        → put_env.fails cache_put ≡ false
        → put_env'.fails cache_put ≡ false
        → later_env.fails cache_get ≡ false
        → put_env'.db_now <ℤ (put_env.app_now +ℤ seconds idempotency_ttl)
        → later_env.db_now <ℤ (put_env.app_now +ℤ seconds idempotency_ttl)
        → later_env.db_now <ℤ (put_env'.app_now +ℤ seconds idempotency_ttl)
        → let (r', w4) =
            after_lookup libs get_env' put_env' next' key body_hash' req' (ok none) w2 in
          (r ≡ ok (first_response resp resp_bytes))
          × (r' ≡ ok (first_response resp' resp_bytes'))
          × ((get later_env key w4.database).0
              ≡ ok (
                  some (record { status = resp.status; body = resp_bytes; body_hash = body_hash })))
  after_lookup-after_lookup answered cacheable bounded alone distinct absent answered' cacheable'
        bounded' alone' written written' read in_time later later' =
      let (resp, w1) = next req w in
      let value : CachedResponse = record {
        status = resp.status;
        body = resp_bytes;
        body_hash = body_hash;
      } in
      let first =
        after_miss libs get_env put_env next key body_hash req resp_bytes w answered cacheable in
      let w2 = (after_lookup libs get_env put_env next key body_hash req (ok none) w).1 in
      let (resp', w3) = next' req' w2 in
      let second =
        after_miss libs get_env' put_env' next' key body_hash' req' resp_bytes' w2 answered'
          cacheable' in
      let distinct1 : HasDistinctKeys w1.database.committed.cache = rw alone distinct in
      let same : w3.database.committed.cache
          ≡ (put put_env key value w1.database).1.committed.cache =
        alone' ∙ ap (λ x. x.1.database.committed.cache) first in
      let gone = ap (λ c. lookup key put_env.db_now c) alone ∙ absent in
      let at_write : Env = record later_env { db_now = put_env'.db_now } in
      let present = found_not_none at_write key w3.database value read (
        get_cache at_write key (put put_env key value w1.database).1 w3.database same
        ∙ put_absent put_env at_write key value w1.database distinct1 written read bounded in_time
            gone) in
      let distinct3 : HasDistinctKeys w3.database.committed.cache =
        rw same (put-HasDistinctKeys put_env key value w1.database distinct1) in
      (
        ap (λ x. x.0) first,
        ap (λ x. x.0) second,
        ap (λ x. (get later_env key x.1.database).0) second
            ∙ put_present put_env' later_env key _ w3.database distinct3 written' read bounded'
                later' present
            ∙ get_cache later_env key (put put_env key value w1.database).1 w3.database same
            ∙ put_absent put_env later_env key value w1.database distinct1 written read bounded
                later gone,
      )
