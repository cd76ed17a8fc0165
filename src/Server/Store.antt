-- ===== src/Server/Store.antt =====
-- idempotency.rs: `IdempotencyStore`, on the table engine_idempotency_cache.
pub mod Laws
use transity_terminal_resv_c.Common.{
  ℕ, ℤ, pos, ◌+ℤ◌, ltb_ℤ, leb_ℤ, Bool, true, false, ◌&&◌, Text, text_eq, List, [], ◌∷◌, length,
  Option, none, some, Result, ok, err, Action, if◌then◌else◌,
}
use transity_terminal_resv_c.Common.Std.{to_u16}
use transity_terminal_resv_c.Engine.Types.{Instant, SqlxError, seconds}
use transity_terminal_resv_c.Engine.Database.{
  CacheRow, Tables, Database, Env, cache_get, cache_put, cache_sweep, call,
}
use transity_terminal_resv_c.Engine.Database.Sql.{
  select_where, find_where, update_where, delete_where,
}

-- In seconds.
abbrev pub idempotency_ttl : ℤ
idempotency_ttl = pos 86_400

pub record CachedResponse : Type 0 where
  pub status : ℕ
  pub body : List ℕ
  pub body_hash : Text

-- key = $1
unfoldable pub has_key : Text → CacheRow → Bool
has_key key r = text_eq r.key key

-- expires_at <= now()
unfoldable pub is_stale : Instant → CacheRow → Bool
is_stale now r = leb_ℤ r.expires_at now

-- expires_at > now()
unfoldable pub is_fresh : Instant → CacheRow → Bool
is_fresh now r = ltb_ℤ now r.expires_at

abbrev pub to_cached : Option CacheRow → Option CachedResponse
to_cached none = none
to_cached (some r) =
    some (record { status = to_u16 r.status_code; body = r.response_body; body_hash = r.body_hash })

unfoldable pub lookup : Text → Instant → List CacheRow → Option CacheRow
lookup key now rows = find_where (λ r. has_key key r && is_fresh now r) rows

unfoldable pub new_row : Text → CachedResponse → Instant → CacheRow
new_row key value expires_at = record {
  key = key;
  body_hash = value.body_hash;
  status_code = pos value.status;
  response_body = value.body;
  expires_at = expires_at;
}

-- INSERT … ON CONFLICT (key) DO UPDATE … WHERE expires_at <= now(), with whether a row was written.
unfoldable pub upsert_over :
    Instant → CacheRow → List CacheRow → Option CacheRow → Bool × List CacheRow
upsert_over now row rows none = (true, row ∷ rows)
upsert_over now row rows (some old) =
    if is_stale now old
    then (true, update_where (has_key row.key) (λ _. row) rows)
    else (false, rows)

unfoldable pub upsert : Instant → CacheRow → List CacheRow → Bool × List CacheRow
unfolding upsert_over
upsert now row rows = upsert_over now row rows (find_where (has_key row.key) rows)

module _ (env : Env) where
  unfoldable pub get : Text → Action SqlxError Database (Option CachedResponse)
  unfolding call
  get key = call env cache_get λ d. (ok (to_cached (lookup key env.db_now d.committed.cache)), d)

  unfoldable pub put : Text → CachedResponse → Action SqlxError Database Bool
  unfolding call seconds
  put key value = call env cache_put λ d.
      let row = new_row key value (env.app_now +ℤ seconds idempotency_ttl) in
      let (written, cache) = upsert env.db_now row d.committed.cache in
      (ok written, record d { committed = record d.committed { cache = cache } })

  unfoldable pub sweep_expired : Action SqlxError Database ℕ
  unfolding call
  sweep_expired = call env cache_sweep λ d. (
    ok (length (select_where (is_stale env.db_now) d.committed.cache)),
    record d {
      committed = record d.committed {
        cache = delete_where (is_stale env.db_now) d.committed.cache;
      };
    },
  )
