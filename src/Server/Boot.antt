-- ===== src/Server/Boot.antt =====
-- main.rs: what has to hold before the server listens, and the state that it then has.
pub mod Ready
pub mod Cases
use transity_terminal_resv_c.Common.{
  ◌≡◌, refl, ◌∙◌, ap, Bool, Text, codes, text_eq, text_eq_iff, Option, none, some, is_some, Result,
  ok, err,
}
use transity_terminal_resv_c.Common.Fallible.{
  ◌>>=◌, ◌>>◌, ok_or, ok_or-ok, ensure, ensure-ok, ok_inj,
}
use transity_terminal_resv_c.Server.State.{AppState}
use transity_terminal_resv_c.Server.Config.{Config, from_env}
use transity_terminal_resv_c.Server.Config.Laws.{IsSound, from_env-IsSound}

-- What the start asks of the world: the environment, Postgres, its migrations, the three probes,
-- the row of the schema version, and the Redis pool.
pub record Outside : Type 0 where
  pub var : Text → Option Text
  pub connect : Config → Option (Unit {0})
  pub migrate : Option (Unit {0})
  pub probe_holds : Option (Unit {0})
  pub probe_inventory : Option (Unit {0})
  pub probe_cache : Option (Unit {0})
  pub schema_version : Option (Option Text)
  pub create_pool : Text → Option (Unit {0})

abbrev pub required_schema_version : Text
required_schema_version = codes "1"

pub record Started : Type 0 where
  pub config : Config
  pub state : AppState
  pub publishes : Bool

unfoldable pub initial_state : Config → AppState
initial_state cfg = record {
  hmac_secret = cfg.hmac_secret;
  hmac_skew_secs = cfg.hmac_skew_secs;
  allowed_service_ids = cfg.allowed_service_ids;
  ttl_short_secs = cfg.ttl_short_secs;
  ttl_long_secs = cfg.ttl_long_secs;
}

-- `context` of anyhow: the error is told by the given text.
abbrev pub context : {A : Type 0} → Text → Result Text A → Result Text A
context c (ok a) = ok a
context c (err e) = err c

module _ (outside : Outside) where
  -- The publisher: that of Redis where there is a URL, otherwise the one that drops events.
  unfoldable pub pool_for : Option Text → Option (Unit {0})
  pool_for none = some tt
  pool_for (some url) = outside.create_pool url

  -- `main` up to the listener; an error is how its message starts.
  unfoldable pub start : Result Text Started
  unfolding initial_state pool_for
  start = do
    cfg ← context (codes "invalid configuration") (from_env outside.var)
    ok_or (outside.connect cfg) (codes "failed to connect to PostgreSQL")
    ok_or outside.migrate (codes "failed to run migrations")
    ok_or outside.probe_holds (codes "startup schema check failed on seat_holds")
    ok_or outside.probe_inventory (codes "startup schema check failed on seat_inventory")
    ok_or outside.probe_cache (codes "startup schema check failed on engine_idempotency_cache")
    row ← ok_or outside.schema_version (codes "failed to read engine_schema_meta")
    db_version ← ok_or row (codes "engine_schema_meta has no row for 'engine_schema_version'")
    ensure (text_eq db_version required_schema_version) (codes "engine schema version mismatch")
    ok_or (pool_for cfg.redis_url) (codes "failed to create redis pool")
    ok (record { config = cfg; state = initial_state cfg; publishes = is_some cfg.redis_url })
