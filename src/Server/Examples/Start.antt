-- ===== src/Server/Examples/Start.antt =====
-- A configuration and a start.
use transity_terminal_resv_c.Common.{
  pos, ok, ◌≡◌, refl, false, Text, codes, text_eq, [], Option, none, some, if◌then◌else◌,
}
use transity_terminal_resv_c.Common.Std.{as_bytes, char_bytes}
use transity_terminal_resv_c.Server.Config.{Config, from_env, i64_var, u64_var, u32_var}
use transity_terminal_resv_c.Server.Boot.{Outside, Started, initial_state, pool_for, start}
use transity_terminal_resv_c.Server.Boot.Cases.{Outcome, start_cases}
use transity_terminal_resv_c.Server.Examples.{secret}

-- Two variables are set.
abbrev environment : Text → Option Text
environment name =
    if text_eq name (codes "RESERVATION_ENGINE_HMAC_SECRET")
    then some secret
    else if text_eq name (codes "DATABASE_URL")
    then some (codes "postgres://db")
    else none

abbrev default_config : Config
default_config = record {
  bind_addr = codes "0.0.0.0:8090";
  database_url = codes "postgres://db";
  redis_url = none;
  hmac_secret = secret;
  hmac_skew_secs = pos 30;
  allowed_service_ids = [];
  reaper_interval_secs = 60;
  db_min_conn = 10;
  db_max_conn = 50;
  idempotency_sweep_interval_secs = 3600;
  ttl_short_secs = pos 300;
  ttl_long_secs = pos 1800;
  confirmed_holds_retention_days = pos 30;
}

abbrev outside : Outside
outside = record {
  var = environment;
  connect = λ cfg. some tt;
  migrate = some tt;
  probe_holds = some tt;
  probe_inventory = some tt;
  probe_cache = some tt;
  schema_version = some (some (codes "1"));
  create_pool = λ url. none;
}

abbrev pub started : Started
started = record {
  config = default_config;
  state = initial_state default_config;
  publishes = false;
}

start_cases_example : Outcome outside (start outside)
start_cases_example = start_cases outside

-- The start succeeds here.
outside-starts : start outside ≡ ok started
unfolding start from_env text_eq as_bytes char_bytes i64_var u64_var u32_var pool_for
outside-starts = refl
