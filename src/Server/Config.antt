-- ===== src/Server/Config.antt =====
-- config.rs: `Config::from_env`.
pub mod Setting
pub mod Laws
use transity_terminal_resv_c.Common.{
  ℕ, ℤ, pos, ltb, ◌-◌, ◌^◌, Bool, true, false, not, Text, codes, List, [], ◌∷◌, ◌++◌, map, length,
  is_empty, Option, none, some, Result, ok, err, if◌then◌else◌,
}
use transity_terminal_resv_c.Common.Std.{as_bytes, trim, split, parse_i64, parse_unsigned}
use transity_terminal_resv_c.Common.Fallible.{ok_or, ◌>>=◌, ◌>>◌, ensure}
use transity_terminal_resv_c.Engine.Database.Sql.{select_where}

pub record Config : Type 0 where
  pub bind_addr : Text
  pub database_url : Text
  pub redis_url : Option Text
  pub hmac_secret : Text
  pub hmac_skew_secs : ℤ
  pub allowed_service_ids : List Text
  pub reaper_interval_secs : ℕ
  pub db_min_conn : ℕ
  pub db_max_conn : ℕ
  pub idempotency_sweep_interval_secs : ℕ
  pub ttl_short_secs : ℤ
  pub ttl_long_secs : ℤ
  pub confirmed_holds_retention_days : ℤ

-- `unwrap_or`, `or_else` and `filter` of an option.
abbrev pub unwrap_or {ℓ} : {A : Type ℓ} → A → Option A → A
unwrap_or a none = a
unwrap_or a (some b) = b

abbrev pub or_else {ℓ} : {A : Type ℓ} → Option A → Option A → Option A
or_else none o = o
or_else (some a) o = some a

abbrev pub filter_empty : Option Text → Option Text
filter_empty none = none
filter_empty (some s) = if is_empty s then none else some s

abbrev pub parsed {ℓ} : {A : Type ℓ} → (Text → Option A) → Option Text → Option A
parsed f none = none
parsed f (some s) = f s

-- s.split(',').map(trim).filter(not empty)
unfoldable pub service_ids : Text → List Text
service_ids s = select_where (λ p. not (is_empty p)) (map trim (split 44 s))

abbrev pub allowlist : Option Text → List Text
allowlist none = []
allowlist (some s) = service_ids s

-- The numbers with their defaults.
unfoldable pub i64_var : ℤ → Option Text → ℤ
i64_var default v = unwrap_or default (parsed parse_i64 v)

unfoldable pub u64_var : ℕ → Option Text → ℕ
u64_var default v = unwrap_or default (parsed (parse_unsigned (2 ^ 64 - 1)) v)

unfoldable pub u32_var : ℕ → Option Text → ℕ
u32_var default v = unwrap_or default (parsed (parse_unsigned (2 ^ 32 - 1)) v)

-- `var` is `env::var(name).ok()`; an error is the text of the `anyhow!`.
unfoldable pub from_env : (Text → Option Text) → Result Text Config
unfolding service_ids i64_var u64_var u32_var as_bytes
from_env var = do
  let port = unwrap_or (codes "8090") (var (codes "PORT"))
  let host = unwrap_or (codes "0.0.0.0") (var (codes "HOST"))
  database_url ←
      ok_or (or_else (var (codes "ENGINE_DATABASE_URL")) (var (codes "DATABASE_URL")))
        (codes "ENGINE_DATABASE_URL or DATABASE_URL must be set")
  hmac_secret ←
      ok_or (var (codes "RESERVATION_ENGINE_HMAC_SECRET"))
        (codes "RESERVATION_ENGINE_HMAC_SECRET must be set")
  ensure (not (ltb (length (as_bytes hmac_secret)) 16))
      (codes "RESERVATION_ENGINE_HMAC_SECRET must be at least 16 characters")
  ok (record {
    bind_addr = host ++ 58 ∷ port;
    database_url = database_url;
    redis_url = filter_empty (var (codes "REDIS_URL"));
    hmac_secret = hmac_secret;
    hmac_skew_secs = i64_var (pos 30) (var (codes "HMAC_SKEW_SECS"));
    allowed_service_ids = allowlist (var (codes "ALLOWED_SERVICE_IDS"));
    reaper_interval_secs = u64_var 60 (var (codes "REAPER_INTERVAL_SECS"));
    db_min_conn = u32_var 10 (var (codes "DB_MIN_CONN"));
    db_max_conn = u32_var 50 (var (codes "DB_MAX_CONN"));
    idempotency_sweep_interval_secs = u64_var 3600 (var (codes "IDEMPOTENCY_SWEEP_INTERVAL_SECS"));
    ttl_short_secs = i64_var (pos 300) (var (codes "HOLD_TTL_SHORT_SECONDS"));
    ttl_long_secs = i64_var (pos 1800) (var (codes "HOLD_TTL_LONG_SECONDS"));
    confirmed_holds_retention_days =
        i64_var (pos 30) (var (codes "CONFIRMED_HOLDS_RETENTION_DAYS"));
  })
