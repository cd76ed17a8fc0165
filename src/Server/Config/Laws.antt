-- ===== src/Server/Config/Laws.antt =====
-- What every accepted configuration has.
use mathlib.Core.Path.{subst}
use transity_terminal_resv_c.Common.{
  ℕ, pos, ◌≤◌, ◌<◌, ◌-◌, ◌^◌, ltb, ◌≡◌, ◌≢◌, ◌↔◌, ◌⊎◌, refl, sym, true, false, not, Text, codes, [],
  ◌∷◌, ◌++◌, length, Option, none, some, ok, err, arith, inl, inr,
}
use transity_terminal_resv_c.Common.Std.{as_bytes, parse_unsigned, parse_i64}
use transity_terminal_resv_c.Server.Hmac.Laws.{IsI64}
use transity_terminal_resv_c.Common.Fallible.{ok_or-ok, ok_or-err, ensure-ok, ensure-err, ok_inj}
use transity_terminal_resv_c.Server.Config.{
  Config, or_else, unwrap_or, filter_empty, i64_var, u64_var, u32_var, from_env,
}
use transity_terminal_resv_c.Server.Config.Setting.{
  Setting, Names, parsed-Setting, text-Setting, allowlist-Names, var_max, parsed-IsI64,
}

-- A configuration that is that of the environment, field by field.
pub record IsSound (var : Text → Option Text) (cfg : Config) : Type 0 where
  pub host : Text
  pub port : Text
  pub hosted : Setting some (codes "0.0.0.0") (var (codes "HOST")) host
  pub ported : Setting some (codes "8090") (var (codes "PORT")) port
  pub address : cfg.bind_addr ≡ host ++ 58 ∷ port
  pub secret : var (codes "RESERVATION_ENGINE_HMAC_SECRET") ≡ some cfg.hmac_secret
  pub long_enough : 16 ≤ length (as_bytes cfg.hmac_secret)
  pub url :
      (var (codes "ENGINE_DATABASE_URL") ≡ some cfg.database_url)
      ⊎ ((var (codes "ENGINE_DATABASE_URL") ≡ none)
          × (var (codes "DATABASE_URL") ≡ some cfg.database_url))
  pub redis :
      (u : Text) → (cfg.redis_url ≡ some u) ↔ ((var (codes "REDIS_URL") ≡ some u) × (u ≢ []))
  pub services : Names (var (codes "ALLOWED_SERVICE_IDS")) cfg.allowed_service_ids
  pub skew : Setting parse_i64 (pos 30) (var (codes "HMAC_SKEW_SECS")) cfg.hmac_skew_secs
  pub short : Setting parse_i64 (pos 300) (var (codes "HOLD_TTL_SHORT_SECONDS")) cfg.ttl_short_secs
  pub long : Setting parse_i64 (pos 1800) (var (codes "HOLD_TTL_LONG_SECONDS")) cfg.ttl_long_secs
  pub retention :
      Setting parse_i64
        (pos 30)
        (var (codes "CONFIRMED_HOLDS_RETENTION_DAYS"))
        cfg.confirmed_holds_retention_days
  pub reaper :
      Setting
        (parse_unsigned (2 ^ 64 - 1))
        60
        (var (codes "REAPER_INTERVAL_SECS"))
        cfg.reaper_interval_secs
  pub sweep :
      Setting
        (parse_unsigned (2 ^ 64 - 1))
        3600
        (var (codes "IDEMPOTENCY_SWEEP_INTERVAL_SECS"))
        cfg.idempotency_sweep_interval_secs
  pub min_conn :
      Setting (parse_unsigned (2 ^ 32 - 1)) 10 (var (codes "DB_MIN_CONN")) cfg.db_min_conn
  pub max_conn :
      Setting (parse_unsigned (2 ^ 32 - 1)) 50 (var (codes "DB_MAX_CONN")) cfg.db_max_conn
  pub skew_fits : IsI64 cfg.hmac_skew_secs
  pub short_fits : IsI64 cfg.ttl_short_secs
  pub long_fits : IsI64 cfg.ttl_long_secs
  pub retention_fits : IsI64 cfg.confirmed_holds_retention_days
  pub reaper_bound : cfg.reaper_interval_secs ≤ 2 ^ 64 - 1
  pub sweep_bound : cfg.idempotency_sweep_interval_secs ≤ 2 ^ 64 - 1
  pub min_bound : cfg.db_min_conn ≤ 2 ^ 32 - 1
  pub max_bound : cfg.db_max_conn ≤ 2 ^ 32 - 1

at_least : (n : ℕ) → not (ltb n 16) ≡ true → 16 ≤ n
at_least n h = ground arith

either_url :
    (a b : Option Text) (u : Text)
    → or_else a b ≡ some u
    → (a ≡ some u) ⊎ ((a ≡ none) × (b ≡ some u))
either_url none b u e = inr (refl, e)
either_url (some s) b u e = inl e

filter_empty_iff :
    (v : Option Text) (u : Text) → (filter_empty v ≡ some u) ↔ ((v ≡ some u) × (u ≢ []))
filter_empty_iff none u = ground arith
filter_empty_iff (some []) u = ground arith
filter_empty_iff (some (c ∷ s)) u = ground arith

pub from_env-IsSound :
    (var : Text → Option Text) (cfg : Config) → from_env var ≡ ok cfg → IsSound var cfg
unfolding from_env i64_var u64_var u32_var
from_env-IsSound var cfg h0 =
    let (database_url, e1, h1) =
      ok_or-ok (or_else (var (codes "ENGINE_DATABASE_URL")) (var (codes "DATABASE_URL"))) _ _ cfg
        h0 in
    let (hmac_secret, e2, h2) =
      ok_or-ok (var (codes "RESERVATION_ENGINE_HMAC_SECRET")) _ _ cfg h1 in
    let (e3, h3) =
      ensure-ok (not (ltb (length (as_bytes hmac_secret)) 16))
        (codes "RESERVATION_ENGINE_HMAC_SECRET must be at least 16 characters") _ cfg h2 in
    subst (IsSound var) (sym (ok_inj h3)) (record {
      host = unwrap_or (codes "0.0.0.0") (var (codes "HOST"));
      port = unwrap_or (codes "8090") (var (codes "PORT"));
      hosted = text-Setting _ (var (codes "HOST"));
      ported = text-Setting _ (var (codes "PORT"));
      address = refl;
      secret = e2;
      long_enough = at_least _ e3;
      url = either_url _ _ database_url e1;
      redis = filter_empty_iff (var (codes "REDIS_URL"));
      services = allowlist-Names (var (codes "ALLOWED_SERVICE_IDS"));
      skew = parsed-Setting parse_i64 _ (var (codes "HMAC_SKEW_SECS"));
      short = parsed-Setting parse_i64 _ (var (codes "HOLD_TTL_SHORT_SECONDS"));
      long = parsed-Setting parse_i64 _ (var (codes "HOLD_TTL_LONG_SECONDS"));
      retention = parsed-Setting parse_i64 _ (var (codes "CONFIRMED_HOLDS_RETENTION_DAYS"));
      reaper = parsed-Setting (parse_unsigned (2 ^ 64 - 1)) _ (var (codes "REAPER_INTERVAL_SECS"));
      sweep =
          parsed-Setting (parse_unsigned (2 ^ 64 - 1)) _
            (var (codes "IDEMPOTENCY_SWEEP_INTERVAL_SECS"));
      min_conn = parsed-Setting (parse_unsigned (2 ^ 32 - 1)) _ (var (codes "DB_MIN_CONN"));
      max_conn = parsed-Setting (parse_unsigned (2 ^ 32 - 1)) _ (var (codes "DB_MAX_CONN"));
      skew_fits = parsed-IsI64 (pos 30) (var (codes "HMAC_SKEW_SECS")) (omega arith, omega arith);
      short_fits =
          parsed-IsI64 (pos 300) (var (codes "HOLD_TTL_SHORT_SECONDS")) (omega arith, omega arith);
      long_fits =
          parsed-IsI64 (pos 1800) (var (codes "HOLD_TTL_LONG_SECONDS")) (omega arith, omega arith);
      retention_fits =
          parsed-IsI64 (pos 30) (var (codes "CONFIRMED_HOLDS_RETENTION_DAYS"))
            (omega arith, omega arith);
      reaper_bound = var_max _ 60 (var (codes "REAPER_INTERVAL_SECS")) (omega arith);
      sweep_bound = var_max _ 3600 (var (codes "IDEMPOTENCY_SWEEP_INTERVAL_SECS")) (omega arith);
      min_bound = var_max _ 10 (var (codes "DB_MIN_CONN")) (omega arith);
      max_bound = var_max _ 50 (var (codes "DB_MAX_CONN")) (omega arith);
    })

-- Why an environment is refused.
pub data IsRefused (var : Text → Option Text) : Type 0 where
  without_url :
      var (codes "ENGINE_DATABASE_URL") ≡ none → var (codes "DATABASE_URL") ≡ none → IsRefused var
  without_secret : var (codes "RESERVATION_ENGINE_HMAC_SECRET") ≡ none → IsRefused var
  with_short_secret :
      (s : Text)
      → var (codes "RESERVATION_ENGINE_HMAC_SECRET") ≡ some s
      → length (as_bytes s) < 16
      → IsRefused var

no_url : (a b : Option Text) → or_else a b ≡ none → (a ≡ none) × (b ≡ none)
no_url none b e = (refl, e)
no_url (some s) b e = cc

too_short : (n : ℕ) → not (ltb n 16) ≡ false → n < 16
too_short n h = ground arith

pub from_env-IsRefused :
    (var : Text → Option Text) (x : Text) → from_env var ≡ err x → IsRefused var
unfolding from_env
from_env-IsRefused var x h0 =
    elim (ok_or-err (or_else (var (codes "ENGINE_DATABASE_URL")) (var (codes "DATABASE_URL")))
      (codes "ENGINE_DATABASE_URL or DATABASE_URL must be set") _ x h0) [
        | inl a ↦
            let (e, f) =
              no_url (var (codes "ENGINE_DATABASE_URL")) (var (codes "DATABASE_URL")) a.0 in
            without_url e f
        | inr a ↦
            elim (ok_or-err (var (codes "RESERVATION_ENGINE_HMAC_SECRET"))
              (codes "RESERVATION_ENGINE_HMAC_SECRET must be set") _ x a.2) [
                | inl b ↦ without_secret b.0
                | inr b ↦
                    elim (ensure-err (not (ltb (length (as_bytes b.0)) 16))
                      (codes "RESERVATION_ENGINE_HMAC_SECRET must be at least 16 characters") _ x
                      b.2) [
                        | inl c ↦ with_short_secret b.0 b.1 (too_short (length (as_bytes b.0)) c.0)
                        | inr c ↦ cc
                      ]
              ]
      ]
