-- ===== src/Server/State.antt =====
-- state.rs: what the handlers read of `AppState`; the pool and the publisher are the world they act on.
use transity_terminal_resv_c.Common.{ℤ, Text, List}

pub record AppState : Type 0 where
  pub hmac_secret : Text
  pub hmac_skew_secs : ℤ
  pub allowed_service_ids : List Text
  pub ttl_short_secs : ℤ
  pub ttl_long_secs : ℤ
