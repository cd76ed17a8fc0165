-- ===== src/Server/Boot/Ready.antt =====
-- What the server has when it starts.
use transity_terminal_resv_c.Common.{
  ◌≡◌, ◌↔◌, refl, ◌∙◌, ap, true, Text, codes, text_eq_iff, Option, none, some, is_some, Result, ok,
  err,
}
use transity_terminal_resv_c.Common.Fallible.{◌>>=◌, ok_or-ok, ensure-ok, ok_inj}
use transity_terminal_resv_c.Server.Config.{Config, from_env}
use transity_terminal_resv_c.Server.Config.Laws.{IsSound, from_env-IsSound}
use transity_terminal_resv_c.Server.Boot.{
  Outside, Started, initial_state, context, pool_for, start, required_schema_version,
}

config_found :
    (c : Text) (r : Result Text Config) (f : Config → Result Text Started) (s : Started)
    → (context c r >>= f) ≡ ok s
    → (cfg : Config) × (r ≡ ok cfg) × (f cfg ≡ ok s)
config_found c (ok cfg) f s h = (cfg, refl, h)
config_found c (err e) f s h = cc

some_iff : (o : Option Text) → (is_some o ≡ true) ↔ ((u : Text) × (o ≡ some u))
some_iff none = ((λ e. cc), (λ (u, e). cc))
some_iff (some u) = ((λ e. (u, refl)), (λ e. refl))

module _ (outside : Outside) where
  -- The server that may listen: its configuration is that of the environment, everything that it
  -- needs is there, and its state has the values of its configuration.
  pub record IsReady (s : Started) : Type 0 where
    pub sound : IsSound outside.var s.config
    pub connected : outside.connect s.config ≡ some tt
    pub migrated : outside.migrate ≡ some tt
    pub has_holds : outside.probe_holds ≡ some tt
    pub has_inventory : outside.probe_inventory ≡ some tt
    pub has_cache : outside.probe_cache ≡ some tt
    pub version : outside.schema_version ≡ some (some (codes "1"))
    pub pooled : (u : Text) → s.config.redis_url ≡ some u → outside.create_pool u ≡ some tt
    pub publishes_to : (s.publishes ≡ true) ↔ ((u : Text) × (s.config.redis_url ≡ some u))
    pub secret : s.state.hmac_secret ≡ s.config.hmac_secret
    pub skew : s.state.hmac_skew_secs ≡ s.config.hmac_skew_secs
    pub services : s.state.allowed_service_ids ≡ s.config.allowed_service_ids
    pub short : s.state.ttl_short_secs ≡ s.config.ttl_short_secs
    pub long : s.state.ttl_long_secs ≡ s.config.ttl_long_secs

  pooled_for :
      (o : Option Text)
      → pool_for outside o ≡ some tt
      → (u : Text) → o ≡ some u
      → outside.create_pool u ≡ some tt
  unfolding pool_for
  pooled_for none h u e = cc
  pooled_for (some v) h u e = cc

  pub start-IsReady : (s : Started) → start outside ≡ ok s → IsReady s
  unfolding start initial_state
  start-IsReady s h =
      let (cfg, e0, h0) =
        config_found (codes "invalid configuration") (from_env outside.var) _ s h in
      let (u1, e1, h1) = ok_or-ok (outside.connect cfg) _ _ s h0 in
      let (u2, e2, h2) = ok_or-ok outside.migrate _ _ s h1 in
      let (u3, e3, h3) = ok_or-ok outside.probe_holds _ _ s h2 in
      let (u4, e4, h4) = ok_or-ok outside.probe_inventory _ _ s h3 in
      let (u5, e5, h5) = ok_or-ok outside.probe_cache _ _ s h4 in
      let (row, e6, h6) = ok_or-ok outside.schema_version _ _ s h5 in
      let (db_version, e7, h7) = ok_or-ok row _ _ s h6 in
      let (e8, h8) = ensure-ok _ _ _ s h7 in
      let (u9, e9, h9) = ok_or-ok (pool_for outside cfg.redis_url) _ _ s h8 in
      let same : s
          ≡ record { config = cfg; state = initial_state cfg; publishes = is_some cfg.redis_url } =
        ok_inj h9 in
      rw same (record {
        sound = from_env-IsSound outside.var cfg e0;
        connected = e1;
        migrated = e2;
        has_holds = e3;
        has_inventory = e4;
        has_cache = e5;
        version =
            e6 ∙ ap some (e7 ∙ ap some ((text_eq_iff db_version required_schema_version).0 e8));
        pooled = pooled_for cfg.redis_url e9;
        publishes_to = some_iff cfg.redis_url;
        secret = refl;
        skew = refl;
        services = refl;
        short = refl;
        long = refl;
      })
