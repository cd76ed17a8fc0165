-- ===== src/Server/Boot/Cases.antt =====
-- What the start of the server leads to, on every branch.
use transity_terminal_resv_c.Common.{
  ◌≡◌, ◌≢◌, refl, ◌∙◌, ap, Text, codes, text_eq, text_eq_iff, Option, none, some, Result, ok, err,
  inl, inr,
}
use transity_terminal_resv_c.Common.Fallible.{◌>>=◌, ◌>>◌, ok_or, ensure, ok_or-err, ensure-err}
use transity_terminal_resv_c.Server.Config.{Config, from_env}
use transity_terminal_resv_c.Server.Config.Laws.{
  IsSound, from_env-IsSound, IsRefused, from_env-IsRefused,
}
use transity_terminal_resv_c.Server.Boot.{
  Outside, Started, context, pool_for, start, required_schema_version,
}
use transity_terminal_resv_c.Server.Boot.Ready.{IsReady, start-IsReady}

-- A failing step of the start fails with its message, and otherwise the rest of the start fails.
config_refused :
    (P : Text → Type 0) (c : Text) (r : Result Text Config) (f : Config → Result Text Started)
    (x : Text)
    → (context c r >>= f) ≡ err x
    → ((e : Text) → r ≡ err e → P c)
    → ((cfg : Config) → r ≡ ok cfg → f cfg ≡ err x → P x)
    → P x
config_refused P c (ok cfg) f x h refused rest = rest cfg refl h
config_refused P c (err e) f x h refused rest = let same : x ≡ c = cc in rw same (refused e refl)

step_failed :
    {A B : Type 0} (P : Text → Type 0) (o : Option A) (c : Text) (f : A → Result Text B) (x : Text)
    → (ok_or o c >>= f) ≡ err x
    → (o ≡ none → P c)
    → ((a : A) → o ≡ some a → f a ≡ err x → P x)
    → P x
step_failed P o c f x h failed rest = elim (ok_or-err o c f x h) [
  | inl a ↦ rw (a.1) (failed a.0)
  | inr (a, e, g) ↦ rest a e g
]

module _ (outside : Outside) where
  -- Why the server does not start, with how its message begins.
  pub data NotStarted : Text → Type 0 where
    misconfigured : IsRefused outside.var → NotStarted (codes "invalid configuration")
    not_connected :
        (cfg : Config)
        → IsSound outside.var cfg
        → outside.connect cfg ≡ none
        → NotStarted (codes "failed to connect to PostgreSQL")
    not_migrated : outside.migrate ≡ none → NotStarted (codes "failed to run migrations")
    without_holds :
        outside.probe_holds ≡ none → NotStarted (codes "startup schema check failed on seat_holds")
    without_inventory :
        outside.probe_inventory ≡ none
        → NotStarted (codes "startup schema check failed on seat_inventory")
    without_cache :
        outside.probe_cache ≡ none
        → NotStarted (codes "startup schema check failed on engine_idempotency_cache")
    version_unread :
        outside.schema_version ≡ none → NotStarted (codes "failed to read engine_schema_meta")
    without_version :
        outside.schema_version ≡ some none
        → NotStarted (codes "engine_schema_meta has no row for 'engine_schema_version'")
    other_version :
        (v : Text)
        → outside.schema_version ≡ some (some v)
        → v ≢ codes "1"
        → NotStarted (codes "engine schema version mismatch")
    not_pooled :
        (cfg : Config) (u : Text)
        → IsSound outside.var cfg
        → cfg.redis_url ≡ some u
        → outside.create_pool u ≡ none
        → NotStarted (codes "failed to create redis pool")

  no_pool :
      (o : Option Text)
      → pool_for outside o ≡ none
      → (u : Text) × (o ≡ some u) × (outside.create_pool u ≡ none)
  unfolding pool_for
  no_pool none h = cc
  no_pool (some v) h = (v, refl, h)

  -- The schema version and what comes after it.
  version_failed :
      (cfg : Config) (started : Started) (x : Text)
      → IsSound outside.var cfg
      → (do
        row ← ok_or outside.schema_version (codes "failed to read engine_schema_meta")
        db_version ← ok_or row (codes "engine_schema_meta has no row for 'engine_schema_version'")
        ensure (text_eq db_version required_schema_version) (codes "engine schema version mismatch")
        ok_or (pool_for outside cfg.redis_url) (codes "failed to create redis pool")
        ok started)
        ≡ err x
      → NotStarted x
  version_failed cfg started x sound h =
      step_failed NotStarted outside.schema_version _ _ x h version_unread (λ row e h.
        step_failed NotStarted row _ _ x h (λ n. without_version (e ∙ ap some n))
          (λ v e' h. elim (ensure-err (text_eq v required_schema_version) _ _ x h) [
            | inl (n, same) ↦
                rw same (other_version v (e ∙ ap some e') (λ s. cc (n, (text_eq_iff v _).1 s)))
            | inr (_, h) ↦
                step_failed NotStarted (pool_for outside cfg.redis_url) _ _ x h
                  (λ n.
                    let (u, at, none_of) = no_pool cfg.redis_url n in
                    not_pooled cfg u sound at none_of)
                  (λ u e'' h. cc)
          ]))

  start-NotStarted : (x : Text) → start outside ≡ err x → NotStarted x
  unfolding start
  start-NotStarted x h =
      config_refused NotStarted _ (from_env outside.var) _ x h
        (λ e refused. misconfigured (from_env-IsRefused outside.var e refused))
        (λ cfg e h.
          let sound = from_env-IsSound outside.var cfg e in
          step_failed NotStarted (outside.connect cfg) _ _ x h (not_connected cfg sound) (λ u e h.
            step_failed NotStarted outside.migrate _ _ x h not_migrated (λ u e h.
              step_failed NotStarted outside.probe_holds _ _ x h without_holds (λ u e h.
                step_failed NotStarted outside.probe_inventory _ _ x h without_inventory (λ u e h.
                  step_failed NotStarted outside.probe_cache _ _ x h without_cache
                    (λ u e h. version_failed cfg _ x sound h))))))

  -- What `start` may return.
  abbrev pub Outcome : Result Text Started → Type 0
  Outcome (ok s) = IsReady outside s
  Outcome (err x) = NotStarted x

  -- Whatever the environment and the world answer: if the start succeeds, every setting is that of its
  -- variable, with its default and within its type, the database was reached and migrated, all three
  -- tables and schema version 1 are there, with REDIS_URL a pool exists and events are published, and
  -- the state has the secret, the tolerance, the services and the two times to live of the settings.
  -- If it fails, one of these is missing, and its message is the one for what is missing.
  pub start_cases : Outcome (start outside)
  start_cases = go (start outside) refl
    where
      go : (r : Result Text Started) → start outside ≡ r → Outcome r
      go (ok s) e = start-IsReady outside s e
      go (err x) e = start-NotStarted x e
