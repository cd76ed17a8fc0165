-- ===== src/Server/App/Guard.antt =====
-- Who may change the database.
use transity_terminal_resv_c.Common.{
  ℕ, ℤ, ◌≡◌, refl, ap, ◌∙◌, Bool, true, false, Text, codes, text_eq, text_eq_iff, List, Option,
  none, some, Result, ok, err, arith, inl, inr, Bool-cases,
}
use transity_terminal_resv_c.Engine.Types.{SqlxError}
use transity_terminal_resv_c.Engine.Events.{Publisher}
use transity_terminal_resv_c.Engine.Database.{Database, Env, World}
use transity_terminal_resv_c.Server.Http.{Request, Response, Libs, max_body_bytes}
use transity_terminal_resv_c.Server.State.{AppState}
use transity_terminal_resv_c.Server.Store.{CachedResponse, get}
use transity_terminal_resv_c.Server.Layer.{
  is_write, get_idempotency_key, is_cacheable, body_hash_of, cache_response, emit, after_lookup,
  with_body, with_key, layer,
}
use transity_terminal_resv_c.Server.Hmac.{verify}
use transity_terminal_resv_c.Server.Hmac.Laws.{Authentic, verify_cases}
use transity_terminal_resv_c.Server.App.{
  Codec, to_healthz, route, is_get, dispatch, handle, cached, router,
}

route_healthz :
    (path : Text) → text_eq path (codes "/api/v1/healthz") ≡ true → route path ≡ to_healthz
unfolding route
route_healthz path e = rw e refl

reads_post : is_get (codes "POST") ≡ false
unfolding is_get text_eq
reads_post = refl

reads_put : is_get (codes "PUT") ≡ false
unfolding is_get text_eq
reads_put = refl

reads_patch : is_get (codes "PATCH") ≡ false
unfolding is_get text_eq
reads_patch = refl

reads_delete : is_get (codes "DELETE") ≡ false
unfolding is_get text_eq
reads_delete = refl

get_reads : (m : Text) → is_write m ≡ true → is_get m ≡ false
unfolding is_write
get_reads m e = ground (
  arith,
  text_eq_iff m (codes "POST"),
  text_eq_iff m (codes "PUT"),
  text_eq_iff m (codes "PATCH"),
  text_eq_iff m (codes "DELETE"),
  λ (h : m ≡ codes "POST"). ap is_get h ∙ reads_post,
  λ (h : m ≡ codes "PUT"). ap is_get h ∙ reads_put,
  λ (h : m ≡ codes "PATCH"). ap is_get h ∙ reads_patch,
  λ (h : m ≡ codes "DELETE"). ap is_get h ∙ reads_delete,
)

get_same : (env : Env) (key : Text) (d : Database) → (get env key d).1 ≡ d
unfolding get
get_same env key d = ground arith

-- A handler that changes nothing, and answers the request with no cacheable status, changes nothing
-- behind the idempotency layer either.
module _ {S : Type 0} (libs : Libs) (get_env put_env : Env)
    (next : Request → World S → Response × World S) (req : Request) (w : World S)
    (idle : (r : Request) → r.path ≡ req.path → (next r w).1 ≡ w)
    (refused : (r : Request)
      → r.path ≡ req.path
      → is_write r.method ≡ true
      → is_cacheable (next r w).0.status ≡ false) where
  emit_idle :
      (key body_hash : Text) (resp : Response) (o : Option (List ℕ))
      → is_cacheable resp.status ≡ false
      → (emit libs get_env put_env next key body_hash resp o w).1 ≡ w
  unfolding emit cache_response
  emit_idle key body_hash resp none e = refl
  emit_idle key body_hash resp (some bytes) e = rw e refl

  lookup_idle :
      (key body_hash : Text) (bytes : List ℕ) (r : Result SqlxError (Option CachedResponse))
      → is_write req.method ≡ true
      → (after_lookup libs get_env put_env next key body_hash (record req { body = bytes }) r w).1
        ≡ w
  unfolding after_lookup
  lookup_idle key body_hash bytes (err e) h = refl
  lookup_idle key body_hash bytes (ok (some c)) h = refl
  lookup_idle key body_hash bytes (ok none) h = rw (idle (record req { body = bytes }) refl) (
      emit_idle key body_hash (next (record req { body = bytes }) w).0 _
        (refused (record req { body = bytes }) refl h))

  body_idle :
      (key : Text) (o : Option (List ℕ))
      → is_write req.method ≡ true
      → (with_body libs get_env put_env next key req o w).1 ≡ w
  unfolding with_body
  body_idle key none h = refl
  body_idle key (some bytes) h =
      rw (get_same get_env key w.database)
        (lookup_idle key (body_hash_of libs bytes) bytes (get get_env key w.database).0 h)

  key_idle :
      (o : Option Text)
      → is_write req.method ≡ true
      → (with_key libs get_env put_env next req o w).1 ≡ w
  unfolding with_key
  key_idle none h = idle req refl
  key_idle (some raw_key) h = body_idle _ (libs.to_bytes max_body_bytes req.body) h

  layer_idle : (layer libs get_env put_env next req w).1 ≡ w
  unfolding layer
  layer_idle = elim (Bool-cases (is_write req.method)) [
    | inl h ↦ rw h (key_idle (get_idempotency_key req) h)
    | inr h ↦ rw h (idle req refl)
  ]

module _ {S : Type 0} (libs : Libs) (codec : Codec) (state : AppState) (env : Env)
    (publisher : Publisher S) (collate : Text → Text → Bool) (req : Request) (w : World S) where
  healthz_dispatch : (dispatch libs codec state env publisher collate req to_healthz w).1 ≡ w
  unfolding dispatch
  healthz_dispatch = ground arith

  healthz_refuses :
      is_write req.method ≡ true
      → (dispatch libs codec state env publisher collate req to_healthz w).0
        ≡ codec.method_not_allowed
  unfolding dispatch
  healthz_refuses h = ground (arith, get_reads req.method h)

  healthz_handled :
      text_eq req.path (codes "/api/v1/healthz") ≡ true
      → (handle libs codec state env publisher collate req w).1 ≡ w
  unfolding handle
  healthz_handled e = rw (route_healthz req.path e) healthz_dispatch

  healthz_refused :
      text_eq req.path (codes "/api/v1/healthz") ≡ true
      → is_write req.method ≡ true
      → (handle libs codec state env publisher collate req w).0 ≡ codec.method_not_allowed
  unfolding handle
  healthz_refused e h = rw (route_healthz req.path e) (healthz_refuses h)

verify_live :
    {S : Type 0} (libs : Libs) (state : AppState) (now : ℤ)
    (next : Request → World S → Response × World S) (req : Request) (w : World S)
    → text_eq req.path (codes "/api/v1/healthz") ≡ true
    → verify libs state now next req w ≡ (ok (next req w).0, (next req w).1)
unfolding verify
verify_live libs state now next req w live = rw live refl

not_cacheable_405 : is_cacheable 405 ≡ false
unfolding is_cacheable
not_cacheable_405 = refl

module _ {S : Type 0} (libs : Libs) (codec : Codec) (state : AppState) (now : ℤ)
    (get_env env put_env : Env) (publisher : Publisher S) (collate : Text → Text → Bool)
    (req : Request) (w : World S) where
  idle_live :
      text_eq req.path (codes "/api/v1/healthz") ≡ true
      → codec.method_not_allowed.status ≡ 405
      → (cached libs codec state now get_env env put_env publisher collate req w).1 ≡ w
  unfolding cached
  idle_live live refuses =
      layer_idle libs get_env put_env (handle libs codec state env publisher collate) req w
        (λ r same. healthz_handled libs codec state env publisher collate r w (rw same live))
        (λ r same h.
          rw (healthz_refused libs codec state env publisher collate r w (rw same live) h, refuses)
            not_cacheable_405)

  -- A request that is not authentic changes neither the database nor the published events, whatever
  -- its path, its method and its headers: the liveness path passes without a signature, but its
  -- handler only reads, and its refusal of other methods, a 405, is never cached.
  pub router_guarded :
      codec.method_not_allowed.status ≡ 405
      → ((req' : Request) → ¬ Authentic libs state now req req')
      → (router libs codec state now get_env env put_env publisher collate req w).1 ≡ w
  unfolding router
  router_guarded refuses stranger = elim (Bool-cases (text_eq req.path (codes "/api/v1/healthz"))) [
    | inl live ↦
        ap (λ x. x.1)
          (verify_live libs state now
            (cached libs codec state now get_env env put_env publisher collate) req w live)
        ∙ idle_live live refuses
    | inr guarded ↦
        elim (verify_cases libs state now req
          (cached libs codec state now get_env env put_env publisher collate) w guarded) [
            | inl (req', authentic, _) ↦ absurd (stranger req' authentic)
            | inr (_, (_, e)) ↦ ap (λ x. x.1) e
          ]
  ]
