-- ===== src/Server/App/Answered.antt =====
-- What the status of an answer of the server tells of the rows of the inventory and of the holds.
use transity_terminal_resv_c.Common.{
  ℕ, ℤ, ◌≡◌, ◌≢◌, refl, ap, ◌∙◌, Bool, Text, text_eq, codes, List, Option, none, some, Result, ok,
  err, arith, inl, inr, Bool-cases,
}
use transity_terminal_resv_c.Engine.Types.{SqlxError}
use transity_terminal_resv_c.Engine.Events.{Publisher}
use transity_terminal_resv_c.Engine.Database.{Database, Env, World}
use transity_terminal_resv_c.Server.Http.{Request, Response, Libs, max_body_bytes, ApiError}
use transity_terminal_resv_c.Server.State.{AppState}
use transity_terminal_resv_c.Server.Store.{CachedResponse, get, put}
use transity_terminal_resv_c.Server.Layer.{
  is_write, get_idempotency_key, is_cacheable, body_hash_of, cache_response, emit, after_lookup,
  with_body, with_key, layer,
}
use transity_terminal_resv_c.Server.Hmac.{verify, hand_on, authenticate}
use transity_terminal_resv_c.Server.App.{Codec, route, handle, either, cached, router}
use transity_terminal_resv_c.Server.App.Refused.{dispatch-Kept}

-- Apart from the cache, the committed tables and the published events are as they were.
pub record SameRows {S : Type 0} (w w' : World S) : Type 0 where
  pub inventory : w'.database.committed.inventory ≡ w.database.committed.inventory
  pub holds : w'.database.committed.holds ≡ w.database.committed.holds
  pub bus : w'.bus ≡ w.bus

-- With other statuses than 200 and 201 the rows are the same.
abbrev SameUnless : {S : Type 0} → Response → World S → World S → Type 0
SameUnless r w w' = r.status ≢ 200 → r.status ≢ 201 → SameRows w w'

pub put_rows :
    (env : Env) (key : Text) (c : CachedResponse) (d : Database)
    → ((put env key c d).1.committed.inventory ≡ d.committed.inventory)
      × ((put env key c d).1.committed.holds ≡ d.committed.holds)
unfolding put
put_rows env key c d = ground arith

pub get_keeps : (env : Env) (key : Text) (d : Database) → (get env key d).1 ≡ d
unfolding get
get_keeps env key d = ground arith

module _ {S : Type 0} (libs : Libs) (get_env put_env : Env)
    (next : Request → World S → Response × World S) (w : World S)
    (kept : (r : Request) → SameUnless (next r w).0 w (next r w).1)
    (fits : (r : Request) → libs.to_bytes max_body_bytes (next r w).0.body ≢ none) where
  same : SameRows w w
  same = record { inventory = refl; holds = refl; bus = refl }

  cache_response_rows :
      (key body_hash : Text) (status : ℕ) (bytes : List ℕ) (w' : World S)
      → SameRows w w'
      → SameRows w (cache_response libs get_env put_env next key body_hash status bytes w')
  unfolding cache_response put
  cache_response_rows key body_hash status bytes w' s =
      let (inventory, holds) =
        put_rows put_env key (record { status = status; body = bytes; body_hash = body_hash })
          w'.database in
      elim (Bool-cases (is_cacheable status)) [
        | inl h ↦
            rw h
              (record { inventory = inventory ∙ s.inventory; holds = holds ∙ s.holds; bus = s.bus })
        | inr h ↦ rw h s
      ]

  emit_rows :
      (key body_hash : Text) (r : Request) (o : Option (List ℕ))
      → o ≢ none
      → let (resp, w') = emit libs get_env put_env next key body_hash (next r w).0 o (next r w).1 in
        SameUnless (either resp) w w'
  unfolding emit
  emit_rows key body_hash r none some_body = absurd (some_body refl)
  emit_rows key body_hash r (some bytes) some_body =
      λ a b. cache_response_rows key body_hash _ bytes _ (kept r a b)

  lookup_rows :
      (key body_hash : Text) (req : Request) (r : Result SqlxError (Option CachedResponse))
      → let (resp, w') = after_lookup libs get_env put_env next key body_hash req r w in
        SameUnless (either resp) w w'
  unfolding after_lookup
  lookup_rows key body_hash req (err e) = λ a b. same
  lookup_rows key body_hash req (ok (some c)) = λ a b. same
  lookup_rows key body_hash req (ok none) = emit_rows key body_hash req _ (fits req)

  body_rows :
      (key : Text) (req : Request) (o : Option (List ℕ))
      → let (resp, w') = with_body libs get_env put_env next key req o w in
        SameUnless (either resp) w w'
  unfolding with_body
  body_rows key req none = λ a b. same
  body_rows key req (some bytes) = rw (get_keeps get_env key w.database) (
      lookup_rows key (body_hash_of libs bytes) (record req { body = bytes })
        (get get_env key w.database).0)

  key_rows :
      (req : Request) (o : Option Text)
      → let (resp, w') = with_key libs get_env put_env next req o w in SameUnless (either resp) w w'
  unfolding with_key
  key_rows req none = kept req
  key_rows req (some raw_key) = body_rows _ req (libs.to_bytes max_body_bytes req.body)

  layer_rows :
      (req : Request)
      → let (resp, w') = layer libs get_env put_env next req w in SameUnless (either resp) w w'
  unfolding layer
  layer_rows req = elim (Bool-cases (is_write req.method)) [
    | inl h ↦ rw h (key_rows req (get_idempotency_key req))
    | inr h ↦ rw h (kept req)
  ]

module _ {S : Type 0} (libs : Libs) (state : AppState) (now : ℤ)
    (next : Request → World S → Response × World S) (w : World S)
    (kept : (r : Request) → SameUnless (next r w).0 w (next r w).1) where
  hand_on_rows :
      (r : Result ApiError Request)
      → let (resp, w') = hand_on libs state now next r w in SameUnless (either resp) w w'
  unfolding hand_on
  hand_on_rows (ok r) = kept r
  hand_on_rows (err e) = λ a b. record { inventory = refl; holds = refl; bus = refl }

  verify_rows :
      (req : Request)
      → let (resp, w') = verify libs state now next req w in SameUnless (either resp) w w'
  unfolding verify
  verify_rows req = elim (Bool-cases (text_eq req.path (codes "/api/v1/healthz"))) [
    | inl live ↦ rw live (kept req)
    | inr guarded ↦ rw guarded (hand_on_rows (authenticate libs state now req))
  ]

module _ {S : Type 0} (libs : Libs) (codec : Codec) (state : AppState) (now : ℤ)
    (get_env env put_env : Env) (publisher : Publisher S) (collate : Text → Text → Bool)
    (req : Request) (w : World S) where
  cached_rows :
      ((r : Request)
        → libs.to_bytes max_body_bytes (handle libs codec state env publisher collate r w).0.body
          ≢ none)
      → (r : Request)
      → let (resp, w') = cached libs codec state now get_env env put_env publisher collate r w in
        SameUnless resp w w'
  unfolding cached handle
  cached_rows fits r =
      layer_rows libs get_env put_env (handle libs codec state env publisher collate) w
        (λ r' a b.
          let (committed, bus) =
            dispatch-Kept libs state env publisher codec collate r' (route r'.path) w a b in
          record {
            inventory = ap (λ t. t.inventory) committed;
            holds = ap (λ t. t.holds) committed;
            bus = bus;
          })
        fits r

  -- Whatever fails, and whatever the request: if the server answers it with another status than 200
  -- and 201, then it has changed no row of seat_inventory or seat_holds and published nothing. The
  -- bodies of the handlers' answers must fit in the limit of the idempotency layer, which otherwise
  -- answers 500 after the commit.
  pub router-SameRows :
      ((r : Request)
        → libs.to_bytes max_body_bytes (handle libs codec state env publisher collate r w).0.body
          ≢ none)
      → (router libs codec state now get_env env put_env publisher collate req w).0.status ≢ 200
      → (router libs codec state now get_env env put_env publisher collate req w).0.status ≢ 201
      → SameRows w (router libs codec state now get_env env put_env publisher collate req w).1
  unfolding router
  router-SameRows fits =
      verify_rows libs state now (cached libs codec state now get_env env put_env publisher collate)
        w (cached_rows fits) req
