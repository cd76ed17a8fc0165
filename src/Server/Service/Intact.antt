-- ===== src/Server/Service/Intact.antt =====
-- What an operation of the engine and the two middlewares keep.
use transity_terminal_resv_c.Common.{
  ℕ, ℤ, ◌≡◌, sym, Text, text_eq, codes, List, Option, none, some, Result, ok, err, inl, inr,
  Bool-cases,
}
use mathlib.Core.Path.{subst}
use transity_terminal_resv_c.Engine.Types.{SqlxError}
use transity_terminal_resv_c.Engine.Events.{Publisher}
use transity_terminal_resv_c.Engine.Database.{Tables, Env, World}
use transity_terminal_resv_c.Engine.Invariant.{IsConsistent}
use transity_terminal_resv_c.Engine.System.{Operation, perform}
use transity_terminal_resv_c.Engine.System.Committed.{perform-Commits}
use transity_terminal_resv_c.Engine.System.Consistency.{Commits-IsConsistent}
use transity_terminal_resv_c.Engine.System.Keys.{perform-cache}
use transity_terminal_resv_c.Server.Http.{Request, Response, Libs, ApiError, max_body_bytes}
use transity_terminal_resv_c.Server.State.{AppState}
use transity_terminal_resv_c.Server.Store.{CachedResponse, get}
use transity_terminal_resv_c.Server.Store.Laws.{HasDistinctKeys}
use transity_terminal_resv_c.Server.Layer.{
  is_write, get_idempotency_key, is_cacheable, body_hash_of, cache_response, emit, after_lookup,
  with_body, with_key, layer,
}
use transity_terminal_resv_c.Server.Hmac.{authenticate, hand_on, verify}
use transity_terminal_resv_c.Server.App.Answered.{get_keeps, put_rows}
use transity_terminal_resv_c.Server.Service.Keys.{put-HasDistinctKeys}
use transity_terminal_resv_c.Server.Service.Acts.{Acts, idle, acted}

-- Hold refs are distinct, a row that carries a ref is unbooked and covered by the unconsumed hold of
-- that ref, and the cache has one row per key.
pub record IsIntact (t : Tables) : Type 0 where
  pub consistent : IsConsistent t
  pub distinct : HasDistinctKeys t.cache

abbrev pub Intact : {S : Type 0} → World S → Type 0
Intact w = IsIntact w.database.committed

pub perform-IsIntact :
    {S : Type 0} (publisher : Publisher S) (env : Env) (op : Operation) (w : World S)
    → Intact w
    → Intact (perform publisher env op w)
perform-IsIntact publisher env op w i = record {
  consistent = Commits-IsConsistent (perform-Commits publisher env op w) i.consistent;
  distinct = subst HasDistinctKeys (sym (perform-cache publisher env op w)) i.distinct;
}

-- The cache is of no account for the rows.
pub same_rows-IsConsistent :
    (t u : Tables) → u.inventory ≡ t.inventory → u.holds ≡ t.holds → IsConsistent t → IsConsistent u
same_rows-IsConsistent t u a b c = record {
  distinct = rw b (c.distinct);
  owned = rw (a, b) (c.owned);
}

pub Acts-IsIntact :
    {S : Type 0} (publisher : Publisher S) (env : Env) (w w' : World S)
    → Acts publisher env w w'
    → Intact w
    → Intact w'
Acts-IsIntact publisher env w _ idle i = i
Acts-IsIntact publisher env w _ (acted op) i = perform-IsIntact publisher env op w i

module _ {S : Type 0} (libs : Libs) (get_env put_env : Env)
    (next : Request → World S → Response × World S)
    (keeps : (r : Request) (w : World S) → Intact w → Intact (next r w).1) where
  cache_response-IsIntact :
      (key body_hash : Text) (status : ℕ) (bytes : List ℕ) (w : World S)
      → Intact w
      → Intact (cache_response libs get_env put_env next key body_hash status bytes w)
  unfolding cache_response
  cache_response-IsIntact key body_hash status bytes w i =
      let c : CachedResponse = record { status = status; body = bytes; body_hash = body_hash } in
      let (inventory, holds) = put_rows put_env key c w.database in
      elim (Bool-cases (is_cacheable status)) [
        | inl h ↦ rw h (record {
          consistent = same_rows-IsConsistent _ _ inventory holds i.consistent;
          distinct = put-HasDistinctKeys put_env key c w.database i.distinct;
        })
        | inr h ↦ rw h i
      ]

  emit-IsIntact :
      (key body_hash : Text) (resp : Response) (o : Option (List ℕ)) (w : World S)
      → Intact w
      → Intact (emit libs get_env put_env next key body_hash resp o w).1
  unfolding emit
  emit-IsIntact key body_hash resp none w i = i
  emit-IsIntact key body_hash resp (some bytes) w i =
      cache_response-IsIntact key body_hash resp.status bytes w i

  lookup-IsIntact :
      (key body_hash : Text) (req : Request) (r : Result SqlxError (Option CachedResponse))
      (w : World S)
      → Intact w
      → Intact (after_lookup libs get_env put_env next key body_hash req r w).1
  unfolding after_lookup
  lookup-IsIntact key body_hash req (err e) w i = i
  lookup-IsIntact key body_hash req (ok (some c)) w i = i
  lookup-IsIntact key body_hash req (ok none) w i =
      emit-IsIntact key body_hash (next req w).0 _ (next req w).1 (keeps req w i)

  body-IsIntact :
      (key : Text) (req : Request) (o : Option (List ℕ)) (w : World S)
      → Intact w
      → Intact (with_body libs get_env put_env next key req o w).1
  unfolding with_body
  body-IsIntact key req none w i = i
  body-IsIntact key req (some bytes) w i = rw (get_keeps get_env key w.database) (
      lookup-IsIntact key (body_hash_of libs bytes) (record req { body = bytes })
        (get get_env key w.database).0 w i)

  key-IsIntact :
      (req : Request) (o : Option Text) (w : World S)
      → Intact w
      → Intact (with_key libs get_env put_env next req o w).1
  unfolding with_key
  key-IsIntact req none w i = keeps req w i
  key-IsIntact req (some raw_key) w i =
      body-IsIntact _ req (libs.to_bytes max_body_bytes req.body) w i

  pub layer-IsIntact :
      (req : Request) (w : World S) → Intact w → Intact (layer libs get_env put_env next req w).1
  unfolding layer
  layer-IsIntact req w i = elim (Bool-cases (is_write req.method)) [
    | inl h ↦ rw h (key-IsIntact req (get_idempotency_key req) w i)
    | inr h ↦ rw h (keeps req w i)
  ]

module _ {S : Type 0} (libs : Libs) (state : AppState) (now : ℤ)
    (next : Request → World S → Response × World S)
    (keeps : (r : Request) (w : World S) → Intact w → Intact (next r w).1) where
  hand_on-IsIntact :
      (r : Result ApiError Request) (w : World S)
      → Intact w
      → Intact (hand_on libs state now next r w).1
  unfolding hand_on
  hand_on-IsIntact (ok r) w i = keeps r w i
  hand_on-IsIntact (err e) w i = i

  pub verify-IsIntact :
      (req : Request) (w : World S) → Intact w → Intact (verify libs state now next req w).1
  unfolding verify
  verify-IsIntact req w i = elim (Bool-cases (text_eq req.path (codes "/api/v1/healthz"))) [
    | inl live ↦ rw live (keeps req w i)
    | inr guarded ↦ rw guarded (hand_on-IsIntact (authenticate libs state now req) w i)
  ]
