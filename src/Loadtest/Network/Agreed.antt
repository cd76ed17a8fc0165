-- ===== src/Loadtest/Network/Agreed.antt =====
-- What the client and the server have to agree on, and what the hold then leaves.
use transity_terminal_resv_c.Common.{
  ℕ, pos, ◌≡◌, refl, ap, ◌∙◌, ◌+ℤ◌, Bool, true, false, Text, codes, List, [], Option, none, some,
  is_empty, ok,
}
use transity_terminal_resv_c.Common.Std.{as_bytes, trim}
use transity_terminal_resv_c.Engine.Types.{Uuid, SeatHoldRequest, new_success, seconds, as_str}
use transity_terminal_resv_c.Engine.Events.{Publisher}
use transity_terminal_resv_c.Engine.Database.{CacheRow, Tables, World, cache_get}
use transity_terminal_resv_c.Engine.Hold.{atomic_hold}
use transity_terminal_resv_c.Engine.Hold.Outcome.{succeeded, held_tables}
use transity_terminal_resv_c.Engine.Wire.{Json}
use transity_terminal_resv_c.Server.Http.{Response, Libs}
use transity_terminal_resv_c.Server.State.{AppState}
use transity_terminal_resv_c.Server.Hmac.Sign.{sign, signed_request}
use transity_terminal_resv_c.Server.Store.{lookup}
use transity_terminal_resv_c.Server.Layer.{is_cacheable}
use transity_terminal_resv_c.Server.Layer.Key.{scoped_idempotency_key}
use transity_terminal_resv_c.Server.Routes.{hold_result, ttl_of}
use transity_terminal_resv_c.Server.App.{Codec, cached}
use transity_terminal_resv_c.Loadtest.{
  Crates, Draws, hold_json, hold_ref_of, holds_path, json_headers,
}
use transity_terminal_resv_c.Loadtest.Network.{Serving, answer}
use transity_terminal_resv_c.Loadtest.Network.Pass.{
  arrived, Trusted, IsShort, answer-cached, cached-miss,
}
use transity_terminal_resv_c.Loadtest.Network.Hold.{IsSegment, handle-hold}
use transity_terminal_resv_c.Loadtest.Network.Keys.{
  hold_keyed, hold_is_write, holds_path_guarded, created_is_cacheable,
}
use transity_terminal_resv_c.Loadtest.Network.Tables.{hold_won}
use transity_terminal_resv_c.Loadtest.Network.Release.{joined}

module _ {S H : Type 0} (libs : Libs) (codec : Codec) (state : AppState) (publisher : Publisher S)
    (collate : Text → Text → Bool) (to_string : Json → Option Text)
    (from_slice : List ℕ → Option Json) (show_uuid : Uuid → Text) (new_histogram : H)
    (record_value : ℕ → H → H) where
  abbrev pub client : Crates (World S × List Serving) H
  client =
      joined libs codec state publisher collate to_string from_slice show_uuid new_histogram
        record_value

  module _ (trip_id : Uuid) (seat_no : Text) (draws : Draws) (v u : Serving) (w : World S) where
    -- What the client and the server have to agree on: the codec reads the body that the client writes
    -- as the request `req`, a status of 200 or 201
    -- is a success, the client reads the ref in the reply of the server, the router takes it
    -- for a segment, bodies fit in the limit, and signatures are accepted.
    pub record Agreed (req : SeatHoldRequest) : Type 0 where
      pub success_200 : libs.is_success 200 ≡ true
      pub success_201 : libs.is_success 201 ≡ true
      pub trusted : Trusted libs state v draws.now
      pub second_trusted : Trusted libs state u draws.second_now
      pub mac : List ℕ → List ℕ
      pub keyed : libs.hmac_sha256 (as_bytes state.hmac_secret) ≡ some mac
      pub body : Text
      pub written : to_string (hold_json client trip_id seat_no) ≡ some body
      pub short : IsShort libs (as_bytes body)
      pub no_body : IsShort libs []
      pub extracted :
          (headers : Text × Text × Text)
          → codec.hold_body
              (arrived (codes "POST") holds_path body headers (json_headers (show_uuid draws.idem)))
            ≡ ok req
      pub legs : is_empty req.leg_indexes ≡ false
      pub seat : is_empty (trim req.seat_no) ≡ false
      pub named : is_empty (trim (show_uuid draws.idem)) ≡ false
      pub reply : List ℕ
      pub replied :
          codec.to_json (
            hold_result
              (new_success v.env.new_uuid (v.env.app_now +ℤ seconds (ttl_of state req.ttl_class))))
          ≡ reply
      pub short_reply : IsShort libs reply
      pub json : Json
      pub read : from_slice reply ≡ some json
      pub ref_read : hold_ref_of json ≡ v.env.uuid_string v.env.new_uuid
      pub segment : IsSegment (v.env.uuid_string v.env.new_uuid)
      pub ref_extracted :
          codec.path_string (v.env.uuid_string v.env.new_uuid)
          ≡ ok (v.env.uuid_string v.env.new_uuid)

    -- The key of the hold in the cache.
    abbrev pub hold_key : Text
    hold_key =
        scoped_idempotency_key libs (codes "loadtest") (codes "POST") holds_path
          (trim (show_uuid draws.idem))

    -- What the hold leaves for the release.
    pub record Held (req : SeatHoldRequest) (bytes : List ℕ) (r : Response) (w' : World S)
        : Type 0 where
      pub status : r.status ≡ 201
      pub body : r.body ≡ bytes
      pub marked :
          w'.database.committed
          ≡ record (held_tables req.trip_id req.seat_no req.leg_indexes req.operator_id
              (as_str req.ttl_class)
              (v.env.uuid_string v.env.new_uuid)
              (v.env.app_now +ℤ seconds (ttl_of state req.ttl_class))
              w.database.committed) { cache = w'.database.committed.cache }

    pub hold-Held :
        (req : SeatHoldRequest) (a : Agreed req) (headers : Text × Text × Text)
        → sign libs (pos draws.now) (codes "POST") holds_path a.body state.hmac_secret
          ≡ some headers
        → v.get_env.fails cache_get ≡ false
        → lookup hold_key v.get_env.db_now w.database.committed.cache ≡ none
        → succeeded (atomic_hold v.env publisher req (ttl_of state req.ttl_class) w).0 ≡ true
        → let (r, w') =
            answer libs codec state publisher collate v
              (signed_request
                (codes "POST")
                holds_path
                a.body
                headers
                (json_headers (show_uuid draws.idem)))
              w in
          Held req a.reply r w'
    hold-Held req a headers signed read absent won =
        let extra = json_headers (show_uuid draws.idem) in
        let reached =
          answer-cached libs codec state publisher collate v draws.now (codes "POST") holds_path
            a.body headers extra w a.trusted signed a.short holds_path_guarded in
        let (status, body, left) =
          handle-hold libs codec state v.env publisher collate w
            (arrived (codes "POST") holds_path a.body headers extra) req refl refl
            (a.extracted headers) a.legs a.seat won in
        let (same_status, same_body, same_tables) =
          cached-miss libs codec state publisher collate v draws.now (codes "POST") holds_path
            a.body headers extra w (trim (show_uuid draws.idem)) a.reply hold_is_write
            (hold_keyed a.body (show_uuid draws.idem) headers a.named) a.short read absent
            (body ∙ a.replied) a.short_reply (ap is_cacheable status ∙ created_is_cacheable) in
        let cache : List CacheRow =
          (cached libs codec state v.now v.get_env v.env v.put_env publisher collate
            (arrived (codes "POST") holds_path a.body headers extra)
            w).1.database.committed.cache in
        let (_, marked) = hold_won publisher v.env req (ttl_of state req.ttl_class) w won in
        rw reached (record {
          status = same_status ∙ status;
          body = same_body;
          marked =
              same_tables
              ∙ ap (λ (t : Tables). record t { cache = cache })
                  (ap (λ (x : World S). x.database.committed) left ∙ marked);
        })
