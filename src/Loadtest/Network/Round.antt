-- ===== src/Loadtest/Network/Round.antt =====
-- One operation of the load test, a hold and its release, through the client, the middlewares, the
-- handlers and the engine.
use transity_terminal_resv_c.Common.{
  ℕ, pos, ◌+◌, ◌≡◌, refl, ap, ◌∙◌, ◌+ℤ◌, Bool, true, false, Text, codes, text_eq, List, [], ◌∷◌,
  Option, none, some,
}
use transity_terminal_resv_c.Engine.Types.{Uuid, SeatHoldRequest, seconds, as_str}
use transity_terminal_resv_c.Engine.Events.{Publisher}
use transity_terminal_resv_c.Engine.Database.{Tables, Call, World, cache_get}
use transity_terminal_resv_c.Engine.Hold.{atomic_hold}
use transity_terminal_resv_c.Engine.Hold.Outcome.{succeeded}
use transity_terminal_resv_c.Engine.Invariant.{IsConsistent}
use transity_terminal_resv_c.Engine.Wire.{Json}
use transity_terminal_resv_c.Server.Http.{Response, Libs}
use transity_terminal_resv_c.Server.State.{AppState}
use transity_terminal_resv_c.Server.Hmac.Sign.{signed_request}
use transity_terminal_resv_c.Server.Store.{lookup}
use transity_terminal_resv_c.Server.Routes.{ttl_of}
use transity_terminal_resv_c.Server.App.{Codec}
use transity_terminal_resv_c.Loadtest.{
  Crates, Stats, Draws, hold_path, holds_path, json_headers, count_held, count_second, release_held,
  second_op, on_answer, run_one,
}
use transity_terminal_resv_c.Loadtest.Counts.{sign_keyed}
use transity_terminal_resv_c.Loadtest.Network.{Serving, answer, served}
use transity_terminal_resv_c.Loadtest.Network.Tables.{hold_won, found_held, released_again}
use transity_terminal_resv_c.Loadtest.Network.Release.{joined, release_held-released}
use transity_terminal_resv_c.Loadtest.Network.Agreed.{Agreed, hold_key, hold-Held}

module _ {S H : Type 0} (libs : Libs) (codec : Codec) (state : AppState) (publisher : Publisher S)
    (collate : Text → Text → Bool) (to_string : Json → Option Text)
    (from_slice : List ℕ → Option Json) (show_uuid : Uuid → Text) (new_histogram : H)
    (record_value : ℕ → H → H) where
  abbrev pub client : Crates (World S × List Serving) H
  client =
      joined libs codec state publisher collate to_string from_slice show_uuid new_histogram
        record_value

  module _ (trip_id : Uuid) (seat_no : Text) (draws : Draws) (v u : Serving) (w : World S) where
    -- After a 201 whose body names the ref, the client releases the hold.
    on_answer-created :
        (req : SeatHoldRequest)
        (a : Agreed libs codec state publisher collate to_string from_slice show_uuid new_histogram
          record_value trip_id seat_no draws v u w req)
        (scenario : Text) (r : Response) (s : Stats H) (x : World S × List Serving)
        → text_eq scenario (codes "hold-confirm") ≡ false
        → r.status ≡ 201
        → r.body ≡ a.reply
        → on_answer client state.hmac_secret trip_id seat_no draws scenario
            (some (r.status, r.body))
            s
            x
          ≡ release_held client state.hmac_secret trip_id seat_no draws
              (v.env.uuid_string v.env.new_uuid)
              (count_held client draws.elapsed_us s)
              x
    unfolding on_answer second_op
    on_answer-created req a scenario r s x releasing status body =
        rw (status, body, a.success_201, a.read, releasing, a.ref_read) refl

    -- One operation of the load test, against the server, with a seat that it can hold: the client
    -- counts a hold and a second operation, and the server's tables are as before but for the cache.
    pub run_one-released :
        (req : SeatHoldRequest) (scenario : Text) (s : Stats H)
        → Agreed libs codec state publisher collate to_string from_slice show_uuid new_histogram
            record_value trip_id seat_no draws v u w req
        → text_eq scenario (codes "hold-confirm") ≡ false
        → v.get_env.fails cache_get ≡ false
        → lookup
            (hold_key libs codec state publisher collate to_string from_slice show_uuid
              new_histogram record_value trip_id seat_no draws v u w)
            v.get_env.db_now
            w.database.committed.cache
          ≡ none
        → succeeded (atomic_hold v.env publisher req (ttl_of state req.ttl_class) w).0 ≡ true
        → ((c : Call) → u.env.fails c ≡ false)
        → IsConsistent w.database.committed
        → let (s', (w', _)) =
            run_one client state.hmac_secret trip_id seat_no draws scenario s (w, v ∷ u ∷ []) in
          (s'.held ≡ s.held + 1)
          × (s'.second_ok ≡ s.second_ok + 1)
          × (s'.conflict ≡ s.conflict)
          × (s'.errors ≡ s.errors)
          × (w'.database.committed.inventory ≡ w.database.committed.inventory)
          × (w'.database.committed.holds ≡ w.database.committed.holds)
    unfolding run_one served
    run_one-released req scenario s a releasing read absent won quiet c =
        let (headers, signed) =
          sign_keyed libs (pos draws.now) (codes "POST") holds_path a.body state.hmac_secret a.mac
            a.keyed in
        let ref = v.env.uuid_string v.env.new_uuid in
        let (headers2, signed2) =
          sign_keyed libs (pos draws.second_now) (codes "DELETE") (hold_path ref) []
            state.hmac_secret a.mac a.keyed in
        let (r, w1) =
          answer libs codec state publisher collate v
            (signed_request (codes "POST") holds_path a.body headers
              (json_headers (show_uuid draws.idem)))
            w in
        let h =
          hold-Held libs codec state publisher collate to_string from_slice show_uuid new_histogram
            record_value trip_id seat_no draws v u w req a headers signed read absent won in
        let s1 = count_held client draws.elapsed_us s in
        let expires_at = v.env.app_now +ℤ seconds (ttl_of state req.ttl_class) in
        let (allowed, _) = hold_won publisher v.env req (ttl_of state req.ttl_class) w won in
        let found =
          found_held req.trip_id req.seat_no req.leg_indexes req.operator_id (as_str req.ttl_class)
            ref expires_at w.database.committed w1.database.committed w1.database.committed.cache
            h.marked in
        let (counted, freed) =
          release_held-released libs codec state publisher collate to_string from_slice show_uuid
            new_histogram record_value trip_id seat_no draws u ref headers2 s1 w1 _ a.second_trusted
            signed2 a.no_body a.segment a.ref_extracted quiet found in
        let back =
          freed
          ∙ released_again req.trip_id req.seat_no req.leg_indexes req.operator_id
              (as_str req.ttl_class) ref expires_at w.database.committed w1.database.committed
              w1.database.committed.cache h.marked allowed c in
        let created = on_answer-created req a scenario r s (w1, u ∷ []) releasing h.status h.body in
        rw (a.written, signed, created, counted)
          (
            unfold count_second count_held in refl,
            unfold count_second count_held in rw (a.success_200) refl,
            unfold count_second count_held in refl,
            unfold count_second count_held in refl,
            ap (λ (t : Tables). t.inventory) back,
            ap (λ (t : Tables). t.holds) back,
          )
