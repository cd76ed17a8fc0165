-- ===== src/Loadtest/Network/Release.antt =====
-- The release, from the client to the tables.
use transity_terminal_resv_c.Common.{
  ℕ, pos, ◌≡◌, refl, ap, ◌∙◌, Bool, false, Text, codes, List, [], ◌∷◌, Option, some, ok,
}
use transity_terminal_resv_c.Common.Std.{as_bytes}
use transity_terminal_resv_c.Engine.Types.{Uuid}
use transity_terminal_resv_c.Engine.Events.{Publisher}
use transity_terminal_resv_c.Engine.Database.{HoldRow, Call, World}
use transity_terminal_resv_c.Engine.Release.{active_hold, release_hold_by_ref}
use transity_terminal_resv_c.Engine.Release.Outcome.{released_tables, release_reply}
use transity_terminal_resv_c.Engine.Lifecycle.HoldRelease.{release_txn_quiet}
use transity_terminal_resv_c.Engine.Wire.{Json}
use transity_terminal_resv_c.Server.Http.{Libs}
use transity_terminal_resv_c.Server.State.{AppState}
use transity_terminal_resv_c.Server.Hmac.Sign.{sign}
use transity_terminal_resv_c.Server.App.{Codec}
use transity_terminal_resv_c.Loadtest.{
  Crates, Stats, Draws, hold_path, no_headers, count_second, release_held,
}
use transity_terminal_resv_c.Loadtest.Network.{Serving, served}
use transity_terminal_resv_c.Loadtest.Network.Pass.{
  arrived, Trusted, IsShort, answer-cached, cached-handle,
}
use transity_terminal_resv_c.Loadtest.Network.Hold.{IsSegment, handle-release}
use transity_terminal_resv_c.Loadtest.Network.Keys.{release_unkeyed, hold_path_guarded}

module _ {S H : Type 0} (libs : Libs) (codec : Codec) (state : AppState) (publisher : Publisher S)
    (collate : Text → Text → Bool) (to_string : Json → Option Text)
    (from_slice : List ℕ → Option Json) (show_uuid : Uuid → Text) (new_histogram : H)
    (record_value : ℕ → H → H) where
  -- The client's crates, with the server at the other end of the network.
  abbrev pub joined : Crates (World S × List Serving) H
  joined = record {
    libs = libs;
    send = served libs codec state publisher collate;
    to_string = to_string;
    from_slice = from_slice;
    show_uuid = show_uuid;
    new_histogram = new_histogram;
    record_value = record_value;
  }

  module _ (trip_id : Uuid) (seat_no : Text) (draws : Draws) (v : Serving) where
    -- The release of a hold that the tables have.
    pub release_held-released :
        (hold_ref : Text) (headers : Text × Text × Text) (s : Stats H) (w : World S) (row : HoldRow)
        → Trusted libs state v draws.second_now
        → sign libs
            (pos draws.second_now)
            (codes "DELETE")
            (hold_path hold_ref)
            []
            state.hmac_secret
          ≡ some headers
        → IsShort libs []
        → IsSegment hold_ref
        → codec.path_string hold_ref ≡ ok hold_ref
        → ((c : Call) → v.env.fails c ≡ false)
        → active_hold hold_ref w.database.committed ≡ some row
        → let (s', (w', vs)) =
            release_held joined state.hmac_secret trip_id seat_no draws hold_ref s (w, v ∷ []) in
          (s' ≡ count_second joined draws.second_elapsed_us (some (200, [])) s)
          × (w'.database.committed ≡ released_tables hold_ref w.database.committed)
    unfolding release_held served
    release_held-released hold_ref headers s w row trusted signed short segment parsed quiet found =
        let path = hold_path hold_ref in
        let reached =
          answer-cached libs codec state publisher collate v draws.second_now (codes "DELETE") path
            [] headers no_headers w trusted signed (unfold as_bytes in short)
            (hold_path_guarded hold_ref)
          ∙ cached-handle libs codec state publisher collate v draws.second_now (codes "DELETE")
              path [] headers no_headers w (release_unkeyed [] path headers) in
        let (done, freed) = release_txn_quiet v.env hold_ref w.database row quiet found in
        let (status, left) =
          handle-release libs codec state v.env publisher collate w
            (arrived (codes "DELETE") path [] headers no_headers) hold_ref refl refl segment parsed
            (release_reply publisher v.env hold_ref w row done).0 in
        rw (signed, reached)
          (
            ap (λ n. count_second joined draws.second_elapsed_us (some (n, [])) s) status,
            ap (λ (x : World S). x.database.committed) left ∙ unfold release_hold_by_ref in freed,
          )
