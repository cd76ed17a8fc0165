-- ===== src/Loadtest/Examples/Round.antt =====
-- One operation of the load test, against the server.
use transity_terminal_resv_c.Common.{
  ℕ, pos, ◌+◌, ◌-ℤ◌, ◌≡◌, refl, arith, codes, text_eq, List, [], ◌∷◌, some,
}
use transity_terminal_resv_c.Common.Std.{
  as_bytes, char_bytes, sub_i64, abs_i64, wrap_i64, is_whitespace, trim,
}
use transity_terminal_resv_c.Engine.Types.{is_success}
use transity_terminal_resv_c.Engine.Events.{recording_publisher}
use transity_terminal_resv_c.Engine.Database.Sql.{find_where, order_by, select_where}
use transity_terminal_resv_c.Engine.Database.Where.{at_seat}
use transity_terminal_resv_c.Engine.Hold.{
  atomic_hold, run_hold_txn, inventory_rows, is_taken, mark_inventory,
}
use transity_terminal_resv_c.Server.Store.{lookup}
use transity_terminal_resv_c.Server.Routes.{ttl_of}
use transity_terminal_resv_c.Engine.Wire.{Json, object, string, field, no_fields, field_of}
use transity_terminal_resv_c.Server.Hmac.{skew_exceeded, is_allowed}
use transity_terminal_resv_c.Server.Examples.{
  plain_libs, plain_codec, app_state, env_of, free_world, hold_request, text_leb, secret,
}
use transity_terminal_resv_c.Loadtest.{Stats, new_stats, run_one, hold_ref_of}
use transity_terminal_resv_c.Loadtest.Network.{Serving}
use transity_terminal_resv_c.Loadtest.Network.Agreed.{Agreed}
use transity_terminal_resv_c.Loadtest.Network.Round.{client, run_one-released}
use transity_terminal_resv_c.Loadtest.Examples.{refusing, draws, free_world-IsConsistent}

abbrev serving : Serving
serving = record {
  now = pos 1010;
  get_env = env_of (pos 0);
  env = env_of (pos 1);
  put_env = env_of (pos 2);
}

-- The reply of the stand-in codec is empty; it is read as an object with the ref 7.
abbrev reply_json : Json
reply_json = object (field (codes "hold_ref") (string (7 ∷ [])) no_fields)

abbrev HoldAgreed : Type 0
HoldAgreed =
    Agreed plain_libs plain_codec app_state recording_publisher text_leb (λ j. some (codes "{}"))
      (λ b. some reply_json) (λ u. u ∷ []) [] (λ v h. v ∷ h) 1 (codes "1A") draws serving serving
      free_world hold_request

hold_agreed : HoldAgreed
unfolding skew_exceeded sub_i64 abs_i64 wrap_i64 ◌-ℤ◌ as_bytes char_bytes is_allowed trim
    hold_ref_of field_of text_eq is_whitespace
hold_agreed = record {
  success_200 = refl;
  success_201 = refl;
  trusted = record { in_range = omega arith; recent = refl; allowed = refl; hex = λ x. refl };
  second_trusted = record {
    in_range = omega arith;
    recent = refl;
    allowed = refl;
    hex = λ x. refl;
  };
  mac = λ m. m;
  keyed = refl;
  body = codes "{}";
  written = refl;
  short = refl;
  no_body = refl;
  extracted = λ h. refl;
  legs = refl;
  seat = refl;
  named = refl;
  reply = [];
  replied = refl;
  short_reply = refl;
  json = reply_json;
  read = refl;
  ref_read = refl;
  segment = (refl, ((λ e. omega arith), tt));
  ref_extracted = refl;
}

abbrev no_stats : Stats (List ℕ)
no_stats = new_stats refusing

run_one-released_example :
    let (s', (w', _)) =
      run_one
        (client plain_libs plain_codec app_state recording_publisher text_leb
          (λ j. some (codes "{}"))
          (λ b. some reply_json)
          (λ u. u ∷ [])
          []
          (λ v h. v ∷ h))
        secret
        1
        (codes "1A")
        draws
        (codes "hold-release")
        no_stats
        (free_world, serving ∷ serving ∷ []) in
    (s'.held ≡ no_stats.held + 1)
    × (s'.second_ok ≡ no_stats.second_ok + 1)
    × (s'.conflict ≡ no_stats.conflict)
    × (s'.errors ≡ no_stats.errors)
    × (w'.database.committed.inventory ≡ free_world.database.committed.inventory)
    × (w'.database.committed.holds ≡ free_world.database.committed.holds)
unfolding text_eq lookup atomic_hold run_hold_txn inventory_rows is_taken ttl_of find_where order_by
    select_where at_seat mark_inventory is_success
run_one-released_example =
    run_one-released plain_libs plain_codec app_state recording_publisher text_leb
      (λ j. some (codes "{}")) (λ b. some reply_json) (λ u. u ∷ []) [] (λ v h. v ∷ h) 1 (codes "1A")
      draws serving serving free_world hold_request (codes "hold-release") no_stats hold_agreed refl
      refl refl refl (λ c. refl) free_world-IsConsistent
