-- ===== src/Loadtest/Examples.antt =====
-- The theorems about the load test, applied to small runs.
mod Round
use transity_terminal_resv_c.Common.{
  ℕ, pos, ◌+◌, ◌-ℤ◌, ◌≤◌, ◌≡◌, refl, arith, Text, codes, text_eq, List, [], ◌∷◌, ◌++◌, some, ok,
}
use transity_terminal_resv_c.Common.Std.{
  as_bytes, char_bytes, sub_i64, abs_i64, wrap_i64, is_whitespace, trim,
}
use transity_terminal_resv_c.Engine.Types.{is_success}
use transity_terminal_resv_c.Engine.Events.{ReservationEvent, recording_publisher}
use transity_terminal_resv_c.Engine.Database.{InventoryRow, World}
use transity_terminal_resv_c.Engine.Database.Sql.{find_where, order_by, select_where}
use transity_terminal_resv_c.Engine.Database.Where.{at_seat}
use transity_terminal_resv_c.Engine.Hold.{
  atomic_hold, run_hold_txn, inventory_rows, is_taken, mark_inventory,
}
use transity_terminal_resv_c.Engine.Hold.Outcome.{succeeded}
use transity_terminal_resv_c.Server.Store.{lookup}
use transity_terminal_resv_c.Server.Routes.{ttl_of}
use transity_terminal_resv_c.Engine.System.{Operation, hold, perform}
use transity_terminal_resv_c.Engine.Invariant.{IsConsistent}
use transity_terminal_resv_c.Engine.Wire.{Json, object, string, field, no_fields, field_of}
use transity_terminal_resv_c.Server.Hmac.{skew_exceeded, is_allowed}
use transity_terminal_resv_c.Server.Examples.{
  plain_libs, plain_codec, app_state, env_of, free_world, hold_request, text_leb, secret,
}
use transity_terminal_resv_c.Loadtest.{Crates, Stats, Draws, new_stats, run_one, hold_ref_of}
use transity_terminal_resv_c.Loadtest.Seed.{
  like, is_seeded, seat_name, padded, seed, cleanup, run_all, total, seat_prefix, seeded_row,
}
use transity_terminal_resv_c.Loadtest.Counts.{IsReadable, run_all-total}
use transity_terminal_resv_c.Loadtest.Names.{IsLiteral}
use transity_terminal_resv_c.Loadtest.Seats.{AreFreeSeats, seed_lem}
use transity_terminal_resv_c.Loadtest.Ops.{OurRun, before_ops, then_op}
use transity_terminal_resv_c.Loadtest.Trace.{IsUnused, cleanup-OurRun}
use transity_terminal_resv_c.Loadtest.Network.{Serving}
use transity_terminal_resv_c.Loadtest.Network.Agreed.{Agreed}
use transity_terminal_resv_c.Loadtest.Network.Round.{client, run_one-released}

-- A server that answers each request with 409; the state counts the requests.
abbrev pub refusing : Crates ℕ (List ℕ)
refusing = record {
  libs = plain_libs;
  send = λ r n. (some (409, []), n + 1);
  to_string = λ j. some [];
  from_slice = λ b. some (string []);
  show_uuid = λ u. u ∷ [];
  new_histogram = [];
  record_value = λ v h. v ∷ h;
}

abbrev pub draws : Draws
draws = record {
  now = 1000;
  second_now = 1001;
  elapsed_us = 2500;
  second_elapsed_us = 1500;
  idem = 65;
  second_idem = 66;
  booking_id = 67;
}

abbrev prefix : Text
prefix = seat_prefix (codes "a1")

refusing-IsReadable : IsReadable refusing secret
refusing-IsReadable = record {
  writes = λ j. ([], refl);
  mac = λ m. m;
  keyed = refl;
  reads = λ r w status body e good. (string [], refl);
}

run_all-total_example :
    (s : Stats (List ℕ)) × (w : ℕ) × (run_all refusing secret 1 prefix 2
        (codes "hold-release")
        (λ i. draws)
        3
        (new_stats refusing)
        0
      ≡ some (s, w))
    × (total s ≡ 3)
    × (s.second_ok ≤ s.held)
run_all-total_example =
    run_all-total refusing secret 1 prefix 2 (codes "hold-release") (λ i. draws) 0 3 (omega arith)
      refusing-IsReadable

prefix-IsLiteral : IsLiteral prefix
prefix-IsLiteral = omega arith

seed_lem_example :
    let (r, d) = seed (env_of (pos 0)) 1 prefix 2 free_world.database in
    (r ≡ ok tt)
    × ((rows : List InventoryRow) × AreFreeSeats 1 prefix 2 rows
        × (d.committed ≡ record free_world.database.committed {
          inventory = rows ++ free_world.database.committed.inventory;
        }))
unfolding is_seeded like seeded_row
seed_lem_example =
    seed_lem 1 prefix (env_of (pos 0)) 2 free_world.database prefix-IsLiteral (λ c. refl)
      (omega arith) (refl, tt)

pub free_world-IsConsistent : IsConsistent free_world.database.committed
free_world-IsConsistent = record { distinct = tt; owned = (tt, tt) }

free_world-IsUnused : IsUnused 1 prefix free_world.database.committed
unfolding is_seeded like
free_world-IsUnused = record { seats = (refl, tt); holds = tt }

abbrev seeded_world : World (List ReservationEvent)
seeded_world = record free_world {
  database = (seed (env_of (pos 0)) 1 prefix 2 free_world.database).1;
}

abbrev hold_of_seat : Operation
hold_of_seat = hold (record hold_request { seat_no = seat_name prefix 0 }) (pos 300)

held_run :
    OurRun 1 prefix recording_publisher seeded_world
      (perform recording_publisher (env_of (pos 1)) hold_of_seat seeded_world)
unfolding is_seeded like seat_name padded
held_run = then_op seeded_world (env_of (pos 1)) hold_of_seat before_ops refl

cleanup-OurRun_example :
    let w = perform recording_publisher (env_of (pos 1)) hold_of_seat seeded_world in
    let t = (cleanup (env_of (pos 2)) 1 prefix w.database).1.committed in
    (t.inventory ≡ free_world.database.committed.inventory)
    × (t.holds ≡ free_world.database.committed.holds)
cleanup-OurRun_example =
    cleanup-OurRun 1 prefix recording_publisher (env_of (pos 0)) (env_of (pos 2)) 2 free_world
      (perform recording_publisher (env_of (pos 1)) hold_of_seat seeded_world) prefix-IsLiteral
      (λ c. refl) free_world-IsConsistent free_world-IsUnused held_run
