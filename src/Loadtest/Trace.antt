-- ===== src/Loadtest/Trace.antt =====
-- What a load test leaves behind.
use transity_terminal_resv_c.Common.{ℕ, ◌≡◌, ap, ◌∙◌, false, Text, All, arith}
use transity_terminal_resv_c.Engine.Types.{Uuid}
use transity_terminal_resv_c.Engine.Events.{Publisher}
use transity_terminal_resv_c.Engine.Database.{
  Tables, Database, Call, Env, World, clean_holds, clean_inventory,
}
use transity_terminal_resv_c.Engine.Invariant.{IsConsistent}
use transity_terminal_resv_c.Loadtest.Seed.{clean_seats, clean_seat_holds, seed, cleanup}
use transity_terminal_resv_c.Loadtest.Names.{IsLiteral}
use transity_terminal_resv_c.Loadtest.Else.{seat_is_ours, hold_is_ours, delete_where_none}
use transity_terminal_resv_c.Loadtest.Ops.{OurRun, OurRun-SameElse}
use transity_terminal_resv_c.Loadtest.Seeding.{seed-SameElse}

module _ (trip_id : Uuid) (prefix : Text) where
  -- The cleanup.
  cleanup_quiet :
      (env : Env) (d : Database)
      → ((c : Call) → env.fails c ≡ false)
      → (cleanup env trip_id prefix d).1.committed
        ≡ clean_seats trip_id prefix (clean_seat_holds trip_id prefix d.committed)
  unfolding cleanup
  cleanup_quiet env d quiet = ground (arith, quiet clean_holds, quiet clean_inventory)

  -- No row is the load test's.
  pub record IsUnused (t : Tables) : Type 0 where
    pub seats : All (λ r. seat_is_ours trip_id prefix r ≡ false) t.inventory
    pub holds : All (λ h. hold_is_ours trip_id prefix h ≡ false) t.holds

  -- From consistent tables without rows of the load test: its seeding, whatever fails in it, any
  -- operations on its seats and on the refs of their holds, in any order and whatever fails in them,
  -- and a cleanup with no failing call leave both tables exactly as they were.
  pub cleanup-OurRun :
      {S : Type 0} (publisher : Publisher S) (seed_env clean_env : Env) (seats : ℕ) (w w' : World S)
      → IsLiteral prefix
      → ((c : Call) → clean_env.fails c ≡ false)
      → IsConsistent w.database.committed
      → IsUnused w.database.committed
      → OurRun trip_id prefix publisher
          (record w { database = (seed seed_env trip_id prefix seats w.database).1 })
          w'
      → let t = (cleanup clean_env trip_id prefix w'.database).1.committed in
        (t.inventory ≡ w.database.committed.inventory) × (t.holds ≡ w.database.committed.holds)
  unfolding clean_seats clean_seat_holds
  cleanup-OurRun publisher seed_env clean_env seats w w' literal quiet c unused run =
      let (s, c1) = seed-SameElse trip_id prefix literal seed_env seats w.database c in
      let (_, r) = OurRun-SameElse trip_id prefix publisher _ w' run c1 in
      let cleaned = cleanup_quiet clean_env w'.database quiet in
      (
        ap (λ (t : Tables). t.inventory) cleaned
            ∙ r.seats
            ∙ s.seats
            ∙ delete_where_none (seat_is_ours trip_id prefix) w.database.committed.inventory
                unused.seats,
        ap (λ (t : Tables). t.holds) cleaned
            ∙ r.holds
            ∙ s.holds
            ∙ delete_where_none (hold_is_ours trip_id prefix) w.database.committed.holds
                unused.holds,
      )
