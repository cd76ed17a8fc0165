-- ===== src/Server/Tasks.antt =====
-- reaper_task.rs: the two background loops, as the ticks that they have made; what is between two
-- ticks is up to the timer.
use transity_terminal_resv_c.Common.{
  ◌≤◌, ◌*◌, length, arith, ℤ, ◌≡◌, refl, ◌∙◌, ◌≤ℤ◌, inr, Text, List, [], ◌∷◌, All,
}
use transity_terminal_resv_c.Engine.Events.{Publisher}
use transity_terminal_resv_c.Engine.Database.{unlocked, Database, Env, World}
use transity_terminal_resv_c.Engine.Types.{Instant}
use transity_terminal_resv_c.Engine.Database.Where.{is_active}
use transity_terminal_resv_c.Engine.Reaper.{expire_holds, is_expired}
use transity_terminal_resv_c.Engine.Lifecycle.Backlog.{
  expired_count, reaped_count, IsQuiet, Shrinks, reaped_count_mono, expire_holds-reaped_count,
}
use transity_terminal_resv_c.Server.Store.{get, sweep_expired}
use transity_terminal_resv_c.Server.Store.Laws.{HasDistinctKeys, get-sweep_expired}

module _ {S : Type 0} (publisher : Publisher S) (confirmed_retention_days : ℤ) where
  -- One `Env` for each tick; what a tick returns is only logged.
  unfoldable pub run : List Env → World S → World S
  unfolding expire_holds
  run [] w = w
  run (env ∷ envs) w = run envs (expire_holds env publisher confirmed_retention_days w).1

  run-Shrinks :
      (now until : Instant) (envs : List Env) (w : World S)
      → All (IsQuiet now until) envs
      → w.database.reaper_lock ≡ unlocked
      → Shrinks now until (500 * length envs) w.database.committed (run envs w).database.committed
  unfolding run
  run-Shrinks now until [] w quiet free = (omega arith, inr (omega arith))
  run-Shrinks now until (env ∷ envs) w quiet free =
      let (tick, free') =
        expire_holds-reaped_count publisher env confirmed_retention_days now until w quiet.0 free in
      ground (
        arith,
        tick,
        run-Shrinks now until envs (expire_holds env publisher confirmed_retention_days w).1 quiet.1
            free',
      )

  run-reaped_count :
      (now until : Instant) (envs : List Env) (w : World S)
      → now ≤ℤ until
      → All (IsQuiet now until) envs
      → w.database.reaper_lock ≡ unlocked
      → reaped_count until w.database.committed ≤ 500 * length envs
      → reaped_count now (run envs w).database.committed ≡ 0
  run-reaped_count now until envs w in_order quiet free enough =
      let fewer = reaped_count_mono now until in_order (run envs w).database.committed in
      ground (arith, run-Shrinks now until envs w quiet free, fewer)

  -- If nothing is in the way of the task's ticks (no failing call, no row locked by others, the lock
  -- free at the start), their clocks are between `now` and `until`, and there is one tick for every
  -- 500 of the unconsumed holds that expire by `until`, then the ticks leave no unconsumed hold that
  -- has expired by `now`.
  pub run-expired_count :
      (now until : Instant) (envs : List Env) (w : World S)
      → now ≤ℤ until
      → All (IsQuiet now until) envs
      → w.database.reaper_lock ≡ unlocked
      → expired_count until w.database.committed ≤ 500 * length envs
      → expired_count now (run envs w).database.committed ≡ 0
  unfolding is_expired is_active
  run-expired_count = run-reaped_count

unfoldable pub run_idempotency_sweep : List Env → Database → Database
unfolding sweep_expired
run_idempotency_sweep [] d = d
run_idempotency_sweep (env ∷ envs) d = run_idempotency_sweep envs (sweep_expired env d).1

-- However many sweeps have run, failed ones among them, a `get` that is not earlier than any of them
-- finds what it would have found without.
pub get-run_idempotency_sweep :
    (get_env : Env) (key : Text) (envs : List Env) (d : Database)
    → HasDistinctKeys d.committed.cache
    → All (λ (env : Env). env.db_now ≤ℤ get_env.db_now) envs
    → (get get_env key (run_idempotency_sweep envs d)).0 ≡ (get get_env key d).0
unfolding run_idempotency_sweep
get-run_idempotency_sweep get_env key [] d distinct earlier = refl
get-run_idempotency_sweep get_env key (env ∷ envs) d distinct earlier =
    let (same, still) = get-sweep_expired env get_env key d distinct earlier.0 in
    get-run_idempotency_sweep get_env key envs (sweep_expired env d).1 still earlier.1 ∙ same
