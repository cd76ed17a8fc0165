-- ===== src/Engine/Reaper/Lock.antt =====
-- The advisory lock of the reaper.
use transity_terminal_resv_c.Common.{ℕ, ℤ, ◌<◌, ◌≡◌, false, arith, if◌then◌else◌}
use transity_terminal_resv_c.Engine.Events.{Publisher}
use transity_terminal_resv_c.Engine.Database.{
  Database, AdvisoryLock, unlocked, locked_by, Env, World, unlock,
}
use transity_terminal_resv_c.Engine.Reaper.{
  take_lock, give_lock, run_reaper, expire_holds_db, expire_holds,
}

-- A lock that is taken was taken at least once.
abbrev pub IsHeldOnce : AdvisoryLock → Type 0
IsHeldOnce unlocked = Unit
IsHeldOnce (locked_by s n) = 0 < n

run_reaper_keeps_lock :
    (env : Env) (retention_days : ℤ) (d : Database)
    → (run_reaper env retention_days d).1.reaper_lock ≡ d.reaper_lock
unfolding run_reaper
run_reaper_keeps_lock env retention_days d = ground arith

-- Giving a lock back that was taken restores it; one that was refused is as it was.
give-take :
    (session : ℕ) (lock : AdvisoryLock)
    → IsHeldOnce lock
    → (if (take_lock session lock).0
        then give_lock session (take_lock session lock).1
        else (take_lock session lock).1)
      ≡ lock
unfolding take_lock give_lock
give-take session unlocked h = ground arith
give-take session (locked_by s n) h = ground arith

module _ {S : Type 0} (publisher : Publisher S) (env : Env) (retention_days : ℤ) (w : World S) where
  -- Whatever else fails, an unlock that goes through leaves the lock as the call found it: free, or
  -- with the session that had it.
  pub expire_holds-reaper_lock :
      IsHeldOnce w.database.reaper_lock
      → env.fails unlock ≡ false
      → (expire_holds env publisher retention_days w).1.database.reaper_lock
        ≡ w.database.reaper_lock
  unfolding expire_holds expire_holds_db
  expire_holds-reaper_lock h given =
      let taken = (take_lock env.session w.database.reaper_lock).1 in
      ground (
        arith,
        give-take env.session w.database.reaper_lock h,
        run_reaper_keeps_lock env retention_days (record w.database { reaper_lock = taken }),
      )
