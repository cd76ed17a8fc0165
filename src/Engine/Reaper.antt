-- ===== src/Engine/Reaper.antt =====
-- reaper.rs: `expire_holds` and `run_reaper`, under a session-level advisory lock.
pub mod Outcome
pub mod Lock
pub mod Expiry
use transity_terminal_resv_c.Common.{
  ℕ, ℤ, pos, suc, ◌-◌, ◌-ℤ◌, ltb_ℤ, leb_ℤ, ◌==◌, Bool, true, false, ◌&&◌, not, Text, text_eq, List,
  [], ◌∷◌, map, Option, none, some, any, is_empty, length, Result, ok, err, Action, pure, ◌>>=◌,
  ◌>>◌, branch, if◌then◌else◌,
}
use transity_terminal_resv_c.Engine.Types.{
  Uuid, Instant, days, ReaperResult, SqlxError, EngineError, db,
}
use transity_terminal_resv_c.Engine.Events.{Publisher, publish_best_effort, holds_released}
use transity_terminal_resv_c.Engine.Database.{
  InventoryRow, HoldRow, Tables, Database, Env, World, AdvisoryLock, unlocked, locked_by, acquire,
  try_lock, unlock, purge, select_expired, update_inventory, delete_hold, call, fetch, execute,
  begin_txn, commit_txn, autocommit,
}
use transity_terminal_resv_c.Engine.Database.Sql.{select_where, update_where, delete_where, limit}
use transity_terminal_resv_c.Engine.Database.Where.{is_active}

abbrev pub batch_limit : ℕ
batch_limit = 500

abbrev pub default_confirmed_holds_retention_days : ℤ
default_confirmed_holds_retention_days = pos 30

-- pg_try_advisory_lock and pg_advisory_unlock: a session may take its own lock again, and has to
-- give it back as often.
unfoldable pub take_lock : ℕ → AdvisoryLock → Bool × AdvisoryLock
take_lock session unlocked = (true, locked_by session 1)
take_lock session (locked_by s n) =
    if s == session then (true, locked_by s (suc n)) else (false, locked_by s n)

unfoldable pub give_lock : ℕ → AdvisoryLock → AdvisoryLock
give_lock session unlocked = unlocked
give_lock session (locked_by s n) =
    if s == session then (if n == 1 then unlocked else locked_by s (n - 1)) else locked_by s n

-- booking_id IS NOT NULL AND expires_at < $1
unfoldable pub is_purgeable : Instant → HoldRow → Bool
is_purgeable cutoff h = not (is_active h) && ltb_ℤ h.expires_at cutoff

unfoldable pub purge_confirmed : Instant → Tables → Tables
purge_confirmed cutoff t = record t { holds = delete_where (is_purgeable cutoff) t.holds }

unfoldable pub is_expired : Instant → HoldRow → Bool
is_expired now h = leb_ℤ h.expires_at now && is_active h

unfoldable pub ref_in : List Text → Option Text → Bool
ref_in refs none = false
ref_in refs (some h) = any (text_eq h) refs

-- UPDATE seat_inventory SET hold_ref = NULL WHERE hold_ref = ANY($1)
unfoldable pub unmark_expired : List Text → Tables → Tables
unmark_expired refs t = record t {
  inventory =
      update_where (λ r. ref_in refs r.hold_ref) (λ r. record r { hold_ref = none }) t.inventory;
}

-- DELETE FROM seat_holds WHERE hold_ref = ANY($1) AND booking_id IS NULL
unfoldable pub delete_expired : List Text → Tables → Tables
delete_expired refs t = record t {
  holds = delete_where (λ h. any (text_eq h.hold_ref) refs && is_active h) t.holds;
}

-- confirmed_retention_days > 0
unfoldable pub purge_enabled : ℤ → Bool
purge_enabled retention_days = ltb_ℤ (pos 0) retention_days

module _ (env : Env) where
  -- SELECT … FOR UPDATE SKIP LOCKED LIMIT $1; the rows come in the order of the table.
  unfoldable pub expired_rows : Tables → List HoldRow
  expired_rows t =
      limit batch_limit
        (select_where (λ h. is_expired env.db_now h && not (env.row_locked h.hold_ref)) t.holds)

  purge_old : ℤ → Action SqlxError Database (Unit {0})
  unfolding days autocommit
  purge_old retention_days =
      branch (purge_enabled retention_days)
        (autocommit env purge (purge_confirmed (env.app_now -ℤ days retention_days))) (pure tt)

  -- The writes for a batch that is not empty.
  release_batch : List HoldRow → Action SqlxError Database (List HoldRow)
  unfolding execute commit_txn
  release_batch rows = do
    let refs = map (λ (h : HoldRow). h.hold_ref) rows
    execute env update_inventory (unmark_expired refs)
    execute env delete_hold (delete_expired refs)
    commit_txn env
    pure rows

  unfoldable pub run_reaper : ℤ → Action SqlxError Database (List HoldRow)
  unfolding purge_old release_batch begin_txn commit_txn fetch
  run_reaper confirmed_retention_days = do
    purge_old confirmed_retention_days
    begin_txn env
    rows ← fetch env select_expired expired_rows
    branch (is_empty rows) (commit_txn env >> pure []) (release_batch rows)

  unfoldable pub try_reaper_lock : Action SqlxError Database Bool
  unfolding call take_lock
  try_reaper_lock = call env try_lock λ d.
      let (acquired, lock) = take_lock env.session d.reaper_lock in
      (ok acquired, record d { reaper_lock = lock })

  -- The result of the unlock is dropped, an error included.
  unfoldable pub release_reaper_lock : Database → Database
  unfolding call give_lock
  release_reaper_lock d =
      (call env unlock
        (λ s. (ok tt, record s { reaper_lock = give_lock env.session s.reaper_lock })) d).1

  -- `expire_holds` up to its events; `none` is the return without the lock.
  unfoldable pub expire_holds_db : ℤ → Action SqlxError Database (Option (List HoldRow))
  unfolding call try_reaper_lock release_reaper_lock
  expire_holds_db confirmed_retention_days = do
    call env acquire (λ d. (ok tt, d))
    acquired ← try_reaper_lock
    branch (not acquired) (pure none) λ d.
        let (result, d') = run_reaper confirmed_retention_days d in
        (elim result [ ok rows ↦ ok (some rows) | err e ↦ err e ], release_reaper_lock d')

  module _ {S : Type 0} (publisher : Publisher S) where
    unfoldable pub publish_released : List HoldRow → S → S
    unfolding publish_best_effort
    publish_released [] bus = bus
    publish_released (h ∷ hs) bus = publish_released hs (
        publish_best_effort publisher (holds_released h.trip_id (h.seat_no ∷ []) env.event_now) bus)

    unfoldable pub finish_reaper :
        Result SqlxError (Option (List HoldRow)) → S → Result EngineError ReaperResult × S
    unfolding publish_released
    finish_reaper (ok (some rows)) bus =
        (ok (record { released_count = length rows }), publish_released rows bus)
    finish_reaper (ok none) bus = (ok (record { released_count = 0 }), bus)
    finish_reaper (err e) bus = (err (db e), bus)

    unfoldable pub expire_holds : ℤ → Action EngineError (World S) ReaperResult
    unfolding finish_reaper
    expire_holds confirmed_retention_days w =
        let (result, database) = expire_holds_db confirmed_retention_days w.database in
        let (reply, bus) = finish_reaper result w.bus in
        (reply, record w { database = database; bus = bus })
