-- ===== src/Engine/Reaper/Outcome.antt =====
-- What the reaper leaves behind, on every branch.
use transity_terminal_resv_c.Common.{
  ℤ, ◌-ℤ◌, ◌&&◌, any, text_eq, refl, [], ◌≡◌, ◌⊎◌, false, List, map, Option, Result, Text, none,
  some, length, arith, ok, err, if◌then◌else◌,
}
use transity_terminal_resv_c.Engine.Types.{SqlxError, days}
use transity_terminal_resv_c.Engine.Events.{Publisher}
use transity_terminal_resv_c.Engine.Database.{
  InventoryRow, HoldRow, Tables, Database, Call, Env, World, unlocked, locked_by, acquire, try_lock,
  purge, begin, select_expired, update_inventory, delete_hold, commit,
}
use transity_terminal_resv_c.Engine.Database.Where.{is_active}
use transity_terminal_resv_c.Engine.Database.Sql.Laws.{delete_where-none, update_where-none}
use transity_terminal_resv_c.Engine.Reaper.{
  ref_in, purge_enabled, expired_rows, purge_confirmed, unmark_expired, delete_expired, run_reaper,
  take_lock, expire_holds_db, finish_reaper, publish_released, expire_holds,
}

-- The tables after the purge, and after a batch of hold refs is released.
abbrev pub purged_tables : Env → ℤ → Tables → Tables
purged_tables env retention_days t =
    if purge_enabled retention_days
    then purge_confirmed (env.app_now -ℤ days retention_days) t
    else t

abbrev pub refs_of : List HoldRow → List Text
refs_of = map (λ (h : HoldRow). h.hold_ref)

abbrev pub reaped_tables : List HoldRow → Tables → Tables
reaped_tables rows t = delete_expired (refs_of rows) (unmark_expired (refs_of rows) t)

-- The committed tables after a run, by its result. An error may come after the purge.
abbrev pub Reaps : Env → ℤ → Tables → Tables → Result SqlxError (List HoldRow) → Type 0
Reaps env retention_days t t' (ok rows) =
    (rows ≡ expired_rows env (purged_tables env retention_days t))
    × (t' ≡ reaped_tables rows (purged_tables env retention_days t))
Reaps env retention_days t t' (err _) = (t' ≡ t) ⊎ (t' ≡ purged_tables env retention_days t)

ref_in-nil : (o : Option Text) → ref_in [] o ≡ false
unfolding ref_in
ref_in-nil none = refl
ref_in-nil (some h) = refl

reaped_tables_nil : (t : Tables) → reaped_tables [] t ≡ t
unfolding delete_expired unmark_expired
reaped_tables_nil t = cc (
  delete_where-none (λ (h : HoldRow). any (text_eq h.hold_ref) [] && is_active h) (λ h. refl)
      t.holds,
  update_where-none (λ (r : InventoryRow). ref_in [] r.hold_ref) (λ r. record r { hold_ref = none })
      (λ r. ref_in-nil r.hold_ref) t.inventory,
)

pub run_reaper_cases :
    (env : Env) (retention_days : ℤ) (d : Database)
    → let (r, d') = run_reaper env retention_days d in
      Reaps env retention_days d.committed d'.committed r
unfolding run_reaper
run_reaper_cases env retention_days d = ground (
  arith,
  reaped_tables_nil d.committed,
  reaped_tables_nil (purge_confirmed (env.app_now -ℤ days retention_days) d.committed),
)

module _ (env : Env) (retention_days : ℤ) (quiet : (c : Call) → env.fails c ≡ false) where
  -- With no failing call the reaper returns the batch that it selected.
  run_reaper_quiet :
      (d : Database)
      → (run_reaper env retention_days d).0
        ≡ ok (expired_rows env (purged_tables env retention_days d.committed))
  unfolding run_reaper
  run_reaper_quiet d = ground (
    arith,
    quiet purge,
    quiet begin,
    quiet select_expired,
    quiet update_inventory,
    quiet delete_hold,
    quiet commit,
  )

  -- If the lock is free too, the call reports and commits that batch.
  pub expire_holds_quiet :
      {S : Type 0} (publisher : Publisher S) (w : World S)
      → w.database.reaper_lock ≡ unlocked
      → let (r, w') = expire_holds env publisher retention_days w in
        let t = purged_tables env retention_days w.database.committed in
        (r ≡ ok (record { released_count = length (expired_rows env t) }))
        × (w'.database.committed ≡ reaped_tables (expired_rows env t) t)
        × (w'.bus ≡ publish_released env publisher (expired_rows env t) w.bus)
  unfolding expire_holds expire_holds_db take_lock finish_reaper
  expire_holds_quiet publisher w free =
      let d = record w.database { reaper_lock = locked_by env.session 1 } in
      ground (
        arith,
        quiet acquire,
        quiet try_lock,
        run_reaper_quiet d,
        run_reaper_cases env retention_days d,
      )
